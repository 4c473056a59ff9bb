-- ===== src/Userland/Shell/Typed.antt =====
-- The line that is typed at the shell, Userland/SampleCodeModule/consola.c.
use peps_os.Common.{
  ℕ, suc, ◌+◌, ◌≡◌, refl, ap, ◌∙◌, arith, Bool, true, false, ◌||◌, List, [], ◌∷◌, ◌++◌, ◌==◌, leb,
  ltb, All, length, set, replicate, append_assoc, append-nil, length-append, not, add-zero,
}
use peps_os.Userland.Calls.{UserCalls}
use peps_os.Userland.Shell.{
  Line, Turn, reads, exits, overruns, put_at_end, line_length, run_console, draw_text,
}

-- A letter that the loop takes for text.
abbrev pub is_text : ℕ → Bool
is_text x = not (((x == 10) || (x == 0)) || ((x == 27) || (x == 8)))

abbrev pub IsText : List ℕ → Type 0
IsText w = All (λ x. is_text x ≡ true) w

-- The line that holds `w`, with `n` bytes behind it.
abbrev pub line_of : List ℕ → ℕ → Line
line_of w n = record { internal_buffer = w ++ replicate n 0; buffer_size = length w }

set-end : (w r : List ℕ) (z x : ℕ) → set (w ++ z ∷ r) (length w) x ≡ (w ++ x ∷ []) ++ r
set-end [] r z x = refl
set-end (y ∷ w) r z x = ap (◌∷◌ y) (set-end w r z x)

module _ {K : Type 0} (c : UserCalls K) where
  unfoldable pub after_turn : (Line → K → Turn K) → Turn K → Turn K
  after_turn next (reads l k) = next l k
  after_turn next (exits k) = exits k
  after_turn next (overruns x l k) = overruns x l k

  -- The loop of `runConsole` over the letters that are typed.
  unfoldable pub type_letters : Line → List ℕ → K → Turn K
  unfolding after_turn
  type_letters l [] k = reads l k
  type_letters l (x ∷ xs) k = after_turn (λ l' k'. type_letters l' xs k') (run_console c l x k)

  run_console-text :
      (w : List ℕ) (n x : ℕ) (k : K)
      → is_text x ≡ true
      → suc n + length w ≡ line_length
      → run_console c (line_of w (suc n)) x k
        ≡ reads (line_of (w ++ x ∷ []) n) (c.draw_letter_from_char x k)
  unfolding run_console put_at_end
  run_console-text w n x k h e =
      let enter : (x == 10) ≡ false = ground (arith, h) in
      let nothing : (x == 0) ≡ false = ground (arith, h) in
      let escape : (x == 27) ≡ false = ground (arith, h) in
      let back : (x == 8) ≡ false = ground (arith, h) in
      let room : leb line_length (length w) ≡ false = ground arith in
      let inside : ltb (length w) line_length ≡ true = ground arith in
      rw
        (
          enter,
          nothing,
          escape,
          back,
          room,
          inside,
          set-end w (replicate n 0) 0 x,
          length-append w (x ∷ []),
        )
        refl

  draw_text-letter :
      (x : ℕ) (xs : List ℕ) (k : K)
      → is_text x ≡ true
      → draw_text c (x ∷ xs) k ≡ draw_text c xs (c.draw_letter_from_char x k)
  unfolding draw_text
  draw_text-letter x xs k h = let nothing : (x == 0) ≡ false = ground (arith, h) in rw nothing refl

  -- Text that there is room for is drawn, and stands behind what was typed before.
  pub type_letters-text :
      (w v more : List ℕ) (n : ℕ) (k : K)
      → IsText v
      → (n + length v) + length w ≡ line_length
      → type_letters (line_of w (n + length v)) (v ++ more) k
        ≡ type_letters (line_of (w ++ v) n) more (draw_text c v k)
  unfolding type_letters draw_text
  type_letters-text w [] more n k h e = rw (append-nil w, add-zero n) refl
  type_letters-text w (x ∷ v) more n k (hx, hv) e =
      let longer : n + suc (length v) ≡ suc (n + length v) = omega arith in
      rw
        (
          longer,
          run_console-text w (n + length v) x k hx (omega (arith, e)),
          draw_text-letter x v k hx,
        )
        (type_letters-text (w ++ x ∷ []) v more n (c.draw_letter_from_char x k) hv
            (omega (arith, e, length-append w (x ∷ [])))
          ∙ ap (λ u. type_letters (line_of u n) more (draw_text c v (c.draw_letter_from_char x k)))
              (append_assoc w (x ∷ []) v))
