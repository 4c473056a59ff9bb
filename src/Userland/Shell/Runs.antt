-- ===== src/Userland/Shell/Runs.antt =====
-- What the shell of Userland/SampleCodeModule/consola.c does with a line that is typed and entered.
use peps_os.Common.{
  ℕ, zero, suc, ◌+◌, ◌-◌, ◌≤◌, ◌<◌, ◌≡◌, refl, sym, ap, ◌∙◌, arith, true, false, List, [], ◌∷◌,
  ◌++◌, ◌==◌, ltb, length, set, replicate, length-append,
}
use peps_os.Clib.Strings.{text}
use peps_os.Userland.Calls.{UserCalls}
use peps_os.Userland.Shell.{
  Line, Turn, reads, exits, overruns, put_at_end, empty_line, line_length, run_console, draw_text,
  wiped,
}
use peps_os.Userland.Shell.Typed.{type_letters, after_turn, IsText, line_of, type_letters-text}

abbrev pub IsLine : Line → Type 0
IsLine l = (length l.internal_buffer ≡ line_length) × (l.buffer_size ≤ line_length)

abbrev pub EndsInLine : {K : Type 0} → Turn K → Type 0
EndsInLine (reads l k) = IsLine l
EndsInLine (exits k) = Unit
EndsInLine (overruns x l k) = (x ≡ 8) × (IsLine l × (l.buffer_size ≡ line_length))

set-behind : (v : List ℕ) (m : ℕ) → set (v ++ replicate m 0) (length v) 0 ≡ v ++ replicate m 0
set-behind [] zero = refl
set-behind [] (suc m) = refl
set-behind (x ∷ v) m = ap (◌∷◌ x) (set-behind v m)

text-line : (v : List ℕ) (m : ℕ) → IsText v → text (v ++ replicate m 0) ≡ v
text-line [] zero h = refl
text-line [] (suc m) h = refl
text-line (x ∷ v) m (hx, h) =
    let some_letter : (x == 0) ≡ false = ground (arith, hx) in
    rw some_letter (ap (◌∷◌ x) (text-line v m h))

module _ {K : Type 0} (c : UserCalls K) where
  -- The buffer that is wiped behind a line, and what follows it.
  wiped_cons : (n x : ℕ) (b : List ℕ) → wiped (suc n) (x ∷ b) ≡ 0 ∷ wiped n b
  unfolding wiped
  wiped_cons zero x b = refl
  wiped_cons (suc n) x b = wiped_cons n x (set b n 0)

  pub wiped-append : (w r : List ℕ) → wiped (length w) (w ++ r) ≡ replicate (length w) 0 ++ r
  unfolding wiped
  wiped-append [] r = refl
  wiped-append (x ∷ w) r = wiped_cons (length w) x (w ++ r) ∙ ap (◌∷◌ 0) (wiped-append w r)

  back_turn :
      (v : List ℕ) (m : ℕ) (k : K)
      → 0 < length v
      → length v < line_length
      → type_letters c (line_of v m) (8 ∷ []) k
        ≡ reads
            (record { internal_buffer = v ++ replicate m 0; buffer_size = length v - 1 })
            (c.delete_letter_buffered k)
  unfolding type_letters run_console after_turn put_at_end
  back_turn v m k h lt =
      let inside : ltb (length v) line_length ≡ true = ground arith in
      let some_typed : (length v == 0) ≡ false = ground arith in
      rw (some_typed, inside, set-behind v m) refl

  taken_back :
      (w : List ℕ) (x : ℕ) (k : K)
      → IsText (w ++ x ∷ [])
      → suc (length w) < line_length
      → type_letters c empty_line ((w ++ x ∷ []) ++ 8 ∷ []) k
        ≡ reads
            (record {
              internal_buffer = (w ++ x ∷ []) ++ replicate (line_length - suc (length w)) 0;
              buffer_size = length w;
            })
            (c.delete_letter_buffered (draw_text c (w ++ x ∷ []) k))
  taken_back w x k h lt =
      let m = line_length - suc (length w) in
      let long : length (w ++ x ∷ []) ≡ suc (length w) = length-append w (x ∷ []) ∙ omega arith in
      let full : m + length (w ++ x ∷ []) ≡ line_length = omega (arith, long) in
      ap (λ n. type_letters c (line_of [] n) ((w ++ x ∷ []) ++ 8 ∷ []) k) (sym full)
      ∙ (type_letters-text c [] (w ++ x ∷ []) (8 ∷ []) m k h (omega (arith, full))
          ∙ (back_turn (w ++ x ∷ []) m (draw_text c (w ++ x ∷ []) k) (omega (arith, long))
                (omega (arith, long, lt))
              ∙ ap
                  (λ n.
                    reads
                      (record { internal_buffer = (w ++ x ∷ []) ++ replicate m 0; buffer_size = n })
                      (c.delete_letter_buffered (draw_text c (w ++ x ∷ []) k)))
                  (omega (arith, long))))

  -- A letter that is typed behind a text of at most 48 letters, and taken back, stays in the
  -- buffer: `bufferSize` is the text's length, but the string that the buffer holds is the text
  -- with the letter.
  pub type_letters-taken_back :
      (w : List ℕ) (x : ℕ) (k : K)
      → IsText (w ++ x ∷ [])
      → suc (length w) < line_length
      → (type_letters c empty_line ((w ++ x ∷ []) ++ 8 ∷ []) k
          ≡ reads
              (record {
                internal_buffer = (w ++ x ∷ []) ++ replicate (line_length - suc (length w)) 0;
                buffer_size = length w;
              })
              (c.delete_letter_buffered (draw_text c (w ++ x ∷ []) k)))
        × (text ((w ++ x ∷ []) ++ replicate (line_length - suc (length w)) 0) ≡ w ++ x ∷ [])
  type_letters-taken_back w x k h lt =
      (taken_back w x k h lt, text-line (w ++ x ∷ []) (line_length - suc (length w)) h)
