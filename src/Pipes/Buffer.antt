-- ===== src/Pipes/Buffer.antt =====
-- The ring buffer of a pipe in Kernel/pipes.c is a queue.
use peps_os.Common.{
  ℕ, zero, suc, ◌+◌, ◌%◌, ◌<◌, ◌≤◌, ◌≡◌, refl, sym, ap, ap₂, ◌∙◌, arith, List, [], ◌∷◌, ◌++◌,
  get_or, set, length, length-set, get_or-set_self, get_or-set_ne, inc32,
}
use peps_os.Pipes.{Pipe, buffer_length, store_char, fetch_char}

-- The `n` characters from index `r` on.
abbrev pub chars_from : ℕ → ℕ → List ℕ → List ℕ
chars_from zero r b = []
chars_from (suc n) r b = get_or b (r % buffer_length) 0 ∷ chars_from n (r + 1) b

-- A pipe that holds `n` characters that were not read yet, no more than the buffer has room for.
pub record Holds (n : ℕ) (p : Pipe) : Type 0 where
  pub room : length p.buffer ≡ buffer_length
  pub ahead : p.w_indx ≡ p.r_indx + n
  pub fits : n ≤ buffer_length
  pub small : p.w_indx < 2147483648

abbrev pub unread : ℕ → Pipe → List ℕ
unread n p = chars_from n p.r_indx p.buffer

chars_from-set :
    (n r w c : ℕ) (b : List ℕ)
    → r + n ≤ w
    → w < r + buffer_length
    → length b ≡ buffer_length
    → chars_from n r (set b (w % buffer_length) c) ≡ chars_from n r b
chars_from-set zero r w c b h k l = refl
chars_from-set (suc n) r w c b h k l =
    ap₂ ◌∷◌ (get_or-set_ne b (w % buffer_length) (r % buffer_length) c 0 (omega arith))
      (chars_from-set n (r + 1) w c b (omega arith) (omega arith) l)

chars_from-last :
    (n r : ℕ) (b : List ℕ)
    → chars_from (n + 1) r b ≡ chars_from n r b ++ get_or b ((r + n) % buffer_length) 0 ∷ []
chars_from-last zero r b =
    let e : r + 0 ≡ r = omega arith in ap (λ k. get_or b (k % buffer_length) 0 ∷ []) (sym e)
chars_from-last (suc n) r b =
    let e : suc n + 1 ≡ suc (n + 1) = omega arith in
    let k : r + 1 + n ≡ r + suc n = omega arith in
    rw e (
      ap (◌∷◌ (get_or b (r % buffer_length) 0)) (
        chars_from-last n (r + 1) b
        ∙ ap (λ j. chars_from n (r + 1) b ++ get_or b (j % buffer_length) 0 ∷ []) k))

-- In a pipe with room for one more character that was not read yet, and an index that stays an
-- `int`, storing a character, as `write_char` does, puts it behind those that were not read yet.
pub store_char-Holds :
    (n : ℕ) (p : Pipe) (c : ℕ)
    → Holds n p
    → n < buffer_length
    → p.w_indx + 1 < 2147483648
    → (unread (n + 1) (store_char p c) ≡ unread n p ++ c ∷ []) × Holds (n + 1) (store_char p c)
unfolding store_char
store_char-Holds n p c h room up =
    let here : set p.buffer (p.w_indx % buffer_length) c
        ≡ set p.buffer ((p.r_indx + n) % buffer_length) c =
      ap (λ k. set p.buffer (k % buffer_length) c) h.ahead in
    let b : List ℕ = set p.buffer ((p.r_indx + n) % buffer_length) c in
    let stored : get_or b ((p.r_indx + n) % buffer_length) 0 ≡ c =
      get_or-set_self p.buffer ((p.r_indx + n) % buffer_length) c 0 (omega (arith, h.room)) in
    (
      ap (chars_from (n + 1) p.r_indx) here
          ∙ chars_from-last n p.r_indx b
          ∙ ap₂ (λ x y. x ++ y ∷ [])
              (chars_from-set n p.r_indx (p.r_indx + n) c p.buffer (omega arith) (omega arith)
                h.room)
              stored,
      record {
        room = length-set p.buffer _ c ∙ h.room;
        ahead = omega (arith, h.ahead);
        fits = omega arith;
        small = omega arith;
      },
    )

-- From a pipe that holds a character that was not read yet, fetching one, as `read_pipe` does,
-- gives the first of them and leaves the others in their order.
pub fetch_char-Holds :
    (n : ℕ) (p : Pipe)
    → Holds (n + 1) p
    → (unread (n + 1) p ≡ (fetch_char p).0 ∷ unread n (fetch_char p).1) × Holds n (fetch_char p).1
unfolding fetch_char
fetch_char-Holds n p h =
    let e : n + 1 ≡ suc n = omega arith in
    let up : inc32 p.r_indx ≡ p.r_indx + 1 = omega (arith, h.ahead, h.small) in
    (
      ap (λ k. chars_from k p.r_indx p.buffer) e
          ∙ ap (λ k. get_or p.buffer (p.r_indx % buffer_length) 0 ∷ chars_from n k p.buffer)
              (sym up),
      record {
        room = h.room;
        ahead = omega (arith, h.ahead, up);
        fits = omega (arith, h.fits);
        small = h.small;
      },
    )
