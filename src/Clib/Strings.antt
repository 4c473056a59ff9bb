-- ===== src/Clib/Strings.antt =====
-- The strings of Kernel/lib.c: their text is what stands before the first 0.
use peps_os.Common.{
  ℕ, suc, ◌<◌, ◌≡◌, refl, ap, arith, inl, inr, ◌↔◌, Bool, true, ◌&&◌, not, List, [], ◌∷◌, ◌==◌,
  if◌then◌else◌, length, drop, Bool-cases,
}
use peps_os.Clib.{string_length, string_copy, same_string}

abbrev pub text : List ℕ → List ℕ
text [] = []
text (c ∷ cs) = let rest = text cs in if c == 0 then [] else c ∷ rest

-- The length of a string is the length of its text.
pub string_length-length : (s : List ℕ) → string_length s ≡ length (text s)
unfolding string_length
string_length-length [] = refl
string_length-length (c ∷ cs) = elim (Bool-cases (c == 0)) [
  | inl e ↦ rw e refl
  | inr e ↦ rw e (ap suc (string_length-length cs))
]

same_next :
    (x y : ℕ) (xs ys : List ℕ) (r : Bool)
    → ((r ≡ true) ↔ (text xs ≡ text ys))
    → ((if (x == y) && (not (x == 0) && not (y == 0)) then r else x == y) ≡ true)
      ↔ (text (x ∷ xs) ≡ text (y ∷ ys))
same_next x y xs ys r h = ground (arith, h)

-- `same_string` is true exactly if the two strings have the same text, that is, the same bytes
-- before their first 0.
pub same_string-text : (s t : List ℕ) → (same_string s t ≡ true) ↔ (text s ≡ text t)
unfolding same_string
same_string-text [] [] = (λ h. refl, λ h. refl)
same_string-text [] (y ∷ ys) = ground arith
same_string-text (x ∷ xs) [] = ground arith
same_string-text (x ∷ xs) (y ∷ ys) =
    same_next x y xs ys (same_string xs ys) (same_string-text xs ys)

-- Into a buffer with more bytes than the text of `from`, `string_copy` makes a string of the same
-- text, and leaves the bytes behind its final 0.
pub string_copy-text :
    (from to : List ℕ)
    → string_length from < length to
    → (text (string_copy from to) ≡ text from)
      × (drop (suc (string_length from)) (string_copy from to) ≡ drop (suc (string_length from)) to)
unfolding string_copy string_length
string_copy-text [] [] h = absurd (omega arith)
string_copy-text [] (d ∷ ds) h = (refl, refl)
string_copy-text (c ∷ cs) [] h = absurd (omega arith)
string_copy-text (c ∷ cs) (d ∷ ds) h = elim (Bool-cases (c == 0)) [
  | inl e ↦ rw e (refl, refl)
  | inr e ↦
      let rest = string_copy-text cs ds (ground arith) in rw (e, e) (ap (◌∷◌ c) rest.0, rest.1)
]
