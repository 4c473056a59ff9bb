-- ===== src/Userland/Text/Compared.antt =====
-- The order of `compareStrings` in Userland/SampleCodeModule/user_lib.c.
use peps_os.Common.{
  ℕ, ◌<◌, ◌≡◌, refl, ap, arith, ◌⊎◌, inl, inr, List, [], ◌∷◌, ◌==◌, ltb, if◌then◌else◌, All,
  Bool-cases, minus_one, ltb→lt, subst, false,
}
use peps_os.Clib.Strings.{text}
use peps_os.Userland.Text.{compare_strings, char_order}

-- The lexicographic order of texts, where a byte above 127 is a negative `char`.
abbrev pub IsBefore : List ℕ → List ℕ → Type 0
IsBefore xs [] = ⊥
IsBefore [] (y ∷ ys) = Unit
IsBefore (x ∷ xs) (y ∷ ys) = (char_order x < char_order y) ⊎ ((x ≡ y) × IsBefore xs ys)

-- What a comparison says.
abbrev pub Orders : List ℕ → List ℕ → ℕ → Type 0
Orders xs ys r =
    ((r ≡ 0) × (xs ≡ ys)) ⊎ (((r ≡ 1) × IsBefore ys xs) ⊎ ((r ≡ minus_one) × IsBefore xs ys))

abbrev pub IsByte : ℕ → Type 0
IsByte c = c < 256

Orders-same : (c : ℕ) (xs ys : List ℕ) (r : ℕ) → Orders xs ys r → Orders (c ∷ xs) (c ∷ ys) r
Orders-same c xs ys r (inl (e, h)) = inl (e, ap (◌∷◌ c) h)
Orders-same c xs ys r (inr (inl (e, h))) = inr (inl (e, inr (refl, h)))
Orders-same c xs ys r (inr (inr (e, h))) = inr (inr (e, inr (refl, h)))

-- Two bytes that are in no order are the same.
char_order-same :
    (x y : ℕ)
    → x < 256
    → y < 256
    → ltb (char_order y) (char_order x) ≡ false
    → ltb (char_order x) (char_order y) ≡ false
    → x ≡ y
char_order-same x y hx hy h h' = ground arith

Orders-next :
    (x y : ℕ) (xs ys : List ℕ) (r : ℕ)
    → x < 256
    → y < 256
    → Orders xs ys r
    → Orders (x ∷ xs) (y ∷ ys) (
        if ltb (char_order y) (char_order x)
        then 1
        else (if ltb (char_order x) (char_order y) then minus_one else r))
Orders-next x y xs ys r hx hy h = elim (Bool-cases (ltb (char_order y) (char_order x))) [
  | inl above ↦ rw above (inr (inl (refl, inl (ltb→lt _ _ above))))
  | inr not_above ↦ elim (Bool-cases (ltb (char_order x) (char_order y))) [
    | inl below ↦ rw (not_above, below) (inr (inr (refl, inl (ltb→lt _ _ below))))
    | inr not_below ↦
        rw (not_above, not_below)
          (subst (λ z. Orders (x ∷ xs) (z ∷ ys) r) (char_order-same x y hx hy not_above not_below)
            (Orders-same x xs ys r h))
  ]
]

-- For strings of bytes, `compareStrings` is 0 exactly for equal texts, 1 where the second text
-- comes first in the order of `char`s, and -1 where the first does: one of the three holds.
pub compare_strings-Orders :
    (s t : List ℕ) → All IsByte s → All IsByte t → Orders (text s) (text t) (compare_strings s t)
unfolding compare_strings
compare_strings-Orders [] [] hs ht = inl (refl, refl)
compare_strings-Orders [] (y ∷ ys) hs ht = elim (Bool-cases (y == 0)) [
  | inl e ↦ rw e (inl (refl, refl))
  | inr e ↦ rw e (inr (inr (refl, tt)))
]
compare_strings-Orders (x ∷ xs) [] hs ht = elim (Bool-cases (x == 0)) [
  | inl e ↦ rw e (inl (refl, refl))
  | inr e ↦ rw e (inr (inl (refl, tt)))
]
compare_strings-Orders (x ∷ xs) (y ∷ ys) (hx, hs) (hy, ht) = elim (Bool-cases (x == 0)) [
  | inl e ↦ elim (Bool-cases (y == 0)) [
    | inl f ↦ rw (e, f) (inl (refl, refl))
    | inr f ↦ rw (e, f) (inr (inr (refl, tt)))
  ]
  | inr e ↦ elim (Bool-cases (y == 0)) [
    | inl f ↦ rw (e, f) (inr (inl (refl, tt)))
    | inr f ↦
        rw (e, f)
          (Orders-next x y (text xs) (text ys) (compare_strings xs ys) hx hy
            (compare_strings-Orders xs ys hs ht))
  ]
]
