-- ===== src/Userland/Filters/Vowels.antt =====
-- What `filter` of Userland/SampleCodeModule/IPC.c lets through.
use peps_os.Common.{
  ℕ, ◌≡◌, refl, arith, Bool, true, false, ◌||◌, List, [], ◌∷◌, ◌++◌, ◌==◌, if◌then◌else◌, codes,
  All, Bool-cases, inl, inr,
}
use peps_os.Userland.Filters.{
  Shown, letters, exited, is_end, kill_signal, is_a_vowel, to_lowercase, filter,
}

abbrev is_one_of : List ℕ → ℕ → Bool
is_one_of [] c = false
is_one_of (d ∷ ds) c = (c == d) || is_one_of ds c

-- The letters that are vowels.
abbrev pub vowels_of : List ℕ → List Shown
vowels_of [] = []
vowels_of (c ∷ cs) =
    if is_one_of (codes "AEIOUaeiou") c then letters (c ∷ []) ∷ vowels_of cs else vowels_of cs

abbrev pub IsLetter : ℕ → Type 0
IsLetter c = (is_end c ≡ false) × ((c == kill_signal) ≡ false)

is_a_vowel-table : (c : ℕ) → is_a_vowel c ≡ is_one_of (codes "AEIOUaeiou") c
unfolding is_a_vowel to_lowercase
is_a_vowel-table c = ground arith

-- For bytes that are none of 0, end of file and the kill signal, followed by 0 or end of file,
-- `filter` writes exactly those of them that are one of the ten vowels, in their order, and exits.
pub filter-vowels :
    (w rest : List ℕ) (end : ℕ)
    → All IsLetter w
    → is_end end ≡ true
    → filter (w ++ end ∷ rest) ≡ exited (vowels_of w)
unfolding filter
filter-vowels [] rest end h e = rw e refl
filter-vowels (c ∷ w) rest end ((some_letter, alive), h) e =
    elim (Bool-cases (is_one_of (codes "AEIOUaeiou") c)) [
      | inl v ↦ rw (some_letter, is_a_vowel-table c, v, filter-vowels w rest end h e) refl
      | inr v ↦ rw (some_letter, is_a_vowel-table c, v, alive, filter-vowels w rest end h e) refl
    ]
