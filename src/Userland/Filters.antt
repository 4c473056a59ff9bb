-- ===== src/Userland/Filters.antt =====
-- Userland/SampleCodeModule/IPC.c: the programs that read a pipe letter by letter, on the letters that
-- come. A program that has read them all waits for more.
pub mod Vowels
use peps_os.Common.{
  ℕ, ◌+◌, Bool, false, ◌||◌, List, [], ◌∷◌, ◌==◌, ltb, if◌then◌else◌, codes, u32_mod, ◌%◌,
}

-- What a program writes: a text or letter, or a number.
pub data Shown : Type 0 where
  letters : List ℕ → Shown
  number : ℕ → Shown

-- What a program has written when it exits, has killed itself, or waits.
pub data Written : Type 0 where
  exited killed waits : List Shown → Written

-- A program that writes `x` first.
abbrev pub writes : Shown → Written → Written
writes x (exited out) = exited (x ∷ out)
writes x (killed out) = killed (x ∷ out)
writes x (waits out) = waits (x ∷ out)

abbrev pub kill_signal : ℕ
kill_signal = 3

abbrev pub end_of_file : ℕ
end_of_file = 4

-- The condition at which the loops of `wc` and `filter` end.
abbrev pub is_end : ℕ → Bool
is_end c = (c == 0) || (c == end_of_file)

-- The loop of `wc`, with its counter.
unfoldable pub wc_from : ℕ → List ℕ → Written
wc_from count [] = waits []
wc_from count (c ∷ cs) =
    let told = wc_from ((count + 1) % u32_mod) cs in
    let rest = wc_from count cs in
    if is_end c
    then exited []
    else (if c == 10
        then writes (letters (codes "Text is "))
            (writes (number count) (writes (letters (codes " Lines long\n")) told))
        else (if c == kill_signal then killed [] else rest))

-- `wc`.
unfoldable pub wc : List ℕ → Written
unfolding wc_from
wc input = wc_from 1 input

unfoldable pub to_lowercase : ℕ → ℕ
to_lowercase c = if ltb c 90 then c + 32 else c

unfoldable pub is_a_vowel : ℕ → Bool
unfolding to_lowercase
is_a_vowel c =
    if ltb c 65 || ltb 117 c
    then false
    else (let l = to_lowercase c in
        (l == 97) || ((l == 101) || ((l == 105) || ((l == 111) || (l == 117)))))

-- `filter`.
unfoldable pub filter : List ℕ → Written
unfolding is_a_vowel
filter [] = waits []
filter (c ∷ cs) =
    let rest = filter cs in
    if is_end c
    then exited []
    else (if is_a_vowel c
        then writes (letters (c ∷ [])) rest
        else (if c == kill_signal then killed [] else rest))

-- `cat`: an end of file is written too.
unfoldable pub cat : List ℕ → Written
cat [] = waits []
cat (c ∷ cs) =
    let rest = writes (letters (c ∷ [])) (cat cs) in
    if c == kill_signal
    then killed []
    else (if c == end_of_file then exited (letters (c ∷ []) ∷ []) else rest)
