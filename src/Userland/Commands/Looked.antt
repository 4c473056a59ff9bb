-- ===== src/Userland/Commands/Looked.antt =====
-- Which commands `getCommandType` of Userland/SampleCodeModule/consola.c knows.
use peps_os.Common.{
  ℕ, ◌≡◌, refl, sym, ap, ◌∙◌, arith, Bool, true, false, ◌&&◌, not, inl, inr, List, [], ◌∷◌, ◌==◌,
  ltb, if◌then◌else◌, codes, All, Bool-cases, ◌⊎◌, ◌≢◌, subst,
}
use peps_os.Clib.Strings.{text}
use peps_os.Userland.Text.{compare_strings}
use peps_os.Userland.Text.Compared.{compare_strings-Orders, IsByte, IsBefore}
use peps_os.Userland.Commands.{
  classify, first_match, command_names, is_command, CommandType, piped_pair, is_kill_command,
  is_nice_command, is_block_command, unknown, process_kill, process_nice, process_block_toggle,
}

-- A comparison stops at the end of the first text.
compare_strings-text : (s t : List ℕ) → compare_strings s t ≡ compare_strings (text s) t
unfolding compare_strings
compare_strings-text [] t = refl
compare_strings-text (x ∷ xs) [] = elim (Bool-cases (x == 0)) [
  | inl e ↦ rw e refl
  | inr e ↦ rw (e, e) refl
]
compare_strings-text (x ∷ xs) (y ∷ ys) = elim (Bool-cases (x == 0)) [
  | inl e ↦ rw e refl
  | inr e ↦ rw (e, e, compare_strings-text xs ys) refl
]

-- The type of a command, by a table of names: the first name that is the command's text, and
-- `unknown` if there is none.
abbrev pub Names : List ℕ → List (List ℕ × CommandType) → CommandType → Type 0
Names c [] r = r ≡ unknown
Names c ((name, type) ∷ names) r = ((c ≡ name) × (r ≡ type)) ⊎ ((c ≢ name) × Names c names r)

abbrev are_bytes : List ℕ → Bool
are_bytes [] = true
are_bytes (c ∷ cs) = ltb c 256 && are_bytes cs

abbrev has_no_zero : List ℕ → Bool
has_no_zero [] = true
has_no_zero (c ∷ cs) = not (c == 0) && has_no_zero cs

are_bytes-All : (s : List ℕ) → are_bytes s ≡ true → All IsByte s
are_bytes-All [] h = tt
are_bytes-All (c ∷ cs) h = (ground arith, are_bytes-All cs (ground arith))

-- A name is a text of bytes.
abbrev IsName : List ℕ → Type 0
IsName name = (text name ≡ name) × (are_bytes name ≡ true)

not-IsBefore_self : (xs : List ℕ) → ¬ IsBefore xs xs
not-IsBefore_self [] h = h
not-IsBefore_self (x ∷ xs) (inl h) = absurd (omega arith)
not-IsBefore_self (x ∷ xs) (inr (_, h)) = not-IsBefore_self xs h

is_command-name :
    (s name : List ℕ) → All IsByte s → IsName name → is_command s name ≡ true → text s ≡ name
is_command-name s name hs (e, hn) h =
    elim (compare_strings-Orders s name hs (are_bytes-All name hn)) [
      | inl (_, same) ↦ same ∙ e
      | inr (inl (r, _)) ↦ absurd (ground (arith, r))
      | inr (inr (r, _)) ↦ absurd (ground (arith, r))
    ]

not-is_command-name :
    (s name : List ℕ) → All IsByte s → IsName name → is_command s name ≡ false → text s ≢ name
not-is_command-name s name hs (e, hn) h same =
    elim (compare_strings-Orders s name hs (are_bytes-All name hn)) [
      | inl (r, _) ↦ absurd (ground (arith, r))
      | inr (inl (_, before)) ↦
          not-IsBefore_self (text name) (subst (λ z. IsBefore (text name) z) (same ∙ sym e) before)
      | inr (inr (_, before)) ↦
          not-IsBefore_self (text name) (subst (λ z. IsBefore z (text name)) (same ∙ sym e) before)
    ]

first_match-Names :
    (s : List ℕ) (names : List (List ℕ × CommandType))
    → All IsByte s
    → All (λ n. IsName n.0) names
    → Names (text s) names (first_match s names)
unfolding first_match
first_match-Names s [] hs hn = refl
first_match-Names s ((name, type) ∷ names) hs (hn, hns) = elim (Bool-cases (is_command s name)) [
  | inl e ↦ rw e (inl (is_command-name s name hs hn e, refl))
  | inr e ↦ rw e (inr (not-is_command-name s name hs hn e, first_match-Names s names hs hns))
]

first_match-text :
    (s : List ℕ) (names : List (List ℕ × CommandType))
    → first_match s names ≡ first_match (text s) names
unfolding first_match
first_match-text s [] = refl
first_match-text s ((name, type) ∷ names) =
    rw (compare_strings-text s name, first_match-text s names) refl

first_match-name :
    (s name : List ℕ)
    → All IsByte s
    → IsName name
    → is_command s name ≡ true
    → first_match s command_names ≡ first_match name command_names
first_match-name s name hs hn e =
    first_match-text s command_names
    ∙ ap (λ c. first_match c command_names) (is_command-name s name hs hn e)

and_left : (a b : Bool) → (a && b) ≡ true → a ≡ true
and_left true b h = refl
and_left false b h = h

-- The tests of the arguments of `kill`, `nice` and `block` make no difference: the table has the
-- same commands.
early_tests :
    (s : List ℕ) (n1 n2 : Bool)
    → (is_command s (codes "kill") ≡ true → first_match s command_names ≡ process_kill)
    → (is_command s (codes "nice") ≡ true → first_match s command_names ≡ process_nice)
    → (is_command s (codes "block") ≡ true → first_match s command_names ≡ process_block_toggle)
    → (if is_command s (codes "kill") && n1
        then process_kill
        else (if is_command s (codes "nice") && (n1 && n2)
            then process_nice
            else (if is_command s (codes "block") && n1
                then process_block_toggle
                else first_match s command_names)))
      ≡ first_match s command_names
early_tests s n1 n2 hk hn hb = elim (Bool-cases (is_command s (codes "kill") && n1)) [
  | inl e ↦ rw e (sym (hk (and_left _ _ e)))
  | inr e ↦ elim (Bool-cases (is_command s (codes "nice") && (n1 && n2))) [
    | inl f ↦ rw (e, f) (sym (hn (and_left _ _ f)))
    | inr f ↦ elim (Bool-cases (is_command s (codes "block") && n1)) [
      | inl g ↦ rw (e, f, g) (sym (hb (and_left _ _ g)))
      | inr g ↦ rw (e, f, g) refl
    ]
  ]
]

abbrev are_names : List (List ℕ × CommandType) → Bool
are_names [] = true
are_names ((name, type) ∷ names) = has_no_zero name && (are_bytes name && are_names names)

has_no_zero-text : (s : List ℕ) → has_no_zero s ≡ true → text s ≡ s
has_no_zero-text [] h = refl
has_no_zero-text (c ∷ cs) h = elim (Bool-cases (c == 0)) [
  | inl e ↦ absurd (ground (arith, e))
  | inr e ↦ rw e (ap (◌∷◌ c) (has_no_zero-text cs (ground (arith, e))))
]

are_names-All :
    (names : List (List ℕ × CommandType)) → are_names names ≡ true → All (λ n. IsName n.0) names
are_names-All [] h = tt
are_names-All ((name, type) ∷ names) h = (
  (has_no_zero-text name (ground (arith, h)), ground (arith, h)),
  are_names-All names (ground (arith, h)),
)

command_names-IsName : All (λ n. IsName n.0) command_names
command_names-IsName = are_names-All command_names refl

-- For a command of bytes whose first argument is not `|`, the type is that of the first name in the
-- table that is the command's text, and unknown if there is none; if the first argument is `|`, it
-- is a pair of programs.
pub classify-Names :
    (s : List ℕ) (n1 n2 : ℕ)
    → All IsByte s
    → Names (text s) command_names (classify s false n1 n2) × (classify s true n1 n2 ≡ piped_pair)
unfolding classify is_kill_command is_nice_command is_block_command compare_strings
classify-Names s n1 n2 hs = (
  rw
      (early_tests s (not (n1 == 0)) (not (n2 == 0))
        (first_match-name s (codes "kill") hs (refl, refl))
        (first_match-name s (codes "nice") hs (refl, refl))
        (first_match-name s (codes "block") hs (refl, refl)))
      (first_match-Names s command_names hs command_names-IsName),
  refl,
)
