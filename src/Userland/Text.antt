-- ===== src/Userland/Text.antt =====
-- Userland/SampleCodeModule/user_lib.c, and the number printers of philosophers.c. A `char *` is the list of the bytes from
-- there on, as in Kernel/lib.c.
pub mod Compared
pub mod Parsed
pub mod Tokens
use peps_os.Common.{
  ℕ, zero, suc, ◌+◌, ◌-◌, ◌*◌, ◌/◌, ◌%◌, Bool, true, false, ◌&&◌, ◌||◌, not, List, [], ◌∷◌, ◌==◌,
  ltb, leb, if◌then◌else◌, get_or, set, drop, Option, none, some, u32_mod, u64_mod, minus_one,
  is_negative,
}

-- The place of a `char` among the others: a byte above 127 is negative.
abbrev pub char_order : ℕ → ℕ
char_order c = (c + 128) % 256

-- `compareStrings`.
unfoldable pub compare_strings : List ℕ → List ℕ → ℕ
compare_strings [] [] = 0
compare_strings [] (y ∷ ys) = if y == 0 then 0 else minus_one
compare_strings (x ∷ xs) [] = if x == 0 then 0 else 1
compare_strings (x ∷ xs) (y ∷ ys) =
    let rest = compare_strings xs ys in
    if (x == 0) || (y == 0)
    then (if y == 0 then (if x == 0 then 0 else 1) else minus_one)
    else (if ltb (char_order y) (char_order x)
        then 1
        else (if ltb (char_order x) (char_order y) then minus_one else rest))

abbrev pub arg_length : ℕ
arg_length = 20

-- `string[indx] && string[indx] != token` fails.
abbrev pub stops : ℕ → ℕ → Bool
stops token c = (c == 0) || (c == token)

-- `for (indx = 0; string[indx] && string[indx] != token; indx++);`.
unfoldable pub word_length : ℕ → List ℕ → ℕ
word_length token [] = 0
word_length token (c ∷ cs) =
    let rest = word_length token cs in if stops token c then 0 else suc rest

-- `for (int i = 0; string[indx] && string[indx] != token && i < ARG_LENGTH; indx++) s1[i++] =
-- string[indx];` with `room` turns left: how far `indx` goes, and the bytes at `s1`.
unfoldable pub copy_token : ℕ → ℕ → List ℕ → List ℕ → ℕ × List ℕ
copy_token zero token string s1 = (0, s1)
copy_token (suc room) token [] s1 = (0, s1)
copy_token (suc room) token (c ∷ cs) [] =
    let rest = copy_token room token cs [] in if stops token c then (0, []) else (suc rest.0, [])
copy_token (suc room) token (c ∷ cs) (d ∷ ds) =
    let rest = copy_token room token cs ds in
    if stops token c then (0, d ∷ ds) else (suc rest.0, c ∷ rest.1)

-- The three buffers of `stringTokenizer`.
pub record Tokenized : Type 0 where
  pub string : List ℕ
  pub s1 : List ℕ
  pub s2 : List ℕ

-- From the second separator, at index `j`, on.
unfoldable pub second_token : List ℕ → ℕ → List ℕ → List ℕ → ℕ → Tokenized
unfolding copy_token
second_token string j s1 s2 token =
    let string' = set string j 0 in
    let (n, s2') = copy_token arg_length token (drop (suc j) string') s2 in
    record { string = set string' (suc j + n) 0; s1 = s1; s2 = s2' }

-- From the first separator, at index `i`, on.
unfoldable pub first_token : List ℕ → ℕ → List ℕ → List ℕ → ℕ → Tokenized
unfolding second_token
first_token string i s1 s2 token =
    let string' = set string i 0 in
    let (n, s1') = copy_token arg_length token (drop (suc i) string') s1 in
    if get_or string' (suc i + n) 0 == 0
    then record { string = string'; s1 = s1'; s2 = s2 }
    else second_token string' (suc i + n) s1' s2 token

-- `stringTokenizer`.
unfoldable pub string_tokenizer : List ℕ → List ℕ → List ℕ → ℕ → Tokenized
unfolding word_length first_token
string_tokenizer string s1 s2 token =
    let i = word_length token string in
    if (token == 0) || (get_or string i 0 == 0)
    then record { string = string; s1 = s1; s2 = s2 }
    else first_token string i s1 s2 token

-- `stringCopyNaive`, which does not store the final 0.
unfoldable pub string_copy_naive : List ℕ → List ℕ → List ℕ
string_copy_naive cs [] = []
string_copy_naive [] (d ∷ ds) = d ∷ ds
string_copy_naive (c ∷ cs) (d ∷ ds) =
    let rest = string_copy_naive cs ds in if c == 0 then d ∷ ds else c ∷ rest

-- `hexCharToInt`.
unfoldable pub hex_char_to_int : ℕ → ℕ
hex_char_to_int c =
    if leb 48 c && leb c 57
    then c - 48
    else (if leb 97 c && leb c 102
        then (c - 97) + 10
        else (if leb 65 c && leb c 70 then (c - 65) + 10 else minus_one))

-- The loop of `hexToULL`. The four lower bits of `result << 4` are 0.
unfoldable pub hex_from : ℕ → List ℕ → ℕ
unfolding hex_char_to_int
hex_from result [] = result
hex_from result (c ∷ cs) =
    let value = hex_char_to_int c in
    let rest = hex_from ((result * 16) % u64_mod + value) cs in
    if c == 0 then result else (if value == minus_one then u64_mod - 1 else rest)

-- `hexToULL`.
unfoldable pub hex_to_ull : List ℕ → ℕ
unfolding hex_from
hex_to_ull str = hex_from 0 str

abbrev pub is_digit : ℕ → Bool
is_digit c = leb 48 c && leb c 57

-- `res * 10 + str[i] - '0'` on 64 bits.
abbrev pub next_value : ℕ → ℕ → ℕ
next_value res c = (res * 10 + c + (u64_mod - 48)) % u64_mod

-- The loop of `satoi` from the sign on; `none` is the early return of 0.
unfoldable pub digits_from : ℕ → List ℕ → Option ℕ
digits_from res [] = some res
digits_from res (c ∷ cs) =
    let rest = digits_from (next_value res c) cs in
    if c == 0 then some res else (if is_digit c then rest else none)

abbrev pub or_zero : Option ℕ → ℕ
or_zero none = 0
or_zero (some n) = n

abbrev pub negated : ℕ → ℕ
negated n = (u64_mod - n) % u64_mod

-- `satoi`.
unfoldable pub satoi : List ℕ → ℕ
unfolding digits_from
satoi [] = 0
satoi (c ∷ cs) =
    if c == 45 then negated (or_zero (digits_from 0 cs)) else or_zero (digits_from 0 (c ∷ cs))
