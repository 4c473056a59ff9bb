-- ===== src/Userland/Text/Parsed.antt =====
-- What the number parsers of Userland/SampleCodeModule/user_lib.c make of the digits that the printers
-- of Kernel/video.c draw.
use peps_os.Common.{
  ℕ, zero, suc, ◌+◌, ◌*◌, ◌/◌, ◌%◌, ◌≤◌, ◌<◌, ◌≡◌, refl, ap, ◌∙◌, arith, inl, inr, true, false,
  none, List, [], ◌∷◌, ◌==◌, All, Bool-cases, reverse_aux, u64_mod, minus_one, length, get_or,
}
use peps_os.Clib.Strings.{text}
use peps_os.Console.{long_buffer, hex_buffer, hex_digit}
use peps_os.Console.Digits.{
  buffer_value, digit_value, long_buffer-value, hex_digit-value, hex_buffer-value,
}
use peps_os.Userland.Text.{
  satoi, digits_from, is_digit, or_zero, hex_to_ull, hex_from, hex_char_to_int, negated, next_value,
}

abbrev pub IsDigit : ℕ → Type 0
IsDigit c = is_digit c ≡ true

digits_from-digit :
    (res c : ℕ) (t : List ℕ) (v : ℕ)
    → IsDigit c
    → digit_value c + 10 * res ≡ v
    → v < u64_mod
    → digits_from res (c ∷ t) ≡ digits_from v t
unfolding digits_from
digits_from-digit res c t v h e lt =
    let nonzero : (c == 0) ≡ false = ground arith in
    rw (nonzero, h) (ap (λ r. digits_from r t) (ground arith))

-- The digits of a buffer, highest first, before `t`.
digits_from-reverse_aux :
    (buffer t : List ℕ)
    → All IsDigit buffer
    → buffer_value 10 buffer < u64_mod
    → digits_from 0 (reverse_aux buffer t) ≡ digits_from (buffer_value 10 buffer) t
digits_from-reverse_aux [] t h lt = refl
digits_from-reverse_aux (c ∷ cs) t (hc, hs) lt =
    digits_from-reverse_aux cs (c ∷ t) hs (omega arith)
    ∙ digits_from-digit (buffer_value 10 cs) c t _ hc refl lt

-- The first character is no sign.
head-unsigned :
    (buffer t : List ℕ)
    → All IsDigit buffer
    → (get_or t 0 0 == 45) ≡ false
    → (get_or (reverse_aux buffer t) 0 0 == 45) ≡ false
head-unsigned [] t h e = e
head-unsigned (c ∷ cs) t (hc, hs) e = head-unsigned cs (c ∷ t) hs (ground arith)

satoi-unsigned : (s : List ℕ) → (get_or s 0 0 == 45) ≡ false → satoi s ≡ or_zero (digits_from 0 s)
unfolding satoi digits_from
satoi-unsigned [] e = refl
satoi-unsigned (c ∷ cs) e = rw e refl

pub long_buffer-IsDigit : (f n : ℕ) → All IsDigit (long_buffer f n)
unfolding long_buffer
long_buffer-IsDigit zero n = tt
long_buffer-IsDigit (suc f) n = elim (Bool-cases (n == 0)) [
  | inl e ↦ rw e tt
  | inr e ↦ rw e (ground arith, long_buffer-IsDigit f (n / 10))
]

digits_from-end : (n : ℕ) (rest : List ℕ) → or_zero (digits_from n (0 ∷ rest)) ≡ n
unfolding digits_from
digits_from-end n rest = refl

digits_from-long_buffer :
    (n : ℕ) (rest : List ℕ)
    → n < u64_mod
    → or_zero (digits_from 0 (reverse_aux (long_buffer 64 n) (0 ∷ rest))) ≡ n
digits_from-long_buffer n rest lt =
    let e = long_buffer-value 64 n (omega arith) in
    ap or_zero (
      digits_from-reverse_aux (long_buffer 64 n) (0 ∷ rest) (long_buffer-IsDigit 64 n)
        (omega (arith, e)))
    ∙ (digits_from-end _ rest ∙ e)

-- `satoi` reads back what the digit loop of `print_long_long_int` leaves for its drawing: the
-- digits of a number below 2 ^ 64, highest first (none for 0, which is drawn apart), give the
-- number, and with a minus sign its negative in two's complement.
pub satoi-long_buffer :
    (n : ℕ) (rest : List ℕ)
    → n < u64_mod
    → let digits = reverse_aux (long_buffer 64 n) (0 ∷ rest) in
      (satoi digits ≡ n) × (satoi (45 ∷ digits) ≡ negated n)
unfolding satoi
satoi-long_buffer n rest lt = (
  satoi-unsigned (reverse_aux (long_buffer 64 n) (0 ∷ rest))
        (head-unsigned (long_buffer 64 n) (0 ∷ rest) (long_buffer-IsDigit 64 n) refl)
      ∙ digits_from-long_buffer n rest lt,
  ap negated (digits_from-long_buffer n rest lt),
)

digits_from-bad :
    (res : ℕ) (s : List ℕ) (i : ℕ)
    → i < length (text s)
    → is_digit (get_or s i 0) ≡ false
    → digits_from res s ≡ none
unfolding digits_from
digits_from-bad res [] i h e = absurd (omega arith)
digits_from-bad res (c ∷ cs) zero h e = elim (Bool-cases (c == 0)) [
  | inl z ↦ absurd (ground (arith, z))
  | inr z ↦ rw (z, e) refl
]
digits_from-bad res (c ∷ cs) (suc i) h e = elim (Bool-cases (c == 0)) [
  | inl z ↦ absurd (ground (arith, z))
  | inr z ↦ rw (z, digits_from-bad (next_value res c) cs i (ground (arith, z)) e) (ground arith)
]

-- A character behind the first that is no digit makes `satoi` give 0, whatever the digits before
-- it.
pub satoi-bad :
    (s : List ℕ) (i : ℕ)
    → suc i < length (text s)
    → is_digit (get_or s (suc i) 0) ≡ false
    → satoi s ≡ 0
unfolding satoi
satoi-bad [] i h e = absurd (omega arith)
satoi-bad (c ∷ cs) i h e = elim (Bool-cases (c == 45)) [
  | inl m ↦ rw (m, digits_from-bad 0 cs i (ground arith) e) refl
  | inr m ↦ rw (m, digits_from-bad 0 (c ∷ cs) (suc i) h e) refl
]

hex_char_to_int-digit : (d : ℕ) → d < 16 → hex_char_to_int (hex_digit d) ≡ d
unfolding hex_char_to_int
hex_char_to_int-digit d h = ground arith

hex_from-digit :
    (result d : ℕ) (t : List ℕ)
    → d < 16
    → result * 16 + d < u64_mod
    → hex_from result (hex_digit d ∷ t) ≡ hex_from (result * 16 + d) t
unfolding hex_from
hex_from-digit result d t h lt =
    let nonzero : (hex_digit d == 0) ≡ false = ground arith in
    let valid : (d == minus_one) ≡ false = ground arith in
    let fits : (result * 16) % u64_mod ≡ result * 16 = omega arith in
    rw (nonzero, hex_char_to_int-digit d h, valid, fits) refl

hex_buffer-le : (f n : ℕ) → buffer_value 16 (hex_buffer f n) ≤ n
unfolding hex_buffer
hex_buffer-le zero n = omega arith
hex_buffer-le (suc f) n =
    omega (arith, hex_digit-value (n % 16) (omega arith), hex_buffer-le f (n / 16))

hex_from-hex_buffer :
    (f n : ℕ) (t : List ℕ)
    → n < u64_mod
    → hex_from 0 (reverse_aux (hex_buffer f n) t) ≡ hex_from (buffer_value 16 (hex_buffer f n)) t
unfolding hex_buffer
hex_from-hex_buffer zero n t lt = refl
hex_from-hex_buffer (suc f) n t lt =
    hex_from-hex_buffer f (n / 16) (hex_digit (n % 16) ∷ t) (omega arith)
    ∙ (hex_from-digit (buffer_value 16 (hex_buffer f (n / 16))) (n % 16) t (omega arith)
          (omega (arith, hex_buffer-le f (n / 16)))
        ∙ ap (λ r. hex_from r t) (omega (arith, hex_digit-value (n % 16) (omega arith))))

hex_from-end : (n : ℕ) (rest : List ℕ) → hex_from n (0 ∷ rest) ≡ n
unfolding hex_from
hex_from-end n rest = refl

-- `hexToULL` reads back what the kernel's `printHex` draws for a number below 2 ^ 64: its lower 32
-- bits.
pub hex_to_ull-hex_buffer :
    (n : ℕ) (rest : List ℕ)
    → n < u64_mod
    → hex_to_ull (reverse_aux (hex_buffer 8 n) (0 ∷ rest)) ≡ n % 4294967296
unfolding hex_to_ull
hex_to_ull-hex_buffer n rest lt =
    hex_from-hex_buffer 8 n (0 ∷ rest) lt ∙ (hex_from-end _ rest ∙ hex_buffer-value n)
