-- ===== src/Console/Digits.antt =====
-- The number printers of Kernel/video.c.
use peps_os.Common.{
  ℕ, zero, suc, ◌+◌, ◌-◌, ◌*◌, ◌/◌, ◌%◌, ◌<◌, ◌≡◌, refl, arith, false, List, [], ◌∷◌, ◌==◌, ltb,
  if◌then◌else◌, Bool-cases, inl, inr, is_negative,
}
use peps_os.Console.{
  Video, draw_backwards, integer_buffer, long_buffer, hex_buffer, hex_digit, print_integer,
  print_long_long_int, print_hex,
}

-- The value of a digit's code, and of the digits in a buffer, lowest first.
abbrev pub digit_value : ℕ → ℕ
digit_value c = if ltb c 58 then c - 48 else (c - 65) + 10

abbrev pub buffer_value : ℕ → List ℕ → ℕ
buffer_value base [] = 0
buffer_value base (c ∷ cs) = digit_value c + base * buffer_value base cs

-- A run of a printer: it draws the digits of a number, highest first.
pub record Prints (base n : ℕ) (v v' : Video) : Type 0 where
  pub buffer : List ℕ
  pub drawn : v' ≡ draw_backwards buffer v
  pub value : buffer_value base buffer ≡ n

plain_digit : (d : ℕ) → d < 10 → digit_value (d + 48) ≡ d
plain_digit d h = ground arith

integer_buffer-value : (n : ℕ) → buffer_value 10 (integer_buffer 5 n) ≡ n % 100000
unfolding integer_buffer
integer_buffer-value n = omega (
  arith,
  plain_digit (n % 10) (omega arith),
  plain_digit (n / 10 % 10) (omega arith),
  plain_digit (n / 10 / 10 % 10) (omega arith),
  plain_digit (n / 10 / 10 / 10 % 10) (omega arith),
  plain_digit (n / 10 / 10 / 10 / 10 % 10) (omega arith),
)

-- For an `int` that is not negative, `printInteger` draws its last five decimal digits.
pub print_integer-Prints :
    (v : Video) (n : ℕ) → n < 2147483648 → Prints 10 (n % 100000) v (print_integer v n)
unfolding print_integer
print_integer-Prints v n h =
    let positive : is_negative n ≡ false = ground arith in
    record { buffer = integer_buffer 5 n; drawn = rw positive refl; value = integer_buffer-value n }

-- 10 to the power, by clauses.
abbrev pub power_ten : ℕ → ℕ
power_ten zero = 1
power_ten (suc n) = power_ten n * 10

pub long_buffer-value : (f n : ℕ) → n < power_ten f → buffer_value 10 (long_buffer f n) ≡ n
unfolding long_buffer
long_buffer-value zero n h = omega arith
long_buffer-value (suc f) n h = elim (Bool-cases (n == 0)) [
  | inl e ↦ rw e (ground arith)
  | inr e ↦ rw e (
      omega (arith, plain_digit (n % 10) (omega arith), long_buffer-value f (n / 10) (omega arith)))
]

-- For a number below 2 ^ 64 the 64 characters of `print_long_long_int` are enough: it draws decimal
-- digits, highest first, whose value is the number.
pub print_long_long_int-Prints :
    (v : Video) (n : ℕ) → n < 18446744073709551616 → Prints 10 n v (print_long_long_int v n)
unfolding print_long_long_int draw_backwards
print_long_long_int-Prints v n h = elim (Bool-cases (n == 0)) [
  | inl e ↦ rw e (record { buffer = 48 ∷ []; drawn = refl; value = ground arith })
  | inr e ↦ rw e (record {
    buffer = long_buffer 64 n;
    drawn = refl;
    value = long_buffer-value 64 n (omega arith);
  })
]

pub hex_digit-value : (d : ℕ) → d < 16 → digit_value (hex_digit d) ≡ d
hex_digit-value d h = ground arith

pub hex_buffer-value : (n : ℕ) → buffer_value 16 (hex_buffer 8 n) ≡ n % 4294967296
unfolding hex_buffer
hex_buffer-value n = omega (
  arith,
  hex_digit-value (n % 16) (omega arith),
  hex_digit-value (n / 16 % 16) (omega arith),
  hex_digit-value (n / 16 / 16 % 16) (omega arith),
  hex_digit-value (n / 16 / 16 / 16 % 16) (omega arith),
  hex_digit-value (n / 16 / 16 / 16 / 16 % 16) (omega arith),
  hex_digit-value (n / 16 / 16 / 16 / 16 / 16 % 16) (omega arith),
  hex_digit-value (n / 16 / 16 / 16 / 16 / 16 / 16 % 16) (omega arith),
  hex_digit-value (n / 16 / 16 / 16 / 16 / 16 / 16 / 16 % 16) (omega arith),
)

-- `printHex` draws hexadecimal digits, highest first, whose value is the lower 32 bits of its
-- number.
pub print_hex-Prints : (v : Video) (n : ℕ) → Prints 16 (n % 4294967296) v (print_hex v n)
unfolding print_hex
print_hex-Prints v n = record { buffer = hex_buffer 8 n; drawn = refl; value = hex_buffer-value n }
