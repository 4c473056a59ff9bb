-- ===== src/Clib/Numbers.antt =====
-- The logarithms and the clock's digits of Kernel/lib.c.
use peps_os.Common.{
  ℕ, zero, suc, ◌+◌, ◌*◌, ◌/◌, ◌%◌, ◌<◌, ◌≤◌, ◌≡◌, refl, sym, arith, true, false, ◌||◌, ◌==◌,
  ==_iff, all_below, all_below-true, is_negative, inl, inr, Bool-cases,
}
use native.Mathlib.Nat.{mul_assoc}
use peps_os.Clib.{decode, fast_log2, log2_fast_long, log_step, log_last}

decode_table : all_below 100 (λ n. decode ((n / 10) * 16 + n % 10) == n) ≡ true
unfolding all_below decode
decode_table = refl

-- `decode` reads the clock's two decimal digits: of the byte with the digits of a number below 100
-- it gives that number.
pub decode_digits : (n : ℕ) → n < 100 → decode ((n / 10) * 16 + n % 10) ≡ n
decode_digits n h =
    (==_iff (decode ((n / 10) * 16 + n % 10)) n).0
      (all_below-true 100 (λ n. decode ((n / 10) * 16 + n % 10) == n) n decode_table h)

-- 2 to the power, by clauses.
abbrev pub power : ℕ → ℕ
power zero = 1
power (suc n) = 2 * power n

-- What is left of the number and the logarithm so far lead to a result: it is the exponent of the
-- largest power of 2 in what is left, with the logarithm so far.
record Ends (x log2 v : ℕ) : Type 0 where
  exponent : ℕ
  value : v ≡ exponent + log2
  low : power exponent ≤ x
  high : x < 2 * power exponent

last-Ends : (x log2 : ℕ) → 0 < x → x < 4 → Ends x log2 (log_last (x, log2))
last-Ends x log2 p h = elim (Bool-cases (x / 2 == 0)) [
  | inl e ↦
      rw e (record { exponent = 0; value = omega arith; low = omega arith; high = ground arith })
  | inr e ↦
      rw e (record { exponent = 1; value = omega arith; low = ground arith; high = omega arith })
]

power_add : (k r : ℕ) → power (k + r) ≡ power k * power r
power_add zero r = let e : zero + r ≡ r = omega arith in rw e (omega arith)
power_add (suc k) r =
    let e : suc k + r ≡ suc (k + r) = omega arith in
    rw (e, power_add k r) (sym (mul_assoc 2 (power k) (power r)))

-- A step divides by a power of 2 and adds its exponent; what comes after is any function.
module _ (tail : ℕ × ℕ → ℕ) (k p : ℕ) (low_part : (x r : ℕ) → power r ≤ x / p → power (k + r) ≤ x)
    (high_part : (x r : ℕ) → x / p < 2 * power r → x < 2 * power (k + r)) where
  step-Ends :
      (x log2 : ℕ)
      → (x / p ≡ 0 → Ends x log2 (tail (x, log2)))
      → (0 < x / p → Ends (x / p) (log2 + k) (tail (x / p, log2 + k)))
      → Ends x log2 (tail (log_step k p (x, log2)))
  step-Ends x log2 small large = elim (Bool-cases (x / p == 0)) [
    | inl e ↦ rw e (small (ground arith))
    | inr e ↦ rw e (stepped (large (ground arith)))
  ]
    where
      stepped :
          Ends (x / p) (log2 + k) (tail (x / p, log2 + k)) → Ends x log2 (tail (x / p, log2 + k))
      stepped n = record {
        exponent = k + n.exponent;
        value = omega (arith, n.value);
        low = low_part x n.exponent n.low;
        high = high_part x n.exponent n.high;
      }

abbrev tail_2 : ℕ × ℕ → ℕ
tail_2 a = log_last (log_step 2 4 a)

abbrev tail_4 : ℕ × ℕ → ℕ
tail_4 a = tail_2 (log_step 4 16 a)

abbrev tail_8 : ℕ × ℕ → ℕ
tail_8 a = tail_4 (log_step 8 256 a)

abbrev tail_16 : ℕ × ℕ → ℕ
tail_16 a = tail_8 (log_step 16 65536 a)

tail_2-Ends : (x log2 : ℕ) → 0 < x → x < 16 → Ends x log2 (tail_2 (x, log2))
tail_2-Ends x log2 h b =
    step-Ends log_last 2 4 (λ x r u. omega (arith, power_add 2 r, u))
      (λ x r u. omega (arith, power_add 2 r, u)) x log2 (λ e. last-Ends x log2 h (omega (arith, e)))
      (λ e. last-Ends (x / 4) (log2 + 2) e (omega arith))

tail_4-Ends : (x log2 : ℕ) → 0 < x → x < 256 → Ends x log2 (tail_4 (x, log2))
tail_4-Ends x log2 h b =
    step-Ends tail_2 4 16 (λ x r u. omega (arith, power_add 4 r, u))
      (λ x r u. omega (arith, power_add 4 r, u)) x log2
      (λ e. tail_2-Ends x log2 h (omega (arith, e)))
      (λ e. tail_2-Ends (x / 16) (log2 + 4) e (omega arith))

tail_8-Ends : (x log2 : ℕ) → 0 < x → x < 65536 → Ends x log2 (tail_8 (x, log2))
tail_8-Ends x log2 h b =
    step-Ends tail_4 8 256 (λ x r u. omega (arith, power_add 8 r, u))
      (λ x r u. omega (arith, power_add 8 r, u)) x log2
      (λ e. tail_4-Ends x log2 h (omega (arith, e)))
      (λ e. tail_4-Ends (x / 256) (log2 + 8) e (omega arith))

tail_16-Ends : (x log2 : ℕ) → 0 < x → x < 4294967296 → Ends x log2 (tail_16 (x, log2))
tail_16-Ends x log2 h b =
    step-Ends tail_8 16 65536 (λ x r u. omega (arith, power_add 16 r, u))
      (λ x r u. omega (arith, power_add 16 r, u)) x log2
      (λ e. tail_8-Ends x log2 h (omega (arith, e)))
      (λ e. tail_8-Ends (x / 65536) (log2 + 16) e (omega arith))

bounds_of : (x v : ℕ) → Ends x 0 v → (power v ≤ x) × (x < 2 * power v)
bounds_of x v n = let e : v ≡ n.exponent = omega (arith, n.value) in rw e (n.low, n.high)

-- For a positive `int`, `fast_log2` gives the exponent of the largest power of 2 that is not
-- larger.
pub fast_log2-power :
    (x : ℕ) → 0 < x → x < 2147483648 → (power (fast_log2 x) ≤ x) × (x < 2 * power (fast_log2 x))
unfolding fast_log2
fast_log2-power x p h =
    let positive : ((x == 0) || is_negative x) ≡ false = ground arith in
    rw positive (bounds_of x (tail_16 (x, 0)) (tail_16-Ends x 0 p (omega arith)))

-- For a positive number below 2 ^ 64, `log2_fast_long` gives the exponent of the largest power of 2
-- that is not larger.
pub log2_fast_long-power :
    (x : ℕ)
    → 0 < x
    → x < 18446744073709551616
    → (power (log2_fast_long x) ≤ x) × (x < 2 * power (log2_fast_long x))
unfolding log2_fast_long
log2_fast_long-power x p h =
    let positive : (x == 0) ≡ false = ground arith in
    rw positive (
      bounds_of x (tail_16 (log_step 32 4294967296 (x, 0))) (
        step-Ends tail_16 32 4294967296 (λ x r u. omega (arith, power_add 32 r, u))
          (λ x r u. omega (arith, power_add 32 r, u)) x 0
          (λ e. tail_16-Ends x 0 p (omega (arith, e)))
          (λ e. tail_16-Ends (x / 4294967296) (0 + 32) e (omega arith))))
