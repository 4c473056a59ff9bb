-- ===== src/NaiveConsole/Printed.antt =====
-- What `uintToBase` of Kernel/naiveConsole.c writes.
use peps_os.Common.{
  ℕ, zero, suc, ◌+◌, ◌-◌, ◌/◌, ◌%◌, ◌<◌, ◌≤◌, ◌≡◌, refl, ap, ◌∙◌, arith, false, Option, none, some,
  inl, inr, List, ◌==◌, Bool-cases, get_or, set, length, length-set, get_or-set_self, get_or-set_ne,
  u64_mod,
}
use peps_os.Common.Swaps.{mirrored, mirrored_in, mirrored_out, swap_ends-mirrored}
use peps_os.NaiveConsole.{digit_char, put_digits, turned, uint_to_base}
use native.Mathlib.Nat.{mul-div-le, mul-le-mul_right}

-- What is left of a number when its lowest `k` digits are taken off, and the digit there.
abbrev pub shifted_down : ℕ → ℕ → ℕ → ℕ
shifted_down base value zero = value
shifted_down base value (suc k) = shifted_down base (value / base) k

abbrev pub digit_at : ℕ → ℕ → ℕ → ℕ
digit_at base value k = shifted_down base value k % base

-- The loop's result: it ends in at most `f` turns with no digit left over, and writes the signs of the digits
-- from `p` on, lowest first.
record Puts (f base value p : ℕ) (buffer : List ℕ) (r : Option (List ℕ × ℕ)) : Type 0 where
  digits : ℕ
  buffer' : List ℕ
  ends : r ≡ some (buffer', p + digits)
  some_digit : 0 < digits
  few : digits ≤ f
  whole : shifted_down base value digits ≡ 0
  same_length : length buffer' ≡ length buffer
  before : (k : ℕ) → k < p → get_or buffer' k 0 ≡ get_or buffer k 0
  written : (k : ℕ) → k < digits → get_or buffer' (p + k) 0 ≡ digit_char (digit_at base value k)

-- 2 to the power, by clauses.
abbrev power_two : ℕ → ℕ
power_two zero = 1
power_two (suc n) = power_two n + power_two n

halved : (base value m : ℕ) → 2 ≤ base → value < m + m → value / base < m
halved base value m b h =
    omega (arith, h, mul-div-le value base, mul-le-mul_right {m = 2} {n = base} (value / base) b)

turns_left : (f value : ℕ) → value < power_two f → (value == 0) ≡ false → 0 < f
turns_left zero value h e = absurd (ground (arith, h, e))
turns_left (suc f) value h e = omega arith

at_place : (l : List ℕ) (i k : ℕ) → i ≡ k → get_or l i 0 ≡ get_or l k 0
at_place l i k e = ap (λ n. get_or l n 0) e

written_first :
    (buffer : List ℕ) (p value base k : ℕ)
    → k < 1
    → p < length buffer
    → get_or (set buffer p (digit_char (value % base))) (p + k) 0
      ≡ digit_char (digit_at base value k)
written_first buffer p value base zero lt room =
    at_place (set buffer p (digit_char (value % base))) (p + 0) p (omega arith)
    ∙ get_or-set_self buffer p _ 0 room
written_first buffer p value base (suc k) lt room = absurd (omega (arith, lt))

-- A digit, and then those of the number without it.
longer :
    (f base value p : ℕ) (buffer : List ℕ) {r : Option (List ℕ × ℕ)}
    → p < length buffer
    → Puts f base (value / base) (p + 1) (set buffer p (digit_char (value % base))) r
    → Puts (suc f) base value p buffer r
longer f base value p buffer room t = record {
  digits = suc t.digits;
  buffer' = t.buffer';
  ends = t.ends ∙ ap (λ n. some (t.buffer', n)) (omega arith);
  some_digit = omega arith;
  few = omega (arith, t.few);
  whole = t.whole;
  same_length = t.same_length ∙ length-set buffer p _;
  before = λ k lt.
      t.before k (omega (arith, lt)) ∙ get_or-set_ne buffer p k _ 0 (λ s. omega (arith, lt, s));
  written = λ k lt. written_next k lt;
}
  where
    written_next :
        (k : ℕ) → k < suc t.digits → get_or t.buffer' (p + k) 0 ≡ digit_char (digit_at base value k)
    written_next zero lt =
        at_place t.buffer' (p + 0) p (omega arith)
        ∙ (t.before p (omega arith) ∙ get_or-set_self buffer p _ 0 room)
    written_next (suc k) lt =
        at_place t.buffer' (p + suc k) (p + 1 + k) (omega arith) ∙ t.written k (omega (arith, lt))

put_digits-Puts :
    (f base value p : ℕ) (buffer : List ℕ)
    → 2 ≤ base
    → value < power_two f
    → 0 < f
    → p + f ≤ length buffer
    → Puts f base value p buffer (put_digits f base value p buffer)
unfolding put_digits
put_digits-Puts zero base value p buffer b h z room = absurd (omega (arith, z))
put_digits-Puts (suc f) base value p buffer b h z room = elim (Bool-cases (value / base == 0)) [
  | inl e ↦ rw e (record {
    digits = 1;
    buffer' = set buffer p (digit_char (value % base));
    ends = refl;
    some_digit = omega arith;
    few = omega arith;
    whole = ground (arith, e);
    same_length = length-set buffer p _;
    before = λ k lt. get_or-set_ne buffer p k _ 0 (λ s. omega (arith, lt, s));
    written = λ k lt. written_first buffer p value base k lt (omega (arith, room));
  })
  | inr e ↦ rw e (
      longer f base value p buffer (omega (arith, room)) (
        put_digits-Puts f base (value / base) (p + 1) (set buffer p (digit_char (value % base))) b
          (halved base value (power_two f) b h)
          (turns_left f (value / base) (halved base value (power_two f) b h) e)
          (omega (arith, room, length-set buffer p (digit_char (value % base))))))
]

-- A run of `uintToBase`: it ends, with at most 64 digits, highest first, that are the whole number, and
-- a final 0 if there is room for one.
pub record Printed (value base : ℕ) (buffer : List ℕ) (r : Option (List ℕ × ℕ)) : Type 0 where
  pub digits : ℕ
  pub buffer' : List ℕ
  pub ends : r ≡ some (buffer', digits)
  pub some_digit : 0 < digits
  pub few : digits ≤ 64
  pub whole : shifted_down base value digits ≡ 0
  pub written :
      (k : ℕ) → k < digits → get_or buffer' k 0 ≡ digit_char (digit_at base value (digits - 1 - k))
  pub last : digits < length buffer → get_or buffer' digits 0 ≡ 0

turned_at :
    (k digits : ℕ) (buffer : List ℕ)
    → 0 < digits
    → digits ≤ length buffer
    → k < digits
    → get_or (turned (buffer, digits)).0 k 0 ≡ get_or buffer (digits - 1 - k) 0
turned_at k digits buffer h room lt =
    swap_ends-mirrored digits 0 (digits - 1) (set buffer digits 0) k (omega arith)
      (omega (arith, h, room, length-set buffer digits 0)) (omega arith)
    ∙ (at_place (set buffer digits 0) (mirrored 0 (digits - 1) k) (digits - 1 - k)
          (mirrored_in 0 (digits - 1) k (omega arith) (omega (arith, lt)) ∙ omega arith)
        ∙ get_or-set_ne buffer digits (digits - 1 - k) 0 0 (λ e. omega (arith, e, h, lt)))

turned_last :
    (digits : ℕ) (buffer : List ℕ)
    → 0 < digits
    → digits < length buffer
    → get_or (turned (buffer, digits)).0 digits 0 ≡ 0
turned_last digits buffer h room =
    swap_ends-mirrored digits 0 (digits - 1) (set buffer digits 0) digits (omega arith)
      (omega (arith, h, room, length-set buffer digits 0)) (omega arith)
    ∙ (at_place (set buffer digits 0) (mirrored 0 (digits - 1) digits) digits
          (mirrored_out 0 (digits - 1) digits (inr (omega (arith, h))))
        ∙ get_or-set_self buffer digits 0 0 room)

printed :
    {value base : ℕ} {buffer : List ℕ} {r : Option (List ℕ × ℕ)}
    → length buffer ≡ 64
    → Puts 64 base value 0 buffer r
    → Printed value base buffer (elim r [ none ↦ none | some q ↦ some (turned q) ])
printed {value} {base} {buffer} {r} e t =
    let done : r ≡ some (t.buffer', t.digits) =
      t.ends ∙ ap (λ n. some (t.buffer', n)) (omega arith) in
    record {
      digits = t.digits;
      buffer' = (turned (t.buffer', t.digits)).0;
      ends = rw done refl;
      some_digit = t.some_digit;
      few = t.few;
      whole = t.whole;
      written = λ k lt.
          turned_at k t.digits t.buffer' t.some_digit (omega (arith, t.few, e, t.same_length)) lt
          ∙ (at_place t.buffer' (t.digits - 1 - k) (0 + (t.digits - 1 - k)) (omega arith)
              ∙ t.written (t.digits - 1 - k) (omega (arith, lt)));
      last = λ lt. turned_last t.digits t.buffer' t.some_digit (omega (arith, lt, t.same_length));
    }

-- With a base of at least 2 and a buffer of 64 bytes, `uintToBase` ends on every number below 2 ^
-- 64: in at most 64 turns it has taken off all of its digits; the buffer then holds their signs,
-- the highest first, and a final 0 if there is room for one.
pub uint_to_base-Printed :
    (value base : ℕ) (buffer : List ℕ)
    → value < u64_mod
    → 2 ≤ base
    → length buffer ≡ 64
    → Printed value base buffer (uint_to_base value buffer base)
unfolding uint_to_base
uint_to_base-Printed value base buffer h b e =
    printed e (put_digits-Puts 64 base value 0 buffer b h (omega arith) (omega (arith, e)))
