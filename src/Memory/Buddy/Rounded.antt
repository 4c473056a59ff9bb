-- ===== src/Memory/Buddy/Rounded.antt =====
-- The rounding loop of `mallocBuddy` in Kernel/BuddyMemoryManager.c.
use peps_os.Common.{
  ℕ, zero, suc, ◌*◌, ◌%◌, ◌≤◌, ◌<◌, ◌≡◌, arith, inl, inr, true, ltb, Bool-cases, u32_mod,
}
use peps_os.Memory.Buddy.{double_up, rounded, is_power_of_two}

-- What `f` doublings make of a number.
abbrev doubled : ℕ → ℕ → ℕ
doubled zero i = i
doubled (suc f) i = doubled f (i * 2)

double_up_lem :
    (f i bytes : ℕ)
    → bytes ≤ 1073741824
    → bytes ≤ doubled f i
    → i < 2147483648
    → (bytes ≤ double_up f i bytes) × (i < 2 * bytes → double_up f i bytes < 2 * bytes)
unfolding double_up
double_up_lem zero i bytes small enough int =
    let plain : ltb i 2147483648 ≡ true = ground arith in rw plain (enough, λ h. h)
double_up_lem (suc f) i bytes small enough int =
    let plain : ltb i 2147483648 ≡ true = ground arith in
    elim (Bool-cases (ltb i bytes)) [
      | inl less ↦
          let no_wrap : (i * 2) % u32_mod ≡ i * 2 = omega arith in
          let rest = double_up_lem f (i * 2) bytes small enough (ground arith) in
          rw (plain, less, no_wrap) (rest.0, λ h. rest.1 (ground arith))
      | inr done ↦ rw (plain, done) (ground arith, λ h. h)
    ]

rounded_lem :
    (bytes : ℕ)
    → bytes ≤ 1073741824
    → (bytes ≤ rounded bytes) × (0 < bytes → rounded bytes < 2 * bytes)
unfolding rounded
rounded_lem bytes h = elim (Bool-cases (is_power_of_two bytes)) [
  | inl power ↦ rw power (omega arith, λ p. omega arith)
  | inr other ↦
      let loop = double_up_lem 32 1 bytes h (omega arith) (omega arith) in
      rw other (loop.0, λ p. loop.1 (omega arith))
]

pub rounded_enough : (bytes : ℕ) → bytes ≤ 1073741824 → bytes ≤ rounded bytes
rounded_enough bytes h = (rounded_lem bytes h).0

-- For at least one and up to 2 ^ 30 bytes the size that `mallocBuddy` looks for is at least what
-- was asked for, and less than twice that.
pub rounded-bounds :
    (bytes : ℕ)
    → 0 < bytes
    → bytes ≤ 1073741824
    → (bytes ≤ rounded bytes) × (rounded bytes < 2 * bytes)
rounded-bounds bytes p h = ((rounded_lem bytes h).0, (rounded_lem bytes h).1 p)
