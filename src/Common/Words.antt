-- ===== src/Common/Words.antt =====
-- Machine integers as bit patterns. A C `int` is its 32-bit pattern, a number below 2 ^ 32, so that
-- -1 is `minus_one`; wrap-around is written out.
use Prim.Native.Nat.{ℕ, ◌+◌, ◌-◌, ◌%◌, ◌^◌, ◌<◌}
use mathlib.Core.Path.{◌≡◌}
use mathlib.Core.Bool.{Bool}
use native.Mathlib.Omega.{arith}
use peps_os.Common.Tests.{leb}

abbrev pub u32_mod : ℕ
u32_mod = 2 ^ 32

abbrev pub u64_mod : ℕ
u64_mod = 2 ^ 64

-- `(int)-1`.
abbrev pub minus_one : ℕ
minus_one = 2 ^ 32 - 1

-- `x < 0` for an `int`.
abbrev pub is_negative : ℕ → Bool
is_negative x = leb (2 ^ 31) x

-- `x++` and `x--` on 32 bits.
abbrev pub inc32 : ℕ → ℕ
inc32 x = (x + 1) % u32_mod

abbrev pub dec32 : ℕ → ℕ
dec32 x = (x + (u32_mod - 1)) % u32_mod

pub dec32-inc32 : (x : ℕ) → x < u32_mod → dec32 (inc32 x) ≡ x
dec32-inc32 x h = omega arith

pub inc32-dec32 : (x : ℕ) → x < u32_mod → inc32 (dec32 x) ≡ x
inc32-dec32 x h = omega arith
