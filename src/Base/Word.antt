-- ===== src/Base/Word.antt =====
-- int64 as the number of its two's complement bit pattern, below 2 ^ 64.
use Prim.Native.Nat.{ℕ, ◌+◌, ◌-◌, ◌*◌, ◌%◌, ◌^◌, ◌≤◌, ◌<◌}
use mathlib.Core.Path.{◌≡◌}
use mathlib.Core.Bool.{Bool}
use native.Mathlib.Omega.{arith}
use package.mercuryc.Base.Tests.{ltb, leb}

abbrev pub Int64 : Type 0
Int64 = ℕ

abbrev pub int64_mod : ℕ
int64_mod = 2 ^ 64

-- The first bit pattern of a negative number.
abbrev pub int64_sign : ℕ
int64_sign = 2 ^ 63

abbrev pub u32_mod : ℕ
u32_mod = 2 ^ 32

abbrev pub minus_one : Int64
minus_one = int64_mod - 1

unfoldable pub add : Int64 → Int64 → Int64
add a b = (a + b) % int64_mod

unfoldable pub sub : Int64 → Int64 → Int64
sub a b = (a + int64_mod - b) % int64_mod

unfoldable pub mul : Int64 → Int64 → Int64
mul a b = (a * b) % int64_mod

-- The signed orders.
unfoldable pub lt : Int64 → Int64 → Bool
lt a b = ltb ((a + int64_sign) % int64_mod) ((b + int64_sign) % int64_mod)

unfoldable pub le : Int64 → Int64 → Bool
le a b = leb ((a + int64_sign) % int64_mod) ((b + int64_sign) % int64_mod)

pub lt_small : (a b : ℕ) → a < int64_sign → b < int64_sign → lt a b ≡ ltb a b
unfolding lt
lt_small a b h k = ground arith

pub le_small : (a b : ℕ) → a < int64_sign → b < int64_sign → le a b ≡ leb a b
unfolding le
le_small a b h k = ground arith

pub add_small : (a b : ℕ) → a + b < int64_mod → add a b ≡ a + b
unfolding add
add_small a b h = omega arith

pub sub_small : (a b : ℕ) → b ≤ a → a < int64_mod → sub a b ≡ a - b
unfolding sub
sub_small a b h k = omega arith
