-- ===== src/Base/Word.antt =====
-- Go's int64 as a bit pattern below 2^64: multiplication by a constant, signed comparison and
-- truncated division, with their meaning for patterns that stand for non-negative numbers.
use huntarr.Base.Tests.{if◌then◌else◌, ltb}
use Prim.Native.Nat.{ℕ, ◌+◌, ◌-◌, ◌*◌, ◌/◌, ◌%◌, ◌^◌, ◌<◌}
use mathlib.Core.Bool.{Bool}
use mathlib.Core.Path.{◌≡◌}
use native.Mathlib.Omega.{arith}

abbrev pub int64_limit : ℕ
int64_limit = 2 ^ 63

unfoldable pub mul64 : ℕ → ℕ → ℕ
mul64 a k = (a * k) % 2 ^ 64

-- a < b on the signed numbers: adding 2^63 turns their order into that of the patterns.
unfoldable pub lt64 : ℕ → ℕ → Bool
lt64 a b = ltb ((a + 2 ^ 63) % 2 ^ 64) ((b + 2 ^ 63) % 2 ^ 64)

-- Division by a positive constant, towards zero.
unfoldable pub div64 : ℕ → ℕ → ℕ
div64 a k = if ltb a (2 ^ 63) then a / k else (2 ^ 64 - (2 ^ 64 - a) / k) % 2 ^ 64

pub mul64_small : (a k : ℕ) → a * k < int64_limit → mul64 a k ≡ a * k
unfolding mul64
mul64_small a k h = omega arith

pub lt64_small : (a b : ℕ) → a < int64_limit → b < int64_limit → lt64 a b ≡ ltb a b
unfolding lt64
lt64_small a b ha hb = ground arith

pub div64_small : (a k : ℕ) → a < int64_limit → div64 a k ≡ a / k
unfolding div64
div64_small a k h = ground arith
