-- ===== src/Common/Word.antt =====
-- Go's int64 as a bit pattern below 2 ^ 64, with its wrap-around; -1 is 2 ^ 64 - 1.
use Prim.Native.Nat.{ℕ, ◌+◌, ◌-◌, ◌%◌, ◌<◌}
use mathlib.Core.Path.{◌≡◌}
use mathlib.Core.Bool.{Bool}
use native.Mathlib.Omega.{arith}
use gochoreo.Common.Tests.{ltb, if◌then◌else◌}
use gochoreo.Common.Int.{ℤ, pos, negsuc}

abbrev pub mod64 : ℕ
mod64 = 18446744073709551616

abbrev pub half64 : ℕ
half64 = 9223372036854775808

abbrev pub minus_one : ℕ
minus_one = 18446744073709551615

unfoldable pub add64 : ℕ → ℕ → ℕ
add64 a b = (a + b) % mod64

-- `a < b` on the signed values
unfoldable pub lt64 : ℕ → ℕ → Bool
lt64 a b = ltb ((a + half64) % mod64) ((b + half64) % mod64)

-- Below 2 ^ 63 a pattern is its own value.
pub add64_small : (a b : ℕ) → a + b < mod64 → add64 a b ≡ a + b
unfolding add64
add64_small a b h = omega arith

pub lt64_small : (a b : ℕ) → a < half64 → b < half64 → lt64 a b ≡ ltb a b
unfolding lt64
lt64_small a b h k = ground arith

-- The value of a pattern of 64 bits.
abbrev pub signed64 : ℕ → ℤ
signed64 n = let low = n % mod64 in if ltb low half64 then pos low else negsuc (minus_one - low)

-- The pattern of a value in the range of an int64.
abbrev pub pattern64 : ℤ → ℕ
pattern64 (pos n) = n % mod64
pattern64 (negsuc n) = minus_one - n
