-- ===== src/Common/Int64.antt =====
-- Go's int64 as its 64 bits: the number n < 2^64 stands for n, or for n - 2^64 from 2^63 on.
use Prim.Native.Nat.{ℕ, ◌+◌, ◌-◌, ◌%◌, ◌^◌, ◌<◌}
use mathlib.Core.Bool.{Bool}
use astralrelay_online.Common.Tests.{ltb}

-- a - b, with its wrap-around
unfoldable pub sub64 : ℕ → ℕ → ℕ
sub64 a b = (a + 2 ^ 64 - b) % 2 ^ 64

-- a + b
unfoldable pub add64 : ℕ → ℕ → ℕ
add64 a b = (a + b) % 2 ^ 64

-- -n
unfoldable pub neg64 : ℕ → ℕ
neg64 n = (2 ^ 64 - n) % 2 ^ 64

-- The integer plus 2^63, so that the order of the integers is that of the numbers.
unfoldable pub biased : ℕ → ℕ
biased a = (a + 2 ^ 63) % 2 ^ 64

-- a < b, of the signed integers
unfoldable pub slt : ℕ → ℕ → Bool
unfolding biased
slt a b = ltb (biased a) (biased b)

-- A clock between 1970 and 2^62 seconds later, and 64 bits.
abbrev pub IsClock : ℕ → Type 0
IsClock now = now < 2 ^ 62

abbrev pub IsInt64 : ℕ → Type 0
IsInt64 n = n < 2 ^ 64
