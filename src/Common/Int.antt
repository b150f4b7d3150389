-- ===== src/Common/Int.antt =====
-- Signed integers over the native numbers, under the library's names, and Go's int conversions.
use Prim.Native.Nat.{ℕ, suc, ◌-◌, ◌/◌, ◌%◌, ◌^◌}
use debug.Common.Tests.{ltb, leb, if◌then◌else◌}

-- `negsuc n` is -(n + 1).
pub data ℤ : Type 0 where
  pos : ℕ → ℤ
  negsuc : ℕ → ℤ

abbrev pub pos_part : ℤ → ℕ
pos_part (pos n) = n
pos_part (negsuc n) = 0

abbrev pub neg_part : ℤ → ℕ
neg_part (pos n) = 0
neg_part (negsuc n) = suc n

-- a - b, as an integer.
abbrev pub sub_ℕ : ℕ → ℕ → ℤ
sub_ℕ a b = if leb b a then pos (a - b) else negsuc (b - a - 1)

-- The integer that a pattern of 64 bits stands for: `int(x)` and `int64(x)`.
abbrev pub signed64 : ℕ → ℤ
signed64 x = if ltb x (2 ^ 63) then pos x else negsuc (2 ^ 64 - x - 1)

-- The pattern of an integer in 64 bits: `uint64(x)`, and what is kept of a result that overflows.
abbrev pub word64 : ℤ → ℕ
word64 (pos n) = n % 2 ^ 64
word64 (negsuc n) = 2 ^ 64 - 1 - n % 2 ^ 64

-- Go's `/` rounds towards zero, and `%` takes the sign of the dividend. The divisor is positive.
abbrev pub quot : ℤ → ℕ → ℤ
quot (pos n) d = pos (n / d)
quot (negsuc n) d = sub_ℕ 0 (suc n / d)
