-- ===== src/Arch.antt =====
-- arch/arch.go: reading integers and floats of the target out of byte slices. An intN or uintN
-- result is its bit pattern, a number below 2 ^ N; `none` is a panic.
pub mod Ints
mod Runs
use mathlib.Core.List.{reverse}
use debug.Common.{
  ◌==◌, if◌then◌else◌, length, take, drop, u64, sign_extend8, Bytes, ByteOrder, little_endian,
  big_endian, order_uint?, ℕ, ◌+◌, ◌*◌, ◌^◌, bit_or, not, Option, none, some, [], ◌∷◌,
}

pub record Architecture : Type 0 where
  pub breakpoint_size : ℕ
  pub int_size : ℕ
  pub pointer_size : ℕ
  pub byte_order : ByteOrder
  pub float_byte_order : ByteOrder
  pub breakpoint_instr : Bytes

-- Uint and Uintptr: the switch on the size behind the length check.
abbrev sized_uint : ℕ → ByteOrder → Bytes → Option ℕ
sized_uint size order buf =
    if not (length buf == size)
    then none
    else if size == 4
    then order_uint? order 4 (take 4 buf)
    else if size == 8
    then order_uint? order 8 (take 8 buf)
    else none

unfoldable pub uint : Architecture → Bytes → Option ℕ
uint a buf = sized_uint a.int_size a.byte_order buf

unfoldable pub uintptr : Architecture → Bytes → Option ℕ
uintptr a buf = sized_uint a.pointer_size a.byte_order buf

-- `int64(a.Uint(buf))` keeps the bit pattern; so do Int16, Int32 and Int64.
unfoldable pub int : Architecture → Bytes → Option ℕ
int a buf = uint a buf

unfoldable pub uint16 : Architecture → Bytes → Option ℕ
uint16 a buf = order_uint? a.byte_order 2 buf

unfoldable pub uint32 : Architecture → Bytes → Option ℕ
uint32 a buf = order_uint? a.byte_order 4 buf

unfoldable pub uint64 : Architecture → Bytes → Option ℕ
uint64 a buf = order_uint? a.byte_order 8 buf

-- `x <<= 8; x |= int64(b)` for each byte
pub shift_in : ℕ → Bytes → ℕ
shift_in x [] = x
shift_in x (b ∷ bs) = shift_in (bit_or (u64 (x * 2 ^ 8)) b) bs

-- The first byte is sign-extended, and the others are shifted in behind it.
pub int_digits : Bytes → ℕ
int_digits [] = 0
int_digits (b ∷ bs) = shift_in (sign_extend8 b) bs

-- A little-endian slice is walked from its last byte down to its first.
unfoldable pub int_n : Architecture → Bytes → ℕ
unfolding int_digits shift_in
int_n a buf = elim a.byte_order [
  | little_endian ↦ int_digits (reverse buf)
  | big_endian ↦ int_digits buf
]

-- `u |= uint64(c) << shift; shift += 8`
pub or_shifted : ℕ → ℕ → Bytes → ℕ
or_shifted u shift [] = u
or_shifted u shift (c ∷ cs) = or_shifted (bit_or u (u64 (c * 2 ^ shift))) (shift + 8) cs

unfoldable pub uint_n : Architecture → Bytes → ℕ
unfolding or_shifted shift_in
uint_n a buf = elim a.byte_order [
  | little_endian ↦ or_shifted 0 0 buf
  | big_endian ↦ shift_in 0 buf
]

-- The float of a bit pattern is math.Float32frombits and math.Float64frombits: a parameter.
module _ {F : Type 0} (frombits : ℕ → F) where
  abbrev float_of : ByteOrder → ℕ → Bytes → Option F
  float_of order n buf = elim (order_uint? order n buf) [ none ↦ none | some w ↦ some (frombits w) ]

  unfoldable pub float32 : Architecture → Bytes → Option F
  float32 a buf = if not (length buf == 4) then none else float_of a.float_byte_order 4 buf

  unfoldable pub float64 : Architecture → Bytes → Option F
  float64 a buf = if not (length buf == 8) then none else float_of a.float_byte_order 8 buf

  abbrev pair_of : Option F → Option F → Option (F × F)
  pair_of (some x) (some y) = some (x, y)
  pair_of _ _ = none

  -- `buf[0:4]` and `buf[4:8]`
  unfoldable pub complex64 : Architecture → Bytes → Option (F × F)
  unfolding float32
  complex64 a buf =
      if not (length buf == 8)
      then none
      else pair_of (float32 a (take 4 buf)) (float32 a (take 4 (drop 4 buf)))

  unfoldable pub complex128 : Architecture → Bytes → Option (F × F)
  unfolding float64
  complex128 a buf =
      if not (length buf == 16)
      then none
      else pair_of (float64 a (take 8 buf)) (float64 a (take 8 (drop 8 buf)))

abbrev pub amd64 : Architecture
amd64 = record {
  breakpoint_size = 1;
  int_size = 8;
  pointer_size = 8;
  byte_order = little_endian;
  float_byte_order = little_endian;
  breakpoint_instr = 0xCC ∷ 0 ∷ 0 ∷ 0 ∷ [];
}

abbrev pub x86 : Architecture
x86 = record {
  breakpoint_size = 1;
  int_size = 4;
  pointer_size = 4;
  byte_order = little_endian;
  float_byte_order = little_endian;
  breakpoint_instr = 0xCC ∷ 0 ∷ 0 ∷ 0 ∷ [];
}

abbrev pub arm : Architecture
arm = record {
  breakpoint_size = 4;
  int_size = 4;
  pointer_size = 4;
  byte_order = little_endian;
  float_byte_order = little_endian;
  breakpoint_instr = 0 ∷ 0 ∷ 0 ∷ 0 ∷ [];
}
