-- ===== src/Dwarf/Buf.antt =====
-- dwarf/buf.go: the buffer that decodes DWARF data streams. A method returns its result and the
-- buffer after it. The back pointer `dwarf` to the whole data is an argument where it is used.
pub mod Leb
pub mod Sleb
pub mod Failed
pub mod Scans
pub mod Ops
pub mod Cursor
pub mod Shrinks
mod Runs
use debug.Common.{
  ltb, ◌==◌, if◌then◌else◌, length, take, drop, u32, u64, Bytes, ByteOrder, order_value, ℕ, suc,
  ◌+◌, ◌-◌, ◌*◌, ◌^◌, bit_and, bit_or, Bool, false, Option, none, some, List, [], ◌∷◌, map, String,
}
use debug.Common.Result.{Error, decode_error}
use mathlib.Core.Option

-- The results of the three methods of the dataFormat interface.
pub record DataFormat : Type 0 where
  pub version : ℕ
  pub dwarf64 : Bool
  pub dwarf64_known : Bool
  pub addrsize : ℕ

abbrev pub unknown_format : DataFormat
unknown_format = record { version = 0; dwarf64 = false; dwarf64_known = false; addrsize = 0 }

-- `unread` is the source's field `data`, and `off` an Offset, a uint32.
pub record Buf : Type 0 where
  pub order : ByteOrder
  pub format : DataFormat
  pub name : String
  pub off : ℕ
  pub unread : Bytes
  pub err : Option Error

abbrev pub make_buf : ByteOrder → DataFormat → String → ℕ → Bytes → Buf
make_buf o f n off bs = record {
  order = o;
  format = f;
  name = n;
  off = off;
  unread = bs;
  err = none;
}

-- Only the first error is kept, and it empties the buffer.
unfoldable pub error : Buf → String → List ℕ → Buf
error b s args = elim b.err [
  | none ↦ record b { unread = []; err = some (decode_error b.name b.off s args) }
  | some e ↦ b
]

-- The first n bytes are read: `b.data = b.data[n:]; b.off += Offset(n)`.
abbrev pub advance : Buf → ℕ → Buf
advance b n = record b { off = u32 (b.off + n); unread = drop n b.unread }

abbrev pub read_uint8 : Buf → Bytes → ℕ × Buf
read_uint8 b [] = (0, error b "underflow" [])
read_uint8 b (x ∷ xs) = (x, advance b 1)

unfoldable pub uint8 : Buf → ℕ × Buf
unfolding error
uint8 b = read_uint8 b b.unread

-- `none` is Go's nil. The count is an int that is not negative.
unfoldable pub bytes : Buf → ℕ → Option Bytes × Buf
unfolding error
bytes b n =
    if ltb (length b.unread) n
    then (none, error b "underflow" [])
    else (some (take n b.unread), advance b n)

unfoldable pub skip : Buf → ℕ → Buf
unfolding bytes
skip b n = (bytes b n).1

-- The new buffer and the old one behind it. `none` is a length past the end of the slice, where Go
-- panics or reads on into the slice's capacity; every caller has excluded it.
unfoldable pub slice : Buf → ℕ → Option (Buf × Buf)
unfolding skip
slice b n =
    if ltb (length b.unread) n then none else some (record b { unread = take n b.unread }, skip b n)

-- The bytes before the first NUL and those behind it.
pub split_nul : Bytes → Option (Bytes × Bytes)
split_nul [] = none
split_nul (c ∷ cs) =
    if c == 0 then some ([], cs) else Option.map (λ p. (c ∷ p.0, p.1)) (split_nul cs)

abbrev pub read_string : Buf → Option (Bytes × Bytes) → Bytes × Buf
read_string b none = ([], error b "underflow" [])
read_string b (some p) = (p.0, record b { off = u32 (b.off + suc (length p.0)); unread = p.1 })

unfoldable pub string : Buf → Bytes × Buf
unfolding split_nul error
string b = read_string b (split_nul b.unread)

-- `a := b.bytes(n); if a == nil { return 0 }; return b.order.Uint…(a)` at n = 2, 4, 8.
abbrev pub fixed_value : ByteOrder → Option Bytes → ℕ
fixed_value o none = 0
fixed_value o (some bs) = order_value o bs

abbrev pub fixed_uint : ℕ → Buf → ℕ × Buf
fixed_uint n b = (fixed_value b.order (bytes b n).0, (bytes b n).1)

unfoldable pub uint16 : Buf → ℕ × Buf
unfolding bytes
uint16 b = fixed_uint 2 b

unfoldable pub uint32 : Buf → ℕ × Buf
unfolding bytes
uint32 b = fixed_uint 4 b

unfoldable pub uint64 : Buf → ℕ × Buf
unfolding bytes
uint64 b = fixed_uint 8 b

-- What a varint that ends in the buffer gives: c, bits, and how many bytes it takes.
pub record Varint : Type 0 where
  pub c : ℕ
  pub bits : ℕ
  pub taken : ℕ

-- The loop of varint over `b.data[i:]`; `none` when it runs off the end.
pub varint_loop : ℕ → ℕ → ℕ → Bytes → Option Varint
varint_loop c bits i [] = none
varint_loop c bits i (byte ∷ rest) =
    let c' = bit_or c (u64 (bit_and byte 0x7F * 2 ^ bits)) in
    let more = varint_loop c' (bits + 7) (i + 1) rest in
    if bit_and byte 0x80 == 0
    then some (record { c = c'; bits = bits + 7; taken = i + 1 })
    else more

-- Nothing is read, and no error is set, when the varint does not end in the buffer.
abbrev pub read_varint : Buf → Option Varint → ℕ × ℕ × Buf
read_varint b none = (0, 0, b)
read_varint b (some v) = (v.c, v.bits, advance b v.taken)

unfoldable pub varint : Buf → ℕ × ℕ × Buf
unfolding varint_loop
varint b = read_varint b (varint_loop 0 0 0 b.unread)

unfoldable pub uint : Buf → ℕ × Buf
unfolding varint
uint b = ((varint b).0, (varint b).2)

-- `1 << (bits - 1)` as an int64. The unsigned count wraps to 2 ^ 64 - 1 at 0 bits: a shift to 0.
abbrev pub sign_bit : ℕ → ℕ
sign_bit bits = if bits == 0 then 0 else u64 (2 ^ (bits - 1))

-- `x |= -1 << bits` where the sign bit is set, on the bit pattern of an int64.
pub extend_sign : ℕ → ℕ → ℕ
extend_sign x bits =
    if bit_and x (sign_bit bits) == 0 then x else bit_or x (u64 ((2 ^ 64 - 1) * 2 ^ bits))

unfoldable pub int : Buf → ℕ × Buf
unfolding varint extend_sign
int b = (extend_sign (varint b).0 (varint b).1, (varint b).2)

unfoldable pub addr : Buf → ℕ × Buf
unfolding uint8 uint16 uint32 uint64 error
addr b =
    if b.format.addrsize == 1
    then uint8 b
    else if b.format.addrsize == 2
    then uint16 b
    else if b.format.addrsize == 4
    then uint32 b
    else if b.format.addrsize == 8
    then uint64 b
    else (0, error b "unknown address size" [])

unfoldable pub assert_empty : Buf → Buf
unfolding error
assert_empty b =
    if length b.unread == 0
    then b
    else let b' =
        if ltb 5 (length b.unread)
        then error b "unexpected extra data: %x..." (take 5 b.unread)
        else b in
      error b' "unexpected extra data: %x" b'.unread
