-- ===== src/Dwarf/Types/Steps.antt =====
-- dwarf/type.go: the steps of readType that read no other type, and the tags and kinds that it tests.
use debug.Common.{
  ◌==◌, if◌then◌else◌, u64, Bytes, ℕ, ◌+◌, ◌-◌, ◌^◌, Bool, true, false, not, ◌||◌, Option, none,
  some, [], ◌∷◌, ◌++◌, String,
}
use debug.Dwarf.Types.{
  zero_common, BasicKind, char_type, uchar_type, int_type, uint_type, float_type, complex_type,
  bool_type, addr_type, StructField, StructInfo, EnumValue, Shape, basic_type, array_type,
  struct_type, slice_type, string_type, interface_type, enum_type, func_type, typedef_type,
  map_type, chan_type, TypeNode, shape_of,
}
use debug.Common.Result.{Error, errorf, decode_error, Result, ok, err}
use debug.Common.Effect.{Effect}
use debug.Dwarf.Buf.{unknown_format, Buf, make_buf, uint8, uint, int, assert_empty}
use debug.Dwarf.Data.{Data}
use debug.Dwarf.Entry.{Value, nil_value, int64_value, bytes_value, Entry}
use debug.Dwarf.Types.Store.{
  TypeStore, alloc, next_ref, change, set_shape, int_attr, int_attr_or_zero, name_attr,
  attr_byte_size, kind_common, zero_array, zeroed,
}
use debug.Common.Text.{codes}
use debug.Dwarf.Line.Paths.{bytes_eq}

-- reflect.Chan, Interface, Map, Slice and String
abbrev pub kind_chan : ℕ
kind_chan = 18

abbrev pub kind_interface : ℕ
kind_interface = 20

abbrev pub kind_map : ℕ
kind_map = 21

abbrev pub kind_slice : ℕ
kind_slice = 23

abbrev pub kind_string : ℕ
kind_string = 24

-- The tags of types that are tested for more than once.
abbrev pub tag_typedef : ℕ
tag_typedef = 0x16

abbrev pub tag_union_type : ℕ
tag_union_type = 0x17

abbrev pub tag_enumeration_type : ℕ
tag_enumeration_type = 0x04

abbrev pub is_struct : ℕ → Bool
is_struct tag = tag == 0x02 || (tag == 0x13 || tag == tag_union_type)

abbrev pub is_qualifier : ℕ → Bool
is_qualifier tag = tag == 0x26 || (tag == 0x35 || tag == 0x37)

abbrev pub zero_info : StructInfo
zero_info = record { struct_name = []; kind = []; field = []; incomplete = false }

-- The types that the encodings of a base type stand for.
abbrev pub kind_of_encoding : ℕ → Option BasicKind
kind_of_encoding enc =
    if enc == 0x01
    then some addr_type
    else if enc == 0x02
    then some bool_type
    else if enc == 0x03
    then some complex_type
    else if enc == 0x04
    then some float_type
    else if enc == 0x05
    then some int_type
    else if enc == 0x07
    then some uint_type
    else if enc == 0x06
    then some char_type
    else if enc == 0x08
    then some uchar_type
    else none

-- The name that clang should have written for a complex type.
abbrev pub complex_name : Entry → Bytes → Bytes
complex_name e name =
    let size = int_attr_or_zero e attr_byte_size in
    if not (bytes_eq name (codes "complex"))
    then name
    else if size == 8
    then codes "complex float"
    else if size == 16
    then codes "complex double"
    else name

-- A new struct, and where it stands.
abbrev pub made : TypeNode → Option Error → Effect TypeStore (ℕ × Option Error)
made n e s = (alloc n s, ok (next_ref s, e))

-- A base type. In the errors the section's name is that of the type, which hides it.
unfoldable pub make_base : Entry → Effect TypeStore (ℕ × Option Error)
make_base e s =
    let name = name_attr e in
    elim (int_attr e 0x3E) [
      | none ↦ (
        s,
        err (
            errorf "decoding dwarf section %s: missing encoding attribute for %s"
              (e.offset ∷ name)),
      )
      | some enc ↦ elim (kind_of_encoding enc) [
        | none ↦ (
          s,
          err (
              errorf "decoding dwarf section %s: unrecognized encoding attribute value"
                (e.offset ∷ name)),
        )
        | some k ↦
            made
              (record {
                common = record (kind_common e) {
                  name = (if enc == 0x03 then complex_name e name else name);
                };
                shape = basic_type k (int_attr_or_zero e 0x0D) (int_attr_or_zero e 0x0C);
              })
              none s
      ]
    ]

-- `e.Val(AttrDataMemberLoc)` as a byte offset.
unfoldable pub located : Data → String → Entry → Bytes → Result ℕ
unfolding uint8 uint int assert_empty
located d name e [] = ok 0
located d name e (c ∷ cs) =
    let (op, b) = uint8 (make_buf d.order unknown_format "location" 0 (c ∷ cs)) in
    let unexpected : ℕ → Result ℕ =
      λ o. err (decode_error name e.offset "unexpected opcode 0x%x" (o ∷ [])) in
    let ended : ℕ → Buf → Result ℕ =
      λ x b'. elim (assert_empty b').err [ some y ↦ err y | none ↦ ok x ] in
    let (x, b1) = uint b in
    let (y, b2) = int b in
    let (op2, b3) = uint8 b2 in
    if op == 0x23
    then ended x b1
    else if op == 0x11
    then if op2 == 0x22 then ended y b3 else unexpected op2
    else unexpected op

abbrev pub member_offset : Data → String → Entry → Value → Result ℕ
member_offset d name e (bytes_value none) = ok 0
member_offset d name e (bytes_value (some bs)) = located d name e bs
member_offset d name e (int64_value x) = ok x
member_offset d name e _ = ok 0

-- What the loop over members holds: the type and the bit offset of the last one, and err.
pub record Members : Type 0 where
  pub last_type : Option ℕ
  pub last_bit : ℕ
  pub failure : Option Error

abbrev pub with_info : (StructInfo → StructInfo) → TypeNode → TypeNode
with_info f n = elim n.shape [
  | struct_type i ↦ record n { shape = struct_type (f i) }
  | slice_type i u ↦ record n { shape = slice_type (f i) u }
  | string_type i ↦ record n { shape = string_type (f i) }
  | _ ↦ n
]

abbrev pub with_array : (Option ℕ → ℕ → ℕ → Shape) → TypeNode → TypeNode
with_array f n = elim n.shape [ array_type u x c ↦ record n { shape = f u x c } | _ ↦ n ]

-- The type in a qualified type or a typedef.
abbrev pub with_type : Option ℕ → TypeNode → TypeNode
with_type u n = elim n.shape [
  | typedef_type v ↦ record n { shape = typedef_type u }
  | interface_type v ↦ record n { shape = interface_type u }
  | map_type v k e ↦ record n { shape = map_type u k e }
  | chan_type v e ↦ record n { shape = chan_type u e }
  | _ ↦ n
]

-- A count that is missing is that of x[].
abbrev pub subrange_count : Entry → ℕ
subrange_count e = elim (int_attr e 0x37) [
  | some c ↦ c
  | none ↦ elim (int_attr e 0x2F) [ some c ↦ u64 (c + 1) | none ↦ 2 ^ 64 - 1 ]
]

abbrev pub is_nil : Value → Bool
is_nil nil_value = true
is_nil _ = false

abbrev pub struct_kind : ℕ → Bytes
struct_kind tag =
    if tag == 0x02
    then codes "class"
    else if tag == tag_union_type
    then codes "union"
    else codes "struct"

-- `t.Type = &ArrayType{Type: t.Type, Count: count}`
abbrev pub under_array : ℕ → ℕ → Option Shape → TypeStore → TypeStore
under_array t count (some (array_type u x c)) s =
    set_shape t (array_type (some (next_ref s)) x c)
      (alloc (record { common = zero_common; shape = array_type u 0 count }) s)
under_array t count _ s = s

-- Dimension number `ndim` of the array type t.
unfoldable pub add_dimension : ℕ → Entry → ℕ → TypeStore → TypeStore
add_dimension t e ndim s =
    let count = subrange_count e in
    if ndim == 0
    then change t (with_array (λ u x c. array_type u x count)) s
    else under_array t count (shape_of s.heap (some t)) s

-- The body of the loop over dimensions.
unfoldable pub take_dimension : String → ℕ → Entry → ℕ → Effect TypeStore ℕ
unfolding add_dimension
take_dimension name t e ndim s =
    if e.tag == 0x21
    then (add_dimension t e ndim s, ok (ndim + 1))
    else if e.tag == tag_enumeration_type
    then (s, err (decode_error name e.offset "cannot handle enumeration type as array bound" []))
    else (s, ok ndim)

abbrev pub add_value : ℕ → Entry → Unit {0} → Effect TypeStore (Unit {0})
add_value t e u s =
    let v : EnumValue = record { name = name_attr e; val = int_attr_or_zero e 0x1C } in
    if e.tag == 0x28
    then (
      change t
          (λ n. elim n.shape [
            | enum_type x vs ↦ record n { shape = enum_type x (vs ++ v ∷ []) }
            | _ ↦ n
          ])
          s,
      ok tt,
    )
    else (s, ok tt)

abbrev pub add_param : ℕ → Option ℕ → TypeStore → TypeStore
add_param t u s =
    change t
      (λ n. elim n.shape [
        | func_type x ps ↦ record n { shape = func_type x (ps ++ u ∷ []) }
        | _ ↦ n
      ])
      s

-- The StructField of a member, but for where it lies.
abbrev pub member_field : Entry → Option ℕ → ℕ → StructField
member_field e u byte_offset = record {
  name = name_attr e;
  field_type = u;
  byte_offset = byte_offset;
  byte_size = int_attr_or_zero e attr_byte_size;
  bit_offset = int_attr_or_zero e 0x0C;
  bit_size = int_attr_or_zero e 0x0D;
}

-- The first of two values of err: what the loop's next has set, or what was there.
abbrev pub first_error : Option Error → Option Error → Option Error
first_error (some x) y = some x
first_error none y = y

-- `if … { zeroArray(t) }`
unfoldable pub zero_if : Bool → Option ℕ → Effect TypeStore (Unit {0})
unfolding zero_array
zero_if b t s = if b then zeroed t s else (s, ok tt)
