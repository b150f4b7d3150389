-- ===== src/Dwarf/Types.antt =====
-- dwarf/type.go: the types that a debugger reads. A Type is a pointer to one of the type structs, and
-- types can lead back to themselves: the structs stand in a list, and a Type is the place of one of
-- them there, or none where it is nil. An int64 is its bit pattern.
pub mod Text
pub mod Units
pub mod Store
pub mod Kids
pub mod Steps
pub mod Fill
pub mod Reading
pub mod Keeps
pub mod Held
pub mod Cached
pub mod Circular
mod Runs
use debug.Common.{get_elem?, u64, Bytes, ℕ, zero, suc, ◌*◌, Bool, Option, none, some, List, []}
use debug.Common.Result.{Result, ok, panic, stuck, ◌>>=◌}

-- CommonType
pub record CommonType : Type 0 where
  pub byte_size : ℕ
  pub name : Bytes
  pub reflect_kind : ℕ
  pub offset : ℕ

-- `new(CommonType)`
abbrev pub zero_common : CommonType
zero_common = record { byte_size = 0; name = []; reflect_kind = 0; offset = 0 }

-- The types that are a BasicType and no more.
pub data BasicKind : Type 0 where
  char_type uchar_type int_type uint_type float_type : BasicKind
  complex_type bool_type addr_type unspecified_type : BasicKind

pub record StructField : Type 0 where
  pub name : Bytes
  pub field_type : Option ℕ
  pub byte_offset : ℕ
  pub byte_size : ℕ
  pub bit_offset : ℕ
  pub bit_size : ℕ

-- What a StructType has besides its CommonType.
pub record StructInfo : Type 0 where
  pub struct_name : Bytes
  pub kind : Bytes
  pub field : List StructField
  pub incomplete : Bool

pub record EnumValue : Type 0 where
  pub name : Bytes
  pub val : ℕ

-- The structs behind a Type, without their CommonType.
pub data Shape : Type 0 where
  basic_type : BasicKind → ℕ → ℕ → Shape
  qual_type : Bytes → Option ℕ → Shape
  array_type : Option ℕ → ℕ → ℕ → Shape
  void_type : Shape
  ptr_type : Option ℕ → Shape
  struct_type : StructInfo → Shape
  slice_type : StructInfo → Option ℕ → Shape
  string_type : StructInfo → Shape
  interface_type : Option ℕ → Shape
  enum_type : Bytes → List EnumValue → Shape
  func_type : Option ℕ → List (Option ℕ) → Shape
  dot_dot_dot_type : Shape
  typedef_type : Option ℕ → Shape
  map_type : Option ℕ → Option ℕ → Option ℕ → Shape
  chan_type : Option ℕ → Option ℕ → Shape

pub record TypeNode : Type 0 where
  pub common : CommonType
  pub shape : Shape

abbrev pub TypeHeap : Type 0
TypeHeap = List TypeNode

-- A type assertion, or a type switch, looks at the struct behind a Type; a nil Type has none.
abbrev pub node_of : TypeHeap → Option ℕ → Option TypeNode
node_of h none = none
node_of h (some t) = get_elem? h t

abbrev pub shape_of : TypeHeap → Option ℕ → Option Shape
shape_of h t = elim (node_of h t) [ none ↦ none | some n ↦ some n.shape ]

-- A method call, which panics at a nil Type.
abbrev pub called : TypeHeap → Option ℕ → Result TypeNode
called h t = elim (node_of h t) [ none ↦ panic | some n ↦ ok n ]

-- `t.Common()`
abbrev pub common_of : TypeHeap → Option ℕ → Result CommonType
common_of h t = called h t >>= λ n. ok n.common

-- Size. Fuel is the depth of the calls, one in another.
unfoldable pub type_size : ℕ → TypeHeap → Option ℕ → Result ℕ
type_size zero h t = stuck
type_size (suc fuel) h t = called h t >>= λ n. elim n.shape [
  | qual_type q u ↦ type_size fuel h u
  | array_type u stride count ↦ type_size fuel h u >>= λ x. ok (u64 (count * x))
  | typedef_type u ↦ type_size fuel h u
  | interface_type u ↦ type_size fuel h u
  | map_type u k e ↦ type_size fuel h u
  | chan_type u e ↦ type_size fuel h u
  | basic_type k s o ↦ ok n.common.byte_size
  | void_type ↦ ok n.common.byte_size
  | ptr_type u ↦ ok n.common.byte_size
  | struct_type i ↦ ok n.common.byte_size
  | slice_type i e ↦ ok n.common.byte_size
  | string_type i ↦ ok n.common.byte_size
  | enum_type x vs ↦ ok n.common.byte_size
  | func_type u ps ↦ ok n.common.byte_size
  | dot_dot_dot_type ↦ ok n.common.byte_size
]

-- The function next of followTypedefs, on a Type that is a typedef.
abbrev pub typedef_of : TypeHeap → Option ℕ → Option (Option ℕ)
typedef_of h t = elim (shape_of h t) [ some (typedef_type u) ↦ some u | _ ↦ none ]
