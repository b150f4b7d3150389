-- ===== src/Dwarf/Types/Fill.antt =====
-- dwarf/type.go: the cases of readType. Each makes a struct, which goes into the cache, and then
-- fills it in; `goto Error` is an error of the call, and err at the end of a case its value.
use debug.Common.{
  ◌==◌, if◌then◌else◌, length, u64, ℕ, suc, ◌-◌, ◌*◌, ◌^◌, Bool, false, not, ◌&&◌, Option, none,
  some, [], ◌∷◌, ◌++◌, String,
}
use debug.Common.Result.{Error, Result, ok, err, panic, ◌>>=◌}
use debug.Common.Text.{codes}
use debug.Common.Effect.{Effect, ◌>=>◌}
use debug.Dwarf.Buf.{bytes}
use debug.Dwarf.Data.{Data}
use debug.Dwarf.Entry.{Entry, entry_val}
use debug.Dwarf.Symbol.{attr_type}
use debug.Dwarf.Types.{
  zero_common, unspecified_type, StructInfo, Shape, basic_type, qual_type, array_type, void_type,
  ptr_type, struct_type, slice_type, string_type, interface_type, enum_type, func_type,
  dot_dot_dot_type, typedef_type, map_type, chan_type, type_size,
}
use debug.Dwarf.Types.Store.{
  TypeStore, alloc, next_ref, change, set_shape, int_attr, name_attr, attr_go_key, attr_go_elem,
  attr_byte_size, get_kind, kind_common,
}
use debug.Dwarf.Types.Units.{TypeReader}
use debug.Dwarf.Types.Kids.{for_kids}
use debug.Dwarf.Types.Steps.{
  kind_chan, kind_interface, kind_map, kind_slice, kind_string, tag_typedef, tag_union_type,
  tag_enumeration_type, is_struct, is_qualifier, zero_info, made, make_base, located, member_offset,
  Members, with_info, with_array, with_type, is_nil, struct_kind, take_dimension, add_value,
  add_param, member_field, first_error, zero_if,
}

module _ (fuel : ℕ) (d : Data) (name : String)
    (type_of : Entry → ℕ → Option Error → Effect TypeStore (Option ℕ × Option Error)) where
  -- `if t = typeOf(e, a); err != nil { goto Error }`
  unfoldable pub checked : Entry → ℕ → Option Error → Effect TypeStore (Option ℕ)
  checked e a x s =
      type_of e a x s >=> λ u s1. elim u.1 [ some y ↦ (s1, err y) | none ↦ (s1, ok u.0) ]

  unfoldable pub make_struct : Entry → Effect TypeStore (ℕ × Option Error)
  make_struct e s =
      if get_kind e == kind_slice
      then (type_of e attr_go_elem none s >=> λ u.
          made (record { common = zero_common; shape = slice_type zero_info u.0 }) u.1)
      else if get_kind e == kind_string
      then made (record { common = zero_common; shape = string_type zero_info }) none s
      else made (record { common = kind_common e; shape = struct_type zero_info }) none s

  unfoldable pub make_typedef : Entry → Effect TypeStore (ℕ × Option Error)
  make_typedef e s =
      if get_kind e == kind_map
      then (type_of e attr_go_key none s >=> λ k s1. type_of e attr_go_elem k.1 s1 >=> λ u.
          made (record { common = zero_common; shape = map_type none k.0 u.0 }) u.1)
      else if get_kind e == kind_chan
      then (type_of e attr_go_elem none s >=> λ u.
          made (record { common = zero_common; shape = chan_type none u.0 }) u.1)
      else if get_kind e == kind_interface
      then made (record { common = zero_common; shape = interface_type none }) none s
      else made (record { common = kind_common e; shape = typedef_type none }) none s

  -- The struct that an entry calls for. With any other tag typ stays nil, and typ.Common() panics.
  unfoldable pub make_type : Entry → Effect TypeStore (ℕ × Option Error)
  unfolding make_base make_struct make_typedef
  make_type e s =
      let plain : Shape → TypeStore × Result (ℕ × Option Error) =
        λ x. made (record { common = kind_common e; shape = x }) none s in
      if e.tag == 0x01
      then plain (array_type none 0 0)
      else if e.tag == 0x24
      then make_base e s
      else if is_struct e.tag
      then make_struct e s
      else if is_qualifier e.tag
      then plain (qual_type [] none)
      else if e.tag == tag_enumeration_type
      then plain (enum_type (name_attr e) [])
      else if e.tag == 0x0F
      then plain (ptr_type none)
      else if e.tag == 0x15
      then plain (func_type none [])
      else if e.tag == tag_typedef
      then make_typedef e s
      else if e.tag == 0x3B
      then made
          (record {
            common = record zero_common { name = name_attr e };
            shape = basic_type unspecified_type 0 0;
          })
          none s
      else (s, panic)

  -- The stride of an array with elements of type u, in bits.
  unfoldable pub stride_of : Entry → Option ℕ → TypeStore → Result ℕ
  unfolding type_size
  stride_of e u s = elim (int_attr e 0x51) [
    | some bytes ↦ ok (u64 (8 * bytes))
    | none ↦ elim (int_attr e 0x2E) [
      | some bits ↦ ok bits
      | none ↦ type_size (suc (length s.heap)) s.heap u >>= λ x. ok (u64 (8 * x))
    ]
  ]

  unfoldable pub fill_array : Entry → TypeReader → ℕ → Effect TypeStore (Option Error)
  unfolding checked stride_of take_dimension for_kids
  fill_array e r t s = checked e attr_type none s >=> λ u s1.
      (set_shape t (array_type u 0 0) s1, stride_of e u s1) >=> λ stride s2.
      for_kids fuel d name (take_dimension name t) e r 0
        (change t (with_array (λ v x c. array_type v stride c)) s2)
      >=> λ n s3. (
        (if n.0 == 0 then change t (with_array (λ v x c. array_type v x (2 ^ 64 - 1))) s3 else s3),
        ok n.1,
      )

  -- A member behind its type.
  unfoldable pub put_member : ℕ → Bool → Entry → Members → Option ℕ → ℕ → Effect TypeStore Members
  put_member t is_union e m u byte_offset s =
      let f = member_field e u byte_offset in
      let s1 = change t (with_info (λ i. record i { field = i.field ++ f ∷ [] })) s in
      let bit : ℕ = elim (int_attr e 0x0C) [ some x ↦ x | none ↦ u64 (byte_offset * 8) ] in
      let m' : Members = record { last_type = u; last_bit = bit; failure = none } in
      zero_if (bit == m.last_bit && not is_union) m.last_type s1 >=> λ v s2. (s2, ok m')

  unfoldable pub take_member : ℕ → Bool → Entry → Members → Effect TypeStore Members
  unfolding checked located put_member
  take_member t is_union e m s =
      if e.tag == 0x0D
      then (checked e attr_type m.failure s >=> λ u s1.
          (s1, member_offset d name e (entry_val e.fields 0x38)) >=> λ x.
          put_member t is_union e m u x)
      else (s, ok m)

  unfoldable pub fill_struct :
      Entry → TypeReader → ℕ → Option Error → Effect TypeStore (Option Error)
  unfolding for_kids take_member
  fill_struct e r t x s =
      let is_union = e.tag == tag_union_type in
      let info : StructInfo = record {
        struct_name = name_attr e;
        kind = struct_kind e.tag;
        field = [];
        incomplete = not (is_nil (entry_val e.fields 0x3C));
      } in
      for_kids fuel d name (take_member t is_union) e r
        (record { last_type = none; last_bit = 0; failure = x })
        (change t (with_info (λ i. info)) s)
      >=> λ m s1.
          let ends : Bool = elim (int_attr e attr_byte_size) [
            | some b ↦ u64 (b * 8) == m.0.last_bit
            | none ↦ false
          ] in
          zero_if (ends && not is_union) m.0.last_type s1 >=> λ v s2.
          (s2, ok (first_error m.1 m.0.failure))

  unfoldable pub fill_qualifier : Entry → ℕ → Effect TypeStore (Option Error)
  unfolding checked
  fill_qualifier e t s = checked e attr_type none s >=> λ u s1. (
    set_shape t
        (qual_type
          (if e.tag == 0x26
            then codes "const"
            else if e.tag == 0x37
            then codes "restrict"
            else codes "volatile")
          u)
        s1,
    ok none,
  )

  unfoldable pub fill_enum : Entry → TypeReader → ℕ → Effect TypeStore (Option Error)
  unfolding for_kids
  fill_enum e r t s = for_kids fuel d name (add_value t) e r tt s >=> λ x s1. (s1, ok x.1)

  unfoldable pub fill_pointer : Entry → ℕ → Effect TypeStore (Option Error)
  fill_pointer e t s =
      if is_nil (entry_val e.fields attr_type)
      then (
        set_shape t (ptr_type (some (next_ref s)))
            (alloc (record { common = zero_common; shape = void_type }) s),
        ok none,
      )
      else type_of e attr_type none s >=> λ u s1. (set_shape t (ptr_type u.0) s1, ok u.1)

  unfoldable pub take_param : ℕ → Entry → Unit {0} → Effect TypeStore (Unit {0})
  unfolding checked
  take_param t e v s =
      if e.tag == 0x05
      then (checked e attr_type none s >=> λ u s1. (add_param t u s1, ok tt))
      else if e.tag == 0x18
      then (
        add_param t (some (next_ref s))
            (alloc (record { common = zero_common; shape = dot_dot_dot_type }) s),
        ok tt,
      )
      else (s, ok tt)

  unfoldable pub fill_func : Entry → TypeReader → ℕ → Effect TypeStore (Option Error)
  unfolding checked take_param for_kids
  fill_func e r t s = checked e attr_type none s >=> λ u s1.
      for_kids fuel d name (take_param t) e r tt (set_shape t (func_type u []) s1) >=> λ x s2.
      (s2, ok x.1)

  unfoldable pub fill_typedef : Entry → ℕ → Option Error → Effect TypeStore (Option Error)
  fill_typedef e t x s =
      type_of e attr_type x
        (change t (λ n. record n { common = record n.common { name = name_attr e } }) s)
      >=> λ u s1. (change t (with_type u.0) s1, ok u.1)

  -- The rest of each case.
  unfoldable pub fill_type : Entry → TypeReader → ℕ → Option Error → Effect TypeStore (Option Error)
  unfolding fill_array fill_struct fill_qualifier fill_enum fill_pointer fill_func fill_typedef
  fill_type e r t x s =
      if e.tag == 0x01
      then fill_array e r t s
      else if is_struct e.tag
      then fill_struct e r t x s
      else if is_qualifier e.tag
      then fill_qualifier e t s
      else if e.tag == tag_enumeration_type
      then fill_enum e r t s
      else if e.tag == 0x0F
      then fill_pointer e t s
      else if e.tag == 0x15
      then fill_func e r t s
      else if e.tag == tag_typedef
      then fill_typedef e t x s
      else (s, ok none)
