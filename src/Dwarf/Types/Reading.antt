-- ===== src/Dwarf/Types/Reading.antt =====
-- dwarf/type.go and dwarf/typeunit.go: readType, sigToType and the method Type. Fuel is the depth of
-- the calls of readType, one in another; `entries` is that of the loops over entries. The fuel of Size
-- is one for each type, and one more.
use debug.Common.{
  ◌==◌, if◌then◌else◌, length, ℕ, zero, suc, ◌-◌, ◌^◌, Option, none, some, List, [], ◌∷◌, String,
}
use debug.Common.Result.{Error, errorf, decode_error, Result, ok, err, panic, stuck}
use debug.Common.Effect.{Effect, ◌>=>◌}
use debug.Common.Maps.{map_get, map_insert}
use debug.Dwarf.Data.{Data}
use debug.Dwarf.Entry.{
  nil_value, uint64_value, int64_value, offset_value, bytes_value, bool_value, string_value, Entry,
  entry_val,
}
use debug.Dwarf.Reader.{reader, address_size, failed, at_end, read}
use debug.Dwarf.Types.{
  zero_common, void_type, ptr_type, interface_type, typedef_type, map_type, chan_type, TypeNode,
  node_of, type_size,
}
use debug.Dwarf.Types.Store.{
  TypeStore, alloc, next_ref, change, remember, forget, int_attr, attr_byte_size,
}
use debug.Dwarf.Types.Units.{
  TypeSigs, unit_reader_of, TypeReader, of_info, of_unit, type_seek, type_next, type_clone,
  type_address_size,
}
use debug.Dwarf.Types.Fill.{make_type, fill_type}

-- A type that is read gets its offset and its size.
abbrev pub sized : ℕ → Entry → TypeNode → TypeStore → Result ℕ
sized address_size e n s =
    let size : Option ℕ → Result ℕ = type_size (suc (length s.heap)) s.heap in
    elim (int_attr e attr_byte_size) [
      | some b ↦ ok b
      | none ↦ elim n.shape [
        | typedef_type u ↦ size u
        | map_type u k v ↦ size u
        | chan_type u v ↦ size u
        | interface_type u ↦ size u
        | ptr_type u ↦ ok address_size
        | _ ↦ ok (2 ^ 64 - 1)
      ]
    ]

unfoldable pub finish : ℕ → ℕ → Entry → ℕ → Effect TypeStore ℕ
unfolding type_size
finish address_size off e t s =
    let s1 = change t (λ n. record n { common = record n.common { offset = off } }) s in
    elim (node_of s1.heap (some t)) [
      | none ↦ (s1, panic)
      | some n ↦ (s1, sized address_size e n s1) >=> λ b s2.
          (change t (λ m. record m { common = record m.common { byte_size = b } }) s2, ok t)
    ]

-- The label Error.
abbrev pub or_forget : ℕ → TypeStore × Result ℕ → TypeStore × Result ℕ
or_forget off (s, ok t) = (s, ok t)
or_forget off (s, err e) = (forget off s, err e)
or_forget off (s, panic) = (s, panic)
or_forget off (s, stuck) = (s, stuck)

abbrev pub Reads : Type 0
Reads = String → TypeReader → ℕ → Effect TypeStore ℕ

-- `if t, err = …; err != nil { return nil }`: err is set to nil too.
abbrev pub into_err : TypeStore × Result ℕ → TypeStore × Result (Option ℕ × Option Error)
into_err (s, ok t) = (s, ok (some t, none))
into_err (s, err e) = (s, ok (none, some e))
into_err (s, panic) = (s, panic)
into_err (s, stuck) = (s, stuck)

-- The type unit is read with a cache of its own.
abbrev pub own_cache : List (ℕ × ℕ) → ℕ → TypeStore × Result ℕ → TypeStore × Result ℕ
own_cache outer sig (s, ok t) =
    (record s { cache = outer; sig_cache = map_insert sig t s.sig_cache }, ok t)
own_cache outer sig (s, err e) = (record s { cache = outer }, err e)
own_cache outer sig (s, panic) = (record s { cache = outer }, panic)
own_cache outer sig (s, stuck) = (record s { cache = outer }, stuck)

unfoldable pub sig_to_type : Data → TypeSigs → Reads → ℕ → Effect TypeStore ℕ
sig_to_type d sigs reads sig s = elim (map_get sig sigs) [
  | none ↦ (s, err (errorf "no type unit with signature %v" (sig ∷ [])))
  | some tu ↦ elim (map_get sig s.sig_cache) [
    | some t ↦ (s, ok t)
    | none ↦
        own_cache s.cache sig
          (reads tu.name (of_unit (unit_reader_of d tu)) tu.toff (record s { cache = [] }))
  ]
]

-- The type that an attribute of an entry refers to. No type is void, and leaves err as it is.
unfoldable pub type_of :
    Data
    → TypeSigs
    → Reads
    → String
    → TypeReader
    → Entry
    → ℕ
    → Option Error
    → Effect TypeStore (Option ℕ × Option Error)
type_of d sigs reads name r e a x s =
    let void : TypeStore × Result (Option ℕ × Option Error) =
      (alloc (record { common = zero_common; shape = void_type }) s, ok (some (next_ref s), x)) in
    elim (entry_val e.fields a) [
      | offset_value off ↦ into_err (reads name (type_clone d r) off s)
      | uint64_value sig ↦ into_err (sig_to_type d sigs reads sig s)
      | nil_value ↦ void
      | int64_value y ↦ void
      | bytes_value y ↦ void
      | bool_value y ↦ void
      | string_value y ↦ void
    ]

-- What readType does with the entry at `off`, with the reader behind it.
unfoldable pub parse_type :
    ℕ → Data → TypeSigs → Reads → String → ℕ → Entry → TypeReader → ℕ → Effect TypeStore ℕ
parse_type entries d sigs reads name off e r address_size s =
    let of : Entry → ℕ → Option Error → Effect TypeStore (Option ℕ × Option Error) =
      type_of d sigs reads name r in
    or_forget off (
      make_type entries d name of e s >=> λ t s1.
      fill_type entries d name of e r t.0 t.1 (remember off t.0 s1) >=> λ x s2. elim x [
        | some y ↦ (s2, err y)
        | none ↦ finish address_size off e t.0 s2
      ])

-- readType on a miss in the cache.
unfoldable pub read_entry : ℕ → Data → TypeSigs → Reads → Reads
read_entry entries d sigs reads name r off s = (s, type_next d (type_seek d r off)) >=> λ n s1.
    elim n.0 [
      | failed e ↦ (s1, err e)
      | at_end ↦ (s1, type_address_size d n.1) >=> λ a s2.
          (s2, err (decode_error name off "no type at offset" []))
      | read e ↦ (s1, type_address_size d n.1) >=> λ a s2.
          if e.offset == off
          then parse_type entries d sigs reads name off e n.1 a s2
          else (s2, err (decode_error name off "no type at offset" []))
    ]

unfoldable pub read_type : ℕ → ℕ → Data → TypeSigs → Reads
read_type zero entries d sigs name r off s = (s, stuck)
read_type (suc fuel) entries d sigs name r off s = elim (map_get off s.cache) [
  | some t ↦ (s, ok t)
  | none ↦ read_entry entries d sigs (read_type fuel entries d sigs) name r off s
]

-- The method Type.
unfoldable pub type_at : ℕ → ℕ → Data → TypeSigs → ℕ → Effect TypeStore ℕ
unfolding read_type reader
type_at fuel entries d sigs off s = read_type fuel entries d sigs "info" (of_info (reader d)) off s
