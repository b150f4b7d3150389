-- ===== src/Dwarf/Symbol.antt =====
-- dwarf/symbol.go: looking entries up by name and PC. The loops over a Reader take fuel: one for
-- each entry, and one for the end.
pub mod Finds
pub mod Pcs
pub mod Names
pub mod Hangs
mod Runs
use debug.Common.{
  ltb, leb, ◌==◌, if◌then◌else◌, length, get_or, take, drop, Bytes, order_value, ℕ, zero, suc, ◌+◌,
  not, ◌&&◌, ◌||◌, Option, none, some, [], ◌∷◌,
}
use debug.Common.Result.{errorf, wrapped, Result, ok, err, panic, stuck, ◌>>=◌}
use debug.Dwarf.Data.{Data}
use debug.Dwarf.Entry.{
  Value, nil_value, uint64_value, int64_value, offset_value, bytes_value, bool_value, string_value,
  Entry, entry_val,
}
use debug.Dwarf.Reader.{Reader, reader, failed, at_end, read, next}
use debug.Dwarf.Line.Paths.{bytes_eq}

abbrev pub attr_location : ℕ
attr_location = 0x02

abbrev pub attr_name : ℕ
attr_name = 0x03

abbrev pub attr_lowpc : ℕ
attr_lowpc = 0x11

abbrev pub attr_highpc : ℕ
attr_highpc = 0x12

abbrev pub attr_type : ℕ
attr_type = 0x49

abbrev pub tag_subprogram : ℕ
tag_subprogram = 0x2E

abbrev pub tag_variable : ℕ
tag_variable = 0x34

-- `for { entry, err := r.Next(); … }`: an error is returned, the end of the entries and an entry in
-- which `visit` finds something end the loop.
unfoldable pub find_loop {ℓ} :
    {A : Type ℓ} → (Entry → Result (Option A)) → ℕ → Data → Reader → Result (Option A)
unfolding next
find_loop visit zero d r = stuck
find_loop visit (suc fuel) d r = next d r >>= λ n. elim n.0 [
  | failed e ↦ err e
  | at_end ↦ ok none
  | read e ↦ visit e >>= λ o. elim o [ some a ↦ ok (some a) | none ↦ find_loop visit fuel d n.1 ]
]

-- The body of lookupEntry's loop. A name that is not a string panics.
unfoldable pub visit_name : Bytes → ℕ → Entry → Result (Option Entry)
visit_name name tag e =
    let named : Result (Option Entry) = elim (entry_val e.fields attr_name) [
      | nil_value ↦ ok none
      | string_value s ↦ if bytes_eq s name then ok (some e) else ok none
      | uint64_value x ↦ panic
      | int64_value x ↦ panic
      | offset_value x ↦ panic
      | bytes_value x ↦ panic
      | bool_value x ↦ panic
    ] in
    if not (tag == 0) && not (tag == e.tag) then ok none else named

unfoldable pub lookup_entry_tag : ℕ → Data → Bytes → ℕ → Result Entry
unfolding find_loop visit_name reader
lookup_entry_tag fuel d name tag = find_loop (visit_name name tag) fuel d (reader d) >>= λ o.
    elim o [ some e ↦ ok e | none ↦ err (errorf "DWARF entry for %q not found" name) ]

unfoldable pub lookup_entry : ℕ → Data → Bytes → Result Entry
unfolding lookup_entry_tag
lookup_entry fuel d name = lookup_entry_tag fuel d name 0

unfoldable pub lookup_function : ℕ → Data → Bytes → Result ℕ
unfolding lookup_entry_tag
lookup_function fuel d name = lookup_entry_tag fuel d name tag_subprogram >>= λ e.
    elim (entry_val e.fields attr_lowpc) [
      | nil_value ↦ err (errorf "symbol %q has no LowPC attribute" name)
      | uint64_value x ↦ ok x
      | int64_value x ↦ err (errorf "symbol %q has non-uint64 LowPC attribute" name)
      | offset_value x ↦ err (errorf "symbol %q has non-uint64 LowPC attribute" name)
      | bytes_value x ↦ err (errorf "symbol %q has non-uint64 LowPC attribute" name)
      | bool_value x ↦ err (errorf "symbol %q has non-uint64 LowPC attribute" name)
      | string_value x ↦ err (errorf "symbol %q has non-uint64 LowPC attribute" name)
    ]

-- `e.Val(AttrLocation).([]byte)`, which is nil where the value is not one.
abbrev pub as_bytes : Value → Bytes
as_bytes (bytes_value (some bs)) = bs
as_bytes _ = []

-- A location of one address operation, behind its opcode.
unfoldable pub literal_address : Data → ℕ → Bytes → Result ℕ
literal_address d asize loc =
    let unimplemented : Result ℕ = err (errorf "DWARF entry has an unimplemented Location op" []) in
    if asize == 1
    then ok (get_or loc 1 0)
    else if asize == 2
    then ok (order_value d.order (take 2 (drop 1 loc)))
    else if asize == 4
    then ok (order_value d.order (take 4 (drop 1 loc)))
    else if asize == 8
    then ok (order_value d.order (take 8 (drop 1 loc)))
    else unimplemented

-- The address size is that of the first unit; with no unit the index panics.
unfoldable pub entry_location : Data → Entry → Result ℕ
unfolding literal_address
entry_location d e =
    let loc = as_bytes (entry_val e.fields attr_location) in
    if length loc == 0
    then err (errorf "DWARF entry has no Location attribute" [])
    else elim d.units [
      | [] ↦ panic
      | u ∷ us ↦
          if get_or loc 0 0 == 0x03 && length loc == 1 + u.asize
          then literal_address d u.asize loc
          else err (errorf "DWARF entry has an unimplemented Location op" [])
    ]

abbrev pub in_variable {ℓ} : {A : Type ℓ} → Bytes → Result A → Result A
in_variable name (ok a) = ok a
in_variable name (err e) = err (wrapped "variable %s: %s" name e)
in_variable name panic = panic
in_variable name stuck = stuck

unfoldable pub lookup_variable : ℕ → Data → Bytes → Result ℕ
unfolding lookup_entry_tag entry_location
lookup_variable fuel d name =
    in_variable name (lookup_entry_tag fuel d name tag_variable >>= λ e. entry_location d e)

unfoldable pub entry_type_offset : Entry → Result ℕ
entry_type_offset e = elim (entry_val e.fields attr_type) [
  | nil_value ↦ err (errorf "DWARF entry has no Type attribute" [])
  | offset_value x ↦ ok x
  | uint64_value x ↦ err (errorf "DWARF entry has an invalid Type attribute" [])
  | int64_value x ↦ err (errorf "DWARF entry has an invalid Type attribute" [])
  | bytes_value x ↦ err (errorf "DWARF entry has an invalid Type attribute" [])
  | bool_value x ↦ err (errorf "DWARF entry has an invalid Type attribute" [])
  | string_value x ↦ err (errorf "DWARF entry has an invalid Type attribute" [])
]

-- `v.(uint64)`
abbrev pub as_uint64 : Value → Option ℕ
as_uint64 (uint64_value x) = some x
as_uint64 _ = none

-- The range test, on the two attributes.
unfoldable pub pc_range : ℕ → Entry → Option ℕ → Option ℕ → Option (Entry × ℕ)
pc_range pc e (some low) (some high) = if ltb pc low || leb high pc then none else some (e, low)
pc_range pc e (some low) none = none
pc_range pc e none o = none

-- The body of EntryForPC's loop.
unfoldable pub visit_pc : ℕ → Entry → Result (Option (Entry × ℕ))
unfolding pc_range
visit_pc pc e =
    if not (e.tag == tag_subprogram)
    then ok none
    else ok (
        pc_range pc e (as_uint64 (entry_val e.fields attr_lowpc))
          (as_uint64 (entry_val e.fields attr_highpc)))

unfoldable pub entry_for_pc : ℕ → Data → ℕ → Result (Entry × ℕ)
unfolding find_loop visit_pc reader
entry_for_pc fuel d pc = find_loop (visit_pc pc) fuel d (reader d) >>= λ o. elim o [
  | some x ↦ ok x
  | none ↦ err (errorf "PC %#x not found" (pc ∷ []))
]

unfoldable pub lookup_pc : ℕ → Data → ℕ → Result Bytes
unfolding entry_for_pc
lookup_pc fuel d pc = entry_for_pc fuel d pc >>= λ x. elim (entry_val x.0.fields attr_name) [
  | nil_value ↦ err (errorf "LookupPC: TODO" [])
  | string_value s ↦ ok s
  | uint64_value y ↦ err (errorf "name for PC %#x is not a string" (pc ∷ []))
  | int64_value y ↦ err (errorf "name for PC %#x is not a string" (pc ∷ []))
  | offset_value y ↦ err (errorf "name for PC %#x is not a string" (pc ∷ []))
  | bytes_value y ↦ err (errorf "name for PC %#x is not a string" (pc ∷ []))
  | bool_value y ↦ err (errorf "name for PC %#x is not a string" (pc ∷ []))
]
