-- ===== src/Dwarf/Entry.antt =====
-- dwarf/entry.go: abbreviation tables and entries. An Offset, a Tag, an Attr and a format are
-- uint32s; an int64 is its bit pattern.
pub mod Tables
mod Runs
use debug.Common.{
  ltb, leb, ◌==◌, if◌then◌else◌, length, drop, u32, Bytes, ℕ, zero, suc, ◌+◌, ◌^◌, Bool, true,
  false, not, ◌&&◌, ◌||◌, Option, none, some, List, [], ◌∷◌, map, String,
}
use mathlib.Core.Option
use debug.Common.Result.{Result, ok, err, panic, stuck, ◌>>=◌}
use debug.Common.Slices.{tail_from}
use debug.Dwarf.Buf.{
  unknown_format, Buf, make_buf, error, uint8, bytes, skip, string, uint16, uint32, uint64, uint,
  int, addr,
}
use debug.Dwarf.Data.{Afield, Abbrev, AbbrevTable, Data}

-- The cache of a Data: a map from offsets to tables, the newest entry first.
abbrev pub AbbrevCache : Type 0
AbbrevCache = List (ℕ × AbbrevTable)

-- `m[k]` of a map.
pub lookup {ℓ} : {A : Type ℓ} → ℕ → List (ℕ × A) → Option A
lookup k [] = none
lookup k (e ∷ es) = if e.0 == k then some e.1 else lookup k es

-- The walk that counts attributes, with fuel, from n on. A pair that is not (0, 0) takes a byte at
-- least.
unfoldable pub count_attrs : ℕ → Buf → ℕ → Result (ℕ × Buf)
count_attrs zero b n = stuck
count_attrs (suc fuel) b n =
    let (tag, b1) = uint b in
    let (fmt, b2) = uint b1 in
    let more = count_attrs fuel b2 (n + 1) in if tag == 0 && fmt == 0 then ok (n, b2) else more

-- The walk that writes n attributes down.
unfoldable pub read_afields : ℕ → Buf → List Afield × Buf
read_afields zero b = ([], b)
read_afields (suc n) b =
    let (attr, b1) = uint b in
    let (fmt, b2) = uint b1 in
    let (rest, b3) = read_afields n b2 in (record { attr = u32 attr; fmt = u32 fmt } ∷ rest, b3)

-- One description, behind its id: the buffer is copied for the count.
unfoldable pub read_abbrev : Buf → Result (Abbrev × Buf)
unfolding count_attrs read_afields
read_abbrev b =
    let b1 = (uint8 (uint b).1).1 in
    count_attrs (suc (length b1.unread)) b1 0 >>= λ c. elim c.1.err [
      | some e ↦ err e
      | none ↦
          let (tag, b2) = uint b in
          let (children, b3) = uint8 b2 in
          let (fields, b4) = read_afields c.0 b3 in
          ok (
            record { tag = u32 tag; children = not (children == 0); field = fields },
            (uint (uint b4).1).1,
          )
    ]

-- The loop over descriptions, with fuel. An id other than 0 takes a byte at least.
unfoldable pub abbrev_loop : ℕ → Buf → AbbrevTable → Result (AbbrevTable × Buf)
unfolding read_abbrev
abbrev_loop zero b m = stuck
abbrev_loop (suc fuel) b m =
    let (x, b1) = uint b in
    let more = read_abbrev b1 >>= λ a. abbrev_loop fuel a.1 ((u32 x, a.0) ∷ m) in
    if u32 x == 0 then ok (m, b1) else more

-- parseAbbrev on a miss in the cache, `uint32(len(data))` included.
unfoldable pub read_abbrevs : Data → ℕ → Result AbbrevTable
unfolding abbrev_loop
read_abbrevs d off =
    (if ltb (u32 (length d.abbrevs)) off then ok [] else tail_from off d.abbrevs) >>= λ content.
    abbrev_loop (suc (length content)) (make_buf d.order unknown_format "abbrev" 0 content) []
    >>= λ r. elim r.1.err [ some e ↦ err e | none ↦ ok r.0 ]

-- A table is cached only when its parse succeeds.
unfoldable pub parse_abbrev : Data → AbbrevCache → ℕ → Result (AbbrevTable × AbbrevCache)
unfolding read_abbrevs lookup
parse_abbrev d cache off = elim (lookup off cache) [
  | some m ↦ ok (m, cache)
  | none ↦ read_abbrevs d off >>= λ m. ok (m, (off, m) ∷ cache)
]

-- The dynamic types that a field's value has; `nil_value` is a nil interface.
pub data Value : Type 0 where
  nil_value : Value
  uint64_value int64_value offset_value : ℕ → Value
  bytes_value : Option Bytes → Value
  bool_value : Bool → Value
  string_value : Bytes → Value

pub record Field : Type 0 where
  pub attr : ℕ
  pub val : Value

pub record Entry : Type 0 where
  pub offset : ℕ
  pub tag : ℕ
  pub children : Bool
  pub fields : List Field

-- `&Entry{}`
abbrev pub zero_entry : Entry
zero_entry = record { offset = 0; tag = 0; children = false; fields = [] }

-- The method Val.
unfoldable pub entry_val : List Field → ℕ → Value
entry_val [] a = nil_value
entry_val (f ∷ fs) a = if f.attr == a then f.val else entry_val fs a

-- `b.bytes(int(n))`: a count that is negative as an int panics.
unfoldable pub block : ℕ × Buf → Result (Option Value × Buf)
block n =
    if leb (2 ^ 63) n.0 then panic else ok (some (bytes_value (bytes n.1 n.0).0), (bytes n.1 n.0).1)

abbrev pub read_as : (ℕ → Value) → ℕ × Buf → Result (Option Value × Buf)
read_as f x = ok (some (f x.0), x.1)

-- `Offset(x) + ubase`
abbrev pub based : ℕ → ℕ → Value
based ubase x = offset_value (u32 (u32 x + ubase))

-- `b.error(s)`, with no value.
abbrev pub bad_form : Buf → String → List ℕ → Result (Option Value × Buf)
bad_form b s args = ok (some nil_value, error b s args)

unfoldable pub ref_addr : Buf → Result (Option Value × Buf)
ref_addr b =
    if b.format.version == 0
    then bad_form b "unknown version for DW_FORM_ref_addr" []
    else if b.format.version == 2
    then read_as (λ x. offset_value (u32 x)) (addr b)
    else if not b.format.dwarf64_known
    then bad_form b "unknown size for DW_FORM_ref_addr" []
    else if b.format.dwarf64
    then read_as (λ x. offset_value (u32 x)) (uint64 b)
    else read_as offset_value (uint32 b)

-- The string of the string section at `off`. `none` is the return of a nil entry.
abbrev pub str_at : Data → Buf → ℕ → Option Value × Buf
str_at d b off =
    let b1 = skip (make_buf d.order unknown_format "str" 0 d.str) off in
    let (s, b2) = string b1 in
    elim b2.err [ none ↦ (some (string_value s), b) | some e ↦ (none, record b { err = some e }) ]

unfoldable pub str_pointer : Data → Buf → Result (Option Value × Buf)
unfolding skip string
str_pointer d b =
    let (off, b1) = uint32 b in ok (elim b1.err [ some e ↦ (none, b1) | none ↦ str_at d b1 off ])

unfoldable pub section_offset : ℕ → Buf → Result (Option Value × Buf)
section_offset fmt b =
    if not b.format.dwarf64_known
    then bad_form b "unknown size for form 0x%x" (fmt ∷ [])
    else if b.format.dwarf64
    then read_as int64_value (uint64 b)
    else read_as int64_value (uint32 b)

-- The switch over the form.
unfoldable pub read_value : Data → ℕ → ℕ → Buf → Result (Option Value × Buf)
unfolding block ref_addr str_pointer section_offset
read_value d ubase fmt b =
    if fmt == 0x01
    then read_as uint64_value (addr b)
    else if fmt == 0x0A
    then block (uint8 b)
    else if fmt == 0x03
    then block (uint16 b)
    else if fmt == 0x04
    then block (uint32 b)
    else if fmt == 0x09
    then block (uint b)
    else if fmt == 0x0B
    then read_as int64_value (uint8 b)
    else if fmt == 0x05
    then read_as int64_value (uint16 b)
    else if fmt == 0x06
    then read_as int64_value (uint32 b)
    else if fmt == 0x07
    then read_as int64_value (uint64 b)
    else if fmt == 0x0D
    then read_as int64_value (int b)
    else if fmt == 0x0F
    then read_as int64_value (uint b)
    else if fmt == 0x0C
    then read_as (λ x. bool_value (x == 1)) (uint8 b)
    else if fmt == 0x19
    then ok (some (bool_value true), b)
    else if fmt == 0x10
    then ref_addr b
    else if fmt == 0x11
    then read_as (based ubase) (uint8 b)
    else if fmt == 0x12
    then read_as (based ubase) (uint16 b)
    else if fmt == 0x13
    then read_as (based ubase) (uint32 b)
    else if fmt == 0x14
    then read_as (based ubase) (uint64 b)
    else if fmt == 0x15
    then read_as (based ubase) (uint b)
    else if fmt == 0x08
    then ok (some (string_value (string b).0), (string b).1)
    else if fmt == 0x0E
    then str_pointer d b
    else if fmt == 0x17 || (fmt == 0x1f20 || fmt == 0x1f21)
    then section_offset fmt b
    else if fmt == 0x18
    then block (uint b)
    else if fmt == 0x20
    then read_as uint64_value (uint64 b)
    else bad_form b "unknown entry attr format 0x%x" (fmt ∷ [])

-- formIndirect: the form itself is in the data.
abbrev pub form_of : ℕ → Buf → ℕ × Buf
form_of fmt b = if fmt == 0x16 then (u32 (uint b).0, (uint b).1) else (fmt, b)

-- The loop over the fields. `none` is the return of a nil entry.
unfoldable pub read_fields : Data → ℕ → List Afield → Buf → Result (Option (List Field) × Buf)
unfolding read_value
read_fields d ubase [] b = ok (some [], b)
read_fields d ubase (a ∷ more) b =
    let (fmt, b1) = form_of a.fmt b in
    read_value d ubase fmt b1 >>= λ v. elim v.0 [
      | none ↦ ok (none, v.1)
      | some x ↦ read_fields d ubase more v.1 >>= λ r.
          ok (Option.map (λ fs. record { attr = a.attr; val = x } ∷ fs) r.0, r.1)
    ]

-- The method entry of a buffer; `none` is a nil entry.
unfoldable pub entry : Data → AbbrevTable → ℕ → Buf → Result (Option Entry × Buf)
unfolding read_fields lookup
entry d atab ubase b =
    let (x, b1) = uint b in
    let id = u32 x in
    if id == 0 then ok (some zero_entry, b1) else elim (lookup id atab) [
      | none ↦ ok (none, error b1 "unknown abbreviation table index" [])
      | some a ↦ read_fields d ubase a.field b1 >>= λ r. elim r.1.err [
        | some e ↦ ok (none, r.1)
        | none ↦ ok (
          Option.map
              (λ fs. record { offset = b.off; tag = a.tag; children = a.children; fields = fs })
              r.0,
          r.1,
        )
      ]
    ]
