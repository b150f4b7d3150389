-- ===== src/Dwarf/Types/Units.antt =====
-- dwarf/typeunit.go: type units, and the readers that types are read with. A typeReader is a Reader
-- of the info section or one of a type unit.
use debug.Common.{
  ltb, ◌==◌, if◌then◌else◌, length, drop, u32, Bytes, ℕ, zero, suc, ◌+◌, ◌-◌, ◌^◌, Bool, true,
  false, Option, none, some, List, [], ◌∷◌, String,
}
use debug.Common.Result.{Error, errorf, Result, ok, panic, stuck, ◌>>=◌}
use debug.Common.Effect.{Effect, ◌>=>◌}
use debug.Common.Maps.{map_insert}
use debug.Dwarf.Buf.{unknown_format, Buf, make_buf, error, uint8, bytes, uint16, uint32, uint64}
use debug.Dwarf.Data.{AbbrevTable, CompUnit, unit_format, Data}
use debug.Dwarf.Entry.{AbbrevCache, parse_abbrev, Entry, entry}
use debug.Dwarf.Reader.{Reader, seek, reader, address_size, Outcome, failed, at_end, read, next}
use debug.Dwarf.Reader

-- A typeUnit without its cache of the type.
pub record TypeUnit : Type 0 where
  pub unit : CompUnit
  pub toff : ℕ
  pub name : String

-- The map typeSigs, the newest entry first.
abbrev pub TypeSigs : Type 0
TypeSigs = List (ℕ × TypeUnit)

-- `return b.err`
abbrev pub error_of {ℓ} : {A : Type ℓ} → Buf → Result A
error_of b = elim b.err [ some e ↦ Result.err e | none ↦ panic ]

-- A 32-bit field, or in the 64-bit format a 64-bit one that has to fit in 32 bits.
unfoldable pub sized_offset : Bool → String → Buf → Result (ℕ × Buf)
unfolding error
sized_offset false overflow b = ok (uint32 b)
sized_offset true overflow b =
    let (x, b1) = uint64 b in if x == u32 x then ok (x, b1) else error_of (error b1 overflow [])

-- The length of a unit and whether it is in the 64-bit format.
unfoldable pub unit_head : Buf → Result ((ℕ × Bool) × Buf)
unfolding sized_offset
unit_head b =
    let (n, b1) = uint32 b in
    if n == 0xffffffff
    then (sized_offset true "type unit length overflow" b1 >>= λ x. ok ((x.0, true), x.1))
    else ok ((n, false), b1)

-- The fields of a unit behind its abbreviation offset, for a length n counted from `from`.
unfoldable pub unit_body :
    String → ℕ → ℕ × Bool → ℕ → ℕ → AbbrevTable → Buf → Result ((ℕ × TypeUnit) × Buf)
unfolding sized_offset
unit_body name base head from vers atable b =
    let (asize, b1) = uint8 b in
    let (sig, b2) = uint64 b1 in
    sized_offset head.1 "type unit type offset overflow" b2 >>= λ o.
    let (content, b3) = bytes o.1 (u32 (head.0 + 2 ^ 32 - u32 (o.1.off + 2 ^ 32 - from))) in
    ok (
      (
        sig,
        record {
          unit = record {
            base = base;
            off = o.1.off;
            content = elim content [ none ↦ [] | some bs ↦ bs ];
            atable = atable;
            asize = asize;
            vers = vers;
            is64 = head.1;
          };
          toff = o.0;
          name = name;
        },
      ),
      b3,
    )

-- One unit of parseTypes.
unfoldable pub read_type_unit : Data → String → Buf → Effect AbbrevCache ((ℕ × TypeUnit) × Buf)
unfolding unit_head unit_body error
read_type_unit d name b cache = (cache, unit_head b) >=> λ h c1.
    let (vers, b1) = uint16 h.1 in
    let rest : AbbrevCache × Result ((ℕ × TypeUnit) × Buf) =
      (c1, sized_offset h.0.1 "type unit abbrev offset overflow" b1) >=> λ a c2.
      elim (parse_abbrev d c2 a.0) [
        | ok t ↦ (t.1, unit_body name b.off h.0 h.1.off vers t.0 a.1)
        | Result.err e ↦ (c2, Result.err e)
        | panic ↦ (c2, panic)
        | stuck ↦ (c2, stuck)
      ] in
    if vers == 4 then rest else (c1, error_of (error b1 "unsupported DWARF version %d" (vers ∷ [])))

-- The loop of parseTypes, with fuel: one for each unit. A unit that does not fit is kept too.
unfoldable pub parse_types_loop :
    ℕ → Data → String → Buf → Effect (TypeSigs × AbbrevCache) (Unit {0})
unfolding read_type_unit
parse_types_loop zero d name b s = (s, stuck)
parse_types_loop (suc fuel) d name b (sigs, cache) = elim (length b.unread == 0) [
  | true ↦ ((sigs, cache), ok tt)
  | false ↦
      let (cache', r) = read_type_unit d name b cache in
      ((sigs, cache'), r) >=> λ u s.
      let sigs' = map_insert u.0.0 u.0.1 sigs in
      elim u.1.err [
        | some e ↦ ((sigs', cache'), Result.err e)
        | none ↦ parse_types_loop fuel d name u.1 (sigs', cache')
      ]
]

-- parseTypes, which AddTypes calls. A round takes at least the four bytes of a length.
unfoldable pub parse_types : Data → String → Bytes → Effect (TypeSigs × AbbrevCache) (Unit {0})
unfolding parse_types_loop
parse_types d name types s =
    parse_types_loop (suc (length types)) d name (make_buf d.order unknown_format name 0 types) s

pub record TypeUnitReader : Type 0 where
  pub tu : TypeUnit
  pub b : Buf
  pub err : Option Error

-- `makeBuf(tur.d, tur.tu, tur.tu.name, off, data)`
abbrev pub tu_buf : Data → TypeUnit → ℕ → Bytes → Buf
tu_buf d tu off content = make_buf d.order (unit_format tu.unit) tu.name off content

-- The reader that sigToType makes, and clone.
abbrev pub unit_reader_of : Data → TypeUnit → TypeUnitReader
unit_reader_of d tu = record { tu = tu; b = tu_buf d tu tu.unit.off tu.unit.content; err = none }

unfoldable pub unit_seek : Data → TypeUnitReader → ℕ → TypeUnitReader
unit_seek d r off =
    let doff = u32 (off + 2 ^ 32 - r.tu.unit.off) in
    let n = length r.tu.unit.content in
    if ltb doff (u32 n)
    then record r { err = none; b = tu_buf d r.tu off (drop doff r.tu.unit.content) }
    else record r { err = some (errorf "%s: offset %d out of range; max %d" (doff ∷ n ∷ [])) }

-- What Next makes of the entry that it has read.
abbrev pub unit_took : TypeUnitReader → Option Entry × Buf → Outcome × TypeUnitReader
unit_took r (e, b) = elim b.err [
  | some x ↦ (failed x, record r { b = b; err = some x })
  | none ↦ elim e [ none ↦ (at_end, record r { b = b }) | some x ↦ (read x, record r { b = b }) ]
]

unfoldable pub unit_next : Data → TypeUnitReader → Result (Outcome × TypeUnitReader)
unfolding entry
unit_next d r = elim r.err [
  | some e ↦ ok (failed e, r)
  | none ↦
      if length r.tu.unit.content == 0
      then ok (at_end, r)
      else entry d r.tu.unit.atable r.tu.unit.base r.b >>= λ x. ok (unit_took r x)
]

-- The interface typeReader.
pub data TypeReader : Type 0 where
  of_info : Reader → TypeReader
  of_unit : TypeUnitReader → TypeReader

unfoldable pub type_seek : Data → TypeReader → ℕ → TypeReader
unfolding unit_seek Reader.seek
type_seek d (of_info r) off = of_info (Reader.seek d r off)
type_seek d (of_unit r) off = of_unit (unit_seek d r off)

unfoldable pub type_next : Data → TypeReader → Result (Outcome × TypeReader)
unfolding unit_next Reader.next
type_next d (of_info r) = Reader.next d r >>= λ n. ok (n.0, of_info n.1)
type_next d (of_unit r) = unit_next d r >>= λ n. ok (n.0, of_unit n.1)

unfoldable pub type_clone : Data → TypeReader → TypeReader
unfolding Reader.reader
type_clone d (of_info r) = of_info (Reader.reader d)
type_clone d (of_unit r) = of_unit (unit_reader_of d r.tu)

abbrev pub type_offset : TypeReader → ℕ
type_offset (of_info r) = r.b.off
type_offset (of_unit r) = r.b.off

unfoldable pub type_address_size : Data → TypeReader → Result ℕ
unfolding Reader.address_size
type_address_size d (of_info r) = Reader.address_size d r
type_address_size d (of_unit r) = ok r.tu.unit.asize
