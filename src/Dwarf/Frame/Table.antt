-- ===== src/Dwarf/Frame/Table.antt =====
-- The table of CFA offsets that frame instructions describe, and the bytes that encode them.
use debug.Common.{
  leb, if◌then◌else◌, length, u64, Bytes, ByteOrder, order_value, ℕ, ◌+◌, ◌*◌, ◌<◌, ◌≡◌, List, [],
  ◌∷◌, ◌++◌,
}
use debug.Dwarf.Buf.Leb.{leb_value, IsLeb}
use debug.Dwarf.Buf.Sleb.{signed_word}

-- The instructions that describe the CFA column: the new offset is a 64-bit pattern.
pub data Instr : Type 0 where
  nop : Instr
  advance_loc : ℕ → Instr
  set_cfa : ℕ → Instr

-- The offset in force at `pc`: the last one set at a location that is not past it. `loc` and `cfa`
-- are in force in front of the instructions, and locations do not wrap.
abbrev pub cfa_at : ℕ → ℕ → List Instr → ℕ → ℕ
cfa_at loc cfa [] pc = cfa
cfa_at loc cfa (nop ∷ is) pc = cfa_at loc cfa is pc
cfa_at loc cfa (advance_loc d ∷ is) pc =
    let rest = cfa_at (loc + d) cfa is pc in if leb (loc + d) pc then rest else cfa
cfa_at loc cfa (set_cfa o ∷ is) pc = cfa_at loc o is pc

abbrev pub advanced : List Instr → ℕ
advanced [] = 0
advanced (nop ∷ is) = advanced is
advanced (advance_loc d ∷ is) = d + advanced is
advanced (set_cfa o ∷ is) = advanced is

-- The bytes of instructions, as DWARF lays them out, in byte order `o` and with the data alignment
-- factor `daf`.
pub data Encodes (o : ByteOrder) (daf : ℕ) : List Instr → Bytes → Type 0 where
  done : Encodes o daf [] []
  nop_op : {is : List Instr} {bs : Bytes} → Encodes o daf is bs → Encodes o daf (nop ∷ is) (0 ∷ bs)
  advance_op :
      {is : List Instr} {bs : Bytes} (d : ℕ)
      → d < 64
      → Encodes o daf is bs
      → Encodes o daf (advance_loc d ∷ is) ((64 + d) ∷ bs)
  advance1_op :
      {is : List Instr} {bs : Bytes} (d : ℕ)
      → Encodes o daf is bs
      → Encodes o daf (advance_loc d ∷ is) (2 ∷ d ∷ bs)
  advance2_op :
      {is : List Instr} {bs : Bytes} (ds : Bytes)
      → length ds ≡ 2
      → Encodes o daf is bs
      → Encodes o daf (advance_loc (order_value o ds) ∷ is) (3 ∷ (ds ++ bs))
  advance4_op :
      {is : List Instr} {bs : Bytes} (ds : Bytes)
      → length ds ≡ 4
      → Encodes o daf is bs
      → Encodes o daf (advance_loc (order_value o ds) ∷ is) (4 ∷ (ds ++ bs))
  def_cfa_op :
      {is : List Instr} {bs : Bytes} (reg off : Bytes)
      → IsLeb reg
      → IsLeb off
      → Encodes o daf is bs
      → Encodes o daf (set_cfa (u64 (leb_value off)) ∷ is) (0x0c ∷ (reg ++ (off ++ bs)))
  def_cfa_offset_sf_op :
      {is : List Instr} {bs : Bytes} (off : Bytes)
      → IsLeb off
      → Encodes o daf is bs
      → Encodes o daf
          (set_cfa (u64 (signed_word (7 * length off) (leb_value off) * daf)) ∷ is)
          (0x13 ∷ (off ++ bs))
