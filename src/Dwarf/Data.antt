-- ===== src/Dwarf/Data.antt =====
-- The parsed DWARF data: the struct Data of dwarf/open.go, the units of dwarf/unit.go and the
-- abbreviation tables of dwarf/entry.go. Its type caches stand in Types.Store.
use debug.Common.{Bytes, ByteOrder, ℕ, Bool, true, List}
use debug.Dwarf.Buf.{DataFormat}

pub record Afield : Type 0 where
  pub attr : ℕ
  pub fmt : ℕ

pub record Abbrev : Type 0 where
  pub tag : ℕ
  pub children : Bool
  pub field : List Afield

-- A map from ids to descriptions, the newest entry first.
abbrev pub AbbrevTable : Type 0
AbbrevTable = List (ℕ × Abbrev)

-- The first field is the source's `base`; `content` is its `data`.
pub record CompUnit : Type 0 where
  pub base : ℕ
  pub off : ℕ
  pub content : Bytes
  pub atable : AbbrevTable
  pub asize : ℕ
  pub vers : ℕ
  pub is64 : Bool

-- The methods version, dwarf64 and addrsize of a unit.
abbrev pub unit_format : CompUnit → DataFormat
unit_format u = record {
  version = u.vers;
  dwarf64 = u.is64;
  dwarf64_known = true;
  addrsize = u.asize;
}

pub record Data : Type 0 where
  pub abbrevs : Bytes
  pub frame : Bytes
  pub info : Bytes
  pub line : Bytes
  pub str : Bytes
  pub order : ByteOrder
  pub units : List CompUnit
