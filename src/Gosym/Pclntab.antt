-- ===== src/Gosym/Pclntab.antt =====
-- gosym/pclntab.go: the struct LineTable, and how its bytes are read. A slice's capacity is taken
-- to be its length. The mutex is not modelled: a call runs by itself.
pub mod Old
pub mod Stops
pub mod Init
pub mod Funcs
pub mod Search
pub mod Values
pub mod Lookup
pub mod Recover
pub mod Files
pub mod Answers
mod Runs
use debug.Common.{
  ltb, ◌==◌, if◌then◌else◌, length, drop, Bytes, ByteOrder, little_endian, order_uint?, ℕ, Option,
  none, some, List, [],
}
use debug.Common.Result.{Result, ok, err, panic, stuck}

-- The values 0, -1 and 1 of the field go12.
pub data Go12 : Type 0 where
  go12_unknown go12_no go12_yes : Go12

-- The first field is the source's `Data`; a Go int is its bit pattern.
pub record LineTable : Type 0 where
  pub content : Bytes
  pub pc : ℕ
  pub line : ℕ
  pub go12 : Go12
  pub binary : ByteOrder
  pub quantum : ℕ
  pub ptrsize : ℕ
  pub functab : Bytes
  pub nfunctab : ℕ
  pub filetab : Bytes
  pub nfiletab : ℕ
  pub file_map : Option (List (Bytes × ℕ))

-- The table that NewLineTable gives back.
unfoldable pub new_line_table : Bytes → ℕ → LineTable
new_line_table content text = record {
  content = content;
  pc = text;
  line = 0;
  go12 = go12_unknown;
  binary = little_endian;
  quantum = 0;
  ptrsize = 0;
  functab = [];
  nfunctab = 0;
  filetab = [];
  nfiletab = 0;
  file_map = none;
}

-- A read that panics where the slice is too short.
abbrev pub present {ℓ} : {A : Type ℓ} → Option A → Result A
present none = panic
present (some a) = ok a

-- `b[n:]`
unfoldable pub slice_from : ℕ → Bytes → Result Bytes
slice_from n b = if ltb (length b) n then panic else ok (drop n b)

abbrev pub order_uint32 : ByteOrder → Bytes → Result ℕ
order_uint32 o b = present (order_uint? o 4 b)

-- The pointer-sized value at the start of a slice.
unfoldable pub uintptr : LineTable → Bytes → Result ℕ
uintptr t b = if t.ptrsize == 4 then order_uint32 t.binary b else present (order_uint? t.binary 8 b)

-- What a deferred `recover()` makes of a panic.
abbrev pub recovered {ℓ} : {A : Type ℓ} → A → Result A → Result A
recovered a (ok b) = ok b
recovered a (err e) = err e
recovered a panic = ok a
recovered a stuck = stuck
