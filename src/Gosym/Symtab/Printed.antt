-- ===== src/Gosym/Symtab/Printed.antt =====
-- gosym/symtab.go: walksymtab on a table in the new format that holds given symbols.
use debug.Common.{
  ◌==◌, length, All, Bytes, ByteOrder, little_endian, big_endian, order_value, ℕ, ◌<◌, bit_and, ◌≡◌,
  ◌≢◌, true, false, Option, none, some, List, [], ◌∷◌, ◌++◌,
}
use debug.Gosym.Symtab.{RawSym, little_endian_symtab, big_endian_symtab, is_path, letter, Format}

-- A symbol as a table has it: it need not have a Go type.
pub record Entry : Type 0 where
  pub value : ℕ
  pub gotype : Option ℕ
  pub typ : ℕ
  pub name : Bytes

-- The bytes of a Go type behind the value of a symbol with this first byte, which says whether there
-- is one.
abbrev pub PrintsType : Format → ℕ → Bytes → Option ℕ → Type 0
PrintsType f first gotypes none = ((bit_and first 0x80 == 0) ≡ true) × (gotypes ≡ [])
PrintsType f first gotypes (some gotype) =
    ((bit_and first 0x80 == 0) ≡ false)
    × ((length gotypes ≡ f.ptrsz) × (gotype ≡ order_value f.order gotypes))

-- The bytes `q` hold these symbols, in a format with pointers of `f.ptrsz` bytes: each a first byte,
-- which names its type and says whether there is a Go type, a value of a pointer's width, the Go
-- type, and a name that ends in a NUL. Less than four bytes are left behind the last one.
pub data Prints (f : Format) : List Entry → Bytes → Type 0 where
  at_end : {q : Bytes} → length q < 4 → Prints f [] q
  more :
      {e : Entry} {es : List Entry} {q : Bytes} (first : ℕ) (values gotypes p : Bytes)
      → q ≡ first ∷ (values ++ (gotypes ++ (e.name ++ 0 ∷ p)))
      → (bit_and first 0x40 == 0) ≡ false
      → length values ≡ f.ptrsz
      → e.value ≡ order_value f.order values
      → e.typ ≡ letter first
      → is_path (letter first) ≡ false
      → PrintsType f first gotypes e.gotype
      → All (λ c. c ≢ 0) e.name
      → Prints f es p
      → Prints f (e ∷ es) q

-- The Go type that walksymtab gives to a symbol: its own, or `before` where it has none.
abbrev pub given : ℕ → Option ℕ → ℕ
given before none = before
given before (some gotype) = gotype

-- The symbols that walksymtab makes of a table's: where one has no Go type, that of the symbol in
-- front of it stays, `before` at the first one.
abbrev pub carried : ℕ → List Entry → List RawSym
carried before [] = []
carried before (e ∷ es) =
    record { value = e.value; gotype = given before e.gotype; typ = e.typ; name = e.name }
    ∷ carried (given before e.gotype) es

-- The callback on each symbol in turn.
abbrev pub feed : {S : Type 0} → (RawSym → S → S) → List RawSym → S → S
feed fn [] st = st
feed fn (s ∷ ss) st = feed fn ss (fn s st)

-- How a table in the new format begins.
abbrev pub magic : ByteOrder → Bytes
magic little_endian = little_endian_symtab
magic big_endian = big_endian_symtab

abbrev pub new_format : ByteOrder → ℕ → Format
new_format order ptrsz = record { new_table = true; order = order; ptrsz = ptrsz }
