-- ===== src/Dwarf/Symbol/Runs.antt =====
-- Runs of the lookups of dwarf/symbol.go.
use debug.Common.{
  All, little_endian, ℕ, ◌+◌, ◌≡◌, refl, ◌⊎◌, inr, false, none, List, [], ◌∷◌, ◌++◌, arith,
}
use debug.Common.Result.{errorf, ok, err, stuck}
use debug.Dwarf.Data.{CompUnit, Data}
use debug.Dwarf.Buf.{unknown_format, make_buf, uint, addr}
use debug.Dwarf.Line.Paths.{bytes_eq}
use debug.Dwarf.Entry.{uint64_value, string_value, Entry, zero_entry, entry_val}
use debug.Dwarf.Reader.{Reader, zero_reader, reader, next}
use debug.Dwarf.Symbol.Finds.{Entries, done, more}
use debug.Dwarf.Symbol.Hangs.{IsUnended, find_loop-unended}
use debug.Dwarf.Symbol.Names.{IsNamed, lookup_entry_tag-finds}
use debug.Dwarf.Symbol.Pcs.{Covers, entry_for_pc-finds}
use debug.Dwarf.Symbol.{
  find_loop, lookup_entry_tag, lookup_function, visit_pc, entry_for_pc, lookup_pc,
}

-- A unit at offset 0 whose entries are behind a header of 11 bytes. Entries with abbreviation 1 are
-- functions with a name, a low and a high PC, in one byte each.
abbrev unit_of : List ℕ → CompUnit
unit_of content = record {
  base = 0;
  off = 11;
  content = content;
  atable =
      (
        1,
        record {
          tag = 0x2E;
          children = false;
          field =
              record { attr = 3; fmt = 8 }
              ∷ record { attr = 0x11; fmt = 1 }
              ∷ record { attr = 0x12; fmt = 1 }
              ∷ [];
        },
      )
      ∷ [];
  asize = 1;
  vers = 2;
  is64 = false;
}

abbrev data_of : List ℕ → Data
data_of content = record {
  abbrevs = [];
  frame = [];
  info = [];
  line = [];
  str = [];
  order = little_endian;
  units = unit_of content ∷ [];
}

-- A function "f" at 0x10 to 0x1f, and "g" at 0x20 to 0x2f.
abbrev two_functions : Data
two_functions = data_of (1 ∷ 102 ∷ 0 ∷ 0x10 ∷ 0x20 ∷ 1 ∷ 103 ∷ 0 ∷ 0x20 ∷ 0x30 ∷ [])

abbrev function_at : ℕ → ℕ → ℕ → Entry
function_at off name low = record {
  offset = off;
  tag = 0x2E;
  children = false;
  fields =
      record { attr = 3; val = string_value (name ∷ []) }
      ∷ record { attr = 0x11; val = uint64_value low }
      ∷ record { attr = 0x12; val = uint64_value (low + 0x10) }
      ∷ [];
}

abbrev both : List Entry
both = function_at 11 102 0x10 ∷ function_at 16 103 0x20 ∷ []

two_functions-Entries : Entries two_functions (reader two_functions) both
unfolding reader next addr uint
two_functions-Entries = more refl (more refl (done refl))

entry_for_pc-finds_example :
    ((e : Entry) × (low : ℕ) × (before : List Entry) × (behind : List Entry) × (entry_for_pc 3
          two_functions 0x25
        ≡ ok (e, low))
      × (both ≡ before ++ e ∷ behind)
      × Covers 0x25 e low
      × All (λ x. (l : ℕ) → ¬ Covers 0x25 x l) before)
    ⊎ ((entry_for_pc 3 two_functions 0x25 ≡ err (errorf "PC %#x not found" (0x25 ∷ [])))
        × All (λ x. (l : ℕ) → ¬ Covers 0x25 x l) both)
entry_for_pc-finds_example =
    entry_for_pc-finds two_functions 0x25 3 both two_functions-Entries (omega arith)

lookup_entry_tag-finds_example :
    ((e : Entry) × (before : List Entry) × (behind : List Entry) × (lookup_entry_tag 3 two_functions
          (103 ∷ [])
          0x2E
        ≡ ok e)
      × (both ≡ before ++ e ∷ behind)
      × IsNamed (103 ∷ []) 0x2E e
      × All (λ x. ¬ IsNamed (103 ∷ []) 0x2E x) before)
    ⊎ ((lookup_entry_tag 3 two_functions (103 ∷ []) 0x2E
          ≡ err (errorf "DWARF entry for %q not found" (103 ∷ [])))
        × All (λ x. ¬ IsNamed (103 ∷ []) 0x2E x) both)
unfolding entry_val
lookup_entry_tag-finds_example =
    lookup_entry_tag-finds two_functions (103 ∷ []) 0x2E 3 both two_functions-Entries
      (inr (102 ∷ [], refl), (inr (103 ∷ [], refl), tt)) (omega arith)

name_of_pc : lookup_pc 3 two_functions 0x25 ≡ ok (103 ∷ [])
unfolding lookup_pc addr uint entry_val
name_of_pc = refl

low_of_name : lookup_function 3 two_functions (103 ∷ []) ≡ ok 0x20
unfolding lookup_function addr uint entry_val bytes_eq
low_of_name = refl

-- A Reader at the last byte of a unit, whose top bit is set.
abbrev unended : Data
unended = data_of (0x80 ∷ [])

abbrev at_unended : Reader
at_unended = record zero_reader { b = make_buf little_endian unknown_format "info" 11 (0x80 ∷ []) }

at_unended-IsUnended : IsUnended unended at_unended
at_unended-IsUnended = record {
  no_err = refl;
  no_buf_err = refl;
  some_left = omega arith;
  unended = ((omega arith, omega arith), tt);
  in_unit = (unit_of (0x80 ∷ []), refl);
}

visit_pc-blank : visit_pc 5 zero_entry ≡ ok none
unfolding visit_pc
visit_pc-blank = refl

find_loop-unended_example : find_loop (visit_pc 5) 1000 unended at_unended ≡ stuck
find_loop-unended_example =
    find_loop-unended (visit_pc 5) unended 1000 at_unended visit_pc-blank at_unended-IsUnended
