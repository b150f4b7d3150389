-- ===== src/Gosym/Symtab/Runs.antt =====
-- Runs of the symbol tables of gosym/symtab.go.
use debug.Common.{Bytes, ℕ, ◌+◌, ◌≡◌, refl, none, some, List, [], ◌∷◌, ◌++◌, arith}
use debug.Common.Result.{ok, Answers, Any}
use debug.Common.Slices.{tail_from, head_to, element}
use debug.Gosym.Symtab.Search.{AreOrdered, IsFound, pc_to_func-IsFound}
use debug.Gosym.Symtab.Table.{Sym, Func, pc_to_func}
use debug.Gosym.Symtab.Printed.{Entry}
use debug.Gosym.Symtab.Total.{walksymtab_total}
use debug.Gosym.Symtab.{walksymtab}

abbrev sym_of : ℕ → ℕ → Sym
sym_of typ value = record { value = value; typ = typ; name = b'f' ∷ []; go_type = 0 }

abbrev func_of : ℕ → ℕ → Func
func_of low high = record {
  entry = low;
  sym = sym_of b'T' low;
  end = high;
  params = [];
  locals = [];
  frame_size = 0;
  line_table = none;
  obj = none;
}

abbrev three : List Func
three = func_of 10 20 ∷ func_of 20 25 ∷ func_of 30 40 ∷ []

three-AreOrdered : AreOrdered three
three-AreOrdered = omega arith

pc_to_func-IsFound_example : IsFound 22 three (pc_to_func three 22)
pc_to_func-IsFound_example = pc_to_func-IsFound 22 three three-AreOrdered

in_the_gap : pc_to_func three 27 ≡ ok none
unfolding pc_to_func
in_the_gap = refl

-- A little-endian table with 4-byte pointers: a text symbol "f" at 5, of a varint.
abbrev one_symbol : Bytes
one_symbol = 0xFD ∷ 0xFF ∷ 0xFF ∷ 0xFF ∷ 0 ∷ 0 ∷ 0 ∷ 4 ∷ 19 ∷ 5 ∷ b'f' ∷ 0 ∷ []

one_walked :
    walksymtab one_symbol (λ s ss. ss ++ s ∷ []) []
    ≡ ok (record { value = 5; gotype = 0; typ = b'T'; name = b'f' ∷ [] } ∷ [])
unfolding walksymtab tail_from head_to element
one_walked = refl

walksymtab_total_example : Answers Any (walksymtab one_symbol (λ s (n : ℕ). n + 1) 0)
walksymtab_total_example = walksymtab_total one_symbol (λ s (n : ℕ). n + 1) 0

-- Two text symbols: "f" at 5 with the Go type 7, and "g" at 6 without one.
abbrev two_entries : List Entry
two_entries =
    record { value = 5; gotype = some 7; typ = b'T'; name = b'f' ∷ [] }
    ∷ record { value = 6; gotype = none; typ = b'T'; name = b'g' ∷ [] }
    ∷ []

abbrev two_printed : Bytes
two_printed = 211 ∷ 5 ∷ 0 ∷ 0 ∷ 0 ∷ 7 ∷ 0 ∷ 0 ∷ 0 ∷ b'f' ∷ 0 ∷ 83 ∷ 6 ∷ 0 ∷ 0 ∷ 0 ∷ b'g' ∷ 0 ∷ []
