-- ===== src/Gosym/Pclntab/Runs.antt =====
-- Runs of the line tables of gosym/pclntab.go.
use debug.Common.{
  ◌==◌, if◌then◌else◌, drop, order_uint?, ℕ, zero, suc, ◌+◌, ◌*◌, ◌≤◌, ◌<◌, ◌≡◌, refl, some, [],
  ◌∷◌, arith,
}
use debug.Common.Result.{ok}
use debug.Gosym.Pclntab.Funcs.{find_func}
use debug.Gosym.Pclntab.Lookup.{pc_to_line, line_to_pc}
use debug.Gosym.Pclntab.Old.{old_pc_to_line}
use debug.Gosym.Pclntab.Answers.{pc_to_line-line_to_pc_total}
use debug.Gosym.Pclntab.Init.{go12_init}
use debug.Gosym.Pclntab.Search.{IsFunctab, find_func-inside}
use debug.Gosym.Pclntab.{go12_yes, LineTable, new_line_table, slice_from, uintptr}

-- Two functions, from 0x10 to 0x20 and from there to 0x28, described at offsets 0 and 1.
abbrev two_funcs : LineTable
two_funcs = record (new_line_table (0xaa ∷ 0xbb ∷ []) 0x10) {
  go12 = go12_yes;
  quantum = 1;
  ptrsize = 4;
  nfunctab = 2;
  functab =
      0x10 ∷ 0 ∷ 0 ∷ 0 ∷ 0 ∷ 0 ∷ 0 ∷ 0 ∷ 0x20 ∷ 0 ∷ 0 ∷ 0 ∷ 1 ∷ 0 ∷ 0 ∷ 0 ∷ 0x28 ∷ 0 ∷ 0 ∷ 0 ∷ [];
}

abbrev starts : ℕ → ℕ
starts i = if i == 0 then 0x10 else if i == 1 then 0x20 else 0x28

abbrev offsets : ℕ → ℕ
offsets i = i

two_funcs-pcs :
    (i : ℕ)
    → i ≤ 2
    → uintptr two_funcs (drop (2 * two_funcs.ptrsize * i) two_funcs.functab) ≡ ok (starts i)
unfolding uintptr new_line_table order_uint?
two_funcs-pcs zero h = refl
two_funcs-pcs (suc zero) h = refl
two_funcs-pcs (suc (suc zero)) h = refl
two_funcs-pcs (suc (suc (suc i))) h = absurd (omega arith)

two_funcs-offs :
    (i : ℕ)
    → i < 2
    → uintptr two_funcs (drop (2 * two_funcs.ptrsize * i + two_funcs.ptrsize) two_funcs.functab)
      ≡ ok (offsets i)
unfolding uintptr new_line_table order_uint?
two_funcs-offs zero h = refl
two_funcs-offs (suc zero) h = refl
two_funcs-offs (suc (suc i)) h = absurd (omega arith)

two_funcs-IsFunctab : IsFunctab two_funcs 2 starts offsets
two_funcs-IsFunctab = record {
  count = refl;
  size = refl;
  small = omega arith;
  pcs = two_funcs-pcs;
  offs = two_funcs-offs;
  ascending = λ i j le top. ground arith;
}

find_func-inside_example : find_func two_funcs 0x27 ≡ ok (some (0xbb ∷ []))
unfolding slice_from new_line_table
find_func-inside_example =
    find_func-inside two_funcs 2 starts offsets two_funcs-IsFunctab 0x27 1 (omega arith)
      (omega arith) (omega arith)

-- Line 5 from the start, the PC three on, then line 3.
abbrev old_table : LineTable
old_table = new_line_table (5 ∷ 131 ∷ 66 ∷ []) 0x100

old_line : old_pc_to_line old_table 0x102 ≡ ok 5
unfolding old_pc_to_line new_line_table
old_line = refl

pc_to_line-line_to_pc_total_example :
    ((l : ℕ) × (pc_to_line old_table 0x102 ≡ ok (l, go12_init old_table)))
    × ((p : ℕ) × (line_to_pc old_table 5 0x110 ≡ ok (p, go12_init old_table)))
pc_to_line-line_to_pc_total_example = pc_to_line-line_to_pc_total old_table 0x102 5 0x110
