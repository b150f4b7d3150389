-- ===== src/Gosym/Pclntab/Answers.antt =====
-- gosym/pclntab.go: the methods PCToLine and LineToPC on tables of either format.
use debug.Common.{
  ◌==◌, if◌then◌else◌, Bool-cases, u64, ℕ, ◌+◌, ◌-◌, ◌^◌, ◌≡◌, refl, ap, inl, inr, Bool, true,
  false, not,
}
use debug.Common.Result.{Result, ok, ◌>>=◌}
use debug.Gosym.Pclntab.Old.{no_line, old_pc_to_line, old_line_to_pc}
use debug.Gosym.Pclntab.Init.{go12_init, is_go12}
use debug.Gosym.Pclntab.Lookup.{go12_pc_to_line, pc_to_line, line_to_pc}
use debug.Gosym.Pclntab.Recover.{go12_pc_to_val_total}
use debug.Gosym.Pclntab.Stops.{parse-Stopped}
use debug.Gosym.Pclntab.{LineTable}

old_pc_to_line-ok : (t : LineTable) (pc : ℕ) → (line : ℕ) × (old_pc_to_line t pc ≡ ok line)
unfolding old_pc_to_line
old_pc_to_line-ok t pc = let (p, e, stopped) = parse-Stopped t pc no_line in (p.line, rw e refl)

old_line_to_pc-ok :
    (t : LineTable) (line maxpc : ℕ) → (pc : ℕ) × (old_line_to_pc t line maxpc ≡ ok pc)
unfolding old_line_to_pc
old_line_to_pc-ok t line maxpc =
    let (p, e, stopped) = parse-Stopped t maxpc line in
    elim (Bool-cases (not (p.line == line))) [
      | inl other ↦ (0, rw (e, other) refl)
      | inr same ↦ (u64 (p.pc + 2 ^ 64 - 1), rw (e, same) refl)
    ]

go12_pc_to_line-ok : (t : LineTable) (pc : ℕ) → (line : ℕ) × (go12_pc_to_line t pc ≡ ok line)
unfolding go12_pc_to_line
go12_pc_to_line-ok t pc = go12_pc_to_val_total t pc (t.ptrsize + 20)

abbrev with_table : LineTable → Result ℕ → Result (ℕ × LineTable)
with_table t r = r >>= λ v. ok (v, t)

-- Either of two calls that answer, and the table beside its value.
either_ok :
    (test : Bool) (x y : Result ℕ) (t : LineTable)
    → ((a : ℕ) × (x ≡ ok a))
    → ((a : ℕ) × (y ≡ ok a))
    → (a : ℕ) × (with_table t (if test then x else y) ≡ ok (a, t))
either_ok true x y t (a, e) h = (a, ap (with_table t) e)
either_ok false x y t h (a, e) = (a, ap (with_table t) e)

pc_to_line-ok : (t : LineTable) (pc : ℕ) → (l : ℕ) × (pc_to_line t pc ≡ ok (l, go12_init t))
unfolding pc_to_line
pc_to_line-ok t pc =
    either_ok (is_go12 t) (go12_pc_to_line (go12_init t) pc) (old_pc_to_line (go12_init t) pc)
      (go12_init t) (go12_pc_to_line-ok (go12_init t) pc) (old_pc_to_line-ok (go12_init t) pc)

line_to_pc-ok :
    (t : LineTable) (line maxpc : ℕ) → (p : ℕ) × (line_to_pc t line maxpc ≡ ok (p, go12_init t))
unfolding line_to_pc
line_to_pc-ok t line maxpc =
    either_ok (is_go12 t) (ok 0) (old_line_to_pc (go12_init t) line maxpc) (go12_init t) (0, refl)
      (old_line_to_pc-ok (go12_init t) line maxpc)

-- On every table, in either format, PCToLine gives a line and LineToPC a PC, and both leave the
-- table as go12Init does: no loop of theirs runs on, and no panic comes out.
pub pc_to_line-line_to_pc_total :
    (t : LineTable) (pc line maxpc : ℕ)
    → ((l : ℕ) × (pc_to_line t pc ≡ ok (l, go12_init t)))
      × ((p : ℕ) × (line_to_pc t line maxpc ≡ ok (p, go12_init t)))
pc_to_line-line_to_pc_total t pc line maxpc = (pc_to_line-ok t pc, line_to_pc-ok t line maxpc)
