-- ===== src/Gosym/Pclntab/Old.antt =====
-- gosym/pclntab.go: line tables of Go 1.1 and earlier. `oldQuantum` is 1.
use debug.Common.{
  ltb, leb, ◌==◌, if◌then◌else◌, length, drop, u64, Bytes, big_endian, order_uint?, ℕ, zero, suc,
  ◌+◌, ◌-◌, ◌^◌, not, ◌&&◌, none, some, [], ◌∷◌,
}
use debug.Common.Result.{Result, ok, stuck, ◌>>=◌}
use debug.Gosym.Pclntab.{LineTable, new_line_table}

-- `b`, `pc` and `line` of parse.
pub record Parsed : Type 0 where
  pub b : Bytes
  pub pc : ℕ
  pub line : ℕ

-- One round of the loop: an update of the line, which also moves the PC on, or one of the PC. A
-- line update that is cut off ends the data, and still moves the PC.
unfoldable pub parse_step : ℕ → Bytes → ℕ → ℕ → Parsed
parse_step code b pc line =
    if code == 0
    then elim (order_uint? big_endian 4 b) [
      | none ↦ record { b = []; pc = u64 (pc + 1); line = line }
      | some val ↦ record { b = drop 4 b; pc = u64 (pc + 1); line = u64 (line + val) }
    ]
    else if leb code 64
    then record { b = b; pc = u64 (pc + 1); line = u64 (line + code) }
    else if leb code 128
    then record { b = b; pc = u64 (pc + 1); line = u64 (line + 2 ^ 64 - (code - 64)) }
    else record { b = b; pc = u64 (pc + (code - 128)); line = line }

abbrev pub parse_read : Bytes → ℕ → ℕ → Parsed
parse_read [] pc line = record { b = []; pc = pc; line = line }
parse_read (code ∷ b) pc line = parse_step code b pc line

-- The loop, with fuel: a round takes a byte at least.
unfoldable pub parse_loop : ℕ → ℕ → ℕ → Bytes → ℕ → ℕ → Result Parsed
unfolding parse_step
parse_loop zero target_pc target_line b pc line = stuck
parse_loop (suc fuel) target_pc target_line b pc line =
    let s = parse_read b pc line in
    let rest = parse_loop fuel target_pc target_line s.b s.pc s.line in
    if leb pc target_pc && (not (line == target_line) && ltb 0 (length b))
    then rest
    else ok (record { b = b; pc = pc; line = line })

unfoldable pub parse : LineTable → ℕ → ℕ → Result Parsed
unfolding parse_loop
parse t target_pc target_line =
    parse_loop (suc (length t.content)) target_pc target_line t.content t.pc t.line

-- The line -1, which no table has.
abbrev pub no_line : ℕ
no_line = 2 ^ 64 - 1

unfoldable pub slice : LineTable → ℕ → Result LineTable
unfolding parse new_line_table
slice t pc = parse t pc no_line >>= λ p. ok (record (new_line_table p.b p.pc) { line = p.line })

-- PCToLine on a table in the old format.
unfoldable pub old_pc_to_line : LineTable → ℕ → Result ℕ
unfolding parse
old_pc_to_line t pc = parse t pc no_line >>= λ p. ok p.line

-- LineToPC on a table in the old format.
unfoldable pub old_line_to_pc : LineTable → ℕ → ℕ → Result ℕ
unfolding parse
old_line_to_pc t line maxpc = parse t maxpc line >>= λ p.
    (if not (p.line == line) then ok 0 else ok (u64 (p.pc + 2 ^ 64 - 1)))
