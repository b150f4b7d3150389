-- ===== src/Dwarf/Line/Search.antt =====
-- dwarf/line.go: PCToLine and the search that it makes over the rows of the line machine.
use debug.Common.{
  ltb, ◌==◌, if◌then◌else◌, length, get_elem?, Bytes, ℕ, Bool, true, false, not, ◌&&◌, none, some,
  [], ◌∷◌,
}
use debug.Common.Result.{errorf, Result, ok, err, ◌>>=◌}
use debug.Dwarf.Buf.{make_buf}
use debug.Dwarf.Data.{unit_format, Data}
use debug.Dwarf.Line.{LineHeader, LineMachine, parse_header}
use debug.Dwarf.Line.Machine.{eval_compilation_unit}

pub record PcSearchState : Type 0 where
  pub pc : ℕ
  pub last_pc : ℕ
  pub last_file : ℕ
  pub last_line : ℕ
  pub found : Bool
  pub new_sequence : Bool

abbrev pub start_search : ℕ → PcSearchState
start_search pc = record {
  pc = pc;
  last_pc = 0;
  last_file = 0;
  last_line = 0;
  found = false;
  new_sequence = true;
}

-- The Boolean says whether to go on.
unfoldable pub find_pc : LineMachine → PcSearchState → PcSearchState × Bool
find_pc m st =
    if not st.new_sequence && (ltb st.last_pc st.pc && ltb st.pc m.address)
    then (record st { found = true }, false)
    else if m.end_sequence
    then (record st { new_sequence = true }, true)
    else let st' = record st {
      new_sequence = false;
      last_pc = m.address;
      last_file = m.file;
      last_line = m.line;
    } in
      if m.address == st.pc then (record st' { found = true }, false) else (st', true)

-- The file and line that the search ends with.
unfoldable pub line_found : LineHeader → PcSearchState → Result (Bytes × ℕ)
line_found h st =
    if not st.found
    then err (errorf "no source line defined for PC %#x" (st.pc ∷ []))
    else elim (get_elem? h.files st.last_file) [
      | none ↦ err (errorf "invalid file number in DWARF data" [])
      | some f ↦ ok (f.name, st.last_line)
    ]

unfoldable pub pc_to_line : Data → ℕ → Result (Bytes × ℕ)
unfolding parse_header eval_compilation_unit find_pc line_found
pc_to_line d pc =
    if length d.line == 0 then err (errorf "PCToLine: no line table" []) else elim d.units [
      | [] ↦ err (errorf "no info section" [])
      | u ∷ us ↦ parse_header (make_buf d.order (unit_format u) "line" 0 d.line) >>= λ h.
          (eval_compilation_unit find_pc h.0 h.1 (start_search pc) >>= λ st. line_found h.0 st)
    ]
