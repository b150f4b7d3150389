-- ===== src/Dwarf/Frame/Runs.antt =====
-- Runs of the frame machine of dwarf/frame.go.
use debug.Common.{Bytes, little_endian, ℕ, ◌-◌, ◌^◌, ◌≡◌, ◌⊎◌, false, List, [], ◌∷◌, arith}
use debug.Dwarf.Buf.{unknown_format, Buf, make_buf}
use debug.Dwarf.Data.{Data}
use debug.Dwarf.Frame.Offsets.{Offsets, run-cfa_at}
use debug.Dwarf.Frame.Table.{
  Instr, advance_loc, set_cfa, Encodes, done, advance_op, def_cfa_op, def_cfa_offset_sf_op,
}
use debug.Dwarf.Frame.Ends.{pc_to_sp_offset_total}
use debug.Common.Result.{Error, Result}
use debug.Dwarf.Frame.{FrameMachine, zero_machine, run, pc_to_sp_offset}

-- DW_CFA_def_cfa r7 ofs 8; DW_CFA_advance_loc 4; DW_CFA_def_cfa_offset_sf -2 (with factor -8)
abbrev instrs : List Instr
instrs = set_cfa 8 ∷ advance_loc 4 ∷ set_cfa 16 ∷ []

abbrev program : Bytes
program = 0x0c ∷ 7 ∷ 8 ∷ 0x44 ∷ 0x13 ∷ 0x7e ∷ []

abbrev machine : FrameMachine
machine = record zero_machine { location = 0x1000; data_alignment_factor = 2 ^ 64 - 8 }

abbrev program_buf : Buf
program_buf = make_buf little_endian unknown_format "frame" 0 program

program-Encodes : Encodes little_endian (2 ^ 64 - 8) instrs program
program-Encodes =
    def_cfa_op (7 ∷ []) (8 ∷ []) (omega arith) (omega arith)
      (advance_op 4 (omega arith) (def_cfa_offset_sf_op (0x7e ∷ []) (omega arith) done))

before_advance : Offsets (run machine program_buf 0x1003) 8
before_advance =
    run-cfa_at machine program_buf 0x1003 instrs program-Encodes (omega arith) (omega arith)

abbrev empty_data : Data
empty_data = record {
  abbrevs = [];
  frame = 1 ∷ 0 ∷ 0 ∷ 0 ∷ 0xff ∷ [];
  info = [];
  line = [];
  str = [];
  order = little_endian;
  units =
      record { base = 0; off = 0; content = []; atable = []; asize = 8; vers = 4; is64 = false }
      ∷ [];
}

pc_to_sp_offset_total_example :
    ((offset : ℕ) × (pc_to_sp_offset empty_data 0x1000 ≡ Result.ok offset))
    ⊎ ((e : Error) × (pc_to_sp_offset empty_data 0x1000 ≡ Result.err e))
pc_to_sp_offset_total_example = pc_to_sp_offset_total empty_data 0x1000
