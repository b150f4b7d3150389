-- ===== src/Dwarf/Line/Runs.antt =====
-- Runs of the line machine of dwarf/line.go.
use debug.Common.{
  All, Bytes, little_endian, ◌-◌, ◌^◌, ◌≡◌, refl, ◌≢◌, ◌⊎◌, true, List, [], ◌∷◌, arith,
}
use debug.Common.Result.{Error, ok, err, stuck}
use debug.Dwarf.Buf.{unknown_format, Buf, make_buf}
use debug.Dwarf.Data.{Data}
use debug.Dwarf.Line.Machine.{eval_compilation_unit}
use debug.Dwarf.Line.Search.{PcSearchState, start_search, find_pc, pc_to_line}
use debug.Dwarf.Line.Total.{eval_compilation_unit_total, pc_to_line-ne-stuck}
use debug.Dwarf.Line.Paths.{split, matching_path_component_suffix_size, best_loop, no_file}
use debug.Dwarf.Line.Paths.Best.{BehindBest, Measures, best_loop-best}
use debug.Dwarf.Line.Paths.Suffix.{IsLargest, matching_path_component_suffix_size-IsLargest}
use debug.Dwarf.Line.{LineFile, LineHeader}

-- The header of a small table with one file, and a line base of -1.
abbrev small_header : LineHeader
small_header = record {
  unit_length = 0;
  version = 3;
  header_length = 0;
  min_instruction_length = 1;
  max_ops_per_instruction = 1;
  default_is_stmt = true;
  line_base = 2 ^ 64 - 1;
  line_range = 4;
  opcode_base = 10;
  std_opcode_lengths = [];
  includes = [] ∷ [];
  files = record { name = []; index = 0; time = 0; size = 0 } ∷ [];
}

-- DW_LNE_set_address 0x1000, a special opcode, DW_LNE_end_sequence.
abbrev line_program : Buf
line_program =
    make_buf little_endian (record unknown_format { addrsize = 4 }) "line" 0
      (0 ∷ 5 ∷ 2 ∷ 0 ∷ 0x10 ∷ 0 ∷ 0 ∷ 0x14 ∷ 0 ∷ 1 ∷ 1 ∷ [])

eval_compilation_unit_total_example :
    ((s' : PcSearchState) × (eval_compilation_unit find_pc small_header line_program
          (start_search 0x1002)
        ≡ ok s'))
    ⊎ ((e : Error) × (eval_compilation_unit find_pc small_header line_program (start_search 0x1002)
          ≡ err e))
eval_compilation_unit_total_example =
    eval_compilation_unit_total find_pc small_header line_program (start_search 0x1002)
      (λ e. absurd (omega arith)) (λ e. absurd (omega arith)) (omega arith)

abbrev no_units : Data
no_units = record {
  abbrevs = [];
  frame = [];
  info = [];
  line = 9 ∷ 9 ∷ [];
  str = [];
  order = little_endian;
  units = [];
}

pc_to_line-ne-stuck_example : pc_to_line no_units 0x1000 ≢ stuck
pc_to_line-ne-stuck_example = pc_to_line-ne-stuck no_units 0x1000

-- "a/b/c" and "x/b/c"
abbrev path1 : Bytes
path1 = b'a' ∷ b'/' ∷ b'b' ∷ b'/' ∷ b'c' ∷ []

abbrev path2 : Bytes
path2 = b'x' ∷ b'/' ∷ b'b' ∷ b'/' ∷ b'c' ∷ []

matching_path_component_suffix_size-IsLargest_example :
    IsLargest
      (split b'/' path1)
      (split b'/' path2)
      (matching_path_component_suffix_size path1 path2)
matching_path_component_suffix_size-IsLargest_example =
    matching_path_component_suffix_size-IsLargest path1 path2

two_components : matching_path_component_suffix_size path1 path2 ≡ 2
unfolding matching_path_component_suffix_size
two_components = refl

abbrev two_files : List LineFile
two_files =
    record { name = path1; index = 0; time = 0; size = 0 }
    ∷ record { name = path2; index = 0; time = 0; size = 0 }
    ∷ []

best_loop-best_example :
    All (BehindBest path2 path2 (best_loop path2 path2 0 no_file two_files)) two_files
    × ((best_loop path2 path2 0 no_file two_files ≡ no_file)
        ⊎ Measures path2 path2 0 two_files (best_loop path2 path2 0 no_file two_files))
best_loop-best_example = best_loop-best path2 path2 two_files

second_file :
    best_loop path2 path2 0 no_file two_files
    ≡ record { file_num = 1; components = 3; size = 5; under_comp = true }
unfolding best_loop
second_file = refl
