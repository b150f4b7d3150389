-- ===== src/Dwarf/Line/Paths.antt =====
-- dwarf/line.go: LineToPCs, and the file names that it compares.
pub mod Best
pub mod Suffix
use debug.Common.{
  ltb, ◌==◌, if◌then◌else◌, length, get_or, Bytes, ℕ, zero, suc, ◌+◌, ◌-◌, Bool, true, false, not,
  ◌&&◌, List, [], ◌∷◌, ◌++◌,
}
use debug.Common.Result.{errorf, Result, ok, err, stuck, ◌>>=◌}
use debug.Dwarf.Entry.{Value, string_value, entry_val}
use debug.Dwarf.Reader.{Reader, reader, failed, at_end, read, next}
use debug.Dwarf.Data.{unit_format, Data}
use debug.Dwarf.Buf.{make_buf}
use debug.Dwarf.Line.Machine.{eval_compilation_unit}
use debug.Dwarf.Line.{LineFile, LineMachine, parse_header}

unfoldable pub bytes_eq : Bytes → Bytes → Bool
bytes_eq [] [] = true
bytes_eq (x ∷ xs) (y ∷ ys) = x == y && bytes_eq xs ys
bytes_eq _ _ = false

-- Go's strings.Split at one byte: the pieces between the separators.
unfoldable pub split : ℕ → Bytes → List Bytes
split sep [] = [] ∷ []
split sep (c ∷ cs) = elim (split sep cs) [
  | [] ↦ []
  | p ∷ ps ↦ if c == sep then [] ∷ p ∷ ps else (c ∷ p) ∷ ps
]

-- Go's strings.HasPrefix.
unfoldable pub has_prefix : Bytes → Bytes → Bool
has_prefix s [] = true
has_prefix [] (p ∷ ps) = false
has_prefix (c ∷ cs) (p ∷ ps) = c == p && has_prefix cs ps

-- `c1[len(c1)-1-n] == c2[len(c2)-1-n]`, for `n` below both lengths.
unfoldable pub same_component : List Bytes → List Bytes → ℕ → Bool
unfolding bytes_eq
same_component c1 c2 n =
    bytes_eq (get_or c1 (length c1 - 1 - n) []) (get_or c2 (length c2 - 1 - n) [])

-- The loop at `n`, with `min - n` rounds left.
unfoldable pub suffix_loop : ℕ → ℕ → List Bytes → List Bytes → ℕ
unfolding same_component
suffix_loop zero n c1 c2 = n
suffix_loop (suc rounds) n c1 c2 =
    let more = suffix_loop rounds (n + 1) c1 c2 in if same_component c1 c2 n then more else n

unfoldable pub matching_path_component_suffix_size : Bytes → Bytes → ℕ
unfolding split suffix_loop
matching_path_component_suffix_size p1 p2 =
    let c1 = split b'/' p1 in
    let c2 = split b'/' p2 in
    suffix_loop (if ltb (length c2) (length c1) then length c2 else length c1) 0 c1 c2

pub record BestFile : Type 0 where
  pub file_num : ℕ
  pub components : ℕ
  pub size : ℕ
  pub under_comp : Bool

abbrev pub same_bool : Bool → Bool → Bool
same_bool true b = b
same_bool false b = not b

-- Whether a file with these measures takes the place of the best one so far.
unfoldable pub better : ℕ → Bool → ℕ → BestFile → Bool
better c under size best =
    if not (c == best.components)
    then ltb best.components c
    else if not (same_bool under best.under_comp)
    then under
    else ltb size best.size

-- The loop over the files, from number `num` on.
unfoldable pub best_loop : Bytes → Bytes → ℕ → BestFile → List LineFile → BestFile
unfolding better matching_path_component_suffix_size has_prefix
best_loop comp_dir name num best [] = best
best_loop comp_dir name num best (f ∷ fs) =
    let c = matching_path_component_suffix_size f.name name in
    let under = has_prefix f.name comp_dir in
    let best' : BestFile =
      if better c under (length f.name) best
      then record { file_num = num; components = c; size = length f.name; under_comp = under }
      else best in
    best_loop comp_dir name (num + 1) best' fs

abbrev pub no_file : BestFile
no_file = record { file_num = 0; components = 0; size = 0; under_comp = false }

-- accumulatePCs: the address of every row with this line and file is appended.
unfoldable pub accumulate_pcs : ℕ → ℕ → LineMachine → List ℕ → List ℕ × Bool
accumulate_pcs file_num line m pcs =
    (if m.line == line && m.file == file_num then pcs ++ m.address ∷ [] else pcs, true)

-- TagCompileUnit and AttrCompDir
abbrev pub tag_compile_unit : ℕ
tag_compile_unit = 0x11

abbrev pub attr_comp_dir : ℕ
attr_comp_dir = 0x1B

-- `v.(string)`, which is "" where the value is not one.
abbrev pub as_string : Value → Bytes
as_string (string_value s) = s
as_string _ = []

-- The loop of compilationDirectory, with fuel: one for each entry, and one for the end.
unfoldable pub directory_loop : ℕ → Data → Reader → Result Bytes
unfolding next
directory_loop zero d r = stuck
directory_loop (suc fuel) d r = next d r >>= λ n. elim n.0 [
  | failed e ↦ ok []
  | at_end ↦ ok []
  | read e ↦ elim (e.tag == tag_compile_unit) [
    | true ↦ ok (as_string (entry_val e.fields attr_comp_dir))
    | false ↦ directory_loop fuel d n.1
  ]
]

unfoldable pub compilation_directory : ℕ → Data → Result Bytes
unfolding directory_loop reader
compilation_directory fuel d = directory_loop fuel d (reader d)

-- The fuel is that of compilationDirectory.
unfoldable pub line_to_pcs : ℕ → Data → Bytes → ℕ → Result (List ℕ)
unfolding parse_header eval_compilation_unit best_loop accumulate_pcs compilation_directory
line_to_pcs fuel d name line =
    if length d.line == 0 then err (errorf "LineToPCs: no line table" []) else elim d.units [
      | [] ↦ err (errorf "LineToPCs: no info section" [])
      | u ∷ us ↦ parse_header (make_buf d.order (unit_format u) "line" 0 d.line) >>= λ h.
          compilation_directory fuel d >>= λ comp_dir.
          (let best = best_loop comp_dir name 0 no_file h.0.files in
            if best.components == 0
            then err (errorf "couldn't find file %s" name)
            else eval_compilation_unit (accumulate_pcs best.file_num line) h.0 h.1 [])
    ]
