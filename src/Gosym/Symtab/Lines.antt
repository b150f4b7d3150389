-- ===== src/Gosym/Symtab/Lines.antt =====
-- gosym/symtab.go: lines of a Table, and the stacks of included files in the old format. A Go int is
-- its bit pattern.
use debug.Common.{
  ltb, ◌==◌, if◌then◌else◌, length, get_elem?, take, drop, u64, Bytes, ℕ, ◌+◌, ◌-◌, ◌^◌, Bool, true,
  false, not, ◌&&◌, Option, none, some, List, [], ◌∷◌,
}
use debug.Common.Result.{errorf, Result, ok, err, panic, ◌>>=◌}
use debug.Dwarf.Line.Paths.{bytes_eq}
use debug.Gosym.Pclntab.Lookup.{
  go12_pc_to_line, go12_pc_to_sp_adj, go12_pc_to_file, go12_line_to_pc, pc_to_line, line_to_pc,
}
use debug.Gosym.Symtab.Table.{Sym, Func, pc_to_func}
use debug.Gosym.Symtab.Build.{Obj, Table}

-- `a < b` of two ints.
abbrev pub signed_ltb : ℕ → ℕ → Bool
signed_ltb a b = ltb (u64 (a + 2 ^ 63)) (u64 (b + 2 ^ 63))

-- `a - b` of two ints.
abbrev pub minus : ℕ → ℕ → ℕ
minus a b = u64 (a + 2 ^ 64 - b)

-- An entry of lineFromAline's stack; the entries below are the rest of the list.
pub record StackEnt : Type 0 where
  pub path : Bytes
  pub start : ℕ
  pub offset : ℕ

-- What one path symbol does to the stack: the loop ends, the table is malformed, or it goes on.
pub data Walk : Type 0 where
  halt malformed : Walk
  go_on : List StackEnt → Walk

-- `tos.prev.offset += val - tos.start; tos = tos.prev`
abbrev pub pop : ℕ → List StackEnt → Walk
pop val [] = malformed
pop val (e ∷ []) = go_on []
pop val (e ∷ prev ∷ es) =
    go_on (record prev { offset = u64 (prev.offset + minus val e.start) } ∷ es)

unfoldable pub walk_path : ℕ → Sym → List StackEnt → Walk
walk_path aline s stack =
    if signed_ltb aline s.value
    then halt
    else if s.value == 1
    then go_on (record { path = s.name; start = s.value; offset = 0 } ∷ [])
    else if length s.name == 0
    then pop s.value stack
    else go_on (record { path = s.name; start = s.value; offset = 0 } ∷ stack)

abbrev pub top_line : ℕ → List StackEnt → Bytes × ℕ
top_line aline [] = ([], 0)
top_line aline (e ∷ es) = (e.path, u64 (minus (minus aline e.start) e.offset + 1))

-- "<malformed symbol table>"
abbrev pub malformed_path : Bytes
malformed_path =
    b'<' ∷ b'm' ∷ b'a' ∷ b'l' ∷ b'f' ∷ b'o' ∷ b'r' ∷ b'm' ∷ b'e' ∷ b'd' ∷ b' ' ∷ b's' ∷ b'y' ∷ b'm'
    ∷ b'b' ∷ b'o' ∷ b'l' ∷ b' ' ∷ b't' ∷ b'a' ∷ b'b' ∷ b'l' ∷ b'e' ∷ b'>' ∷ []

unfoldable pub walk_paths : ℕ → List Sym → List StackEnt → Bytes × ℕ
unfolding walk_path
walk_paths aline [] stack = top_line aline stack
walk_paths aline (s ∷ ss) stack = elim (walk_path aline s stack) [
  | halt ↦ top_line aline stack
  | malformed ↦ (malformed_path, 0)
  | go_on stack' ↦ walk_paths aline ss stack'
]

unfoldable pub line_from_aline : Obj → ℕ → Bytes × ℕ
unfolding walk_paths
line_from_aline o aline = walk_paths aline o.paths []

abbrev pub unknown_line {ℓ} : {A : Type ℓ} → Bytes → Result A
unknown_line path = err (errorf "no code at %s:%d" path)

-- The inner loop of alineFromLine, from the path's symbol on.
unfoldable pub find_line : Bytes → ℕ → ℕ → ℕ → List Sym → Result ℕ
find_line path line depth incstart [] = unknown_line path
find_line path line depth incstart (s ∷ ss) =
    let up = minus depth 1 in
    let left =
      find_line path (if up == 1 then u64 (line + minus s.value incstart) else line) up incstart
        ss in
    let entered =
      find_line path line (u64 (depth + 1)) (if depth == 1 then s.value else incstart) ss in
    if depth == 1 && not (signed_ltb s.value line)
    then ok (minus line 1)
    else if length s.name == 0
    then if up == 0 then unknown_line path else left
    else entered

unfoldable pub aline_loop : Bytes → ℕ → List Sym → Result ℕ
unfolding find_line bytes_eq
aline_loop path line [] = err (errorf "unknown file: %s" path)
aline_loop path line (s ∷ ss) =
    let rest = aline_loop path line ss in
    if bytes_eq s.name path then find_line path (u64 (line + s.value)) 0 0 (s ∷ ss) else rest

unfoldable pub aline_from_line : Obj → Bytes → ℕ → Result ℕ
unfolding aline_loop
aline_from_line o path line =
    if signed_ltb line 1 then unknown_line path else aline_loop path line o.paths

-- `p.x` through a pointer that may be nil.
abbrev pub deref : {A : Type 0} → Option A → Result A
deref none = panic
deref (some a) = ok a

-- The object of a function, and its line table.
abbrev pub obj_of : Table → Func → Result Obj
obj_of t f = deref f.obj >>= λ i. deref (get_elem? t.objs i)

-- PCToLine of a Table: file, line and function.
unfoldable pub table_pc_to_line : Table → ℕ → Result (Bytes × (ℕ × Option Func))
unfolding pc_to_func go12_pc_to_file go12_pc_to_line line_from_aline pc_to_line
table_pc_to_line t pc = pc_to_func t.funcs pc >>= λ found. elim found [
  | none ↦ ok ([], (0, none))
  | some f ↦ elim t.go12line [
    | some table ↦ go12_pc_to_file table pc >>= λ file.
        go12_pc_to_line table pc >>= λ line. ok (file, (line, some f))
    | none ↦ deref f.line_table >>= λ table. pc_to_line table pc >>= λ aline. obj_of t f >>= λ o.
        let (file, line) = line_from_aline o aline.0 in ok (file, (line, some f))
  ]
]

unfoldable pub table_pc_to_sp_adj : Table → ℕ → Result ℕ
unfolding pc_to_func go12_pc_to_sp_adj
table_pc_to_sp_adj t pc = pc_to_func t.funcs pc >>= λ found. elim found [
  | none ↦ ok 0
  | some f ↦ elim t.go12line [ some table ↦ go12_pc_to_sp_adj table pc | none ↦ ok 0 ]
]

-- `t.Files[file]`, the number of an object.
abbrev pub file_obj : Bytes → List (Bytes × ℕ) → Option ℕ
file_obj file [] = none
file_obj file (e ∷ es) = if bytes_eq e.0 file then some e.1 else file_obj file es

-- The loop of LineToPC over an object's functions.
unfoldable pub funcs_line_to_pc : ℕ → List Func → Result (Option (ℕ × Func))
unfolding line_to_pc
funcs_line_to_pc aline [] = ok none
funcs_line_to_pc aline (f ∷ fs) = deref f.line_table >>= λ table.
    line_to_pc table aline f.end >>= λ pc. elim (pc.0 == 0) [
      | true ↦ funcs_line_to_pc aline fs
      | false ↦ ok (some (pc.0, f))
    ]

-- LineToPC of a Table.
unfoldable pub table_line_to_pc : Table → Bytes → ℕ → Result (ℕ × Option Func)
unfolding pc_to_func go12_line_to_pc aline_from_line funcs_line_to_pc
table_line_to_pc t file line = elim (file_obj file t.files) [
  | none ↦ err (errorf "unknown file: %s" file)
  | some i ↦ elim t.go12line [
    | some table ↦ go12_line_to_pc table file line >>= λ pc.
        if pc == 0 then unknown_line file else pc_to_func t.funcs pc >>= λ f. ok (pc, f)
    | none ↦ deref (get_elem? t.objs i) >>= λ o. aline_from_line o file line >>= λ aline.
        funcs_line_to_pc aline (take o.funcs.1 (drop o.funcs.0 t.funcs)) >>= λ found. elim found [
          | none ↦ unknown_line file
          | some p ↦ ok (p.0, some p.1)
        ]
  ]
]
