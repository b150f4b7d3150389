-- ===== src/Gosym/Symtab/Build.antt =====
-- gosym/symtab.go: the functions, files and objects that NewTable makes of the symbols, and
-- go12Funcs and go12MapFiles of gosym/pclntab.go.
use debug.Common.{
  ◌==◌, if◌then◌else◌, length, u64, Bytes, ℕ, zero, suc, ◌+◌, ◌-◌, ◌*◌, ◌/◌, ◌^◌, ◌||◌, Option,
  none, some, List, [], ◌∷◌, ◌++◌, map,
}
use debug.Common.Result.{Result, ok, panic, stuck, ◌>>=◌}
use debug.Dwarf.Line.Paths.{bytes_eq}
use debug.Gosym.Pclntab.{LineTable, slice_from, uintptr, recovered}
use debug.Gosym.Pclntab.Init.{go12_init, is_go12}
use debug.Gosym.Pclntab.Lookup.{field_at, init_file_map}
use debug.Gosym.Pclntab.Old.{slice}
use debug.Gosym.Pclntab.Values.{string_at}
use debug.Gosym.Symtab.Table.{Sym, Func, Symbols, is_text, symbols}
use debug.Gosym.Symtab.{is_path}

-- `funcs` is a range of the table's functions: where it starts, and how many there are.
pub record Obj : Type 0 where
  pub funcs : ℕ × ℕ
  pub paths : List Sym

-- Files is nil where it is a map with no entries.
pub record Table : Type 0 where
  pub syms : List Sym
  pub funcs : List Func
  pub files : List (Bytes × ℕ)
  pub objs : List Obj
  pub go12line : Option LineTable

-- The variables of NewTable's loop: `obj` is the number of the current object.
pub record Build : Type 0 where
  pub funcs : List Func
  pub files : List (Bytes × ℕ)
  pub objs : List Obj
  pub obj : Option ℕ
  pub lastf : ℕ
  pub pcln : LineTable

-- `t.Funcs[n-1].End = sym.Value`, where there is a function.
abbrev pub end_last : ℕ → List Func → List Func
end_last v [] = []
end_last v (f ∷ []) = record f { end = v } ∷ []
end_last v (f ∷ g ∷ fs) = f ∷ end_last v (g ∷ fs)

abbrev pub set_funcs : ℕ → ℕ × ℕ → List Obj → List Obj
set_funcs i r [] = []
set_funcs zero r (o ∷ os) = record o { funcs = r } ∷ os
set_funcs (suc i) r (o ∷ os) = o ∷ set_funcs i r os

-- `if obj != nil { obj.Funcs = t.Funcs[lastf:] }`
abbrev pub finish_obj : Build → Build
finish_obj b = elim b.obj [
  | none ↦ b
  | some i ↦ record b { objs = set_funcs i (b.lastf, length b.funcs - b.lastf) b.objs }
]

-- The path symbols at the front, and what is behind them.
abbrev pub span_paths : List Sym → List Sym × List Sym
span_paths [] = ([], [])
span_paths (s ∷ ss) =
    let (paths, rest) = span_paths ss in if is_path s.typ then (s ∷ paths, rest) else ([], s ∷ ss)

-- The symbols in front of the next text or path symbol, and what is behind them.
abbrev pub span_members : List Sym → List Sym × List Sym
span_members [] = ([], [])
span_members (s ∷ ss) =
    let (members, rest) = span_members ss in
    if is_text s.typ || is_path s.typ then ([], s ∷ ss) else (s ∷ members, rest)

-- The loop that records file names. The depth is an int.
abbrev pub record_files : ℕ → ℕ → List Sym → List (Bytes × ℕ) → List (Bytes × ℕ)
record_files obj depth [] files = files
record_files obj depth (s ∷ ss) files =
    if length s.name == 0
    then record_files obj (u64 (depth + 2 ^ 64 - 1)) ss files
    else record_files obj (u64 (depth + 1)) ss (if depth == 0 then (s.name, obj) ∷ files else files)

-- The symbols of one type.
abbrev pub of_type : ℕ → List Sym → List Sym
of_type typ [] = []
of_type typ (s ∷ ss) = let rest = of_type typ ss in if s.typ == typ then s ∷ rest else rest

-- The value of the last 'm' symbol, or 0.
abbrev pub frame_size : ℕ → List Sym → ℕ
frame_size size [] = size
frame_size size (s ∷ ss) = frame_size (if s.typ == b'm' then s.value else size) ss

-- The line table of a function, and what is left of the old table behind it.
unfoldable pub line_table_for : Option LineTable → ℕ → LineTable → Result (LineTable × LineTable)
unfolding slice
line_table_for (some t) entry pcln = ok (t, pcln)
line_table_for none entry pcln = slice pcln entry >>= λ t. ok (t, t)

-- A new function, behind the others.
unfoldable pub add_func : Option LineTable → Sym → List Sym → Build → Result Build
unfolding line_table_for
add_func go12 s members b = line_table_for go12 s.value b.pcln >>= λ t. ok (record b {
  funcs =
      b.funcs
      ++ record {
        entry = s.value;
        sym = s;
        end = 0;
        params = of_type b'p' members;
        locals = of_type b'a' members;
        frame_size = frame_size 0 members;
        line_table = some t.0;
        obj = b.obj;
      }
        ∷ [];
  pcln = t.1;
})

-- A new object, for these path symbols.
abbrev pub add_obj : List Sym → Build → Build
add_obj paths b =
    let b' = finish_obj b in
    let n = length b'.objs in
    record b' {
      lastf = length b'.funcs;
      objs = b'.objs ++ record { funcs = (0, 0); paths = paths } ∷ [];
      obj = some n;
      files = record_files n 0 paths b'.files;
    }

-- "etext"
abbrev pub etext : Bytes
etext = b'e' ∷ b't' ∷ b'e' ∷ b'x' ∷ b't' ∷ []

-- The loop over the symbols, with fuel: one for each.
unfoldable pub build_loop : ℕ → Option LineTable → List Sym → Build → Result Build
unfolding add_func bytes_eq
build_loop zero go12 ss b = elim ss [ [] ↦ ok b | s ∷ rest ↦ stuck ]
build_loop (suc fuel) go12 [] b = ok b
build_loop (suc fuel) go12 (s ∷ ss) b =
    let (paths, behind) = span_paths ss in
    let (members, others) = span_members ss in
    let skip = build_loop fuel go12 ss b in
    let path : Result Build = elim go12 [
      | some t ↦ skip
      | none ↦ build_loop fuel none behind (add_obj (s ∷ paths) b)
    ] in
    let ended : Build = record b { funcs = end_last s.value b.funcs } in
    let marker = build_loop fuel go12 ss ended in
    let function = add_func go12 s members ended >>= λ b'. build_loop fuel go12 others b' in
    let text = if bytes_eq s.name etext then marker else function in
    if is_path s.typ then path else if is_text s.typ then text else skip

-- go12Funcs, from function i on, n of them.
unfoldable pub funcs_loop : LineTable → ℕ → ℕ → Result (List Func)
unfolding slice_from uintptr string_at
funcs_loop t zero i = ok []
funcs_loop t (suc n) i = slice_from (2 * i * t.ptrsize) t.functab >>= uintptr t >>= λ entry.
    (slice_from ((2 * i + 2) * t.ptrsize) t.functab >>= uintptr t >>= λ end.
    (slice_from ((2 * i + 1) * t.ptrsize) t.functab >>= uintptr t >>= λ off.
    (slice_from off t.content >>= λ info.
    (field_at t info (t.ptrsize + 8) >>= λ size.
    (field_at t info t.ptrsize >>= λ nameoff.
    (string_at t nameoff >>= λ name.
    (funcs_loop t n (i + 1) >>= λ rest. ok (
      record {
        entry = entry;
        sym = record { value = entry; typ = b'T'; name = name; go_type = 0 };
        end = end;
        params = [];
        locals = [];
        frame_size = size;
        line_table = some t;
        obj = none;
      }
      ∷ rest))))))))

-- nil where it panics, a pointer size of zero included.
unfoldable pub go12_funcs : LineTable → Result (List Func)
unfolding funcs_loop
go12_funcs t =
    recovered []
      (if t.ptrsize == 0 then panic else funcs_loop t (length t.functab / t.ptrsize / 2) 0)

-- go12MapFiles on an empty map, with object 0; a panic leaves it empty.
unfoldable pub go12_map_files : LineTable → Result (List (Bytes × ℕ))
unfolding init_file_map
go12_map_files t = recovered [] (
    init_file_map t >>= λ t'. elim t'.file_map [
      | none ↦ ok []
      | some m ↦ ok (map (λ (e : Bytes × ℕ). (e.0, 0)) m)
    ])

-- NewTable behind the walks.
unfoldable pub assemble : Option LineTable → LineTable → Symbols → Result Table
unfolding build_loop go12_funcs go12_map_files
assemble go12 pcln c =
    let start : Result Build = elim go12 [
      | none ↦ ok (record { funcs = []; files = []; objs = []; obj = none; lastf = 0; pcln = pcln })
      | some t ↦ go12_map_files t >>= λ files. ok (record {
        funcs = [];
        files = files;
        objs = record { funcs = (0, 0); paths = [] } ∷ [];
        obj = some 0;
        lastf = 0;
        pcln = pcln;
      })
    ] in
    start >>= build_loop (length c.syms) go12 c.syms >>= λ b.
    ((elim go12 [
      | none ↦ ok b
      | some t ↦
          let replaced : Result Build = go12_funcs t >>= λ fs. ok (record b { funcs = fs }) in
          if c.nf == 0 then replaced else ok b
    ])
      >>= λ b.
          (let b' = finish_obj b in
            ok (record {
              syms = c.syms;
              funcs = b'.funcs;
              files = b'.files;
              objs = b'.objs;
              go12line = go12;
            })))

-- A nil table panics when it is asked for its format.
unfoldable pub new_table : Bytes → Option LineTable → Result Table
unfolding symbols assemble go12_init is_go12
new_table symtab pcln = symbols symtab >>= λ c. elim pcln [
  | none ↦ panic
  | some t ↦ assemble (if is_go12 t then some (go12_init t) else none) (go12_init t) c
]
