-- ===== src/Gosym/Symtab/Table.antt =====
-- gosym/symtab.go: the Table, its symbols by name and address, and its functions by PC.
use debug.Common.{
  ltb, leb, ◌==◌, if◌then◌else◌, length, get_elem?, take, drop, Bytes, ℕ, zero, suc, ◌+◌, ◌*◌, ◌/◌,
  ◌%◌, ◌^◌, Bool, true, false, not, ◌&&◌, ◌||◌, Option, none, some, List, [], ◌∷◌, ◌++◌,
}
use debug.Common.Result.{Result, ok, panic, stuck, ◌>>=◌}
use debug.Common.Maps.{map_get, map_insert}
use debug.Dwarf.Line.Paths.{bytes_eq}
use debug.Gosym.Pclntab.{LineTable}
use debug.Gosym.Symtab.{RawSym, is_path, walksymtab}

-- The back pointer `Func` of a symbol is left out.
pub record Sym : Type 0 where
  pub value : ℕ
  pub typ : ℕ
  pub name : Bytes
  pub go_type : ℕ

-- Static
unfoldable pub is_static : Sym → Bool
is_static s = leb b'a' s.typ

-- strings.Index at one byte, and strings.LastIndex.
abbrev pub index : ℕ → Bytes → Option ℕ
index c [] = none
index c (b ∷ bs) =
    let later : Option ℕ = elim (index c bs) [ none ↦ none | some i ↦ some (suc i) ] in
    if b == c then some 0 else later

abbrev pub last_index : ℕ → Bytes → Option ℕ
last_index c [] = none
last_index c (b ∷ bs) = elim (last_index c bs) [
  | some i ↦ some (suc i)
  | none ↦ if b == c then some 0 else none
]

unfoldable pub package_name : Sym → Bytes
package_name s = elim (index b'.' s.name) [ none ↦ [] | some i ↦ take i s.name ]

-- `name[l+1:r]` between two different dots.
unfoldable pub receiver_name : Sym → Bytes
receiver_name s = elim (index b'.' s.name) [
  | none ↦ []
  | some l ↦ elim (last_index b'.' s.name) [
    | none ↦ []
    | some r ↦ if l == r then [] else drop (l + 1) (take r s.name)
  ]
]

unfoldable pub base_name : Sym → Bytes
base_name s = elim (last_index b'.' s.name) [ none ↦ s.name | some i ↦ drop (i + 1) s.name ]

-- `obj` is a number in the list of objects.
pub record Func : Type 0 where
  pub entry : ℕ
  pub sym : Sym
  pub end : ℕ
  pub params : List Sym
  pub locals : List Sym
  pub frame_size : ℕ
  pub line_table : Option LineTable
  pub obj : Option ℕ

-- The rewriting of "·" to ".".
abbrev pub with_dots : Bytes → Bytes
with_dots [] = []
with_dots (b ∷ []) = b ∷ []
with_dots (b ∷ c ∷ p) =
    let rewritten = b'.' ∷ with_dots p in
    let kept = b ∷ with_dots (c ∷ p) in if b == 0xC2 && c == 0xB7 then rewritten else kept

-- What the second callback of NewTable has captured.
pub record Symbols : Type 0 where
  pub syms : List Sym
  pub fname : List (ℕ × Bytes)
  pub nf : ℕ
  pub nz : ℕ
  pub lasttyp : ℕ

-- A slash is put behind a name that does not end in one.
abbrev pub with_slash : Bytes → Bytes
with_slash [] = []
with_slash (b ∷ []) = if b == b'/' then b ∷ [] else b ∷ b'/' ∷ []
with_slash (b ∷ c ∷ p) = b ∷ with_slash (c ∷ p)

-- The name of a path symbol, from what there is of it, and whether every code stands for a name.
unfoldable pub path_name : List (ℕ × Bytes) → Bytes → Bytes → Bytes × Bool
path_name fname name [] = (name, true)
path_name fname name (b ∷ []) = (name, true)
path_name fname name (b ∷ c ∷ codes) = elim (map_get (b * 256 + c) fname) [
  | none ↦ (name, false)
  | some elt ↦ path_name fname (with_slash name ++ elt) codes
]

-- 'T', 't', 'L' or 'l'
abbrev pub is_text : ℕ → Bool
is_text typ = typ == b'T' || typ == b't' || (typ == b'L' || typ == b'l')

-- 'D', 'd', 'B' or 'b'
abbrev pub is_content : ℕ → Bool
is_content typ = typ == b'D' || typ == b'd' || (typ == b'B' || typ == b'b')

-- The callback. Where a code stands for no name it returns early, with an error that walksymtab
-- drops.
unfoldable pub collect : RawSym → Symbols → Symbols
unfolding path_name
collect s c =
    let named = if is_path s.typ then path_name c.fname [] s.name else (with_dots s.name, true) in
    let syms =
      c.syms ++ record { value = s.value; typ = s.typ; name = named.0; go_type = s.gotype } ∷ [] in
    let nz = if is_path s.typ && not (is_path c.lasttyp) then c.nz + 1 else c.nz in
    let early : Symbols = record c { syms = syms; nz = nz } in
    let late : Symbols = record {
      syms = syms;
      nz = nz;
      nf = if is_text s.typ then c.nf + 1 else c.nf;
      fname = if s.typ == b'f' then map_insert (s.value % 2 ^ 16) named.0 c.fname else c.fname;
      lasttyp = s.typ;
    } in
    if named.1 then late else early

-- The two walks of NewTable.
unfoldable pub symbols : Bytes → Result Symbols
unfolding walksymtab collect
symbols symtab = walksymtab symtab (λ s n. n + 1) 0 >>= λ (n : ℕ).
    walksymtab symtab collect (record { syms = []; fname = []; nf = 0; nz = 0; lasttyp = 0 })

-- PCToFunc, with fuel: each round halves the functions.
unfoldable pub search_loop : ℕ → ℕ → List Func → Result (Option Func)
search_loop zero pc funcs = stuck
search_loop (suc fuel) pc funcs =
    let m = length funcs / 2 in
    let left = search_loop fuel pc (take m funcs) in
    let right = search_loop fuel pc (drop (m + 1) funcs) in
    if length funcs == 0 then ok none else elim (get_elem? funcs m) [
      | none ↦ panic
      | some f ↦
          if ltb pc f.entry
          then left
          else if leb f.entry pc && ltb pc f.end
          then ok (some f)
          else right
    ]

unfoldable pub pc_to_func : List Func → ℕ → Result (Option Func)
unfolding search_loop
pc_to_func funcs pc = search_loop (suc (length funcs)) pc funcs

unfoldable pub lookup_sym : List Sym → Bytes → Option Sym
lookup_sym [] name = none
lookup_sym (s ∷ ss) name =
    if (is_text s.typ || is_content s.typ) && bytes_eq s.name name
    then some s
    else lookup_sym ss name

unfoldable pub lookup_func : List Func → Bytes → Option Func
lookup_func [] name = none
lookup_func (f ∷ fs) name = if bytes_eq f.sym.name name then some f else lookup_func fs name

unfoldable pub sym_by_addr : List Sym → ℕ → Option Sym
sym_by_addr [] addr = none
sym_by_addr (s ∷ ss) addr =
    if (is_text s.typ || is_content s.typ) && s.value == addr then some s else sym_by_addr ss addr
