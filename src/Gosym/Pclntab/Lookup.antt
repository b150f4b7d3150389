-- ===== src/Gosym/Pclntab/Lookup.antt =====
-- gosym/pclntab.go: the lookups of the Go 1.2 table, which recover from a panic. The table is one
-- on which go12Init has run.
use debug.Common.{
  ltb, leb, ◌==◌, if◌then◌else◌, u32, Bytes, ℕ, zero, suc, ◌+◌, ◌-◌, ◌*◌, ◌^◌, not, ◌||◌, Option,
  none, some, List, [], ◌∷◌,
}
use debug.Gosym.Pclntab.Old.{old_pc_to_line, old_line_to_pc}
use debug.Gosym.Pclntab.Init.{go12_init, is_go12}
use debug.Dwarf.Line.Paths.{bytes_eq}
use debug.Gosym.Pclntab.Values.{pcvalue, string_at, find_file_line}
use debug.Common.Result.{Result, ok, panic, ◌>>=◌}
use debug.Gosym.Pclntab.Funcs.{find_func}
use debug.Gosym.Pclntab.{LineTable, slice_from, order_uint32, uintptr, recovered}

-- -1, as an int.
abbrev pub no_value : ℕ
no_value = 2 ^ 64 - 1

-- `int(x)` of an int32.
abbrev pub sign_extend32 : ℕ → ℕ
sign_extend32 x = if ltb x (2 ^ 31) then x else x + (2 ^ 64 - 2 ^ 32)

-- `t.binary.Uint32(f[n:])`
abbrev pub field_at : LineTable → Bytes → ℕ → Result ℕ
field_at t f n = slice_from n f >>= λ b. order_uint32 t.binary b

abbrev pub found : {A B : Type 0} → Option A → B → (A → Result B) → Result B
found none b k = ok b
found (some a) b k = k a

unfoldable pub go12_pc_to_val : LineTable → ℕ → ℕ → Result ℕ
unfolding find_func uintptr slice_from pcvalue
go12_pc_to_val t pc f_offset = recovered no_value (
    find_func t pc >>= λ o. found o no_value (λ f. uintptr t f >>= λ entry.
    (field_at t f f_offset >>= λ linetab.
    (pcvalue t linetab entry pc >>= λ v. ok (sign_extend32 v)))))

unfoldable pub go12_pc_to_line : LineTable → ℕ → Result ℕ
unfolding go12_pc_to_val
go12_pc_to_line t pc = go12_pc_to_val t pc (t.ptrsize + 20)

unfoldable pub go12_pc_to_sp_adj : LineTable → ℕ → Result ℕ
unfolding go12_pc_to_val
go12_pc_to_sp_adj t pc = go12_pc_to_val t pc (t.ptrsize + 12)

-- `4*fno` is an int32 too: an index that is negative panics, as does one past the end.
unfoldable pub file_name : LineTable → ℕ → Result Bytes
unfolding slice_from string_at
file_name t fno =
    if leb (2 ^ 31) (u32 (4 * fno))
    then panic
    else field_at t t.filetab (u32 (4 * fno)) >>= λ off. string_at t off

unfoldable pub go12_pc_to_file : LineTable → ℕ → Result Bytes
unfolding find_func uintptr slice_from pcvalue file_name
go12_pc_to_file t pc = recovered [] (
    find_func t pc >>= λ o. found o [] (λ f. uintptr t f >>= λ entry.
    (field_at t f (t.ptrsize + 16) >>= λ filetab.
    (pcvalue t filetab entry pc >>= λ fno.
    (if fno == 0 || leb (2 ^ 31) fno then ok [] else file_name t fno)))))

-- The files from number i on, n of them, entered into the map in front of those that are there.
unfoldable pub file_map_loop : LineTable → ℕ → ℕ → List (Bytes × ℕ) → Result (List (Bytes × ℕ))
unfolding slice_from string_at
file_map_loop t zero i m = ok m
file_map_loop t (suc n) i m = field_at t t.filetab (u32 (4 * i)) >>= λ off.
    (string_at t off >>= λ s. file_map_loop t n (i + 1) ((s, i) ∷ m))

unfoldable pub init_file_map : LineTable → Result LineTable
unfolding file_map_loop
init_file_map t = elim t.file_map [
  | some m ↦ ok t
  | none ↦ file_map_loop t (t.nfiletab - 1) 1 [] >>= λ m. ok (record t { file_map = some m })
]

-- `m[file]`, which is 0 for a file that is not there.
abbrev pub file_number : List (Bytes × ℕ) → Bytes → ℕ
file_number [] file = 0
file_number (e ∷ m) file = if bytes_eq e.0 file then e.1 else file_number m file

-- The functions from number i on, n of them.
unfoldable pub line_to_pc_loop : LineTable → ℕ → ℕ → ℕ → ℕ → Result ℕ
unfolding slice_from uintptr find_file_line
line_to_pc_loop t filenum line zero i = ok 0
line_to_pc_loop t filenum line (suc n) i =
    slice_from (u32 (2 * t.ptrsize * i + t.ptrsize)) t.functab >>= λ b.
    (uintptr t b >>= λ off.
    (slice_from off t.content >>= λ f.
    (uintptr t f >>= λ entry.
    (field_at t f (t.ptrsize + 16) >>= λ filetab.
    (field_at t f (t.ptrsize + 20) >>= λ linetab.
    (find_file_line t entry filetab linetab filenum (u32 line) >>= λ pc.
    (let rest = line_to_pc_loop t filenum line n (i + 1) in
      if not (pc == 0) then ok pc else rest)))))))

unfoldable pub go12_line_to_pc : LineTable → Bytes → ℕ → Result ℕ
unfolding init_file_map line_to_pc_loop
go12_line_to_pc t file line = recovered 0 (
    init_file_map t >>= λ t'.
    (let filenum : ℕ = elim t'.file_map [ none ↦ 0 | some m ↦ file_number m file ] in
      if filenum == 0 then ok 0 else line_to_pc_loop t' filenum line t'.nfunctab 0))

-- PCToLine, with the table that go12Init leaves.
unfoldable pub pc_to_line : LineTable → ℕ → Result (ℕ × LineTable)
unfolding go12_init go12_pc_to_line old_pc_to_line is_go12
pc_to_line t pc =
    let t' = go12_init t in
    (if is_go12 t then go12_pc_to_line t' pc else old_pc_to_line t' pc) >>= λ line. ok (line, t')

-- LineToPC, which answers 0 on a table in the Go 1.2 format.
unfoldable pub line_to_pc : LineTable → ℕ → ℕ → Result (ℕ × LineTable)
unfolding go12_init old_line_to_pc is_go12
line_to_pc t line maxpc =
    let t' = go12_init t in
    (if is_go12 t then ok 0 else old_line_to_pc t' line maxpc) >>= λ pc. ok (pc, t')
