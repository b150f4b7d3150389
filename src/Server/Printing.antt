-- ===== src/Server/Printing.antt =====
-- server/print.go: the state of a Printer, and what its methods ask of a type.
use debug.Common.{
  ltb, ◌==◌, if◌then◌else◌, Bytes, ℕ, ◌^◌, min, Bool, false, ◌&&◌, ◌||◌, Option, none, some, List,
  [], ◌∷◌, ◌++◌,
}
use debug.Common.Result.{Error, Result}
use debug.Dwarf.Types.{StructInfo, Shape, typedef_type, TypeHeap, shape_of}
use debug.Server.Typedefs.{same_type}
use debug.Server.Peek.{string_info, struct_info}
use debug.Server.Peek.Maps.{ptr_target}

-- What is printed by a verb of a format. A type is printed by its method String, whose panic package
-- fmt catches.
pub data Arg (F32 F64 : Type 0) : Type 0 where
  number signed : ℕ → Arg F32 F64
  flag : Bool → Arg F32 F64
  bytes_of : Bytes → Arg F32 F64
  type_of : Result Bytes → Arg F32 F64
  float32 : F32 → Arg F32 F64
  float64 : F64 → Arg F32 F64
  complex64 : F32 × F32 → Arg F32 F64
  complex128 : F64 × F64 → Arg F32 F64

-- A Printer; the server, the DWARF data and the architecture that it points to are arguments.
pub record Printer : Type 0 where
  pub failure : Option Error
  pub print_buf : Bytes
  pub visited : List (Option ℕ × ℕ)

-- The struct of NewPrinter, which is also what reset makes of one.
abbrev pub new_printer : Printer
new_printer = record { failure = none; print_buf = []; visited = [] }

abbrev pub same_place : Option ℕ × ℕ → Option ℕ × ℕ → Bool
same_place x y = same_type x.0 y.0 && x.1 == y.1

-- `p.visited[ta]`
abbrev pub was_visited : Option ℕ × ℕ → List (Option ℕ × ℕ) → Bool
was_visited x [] = false
was_visited x (y ∷ ys) = same_place x y || was_visited x ys

-- `p.err`, where there is none yet.
abbrev pub first_failure : Option Error → Error → Option Error
first_failure none e = some e
first_failure (some x) e = some x

abbrev pub put : Bytes → Printer → Printer
put bs p = record p { print_buf = p.print_buf ++ bs }

-- `x > 0` of an int64.
abbrev pub is_positive : ℕ → Bool
is_positive x = ltb 0 x && ltb x (2 ^ 63)

-- The number of elements of an array that are printed: none of a negative count.
abbrev pub shown : ℕ → ℕ
shown count = if ltb count (2 ^ 63) then min count 100 else 0

-- maxMapValuesToPrint
abbrev pub max_map_values : ℕ
max_map_values = 8

-- The types behind a pointer and a typedef, as printTypeOfInterface wants them.
abbrev pub typedef_target : Option Shape → Option (Option ℕ)
typedef_target (some (typedef_type u)) = some u
typedef_target _ = none

-- A pointer to a typedef of a struct.
abbrev pub pointed_struct : TypeHeap → Option ℕ → Option StructInfo
pointed_struct h t = elim (ptr_target (shape_of h t)) [
  | none ↦ none
  | some u ↦ elim (typedef_target (shape_of h u)) [
    | none ↦ none
    | some v ↦ struct_info (shape_of h v)
  ]
]

-- A pointer to a string.
abbrev pub pointed_string : TypeHeap → Option ℕ → Option StructInfo
pointed_string h t = elim (ptr_target (shape_of h t)) [
  | none ↦ none
  | some u ↦ string_info (shape_of h u)
]
