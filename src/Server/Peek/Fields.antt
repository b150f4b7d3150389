-- ===== src/Server/Peek/Fields.antt =====
-- server/print.go: which field getField gives.
use debug.Common.{
  if◌then◌else◌, Bool-cases, Bytes, ◌≡◌, refl, inl, inr, Option, none, some, List, [], ◌∷◌,
}
use debug.Server.Peek.{field_loop, get_field}
use debug.Common.Result.{errorf, Result, ok, err, ◌>>=◌}
use debug.Dwarf.Types.{StructField, StructInfo}
use debug.Dwarf.Line.Paths.{bytes_eq}

-- The fields with a name.
abbrev pub named : Bytes → List StructField → List StructField
named name [] = []
named name (f ∷ fs) = if bytes_eq f.name name then f ∷ named name fs else named name fs

-- The one field of a list, or what getField says of none and of several.
abbrev pub only : Bytes → List StructField → Result StructField
only name [] = err (errorf "struct field %s missing" name)
only name (f ∷ []) = ok f
only name (f ∷ g ∷ gs) = err (errorf "struct definition repeats field %s" name)

abbrev no_more : Bytes → StructField → List StructField → Result (Option StructField)
no_more name f [] = ok (some f)
no_more name f (g ∷ gs) = err (errorf "struct definition repeats field %s" name)

abbrev found_in : Bytes → List StructField → Result (Option StructField)
found_in name [] = ok none
found_in name (f ∷ fs) = no_more name f fs

field_loop-some :
    (name : Bytes) (f : StructField) (fs : List StructField)
    → field_loop name (some f) fs ≡ no_more name f (named name fs)
unfolding field_loop
field_loop-some name f [] = refl
field_loop-some name f (g ∷ gs) = elim (Bool-cases (bytes_eq g.name name)) [
  | inl same ↦ rw (same, field_loop) refl
  | inr other ↦ rw (other, field_loop) (field_loop-some name f gs)
]

field_loop-none :
    (name : Bytes) (fs : List StructField) → field_loop name none fs ≡ found_in name (named name fs)
unfolding field_loop
field_loop-none name [] = refl
field_loop-none name (g ∷ gs) = elim (Bool-cases (bytes_eq g.name name)) [
  | inl same ↦ rw (same, field_loop) (field_loop-some name g gs)
  | inr other ↦ rw (other, field_loop) (field_loop-none name gs)
]

only_found :
    (name : Bytes) (fs : List StructField)
    → (found_in name fs >>= λ r. elim r [
      | none ↦ err (errorf "struct field %s missing" name)
      | some f ↦ ok f
    ])
      ≡ only name fs
only_found name [] = refl
only_found name (f ∷ []) = refl
only_found name (f ∷ g ∷ gs) = refl

-- getField gives the field with a name where it is the only one. Where there is none, and where there
-- are several, it gives an error that says so.
pub get_field-only :
    (t : StructInfo) (name : Bytes) → get_field t name ≡ only name (named name t.field)
unfolding get_field
get_field-only t name = rw (field_loop-none name t.field) (only_found name (named name t.field))
