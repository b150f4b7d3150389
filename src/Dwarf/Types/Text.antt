-- ===== src/Dwarf/Types/Text.antt =====
-- dwarf/type.go: the methods String, and Defn. strconv.FormatInt in base 10 is a parameter, over the
-- bit pattern of the int64. Fuel is the depth of the calls, one in another.
use debug.Common.{
  ltb, ◌==◌, if◌then◌else◌, length, Bytes, ℕ, zero, suc, ◌^◌, ◌&&◌, Option, none, some, List, [],
  ◌∷◌, ◌++◌,
}
use debug.Common.Result.{Result, ok, stuck, ◌>>=◌}
use debug.Common.Text.{codes}
use debug.Dwarf.Types.{
  CommonType, StructField, StructInfo, EnumValue, Shape, basic_type, qual_type, array_type,
  void_type, ptr_type, struct_type, slice_type, string_type, interface_type, enum_type, func_type,
  dot_dot_dot_type, typedef_type, map_type, chan_type, TypeHeap, called,
}

-- `if s != "" { return s }`, in front of another text.
abbrev pub or_text : Bytes → Result Bytes → Result Bytes
or_text [] t = t
or_text (c ∷ cs) t = ok (c ∷ cs)

-- `s + t.String()`
abbrev pub after : Bytes → Result Bytes → Result Bytes
after s t = t >>= λ x. ok (s ++ x)

module _ (format_int : ℕ → Bytes) where
  -- What Defn writes of a field, for the text of its type.
  unfoldable pub field_text : StructField → Bytes → Bytes
  field_text f type_text =
      (f.name ++ codes " " ++ type_text)
      ++ (codes "@" ++ format_int f.byte_offset)
      ++ (if ltb 0 f.bit_size && ltb f.bit_size (2 ^ 63)
          then codes " : " ++ format_int f.bit_size ++ codes "@" ++ format_int f.bit_offset
          else [])

  -- The loop of Defn over the fields, where `text` is the method String.
  unfoldable pub fields_text : (Option ℕ → Result Bytes) → Bytes → List StructField → Result Bytes
  unfolding field_text
  fields_text text sep [] = ok []
  fields_text text sep (f ∷ fs) = text f.field_type >>= λ x.
      fields_text text (codes "; ") fs >>= λ rest. ok (sep ++ field_text f x ++ rest)

  unfoldable pub defn : (Option ℕ → Result Bytes) → StructInfo → Result Bytes
  unfolding fields_text
  defn text i =
      let s = i.kind ++ (if length i.struct_name == 0 then [] else codes " " ++ i.struct_name) in
      if i.incomplete
      then ok (s ++ codes " /*incomplete*/")
      else fields_text text [] i.field >>= λ fs. ok (s ++ codes " {" ++ fs ++ codes "}")

  unfoldable pub values_text : Bytes → List EnumValue → Bytes
  values_text sep [] = []
  values_text sep (v ∷ vs) =
      sep ++ v.name ++ codes "=" ++ format_int v.val ++ values_text (codes "; ") vs

  -- The loop of a FuncType over its parameters.
  unfoldable pub params_text : (Option ℕ → Result Bytes) → Bytes → List (Option ℕ) → Result Bytes
  params_text text sep [] = ok []
  params_text text sep (t ∷ ts) =
      text t >>= λ x. params_text text (codes ", ") ts >>= λ rest. ok (sep ++ x ++ rest)

  unfoldable pub func_text : (Option ℕ → Result Bytes) → Option ℕ → List (Option ℕ) → Result Bytes
  unfolding params_text
  func_text text result params = params_text text [] params >>= λ ps. elim result [
    | none ↦ ok (codes "func(" ++ ps ++ codes ")")
    | some t ↦ after (codes "func(" ++ ps ++ codes ") ") (text (some t))
  ]

  -- The method String of what is behind a Type, where `text` is that of the types in it.
  unfoldable pub shape_text : (Option ℕ → Result Bytes) → CommonType → Shape → Result Bytes
  unfolding defn values_text func_text
  shape_text text c (basic_type k s o) = or_text c.name (ok (codes "?"))
  shape_text text c (qual_type q u) = after (q ++ codes " ") (text u)
  shape_text text c (array_type u stride count) =
      after (codes "[" ++ format_int count ++ codes "]") (text u)
  shape_text text c void_type = ok (codes "void")
  shape_text text c (ptr_type u) = after (codes "*") (text u)
  shape_text text c (struct_type i) =
      if length i.struct_name == 0 then defn text i else ok (i.kind ++ codes " " ++ i.struct_name)
  shape_text text c (slice_type i e) = or_text c.name (after (codes "[]") (text e))
  shape_text text c (string_type i) = or_text c.name (ok (codes "string"))
  shape_text text c (interface_type u) = or_text c.name (ok (codes "Interface"))
  shape_text text c (enum_type name vs) = ok (
      codes "enum"
      ++ (if length name == 0 then [] else codes " " ++ name)
      ++ codes " {"
      ++ values_text [] vs
      ++ codes "}")
  shape_text text c (func_type u ps) = func_text text u ps
  shape_text text c dot_dot_dot_type = ok (codes "...")
  shape_text text c (typedef_type u) = ok c.name
  shape_text text c (map_type u k e) =
      or_text c.name (text k >>= λ x. after (codes "map[" ++ x ++ codes "]") (text e))
  shape_text text c (chan_type u e) = or_text c.name (after (codes "chan ") (text e))

  unfoldable pub type_text : ℕ → TypeHeap → Option ℕ → Result Bytes
  unfolding shape_text
  type_text zero h t = stuck
  type_text (suc fuel) h t = called h t >>= λ n. shape_text (type_text fuel h) n.common n.shape
