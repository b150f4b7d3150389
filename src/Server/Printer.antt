-- ===== src/Server/Printer.antt =====
-- server/print.go: values, printed by their types. fmt.Sprintf, the text of an error and the floats of
-- the target are parameters. Fuel is the depth of the calls of printValueAt; it is also that of the
-- method String of a type and of the chains of a map's buckets.
pub mod Sprint
use debug.Common.{
  ltb, ◌==◌, if◌then◌else◌, length, u64, Bytes, ℕ, zero, suc, ◌+◌, ◌/◌, ◌^◌, Bool, true, false, not,
  ◌&&◌, Option, none, some, List, [], ◌∷◌, ◌++◌, String,
}
use debug.Arch
use debug.Server.Peek.Maps.{ptr_target, peek_map_values}
use debug.Common.Result.{Error, errorf, wrapped, Result, ok, err, panic, stuck, ◌>>=◌}
use debug.Common.Effect.{Effect, ◌>=>◌}
use debug.Common.Text.{codes}
use debug.Dwarf.Types.{
  BasicKind, char_type, uchar_type, int_type, uint_type, float_type, complex_type, bool_type,
  addr_type, unspecified_type, StructField, StructInfo, basic_type, qual_type, array_type,
  void_type, ptr_type, struct_type, slice_type, string_type, interface_type, enum_type, func_type,
  dot_dot_dot_type, typedef_type, map_type, chan_type, TypeNode, TypeHeap, node_of, shape_of,
  type_size,
}
use debug.Dwarf.Types.Text.{type_text}
use debug.Dwarf.Line.Paths.{bytes_eq}
use debug.Server.Kernel.{Kernel}
use debug.Server.Breakpoints.{Server}
use debug.Server.Peek.{
  get_field, is_ptr, struct_info, peek_bytes, peek_ptr, peek_uint8, peek_int, peek_uint,
  peek_ptr_struct_field, peek_uint_or_int_struct_field, peek_string,
}
use debug.Server.Printing.{
  Arg, number, signed, flag, bytes_of, type_of, float32, float64, complex64, complex128, Printer,
  was_visited, first_failure, put, is_positive, shown, max_map_values, typedef_target,
  pointed_struct, pointed_string,
}

module _ {W : Type 0} (k : Kernel W) (s : Server) (h : TypeHeap) {F32 F64 : Type 0}
    (from32 : ℕ → F32) (from64 : ℕ → F64) (format_int : ℕ → Bytes)
    (sprintf : String → List (Arg F32 F64) → Bytes) (message : Error → Bytes) where
  -- A step of printing changes the printer, and reads memory.
  abbrev pub Prints : Type 0
  Prints = Effect (Printer × W) (Unit {0})

  abbrev pub Shows : Type 0
  Shows = Option ℕ → ℕ → Prints

  unfoldable pub print : String → List (Arg F32 F64) → Prints
  print format args (p, w) = ((put (sprintf format args) p, w), ok tt)

  -- The method errorf.
  unfoldable pub fail : Error → Prints
  fail e (p, w) = (
    (
      put (codes "<" ++ message e ++ codes ">") (record p { failure = first_failure p.failure e }),
      w,
    ),
    ok tt,
  )

  -- `if v, err := …; err != nil { p.errorf(format, err) } else { … }`
  unfoldable pub reading : {A : Type 0} → String → Effect W A → (A → Prints) → Prints
  unfolding fail
  reading format f g (p, w) =
      let (w', r) = f w in
      elim r [
        | ok a ↦ g a (p, w')
        | err e ↦ fail (wrapped format [] e) (p, w')
        | panic ↦ ((p, w'), panic)
        | stuck ↦ ((p, w'), stuck)
      ]

  -- A test, or a type assertion, that ends a method with an error.
  abbrev pub or_fail : {A : Type 0} → String → Option A → (A → Prints) → Prints
  or_fail text none g = fail (errorf text [])
  or_fail text (some a) g = g a

  -- A value that a slice of bytes of another length has not.
  abbrev pub or_crash : {A : Type 0} → Option A → (A → Prints) → Prints
  or_crash none g st = (st, panic)
  or_crash (some a) g st = g a st

  infixl 5 ◌then_print◌
  abbrev pub ◌then_print◌ : Prints → Prints → Prints
  ◌then_print◌ f g st = f st >=> λ u. g

  unfoldable pub print_bool : ℕ → ℕ → Prints
  unfolding reading print fail
  print_bool size a =
      if size == 1
      then reading "reading bool: %s" (peek_uint8 k s h a)
          (λ b. print "%t" (flag (not (b == 0)) ∷ []))
      else fail (errorf "unrecognized bool size %d" (size ∷ []))

  unfoldable pub print_float : ℕ → ℕ → Prints
  unfolding reading print fail
  print_float size a = reading "reading float: %s" (peek_bytes k s h a size) (λ bs.
      if size == 4
      then or_crash (Arch.float32 from32 s.arch bs) (λ x. print "%g" (float32 x ∷ []))
      else if size == 8
      then or_crash (Arch.float64 from64 s.arch bs) (λ x. print "%g" (float64 x ∷ []))
      else fail (errorf "unrecognized float size %d" (size ∷ [])))

  unfoldable pub print_complex : ℕ → ℕ → Prints
  unfolding reading print fail
  print_complex size a = reading "reading complex: %s" (peek_bytes k s h a size) (λ bs.
      if size == 8
      then or_crash (Arch.complex64 from32 s.arch bs) (λ x. print "%g" (complex64 x ∷ []))
      else if size == 16
      then or_crash (Arch.complex128 from64 s.arch bs) (λ x. print "%g" (complex128 x ∷ []))
      else fail (errorf "unrecognized complex size %d" (size ∷ [])))

  unfoldable pub print_string_at : StructInfo → ℕ → Prints
  unfolding reading print peek_string
  print_string_at i a =
      reading "reading string: %s" (peek_string k s h i a 100) (λ bs. print "%q" (bytes_of bs ∷ []))

  -- sizeof: the size, and whether there is one.
  unfoldable pub size_of : Option ℕ → Result (ℕ × Bool)
  unfolding type_size
  size_of t = type_size (suc (length h)) h t >>= λ size. ok (
      if ltb size (2 ^ 63)
      then (size, true)
      else if is_ptr (shape_of h t)
      then (s.arch.pointer_size, true)
      else (0, false))

  unfoldable pub array_stride : Option ℕ → ℕ → Result (ℕ × Bool)
  unfolding size_of
  array_stride u stride = if is_positive stride then ok (stride / 8, true) else size_of u

  -- The elements from number i on, with `rounds` left.
  unfoldable pub print_elements : Shows → Option ℕ → ℕ → ℕ → ℕ → ℕ → Prints
  unfolding print
  print_elements show u stride zero i a st = (st, ok tt)
  print_elements show u stride (suc rounds) i a st =
      (if i == 0 then (st, ok tt) else print ", " [] st) >=> λ v st1.
      show u a st1 >=> λ v' st2. print_elements show u stride rounds (i + 1) (u64 (a + stride)) st2

  abbrev pub without_size : Bool → Prints
  without_size true st = (st, ok tt)
  without_size false st = fail (errorf "can't determine element size" []) st

  unfoldable pub print_array_at : ℕ → Shows → Option ℕ → Option ℕ → ℕ → ℕ → ℕ → Prints
  unfolding array_stride print_elements print type_text
  print_array_at fuel show t u stride count a st = (st, array_stride u stride) >=> λ x.
      (without_size x.1
        then_print print "%s{" (type_of (type_text format_int fuel h t) ∷ [])
        then_print print_elements show u x.0 (shown count) 0 a
        then_print (if ltb (shown count) count && ltb count (2 ^ 63)
            then print ", ..." []
            else λ st. (st, ok tt))
        then_print print "}" [])

  unfoldable pub print_slice_at : ℕ → Shows → Option ℕ → StructInfo → Option ℕ → ℕ → Prints
  unfolding reading size_of print_elements print type_text
  print_slice_at fuel show t i elem a =
      reading "reading slice: %s" (peek_ptr_struct_field k s h i a (codes "array")) (λ ptr.
        reading "reading slice: %s" (peek_uint_or_int_struct_field k s h i a (codes "len")) (λ len.
          reading "reading slice: %s" (peek_uint_or_int_struct_field k s h i a (codes "cap"))
            (λ cap st. (st, size_of elem) >=> λ x.
              (without_size x.1
                then_print print "%s{" (type_of (type_text format_int fuel h t) ∷ [])
                then_print print_elements show elem x.0 len 0 ptr
                then_print print "}" []))))

  -- The fields of a struct from number i on.
  unfoldable pub print_fields : Shows → ℕ → List StructField → ℕ → Prints
  unfolding print
  print_fields show i [] a st = (st, ok tt)
  print_fields show i (f ∷ fs) a st =
      (if i == 0 then (st, ok tt) else print ", " [] st) >=> λ v st1.
      show f.field_type (u64 (a + f.byte_offset)) st1 >=> λ v' st2.
      print_fields show (i + 1) fs a st2

  unfoldable pub print_struct_at : ℕ → Shows → Option ℕ → StructInfo → ℕ → Prints
  unfolding print_fields print fail bytes_eq type_text
  print_struct_at fuel show t i a st =
      if bytes_eq i.kind (codes "struct")
      then ((st, type_text format_int fuel h t) >=> λ text.
          (print "%s {" (bytes_of text ∷ [])
            then_print print_fields show 0 i.field a
            then_print print "}" []))
      else fail (errorf "can't handle struct type %s" i.kind) st

  -- The type of an interface's tab, of the type t, at an address that is not nil.
  unfoldable pub print_type_of_interface : Option ℕ → ℕ → Prints
  unfolding print fail reading get_field print_string_at
  print_type_of_interface t a =
      if a == 0
      then print "<nil>" []
      else or_fail "bad type" (pointed_struct h t) (λ t3.
        reading "%s" (λ w. (w, get_field t3 (codes "_type")))
          (λ type_field. or_fail "bad type" (pointed_struct h type_field.field_type) (λ t6.
            reading "%s" (λ w. (w, get_field t6 (codes "_string")))
              (λ string_field. or_fail "bad type" (pointed_string h string_field.field_type) (λ i.
                reading "reading interface type: %s"
                  (peek_ptr_struct_field k s h t3 a (codes "_type"))
                  (λ type_addr.
                    reading "reading interface type: %s"
                      (peek_ptr_struct_field k s h t6 type_addr (codes "_string"))
                      (λ string_addr. print_string_at i string_addr)))))))

  unfoldable pub print_interface_at : Option ℕ → ℕ → Prints
  unfolding print fail reading print_type_of_interface
  print_interface_at u a =
      or_fail "bad interface type: not a typedef" (typedef_target (shape_of h u)) (λ v.
        or_fail "bad interface type: not a typedef of a struct" (struct_info (shape_of h v)) (λ st.
          print "(" []
          then_print reading "reading interface type: %s"
              (peek_ptr_struct_field k s h st a (codes "tab"))
              (λ tab.
                reading "%s" (λ w. (w, get_field st (codes "tab")))
                  (λ f. print_type_of_interface f.field_type tab))
          then_print print ", " []
          then_print reading "reading interface value: %s"
              (peek_ptr_struct_field k s h st a (codes "data"))
              (λ value. if value == 0 then print "<nil>" [] else print "%#x" (number value ∷ []))
          then_print print ")" []))

  -- The parts of a channel behind its type.
  unfoldable pub print_channel_parts : Option ℕ → ℕ → Prints
  unfolding print reading fail
  print_channel_parts u a = reading "reading channel: %s" (peek_ptr k s h a) (λ c.
      if c == 0
      then print "<nil>" []
      else (print "%#x" (number c ∷ [])
          then_print or_fail "bad channel type: not a pointer" (ptr_target (shape_of h u)) (λ v.
            or_fail "bad channel type: not a pointer to a struct" (struct_info (shape_of h v))
              (λ st.
                reading "reading channel: %s"
                  (peek_uint_or_int_struct_field k s h st c (codes "qcount"))
                  (λ len.
                    reading "reading channel: %s"
                      (peek_uint_or_int_struct_field k s h st c (codes "dataqsiz"))
                      (λ cap.
                        if len == 0 && cap == 0
                        then (λ x. (x, ok tt))
                        else print " [%d/%d]" (number len ∷ number cap ∷ [])))))))

  unfoldable pub print_channel_at : ℕ → Option ℕ → Option ℕ → ℕ → Prints
  unfolding print print_channel_parts type_text
  print_channel_at fuel u elem a =
      print "(chan %s " (type_of (type_text format_int fuel h elem) ∷ [])
      then_print print_channel_parts u a
      then_print print ")" []

  -- The function fn of printMapAt, with the count of the pairs so far.
  unfoldable pub print_pair : Shows → ℕ → ℕ → Option ℕ → Option ℕ → Effect ((Printer × ℕ) × W) Bool
  unfolding print
  print_pair show ka va kt vt ((p, count), w) =
      if ltb max_map_values (count + 1)
      then (((p, count + 1), w), ok false)
      else let (st, r) =
          ((if count == 0 then ((p, w), ok tt) else print " " [] (p, w)) >=> λ u.
          show kt ka then_print print ":" [] then_print show vt va) in
        (((st.0, count + 1), st.1), r) >=> λ u st'. (st', ok true)

  unfoldable pub print_map_at : ℕ → Shows → Option ℕ → ℕ → Prints
  unfolding print fail print_pair peek_map_values
  print_map_at fuel show u a st = print "map[" [] st >=> λ v st1.
      let (st2, r) = peek_map_values k s h fuel u a (print_pair show) ((st1.0, 0), st1.1) in
      let st3 : Printer × W = (st2.0.0, st2.1) in
      let count = st2.0.1 in
      let rest : Prints =
        (if ltb max_map_values count then print " ..." [] else λ x. (x, ok tt))
        then_print print "]" [] in
      elim r [
        | ok x ↦ rest st3
        | err e ↦ (fail (wrapped "reading map values: %s" [] e) then_print rest) st3
        | panic ↦ (st3, panic)
        | stuck ↦ (st3, stuck)
      ]

  -- A basic type, of `size` bytes.
  unfoldable pub print_basic : ℕ → Option ℕ → BasicKind → ℕ → ℕ → Prints
  unfolding print_bool print_float print_complex reading print fail
  print_basic fuel t bool_type size a = print_bool size a
  print_basic fuel t int_type size a =
      reading "reading integer: %s" (peek_int k s h a size) (λ x. print "%d" (signed x ∷ []))
  print_basic fuel t uint_type size a =
      reading "reading unsigned integer: %s" (peek_uint k s h a size)
        (λ x. print "%d" (number x ∷ []))
  print_basic fuel t float_type size a = print_float size a
  print_basic fuel t complex_type size a = print_complex size a
  print_basic fuel t char_type size a = fail (errorf "unimplemented type %v" [])
  print_basic fuel t uchar_type size a = fail (errorf "unimplemented type %v" [])
  print_basic fuel t addr_type size a = fail (errorf "unimplemented type %v" [])
  print_basic fuel t unspecified_type size a = fail (errorf "unimplemented type %v" [])

  -- The switch of printValueAt, where `show` prints the parts.
  unfoldable pub print_shape : ℕ → Shows → Option ℕ → TypeNode → ℕ → Prints
  unfolding print_basic print_struct_at print_array_at print_interface_at print_map_at
      print_channel_at print_slice_at print_string_at print fail
  print_shape fuel show t n a = elim n.shape [
    | basic_type b x y ↦ print_basic fuel t b n.common.byte_size a
    | ptr_type u ↦
        reading "reading pointer: %s" (peek_ptr k s h a) (λ x. print "%#x" (number x ∷ []))
    | struct_type i ↦ print_struct_at fuel show t i a
    | array_type u stride count ↦ print_array_at fuel show t u stride count a
    | interface_type u ↦ print_interface_at u a
    | map_type u x y ↦ print_map_at fuel show u a
    | chan_type u elem ↦ print_channel_at fuel u elem a
    | slice_type i elem ↦ print_slice_at fuel show t i elem a
    | string_type i ↦ print_string_at i a
    | typedef_type u ↦ show u a
    | func_type u ps ↦ print "%v @%#x " (type_of (type_text format_int fuel h t) ∷ number a ∷ [])
    | void_type ↦ print "void" []
    | qual_type q u ↦ fail (errorf "unimplemented type %v" [])
    | enum_type x vs ↦ fail (errorf "unimplemented type %v" [])
    | dot_dot_dot_type ↦ fail (errorf "unimplemented type %v" [])
  ]

  unfoldable pub print_value_at : ℕ → Shows
  unfolding print_shape print fail
  print_value_at zero t a st = (st, stuck)
  print_value_at (suc fuel) t a (p, w) =
      let p' = if a == 0 then p else record p { visited = (t, a) ∷ p.visited } in
      let again : (Printer × W) × Result (Unit {0}) =
        print "(%v %#x)" (type_of (type_text format_int fuel h t) ∷ number a ∷ []) (p, w) in
      let first : (Printer × W) × Result (Unit {0}) = elim (node_of h t) [
        | none ↦ fail (errorf "unimplemented type %v" []) (p', w)
        | some n ↦ print_shape fuel (print_value_at fuel) t n a (p', w)
      ] in
      if not (a == 0) && was_visited (t, a) p.visited then again else first
