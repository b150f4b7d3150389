-- ===== src/Server/Value.antt =====
-- server/value.go: a value of the target, by its type. The floats of the target are a parameter, by
-- their bit patterns. Fuel is the depth of typedefs.
use debug.Common.{
  ◌==◌, if◌then◌else◌, u64, Bytes, ℕ, zero, suc, ◌+◌, ◌*◌, ◌%◌, ◌^◌, min, Bool, true, false, ◌||◌,
  Option, none, some, List, [], ◌∷◌,
}
use debug.Arch
use debug.Server.Peek.{
  in_error_of, struct_info, Slice, peek_bytes, peek_ptr, peek_ptr_struct_field,
  peek_uint_or_int_struct_field, peek_slice,
}
use debug.Common.Result.{errorf, Result, ok, err, panic, stuck, ◌>>=◌}
use debug.Common.Effect.{Effect, ◌>=>◌}
use debug.Common.Text.{codes}
use debug.Arch.{uintptr, int_n, uint_n}
use debug.Dwarf.Types.{
  BasicKind, char_type, uchar_type, int_type, uint_type, float_type, complex_type, bool_type,
  addr_type, unspecified_type, StructField, StructInfo, basic_type, qual_type, array_type,
  void_type, ptr_type, struct_type, slice_type, string_type, interface_type, enum_type, func_type,
  dot_dot_dot_type, typedef_type, map_type, chan_type, TypeHeap, node_of, shape_of, common_of,
}
use debug.Server.Kernel.{Kernel, ptrace_peek}
use debug.Server.Breakpoints.{Server}
use debug.Server.Peek.Maps.{ptr_target, or_bad, peek_map_length}
use debug.Server.Frames.{LocalVar}

-- The Values of program.go; an Array is a Slice without its capacity.
pub data RemoteValue (F32 F64 : Type 0) : Type 0 where
  signed unsigned : ℕ → ℕ → RemoteValue F32 F64
  boolean : Bool → RemoteValue F32 F64
  float32 : F32 → RemoteValue F32 F64
  float64 : F64 → RemoteValue F32 F64
  complex64 : F32 × F32 → RemoteValue F32 F64
  complex128 : F64 × F64 → RemoteValue F32 F64
  pointer : ℕ → ℕ → RemoteValue F32 F64
  slice : Slice → RemoteValue F32 F64
  array : ℕ → ℕ → ℕ → ℕ → RemoteValue F32 F64
  struct : List LocalVar → RemoteValue F32 F64
  map_value : ℕ → ℕ → ℕ → RemoteValue F32 F64
  text : ℕ → Bytes → RemoteValue F32 F64
  channel : ℕ → ℕ → ℕ → ℕ → ℕ → ℕ → ℕ → RemoteValue F32 F64
  func : ℕ → RemoteValue F32 F64
  interface : RemoteValue F32 F64

-- A switch on a size in bytes of 1, 2, 4 and 8.
abbrev pub is_word_size : ℕ → Bool
is_word_size n = n == 1 || (n == 2 || (n == 4 || n == 8))

abbrev pub any_set : Bytes → Bool
any_set [] = false
any_set (b ∷ bs) = if b == 0 then any_set bs else true

-- The fields of a struct at an address. A field of a nil type panics.
unfoldable pub struct_fields : TypeHeap → ℕ → List StructField → Result (List LocalVar)
struct_fields h addr [] = ok []
struct_fields h addr (f ∷ fs) = common_of h f.field_type >>= λ c.
    struct_fields h addr fs >>= λ rest.
    ok (record { name = f.name; type_id = c.offset; address = u64 (addr + f.byte_offset) } ∷ rest)

-- maxStringSize
abbrev pub max_string_size : ℕ
max_string_size = 256

-- A result that a nil slice of bytes of the right size cannot have.
abbrev pub or_panic {ℓ κ} : {S : Type ℓ} {A : Type κ} → S → Option A → S × Result A
or_panic s none = (s, panic)
or_panic s (some a) = (s, ok a)

module _ {W : Type 0} (k : Kernel W) (s : Server) (h : TypeHeap) {F32 F64 : Type 0}
    (from32 : ℕ → F32) (from64 : ℕ → F64) where
  -- The function readBasic, at the address.
  unfoldable pub read_basic : ℕ → ℕ → Effect W Bytes
  unfolding ptrace_peek
  read_basic addr n w =
      if is_word_size n || n == 16
      then ptrace_peek k s.stopped_pid addr n w
      else (w, err (errorf "invalid size: %d" (n ∷ [])))

  -- The case of a char or an int, of n bytes: the low ones of the int64.
  unfoldable pub int_value : ℕ → ℕ → Effect W (RemoteValue F32 F64)
  unfolding read_basic
  int_value n addr w = in_error_of "reading integer: %s" [] (read_basic addr n w) >=> λ bs w1.
      if is_word_size n
      then (w1, ok (signed n (Arch.int_n s.arch bs % 2 ^ (8 * n))))
      else (w1, err (errorf "invalid integer size: %d" (n ∷ [])))

  unfoldable pub uint_value : ℕ → ℕ → Effect W (RemoteValue F32 F64)
  unfolding read_basic
  uint_value n addr w =
      in_error_of "reading unsigned integer: %s" [] (read_basic addr n w) >=> λ bs w1.
      if is_word_size n
      then (w1, ok (unsigned n (Arch.uint_n s.arch bs % 2 ^ (8 * n))))
      else (w1, err (errorf "invalid unsigned integer size: %d" (n ∷ [])))

  unfoldable pub bool_value_at : ℕ → ℕ → Effect W (RemoteValue F32 F64)
  unfolding read_basic
  bool_value_at n addr w = in_error_of "reading boolean: %s" [] (read_basic addr n w) >=> λ bs w1.
      (w1, ok (boolean (any_set bs)))

  unfoldable pub float_value : ℕ → ℕ → Effect W (RemoteValue F32 F64)
  unfolding read_basic
  float_value n addr w = in_error_of "reading float: %s" [] (read_basic addr n w) >=> λ bs w1.
      if n == 4
      then (or_panic w1 (Arch.float32 from32 s.arch bs) >=> λ x w2. (w2, ok (float32 x)))
      else if n == 8
      then (or_panic w1 (Arch.float64 from64 s.arch bs) >=> λ x w2. (w2, ok (float64 x)))
      else (w1, err (errorf "invalid float size: %d" (n ∷ [])))

  unfoldable pub complex_value : ℕ → ℕ → Effect W (RemoteValue F32 F64)
  unfolding read_basic
  complex_value n addr w = in_error_of "reading complex: %s" [] (read_basic addr n w) >=> λ bs w1.
      if n == 8
      then (or_panic w1 (Arch.complex64 from32 s.arch bs) >=> λ x w2. (w2, ok (complex64 x)))
      else if n == 16
      then (or_panic w1 (Arch.complex128 from64 s.arch bs) >=> λ x w2. (w2, ok (complex128 x)))
      else (w1, err (errorf "invalid complex size: %d" (n ∷ [])))

  unfoldable pub pointer_value : Option ℕ → ℕ → ℕ → Effect W (RemoteValue F32 F64)
  unfolding read_basic
  pointer_value u n addr w =
      if n == s.arch.pointer_size
      then (in_error_of "reading pointer: %s" [] (read_basic addr n w) >=> λ bs w1.
          (w1, common_of h u) >=> λ c w2.
          or_panic w2 (Arch.uintptr s.arch bs) >=> λ x w3. (w3, ok (pointer c.offset x)))
      else (w, err (errorf "invalid pointer size: %d" (n ∷ [])))

  unfoldable pub array_value : Option ℕ → ℕ → ℕ → ℕ → Effect W (RemoteValue F32 F64)
  array_value u stride count addr w =
      if stride % 8 == 0
      then ((w, common_of h u) >=> λ c w1. (w1, ok (array c.offset addr count stride)))
      else (w, err (errorf "array is not byte-aligned" []))

  unfoldable pub string_value_at : StructInfo → ℕ → Effect W (RemoteValue F32 F64)
  unfolding peek_ptr_struct_field peek_uint_or_int_struct_field peek_bytes
  string_value_at i addr w =
      in_error_of "reading string location: %s" []
        (peek_ptr_struct_field k s h i addr (codes "str") w)
      >=> λ ptr w1.
          in_error_of "reading string length: %s" []
            (peek_uint_or_int_struct_field k s h i addr (codes "len") w1)
          >=> λ len w2.
              in_error_of "reading string contents: %s" []
                (peek_bytes k s h ptr (min len max_string_size) w2)
              >=> λ bs w3. (w3, ok (text len bs))

  -- A channel whose struct is at `a`, and not nil.
  unfoldable pub channel_at : StructInfo → Option ℕ → ℕ → Effect W (RemoteValue F32 F64)
  unfolding peek_ptr_struct_field peek_uint_or_int_struct_field
  channel_at st elem a w =
      in_error_of "reading channel buffer location: %s" []
        (peek_ptr_struct_field k s h st a (codes "buf") w)
      >=> λ buf w1.
          in_error_of "reading channel length: %s" []
            (peek_uint_or_int_struct_field k s h st a (codes "qcount") w1)
          >=> λ len w2.
              in_error_of "reading channel capacity: %s" []
                (peek_uint_or_int_struct_field k s h st a (codes "dataqsiz") w2)
              >=> λ cap w3.
                  in_error_of "reading channel buffer index: %s" []
                    (peek_uint_or_int_struct_field k s h st a (codes "recvx") w3)
                  >=> λ recvx w4. (w4, common_of h elem) >=> λ c w5.
                      (w5, ok (channel c.offset a buf len cap c.byte_size recvx))

  unfoldable pub channel_value : Option ℕ → Option ℕ → ℕ → Effect W (RemoteValue F32 F64)
  unfolding peek_ptr channel_at
  channel_value u elem addr w =
      (w, or_bad "reading channel: type is not a pointer" (ptr_target (shape_of h u))) >=> λ p w1.
      (w1, or_bad "reading channel: type is not a pointer to struct" (struct_info (shape_of h p)))
      >=> λ st w2. in_error_of "reading channel pointer: %s" [] (peek_ptr k s h addr w2) >=> λ a w3.
          if a == 0
          then ((w3, common_of h elem) >=> λ c w4.
              (w4, ok (channel c.offset 0 0 0 0 c.byte_size 0)))
          else channel_at st elem a w3

  -- A basic type, of n bytes.
  unfoldable pub basic_value : BasicKind → ℕ → ℕ → Effect W (RemoteValue F32 F64)
  unfolding int_value uint_value bool_value_at float_value complex_value
  basic_value char_type n addr w = int_value n addr w
  basic_value int_type n addr w = int_value n addr w
  basic_value uchar_type n addr w = uint_value n addr w
  basic_value uint_type n addr w = uint_value n addr w
  basic_value addr_type n addr w = uint_value n addr w
  basic_value bool_type n addr w = bool_value_at n addr w
  basic_value float_type n addr w = float_value n addr w
  basic_value complex_type n addr w = complex_value n addr w
  basic_value unspecified_type n addr w = (w, err (errorf "Unsupported type %T" []))

  unfoldable pub value : ℕ → Option ℕ → ℕ → Effect W (RemoteValue F32 F64)
  unfolding basic_value pointer_value array_value string_value_at channel_value struct_fields
  value zero t addr w = (w, stuck)
  value (suc fuel) t addr w =
      let unsupported : W × Result (RemoteValue F32 F64) =
        (w, err (errorf "Unsupported type %T" [])) in
      elim (node_of h t) [
        | none ↦ unsupported
        | some n ↦ elim n.shape [
          | basic_type b x y ↦ basic_value b n.common.byte_size addr w
          | ptr_type u ↦ pointer_value u n.common.byte_size addr w
          | slice_type i elem ↦ peek_slice k s h i elem addr w >=> λ x w1. (w1, ok (slice x))
          | array_type u stride count ↦ array_value u stride count addr w
          | struct_type i ↦ (w, struct_fields h addr i.field) >=> λ fs w1. (w1, ok (struct fs))
          | typedef_type u ↦ value fuel u addr w
          | map_type u x y ↦ peek_map_length k s h u addr w >=> λ len w1.
              (w1, ok (map_value n.common.offset addr len))
          | string_type i ↦ string_value_at i addr w
          | chan_type u elem ↦ channel_value u elem addr w
          | func_type u ps ↦ in_error_of "reading func: %s" [] (peek_ptr k s h addr w) >=> λ a w1.
              (w1, ok (func a))
          | interface_type u ↦ (w, ok interface)
          | qual_type q u ↦ unsupported
          | void_type ↦ unsupported
          | enum_type x vs ↦ unsupported
          | dot_dot_dot_type ↦ unsupported
        ]
      ]
