-- ===== src/Server/Peek.antt =====
-- server/peek.go: values of various types, read from the target's memory. An int64 is its bit
-- pattern; the types that a read goes by stand in a heap that no read changes.
pub mod Fields
pub mod Fixtures
pub mod Maps
mod Runs
pub mod Walk
use debug.Common.{
  ltb, ◌==◌, if◌then◌else◌, u64, Bytes, ℕ, ◌+◌, ◌*◌, ◌%◌, ◌^◌, Bool, true, false, Option, none,
  some, List, [], ◌∷◌, ◌++◌, String,
}
use debug.Arch
use debug.Common.Result.{Error, errorf, wrapped, Result, ok, err, panic, stuck, ◌>>=◌}
use debug.Common.Effect.{Effect, ◌>=>◌}
use debug.Common.Text.{codes}
use debug.Arch.{uintptr, int_n, uint_n}
use debug.Dwarf.Types.{
  int_type, uint_type, StructField, StructInfo, Shape, basic_type, ptr_type, struct_type,
  string_type, TypeHeap, node_of, shape_of, common_of,
}
use debug.Dwarf.Line.Paths.{bytes_eq}
use debug.Server.Kernel.{Kernel, ptrace_peek}
use debug.Server.Breakpoints.{Server}
use debug.Server.Typedefs.{follow_typedefs}

-- The error of a call, in another one.
abbrev pub in_error {ℓ} : {A : Type ℓ} → String → List ℕ → Result A → Result A
in_error format args (ok a) = ok a
in_error format args (err e) = err (wrapped format args e)
in_error format args panic = panic
in_error format args stuck = stuck

abbrev pub in_error_of {ℓ κ} :
    {S : Type ℓ} {A : Type κ} → String → List ℕ → S × Result A → S × Result A
in_error_of format args (s, r) = (s, in_error format args r)

-- The loop of getField, with the field found so far.
unfoldable pub field_loop :
    Bytes → Option StructField → List StructField → Result (Option StructField)
unfolding bytes_eq
field_loop name found [] = ok found
field_loop name found (f ∷ fs) =
    let rest = field_loop name found fs in
    let first = field_loop name (some f) fs in
    let again : Result (Option StructField) = elim found [
      | none ↦ first
      | some g ↦ err (errorf "struct definition repeats field %s" name)
    ] in
    if bytes_eq f.name name then again else rest

-- server/print.go: getField.
unfoldable pub get_field : StructInfo → Bytes → Result StructField
unfolding field_loop
get_field t name = field_loop name none t.field >>= λ r. elim r [
  | none ↦ err (errorf "struct field %s missing" name)
  | some f ↦ ok f
]

-- A field of a struct, for a read of it.
abbrev pub reading_field : StructInfo → Bytes → Result StructField
reading_field t name = in_error "reading field %s: %s" name (get_field t name)

-- The types that a field is tested for.
abbrev pub is_ptr : Option Shape → Bool
is_ptr (some (ptr_type u)) = true
is_ptr _ = false

abbrev pub is_uint : Option Shape → Bool
is_uint (some (basic_type uint_type x y)) = true
is_uint _ = false

abbrev pub is_int : Option Shape → Bool
is_int (some (basic_type int_type x y)) = true
is_int _ = false

abbrev pub string_info : Option Shape → Option StructInfo
string_info (some (string_type i)) = some i
string_info _ = none

abbrev pub struct_info : Option Shape → Option StructInfo
struct_info (some (struct_type i)) = some i
struct_info _ = none

-- A Slice, with its Array.
pub record Slice : Type 0 where
  pub element_type_id : ℕ
  pub address : ℕ
  pub length : ℕ
  pub stride_bits : ℕ
  pub capacity : ℕ

module _ {W : Type 0} (k : Kernel W) (s : Server) (h : TypeHeap) where
  -- `make([]byte, n)`, where a negative length panics, and peekBytes.
  unfoldable pub peek_bytes : ℕ → ℕ → Effect W Bytes
  peek_bytes addr n w = if ltb n (2 ^ 63) then ptrace_peek k s.stopped_pid addr n w else (w, panic)

  unfoldable pub peek_ptr : ℕ → Effect W ℕ
  unfolding peek_bytes
  peek_ptr addr w = peek_bytes addr s.arch.pointer_size w >=> λ bs w1.
      elim (Arch.uintptr s.arch bs) [ none ↦ (w1, panic) | some x ↦ (w1, ok x) ]

  unfoldable pub peek_uint8 : ℕ → Effect W ℕ
  unfolding peek_bytes
  peek_uint8 addr w = peek_bytes addr 1 w >=> λ bs w1. (w1, ok (Arch.uint_n s.arch bs % 2 ^ 8))

  unfoldable pub peek_int : ℕ → ℕ → Effect W ℕ
  unfolding peek_bytes
  peek_int addr n w = peek_bytes addr n w >=> λ bs w1. (w1, ok (Arch.int_n s.arch bs))

  unfoldable pub peek_uint : ℕ → ℕ → Effect W ℕ
  unfolding peek_bytes
  peek_uint addr n w = peek_bytes addr n w >=> λ bs w1. (w1, ok (Arch.uint_n s.arch bs))

  -- `addr + uint64(f.ByteOffset)`
  abbrev pub field_addr : ℕ → StructField → ℕ
  field_addr addr f = u64 (addr + f.byte_offset)

  unfoldable pub peek_ptr_struct_field : StructInfo → ℕ → Bytes → Effect W ℕ
  unfolding get_field peek_ptr
  peek_ptr_struct_field t addr name w = (w, reading_field t name) >=> λ f w1.
      if is_ptr (shape_of h f.field_type)
      then peek_ptr (field_addr addr f) w1
      else (w1, err (errorf "field %s is not a pointer" name))

  -- `if i < 0`, of an int64.
  abbrev pub not_negative : Bytes → ℕ → Effect W ℕ
  not_negative name i w =
      if ltb i (2 ^ 63) then (w, ok i) else (w, err (errorf "field %s is negative" name))

  unfoldable pub peek_uint_or_int_struct_field : StructInfo → ℕ → Bytes → Effect W ℕ
  unfolding get_field peek_int peek_uint
  peek_uint_or_int_struct_field t addr name w = (w, reading_field t name) >=> λ f w1.
      elim (node_of h f.field_type) [
        | none ↦ (w1, err (errorf "field %s is not an integer" name))
        | some n ↦
            if is_uint (some n.shape)
            then peek_uint (field_addr addr f) n.common.byte_size w1
            else if is_int (some n.shape)
            then (peek_int (field_addr addr f) n.common.byte_size w1 >=> not_negative name)
            else (w1, err (errorf "field %s is not an integer" name))
      ]

  unfoldable pub peek_uint_struct_field : StructInfo → ℕ → Bytes → Effect W ℕ
  unfolding get_field peek_uint
  peek_uint_struct_field t addr name w = (w, reading_field t name) >=> λ f w1.
      elim (node_of h f.field_type) [
        | none ↦ (w1, err (errorf "field %s is not an unsigned integer" name))
        | some n ↦
            if is_uint (some n.shape)
            then peek_uint (field_addr addr f) n.common.byte_size w1
            else (w1, err (errorf "field %s is not an unsigned integer" name))
      ]

  unfoldable pub peek_int_struct_field : StructInfo → ℕ → Bytes → Effect W ℕ
  unfolding get_field peek_int
  peek_int_struct_field t addr name w = (w, reading_field t name) >=> λ f w1.
      elim (node_of h f.field_type) [
        | none ↦ (w1, err (errorf "field %s is not a signed integer" name))
        | some n ↦
            if is_int (some n.shape)
            then peek_int (field_addr addr f) n.common.byte_size w1
            else (w1, err (errorf "field %s is not a signed integer" name))
      ]

  -- `t.ElemType.Common()` panics at a nil type.
  unfoldable pub peek_slice : StructInfo → Option ℕ → ℕ → Effect W Slice
  unfolding peek_ptr_struct_field peek_uint_or_int_struct_field
  peek_slice t elem addr w =
      in_error_of "reading slice location: %s" [] (peek_ptr_struct_field t addr (codes "array") w)
      >=> λ ptr w1.
          in_error_of "reading slice length: %s" []
            (peek_uint_or_int_struct_field t addr (codes "len") w1)
          >=> λ len w2.
              in_error_of "reading slice capacity: %s" []
                (peek_uint_or_int_struct_field t addr (codes "cap") w2)
              >=> λ cap w3.
                  if ltb cap len
                  then (
                    w3,
                    err (errorf "slice's capacity %d is less than its length %d" (cap ∷ len ∷ [])),
                  )
                  else ((w3, common_of h elem) >=> λ c w4. (
                    w4,
                    ok (record {
                      element_type_id = c.offset;
                      address = ptr;
                      length = len;
                      stride_bits = u64 (c.byte_size * 8);
                      capacity = cap;
                    }),
                  ))

  -- A string that is longer than the limit ends in three dots.
  unfoldable pub peek_string : StructInfo → ℕ → ℕ → Effect W Bytes
  unfolding peek_ptr_struct_field peek_uint_or_int_struct_field peek_bytes
  peek_string t a limit w = peek_ptr_struct_field t a (codes "str") w >=> λ ptr w1.
      peek_uint_or_int_struct_field t a (codes "len") w1 >=> λ len w2.
      if ltb limit len
      then (peek_bytes ptr limit w2 >=> λ bs w3. (w3, ok (bs ++ codes "...")))
      else peek_bytes ptr len w2

  unfoldable pub peek_string_struct_field : StructInfo → ℕ → Bytes → ℕ → Effect W Bytes
  unfolding get_field follow_typedefs peek_string
  peek_string_struct_field t addr name limit w = (w, reading_field t name) >=> λ f w1.
      (w1, follow_typedefs h f.field_type) >=> λ u w2. elim (string_info (shape_of h u)) [
        | none ↦ (w2, err (errorf "field %s is not a string" name))
        | some i ↦ peek_string i (field_addr addr f) limit w2
      ]

  -- The bytes in front of a NUL; where there is none, all of them and three dots.
  unfoldable pub up_to_nul : Bytes → Bytes
  up_to_nul [] = codes "..."
  up_to_nul (c ∷ cs) = if c == 0 then [] else c ∷ up_to_nul cs

  -- peekCString, where `left` is what a read that fails leaves in the buffer.
  unfoldable pub peek_c_string : (Error → Bytes) → ℕ → ℕ → Effect W Bytes
  unfolding up_to_nul
  peek_c_string left a limit w =
      let (w1, r) = k.ptrace_peek_text s.stopped_pid a limit w in
      let text : W × Result Bytes = elim r [
        | ok p ↦ (w1, ok (up_to_nul p.1))
        | err e ↦ (w1, ok (up_to_nul (left e)))
        | panic ↦ (w1, panic)
        | stuck ↦ (w1, stuck)
      ] in
      if ltb limit (2 ^ 63) then text else (w, panic)
