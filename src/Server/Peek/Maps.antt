-- ===== src/Server/Peek/Maps.antt =====
-- server/peek.go: the runtime's maps. An int64 is its bit pattern.
use debug.Common.{
  ltb, ◌==◌, if◌then◌else◌, length, u64, ℕ, zero, suc, ◌+◌, ◌-◌, ◌*◌, ◌^◌, Bool, true, false,
  Option, none, some, [], String,
}
use debug.Server.Peek.{
  in_error, in_error_of, get_field, struct_info, peek_ptr, peek_uint8, peek_ptr_struct_field,
  peek_uint_or_int_struct_field, peek_uint_struct_field,
}
use debug.Common.Result.{errorf, Result, ok, err, stuck, ◌>>=◌}
use debug.Common.Effect.{Effect, ◌>=>◌}
use debug.Common.Text.{codes}
use debug.Common.Int.{signed64, word64, quot}
use debug.Dwarf.Types.{StructInfo, Shape, array_type, ptr_type, TypeHeap, shape_of, type_size}
use debug.Server.Kernel.{Kernel}
use debug.Server.Breakpoints.{Server}

-- `1 << b` of a uint64.
abbrev pub one_shl : ℕ → ℕ
one_shl b = if ltb b 64 then 2 ^ b else 0

-- `uint64(x / 8)` of an int64.
abbrev pub eighth : ℕ → ℕ
eighth x = word64 (quot (signed64 x) 8)

-- The element type and the stride of an array type.
abbrev pub array_info : Option Shape → Option (Option ℕ × ℕ)
array_info (some (array_type u stride count)) = some (u, stride)
array_info _ = none

abbrev pub ptr_target : Option Shape → Option (Option ℕ)
ptr_target (some (ptr_type u)) = some u
ptr_target _ = none

-- `v, ok := …; if !ok { return errors.New(…) }`
abbrev pub or_bad {ℓ} : {A : Type ℓ} → String → Option A → Result A
or_bad text none = err (errorf text [])
or_bad text (some a) = ok a

-- What peekMapValues finds out about a map before it goes through the buckets.
pub record Layout : Type 0 where
  pub buckets : ℕ × ℕ
  pub oldbuckets : ℕ × ℕ
  pub bucket_size : ℕ
  pub bucket_cnt : ℕ
  pub tophash_offset : ℕ
  pub key_type : Option ℕ
  pub keys_stride : ℕ
  pub keys_offset : ℕ
  pub value_type : Option ℕ
  pub values_stride : ℕ
  pub values_offset : ℕ
  pub overflow_offset : ℕ

abbrev pub reading_map {ℓ} : {A : Type ℓ} → Result A → Result A
reading_map r = in_error "reading map: %s" [] r

-- The part of it that reads no memory: the layout of a bucket, where `b`, `buckets` and `oldbuckets`
-- are the fields of the map.
unfoldable pub bucket_layout : TypeHeap → StructInfo → ℕ → ℕ → ℕ → Result Layout
unfolding get_field type_size
bucket_layout h st b buckets oldbuckets = reading_map (get_field st (codes "buckets")) >>= λ bf.
    or_bad "bad map bucket type: not a pointer" (ptr_target (shape_of h bf.field_type)) >>= λ bp.
    or_bad "bad map bucket type: not a pointer to a struct" (struct_info (shape_of h bp)) >>= λ bt.
    type_size (suc (length h)) h bp >>= λ size.
    reading_map (get_field bt (codes "tophash")) >>= λ tf.
    type_size (suc (length h)) h tf.field_type >>= λ cnt.
    reading_map (get_field bt (codes "keys")) >>= λ kf.
    or_bad "bad map bucket type: \"keys\" is not an array" (array_info (shape_of h kf.field_type))
    >>= λ kt. reading_map (get_field bt (codes "values")) >>= λ vf.
        or_bad "bad map bucket type: \"values\" is not an array"
          (array_info (shape_of h vf.field_type))
        >>= λ vt. reading_map (get_field bt (codes "overflow")) >>= λ of. ok (record {
          buckets = (buckets, one_shl b);
          oldbuckets = (oldbuckets, one_shl (u64 (b + 2 ^ 64 - 1)));
          bucket_size = size;
          bucket_cnt = cnt;
          tophash_offset = tf.byte_offset;
          key_type = kt.0;
          keys_stride = eighth kt.1;
          keys_offset = kf.byte_offset;
          value_type = vt.0;
          values_stride = eighth vt.1;
          values_offset = vf.byte_offset;
          overflow_offset = of.byte_offset;
        })

module _ {W : Type 0} (k : Kernel W) (s : Server) (h : TypeHeap) where
  -- The map type's own type is `t`.
  unfoldable pub peek_map_location_and_type : Option ℕ → ℕ → Effect W (ℕ × StructInfo)
  unfolding peek_ptr
  peek_map_location_and_type t a w =
      (w, or_bad "bad map type: not a pointer" (ptr_target (shape_of h t))) >=> λ p w1.
      (w1, or_bad "bad map type: not a pointer to a struct" (struct_info (shape_of h p)))
      >=> λ st w2. in_error_of "reading map pointer: %s" [] (peek_ptr k s h a w2) >=> λ x w3.
          (w3, ok (x, st))

  -- The layout, or none where the map is nil.
  unfoldable pub map_layout : Option ℕ → ℕ → Effect W (Option Layout)
  unfolding peek_map_location_and_type peek_uint_struct_field peek_ptr_struct_field bucket_layout
  map_layout t a w = peek_map_location_and_type t a w >=> λ m w1.
      if m.0 == 0
      then (w1, ok none)
      else (in_error_of "reading map: %s" [] (peek_uint_struct_field k s h m.1 m.0 (codes "B") w1)
          >=> λ b w2.
              in_error_of "reading map: %s" []
                (peek_ptr_struct_field k s h m.1 m.0 (codes "buckets") w2)
              >=> λ buckets w3.
                  in_error_of "reading map: %s" []
                    (peek_ptr_struct_field k s h m.1 m.0 (codes "oldbuckets") w3)
                  >=> λ old w4.
                      (w4, bucket_layout h m.1 b buckets old) >=> λ l w5. (w5, ok (some l)))

  unfoldable pub peek_map_length : Option ℕ → ℕ → Effect W ℕ
  unfolding peek_map_location_and_type peek_uint_or_int_struct_field
  peek_map_length t a w = peek_map_location_and_type t a w >=> λ m w1.
      if m.0 == 0
      then (w1, ok 0)
      else in_error_of "reading map: %s" []
          (peek_uint_or_int_struct_field k s h m.1 m.0 (codes "count") w1)

  -- The walk, where `visit` is the function fn, which changes a state of its own; it says whether to
  -- go on, and so does each loop.
  module _ {A : Type 0} (visit : ℕ → ℕ → Option ℕ → Option ℕ → Effect (A × W) Bool)
      (l : Layout) where
    -- A read of memory, which leaves the state of `visit` alone.
    abbrev pub on_memory {ℓ} : {B : Type ℓ} → Effect W B → Effect (A × W) B
    on_memory f (a, w) = let (w', r) = f w in ((a, w'), r)

    -- The entries of a bucket from number j on, with `rounds` of them left.
    unfoldable pub slots_loop : ℕ → ℕ → ℕ → Effect (A × W) Bool
    unfolding peek_uint8
    slots_loop zero j bucket s0 = (s0, ok true)
    slots_loop (suc rounds) j bucket s0 =
        in_error_of "reading map: %s" []
          (on_memory (peek_uint8 k s h (u64 (bucket + l.tophash_offset + j))) s0)
        >=> λ tophash s1.
            let skipped = slots_loop rounds (j + 1) bucket s1 in
            let visited : (A × W) × Result Bool =
              visit (u64 (bucket + l.keys_offset + j * l.keys_stride))
                (u64 (bucket + l.values_offset + j * l.values_stride)) l.key_type l.value_type s1
              >=> λ more s2.
                  (let rest = slots_loop rounds (j + 1) bucket s2 in
                    if more then rest else (s2, ok false)) in
            if ltb tophash 4 then skipped else visited

    -- The bucket at an address and those behind it, with fuel: one for each.
    unfoldable pub chain_loop : ℕ → ℕ → Effect (A × W) Bool
    unfolding slots_loop peek_ptr
    chain_loop zero bucket s0 = (s0, stuck)
    chain_loop (suc fuel) bucket s0 =
        let rest : (A × W) × Result Bool = slots_loop l.bucket_cnt 0 bucket s0 >=> λ more s1.
        (let behind : (A × W) × Result Bool =
            in_error_of "reading map: %s" []
              (on_memory (peek_ptr k s h (u64 (bucket + l.overflow_offset))) s1)
            >=> λ next s2. chain_loop fuel next s2 in
          if more then behind else (s1, ok false)) in
        if bucket == 0 then (s0, ok true) else rest

    -- The buckets of an array from number i on.
    unfoldable pub buckets_loop : ℕ → ℕ → ℕ → ℕ → Effect (A × W) Bool
    unfolding chain_loop
    buckets_loop fuel zero i addr s0 = (s0, ok true)
    buckets_loop fuel (suc rounds) i addr s0 =
        chain_loop fuel (u64 (addr + i * l.bucket_size)) s0 >=> λ more s1.
        (let rest = buckets_loop fuel rounds (i + 1) addr s1 in
          if more then rest else (s1, ok false))

    unfoldable pub bucket_array : ℕ → ℕ × ℕ → Effect (A × W) Bool
    unfolding buckets_loop
    bucket_array fuel x s0 = if x.0 == 0 then (s0, ok true) else buckets_loop fuel x.1 0 x.0 s0

    unfoldable pub walk_map : ℕ → Effect (A × W) (Unit {0})
    unfolding bucket_array
    walk_map fuel s0 = bucket_array fuel l.buckets s0 >=> λ more s1.
        if more
        then (bucket_array fuel l.oldbuckets s1 >=> λ more' s2. (s2, ok tt))
        else (s1, ok tt)

  unfoldable pub peek_map_values :
      {A : Type 0}
      → ℕ
      → Option ℕ
      → ℕ
      → (ℕ → ℕ → Option ℕ → Option ℕ → Effect (A × W) Bool)
      → Effect (A × W) (Unit {0})
  unfolding map_layout walk_map
  peek_map_values fuel t a visit (x, w) =
      let (w', r) = map_layout t a w in
      ((x, w'), r) >=> λ o s1. elim o [ none ↦ (s1, ok tt) | some l ↦ walk_map visit l fuel s1 ]
