-- ===== src/Dwarf/Types/Keeps.antt =====
-- dwarf/type.go: what the cases of readType do to the typeCache: nothing but by the reads of other
-- types.
use debug.Common.{
  ◌==◌, if-cases, length, ℕ, zero, suc, Bool, Option, none, some, List, String, arith,
}
use debug.Common.Result.{Error, Result, ok, err, panic, stuck}
use debug.Common.Effect.{Effect, ◌>=>◌, bind-keeps}
use debug.Dwarf.Data.{Data}
use debug.Dwarf.Entry.{Entry, entry_val}
use debug.Dwarf.Types.{Shape, array_type, shape_of}
use debug.Dwarf.Types.Store.{
  TypeStore, set_shape, attr_go_key, attr_go_elem, get_kind, zero_array, zeroed,
}
use debug.Dwarf.Types.Units.{TypeReader}
use debug.Dwarf.Types.Kids.{kid, last, broken, next_kid, kids_loop, for_kids}
use debug.Dwarf.Types.Fill.{
  checked, make_struct, make_typedef, make_type, stride_of, fill_array, put_member, take_member,
  fill_struct, fill_pointer, take_param, fill_func, fill_type,
}
use debug.Dwarf.Symbol.{attr_type}
use debug.Dwarf.Types.Steps.{
  kind_chan, kind_interface, kind_map, kind_slice, kind_string, tag_typedef, tag_enumeration_type,
  is_struct, is_qualifier, make_base, member_offset, Members, subrange_count, is_nil, under_array,
  take_dimension, add_value, zero_if,
}

abbrev OnOk : (TypeStore → Type 0) → Result TypeStore → Type 0
OnOk P (ok s) = P s
OnOk P (err e) = Unit {0}
OnOk P panic = Unit {0}
OnOk P stuck = Unit {0}

module _ (Q : List (ℕ × ℕ) → Type 0) where
  abbrev Kept : TypeStore → Type 0
  Kept s = Q s.cache

  abbrev KeptBy {ℓ} : {A : Type ℓ} → TypeStore × Result A → Type 0
  KeptBy r = Q r.0.cache

  zero_array-Q :
      (fuel : ℕ) (t : Option ℕ) (s : TypeStore)
      → Q s.cache
      → OnOk (λ s'. Q s'.cache) (zero_array fuel t s)
  unfolding zero_array
  zero_array-Q zero t s h = tt
  zero_array-Q (suc fuel) none s h = h
  zero_array-Q (suc fuel) (some t) s h =
      elim (shape_of s.heap (some t))
        as (λ x.
          OnOk (λ s'. Q s'.cache)
            (elim x [
              | some (array_type u stride count) ↦
                  zero_array fuel u (set_shape t (array_type u stride 0) s)
              | _ ↦ ok s
            ])) [
              | none ↦ h
              | some y ↦
                  elim y
                    as (λ z.
                      OnOk (λ s'. Q s'.cache)
                        (elim z [
                          | array_type u stride count ↦
                              zero_array fuel u (set_shape t (array_type u stride 0) s)
                          | _ ↦ ok s
                        ])) [
                          | array_type u stride count ↦
                              zero_array-Q fuel u (set_shape t (array_type u stride 0) s) h
                          | _ ↦ h
                        ]
            ]

  zeroed-Q : (t : Option ℕ) (s : TypeStore) → Q s.cache → Q (zeroed t s).0.cache
  zeroed-Q t s h =
      let found = zero_array-Q (suc (length s.heap)) t s h in
      elim (zero_array (suc (length s.heap)) t s)
          as (λ x.
            OnOk (λ s'. Q s'.cache) x
            → Q
                (elim x as (λ y. TypeStore × Result (Unit {0})) [
                  | ok s' ↦ (s', ok tt)
                  | err e ↦ (s, err e)
                  | panic ↦ (s, panic)
                  | stuck ↦ (s, stuck)
                ]).0.cache) [ ok s' ↦ λ g. g | err e ↦ λ g. h | panic ↦ λ g. h | stuck ↦ λ g. h ]
        found

  zero_if-Q : (b : Bool) (t : Option ℕ) (s : TypeStore) → Q s.cache → Q (zero_if b t s).0.cache
  unfolding zero_if
  zero_if-Q b t s h = if-cases KeptBy b (zeroed-Q t s h) h

  under_array-Q :
      (t count : ℕ) (o : Option Shape) (s : TypeStore)
      → Q s.cache
      → Q (under_array t count o s).cache
  under_array-Q t count (some (array_type u x c)) s h = h
  under_array-Q t count _ s h = h

  kids_loop-Q {ℓ} :
      {A : Type ℓ} (fuel : ℕ) (d : Data) (name : String) (body : Entry → A → Effect TypeStore A)
      (r : TypeReader) (depth : ℕ) (a : A) (s : TypeStore)
      → ((e : Entry) (a : A) (s : TypeStore) → Q s.cache → Q (body e a s).0.cache)
      → Q s.cache
      → Q (kids_loop fuel d name body r depth a s).0.cache
  unfolding kids_loop
  kids_loop-Q zero d name body r depth a s keep h = h
  kids_loop-Q {A} (suc fuel) d name body r depth a s keep h =
      bind-keeps Kept (s, next_kid (suc fuel) d name r depth) _ h
        (λ n s1 h1.
          elim n.0
            as (λ k.
              Q
                (elim k as (λ y. TypeStore × Result (A × Option Error)) [
                  | kid e ↦ body e a s1 >=> λ a' s2. kids_loop fuel d name body n.1.0 n.1.1 a' s2
                  | last ↦ (s1, ok (a, none))
                  | broken x ↦ (s1, ok (a, some x))
                ]).0.cache) [
                  | kid e ↦
                      bind-keeps Kept (body e a s1) _ (keep e a s1 h1)
                        (λ a' s2 h2. kids_loop-Q fuel d name body n.1.0 n.1.1 a' s2 keep h2)
                  | last ↦ h1
                  | broken x ↦ h1
                ])

  for_kids-Q {ℓ} :
      {A : Type ℓ} (fuel : ℕ) (d : Data) (name : String) (body : Entry → A → Effect TypeStore A)
      (e : Entry) (r : TypeReader) (a : A) (s : TypeStore)
      → ((e : Entry) (a : A) (s : TypeStore) → Q s.cache → Q (body e a s).0.cache)
      → Q s.cache
      → Q (for_kids fuel d name body e r a s).0.cache
  unfolding for_kids
  for_kids-Q {A} fuel d name body e r a s keep h =
      if-cases KeptBy e.children (kids_loop-Q fuel d name body r 0 a s keep h) h

  module _ (fuel : ℕ) (d : Data) (name : String)
      (of : Entry → ℕ → Option Error → Effect TypeStore (Option ℕ × Option Error))
      (keep_of : (e : Entry) (a : ℕ) (x : Option Error) (s : TypeStore)
        → Q s.cache
        → Q (of e a x s).0.cache) where
    checked-Q :
        (e : Entry) (a : ℕ) (x : Option Error) (s : TypeStore)
        → Q s.cache
        → Q (checked fuel d name of e a x s).0.cache
    unfolding checked
    checked-Q e a x s h = bind-keeps Kept (of e a x s) _ (keep_of e a x s h) (λ u s1 h1.
        elim u.1
          as (λ y.
            Q
              (elim y as (λ z. TypeStore × Result (Option ℕ)) [
                | some e ↦ (s1, err e)
                | none ↦ (s1, ok u.0)
              ]).0.cache) [ some e ↦ h1 | none ↦ h1 ])

    make_base-Q : (e : Entry) (s : TypeStore) → Q s.cache → Q (make_base e s).0.cache
    unfolding make_base
    make_base-Q e s h = ground (arith, h)

    make_struct-Q :
        (e : Entry) (s : TypeStore) → Q s.cache → Q (make_struct fuel d name of e s).0.cache
    unfolding make_struct
    make_struct-Q e s h =
        if-cases KeptBy (get_kind e == kind_slice)
          (bind-keeps Kept (of e attr_go_elem none s) _ (keep_of e attr_go_elem none s h)
            (λ u s1 h1. h1))
          (if-cases KeptBy (get_kind e == kind_string) h h)

    make_typedef-Q :
        (e : Entry) (s : TypeStore) → Q s.cache → Q (make_typedef fuel d name of e s).0.cache
    unfolding make_typedef
    make_typedef-Q e s h =
        if-cases KeptBy (get_kind e == kind_map)
          (bind-keeps Kept (of e attr_go_key none s) _ (keep_of e attr_go_key none s h) (λ k s1 h1.
            bind-keeps Kept (of e attr_go_elem k.1 s1) _ (keep_of e attr_go_elem k.1 s1 h1)
              (λ u s2 h2. h2)))
          (if-cases KeptBy (get_kind e == kind_chan)
            (bind-keeps Kept (of e attr_go_elem none s) _ (keep_of e attr_go_elem none s h)
              (λ u s1 h1. h1))
            (if-cases KeptBy (get_kind e == kind_interface) h h))

    put_member-Q :
        (t : ℕ) (is_union : Bool) (e : Entry) (m : Members) (u : Option ℕ) (off : ℕ) (s : TypeStore)
        → Q s.cache
        → Q (put_member fuel d name of t is_union e m u off s).0.cache
    unfolding put_member
    put_member-Q t is_union e m u off s h =
        bind-keeps Kept (zero_if _ m.last_type _) _ (zero_if-Q _ m.last_type _ h) (λ v s1 h1. h1)

    take_member-Q :
        (t : ℕ) (is_union : Bool) (e : Entry) (m : Members) (s : TypeStore)
        → Q s.cache
        → Q (take_member fuel d name of t is_union e m s).0.cache
    unfolding take_member
    take_member-Q t is_union e m s h =
        if-cases KeptBy (e.tag == 0x0D)
          (bind-keeps Kept (checked fuel d name of e attr_type m.failure s) _
            (checked-Q e attr_type m.failure s h)
            (λ u s1 h1.
              bind-keeps Kept (s1, member_offset d name e (entry_val e.fields 0x38)) _ h1
                (λ x s2 h2. put_member-Q t is_union e m u x s2 h2)))
          h

    take_dimension-Q :
        (t : ℕ) (e : Entry) (n : ℕ) (s : TypeStore)
        → Q s.cache
        → Q (take_dimension name t e n s).0.cache
    unfolding take_dimension
    take_dimension-Q t e n s h =
        if-cases KeptBy (e.tag == 0x21)
          (if-cases Kept (n == 0) h
            (under_array-Q t (subrange_count e) (shape_of s.heap (some t)) s h))
          (if-cases KeptBy (e.tag == tag_enumeration_type) h h)

    add_value-Q :
        (t : ℕ) (e : Entry) (u : Unit {0}) (s : TypeStore)
        → Q s.cache
        → Q (add_value t e u s).0.cache
    add_value-Q t e u s h = if-cases KeptBy (e.tag == 0x28) h h

    take_param-Q :
        (t : ℕ) (e : Entry) (v : Unit {0}) (s : TypeStore)
        → Q s.cache
        → Q (take_param fuel d name of t e v s).0.cache
    unfolding take_param
    take_param-Q t e v s h =
        if-cases KeptBy (e.tag == 0x05)
          (bind-keeps Kept (checked fuel d name of e attr_type none s) _
            (checked-Q e attr_type none s h) (λ u s1 h1. h1))
          (if-cases KeptBy (e.tag == 0x18) h h)

    fill_struct-Q :
        (e : Entry) (r : TypeReader) (t : ℕ) (x : Option Error) (s : TypeStore)
        → Q s.cache
        → Q (fill_struct fuel d name of e r t x s).0.cache
    unfolding fill_struct
    fill_struct-Q e r t x s h =
        bind-keeps Kept (for_kids fuel d name (take_member fuel d name of t _) e r _ _) _
          (for_kids-Q fuel d name (take_member fuel d name of t _) e r _ _
            (λ k a s1 h1. take_member-Q t _ k a s1 h1) h)
          (λ m s1 h1.
            bind-keeps Kept (zero_if _ m.0.last_type s1) _ (zero_if-Q _ m.0.last_type s1 h1)
              (λ v s2 h2. h2))

    fill_pointer-Q :
        (e : Entry) (t : ℕ) (s : TypeStore)
        → Q s.cache
        → Q (fill_pointer fuel d name of e t s).0.cache
    unfolding fill_pointer
    fill_pointer-Q e t s h =
        if-cases KeptBy (is_nil (entry_val e.fields attr_type)) h
          (bind-keeps Kept (of e attr_type none s) _ (keep_of e attr_type none s h) (λ u s1 h1. h1))

    fill_array-Q :
        (e : Entry) (r : TypeReader) (t : ℕ) (s : TypeStore)
        → Q s.cache
        → Q (fill_array fuel d name of e r t s).0.cache
    unfolding fill_array
    fill_array-Q e r t s h =
        bind-keeps Kept (checked fuel d name of e attr_type none s) _
          (checked-Q e attr_type none s h)
          (λ u s1 h1.
            bind-keeps Kept (_, stride_of fuel d name of e u s1) _ h1
              (λ stride s2 h2.
                bind-keeps Kept (for_kids fuel d name (take_dimension name t) e r 0 _) _
                  (for_kids-Q fuel d name (take_dimension name t) e r 0 _
                    (λ k a s3 h3. take_dimension-Q t k a s3 h3) h2)
                  (λ n s3 h3. if-cases Kept (n.0 == 0) h3 h3)))

    fill_func-Q :
        (e : Entry) (r : TypeReader) (t : ℕ) (s : TypeStore)
        → Q s.cache
        → Q (fill_func fuel d name of e r t s).0.cache
    unfolding fill_func
    fill_func-Q e r t s h =
        bind-keeps Kept (checked fuel d name of e attr_type none s) _
          (checked-Q e attr_type none s h)
          (λ u s1 h1.
            bind-keeps Kept (for_kids fuel d name (take_param fuel d name of t) e r tt _) _
              (for_kids-Q fuel d name (take_param fuel d name of t) e r tt _
                (λ k a s3 h3. take_param-Q t k a s3 h3) h1)
              (λ x s2 h2. h2))

    pub make_type-Q :
        (e : Entry) (s : TypeStore) → Q s.cache → Q (make_type fuel d name of e s).0.cache
    unfolding make_type
    make_type-Q e s h = ground (arith, make_base-Q e s h, make_struct-Q e s h, make_typedef-Q e s h)

    pub fill_type-Q :
        (e : Entry) (r : TypeReader) (t : ℕ) (x : Option Error) (s : TypeStore)
        → Q s.cache
        → Q (fill_type fuel d name of e r t x s).0.cache
    unfolding fill_type
    fill_type-Q e r t x s h = if-cases KeptBy (e.tag == 0x01) (fill_array-Q e r t s h) (
        if-cases KeptBy (is_struct e.tag) (fill_struct-Q e r t x s h) (
          if-cases KeptBy (is_qualifier e.tag)
            (bind-keeps Kept (checked fuel d name of e attr_type none s) _
              (checked-Q e attr_type none s h) (λ u s1 h1. h1))
            (if-cases KeptBy (e.tag == tag_enumeration_type)
              (bind-keeps Kept (for_kids fuel d name (add_value t) e r tt s) _
                (for_kids-Q fuel d name (add_value t) e r tt s
                  (λ k a s3 h3. add_value-Q t k a s3 h3) h)
                (λ v s1 h1. h1))
              (if-cases KeptBy (e.tag == 0x0F) (fill_pointer-Q e t s h) (
                if-cases KeptBy (e.tag == 0x15) (fill_func-Q e r t s h) (
                  if-cases KeptBy (e.tag == tag_typedef)
                    (bind-keeps Kept (of e attr_type x _) _ (keep_of e attr_type x _ h)
                      (λ u s1 h1. h1))
                    h))))))
