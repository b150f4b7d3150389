-- ===== src/Dwarf/Types/Held.antt =====
-- dwarf/type.go: a type that is in the typeCache stays there through readType.
use mathlib.Core.Path.{subst}
use debug.Common.{
  ◌==◌, if◌then◌else◌, if-cases, ℕ, zero, suc, ◌≡◌, refl, sym, ap, ◌≢◌, Option, none, some, List,
  [], ◌∷◌, String, arith,
}
use debug.Dwarf.Types.{zero_common, void_type, node_of}
use debug.Common.Result.{Error, errorf, decode_error, Result, ok, err, panic, stuck}
use debug.Common.Effect.{◌>=>◌, bind-keeps}
use debug.Common.Maps.{map_get, map_get-map_delete, map_get-map_insert}
use debug.Dwarf.Data.{Data}
use debug.Dwarf.Entry.{
  nil_value, uint64_value, int64_value, offset_value, bytes_value, bool_value, string_value, Entry,
  entry_val,
}
use debug.Dwarf.Reader.{failed, at_end, read}
use debug.Dwarf.Types.Units.{
  TypeSigs, unit_reader_of, TypeReader, of_unit, type_seek, type_next, type_clone,
  type_address_size,
}
use debug.Dwarf.Types.Store.{TypeStore, alloc, next_ref, change, remember}
use debug.Dwarf.Types.Fill.{make_type, fill_type}
use debug.Dwarf.Types.Keeps.{make_type-Q, fill_type-Q}
use debug.Dwarf.Types.Reading.{
  sized, finish, or_forget, Reads, into_err, own_cache, sig_to_type, type_of, parse_type,
  read_entry, read_type,
}

abbrev pub Holds : ℕ → ℕ → List (ℕ × ℕ) → Type 0
Holds o t c = map_get o c ≡ some t

abbrev pub Held : ℕ → ℕ → TypeStore → Type 0
Held o t s = Holds o t s.cache

abbrev pub HeldBy {ℓ} : ℕ → ℕ → {A : Type ℓ} → TypeStore × Result A → Type 0
HeldBy o t r = Held o t r.0

pub into_err-HeldBy : (o t : ℕ) (r : TypeStore × Result ℕ) → HeldBy o t r → HeldBy o t (into_err r)
into_err-HeldBy o t (s, ok u) h = h
into_err-HeldBy o t (s, err e) h = h
into_err-HeldBy o t (s, panic) h = h
into_err-HeldBy o t (s, stuck) h = h

pub own_cache-HeldBy :
    (o t : ℕ) (c : List (ℕ × ℕ)) (sig : ℕ) (r : TypeStore × Result ℕ)
    → Holds o t c
    → HeldBy o t (own_cache c sig r)
own_cache-HeldBy o t c sig (s, ok u) h = h
own_cache-HeldBy o t c sig (s, err e) h = h
own_cache-HeldBy o t c sig (s, panic) h = h
own_cache-HeldBy o t c sig (s, stuck) h = h

pub or_forget-HeldBy :
    (o t off : ℕ) (r : TypeStore × Result ℕ) → o ≢ off → HeldBy o t r → HeldBy o t (or_forget off r)
or_forget-HeldBy o t off (s, ok u) other h = h
or_forget-HeldBy o t off (s, err e) other h = ground (arith, map_get-map_delete o off s.cache)
or_forget-HeldBy o t off (s, panic) other h = h
or_forget-HeldBy o t off (s, stuck) other h = h

-- A hit and a miss are at different offsets.
pub hit-ne-miss :
    (o off t : ℕ) (c : List (ℕ × ℕ)) → map_get o c ≡ some t → map_get off c ≡ none → o ≢ off
hit-ne-miss o off t c h miss same = absurd (ground (arith, ap (λ x. map_get x c) same))

-- The cache is as it was, and what is given is u.
abbrev pub Seals : ℕ → List (ℕ × ℕ) → TypeStore × Result ℕ → Type 0
Seals u c (s, ok v) = (s.cache ≡ c) × (v ≡ u)
Seals u c (s, err e) = s.cache ≡ c
Seals u c (s, panic) = s.cache ≡ c
Seals u c (s, stuck) = s.cache ≡ c

pub sealed :
    (u : ℕ) (s : TypeStore) (r : Result ℕ)
    → Seals u s.cache (
        (s, r) >=> λ b s2.
        (change u (λ m. record m { common = record m.common { byte_size = b } }) s2, ok u))
sealed u s (ok b) = (refl, refl)
sealed u s (err e) = refl
sealed u s panic = refl
sealed u s stuck = refl

pub finish-Seals :
    (size off : ℕ) (e : Entry) (u : ℕ) (s : TypeStore) → Seals u s.cache (finish size off e u s)
unfolding finish
finish-Seals size off e u s =
    let s1 = change u (λ n. record n { common = record n.common { offset = off } }) s in
    elim (node_of s1.heap (some u))
      as (λ x. Seals u s.cache (elim x as (λ y. TypeStore × Result ℕ) [
        | none ↦ (s1, panic)
        | some n ↦ (s1, sized size e n s1) >=> λ b s2.
            (change u (λ m. record m { common = record m.common { byte_size = b } }) s2, ok u)
      ])) [ none ↦ refl | some n ↦ sealed u s1 (sized size e n s1) ]

-- The end of parse_type.
pub filled-Seals :
    (size off : ℕ) (e : Entry) (u : ℕ) (x : Option Error) (s : TypeStore)
    → Seals u s.cache (elim x [ some y ↦ (s, err y) | none ↦ finish size off e u s ])
filled-Seals size off e u (some y) s = refl
filled-Seals size off e u none s = finish-Seals size off e u s

Seals-HeldBy :
    (o t u : ℕ) (c : List (ℕ × ℕ)) (r : TypeStore × Result ℕ)
    → Seals u c r
    → Holds o t c
    → HeldBy o t r
Seals-HeldBy o t u c (s, ok v) g h = subst (Holds o t) (sym g.0) h
Seals-HeldBy o t u c (s, err e) g h = subst (Holds o t) (sym g) h
Seals-HeldBy o t u c (s, panic) g h = subst (Holds o t) (sym g) h
Seals-HeldBy o t u c (s, stuck) g h = subst (Holds o t) (sym g) h

module _ (entries : ℕ) (d : Data) (sigs : TypeSigs) (reads : Reads) (o t : ℕ)
    (keep : (name : String) (r : TypeReader) (off : ℕ) (s : TypeStore)
      → Held o t s
      → HeldBy o t (reads name r off s)) where
  pub sig_to_type-HeldBy :
      (sig : ℕ) (s : TypeStore) → Held o t s → HeldBy o t (sig_to_type d sigs reads sig s)
  unfolding sig_to_type
  sig_to_type-HeldBy sig s h =
      elim (map_get sig sigs)
        as (λ x. HeldBy o t (elim x as (λ y. TypeStore × Result ℕ) [
          | none ↦ (s, err (errorf "no type unit with signature %v" (sig ∷ [])))
          | some tu ↦ elim (map_get sig s.sig_cache) [
            | some u ↦ (s, ok u)
            | none ↦
                own_cache s.cache sig
                  (reads tu.name (of_unit (unit_reader_of d tu)) tu.toff (record s { cache = [] }))
          ]
        ])) [
          | none ↦ h
          | some tu ↦
              elim (map_get sig s.sig_cache)
                as (λ x. HeldBy o t (elim x as (λ y. TypeStore × Result ℕ) [
                  | some u ↦ (s, ok u)
                  | none ↦ own_cache s.cache sig (
                      reads tu.name (of_unit (unit_reader_of d tu)) tu.toff
                        (record s { cache = [] }))
                ])) [
                  | some u ↦ h
                  | none ↦
                      own_cache-HeldBy o t s.cache sig
                        (reads tu.name (of_unit (unit_reader_of d tu)) tu.toff
                          (record s { cache = [] }))
                        h
                ]
        ]

  pub type_of-HeldBy :
      (name : String) (r : TypeReader) (e : Entry) (a : ℕ) (x : Option Error) (s : TypeStore)
      → Held o t s
      → HeldBy o t (type_of d sigs reads name r e a x s)
  unfolding type_of
  type_of-HeldBy name r e a x s h =
      let void : TypeStore × Result (Option ℕ × Option Error) =
        (alloc (record { common = zero_common; shape = void_type }) s, ok (some (next_ref s), x)) in
      elim (entry_val e.fields a)
        as (λ v. HeldBy o t (elim v as (λ y. TypeStore × Result (Option ℕ × Option Error)) [
          | offset_value off ↦ into_err (reads name (type_clone d r) off s)
          | uint64_value sig ↦ into_err (sig_to_type d sigs reads sig s)
          | nil_value ↦ void
          | int64_value y ↦ void
          | bytes_value y ↦ void
          | bool_value y ↦ void
          | string_value y ↦ void
        ])) [
          | offset_value off ↦ into_err-HeldBy o t _ (keep name (type_clone d r) off s h)
          | uint64_value sig ↦ into_err-HeldBy o t _ (sig_to_type-HeldBy sig s h)
          | nil_value ↦ h
          | int64_value y ↦ h
          | bytes_value y ↦ h
          | bool_value y ↦ h
          | string_value y ↦ h
        ]

  pub parse_type-HeldBy :
      (name : String) (off : ℕ) (e : Entry) (r : TypeReader) (size : ℕ) (s : TypeStore)
      → o ≢ off
      → Held o t s
      → HeldBy o t (parse_type entries d sigs reads name off e r size s)
  unfolding parse_type
  parse_type-HeldBy name off e r size s other h =
      let of = type_of d sigs reads name r in
      let keep_of = type_of-HeldBy name r in
      or_forget-HeldBy o t off _ other (
        bind-keeps (Held o t) (make_type entries d name of e s) _
          (make_type-Q (Holds o t) entries d name of keep_of e s h)
          (λ u s1 h1.
            bind-keeps (Held o t) (fill_type entries d name of e r u.0 u.1 (remember off u.0 s1)) _
              (fill_type-Q (Holds o t) entries d name of keep_of e r u.0 u.1 (remember off u.0 s1)
                (ground (arith, map_get-map_insert o off u.0 s1.cache)))
              (λ x s2 h2.
                Seals-HeldBy o t u.0 s2.cache
                  (elim x [ some y ↦ (s2, err y) | none ↦ finish size off e u.0 s2 ])
                  (filled-Seals size off e u.0 x s2) h2)))

  pub read_entry-HeldBy :
      (name : String) (r : TypeReader) (off : ℕ) (s : TypeStore)
      → o ≢ off
      → Held o t s
      → HeldBy o t (read_entry entries d sigs reads name r off s)
  unfolding read_entry
  read_entry-HeldBy name r off s other h =
      bind-keeps (Held o t) (s, type_next d (type_seek d r off)) _ h
        (λ n s1 h1.
          elim n.0
            as (λ x. HeldBy o t (elim x as (λ y. TypeStore × Result ℕ) [
              | failed e ↦ (s1, err e)
              | at_end ↦ (s1, type_address_size d n.1) >=> λ a s2.
                  (s2, err (decode_error name off "no type at offset" []))
              | read e ↦ (s1, type_address_size d n.1) >=> λ a s2.
                  if e.offset == off
                  then parse_type entries d sigs reads name off e n.1 a s2
                  else (s2, err (decode_error name off "no type at offset" []))
            ])) [
              | failed e ↦ h1
              | at_end ↦ bind-keeps (Held o t) (s1, type_address_size d n.1) _ h1 (λ a s2 h2. h2)
              | read e ↦
                  bind-keeps (Held o t) (s1, type_address_size d n.1) _ h1
                    (λ a s2 h2.
                      if-cases (HeldBy o t) (e.offset == off)
                        (parse_type-HeldBy name off e n.1 a s2 other h2) h2)
            ])

-- A type that is in the cache stays there.
pub read_type-HeldBy :
    (fuel entries : ℕ) (d : Data) (sigs : TypeSigs) (o t : ℕ) (name : String) (r : TypeReader)
    (off : ℕ) (s : TypeStore)
    → map_get o s.cache ≡ some t
    → map_get o (read_type fuel entries d sigs name r off s).0.cache ≡ some t
unfolding read_type
read_type-HeldBy zero entries d sigs o t name r off s h = h
read_type-HeldBy (suc fuel) entries d sigs o t name r off s h =
    elim (map_get off s.cache)
        as (λ x.
          map_get off s.cache ≡ x
          → HeldBy o t (elim x as (λ y. TypeStore × Result ℕ) [
            | some u ↦ (s, ok u)
            | none ↦ read_entry entries d sigs (read_type fuel entries d sigs) name r off s
          ])) [
            | some u ↦ λ hit. h
            | none ↦ λ miss.
                read_entry-HeldBy entries d sigs (read_type fuel entries d sigs) o t
                  (λ name' r' off' s' h'.
                    read_type-HeldBy fuel entries d sigs o t name' r' off' s' h')
                  name r off s (hit-ne-miss o off t s.cache h miss) h
          ]
      refl
