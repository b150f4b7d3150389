-- ===== src/Dwarf/Types/Cached.antt =====
-- dwarf/type.go: what readType leaves in the typeCache.
use mathlib.Core.Path.{subst}
use debug.Common.{
  ◌==◌, if◌then◌else◌, if-cases, ℕ, zero, suc, ◌≡◌, refl, sym, ap, ◌∙◌, none, some, List, [],
  String, arith,
}
use debug.Common.Maps.{map_get, map_get-map_delete, map_get-map_insert}
use debug.Common.Result.{Error, decode_error, Result, ok, err, panic, stuck}
use debug.Dwarf.Data.{Data}
use debug.Dwarf.Entry.{Entry}
use debug.Dwarf.Types.Units.{TypeSigs, TypeReader, type_seek, type_next, type_address_size}
use debug.Dwarf.Types.Store.{TypeStore, remember}
use debug.Dwarf.Types.Reading.{finish, or_forget, type_of, parse_type, read_entry, read_type}
use debug.Common.Effect.{Effect, ◌>=>◌}
use debug.Dwarf.Types.Fill.{make_type, fill_type}
use debug.Dwarf.Types.Keeps.{fill_type-Q}
use debug.Dwarf.Reader.{failed, at_end, read}
use debug.Dwarf.Types.Held.{Holds, HeldBy, Seals, filled-Seals, type_of-HeldBy, read_type-HeldBy}

-- What the cache has at an offset agrees with what a read of it has given.
abbrev Agrees : ℕ → TypeStore × Result ℕ → Type 0
Agrees off (s, ok t) = map_get off s.cache ≡ some t
Agrees off (s, err e) = map_get off s.cache ≡ none
Agrees off (s, panic) = Unit {0}
Agrees off (s, stuck) = Unit {0}

-- Of a read before the label Error.
abbrev Gives : ℕ → TypeStore × Result ℕ → Type 0
Gives off (s, ok t) = map_get off s.cache ≡ some t
Gives off (s, err e) = Unit {0}
Gives off (s, panic) = Unit {0}
Gives off (s, stuck) = Unit {0}

or_forget-Agrees : (off : ℕ) (r : TypeStore × Result ℕ) → Gives off r → Agrees off (or_forget off r)
or_forget-Agrees off (s, ok t) h = h
or_forget-Agrees off (s, err e) h = ground (arith, map_get-map_delete off off s.cache)
or_forget-Agrees off (s, panic) h = tt
or_forget-Agrees off (s, stuck) h = tt

Seals-Gives :
    (off u : ℕ) (c : List (ℕ × ℕ)) (r : TypeStore × Result ℕ)
    → Seals u c r
    → map_get off c ≡ some u
    → Gives off r
Seals-Gives off u c (s, ok v) g h = ap (map_get off) g.0 ∙ h ∙ ap some (sym g.1)
Seals-Gives off u c (s, err e) g h = tt
Seals-Gives off u c (s, panic) g h = tt
Seals-Gives off u c (s, stuck) g h = tt

-- A call in front of the one that gives the type.
bind-Gives {ℓ} :
    {A : Type ℓ} (off : ℕ) (r : TypeStore × Result A) (f : A → Effect TypeStore ℕ)
    → ((a : A) → r.1 ≡ ok a → Gives off (f a r.0))
    → Gives off (r >=> f)
bind-Gives off (s, ok a) f h = h a refl
bind-Gives off (s, err e) f h = tt
bind-Gives off (s, panic) f h = tt
bind-Gives off (s, stuck) f h = tt

-- A call in front that changes nothing.
bind-Agrees {ℓ} :
    {A : Type ℓ} (off : ℕ) (s : TypeStore) (r : Result A) (f : A → Effect TypeStore ℕ)
    → map_get off s.cache ≡ none
    → ((a : A) → Agrees off (f a s))
    → Agrees off ((s, r) >=> f)
bind-Agrees off s (ok a) f miss h = h a
bind-Agrees off s (err e) f miss h = miss
bind-Agrees off s panic f miss h = tt
bind-Agrees off s stuck f miss h = tt

module _ (fuel entries : ℕ) (d : Data) (sigs : TypeSigs) (name : String) where
  parse_type-Agrees :
      (off : ℕ) (e : Entry) (r : TypeReader) (size : ℕ) (s : TypeStore)
      → Agrees off (parse_type entries d sigs (read_type fuel entries d sigs) name off e r size s)
  unfolding parse_type
  parse_type-Agrees off e r size s =
      let of = type_of d sigs (read_type fuel entries d sigs) name r in
      or_forget-Agrees off _ (
        bind-Gives off (make_type entries d name of e s) _ (λ u made.
          let s1 = (make_type entries d name of e s).0 in
          let filled = fill_type entries d name of e r u.0 u.1 (remember off u.0 s1) in
          let keep_of =
            type_of-HeldBy entries d sigs (read_type fuel entries d sigs) off u.0
              (λ name' r' off' s' h'.
                read_type-HeldBy fuel entries d sigs off u.0 name' r' off' s' h')
              name r in
          let there : map_get off filled.0.cache ≡ some u.0 =
            fill_type-Q (Holds off u.0) entries d name of keep_of e r u.0 u.1 (remember off u.0 s1)
              (ground (arith, map_get-map_insert off off u.0 s1.cache)) in
          bind-Gives off filled _ (λ x given.
            Seals-Gives off u.0 filled.0.cache
              (elim x [ some y ↦ (filled.0, err y) | none ↦ finish size off e u.0 filled.0 ])
              (filled-Seals size off e u.0 x filled.0) there)))

  read_entry-Agrees :
      (r : TypeReader) (off : ℕ) (s : TypeStore)
      → map_get off s.cache ≡ none
      → Agrees off (read_entry entries d sigs (read_type fuel entries d sigs) name r off s)
  unfolding read_entry
  read_entry-Agrees r off s miss = bind-Agrees off s (type_next d (type_seek d r off)) _ miss (λ n.
      elim n.0
        as (λ x. Agrees off (elim x as (λ y. TypeStore × Result ℕ) [
          | failed e ↦ (s, err e)
          | at_end ↦ (s, type_address_size d n.1) >=> λ a s2.
              (s2, err (decode_error name off "no type at offset" []))
          | read e ↦ (s, type_address_size d n.1) >=> λ a s2.
              if e.offset == off
              then parse_type entries d sigs (read_type fuel entries d sigs) name off e n.1 a s2
              else (s2, err (decode_error name off "no type at offset" []))
        ])) [
          | failed e ↦ miss
          | at_end ↦ bind-Agrees off s (type_address_size d n.1) _ miss (λ a. miss)
          | read e ↦
              bind-Agrees off s (type_address_size d n.1) _ miss (λ a.
                if-cases (Agrees off) (e.offset == off) (parse_type-Agrees off e n.1 a s) miss)
        ])

pub read_type-Agrees :
    (fuel entries : ℕ) (d : Data) (sigs : TypeSigs) (name : String) (r : TypeReader) (off : ℕ)
    (s : TypeStore)
    → Agrees off (read_type fuel entries d sigs name r off s)
unfolding read_type
read_type-Agrees zero entries d sigs name r off s = tt
read_type-Agrees (suc fuel) entries d sigs name r off s =
    elim (map_get off s.cache)
        as (λ x.
          map_get off s.cache ≡ x
          → Agrees off (elim x as (λ y. TypeStore × Result ℕ) [
            | some u ↦ (s, ok u)
            | none ↦ read_entry entries d sigs (read_type fuel entries d sigs) name r off s
          ])) [
            | some u ↦ λ hit. hit
            | none ↦ λ miss. read_entry-Agrees fuel entries d sigs name r off s miss
          ]
      refl

hit_lem :
    (fuel entries : ℕ) (d : Data) (sigs : TypeSigs) (name : String) (r : TypeReader) (off t : ℕ)
    (s : TypeStore)
    → map_get off s.cache ≡ some t
    → read_type (suc fuel) entries d sigs name r off s ≡ (s, ok t)
unfolding read_type
hit_lem fuel entries d sigs name r off t s h = rw (h, read_type) refl

-- A type that has been read is read again from the cache, by any reader and with any fuel but none:
-- the same Type is given, and nothing changes.
pub read_type-read_type :
    (fuel fuel' entries entries' : ℕ) (d : Data) (sigs : TypeSigs) (name name' : String)
    (r r' : TypeReader) (off t : ℕ) (s s' : TypeStore)
    → read_type fuel entries d sigs name r off s ≡ (s', ok t)
    → read_type (suc fuel') entries' d sigs name' r' off s' ≡ (s', ok t)
read_type-read_type fuel fuel' entries entries' d sigs name name' r r' off t s s' h =
    hit_lem fuel' entries' d sigs name' r' off t s'
      (subst (Agrees off) h (read_type-Agrees fuel entries d sigs name r off s))

-- After a read that gives an error the cache has no type at its offset, and every type that was in the
-- cache is there still.
pub read_type-forgets :
    (fuel entries : ℕ) (d : Data) (sigs : TypeSigs) (name : String) (r : TypeReader) (off : ℕ)
    (s s' : TypeStore) (e : Error)
    → read_type fuel entries d sigs name r off s ≡ (s', err e)
    → (map_get off s'.cache ≡ none)
      × ((o t : ℕ) → map_get o s.cache ≡ some t → map_get o s'.cache ≡ some t)
read_type-forgets fuel entries d sigs name r off s s' e h = (
  subst (Agrees off) h (read_type-Agrees fuel entries d sigs name r off s),
  λ o t there. subst (HeldBy o t) h (read_type-HeldBy fuel entries d sigs o t name r off s there),
)
