-- ===== src/Dwarf/Types/Circular.antt =====
-- dwarf/type.go: channels of themselves.
use debug.Common.{==_iff, ℕ, zero, suc, ◌≡◌, refl, Option, none, String, arith}
use debug.Common.Result.{Error, Result, ok, err, panic, stuck}
use debug.Common.Effect.{Effect, ◌>=>◌}
use debug.Common.Maps.{map_get}
use debug.Dwarf.Data.{Data}
use debug.Dwarf.Entry.{int64_value, offset_value, Entry, entry_val}
use debug.Dwarf.Reader.{Reader, reader, read}
use debug.Dwarf.Types.Units.{TypeSigs, of_info, type_seek, type_next, type_clone, type_address_size}
use debug.Dwarf.Types.Store.{TypeStore, attr_go_kind, attr_go_elem}
use debug.Dwarf.Types.Fill.{make_typedef, make_type}
use debug.Dwarf.Types.Reading.{
  sized, or_forget, Reads, into_err, type_of, parse_type, read_entry, read_type,
}
use debug.Dwarf.Types.Steps.{kind_chan, tag_typedef, made}

-- Every reader finds the entry at the offset.
abbrev pub Finds : Data → ℕ → Entry → Type 0
Finds d off e =
    (r : Reader)
    → (r' : Reader) × (size : ℕ) × (type_next d (type_seek d (of_info r) off)
        ≡ ok (read e, of_info r'))
      × (type_address_size d (of_info r') ≡ ok size)

-- What a Go compiler writes for `type C chan C`.
pub record IsOwnChan (off : ℕ) (e : Entry) : Type 0 where
  pub offset : e.offset ≡ off
  pub tag : e.tag ≡ tag_typedef
  pub kind : entry_val e.fields attr_go_kind ≡ int64_value kind_chan
  pub elem : entry_val e.fields attr_go_elem ≡ offset_value off

or_forget-stuck : (off : ℕ) (r : TypeStore × Result ℕ) → r.1 ≡ stuck → (or_forget off r).1 ≡ stuck
or_forget-stuck off (s, ok t) h = h
or_forget-stuck off (s, err e) h = h
or_forget-stuck off (s, panic) h = h
or_forget-stuck off (s, stuck) h = h

bind-stuck {ℓ κ μ} :
    {S : Type ℓ} {A : Type κ} {B : Type μ} (r : S × Result A) (f : A → Effect S B)
    → r.1 ≡ stuck
    → (r >=> f).1 ≡ stuck
bind-stuck (s, ok a) f h = absurd (ground (arith, h))
bind-stuck (s, err e) f h = absurd (ground (arith, h))
bind-stuck (s, panic) f h = absurd (ground (arith, h))
bind-stuck (s, stuck) f h = refl

into_err-stuck : (r : TypeStore × Result ℕ) → r.1 ≡ stuck → (into_err r).1 ≡ stuck
into_err-stuck (s, ok t) h = absurd (ground (arith, h))
into_err-stuck (s, err e) h = absurd (ground (arith, h))
into_err-stuck (s, panic) h = absurd (ground (arith, h))
into_err-stuck (s, stuck) h = refl

module _ (entries : ℕ) (d : Data) (sigs : TypeSigs) (name : String) (off : ℕ) (e : Entry) where
  -- A read on a miss comes to the entry.
  read_entry-stuck :
      (reads : Reads) (r : Reader) (s : TypeStore)
      → Finds d off e
      → e.offset ≡ off
      → ((r' : Reader)
          → (make_type entries d name (type_of d sigs reads name (of_info r')) e s).1 ≡ stuck)
      → (read_entry entries d sigs reads name (of_info r) off s).1 ≡ stuck
  unfolding read_entry parse_type
  read_entry-stuck reads r s finds here made =
      let (r', size, step, sized) = finds r in
      rw step (
        rw sized (
          rw ((==_iff e.offset off).1 here) (
            or_forget-stuck off _ (
              bind-stuck (make_type entries d name (type_of d sigs reads name (of_info r')) e s) _
                (made r')))))

  type_of-stuck :
      (reads : Reads) (r : Reader) (x : Option Error) (a : ℕ) (s : TypeStore)
      → entry_val e.fields a ≡ offset_value off
      → ((r' : Reader) → (reads name (of_info r') off s).1 ≡ stuck)
      → (type_of d sigs reads name (of_info r) e a x s).1 ≡ stuck
  unfolding type_of type_clone
  type_of-stuck reads r x a s val never = rw (val, type_of) (into_err-stuck _ (never (reader d)))

  make_typedef_lem :
      (of : Entry → ℕ → Option Error → Effect TypeStore (Option ℕ × Option Error)) (s : TypeStore)
      → e.tag ≡ tag_typedef
      → make_type entries d name of e s ≡ make_typedef entries d name of e s
  unfolding make_type
  make_typedef_lem of s tag = rw tag refl

  make_chan-stuck :
      (of : Entry → ℕ → Option Error → Effect TypeStore (Option ℕ × Option Error)) (s : TypeStore)
      → entry_val e.fields attr_go_kind ≡ int64_value kind_chan
      → (of e attr_go_elem none s).1 ≡ stuck
      → (make_typedef entries d name of e s).1 ≡ stuck
  unfolding make_typedef
  make_chan-stuck of s kind h = rw kind (bind-stuck (of e attr_go_elem none s) _ h)

  -- The element type of a channel is read before the channel is in the cache: where the entry
  -- at an offset is that of a channel whose element type is at the same offset, and the cache
  -- has no type there, the calls of readType go down without end, with a reader at any place.
  pub own_chan-stuck :
      (fuel : ℕ) (r : Reader) (s : TypeStore)
      → Finds d off e
      → IsOwnChan off e
      → map_get off s.cache ≡ none
      → (read_type fuel entries d sigs name (of_info r) off s).1 ≡ stuck
  unfolding read_type
  own_chan-stuck zero r s finds own miss = refl
  own_chan-stuck (suc fuel) r s finds own miss =
      rw (miss, read_type)
        (read_entry-stuck (read_type fuel entries d sigs) r s finds own.offset (λ r'.
          let of = type_of d sigs (read_type fuel entries d sigs) name (of_info r') in
          rw (make_typedef_lem of s own.tag) (
            make_chan-stuck of s own.kind (
              type_of-stuck (read_type fuel entries d sigs) r' none attr_go_elem s own.elem
                (λ r2. own_chan-stuck fuel r2 s finds own miss)))))
