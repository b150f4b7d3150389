-- ===== src/Dwarf/Symbol/Hangs.antt =====
-- dwarf/entry.go and dwarf/symbol.go: a Reader at a number that does not end within its unit.
use mathlib.Core.Path.{subst}
use debug.Common.{
  ◌==◌, length, get_elem?, drop, All, ℕ, zero, suc, ◌≤◌, ◌<◌, ◌≡◌, refl, sym, ap, ◌∙◌, false,
  Option, none, some, List, [], ◌∷◌, arith,
}
use debug.Common.Result.{Result, ok, stuck}
use debug.Dwarf.Buf.{Buf, uint}
use debug.Dwarf.Buf.Leb.{varint_unended}
use debug.Dwarf.Data.{AbbrevTable, CompUnit, Data}
use debug.Dwarf.Entry.{Entry, zero_entry, entry}
use debug.Dwarf.Reader.{Reader, next_unit_loop, maybe_next_unit, read, next_in_unit, next}
use debug.Dwarf.Symbol.{find_loop}

-- No byte that is left in the unit has its top bit clear, and there is no error yet.
pub record IsUnended (d : Data) (r : Reader) : Type 0 where
  pub no_err : r.err ≡ none
  pub no_buf_err : r.b.err ≡ none
  pub some_left : 0 < length r.b.unread
  pub unended : All (λ x. (128 ≤ x) × (x < 256)) r.b.unread
  pub in_unit : (u : CompUnit) × (get_elem? d.units r.unit ≡ some u)

entry-unended :
    (d : Data) (atab : AbbrevTable) (ubase : ℕ) (b : Buf)
    → All (λ x. (128 ≤ x) × (x < 256)) b.unread
    → entry d atab ubase b ≡ ok (some zero_entry, b)
unfolding entry uint
entry-unended d atab ubase b h = rw (varint_unended b h) refl

next_unit_loop-nonempty :
    (d : Data) (us : List CompUnit) (r : Reader)
    → (length r.b.unread == 0) ≡ false
    → next_unit_loop d us r ≡ r
unfolding next_unit_loop
next_unit_loop-nonempty d [] r h = refl
next_unit_loop-nonempty d (u ∷ us) r h = rw h refl

maybe_next_unit-nonempty :
    (d : Data) (r : Reader) → (length r.b.unread == 0) ≡ false → maybe_next_unit d r ≡ r
unfolding maybe_next_unit
maybe_next_unit-nonempty d r h = next_unit_loop-nonempty d (drop (suc r.unit) d.units) r h

next_in_unit-unended :
    (d : Data) (r : Reader)
    → IsUnended d r
    → next_in_unit d (record r { err = none })
      ≡ ok (read zero_entry, record r { err = none; last_children = false })
unfolding next_in_unit
next_in_unit-unended d r h =
    let some_left : (length r.b.unread == 0) ≡ false = ground (arith, h.some_left) in
    let (u, in_unit) = h.in_unit in
    rw (some_left, in_unit, entry-unended d u.atable u.base r.b h.unended)
      (simp (h.no_buf_err) refl)

next-unended-fine :
    (d : Data) (r : Reader)
    → IsUnended d r
    → next d (record r { err = none })
      ≡ ok (read zero_entry, record r { err = none; last_children = false })
unfolding next
next-unended-fine d r h =
    let some_left : (length r.b.unread == 0) ≡ false = ground (arith, h.some_left) in
    ap (next_in_unit d) (maybe_next_unit-nonempty d (record r { err = none }) some_left)
    ∙ next_in_unit-unended d r h

next-unended :
    (d : Data) (r : Reader)
    → IsUnended d r
    → next d r ≡ ok (read zero_entry, record r { last_children = false })
next-unended d r h =
    subst
      (λ o.
        next d (record r { err = o })
        ≡ ok (read zero_entry, record r { err = o; last_children = false }))
      (sym h.no_err) (next-unended-fine d r h)

-- At a number that does not end within its unit the loop of a lookup that finds nothing in an empty
-- entry never ends: however many rounds it is given, it wants another one.
pub find_loop-unended :
    {A : Type 0} (visit : Entry → Result (Option A)) (d : Data) (fuel : ℕ) (r : Reader)
    → visit zero_entry ≡ ok none
    → IsUnended d r
    → find_loop visit fuel d r ≡ stuck
unfolding find_loop
find_loop-unended visit d zero r blank h = refl
find_loop-unended visit d (suc fuel) r blank h =
    rw (next-unended d r h, blank)
      (find_loop-unended visit d fuel (record r { last_children = false }) blank
        (record {
          no_err = h.no_err;
          no_buf_err = h.no_buf_err;
          some_left = h.some_left;
          unended = h.unended;
          in_unit = h.in_unit;
        }))
