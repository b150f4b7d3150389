-- ===== src/Dwarf/Symbol/Finds.antt =====
-- dwarf/symbol.go: the loop that the lookups share, against the entries that a Reader gives.
use debug.Common.{
  length, All, ℕ, zero, suc, ◌<◌, ◌≡◌, refl, sym, ap, ◌∙◌, ◌⊎◌, inl, inr, Option, none, some, List,
  [], ◌∷◌, ◌++◌, arith,
}
use debug.Dwarf.Line.Paths.{split}
use debug.Common.Result.{Result, ok, ◌>>=◌}
use debug.Dwarf.Data.{Data}
use debug.Dwarf.Entry.{Entry}
use debug.Dwarf.Reader.{Reader, at_end, read, next}
use debug.Dwarf.Symbol.{find_loop}

-- The entries that Next gives, from `r` to the end of the section.
pub data Entries (d : Data) : Reader → List Entry → Type 0 where
  done : {r r' : Reader} → next d r ≡ ok (at_end, r') → Entries d r []
  more :
      {r r' : Reader} {e : Entry} {es : List Entry}
      → next d r ≡ ok (read e, r')
      → Entries d r' es
      → Entries d r (e ∷ es)

-- The first entry of a list in which `visit` finds something.
unfoldable pub first {ℓ} :
    {A : Type ℓ} → (Entry → Result (Option A)) → List Entry → Result (Option A)
first visit [] = ok none
first visit (e ∷ es) = visit e >>= λ o. elim o [ some a ↦ ok (some a) | none ↦ first visit es ]

pub find_loop-first :
    {A : Type 0} (visit : Entry → Result (Option A)) (d : Data) {r : Reader} {es : List Entry}
    (fuel : ℕ)
    → Entries d r es
    → length es < fuel
    → find_loop visit fuel d r ≡ first visit es
unfolding find_loop first
find_loop-first visit d zero entries h = absurd (omega arith)
find_loop-first visit d (suc fuel) (done p) h = rw p refl
find_loop-first visit d (suc fuel) (more {r' = r'} {e} {es} p q) h = rw p (
    ap (λ rest. visit e >>= λ o. elim o [ some a ↦ ok (some a) | none ↦ rest ])
      (find_loop-first visit d fuel q (omega arith)))

-- The entry found, with those in front of it, or nothing found in any.
abbrev pub Found : {A : Type 0} → (Entry → Result (Option A)) → List Entry → A → Type 0
Found visit es a =
    (before : List Entry) × (e : Entry) × (behind : List Entry) × (es ≡ before ++ e ∷ behind)
    × All (λ x. visit x ≡ ok none) before
    × (visit e ≡ ok (some a))

pub first-Found :
    {A : Type 0} (visit : Entry → Result (Option A)) (es : List Entry)
    → All (λ e. (o : Option A) × (visit e ≡ ok o)) es
    → ((a : A) × (first visit es ≡ ok (some a)) × Found visit es a)
      ⊎ ((first visit es ≡ ok none) × All (λ e. visit e ≡ ok none) es)
unfolding first
first-Found visit [] h = inr (refl, tt)
first-Found visit (e ∷ es) ((some a, p), h) = inl (a, rw p refl, ([], e, es, refl, tt, p))
first-Found visit (e ∷ es) ((none, p), h) = elim (first-Found visit es h) [
  | inl (a, q, (before, x, behind, split, skipped, found)) ↦
      inl (a, rw p q, (e ∷ before, x, behind, ap (◌∷◌ e) split, (p, skipped), found))
  | inr (q, skipped) ↦ inr (rw p q, (p, skipped))
]

pub ok_apart : {A : Type 0} {r : Result (Option A)} {a : A} → r ≡ ok (some a) → r ≡ ok none → ⊥
ok_apart {a = a} p q = let apart : ok (some a) ≡ ok none = sym p ∙ q in ground (arith, apart)
