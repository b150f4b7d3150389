-- ===== src/Common/Maps.antt =====
-- Go maps whose keys are numbers, as lists of entries.
use debug.Common.Tests.{◌==◌, if◌then◌else◌, Bool-cases}
use Prim.Native.Nat.{ℕ}
use mathlib.Core.List.{Memᴰ}
use mathlib.Core.List.Memᴰ
use mathlib.Core.Path.{◌≡◌, refl, subst}
use mathlib.Core.Logic.{inl, inr}
use native.Mathlib.Omega.{arith}
use mathlib.Core.List.{List, [], ◌∷◌}
use mathlib.Core.Option.{Option, none, some}

module _ {ℓ} {A : Type ℓ} where
  -- `v, ok := m[k]`
  abbrev pub map_get : ℕ → List (ℕ × A) → Option A
  map_get k [] = none
  map_get k (e ∷ es) = if e.0 == k then some e.1 else map_get k es

  -- `delete(m, k)`
  abbrev pub map_delete : ℕ → List (ℕ × A) → List (ℕ × A)
  map_delete k [] = []
  map_delete k (e ∷ es) = let rest = map_delete k es in if e.0 == k then rest else e ∷ rest

  -- `m[k] = v`
  abbrev pub map_insert : ℕ → A → List (ℕ × A) → List (ℕ × A)
  map_insert k v es = (k, v) ∷ map_delete k es

  pub map_get-map_delete :
      (j k : ℕ) (es : List (ℕ × A))
      → map_get j (map_delete k es) ≡ (if k == j then none else map_get j es)
  map_get-map_delete j k [] = ground arith
  map_get-map_delete j k (e ∷ es) = ground (arith, map_get-map_delete j k es)

  pub map_get-map_insert :
      (j k : ℕ) (v : A) (es : List (ℕ × A))
      → map_get j (map_insert k v es) ≡ (if k == j then some v else map_get j es)
  map_get-map_insert j k v es = ground (arith, map_get-map_delete j k es)

  pub Memᴰ-map_delete :
      (k : ℕ) (e : ℕ × A) (es : List (ℕ × A)) → Memᴰ e (map_delete k es) → Memᴰ e es
  Memᴰ-map_delete k e [] h = h
  Memᴰ-map_delete k e (e' ∷ es) h = elim (Bool-cases (e'.0 == k)) [
    | inl same ↦ Memᴰ.tail (Memᴰ-map_delete k e es (subst (Memᴰ e) (rw same refl) h))
    | inr other ↦ elim (Memᴰ.cases_cons (subst (Memᴰ e) (rw other refl) h)) [
      | inl here ↦ Memᴰ.head here
      | inr later ↦ Memᴰ.tail (Memᴰ-map_delete k e es later)
    ]
  ]
