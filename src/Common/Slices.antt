-- ===== src/Common/Slices.antt =====
-- Go's slice expressions on a slice whose capacity is its length: one that is out of range panics.
use debug.Common.{
  ltb, if◌then◌else◌, length, take, drop, ℕ, ◌≤◌, ◌<◌, ◌≡◌, refl, false, List, [], ◌∷◌, zero, suc,
  arith,
}
use debug.Common.Result.{Result, ok, panic}

module _ {ℓ} {A : Type ℓ} where
  -- `p[n:]`
  unfoldable pub tail_from : ℕ → List A → Result (List A)
  tail_from n p = if ltb (length p) n then panic else ok (drop n p)

  -- `p[:n]`
  unfoldable pub head_to : ℕ → List A → Result (List A)
  head_to n p = if ltb (length p) n then panic else ok (take n p)

  -- `p[i]`
  unfoldable pub element : List A → ℕ → Result A
  element [] i = panic
  element (x ∷ p) zero = ok x
  element (x ∷ p) (suc i) = element p i

  pub tail_from_within : (n : ℕ) (p : List A) → n ≤ length p → tail_from n p ≡ ok (drop n p)
  unfolding tail_from
  tail_from_within n p h = let fits : ltb (length p) n ≡ false = ground (arith, h) in rw fits refl

  pub head_to_within : (n : ℕ) (p : List A) → n ≤ length p → head_to n p ≡ ok (take n p)
  unfolding head_to
  head_to_within n p h = let fits : ltb (length p) n ≡ false = ground (arith, h) in rw fits refl

  pub element_within : (p : List A) (i : ℕ) → i < length p → (x : A) × (element p i ≡ ok x)
  unfolding element
  element_within [] i h = absurd (omega arith)
  element_within (x ∷ p) zero h = (x, refl)
  element_within (x ∷ p) (suc i) h = element_within p i (omega arith)
