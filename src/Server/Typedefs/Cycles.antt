-- ===== src/Server/Typedefs/Cycles.antt =====
-- server/eval.go: what followTypedefs finds where the typedefs go round in a cycle.
use mathlib.Core.Path.{subst}
use native.Mathlib.Decide.{dec_lt}
use native.Mathlib.Nat.{mod-lt, div-add-mod, suc-mul, mul_comm}
use debug.Common.{
  Bool-cases, length, get_elem?, ℕ, zero, suc, ◌+◌, ◌-◌, ◌*◌, ◌/◌, ◌≤◌, ◌<◌, ◌≡◌, refl, sym, ap,
  ◌∙◌, ◌≢◌, inl, inr, true, false, Option, none, some, List, [], ◌∷◌, arith,
}
use debug.Common.Pigeonhole.{pigeonhole}
use debug.Common.Result.{ok}
use debug.Dwarf.Types.{TypeHeap, typedef_of}
use debug.Server.Typedefs.{next_type, same_type, follow_loop, follow_typedefs}

-- The type that n steps of the function next give.
abbrev pub after_steps : TypeHeap → ℕ → Option ℕ → Option ℕ
after_steps h zero t = t
after_steps h (suc n) t = next_type h (after_steps h n t)

-- Typedefs behind a type without end.
abbrev pub Endless : TypeHeap → Option ℕ → Type 0
Endless h t = (n : ℕ) → typedef_of h (after_steps h n t) ≢ none

same_type_refl : (t : Option ℕ) → same_type t t ≡ true
same_type_refl none = refl
same_type_refl (some a) = ground arith

equal-same_type : (t u : Option ℕ) → t ≡ u → same_type t u ≡ true
equal-same_type t u e = subst (λ x. same_type t x ≡ true) e (same_type_refl t)

get_elem?-lt {ℓ} : {A : Type ℓ} (xs : List A) (i : ℕ) → get_elem? xs i ≢ none → i < length xs
get_elem?-lt [] i there = absurd (there refl)
get_elem?-lt (x ∷ xs) zero there = omega arith
get_elem?-lt (x ∷ xs) (suc i) there = let lt = get_elem?-lt xs i there in omega arith

some_of :
    (o : Option (Option ℕ)) (t : Option ℕ) → o ≢ none → o ≡ some (elim o [ none ↦ t | some u ↦ u ])
some_of none t there = absurd (there refl)
some_of (some u) t there = refl

-- The place in the heap of a type, where it has one.
abbrev place : Option ℕ → ℕ
place none = 0
place (some a) = a

module _ (h : TypeHeap) where
  typedef-place : (u : Option ℕ) → typedef_of h u ≢ none → u ≡ some (place u)
  typedef-place none there = absurd (there refl)
  typedef-place (some a) there = refl

  typedef-inside : (u : Option ℕ) → typedef_of h u ≢ none → place u < length h
  typedef-inside none there = absurd (there refl)
  typedef-inside (some a) there = get_elem?-lt h a (λ e. there (rw (e, typedef_of) refl))

  module _ (t : Option ℕ) (endless : Endless h t) where
    at_equal : (m n : ℕ) → m ≡ n → after_steps h m t ≡ after_steps h n t
    at_equal m n e = ap (λ k. after_steps h k t) e

    -- The two pointers meet at the j-th type where it is the 2j-th too.
    follow_loop-meets :
        (fuel i j : ℕ)
        → i < j
        → j ≤ i + fuel
        → after_steps h j t ≡ after_steps h (2 * j) t
        → follow_loop fuel h (after_steps h i t) (after_steps h (2 * i) t) ≡ ok none
    unfolding follow_loop
    follow_loop-meets zero i j lt le e = absurd (omega arith)
    follow_loop-meets (suc fuel) i j lt le e =
        let first =
          some_of (typedef_of h (after_steps h (2 * i) t)) (after_steps h (2 * i) t)
            (endless (2 * i)) in
        let second =
          some_of (typedef_of h (after_steps h (suc (2 * i)) t)) (after_steps h (suc (2 * i)) t)
            (endless (suc (2 * i))) in
        let twice : after_steps h (suc (suc (2 * i))) t ≡ after_steps h (2 * suc i) t =
          at_equal (suc (suc (2 * i))) (2 * suc i) (omega arith) in
        let before : same_type (after_steps h (suc i) t) (after_steps h (2 * suc i) t) ≡ false
            → suc i < j =
          λ other. elim (dec_lt (suc i) j) [
            | yes less ↦ less
            | no more ↦
                let met = at_equal j (suc i) (omega arith) in
                let met' = at_equal (2 * j) (2 * suc i) (omega arith) in
                absurd (
                  ground (
                    arith,
                    other,
                    equal-same_type (after_steps h (suc i) t) (after_steps h (2 * suc i) t)
                        (sym met ∙ e ∙ met'),
                  ))
          ] in
        rw (first, follow_loop)
          (rw second (
            rw twice
              (elim (Bool-cases
                (same_type (after_steps h (suc i) t) (after_steps h (2 * suc i) t))) [
                  | inl same ↦ rw same refl
                  | inr other ↦
                      rw other (follow_loop-meets fuel (suc i) j (before other) (omega arith) e)
                ])))

    module _ (i p : ℕ) (e : after_steps h i t ≡ after_steps h (i + p) t) where
      comes_again : (k : ℕ) → after_steps h (i + k) t ≡ after_steps h (i + k + p) t
      comes_again zero =
          at_equal (i + zero) i (omega arith) ∙ e ∙ at_equal (i + p) (i + zero + p) (omega arith)
      comes_again (suc k) =
          at_equal (i + suc k) (suc (i + k)) (omega arith)
          ∙ ap (next_type h) (comes_again k)
          ∙ at_equal (suc (i + k + p)) (i + suc k + p) (omega arith)

      comes_round : (m c : ℕ) → i ≤ m → after_steps h m t ≡ after_steps h (m + c * p) t
      comes_round m zero le = at_equal m (m + zero * p) (omega arith)
      comes_round m (suc c) le =
          comes_round m c le
          ∙ at_equal (m + c * p) (i + (m + c * p - i)) (omega arith)
          ∙ comes_again (m + c * p - i)
          ∙ at_equal (i + (m + c * p - i) + p) (m + suc c * p) (omega (arith, suc-mul c p))

    -- The first multiple of the period p behind number i.
    abbrev round : ℕ → ℕ → ℕ
    round i p = suc (i / p) * p

    round-between : (i p : ℕ) → 0 < p → (i < round i p) × (round i p ≤ i + p)
    round-between i p lt = (
      omega (arith, suc-mul (i / p) p, mul_comm p (i / p), div-add-mod i p, mod-lt i lt),
      omega (arith, suc-mul (i / p) p, mul_comm p (i / p), div-add-mod i p, mod-lt i lt),
    )

    one_place :
        (i j : ℕ)
        → place (after_steps h i t) ≡ place (after_steps h j t)
        → after_steps h i t ≡ after_steps h j t
    one_place i j e =
        typedef-place (after_steps h i t) (endless i)
        ∙ ap some e
        ∙ sym (typedef-place (after_steps h j t) (endless j))

    -- Where typedefs follow a type without end, so that they come round again, the result is
    -- nil, within one round more than there are types.
    pub follow_typedefs-Endless : follow_typedefs h t ≡ ok none
    unfolding follow_typedefs
    follow_typedefs-Endless =
        let index : ℕ → ℕ = λ n. place (after_steps h n t) in
        let (i, j, lt, less, e) =
          pigeonhole (length h) (suc (length h)) index
            (λ n less. typedef-inside (after_steps h n t) (endless n)) (omega arith) in
        let p = j - i in
        let period = one_place i j e ∙ at_equal j (i + p) (omega arith) in
        let (past, within) = round-between i p (omega arith) in
        let again = comes_round i p period (round i p) (suc (i / p)) (omega arith) in
        follow_loop-meets (suc (length h)) 0 (round i p) (omega arith) (omega arith)
          (again ∙ at_equal (round i p + round i p) (2 * round i p) (omega arith))
