-- ===== src/Server/Typedefs/Ends.antt =====
-- server/eval.go: what followTypedefs finds where the typedefs come to an end.
use mathlib.Core.Path.{subst}
use debug.Common.{
  ==_iff, Bool-cases, length, ℕ, zero, suc, ◌≤◌, ◌<◌, ◌≡◌, refl, sym, ap, inl, inr, true, false,
  Option, none, some, arith,
}
use debug.Server.Typedefs.{next_type, same_type, follow_loop, follow_typedefs}
use debug.Common.Result.{ok}
use debug.Dwarf.Types.{TypeHeap, typedef_of}

-- n typedefs, one behind the other, lead from a type to another one, which is none.
abbrev pub LeadsTo : TypeHeap → ℕ → Option ℕ → Option ℕ → Type 0
LeadsTo h zero t r = (typedef_of h t ≡ none) × (r ≡ t)
LeadsTo h (suc n) t r = (u : Option ℕ) × (typedef_of h t ≡ some u) × LeadsTo h n u r

same_type-eq : (s t : Option ℕ) → same_type s t ≡ true → s ≡ t
same_type-eq none none h = refl
same_type-eq none (some b) h = absurd (ground (arith, h))
same_type-eq (some a) none h = absurd (ground (arith, h))
same_type-eq (some a) (some b) h = ap some ((==_iff a b).0 h)

next_type-some : (h : TypeHeap) (t u : Option ℕ) → typedef_of h t ≡ some u → next_type h t ≡ u
next_type-some h t u e = ap (λ (o : Option (Option ℕ)). elim o [ none ↦ t | some v ↦ v ]) e

module _ (h : TypeHeap) where
  same_length : (m n : ℕ) (t r : Option ℕ) → LeadsTo h m t r → LeadsTo h n t r → m ≡ n
  same_length zero zero t r p q = refl
  same_length zero (suc n) t r p q = absurd (ground (arith, p.0, q.1))
  same_length (suc m) zero t r p q = absurd (ground (arith, p.1, q.0))
  same_length (suc m) (suc n) t r (u, e, p) (v, e', q) =
      ap suc (same_length m n u r p (subst (λ x. LeadsTo h n x r) (cc) q))

  follow_loop-end :
      (fuel a b : ℕ) (slow fast r : Option ℕ)
      → LeadsTo h a slow r
      → LeadsTo h b fast r
      → b ≤ a
      → b < fuel
      → follow_loop fuel h slow fast ≡ ok r
  unfolding follow_loop
  follow_loop-end zero a b slow fast r p q le lt = absurd (omega arith)
  follow_loop-end (suc fuel) a zero slow fast r p q le lt = rw (q.0, follow_loop) (ap ok (sym q.1))
  follow_loop-end (suc fuel) a (suc zero) slow fast r p (f1, e1, q) le lt =
      rw (e1, follow_loop) (rw q.0 (ap ok (sym q.1)))
  follow_loop-end (suc fuel) zero (suc (suc b)) slow fast r p q le lt = absurd (omega arith)
  follow_loop-end (suc fuel) (suc a) (suc (suc b)) slow fast r (s1, e, p) (f1, e1, (f2, e2, q)) le
        lt =
      let apart : same_type s1 f2 ≡ false = elim (Bool-cases (same_type s1 f2)) [
        | inl same ↦ absurd (
            omega (
              arith,
              same_length a b f2 r (subst (λ x. LeadsTo h a x r) (same_type-eq s1 f2 same) p) q,
            ))
        | inr other ↦ other
      ] in
      rw (e1, follow_loop)
        (rw e2 (
          rw (next_type-some h slow s1 e)
            (rw apart (follow_loop-end fuel a b s1 f2 r p q (omega arith) (omega arith)))))

  -- Where at most as many typedefs as there are types lead from a type to one that is none, that type
  -- is given: the two pointers do not meet on the way.
  pub follow_typedefs-LeadsTo :
      (n : ℕ) (t r : Option ℕ) → LeadsTo h n t r → n ≤ length h → follow_typedefs h t ≡ ok r
  unfolding follow_typedefs
  follow_typedefs-LeadsTo n t r p le =
      follow_loop-end (suc (length h)) n n t t r p p (omega arith) (omega arith)
