-- ===== src/Dwarf/Line/Paths/Suffix.antt =====
-- The size of the common suffix of two paths, against the paths as lists of components.
use mathlib.Core.Path.{ap₂}
use debug.Common.{
  Bool-cases, length, get_or, drop, drop-drop, Bytes, ℕ, zero, suc, ◌+◌, ◌-◌, ◌≤◌, ◌<◌, min, ◌≡◌,
  refl, sym, ap, ◌∙◌, ◌↔◌, inl, inr, true, List, [], ◌∷◌, arith,
}
use native.Mathlib.Numerals.{add-one}
use debug.Dwarf.Line.Paths.{
  bytes_eq, split, same_component, suffix_loop, matching_path_component_suffix_size,
}

pub bytes_eq_iff : (xs ys : Bytes) → (bytes_eq xs ys ≡ true) ↔ (xs ≡ ys)
unfolding bytes_eq
bytes_eq_iff (x ∷ xs) (y ∷ ys) = ground (arith, bytes_eq_iff xs ys)
bytes_eq_iff _ _ = ground arith

drop_whole : (c : List Bytes) → drop (length c - 0) c ≡ []
drop_whole [] = refl
drop_whole (p ∷ ps) =
    let e : suc (length ps) - 0 ≡ suc (length ps - 0) = omega arith in rw e (drop_whole ps)

-- The last `n` components of the lists are equal.
abbrev SameEnd : ℕ → List Bytes → List Bytes → Type 0
SameEnd n c1 c2 = drop (length c1 - n) c1 ≡ drop (length c2 - n) c2

drop_last : (k : ℕ) (c : List Bytes) → k < length c → drop k c ≡ get_or c k [] ∷ drop (suc k) c
drop_last k [] h = absurd (omega arith)
drop_last zero (p ∷ ps) h = refl
drop_last (suc k) (p ∷ ps) h = drop_last k ps (omega arith)

end_step :
    (n : ℕ) (c : List Bytes)
    → n < length c
    → drop (length c - suc n) c ≡ get_or c (length c - 1 - n) [] ∷ drop (length c - n) c
end_step n c h =
    let here : length c - suc n ≡ length c - 1 - n = omega arith in
    let next : suc (length c - 1 - n) ≡ length c - n = omega arith in
    ap (λ k. drop k c) here
    ∙ drop_last (length c - 1 - n) c (omega arith)
    ∙ ap (λ k. get_or c (length c - 1 - n) [] ∷ drop k c) next

-- One component more at the front of the ends.
SameEnd-suc :
    (n : ℕ) (c1 c2 : List Bytes)
    → n < length c1
    → n < length c2
    → SameEnd n c1 c2
    → (same_component c1 c2 n ≡ true) ↔ SameEnd (suc n) c1 c2
unfolding same_component
SameEnd-suc n c1 c2 h1 h2 e = (
  λ t. end_step n c1 h1 ∙ ap₂ ◌∷◌ ((bytes_eq_iff g1 g2).0 t) e ∙ sym (end_step n c2 h2),
  λ t. (bytes_eq_iff g1 g2).1 (cc (end_step n c1 h1, end_step n c2 h2, t)),
)
  where
    g1 : Bytes
    g1 = get_or c1 (length c1 - 1 - n) []

    g2 : Bytes
    g2 = get_or c2 (length c2 - 1 - n) []

-- A shorter common end.
SameEnd-le :
    (n k : ℕ) (c1 c2 : List Bytes)
    → n ≤ k
    → k ≤ length c1
    → k ≤ length c2
    → SameEnd k c1 c2
    → SameEnd n c1 c2
SameEnd-le n k c1 c2 h h1 h2 e =
    let e1 : length c1 - k + (k - n) ≡ length c1 - n = omega arith in
    let e2 : length c2 - k + (k - n) ≡ length c2 - n = omega arith in
    ap (λ j. drop j c1) (sym e1)
    ∙ sym (drop-drop (length c1 - k) (k - n) c1)
    ∙ ap (drop (k - n)) e
    ∙ drop-drop (length c2 - k) (k - n) c2
    ∙ ap (λ j. drop j c2) e2

-- `n` components at the end are equal, and no larger number is.
pub record IsLargest (c1 c2 : List Bytes) (n : ℕ) : Type 0 where
  pub within : n ≤ min (length c1) (length c2)
  pub same : SameEnd n c1 c2
  pub largest : (k : ℕ) → n < k → k ≤ min (length c1) (length c2) → ¬ SameEnd k c1 c2

suffix_loop-IsLargest :
    (rounds n : ℕ) (c1 c2 : List Bytes)
    → n + rounds ≡ min (length c1) (length c2)
    → SameEnd n c1 c2
    → IsLargest c1 c2 (suffix_loop rounds n c1 c2)
unfolding suffix_loop
suffix_loop-IsLargest zero n c1 c2 h e = record {
  within = omega arith;
  same = e;
  largest = λ k p q _. absurd (omega arith);
}
suffix_loop-IsLargest (suc rounds) n c1 c2 h e = elim (Bool-cases (same_component c1 c2 n)) [
  | inl equal ↦ rw equal (
      suffix_loop-IsLargest rounds (n + 1) c1 c2 (omega arith)
        (rw add-one ((SameEnd-suc n c1 c2 (omega arith) (omega arith) e).0 equal)))
  | inr differs ↦ rw differs (record {
    within = omega arith;
    same = e;
    largest = λ k p q longer. cc (
      differs,
      (SameEnd-suc n c1 c2 (omega arith) (omega arith) e).1
          (SameEnd-le (suc n) k c1 c2 p (omega arith) (omega arith) longer),
    );
  })
]

-- For two paths, matchingPathComponentSuffixSize gives the largest n such that their last n
-- components, parted at slashes, are equal.
pub matching_path_component_suffix_size-IsLargest :
    (p1 p2 : Bytes)
    → IsLargest (split b'/' p1) (split b'/' p2) (matching_path_component_suffix_size p1 p2)
unfolding matching_path_component_suffix_size
matching_path_component_suffix_size-IsLargest p1 p2 =
    suffix_loop-IsLargest _ 0 (split b'/' p1) (split b'/' p2) (ground arith)
      (drop_whole (split b'/' p1) ∙ sym (drop_whole (split b'/' p2)))
