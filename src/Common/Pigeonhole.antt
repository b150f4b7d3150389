-- ===== src/Common/Pigeonhole.antt =====
-- More numbers than there are values: two of them have the same value.
use debug.Common.{
  ◌==◌, if◌then◌else◌, Bool-cases, ==_iff, ℕ, zero, suc, ◌<◌, ◌≡◌, ◌≢◌, ◌⊎◌, inl, inr, arith,
}

-- A number below m has the value v, or none has.
meets_or_misses :
    (f : ℕ → ℕ) (m v : ℕ) → ((i : ℕ) × (i < m) × (f i ≡ v)) ⊎ ((i : ℕ) → i < m → f i ≢ v)
meets_or_misses f zero v = inr (λ i lt. absurd (omega arith))
meets_or_misses f (suc m) v = elim (meets_or_misses f m v) [
  | inl (i, lt, e) ↦ inl (i, omega arith, e)
  | inr misses ↦ elim (Bool-cases (f m == v)) [
    | inl same ↦ inl (m, omega arith, (==_iff (f m) v).0 same)
    | inr other ↦ inr (λ i lt e. elim (Bool-cases (i == m)) [
      | inl last ↦ absurd (ground (arith, last, other, e))
      | inr before ↦ misses i (ground (arith, before, lt)) e
    ])
  ]
]

-- The values below n, where f has the value v nowhere but at the end: v takes the place of n.
abbrev without : (ℕ → ℕ) → ℕ → ℕ → ℕ → ℕ
without f n v i = if f i == n then v else f i

without-inside :
    (f : ℕ → ℕ) (n m i : ℕ) → (f i ≢ f m) → f i < suc n → f m < suc n → without f n (f m) i < n
without-inside f n m i apart lt lt' = elim (Bool-cases (f i == n)) [
  | inl at_n ↦ rw at_n (ground (arith, at_n, apart, lt, lt'))
  | inr other ↦ rw other (ground (arith, other, lt))
]

without-same :
    (f : ℕ → ℕ) (n m i j : ℕ)
    → (f i ≢ f m)
    → (f j ≢ f m)
    → without f n (f m) i ≡ without f n (f m) j
    → f i ≡ f j
without-same f n m i j apart apart' e = ground (arith, apart, apart', e)

-- Where all of m numbers have values below n, and n is less than m, two have the same value.
pub pigeonhole :
    (n m : ℕ) (f : ℕ → ℕ)
    → ((i : ℕ) → i < m → f i < n)
    → n < m
    → (i : ℕ) × (j : ℕ) × (i < j) × (j < m) × (f i ≡ f j)
pigeonhole zero m f below lt = absurd (ground (arith, below 0 (omega arith)))
pigeonhole (suc n) zero f below lt = absurd (omega arith)
pigeonhole (suc n) (suc m) f below lt = elim (meets_or_misses f m (f m)) [
  | inl (i, less, e) ↦ (i, m, less, omega arith, e)
  | inr misses ↦
      let inside : (i : ℕ) → i < m → without f n (f m) i < n = λ i less.
        without-inside f n m i (misses i less) (below i (omega arith)) (below m (omega arith)) in
      let (i, j, lt', less, e) = pigeonhole n m (without f n (f m)) inside (omega arith) in
      (i, j, lt', omega arith, without-same f n m i j (misses i (omega arith)) (misses j less) e)
]
