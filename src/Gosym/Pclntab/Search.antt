-- ===== src/Gosym/Pclntab/Search.antt =====
-- gosym/pclntab.go: what findFunc finds in a well-formed function table.
use debug.Common.{
  ltb, leb, ◌==◌, Bool-cases, length, drop, length-drop, drop-drop, u32, Bytes, ℕ, zero, suc, ◌+◌,
  ◌-◌, ◌*◌, ◌/◌, ◌^◌, ◌≤◌, ◌<◌, ◌≡◌, refl, sym, ap, ◌∙◌, ◌⊎◌, inl, inr, true, false, ◌&&◌, Option,
  none, some, arith,
}
use native.Mathlib.Nat.{mul-add, mul-le-mul_left, mul_assoc, mul_comm}
use debug.Common.Result.{Result, ok, ◌>>=◌}
use debug.Gosym.Pclntab.Funcs.{covers, func_data, find_loop, find_func}
use debug.Gosym.Pclntab.{LineTable, slice_from, uintptr}

-- n functions, where function i starts at `pc_at i`, ends at `pc_at (i + 1)`, and is described
-- at `off_at i`: n PC and offset pairs and a last PC, by what uintptr reads there.
pub record IsFunctab (t : LineTable) (n : ℕ) (pc_at off_at : ℕ → ℕ) : Type 0 where
  pub count : t.nfunctab ≡ n
  pub size : length t.functab ≡ 2 * t.ptrsize * n + t.ptrsize
  pub small : 2 * t.ptrsize * n + t.ptrsize < 2 ^ 32
  pub pcs : (i : ℕ) → i ≤ n → uintptr t (drop (2 * t.ptrsize * i) t.functab) ≡ ok (pc_at i)
  pub offs :
      (i : ℕ) → i < n → uintptr t (drop (2 * t.ptrsize * i + t.ptrsize) t.functab) ≡ ok (off_at i)
  pub ascending : (i j : ℕ) → i ≤ j → j ≤ n → pc_at i ≤ pc_at j

module _ (t : LineTable) (n : ℕ) (pc_at off_at : ℕ → ℕ) (table : IsFunctab t n pc_at off_at) where
  -- The table from entry k on.
  abbrev entry : ℕ → Bytes
  entry k = drop (2 * t.ptrsize * k) t.functab

  length-entry : (k : ℕ) → length (entry k) ≡ length t.functab - 2 * t.ptrsize * k
  length-entry k = length-drop (2 * t.ptrsize * k) t.functab

  entry_fits : (k : ℕ) → k ≤ n → 2 * t.ptrsize * k + t.ptrsize ≤ length t.functab
  entry_fits k h = omega (arith, table.size, mul-le-mul_left (2 * t.ptrsize) h)

  slice_from-entry :
      (a b : ℕ) → a + b ≤ n → slice_from (2 * t.ptrsize * b) (entry a) ≡ ok (entry (a + b))
  unfolding slice_from
  slice_from-entry a b h =
      let split : 2 * t.ptrsize * (a + b) ≡ 2 * t.ptrsize * a + 2 * t.ptrsize * b =
        mul-add (2 * t.ptrsize) a b in
      let fits : ltb (length (entry a)) (2 * t.ptrsize * b) ≡ false =
        ground (arith, split, length-entry a, entry_fits (a + b) h) in
      let joined : drop (2 * t.ptrsize * b) (entry a) ≡ entry (a + b) =
        drop-drop (2 * t.ptrsize * a) (2 * t.ptrsize * b) t.functab
        ∙ ap (λ k. drop k t.functab) (sym split) in
      rw (fits, joined)

  middle :
      (a m : ℕ) → a + m ≤ n → slice_from (u32 (2 * t.ptrsize * m)) (entry a) ≡ ok (entry (a + m))
  middle a m h =
      let fits : 2 * t.ptrsize * m + t.ptrsize ≤ length t.functab = entry_fits m (omega arith) in
      let same : u32 (2 * t.ptrsize * m) ≡ 2 * t.ptrsize * m =
        omega (arith, fits, table.small, table.size) in
      rw same (slice_from-entry a m h)

  behind :
      (a m : ℕ)
      → a + (m + 1) ≤ n
      → slice_from (u32 ((m + 1) * 2 * t.ptrsize)) (entry a) ≡ ok (entry (a + (m + 1)))
  behind a m h =
      let turned : (m + 1) * 2 * t.ptrsize ≡ 2 * t.ptrsize * (m + 1) =
        mul_assoc (m + 1) 2 t.ptrsize ∙ mul_comm (m + 1) (2 * t.ptrsize) in
      rw turned (middle a (m + 1) h)

  covers-entry :
      (k pc : ℕ) → k < n → covers t (entry k) pc ≡ ok (leb (pc_at k) pc && ltb pc (pc_at (k + 1)))
  unfolding covers
  covers-entry k pc h = rw (table.pcs k (omega arith)) (elim (Bool-cases (ltb pc (pc_at k))) [
    | inl low ↦ let not_below : leb (pc_at k) pc ≡ false = ground arith in rw (low, not_below)
    | inr high ↦
        let below : leb (pc_at k) pc ≡ true = ground arith in
        let one : 2 * t.ptrsize * 1 ≡ 2 * t.ptrsize = omega arith in
        let next : slice_from (2 * t.ptrsize) (entry k) ≡ ok (entry (k + 1)) =
          ap (λ x. slice_from x (entry k)) (sym one) ∙ slice_from-entry k 1 (omega arith) in
        rw (high, below, next, table.pcs (k + 1) (omega arith))
  ])

  func_data-entry : (k : ℕ) → k < n → func_data t (entry k) ≡ slice_from (off_at k) t.content
  unfolding func_data
  func_data-entry k h =
      let cut : slice_from t.ptrsize (entry k)
          ≡ ok (drop (2 * t.ptrsize * k + t.ptrsize) t.functab) =
        ground (
          arith,
          entry_fits k (omega arith),
          length-entry k,
          drop-drop (2 * t.ptrsize * k) t.ptrsize t.functab,
        ) in
      rw (cut, table.offs k h)

  entry-zero : entry 0 ≡ t.functab
  entry-zero = let none_of_it : 2 * t.ptrsize * 0 ≡ 0 = omega arith in rw none_of_it refl

  first_pc : uintptr t t.functab ≡ ok (pc_at 0)
  first_pc = ap (uintptr t) (sym entry-zero) ∙ table.pcs 0 (omega arith)

  -- What the search gives for function i.
  abbrev func : ℕ → Result (Option Bytes)
  func i = slice_from (off_at i) t.content >>= λ d. ok (some d)

  find_loop-entry :
      (fuel pc i lo nf : ℕ)
      → nf < fuel
      → lo + nf ≤ n
      → lo ≤ i
      → i < lo + nf
      → pc_at i ≤ pc
      → pc < pc_at (i + 1)
      → find_loop t pc fuel (entry lo) nf ≡ func i
  unfolding find_loop
  find_loop-entry zero pc i lo nf f fits low high from to = absurd (omega arith)
  find_loop-entry (suc fuel) pc i lo nf f fits low high from to =
      let m = nf / 2 in
      let k = lo + m in
      let inside : k < n = omega arith in
      let some_left : (nf == 0) ≡ false = ground arith in
      let cut : slice_from (u32 (2 * t.ptrsize * m)) (entry lo) ≡ ok (entry k) =
        middle lo m (omega arith) in
      rw (some_left, cut, covers-entry k pc inside)
        (elim (Bool-cases (ltb i k)) [
          | inl before ↦
              let ordered : pc_at (i + 1) ≤ pc_at k =
                table.ascending (i + 1) k (ground arith) (omega arith) in
              let lower : leb (pc_at k) pc ≡ false = ground arith in
              let below : ltb pc (pc_at k) ≡ true = ground arith in
              rw (lower, table.pcs k (omega arith), below)
                (find_loop-entry fuel pc i lo m (omega arith) (omega arith) low (ground arith) from
                  to)
          | inr not_before ↦ elim (Bool-cases (ltb k i)) [
            | inl later ↦
                let ordered : pc_at (k + 1) ≤ pc_at i =
                  table.ascending (k + 1) i (ground arith) (omega arith) in
                let first : pc_at k ≤ pc_at i = table.ascending k i (ground arith) (omega arith) in
                let reached : leb (pc_at k) pc ≡ true = ground arith in
                let above : ltb pc (pc_at k) ≡ false = ground arith in
                let higher : ltb pc (pc_at (k + 1)) ≡ false = ground arith in
                rw (reached, higher, table.pcs k (omega arith), above, behind lo m (omega arith))
                  (find_loop-entry fuel pc i (lo + (m + 1)) (nf - (m + 1)) (omega arith)
                    (omega arith) (ground arith) (omega arith) from to)
            | inr not_later ↦
                let here : k ≡ i = ground arith in
                let reached : leb (pc_at k) pc ≡ true = rw here (ground arith) in
                let below : ltb pc (pc_at (k + 1)) ≡ true = rw here (ground arith) in
                rw (reached, below, func_data-entry k inside, here) refl
          ]
        ])

  find_loop-functab :
      (pc i : ℕ)
      → i < n
      → pc_at i ≤ pc
      → pc < pc_at (i + 1)
      → find_loop t pc (suc n) t.functab n ≡ func i
  find_loop-functab pc i h from to =
      ap (λ f. find_loop t pc (suc n) f n) (sym entry-zero)
      ∙ find_loop-entry (suc n) pc i 0 n (omega arith) (omega arith) (omega arith) (omega arith)
          from to

  -- In a well-formed table the search for a PC inside function i gives the data of function i.
  pub find_func-inside :
      (pc i : ℕ)
      → i < n
      → pc_at i ≤ pc
      → pc < pc_at (i + 1)
      → find_func t pc ≡ (slice_from (off_at i) t.content >>= λ d. ok (some d))
  unfolding find_func
  find_func-inside pc i h from to =
      let from_first : pc_at 0 ≤ pc_at i = table.ascending 0 i (omega arith) (omega arith) in
      let to_last : pc_at (i + 1) ≤ pc_at n =
        table.ascending (i + 1) n (omega arith) (omega arith) in
      let start : ltb pc (pc_at 0) ≡ false = ground arith in
      let end : leb (pc_at n) pc ≡ false = ground arith in
      let long : ltb (length t.functab) t.ptrsize ≡ false = ground (arith, table.size) in
      let last : length t.functab - t.ptrsize ≡ 2 * t.ptrsize * n = omega (arith, table.size) in
      rw (first_pc, start, long, last, table.pcs n (omega arith), end, table.count)
        (find_loop-functab pc i h from to)

  -- A PC before the first function or from the end of the last on has no function, and no panic.
  pub find_func-outside : (pc : ℕ) → (pc < pc_at 0) ⊎ (pc_at n ≤ pc) → find_func t pc ≡ ok none
  unfolding find_func
  find_func-outside pc (inl before) =
      let start : ltb pc (pc_at 0) ≡ true = ground arith in rw (first_pc, start)
  find_func-outside pc (inr behind) = elim (Bool-cases (ltb pc (pc_at 0))) [
    | inl start ↦ rw (first_pc, start)
    | inr start ↦
        let end : leb (pc_at n) pc ≡ true = ground arith in
        let long : ltb (length t.functab) t.ptrsize ≡ false = ground (arith, table.size) in
        let last : length t.functab - t.ptrsize ≡ 2 * t.ptrsize * n = omega (arith, table.size) in
        rw (first_pc, start, long, last, table.pcs n (omega arith), end)
  ]
