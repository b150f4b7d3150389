-- ===== src/Gosym/Pclntab/Stops.antt =====
-- gosym/pclntab.go: where parse leaves a table in the old format.
use native.Mathlib.Nat.{le_refl}
use debug.Common.{
  ltb, leb, ◌==◌, Bool-cases, if-cases, length, drop, length-drop, u64, Bytes, big_endian,
  order_uint?, ℕ, zero, suc, ◌+◌, ◌≤◌, ◌<◌, ◌≡◌, refl, ◌⊎◌, inl, inr, not, ◌&&◌, Option, none, some,
  [], ◌∷◌, arith,
}
use debug.Common.Result.{ok}
use debug.Gosym.Pclntab.Old.{Parsed, parse_step, parse_read, parse_loop, parse}
use debug.Gosym.Pclntab.{LineTable}

parse_step-shrinks :
    (code : ℕ) (b : Bytes) (pc line : ℕ) → length (parse_step code b pc line).b ≤ length b
unfolding parse_step
parse_step-shrinks code b pc line =
    let P : Parsed → Type 0 = λ s. length s.b ≤ length b in
    if-cases P (code == 0) (cut (order_uint? big_endian 4 b))
      (if-cases P (leb code 64) (le_refl _) (if-cases P (leb code 128) (le_refl _) (le_refl _)))
  where
    cut :
        (o : Option ℕ)
        → length
            (elim o as (λ x. Parsed) [
              | none ↦ record { b = []; pc = u64 (pc + 1); line = line }
              | some val ↦ record { b = drop 4 b; pc = u64 (pc + 1); line = u64 (line + val) }
            ]).b
          ≤ length b
    cut none = omega arith
    cut (some val) = omega (arith, length-drop 4 b)

parse_read-shrinks :
    (b : Bytes) (pc line : ℕ) → 0 < length b → length (parse_read b pc line).b < length b
parse_read-shrinks [] pc line h = absurd (omega arith)
parse_read-shrinks (code ∷ b) pc line h = omega (arith, parse_step-shrinks code b pc line)

-- What ends the loop: the PC is past the target, the line is the target, or the data is used up.
abbrev pub Stopped : ℕ → ℕ → Parsed → Type 0
Stopped target_pc target_line p = (target_pc < p.pc) ⊎ ((p.line ≡ target_line) ⊎ (length p.b ≡ 0))

parse_loop-Stopped :
    (fuel target_pc target_line : ℕ) (b : Bytes) (pc line : ℕ)
    → length b < fuel
    → (p : Parsed) × (parse_loop fuel target_pc target_line b pc line ≡ ok p)
      × Stopped target_pc target_line p
unfolding parse_loop
parse_loop-Stopped zero target_pc target_line b pc line h = absurd (omega arith)
parse_loop-Stopped (suc fuel) target_pc target_line b pc line h =
    elim (Bool-cases (leb pc target_pc && (not (line == target_line) && ltb 0 (length b)))) [
      | inl more ↦
          let s = parse_read b pc line in
          let some_left : 0 < length b = ground arith in
          let (p, e, stopped) =
            parse_loop-Stopped fuel target_pc target_line s.b s.pc s.line
              (omega (arith, parse_read-shrinks b pc line some_left)) in
          (p, rw more e, stopped)
      | inr end ↦ (record { b = b; pc = pc; line = line }, rw end refl, ground arith)
    ]

-- On every table in the old format parse returns, with the PC past its target, on the target line,
-- or with no data left.
pub parse-Stopped :
    (t : LineTable) (target_pc target_line : ℕ)
    → (p : Parsed) × (parse t target_pc target_line ≡ ok p) × Stopped target_pc target_line p
unfolding parse
parse-Stopped t target_pc target_line =
    parse_loop-Stopped (suc (length t.content)) target_pc target_line t.content t.pc t.line
      (omega arith)
