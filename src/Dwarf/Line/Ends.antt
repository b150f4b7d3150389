-- ===== src/Dwarf/Line/Ends.antt =====
-- Termination of the loops of dwarf/line.go, and what a header says where the line machine panics.
use native.Mathlib.Nat.{le_refl}
use debug.Common.{
  leb, ◌==◌, Bool-cases, if-cases, ℕ, zero, suc, ◌≤◌, ◌<◌, ◌≡◌, refl, inl, inr, Bool, arith,
}
use debug.Common.Result.{Result, ok, ◌>>=◌, Ensures, bind-Ensures, Any}
use debug.Dwarf.Buf.{Buf, advance, uint8, uint}
use debug.Dwarf.Buf.Shrinks.{
  left, uint8-shrinks, uint8_takes, uint16-shrinks, uint-shrinks, int-shrinks, addr-shrinks,
}
use debug.Dwarf.Line.Machine.{
  special_opcode_step1, advance_address, special_opcode_step2, special_opcode_steps4_to7, Next,
  again, return, output, special_opcode, extended_opcode, standard_opcode, line_op, eval_loop,
  eval_compilation_unit,
}
use debug.Dwarf.Line.{LineHeader, LineMachine, reset}

-- What a header must say of a panic: a division by zero, or a standard opcode past the last known.
pub record Excuses (h : LineHeader) (T : Type 0) : Type 0 where
  pub no_range : h.line_range ≡ 0 → T
  pub no_ops : h.max_ops_per_instruction ≡ 0 → T
  pub unknown_opcode : 13 < h.opcode_base → T

module _ {S : Type 0} (f : LineMachine → S → S × Bool) (T : Type 0) (h : LineHeader)
    (excuses : Excuses h T) where
  -- A round leaves no more to read than it found, and keeps the header.
  abbrev Good : ℕ → Next S → Type 0
  Good n (again m b s) = (left b ≤ n) × (m.header ≡ h)
  Good n (return s) = Unit {0}

  abbrev Keeps : LineMachine → Type 0
  Keeps m = m.header ≡ h

  step1-Ensures : (m : LineMachine) (op : ℕ) → Keeps m → Ensures T Keeps (special_opcode_step1 m op)
  unfolding special_opcode_step1
  step1-Ensures m op e = elim (Bool-cases (m.header.line_range == 0)) [
    | inl zero_range ↦ rw zero_range (excuses.no_range (ground arith))
    | inr range ↦ rw range e
  ]

  advance_address-Ensures :
      (m : LineMachine) (advance : ℕ) → Keeps m → Ensures T Keeps (advance_address m advance)
  unfolding advance_address
  advance_address-Ensures m advance e = elim (Bool-cases (m.header.max_ops_per_instruction == 0)) [
    | inl zero_ops ↦ rw zero_ops (excuses.no_ops (ground arith))
    | inr ops ↦ rw ops e
  ]

  step2-Ensures : (m : LineMachine) (op : ℕ) → Keeps m → Ensures T Keeps (special_opcode_step2 m op)
  unfolding special_opcode_step2
  step2-Ensures m op e = elim (Bool-cases (m.header.line_range == 0)) [
    | inl zero_range ↦ rw zero_range (excuses.no_range (ground arith))
    | inr range ↦ rw range (advance_address-Ensures m _ e)
  ]

  output-Ensures :
      (n : ℕ) (m : LineMachine) (s : S) (k : S → Result (Next S))
      → ((s' : S) → Ensures T (Good n) (k s'))
      → Ensures T (Good n) (output f m s k)
  output-Ensures n m s k h = if-cases (Ensures T (Good n)) (f m s).1 (h (f m s).0) tt

  steps4_to7-Keeps : (m : LineMachine) → Keeps m → Keeps (special_opcode_steps4_to7 m)
  unfolding special_opcode_steps4_to7
  steps4_to7-Keeps m e = e

  special_opcode-Ensures :
      (m : LineMachine) (op : ℕ) (b : Buf) (s : S)
      → Keeps m
      → Ensures T (Good (left b)) (special_opcode f m op b s)
  unfolding special_opcode
  special_opcode-Ensures m op b s e =
      bind-Ensures T Keeps (Good (left b)) (special_opcode_step1 m op) _ (step1-Ensures m op e)
        (λ m1 e1.
          bind-Ensures T Keeps (Good (left b)) (special_opcode_step2 m1 op) _
            (step2-Ensures m1 op e1)
            (λ m2 e2.
              output-Ensures (left b) m2 s (λ s'. ok (again (special_opcode_steps4_to7 m2) b s'))
                (λ s'. (le_refl _, steps4_to7-Keeps m2 e2))))

  extended_opcode-Ensures :
      (m : LineMachine) (b : Buf) (s : S)
      → Keeps m
      → Ensures T (Good (left b)) (extended_opcode f m b s)
  unfolding extended_opcode
  extended_opcode-Ensures m b s e = ground (
    arith,
    uint-shrinks b,
    uint8-shrinks (uint b).1,
    addr-shrinks (uint8 (uint b).1).1,
    uint-shrinks (uint8 (uint b).1).1,
  )

  advance_pc-Ensures :
      (m : LineMachine) (b : Buf) (s : S)
      → Keeps m
      → Ensures T (Good (left b)) (
          advance_address m (uint b).0 >>= λ m'.
          ok (again (special_opcode_steps4_to7 m') (uint b).1 s))
  advance_pc-Ensures m b s e =
      bind-Ensures T Keeps (Good (left b)) (advance_address m (uint b).0) _
        (advance_address-Ensures m (uint b).0 e) (λ m' e'. (uint-shrinks b, steps4_to7-Keeps m' e'))

  const_add_pc-Ensures :
      (m : LineMachine) (b : Buf) (s : S)
      → Keeps m
      → Ensures T (Good (left b)) (special_opcode_step2 m 255 >>= λ m'. ok (again m' b s))
  const_add_pc-Ensures m b s e =
      bind-Ensures T Keeps (Good (left b)) (special_opcode_step2 m 255) _ (step2-Ensures m 255 e)
        (λ m' e'. (le_refl _, e'))

  standard_opcode-Ensures :
      (m : LineMachine) (op : ℕ) (b : Buf) (s : S)
      → Keeps m
      → op < m.header.opcode_base
      → Ensures T (Good (left b)) (standard_opcode f m op b s)
  unfolding standard_opcode
  standard_opcode-Ensures m op b s e low = ground (
    arith,
    extended_opcode-Ensures m b s e,
    advance_pc-Ensures m b s e,
    const_add_pc-Ensures m b s e,
    steps4_to7-Keeps m e,
    uint-shrinks b,
    int-shrinks b,
    uint16-shrinks b,
    excuses.unknown_opcode,
  )

  line_op-Ensures :
      (m : LineMachine) (op : ℕ) (b : Buf) (s : S)
      → Keeps m
      → Ensures T (Good (left b)) (line_op f m op b s)
  unfolding line_op
  line_op-Ensures m op b s e = elim (Bool-cases (leb m.header.opcode_base op)) [
    | inl special ↦ rw special (special_opcode-Ensures m op b s e)
    | inr standard ↦ rw standard (standard_opcode-Ensures m op b s e (ground arith))
  ]

  -- What follows a round that left no more than n bytes, when the rest of the loop is all right.
  rest-Ensures :
      (n fuel : ℕ) (next : Next S)
      → ((m : LineMachine) (b : Buf) (s : S)
          → Keeps m
          → left b < fuel
          → Ensures T Any (eval_loop f fuel m b s))
      → n < fuel
      → Good n next
      → Ensures T Any
          (elim next [ again m' b'' s' ↦ eval_loop f fuel m' b'' s' | return s' ↦ ok s' ])
  rest-Ensures n fuel (again m b s) ih lt (l, k) = ih m b s k (omega arith)
  rest-Ensures n fuel (return s) ih lt g = tt

  eval_loop-Ensures :
      (fuel : ℕ) (m : LineMachine) (b : Buf) (s : S)
      → Keeps m
      → left b < fuel
      → Ensures T Any (eval_loop f fuel m b s)
  unfolding eval_loop
  eval_loop-Ensures zero m b s e h = absurd (omega arith)
  eval_loop-Ensures (suc fuel) m b s e h = elim (Bool-cases (left b == 0)) [
    | inl empty ↦ rw empty tt
    | inr more ↦
        let taken : left (uint8 b).1 < left b = uint8_takes b (ground arith) in
        rw more (
          bind-Ensures T (Good (left (uint8 b).1)) Any (line_op f m (uint8 b).0 (uint8 b).1 s) _
            (line_op-Ensures m (uint8 b).0 (uint8 b).1 s e)
            (λ n good.
              rest-Ensures (left (uint8 b).1) fuel n
                (λ m' b' s' k l. eval_loop-Ensures fuel m' b' s' k l) (omega arith) good))
  ]

  pub eval_compilation_unit-Ensures :
      (b : Buf) (s : S) → Ensures T Any (eval_compilation_unit f h b s)
  unfolding eval_compilation_unit reset
  eval_compilation_unit-Ensures b s =
      eval_loop-Ensures (suc (left b)) (reset h) b s refl (omega arith)
