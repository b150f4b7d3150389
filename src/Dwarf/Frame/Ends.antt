-- ===== src/Dwarf/Frame/Ends.antt =====
-- Termination and panics of dwarf/frame.go.
use debug.Common.{
  ltb, leb, ◌==◌, Bool-cases, if-cases, length, take, length-drop, ℕ, zero, suc, ◌-◌, ◌^◌, ◌≤◌, ◌<◌,
  ◌≡◌, refl, ◌≢◌, ◌⊎◌, inl, inr, ◌&&◌, List, [], ◌∷◌, arith,
}
use debug.Common.Result.{Error, Result, Answers, bind-Answers, Answers-cases, Answers-weaken, Any}
use debug.Dwarf.Buf.{Buf, make_buf, advance, uint8, uint32, uint, int}
use debug.Dwarf.Buf.Shrinks.{
  left, uint8-shrinks, uint8_takes, uint16-shrinks, uint32-shrinks, uint32_takes, uint-shrinks,
  int-shrinks, slice_fits,
}
use debug.Dwarf.Data.{CompUnit, unit_format, Data}
use debug.Dwarf.Frame.{
  FrameMachine, zero_machine, failf, unimplemented, return_offset, extended_op, frame_op, run_loop,
  run, cie_fields, cie_body, parse_cie, fde_fields, outside, run_in_range, fde_body, scan_fde,
  scan_loop, eval_compilation_unit, pc_to_sp_offset,
}

-- A step of the machine leaves no more to read than it found.
abbrev Within : ℕ → FrameMachine × Buf → Type 0
Within n s = left s.1 ≤ n

unimplemented-Answers : (op n : ℕ) → Answers (Within n) (unimplemented op)
unfolding unimplemented
unimplemented-Answers op n = ground arith

module _ (m : FrameMachine) (op : ℕ) (b : Buf) where
  return_offset-Within : (b' : Buf) → left b' ≤ left b → Within (left b) (return_offset m b')
  return_offset-Within b' h = omega (arith, h, uint-shrinks b')

  extended_op-Answers : Answers (Within (left b)) (extended_op m op b)
  unfolding extended_op
  extended_op-Answers = ground (
    arith,
    unimplemented-Answers op (left b),
    uint8-shrinks b,
    uint16-shrinks b,
    uint32-shrinks b,
    int-shrinks b,
    uint-shrinks b,
    uint-shrinks (int b).1,
    uint-shrinks (uint b).1,
  )

  frame_op-Answers : Answers (Within (left b)) (frame_op m op b)
  unfolding frame_op
  frame_op-Answers = ground (arith, extended_op-Answers, uint-shrinks b)

run_loop-Answers :
    (fuel : ℕ) (m : FrameMachine) (b : Buf) (pc : ℕ)
    → left b < fuel
    → Answers (Within (left b)) (run_loop fuel m b pc)
unfolding run_loop
run_loop-Answers zero m b pc h = absurd (omega arith)
run_loop-Answers (suc fuel) m b pc h = elim (Bool-cases (leb m.location pc && ltb 0 (left b))) [
  | inr stop ↦ rw stop (omega arith)
  | inl go ↦
      let taken : left (uint8 b).1 < left b = uint8_takes b (ground arith) in
      rw go (
        bind-Answers (Within (left (uint8 b).1)) (Within (left b))
          (frame_op m (uint8 b).0 (uint8 b).1) _ (frame_op-Answers m (uint8 b).0 (uint8 b).1)
          (λ s k.
            Answers-weaken (Within (left s.1)) (Within (left b)) (run_loop fuel s.0 s.1 pc)
              (λ t within. omega arith) (run_loop-Answers fuel s.0 s.1 pc (omega arith))))
]

run-Answers : (m : FrameMachine) (b : Buf) (pc : ℕ) → Answers (Any) (run m b pc)
unfolding run
run-Answers m b pc =
    Answers-weaken (Within (left b)) Any (run_loop (suc (left b)) m b pc) (λ _ _. tt)
      (run_loop-Answers (suc (left b)) m b pc (omega arith))

cie_fields-Answers : (m : FrameMachine) (b : Buf) → Answers Any (cie_fields m b)
unfolding cie_fields
cie_fields-Answers m b = ground arith

cie_body-Answers : (m : FrameMachine) (b all' : Buf) → Answers (λ s. s.1 ≡ all') (cie_body m b all')
unfolding cie_body
cie_body-Answers m b all' =
    bind-Answers Any (λ (s : FrameMachine × Buf). s.1 ≡ all') (cie_fields m b) _
      (cie_fields-Answers m b)
      (λ h _.
        bind-Answers Any (λ (s : FrameMachine × Buf). s.1 ≡ all') (run h.0 h.1 (2 ^ 64 - 1)) _
          (run-Answers h.0 h.1 (2 ^ 64 - 1)) (λ s _. refl))

abbrev head_slice : Buf → ℕ → Buf
head_slice b n = record b { unread = take n b.unread }

advance_within : (all : Buf) (n : ℕ) → left (advance (uint32 all).1 n) ≤ left all
advance_within all n = omega (arith, length-drop n (uint32 all).1.unread, uint32-shrinks all)

advance_below :
    (all : Buf) (n : ℕ) → (uint32 all).0 ≢ 0 → left (advance (uint32 all).1 n) < left all
advance_below all n h = omega (arith, length-drop n (uint32 all).1.unread, uint32_takes all h)

-- The CIE's bytes are sliced off only where they are there.
parse_cie-Answers :
    (m : FrameMachine) (all : Buf)
    → Answers (λ (s : FrameMachine × Buf). left s.1 ≤ left all) (parse_cie m all)
unfolding parse_cie
parse_cie-Answers m all = elim (Bool-cases (ltb (left all1) n)) [
  | inl short ↦ rw short tt
  | inr fits ↦
      rw (fits, slice_fits all1 n (ground arith))
        (Answers-weaken (λ (s : FrameMachine × Buf). s.1 ≡ advance all1 n)
          (λ (s : FrameMachine × Buf). left s.1 ≤ left all)
          (cie_body m (head_slice all1 n) (advance all1 n)) (λ s e. rw e (advance_within all n))
          (cie_body-Answers m (head_slice all1 n) (advance all1 n)))
]
  where
    n : ℕ
    n = (uint32 all).0

    all1 : Buf
    all1 = (uint32 all).1

fde_fields-Answers : (b : Buf) → Answers Any (fde_fields b)
unfolding fde_fields
fde_fields-Answers b = ground arith

run_in_range-Answers :
    (m : FrameMachine) (pc : ℕ) (all' : Buf) (loc range : ℕ) (b : Buf)
    → Answers (λ s. s.rest ≡ all') (run_in_range m pc all' loc range b)
unfolding run_in_range
run_in_range-Answers m pc all' loc range b = elim (Bool-cases (outside loc range pc)) [
  | inl out ↦ rw out refl
  | inr in_range ↦ rw in_range (
      bind-Answers Any (λ s. s.rest ≡ all') (run (record m { location = loc }) b pc) _
        (run-Answers (record m { location = loc }) b pc) (λ s _. refl))
]

fde_body-Answers :
    (m : FrameMachine) (pc : ℕ) (b all' : Buf) → Answers (λ s. s.rest ≡ all') (fde_body m pc b all')
unfolding fde_body
fde_body-Answers m pc b all' =
    bind-Answers Any (λ s. s.rest ≡ all') (fde_fields b) _ (fde_fields-Answers b)
      (λ h _. run_in_range-Answers m pc all' h.0 h.1 h.2)

-- An FDE takes at least its length field.
scan_fde-Answers :
    (m : FrameMachine) (all : Buf) (pc : ℕ)
    → Answers (λ s. left s.rest < left all) (scan_fde m all pc)
unfolding scan_fde
scan_fde-Answers m all pc = elim (Bool-cases (ltb (left all1) n)) [
  | inl short ↦ rw short tt
  | inr fits ↦ elim (Bool-cases (n == 0)) [
    | inl last ↦ rw (fits, last) tt
    | inr more ↦
        rw (fits, more, slice_fits all1 n (ground arith))
          (Answers-weaken (λ s. s.rest ≡ advance all1 n) (λ s. left s.rest < left all)
            (fde_body m pc (head_slice all1 n) (advance all1 n))
            (λ s e. rw e (advance_below all n (ground arith)))
            (fde_body-Answers m pc (head_slice all1 n) (advance all1 n)))
  ]
]
  where
    n : ℕ
    n = (uint32 all).0

    all1 : Buf
    all1 = (uint32 all).1

scan_loop-Answers :
    (fuel : ℕ) (m : FrameMachine) (b : Buf) (pc : ℕ)
    → left b < fuel
    → Answers (Any) (scan_loop fuel m b pc)
unfolding scan_loop
scan_loop-Answers zero m b pc h = absurd (omega arith)
scan_loop-Answers (suc fuel) m b pc h =
    bind-Answers (λ s. left s.rest < left b) (Any) (scan_fde m b pc) _ (scan_fde-Answers m b pc)
      (λ s k.
        if-cases (Answers (Any)) s.found tt
          (scan_loop-Answers fuel s.machine s.rest pc (omega arith)))

eval_compilation_unit-Answers :
    (m : FrameMachine) (b : Buf) (pc : ℕ) → Answers (Any) (eval_compilation_unit m b pc)
unfolding eval_compilation_unit
eval_compilation_unit-Answers m b pc =
    bind-Answers (λ s. left s.1 ≤ left b) (Any) (parse_cie m b) _ (parse_cie-Answers m b)
      (λ s k. scan_loop-Answers (suc (left s.1)) s.0 s.1 pc (omega arith))

pc_to_sp_offset-Answers : (d : Data) (pc : ℕ) → Answers Any (pc_to_sp_offset d pc)
unfolding pc_to_sp_offset
pc_to_sp_offset-Answers d pc = if-cases (Answers {A = ℕ} Any) (length d.frame == 0) tt (go d.units)
  where
    go :
        (us : List CompUnit)
        → Answers {A = ℕ} Any (elim us [
          | [] ↦ failf "PCToSPOffset: no info section" []
          | u ∷ us ↦
              eval_compilation_unit zero_machine
                (make_buf d.order (unit_format u) "frame" 0 d.frame)
                pc
        ])
    go [] = tt
    go (u ∷ us) = eval_compilation_unit-Answers zero_machine _ pc

-- PCToSPOffset answers on every section data and every PC, with an offset or an error: its loops
-- end and nothing in it panics.
pub pc_to_sp_offset_total :
    (d : Data) (pc : ℕ)
    → ((offset : ℕ) × (pc_to_sp_offset d pc ≡ Result.ok offset))
      ⊎ ((e : Error) × (pc_to_sp_offset d pc ≡ Result.err e))
pc_to_sp_offset_total d pc =
    elim (Answers-cases Any (pc_to_sp_offset d pc) (pc_to_sp_offset-Answers d pc)) [
      | inl (offset, e, _) ↦ inl (offset, e)
      | inr failed ↦ inr failed
    ]
