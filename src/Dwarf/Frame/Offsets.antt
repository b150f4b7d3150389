-- ===== src/Dwarf/Frame/Offsets.antt =====
-- The frame machine run over the bytes of a table.
use native.Mathlib.Nat.{le_refl}
use native.Mathlib.Decide.{dec_le}
use debug.Common.{
  leb, length, length-append, u64, Bytes, ByteOrder, order_value, ℕ, suc, ◌+◌, ◌-◌, ◌*◌, ◌^◌, ◌≤◌,
  ◌<◌, ◌≡◌, refl, ap, ◌∙◌, true, false, List, ◌∷◌, ◌++◌, arith,
}
use debug.Dwarf.Buf.Leb.{leb_value}
use debug.Dwarf.Buf.Sleb.{signed_word}
use debug.Common.Result.{Result, ok, ◌>>=◌}
use debug.Dwarf.Buf.{Buf}
use debug.Dwarf.Frame.{FrameMachine, move, frame_op, run_loop, run}
use debug.Dwarf.Frame.Table.{
  Instr, advance_loc, cfa_at, advanced, Encodes, done, nop_op, advance_op, advance1_op, advance2_op,
  advance4_op, def_cfa_op, def_cfa_offset_sf_op,
}
use debug.Dwarf.Frame.Rounds.{
  run_loop_stop, run_loop_end, behind, run_loop_step, past, frame_op_advance, frame_op_nop,
  frame_op_advance1, frame_op_advance2, frame_op_advance4, frame_op_set, frame_op_def,
}

-- The call succeeds, with `v` as the machine's CFA offset.
abbrev pub Offsets : Result (FrameMachine × Buf) → ℕ → Type 0
Offsets r v = (s : FrameMachine × Buf) × (r ≡ ok s) × (s.0.cfa_offset ≡ v)

Offsets-path : {r r' : Result (FrameMachine × Buf)} {v : ℕ} → r ≡ r' → Offsets r' v → Offsets r v
Offsets-path p (s, e, c) = (s, p ∙ e, c)

module _ (o : ByteOrder) (daf : ℕ) (pc : ℕ) where
  -- The machine's registers and the buffer that a round starts from.
  abbrev Starts : FrameMachine → Buf → Bytes → ℕ → ℕ → Type 0
  Starts m b bs loc cfa =
      (b.unread ≡ bs)
      × (b.order ≡ o)
      × (m.data_alignment_factor ≡ daf)
      × (m.location ≡ loc)
      × (m.cfa_offset ≡ cfa)

  abbrev Claim : List Instr → Bytes → Type 0
  Claim is bs =
      (fuel : ℕ) (m : FrameMachine) (b : Buf) (loc cfa : ℕ)
      → Starts m b bs loc cfa
      → loc ≤ pc
      → loc + advanced is < 2 ^ 64
      → length bs ≤ fuel
      → Offsets (run_loop (suc fuel) m b pc) (cfa_at loc cfa is pc)

  -- Behind an advance, the loop goes on where the new location is not past the PC.
  after_advance :
      (is : List Instr) (bs : Bytes) (d : ℕ)
      → Claim is bs
      → (fuel : ℕ) (m : FrameMachine) (b : Buf) (loc cfa : ℕ) → Starts m b bs loc cfa
      → loc + (d + advanced is) < 2 ^ 64
      → length bs ≤ fuel
      → Offsets (run_loop (suc fuel) (move m d) b pc) (cfa_at loc cfa (advance_loc d ∷ is) pc)
  after_advance is bs d claim fuel m b loc cfa (e, eo, ed, el, ec) room fits =
      let moved : u64 (m.location + d) ≡ loc + d = omega arith in
      elim (dec_le (loc + d) pc) [
        | yes reached ↦
            let test : leb (loc + d) pc ≡ true = ground arith in
            rw test (
              claim fuel (move m d) b (loc + d) cfa (e, eo, ed, moved, ec) reached (omega arith)
                fits)
        | no beyond ↦
            let test : leb (loc + d) pc ≡ false = ground arith in
            rw test ((move m d, b), run_loop_stop fuel (move m d) b pc (omega arith), ec)
      ]

  -- One round that succeeds, and what comes behind it.
  round :
      (fuel : ℕ) (m : FrameMachine) (b : Buf) (x : ℕ) (xs : Bytes) (m' : FrameMachine) (b' : Buf)
      (v : ℕ)
      → b.unread ≡ x ∷ xs
      → m.location ≤ pc
      → 0 < fuel
      → frame_op m x (behind b xs) ≡ ok (m', b')
      → Offsets (run_loop (suc (fuel - 1)) m' b' pc) v
      → Offsets (run_loop (suc fuel) m b pc) v
  round fuel m b x xs m' b' v e h pos op rest =
      let same : fuel ≡ suc (fuel - 1) = omega arith in
      let go : FrameMachine × Buf → Result (FrameMachine × Buf) = λ s. run_loop fuel s.0 s.1 pc in
      Offsets-path
        (run_loop_step fuel m b pc x xs e h
          ∙ ap (λ r. r >>= go) op
          ∙ ap (λ f. run_loop f m' b' pc) same)
        rest

  run_loop-Claim : {is : List Instr} {bs : Bytes} → Encodes o daf is bs → Claim is bs
  run_loop-Claim done fuel m b loc cfa (e, eo, ed, el, ec) h room fits =
      ((m, b), run_loop_end fuel m b pc e, ec)
  run_loop-Claim (nop_op {is} {bs} rest) fuel m b loc cfa (e, eo, ed, el, ec) h room fits =
      round fuel m b 0 bs m (behind b bs) _ e (omega arith) (omega arith)
        (frame_op_nop m (behind b bs))
        (run_loop-Claim rest (fuel - 1) m (behind b bs) loc cfa (refl, eo, ed, el, ec) h room
          (omega arith))
  run_loop-Claim (advance_op {is} {bs} d small rest) fuel m b loc cfa (e, eo, ed, el, ec) h room
        fits =
      round fuel m b (64 + d) bs (move m d) (behind b bs) _ e (omega arith) (omega arith)
        (frame_op_advance m d (behind b bs) small)
        (after_advance is bs d (run_loop-Claim rest) (fuel - 1) m (behind b bs) loc cfa
          (refl, eo, ed, el, ec) room (omega arith))
  run_loop-Claim (advance1_op {is} {bs} d rest) fuel m b loc cfa (e, eo, ed, el, ec) h room fits =
      round fuel m b 2 (d ∷ bs) (move m d) (behind (behind b (d ∷ bs)) bs) _ e (omega arith)
        (omega arith) (frame_op_advance1 m (behind b (d ∷ bs)) d bs refl)
        (after_advance is bs d (run_loop-Claim rest) (fuel - 1) m (behind (behind b (d ∷ bs)) bs)
          loc cfa (refl, eo, ed, el, ec) room (omega arith))
  run_loop-Claim (advance2_op {is} {bs} ds two rest) fuel m b loc cfa (e, eo, ed, el, ec) h room
        fits =
      let b1 = behind b (ds ++ bs) in
      let d = order_value o ds in
      round fuel m b 3 (ds ++ bs) (move m d) (past b1 2 bs) _ e (omega arith) (omega arith)
        (frame_op_advance2 m b1 ds bs refl two
          ∙ ap {B = Result (FrameMachine × Buf)} (λ t. ok (move m (order_value t ds), past b1 2 bs))
              eo)
        (after_advance is bs d (run_loop-Claim rest) (fuel - 1) m (past b1 2 bs) loc cfa
          (refl, eo, ed, el, ec) room (omega (arith, length-append ds bs)))
  run_loop-Claim (advance4_op {is} {bs} ds four rest) fuel m b loc cfa (e, eo, ed, el, ec) h room
        fits =
      let b1 = behind b (ds ++ bs) in
      let d = order_value o ds in
      round fuel m b 4 (ds ++ bs) (move m d) (past b1 4 bs) _ e (omega arith) (omega arith)
        (frame_op_advance4 m b1 ds bs refl four
          ∙ ap {B = Result (FrameMachine × Buf)} (λ t. ok (move m (order_value t ds), past b1 4 bs))
              eo)
        (after_advance is bs d (run_loop-Claim rest) (fuel - 1) m (past b1 4 bs) loc cfa
          (refl, eo, ed, el, ec) room (omega (arith, length-append ds bs)))
  run_loop-Claim (def_cfa_op {is} {bs} reg off hr ho rest) fuel m b loc cfa (e, eo, ed, el, ec) h
        room fits =
      let b1 = behind b (reg ++ (off ++ bs)) in
      let b2 = past (past b1 (length reg) (off ++ bs)) (length off) bs in
      let m1 = record m {
        cfa_register = signed_word (7 * length reg) (leb_value reg);
        cfa_offset = u64 (leb_value off);
      } in
      round fuel m b 0x0c (reg ++ (off ++ bs)) m1 b2 _ e (omega arith) (omega arith)
        (frame_op_def m b1 reg off bs refl hr ho)
        (run_loop-Claim rest (fuel - 1) m1 b2 loc (u64 (leb_value off)) (refl, eo, ed, el, refl) h
          room (omega (arith, length-append reg (off ++ bs), length-append off bs)))
  run_loop-Claim (def_cfa_offset_sf_op {is} {bs} off ho rest) fuel m b loc cfa (e, eo, ed, el, ec) h
        room fits =
      let b1 = behind b (off ++ bs) in
      let b2 = past b1 (length off) bs in
      let x = signed_word (7 * length off) (leb_value off) in
      let m1 = record m { cfa_offset = u64 (x * m.data_alignment_factor) } in
      round fuel m b 0x13 (off ++ bs) m1 b2 _ e (omega arith) (omega arith)
        (frame_op_set m b1 off bs refl ho)
        (run_loop-Claim rest (fuel - 1) m1 b2 loc (u64 (x * daf))
          (refl, eo, ed, el, ap (λ t. u64 (x * t)) ed) h room (omega (arith, length-append off bs)))

pub run-cfa_at :
    (m : FrameMachine) (b : Buf) (pc : ℕ) (is : List Instr)
    → Encodes b.order m.data_alignment_factor is b.unread
    → m.location ≤ pc
    → m.location + advanced is < 2 ^ 64
    → Offsets (run m b pc) (cfa_at m.location m.cfa_offset is pc)
unfolding run
run-cfa_at m b pc is enc h room =
    run_loop-Claim b.order m.data_alignment_factor pc enc (length b.unread) m b m.location
      m.cfa_offset (refl, refl, refl, refl, refl) h room (le_refl _)
