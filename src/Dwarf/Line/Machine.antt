-- ===== src/Dwarf/Line/Machine.antt =====
-- dwarf/line.go: the line number machine. A callback is a function of its closure's state, and
-- answers the new state and whether to go on.
use debug.Common.{
  ltb, leb, ◌==◌, if◌then◌else◌, length, u64, ℕ, zero, suc, ◌+◌, ◌-◌, ◌*◌, ◌/◌, ◌%◌, Bool, true,
  false, not, [], ◌∷◌,
}
use debug.Common.Result.{errorf, Result, ok, err, panic, stuck, ◌>>=◌}
use debug.Common.Int.{signed64, word64, quot}
use debug.Dwarf.Buf.{Buf, advance, uint8, uint16, uint, int, addr}
use debug.Dwarf.Line.{LineHeader, LineMachine, reset}

-- `int(opcode - m.header.opcodeBase)`, a subtraction of bytes.
abbrev pub adjusted : LineMachine → ℕ → ℕ
adjusted m opcode = (opcode + 256 - m.header.opcode_base) % 256

-- Where it divides by zero, Go panics.
unfoldable pub special_opcode_step1 : LineMachine → ℕ → Result LineMachine
special_opcode_step1 m opcode =
    if m.header.line_range == 0
    then panic
    else ok (record m {
      line = u64 (m.line + u64 (m.header.line_base + adjusted m opcode % m.header.line_range));
    })

-- The address and op index registers move by an operation advance, a pattern of 64 bits.
unfoldable pub advance_address : LineMachine → ℕ → Result LineMachine
advance_address m advance =
    let max_ops = m.header.max_ops_per_instruction in
    if max_ops == 0
    then panic
    else let delta = word64 (quot (signed64 (u64 (m.op_index + advance))) max_ops) in
      ok (record m {
        address = u64 (m.address + u64 (m.header.min_instruction_length * delta));
        op_index = u64 (m.op_index + advance) % max_ops;
      })

unfoldable pub special_opcode_step2 : LineMachine → ℕ → Result LineMachine
unfolding advance_address
special_opcode_step2 m opcode =
    if m.header.line_range == 0
    then panic
    else advance_address m (adjusted m opcode / m.header.line_range)

unfoldable pub special_opcode_steps4_to7 : LineMachine → LineMachine
special_opcode_steps4_to7 m = record m {
  basic_block = false;
  prologue_end = false;
  epilogue_begin = false;
  discriminator = 0;
}

-- What a round of the loop comes to: another round, or a return with no error.
pub data Next (S : Type 0) : Type 0 where
  again : LineMachine → Buf → S → Next S
  return : S → Next S

module _ {S : Type 0} (f : LineMachine → S → S × Bool) where
  -- `if !f(m) { return nil }`, and what follows it.
  abbrev pub output : LineMachine → S → (S → Result (Next S)) → Result (Next S)
  output m s k = let (s', cont) = f m s in if cont then k s' else ok (return s')

  unfoldable pub special_opcode : LineMachine → ℕ → Buf → S → Result (Next S)
  unfolding special_opcode_step1 special_opcode_step2 special_opcode_steps4_to7
  special_opcode m op b s = special_opcode_step1 m op >>= λ m1.
      (special_opcode_step2 m1 op >>= λ m2.
      output m2 s (λ s'. ok (again (special_opcode_steps4_to7 m2) b s')))

  unfoldable pub extended_opcode : LineMachine → Buf → S → Result (Next S)
  unfolding reset
  extended_opcode m b s =
      if length b.unread == 0
      then err (errorf "DWARF: short extended opcode (1)" [])
      else let (size, b1) = uint b in
        if ltb (length b1.unread) size
        then err (errorf "DWARF: short extended opcode (2)" [])
        else let (op, b2) = uint8 b1 in
          if op == 0x01
          then (let m' = record m { end_sequence = true } in
              output m' s (λ s'.
                if length b2.unread == 0
                then ok (return s')
                else ok (again (reset m'.header) b2 s')))
          else if op == 0x02
          then (let (a, b3) = addr b2 in ok (again (record m { address = a; op_index = 0 }) b3 s))
          else if op == 0x03
          then err (errorf "DWARF: unimplemented define_file op" [])
          else if op == 0x04
          then (let (d, b3) = uint b2 in ok (again (record m { discriminator = d }) b3 s))
          else err (errorf "DWARF: unknown extended opcode %#x" (op ∷ []))

  unfoldable pub standard_opcode : LineMachine → ℕ → Buf → S → Result (Next S)
  standard_opcode m op b s =
      if op == 0x00
      then extended_opcode m b s
      else if op == 0x01
      then output m s (λ s'. ok (again (special_opcode_steps4_to7 m) b s'))
      else if op == 0x02
      then (let (advance, b') = uint b in
          advance_address m advance >>= λ m'. ok (again (special_opcode_steps4_to7 m') b' s))
      else if op == 0x03
      then (let (advance, b') = int b in
          ok (again (record m { line = u64 (m.line + advance) }) b' s))
      else if op == 0x04
      then (let (x, b') = uint b in ok (again (record m { file = x }) b' s))
      else if op == 0x05
      then (let (x, b') = uint b in ok (again (record m { column = x }) b' s))
      else if op == 0x06
      then ok (again (record m { is_stmt = not m.is_stmt }) b s)
      else if op == 0x07
      then ok (again (record m { basic_block = true }) b s)
      else if op == 0x09
      then (let (x, b') = uint16 b in
          ok (again (record m { address = u64 (m.address + x); op_index = 0 }) b' s))
      else if op == 0x0a
      then ok (again (record m { prologue_end = true }) b s)
      else if op == 0x0b
      then ok (again (record m { epilogue_begin = true }) b s)
      else if op == 0x0c
      then (let (x, b') = uint b in ok (again (record m { isa = x }) b' s))
      else if op == 0x08
      then (special_opcode_step2 m 255 >>= λ m'. ok (again m' b s))
      else panic

  unfoldable pub line_op : LineMachine → ℕ → Buf → S → Result (Next S)
  line_op m op b s =
      if leb m.header.opcode_base op then special_opcode m op b s else standard_opcode m op b s

  -- The loop, with fuel. A round takes at least the byte of its opcode.
  unfoldable pub eval_loop : ℕ → LineMachine → Buf → S → Result S
  eval_loop zero m b s = stuck
  eval_loop (suc fuel) m b s =
      let (op, b') = uint8 b in
      let rest : Result S = line_op m op b' s >>= λ n. elim n [
        | again m' b'' s' ↦ eval_loop fuel m' b'' s'
        | return s' ↦ ok s'
      ] in
      if length b.unread == 0
      then err (errorf "DWARF: unexpected end of line number information" [])
      else rest

  unfoldable pub eval_compilation_unit : LineHeader → Buf → S → Result S
  unfolding eval_loop line_op special_opcode standard_opcode extended_opcode advance_address reset
      special_opcode_step2 special_opcode_steps4_to7
  eval_compilation_unit h b s = eval_loop (suc (length b.unread)) (reset h) b s
