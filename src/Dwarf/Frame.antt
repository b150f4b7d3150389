-- ===== src/Dwarf/Frame.antt =====
-- dwarf/frame.go: the machine that maps a PC to its stack pointer offset. An intN or uintN is its
-- bit pattern. The machine of a call that fails is dropped, as in the source.
pub mod Ends
pub mod Table
pub mod Rounds
pub mod Offsets
mod Runs
use debug.Common.{
  ltb, leb, ◌==◌, if◌then◌else◌, length, u64, Bytes, ℕ, zero, suc, ◌+◌, ◌-◌, ◌*◌, ◌^◌, bit_and,
  Bool, true, false, not, ◌&&◌, ◌||◌, Option, none, some, List, [], ◌∷◌, String,
}
use debug.Common.Result.{errorf, Result, ok, err, panic, stuck, ◌>>=◌}
use debug.Dwarf.Buf.{Buf, make_buf, uint8, slice, string, uint16, uint32, uint, int, addr}
use debug.Dwarf.Data.{unit_format, Data}

pub record FrameMachine : Type 0 where
  pub version : ℕ
  pub augmentation : Bytes
  pub address_size : ℕ
  pub segment_size : ℕ
  pub code_alignment_factor : ℕ
  pub data_alignment_factor : ℕ
  pub return_address_register : ℕ
  pub return_register_offset : ℕ
  pub cfa_register : ℕ
  pub cfa_offset : ℕ
  pub location : ℕ

-- `var m frameMachine`
abbrev pub zero_machine : FrameMachine
zero_machine = record {
  version = 0;
  augmentation = [];
  address_size = 0;
  segment_size = 0;
  code_alignment_factor = 0;
  data_alignment_factor = 0;
  return_address_register = 0;
  return_register_offset = 0;
  cfa_register = 0;
  cfa_offset = 0;
  location = 0;
}

-- `m.location += uint64(delta)`
abbrev pub move : FrameMachine → ℕ → FrameMachine
move m delta = record m { location = u64 (m.location + delta) }

abbrev failf {ℓ} : {A : Type ℓ} → String → List ℕ → Result A
failf s args = err (errorf s args)

-- The error of an opcode that the second switch does not implement.
unimplemented : ℕ → Result (FrameMachine × Buf)
unimplemented op =
    if op == 0x01
    then failf "unimplemented setloc" []
    else if op == 0x12
    then failf "unimplemented frameDefCFASf" []
    else if op == 0x0d
    then failf "unimplemented frameDefCFARegister" []
    else if op == 0x0e
    then failf "unimplemented frameDefCFAOffset" []
    else if op == 0x0f
    then failf "unimplemented frameDefCFAExpression" []
    else if op == 0x06
    then failf "unimplemented frameRestoreExtended" []
    else if op == 0x07
    then failf "unimplemented frameUndefined" []
    else if op == 0x08
    then failf "unimplemented frameSameValue" []
    else if op == 0x09
    then failf "unimplemented frameRegister" []
    else if op == 0x0a
    then failf "unimplemented frameRememberState" []
    else if op == 0x0b
    then failf "unimplemented frameRestoreState" []
    else if op == 0x10
    then failf "unimplemented frameExpression" []
    else if op == 0x11
    then failf "unimplemented frameOffsetExtended_sf" []
    else if op == 0x14
    then failf "unimplemented frameValOffset" []
    else if op == 0x15
    then failf "unimplemented frameValOffsetSf" []
    else if op == 0x16
    then failf "unimplemented frameValExpression" []
    else if leb 0x1c op && leb op 0x3f
    then failf "unknown user-defined frame op %#x" (op ∷ [])
    else failf "unknown frame op %#x" (op ∷ [])

-- `m.returnRegisterOffset = int64(b.uint()) * m.dataAlignmentFactor`
abbrev return_offset : FrameMachine → Buf → FrameMachine × Buf
return_offset m b =
    let (x, b') = uint b in
    (record m { return_register_offset = u64 (x * m.data_alignment_factor) }, b')

-- The switch over opcodes with no embedded operand.
unfoldable pub extended_op : FrameMachine → ℕ → Buf → Result (FrameMachine × Buf)
unfolding unimplemented
extended_op m op b =
    if op == 0x00
    then ok (m, b)
    else if op == 0x02
    then ok (move m (uint8 b).0, (uint8 b).1)
    else if op == 0x03
    then ok (move m (uint16 b).0, (uint16 b).1)
    else if op == 0x04
    then ok (move m (uint32 b).0, (uint32 b).1)
    else if op == 0x0c
    then (let (r, b') = int b in
        let (o, b'') = uint b' in ok (record m { cfa_register = r; cfa_offset = o }, b''))
    else if op == 0x13
    then (let (o, b') = int b in
        ok (record m { cfa_offset = u64 (o * m.data_alignment_factor) }, b'))
    else if op == 0x05
    then (let (reg, b') = uint b in
        if not (reg == m.return_address_register)
        then failf "invalid frameOffsetExtended: register R%d should be R%d"
            (reg ∷ m.return_address_register ∷ [])
        else ok (return_offset m b'))
    else unimplemented op

-- One round of the loop, behind the read of `op`.
unfoldable pub frame_op : FrameMachine → ℕ → Buf → Result (FrameMachine × Buf)
frame_op m op b =
    if bit_and op 0xC0 == 0x40
    then ok (move m (bit_and op 0x3F), b)
    else if bit_and op 0xC0 == 0x80
    then if not (bit_and op 0x3F == m.return_address_register)
      then failf "invalid frameOffset register R%d should be R%d"
          (bit_and op 0x3f ∷ m.return_address_register ∷ [])
      else ok (return_offset m b)
    else if bit_and op 0xC0 == 0xC0
    then failf "unimplemented frameRestore(R%d)\n" (bit_and op 0x3F ∷ [])
    else extended_op m op b

-- The loop of run, with fuel. A round takes at least the byte of its opcode.
pub run_loop : ℕ → FrameMachine → Buf → ℕ → Result (FrameMachine × Buf)
run_loop zero m b pc = stuck
run_loop (suc fuel) m b pc =
    let (op, b') = uint8 b in
    let rest : Result (FrameMachine × Buf) = frame_op m op b' >>= λ s. run_loop fuel s.0 s.1 pc in
    if leb m.location pc && ltb 0 (length b.unread) then rest else ok (m, b)

-- run returns `m.cfaOffset` of the machine it leaves behind.
unfoldable pub run : FrameMachine → Buf → ℕ → Result (FrameMachine × Buf)
unfolding run_loop frame_op extended_op
run m b pc = run_loop (suc (length b.unread)) m b pc

-- `b := allBuf.slice(length)`, behind the check that the length fits.
abbrev sliced {ℓ} : {A : Type ℓ} → Option (Buf × Buf) → (Buf → Buf → Result A) → Result A
sliced none k = Result.panic
sliced (some (b, all')) k = k b all'

-- The fields of a CIE, and the buffer at its initial instructions.
cie_fields : FrameMachine → Buf → Result (FrameMachine × Buf)
cie_fields m b =
    let (cie, b1) = uint32 b in
    if not (cie == 0xFFFFFFFF)
    then failf "CIE parse error: not CIE: %x" (cie ∷ [])
    else let (v, b2) = uint8 b1 in
      if not (v == 3) && not (v == 4)
      then failf "CIE parse error: unsupported version %d" (v ∷ [])
      else let (aug, b3) = string b2 in
        if ltb 0 (length aug)
        then failf "CIE: can't handled augmentation string %q" aug
        else let (asize, b4) = if leb 4 v then uint8 b3 else (m.address_size, b3) in
          let (ssize, b5) = if leb 4 v then uint8 b4 else (m.segment_size, b4) in
          let (caf, b6) = uint b5 in
          let (daf, b7) = int b6 in
          let (rar, b8) = uint b7 in
          ok (
            record m {
              version = v;
              augmentation = aug;
              address_size = asize;
              segment_size = ssize;
              code_alignment_factor = caf;
              data_alignment_factor = daf;
              return_address_register = rar;
            },
            b8,
          )

cie_body : FrameMachine → Buf → Buf → Result (FrameMachine × Buf)
unfolding cie_fields run
cie_body m b all' = cie_fields m b >>= λ h. (run h.0 h.1 (2 ^ 64 - 1) >>= λ s. ok (s.0, all'))

-- The machine with the CIE's values, and the buffer behind the CIE.
unfoldable pub parse_cie : FrameMachine → Buf → Result (FrameMachine × Buf)
unfolding cie_body
parse_cie m all =
    let (n, all1) = uint32 all in
    if ltb (length all1.unread) n
    then failf "CIE parse error: too short" []
    else sliced (slice all1 n) (cie_body m)

-- What scanFDE gives: the offset where `found`, the machine, and the buffer behind the FDE.
pub record Scanned : Type 0 where
  pub offset : ℕ
  pub found : Bool
  pub machine : FrameMachine
  pub rest : Buf

-- The initial location, the length of the range, and the buffer at the instructions of an FDE.
fde_fields : Buf → Result (ℕ × ℕ × Buf)
fde_fields b =
    let (cie_offset, b1) = uint32 b in
    if not (cie_offset == 0)
    then failf "FDE parse error: bad CIE offset: %.2x" (cie_offset ∷ [])
    else let (loc, b2) = addr b1 in let (range, b3) = addr b2 in ok (loc, range, b3)

-- `pc < m.location || m.location+addressRange <= pc`
abbrev pub outside : ℕ → ℕ → ℕ → Bool
outside loc range pc = ltb pc loc || leb (u64 (loc + range)) pc

-- The instructions are run only where the PC lies in the range.
run_in_range : FrameMachine → ℕ → Buf → ℕ → ℕ → Buf → Result Scanned
unfolding run
run_in_range m pc all' loc range b =
    let m' = record m { location = loc } in
    let found : Result Scanned = run m' b pc >>= λ s.
    ok (record { offset = s.0.cfa_offset; found = true; machine = s.0; rest = all' }) in
    if outside loc range pc
    then ok (record { offset = 0; found = false; machine = m'; rest = all' })
    else found

fde_body : FrameMachine → ℕ → Buf → Buf → Result Scanned
unfolding fde_fields run_in_range
fde_body m pc b all' = fde_fields b >>= λ h. run_in_range m pc all' h.0 h.1 h.2

-- The length is a uint32, so the error for a negative one cannot occur.
unfoldable pub scan_fde : FrameMachine → Buf → ℕ → Result Scanned
unfolding fde_body
scan_fde m all pc =
    let (n, all1) = uint32 all in
    if ltb (length all1.unread) n
    then failf "FDE parse error: too short" []
    else if n == 0
    then failf "PC %#x not found in PC/SP table" (pc ∷ [])
    else sliced (slice all1 n) (fde_body m pc)

-- The loop of evalCompilationUnit behind the CIE, with fuel. A round takes at least an FDE's length.
pub scan_loop : ℕ → FrameMachine → Buf → ℕ → Result ℕ
scan_loop zero m b pc = stuck
scan_loop (suc fuel) m b pc = scan_fde m b pc >>= λ s.
    (let rest = scan_loop fuel s.machine s.rest pc in if s.found then ok s.offset else rest)

unfoldable pub eval_compilation_unit : FrameMachine → Buf → ℕ → Result ℕ
unfolding parse_cie scan_loop scan_fde
eval_compilation_unit m b pc = parse_cie m b >>= λ s. scan_loop (suc (length s.1.unread)) s.0 s.1 pc

-- The loop over `buf.data` returns in its first round.
unfoldable pub pc_to_sp_offset : Data → ℕ → Result ℕ
unfolding eval_compilation_unit
pc_to_sp_offset d pc =
    if length d.frame == 0 then failf "PCToSPOffset: no frame table" [] else elim d.units [
      | [] ↦ failf "PCToSPOffset: no info section" []
      | u ∷ us ↦
          eval_compilation_unit zero_machine (make_buf d.order (unit_format u) "frame" 0 d.frame) pc
    ]
