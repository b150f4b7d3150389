-- ===== src/Gosym/Pclntab/Values.antt =====
-- gosym/pclntab.go: the tables that map a PC to a value, and the searches in them. An int32 or
-- uint32 is its pattern of 32 bits. `shift` may grow past 32, where a shift leaves nothing.
use debug.Common.{
  ltb, leb, ◌==◌, if◌then◌else◌, length, u32, u64, Bytes, ℕ, zero, suc, ◌+◌, ◌-◌, ◌*◌, ◌/◌, ◌%◌,
  ◌^◌, bit_and, bit_or, Bool, true, false, not, ◌&&◌, ◌||◌, [], ◌∷◌,
}
use debug.Common.Result.{Result, ok, panic, stuck, ◌>>=◌}
use debug.Gosym.Pclntab.{LineTable, slice_from}

unfoldable pub varint_from : ℕ → ℕ → Bytes → Result (ℕ × Bytes)
varint_from v shift [] = panic
varint_from v shift (b ∷ p) =
    let v' = bit_or v (u32 (bit_and b 0x7F * 2 ^ shift)) in
    let more = varint_from v' (u32 (shift + 7)) p in
    if bit_and b 0x80 == 0 then ok (v', p) else more

-- The source's readvarint, which moves the slice it is given.
unfoldable pub readvarint : Bytes → Result (ℕ × Bytes)
unfolding varint_from
readvarint p = varint_from 0 0 p

-- What step moves: `*p`, `*pc` and `*val`.
pub record PcValue : Type 0 where
  pub p : Bytes
  pub pc : ℕ
  pub val : ℕ

-- Zigzag: `^(x >> 1)` where x is odd, `x >> 1` where it is even.
abbrev pub unzigzag : ℕ → ℕ
unzigzag x = if x % 2 == 1 then 2 ^ 32 - 1 - x / 2 else x / 2

-- The Boolean is the source's result; where it is false only the slice has moved.
unfoldable pub step : LineTable → PcValue → Bool → Result (Bool × PcValue)
unfolding readvarint
step t s first = readvarint s.p >>= λ u.
    (if u.0 == 0 && not first
      then ok (false, record s { p = u.1 })
      else readvarint u.1 >>= λ d. ok (
        true,
        record {
          p = d.1;
          pc = u64 (s.pc + u32 (d.0 * t.quantum));
          val = u32 (s.val + unzigzag u.0);
        },
      ))

-- `int32(-1)`
abbrev pub minus_one : ℕ
minus_one = 2 ^ 32 - 1

-- The loop of pcvalue, with fuel: a step takes a byte at least.
unfoldable pub pcvalue_loop : LineTable → ℕ → ℕ → ℕ → PcValue → Result ℕ
unfolding step
pcvalue_loop t entry targetpc zero s = stuck
pcvalue_loop t entry targetpc (suc fuel) s = step t s (s.pc == entry) >>= λ r.
    (let rest = pcvalue_loop t entry targetpc fuel r.1 in
      if not r.0 then ok minus_one else if ltb targetpc r.1.pc then ok r.1.val else rest)

unfoldable pub pcvalue : LineTable → ℕ → ℕ → ℕ → Result ℕ
unfolding pcvalue_loop slice_from
pcvalue t off entry targetpc =
    if off == 0
    then ok minus_one
    else slice_from off t.content >>= λ p.
        pcvalue_loop t entry targetpc (suc (length p))
          (record { p = p; pc = entry; val = minus_one })

-- The bytes up to a zero; the index runs off the end where there is none.
unfoldable pub until_zero : Bytes → Result Bytes
until_zero [] = panic
until_zero (b ∷ bs) = let rest = until_zero bs in if b == 0 then ok [] else rest >>= λ s. ok (b ∷ s)

-- The source's string.
unfoldable pub string_at : LineTable → ℕ → Result Bytes
unfolding until_zero slice_from
string_at t off = slice_from off t.content >>= λ b. until_zero b

-- What the line loop of findFileLine ends with: the PC that it returns, or the line cursor.
pub data LineScan : Type 0 where
  line_at : ℕ → LineScan
  past : PcValue → LineScan

-- The inner loop, over the line table, with fuel.
unfoldable pub line_loop : LineTable → ℕ → ℕ → ℕ → ℕ → ℕ → PcValue → ℕ → Result LineScan
unfolding step
line_loop t entry line file_start_pc file_pc zero l line_start_pc = stuck
line_loop t entry line file_start_pc file_pc (suc fuel) l line_start_pc =
    let round = step t l (l.pc == entry) >>= λ r.
    (let rest = line_loop t entry line file_start_pc file_pc fuel r.1 r.1.pc in
      if not r.0
      then ok (past r.1)
      else if r.1.val == line && leb file_start_pc line_start_pc
      then ok (line_at line_start_pc)
      else if r.1.val == line && ltb file_start_pc r.1.pc
      then ok (line_at file_start_pc)
      else rest) in
    if ltb l.pc file_pc then round else ok (past l)

-- The outer loop, over the file table, with fuel.
unfoldable pub file_scan : LineTable → ℕ → ℕ → ℕ → ℕ → PcValue → PcValue → ℕ → Result ℕ
unfolding step line_loop
file_scan t entry filenum line zero f l file_start_pc = stuck
file_scan t entry filenum line (suc fuel) f l file_start_pc = step t f (f.pc == entry) >>= λ r.
    (let skipped = file_scan t entry filenum line fuel r.1 l r.1.pc in
      if not r.0
      then ok 0
      else if r.1.val == filenum && ltb file_start_pc r.1.pc
      then (line_loop t entry line file_start_pc r.1.pc (suc (length l.p)) l l.pc >>= λ x. elim x [
        | line_at pc ↦ ok pc
        | past l' ↦ file_scan t entry filenum line fuel r.1 l' r.1.pc
      ])
      else skipped)

unfoldable pub find_file_line : LineTable → ℕ → ℕ → ℕ → ℕ → ℕ → Result ℕ
unfolding file_scan slice_from
find_file_line t entry filetab linetab filenum line =
    if filetab == 0 || linetab == 0
    then ok 0
    else slice_from filetab t.content >>= λ fp.
        (slice_from linetab t.content >>= λ fl.
        file_scan t entry filenum line (suc (length fp))
          (record { p = fp; pc = entry; val = minus_one })
          (record { p = fl; pc = entry; val = minus_one }) entry)
