-- ===== src/Dwarf/Frame/Rounds.antt =====
-- One round of the frame machine on each instruction that describes the CFA column.
use debug.Common.{
  ltb, leb, length, take, drop, length-append, take-append, drop-append, u32, u64, bit_and_mask,
  agree_below, agree_below→eq, Bytes, order_value, ℕ, suc, ◌+◌, ◌*◌, ◌≤◌, ◌<◌, bit_and, ◌≡◌, refl,
  sym, ap, ◌∙◌, true, false, ◌&&◌, [], ◌∷◌, ◌++◌, arith,
}
use debug.Common.Result.{Result, ok, ◌>>=◌}
use debug.Dwarf.Buf.{Buf, read_uint8, uint8, bytes, fixed_uint, uint16, uint32, uint}
use debug.Dwarf.Buf.Leb.{leb_value, IsLeb, uint-leb_value}
use debug.Dwarf.Buf.Sleb.{signed_word, int-signed_word}
use debug.Dwarf.Buf.Shrinks.{left}
use debug.Dwarf.Frame.{FrameMachine, move, extended_op, frame_op, run_loop}

-- One round of the loop.
pub run_loop_stop :
    (fuel : ℕ) (m : FrameMachine) (b : Buf) (pc : ℕ)
    → pc < m.location
    → run_loop (suc fuel) m b pc ≡ ok (m, b)
unfolding run_loop
run_loop_stop fuel m b pc h = let past : leb m.location pc ≡ false = ground arith in rw past

pub run_loop_end :
    (fuel : ℕ) (m : FrameMachine) (b : Buf) (pc : ℕ)
    → b.unread ≡ []
    → run_loop (suc fuel) m b pc ≡ ok (m, b)
unfolding run_loop
run_loop_end fuel m b pc e =
    let empty : (leb m.location pc && ltb 0 (left b)) ≡ false = ground (arith, ap length e) in
    rw empty

-- The buffer behind its next byte.
abbrev pub behind : Buf → Bytes → Buf
behind b bs = record b { off = u32 (b.off + 1); unread = bs }

pub uint8_read : (b : Buf) (x : ℕ) (xs : Bytes) → b.unread ≡ x ∷ xs → uint8 b ≡ (x, behind b xs)
unfolding uint8
uint8_read b x xs e =
    ap (read_uint8 b) e ∙ ap {B = ℕ × Buf} (λ bs. (x, behind b bs)) (ap (drop 1) e)

pub run_loop_step :
    (fuel : ℕ) (m : FrameMachine) (b : Buf) (pc x : ℕ) (xs : Bytes)
    → b.unread ≡ x ∷ xs
    → m.location ≤ pc
    → run_loop (suc fuel) m b pc ≡ (frame_op m x (behind b xs) >>= λ s. run_loop fuel s.0 s.1 pc)
unfolding run_loop
run_loop_step fuel m b pc x xs e h =
    let goes : (leb m.location pc && ltb 0 (left b)) ≡ true = ground (arith, ap length e) in
    rw (goes, uint8_read b x xs e)

-- The buffer behind `n` more bytes.
abbrev pub past : Buf → ℕ → Bytes → Buf
past b n bs = record b { off = u32 (b.off + n); unread = bs }

pub fixed_read :
    (n : ℕ) (b : Buf) (ds bs : Bytes)
    → b.unread ≡ ds ++ bs
    → length ds ≡ n
    → fixed_uint n b ≡ (order_value b.order ds, past b n bs)
unfolding bytes
fixed_read n b ds bs e h =
    let enough : ltb (length b.unread) n ≡ false =
      ground (arith, ap length e, length-append ds bs) in
    let front : take n b.unread ≡ ds = ap (take n) e ∙ take-append ds bs n (sym h) in
    let back : drop n b.unread ≡ bs = ap (drop n) e ∙ drop-append ds bs n (sym h) in
    rw (enough, front, back)

abbrev high_bits : ℕ → ℕ
high_bits d = bit_and (64 + d) 0xC0

advance_bits : (d : ℕ) → d < 64 → high_bits d ≡ 0x40
unfolding agree_below
advance_bits = agree_below→eq _ _ 64 refl

advance_delta : (d : ℕ) → d < 64 → bit_and (64 + d) 0x3F ≡ d
advance_delta d h = omega (arith, bit_and_mask 6 (64 + d))

pub frame_op_advance :
    (m : FrameMachine) (d : ℕ) (b : Buf) → d < 64 → frame_op m (64 + d) b ≡ ok (move m d, b)
unfolding frame_op
frame_op_advance m d b h = rw (advance_bits d h, advance_delta d h)

module _ (m : FrameMachine) (b : Buf) where
  pub frame_op_nop : frame_op m 0 b ≡ ok (m, b)
  unfolding frame_op extended_op
  frame_op_nop = refl

  pub frame_op_advance1 :
      (d : ℕ) (bs : Bytes) → b.unread ≡ d ∷ bs → frame_op m 2 b ≡ ok (move m d, behind b bs)
  unfolding frame_op extended_op
  frame_op_advance1 d bs e =
      ap {B = Result (FrameMachine × Buf)} (λ r. ok (move m r.0, r.1)) (uint8_read b d bs e)

  pub frame_op_advance2 :
      (ds bs : Bytes)
      → b.unread ≡ ds ++ bs
      → length ds ≡ 2
      → frame_op m 3 b ≡ ok (move m (order_value b.order ds), past b 2 bs)
  unfolding frame_op extended_op uint16
  frame_op_advance2 ds bs e h =
      ap {B = Result (FrameMachine × Buf)} (λ r. ok (move m r.0, r.1)) (fixed_read 2 b ds bs e h)

  pub frame_op_advance4 :
      (ds bs : Bytes)
      → b.unread ≡ ds ++ bs
      → length ds ≡ 4
      → frame_op m 4 b ≡ ok (move m (order_value b.order ds), past b 4 bs)
  unfolding frame_op extended_op uint32
  frame_op_advance4 ds bs e h =
      ap {B = Result (FrameMachine × Buf)} (λ r. ok (move m r.0, r.1)) (fixed_read 4 b ds bs e h)

  pub frame_op_set :
      (off bs : Bytes)
      → b.unread ≡ off ++ bs
      → IsLeb off
      → frame_op m 0x13 b
        ≡ ok (
          record m {
            cfa_offset =
                u64 (signed_word (7 * length off) (leb_value off) * m.data_alignment_factor);
          },
          past b (length off) bs,
        )
  unfolding frame_op extended_op
  frame_op_set off bs e h =
      ap {B = Result (FrameMachine × Buf)}
        (λ r. ok (record m { cfa_offset = u64 (r.0 * m.data_alignment_factor) }, r.1))
        (int-signed_word b off bs e h)

  pub frame_op_def :
      (reg off bs : Bytes)
      → b.unread ≡ reg ++ (off ++ bs)
      → IsLeb reg
      → IsLeb off
      → frame_op m 0x0c b
        ≡ ok (
          record m {
            cfa_register = signed_word (7 * length reg) (leb_value reg);
            cfa_offset = u64 (leb_value off);
          },
          past (past b (length reg) (off ++ bs)) (length off) bs,
        )
  unfolding frame_op extended_op
  frame_op_def reg off bs e hr ho =
      ap {B = Result (FrameMachine × Buf)}
        (λ r. ok (record m { cfa_register = r.0; cfa_offset = (uint r.1).0 }, (uint r.1).1))
        (int-signed_word b reg (off ++ bs) e hr)
      ∙ ap {B = Result (FrameMachine × Buf)}
          (λ r. ok (
            record m {
              cfa_register = signed_word (7 * length reg) (leb_value reg);
              cfa_offset = r.0;
            },
            r.1,
          ))
          (uint-leb_value (past b (length reg) (off ++ bs)) off bs refl ho)
