-- ===== src/Dwarf/Buf/Leb.antt =====
-- The variable-length integers of dwarf/buf.go against the format: groups of seven bits, lowest
-- first, with the top bit set on every byte but the last.
use debug.Common.{
  ◌==◌, length, drop, All, drop-append, two_pow-add, or_word, u32, u64, bit_and_mask, top_bit,
  Bytes, ℕ, ◌+◌, ◌*◌, ◌/◌, ◌%◌, ◌^◌, ◌≤◌, ◌<◌, bit_and, bit_or, ◌≡◌, refl, ap, ◌∙◌, true, false,
  none, some, [], ◌∷◌, ◌++◌, arith,
}
use debug.Dwarf.Buf.{Buf, Varint, varint_loop, read_varint, varint, uint}

abbrev pub leb_value : Bytes → ℕ
leb_value [] = 0
leb_value (b ∷ bs) = b % 128 + 128 * leb_value bs

abbrev pub IsLeb : Bytes → Type 0
IsLeb [] = ⊥
IsLeb (b ∷ []) = b < 128
IsLeb (b ∷ c ∷ cs) = (128 ≤ b) × (b < 256) × IsLeb (c ∷ cs)

-- One more group of seven bits above the `bits` bits of `v`.
pub group_lem :
    (v bits byte : ℕ)
    → v < 2 ^ bits
    → bit_or (u64 v) (u64 (bit_and byte 0x7F * 2 ^ bits)) ≡ u64 (v + byte % 128 * 2 ^ bits)
group_lem v bits byte h = rw (bit_and_mask 7 byte) (or_word bits (byte % 128) v h)

pub group_fits : (v bits byte : ℕ) → v < 2 ^ bits → v + byte % 128 * 2 ^ bits < 2 ^ (bits + 7)
group_fits v bits byte h =
    let more : 2 ^ (bits + 7) ≡ 128 * 2 ^ bits = omega (arith, two_pow-add bits 7) in
    let digit : byte % 128 < 128 = omega arith in rw more (grind arith)

-- One round of the loop, on a last byte and on any other.
last_byte :
    (v bits i b : ℕ) (rest : Bytes)
    → v < 2 ^ bits
    → b < 128
    → varint_loop (u64 v) bits i (b ∷ rest)
      ≡ some (record { c = u64 (v + b % 128 * 2 ^ bits); bits = bits + 7; taken = i + 1 })
unfolding varint_loop
last_byte v bits i b rest h e =
    let none_left : (b / 128 * 128 == 0) ≡ true = ground arith in
    rw (group_lem v bits b h, top_bit b (omega arith), none_left)

inner_byte :
    (v bits i b : ℕ) (rest : Bytes)
    → v < 2 ^ bits
    → 128 ≤ b
    → b < 256
    → varint_loop (u64 v) bits i (b ∷ rest)
      ≡ varint_loop (u64 (v + b % 128 * 2 ^ bits)) (bits + 7) (i + 1) rest
unfolding varint_loop
inner_byte v bits i b rest h lo hi =
    let more_left : (b / 128 * 128 == 0) ≡ false = ground arith in
    rw (group_lem v bits b h, top_bit b hi, more_left)

pub group_sum :
    (v bits b w : ℕ)
    → v + b % 128 * 2 ^ bits + w * 2 ^ (bits + 7) ≡ v + (b % 128 + 128 * w) * 2 ^ bits
group_sum v bits b w =
    let more : 2 ^ (bits + 7) ≡ 128 * 2 ^ bits = omega (arith, two_pow-add bits 7) in
    omega (arith, ap (λ (t : ℕ). w * t) more)

Varint-eq :
    {c c' bits bits' taken taken' : ℕ}
    → c ≡ c'
    → bits ≡ bits'
    → taken ≡ taken'
    → some (record { c = c; bits = bits; taken = taken })
      ≡ some (let v : Varint = record { c = c'; bits = bits'; taken = taken' } in v)
Varint-eq p q r = ground arith

varint_loop-leb_value :
    (v bits i : ℕ) (enc rest : Bytes)
    → v < 2 ^ bits
    → IsLeb enc
    → varint_loop (u64 v) bits i (enc ++ rest)
      ≡ some (record {
        c = u64 (v + leb_value enc * 2 ^ bits);
        bits = bits + 7 * length enc;
        taken = i + length enc;
      })
varint_loop-leb_value v bits i [] rest h e = elim e [ ]
varint_loop-leb_value v bits i (b ∷ []) rest h e =
    last_byte v bits i b rest h e ∙ Varint-eq (ap u64 (omega arith)) (omega arith) (omega arith)
varint_loop-leb_value v bits i (b ∷ c ∷ cs) rest h e =
    inner_byte v bits i b ((c ∷ cs) ++ rest) h e.0 e.1
    ∙ varint_loop-leb_value (v + b % 128 * 2 ^ bits) (bits + 7) (i + 1) (c ∷ cs) rest
        (group_fits v bits b h) e.2
    ∙ Varint-eq (ap u64 (group_sum v bits b (leb_value (c ∷ cs)))) (omega arith) (omega arith)

varint_loop_unended :
    (c bits i : ℕ) (bs : Bytes)
    → All (λ b. (128 ≤ b) × (b < 256)) bs
    → varint_loop c bits i bs ≡ none
unfolding varint_loop
varint_loop_unended c bits i [] h = refl
varint_loop_unended c bits i (b ∷ bs) h =
    let more_left : (b / 128 * 128 == 0) ≡ false = ground arith in
    rw (top_bit b h.0.1, more_left)
      (varint_loop_unended (bit_or c (u64 (bit_and b 0x7F * 2 ^ bits))) (bits + 7) (i + 1) bs h.1)

varint-eq :
    (b : Buf) (n : ℕ) {c c' bits bits' : ℕ} {rest : Bytes}
    → c ≡ c'
    → bits ≡ bits'
    → drop n b.unread ≡ rest
    → read_varint b (some (record { c = c; bits = bits; taken = 0 + n }))
      ≡ (c', bits', record b { off = u32 (b.off + n); unread = rest })
varint-eq b n p q r = let e : 0 + n ≡ n = omega arith in rw (e, p, q, r)

-- On a LEB128 number, of any length, varint gives its value modulo 2 ^ 64 and seven bits for each
-- byte, and reads exactly its bytes.
pub varint-leb_value :
    (b : Buf) (enc rest : Bytes)
    → b.unread ≡ enc ++ rest
    → IsLeb enc
    → varint b ≡ (
      u64 (leb_value enc),
      7 * length enc,
      record b { off = u32 (b.off + length enc); unread = rest },
    )
unfolding varint
varint-leb_value b enc rest e h =
    ap (read_varint b)
      (ap (varint_loop 0 0 0) e ∙ varint_loop-leb_value 0 0 0 enc rest (omega arith) h)
    ∙ varint-eq b (length enc) (ap u64 (omega arith)) (omega arith)
        (ap (drop (length enc)) e ∙ drop-append enc rest (length enc) refl)

-- Where no byte ends the number, varint answers (0, 0), reads nothing and reports no error.
pub varint_unended : (b : Buf) → All (λ x. (128 ≤ x) × (x < 256)) b.unread → varint b ≡ (0, 0, b)
unfolding varint
varint_unended b h = ap (read_varint b) (varint_loop_unended 0 0 0 b.unread h)

-- On a LEB128 number uint gives its value modulo 2 ^ 64, and reads exactly its bytes.
pub uint-leb_value :
    (b : Buf) (enc rest : Bytes)
    → b.unread ≡ enc ++ rest
    → IsLeb enc
    → uint b ≡ (u64 (leb_value enc), record b { off = u32 (b.off + length enc); unread = rest })
unfolding uint
uint-leb_value b enc rest e h = ap {B = ℕ × Buf} (λ v. (v.0, v.2)) (varint-leb_value b enc rest e h)
