-- ===== src/Dwarf/Buf/Sleb.antt =====
-- The signed variable-length integers of dwarf/buf.go, as bit patterns of an int64.
use native.Mathlib.Nat.{pow-le-pow_right, one-le-pow, mod-eq_of_lt}
use native.Mathlib.Decide.{dec_lt}
use debug.Common.{
  ltb, leb, ◌==◌, if◌then◌else◌, lt→ltb, length, two_pow-add, or_word, u32, u64, bit_and-zero,
  bit_and_top, Bytes, ℕ, suc, ◌+◌, ◌-◌, ◌*◌, ◌^◌, ◌≤◌, ◌<◌, bit_or, ◌≡◌, sym, ap, ◌∙◌, true, false,
  ◌&&◌, [], ◌∷◌, ◌++◌, arith,
}
use debug.Dwarf.Buf.{Buf, sign_bit, extend_sign, int}
use debug.Dwarf.Buf.Leb.{leb_value, IsLeb, varint-leb_value}

double : (k : ℕ) → 2 ^ (k + 1) ≡ 2 * 2 ^ k
double k = omega (arith, two_pow-add k 1)

below_word : (k : ℕ) → k < 64 → 2 ^ k < 2 ^ 64
below_word k h = omega (
  arith,
  double k,
  one-le-pow k 2 (omega arith),
  pow-le-pow_right {n = 2} (omega arith) {i = k + 1} {j = 64} (omega arith),
)

sign_bit-pow : (k : ℕ) → k < 64 → sign_bit (k + 1) ≡ 2 ^ k
sign_bit-pow k h =
    let test : (k + 1 == 0) ≡ false = ground arith in
    let back : k + 1 - 1 ≡ k = omega arith in rw (test, back) (mod-eq_of_lt (below_word k h))

sign_bit_wide : (bits : ℕ) → 65 ≤ bits → sign_bit bits ≡ 0
sign_bit_wide bits h =
    let test : (bits == 0) ≡ false = ground arith in
    let back : bits - 1 ≡ bits - 65 + 64 = omega arith in
    let split : 2 ^ (bits - 1) ≡ 2 ^ (bits - 65) * 2 ^ 64 =
      ap (λ (t : ℕ). 2 ^ t) back ∙ two_pow-add (bits - 65) 64 in
    rw test (omega (arith, split))

sign_clear : (k x : ℕ) → x < 2 ^ k → k < 64 → extend_sign x (k + 1) ≡ x
unfolding extend_sign
sign_clear k x h lt = rw (sign_bit-pow k lt, bit_and_top k x (omega arith), lt→ltb x (2 ^ k) h)

sign_set :
    (k x : ℕ)
    → 2 ^ k ≤ x
    → x < 2 ^ (k + 1)
    → k < 63
    → extend_sign x (k + 1) ≡ x + (2 ^ 64 - 2 ^ (k + 1))
unfolding extend_sign
sign_set k x lo hi lt =
    let high : ltb x (2 ^ k) ≡ false = ground arith in
    let set : (2 ^ k == 0) ≡ false = ground (arith, one-le-pow k 2 (omega arith)) in
    let whole = below_word (k + 1) (omega arith) in
    let word : u64 x ≡ x = omega arith in
    let joined : bit_or x (u64 ((2 ^ 64 - 1) * 2 ^ (k + 1))) ≡ x + (2 ^ 64 - 2 ^ (k + 1)) =
      ap (λ t. bit_or t (u64 ((2 ^ 64 - 1) * 2 ^ (k + 1)))) (sym word)
      ∙ or_word (k + 1) (2 ^ 64 - 1) x hi
      ∙ omega (arith, one-le-pow (k + 1) 2 (omega arith)) in
    rw (sign_bit-pow k (omega arith), bit_and_top k x (omega (arith, double k)), high, set) joined

-- From 65 bits on the mask is shifted out, and the number stays as it is.
sign_wide : (bits x : ℕ) → 65 ≤ bits → extend_sign x bits ≡ x
unfolding extend_sign
sign_wide bits x h = rw (sign_bit_wide bits h, bit_and-zero x)

-- The two's complement reading, as a 64-bit pattern, of `bits` bits that hold `v`.
abbrev pub signed_word : ℕ → ℕ → ℕ
signed_word bits v =
    if ltb bits 64 && leb (2 ^ (bits - 1)) v then v + (2 ^ 64 - 2 ^ bits) else u64 v

narrow_word :
    (j v : ℕ) → v < 2 ^ (j + 1) → j < 63 → extend_sign (u64 v) (j + 1) ≡ signed_word (j + 1) v
narrow_word j v h lt =
    let word : u64 v ≡ v = mod-eq_of_lt (omega (arith, below_word (j + 1) (omega arith))) in
    let fits : ltb (j + 1) 64 ≡ true = ground arith in
    let back : j + 1 - 1 ≡ j = omega arith in
    elim (dec_lt v (2 ^ j)) [
      | yes low ↦
          let test : leb (2 ^ j) v ≡ false = ground arith in
          rw (fits, back, test, word) (sign_clear j v low (omega arith))
      | no high ↦
          let test : leb (2 ^ j) v ≡ true = ground arith in
          rw (fits, back, test, word) (sign_set j v (omega arith) h lt)
    ]

wide_word : (bits v : ℕ) → 65 ≤ bits → extend_sign (u64 v) bits ≡ signed_word bits v
wide_word bits v h =
    let test : ltb bits 64 ≡ false = ground arith in rw test (sign_wide bits (u64 v) h)

extend_sign-signed_word :
    (k v : ℕ) → v < 2 ^ (7 * suc k) → extend_sign (u64 v) (7 * suc k) ≡ signed_word (7 * suc k) v
extend_sign-signed_word k v h = elim (dec_lt k 9) [
  | yes low ↦
      let e : 7 * suc k ≡ 7 * k + 6 + 1 = omega arith in
      let h' : v < 2 ^ (7 * k + 6 + 1) = rw e at h in
      rw e (narrow_word (7 * k + 6) v h' (omega arith))
  | no high ↦ wide_word (7 * suc k) v (omega arith)
]

leb_value-lt : (enc : Bytes) → leb_value enc < 2 ^ (7 * length enc)
leb_value-lt [] = omega arith
leb_value-lt (b ∷ bs) =
    let e : 7 * suc (length bs) ≡ 7 * length bs + 7 = omega arith in
    rw e (omega (arith, two_pow-add (7 * length bs) 7, leb_value-lt bs))

-- On a signed LEB128 number, of any length, int gives its two's complement value as an int64, cut
-- to 64 bits, and reads exactly its bytes.
pub int-signed_word :
    (b : Buf) (enc rest : Bytes)
    → b.unread ≡ enc ++ rest
    → IsLeb enc
    → int b ≡ (
      signed_word (7 * length enc) (leb_value enc),
      record b { off = u32 (b.off + length enc); unread = rest },
    )
unfolding int
int-signed_word b [] rest e h = elim h [ ]
int-signed_word b (c ∷ cs) rest e h =
    ap {B = ℕ × Buf} (λ v. (extend_sign v.0 v.1, v.2)) (varint-leb_value b (c ∷ cs) rest e h)
    ∙ ap {B = ℕ × Buf} (λ x. (x, record b { off = u32 (b.off + length (c ∷ cs)); unread = rest }))
        (extend_sign-signed_word (length cs) (leb_value (c ∷ cs)) (leb_value-lt (c ∷ cs)))
