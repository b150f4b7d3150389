-- ===== src/Common/Words.antt =====
-- Fields shifted into a 64-bit word by `|`: what passes bit 64 is lost.
use native.Mathlib.Decide.{dec_lt}
use Prim.Native.Nat.{ℕ, zero, suc, ◌+◌, ◌-◌, ◌*◌, ◌/◌, ◌%◌, ◌^◌, ◌<◌, bit_or}
use mathlib.Core.Path.{◌≡◌, sym, ap, ◌∙◌}
use native.Mathlib.Nat.{
  pow-suc, mod-lt, one-le-pow, div-add-mod, mod-eq_of_lt, mul-add-mod_self_left,
}
use native.Mathlib.Omega.{arith}
use debug.Common.Bits.{u64, zero-bit_or, bit_or_comm, bit_or_high}

pub two_pow-add : (a b : ℕ) → 2 ^ (a + b) ≡ 2 ^ a * 2 ^ b
two_pow-add a zero = let e : a + 0 ≡ a = omega arith in rw e (omega arith)
two_pow-add a (suc b) =
    let e : a + suc b ≡ suc (a + b) = omega arith in
    rw e (
      omega (
        arith,
        pow-suc 2 (a + b),
        two_pow-add a b,
        ap (λ (t : ℕ). 2 ^ a * t) (pow-suc 2 b),
        ap (λ (t : ℕ). 2 * t) (two_pow-add a b),
      ))

scaled_lt : (r p q u : ℕ) → r < q → u < p → u + r * p < q * p
scaled_lt r p q u h lt = grind arith

-- `c * p` modulo `q * p`.
mod_scaled : (c p q : ℕ) → 0 < p → 0 < q → (c * p) % (q * p) ≡ c % q * p
mod_scaled c p q hp hq =
    ap (λ t. t % (q * p)) split
    ∙ mul-add-mod_self_left (q * p) (c / q) (c % q * p)
    ∙ mod-eq_of_lt (omega (arith, scaled_lt (c % q) p q 0 (mod-lt c hq) hp))
  where
    split : c * p ≡ q * p * (c / q) + c % q * p
    split = omega (arith, ap (λ (t : ℕ). t * p) (div-add-mod c q))

-- `u | c << s` in 64 bits, where `u` fits `s` bits, is a sum modulo 2 ^ 64.
pub or_word : (s c u : ℕ) → u < 2 ^ s → bit_or (u64 u) (u64 (c * 2 ^ s)) ≡ u64 (u + c * 2 ^ s)
or_word s c u h = elim (dec_lt s 64) [
  | yes low ↦
      let p = 2 ^ s in
      let q = 2 ^ (64 - s) in
      let back : 64 - s + s ≡ 64 = omega arith in
      let whole : q * p ≡ 2 ^ 64 = sym (two_pow-add (64 - s) s) ∙ ap (λ (t : ℕ). 2 ^ t) back in
      let cut : u64 (c * p) ≡ c % q * p =
        ap (λ t. c * p % t) (sym whole)
        ∙ mod_scaled c p q (one-le-pow s 2 (omega arith)) (one-le-pow (64 - s) 2 (omega arith)) in
      let fits : u + c % q * p < 2 ^ 64 = omega (
        arith,
        whole,
        scaled_lt (c % q) p q u (mod-lt c (one-le-pow (64 - s) 2 (omega arith))) h,
      ) in
      let same : u64 u ≡ u = omega arith in
      let split : u64 (u + c * p) ≡ u + c % q * p = omega (arith, cut) in
      rw (cut, same) (bit_or_high s (c % q) u h ∙ sym split)
  | no high ↦
      let p = 2 ^ (s - 64) in
      let back : s ≡ s - 64 + 64 = omega arith in
      let whole : 2 ^ s ≡ p * 2 ^ 64 = ap (λ (t : ℕ). 2 ^ t) back ∙ two_pow-add (s - 64) 64 in
      let gone : u64 (c * 2 ^ s) ≡ 0 = omega (arith, ap (λ (t : ℕ). c * t) whole) in
      rw gone (omega (arith, bit_or_comm (u64 u) 0, zero-bit_or (u64 u), gone))
]
