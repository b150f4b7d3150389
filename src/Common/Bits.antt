-- ===== src/Common/Bits.antt =====
-- Unsigned machine words as native numbers, and `|` and `&` on bit fields as arithmetic.
use native.Mathlib.Nat.{pow-suc, one-le-pow}
use native.Mathlib.Decide.{dec_lt}
use Prim.Native.Nat.{ℕ, zero, suc, ◌+◌, ◌-◌, ◌*◌, ◌/◌, ◌%◌, ◌^◌, ◌≤◌, ◌<◌, min, max}
use Prim.Native.Nat.{bit_and, bit_or, digits, bitwise, bit_and-bitwise, bit_or-bitwise}
use mathlib.Core.Path.{◌≡◌, refl, ap, ◌∙◌}
use mathlib.Core.Bool.{Bool, true, ◌&&◌}
use debug.Common.Tests.{ltb, ◌==◌, if◌then◌else◌}
use native.Mathlib.Omega.{arith}

abbrev pub u8 : ℕ → ℕ
u8 n = n % 2 ^ 8

abbrev pub u32 : ℕ → ℕ
u32 n = n % 2 ^ 32

abbrev pub u64 : ℕ → ℕ
u64 n = n % 2 ^ 64

abbrev pub IsByte : ℕ → Type 0
IsByte b = b < 256

-- `int64(int8(b))`
abbrev pub sign_extend8 : ℕ → ℕ
sign_extend8 b = if ltb b 128 then b else b + (2 ^ 64 - 256)

-- The native operations recurse on a count of digits. A count that is large enough may grow.
module _ (rest : ℕ → ℕ) (op : ℕ → ℕ → ℕ) where
  one_more : (count x y : ℕ) → x ≤ count → digits rest op (suc count) x y ≡ digits rest op count x y
  one_more zero zero y le = refl
  one_more zero (suc x) y le = absurd (omega arith)
  one_more (suc count) zero y le = refl
  one_more (suc count) (suc x) y le =
      ap (λ (h : ℕ). h * 2 + op (suc x % 2) (y % 2))
        (one_more count (suc x / 2) (y / 2) (omega arith))

  many_more : (extra x y : ℕ) → digits rest op (extra + x) x y ≡ bitwise rest op x y
  many_more zero x y = let none_more : 0 + x ≡ x = omega arith in rw none_more
  many_more (suc extra) x y =
      let one_of_them : suc extra + x ≡ suc (extra + x) = omega arith in
      rw one_of_them (one_more (extra + x) x y (omega arith) ∙ many_more extra x y)

  -- The lowest digit of a result, and the digits above it.
  low_digit :
      (x y : ℕ)
      → 0 < x
      → bitwise rest op x y ≡ op (x % 2) (y % 2) + 2 * bitwise rest op (x / 2) (y / 2)
  low_digit zero y positive = absurd (omega arith)
  low_digit (suc x) y positive =
      let spare : x - suc x / 2 + suc x / 2 ≡ x = omega arith in
      omega (
        arith,
        ap (λ count. digits rest op count (suc x / 2) (y / 2)) spare,
        many_more (x - suc x / 2) (suc x / 2) (y / 2),
      )

-- Zero on the left of `|` and of `&`.
pub zero-bit_or : (b : ℕ) → bit_or 0 b ≡ b
zero-bit_or b = bit_or-bitwise 0 b

zero-bit_and : (b : ℕ) → bit_and 0 b ≡ 0
zero-bit_and b = bit_and-bitwise 0 b

-- `|` and `&` digit by digit.
bit_or_digits : (x y : ℕ) → bit_or x y ≡ max (x % 2) (y % 2) + 2 * bit_or (x / 2) (y / 2)
bit_or_digits zero y = omega (arith, zero-bit_or y, zero-bit_or (y / 2))
bit_or_digits (suc x) y =
    rw (bit_or-bitwise (suc x) y, bit_or-bitwise (suc x / 2) (y / 2))
      (low_digit (λ d. d) max (suc x) y (omega arith))

bit_and_digits : (x y : ℕ) → bit_and x y ≡ min (x % 2) (y % 2) + 2 * bit_and (x / 2) (y / 2)
bit_and_digits zero y = omega (arith, zero-bit_and y, zero-bit_and (y / 2))
bit_and_digits (suc x) y =
    rw (bit_and-bitwise (suc x) y, bit_and-bitwise (suc x / 2) (y / 2))
      (low_digit (λ d. 0) min (suc x) y (omega arith))

and_zero_below : (count x : ℕ) → x < count → bit_and x 0 ≡ 0
and_zero_below zero x lt = absurd (omega arith)
and_zero_below (suc count) x lt = elim (dec_lt 0 x) [
  | yes positive ↦ omega (arith, bit_and_digits x 0, and_zero_below count (x / 2) (omega arith))
  | no zero_left ↦ let nothing : x ≡ 0 = omega arith in rw nothing (zero-bit_and 0)
]

pub bit_and-zero : (a : ℕ) → bit_and a 0 ≡ 0
bit_and-zero a = and_zero_below (suc a) a (omega arith)

bit_or_comm_fuel : (n a b : ℕ) → a ≤ n → b ≤ n → bit_or a b ≡ bit_or b a
bit_or_comm_fuel zero a b p q = let e : a ≡ b = omega arith in rw e
bit_or_comm_fuel (suc n) zero zero p q = refl
bit_or_comm_fuel (suc n) a b p q = omega (
  arith,
  bit_or_digits a b,
  bit_or_digits b a,
  bit_or_comm_fuel n (a / 2) (b / 2) (omega arith) (omega arith),
)

pub bit_or_comm : (a b : ℕ) → bit_or a b ≡ bit_or b a
bit_or_comm a b = bit_or_comm_fuel (a + b) a b (omega arith) (omega arith)

mul-pow-suc : (q k : ℕ) → q * 2 ^ suc k ≡ 2 * (q * 2 ^ k)
mul-pow-suc q k = omega (arith, ap (λ (t : ℕ). q * t) (pow-suc 2 k))

-- `r | q << k` is a sum when `r` fits `k` bits.
pub bit_or_high : (k q r : ℕ) → r < 2 ^ k → bit_or r (q * 2 ^ k) ≡ r + q * 2 ^ k
bit_or_high zero q r fits =
    let e : r ≡ 0 = omega arith in rw e (omega (arith, zero-bit_or (q * 2 ^ 0)))
bit_or_high (suc k) q r fits = ground (
  arith,
  bit_or_digits r (q * 2 ^ suc k),
  mul-pow-suc q k,
  bit_or_high k q (r / 2) (omega (arith, pow-suc 2 k)),
)

pub bit_or_low : (k q r : ℕ) → r < 2 ^ k → bit_or (q * 2 ^ k) r ≡ q * 2 ^ k + r
bit_or_low k q r fits = omega (arith, bit_or_comm (q * 2 ^ k) r, bit_or_high k q r fits)

bit_and_fields : (k q r : ℕ) → r < 2 ^ k → bit_and (q * 2 ^ k + r) (2 ^ k - 1) ≡ r
bit_and_fields zero q r fits = rw bit_and-zero (omega arith)
bit_and_fields (suc k) q r fits = ground (
  arith,
  bit_and_digits (q * 2 ^ suc k + r) (2 ^ suc k - 1),
  mul-pow-suc q k,
  pow-suc 2 k,
  bit_and_fields k q (r / 2) (omega arith),
)

-- A mask of the `k` low bits is the remainder by `2 ^ k`.
pub bit_and_mask : (k a : ℕ) → bit_and a (2 ^ k - 1) ≡ a % 2 ^ k
bit_and_mask k a = ground (arith, one-le-pow k 2, bit_and_fields k (a / 2 ^ k) (a % 2 ^ k))

-- Agreement of two functions below a bound, checked value by value.
module _ (f g : ℕ → ℕ) where
  unfoldable pub agree_below : ℕ → Bool
  agree_below zero = true
  agree_below (suc n) = f n == g n && agree_below n

  pub agree_below→eq : (n : ℕ) → agree_below n ≡ true → (i : ℕ) → i < n → f i ≡ g i
  unfolding agree_below
  agree_below→eq zero e i h = absurd (omega arith)
  agree_below→eq (suc n) e i h = ground (arith, agree_below→eq n (ground arith) i)

pub top_bit : (b : ℕ) → b < 256 → bit_and b 0x80 ≡ b / 128 * 128
unfolding agree_below
top_bit = agree_below→eq _ _ 256 refl

-- Bit `k` of a number of `k + 1` bits.
bit_and_bit : (k q r : ℕ) → q < 2 → r < 2 ^ k → bit_and (q * 2 ^ k + r) (2 ^ k) ≡ q * 2 ^ k
bit_and_bit zero q r hq fits = omega (arith, bit_and_mask 1 (q * 2 ^ 0 + r))
bit_and_bit (suc k) q r hq fits = ground (
  arith,
  bit_and_digits (q * 2 ^ suc k + r) (2 ^ suc k),
  mul-pow-suc q k,
  pow-suc 2 k,
  bit_and_bit k q (r / 2) hq (omega (arith, pow-suc 2 k)),
)

pub bit_and_top :
    (k x : ℕ) → x < 2 * 2 ^ k → bit_and x (2 ^ k) ≡ (if ltb x (2 ^ k) then 0 else 2 ^ k)
bit_and_top k x h = elim (dec_lt x (2 ^ k)) [
  | yes low ↦ ground (arith, bit_and_bit k 0 x)
  | no high ↦ ground (arith, bit_and_bit k 1 (x - 2 ^ k))
]
