-- ===== src/Arch/Ints.antt =====
-- The byte-wise readers of arch.go against the positional value of the bytes.
use mathlib.Core.List.{reverse, reverse-cons}
use native.Mathlib.Nat.{pow-le-pow_right}
use native.Mathlib.Decide.{dec_lt}
use debug.Common.{
  ltb, ◌==◌, if◌then◌else◌, lt→ltb, length, All, length-append, All-append, two_pow-add, or_word,
  u64, IsByte, sign_extend8, bit_or_low, Bytes, ByteOrder, little_endian, big_endian, le_value,
  be_value, order_value, order_uint?_exact, ℕ, suc, ◌+◌, ◌-◌, ◌*◌, ◌%◌, ◌^◌, ◌≤◌, ◌<◌, bit_or, ◌≡◌,
  refl, sym, ap, ◌∙◌, false, ◌&&◌, ◌||◌, none, some, [], ◌∷◌, ◌++◌, arith,
}
use debug.Arch.{Architecture, uint, shift_in, int_digits, int_n, or_shifted, uint_n}

be_value-concat :
    (acc : ℕ) (bs : Bytes) (b : ℕ) → be_value acc (bs ++ b ∷ []) ≡ be_value acc bs * 256 + b
be_value-concat acc [] b = refl
be_value-concat acc (c ∷ cs) b = be_value-concat (acc * 256 + c) cs b

be_value-reverse : (bs : Bytes) → be_value 0 (reverse bs) ≡ le_value bs
be_value-reverse [] = refl
be_value-reverse (b ∷ bs) =
    rw reverse-cons (omega (arith, be_value-concat 0 (reverse bs) b, be_value-reverse bs))

-- One byte shifted in: the old value moves up by eight bits, and what passes 2 ^ 64 is lost.
or_byte : (x b : ℕ) → b < 256 → bit_or (u64 (x * 2 ^ 8)) b ≡ u64 (x * 256 + b)
or_byte x b h = omega (arith, bit_or_low 8 (x % 2 ^ 56) b h, top)
  where
    top : bit_or (u64 (x * 2 ^ 8)) b ≡ bit_or (x % 2 ^ 56 * 2 ^ 8) b
    top = let e : u64 (x * 2 ^ 8) ≡ x % 2 ^ 56 * 2 ^ 8 = omega arith in rw e

be_value-u64 : (x : ℕ) (bs : Bytes) → u64 (be_value (u64 x) bs) ≡ u64 (be_value x bs)
be_value-u64 x [] = omega arith
be_value-u64 x (b ∷ bs) =
    sym (be_value-u64 (u64 x * 256 + b) bs)
    ∙ ap (λ t. u64 (be_value t bs)) (omega arith)
    ∙ be_value-u64 (x * 256 + b) bs

shift_in-be_value :
    (x : ℕ) (bs : Bytes) → All IsByte bs → x < 2 ^ 64 → shift_in x bs ≡ u64 (be_value x bs)
unfolding shift_in
shift_in-be_value x [] h lt = omega arith
shift_in-be_value x (b ∷ bs) h lt =
    rw (or_byte x b h.0)
      (shift_in-be_value (u64 (x * 256 + b)) bs h.1 (omega arith) ∙ be_value-u64 (x * 256 + b) bs)

-- The little-endian loop: `u` holds the bytes read, which fill `shift` bits.
or_shifted-le_value :
    (u shift : ℕ) (bs : Bytes)
    → All IsByte bs
    → u < 2 ^ shift
    → or_shifted (u64 u) shift bs ≡ u64 (u + le_value bs * 2 ^ shift)
unfolding or_shifted
or_shifted-le_value u shift [] h lt = omega arith
or_shifted-le_value u shift (b ∷ bs) h lt =
    let more : 2 ^ (shift + 8) ≡ 256 * 2 ^ shift = omega (arith, two_pow-add shift 8) in
    let fits : u + b * 2 ^ shift < 2 ^ (shift + 8) = rw more (grind arith) in
    rw (or_word shift b u lt) (
      or_shifted-le_value (u + b * 2 ^ shift) (shift + 8) bs h.1 fits
      ∙ ap u64 (omega (arith, ap (λ (t : ℕ). le_value bs * t) more)))

All-reverse : (bs : Bytes) → All IsByte bs → All IsByte (reverse bs)
All-reverse [] h = tt
All-reverse (b ∷ bs) h =
    rw reverse-cons (All-append IsByte (reverse bs) (b ∷ []) (All-reverse bs h.1) (h.0, tt))

length-reverse : (bs : Bytes) → length (reverse bs) ≡ length bs
length-reverse [] = refl
length-reverse (b ∷ bs) =
    rw reverse-cons (omega (arith, length-append (reverse bs) (b ∷ []), length-reverse bs))

-- UintN of any byte slice is the value of its bytes in the target's byte order, modulo 2 ^ 64.
pub uint_n_lem :
    (a : Architecture) (buf : Bytes)
    → All IsByte buf
    → uint_n a buf ≡ u64 (order_value a.byte_order buf)
unfolding uint_n
uint_n_lem a buf h = go a.byte_order
  where
    go :
        (o : ByteOrder)
        → elim o [ little_endian ↦ or_shifted 0 0 buf | big_endian ↦ shift_in 0 buf ]
          ≡ u64 (order_value o buf)
    go little_endian = or_shifted-le_value 0 0 buf h (omega arith) ∙ ap u64 (omega arith)
    go big_endian = shift_in-be_value 0 buf h (omega arith)

be_value_split : (x : ℕ) (bs : Bytes) → be_value x bs ≡ x * 2 ^ (8 * length bs) + be_value 0 bs
be_value_split x [] = omega arith
be_value_split x (b ∷ bs) =
    let p = 2 ^ (8 * length bs) in
    let more : 2 ^ (8 * suc (length bs)) ≡ p * 256 =
      ap (λ (t : ℕ). 2 ^ t) eight ∙ two_pow-add (8 * length bs) 8 in
    omega (
      arith,
      be_value_split (x * 256 + b) bs,
      be_value_split (0 * 256 + b) bs,
      ap (λ (t : ℕ). x * t) more,
    )
  where
    eight : 8 * suc (length bs) ≡ 8 * length bs + 8
    eight = omega arith

be_value-lt : (bs : Bytes) → All IsByte bs → be_value 0 bs < 2 ^ (8 * length bs)
be_value-lt [] h = omega arith
be_value-lt (b ∷ bs) h =
    let p = 2 ^ (8 * length bs) in
    let eight : 8 * suc (length bs) ≡ 8 * length bs + 8 = omega arith in
    let more : 2 ^ (8 * suc (length bs)) ≡ p * 256 =
      ap (λ (t : ℕ). 2 ^ t) eight ∙ two_pow-add (8 * length bs) 8 in
    let below : be_value 0 bs < p = be_value-lt bs h.1 in
    let digit : b < 256 = h.0 in
    let top : b * p + be_value 0 bs < 256 * p = grind arith in
    omega (arith, be_value_split (0 * 256 + b) bs)

abbrev pub sign_extend_at : ℕ → ℕ → ℕ → ℕ
sign_extend_at m half v = if ltb v half then v else v + (2 ^ 64 - m)

le→ltb : (a b : ℕ) → b ≤ a → ltb a b ≡ false
le→ltb a b h = ground arith

be_value-lt-word : (bs : Bytes) → All IsByte bs → length bs ≤ 8 → be_value 0 bs < 2 ^ 64
be_value-lt-word bs h hi = omega (
  arith,
  be_value-lt bs h,
  pow-le-pow_right {n = 2} (omega arith) {i = 8 * length bs} {j = 64} (omega arith),
)

-- A two's complement integer of `w` bits, as a pattern of 64 bits.
abbrev pub sign_extend : ℕ → ℕ → ℕ
sign_extend w v = sign_extend_at (2 ^ w) (2 ^ (w - 1)) v

sign_positive :
    (b p w : ℕ)
    → b < 128
    → w < p
    → 256 * p ≤ 2 ^ 64
    → u64 (b * p + w) ≡ sign_extend_at (256 * p) (128 * p) (b * p + w)
sign_positive b p w hb hw top =
    let low : b * p + w < 128 * p = grind arith in rw (lt→ltb _ _ low) (omega arith)

sign_negative :
    (b p w : ℕ)
    → 128 ≤ b
    → b < 256
    → w < p
    → 256 * p ≤ 2 ^ 64
    → u64 ((b + (2 ^ 64 - 256)) * p + w) ≡ sign_extend_at (256 * p) (128 * p) (b * p + w)
sign_negative b p w lo hb hw top =
    let high : 128 * p ≤ b * p + w = grind arith in
    let below : b * p + w < 256 * p = grind arith in rw (le→ltb _ _ high) (omega arith)

sign_digit :
    (b p w : ℕ)
    → b < 256
    → w < p
    → 256 * p ≤ 2 ^ 64
    → u64 (sign_extend8 b * p + w) ≡ sign_extend_at (256 * p) (128 * p) (b * p + w)
sign_digit b p w hb hw top = elim (dec_lt b 128) [
  | yes low ↦ rw (lt→ltb b 128 low) (sign_positive b p w low hw top)
  | no high ↦ rw (le→ltb b 128 (omega arith)) (sign_negative b p w (omega arith) hb hw top)
]

sign_extend8-lt : (b : ℕ) → b < 256 → sign_extend8 b < 2 ^ 64
sign_extend8-lt b h = ground arith

int_digits-be_value :
    (buf : Bytes)
    → All IsByte buf
    → 1 ≤ length buf
    → length buf ≤ 8
    → int_digits buf ≡ sign_extend (8 * length buf) (be_value 0 buf)
unfolding int_digits
int_digits-be_value [] h lo hi = absurd (omega arith)
int_digits-be_value (b ∷ bs) h lo hi =
    let n = 8 * length bs in
    let p = 2 ^ n in
    let w = be_value 0 bs in
    let whole : 2 ^ (8 * suc (length bs)) ≡ 256 * p =
      ap (λ (t : ℕ). 2 ^ t) (omega arith) ∙ two_pow-add n 8 ∙ omega arith in
    let half : 2 ^ (8 * suc (length bs) - 1) ≡ 128 * p =
      ap (λ (t : ℕ). 2 ^ t) (omega arith) ∙ two_pow-add n 7 ∙ omega arith in
    let value : be_value (0 + b) bs ≡ b * p + w = omega (arith, be_value_split (0 + b) bs) in
    let room : 256 * p ≤ 2 ^ 64 = omega (
      arith,
      whole,
      pow-le-pow_right {n = 2} (omega arith) {i = 8 * suc (length bs)} {j = 64} (omega arith),
    ) in
    let read : shift_in (sign_extend8 b) bs ≡ u64 (sign_extend8 b * p + w) =
      shift_in-be_value (sign_extend8 b) bs h.1 (sign_extend8-lt b h.0)
      ∙ ap u64 (be_value_split (sign_extend8 b) bs) in
    read ∙ sign_digit b p w h.0 (be_value-lt bs h.1) room ∙ rw (whole, half, value)

reverse_size : (buf : Bytes) → 8 * length (reverse buf) ≡ 8 * length buf
reverse_size buf = rw (length-reverse buf)

-- IntN of a slice of one to eight bytes is the two's complement integer that its bytes hold in the
-- target's byte order: negative exactly when the most significant bit is set.
pub int_n_lem :
    (a : Architecture) (buf : Bytes)
    → All IsByte buf
    → 1 ≤ length buf
    → length buf ≤ 8
    → int_n a buf ≡ sign_extend (8 * length buf) (order_value a.byte_order buf)
unfolding int_n
int_n_lem a buf h lo hi = go a.byte_order
  where
    go :
        (o : ByteOrder)
        → elim o [ little_endian ↦ int_digits (reverse buf) | big_endian ↦ int_digits buf ]
          ≡ sign_extend (8 * length buf) (order_value o buf)
    go little_endian =
        let same = length-reverse buf in
        int_digits-be_value (reverse buf) (All-reverse buf h) (omega arith) (omega arith)
        ∙ rw (length-reverse buf, be_value-reverse buf)
    go big_endian = int_digits-be_value buf h lo hi

order_value-lt :
    (o : ByteOrder) (buf : Bytes) → All IsByte buf → length buf ≤ 8 → order_value o buf < 2 ^ 64
order_value-lt little_endian buf h hi =
    rw (← be_value-reverse buf)
      (be_value-lt-word (reverse buf) (All-reverse buf h) (omega (arith, length-reverse buf)))
order_value-lt big_endian buf h hi = be_value-lt-word buf h hi

-- Where Uint does not panic, it agrees with UintN; it panics exactly when the slice has not the
-- target's int size, or that size is neither 4 nor 8.
pub uint-uint_n :
    (a : Architecture) (buf : Bytes)
    → All IsByte buf
    → uint a buf ≡ (
        if (length buf == a.int_size) && (a.int_size == 4 || a.int_size == 8)
        then some (uint_n a buf)
        else none)
unfolding uint
uint-uint_n a buf h = ground (
  arith,
  order_uint?_exact a.byte_order 4 buf,
  order_uint?_exact a.byte_order 8 buf,
  uint_n_lem a buf h,
  order_value-lt a.byte_order buf h,
)
