-- ===== src/Server/Location/Signed.antt =====
-- server/dwarf.go: the signed numbers of a location.
use native.Mathlib.Nat.{pow-le-pow_right, one-le-pow, mul_comm}
use mathlib.Core.Path.{subst}
use debug.Common.{
  ltb, leb, ◌==◌, if◌then◌else◌, Bool-cases, length, drop, All, length-append, drop-append,
  two_pow-add, or_word, u64, top_bit, bit_and_top, Bytes, ℕ, suc, ◌+◌, ◌-◌, ◌*◌, ◌/◌, ◌%◌, ◌^◌, ◌≤◌,
  ◌<◌, bit_and, bit_or, ◌≡◌, refl, sym, ap, ◌∙◌, inl, inr, true, false, ◌&&◌, [], ◌∷◌, ◌++◌, arith,
}
use native.Mathlib.Nat.{mul-le-mul_left}
use debug.Common.Result.{ok}
use debug.Dwarf.Buf.Leb.{leb_value, IsLeb, group_lem, group_fits, group_sum}
use debug.Dwarf.Buf.Sleb.{signed_word}
use debug.Server.Location.{sleb_loop, sleb128, op_consts, op_plus, op_call_frame_cfa, eval_location}

-- -1 shifted up by the bits of a number, and put in front of it.
extended :
    (bits v : ℕ)
    → v < 2 ^ bits
    → u64 (v + (2 ^ 64 - 1) * 2 ^ bits)
      ≡ (if ltb bits 64 && true then v + (2 ^ 64 - 2 ^ bits) else u64 v)
extended bits v h = elim (Bool-cases (ltb bits 64)) [
  | inl narrow ↦
      let fits : 2 ^ bits ≤ 2 ^ 63 =
        pow-le-pow_right {n = 2} (omega arith) {i = bits} {j = 63} (ground arith) in
      rw narrow (omega (arith, fits, h, one-le-pow bits 2 (omega arith)))
  | inr wide ↦
      let split : bits ≡ bits - 64 + 64 = ground arith in
      let scaled : 2 ^ bits ≡ 2 ^ (bits - 64) * 2 ^ 64 =
        ap (λ (t : ℕ). 2 ^ t) split ∙ two_pow-add (bits - 64) 64 in
      rw wide (omega (arith, scaled))
]

-- A last byte: its sign bit is the value's.
sign_joined :
    (v shift x : ℕ)
    → v < 2 ^ shift
    → x < 128
    → (if bit_and x 0x40 == 0
        then u64 (v + x * 2 ^ shift)
        else bit_or (u64 (v + x * 2 ^ shift)) (u64 ((2 ^ 64 - 1) * 2 ^ (shift + 7))))
      ≡ signed_word (shift + 7) (v + x * 2 ^ shift)
sign_joined v shift x h low =
    let digit : x % 128 ≡ x = omega (arith, low) in
    let small : v + x * 2 ^ shift < 2 ^ (shift + 7) =
      subst (λ (y : ℕ). v + y * 2 ^ shift < 2 ^ (shift + 7)) digit (group_fits v shift x h) in
    let half : 2 ^ (shift + 6) ≡ 2 ^ shift * 64 = two_pow-add shift 6 in
    let back : shift + 7 - 1 ≡ shift + 6 = omega arith in
    let bit : bit_and x 0x40 ≡ (if ltb x 0x40 then 0 else 0x40) =
      bit_and_top 6 x (omega (arith, low)) in
    let sum = v + x * 2 ^ shift in
    elim (Bool-cases (ltb x 0x40)) [
      | inl clear ↦
          let at_most : x ≤ 63 = ground arith in
          let product : 2 ^ shift * x ≤ 2 ^ shift * 63 = mul-le-mul_left (2 ^ shift) at_most in
          let under : leb (2 ^ (shift + 6)) sum ≡ false =
            ground (arith, half, h, product, mul_comm (2 ^ shift) x) in
          let no_bit : (bit_and x 0x40 == 0) ≡ true = ground (arith, bit, clear) in
          let positive : (ltb (shift + 7) 64 && leb (2 ^ (shift + 6)) sum) ≡ false =
            ground (arith, under) in
          rw (no_bit, back, positive) refl
      | inr set ↦
          let at_least : 64 ≤ x = ground arith in
          let product : 2 ^ shift * 64 ≤ 2 ^ shift * x = mul-le-mul_left (2 ^ shift) at_least in
          let over : leb (2 ^ (shift + 6)) sum ≡ true =
            ground (arith, half, product, mul_comm (2 ^ shift) x) in
          let a_bit : (bit_and x 0x40 == 0) ≡ false = ground (arith, bit, set) in
          rw (a_bit, back, over, or_word (shift + 7) (2 ^ 64 - 1) sum small)
            (extended (shift + 7) sum small)
    ]

sleb_loop-leb_value :
    (v shift i k : ℕ) (enc rest : Bytes)
    → v < 2 ^ shift
    → IsLeb enc
    → sleb_loop i k (u64 v) shift (enc ++ rest)
      ≡ (signed_word (shift + 7 * length enc) (v + leb_value enc * 2 ^ shift), k + length enc - 1)
unfolding sleb_loop
sleb_loop-leb_value v shift i k [] rest h e = absurd e
sleb_loop-leb_value v shift i k (b ∷ []) rest h e =
    let none_left : (b / 128 * 128 == 0) ≡ true = ground (arith, e) in
    let digit : b % 128 ≡ b = omega (arith, e) in
    let plus : b + 0 ≡ b = omega arith in
    let index : k + 1 - 1 ≡ k = omega arith in
    rw (group_lem v shift b h, top_bit b (omega (arith, e)), none_left, digit, index)
      (ap (λ y. (y, k)) (sign_joined v shift b h e) ∙ λ j.
        (signed_word (shift + 7) (v + sym plus j * 2 ^ shift), k))
sleb_loop-leb_value v shift i k (b ∷ c ∷ cs) rest h e =
    let more_left : (b / 128 * 128 == 0) ≡ false = ground (arith, e.0) in
    let sum : v + b % 128 * 2 ^ shift + leb_value (c ∷ cs) * 2 ^ (shift + 7)
        ≡ v + leb_value (b ∷ c ∷ cs) * 2 ^ shift =
      group_sum v shift b (leb_value (c ∷ cs)) in
    let bits : shift + 7 + 7 * length (c ∷ cs) ≡ shift + 7 * length (b ∷ c ∷ cs) = omega arith in
    let index : k + 1 + length (c ∷ cs) - 1 ≡ k + length (b ∷ c ∷ cs) - 1 = omega arith in
    rw (group_lem v shift b h, top_bit b e.1, more_left)
      (sleb_loop-leb_value (v + b % 128 * 2 ^ shift) (shift + 7) k (k + 1) (c ∷ cs) rest
          (group_fits v shift b h) e.2
        ∙ λ j. (signed_word (bits j) (sum j), index j))

drop_all : (v : Bytes) → drop (length v) v ≡ []
drop_all [] = refl
drop_all (x ∷ v) = drop_all v

IsLeb-pos : (enc : Bytes) → IsLeb enc → 0 < length enc
IsLeb-pos [] h = absurd h
IsLeb-pos (b ∷ bs) h = omega arith

sleb128-signed_word :
    (enc rest : Bytes)
    → IsLeb enc
    → sleb128 (enc ++ rest) ≡ ok (signed_word (7 * length enc) (leb_value enc), rest)
unfolding sleb128
sleb128-signed_word enc rest h =
    let some_bytes = IsLeb-pos enc h in
    let whole : leb_value enc ≡ 0 + leb_value enc * 2 ^ 0 = omega arith in
    let bits : 0 + 7 * length enc ≡ 7 * length enc = omega arith in
    let last : 0 + length enc - 1 + 1 ≡ length enc = omega (arith, some_bytes) in
    let inside : (0 + length enc - 1 == length (enc ++ rest)) ≡ false =
      ground (arith, length-append enc rest, some_bytes) in
    let fits : ltb (length (enc ++ rest)) (length enc) ≡ false =
      ground (arith, length-append enc rest) in
    rw (sleb_loop-leb_value 0 0 0 0 enc rest (omega arith) h)
      (rw (inside, last, fits, drop-append enc rest (length enc) refl, bits, ← whole) refl)

-- The location that is an offset from the canonical frame address, which is written as a signed
-- LEB128 number of any length, is evaluated to its two's complement value as an int64, cut to 64
-- bits.
pub eval_location-signed_word :
    (enc : Bytes)
    → IsLeb enc
    → eval_location (op_call_frame_cfa ∷ op_consts ∷ (enc ++ op_plus ∷ []))
      ≡ ok (signed_word (7 * length enc) (leb_value enc))
unfolding eval_location
eval_location-signed_word enc h =
    let long : (length (op_call_frame_cfa ∷ op_consts ∷ (enc ++ op_plus ∷ [])) == 0) ≡ false =
      ground arith in
    let longer : (length (op_call_frame_cfa ∷ op_consts ∷ (enc ++ op_plus ∷ [])) == 1) ≡ false =
      ground arith in
    rw (long, longer, sleb128-signed_word enc (op_plus ∷ []) h) refl

sleb_loop_unended :
    (i k s shift : ℕ) (v : Bytes)
    → All (λ x. (128 ≤ x) × (x < 256)) v
    → (s' : ℕ) × (sleb_loop i k s shift v ≡ (s', if length v == 0 then i else k + length v - 1))
unfolding sleb_loop
sleb_loop_unended i k s shift [] h = (s, refl)
sleb_loop_unended i k s shift (x ∷ v) h =
    let more_left : (x / 128 * 128 == 0) ≡ false = ground (arith, h.0.0) in
    let (s', rest) =
      sleb_loop_unended k (k + 1) (bit_or s (u64 (bit_and x 0x7F * 2 ^ shift))) (shift + 7) v h.1 in
    let index : (if length v == 0 then k else k + 1 + length v - 1)
        ≡ (if suc (length v) == 0 then i else k + suc (length v) - 1) =
      ground arith in
    (s', rw (top_bit x h.0.1, more_left) (rest ∙ λ j. (s', index j)))

-- A number that does not end within a slice that is not empty is not found to be truncated: sleb128
-- gives a number and no error, and leaves nothing.
pub sleb128_unended :
    (x : ℕ) (v : Bytes)
    → All (λ y. (128 ≤ y) × (y < 256)) (x ∷ v)
    → (s : ℕ) × (sleb128 (x ∷ v) ≡ ok (s, []))
unfolding sleb128
sleb128_unended x v h =
    let (s, loop) = sleb_loop_unended 0 0 0 0 (x ∷ v) h in
    let index : (if suc (length v) == 0 then 0 else 0 + suc (length v) - 1) ≡ length v =
      ground arith in
    let inside : (length v == suc (length v)) ≡ false = ground arith in
    let fits : ltb (suc (length v)) (length v + 1) ≡ false = ground arith in
    let last : length v + 1 ≡ length (x ∷ v) = omega arith in
    let nothing : drop (length (x ∷ v)) (x ∷ v) ≡ [] = drop_all v in
    (s, rw (loop, index, inside, fits) (rw (last, nothing) refl))
