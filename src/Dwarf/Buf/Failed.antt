-- ===== src/Dwarf/Buf/Failed.antt =====
-- The first error of a buffer, and the buffer after it: the comment in dwarf/entry.go (lines 51-52)
-- calls it an endless stream of zeros. The error sets its data to nil, which has no capacity for a
-- slice to read on into.
use debug.Common.{
  ltb, ◌==◌, if-cases, length, u32, Bytes, ℕ, suc, ◌+◌, ◌^◌, ◌<◌, ◌≡◌, refl, sym, ap, ◌∙◌, true,
  false, none, some, List, [], String, arith,
}
use debug.Common.Result.{Error, decode_error}
use debug.Dwarf.Buf.{
  Buf, error, read_uint8, uint8, bytes, skip, slice, split_nul, read_string, string, fixed_value,
  fixed_uint, uint16, uint32, uint64, varint_loop, read_varint, varint, uint, extend_sign, int,
  addr, assert_empty,
}

-- The buffer that a read which fails leaves: empty, with an error at the offset of the read's start.
abbrev pub failed_with : Buf → String → List ℕ → Buf
failed_with b s args = record b { unread = []; err = some (decode_error b.name b.off s args) }

pub error_first :
    (b : Buf) (s : String) (args : List ℕ) → b.err ≡ none → error b s args ≡ failed_with b s args
unfolding error
error_first b s args e = rw (e, error)

pub error_later :
    (b : Buf) (s : String) (args : List ℕ) {x : Error} → b.err ≡ some x → error b s args ≡ b
unfolding error
error_later b s args e = ground (arith)

module _ (b : Buf) {e : Error} (failed : b.err ≡ some e) (empty : b.unread ≡ []) where
  pub bytes_failed : (n : ℕ) → 0 < n → bytes b n ≡ (none, b)
  unfolding bytes
  bytes_failed n h =
      let short : ltb (length b.unread) n ≡ true = ground (arith, ap length empty) in
      rw (short, error_later b "underflow" [] failed)

  pub uint8_failed : uint8 b ≡ (0, b)
  unfolding uint8
  uint8_failed =
      ap (read_uint8 b) empty ∙ ap {B = ℕ × Buf} (λ c. (0, c)) (error_later b "underflow" [] failed)

  pub fixed_failed : (n : ℕ) → 0 < n → fixed_uint n b ≡ (0, b)
  fixed_failed n h = ap {B = ℕ × Buf} (λ r. (fixed_value b.order r.0, r.1)) (bytes_failed n h)

  pub varint_failed : varint b ≡ (0, 0, b)
  unfolding varint
  varint_failed = ap (λ bs. read_varint b (varint_loop 0 0 0 bs)) empty

  pub string_failed : string b ≡ ([], b)
  unfolding string
  string_failed =
      ap (λ bs. read_string b (split_nul bs)) empty
      ∙ ap {B = Bytes × Buf} (λ c. ([], c)) (error_later b "underflow" [] failed)

  pub addr_failed : addr b ≡ (0, b)
  unfolding addr
  addr_failed =
      let P : ℕ × Buf → Type 0 = λ r. r ≡ (0, b) in
      if-cases P (b.format.addrsize == 1) {x = uint8 b} uint8_failed (
        if-cases P (b.format.addrsize == 2) {x = uint16 b} (fixed_failed 2 (omega arith)) (
          if-cases P (b.format.addrsize == 4) {x = uint32 b} (fixed_failed 4 (omega arith)) (
            if-cases P (b.format.addrsize == 8) {x = uint64 b} (fixed_failed 8 (omega arith))
              (ap {B = ℕ × Buf} (λ c. (0, c)) (error_later b "unknown address size" [] failed)))))

  pub assert_empty_failed : assert_empty b ≡ b
  unfolding assert_empty
  assert_empty_failed =
      let done : (length b.unread == 0) ≡ true = ground (arith, ap length empty) in rw done refl

  pub bytes_none : b.off < 2 ^ 32 → bytes b 0 ≡ (some [], b)
  unfolding bytes
  bytes_none bounded =
      let same : u32 (b.off + 0) ≡ b.off = omega (arith, bounded) in
      let fits : ltb (length b.unread) 0 ≡ false = ground arith in rw (fits, same) refl

  skip_failed : (n : ℕ) → 0 < n → skip b n ≡ b
  unfolding skip
  skip_failed n h = ap (λ r. r.1) (bytes_failed n h)

  skip_none : b.off < 2 ^ 32 → skip b 0 ≡ b
  unfolding skip
  skip_none bounded = ap (λ r. r.1) (bytes_none bounded)

  slice_none : b.off < 2 ^ 32 → slice b 0 ≡ some (b, b)
  unfolding slice
  slice_none bounded =
      let fits : ltb (length b.unread) 0 ≡ false = ground arith in
      rw fits (λ i. some (record b { unread = sym empty i }, skip_none bounded i))

  slice_failed : (n : ℕ) → 0 < n → slice b n ≡ none
  unfolding slice
  slice_failed n h =
      let short : ltb (length b.unread) n ≡ true = ground (arith, ap length empty) in rw short refl

  -- The endless stream of zeros. On an empty buffer with an error, whose offset is a uint32, uint8,
  -- uint16, uint32, uint64, uint, int and addr give 0, varint gives 0 of 0 bits, string gives the
  -- empty string, bytes gives nil at a positive count and no bytes at 0, and these, skip and
  -- assertEmpty leave the buffer, its first error included, as it is. slice gives the buffer itself
  -- at length 0, and panics, past the end of the data, at a positive length.
  pub zeros_after_error :
      (n : ℕ)
      → b.off < 2 ^ 32
      → (uint8 b ≡ (0, b))
        × (uint16 b ≡ (0, b))
        × (uint32 b ≡ (0, b))
        × (uint64 b ≡ (0, b))
        × (uint b ≡ (0, b))
        × (int b ≡ (0, b))
        × (addr b ≡ (0, b))
        × (varint b ≡ (0, 0, b))
        × (string b ≡ ([], b))
        × (bytes b (suc n) ≡ (none, b))
        × (bytes b 0 ≡ (some [], b))
        × (skip b (suc n) ≡ b)
        × (skip b 0 ≡ b)
        × (assert_empty b ≡ b)
        × (slice b (suc n) ≡ none)
        × (slice b 0 ≡ some (b, b))
  unfolding uint16 uint32 uint64 uint int
  zeros_after_error n bounded = (
    uint8_failed,
    fixed_failed 2 (omega arith),
    fixed_failed 4 (omega arith),
    fixed_failed 8 (omega arith),
    ap {B = ℕ × Buf} (λ v. (v.0, v.2)) varint_failed,
    ap {B = ℕ × Buf} (λ v. (extend_sign v.0 v.1, v.2)) varint_failed,
    addr_failed,
    varint_failed,
    string_failed,
    bytes_failed (suc n) (omega arith),
    bytes_none bounded,
    skip_failed (suc n) (omega arith),
    skip_none bounded,
    assert_empty_failed,
    slice_failed (suc n) (omega arith),
    slice_none bounded,
  )
