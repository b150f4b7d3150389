-- ===== src/Dwarf/Buf/Shrinks.antt =====
-- How many bytes the methods of a buffer leave to read.
use debug.Common.{
  ltb, ◌==◌, if-cases, length, take, drop, length-drop, Bytes, ℕ, suc, ◌≤◌, ◌<◌, ◌≡◌, refl, ap, ◌≢◌,
  false, Option, none, some, List, [], ◌∷◌, String, arith,
}
use debug.Common.Result.{Error, decode_error}
use debug.Dwarf.Buf.Scans.{Splits, split_nul-Splits, varint_loop_taken}
use debug.Dwarf.Buf.{
  Buf, error, advance, read_uint8, uint8, bytes, skip, slice, split_nul, read_string, string,
  uint16, uint32, uint64, Varint, varint_loop, read_varint, varint, uint, int, addr,
}

abbrev pub left : Buf → ℕ
left b = length b.unread

error-shrinks : (b : Buf) (s : String) (args : List ℕ) → left (error b s args) ≤ left b
unfolding error
error-shrinks b s args = go b.err
  where
    go :
        (o : Option Error)
        → left (elim o [
          | none ↦ record b { unread = []; err = some (decode_error b.name b.off s args) }
          | some e ↦ b
        ])
          ≤ left b
    go none = omega arith
    go (some e) = omega arith

drop-shrinks : (n : ℕ) (bs : Bytes) → length (drop n bs) ≤ length bs
drop-shrinks n bs = omega (arith, length-drop n bs)

pub bytes-shrinks : (b : Buf) (n : ℕ) → left (bytes b n).1 ≤ left b
unfolding bytes
bytes-shrinks b n =
    if-cases (λ (r : Option Bytes × Buf). left r.1 ≤ left b) (ltb (left b) n)
      {x = (none, error b "underflow" [])} (error-shrinks b "underflow" [])
      (drop-shrinks n b.unread)

pub varint-shrinks : (b : Buf) → left (varint b).2 ≤ left b
unfolding varint
varint-shrinks b = go (varint_loop 0 0 0 b.unread)
  where
    go : (o : Option Varint) → left (read_varint b o).2 ≤ left b
    go none = omega arith
    go (some v) = drop-shrinks v.taken b.unread

pub uint8-shrinks : (b : Buf) → left (uint8 b).1 ≤ left b
unfolding uint8
uint8-shrinks b = go b.unread
  where
    go : (bs : Bytes) → left (read_uint8 b bs).1 ≤ left b
    go [] = error-shrinks b "underflow" []
    go (x ∷ xs) = drop-shrinks 1 b.unread

-- A byte that is there is taken.
pub uint8_takes : (b : Buf) → 0 < left b → left (uint8 b).1 < left b
unfolding uint8
uint8_takes b h = go b.unread refl
  where
    go : (bs : Bytes) → b.unread ≡ bs → left (read_uint8 b bs).1 < left b
    go [] e = absurd (omega (arith, ap length e))
    go (x ∷ xs) e = omega (arith, length-drop 1 b.unread)

pub uint16-shrinks : (b : Buf) → left (uint16 b).1 ≤ left b
unfolding uint16
uint16-shrinks b = bytes-shrinks b 2

pub uint32-shrinks : (b : Buf) → left (uint32 b).1 ≤ left b
unfolding uint32
uint32-shrinks b = bytes-shrinks b 4

pub uint64-shrinks : (b : Buf) → left (uint64 b).1 ≤ left b
unfolding uint64
uint64-shrinks b = bytes-shrinks b 8

-- A uint32 other than zero was read from four bytes.
pub uint32_takes : (b : Buf) → (uint32 b).0 ≢ 0 → left (uint32 b).1 < left b
unfolding uint32 bytes
uint32_takes b h = ground (arith, length-drop 4 b.unread)

pub uint-shrinks : (b : Buf) → left (uint b).1 ≤ left b
unfolding uint
uint-shrinks b = varint-shrinks b

-- A number other than zero was read from a byte at least.
pub uint_takes : (b : Buf) → (uint b).0 ≢ 0 → left (uint b).1 < left b
unfolding uint varint
uint_takes b = go (varint_loop 0 0 0 b.unread) refl
  where
    go :
        (o : Option Varint)
        → varint_loop 0 0 0 b.unread ≡ o
        → (read_varint b o).0 ≢ 0
        → left (read_varint b o).2 < left b
    go none e h = absurd (h refl)
    go (some v) e h =
        omega (arith, varint_loop_taken 0 0 0 b.unread v e, length-drop v.taken b.unread)

pub int-shrinks : (b : Buf) → left (int b).1 ≤ left b
unfolding int
int-shrinks b = varint-shrinks b

pub addr-shrinks : (b : Buf) → left (addr b).1 ≤ left b
unfolding addr
addr-shrinks b =
    let P : ℕ × Buf → Type 0 = λ r. left r.1 ≤ left b in
    if-cases P (b.format.addrsize == 1) {x = uint8 b} (uint8-shrinks b) (
      if-cases P (b.format.addrsize == 2) {x = uint16 b} (uint16-shrinks b) (
        if-cases P (b.format.addrsize == 4) {x = uint32 b} (uint32-shrinks b) (
          if-cases P (b.format.addrsize == 8) {x = uint64 b} (uint64-shrinks b)
            (error-shrinks b "unknown address size" []))))

-- The string scan takes what it splits off.
pub string-shrinks : (b : Buf) → left (string b).1 ≤ left b
unfolding string
string-shrinks b = go (split_nul b.unread) (split_nul-Splits b.unread)
  where
    go : (o : Option (Bytes × Bytes)) → Splits b.unread o → left (read_string b o).1 ≤ left b
    go none h = error-shrinks b "underflow" []
    go (some p) h = omega (arith, ap length h.0, length-drop (suc (length p.0)) b.unread)

skip_fits : (b : Buf) (n : ℕ) → n ≤ left b → skip b n ≡ advance b n
unfolding skip bytes
skip_fits b n h = let enough : ltb (left b) n ≡ false = ground arith in rw (enough, skip)

-- Behind a slice that fits, the outer buffer has lost exactly its length.
pub slice_fits :
    (b : Buf) (n : ℕ)
    → n ≤ left b
    → slice b n ≡ some (record b { unread = take n b.unread }, advance b n)
unfolding slice
slice_fits b n h =
    let enough : ltb (left b) n ≡ false = ground arith in rw (enough, skip_fits b n h)
