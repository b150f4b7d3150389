-- ===== src/Common/Endian.antt =====
-- Byte sequences, and the byte orders of Go's encoding/binary by their documented meaning.
use Prim.Native.Nat.{ℕ, zero, suc, ◌+◌, ◌*◌}
use mathlib.Core.Path.{◌≡◌, refl, ap}
use mathlib.Core.List.{List, [], ◌∷◌}
use mathlib.Core.Option.{Option, none, some}
use native.Mathlib.Omega.{arith}
use debug.Common.Tests.{ltb, if◌then◌else◌}
use debug.Common.Lists.{length, take}

abbrev pub Bytes : Type 0
Bytes = List ℕ

pub data ByteOrder : Type 0 where
  little_endian big_endian : ByteOrder

-- Least significant byte first.
abbrev pub le_value : Bytes → ℕ
le_value [] = 0
le_value (b ∷ bs) = b + 256 * le_value bs

-- Most significant byte first, behind the digits `acc`.
abbrev pub be_value : ℕ → Bytes → ℕ
be_value acc [] = acc
be_value acc (b ∷ bs) = be_value (acc * 256 + b) bs

abbrev pub order_value : ByteOrder → Bytes → ℕ
order_value little_endian bs = le_value bs
order_value big_endian bs = be_value 0 bs

-- `order.Uint16`, `Uint32`, `Uint64` at n = 2, 4, 8: they read the first n bytes of a slice, and
-- panic (`none`) where it is shorter.
unfoldable pub order_uint? : ByteOrder → ℕ → Bytes → Option ℕ
order_uint? o n bs = if ltb (length bs) n then none else some (order_value o (take n bs))

take_all : (bs : Bytes) (n : ℕ) → length bs ≡ n → take n bs ≡ bs
take_all [] zero e = refl
take_all [] (suc n) e = refl
take_all (b ∷ bs) zero e = absurd (omega arith)
take_all (b ∷ bs) (suc n) e = ap (◌∷◌ b) (take_all bs n (omega arith))

-- On a slice of exactly n bytes nothing is cut off, and nothing is missing.
pub order_uint?_exact :
    (o : ByteOrder) (n : ℕ) (bs : Bytes)
    → length bs ≡ n
    → order_uint? o n (take n bs) ≡ some (order_value o bs)
unfolding order_uint?
order_uint?_exact o n bs e = rw (take_all bs n e, take_all bs n e) (ground arith)
