-- ===== src/Dwarf/Buf/Scans.antt =====
-- What the scan for a NUL and the varint loop of dwarf/buf.go take from a buffer.
use debug.Common.{
  ◌==◌, if◌then◌else◌, length, drop, u64, Bytes, ℕ, suc, ◌+◌, ◌*◌, ◌^◌, ◌≤◌, ◌<◌, bit_and, bit_or,
  ◌≡◌, refl, Bool, true, false, Option, none, some, [], ◌∷◌, arith,
}
use mathlib.Core.Option
use debug.Dwarf.Buf.{split_nul, Varint, varint_loop}

-- What the string scan and the varint loop take lies in the buffer.
abbrev pub Splits : Bytes → Option (Bytes × Bytes) → Type 0
Splits bs none = Unit {0}
Splits bs (some p) = (drop (suc (length p.0)) bs ≡ p.1) × (suc (length p.0) ≤ length bs)

Splits-map :
    (c : ℕ) (cs : Bytes) (o : Option (Bytes × Bytes))
    → Splits cs o
    → Splits (c ∷ cs) (Option.map (λ p. (c ∷ p.0, p.1)) o)
Splits-map c cs none h = tt
Splits-map c cs (some p) h = (h.0, omega arith)

Splits-if :
    (t : Bool) (c : ℕ) (cs : Bytes) (o : Option (Bytes × Bytes))
    → Splits (c ∷ cs) o
    → Splits (c ∷ cs) (if t then some ([], cs) else o)
Splits-if true c cs o h = (refl, omega arith)
Splits-if false c cs o h = h

pub split_nul-Splits : (bs : Bytes) → Splits bs (split_nul bs)
unfolding split_nul
split_nul-Splits [] = tt
split_nul-Splits (c ∷ cs) = Splits-if (c == 0) c cs _ (Splits-map c cs _ (split_nul-Splits cs))

pub varint_loop_taken :
    (c bits i : ℕ) (bs : Bytes) (v : Varint)
    → varint_loop c bits i bs ≡ some v
    → (i < v.taken) × (v.taken ≤ i + length bs)
unfolding varint_loop
varint_loop_taken c bits i [] v e = absurd (ground arith)
varint_loop_taken c bits i (x ∷ bs) v e =
    ground (
      arith,
      varint_loop_taken (bit_or c (u64 (bit_and x 0x7F * 2 ^ bits))) (bits + 7) (i + 1) bs v,
    )
