-- ===== src/Dwarf/Symbol/Pcs.antt =====
-- dwarf/symbol.go: what EntryForPC finds.
use debug.Common.{
  ltb, leb, ◌==◌, Bool-cases, length, All, All-map, All-of, ℕ, ◌≤◌, ◌<◌, ◌≡◌, refl, ap, ◌⊎◌, inl,
  inr, false, not, ◌||◌, Option, none, some, List, [], ◌∷◌, ◌++◌, arith,
}
use debug.Common.Result.{errorf, ok, err}
use debug.Dwarf.Data.{Data}
use debug.Dwarf.Entry.{
  Value, nil_value, uint64_value, int64_value, offset_value, bytes_value, bool_value, string_value,
  Entry, entry_val,
}
use debug.Dwarf.Reader.{reader}
use debug.Dwarf.Symbol.Finds.{Entries, first, find_loop-first, first-Found, ok_apart}
use debug.Dwarf.Symbol.{
  attr_lowpc, attr_highpc, tag_subprogram, find_loop, as_uint64, pc_range, visit_pc, entry_for_pc,
}

-- The entry is a function whose range holds the PC and starts at `low`.
abbrev pub Covers : ℕ → Entry → ℕ → Type 0
Covers pc e low =
    (e.tag ≡ tag_subprogram)
    × ((high : ℕ) × (entry_val e.fields attr_lowpc ≡ uint64_value low)
        × (entry_val e.fields attr_highpc ≡ uint64_value high)
        × (low ≤ pc)
        × (pc < high))

as_uint64-some : (v : Value) (x : ℕ) → as_uint64 v ≡ some x → v ≡ uint64_value x
as_uint64-some (uint64_value y) x e = ground arith
as_uint64-some nil_value x e = absurd (ground arith)
as_uint64-some (int64_value y) x e = absurd (ground arith)
as_uint64-some (offset_value y) x e = absurd (ground arith)
as_uint64-some (bytes_value y) x e = absurd (ground arith)
as_uint64-some (bool_value y) x e = absurd (ground arith)
as_uint64-some (string_value y) x e = absurd (ground arith)

visit_pc-total : (pc : ℕ) (e : Entry) → (o : Option (Entry × ℕ)) × (visit_pc pc e ≡ ok o)
unfolding visit_pc
visit_pc-total pc e = elim (Bool-cases (not (e.tag == tag_subprogram))) [
  | inl other ↦ (none, rw other refl)
  | inr function ↦ (
    pc_range pc e (as_uint64 (entry_val e.fields attr_lowpc))
        (as_uint64 (entry_val e.fields attr_highpc)),
    rw function refl,
  )
]

pc_range-some :
    (pc : ℕ) (e x : Entry) (low : ℕ) (from to : Option ℕ)
    → pc_range pc e from to ≡ some (x, low)
    → (x ≡ e) × ((high : ℕ) × (from ≡ some low) × (to ≡ some high) × (low ≤ pc) × (pc < high))
unfolding pc_range
pc_range-some pc e x low none to h = absurd (ground arith)
pc_range-some pc e x low (some l) none h = absurd (ground arith)
pc_range-some pc e x low (some l) (some high) h = elim (Bool-cases (ltb pc l || leb high pc)) [
  | inl outside ↦ absurd (ground arith)
  | inr inside ↦ (ground arith, (high, ground arith, refl, ground arith, ground arith))
]

visit_pc-Covers :
    (pc : ℕ) (e x : Entry) (low : ℕ)
    → visit_pc pc e ≡ ok (some (x, low))
    → (x ≡ e) × Covers pc e low
unfolding visit_pc
visit_pc-Covers pc e x low h = elim (Bool-cases (not (e.tag == tag_subprogram))) [
  | inl other ↦ absurd (ground arith)
  | inr function ↦
      let from = as_uint64 (entry_val e.fields attr_lowpc) in
      let to = as_uint64 (entry_val e.fields attr_highpc) in
      let found : pc_range pc e from to ≡ some (x, low) = ground arith in
      let (same, (high, el, eh, lo, hi)) = pc_range-some pc e x low from to found in
      (same, (ground arith, (high, as_uint64-some _ low el, as_uint64-some _ high eh, lo, hi)))
]

visit_pc-some :
    (pc : ℕ) (e : Entry) (low : ℕ) → Covers pc e low → visit_pc pc e ≡ ok (some (e, low))
unfolding visit_pc pc_range
visit_pc-some pc e low (tag, (high, el, eh, from, to)) =
    let function : not (e.tag == tag_subprogram) ≡ false = ground arith in
    let inside : (ltb pc low || leb high pc) ≡ false = ground arith in
    rw (function, el, eh, inside) refl

visit_pc-not-Covers : (pc : ℕ) (e : Entry) (low : ℕ) → visit_pc pc e ≡ ok none → ¬ Covers pc e low
visit_pc-not-Covers pc e low h covers = absurd (ok_apart (visit_pc-some pc e low covers) h)

-- EntryForPC gives the first function whose range holds the PC, with the start of the range; where
-- no function does, it says so. `es` are the entries of the section, which can all be read.
pub entry_for_pc-finds :
    (d : Data) (pc fuel : ℕ) (es : List Entry)
    → Entries d (reader d) es
    → length es < fuel
    → ((e : Entry) × (low : ℕ) × (before : List Entry) × (behind : List Entry) × (entry_for_pc fuel
            d pc
          ≡ ok (e, low))
        × (es ≡ before ++ e ∷ behind)
        × Covers pc e low
        × All (λ x. (l : ℕ) → ¬ Covers pc x l) before)
      ⊎ ((entry_for_pc fuel d pc ≡ err (errorf "PC %#x not found" (pc ∷ [])))
          × All (λ x. (l : ℕ) → ¬ Covers pc x l) es)
unfolding entry_for_pc
entry_for_pc-finds d pc fuel es entries h =
    let run : find_loop (visit_pc pc) fuel d (reader d) ≡ first (visit_pc pc) es =
      find_loop-first (visit_pc pc) d fuel entries h in
    elim (first-Found (visit_pc pc) es (All-of es (visit_pc-total pc))) [
      | inl ((x, low), q, (before, e, behind, split, skipped, found)) ↦
          let (same, covers) = visit_pc-Covers pc e x low found in
          inl (
            e,
            low,
            before,
            behind,
            rw (run, q) (ap (λ y. ok (y, low)) same),
            split,
            covers,
            All-map before (λ y p l. visit_pc-not-Covers pc y l p) skipped,
          )
      | inr (q, skipped) ↦
          inr (rw (run, q) refl, All-map es (λ y p l. visit_pc-not-Covers pc y l p) skipped)
    ]
