-- ===== src/Dwarf/Symbol/Names.antt =====
-- dwarf/symbol.go: what lookupEntry finds.
use mathlib.Core.Path.{subst}
use debug.Common.{
  ◌==◌, Bool-cases, length, All, All-map, All-zip, All-front, All-middle, Bytes, ℕ, ◌<◌, ◌≡◌, refl,
  sym, ap, ◌∙◌, ◌⊎◌, inl, inr, true, false, not, ◌&&◌, Option, none, some, List, [], ◌∷◌, ◌++◌,
  arith,
}
use debug.Dwarf.Line.Paths.{bytes_eq, split}
use debug.Dwarf.Line.Paths.Suffix.{bytes_eq_iff}
use debug.Common.Result.{errorf, ok, err}
use debug.Dwarf.Data.{Data}
use debug.Dwarf.Entry.{Value, nil_value, string_value, Entry, entry_val}
use debug.Dwarf.Reader.{reader}
use debug.Dwarf.Symbol.Finds.{Entries, first, find_loop-first, first-Found, ok_apart}
use debug.Dwarf.Symbol.{attr_name, find_loop, visit_name, lookup_entry_tag}

-- The entry has this name, and the tag, where one is asked for.
abbrev pub IsNamed : Bytes → ℕ → Entry → Type 0
IsNamed name tag e =
    ((tag ≡ 0) ⊎ (tag ≡ e.tag)) × (entry_val e.fields attr_name ≡ string_value name)

-- The name, where there is one, is a string.
abbrev pub HasTextName : Entry → Type 0
HasTextName e =
    (entry_val e.fields attr_name ≡ nil_value)
    ⊎ ((s : Bytes) × (entry_val e.fields attr_name ≡ string_value s))

-- What a visit of one entry comes to.
Visited : Bytes → ℕ → Entry → Type 0
Visited name tag e =
    ((visit_name name tag e ≡ ok (some e)) × IsNamed name tag e)
    ⊎ ((visit_name name tag e ≡ ok none) × (¬ IsNamed name tag e))

abbrev text : Value → Bytes
text (string_value s) = s
text _ = []

wanted_tag :
    (tag : ℕ) (e : Entry)
    → (not (tag == 0) && not (tag == e.tag)) ≡ false
    → (tag ≡ 0) ⊎ (tag ≡ e.tag)
wanted_tag tag e h = elim (Bool-cases (tag == 0)) [
  | inl any ↦ inl (ground arith)
  | inr one ↦ inr (ground arith)
]

other_tag :
    (tag : ℕ) (e : Entry)
    → (not (tag == 0) && not (tag == e.tag)) ≡ true
    → ¬ ((tag ≡ 0) ⊎ (tag ≡ e.tag))
other_tag tag e q (inl p) = ground arith
other_tag tag e q (inr p) = ground arith

visit_name-Visited : (name : Bytes) (tag : ℕ) (e : Entry) → HasTextName e → Visited name tag e
unfolding visit_name Visited
visit_name-Visited name tag e h = elim (Bool-cases (not (tag == 0) && not (tag == e.tag))) [
  | inl other ↦ inr (rw other refl, λ p. other_tag tag e other p.0)
  | inr wanted ↦ elim h [
    | inl unnamed ↦ inr (
      rw (wanted, unnamed) refl,
      λ p. let apart : nil_value ≡ string_value name = sym unnamed ∙ p.1 in ground (arith, apart),
    )
    | inr (s, named) ↦ elim (Bool-cases (bytes_eq s name)) [
      | inl equal ↦ inl (
        rw (wanted, named, equal) refl,
        (wanted_tag tag e wanted, named ∙ ap string_value ((bytes_eq_iff s name).0 equal)),
      )
      | inr differs ↦ inr (
        rw (wanted, named, differs) refl,
        λ p.
            let same : s ≡ name = ap text (sym named ∙ p.1) in
            let equal : bytes_eq s name ≡ true = (bytes_eq_iff s name).1 same in
            ground (arith, equal),
      )
    ]
  ]
]

Visited-total :
    (name : Bytes) (tag : ℕ) (e : Entry)
    → Visited name tag e
    → (o : Option Entry) × (visit_name name tag e ≡ ok o)
unfolding Visited
Visited-total name tag e (inl (p, h)) = (some e, p)
Visited-total name tag e (inr (p, h)) = (none, p)

Visited-none :
    (name : Bytes) (tag : ℕ) (e : Entry)
    → Visited name tag e
    → visit_name name tag e ≡ ok none
    → ¬ IsNamed name tag e
unfolding Visited
Visited-none name tag e (inl (p, h)) q = absurd (ok_apart p q)
Visited-none name tag e (inr (p, h)) q = h

Visited-some :
    (name : Bytes) (tag : ℕ) (e x : Entry)
    → Visited name tag e
    → visit_name name tag e ≡ ok (some x)
    → (x ≡ e) × IsNamed name tag e
unfolding Visited
Visited-some name tag e x (inl (p, h)) q =
    let same : ok (some x) ≡ ok (some e) = sym q ∙ p in (cc, h)
Visited-some name tag e x (inr (p, h)) q = absurd (ok_apart q p)

-- A lookup by name gives the first entry with that name, and with the tag where one is asked for;
-- where no entry is such, it says so. `es` are the entries of the section, which can all be read,
-- and whose names are strings.
pub lookup_entry_tag-finds :
    (d : Data) (name : Bytes) (tag fuel : ℕ) (es : List Entry)
    → Entries d (reader d) es
    → All HasTextName es
    → length es < fuel
    → ((e : Entry) × (before : List Entry) × (behind : List Entry) × (lookup_entry_tag fuel d name
            tag
          ≡ ok e)
        × (es ≡ before ++ e ∷ behind)
        × IsNamed name tag e
        × All (λ x. ¬ IsNamed name tag x) before)
      ⊎ ((lookup_entry_tag fuel d name tag ≡ err (errorf "DWARF entry for %q not found" name))
          × All (λ x. ¬ IsNamed name tag x) es)
unfolding lookup_entry_tag
lookup_entry_tag-finds d name tag fuel es entries texts h =
    let visit = visit_name name tag in
    let run : find_loop visit fuel d (reader d) ≡ first visit es =
      find_loop-first visit d fuel entries h in
    elim (first-Found visit es
      (All-map es (λ y t. Visited-total name tag y (visit_name-Visited name tag y t)) texts)) [
        | inl (x, q, (before, e, behind, split, skipped, found)) ↦
            let parts : All HasTextName (before ++ e ∷ behind) =
              subst (λ l. All HasTextName l) split texts in
            let text_e =
              visit_name-Visited name tag e (All-middle HasTextName before e behind parts) in
            let (same, named) = Visited-some name tag e x text_e found in
            inl (
              e,
              before,
              behind,
              rw (run, q) (ap ok same),
              split,
              named,
              All-zip before (λ y t p. Visited-none name tag y (visit_name-Visited name tag y t) p)
                  (All-front HasTextName before (e ∷ behind) parts) skipped,
            )
        | inr (q, skipped) ↦ inr (
          rw (run, q) refl,
          All-zip es (λ y t p. Visited-none name tag y (visit_name-Visited name tag y t) p) texts
              skipped,
        )
      ]
