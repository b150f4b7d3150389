-- ===== src/Dwarf/Entry/Tables.antt =====
-- dwarf/entry.go: parseAbbrev as a whole, its loops and its cache.
use native.Mathlib.Nat.{le_refl}
use debug.Common.{
  ltb, ◌==◌, Bool-cases, length, drop, u32, Bytes, ℕ, zero, suc, ◌+◌, ◌≤◌, ◌<◌, ◌≡◌, refl, sym, ◌∙◌,
  ◌≢◌, inl, inr, true, false, not, ◌&&◌, Option, none, some, [], ◌∷◌, arith,
}
use debug.Common.Result.{Error, ok, err, ◌>>=◌, Answers, bind-Answers, Any}
use debug.Common.Slices.{tail_from_within}
use debug.Dwarf.Buf.{unknown_format, Buf, make_buf, uint8, uint}
use debug.Dwarf.Buf.Shrinks.{left, uint8-shrinks, uint-shrinks, uint_takes}
use debug.Dwarf.Data.{Abbrev, AbbrevTable, Data}
use debug.Dwarf.Entry.{
  AbbrevCache, lookup, count_attrs, read_afields, read_abbrev, abbrev_loop, read_abbrevs,
  parse_abbrev,
}

read_afields-shrinks : (n : ℕ) (b : Buf) → left (read_afields n b).1 ≤ left b
unfolding read_afields
read_afields-shrinks zero b = le_refl _
read_afields-shrinks (suc n) b =
    omega
      (arith, uint-shrinks b, uint-shrinks (uint b).1, read_afields-shrinks n (uint (uint b).1).1)

-- A pair of numbers other than (0, 0) takes a byte at least.
pair_takes :
    (b : Buf)
    → ((uint b).0 == 0 && (uint (uint b).1).0 == 0) ≡ false
    → left (uint (uint b).1).1 < left b
pair_takes b h = elim (Bool-cases ((uint b).0 == 0)) [
  | inl first ↦
      let second : (uint (uint b).1).0 ≢ 0 = ground arith in
      omega (arith, uint-shrinks b, uint_takes (uint b).1 second)
  | inr first ↦
      let nonzero : (uint b).0 ≢ 0 = ground arith in
      omega (arith, uint-shrinks (uint b).1, uint_takes b nonzero)
]

count_attrs-Answers :
    (fuel : ℕ) (b : Buf) (n : ℕ) → left b < fuel → Answers {A = ℕ × Buf} Any (count_attrs fuel b n)
unfolding count_attrs
count_attrs-Answers zero b n h = absurd (omega arith)
count_attrs-Answers (suc fuel) b n h =
    elim (Bool-cases ((uint b).0 == 0 && (uint (uint b).1).0 == 0)) [
      | inl end ↦ rw end tt
      | inr more ↦
          rw more (
            count_attrs-Answers fuel (uint (uint b).1).1 (n + 1) (omega (arith, pair_takes b more)))
    ]

read_abbrev-Answers :
    (b : Buf) → Answers {A = Abbrev × Buf} (λ r. left r.1 ≤ left b) (read_abbrev b)
unfolding read_abbrev
read_abbrev-Answers b =
    let b1 = (uint8 (uint b).1).1 in
    bind-Answers Any (λ r. left r.1 ≤ left b) (count_attrs (suc (left b1)) b1 0) _
      (count_attrs-Answers (suc (left b1)) b1 0 (omega arith)) (λ c _. described c.0 c.1.err)
  where
    described :
        (n : ℕ) (o : Option Error)
        → Answers {A = Abbrev × Buf}
            (λ r. left r.1 ≤ left b)
            (elim o [
              | some e ↦ err e
              | none ↦ ok (
                record {
                  tag = u32 (uint b).0;
                  children = not ((uint8 (uint b).1).0 == 0);
                  field = (read_afields n (uint8 (uint b).1).1).0;
                },
                (uint (uint (read_afields n (uint8 (uint b).1).1).1).1).1,
              )
            ])
    described n (some e) = tt
    described n none = omega (
      arith,
      uint-shrinks b,
      uint8-shrinks (uint b).1,
      read_afields-shrinks n (uint8 (uint b).1).1,
      uint-shrinks (read_afields n (uint8 (uint b).1).1).1,
      uint-shrinks (uint (read_afields n (uint8 (uint b).1).1).1).1,
    )

abbrev_loop-Answers :
    (fuel : ℕ) (b : Buf) (m : AbbrevTable)
    → left b < fuel
    → Answers {A = AbbrevTable × Buf} Any (abbrev_loop fuel b m)
unfolding abbrev_loop
abbrev_loop-Answers zero b m h = absurd (omega arith)
abbrev_loop-Answers (suc fuel) b m h = elim (Bool-cases (u32 (uint b).0 == 0)) [
  | inl end ↦ rw end tt
  | inr more ↦
      let nonzero : (uint b).0 ≢ 0 = ground arith in
      let taken : left (uint b).1 < left b = uint_takes b nonzero in
      rw more (
        bind-Answers (λ r. left r.1 ≤ left (uint b).1) Any (read_abbrev (uint b).1) _
          (read_abbrev-Answers (uint b).1)
          (λ a l. abbrev_loop-Answers fuel a.1 ((u32 (uint b).0, a.0) ∷ m) (omega arith)))
]

-- The table, or the error that the buffer has at the end.
checked :
    (r : AbbrevTable × Buf) (o : Option Error)
    → Answers {A = AbbrevTable} Any (elim o [ some e ↦ err e | none ↦ ok r.0 ])
checked r (some e) = tt
checked r none = tt

behind :
    (d : Data) (content : Bytes)
    → Answers {A = AbbrevTable} Any (
        abbrev_loop (suc (length content)) (make_buf d.order unknown_format "abbrev" 0 content) []
        >>= λ r. elim r.1.err [ some e ↦ err e | none ↦ ok r.0 ])
behind d content =
    bind-Answers Any Any
      (abbrev_loop (suc (length content)) (make_buf d.order unknown_format "abbrev" 0 content) []) _
      (abbrev_loop-Answers (suc (length content)) _ [] (omega arith)) (λ r _. checked r r.1.err)

-- A uint32 is no larger than what it is cut from.
mod_le : (n : ℕ) → u32 n ≤ n
mod_le n = omega arith

read_abbrevs-Answers : (d : Data) (off : ℕ) → Answers {A = AbbrevTable} Any (read_abbrevs d off)
unfolding read_abbrevs
read_abbrevs-Answers d off = elim (Bool-cases (ltb (u32 (length d.abbrevs)) off)) [
  | inl past ↦ rw past (behind d [])
  | inr inside ↦
      rw
        (inside, tail_from_within off d.abbrevs (ground (arith, inside, mod_le (length d.abbrevs))))
        (behind d (drop off d.abbrevs))
]

-- What a successful call leaves: at its offset the cache has the table that it gives, and elsewhere
-- what it had; a table that it had at the offset is the one given.
abbrev pub IsKept : AbbrevCache → ℕ → AbbrevTable × AbbrevCache → Type 0
IsKept cache off x =
    (lookup off x.1 ≡ some x.0)
    × (((off' : ℕ) → off' ≢ off → lookup off' x.1 ≡ lookup off' cache)
        × ((m : AbbrevTable) → lookup off cache ≡ some m → x ≡ (m, cache)))

IsKept-hit :
    (cache : AbbrevCache) (off : ℕ) (m : AbbrevTable)
    → lookup off cache ≡ some m
    → IsKept cache off (m, cache)
IsKept-hit cache off m e =
    (e, (λ off' other. refl, λ m' e'. let same : some m ≡ some m' = sym e ∙ e' in cc))

IsKept-miss :
    (cache : AbbrevCache) (off : ℕ) (m : AbbrevTable)
    → lookup off cache ≡ none
    → IsKept cache off (m, (off, m) ∷ cache)
unfolding lookup
IsKept-miss cache off m e = (
  let here : (off == off) ≡ true = ground arith in rw here refl,
  (
    λ off' other.
        let elsewhere : (off == off') ≡ false = ground (arith, other) in rw elsewhere refl,
    λ m' e'. let same : none ≡ some m' = sym e ∙ e' in absurd (ground (arith, same)),
  ),
)

-- On every section, offset and cache parseAbbrev ends without a panic, with a table or an error. On
-- success the cache has the table at the offset, and at every other offset what it had before; a
-- table that it had at the offset is given again, and the cache stays as it was.
pub parse_abbrev_total :
    (d : Data) (cache : AbbrevCache) (off : ℕ)
    → Answers (IsKept cache off) (parse_abbrev d cache off)
unfolding parse_abbrev
parse_abbrev_total d cache off = hit (lookup off cache) refl
  where
    hit :
        (o : Option AbbrevTable)
        → lookup off cache ≡ o
        → Answers (IsKept cache off) (elim o [
          | some m ↦ ok (m, cache)
          | none ↦ read_abbrevs d off >>= λ m. ok (m, (off, m) ∷ cache)
        ])
    hit (some m) e = IsKept-hit cache off m e
    hit none e =
        bind-Answers Any (IsKept cache off) (read_abbrevs d off) _ (read_abbrevs-Answers d off)
          (λ m _. IsKept-miss cache off m e)
