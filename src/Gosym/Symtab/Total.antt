-- ===== src/Gosym/Symtab/Total.antt =====
-- gosym/symtab.go: walksymtab ends, and does not panic.
use debug.Common.{
  ltb, ◌==◌, Bool-cases, if-cases, length, drop, length-drop, u64, Bytes, ByteOrder, ℕ, zero, suc,
  ◌+◌, ◌*◌, ◌^◌, ◌≤◌, ◌<◌, bit_and, bit_or, ◌≡◌, inl, inr, true, not, ◌&&◌, [], ◌∷◌, arith,
}
use debug.Common.Result.{errorf, ok, err, Answers, bind-Answers, Answers-weaken, Any}
use debug.Common.Slices.{tail_from_within, head_to_within, element_within}
use debug.Dwarf.Line.Paths.{has_prefix}
use debug.Gosym.Symtab.{
  RawSym, little_endian_symtab, big_endian_symtab, old_little_endian_symtab, fixed_width,
  varint_value, is_path, find_nul, find_pair, cut_name, read_name, letter, new_symbol, old_symbol,
  Format, symbol, walk_loop, sniff, walk_from, walk_format, walksymtab,
}

-- The call answers; where it gives a value, what is left is no longer than `n`.
abbrev LeftBy : {A : Type 0} → ℕ → A × Bytes → Type 0
LeftBy n x = length x.1 ≤ n

fixed_width-LeftBy :
    (order : ByteOrder) (n total : ℕ) (p : Bytes)
    → Answers (LeftBy (length p)) (fixed_width order n total p)
unfolding fixed_width
fixed_width-LeftBy order n total p = elim (Bool-cases (ltb (length p) n)) [
  | inl short ↦ rw short tt
  | inr long ↦
      let within : n ≤ length p = ground (arith, long) in
      rw (long, head_to_within n p within, tail_from_within n p within)
        (omega (arith, length-drop n p))
]

varint_value-LeftBy :
    (total : ℕ) (shift value : ℕ) (p : Bytes)
    → Answers (LeftBy (length p)) (varint_value total shift value p)
unfolding varint_value
varint_value-LeftBy total shift value [] = tt
varint_value-LeftBy total shift value (b ∷ p) =
    if-cases (Answers (LeftBy (suc (length p)))) (bit_and b 0x80 == 0) (omega arith) (
      Answers-weaken (LeftBy (length p)) (LeftBy (suc (length p))) _ (λ x h. omega (arith, h))
        (varint_value-LeftBy total (shift + 7) (bit_or value (u64 (bit_and b 0x7F * 2 ^ shift))) p))

find_nul_within : (p : Bytes) → (find_nul p).0 + (find_nul p).1 ≤ length p
find_nul_within [] = omega arith
find_nul_within (b ∷ p) =
    if-cases (λ (x : ℕ × ℕ). x.0 + x.1 ≤ suc (length p)) (b == 0) {x = (0, 1)} (omega arith)
      (let shorter = find_nul_within p in omega (arith, shorter))

cut_name-LeftBy :
    (total : ℕ) (found : ℕ × ℕ) (p : Bytes) → Answers (LeftBy (length p)) (cut_name total found p)
unfolding cut_name
cut_name-LeftBy total found p = elim (Bool-cases (ltb (length p) (found.0 + found.1))) [
  | inl short ↦ rw short tt
  | inr long ↦
      let within : found.0 + found.1 ≤ length p = ground (arith, long) in
      rw
        (
          long,
          head_to_within found.0 p (omega arith),
          tail_from_within (found.0 + found.1) p within,
        )
        (omega (arith, length-drop (found.0 + found.1) p))
]

read_name-LeftBy : (total typ : ℕ) (p : Bytes) → Answers (LeftBy (length p)) (read_name total typ p)
unfolding read_name
read_name-LeftBy total typ p =
    let n = (find_nul p).0 + (find_nul p).1 in
    let nnul = (find_nul p).1 in
    elim (Bool-cases (is_path typ)) [
      | inl path ↦
          rw (path, tail_from_within n p (find_nul_within p))
            (Answers-weaken (LeftBy (length (drop n p))) (LeftBy (length p)) _
              (λ x h. omega (arith, h, length-drop n p))
              (cut_name-LeftBy total (find_pair nnul (drop n p)) (drop n p)))
      | inr name ↦ rw name (cut_name-LeftBy total (find_nul p) p)
    ]

left_all : {A : Type 0} (a : A) (p : Bytes) → Answers (LeftBy (length p)) (ok (a, p))
left_all a p = let same : length p ≤ length p = omega arith in same

new_symbol-LeftBy :
    (order : ByteOrder) (ptrsz total gotype b : ℕ) (p : Bytes)
    → Answers (LeftBy (length p)) (new_symbol order ptrsz total gotype (b ∷ p))
unfolding new_symbol
new_symbol-LeftBy order ptrsz total gotype b p =
    bind-Answers (LeftBy (length p)) (LeftBy (length p)) _ _
      (if-cases (Answers (LeftBy (length p))) (not (bit_and b 0x40 == 0))
        (fixed_width-LeftBy order ptrsz total p) (varint_value-LeftBy total 0 0 p))
      (λ v hv.
        bind-Answers (LeftBy (length v.1)) (LeftBy (length p)) _ _
          (if-cases (Answers (LeftBy (length v.1))) (not (bit_and b 0x80 == 0))
            (fixed_width-LeftBy order ptrsz total v.1) (left_all gotype v.1))
          (λ g hg.
            bind-Answers (LeftBy (length g.1)) (LeftBy (length p)) _ _
              (read_name-LeftBy total (letter b) g.1)
              (λ n hn. let shorter : length n.1 ≤ length p = omega (arith, hv, hg, hn) in shorter)))

old_symbol-LeftBy :
    (order : ByteOrder) (total : ℕ) (p : Bytes)
    → 4 ≤ length p
    → Answers (λ (x : RawSym × Bytes). length x.1 < length p) (old_symbol order total p)
unfolding old_symbol
old_symbol-LeftBy order total p long =
    rw (head_to_within 4 p long) (elim (Bool-cases (ltb (length p) 5)) [
      | inl short ↦ rw short tt
      | inr enough ↦
          let within : 5 ≤ length p = ground (arith, enough) in
          let (typ, there) = element_within p 4 (omega (arith, within)) in
          rw (enough, there)
            (elim (Bool-cases (bit_and typ 0x80 == 0)) [
              | inl bad ↦ rw bad tt
              | inr good ↦
                  rw (good, tail_from_within 5 p within)
                    (bind-Answers (LeftBy {A = Bytes} (length (drop 5 p)))
                      (λ (x : RawSym × Bytes). length x.1 < length p)
                      (read_name total (bit_and typ 0x7F) (drop 5 p)) _
                      (read_name-LeftBy total (bit_and typ 0x7F) (drop 5 p))
                      (λ n hn.
                        bind-Answers (LeftBy {A = ℕ} (length n.1))
                          (λ (x : RawSym × Bytes). length x.1 < length p)
                          (fixed_width order 4 total n.1) _ (fixed_width-LeftBy order 4 total n.1)
                          (λ g hg.
                            let shorter : length g.1 < length p =
                              omega (arith, hn, hg, length-drop 5 p, long) in
                            shorter)))
            ])
    ])

symbol-shrinks :
    (f : Format) (total gotype : ℕ) (p : Bytes)
    → 4 ≤ length p
    → Answers (λ (x : RawSym × Bytes). length x.1 < length p) (symbol f total gotype p)
unfolding symbol
symbol-shrinks f total gotype [] long = absurd (omega arith)
symbol-shrinks f total gotype (b ∷ p) long =
    if-cases (Answers (λ (x : RawSym × Bytes). length x.1 < suc (length p))) f.new_table
      (Answers-weaken (LeftBy (length p)) _ _ (λ x h. omega (arith, h))
        (new_symbol-LeftBy f.order f.ptrsz total gotype b p))
      (old_symbol-LeftBy f.order total (b ∷ p) long)

module _ {S : Type 0} (f : Format) (total : ℕ) (fn : RawSym → S → S) where
  walk_loop-Answers :
      (fuel gotype : ℕ) (p : Bytes) (s : S)
      → length p < fuel
      → Answers Any (walk_loop fuel f total fn gotype p s)
  unfolding walk_loop
  walk_loop-Answers zero gotype p s h = absurd (omega arith)
  walk_loop-Answers (suc fuel) gotype p s h = elim (Bool-cases (ltb (length p) 4)) [
    | inl short ↦ rw short tt
    | inr long ↦ rw long (
        bind-Answers (λ (x : RawSym × Bytes). length x.1 < length p) Any _ _
          (symbol-shrinks f total gotype p (ground arith))
          (λ x hx. walk_loop-Answers fuel x.0.gotype x.1 (fn x.0 s) (omega (arith, hx, h))))
  ]

walk_from-Answers :
    {S : Type 0} (f : Format) (fn : RawSym → S → S) (p : Bytes) (s : S)
    → Answers Any (walk_from f fn p s)
walk_from-Answers f fn p s = walk_loop-Answers f (length p) fn (suc (length p)) 0 p s (omega arith)

has_prefix_length : (s p : Bytes) → has_prefix s p ≡ true → length p ≤ length s
unfolding has_prefix
has_prefix_length s [] h = omega arith
has_prefix_length [] (c ∷ p) h = absurd (ground (arith, h))
has_prefix_length (b ∷ s) (c ∷ p) h =
    let rest : has_prefix s p ≡ true = ground (arith, h) in
    omega (arith, has_prefix_length s p rest)

sniff-Answers : (content : Bytes) → Answers {A = Format × Bytes} Any (sniff content)
unfolding sniff
sniff-Answers content =
    let answer : Format → Type 0 = λ f. Answers {A = Format × Bytes} Any (ok (f, content)) in
    elim (Bool-cases (has_prefix content old_little_endian_symtab)) [
      | inl old ↦
          let within : 6 ≤ length content =
            let longer = has_prefix_length content old_little_endian_symtab old in
            omega (arith, longer) in
          rw (old, tail_from_within 6 content within) tt
      | inr other ↦ rw other (
          if-cases (Answers {A = Format × Bytes} Any) (has_prefix content big_endian_symtab) tt (
            if-cases (Answers {A = Format × Bytes} Any) (has_prefix content little_endian_symtab) tt
              tt))
    ]

walk_format-Answers :
    {S : Type 0} (f : Format) (p : Bytes) (fn : RawSym → S → S) (s : S)
    → Answers Any (walk_format f p fn s)
unfolding walk_format
walk_format-Answers {S} f p fn s =
    if-cases (Answers (Any {A = S})) (not f.new_table) {x = walk_from f fn p s}
      (walk_from-Answers f fn p s)
      (elim (Bool-cases (ltb (length p) 8)) [
        | inl short ↦ rw short tt
        | inr long ↦
            let within : 8 ≤ length p = ground (arith, long) in
            let (ptrsz, there) = element_within p 7 (omega (arith, within)) in
            rw (long, there)
              (if-cases (Answers (Any {A = S})) (not (ptrsz == 4) && not (ptrsz == 8))
                {x = err (errorf "invalid pointer size" (7 ∷ ptrsz ∷ []))} tt
                (rw (tail_from_within 8 p within)
                  (walk_from-Answers (record f { ptrsz = ptrsz }) fn (drop 8 p) s)))
      ])

-- On every table and with every callback walksymtab ends without a panic, of its indices and slices
-- too: with the callback's last state, or with an error.
pub walksymtab_total :
    {S : Type 0} (content : Bytes) (fn : RawSym → S → S) (s : S)
    → Answers Any (walksymtab content fn s)
unfolding walksymtab
walksymtab_total {S} content fn s =
    if-cases (Answers (Any {A = S})) (length content == 0) {x = ok s} tt (
      bind-Answers Any Any (sniff content) _ (sniff-Answers content)
        (λ x _. walk_format-Answers x.0 x.1 fn s))
