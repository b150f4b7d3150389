-- ===== src/Gosym/Symtab.antt =====
-- gosym/symtab.go: the symbols of a Go symbol table, and how walksymtab reads them.
pub mod Total
pub mod Printed
pub mod Table
pub mod Search
pub mod Build
pub mod Lines
mod Runs
use debug.Common.{
  ltb, ◌==◌, if◌then◌else◌, length, u64, Bytes, ByteOrder, little_endian, big_endian, order_value,
  ℕ, zero, suc, ◌+◌, ◌-◌, ◌*◌, ◌^◌, bit_and, bit_or, Bool, true, false, not, ◌&&◌, ◌||◌, [], ◌∷◌,
}
use debug.Common.Result.{errorf, Result, ok, err, panic, stuck, ◌>>=◌}
use debug.Common.Slices.{tail_from, head_to, element}
use debug.Dwarf.Line.Paths.{has_prefix}

-- The source's `sym`.
pub record RawSym : Type 0 where
  pub value : ℕ
  pub gotype : ℕ
  pub typ : ℕ
  pub name : Bytes

abbrev pub little_endian_symtab : Bytes
little_endian_symtab = 0xFD ∷ 0xFF ∷ 0xFF ∷ 0xFF ∷ 0 ∷ 0 ∷ 0 ∷ []

abbrev pub big_endian_symtab : Bytes
big_endian_symtab = 0xFF ∷ 0xFF ∷ 0xFF ∷ 0xFD ∷ 0 ∷ 0 ∷ 0 ∷ []

abbrev pub old_little_endian_symtab : Bytes
old_little_endian_symtab = 0xFE ∷ 0xFF ∷ 0xFF ∷ 0xFF ∷ 0 ∷ 0 ∷ []

-- `&DecodingError{len(data), "unexpected EOF", nil}`
abbrev pub unexpected_eof {ℓ} : {A : Type ℓ} → ℕ → Result A
unexpected_eof total = err (errorf "unexpected EOF" (total ∷ []))

-- A value of n bytes; n is 4 or 8. `total` is len(data).
unfoldable pub fixed_width : ByteOrder → ℕ → ℕ → Bytes → Result (ℕ × Bytes)
fixed_width order n total p =
    if ltb (length p) n
    then unexpected_eof total
    else head_to n p >>= λ v. tail_from n p >>= λ rest. ok (order_value order v, rest)

-- A varint, with what is read of it so far.
unfoldable pub varint_value : ℕ → ℕ → ℕ → Bytes → Result (ℕ × Bytes)
varint_value total shift value [] = unexpected_eof total
varint_value total shift value (b ∷ p) =
    let more = varint_value total (shift + 7) (bit_or value (u64 (bit_and b 0x7F * 2 ^ shift))) p in
    if bit_and b 0x80 == 0 then ok (bit_or value (u64 (b * 2 ^ shift)), p) else more

-- 'z' or 'Z'
abbrev pub is_path : ℕ → Bool
is_path typ = typ == b'z' || typ == b'Z'

-- How many bytes stand before a NUL, and whether there is one.
abbrev pub find_nul : Bytes → ℕ × ℕ
find_nul [] = (0, 0)
find_nul (b ∷ p) = let (i, nnul) = find_nul p in if b == 0 then (0, 1) else (suc i, nnul)

-- How many bytes, two by two, stand before two NULs.
abbrev pub find_pair : ℕ → Bytes → ℕ × ℕ
find_pair nnul [] = (0, nnul)
find_pair nnul (b ∷ []) = (0, nnul)
find_pair nnul (b ∷ c ∷ p) =
    let (i, n) = find_pair nnul p in if b == 0 && c == 0 then (0, 2) else (suc (suc i), n)

-- The name in the rest of a symbol, of which the bytes up to the first NUL have been looked at.
unfoldable pub cut_name : ℕ → ℕ × ℕ → Bytes → Result (Bytes × Bytes)
cut_name total found p =
    if ltb (length p) (found.0 + found.1)
    then unexpected_eof total
    else head_to found.0 p >>= λ name. tail_from (found.0 + found.1) p >>= λ rest. ok (name, rest)

unfoldable pub read_name : ℕ → ℕ → Bytes → Result (Bytes × Bytes)
unfolding cut_name
read_name total typ p =
    let plain = find_nul p in
    if is_path typ
    then (tail_from (plain.0 + plain.1) p >>= λ p'. cut_name total (find_pair plain.1 p') p')
    else cut_name total plain p

-- The type of a symbol in the new format.
abbrev pub letter : ℕ → ℕ
letter b = let t = bit_and b 0x3F in if ltb t 26 then t + b'A' else t + b'a' - 26

-- A symbol in the new format: `gotype` is what the last symbol had, which stays where this one has
-- none.
unfoldable pub new_symbol : ByteOrder → ℕ → ℕ → ℕ → Bytes → Result (RawSym × Bytes)
unfolding fixed_width varint_value read_name
new_symbol order ptrsz total gotype [] = panic
new_symbol order ptrsz total gotype (b ∷ p) =
    (if not (bit_and b 0x40 == 0)
      then fixed_width order ptrsz total p
      else varint_value total 0 0 p)
    >>= λ v.
        (if not (bit_and b 0x80 == 0) then fixed_width order ptrsz total v.1 else ok (gotype, v.1))
        >>= λ g. read_name total (letter b) g.1 >>= λ n.
            ok (record { value = v.0; gotype = g.0; typ = letter b; name = n.0 }, n.1)

-- A symbol in the old format, of at least four bytes.
unfoldable pub old_symbol : ByteOrder → ℕ → Bytes → Result (RawSym × Bytes)
unfolding fixed_width read_name
old_symbol order total p = head_to 4 p >>= λ value.
    if ltb (length p) 5
    then unexpected_eof total
    else element p 4 >>= λ typ.
        if bit_and typ 0x80 == 0
        then err (errorf "bad symbol type" ((total - length p + 4) ∷ typ ∷ []))
        else tail_from 5 p >>= λ p'. read_name total (bit_and typ 0x7F) p' >>= λ n.
            fixed_width order 4 total n.1 >>= λ g. ok (
              record {
                value = order_value order value;
                gotype = g.0;
                typ = bit_and typ 0x7F;
                name = n.0;
              },
              g.1,
            )

-- The format of a table: whether it is the new one, the byte order and the size of pointers.
pub record Format : Type 0 where
  pub new_table : Bool
  pub order : ByteOrder
  pub ptrsz : ℕ

unfoldable pub symbol : Format → ℕ → ℕ → Bytes → Result (RawSym × Bytes)
unfolding new_symbol old_symbol
symbol f total gotype p =
    if f.new_table then new_symbol f.order f.ptrsz total gotype p else old_symbol f.order total p

-- The loop, with fuel: each symbol takes a byte at least. What the callback `fn` returns is dropped;
-- it is its effect on what it has captured.
unfoldable pub walk_loop {ℓ} :
    {S : Type ℓ} → ℕ → Format → ℕ → (RawSym → S → S) → ℕ → Bytes → S → Result S
unfolding symbol
walk_loop zero f total fn gotype p s = stuck
walk_loop (suc fuel) f total fn gotype p s =
    let more =
      symbol f total gotype p >>= λ x. walk_loop fuel f total fn x.0.gotype x.1 (fn x.0 s) in
    if ltb (length p) 4 then ok s else more

-- The switch on the first bytes, with what is left of the data.
unfoldable pub sniff : Bytes → Result (Format × Bytes)
unfolding has_prefix
sniff content =
    if has_prefix content old_little_endian_symtab
    then (tail_from 6 content >>= λ p.
        ok (record { new_table = false; order = little_endian; ptrsz = 0 }, p))
    else if has_prefix content big_endian_symtab
    then ok (record { new_table = true; order = big_endian; ptrsz = 0 }, content)
    else if has_prefix content little_endian_symtab
    then ok (record { new_table = true; order = little_endian; ptrsz = 0 }, content)
    else ok (record { new_table = false; order = big_endian; ptrsz = 0 }, content)

abbrev pub walk_from {ℓ} : {S : Type ℓ} → Format → (RawSym → S → S) → Bytes → S → Result S
walk_from f fn p s = walk_loop (suc (length p)) f (length p) fn 0 p s

-- Behind the switch: a table in the new format has its pointer size in the eighth byte.
unfoldable pub walk_format {ℓ} : {S : Type ℓ} → Format → Bytes → (RawSym → S → S) → S → Result S
unfolding walk_loop
walk_format f p fn s =
    if not f.new_table
    then walk_from f fn p s
    else if ltb (length p) 8
    then unexpected_eof (length p)
    else element p 7 >>= λ ptrsz.
        if not (ptrsz == 4) && not (ptrsz == 8)
        then err (errorf "invalid pointer size" (7 ∷ ptrsz ∷ []))
        else tail_from 8 p >>= λ q. walk_from (record f { ptrsz = ptrsz }) fn q s

unfoldable pub walksymtab {ℓ} : {S : Type ℓ} → Bytes → (RawSym → S → S) → S → Result S
unfolding walk_format sniff
walksymtab content fn s =
    let walked = sniff content >>= λ x. walk_format x.0 x.1 fn s in
    if length content == 0 then ok s else walked
