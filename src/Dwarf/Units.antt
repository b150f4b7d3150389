-- ===== src/Dwarf/Units.antt =====
-- dwarf/unit.go and dwarf/open.go: the units of the info section, and New.
use debug.Common.{
  ltb, ◌==◌, if◌then◌else◌, length, get_or, u32, Bytes, ByteOrder, little_endian, big_endian, ℕ,
  zero, suc, ◌+◌, ◌-◌, ◌^◌, Bool, not, ◌&&◌, Option, none, some, List, [], ◌∷◌, ◌++◌,
}
use debug.Common.Result.{Error, decode_error, Result, ok, err, panic, stuck, ◌>>=◌}
use debug.Dwarf.Buf.{
  unknown_format, Buf, make_buf, error, uint8, bytes, skip, uint16, uint32, uint64,
}
use debug.Dwarf.Data.{CompUnit, Data}
use debug.Dwarf.Entry.{AbbrevCache, parse_abbrev}

-- The length of the next unit and the buffer behind it, in the first walk; `none` is the break.
abbrev pub unit_length : Buf → Option ℕ × Buf
unit_length b =
    let (len, b1) = uint32 b in
    let (len64, b2) = uint64 b1 in
    if not (len == 0xffffffff)
    then (some len, b1)
    else if not (len64 == u32 len64)
    then (none, error b2 "unit length overflow" [])
    else (some (u32 len64), b2)

-- The walk that counts units, with fuel.
unfoldable pub count_units : ℕ → Buf → ℕ → Result (ℕ × Buf)
unfolding skip error
count_units zero b n = stuck
count_units (suc fuel) b n =
    let (len, b1) = unit_length b in
    let rest : Result (ℕ × Buf) = elim len [
      | none ↦ ok (n, b1)
      | some k ↦ count_units fuel (skip b1 k) (n + 1)
    ] in
    if length b.unread == 0 then ok (n, b) else rest

-- What the second walk holds: the units written so far, the cache, and the buffer.
pub record UnitWalk : Type 0 where
  pub units : List CompUnit
  pub cache : AbbrevCache
  pub rest : Buf

-- Only the first error is kept, and the buffer is not emptied.
abbrev pub keep_error : Buf → Error → Buf
keep_error b e = elim b.err [ none ↦ record b { err = some e } | some x ↦ b ]

-- A unit behind its length n. `none` is the break.
unfoldable pub read_unit :
    Data → AbbrevCache → ℕ → Bool → ℕ → Buf → Result (Option CompUnit × (AbbrevCache × Buf))
unfolding parse_abbrev error
read_unit d cache base is64 n b =
    let (vers, b1) = uint16 b in
    let (abbrev_off, b2) = uint32 b1 in
    if not (vers == 2) && (not (vers == 3) && not (vers == 4))
    then ok (none, (cache, error b1 "unsupported DWARF version %d" (vers ∷ [])))
    else elim (parse_abbrev d cache abbrev_off) [
      | err e ↦ ok (none, (cache, keep_error b2 e))
      | panic ↦ panic
      | stuck ↦ stuck
      | ok r ↦
          let (asize, b3) = uint8 b2 in
          let (content, b4) = bytes b3 (u32 (n + (2 ^ 32 - 7))) in
          ok (
            some (record {
              base = base;
              off = b3.off;
              content = elim content [ none ↦ [] | some bs ↦ bs ];
              atable = r.0;
              asize = asize;
              vers = vers;
              is64 = is64;
            }),
            (r.1, b4),
          )
    ]

-- The second walk, over n units more.
unfoldable pub read_units : Data → ℕ → UnitWalk → Result UnitWalk
unfolding read_unit
read_units d zero w = ok w
read_units d (suc k) w =
    let base = w.rest.off in
    let (n, b1) = uint32 w.rest in
    let is64 = n == 0xffffffff in
    let long : ℕ × Buf = (u32 (uint64 b1).0, (uint64 b1).1) in
    let (n', b2) = if is64 then long else (n, b1) in
    read_unit d w.cache base is64 n' b2 >>= λ u. elim u.0 [
      | none ↦ ok (record w { cache = u.1.0; rest = u.1.1 })
      | some x ↦ read_units d k (record { units = w.units ++ x ∷ []; cache = u.1.0; rest = u.1.1 })
    ]

-- A break leaves an error in the buffer, so the units behind it are never given out.
unfoldable pub parse_units : Data → AbbrevCache → Result (List CompUnit × AbbrevCache)
unfolding count_units read_units
parse_units d cache =
    let b = make_buf d.order unknown_format "info" 0 d.info in
    count_units (suc (length d.info)) b 0 >>= λ c. elim c.1.err [
      | some e ↦ err e
      | none ↦ read_units d c.0 (record { units = []; cache = cache; rest = b }) >>= λ w.
          elim w.rest.err [ some e ↦ err e | none ↦ ok (w.units, w.cache) ]
    ]

-- The byte order of an info section of six bytes at least, from its version.
unfoldable pub sniff_order : ℕ → ℕ → Result ByteOrder
sniff_order x y =
    if x == 0 && y == 0
    then err (decode_error "info" 4 "unsupported version 0" [])
    else if x == 0
    then ok big_endian
    else if y == 0
    then ok little_endian
    else err (decode_error "info" 4 "cannot determine byte order" [])

-- New, with the sections that are used here.
unfoldable pub new_data : Bytes → Bytes → Bytes → Bytes → Bytes → Result (Data × AbbrevCache)
unfolding sniff_order parse_units
new_data abbrevs frame info line str =
    if ltb (length info) 6
    then err (decode_error "info" (u32 (length info)) "too short" [])
    else sniff_order (get_or info 4 0) (get_or info 5 0) >>= λ order.
        (let d : Data = record {
          abbrevs = abbrevs;
          frame = frame;
          info = info;
          line = line;
          str = str;
          order = order;
          units = [];
        } in
          parse_units d [] >>= λ u. ok (record d { units = u.0 }, u.1))
