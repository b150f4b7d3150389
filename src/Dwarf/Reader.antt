-- ===== src/Dwarf/Reader.antt =====
-- dwarf/entry.go: the Reader, which reads the entries of the info section one after another. The
-- back pointer `d` is an argument.
use debug.Common.{
  ltb, leb, ◌==◌, if◌then◌else◌, length, get_elem?, drop, u32, Bytes, little_endian, ℕ, zero, suc,
  ◌+◌, ◌-◌, Bool, false, not, ◌&&◌, Option, none, some, List, [], ◌∷◌,
}
use debug.Common.Result.{Error, errorf, Result, ok, panic, stuck, ◌>>=◌}
use debug.Dwarf.Buf.{unknown_format, Buf, make_buf}
use debug.Dwarf.Data.{CompUnit, unit_format, Data}
use debug.Dwarf.Entry.{Value, offset_value, Entry, entry_val, entry}

pub record Reader : Type 0 where
  pub b : Buf
  pub err : Option Error
  pub unit : ℕ
  pub last_children : Bool
  pub last_sibling : ℕ

-- `&Reader{d: d}`, with the zero value of buf: no data.
abbrev pub zero_reader : Reader
zero_reader = record {
  b = make_buf little_endian unknown_format "" 0 [];
  err = none;
  unit = 0;
  last_children = false;
  last_sibling = 0;
}

-- `makeBuf(r.d, u, "info", off, data)`
abbrev pub unit_buf : Data → CompUnit → ℕ → Bytes → Buf
unit_buf d u off content = make_buf d.order (unit_format u) "info" off content

-- The loop of Seek over the units, from number i on.
unfoldable pub seek_loop : Data → Reader → ℕ → ℕ → List CompUnit → Reader
seek_loop d r off i [] = record r { err = some (errorf "offset out of range" []) }
seek_loop d r off i (u ∷ us) =
    let rest = seek_loop d r off (i + 1) us in
    if leb u.off off && ltb off (u32 (u.off + length u.content))
    then record r { unit = i; b = unit_buf d u off (drop (off - u.off) u.content) }
    else rest

unfoldable pub seek : Data → Reader → ℕ → Reader
unfolding seek_loop
seek d r off =
    let r0 = record r { err = none; last_children = false } in
    if off == 0
    then elim d.units [
      | [] ↦ r0
      | u ∷ us ↦ record r0 { unit = 0; b = unit_buf d u u.off u.content }
    ]
    else seek_loop d r0 off 0 d.units

-- The method Reader of a Data.
unfoldable pub reader : Data → Reader
unfolding seek
reader d = seek d zero_reader 0

unfoldable pub address_size : Data → Reader → Result ℕ
address_size d r = elim (get_elem? d.units r.unit) [ none ↦ panic | some u ↦ ok u.asize ]

-- maybeNextUnit, over the units behind the current one.
unfoldable pub next_unit_loop : Data → List CompUnit → Reader → Reader
next_unit_loop d [] r = r
next_unit_loop d (u ∷ us) r =
    let rest =
      next_unit_loop d us (record r { unit = r.unit + 1; b = unit_buf d u u.off u.content }) in
    if length r.b.unread == 0 then rest else r

unfoldable pub maybe_next_unit : Data → Reader → Reader
unfolding next_unit_loop
maybe_next_unit d r = next_unit_loop d (drop (suc r.unit) d.units) r

-- What Next gives: an error, nothing more, or an entry.
pub data Outcome : Type 0 where
  failed : Error → Outcome
  at_end : Outcome
  read : Entry → Outcome

-- `entry.Val(a).(Offset)`, which is 0 where the value is not an Offset.
abbrev pub as_offset : Value → ℕ
as_offset (offset_value x) = x
as_offset _ = 0

-- AttrSibling
abbrev pub attr_sibling : ℕ
attr_sibling = 0x01

-- What Next makes of the entry that it has read, with the buffer behind it.
abbrev pub took : Reader → Option Entry × Buf → Outcome × Reader
took r (e, b) = elim b.err [
  | some x ↦ (failed x, record r { b = b; err = some x })
  | none ↦ elim e [
    | none ↦ (at_end, record r { b = b; last_children = false })
    | some x ↦ (
      read x,
      record r {
        b = b;
        last_children = x.children;
        last_sibling =
            if x.children then as_offset (entry_val x.fields attr_sibling) else r.last_sibling;
      },
    )
  ]
]

-- Next in the unit with entries left, if there is one.
unfoldable pub next_in_unit : Data → Reader → Result (Outcome × Reader)
unfolding entry
next_in_unit d r =
    if length r.b.unread == 0 then ok (at_end, r) else elim (get_elem? d.units r.unit) [
      | none ↦ panic
      | some u ↦ entry d u.atable u.base r.b >>= λ x. ok (took r x)
    ]

unfoldable pub next : Data → Reader → Result (Outcome × Reader)
unfolding maybe_next_unit next_in_unit
next d r = elim r.err [ some e ↦ ok (failed e, r) | none ↦ next_in_unit d (maybe_next_unit d r) ]

-- SkipChildren, where `scan` is its loop over the children.
abbrev pub skip_with : Data → (Reader → Result Reader) → Reader → Result Reader
skip_with d scan r = if not r.last_children then ok r else elim r.err [
  | some e ↦ ok r
  | none ↦ if leb r.b.off r.last_sibling then ok (seek d r r.last_sibling) else scan r
]

-- That loop, with fuel: one for each entry.
unfoldable pub skip_loop : ℕ → Data → Reader → Result Reader
unfolding next seek
skip_loop zero d r = stuck
skip_loop (suc fuel) d r = next d r >>= λ n. elim n.0 [
  | failed e ↦ ok n.1
  | at_end ↦ ok n.1
  | read e ↦
      let deeper = skip_with d (skip_loop fuel d) n.1 >>= λ r'. skip_loop fuel d r' in
      let flat = skip_loop fuel d n.1 in
      if e.tag == 0 then ok n.1 else if e.children then deeper else flat
]

unfoldable pub skip_children : ℕ → Data → Reader → Result Reader
unfolding skip_loop
skip_children fuel d r = skip_with d (skip_loop fuel d) r
