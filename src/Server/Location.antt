-- ===== src/Server/Location.antt =====
-- server/dwarf.go: names by a regular expression, and locations at an offset from the canonical
-- frame address. An int64 is its bit pattern.
pub mod Signed
mod Runs
use debug.Common.{
  ltb, ◌==◌, if◌then◌else◌, length, get_or, drop, u64, Bytes, ℕ, zero, suc, ◌+◌, ◌-◌, ◌*◌, ◌^◌,
  bit_and, bit_or, Bool, not, ◌&&◌, List, [], ◌∷◌, ◌++◌,
}
use debug.Common.Result.{errorf, Result, ok, err, panic, stuck, ◌>>=◌}
use debug.Dwarf.Data.{Data}
use debug.Dwarf.Entry.{
  nil_value, uint64_value, int64_value, offset_value, bytes_value, bool_value, string_value, Entry,
  entry_val,
}
use debug.Dwarf.Reader.{Reader, reader, failed, at_end, read, next}
use debug.Dwarf.Symbol.{attr_name}

-- What lookupRE takes of an entry: its name, where that is a string that matches.
unfoldable pub matching : (Bytes → Bool) → Entry → List Bytes
matching re e = elim (entry_val e.fields attr_name) [
  | nil_value ↦ []
  | string_value s ↦ if re s then s ∷ [] else []
  | uint64_value x ↦ []
  | int64_value x ↦ []
  | offset_value x ↦ []
  | bytes_value x ↦ []
  | bool_value x ↦ []
]

-- The loop, with fuel: one for each entry, and one for the end. `re` is the regular expression's
-- MatchString.
unfoldable pub re_loop : (Bytes → Bool) → ℕ → Data → Reader → List Bytes → Result (List Bytes)
unfolding next matching
re_loop re zero d r result = stuck
re_loop re (suc fuel) d r result = next d r >>= λ n. elim n.0 [
  | failed e ↦ err e
  | at_end ↦ ok result
  | read e ↦ re_loop re fuel d n.1 (result ++ matching re e)
]

unfoldable pub lookup_re : (Bytes → Bool) → ℕ → Data → Result (List Bytes)
unfolding re_loop reader
lookup_re re fuel d = re_loop re fuel d (reader d) []

unfoldable pub uleb_loop : ℕ → ℕ → Bytes → ℕ
uleb_loop u shift [] = u
uleb_loop u shift (x ∷ v) =
    let u' = bit_or u (u64 (bit_and x 0x7F * 2 ^ shift)) in
    let more = uleb_loop u' (shift + 7) v in if bit_and x 0x80 == 0 then u' else more

unfoldable pub uleb128 : Bytes → ℕ
unfolding uleb_loop
uleb128 v = uleb_loop 0 0 v

-- The loop of sleb128, on what is left of the slice: `i` is the last index, `k` the next one. `sign`
-- is -1 shifted as far as the next group.
unfoldable pub sleb_loop : ℕ → ℕ → ℕ → ℕ → Bytes → ℕ × ℕ
sleb_loop i k s shift [] = (s, i)
sleb_loop i k s shift (x ∷ v) =
    let s' = bit_or s (u64 (bit_and x 0x7F * 2 ^ shift)) in
    let sign = u64 ((2 ^ 64 - 1) * 2 ^ (shift + 7)) in
    let more = sleb_loop k (k + 1) s' (shift + 7) v in
    if bit_and x 0x80 == 0 then (if bit_and x 0x40 == 0 then s' else bit_or s' sign, k) else more

unfoldable pub sleb128 : Bytes → Result (ℕ × Bytes)
unfolding sleb_loop
sleb128 v =
    let (s, i) = sleb_loop 0 0 0 0 v in
    if i == length v
    then err (errorf "truncated sleb128" [])
    else if ltb (length v) (i + 1)
    then panic
    else ok (s, drop (i + 1) v)

-- opConsts, opPlus and opCallFrameCFA
abbrev pub op_consts : ℕ
op_consts = 0x11

abbrev pub op_plus : ℕ
op_plus = 0x22

abbrev pub op_call_frame_cfa : ℕ
op_call_frame_cfa = 0x9C

abbrev pub unsupported : Result ℕ
unsupported = err (errorf "unsupported location specifier" [])

unfoldable pub eval_location : Bytes → Result ℕ
unfolding sleb128
eval_location v =
    let offset : Result ℕ = sleb128 (drop 2 v) >>= λ s.
    if length s.1 == 1 && get_or s.1 0 0 == op_plus then ok s.0 else unsupported in
    if length v == 0
    then err (errorf "empty location specifier" [])
    else if not (get_or v 0 0 == op_call_frame_cfa)
    then unsupported
    else if length v == 1
    then ok 0
    else if not (get_or v 1 0 == op_consts)
    then unsupported
    else offset
