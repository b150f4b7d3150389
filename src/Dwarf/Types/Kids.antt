-- ===== src/Dwarf/Types/Kids.antt =====
-- dwarf/type.go: the function next of readType, which gives the direct children of an entry, and the
-- loops over them.
use debug.Common.{ltb, ◌==◌, if◌then◌else◌, ℕ, zero, suc, ◌+◌, ◌-◌, Option, none, some, [], String}
use debug.Common.Result.{Error, decode_error, Result, ok, stuck, ◌>>=◌}
use debug.Common.Effect.{Effect, ◌>=>◌}
use debug.Dwarf.Data.{Data}
use debug.Dwarf.Entry.{Entry}
use debug.Dwarf.Reader.{failed, at_end, read}
use debug.Dwarf.Types.Units.{TypeReader, type_next, type_offset}

-- A child, no more of them, or nil with err set.
pub data Kid : Type 0 where
  kid : Entry → Kid
  last : Kid
  broken : Error → Kid

-- next behind its test of e.Children, with fuel: one for each entry. An entry with children is not
-- given, and nor is what lies in it.
unfoldable pub next_kid : ℕ → Data → String → TypeReader → ℕ → Result (Kid × (TypeReader × ℕ))
unfolding type_next
next_kid zero d name r depth = stuck
next_kid (suc fuel) d name r depth = type_next d r >>= λ n. elim n.0 [
  | failed e ↦ ok (broken e, (n.1, depth))
  | at_end ↦ ok (
    broken (decode_error name (type_offset n.1) "unexpected end of DWARF entries" []),
    (n.1, depth),
  )
  | read e ↦
      let deeper = next_kid fuel d name n.1 (depth + 1) in
      let skipped = next_kid fuel d name n.1 depth in
      let up = next_kid fuel d name n.1 (depth - 1) in
      if e.tag == 0
      then if ltb 0 depth then up else ok (last, (n.1, depth))
      else if e.children
      then deeper
      else if ltb 0 depth
      then skipped
      else ok (kid e, (n.1, depth))
]

-- The loop over the children, with fuel: one for each. What it has made stays where next sets err.
unfoldable pub kids_loop {ℓ κ} :
    {S : Type ℓ} {A : Type κ}
    → ℕ
    → Data
    → String
    → (Entry → A → Effect S A)
    → TypeReader
    → ℕ
    → A
    → Effect S (A × Option Error)
unfolding next_kid
kids_loop zero d name body r depth a s = (s, stuck)
kids_loop (suc fuel) d name body r depth a s = (s, next_kid (suc fuel) d name r depth) >=> λ n s1.
    elim n.0 [
      | kid e ↦ body e a s1 >=> λ a' s2. kids_loop fuel d name body n.1.0 n.1.1 a' s2
      | last ↦ (s1, ok (a, none))
      | broken x ↦ (s1, ok (a, some x))
    ]

-- The loop over the children of an entry behind which the reader stands.
unfoldable pub for_kids {ℓ κ} :
    {S : Type ℓ} {A : Type κ}
    → ℕ
    → Data
    → String
    → (Entry → A → Effect S A)
    → Entry
    → TypeReader
    → A
    → Effect S (A × Option Error)
unfolding kids_loop
for_kids fuel d name body e r a s =
    if e.children then kids_loop fuel d name body r 0 a s else (s, ok (a, none))
