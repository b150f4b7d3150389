-- ===== src/Server/Typedefs.antt =====
-- server/eval.go: followTypedefs. The loop takes fuel: one for each round, which passes two typedefs.
pub mod Cycles
pub mod Ends
mod Runs
use debug.Common.{◌==◌, if◌then◌else◌, length, ℕ, zero, suc, Bool, true, false, Option, none, some}
use debug.Common.Result.{Result, ok, stuck}
use debug.Dwarf.Types.{TypeHeap, typedef_of}

-- The second result of the function next is whether there is a typedef to go on from.
abbrev pub next_type : TypeHeap → Option ℕ → Option ℕ
next_type h t = elim (typedef_of h t) [ none ↦ t | some u ↦ u ]

-- `slow == fast`
abbrev pub same_type : Option ℕ → Option ℕ → Bool
same_type none none = true
same_type (some a) (some b) = a == b
same_type _ _ = false

unfoldable pub follow_loop : ℕ → TypeHeap → Option ℕ → Option ℕ → Result (Option ℕ)
follow_loop zero h slow fast = stuck
follow_loop (suc fuel) h slow fast = elim (typedef_of h fast) [
  | none ↦ ok fast
  | some f1 ↦ elim (typedef_of h f1) [
    | none ↦ ok f1
    | some f2 ↦
        let rest = follow_loop fuel h (next_type h slow) f2 in
        if same_type (next_type h slow) f2 then ok none else rest
  ]
]

-- The types are as many as can be passed before one comes again.
unfoldable pub follow_typedefs : TypeHeap → Option ℕ → Result (Option ℕ)
unfolding follow_loop
follow_typedefs h t = follow_loop (suc (length h)) h t t
