-- ===== src/Server/Frames/Tops.antt =====
-- server/server.go: handleFrames, and the functions at which a walk over the stack ends.
use debug.Common.{
  if◌then◌else◌, Bytes, ℕ, Bool, true, false, Option, none, some, List, [], ◌∷◌, ◌++◌,
}
use debug.Arch
use debug.Dwarf.Reader.{reader}
use debug.Dwarf.Symbol.{lookup_function, lookup_variable}
use debug.Common.Result.{Error, Result, ok, err, panic, stuck, ◌>>=◌}
use debug.Common.Effect.{Effect, ◌>=>◌}
use debug.Dwarf.Data.{Data}
use debug.Server.Kernel.{Kernel, ptrace_peek}
use debug.Server.Breakpoints.{Server, described}
use debug.Server.Waiting.{on_world}
use debug.Server.Frames.{StackFrame, walk_stack}

-- "runtime."
abbrev runtime : Bytes → Bytes
runtime name = 114 ∷ 117 ∷ 110 ∷ 116 ∷ 105 ∷ 109 ∷ 101 ∷ 46 ∷ name

-- "goexit"
abbrev goexit : Bytes
goexit = 103 ∷ 111 ∷ 101 ∷ 120 ∷ 105 ∷ 116 ∷ []

-- "mstart"
abbrev mstart : Bytes
mstart = 109 ∷ 115 ∷ 116 ∷ 97 ∷ 114 ∷ 116 ∷ []

-- "mcall"
abbrev mcall : Bytes
mcall = 109 ∷ 99 ∷ 97 ∷ 108 ∷ 108 ∷ []

-- "morestack"
abbrev morestack : Bytes
morestack = 109 ∷ 111 ∷ 114 ∷ 101 ∷ 115 ∷ 116 ∷ 97 ∷ 99 ∷ 107 ∷ []

-- "lessstack"
abbrev lessstack : Bytes
lessstack = 108 ∷ 101 ∷ 115 ∷ 115 ∷ 115 ∷ 116 ∷ 97 ∷ 99 ∷ 107 ∷ []

-- "_rt0_go"
abbrev rt0_go : Bytes
rt0_go = 95 ∷ 114 ∷ 116 ∷ 48 ∷ 95 ∷ 103 ∷ 111 ∷ []

-- "rt0_goPC"
abbrev rt0_go_pc : Bytes
rt0_go_pc = 114 ∷ 116 ∷ 48 ∷ 95 ∷ 103 ∷ 111 ∷ 80 ∷ 67 ∷ []

-- "PC" at the end of a name
abbrev pc_of : Bytes → Bytes
pc_of name = name ++ 80 ∷ 67 ∷ []

-- The functions of a Go 1.3 binary.
abbrev pub functions : List Bytes
functions =
    runtime goexit
    ∷ runtime mstart
    ∷ runtime mcall
    ∷ runtime morestack
    ∷ runtime lessstack
    ∷ rt0_go
    ∷ []

-- The variables of a Go 1.4 binary, which hold addresses.
abbrev pub variables : List Bytes
variables =
    runtime (pc_of goexit)
    ∷ runtime (pc_of mstart)
    ∷ runtime (pc_of mcall)
    ∷ runtime (pc_of morestack)
    ∷ runtime rt0_go_pc
    ∷ []

-- The loop over the names.
unfoldable pub look_all : (Bytes → Result ℕ) → List Bytes → Result (List ℕ)
look_all lookup [] = ok []
look_all lookup (name ∷ names) =
    lookup name >>= λ addr. look_all lookup names >>= λ addrs. ok (addr ∷ addrs)

module _ {W : Type 0} (k : Kernel W) (fuel : ℕ) (d : Data) where
  -- The loop that puts what each variable holds in its place.
  unfoldable pub peek_all : Server → List ℕ → Effect W (List ℕ)
  unfolding ptrace_peek
  peek_all s [] w = (w, ok [])
  peek_all s (addr ∷ addrs) w =
      described "ptracePeek: %v" (ptrace_peek k s.stopped_pid addr s.arch.pointer_size w)
      >=> λ bs w1. elim (Arch.uintptr s.arch bs) [
        | none ↦ (w1, panic)
        | some x ↦ peek_all s addrs w1 >=> λ xs w2. (w2, ok (x ∷ xs))
      ]

  -- The addresses, and whether they are those of variables.
  unfoldable pub look_up : Result (List ℕ × Bool)
  unfolding look_all lookup_variable lookup_function
  look_up = elim (lookup_variable fuel d (runtime rt0_go_pc)) [
    | ok x ↦ look_all (lookup_variable fuel d) variables >>= λ addrs. ok (addrs, true)
    | err e ↦ look_all (lookup_function fuel d) functions >>= λ addrs. ok (addrs, false)
    | panic ↦ panic
    | stuck ↦ stuck
  ]

  unfoldable pub evaluate_top_of_stack_addrs : Effect (Server × W) (Unit {0})
  unfolding look_up peek_all
  evaluate_top_of_stack_addrs (s, w) = ((s, w), look_up) >=> λ found sw.
      on_world (λ w'. if found.1 then peek_all s found.0 w' else (w', ok found.0)) sw
      >=> λ addrs sw1. ((record sw1.0 { top_of_stack_addrs = addrs }, sw1.1), ok tt)

  -- The response has the frames, with an error or without. Addresses that are there are not looked up
  -- again; there is always more than one of them, so that none means nil.
  unfoldable pub handle_frames : ℕ → Effect (Server × W) (List StackFrame × Option Error)
  unfolding evaluate_top_of_stack_addrs walk_stack
  handle_frames count (s, w) =
      let first : (Server × W) × Result (Unit {0}) = elim s.top_of_stack_addrs [
        | [] ↦ evaluate_top_of_stack_addrs (s, w)
        | a ∷ addrs ↦ ((s, w), ok tt)
      ] in
      first >=> λ u sw1. on_world (k.ptrace_get_regs sw1.0.stopped_pid) sw1 >=> λ regs sw2.
      on_world (walk_stack k fuel d sw2.0 count (reader d) regs.rip regs.rsp) sw2
