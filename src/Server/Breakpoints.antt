-- ===== src/Server/Breakpoints.antt =====
-- server/server.go: the breakpoints. `order` is the order in which a range over the map meets its
-- entries, which may be another one each time.
pub mod Pokes
pub mod Saved
pub mod Placed
pub mod Peeks
pub mod Added
mod Runs
use debug.Common.{
  ltb, leb, if◌then◌else◌, length, take, replicate, Bytes, ℕ, ◌-◌, Bool, Option, none, some, List,
  [], ◌∷◌, ◌++◌, String,
}
use debug.Common.Result.{wrapped, Result, ok, err, panic, stuck}
use debug.Common.Effect.{Effect, ◌>=>◌}
use debug.Common.Maps.{map_get, map_delete, map_insert}
use debug.Arch.{Architecture}
use debug.Dwarf.Data.{Data}
use debug.Server.Kernel.{Regs, Kernel, ptrace_peek, ptrace_poke}

pub record Breakpoint : Type 0 where
  pub pc : ℕ
  pub orig_instr : Bytes

-- What the calls about breakpoints, Run and Resume use of a Server.
pub record Server : Type 0 where
  pub arch : Architecture
  pub dwarf_data : Option Data
  pub proc : Option ℕ
  pub proc_is_up : Bool
  pub stopped_pid : ℕ
  pub stopped_regs : Regs
  pub top_of_stack_addrs : List ℕ
  pub breakpoints : List (ℕ × Breakpoint)

-- MaxBreakpointSize
abbrev pub max_breakpoint_size : ℕ
max_breakpoint_size = 4

-- `a[:n]` of an array.
abbrev pub front : ℕ → Bytes → Result Bytes
front n a = if leb n (length a) then ok (take n a) else panic

-- `fmt.Errorf(format, err)` of an error, where there is one.
abbrev pub described {ℓ κ} : {S : Type ℓ} {A : Type κ} → String → S × Result A → S × Result A
described format (s, ok a) = (s, ok a)
described format (s, err e) = (s, err (wrapped format [] e))
described format (s, panic) = (s, panic)
described format (s, stuck) = (s, stuck)

-- The second loop of addBreakpoints.
abbrev pub insert_all : List Breakpoint → List (ℕ × Breakpoint) → List (ℕ × Breakpoint)
insert_all [] m = m
insert_all (bp ∷ bps) m = insert_all bps (map_insert bp.pc bp m)

module _ {W : Type 0} (k : Kernel W) where
  -- One round of addBreakpoints' first loop, at an address with no breakpoint yet.
  unfoldable pub peek_one : Server → ℕ → Effect W Breakpoint
  unfolding ptrace_peek
  peek_one s pc w =
      let size = s.arch.breakpoint_size in
      if ltb max_breakpoint_size size
      then (w, panic)
      else described "ptracePeek: %v" (ptrace_peek k s.stopped_pid pc size w) >=> λ out w1. (
        w1,
        ok (record { pc = pc; orig_instr = out ++ replicate (max_breakpoint_size - size) 0 }),
      )

  -- That loop.
  unfoldable pub peek_new : Server → List ℕ → Effect W (List Breakpoint)
  unfolding peek_one
  peek_new s [] w = (w, ok [])
  peek_new s (pc ∷ pcs) w = elim (map_get pc s.breakpoints) [
    | some bp ↦ peek_new s pcs w
    | none ↦ peek_one s pc w >=> λ bp w1. (peek_new s pcs w1 >=> λ bps w2. (w2, ok (bp ∷ bps)))
  ]

  unfoldable pub add_breakpoints : List ℕ → Effect (Server × W) (List ℕ)
  unfolding peek_new
  add_breakpoints pcs (s, w) =
      let (w', r) = peek_new s pcs w in
      ((s, w'), r) >=> λ bps sw.
      ((record sw.0 { breakpoints = insert_all bps sw.0.breakpoints }, sw.1), ok pcs)

  -- The loop of setBreakpoints and of liftBreakpoints: `content` is what it writes at an entry.
  unfoldable pub poke_each :
      String → (Breakpoint → Result Bytes) → ℕ → List (ℕ × Breakpoint) → Effect W (Unit {0})
  unfolding ptrace_poke
  poke_each format content pid [] w = (w, ok tt)
  poke_each format content pid (e ∷ es) w = (w, content e.1) >=> λ bs w1.
      described format (ptrace_poke k pid e.0 bs w1) >=> λ u w2. poke_each format content pid es w2

  module _ (order : W → List (ℕ × Breakpoint) → List (ℕ × Breakpoint)) where
    unfoldable pub set_breakpoints : Effect (Server × W) (Unit {0})
    unfolding poke_each
    set_breakpoints (s, w) =
        let (w', r) =
          poke_each "setBreakpoints: %v"
            (λ bp. front s.arch.breakpoint_size s.arch.breakpoint_instr) s.stopped_pid
            (order w s.breakpoints) w in
        ((s, w'), r)

    unfoldable pub lift_breakpoints : Effect (Server × W) (Unit {0})
    unfolding poke_each
    lift_breakpoints (s, w) =
        let (w', r) =
          poke_each "liftBreakpoints: %v" (λ bp. front s.arch.breakpoint_size bp.orig_instr)
            s.stopped_pid (order w s.breakpoints) w in
        ((s, w'), r)

abbrev pub delete_all : List ℕ → List (ℕ × Breakpoint) → List (ℕ × Breakpoint)
delete_all [] m = m
delete_all (pc ∷ pcs) m = delete_all pcs (map_delete pc m)

unfoldable pub handle_delete_breakpoints : List ℕ → Server → Server
handle_delete_breakpoints pcs s = record s { breakpoints = delete_all pcs s.breakpoints }
