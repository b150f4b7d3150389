-- ===== src/Server/Waiting.antt =====
-- server/server.go and server/ptrace.go: running the target until it stops, and the calls about
-- breakpoints that the server takes meanwhile. Loops take fuel: one for each round.
pub mod Traps
mod Runs
use debug.Common.{
  ◌==◌, Bytes, ℕ, zero, suc, ◌-◌, ◌^◌, Bool, true, false, not, ◌&&◌, Option, none, some, List, [],
  ◌∷◌,
}
use debug.Common.Result.{errorf, Result, ok, err, panic, stuck}
use debug.Common.Effect.{Effect, ◌>=>◌}
use debug.Dwarf.Symbol.{lookup_function}
use debug.Dwarf.Line.Paths.{line_to_pcs}
use debug.Server.Kernel.{Kernel}
use debug.Server.Breakpoints.{Server, described, add_breakpoints, handle_delete_breakpoints}

-- The requests that come over the channel breakpointc.
pub data Call : Type 0 where
  breakpoint : ℕ → Call
  breakpoint_at_function : Bytes → Call
  breakpoint_at_line : Bytes → ℕ → Call
  delete_breakpoints : List ℕ → Call

-- The rest of the system: a receive from breakpointc, where a call is waiting; the answer to a call;
-- os.StartProcess and Process.Kill.
pub record Host (W : Type 0) : Type 0 where
  pub receive : W → W × Option Call
  pub answer : Call → Result (List ℕ) → W → W
  pub start_process : Bytes → List Bytes → Effect W ℕ
  pub kill_process : ℕ → W → W

-- What a wait gives that allows calls to come in: breakpointsChangedError, or what it waited for.
pub data Waited (A : Type 0) : Type 0 where
  changed : Call → Waited A
  came : A → Waited A

-- `-1` as a process
abbrev pub any_pid : ℕ
any_pid = 2 ^ 64 - 1

abbrev pub on_world : {W A : Type 0} → Effect W A → Effect (Server × W) A
on_world f (s, w) = let (w', r) = f w in ((s, w'), r)

module _ {W : Type 0} (k : Kernel W) (host : Host W) where
  -- The status is one of a process that has stopped at a trap, and not at a clone.
  unfoldable pub is_trap : ℕ → Bool
  is_trap status = k.stop_signal status == k.sigtrap && not (k.trap_cause status == k.event_clone)

  -- The rest of one round of wait's loop: whether there was nothing to report, whether calls are
  -- allowed, and the next rounds.
  abbrev pub received : Effect W (Waited (ℕ × ℕ)) → W × Option Call → W × Result (Waited (ℕ × ℕ))
  received rest (w, some c) = (w, ok (changed c))
  received rest (w, none) = rest w

  abbrev pub polled : ℕ × ℕ → Bool → Bool → Effect W (Waited (ℕ × ℕ)) → Effect W (Waited (ℕ × ℕ))
  polled p false allow rest w = (w, ok (came p))
  polled p true false rest w = rest w
  polled p true true rest w = received rest (host.receive w)

  unfoldable pub wait : ℕ → ℕ → Bool → Effect W (Waited (ℕ × ℕ))
  wait zero pid allow w = (w, stuck)
  wait (suc fuel) pid allow w =
      k.wait4 pid w >=> λ p w1. polled p (p.0 == 0) allow (wait fuel pid allow) w1

  -- The rest of one round of waitForTrap's loop.
  abbrev pub woken : Effect W (Waited ℕ) → Waited (ℕ × ℕ) → Effect W (Waited ℕ)
  woken rest (changed c) w = (w, ok (changed c))
  woken rest (came p) w = elim (is_trap p.1) [
    | true ↦ (w, ok (came p.0))
    | false ↦ described "ptraceCont: %v" (k.ptrace_cont p.0 0 w) >=> λ u w1. rest w1
  ]

  -- `polls` is the fuel of each wait.
  unfoldable pub wait_for_trap : ℕ → ℕ → ℕ → Bool → Effect W (Waited ℕ)
  unfolding wait is_trap
  wait_for_trap polls zero pid allow w = (w, stuck)
  wait_for_trap polls (suc fuel) pid allow w =
      described "wait: %v" (wait polls pid allow w) >=> λ p w1.
      woken (wait_for_trap polls fuel pid allow) p w1

  -- The handlers that dispatch calls for these requests. Without DWARF data LookupFunction panics.
  unfoldable pub handle_call : ℕ → Call → Effect (Server × W) (List ℕ)
  unfolding add_breakpoints handle_delete_breakpoints lookup_function line_to_pcs
  handle_call fuel (breakpoint a) sw = add_breakpoints k (a ∷ []) sw
  handle_call fuel (breakpoint_at_function f) sw =
      let pc : Result ℕ = elim sw.0.dwarf_data [
        | none ↦ panic
        | some d ↦ lookup_function fuel d f
      ] in
      (sw, pc) >=> λ pc sw1. add_breakpoints k (pc ∷ []) sw1
  handle_call fuel (breakpoint_at_line f l) sw =
      let pcs : Result (List ℕ) = elim sw.0.dwarf_data [
        | none ↦ err (errorf "no DWARF data" [])
        | some d ↦ line_to_pcs fuel d f l
      ] in
      (sw, pcs) >=> λ pcs sw1. add_breakpoints k pcs sw1
  handle_call fuel (delete_breakpoints pcs) (s, w) = ((handle_delete_breakpoints pcs s, w), ok [])

  -- The send on the call's errc.
  abbrev pub answered : Call → (Server × W) × Result (List ℕ) → (Server × W) × Result (Unit {0})
  answered c ((s, w), ok pcs) = ((s, host.answer c (ok pcs) w), ok tt)
  answered c ((s, w), err e) = ((s, host.answer c (err e) w), ok tt)
  answered c (sw, panic) = (sw, panic)
  answered c (sw, stuck) = (sw, stuck)

  unfoldable pub dispatch : ℕ → Call → Effect (Server × W) (Unit {0})
  unfolding handle_call
  dispatch fuel c sw = answered c (handle_call fuel c sw)

  -- The inner loop of Resume: the call that stopped the target, and those that are waiting.
  unfoldable pub dispatch_all : ℕ → ℕ → Call → Effect (Server × W) (Unit {0})
  unfolding dispatch
  dispatch_all polls zero c sw = (sw, stuck)
  dispatch_all polls (suc fuel) c sw = dispatch polls c sw >=> λ u sw1.
      let (w2, next) = host.receive sw1.1 in
      elim next [ none ↦ ((sw1.0, w2), ok tt) | some c' ↦ dispatch_all polls fuel c' (sw1.0, w2) ]
