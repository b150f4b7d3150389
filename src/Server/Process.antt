-- ===== src/Server/Process.antt =====
-- server/server.go: Run and Resume.
use debug.Common.{
  ◌==◌, if◌then◌else◌, u64, Bytes, ℕ, zero, suc, ◌+◌, ◌-◌, ◌^◌, true, false, not, ◌||◌, none, some,
  List, [], ◌∷◌,
}
use debug.Common.Result.{errorf, Result, ok, err, stuck}
use debug.Common.Effect.{Effect, ◌>=>◌}
use debug.Common.Maps.{map_get}
use debug.Server.Kernel.{Regs, Kernel}
use debug.Server.Breakpoints.{Breakpoint, Server, described, set_breakpoints, lift_breakpoints}
use debug.Server.Waiting.{Host, changed, came, any_pid, on_world, wait, wait_for_trap, dispatch_all}

abbrev pub no_regs : Regs
no_regs = record { rip = 0; rsp = 0; others = [] }

module _ {W : Type 0} (k : Kernel W) (host : Host W) where
  -- Run: a process that is there is killed, and forgotten, before the new one is started.
  unfoldable pub handle_run : Bytes → List Bytes → Effect (Server × W) (Unit {0})
  handle_run executable args (s, w) =
      let sw1 : Server × W = elim s.proc [
        | none ↦ (s, w)
        | some p ↦ (
          record s {
            proc = none;
            proc_is_up = false;
            stopped_pid = 0;
            stopped_regs = no_regs;
            top_of_stack_addrs = [];
          },
          host.kill_process p w,
        )
      ] in
      on_world (host.start_process executable (executable ∷ args)) sw1 >=> λ pid sw2.
      ((record sw2.0 { proc = some pid; stopped_pid = pid }, sw2.1), ok tt)

  -- A wait that allows no calls gives none.
  unfoldable pub trapped : ℕ → ℕ → Effect (Server × W) ℕ
  unfolding wait_for_trap
  trapped fuel pid sw = on_world (wait_for_trap k host fuel fuel pid false) sw >=> λ r sw1. elim r [
    | changed c ↦ (sw1, err (errorf "breakpoints changed" []))
    | came p ↦ (sw1, ok p)
  ]

  -- What Resume does before its loop: a new process is awaited, and one that stands at a breakpoint
  -- is taken past it.
  unfoldable pub start : ℕ → Effect (Server × W) (Unit {0})
  unfolding trapped
  start fuel (s, w) =
      let past : (Server × W) × Result (Unit {0}) =
        elim (map_get s.stopped_regs.rip s.breakpoints) [
          | none ↦ ((s, w), ok tt)
          | some bp ↦
              described "ptraceSingleStep: %v"
                (on_world (k.ptrace_single_step s.stopped_pid) (s, w))
              >=> λ u sw1. trapped fuel sw1.0.stopped_pid sw1 >=> λ p sw2. (sw2, ok tt)
        ] in
      let first : (Server × W) × Result (Unit {0}) =
        trapped fuel s.stopped_pid (record s { proc_is_up = true }, w) >=> λ p sw1.
        described "ptraceSetOptions: %v"
          (on_world (k.ptrace_set_options sw1.0.stopped_pid k.option_clone) sw1) in
      if not s.proc_is_up then first else past

  -- The target is stopped by a signal of the server's, and waited for.
  unfoldable pub stop : ℕ → Effect (Server × W) (Unit {0})
  unfolding wait
  stop fuel sw =
      described "kill(SIGSTOP): %v" (on_world (k.kill sw.0.stopped_pid k.sigstop) sw) >=> λ u sw1.
      described "wait (after SIGSTOP): %v" (on_world (wait k host fuel sw1.0.stopped_pid false) sw1)
      >=> λ r sw2. elim r [
        | changed c ↦ (sw2, err (errorf "breakpoints changed" []))
        | came p ↦
            if not (k.is_stopped p.1) || not (k.stop_signal p.1 == k.sigstop)
            then (sw2, err (errorf "wait (after SIGSTOP): unexpected wait status 0x%x" (p.1 ∷ [])))
            else (sw2, ok tt)
      ]

  module _ (order : W → List (ℕ × Breakpoint) → List (ℕ × Breakpoint)) where
    -- Resume's loop: the breakpoints are in place while the target runs, and are lifted while calls
    -- about them are taken.
    unfoldable pub resume_loop : ℕ → ℕ → Effect (Server × W) (Unit {0})
    unfolding stop dispatch_all set_breakpoints lift_breakpoints wait_for_trap
    resume_loop polls zero sw = (sw, stuck)
    resume_loop polls (suc fuel) sw = set_breakpoints k order sw >=> λ u sw1.
        described "ptraceCont: %v" (on_world (k.ptrace_cont sw1.0.stopped_pid 0) sw1) >=> λ u sw2.
        on_world (wait_for_trap k host polls polls any_pid true) sw2 >=> λ r sw3. elim r [
          | came wpid ↦ ((record sw3.0 { stopped_pid = wpid }, sw3.1), ok tt)
          | changed c ↦ stop polls sw3 >=> λ u sw4. lift_breakpoints k order sw4 >=> λ u sw5.
              dispatch_all k host polls polls c sw5 >=> λ u sw6. resume_loop polls fuel sw6
        ]

    -- Behind the loop: the PC goes back over the breakpoint instruction.
    unfoldable pub stopped : Effect (Server × W) (ℕ × ℕ)
    unfolding lift_breakpoints
    stopped sw = lift_breakpoints k order sw >=> λ u sw1.
        described "ptraceGetRegs: %v" (on_world (k.ptrace_get_regs sw1.0.stopped_pid) sw1)
        >=> λ regs sw2.
            let regs' : Regs = record regs {
              rip = u64 (regs.rip + 2 ^ 64 - sw2.0.arch.breakpoint_size);
            } in
            let s' : Server = record sw2.0 { stopped_regs = regs' } in
            described "ptraceSetRegs: %v"
              (on_world (k.ptrace_set_regs s'.stopped_pid regs') (s', sw2.1))
            >=> λ u sw3. (sw3, ok (sw3.0.stopped_regs.rip, sw3.0.stopped_regs.rsp))

    -- Resume gives the PC and the stack pointer of the response.
    unfoldable pub handle_resume : ℕ → Effect (Server × W) (ℕ × ℕ)
    unfolding start resume_loop stopped
    handle_resume fuel (s, w) = elim s.proc [
      | none ↦ ((s, w), err (errorf "Resume: Run did not successfully start a process" []))
      | some p ↦ start fuel (s, w) >=> λ u sw1. resume_loop fuel fuel sw1 >=> λ u sw2. stopped sw2
    ]
