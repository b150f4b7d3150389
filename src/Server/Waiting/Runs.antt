-- ===== src/Server/Waiting/Runs.antt =====
-- Runs of waitForTrap, Run and Resume of server/server.go, over a system that counts its waits.
use debug.Common.{
  length, replicate, ℕ, suc, ◌≡◌, refl, ◌≢◌, Bool, true, false, Option, none, some, [],
}
use debug.Common.Result.{ok}
use debug.Arch.{amd64}
use debug.Server.Kernel.{Regs, Kernel}
use debug.Server.Breakpoints.{Server}
use debug.Server.Process.{no_regs, handle_run, handle_resume}
use debug.Server.Waiting.Traps.{wait_for_trap-at_trap}
use debug.Server.Waiting.{Host, came, any_pid, wait_for_trap}

-- The nth wait reports process n + 1 with status n; status 5 is a trap, and the PC is 100.
abbrev counter : Kernel ℕ
counter = record {
  ptrace_peek_text = λ pid a n w. (w, ok (n, replicate n 0));
  ptrace_poke_text = λ pid a bs w. (w, ok (length bs));
  ptrace_cont = λ pid signal w. (w, ok tt);
  ptrace_get_regs = λ pid w. (w, ok (record { rip = 100; rsp = 50; others = [] }));
  ptrace_set_regs = λ pid r w. (w, ok tt);
  ptrace_set_options = λ pid o w. (w, ok tt);
  ptrace_single_step = λ pid w. (w, ok tt);
  wait4 = λ pid w. (suc w, ok (suc w, w));
  kill = λ pid signal w. (w, ok tt);
  stop_signal = λ s. s;
  trap_cause = λ s. 0;
  is_stopped = λ s. true;
  sigtrap = 5;
  sigstop = 19;
  event_clone = 3;
  option_clone = 8;
}

abbrev quiet : Host ℕ
quiet = record {
  receive = λ w. (w, none);
  answer = λ c r w. w;
  start_process = λ name argv w. (w, ok 42);
  kill_process = λ p w. w;
}

second_wait : wait_for_trap counter quiet 1 2 any_pid true 4 ≡ (6, ok (came 6))
unfolding wait_for_trap
second_wait = refl

wait_for_trap-at_trap_example :
    (w0 : ℕ) × ((status : ℕ) × ((counter.wait4 any_pid w0 ≡ (6, ok (6, status)))
        × ((suc 5 ≢ 0)
            × ((counter.stop_signal status ≡ counter.sigtrap)
                × (counter.trap_cause status ≢ counter.event_clone)))))
wait_for_trap-at_trap_example =
    wait_for_trap-at_trap counter quiet 1 2 any_pid true 4 6 6 second_wait

abbrev ready : Option ℕ → Bool → ℕ → Regs → Server
ready proc up pid regs = record {
  arch = amd64;
  dwarf_data = none;
  proc = proc;
  proc_is_up = up;
  stopped_pid = pid;
  stopped_regs = regs;
  top_of_stack_addrs = [];
  breakpoints = [];
}

ran :
    handle_run counter quiet [] [] (ready none false 0 no_regs, 5)
    ≡ ((ready (some 42) false 42 no_regs, 5), ok tt)
unfolding handle_run
ran = refl

-- The first wait reports status 4, and the target is continued; the second one reports the trap.
resumed :
    handle_resume counter quiet (λ w m. m) 3 (ready (some 42) true 42 no_regs, 4)
    ≡ ((ready (some 42) true 6 (record { rip = 99; rsp = 50; others = [] }), 6), ok (99, 50))
unfolding handle_resume
resumed = refl
