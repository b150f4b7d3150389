-- ===== src/Server/Peek/Fixtures.antt =====
-- A kernel and a server for the runs over a memory that is a function.
use debug.Common.{length, ℕ, true, none, some, []}
use debug.Common.Result.{ok}
use debug.Arch.{amd64}
use debug.Server.Kernel.{Kernel}
use debug.Server.Breakpoints.{Server}
use debug.Server.Breakpoints.Pokes.{bytes_at}

-- Every read gives what is in memory.
abbrev pub still_kernel : (ℕ → ℕ) → Kernel (Unit {0})
still_kernel m = record {
  ptrace_peek_text = λ pid a n w. (w, ok (n, bytes_at m a n));
  ptrace_poke_text = λ pid a bs w. (w, ok (length bs));
  ptrace_cont = λ pid signal w. (w, ok tt);
  ptrace_get_regs = λ pid w. (w, ok (record { rip = 0; rsp = 0; others = [] }));
  ptrace_set_regs = λ pid r w. (w, ok tt);
  ptrace_set_options = λ pid o w. (w, ok tt);
  ptrace_single_step = λ pid w. (w, ok tt);
  wait4 = λ pid w. (w, ok (1, 5));
  kill = λ pid signal w. (w, ok tt);
  stop_signal = λ s. s;
  trap_cause = λ s. 0;
  is_stopped = λ s. true;
  sigtrap = 5;
  sigstop = 19;
  event_clone = 3;
  option_clone = 8;
}

abbrev pub stopped : Server
stopped = record {
  arch = amd64;
  dwarf_data = none;
  proc = some 1;
  proc_is_up = true;
  stopped_pid = 1;
  stopped_regs = record { rip = 0; rsp = 0; others = [] };
  top_of_stack_addrs = [];
  breakpoints = [];
}
