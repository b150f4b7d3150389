-- ===== src/Server/Kernel.antt =====
-- server/ptrace.go: the calls of package syscall that the server makes, and what it makes of them.
-- The goroutine that ptraceRun keeps for these calls runs them one after another.
use debug.Common.{◌==◌, if◌then◌else◌, length, Bytes, ℕ, Bool, List, [], ◌∷◌}
use debug.Common.Result.{errorf, ok, err}
use debug.Common.Effect.{Effect, ◌>=>◌}

-- syscall.PtraceRegs: the two registers that the server looks at, and the others.
pub record Regs : Type 0 where
  pub rip : ℕ
  pub rsp : ℕ
  pub others : List ℕ

-- Package syscall, over the state `W` of the system. PtracePeekText gives the number of bytes that it
-- has read, and `out` as it leaves it; PtracePokeText the number that it has written. Wait4 gives a
-- process and its status, or process 0 where there is nothing to report.
pub record Kernel (W : Type 0) : Type 0 where
  pub ptrace_peek_text : ℕ → ℕ → ℕ → Effect W (ℕ × Bytes)
  pub ptrace_poke_text : ℕ → ℕ → Bytes → Effect W ℕ
  pub ptrace_cont : ℕ → ℕ → Effect W (Unit {0})
  pub ptrace_get_regs : ℕ → Effect W Regs
  pub ptrace_set_regs : ℕ → Regs → Effect W (Unit {0})
  pub ptrace_set_options : ℕ → ℕ → Effect W (Unit {0})
  pub ptrace_single_step : ℕ → Effect W (Unit {0})
  pub wait4 : ℕ → Effect W (ℕ × ℕ)
  pub kill : ℕ → ℕ → Effect W (Unit {0})
  -- StopSignal, TrapCause and Stopped of a WaitStatus
  pub stop_signal : ℕ → ℕ
  pub trap_cause : ℕ → ℕ
  pub is_stopped : ℕ → Bool
  -- SIGTRAP, SIGSTOP, PTRACE_EVENT_CLONE and PTRACE_O_TRACECLONE
  pub sigtrap : ℕ
  pub sigstop : ℕ
  pub event_clone : ℕ
  pub option_clone : ℕ

module _ {W : Type 0} (k : Kernel W) where
  unfoldable pub ptrace_peek : ℕ → ℕ → ℕ → Effect W Bytes
  ptrace_peek pid addr len w = k.ptrace_peek_text pid addr len w >=> λ p w'.
      if p.0 == len
      then (w', ok p.1)
      else (w', err (errorf "ptracePeek: peeked %d bytes, want %d" (p.0 ∷ len ∷ [])))

  unfoldable pub ptrace_poke : ℕ → ℕ → Bytes → Effect W (Unit {0})
  ptrace_poke pid addr content w = k.ptrace_poke_text pid addr content w >=> λ n w'.
      if n == length content
      then (w', ok tt)
      else (w', err (errorf "ptracePoke: poked %d bytes, want %d" (n ∷ length content ∷ [])))
