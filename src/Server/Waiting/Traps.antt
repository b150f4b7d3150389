-- ===== src/Server/Waiting/Traps.antt =====
-- server/server.go and server/ptrace.go: what waitForTrap waits for.
use debug.Common.{
  ◌==◌, ℕ, zero, suc, ◌≡◌, refl, ap, ◌∙◌, ◌≢◌, ◌⊎◌, inl, inr, Bool, true, false, Option, none, some,
  arith,
}
use debug.Common.Result.{Result, ok}
use debug.Common.Effect.{Effect, ◌>=>◌, bind-ok}
use debug.Server.Breakpoints.{described}
use debug.Server.Breakpoints.Pokes.{described-ok}
use debug.Server.Kernel.{Kernel}
use debug.Server.Waiting.{
  Call, Host, Waited, changed, came, is_trap, received, polled, wait, woken, wait_for_trap,
}

received-came :
    {W : Type 0} (k : Kernel W) (host : Host W) (rest : Effect W (Waited (ℕ × ℕ)))
    (r : W × Option Call) (w' : W) (p : ℕ × ℕ) {P : Type 0}
    → received k host rest r ≡ (w', ok (came p))
    → P ⊎ ((w2 : W) × (rest w2 ≡ (w', ok (came p))))
received-came k host rest (w, some c) w' p run = absurd (ground (arith, ap (λ r. r.1) run))
received-came k host rest (w, none) w' p run = inr (w, run)

polled-came :
    {W : Type 0} (k : Kernel W) (host : Host W) (q : ℕ × ℕ) (nothing allow : Bool)
    (rest : Effect W (Waited (ℕ × ℕ))) (w w' : W) (p : ℕ × ℕ)
    → polled k host q nothing allow rest w ≡ (w', ok (came p))
    → ((nothing ≡ false) × ((w ≡ w') × (q ≡ p))) ⊎ ((w2 : W) × (rest w2 ≡ (w', ok (came p))))
polled-came k host q false allow rest w w' p run =
    let it : ok (came q) ≡ ok (came p) = ap (λ r. r.1) run in inl (refl, (ap (λ r. r.0) run, cc))
polled-came k host q true false rest w w' p run = inr (w, run)
polled-came k host q true true rest w w' p run = received-came k host rest (host.receive w) w' p run

module _ {W : Type 0} (k : Kernel W) (host : Host W) where
  -- What wait has got is what wait4 gave last.
  wait-came :
      (fuel pid : ℕ) (allow : Bool) (w w' : W) (p : ℕ × ℕ)
      → wait k host fuel pid allow w ≡ (w', ok (came p))
      → (w0 : W) × ((k.wait4 pid w0 ≡ (w', ok p)) × (p.0 ≢ 0))
  unfolding wait
  wait-came zero pid allow w w' p run = absurd (ground (arith, ap (λ r. r.1) run))
  wait-came (suc fuel) pid allow w w' p run =
      let (w1, q, at, rest) = bind-ok (k.wait4 pid w) _ run in
      elim (polled-came k host q (q.0 == 0) allow (wait k host fuel pid allow) w1 w' p rest) [
        | inl (here, (same, it)) ↦
            (w, (at ∙ (λ i. (same i, ok (it i))), ground (arith, ap (λ (y : ℕ × ℕ). y.0) it, here)))
        | inr (w2, later) ↦ wait-came fuel pid allow w2 w' p later
      ]

  woken-came :
      (rest : Effect W (Waited ℕ)) (r : Waited (ℕ × ℕ)) (w w' : W) (pid : ℕ)
      → woken k host rest r w ≡ (w', ok (came pid))
      → ((status : ℕ) × ((is_trap k host status ≡ true) × ((w ≡ w') × (r ≡ came (pid, status)))))
        ⊎ ((w2 : W) × (rest w2 ≡ (w', ok (came pid))))
  woken-came rest (changed c) w w' pid run = absurd (ground (arith, ap (λ r. r.1) run))
  woken-came rest (came p) w w' pid run =
      elim (is_trap k host p.1)
          as (λ b.
            is_trap k host p.1 ≡ b
            → (elim b as (λ b. W × Result (Waited ℕ)) [
              | true ↦ (w, ok (came p.0))
              | false ↦ described "ptraceCont: %v" (k.ptrace_cont p.0 0 w) >=> λ u w1. rest w1
            ])
              ≡ (w', ok (came pid))
            → ((status : ℕ) × ((is_trap k host status ≡ true)
                  × ((w ≡ w') × (came p ≡ came (pid, status)))))
              ⊎ ((w2 : W) × (rest w2 ≡ (w', ok (came pid))))) [
                | true ↦ λ trap run'.
                    let it : ok (came p.0) ≡ ok (came pid) = ap (λ r. r.1) run' in
                    let same : p.0 ≡ pid = cc in
                    inl (p.1, (trap, (ap (λ r. r.0) run', λ i. came (same i, p.1))))
                | false ↦ λ other run'.
                    let (w1, u, continued, later) =
                      bind-ok (described "ptraceCont: %v" (k.ptrace_cont p.0 0 w)) _ run' in
                    inr (w1, later)
              ]
        refl run

  -- What is_trap tests.
  is_trap_iff :
      (status : ℕ)
      → is_trap k host status ≡ true
      → (k.stop_signal status ≡ k.sigtrap) × (k.trap_cause status ≢ k.event_clone)
  unfolding is_trap
  is_trap_iff status trap = (ground (arith, trap), ground (arith, trap))

  -- A process that waitForTrap gives is one that wait4 has just reported, with a status whose stop
  -- signal is SIGTRAP and whose trap cause is not PTRACE_EVENT_CLONE.
  pub wait_for_trap-at_trap :
      (polls fuel pid : ℕ) (allow : Bool) (w w' : W) (wpid : ℕ)
      → wait_for_trap k host polls fuel pid allow w ≡ (w', ok (came wpid))
      → (w0 : W) × ((status : ℕ) × ((k.wait4 pid w0 ≡ (w', ok (wpid, status)))
            × ((wpid ≢ 0)
                × ((k.stop_signal status ≡ k.sigtrap) × (k.trap_cause status ≢ k.event_clone)))))
  unfolding wait_for_trap
  wait_for_trap-at_trap polls zero pid allow w w' wpid run =
      absurd (ground (arith, ap (λ r. r.1) run))
  wait_for_trap-at_trap polls (suc fuel) pid allow w w' wpid run =
      let (w1, r, waited, rest) =
        bind-ok (described "wait: %v" (wait k host polls pid allow w)) _ run in
      elim (woken-came (wait_for_trap k host polls fuel pid allow) r w1 w' wpid rest) [
        | inl (status, (trap, (same, it))) ↦
            let (w0, (reported, some_process)) =
              wait-came polls pid allow w w' (wpid, status)
                (described-ok "wait: %v" _ waited ∙ λ i. (same i, ok (it i))) in
            (w0, (status, (reported, (some_process, is_trap_iff status trap))))
        | inr (w2, later) ↦ wait_for_trap-at_trap polls fuel pid allow w2 w' wpid later
      ]
