-- ===== src/Server/Breakpoints/Placed.antt =====
-- server/server.go: the instructions that setBreakpoints leaves in memory.
use debug.Common.{
  leb, length, get_or, take, length-take, Bytes, ℕ, ◌+◌, ◌-◌, ◌≤◌, ◌<◌, ◌≡◌, refl, sym, ap, ◌∙◌,
  ◌⊎◌, inl, inr, true, List, arith,
}
use mathlib.Core.List.{Memᴰ}
use debug.Common.Result.{Result, ok}
use debug.Server.Kernel.{Kernel}
use debug.Server.Breakpoints.Pokes.{IsMemory, Says, poke_each-Says}
use debug.Server.Breakpoints.Saved.{
  IsRange, Holds, IsSaved, held_or_not, in_second, lift_breakpoints-saved,
}
use debug.Server.Breakpoints.{
  Breakpoint, Server, front, poke_each, set_breakpoints, lift_breakpoints,
}

-- Two breakpoints at different addresses have no byte in common.
abbrev pub AreApart : Server → Type 0
AreApart s =
    (e e' : ℕ × Breakpoint)
    → Memᴰ e s.breakpoints
    → Memᴰ e' s.breakpoints
    → (e.0 ≡ e'.0) ⊎ ((e.0 + s.arch.breakpoint_size ≤ e'.0) ⊎ (e'.0 + s.arch.breakpoint_size ≤ e.0))

-- What setBreakpoints writes at a breakpoint.
abbrev pub trap : Server → Breakpoint → Result Bytes
trap s bp = front s.arch.breakpoint_size s.arch.breakpoint_instr

module _ (s : Server) (whole : s.arch.breakpoint_size ≤ length s.arch.breakpoint_instr) where
  front-whole :
      front s.arch.breakpoint_size s.arch.breakpoint_instr
      ≡ ok (take s.arch.breakpoint_size s.arch.breakpoint_instr)
  front-whole =
      let fits : leb s.arch.breakpoint_size (length s.arch.breakpoint_instr) ≡ true =
        ground (arith, whole) in
      rw fits refl

  length-trap :
      length (take s.arch.breakpoint_size s.arch.breakpoint_instr) ≡ s.arch.breakpoint_size
  length-trap = omega (arith, whole, length-take s.arch.breakpoint_size s.arch.breakpoint_instr)

  abbrev trap_byte : ℕ → ℕ × Breakpoint → ℕ
  trap_byte x e = get_or (take s.arch.breakpoint_size s.arch.breakpoint_instr) (x - e.0) 0

  Says-trap :
      (e : ℕ × Breakpoint) (x : ℕ)
      → Holds s.arch.breakpoint_size x e
      → Says (trap s) e x (trap_byte x e)
  Says-trap e x (low, high) = (
    take s.arch.breakpoint_size s.arch.breakpoint_instr,
    front-whole,
    low,
    omega (arith, length-trap, high),
    refl,
  )

  trap-Says :
      (e : ℕ × Breakpoint) (x v : ℕ)
      → Says (trap s) e x v
      → Holds s.arch.breakpoint_size x e × (v ≡ trap_byte x e)
  trap-Says e x v (bs, given, low, high, at) =
      let same : ok bs ≡ ok (take s.arch.breakpoint_size s.arch.breakpoint_instr) =
        sym given ∙ front-whole in
      let bytes : bs ≡ take s.arch.breakpoint_size s.arch.breakpoint_instr = cc in
      let held : x < e.0 + s.arch.breakpoint_size =
        omega (arith, high, ap length bytes, length-trap) in
      ((low, held), sym at ∙ ap (λ b. get_or b (x - e.0) 0) bytes)

  one_trap :
      (e e' : ℕ × Breakpoint) (x : ℕ)
      → (e.0 ≡ e'.0)
        ⊎ ((e.0 + s.arch.breakpoint_size ≤ e'.0) ⊎ (e'.0 + s.arch.breakpoint_size ≤ e.0))
      → Holds s.arch.breakpoint_size x e
      → Holds s.arch.breakpoint_size x e'
      → trap_byte x e' ≡ trap_byte x e
  one_trap e e' x (inl same) h h' =
      ap (λ a. get_or (take s.arch.breakpoint_size s.arch.breakpoint_instr) (x - a) 0) (sym same)
  one_trap e e' x (inr (inl before)) h h' = absurd (omega (arith, h.1, h'.0))
  one_trap e e' x (inr (inr behind)) h h' = absurd (omega (arith, h.0, h'.1))

module _ {W : Type 0} (k : Kernel W) (mem : W → ℕ → ℕ → ℕ) (memory : IsMemory k mem)
    (order : W → List (ℕ × Breakpoint) → List (ℕ × Breakpoint)) (range : IsRange order) where
  set_breakpoints-missed :
      (s s' : Server) (w w' : W) (u : Unit {0})
      → s.arch.breakpoint_size ≤ length s.arch.breakpoint_instr
      → set_breakpoints k order (s, w) ≡ ((s', w'), ok u)
      → (x : ℕ) → ((e : ℕ × Breakpoint) → Memᴰ e s.breakpoints → ¬ Holds s.arch.breakpoint_size x e)
      → mem w' s.stopped_pid x ≡ mem w s.stopped_pid x
  unfolding set_breakpoints
  set_breakpoints-missed s s' w w' u whole run x missed =
      poke_each-Says k mem memory "setBreakpoints: %v" (trap s) s.stopped_pid
        (order w s.breakpoints) w w' u x (mem w s.stopped_pid x) (in_second _ run)
        (λ e' v' b' says.
          absurd (missed e' ((range w s.breakpoints e').0 b') (trap-Says s whole e' x v' says).0))
        (inl refl)

  -- setBreakpoints, where it succeeds, leaves the breakpoint instruction at each breakpoint, and
  -- changes no other byte.
  pub set_breakpoints-placed :
      (s s' : Server) (w w' : W) (u : Unit {0})
      → s.arch.breakpoint_size ≤ length s.arch.breakpoint_instr
      → AreApart s
      → set_breakpoints k order (s, w) ≡ ((s', w'), ok u)
      → (x : ℕ)
      → ((e : ℕ × Breakpoint)
          → Memᴰ e s.breakpoints
          → Holds s.arch.breakpoint_size x e
          → mem w' s.stopped_pid x
            ≡ get_or (take s.arch.breakpoint_size s.arch.breakpoint_instr) (x - e.0) 0)
        × (((e : ℕ × Breakpoint) → Memᴰ e s.breakpoints → ¬ Holds s.arch.breakpoint_size x e)
            → mem w' s.stopped_pid x ≡ mem w s.stopped_pid x)
  unfolding set_breakpoints
  set_breakpoints-placed s s' w w' u whole apart run x =
      let poked : poke_each k "setBreakpoints: %v" (trap s) s.stopped_pid (order w s.breakpoints) w
          ≡ (w', ok u) =
        in_second _ run in
      let among : (e : ℕ × Breakpoint) → Memᴰ e (order w s.breakpoints) → Memᴰ e s.breakpoints =
        λ e. (range w s.breakpoints e).0 in
      let all_said : (v : ℕ) → _ = λ v.
        poke_each-Says k mem memory "setBreakpoints: %v" (trap s) s.stopped_pid
          (order w s.breakpoints) w w' u x v poked in
      (
        λ e b h.
            all_said (trap_byte s whole x e)
              (λ e' v' b' says.
                let (h', at) = trap-Says s whole e' x v' says in
                at ∙ one_trap s whole e e' x (apart e e' b (among e' b')) h h')
              (inr (e, (range w s.breakpoints e).1 b, Says-trap s whole e x h)),
        set_breakpoints-missed s s' w w' u whole run x,
      )

  -- Setting the breakpoints and lifting them again, in any orders, leaves every byte of memory as it
  -- was.
  pub lift_breakpoints-set_breakpoints :
      (s s1 s2 : Server) (w w1 w2 : W) (u u' : Unit {0})
      → s.arch.breakpoint_size ≤ length s.arch.breakpoint_instr
      → IsSaved (mem w s.stopped_pid) s
      → set_breakpoints k order (s, w) ≡ ((s1, w1), ok u)
      → lift_breakpoints k order (s1, w1) ≡ ((s2, w2), ok u')
      → (x : ℕ) → mem w2 s.stopped_pid x ≡ mem w s.stopped_pid x
  unfolding set_breakpoints
  lift_breakpoints-set_breakpoints s s1 s2 w w1 w2 u u' whole saved set lift x =
      let unchanged : s ≡ s1 = ap (λ p. p.0.0) set in
      let lift' : lift_breakpoints k order (s, w1) ≡ ((s2, w2), ok u') =
        ap (λ y. lift_breakpoints k order (y, w1)) unchanged ∙ lift in
      let lifted =
        lift_breakpoints-saved k mem memory order range (mem w s.stopped_pid) s s2 w1 w2 u' saved
          lift' x in
      elim (held_or_not s.arch.breakpoint_size x s.breakpoints) [
        | inl (e, b, h) ↦ lifted.0 e b h
        | inr missed ↦ lifted.1 missed ∙ set_breakpoints-missed s s1 w w1 u whole set x missed
      ]
