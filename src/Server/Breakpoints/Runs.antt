-- ===== src/Server/Breakpoints/Runs.antt =====
-- Runs of the breakpoints of server/server.go, over one process whose memory is a function.
use mathlib.Core.Path.{subst}
use debug.Common.{
  length, get_or, take, All, Bytes, ℕ, ◌-◌, ◌≡◌, refl, sym, ap, ◌⊎◌, inl, inr, true, none, some,
  List, [], ◌∷◌, arith,
}
use mathlib.Core.List.{Memᴰ}
use mathlib.Core.List.Memᴰ
use debug.Common.Result.{Result, ok}
use debug.Arch.{amd64}
use debug.Common.Maps.{map_get}
use debug.Server.Breakpoints.Added.{
  IsAdded, add_breakpoints-IsAdded, handle_delete_breakpoints-IsSaved,
}
use debug.Server.Kernel.{Regs, Kernel}
use debug.Server.Breakpoints.Pokes.{bytes_at, written, IsMemory}
use debug.Server.Breakpoints.Saved.{IsRange, Holds, IsSaved}
use debug.Server.Breakpoints.Placed.{
  AreApart, set_breakpoints-placed, lift_breakpoints-set_breakpoints,
}
use debug.Server.Breakpoints.{
  Breakpoint, Server, add_breakpoints, set_breakpoints, lift_breakpoints, handle_delete_breakpoints,
}

abbrev no_regs : Regs
no_regs = record { rip = 0; rsp = 0; others = [] }

abbrev plain : Kernel (ℕ → ℕ)
plain = record {
  ptrace_peek_text = λ pid a n w. (w, ok (n, bytes_at w a n));
  ptrace_poke_text = λ pid a bs w. (written w a bs, ok (length bs));
  ptrace_cont = λ pid signal w. (w, ok tt);
  ptrace_get_regs = λ pid w. (w, ok no_regs);
  ptrace_set_regs = λ pid r w. (w, ok tt);
  ptrace_set_options = λ pid o w. (w, ok tt);
  ptrace_single_step = λ pid w. (w, ok tt);
  wait4 = λ pid w. (w, ok (1, 5));
  kill = λ pid signal w. (w, ok tt);
  stop_signal = λ s. s;
  trap_cause = λ s. 0;
  is_stopped = λ s. true;
  sigtrap = 5;
  sigstop = 19;
  event_clone = 3;
  option_clone = 8;
}

abbrev plain_mem : (ℕ → ℕ) → ℕ → ℕ → ℕ
plain_mem w pid x = w x

abbrev bytes_of : Result (ℕ × Bytes) → Bytes
bytes_of (ok p) = p.1
bytes_of _ = []

plain-IsMemory : IsMemory plain plain_mem
plain-IsMemory = record {
  peek_keeps = λ pid a n w x. refl;
  peek_gives =
      λ pid a n w w' out h. sym (ap (λ (r : (ℕ → ℕ) × Result (ℕ × Bytes)). bytes_of r.1) h);
  poke_writes = λ pid a bs w w' x h. sym (λ i. (h i).0 x);
}

abbrev in_order : (ℕ → ℕ) → List (ℕ × Breakpoint) → List (ℕ × Breakpoint)
in_order w m = m

in_order-IsRange : IsRange in_order
in_order-IsRange w m e = (λ h. h, λ h. h)

-- The byte at an address is the address.
abbrev plain_bytes : ℕ → ℕ
plain_bytes x = x

abbrev at : ℕ → ℕ × Breakpoint
at pc = (pc, record { pc = pc; orig_instr = pc ∷ 0 ∷ 0 ∷ 0 ∷ [] })

abbrev server_with : List (ℕ × Breakpoint) → Server
server_with m = record {
  arch = amd64;
  dwarf_data = none;
  proc = some 1;
  proc_is_up = true;
  stopped_pid = 1;
  stopped_regs = no_regs;
  top_of_stack_addrs = [];
  breakpoints = m;
}

All-Memᴰ :
    (P : ℕ × Breakpoint → Type 0) (es : List (ℕ × Breakpoint))
    → All P es
    → (e : ℕ × Breakpoint) → Memᴰ e es
    → P e
All-Memᴰ P [] h e among = absurd (elim among [ ])
All-Memᴰ P (x ∷ es) h e among = elim (Memᴰ.cases_cons among) [
  | inl here ↦ subst P (sym here) h.0
  | inr later ↦ All-Memᴰ P es h.1 e later
]

abbrev two : Server
two = server_with (at 10 ∷ at 12 ∷ [])

two-IsSaved : IsSaved plain_bytes two
two-IsSaved = record {
  fits = omega arith;
  long = All-Memᴰ (λ e. length e.1.orig_instr ≡ 4) (at 10 ∷ at 12 ∷ []) (refl, (refl, tt));
  same =
      All-Memᴰ (λ e. take 1 e.1.orig_instr ≡ bytes_at plain_bytes e.0 1) (at 10 ∷ at 12 ∷ [])
        (refl, (refl, tt));
}

two-AreApart : AreApart two
two-AreApart e e' =
    let low =
      All-Memᴰ (λ e. (e.0 ≡ 10) ⊎ (e.0 ≡ 12)) (at 10 ∷ at 12 ∷ []) (inl refl, (inr refl, tt)) in
    λ h h'. elim (low e h) [
      | inl a ↦ elim (low e' h') [
        | inl b ↦ inl (omega (arith, a, b))
        | inr b ↦ inr (inl (omega (arith, a, b)))
      ]
      | inr a ↦ elim (low e' h') [
        | inl b ↦ inr (inr (omega (arith, a, b)))
        | inr b ↦ inl (omega (arith, a, b))
      ]
    ]

abbrev trapped : ℕ → ℕ
trapped = written (written plain_bytes 10 (0xCC ∷ [])) 12 (0xCC ∷ [])

abbrev restored : ℕ → ℕ
restored = written (written trapped 10 (10 ∷ [])) 12 (12 ∷ [])

two-set : set_breakpoints plain in_order (two, plain_bytes) ≡ ((two, trapped), ok tt)
unfolding set_breakpoints
two-set = refl

two-lift : lift_breakpoints plain in_order (two, trapped) ≡ ((two, restored), ok tt)
unfolding lift_breakpoints
two-lift = refl

lift_breakpoints-set_breakpoints_example : restored 12 ≡ 12
lift_breakpoints-set_breakpoints_example =
    lift_breakpoints-set_breakpoints plain plain_mem plain-IsMemory in_order in_order-IsRange two
      two two plain_bytes trapped restored tt tt (omega arith) two-IsSaved two-set two-lift 12

set_breakpoints-placed_example :
    ((e : ℕ × Breakpoint)
      → Memᴰ e two.breakpoints
      → Holds 1 12 e
      → trapped 12 ≡ get_or (0xCC ∷ []) (12 - e.0) 0)
    × (((e : ℕ × Breakpoint) → Memᴰ e two.breakpoints → ¬ Holds 1 12 e)
        → trapped 12 ≡ plain_bytes 12)
set_breakpoints-placed_example =
    set_breakpoints-placed plain plain_mem plain-IsMemory in_order in_order-IsRange two two
      plain_bytes trapped tt (omega arith) two-AreApart two-set 12

add_breakpoints-IsAdded_example :
    IsAdded plain_mem two
      (10 ∷ 14 ∷ [])
      plain_bytes
      (add_breakpoints plain (10 ∷ 14 ∷ []) (two, plain_bytes))
add_breakpoints-IsAdded_example =
    add_breakpoints-IsAdded plain plain_mem plain-IsMemory two (10 ∷ 14 ∷ []) plain_bytes
      two-IsSaved

handle_delete_breakpoints-IsSaved_example :
    IsSaved plain_bytes (handle_delete_breakpoints (10 ∷ []) two)
    × ((pc : ℕ)
        → (Memᴰ pc (10 ∷ [])
            → map_get pc (handle_delete_breakpoints (10 ∷ []) two).breakpoints ≡ none)
          × (¬ Memᴰ pc (10 ∷ [])
              → map_get pc (handle_delete_breakpoints (10 ∷ []) two).breakpoints
                ≡ map_get pc two.breakpoints))
handle_delete_breakpoints-IsSaved_example =
    handle_delete_breakpoints-IsSaved plain_bytes two (10 ∷ []) two-IsSaved

three_added :
    add_breakpoints plain (10 ∷ 14 ∷ []) (two, plain_bytes)
    ≡ ((server_with (at 14 ∷ at 10 ∷ at 12 ∷ []), plain_bytes), ok (10 ∷ 14 ∷ []))
unfolding add_breakpoints
three_added = refl
