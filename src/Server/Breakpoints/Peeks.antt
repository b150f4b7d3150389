-- ===== src/Server/Breakpoints/Peeks.antt =====
-- server/server.go: the instructions that the first loop of addBreakpoints reads.
use mathlib.Core.Path.{fun_ext, subst}
use debug.Common.{
  ltb, ◌==◌, if◌then◌else◌, Bool-cases, Option-cases, if-cases, else_taken, length, take, replicate,
  All, length-append, take-append, length-replicate, Bytes, ℕ, ◌-◌, ◌≤◌, ◌≡◌, refl, sym, ap, ◌∙◌,
  ◌⊎◌, inl, inr, false, none, some, List, [], ◌∷◌, ◌++◌, String, arith,
}
use mathlib.Core.List.{Memᴰ}
use mathlib.Core.List.Memᴰ
use debug.Common.Result.{Error, Result, ok, err, panic, stuck}
use debug.Common.Effect.{◌>=>◌, bind-ok, bind-keeps}
use debug.Common.Maps.{map_get}
use debug.Server.Kernel.{Kernel, ptrace_peek}
use debug.Server.Breakpoints.Pokes.{bytes_at, IsMemory, described-ok}
use debug.Server.Breakpoints.Saved.{length-bytes_at}
use debug.Server.Breakpoints.{
  Breakpoint, Server, max_breakpoint_size, described, peek_one, peek_new,
}

-- The breakpoint has the instruction of n bytes that stands at its address.
abbrev pub SavedAt : (ℕ → ℕ) → ℕ → ℕ → Breakpoint → Type 0
SavedAt m n a bp =
    (length bp.orig_instr ≡ max_breakpoint_size) × (take n bp.orig_instr ≡ bytes_at m a n)

-- The map has an entry for the address.
abbrev pub HasEntry : ℕ → List (ℕ × Breakpoint) → Type 0
HasEntry pc m = (bp : Breakpoint) × (map_get pc m ≡ some bp)

padded-SavedAt :
    (m : ℕ → ℕ) (n a : ℕ) (out : Bytes)
    → n ≤ max_breakpoint_size
    → out ≡ bytes_at m a n
    → SavedAt m n a (record { pc = a; orig_instr = out ++ replicate (max_breakpoint_size - n) 0 })
padded-SavedAt m n a out h e =
    let long : length out ≡ n = ap length e ∙ length-bytes_at m a n in
    (
      omega (
        arith,
        long,
        length-append out (replicate (max_breakpoint_size - n) 0),
        length-replicate {0} {A = ℕ} (max_breakpoint_size - n) 0,
      ),
      take-append out (replicate (max_breakpoint_size - n) 0) n (sym long) ∙ e,
    )

described-state : {S A : Type 0} (format : String) (r : S × Result A) → (described format r).0 ≡ r.0
described-state format (s, ok a) = refl
described-state format (s, err e) = refl
described-state format (s, panic) = refl
described-state format (s, stuck) = refl

peeked :
    {W : Type 0} (n len : ℕ) (w1 w' : W) (out1 out : Bytes) (e : Error)
    → ◌≡◌ {A = W × Result Bytes} (if n == len then (w1, ok out1) else (w1, err e)) (w', ok out)
    → (n ≡ len) × ((w1 ≡ w') × (out1 ≡ out))
peeked n len w1 w' out1 out e h = elim (Bool-cases (n == len)) [
  | inl same ↦ ground (arith, h)
  | inr other ↦ absurd (ground (arith, h))
]

module _ {W : Type 0} (k : Kernel W) (mem : W → ℕ → ℕ → ℕ) (memory : IsMemory k mem) where
  ptrace_peek-keeps :
      (pid a n : ℕ) (w : W) (x : ℕ) → mem (ptrace_peek k pid a n w).0 pid x ≡ mem w pid x
  unfolding ptrace_peek
  ptrace_peek-keeps pid a n w x =
      bind-keeps (λ w1. mem w1 pid x ≡ mem w pid x) (k.ptrace_peek_text pid a n w) _
        (memory.peek_keeps pid a n w x)
        (λ p w1 h. if-cases (λ (r : W × Result Bytes). mem r.0 pid x ≡ mem w pid x) (p.0 == n) h h)

  ptrace_peek-gives :
      (pid a n : ℕ) (w w' : W) (out : Bytes)
      → ptrace_peek k pid a n w ≡ (w', ok out)
      → out ≡ bytes_at (mem w pid) a n
  unfolding ptrace_peek
  ptrace_peek-gives pid a n w w' out h =
      let (w1, p, q, r) = bind-ok (k.ptrace_peek_text pid a n w) _ h in
      let (whole, (same_world, bytes)) = peeked p.0 n w1 w' p.1 out _ r in
      memory.peek_gives pid a n w w' out (q ∙ λ i. (same_world i, ok (whole i, bytes i)))

  peek_one-keeps :
      (s : Server) (pc : ℕ) (w : W) (x : ℕ)
      → mem (peek_one k s pc w).0 s.stopped_pid x ≡ mem w s.stopped_pid x
  unfolding peek_one
  peek_one-keeps s pc w x =
      let peek = ptrace_peek k s.stopped_pid pc s.arch.breakpoint_size w in
      if-cases (λ (r : W × Result Breakpoint). mem r.0 s.stopped_pid x ≡ mem w s.stopped_pid x)
        (ltb max_breakpoint_size s.arch.breakpoint_size) refl
        (bind-keeps (λ w1. mem w1 s.stopped_pid x ≡ mem w s.stopped_pid x)
          (described "ptracePeek: %v" peek) _
          (ap (λ w1. mem w1 s.stopped_pid x) (described-state "ptracePeek: %v" peek)
            ∙ ptrace_peek-keeps s.stopped_pid pc s.arch.breakpoint_size w x)
          (λ out w1 h. h))

  peek_one-gives :
      (s : Server) (pc : ℕ) (w w' : W) (bp : Breakpoint)
      → s.arch.breakpoint_size ≤ max_breakpoint_size
      → peek_one k s pc w ≡ (w', ok bp)
      → SavedAt (mem w s.stopped_pid) s.arch.breakpoint_size pc bp × (bp.pc ≡ pc)
  unfolding peek_one
  peek_one-gives s pc w w' bp fits run =
      let small : ltb max_breakpoint_size s.arch.breakpoint_size ≡ false = ground (arith, fits) in
      let (w1, out, peek, given) =
        bind-ok
          (described "ptracePeek: %v" (ptrace_peek k s.stopped_pid pc s.arch.breakpoint_size w)) _
          (else_taken (ltb max_breakpoint_size s.arch.breakpoint_size) _ _ small run) in
      let bytes : out ≡ bytes_at (mem w s.stopped_pid) pc s.arch.breakpoint_size =
        ptrace_peek-gives s.stopped_pid pc s.arch.breakpoint_size w w1 out
          (described-ok "ptracePeek: %v" _ peek) in
      let made : ok (record {
        pc = pc;
        orig_instr = out ++ replicate (max_breakpoint_size - s.arch.breakpoint_size) 0;
      })
          ≡ ok bp =
        ap (λ r. r.1) given in
      let it : record {
        pc = pc;
        orig_instr = out ++ replicate (max_breakpoint_size - s.arch.breakpoint_size) 0;
      }
          ≡ bp =
        cc in
      (
        subst (SavedAt (mem w s.stopped_pid) s.arch.breakpoint_size pc) it
            (padded-SavedAt (mem w s.stopped_pid) s.arch.breakpoint_size pc out fits bytes),
        ap (λ (y : Breakpoint). y.pc) (sym it),
      )

  peek_new-known :
      (s : Server) (pc : ℕ) (pcs : List ℕ) (w : W) (bp : Breakpoint)
      → map_get pc s.breakpoints ≡ some bp
      → peek_new k s (pc ∷ pcs) w ≡ peek_new k s pcs w
  unfolding peek_new
  peek_new-known s pc pcs w bp h = rw (h, peek_new) refl

  peek_new-new :
      (s : Server) (pc : ℕ) (pcs : List ℕ) (w : W)
      → map_get pc s.breakpoints ≡ none
      → peek_new k s (pc ∷ pcs) w
        ≡ (peek_one k s pc w >=> λ bp w1. (peek_new k s pcs w1 >=> λ bps w2. (w2, ok (bp ∷ bps))))
  unfolding peek_new
  peek_new-new s pc pcs w h = rw (h, peek_new) refl

  pub peek_new-keeps :
      (s : Server) (pcs : List ℕ) (w : W) (x : ℕ)
      → mem (peek_new k s pcs w).0 s.stopped_pid x ≡ mem w s.stopped_pid x
  unfolding peek_new
  peek_new-keeps s [] w x = refl
  peek_new-keeps s (pc ∷ pcs) w x = elim (Option-cases (map_get pc s.breakpoints)) [
    | inr (bp, old) ↦
        ap (λ r. mem r.0 s.stopped_pid x) (peek_new-known s pc pcs w bp old)
        ∙ peek_new-keeps s pcs w x
    | inl new ↦
        ap (λ r. mem r.0 s.stopped_pid x) (peek_new-new s pc pcs w new)
        ∙ bind-keeps (λ w1. mem w1 s.stopped_pid x ≡ mem w s.stopped_pid x) (peek_one k s pc w) _
            (peek_one-keeps s pc w x)
            (λ bp w1 h.
              bind-keeps (λ w2. mem w2 s.stopped_pid x ≡ mem w s.stopped_pid x)
                (peek_new k s pcs w1) _ (peek_new-keeps s pcs w1 x ∙ h) (λ bps w2 h2. h2))
  ]

  pub peek_new-gives :
      (s : Server) (pcs : List ℕ) (m : ℕ → ℕ) (w w' : W) (bps : List Breakpoint)
      → s.arch.breakpoint_size ≤ max_breakpoint_size
      → mem w s.stopped_pid ≡ m
      → peek_new k s pcs w ≡ (w', ok bps)
      → All (λ (bp : Breakpoint). SavedAt m s.arch.breakpoint_size bp.pc bp) bps
        × ((pc : ℕ)
            → Memᴰ pc pcs
            → HasEntry pc s.breakpoints ⊎ ((bp : Breakpoint) × Memᴰ bp bps × (bp.pc ≡ pc)))
  unfolding peek_new
  peek_new-gives s [] m w w' bps fits same run =
      let nothing : ◌≡◌ {A = W × Result (List Breakpoint)} (w, ok []) (w', ok bps) = run in
      let result : ok [] ≡ ok bps = ap (λ r. r.1) nothing in
      let empty : [] ≡ bps = cc in
      (
        subst (All (λ (bp : Breakpoint). SavedAt m s.arch.breakpoint_size bp.pc bp)) empty tt,
        λ pc among. absurd (elim among [ ]),
      )
  peek_new-gives s (pc ∷ pcs) m w w' bps fits same run =
      elim (Option-cases (map_get pc s.breakpoints)) [
        | inr (bp, old) ↦
            let (saved, present) =
              peek_new-gives s pcs m w w' bps fits same
                (sym (peek_new-known s pc pcs w bp old) ∙ run) in
            (
              saved,
              λ pc' among. elim (Memᴰ.cases_cons among) [
                | inl here ↦ inl (bp, ap (λ y. map_get y s.breakpoints) here ∙ old)
                | inr later ↦ present pc' later
              ],
            )
        | inl new ↦
            let (w1, bp, one, others) =
              bind-ok (peek_one k s pc w) _ (sym (peek_new-new s pc pcs w new) ∙ run) in
            let (w2, rest, more, given) = bind-ok (peek_new k s pcs w1) _ others in
            let (saved_bp, at) = peek_one-gives s pc w w1 bp fits one in
            let kept : mem w1 s.stopped_pid ≡ m =
              fun_ext (λ x.
                ap (λ (r : W × Result Breakpoint). mem r.0 s.stopped_pid x) (sym one)
                ∙ peek_one-keeps s pc w x)
              ∙ same in
            let (saved, present) = peek_new-gives s pcs m w1 w2 rest fits kept more in
            let result : ok (bp ∷ rest) ≡ ok bps = ap (λ r. r.1) given in
            let whole : bp ∷ rest ≡ bps = cc in
            (
              subst (All (λ (bp : Breakpoint). SavedAt m s.arch.breakpoint_size bp.pc bp)) whole (
                subst (λ a. SavedAt m s.arch.breakpoint_size a bp) (sym at)
                    (subst (λ f. SavedAt f s.arch.breakpoint_size pc bp) same saved_bp),
                saved,
              ),
              λ pc' among. elim (Memᴰ.cases_cons among) [
                | inl here ↦ inr (bp, subst (Memᴰ bp) whole (Memᴰ.head refl), at ∙ sym here)
                | inr later ↦ elim (present pc' later) [
                  | inl old ↦ inl old
                  | inr (bp', among', at') ↦
                      inr (bp', subst (Memᴰ bp') whole (Memᴰ.tail among'), at')
                ]
              ],
            )
      ]
