-- ===== src/Server/Frames/Chain.antt =====
-- server/server.go: how the frames that walkStack gives hang together.
use debug.Common.{
  ◌==◌, if◌then◌else◌, u64, ℕ, zero, suc, ◌+◌, ◌≡◌, refl, Bool, true, false, none, List, [], ◌∷◌,
}
use debug.Common.Result.{Result, ok, err, panic, stuck, ◌>>=◌}
use debug.Dwarf.Data.{Data}
use debug.Dwarf.Reader.{Reader, seek, Outcome, failed, at_end, read, next}
use debug.Dwarf.Entry.{Entry}
use debug.Dwarf.Symbol.{entry_for_pc}
use debug.Dwarf.Line.Search.{pc_to_line}
use debug.Dwarf.Frame.{pc_to_sp_offset}
use debug.Server.Kernel.{Kernel}
use debug.Server.Breakpoints.{Server}
use debug.Server.Frames.{
  StackFrame, take_entry, entries_loop, top_of_stack, Walked, or_stop, with_frame, caller_pc, go_on,
  walk_stack,
}

-- Frames from a PC and SP on, and how many of them there may be: each one's caller has as its SP the
-- frame pointer that the frame table gives for the frame.
pub data Chain (d : Data) : ℕ → ℕ → ℕ → List StackFrame → Type 0 where
  last : {n pc sp : ℕ} → Chain d n pc sp []
  below :
      {n pc sp offset pc' : ℕ} {f : StackFrame} {fs : List StackFrame}
      → f.pc ≡ pc
      → f.sp ≡ sp
      → pc_to_sp_offset d pc ≡ ok offset
      → Chain d n pc' (u64 (sp + offset)) fs
      → Chain d (suc n) pc sp (f ∷ fs)

-- The frames that a walk gives, with an error or without.
abbrev pub OnFrames : {W : Type 0} → (List StackFrame → Type 0) → Walked W → Type 0
OnFrames P (w, ok (fs, e)) = P fs
OnFrames P (w, err e) = Unit {0}
OnFrames P (w, panic) = Unit {0}
OnFrames P (w, stuck) = Unit {0}

abbrev OnOk : {A : Type 0} → (A → Type 0) → Result A → Type 0
OnOk P (ok a) = P a
OnOk P (err e) = Unit {0}
OnOk P panic = Unit {0}
OnOk P stuck = Unit {0}

bind-OnOk :
    {A B : Type 0} (P : B → Type 0) (r : Result A) (f : A → Result B)
    → ((a : A) → OnOk P (f a))
    → OnOk P (r >>= f)
bind-OnOk P (ok a) f h = h a
bind-OnOk P (err e) f h = tt
bind-OnOk P panic f h = tt
bind-OnOk P stuck f h = tt

bind-when :
    {A B : Type 0} (P : B → Type 0) (Q : A → Type 0) (r : Result A) (f : A → Result B)
    → OnOk Q r
    → ((a : A) → Q a → OnOk P (f a))
    → OnOk P (r >>= f)
bind-when P Q (ok a) f q h = h a q
bind-when P Q (err e) f q h = tt
bind-when P Q panic f q h = tt
bind-when P Q stuck f q h = tt

abbrev Keeps : ℕ → ℕ → StackFrame → Type 0
Keeps pc sp f = (f.pc ≡ pc) × (f.sp ≡ sp)

take_entry-Keeps :
    (fp : ℕ) (e : Entry) (f : StackFrame) {pc sp : ℕ}
    → Keeps pc sp f
    → OnOk (Keeps pc sp) (take_entry fp e f)
unfolding take_entry
take_entry-Keeps fp e f {pc} {sp} h = search bind-OnOk

or_stop-OnFrames :
    {W A : Type 0} (P : List StackFrame → Type 0) (w : W) (r : Result A) (f : A → Walked W)
    → P []
    → ((a : A) → r ≡ ok a → OnFrames P (f a))
    → OnFrames P (or_stop w r f)
or_stop-OnFrames P w (ok a) f nothing h = h a refl
or_stop-OnFrames P w (err e) f nothing h = nothing
or_stop-OnFrames P w panic f nothing h = tt
or_stop-OnFrames P w stuck f nothing h = tt

with_frame-OnFrames :
    {W : Type 0} (P : List StackFrame → Type 0) (f : StackFrame) (r : Walked W)
    → OnFrames (λ fs. P (f ∷ fs)) r
    → OnFrames P (with_frame f r)
with_frame-OnFrames P f (w, ok (fs, e)) h = h
with_frame-OnFrames P f (w, err e) h = tt
with_frame-OnFrames P f (w, panic) h = tt
with_frame-OnFrames P f (w, stuck) h = tt

or_stop-when :
    {W A : Type 0} (P : List StackFrame → Type 0) (Q : A → Type 0) (w : W) (r : Result A)
    (f : A → Walked W)
    → P []
    → OnOk Q r
    → ((a : A) → Q a → OnFrames P (f a))
    → OnFrames P (or_stop w r f)
or_stop-when P Q w (ok a) f nothing q h = h a q
or_stop-when P Q w (err e) f nothing q h = nothing
or_stop-when P Q w panic f nothing q h = tt
or_stop-when P Q w stuck f nothing q h = tt

-- A walk goes on from some PC, or has an end.
go_on-OnFrames :
    {W : Type 0} (k : Kernel W) (fuel : ℕ) (d : Data) (s : Server) (P : List StackFrame → Type 0)
    (top : Bool) (w : W) (walk : ℕ → W → Walked W) (r : W × Result ℕ)
    → P []
    → ((pc : ℕ) (w' : W) → OnFrames P (walk pc w'))
    → OnFrames P (if top then (w, ok ([], none)) else go_on k fuel d s walk r)
go_on-OnFrames k fuel d s P true w walk r nothing h = nothing
go_on-OnFrames k fuel d s P false w walk (w', ok pc) nothing h = h pc w'
go_on-OnFrames k fuel d s P false w walk (w', err e) nothing h = nothing
go_on-OnFrames k fuel d s P false w walk (w', panic) nothing h = tt
go_on-OnFrames k fuel d s P false w walk (w', stuck) nothing h = tt

OnFrames-map :
    {W : Type 0} {P Q : List StackFrame → Type 0} (r : Walked W)
    → ((fs : List StackFrame) → P fs → Q fs)
    → OnFrames P r
    → OnFrames Q r
OnFrames-map (w, ok (fs, e)) f h = f fs h
OnFrames-map (w, err e) f h = tt
OnFrames-map (w, panic) f h = tt
OnFrames-map (w, stuck) f h = tt

round-OnOk :
    {A : Type 0} (P : A → Type 0) (o : Outcome) (done : Result A) (more : Entry → Result A)
    → OnOk P done
    → ((e : Entry) → OnOk P (more e))
    → OnOk P (elim o [
      | failed e ↦ err e
      | at_end ↦ panic
      | read e ↦ elim (e.tag == 0) [ true ↦ done | false ↦ more e ]
    ])
round-OnOk P (failed e) done more h g = tt
round-OnOk P at_end done more h g = tt
round-OnOk P (read e) done more h g =
    elim (e.tag == 0) as (λ b. OnOk P (elim b [ true ↦ done | false ↦ more e ])) [
      | true ↦ h
      | false ↦ g e
    ]

entries_loop-Keeps :
    (fuel : ℕ) (d : Data) (fp : ℕ) (r : Reader) (f : StackFrame) {pc sp : ℕ}
    → Keeps pc sp f
    → OnOk (λ p. Keeps pc sp p.0) (entries_loop fuel d fp r f)
unfolding entries_loop
entries_loop-Keeps zero d fp r f h = tt
entries_loop-Keeps (suc fuel) d fp r f {pc} {sp} h =
    let P : StackFrame × Reader → Type 0 = λ p. Keeps pc sp p.0 in
    bind-OnOk P (next d r) _ (λ n. round-OnOk P n.0 (ok (f, n.1)) _ h (λ e.
      bind-when P (Keeps pc sp) (take_entry fp e f) _ (take_entry-Keeps fp e f h)
        (λ f' h'. entries_loop-Keeps fuel d fp n.1 f' h')))

module _ {W : Type 0} (k : Kernel W) (fuel : ℕ) (d : Data) (s : Server) where
  -- Where a walk over the stack gives frames, with an error or without, there are at most as many as it
  -- was asked for; the first is at the given PC and SP, and the SP of the caller of each is the frame
  -- pointer of the frame, its SP with the offset of the frame table for its PC.
  pub walk_stack-Chain :
      (count : ℕ) (r : Reader) (pc sp : ℕ) (w : W)
      → OnFrames (Chain d count pc sp) (walk_stack k fuel d s count r pc sp w)
  unfolding walk_stack
  walk_stack-Chain zero r pc sp w = last
  walk_stack-Chain (suc count) r pc sp w =
      let P : List StackFrame → Type 0 = Chain d (suc count) pc sp in
      or_stop-OnFrames P w (pc_to_line d pc) _ last (λ place at_place.
        or_stop-OnFrames P w (pc_to_sp_offset d pc) _ last (λ offset at_offset.
          or_stop-OnFrames P w (entry_for_pc fuel d pc) _ last (λ found at_found.
            let fp = u64 (sp + offset) in
            let T : List StackFrame → Type 0 = λ fs. (pc' : ℕ) × Chain d count pc' fp fs in
            or_stop-when P (λ p. Keeps pc sp p.0) w
              (entries_loop fuel d fp (seek d r found.0.offset) _) _ last
              (entries_loop-Keeps fuel d fp _ _ (refl, refl))
              (λ filled kept.
                let walk : ℕ → W → Walked W =
                  λ pc' w'. walk_stack k fuel d s count filled.1 pc' fp w' in
                let top = top_of_stack s.top_of_stack_addrs found.1 in
                let rest : Walked W =
                  if top
                  then (w, ok ([], none))
                  else go_on k fuel d s walk (caller_pc k fuel d s fp w) in
                with_frame-OnFrames P filled.0 rest (
                  OnFrames-map {P = T} {Q = λ fs. P (filled.0 ∷ fs)} rest
                    (λ fs h. below {f = filled.0} kept.0 kept.1 at_offset h.1)
                    (go_on-OnFrames k fuel d s T top w walk (caller_pc k fuel d s fp w) (pc, last)
                      (λ pc' w'.
                        OnFrames-map {P = Chain d count pc' fp} {Q = T} (walk pc' w')
                          (λ fs h. (pc', h)) (walk_stack-Chain count filled.1 pc' fp w'))))))))
