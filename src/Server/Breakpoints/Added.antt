-- ===== src/Server/Breakpoints/Added.antt =====
-- server/server.go: addBreakpoints and DeleteBreakpoints keep what the saved instructions are.
use mathlib.Core.Path.{subst}
use debug.Common.{
  ◌==◌, Bool-cases, All, ℕ, ◌≡◌, refl, sym, ap, ◌∙◌, ◌≢◌, ◌⊎◌, inl, inr, none, List, [], ◌∷◌, arith,
}
use mathlib.Core.List.{Memᴰ}
use mathlib.Core.List.Memᴰ
use debug.Common.Result.{Result, ok, err, panic, stuck}
use debug.Common.Effect.{◌>=>◌}
use debug.Common.Maps.{
  map_get, map_delete, map_insert, map_get-map_delete, map_get-map_insert, Memᴰ-map_delete,
}
use debug.Server.Kernel.{Kernel}
use debug.Server.Breakpoints.Pokes.{IsMemory}
use debug.Server.Breakpoints.Peeks.{SavedAt, HasEntry, peek_new-keeps, peek_new-gives}
use debug.Server.Breakpoints.Saved.{IsSaved}
use debug.Server.Breakpoints.{
  Breakpoint, Server, insert_all, peek_new, add_breakpoints, delete_all, handle_delete_breakpoints,
}

insert_all-HasEntry :
    (bps : List Breakpoint) (m : List (ℕ × Breakpoint)) (pc : ℕ)
    → HasEntry pc m ⊎ ((bp : Breakpoint) × Memᴰ bp bps × (bp.pc ≡ pc))
    → HasEntry pc (insert_all bps m)
insert_all-HasEntry [] m pc (inl h) = h
insert_all-HasEntry [] m pc (inr (bp, among, e)) = absurd (elim among [ ])
insert_all-HasEntry (b ∷ bps) m pc h =
    insert_all-HasEntry bps (map_insert b.pc b m) pc (elim (Bool-cases (b.pc == pc)) [
      | inl same ↦ inl (b, map_get-map_insert pc b.pc b m ∙ rw same refl)
      | inr other ↦ elim h [
        | inl (bp, e) ↦ inl (bp, map_get-map_insert pc b.pc b m ∙ rw other e)
        | inr (bp, among, e) ↦ elim (Memᴰ.cases_cons among) [
          | inl here ↦ absurd (ground (arith, ap (λ (y : Breakpoint). y.pc) here, e, other))
          | inr later ↦ inr (bp, later, e)
        ]
      ]
    ])

insert_all-SavedAt :
    (f : ℕ → ℕ) (n : ℕ) (bps : List Breakpoint) (m : List (ℕ × Breakpoint))
    → All (λ (bp : Breakpoint). SavedAt f n bp.pc bp) bps
    → ((e : ℕ × Breakpoint) → Memᴰ e m → SavedAt f n e.0 e.1)
    → (e : ℕ × Breakpoint) → Memᴰ e (insert_all bps m)
    → SavedAt f n e.0 e.1
insert_all-SavedAt f n [] m h old = old
insert_all-SavedAt f n (b ∷ bps) m h old =
    insert_all-SavedAt f n bps (map_insert b.pc b m) h.1 (λ e among. elim (Memᴰ.cases_cons among) [
      | inl here ↦ subst (λ (y : ℕ × Breakpoint). SavedAt f n y.0 y.1) (sym here) h.0
      | inr later ↦ old e (Memᴰ-map_delete b.pc e m later)
    ])

-- What a call of addBreakpoints from `s` and `w` comes to: memory is as it was. On success the call
-- gives back the addresses, each of them has an entry, and so has each that had one; otherwise the
-- server is as it was. Either way each entry has the instruction that stands at its address.
abbrev pub IsAdded :
    {W : Type 0} → (W → ℕ → ℕ → ℕ) → Server → List ℕ → W → (Server × W) × Result (List ℕ) → Type 0
IsAdded mem s pcs w r =
    ((x : ℕ) → mem r.0.1 s.stopped_pid x ≡ mem w s.stopped_pid x)
    × (IsSaved (mem w s.stopped_pid) r.0.0
        × (((r.1 ≡ ok pcs)
              × ((pc : ℕ)
                  → Memᴰ pc pcs ⊎ HasEntry pc s.breakpoints
                  → HasEntry pc r.0.0.breakpoints))
            ⊎ ((r.1 ≢ ok pcs) × (r.0.0 ≡ s))))

insert_all-IsSaved :
    (m : ℕ → ℕ) (s : Server) (bps : List Breakpoint)
    → IsSaved m s
    → All (λ (bp : Breakpoint). SavedAt m s.arch.breakpoint_size bp.pc bp) bps
    → IsSaved m (record s { breakpoints = insert_all bps s.breakpoints })
insert_all-IsSaved m s bps saved new =
    let all =
      insert_all-SavedAt m s.arch.breakpoint_size bps s.breakpoints new
        (λ e among. (saved.long e among, saved.same e among)) in
    record {
      fits = saved.fits;
      long = λ e among. (all e among).0;
      same = λ e among. (all e among).1;
    }

module _ {W : Type 0} (k : Kernel W) (mem : W → ℕ → ℕ → ℕ) (memory : IsMemory k mem) where
  peek_new-IsAdded :
      (s : Server) (pcs : List ℕ) (w w' : W) (r : Result (List Breakpoint))
      → IsSaved (mem w s.stopped_pid) s
      → peek_new k s pcs w ≡ (w', r)
      → IsAdded mem s pcs w (
          ((s, w'), r) >=> λ bps sw.
          ((record sw.0 { breakpoints = insert_all bps sw.0.breakpoints }, sw.1), ok pcs))
  peek_new-IsAdded s pcs w w' r saved run =
      let keeps : (x : ℕ) → mem w' s.stopped_pid x ≡ mem w s.stopped_pid x = λ x.
        ap (λ (y : W × Result (List Breakpoint)). mem y.0 s.stopped_pid x) (sym run)
        ∙ peek_new-keeps k mem memory s pcs w x in
      elim r
          as (λ r.
            peek_new k s pcs w ≡ (w', r)
            → IsAdded mem s pcs w (
                ((s, w'), r) >=> λ bps sw.
                ((record sw.0 { breakpoints = insert_all bps sw.0.breakpoints }, sw.1), ok pcs))) [
                  | ok bps ↦ λ run'.
                      let (new, present) =
                        peek_new-gives k mem memory s pcs (mem w s.stopped_pid) w w' bps saved.fits
                          refl run' in
                      (
                        keeps,
                        (
                          insert_all-IsSaved (mem w s.stopped_pid) s bps saved new,
                          inl (
                            refl,
                            λ pc asked.
                                insert_all-HasEntry bps s.breakpoints pc
                                  (elim asked [ inl among ↦ present pc among | inr old ↦ inl old ]),
                          ),
                        ),
                      )
                  | err e ↦ λ run'. (keeps, (saved, inr (λ eq. ground (arith, eq), refl)))
                  | panic ↦ λ run'. (keeps, (saved, inr (λ eq. ground (arith, eq), refl)))
                  | stuck ↦ λ run'. (keeps, (saved, inr (λ eq. ground (arith, eq), refl)))
                ]
        run

  -- addBreakpoints leaves memory as it is. Where it succeeds, it gives back the addresses it was
  -- given, every one of them has an entry, and so has every address that had one; otherwise the
  -- server is as it was. Either way each entry has the instruction that stands at its address, if
  -- that was so before.
  pub add_breakpoints-IsAdded :
      (s : Server) (pcs : List ℕ) (w : W)
      → IsSaved (mem w s.stopped_pid) s
      → IsAdded mem s pcs w (add_breakpoints k pcs (s, w))
  unfolding add_breakpoints
  add_breakpoints-IsAdded s pcs w saved = peek_new-IsAdded s pcs w _ _ saved refl

delete_all-Memᴰ :
    (pcs : List ℕ) (m : List (ℕ × Breakpoint)) (e : ℕ × Breakpoint)
    → Memᴰ e (delete_all pcs m)
    → Memᴰ e m
delete_all-Memᴰ [] m e h = h
delete_all-Memᴰ (pc ∷ pcs) m e h =
    Memᴰ-map_delete pc e m (delete_all-Memᴰ pcs (map_delete pc m) e h)

delete_all-gone :
    (pcs : List ℕ) (m : List (ℕ × Breakpoint)) (pc : ℕ)
    → (map_get pc m ≡ none) ⊎ Memᴰ pc pcs
    → map_get pc (delete_all pcs m) ≡ none
delete_all-gone [] m pc (inl h) = h
delete_all-gone [] m pc (inr h) = absurd (elim h [ ])
delete_all-gone (p ∷ pcs) m pc h =
    delete_all-gone pcs (map_delete p m) pc (elim (Bool-cases (p == pc)) [
      | inl same ↦ inl (map_get-map_delete pc p m ∙ rw same refl)
      | inr other ↦ elim h [
        | inl gone ↦ inl (map_get-map_delete pc p m ∙ rw other gone)
        | inr among ↦ elim (Memᴰ.cases_cons among) [
          | inl here ↦ absurd (ground (arith, here, other))
          | inr later ↦ inr later
        ]
      ]
    ])

delete_all-kept :
    (pcs : List ℕ) (m : List (ℕ × Breakpoint)) (pc : ℕ)
    → ¬ Memᴰ pc pcs
    → map_get pc (delete_all pcs m) ≡ map_get pc m
delete_all-kept [] m pc h = refl
delete_all-kept (p ∷ pcs) m pc h =
    delete_all-kept pcs (map_delete p m) pc (λ later. h (Memᴰ.tail later))
    ∙ map_get-map_delete pc p m
    ∙ elim (Bool-cases (p == pc)) [
      | inl same ↦ absurd (h (Memᴰ.head (ground (arith, same))))
      | inr other ↦ rw other refl
    ]

-- DeleteBreakpoints leaves no entry for the addresses it is given, and the entries of all the others;
-- each entry still has the instruction that stands at its address, if that was so before.
pub handle_delete_breakpoints-IsSaved :
    (m : ℕ → ℕ) (s : Server) (pcs : List ℕ)
    → IsSaved m s
    → IsSaved m (handle_delete_breakpoints pcs s)
      × ((pc : ℕ)
          → (Memᴰ pc pcs → map_get pc (handle_delete_breakpoints pcs s).breakpoints ≡ none)
            × (¬ Memᴰ pc pcs
                → map_get pc (handle_delete_breakpoints pcs s).breakpoints
                  ≡ map_get pc s.breakpoints))
unfolding handle_delete_breakpoints
handle_delete_breakpoints-IsSaved m s pcs saved = (
  record {
    fits = saved.fits;
    long = λ e among. saved.long e (delete_all-Memᴰ pcs s.breakpoints e among);
    same = λ e among. saved.same e (delete_all-Memᴰ pcs s.breakpoints e among);
  },
  λ pc. (
    λ among. delete_all-gone pcs s.breakpoints pc (inr among),
    λ out. delete_all-kept pcs s.breakpoints pc out,
  ),
)
