-- ===== src/Server/Breakpoints/Saved.antt =====
-- server/server.go: breakpoints set and lifted again.
use mathlib.Core.Path.{subst}
use debug.Common.{
  ltb, leb, Bool-cases, length, get_or, take, Bytes, ℕ, zero, suc, ◌+◌, ◌-◌, ◌≤◌, ◌<◌, ◌≡◌, refl,
  sym, ap, ◌∙◌, ◌↔◌, ◌⊎◌, inl, inr, true, ◌&&◌, List, [], ◌∷◌, arith,
}
use mathlib.Core.List.{Memᴰ}
use mathlib.Core.List.Memᴰ
use debug.Common.Result.{Result, ok}
use debug.Server.Kernel.{Kernel}
use debug.Server.Breakpoints.Pokes.{bytes_at, IsMemory, Says, poke_each-Says}
use debug.Server.Breakpoints.{
  Breakpoint, Server, max_breakpoint_size, front, poke_each, lift_breakpoints,
}

-- A range over a map meets each of its entries, and nothing else.
abbrev pub IsRange : {W : Type 0} → (W → List (ℕ × Breakpoint) → List (ℕ × Breakpoint)) → Type 0
IsRange {W} order =
    (w : W) (m : List (ℕ × Breakpoint)) (e : ℕ × Breakpoint) → Memᴰ e (order w m) ↔ Memᴰ e m

-- The address lies in the n bytes from the entry's on.
abbrev pub Holds : ℕ → ℕ → ℕ × Breakpoint → Type 0
Holds n x e = (e.0 ≤ x) × (x < e.0 + n)

-- Each breakpoint has the instruction that stands at its address in `m`.
pub record IsSaved (m : ℕ → ℕ) (s : Server) : Type 0 where
  pub fits : s.arch.breakpoint_size ≤ max_breakpoint_size
  pub long :
      (e : ℕ × Breakpoint) → Memᴰ e s.breakpoints → length e.1.orig_instr ≡ max_breakpoint_size
  pub same :
      (e : ℕ × Breakpoint)
      → Memᴰ e s.breakpoints
      → take s.arch.breakpoint_size e.1.orig_instr ≡ bytes_at m e.0 s.arch.breakpoint_size

pub length-bytes_at : (m : ℕ → ℕ) (a n : ℕ) → length (bytes_at m a n) ≡ n
length-bytes_at m a zero = refl
length-bytes_at m a (suc n) = omega (arith, length-bytes_at m (suc a) n)

pub get_or-bytes_at : (m : ℕ → ℕ) (a n i : ℕ) → i < n → get_or (bytes_at m a n) i 0 ≡ m (a + i)
get_or-bytes_at m a zero i h = absurd (omega arith)
get_or-bytes_at m a (suc n) zero h = let e : a ≡ a + 0 = omega arith in ap m e
get_or-bytes_at m a (suc n) (suc i) h =
    let e : suc a + i ≡ a + suc i = omega arith in
    get_or-bytes_at m (suc a) n i (omega arith) ∙ ap m e

pub held_or_not :
    (n x : ℕ) (es : List (ℕ × Breakpoint))
    → ((e : ℕ × Breakpoint) × Memᴰ e es × Holds n x e)
      ⊎ ((e : ℕ × Breakpoint) → Memᴰ e es → ¬ Holds n x e)
held_or_not n x [] = inr (λ e m. absurd (elim m [ ]))
held_or_not n x (e ∷ es) = elim (Bool-cases (leb e.0 x && ltb x (e.0 + n))) [
  | inl here ↦ inl (e, Memᴰ.head refl, (ground arith, ground arith))
  | inr not_here ↦ elim (held_or_not n x es) [
    | inl (e', m, h) ↦ inl (e', Memᴰ.tail m, h)
    | inr none_of_them ↦ inr (λ e' m h. elim (Memᴰ.cases_cons m) [
      | inl same ↦ let (low, high) = subst (Holds n x) same h in ground (arith, low, high, not_here)
      | inr later ↦ none_of_them e' later h
    ])
  ]
]

-- What liftBreakpoints writes at a breakpoint.
abbrev pub original : Server → Breakpoint → Result Bytes
original s bp = front s.arch.breakpoint_size bp.orig_instr

module _ (m : ℕ → ℕ) (s : Server) (saved : IsSaved m s) (e : ℕ × Breakpoint)
    (among : Memᴰ e s.breakpoints) where
  original-saved : original s e.1 ≡ ok (bytes_at m e.0 s.arch.breakpoint_size)
  original-saved =
      let fits : leb s.arch.breakpoint_size (length e.1.orig_instr) ≡ true =
        ground (arith, saved.fits, saved.long e among) in
      rw (fits, saved.same e among) refl

  saved_byte :
      (x : ℕ)
      → Holds s.arch.breakpoint_size x e
      → get_or (bytes_at m e.0 s.arch.breakpoint_size) (x - e.0) 0 ≡ m x
  saved_byte x (low, high) =
      let back : e.0 + (x - e.0) ≡ x = omega arith in
      get_or-bytes_at m e.0 s.arch.breakpoint_size (x - e.0) (omega arith) ∙ ap m back

  pub Says-original : (x : ℕ) → Holds s.arch.breakpoint_size x e → Says (original s) e x (m x)
  Says-original x (low, high) = (
    bytes_at m e.0 s.arch.breakpoint_size,
    original-saved,
    low,
    omega (arith, length-bytes_at m e.0 s.arch.breakpoint_size, high),
    saved_byte x (low, high),
  )

  pub original-Says :
      (x v : ℕ) → Says (original s) e x v → Holds s.arch.breakpoint_size x e × (v ≡ m x)
  original-Says x v (bs, given, low, high, at) =
      let same : ok bs ≡ ok (bytes_at m e.0 s.arch.breakpoint_size) = sym given ∙ original-saved in
      let bytes : bs ≡ bytes_at m e.0 s.arch.breakpoint_size = cc in
      let held : x < e.0 + s.arch.breakpoint_size =
        omega (arith, high, ap length bytes, length-bytes_at m e.0 s.arch.breakpoint_size) in
      ((low, held), sym at ∙ ap (λ b. get_or b (x - e.0) 0) bytes ∙ saved_byte x (low, held))

pub in_second :
    {S W A : Type 0} {s s' : S} {w' : W} {a : A} (p : W × Result A)
    → ◌≡◌ {A = (S × W) × Result A} ((s, p.0), p.1) ((s', w'), ok a)
    → p ≡ (w', ok a)
in_second p h = λ i. ((h i).0.1, (h i).1)

module _ {W : Type 0} (k : Kernel W) (mem : W → ℕ → ℕ → ℕ) (memory : IsMemory k mem)
    (order : W → List (ℕ × Breakpoint) → List (ℕ × Breakpoint)) (range : IsRange order) where
  -- Whatever has happened to memory since the breakpoints were made, lifting them brings back the
  -- bytes at the breakpoints that were saved, and leaves all the others.
  pub lift_breakpoints-saved :
      (m : ℕ → ℕ) (s s' : Server) (w w' : W) (u : Unit {0})
      → IsSaved m s
      → lift_breakpoints k order (s, w) ≡ ((s', w'), ok u)
      → (x : ℕ)
      → ((e : ℕ × Breakpoint)
          → Memᴰ e s.breakpoints
          → Holds s.arch.breakpoint_size x e
          → mem w' s.stopped_pid x ≡ m x)
        × (((e : ℕ × Breakpoint) → Memᴰ e s.breakpoints → ¬ Holds s.arch.breakpoint_size x e)
            → mem w' s.stopped_pid x ≡ mem w s.stopped_pid x)
  unfolding lift_breakpoints
  lift_breakpoints-saved m s s' w w' u saved run x =
      let poked : poke_each k "liftBreakpoints: %v" (original s) s.stopped_pid
            (order w s.breakpoints) w
          ≡ (w', ok u) =
        in_second _ run in
      let among : (e : ℕ × Breakpoint) → Memᴰ e (order w s.breakpoints) → Memᴰ e s.breakpoints =
        λ e. (range w s.breakpoints e).0 in
      let all_said : (v : ℕ) → _ = λ v.
        poke_each-Says k mem memory "liftBreakpoints: %v" (original s) s.stopped_pid
          (order w s.breakpoints) w w' u x v poked in
      (
        λ e b h.
            all_said (m x) (λ e' v' b' says. (original-Says m s saved e' (among e' b') x v' says).1)
              (inr (e, (range w s.breakpoints e).1 b, Says-original m s saved e b x h)),
        λ missed.
            all_said (mem w s.stopped_pid x)
              (λ e' v' b' says.
                absurd
                  (missed e' (among e' b') (original-Says m s saved e' (among e' b') x v' says).0))
              (inl refl),
      )
