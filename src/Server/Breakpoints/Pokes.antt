-- ===== src/Server/Breakpoints/Pokes.antt =====
-- server/server.go: what the loop of setBreakpoints and liftBreakpoints leaves in memory, whatever
-- order it meets the breakpoints in.
use mathlib.Core.Path.{subst}
use debug.Common.{
  ltb, leb, ◌==◌, if◌then◌else◌, Bool-cases, length, get_or, Bytes, ℕ, zero, suc, ◌+◌, ◌-◌, ◌≤◌,
  ◌<◌, ◌≡◌, refl, sym, ap, ◌∙◌, ◌⊎◌, inl, inr, ◌&&◌, List, [], ◌∷◌, String, arith,
}
use mathlib.Core.List.{Memᴰ}
use mathlib.Core.List.Memᴰ
use debug.Common.Result.{Error, Result, ok, err, panic, stuck}
use debug.Common.Effect.{bind-ok}
use debug.Server.Kernel.{Kernel, ptrace_poke}
use debug.Server.Breakpoints.{Breakpoint, described, poke_each}

-- The n bytes from an address on.
abbrev pub bytes_at : (ℕ → ℕ) → ℕ → ℕ → Bytes
bytes_at m a zero = []
bytes_at m a (suc n) = m a ∷ bytes_at m (suc a) n

-- Memory with some bytes written over it.
abbrev pub written : (ℕ → ℕ) → ℕ → Bytes → ℕ → ℕ
written m a bs x = if leb a x && ltb x (a + length bs) then get_or bs (x - a) 0 else m x

-- What ptrace documents of a process's memory: a peek changes nothing and gives the bytes that are
-- there; a poke that writes all its bytes leaves them there, and nothing else is changed.
pub record IsMemory {W : Type 0} (k : Kernel W) (mem : W → ℕ → ℕ → ℕ) : Type 0 where
  pub peek_keeps :
      (pid a n : ℕ) (w : W) (x : ℕ) → mem (k.ptrace_peek_text pid a n w).0 pid x ≡ mem w pid x
  pub peek_gives :
      (pid a n : ℕ) (w w' : W) (out : Bytes)
      → k.ptrace_peek_text pid a n w ≡ (w', ok (n, out))
      → out ≡ bytes_at (mem w pid) a n
  pub poke_writes :
      (pid a : ℕ) (bs : Bytes) (w w' : W) (x : ℕ)
      → k.ptrace_poke_text pid a bs w ≡ (w', ok (length bs))
      → mem w' pid x ≡ written (mem w pid) a bs x

-- `content` gives the byte v for address x at this entry.
abbrev pub Says : (Breakpoint → Result Bytes) → ℕ × Breakpoint → ℕ → ℕ → Type 0
Says content e x v =
    (bs : Bytes) × (content e.1 ≡ ok bs)
    × (e.0 ≤ x)
    × (x < e.0 + length bs)
    × (get_or bs (x - e.0) 0 ≡ v)

pub described-ok :
    {S : Type 0} {A : Type 0} (format : String) (r : S × Result A) {s : S} {a : A}
    → described format r ≡ (s, ok a)
    → r ≡ (s, ok a)
described-ok format (s, ok a) h = h
described-ok format (s, err e) h = absurd (ground (arith, h))
described-ok format (s, panic) h = absurd (ground (arith, h))
described-ok format (s, stuck) h = absurd (ground (arith, h))

poked :
    {W : Type 0} (n len : ℕ) (w1 w' : W) (e : Error) (u : Unit {0})
    → ◌≡◌ {A = W × Result (Unit {0})} (if n == len then (w1, ok tt) else (w1, err e)) (w', ok u)
    → (n ≡ len) × (w1 ≡ w')
poked n len w1 w' e u h = elim (Bool-cases (n == len)) [
  | inl same ↦ ground (arith, h)
  | inr other ↦ absurd (ground (arith, h))
]

module _ {W : Type 0} (k : Kernel W) (mem : W → ℕ → ℕ → ℕ) (memory : IsMemory k mem) where
  ptrace_poke-written :
      (pid a : ℕ) (bs : Bytes) (w w' : W) (u : Unit {0}) (x : ℕ)
      → ptrace_poke k pid a bs w ≡ (w', ok u)
      → mem w' pid x ≡ written (mem w pid) a bs x
  unfolding ptrace_poke
  ptrace_poke-written pid a bs w w' u x h =
      let (w1, n, p, q) = bind-ok (k.ptrace_poke_text pid a bs w) _ h in
      let (same, left) = poked n (length bs) w1 w' _ u q in memory.poke_writes pid a bs w w' x (cc)

  -- One entry's bytes are written: at an address that it holds it decides, elsewhere nothing is new.
  written-Says :
      (content : Breakpoint → Result Bytes) (e : ℕ × Breakpoint) (bs : Bytes) (m : ℕ → ℕ) (x v : ℕ)
      → content e.1 ≡ ok bs
      → ((v' : ℕ) → Says content e x v' → v' ≡ v)
      → (m x ≡ v) ⊎ Says content e x v
      → written m e.0 bs x ≡ v
  written-Says content e bs m x v given agree start =
      elim (Bool-cases (leb e.0 x && ltb x (e.0 + length bs))) [
        | inl inside ↦
            let said : get_or bs (x - e.0) 0 ≡ v =
              agree (get_or bs (x - e.0) 0) (bs, given, ground arith, ground arith, refl) in
            rw inside said
        | inr outside ↦ rw outside (elim start [
          | inl before ↦ before
          | inr (bs', given', low, high, at) ↦
              let same : ok bs ≡ ok bs' = sym given ∙ given' in
              absurd (ground (arith, same, low, high, outside))
        ])
      ]

  pub poke_each-Says :
      (format : String) (content : Breakpoint → Result Bytes) (pid : ℕ) (es : List (ℕ × Breakpoint))
      (w w' : W) (u : Unit {0}) (x v : ℕ)
      → poke_each k format content pid es w ≡ (w', ok u)
      → ((e : ℕ × Breakpoint) (v' : ℕ) → Memᴰ e es → Says content e x v' → v' ≡ v)
      → (mem w pid x ≡ v) ⊎ ((e : ℕ × Breakpoint) × Memᴰ e es × Says content e x v)
      → mem w' pid x ≡ v
  unfolding poke_each
  poke_each-Says format content pid [] w w' u x v run agree (inl before) =
      let same : ◌≡◌ {A = W × Result (Unit {0})} (w, ok tt) (w', ok u) = run in
      ground (arith, same, before)
  poke_each-Says format content pid [] w w' u x v run agree (inr (e, among, says)) =
      absurd (elim among [ ])
  poke_each-Says format content pid (e ∷ es) w w' u x v run agree start =
      let (w1, bs, given, rest) = bind-ok (w, content e.1) _ run in
      let (w2, u1, poke, others) =
        bind-ok (described format (ptrace_poke k pid e.0 bs w1)) _ rest in
      let same_world : ◌≡◌ {A = W × Result Bytes} (w, content e.1) (w1, ok bs) = given in
      let content_of : content e.1 ≡ ok bs = ap (λ p. p.1) same_world in
      let unmoved : w ≡ w1 = ap (λ p. p.0) same_world in
      let left : mem w2 pid x ≡ written (mem w1 pid) e.0 bs x =
        ptrace_poke-written pid e.0 bs w1 w2 u1 x (described-ok format _ poke) in
      let agree_e : (v' : ℕ) → Says content e x v' → v' ≡ v = λ v'. agree e v' (Memᴰ.head refl) in
      let agree_es : (e' : ℕ × Breakpoint) (v' : ℕ) → Memᴰ e' es → Says content e' x v' → v' ≡ v =
        λ e' v' m. agree e' v' (Memᴰ.tail m) in
      let now : (mem w1 pid x ≡ v) ⊎ Says content e x v → mem w2 pid x ≡ v =
        λ s. left ∙ written-Says content e bs (mem w1 pid) x v content_of agree_e s in
      poke_each-Says format content pid es w2 w' u x v others agree_es (elim start [
        | inl before ↦ inl (now (inl (ap (λ y. mem y pid x) (sym unmoved) ∙ before)))
        | inr (e', among, says) ↦ elim (Memᴰ.cases_cons among) [
          | inl here ↦ inl (now (inr (subst (λ y. Says content y x v) here says)))
          | inr later ↦ inr (e', later, says)
        ]
      ])
