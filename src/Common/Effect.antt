-- ===== src/Common/Effect.antt =====
-- A call that changes a state: the state comes back whatever the call's result is, since what was
-- written stays written.
use mathlib.Core.Path.{◌≡◌, refl}
use native.Mathlib.Omega.{arith}
use debug.Common.Result.{Result, ok, err, panic, stuck}

abbrev pub Effect {ℓ κ} : Type ℓ → Type κ → Type (ℓ ⊔ κ)
Effect S A = S → S × Result A

infixl 5 ◌>=>◌
-- The second call, on what the first one gives and leaves.
abbrev pub ◌>=>◌ {ℓ κ μ} :
    {S : Type ℓ} {A : Type κ} {B : Type μ} → S × Result A → (A → Effect S B) → S × Result B
(s, ok a) >=> f = f a s
(s, err e) >=> f = (s, err e)
(s, panic) >=> f = (s, panic)
(s, stuck) >=> f = (s, stuck)

-- A result of both calls comes from a result of the first.
pub bind-ok {ℓ κ μ} :
    {S : Type ℓ} {A : Type κ} {B : Type μ} (r : S × Result A) (f : A → Effect S B) {s' : S} {b : B}
    → (r >=> f) ≡ (s', ok b)
    → (s : S) × (a : A) × (r ≡ (s, ok a)) × (f a s ≡ (s', ok b))
bind-ok (s, ok a) f h = (s, a, refl, h)
bind-ok (s, err e) f h = absurd (ground (arith, h))
bind-ok (s, panic) f h = absurd (ground (arith, h))
bind-ok (s, stuck) f h = absurd (ground (arith, h))

-- What holds of the state before holds after, where both calls keep it.
pub bind-keeps {ℓ κ μ ν} :
    {S : Type ℓ} {A : Type κ} {B : Type μ} (P : S → Type ν) (r : S × Result A) (f : A → Effect S B)
    → P r.0
    → ((a : A) (s : S) → P s → P (f a s).0)
    → P (r >=> f).0
bind-keeps P (s, ok a) f h keep = keep a s h
bind-keeps P (s, err e) f h keep = h
bind-keeps P (s, panic) f h keep = h
bind-keeps P (s, stuck) f h keep = h
