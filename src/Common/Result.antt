-- ===== src/Common/Result.antt =====
-- What a Go function that can fail or panic gives back.
use Prim.Native.Nat.{ℕ}
use mathlib.Core.Path.{◌≡◌, refl}
use mathlib.Core.Logic.{◌⊎◌, ◌≢◌, inl, inr}
use Prim.Native.String.{String}
use mathlib.Core.List.{List}

-- An error value: the format of its message, and the numbers that it prints.
pub data Error : Type 0 where
  errorf : String → List ℕ → Error
  -- DecodeError: section name, offset, and the message as above
  decode_error : String → ℕ → String → List ℕ → Error
  -- an error whose message ends in that of another one
  wrapped : String → List ℕ → Error → Error

-- `panic` is a Go run-time panic (an index or slice out of range, a division by zero, a call of
-- panic). `stuck` is no Go behaviour: a loop of the model ran out of fuel.
pub data Result {ℓ} (A : Type ℓ) : Type ℓ where
  ok : A → Result A
  err : Error → Result A
  panic : Result A
  stuck : Result A

infixl 5 ◌>>=◌
abbrev pub ◌>>=◌ {ℓ κ} : {A : Type ℓ} {B : Type κ} → Result A → (A → Result B) → Result B
ok a >>= f = f a
err e >>= f = err e
panic >>= f = panic
stuck >>= f = stuck

-- The call ends, and where it gives a value the value meets `P`; a panic needs an excuse in `T`.
abbrev pub Ensures {ℓ} : {A : Type ℓ} → Type 0 → (A → Type 0) → Result A → Type 0
Ensures T P (ok a) = P a
Ensures T P (err e) = Unit
Ensures T P panic = T
Ensures T P stuck = ⊥

-- The call answers: with a value that meets `P`, or with an error, and neither panics nor loops.
abbrev pub Answers {ℓ} : {A : Type ℓ} → (A → Type 0) → Result A → Type 0
Answers = Ensures ⊥

pub bind-Ensures {ℓ κ} :
    {A : Type ℓ} {B : Type κ} (T : Type 0) (P : A → Type 0) (Q : B → Type 0) (m : Result A)
    (f : A → Result B)
    → Ensures T P m
    → ((a : A) → P a → Ensures T Q (f a))
    → Ensures T Q (m >>= f)
bind-Ensures T P Q (ok a) f h k = k a h
bind-Ensures T P Q (err e) f h k = tt
bind-Ensures T P Q panic f h k = h
bind-Ensures T P Q stuck f h k = absurd h

pub bind-Answers {ℓ κ} :
    {A : Type ℓ} {B : Type κ} (P : A → Type 0) (Q : B → Type 0) (m : Result A) (f : A → Result B)
    → Answers P m
    → ((a : A) → P a → Answers Q (f a))
    → Answers Q (m >>= f)
bind-Answers P Q m f h k = bind-Ensures ⊥ P Q m f h k

pub Ensures-weaken {ℓ} :
    {A : Type ℓ} (T : Type 0) (P Q : A → Type 0) (r : Result A)
    → ((a : A) → P a → Q a)
    → Ensures T P r
    → Ensures T Q r
Ensures-weaken T P Q (ok a) k h = k a h
Ensures-weaken T P Q (err e) k h = tt
Ensures-weaken T P Q panic k h = h
Ensures-weaken T P Q stuck k h = h

pub Answers-cases {ℓ} :
    {A : Type ℓ} (P : A → Type 0) (r : Result A)
    → Answers P r
    → ((a : A) × (r ≡ ok a) × P a) ⊎ ((e : Error) × (r ≡ err e))
Answers-cases P (ok a) h = inl (a, refl, h)
Answers-cases P (err e) h = inr (e, refl)
Answers-cases P panic h = absurd h
Answers-cases P stuck h = absurd h

pub Answers-weaken {ℓ} :
    {A : Type ℓ} (P Q : A → Type 0) (r : Result A)
    → ((a : A) → P a → Q a)
    → Answers P r
    → Answers Q r
Answers-weaken P Q r k h = Ensures-weaken ⊥ P Q r k h

pub Ensures-ne-stuck {ℓ} :
    {A : Type ℓ} (T : Type 0) (P : A → Type 0) (r : Result A) → Ensures T P r → r ≢ stuck
Ensures-ne-stuck T P (ok a) h = λ e. cc
Ensures-ne-stuck T P (err e) h = λ e. cc
Ensures-ne-stuck T P panic h = λ e. cc
Ensures-ne-stuck T P stuck h = absurd h

-- No condition on the value.
abbrev pub Any {ℓ} : {A : Type ℓ} → A → Type 0
Any a = Unit {0}

-- The call gives a value that meets `P`, or panics: it neither loops nor gives an error.
abbrev pub Settles {ℓ} : {A : Type ℓ} → (A → Type 0) → Result A → Type 0
Settles P (ok a) = P a
Settles P (err e) = ⊥
Settles P panic = Unit
Settles P stuck = ⊥

pub bind-Settles {ℓ κ} :
    {A : Type ℓ} {B : Type κ} (P : A → Type 0) (Q : B → Type 0) (m : Result A) (f : A → Result B)
    → Settles P m
    → ((a : A) → P a → Settles Q (f a))
    → Settles Q (m >>= f)
bind-Settles P Q (ok a) f h k = k a h
bind-Settles P Q (err e) f h k = absurd h
bind-Settles P Q panic f h k = tt
bind-Settles P Q stuck f h k = absurd h

pub Settles-weaken {ℓ} :
    {A : Type ℓ} (P Q : A → Type 0) (r : Result A)
    → ((a : A) → P a → Q a)
    → Settles P r
    → Settles Q r
Settles-weaken P Q (ok a) k h = k a h
Settles-weaken P Q (err e) k h = absurd h
Settles-weaken P Q panic k h = tt
Settles-weaken P Q stuck k h = absurd h
