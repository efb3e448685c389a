-- ===== src/Prelude/Faults.antt =====
-- Code that may stop its process: `log.Fatalf` or a Go run-time panic.
use mathlib.Core.Path.{◌≡◌, refl, subst}
use mathlib.Core.Logic.{◌⊎◌, inl, inr}

pub data Outcome {ℓ} (A : Type ℓ) : Type ℓ where
  ok : A → Outcome A
  fatal : Outcome A

infixl 5 ◌>>=◌
abbrev pub ◌>>=◌ {ℓ κ} : {A : Type ℓ} {B : Type κ} → Outcome A → (A → Outcome B) → Outcome B
ok a >>= f = f a
fatal >>= f = fatal

pub Outcome-cases {ℓ} : {A : Type ℓ} (o : Outcome A) → (o ≡ fatal) ⊎ ((a : A) × (o ≡ ok a))
Outcome-cases fatal = inl refl
Outcome-cases (ok a) = inr (a, refl)

-- What holds of the result, if there is one.
abbrev pub OnOk {ℓ κ} : {A : Type ℓ} → Outcome A → (A → Type κ) → Type κ
OnOk (ok a) P = P a
OnOk fatal P = Unit

pub OnOk-bind {ℓ κ ι} :
    {A : Type ℓ} {B : Type ι} (P : A → Type κ) (Q : B → Type κ) (m : Outcome A) (f : A → Outcome B)
    → OnOk m P
    → ((a : A) → P a → OnOk (f a) Q)
    → OnOk (m >>= f) Q
OnOk-bind P Q (ok a) f h k = k a h
OnOk-bind P Q fatal f h k = tt

pub OnOk-mono {ℓ κ} :
    {A : Type ℓ} (P Q : A → Type κ) (m : Outcome A) → OnOk m P → ((a : A) → P a → Q a) → OnOk m Q
OnOk-mono P Q (ok a) h k = k a h
OnOk-mono P Q fatal h k = tt

pub OnOk-eq {ℓ κ} :
    {A : Type ℓ} (P : A → Type κ) (m : Outcome A) (a : A) → OnOk m P → m ≡ ok a → P a
OnOk-eq P m a h e = subst (λ o. OnOk o P) e h
