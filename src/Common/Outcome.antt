-- ===== src/Common/Outcome.antt =====
-- What a call comes to that may follow a pointer that is nil.
use cnwan_operator.Common.Result.{Result, ok, err, ◌>>=◌}
use mathlib.Core.Path.{◌≡◌, refl}

pub data Outcome {ℓ} (A : Type ℓ) : Type ℓ where
  returns : A → Outcome A
  panics : Outcome A

-- The rest of a function that ends well, after a call that may fail or panic.
abbrev pub after {ℓ κ} :
    {A : Type ℓ} {B : Type κ} → Outcome (Result A) → (A → B) → Outcome (Result B)
after panics f = panics
after (returns r) f = returns (r >>= λ a. ok (f a))

pub after-eq-ok {ℓ κ} :
    {A : Type ℓ} {B : Type κ} (o : Outcome (Result A)) (f : A → B) {y : B}
    → after o f ≡ returns (ok y)
    → (x : A) × (o ≡ returns (ok x)) × (f x ≡ y)
after-eq-ok panics f h = cc h
after-eq-ok (returns (err e)) f h = cc h
after-eq-ok (returns (ok x)) f h = (x, refl, cc h)

pub after-panics {ℓ κ} :
    {A : Type ℓ} {B : Type κ} (o : Outcome (Result A)) (f : A → B) → after o f ≡ panics → o ≡ panics
after-panics panics f h = refl
after-panics (returns r) f h = cc h
