-- ===== src/Operator/Stages.antt =====
-- Chains of stages, read backwards.
use cnwan_operator.Common.{ℕ, String, ◌≡◌, ◌⊎◌, refl, inl, inr}
use cnwan_operator.Common.Result.{Result, ok, err}
use cnwan_operator.Common.Outcome.{Outcome, returns, panics}
use cnwan_operator.Operator.{Stage, halts, crashes, passes, ◌>>=◌, or_halt, or_crash}

module _ {ℓ κ} {A : Type ℓ} {B : Type κ} where
  pub bind-passes :
      (m : Stage A) (rest : A → Stage B) (b : B)
      → (m >>= rest) ≡ passes b
      → (a : A) × (m ≡ passes a) × (rest a ≡ passes b)
  bind-passes (halts code e) rest b h = cc h
  bind-passes crashes rest b h = cc h
  bind-passes (passes a) rest b h = (a, refl, h)

  pub bind-halts :
      (m : Stage A) (rest : A → Stage B) (code : ℕ) (e : String)
      → (m >>= rest) ≡ halts code e
      → (m ≡ halts code e) ⊎ ((a : A) × (m ≡ passes a) × (rest a ≡ halts code e))
  bind-halts (halts code' e') rest code e h = inl (cc h)
  bind-halts crashes rest code e h = cc h
  bind-halts (passes a) rest code e h = inr (a, refl, h)

  pub bind-crashes :
      (m : Stage A) (rest : A → Stage B)
      → (m >>= rest) ≡ crashes
      → (m ≡ crashes) ⊎ ((a : A) × (m ≡ passes a) × (rest a ≡ crashes))
  bind-crashes (halts code e) rest h = cc h
  bind-crashes crashes rest h = inl refl
  bind-crashes (passes a) rest h = inr (a, refl, h)

module _ {A : Type 0} where
  pub or_halt-passes : (c : ℕ) (r : Result A) (a : A) → or_halt c r ≡ passes a → r ≡ ok a
  or_halt-passes c (ok b) a h = cc h
  or_halt-passes c (err e) a h = cc h

  pub or_halt-halts :
      (c : ℕ) (r : Result A) (code : ℕ) (e : String)
      → or_halt c r ≡ halts code e
      → (c ≡ code) × (r ≡ err e)
  or_halt-halts c (ok a) code e h = cc h
  or_halt-halts c (err e') code e h = (cc h, cc h)

  pub or_halt_ne_crashes : (c : ℕ) (r : Result A) → ¬ (or_halt c r ≡ crashes)
  or_halt_ne_crashes c (ok a) h = cc h
  or_halt_ne_crashes c (err e) h = cc h

  pub or_crash-passes : (o : Outcome A) (a : A) → or_crash o ≡ passes a → o ≡ returns a
  or_crash-passes (returns b) a h = cc h
  or_crash-passes panics a h = cc h

  pub or_crash-crashes : (o : Outcome A) → or_crash o ≡ crashes → o ≡ panics
  or_crash-crashes (returns b) h = cc h
  or_crash-crashes panics h = refl

  pub or_crash_ne_halts : (o : Outcome A) (code : ℕ) (e : String) → ¬ (or_crash o ≡ halts code e)
  or_crash_ne_halts (returns b) code e h = cc h
  or_crash_ne_halts panics code e h = cc h
