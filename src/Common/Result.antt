-- ===== src/Common/Result.antt =====
-- A value or an error. An error is its message, as `fmt.Errorf` builds it.
use Prim.Native.String
use Prim.Native.String.{String}
use mathlib.Core.Path.{◌≡◌, refl}
use mathlib.Core.Logic.{◌⊎◌, inl, inr}

pub data Result {ℓ} (A : Type ℓ) : Type ℓ where
  ok : A → Result A
  err : String → Result A

-- The rest of a function, after `if err != nil { return nil, err }`.
infixl 5 ◌>>=◌
abbrev pub ◌>>=◌ {ℓ κ} : {A : Type ℓ} {B : Type κ} (r : Result A) (rest : A → Result B) → Result B
err e >>= rest = err e
ok x >>= rest = rest x

-- `fmt.Errorf(prefix + "%w", err)`
abbrev pub wrap {ℓ} : {A : Type ℓ} → String → Result A → Result A
wrap prefix (ok a) = ok a
wrap prefix (err e) = err (String.◌++◌ prefix e)

abbrev pub IsOk {ℓ} : {A : Type ℓ} → Result A → Type ℓ
IsOk {A = A} r = (a : A) × (r ≡ ok a)

abbrev pub IsErr {ℓ} : {A : Type ℓ} → Result A → Type ℓ
IsErr r = (e : String) × (r ≡ err e)

pub Result-cases {ℓ} : {A : Type ℓ} (r : Result A) → IsOk r ⊎ IsErr r
Result-cases (ok a) = inl (a, refl)
Result-cases (err e) = inr (e, refl)

-- A chain that ends well ended well at each step.
pub bind-eq-ok {ℓ κ} :
    {A : Type ℓ} {B : Type κ} (r : Result A) (rest : A → Result B) {y : B}
    → (r >>= rest) ≡ ok y
    → (x : A) × (r ≡ ok x) × (rest x ≡ ok y)
bind-eq-ok (err e) rest h = cc
bind-eq-ok (ok x) rest h = (x, refl, h)
