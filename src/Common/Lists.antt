-- ===== src/Common/Lists.antt =====
-- Lists: length over the native numbers, membership and a predicate on all items by recursion.
use Prim.Native.Nat.{ℕ, suc, ◌+◌}
use mathlib.Core.Path.{◌≡◌, refl}
use mathlib.Core.Logic.{◌⊎◌, inl, inr}
use mathlib.Core.Bool.{Bool, true, false}
use mathlib.Core.List.{List, [], ◌∷◌, ◌++◌, map}
use native.Mathlib.Omega.{arith}

module _ {ℓ} {A : Type ℓ} where
  abbrev pub length : List A → ℕ
  length [] = 0
  length (x ∷ xs) = suc (length xs)

  -- `len(xs) == 0`.
  abbrev pub is_empty : List A → Bool
  is_empty [] = true
  is_empty (x ∷ xs) = false

  pub length-append : (xs ys : List A) → length (xs ++ ys) ≡ length xs + length ys
  length-append [] ys = omega arith
  length-append (x ∷ xs) ys = omega (arith, length-append xs ys)

module _ {A : Type 0} where
  abbrev pub Elem : A → List A → Type 0
  Elem a [] = ⊥
  Elem a (x ∷ xs) = (a ≡ x) ⊎ Elem a xs

  pub Elem-append_left : (a : A) (xs ys : List A) → Elem a xs → Elem a (xs ++ ys)
  Elem-append_left a [] ys h = absurd h
  Elem-append_left a (x ∷ xs) ys (inl e) = inl e
  Elem-append_left a (x ∷ xs) ys (inr h) = inr (Elem-append_left a xs ys h)

  pub Elem-append_right : (a : A) (xs ys : List A) → Elem a ys → Elem a (xs ++ ys)
  Elem-append_right a [] ys h = h
  Elem-append_right a (x ∷ xs) ys h = inr (Elem-append_right a xs ys h)

  pub Elem-append : (a : A) (xs ys : List A) → Elem a (xs ++ ys) → Elem a xs ⊎ Elem a ys
  Elem-append a [] ys h = inr h
  Elem-append a (x ∷ xs) ys (inl e) = inl (inl e)
  Elem-append a (x ∷ xs) ys (inr h) = elim (Elem-append a xs ys h) [
    | inl l ↦ inl (inr l)
    | inr r ↦ inr r
  ]

module _ {A B : Type 0} where
  pub Elem-map : (f : A → B) (a : A) (xs : List A) → Elem a xs → Elem (f a) (map f xs)
  Elem-map f a [] h = absurd h
  Elem-map f a (x ∷ xs) (inl e) = inl (λ i. f (e i))
  Elem-map f a (x ∷ xs) (inr h) = inr (Elem-map f a xs h)

  pub of_Elem-map :
      (f : A → B) (b : B) (xs : List A) → Elem b (map f xs) → (a : A) × Elem a xs × (b ≡ f a)
  of_Elem-map f b [] h = absurd h
  of_Elem-map f b (x ∷ xs) (inl e) = (x, inl refl, e)
  of_Elem-map f b (x ∷ xs) (inr h) = let (a, m, e) = of_Elem-map f b xs h in (a, inr m, e)

module _ {κ} {A : Type 0} (P : A → Type κ) where
  abbrev pub All : List A → Type κ
  All [] = Unit
  All (x ∷ xs) = P x × All xs

  pub All-append : (xs ys : List A) → All xs → All ys → All (xs ++ ys)
  All-append [] ys _ k = k
  All-append (x ∷ xs) ys (p, h) k = (p, All-append xs ys h k)

  pub of_All-Elem : (xs : List A) (a : A) → All xs → Elem a xs → P a
  of_All-Elem [] a h m = absurd m
  of_All-Elem (x ∷ xs) a (p, h) (inl e) = rw e p
  of_All-Elem (x ∷ xs) a (p, h) (inr m) = of_All-Elem xs a h m

  pub All-of_Elem : (xs : List A) → ((a : A) → Elem a xs → P a) → All xs
  All-of_Elem [] f = tt
  All-of_Elem (x ∷ xs) f = (f x (inl refl), All-of_Elem xs (λ a m. f a (inr m)))
