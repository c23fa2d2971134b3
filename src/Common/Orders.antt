-- ===== src/Common/Orders.antt =====
-- The order in which a `range` visits a map that the code itself has built is a parameter: a
-- function of which only this is assumed, that it returns the items rearranged.
use mathlib.Core.Path.{◌≡◌, ◌∙◌, refl, sym, subst}
use mathlib.Core.Logic.{◌≢◌, inl, inr}
use mathlib.Core.List.{List, [], ◌∷◌, Permᴰ}
use cnwan_operator.Common.Lists.{Elem, All, All-of_Elem, of_All-Elem}

module _ {A : Type 0} where
  abbrev pub Rearranges : (List A → List A) → Type 0
  Rearranges order = (xs : List A) → Permᴰ (order xs) xs

  -- No item stands twice.
  abbrev pub IsDistinct : List A → Type 0
  IsDistinct [] = Unit
  IsDistinct (x ∷ xs) = All (λ y. x ≢ y) xs × IsDistinct xs

  pub Permᴰ-Elem : {xs ys : List A} → Permᴰ xs ys → (a : A) → Elem a xs → Elem a ys
  Permᴰ-Elem Permᴰ.nil a h = h
  Permᴰ-Elem (Permᴰ.cons e p) a (inl h) = inl (h ∙ e)
  Permᴰ-Elem (Permᴰ.cons e p) a (inr h) = inr (Permᴰ-Elem p a h)
  Permᴰ-Elem (Permᴰ.swap e f) a (inl h) = inr (inl (h ∙ e))
  Permᴰ-Elem (Permᴰ.swap e f) a (inr (inl h)) = inl (h ∙ f)
  Permᴰ-Elem (Permᴰ.swap e f) a (inr (inr h)) = inr (inr h)
  Permᴰ-Elem (Permᴰ.trans p q) a h = Permᴰ-Elem q a (Permᴰ-Elem p a h)

  pub Permᴰ_refl : (xs : List A) → Permᴰ xs xs
  Permᴰ_refl [] = Permᴰ.nil
  Permᴰ_refl (x ∷ xs) = Permᴰ.cons refl (Permᴰ_refl xs)

  pub Permᴰ_symm : {xs ys : List A} → Permᴰ xs ys → Permᴰ ys xs
  Permᴰ_symm Permᴰ.nil = Permᴰ.nil
  Permᴰ_symm (Permᴰ.cons e p) = Permᴰ.cons (sym e) (Permᴰ_symm p)
  Permᴰ_symm (Permᴰ.swap e f) = Permᴰ.swap (sym f) (sym e)
  Permᴰ_symm (Permᴰ.trans p q) = Permᴰ.trans (Permᴰ_symm q) (Permᴰ_symm p)

  pub Permᴰ-All {κ} : (P : A → Type κ) {xs ys : List A} → Permᴰ xs ys → All P xs → All P ys
  Permᴰ-All P {xs} {ys} p h =
      All-of_Elem P ys (λ a m. of_All-Elem P xs a h (Permᴰ-Elem (Permᴰ_symm p) a m))

  fresh_of_eq : {x y : A} → x ≡ y → (zs : List A) → All (λ z. x ≢ z) zs → All (λ z. y ≢ z) zs
  fresh_of_eq e zs = subst (λ x. All (λ z. x ≢ z) zs) e

  pub Permᴰ-IsDistinct : {xs ys : List A} → Permᴰ xs ys → IsDistinct xs → IsDistinct ys
  Permᴰ-IsDistinct Permᴰ.nil h = h
  Permᴰ-IsDistinct (Permᴰ.cons e p) (fresh, h) =
      (fresh_of_eq e _ (Permᴰ-All _ p fresh), Permᴰ-IsDistinct p h)
  Permᴰ-IsDistinct (Permᴰ.swap e f) ((ne, fa), (fb, h)) =
      ((λ q. ne (e ∙ sym q ∙ sym f), fresh_of_eq f _ fb), (fresh_of_eq e _ fa, h))
  Permᴰ-IsDistinct (Permᴰ.trans p q) h = Permᴰ-IsDistinct q (Permᴰ-IsDistinct p h)
