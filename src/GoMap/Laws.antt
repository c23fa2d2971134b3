-- ===== src/GoMap/Laws.antt =====
-- The laws of Go's maps that the components rely on.
use cnwan_operator.Common.{
  text_laws, String, true, none, some, [], ◌∷◌, ◌==◌, if◌then◌else◌, ◌≡◌, refl, eq_iff, arith,
  is_some, Elem, ◌≢◌, ◌↔◌, All-of_Elem,
}
use cnwan_operator.Common.Orders.{IsDistinct}
use cnwan_operator.GoMap.{Map, get, has, put, delete, keys, HasDistinctKeys}

module _ {ℓ} {V : Type ℓ} where
  pub get-put :
      (k j : String) (v : V) (m : Map V) → get j (put k v m) ≡ (if k == j then some v else get j m)
  unfolding get put
  get-put k j v [] = refl
  get-put k j v ((i, w) ∷ m) = grind (text_laws, get-put k j v m)

  pub has-put :
      (k j : String) (v : V) (m : Map V) → has j (put k v m) ≡ (if k == j then true else has j m)
  unfolding has put
  has-put k j v [] = refl
  has-put k j v ((i, w) ∷ m) = grind (text_laws, has-put k j v m)

  pub has-get : (k : String) (m : Map V) → has k m ≡ is_some (get k m)
  unfolding has get
  has-get k [] = refl
  has-get k ((j, v) ∷ m) = ground (arith, has-get k m)

  pub put-HasDistinctKeys :
      (k : String) (v : V) (m : Map V) → HasDistinctKeys m → HasDistinctKeys (put k v m)
  unfolding has put
  put-HasDistinctKeys k v [] h = (refl, tt)
  put-HasDistinctKeys k v ((j, w) ∷ m) (fresh, h) =
      grind (text_laws, has-put k j v m, put-HasDistinctKeys k v m h, eq_iff k j)

  pub get-delete :
      (k j : String) (m : Map V) → get j (delete k m) ≡ (if k == j then none else get j m)
  unfolding get delete
  get-delete k j [] = ground arith
  get-delete k j ((i, v) ∷ m) = grind (text_laws, get-delete k j m)

  pub Elem-keys_iff : (k : String) (m : Map V) → Elem k (keys m) ↔ (has k m ≡ true)
  unfolding has
  Elem-keys_iff k [] = (λ h. absurd h, λ e. cc)
  Elem-keys_iff k ((j, v) ∷ m) = grind (text_laws, Elem-keys_iff k m)

  pub keys-IsDistinct : (m : Map V) → HasDistinctKeys m → IsDistinct (keys m)
  keys-IsDistinct [] h = tt
  keys-IsDistinct ((k, v) ∷ m) (fresh, h) = (
    All-of_Elem (λ j. k ≢ j) (keys m)
        (λ j there same.
          let again : has k m ≡ true = rw same ((Elem-keys_iff j m).0 there) in cc (fresh, again)),
    keys-IsDistinct m h,
  )
