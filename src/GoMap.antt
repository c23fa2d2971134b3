-- ===== src/GoMap.antt =====
-- Go's `map[string]V`: an association list in the order in which a `range` visits it. Go leaves
-- that order open; a theorem about every list is about every order. A write to a key that is there
-- replaces its value.
pub mod Laws
use cnwan_operator.Common.{
  String, Bool, true, false, Option, none, some, List, [], ◌∷◌, map, ◌==◌, if◌then◌else◌, ◌≡◌, Elem,
}

abbrev pub Map {ℓ} : Type ℓ → Type ℓ
Map V = List (String × V)

abbrev pub key {ℓ} : {V : Type ℓ} → String × V → String
key e = e.0

module _ {ℓ} {V : Type ℓ} where
  -- `v, exists := m[k]`
  unfoldable pub get : String → Map V → Option V
  get k [] = none
  get k ((j, v) ∷ m) = if j == k then some v else get k m

  -- `_, exists := m[k]`
  unfoldable pub has : String → Map V → Bool
  has k [] = false
  has k ((j, v) ∷ m) = if j == k then true else has k m

  -- `m[k] = v`
  unfoldable pub put : String → V → Map V → Map V
  put k v [] = (k, v) ∷ []
  put k v ((j, w) ∷ m) = if j == k then (k, v) ∷ m else (j, w) ∷ put k v m

  -- `delete(m, k)`
  unfoldable pub delete : String → Map V → Map V
  delete k [] = []
  delete k ((j, v) ∷ m) = let rest = delete k m in if j == k then rest else (j, v) ∷ rest

  abbrev pub keys : Map V → List String
  keys m = map key m

  -- What holds of every Go map: no key stands twice.
  abbrev pub HasDistinctKeys : Map V → Type 0
  HasDistinctKeys [] = Unit
  HasDistinctKeys ((k, v) ∷ m) = (has k m ≡ false) × HasDistinctKeys m

-- The zero value that Go returns for a missing key of a `map[string]string`.
abbrev pub or_empty : Option String → String
or_empty none = ""
or_empty (some s) = s
