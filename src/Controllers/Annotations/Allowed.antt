-- ===== src/Controllers/Annotations/Allowed.antt =====
-- `filterAnnotations` against the wildcards as docs/configuration.md describes them.
use Prim.Native.String
use cnwan_operator.Common.{
  String, Bool, true, false, some, List, [], ◌∷◌, if◌then◌else◌, ◌≡◌, ◌↔◌, ◌⊎◌, inl, inr, refl, sym,
  arith, Elem, Bool-cases, eq_iff, All, ◌||◌, ◌&&◌,
}
use cnwan_operator.Common.Text.{split, slash}
use cnwan_operator.Common.Text.Split.{
  IsFree, join-split, split-append, split_of_IsFree, split-IsFree,
}
use cnwan_operator.GoMap.{Map, get, has, put, HasDistinctKeys}
use cnwan_operator.GoMap.Laws.{get-put, has-put, has-get}
use cnwan_operator.Controllers.Annotations.{
  to_set_from, to_set, keep_parts, keep_one, keep_all, filter_annotations,
}

-- The settings allow the key: all keys, this key, its prefix with any name or its name with any
-- prefix.
pub data Allows (filter : List String) (key : String) : Type 0 where
  everything : Elem "*/*" filter → Allows filter key
  exact : Elem key filter → Allows filter key
  any_name :
      (prefix name : String)
      → key ≡ String.◌++◌ prefix (String.◌∷◌ slash name)
      → IsFree slash prefix
      → IsFree slash name
      → Elem (String.◌++◌ prefix "/*") filter
      → Allows filter key
  any_prefix :
      (prefix name : String)
      → key ≡ String.◌++◌ prefix (String.◌∷◌ slash name)
      → IsFree slash prefix
      → IsFree slash name
      → Elem (String.◌++◌ "*/" name) filter
      → Allows filter key

has-to_set_from :
    (k : String) (set : Map Bool) (xs : List String)
    → (has k (to_set_from set xs) ≡ true) ↔ ((has k set ≡ true) ⊎ Elem k xs)
unfolding to_set_from
has-to_set_from k set [] = ground arith
has-to_set_from k set (x ∷ xs) =
    ground
      (arith, has-to_set_from k (put x true set) xs, has-put x k true set, eq_iff x k, eq_iff k x)

has-to_set : (k : String) (xs : List String) → (has k (to_set xs) ≡ true) ↔ Elem k xs
unfolding to_set has
has-to_set k xs = ground (arith, has-to_set_from k [] xs)

-- The decision that one round takes.
parts_allowed : Map Bool → List String → Bool
parts_allowed allowed (prefix ∷ name ∷ []) =
    has (String.◌++◌ prefix "/*") allowed || has (String.◌++◌ "*/" name) allowed
parts_allowed allowed _ = false

key_allowed : Map Bool → String → Bool
unfolding parts_allowed
key_allowed allowed key = has key allowed || parts_allowed allowed (split key slash)

keep_parts_lem :
    (allowed : Map Bool) (key val : String) (filtered : Map String) (parts : List String)
    → keep_parts allowed key val filtered parts
      ≡ (if parts_allowed allowed parts then put key val filtered else filtered)
unfolding keep_parts parts_allowed
keep_parts_lem allowed key val filtered [] = refl
keep_parts_lem allowed key val filtered (p ∷ []) = refl
keep_parts_lem allowed key val filtered (p ∷ n ∷ []) = ground arith
keep_parts_lem allowed key val filtered (p ∷ n ∷ q ∷ r) = refl

keep_one_lem :
    (allowed : Map Bool) (key val : String) (filtered : Map String)
    → keep_one allowed key val filtered
      ≡ (if key_allowed allowed key then put key val filtered else filtered)
unfolding keep_one key_allowed
keep_one_lem allowed key val filtered =
    ground (arith, keep_parts_lem allowed key val filtered (split key slash))

get-keep_all :
    (allowed : Map Bool) (current filtered : Map String) (key : String)
    → HasDistinctKeys current
    → get key (keep_all allowed current filtered)
      ≡ (if has key current && key_allowed allowed key then get key current else get key filtered)
unfolding keep_all get has
get-keep_all allowed [] filtered key h = refl
get-keep_all allowed ((k, v) ∷ rest) filtered key (fresh, h) = ground (
  arith,
  get-keep_all allowed rest (keep_one allowed k v filtered) key h,
  keep_one_lem allowed k v filtered,
  get-put k key v filtered,
  eq_iff k key,
)

module _ (filter : List String) (key : String) where
  parts_allowed-Allows :
      (parts : List String)
      → split key slash ≡ parts
      → parts_allowed (to_set filter) parts ≡ true
      → Allows filter key
  unfolding parts_allowed
  parts_allowed-Allows [] e h = cc
  parts_allowed-Allows (p ∷ []) e h = cc
  parts_allowed-Allows (p ∷ n ∷ q ∷ r) e h = cc
  parts_allowed-Allows (p ∷ n ∷ []) e h =
      let whole : String.◌++◌ p (String.◌∷◌ slash n) ≡ key = rw e at (join-split key slash) in
      let free : All (IsFree slash) (p ∷ n ∷ []) = rw e at (split-IsFree key slash) in
      elim (Bool-cases (has (String.◌++◌ p "/*") (to_set filter))) [
        | inl by_prefix ↦
            any_name p n (sym whole) free.0 free.1.0 ((has-to_set _ filter).0 by_prefix)
        | inr other ↦
            any_prefix p n (sym whole) free.0 free.1.0 ((has-to_set _ filter).0 (ground arith))
      ]

  key_allowed-Allows : key_allowed (to_set filter) key ≡ true → Allows filter key
  unfolding key_allowed
  key_allowed-Allows h = elim (Bool-cases (has key (to_set filter))) [
    | inl listed ↦ exact ((has-to_set key filter).0 listed)
    | inr other ↦ parts_allowed-Allows (split key slash) refl (ground arith)
  ]

  split_at_slash :
      (prefix name : String)
      → key ≡ String.◌++◌ prefix (String.◌∷◌ slash name)
      → IsFree slash prefix
      → IsFree slash name
      → split key slash ≡ prefix ∷ name ∷ []
  split_at_slash prefix name e free_prefix free_name =
      rw (e, split-append prefix name slash free_prefix, split_of_IsFree name slash free_name) refl

  Allows-key_allowed :
      Allows filter key
      → (has "*/*" (to_set filter) ≡ true) ⊎ (key_allowed (to_set filter) key ≡ true)
  unfolding key_allowed parts_allowed
  Allows-key_allowed (everything m) = inl ((has-to_set _ filter).1 m)
  Allows-key_allowed (exact m) = inr (rw ((has-to_set _ filter).1 m) refl)
  Allows-key_allowed (any_name p n e fp fn m) =
      inr (rw (split_at_slash p n e fp fn) (ground (arith, (has-to_set _ filter).1 m)))
  Allows-key_allowed (any_prefix p n e fp fn m) =
      inr (rw (split_at_slash p n e fp fn) (ground (arith, (has-to_set _ filter).1 m)))

-- An annotation is kept, with its value, exactly when the service has it and the settings allow its
-- key: the key itself, its prefix with any name, its name with any prefix, or every key.
pub get-filter_annotations :
    (current : Map String) (filter : List String) (key val : String)
    → HasDistinctKeys current
    → (get key (filter_annotations current filter) ≡ some val)
      ↔ ((get key current ≡ some val) × Allows filter key)
unfolding filter_annotations get
get-filter_annotations current filter key val distinct =
    elim (Bool-cases (has "*/*" (to_set filter))) [
      | inl all ↦ rw all (λ h. (h, everything ((has-to_set _ filter).0 all)), λ h. h.0)
      | inr some_keys ↦ rw some_keys (
        λ h.
            let kept : (get key current ≡ some val) × (key_allowed (to_set filter) key ≡ true) =
              ground (arith, get-keep_all (to_set filter) current [] key distinct) in
            (kept.0, key_allowed-Allows filter key kept.1),
        λ h. ground (
          arith,
          get-keep_all (to_set filter) current [] key distinct,
          has-get key current,
          Allows-key_allowed filter key h.1,
        ),
      )
    ]
