-- ===== src/Controllers/Check/Labels.antt =====
-- The watch label of a namespace, as docs/concepts.md describes it.
use cnwan_operator.Common.{
  text_laws, String, Bool, true, Option, none, some, ◌≡◌, ◌≢◌, ◌↔◌, ◌⊎◌, refl, arith, inl, inr,
  Bool-cases, eq_iff, ◌==◌,
}
use cnwan_operator.GoMap.{Map, get, or_empty}
use cnwan_operator.Controllers.Check.{check_ns_labels}

-- A namespace is watched by its label, and by the default if the label says neither.
pub data IsWatched (labels : Map String) (by_default : Bool) : Type 0 where
  enabled : get "operator.cnwan.io/watch" labels ≡ some "enabled" → IsWatched labels by_default
  unlabelled :
      get "operator.cnwan.io/watch" labels ≢ some "enabled"
      → get "operator.cnwan.io/watch" labels ≢ some "disabled"
      → by_default ≡ true
      → IsWatched labels by_default

label_test :
    (o : Option String) (word : String)
    → word ≢ ""
    → ((or_empty o == word) ≡ true) ↔ (o ≡ some word)
label_test none word h = grind text_laws
label_test (some label) word h = grind text_laws

by_label :
    (labels : Map String) (by_default : Bool)
    → IsWatched labels by_default
    → (get "operator.cnwan.io/watch" labels ≡ some "enabled")
      ⊎ ((get "operator.cnwan.io/watch" labels ≢ some "disabled") × (by_default ≡ true))
by_label labels by_default (enabled e) = inl e
by_label labels by_default (unlabelled _ not_off default) = inr (not_off, default)

-- A namespace is watched exactly when its label enables it, or when its label neither enables nor
-- disables it and the settings watch namespaces by default.
pub check_ns_labels-IsWatched :
    (labels : Map String) (by_default : Bool)
    → (check_ns_labels labels by_default ≡ true) ↔ IsWatched labels by_default
unfolding check_ns_labels
check_ns_labels-IsWatched labels by_default =
    let label = get "operator.cnwan.io/watch" labels in
    let on = label_test label "enabled" (ground (arith, eq_iff "enabled" "")) in
    let off = label_test label "disabled" (ground (arith, eq_iff "disabled" "")) in
    elim (Bool-cases (or_empty label == "enabled")) [
      | inl e ↦ rw e (λ h. enabled (on.0 e), λ h. refl)
      | inr not_on ↦ elim (Bool-cases (or_empty label == "disabled")) [
        | inl e ↦
            rw (not_on, e)
              (
                λ h. cc,
                λ h. elim (by_label labels by_default h) [
                  | inl on_label ↦ absurd (cc (not_on, on.1 on_label))
                  | inr other ↦ absurd (other.0 (off.0 e))
                ],
              )
        | inr not_off ↦
            rw (not_on, not_off)
              (
                λ h. unlabelled (λ k. cc (not_on, on.1 k)) (λ k. cc (not_off, off.1 k)) h,
                λ h. elim (by_label labels by_default h) [
                  | inl on_label ↦ absurd (cc (not_on, on.1 on_label))
                  | inr other ↦ other.1
                ],
              )
      ]
    ]
