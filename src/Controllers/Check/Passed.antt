-- ===== src/Controllers/Check/Passed.antt =====
-- When `checkService` lets a service through, and what it reports of one that it does not.
use cnwan_operator.Common.{
  text_laws, String, true, false, none, some, List, [], ◌∷◌, ◌≡◌, ◌≢◌, ◌↔◌, inl, inr, refl, arith,
  is_empty, ◌==◌, eq_iff, eq_refl, Bool-cases,
}
use cnwan_operator.Common.Result.{Result, ok, err}
use cnwan_operator.GoMap.{Map, get, HasDistinctKeys}
use cnwan_operator.Controllers.Objects.{KubeService}
use cnwan_operator.Controllers.Annotations.{filter_annotations}
use cnwan_operator.Controllers.Annotations.Allowed.{Allows, get-filter_annotations}
use cnwan_operator.Controllers.Addresses.{get_ips_from_service}
use cnwan_operator.Controllers.Check.{Surroundings, CheckServiceResult, check_ips, check_service}

is_empty-get :
    (m : Map String) → is_empty m ≡ false → (key : String) × (val : String) × (get key m ≡ some val)
unfolding get
is_empty-get [] h = cc
is_empty-get ((k, v) ∷ m) h = (k, v, rw (eq_refl k) refl)

get-is_empty : (m : Map String) (key val : String) → get key m ≡ some val → is_empty m ≡ false
unfolding get
get-is_empty [] key val h = cc
get-is_empty ((k, v) ∷ m) key val h = refl

-- The service has an annotation that the settings allow.
abbrev pub HasAllowedAnnotation : KubeService → List String → Type 0
HasAllowedAnnotation service filter =
    (key : String) × (val : String) × (get key service.annotations ≡ some val) × Allows filter key

module _ (service : KubeService) (filter : List String)
    (distinct : HasDistinctKeys service.annotations) where
  kept-HasAllowedAnnotation :
      (is_empty (filter_annotations service.annotations filter) ≡ false)
      ↔ HasAllowedAnnotation service filter
  kept-HasAllowedAnnotation = (
    λ h.
        let (key, val, e) = is_empty-get (filter_annotations service.annotations filter) h in
        let (there, allowed) =
          (get-filter_annotations service.annotations filter key val distinct).0 e in
        (key, val, there, allowed),
    λ (key, val, there, allowed).
        get-is_empty _ key val
          ((get-filter_annotations service.annotations filter key val distinct).1 (there, allowed)),
  )

abbrev pub HasAddress : Surroundings → KubeService → Type 0
HasAddress s service =
    (ip : String) × (ips : List String) × (get_ips_from_service s.lookup_host s.order service 10
      ≡ ok (ip ∷ ips))

check_ips-passed :
    (sha256_hex : String → String) (service : KubeService) (annotations : Map String)
    (r : Result (List String))
    → ((check_ips sha256_hex service annotations r).passed ≡ true)
      ↔ ((ip : String) × (ips : List String) × (r ≡ ok (ip ∷ ips)))
unfolding check_ips
check_ips-passed sha256_hex service annotations (err e) = (λ h. cc, λ (ip, ips, e). cc)
check_ips-passed sha256_hex service annotations (ok []) = (λ h. cc, λ (ip, ips, e). cc)
check_ips-passed sha256_hex service annotations (ok (ip ∷ ips)) = (λ h. (ip, ips, refl), λ h. refl)

-- A service passes exactly when it is a load balancer, has an annotation that the settings allow and
-- at least one address is found.
pub check_service-passed :
    (s : Surroundings) (service : KubeService) (annotations_to_keep : List String)
    → HasDistinctKeys service.annotations
    → ((check_service s service annotations_to_keep).passed ≡ true) ↔ (
        (service.kind ≡ "LoadBalancer")
        × HasAllowedAnnotation service annotations_to_keep
        × HasAddress s service)
unfolding check_service
check_service-passed s service keep distinct = elim (Bool-cases (service.kind == "LoadBalancer")) [
  | inr no_balancer ↦ rw no_balancer (λ h. cc, λ h. grind (text_laws, h.0))
  | inl balancer ↦ elim (Bool-cases (is_empty (filter_annotations service.annotations keep))) [
    | inl nothing ↦
        rw (balancer, nothing)
          (λ h. cc, λ h. cc (nothing, (kept-HasAllowedAnnotation service keep distinct).1 h.1))
    | inr kept ↦
        let addresses =
          check_ips-passed s.sha256_hex service (filter_annotations service.annotations keep)
            (get_ips_from_service s.lookup_host s.order service 10) in
        rw (balancer, kept)
          (
            λ h. (
              (eq_iff _ _).0 balancer,
              (kept-HasAllowedAnnotation service keep distinct).0 kept,
              addresses.0 h,
            ),
            λ h. addresses.1 h.2,
          )
  ]
]

-- What the fields of a result tell together.
pub record IsConsistent (r : CheckServiceResult) : Type 0 where
  pub accepted :
      r.passed ≡ true → (r.reason ≡ "") × (r.error ≡ none) × (r.annotations ≢ []) × (r.ips ≢ [])
  pub refused :
      r.passed ≡ false → (r.reason ≢ "") × (r.annotations ≡ []) × (r.ips ≡ []) × (r.endpoints ≡ [])

check_ips-IsConsistent :
    (sha256_hex : String → String) (service : KubeService) (annotations : Map String)
    (r : Result (List String))
    → is_empty annotations ≡ false
    → IsConsistent (check_ips sha256_hex service annotations r)
unfolding check_ips
check_ips-IsConsistent sha256_hex service annotations (err e) h = record {
  accepted = λ p. cc;
  refused = λ p. (ground (arith, eq_iff "no valid hostnames/ips found" ""), refl, refl, refl);
}
check_ips-IsConsistent sha256_hex service annotations (ok []) h = record {
  accepted = λ p. cc;
  refused = λ p. (ground (arith, eq_iff "no valid hostnames/ips found" ""), refl, refl, refl);
}
check_ips-IsConsistent sha256_hex service annotations (ok (ip ∷ ips)) h = record {
  accepted = λ p. (refl, refl, ground arith, ground arith);
  refused = λ p. cc;
}

-- A service that passes has no reason and no error against it, and has annotations and addresses;
-- one that does not pass has a reason, and no annotations, addresses or endpoints are reported.
pub check_service-IsConsistent :
    (s : Surroundings) (service : KubeService) (annotations_to_keep : List String)
    → IsConsistent (check_service s service annotations_to_keep)
unfolding check_service
check_service-IsConsistent s service keep = elim (Bool-cases (service.kind == "LoadBalancer")) [
  | inr no_balancer ↦ rw no_balancer (record {
    accepted = λ p. cc;
    refused = λ p. (ground (arith, eq_iff "not a LoadBalancer" ""), refl, refl, refl);
  })
  | inl balancer ↦ elim (Bool-cases (is_empty (filter_annotations service.annotations keep))) [
    | inl nothing ↦
        rw (balancer, nothing)
          (record {
            accepted = λ p. cc;
            refused = λ p. (ground (arith, eq_iff "no valid annotations" ""), refl, refl, refl);
          })
    | inr kept ↦
        rw (balancer, kept)
          (check_ips-IsConsistent s.sha256_hex service _
            (get_ips_from_service s.lookup_host s.order service 10) kept)
  ]
]
