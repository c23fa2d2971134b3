-- ===== src/Controllers/Check/Endpoints.antt =====
-- The endpoints of a service that passes.
use Prim.Native.String
use cnwan_operator.Common.{
  list_laws, ℕ, ◌+◌, ◌*◌, String, true, some, List, [], ◌∷◌, ◌++◌, map, ◌≡◌, ◌↔◌, ◌⊎◌, ◌∙◌, inl,
  inr, refl, ap, sym, arith, is_empty, length, length-append, Elem, Elem-append, Elem-append_left,
  Elem-append_right, Elem-map, of_Elem-map, ◌==◌, Bool-cases,
}
use native.Mathlib.Nat.{zero-add}
use mathlib.Core.List.{append-nil}
use cnwan_operator.Common.Text.{decimal, first_chars}
use cnwan_operator.Common.Result.{Result, ok, err}
use cnwan_operator.GoMap.{Map, get, HasDistinctKeys}
use cnwan_operator.ServiceRegistry.Events.{Endpoint}
use cnwan_operator.Controllers.Objects.{KubeService}
use cnwan_operator.Controllers.Annotations.{filter_annotations}
use cnwan_operator.Controllers.Annotations.Allowed.{Allows, get-filter_annotations}
use cnwan_operator.Controllers.Addresses.{get_ips_from_service}
use cnwan_operator.Controllers.Check.Passed.{check_service-IsConsistent}
use cnwan_operator.Controllers.Check.{
  Surroundings, CheckServiceResult, make_endpoint, to_be_hashed, add_ips, add_ports, check_ips,
  check_service,
}

add_ips_lem :
    (make : String → Endpoint) (ips : List String) (eps : List Endpoint)
    → add_ips make ips eps ≡ eps ++ map make ips
unfolding add_ips
add_ips_lem make [] eps = rw append-nil
add_ips_lem make (ip ∷ ips) eps = simp (add_ips_lem make ips, list_laws)

length-map : {A B : Type 0} (f : A → B) (xs : List A) → length (map f xs) ≡ length xs
length-map f [] = refl
length-map f (x ∷ xs) = omega (arith, length-map f xs)

module _ (make : ℕ → String → Endpoint) (ips : List String) where
  -- One endpoint for each port and each address.
  abbrev pub IsMade : List ℕ → Endpoint → Type 0
  IsMade ports e = (port : ℕ) × (ip : String) × Elem port ports × Elem ip ips × (e ≡ make port ip)

  length-add_ports :
      (ports : List ℕ) (eps : List Endpoint)
      → length (add_ports make ips ports eps) ≡ length eps + length ports * length ips
  unfolding add_ports
  length-add_ports [] eps = omega arith
  length-add_ports (port ∷ ports) eps =
      let step : length (add_ips (make port) ips eps) ≡ length eps + length ips =
        rw add_ips_lem
          (omega (arith, length-append eps (map (make port) ips), length-map (make port) ips)) in
      grind (arith, length-add_ports ports (add_ips (make port) ips eps), step)

  add_ports-keeps :
      (ports : List ℕ) (eps : List Endpoint) (e : Endpoint)
      → Elem e eps
      → Elem e (add_ports make ips ports eps)
  unfolding add_ports
  add_ports-keeps [] eps e m = m
  add_ports-keeps (port ∷ ports) eps e m =
      add_ports-keeps ports _ e (rw add_ips_lem (Elem-append_left e eps _ m))

  IsMade-add_ports :
      (ports : List ℕ) (eps : List Endpoint) (e : Endpoint)
      → IsMade ports e
      → Elem e (add_ports make ips ports eps)
  unfolding add_ports
  IsMade-add_ports [] eps e (port, ip, m, n, same) = absurd m
  IsMade-add_ports (p ∷ ports) eps e (port, ip, inr m, n, same) =
      IsMade-add_ports ports _ e (port, ip, m, n, same)
  IsMade-add_ports (p ∷ ports) eps e (port, ip, inl q, n, same) =
      add_ports-keeps ports _ e
        (rw (add_ips_lem, same, q) (Elem-append_right _ eps _ (Elem-map (make p) ip ips n)))

  add_ports-IsMade :
      (ports : List ℕ) (eps : List Endpoint) (e : Endpoint)
      → Elem e (add_ports make ips ports eps)
      → Elem e eps ⊎ IsMade ports e
  unfolding add_ports
  add_ports-IsMade [] eps e m = inl m
  add_ports-IsMade (p ∷ ports) eps e m =
      elim (add_ports-IsMade ports (add_ips (make p) ips eps) e m) [
        | inr (port, ip, there, n, same) ↦ inr (port, ip, inr there, n, same)
        | inl earlier ↦ elim (Elem-append e eps (map (make p) ips) (rw add_ips_lem at earlier)) [
          | inl old ↦ inl old
          | inr new ↦
              let (ip, n, same) = of_Elem-map (make p) e ips new in inr (p, ip, inl refl, n, same)
        ]
      ]

-- The endpoint at a port and an address, written out.
abbrev pub endpoint_for : (String → String) → KubeService → Map String → ℕ → String → Endpoint
endpoint_for sha256_hex service annotations port ip = record {
  namespace = service.namespace;
  service = service.name;
  name = String.◌++◌ service.name (
      String.◌++◌ "-"
        (first_chars 10 (sha256_hex (String.◌++◌ ip (String.◌++◌ ":" (decimal port))))));
  address = ip;
  port = port;
  metadata = annotations;
}

abbrev AsMade :
    (String → String)
    → KubeService
    → Map String
    → Result (List String)
    → CheckServiceResult
    → Type 0
AsMade sha256_hex service annotations found r =
    (found ≡ ok r.ips)
    × (r.annotations ≡ annotations)
    × (r.endpoints
        ≡ add_ports (make_endpoint sha256_hex service r.annotations) r.ips service.ports [])

check_ips-AsMade :
    (sha256_hex : String → String) (service : KubeService) (annotations : Map String)
    (found : Result (List String))
    → (check_ips sha256_hex service annotations found).passed ≡ true
    → AsMade sha256_hex service annotations found (check_ips sha256_hex service annotations found)
unfolding check_ips
check_ips-AsMade sha256_hex service annotations (err e) h = cc
check_ips-AsMade sha256_hex service annotations (ok []) h = cc
check_ips-AsMade sha256_hex service annotations (ok (ip ∷ ips)) h = (refl, refl, refl)

module _ (s : Surroundings) (service : KubeService) (annotations_to_keep : List String) where
  check_service-AsMade :
      (check_service s service annotations_to_keep).passed ≡ true
      → AsMade s.sha256_hex service
          (filter_annotations service.annotations annotations_to_keep)
          (get_ips_from_service s.lookup_host s.order service 10)
          (check_service s service annotations_to_keep)
  unfolding check_service
  check_service-AsMade h = elim (Bool-cases (service.kind == "LoadBalancer")) [
    | inr no_balancer ↦ absurd (ground arith)
    | inl balancer ↦
        elim (Bool-cases (is_empty (filter_annotations service.annotations annotations_to_keep))) [
          | inl nothing ↦ absurd (ground arith)
          | inr kept ↦
              rw (balancer, kept)
                (check_ips-AsMade s.sha256_hex service _
                  (get_ips_from_service s.lookup_host s.order service 10)
                  (rw (balancer, kept) at h))
        ]
  ]

  -- The addresses of a service that passes are those found for it, and its endpoints are one for
  -- each of its ports and each address, no more: as many as ports times addresses. An endpoint has the
  -- namespace and the name of its service, its port and address, the annotations that were kept, and is
  -- named after the service and the first ten characters of the hash of "address:port".
  pub check_service-IsMade :
      (check_service s service annotations_to_keep).passed ≡ true
      → (get_ips_from_service s.lookup_host s.order service 10
          ≡ ok (check_service s service annotations_to_keep).ips)
        × ((e : Endpoint)
            → Elem e (check_service s service annotations_to_keep).endpoints
              ↔ IsMade
                  (endpoint_for s.sha256_hex service
                    (check_service s service annotations_to_keep).annotations)
                  (check_service s service annotations_to_keep).ips
                  service.ports
                  e)
        × (length (check_service s service annotations_to_keep).endpoints
            ≡ length service.ports * length (check_service s service annotations_to_keep).ips)
  unfolding make_endpoint to_be_hashed
  check_service-IsMade h =
      let r = check_service s service annotations_to_keep in
      let make = make_endpoint s.sha256_hex service r.annotations in
      let (found, _, made) = check_service-AsMade h in
      (
        found,
        λ e. rw made (
          λ m. elim (add_ports-IsMade make r.ips service.ports [] e m) [
            | inl nothing ↦ absurd nothing
            | inr x ↦ x
          ],
          λ m. IsMade-add_ports make r.ips service.ports [] e m,
        ),
        rw made (length-add_ports make r.ips service.ports [] ∙ zero-add _),
      )

-- An endpoint's metadata holds only annotations of the service, unchanged, that the settings allow.
pub check_service-metadata :
    (s : Surroundings) (service : KubeService) (annotations_to_keep : List String) (e : Endpoint)
    (key val : String)
    → HasDistinctKeys service.annotations
    → Elem e (check_service s service annotations_to_keep).endpoints
    → get key e.metadata ≡ some val
    → (get key service.annotations ≡ some val) × Allows annotations_to_keep key
check_service-metadata s service keep e key val distinct m found =
    elim (Bool-cases (check_service s service keep).passed) [
      | inr failed ↦ absurd (rw ((check_service-IsConsistent s service keep).refused failed).3 at m)
      | inl passed ↦
          let (_, members, _) = check_service-IsMade s service keep passed in
          let (_, same, _) = check_service-AsMade s service keep passed in
          let (port, ip, _, _, made) = (members e).0 m in
          let kept : get key (filter_annotations service.annotations keep) ≡ some val =
            unfold make_endpoint in
            rw (← same) (ap (λ (x : Endpoint). get key x.metadata) (sym made) ∙ found) in
          (get-filter_annotations service.annotations keep key val distinct).0 kept
    ]
