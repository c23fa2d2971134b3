-- ===== src/Controllers/Namespaces/Placed.antt =====
-- Where the events about the services of one namespace may stand.
use cnwan_operator.Common.{
  ℕ, suc, String, List, [], ◌∷◌, map, ◌≡◌, ◌≢◌, ◌⊎◌, refl, sym, ◌∙◌, Elem, All, All-append, inl,
  inr, Bool-cases,
}
use cnwan_operator.ServiceRegistry.Events.{
  EventType, create, update, delete, Endpoint, Resource, Event,
}
use cnwan_operator.Controllers.Objects.{KubeService}
use cnwan_operator.Controllers.Check.{Surroundings, check_service}
use cnwan_operator.Controllers.Handling.{event, endpoint_event}
use cnwan_operator.Controllers.Handling.Ordered.{ParentsFirst, NotUnder, BelongsTo}
use cnwan_operator.Controllers.Services.Belongs.{check_service-BelongsTo}
use cnwan_operator.Controllers.Namespaces.{service_events, services_events}

-- A deletion, or the creation of a service in the namespace.
abbrev pub IsPlaced : String → Event → Type 0
IsPlaced ns ev =
    (ev.event_type ≡ delete) ⊎ ((name : String) × (ev ≡ event create (Resource.service ns name)))

IsPlaced-deletes :
    (ns : String) (eps : List Endpoint) → All (IsPlaced ns) (map (endpoint_event delete) eps)
IsPlaced-deletes ns [] = tt
IsPlaced-deletes ns (e ∷ eps) = (inl refl, IsPlaced-deletes ns eps)

service_events-IsPlaced :
    (t : EventType) (ns : String) (service : KubeService) (eps : List Endpoint)
    → All (IsPlaced ns) (service_events t ns service eps)
unfolding service_events
service_events-IsPlaced create ns service eps = (inr (service.name, refl), IsPlaced-deletes ns eps)
service_events-IsPlaced update ns service eps = IsPlaced-deletes ns eps
service_events-IsPlaced delete ns service eps =
    All-append (IsPlaced ns) _ _ (IsPlaced-deletes ns eps) (inl refl, tt)

module _ (annotations : List String) (at : ℕ → Surroundings) (ns : String) where
  pub services_events-IsPlaced :
      (t : EventType) (n : ℕ) (services : List KubeService)
      → All (IsPlaced ns) (services_events annotations at t ns n services)
  unfolding services_events
  services_events-IsPlaced t n [] = tt
  services_events-IsPlaced t n (service ∷ services) =
      elim (Bool-cases (check_service (at n) service annotations).passed) [
        | inr failed ↦ rw failed (services_events-IsPlaced t (suc n) services)
        | inl passed ↦ rw passed (
            All-append (IsPlaced ns) _ _ (service_events-IsPlaced t ns service _)
              (services_events-IsPlaced t (suc n) services))
      ]

  -- Nothing under a service of another name.
  abbrev pub AvoidsService : String → Event → Type 0
  AvoidsService name ev = NotUnder (Resource.service ns name) ev.object

  deletes-AvoidsService :
      (name : String) (service : KubeService) (eps : List Endpoint)
      → name ≢ service.name
      → All (BelongsTo service.namespace service.name) eps
      → All (AvoidsService name) (map (endpoint_event delete) eps)
  deletes-AvoidsService name service [] ne h = tt
  deletes-AvoidsService name service (e ∷ eps) ne ((_, belongs), h) =
      (λ _ same. ne (sym same ∙ belongs), deletes-AvoidsService name service eps ne h)

  pub deletions-AvoidsService :
      (name : String) (n : ℕ) (services : List KubeService)
      → All (λ other. name ≢ other) (map (λ (s : KubeService). s.name) services)
      → All (AvoidsService name) (services_events annotations at delete ns n services)
  unfolding services_events
  deletions-AvoidsService name n [] h = tt
  deletions-AvoidsService name n (service ∷ services) (ne, h) =
      elim (Bool-cases (check_service (at n) service annotations).passed) [
        | inr failed ↦ rw failed (deletions-AvoidsService name (suc n) services h)
        | inl passed ↦ rw passed (
            All-append (AvoidsService name) _ _
              (All-append (AvoidsService name) _ _
                (deletes-AvoidsService name service _ ne
                  (check_service-BelongsTo (at n) service annotations))
                (tt, tt))
              (deletions-AvoidsService name (suc n) services h))
      ]

pub ParentsFirst-of_IsPlaced :
    (ns : String) (seen : List Resource) (events : List Event)
    → Elem (Resource.namespace ns) seen
    → All (IsPlaced ns) events
    → ParentsFirst seen events
ParentsFirst-of_IsPlaced ns seen [] m h = tt
ParentsFirst-of_IsPlaced ns seen (ev ∷ events) m (inl deletes, h) =
    rw deletes (tt, ParentsFirst-of_IsPlaced ns seen events m h)
ParentsFirst-of_IsPlaced ns seen (ev ∷ events) m (inr (name, same), h) =
    rw same (m, ParentsFirst-of_IsPlaced ns (Resource.service ns name ∷ seen) events (inr m) h)

abbrev pub IsDeletion : Event → Type 0
IsDeletion ev = ev.event_type ≡ delete

pub ParentsFirst-of_deletes :
    (seen : List Resource) (events : List Event) → All IsDeletion events → ParentsFirst seen events
ParentsFirst-of_deletes seen [] h = tt
ParentsFirst-of_deletes seen (ev ∷ events) (deletes, h) =
    rw deletes (tt, ParentsFirst-of_deletes seen events h)

deletes-IsDeletion : (eps : List Endpoint) → All IsDeletion (map (endpoint_event delete) eps)
deletes-IsDeletion [] = tt
deletes-IsDeletion (e ∷ eps) = (refl, deletes-IsDeletion eps)

service_events-IsDeletion :
    (ns : String) (service : KubeService) (eps : List Endpoint)
    → All IsDeletion (service_events delete ns service eps)
unfolding service_events
service_events-IsDeletion ns service eps =
    All-append IsDeletion (map (endpoint_event delete) eps) _ (deletes-IsDeletion eps) (refl, tt)

pub services_events-IsDeletion :
    (annotations : List String) (at : ℕ → Surroundings) (ns : String) (n : ℕ)
    (services : List KubeService)
    → All IsDeletion (services_events annotations at delete ns n services)
unfolding services_events service_events
services_events-IsDeletion annotations at ns n [] = tt
services_events-IsDeletion annotations at ns n (service ∷ services) =
    elim (Bool-cases (check_service (at n) service annotations).passed) [
      | inr failed ↦ rw failed (services_events-IsDeletion annotations at ns (suc n) services)
      | inl passed ↦ rw passed (
          All-append IsDeletion _ _ (service_events-IsDeletion ns service _)
            (services_events-IsDeletion annotations at ns (suc n) services))
    ]
