-- ===== src/Controllers/Namespaces/Listed.antt =====
-- Which events the loop over the services of a namespace contains.
use cnwan_operator.Common.{
  ℕ, suc, String, true, List, [], ◌∷◌, ◌≡◌, ◌⊎◌, sym, ◌∙◌, ap, Elem, All, Elem-append_left,
  Elem-append_right, inl, inr, Bool-cases,
}
use cnwan_operator.ServiceRegistry.Events.{EventType, delete, Endpoint, Resource, Event}
use cnwan_operator.Controllers.Objects.{KubeService}
use cnwan_operator.Controllers.Check.{Surroundings, check_service}
use cnwan_operator.Controllers.Namespaces.{service_events, services_events}
use cnwan_operator.Controllers.Namespaces.Placed.{IsPlaced}

-- `service` is the i-th of the list, counted from `n`.
abbrev pub IsNth : ℕ → List KubeService → ℕ → KubeService → Type 0
IsNth n [] i service = ⊥
IsNth n (first ∷ services) i service =
    ((i ≡ n) × (service ≡ first)) ⊎ IsNth (suc n) services i service

-- The event announces endpoints as deleted only.
abbrev pub OnlyDeletes : Event → Type 0
OnlyDeletes ev = (e : Endpoint) → ev.object ≡ Resource.endpoint e → ev.event_type ≡ delete

pub OnlyDeletes-of_IsPlaced :
    (ns : String) (events : List Event) → All (IsPlaced ns) events → All OnlyDeletes events
OnlyDeletes-of_IsPlaced ns [] h = tt
OnlyDeletes-of_IsPlaced ns (ev ∷ events) (inl deletes, h) =
    (λ e same. deletes, OnlyDeletes-of_IsPlaced ns events h)
OnlyDeletes-of_IsPlaced ns (ev ∷ events) (inr (name, is), h) = (
  λ e same.
      let q : Resource.service ns name ≡ Resource.endpoint e =
        sym (ap (λ (x : Event). x.object) is) ∙ same in
      cc q,
  OnlyDeletes-of_IsPlaced ns events h,
)

module _ (annotations : List String) (at : ℕ → Surroundings) (t : EventType) (ns : String) where
  -- The events about each service that passes are among those of the loop.
  pub service_events-services_events :
      (n : ℕ) (services : List KubeService) (i : ℕ) (service : KubeService) (ev : Event)
      → IsNth n services i service
      → (check_service (at i) service annotations).passed ≡ true
      → Elem ev (service_events t ns service (check_service (at i) service annotations).endpoints)
      → Elem ev (services_events annotations at t ns n services)
  unfolding services_events
  service_events-services_events n [] i service ev nth passed m = absurd nth
  service_events-services_events n (first ∷ services) i service ev (inl (same_i, same)) passed m =
      let block = λ (j : ℕ) (s : KubeService).
        service_events t ns s (check_service (at j) s annotations).endpoints in
      let passes : (check_service (at n) first annotations).passed ≡ true =
        rw (← same_i, ← same) passed in
      let here : Elem ev (block n first) = rw (← same_i, ← same) m in
      rw passes (Elem-append_left ev _ _ here)
  service_events-services_events n (first ∷ services) i service ev (inr later) passed m =
      let there = service_events-services_events (suc n) services i service ev later passed m in
      elim (Bool-cases (check_service (at n) first annotations).passed) [
        | inl passes ↦ rw passes (Elem-append_right ev _ _ there)
        | inr fails ↦ rw fails there
      ]
