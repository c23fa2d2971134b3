-- ===== src/Controllers/Namespaces/Sent.antt =====
-- What is sent when a namespace starts or stops being watched.
use cnwan_operator.Common.{
  ℕ, String, true, false, List, [], ◌∷◌, map, ◌≡◌, ◌⊎◌, refl, ◌∙◌, Elem, All, of_All-Elem,
  Elem-append_left, Elem-append_right, Elem-map, inl, inr, Bool-cases,
}
use cnwan_operator.Common.Result.{ok, Result-cases}
use cnwan_operator.ServiceRegistry.Events.{EventType, create, delete, Endpoint, Resource, Event}
use cnwan_operator.Controllers.Objects.{Object, KubeService, KubeNamespace}
use cnwan_operator.Controllers.Check.{Surroundings, check_service, check_ns_labels}
use cnwan_operator.Controllers.Check.Labels.{IsWatched, check_ns_labels-IsWatched}
use cnwan_operator.Controllers.Handling.{event, endpoint_event, sent}
use cnwan_operator.Controllers.Handling.Traces.{sent_all}
use cnwan_operator.Controllers.Namespaces.{
  NamespaceEventHandler, service_events, services_events, handle_update_event, update_events,
  handle_update, handle_deleted,
}
use cnwan_operator.Controllers.Namespaces.Placed.{services_events-IsPlaced}
use cnwan_operator.Controllers.Namespaces.Listed.{
  IsNth, OnlyDeletes, OnlyDeletes-of_IsPlaced, service_events-services_events,
}

module _ (n : NamespaceEventHandler) where
  abbrev pub IsWatchedHere : KubeNamespace → Type 0
  IsWatchedHere ns = IsWatched ns.labels n.watch_namespaces_by_default

  is_watched :
      (ns : KubeNamespace)
      → IsWatchedHere ns
      → check_ns_labels ns.labels n.watch_namespaces_by_default ≡ true
  is_watched ns h = (check_ns_labels-IsWatched ns.labels n.watch_namespaces_by_default).1 h

  is_not_watched :
      (ns : KubeNamespace)
      → ¬ IsWatchedHere ns
      → check_ns_labels ns.labels n.watch_namespaces_by_default ≡ false
  is_not_watched ns h =
      elim (Bool-cases (check_ns_labels ns.labels n.watch_namespaces_by_default)) [
        | inl e ↦
            absurd (h ((check_ns_labels-IsWatched ns.labels n.watch_namespaces_by_default).0 e))
        | inr e ↦ e
      ]

module _ (n : NamespaceEventHandler) (at : ℕ → Surroundings) (old curr : KubeNamespace) where
  abbrev pub update_sent : List Event
  update_sent = sent (handle_update n at (Object.namespace old) (Object.namespace curr))

  update_sent_lem : update_sent ≡ update_events n at old curr
  unfolding handle_update sent
  update_sent_lem = rw (sent_all _ _ refl) refl

  update_sent-create :
      ¬ IsWatchedHere n old
      → IsWatchedHere n curr
      → update_sent ≡ handle_update_event n at curr create
  unfolding update_events
  update_sent-create before now =
      rw (update_sent_lem, is_not_watched n old before, is_watched n curr now) refl

  update_sent-delete :
      IsWatchedHere n old
      → ¬ IsWatchedHere n curr
      → update_sent ≡ handle_update_event n at curr delete
  unfolding update_events
  update_sent-delete before now =
      rw (update_sent_lem, is_watched n old before, is_not_watched n curr now) refl

  update_sent-same : IsWatchedHere n old → IsWatchedHere n curr → update_sent ≡ []
  unfolding update_events
  update_sent-same before now =
      rw (update_sent_lem, is_watched n old before, is_watched n curr now) refl

  create_event-OnlyDeletes : All OnlyDeletes (handle_update_event n at curr create)
  unfolding handle_update_event
  create_event-OnlyDeletes = elim (Result-cases (n.list_services curr.name)) [
    | inr (e, failed) ↦ rw failed tt
    | inl (services, found) ↦ rw found (
      λ e same. cc same,
      OnlyDeletes-of_IsPlaced curr.name _
          (services_events-IsPlaced n.service_annotations at curr.name create 0 services),
    )
  ]

module _ (n : NamespaceEventHandler) (at : ℕ → Surroundings) (ns : KubeNamespace)
    (services : List KubeService) (found : n.list_services ns.name ≡ ok services) where
  create_event-contains :
      (i : ℕ) (service : KubeService) (ev : Event)
      → IsNth 0 services i service
      → (check_service (at i) service n.service_annotations).passed ≡ true
      → Elem ev (
          service_events create ns.name service
            (check_service (at i) service n.service_annotations).endpoints)
      → Elem ev (handle_update_event n at ns create)
  unfolding handle_update_event
  create_event-contains i service ev nth passed m = rw found (
      inr (
        service_events-services_events n.service_annotations at create ns.name 0 services i service
          ev nth passed m))

  delete_event-contains :
      (i : ℕ) (service : KubeService) (ev : Event)
      → IsNth 0 services i service
      → (check_service (at i) service n.service_annotations).passed ≡ true
      → Elem ev (
          service_events delete ns.name service
            (check_service (at i) service n.service_annotations).endpoints)
      → Elem ev (handle_update_event n at ns delete)
  unfolding handle_update_event
  delete_event-contains i service ev nth passed m = rw found (
      Elem-append_left ev _ _ (
        service_events-services_events n.service_annotations at delete ns.name 0 services i service
          ev nth passed m))

  delete-event-namespace :
      Elem (event delete (Resource.namespace ns.name)) (handle_update_event n at ns delete)
  unfolding handle_update_event
  delete-event-namespace =
      let last = event delete (Resource.namespace ns.name) in
      rw found (
        Elem-append_right last (services_events n.service_annotations at delete ns.name 0 services)
          (last ∷ []) (inl refl))

-- When a namespace starts to be watched and its services can be listed, every service in it that
-- passes is announced as created, but the endpoints of that service are announced as deleted, and
-- no endpoint is announced in any other way.
pub handle_update-starts :
    (n : NamespaceEventHandler) (at : ℕ → Surroundings) (old curr : KubeNamespace)
    (services : List KubeService)
    → ¬ IsWatchedHere n old
    → IsWatchedHere n curr
    → n.list_services curr.name ≡ ok services
    → ((i : ℕ) (service : KubeService)
        → IsNth 0 services i service
        → (check_service (at i) service n.service_annotations).passed ≡ true
        → Elem (event create (Resource.service curr.name service.name)) (update_sent n at old curr)
          × ((e : Endpoint)
              → Elem e (check_service (at i) service n.service_annotations).endpoints
              → Elem (endpoint_event delete e) (update_sent n at old curr)))
      × ((t : EventType) (e : Endpoint)
          → Elem (endpoint_event t e) (update_sent n at old curr)
          → t ≡ delete)
unfolding service_events
handle_update-starts n at old curr services before now found =
    rw (update_sent-create n at old curr before now) (
      λ i service nth passed. (
        create_event-contains n at curr services found i service _ nth passed (inl refl),
        λ e m.
            create_event-contains n at curr services found i service _ nth passed
              (inr (Elem-map (endpoint_event delete) e _ m)),
      ),
      λ t e m. of_All-Elem OnlyDeletes _ _ (create_event-OnlyDeletes n at old curr) m e refl,
    )

-- The namespace is no longer watched, or is gone.
abbrev pub Stops :
    (n : NamespaceEventHandler) (at : ℕ → Surroundings) (old curr : KubeNamespace)
    → List Event
    → Type 0
Stops n at old curr events =
    (IsWatchedHere n old × (¬ IsWatchedHere n curr) × (events ≡ update_sent n at old curr))
    ⊎ (IsWatchedHere n curr × (events ≡ sent (handle_deleted n at (Object.namespace curr))))

stopped :
    (n : NamespaceEventHandler) (at : ℕ → Surroundings) (old curr : KubeNamespace)
    (events : List Event)
    → Stops n at old curr events
    → events ≡ handle_update_event n at curr delete
unfolding handle_deleted sent
stopped n at old curr events (inl (before, now, e)) =
    e ∙ update_sent-delete n at old curr before now
stopped n at old curr events (inr (now, e)) =
    e ∙ (rw (sent_all _ _ refl, is_watched n curr now) refl)

deletion-contains_service :
    (ns : String) (service : KubeService) (eps : List Endpoint)
    → Elem (event delete (Resource.service ns service.name)) (service_events delete ns service eps)
unfolding service_events
deletion-contains_service ns service eps =
    let last = event delete (Resource.service ns service.name) in
    Elem-append_right last (map (endpoint_event delete) eps) (last ∷ []) (inl refl)

deletion-contains_endpoint :
    (ns : String) (service : KubeService) (eps : List Endpoint) (e : Endpoint)
    → Elem e eps
    → Elem (endpoint_event delete e) (service_events delete ns service eps)
unfolding service_events
deletion-contains_endpoint ns service eps e m =
    Elem-append_left (endpoint_event delete e) (map (endpoint_event delete) eps) _
      (Elem-map (endpoint_event delete) e eps m)

-- When a namespace stops being watched, or is deleted while it is watched, and its services can
-- be listed, every service in it that passes is announced as deleted, with all its endpoints, and
-- so is the namespace.
pub handlers-stop :
    (n : NamespaceEventHandler) (at : ℕ → Surroundings) (old curr : KubeNamespace)
    (services : List KubeService) (events : List Event)
    → n.list_services curr.name ≡ ok services
    → Stops n at old curr events
    → Elem (event delete (Resource.namespace curr.name)) events
      × ((i : ℕ) (service : KubeService)
          → IsNth 0 services i service
          → (check_service (at i) service n.service_annotations).passed ≡ true
          → Elem (event delete (Resource.service curr.name service.name)) events
            × ((e : Endpoint)
                → Elem e (check_service (at i) service n.service_annotations).endpoints
                → Elem (endpoint_event delete e) events))
handlers-stop n at old curr services events found how = rw (stopped n at old curr events how) (
  delete-event-namespace n at curr services found,
  λ i service nth passed. (
    delete_event-contains n at curr services found i service
        (event delete (Resource.service curr.name service.name)) nth passed
        (deletion-contains_service curr.name service _),
    λ e m.
        delete_event-contains n at curr services found i service _ nth passed
          (deletion-contains_endpoint curr.name service _ e m),
  ),
)
