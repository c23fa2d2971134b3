-- ===== src/Controllers/Namespaces.antt =====
-- pkg/controllers/namespace.go: the handlers of namespace events. Each returns its actions; what it
-- is told by the cluster and the name service is an argument.
pub mod Placed
pub mod Hierarchy
pub mod Listed
pub mod Sent
mod Tests
use cnwan_operator.Common.{
  ℕ, suc, ◌+◌, String, Bool, true, false, not, Option, none, some, List, [], ◌∷◌, ◌++◌, map, ◌&&◌,
  if◌then◌else◌,
}
use cnwan_operator.Common.Result.{Result, ok, err}
use cnwan_operator.ServiceRegistry.Events.{
  EventType, create, update, delete, Endpoint, Resource, Event,
}
use cnwan_operator.Controllers.Objects.{Object, KubeService, KubeNamespace}
use cnwan_operator.Controllers.Check.{
  Surroundings, CheckServiceResult, check_service, check_ns_labels,
}
use cnwan_operator.Controllers.Handling.{
  ControllerOptions, Action, done, send_all, event, endpoint_event,
}

-- `list_services` is the client's `List` of the services in a namespace, which may fail.
pub record NamespaceEventHandler : Type 0 where
  pub options : ControllerOptions
  pub open options use *
  pub list_services : String → Result (List KubeService)

-- The body of the anonymous function: the service's own event comes first, or is deferred.
unfoldable pub service_events : EventType → String → KubeService → List Endpoint → List Event
service_events create ns service endpoints =
    event create (Resource.service ns service.name) ∷ map (endpoint_event delete) endpoints
service_events delete ns service endpoints =
    map (endpoint_event delete) endpoints ++ event delete (Resource.service ns service.name) ∷ []
service_events update ns service endpoints = map (endpoint_event delete) endpoints

-- The loop over the services; the n-th check has its own surroundings.
pub services_events :
    List String → (ℕ → Surroundings) → EventType → String → ℕ → List KubeService → List Event
unfolding service_events
services_events annotations at t ns n [] = []
services_events annotations at t ns n (service ∷ services) =
    let checked = check_service (at n) service annotations in
    let rest = services_events annotations at t ns (suc n) services in
    if not checked.passed then rest else service_events t ns service checked.endpoints ++ rest

-- `sendNsEvent` runs before the loop, or is deferred.
around : EventType → String → List Event → List Event
around create ns events = event create (Resource.namespace ns) ∷ events
around delete ns events = events ++ event delete (Resource.namespace ns) ∷ []
around update ns events = events

listed_events :
    NamespaceEventHandler
    → (ℕ → Surroundings)
    → EventType
    → String
    → Result (List KubeService)
    → List Event
unfolding services_events around
listed_events n at t ns (err e) = []
listed_events n at t ns (ok services) =
    around t ns (services_events n.service_annotations at t ns 0 services)

unfoldable pub handle_update_event :
    NamespaceEventHandler → (ℕ → Surroundings) → KubeNamespace → EventType → List Event
unfolding listed_events
handle_update_event n at namespace t =
    listed_events n at t namespace.name (n.list_services namespace.name)

unfoldable pub update_events :
    NamespaceEventHandler → (ℕ → Surroundings) → KubeNamespace → KubeNamespace → List Event
unfolding handle_update_event
update_events n at old curr =
    let watch_now = check_ns_labels curr.labels n.watch_namespaces_by_default in
    let watched_before = check_ns_labels old.labels n.watch_namespaces_by_default in
    if watched_before && watch_now
    then []
    else if watched_before && not watch_now
    then handle_update_event n at curr delete
    else if not watched_before && watch_now
    then handle_update_event n at curr create
    else []

unfoldable pub handle_update :
    NamespaceEventHandler → (ℕ → Surroundings) → (object_old object_new : Object) → List Action
unfolding update_events
handle_update n at (Object.namespace old) (Object.namespace curr) =
    send_all (update_events n at old curr) ++ done (Object.namespace curr) ∷ []
handle_update n at _ object_new = done object_new ∷ []

-- The namespace is created once an appropriate service appears.
unfoldable pub handle_create : Object → List Action
handle_create object = done object ∷ []

deleted_events : NamespaceEventHandler → (ℕ → Surroundings) → Object → List Event
unfolding handle_update_event
deleted_events n at (Object.namespace ns) =
    if not (check_ns_labels ns.labels n.watch_namespaces_by_default)
    then []
    else handle_update_event n at ns delete
deleted_events n at _ = []

unfoldable pub handle_deleted : NamespaceEventHandler → (ℕ → Surroundings) → Object → List Action
unfolding deleted_events
handle_deleted n at object = send_all (deleted_events n at object) ++ done object ∷ []

unfoldable pub handle_generic : Object → List Action
handle_generic object = done object ∷ []
