-- ===== src/ServiceRegistry/Worker.antt =====
-- pkg/serviceregistry/namespace_worker.go: what the worker of a namespace does with one event, over
-- any service registry. Errors are only logged, so they leave no trace but a call not made.
pub mod Ownership
pub mod Frame
pub mod Refines
pub mod Effects
mod Tests
use cnwan_operator.Common.{String, Bool, not, Option, List, [], ◌∷◌, if◌then◌else◌}
use cnwan_operator.Common.Result.{Result, ok, err}
use cnwan_operator.GoMap.{Map}
use cnwan_operator.ServiceRegistry.Events.{
  EventType, create, update, delete, Endpoint, Resource, Event, is_owned_by_operator,
}
use cnwan_operator.ServiceRegistry.Registry.{
  Place, in_namespace, in_service, in_endpoint, RegisterOption, with_metadata, with_address,
  with_port, Next, found, iterator_done, failed, Registry,
}

-- `nsop` stands for the namespace's name.
pub record NamespaceWorker : Type 0 where
  pub namespace : String
  pub persistent_meta : Map String

module _ (r : Registry) (n : NamespaceWorker) where
  open r use {State, register, get_metadata, next_child, deregister}

  unfoldable pub handle_create_update : Resource → State → State
  handle_create_update (Resource.namespace name) s =
      (register (in_namespace n.namespace) (with_metadata n.persistent_meta ∷ []) s).1
  handle_create_update (Resource.service ns name) s =
      (register (in_service n.namespace name) (with_metadata n.persistent_meta ∷ []) s).1
  handle_create_update (Resource.endpoint e) s =
      (register (in_endpoint n.namespace e.service e.name)
        (with_address e.address
          ∷ with_port e.port
          ∷ with_metadata e.metadata
          ∷ with_metadata n.persistent_meta
          ∷ [])
        s).1
  handle_create_update Resource.other s = s

  -- What follows a successful `Get` of an endpoint.
  delete_owned : Place → Result (Map String) → State → State
  delete_owned p (err e) s = s
  delete_owned p (ok metadata) s =
      if not (is_owned_by_operator metadata) then s else (deregister p s).1

  -- The `switch` on the first child.
  delete_childless : Place → Next → State → State
  delete_childless p (failed e) s = s
  delete_childless p found s = s
  delete_childless p iterator_done s = (deregister p s).1

  -- What follows a successful `Get` of a service or a namespace.
  delete_owned_childless : Place → Result (Map String) → State → State
  unfolding delete_childless
  delete_owned_childless p (err e) s = s
  delete_owned_childless p (ok metadata) s =
      if not (is_owned_by_operator metadata) then s else delete_childless p (next_child p s) s

  unfoldable pub handle_delete_endpoint : Endpoint → State → State
  unfolding delete_owned
  handle_delete_endpoint e s =
      let p = in_endpoint n.namespace e.service e.name in delete_owned p (get_metadata p s) s

  unfoldable pub handle_delete_service : String → State → State
  unfolding delete_owned_childless
  handle_delete_service name s =
      let p = in_service n.namespace name in delete_owned_childless p (get_metadata p s) s

  unfoldable pub handle_delete_namespace : State → State
  unfolding delete_owned_childless
  handle_delete_namespace s =
      let p = in_namespace n.namespace in delete_owned_childless p (get_metadata p s) s

  unfoldable pub handle_delete : Resource → State → State
  unfolding handle_delete_endpoint handle_delete_service handle_delete_namespace
  handle_delete (Resource.namespace name) s = handle_delete_namespace s
  handle_delete (Resource.service ns name) s = handle_delete_service name s
  handle_delete (Resource.endpoint e) s = handle_delete_endpoint e s
  handle_delete Resource.other s = s

  abbrev by_type : EventType → Resource → State → State
  by_type create object s = handle_create_update object s
  by_type update object s = handle_create_update object s
  by_type delete object s = handle_delete object s

  -- One round of `handleNamespacedEvents`.
  unfoldable pub handle_event : Event → State → State
  unfolding handle_create_update handle_delete
  handle_event event s = by_type event.event_type event.object s

  unfoldable pub handle_events : List Event → State → State
  unfolding handle_event
  handle_events [] s = s
  handle_events (event ∷ events) s = handle_events events (handle_event event s)
