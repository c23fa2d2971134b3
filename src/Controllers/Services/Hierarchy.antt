-- ===== src/Controllers/Services/Hierarchy.antt =====
-- The events of every handler of services come in an order that the service registry can follow.
use cnwan_operator.Common.{
  String, some, List, [], ◌∷◌, ◌≡◌, refl, All, All-append, inl, inr, Bool-cases, Option-cases,
}
use cnwan_operator.Common.Orders.{Rearranges}
use cnwan_operator.GoMap.{Map, get, has}
use cnwan_operator.ServiceRegistry.Events.{create, Endpoint}
use cnwan_operator.Controllers.Objects.{Object, KubeService}
use cnwan_operator.Controllers.Check.{
  Surroundings, CheckServiceResult, check_service, get_endpoints_map_from_slice,
}
use cnwan_operator.Controllers.Handling.{sent}
use cnwan_operator.Controllers.Handling.Traces.{sent_all}
use cnwan_operator.Controllers.Handling.Ordered.{
  IsOrdered, IsOrdered-nil, BelongsTo, IsEndpointEvent, IsOrdered-create, IsOrdered-delete,
  All-IsEndpointEvent,
}
use cnwan_operator.Controllers.Services.{
  ServiceEventHandler, UpdateSurroundings, check_parent_namespace, create_all, delete_all,
  create_events, handle_create, handle_delete, old_endpoint_events, new_endpoint_events,
  changed_events, switch_events, live_events, update_services, handle_update,
}
use cnwan_operator.Controllers.Services.Belongs.{
  check_service-BelongsTo, map_from_slice-All, get_from_slice-All,
}

module _ (ns name : String) where
  old_endpoint_events-All :
      (curr : Map Endpoint) (eps : List Endpoint)
      → ((k : String) (e : Endpoint) → get k curr ≡ some e → BelongsTo ns name e)
      → All (BelongsTo ns name) eps
      → All (IsEndpointEvent ns name) (old_endpoint_events curr eps)
  unfolding old_endpoint_events
  old_endpoint_events-All curr [] at h = tt
  old_endpoint_events-All curr (ep ∷ eps) at (b, h) = (
    elim (Option-cases (get ep.name curr)) [
      | inl gone ↦ rw gone (ep, refl, b)
      | inr (e, found) ↦ rw found (e, refl, at ep.name e found)
    ],
    old_endpoint_events-All curr eps at h,
  )

  new_endpoint_events-All :
      (curr : Map Endpoint) (eps : List Endpoint)
      → All (BelongsTo ns name) eps
      → All (IsEndpointEvent ns name) (new_endpoint_events curr eps)
  unfolding new_endpoint_events
  new_endpoint_events-All curr [] h = tt
  new_endpoint_events-All curr (ep ∷ eps) (b, h) = elim (Bool-cases (has ep.name curr)) [
    | inl there ↦ rw there (new_endpoint_events-All curr eps h)
    | inr absent ↦ rw absent ((ep, refl, b), new_endpoint_events-All curr eps h)
  ]

create_all-IsOrdered :
    (service : KubeService) (eps : List Endpoint)
    → All (BelongsTo service.namespace service.name) eps
    → IsOrdered (create_all service eps)
unfolding create_all
create_all-IsOrdered service eps h =
    IsOrdered-create service.namespace service.name _
      (All-IsEndpointEvent service.namespace service.name create eps h)

delete_all-IsOrdered :
    (service : KubeService) (eps : List Endpoint) → IsOrdered (delete_all service eps)
unfolding delete_all
delete_all-IsOrdered service eps = IsOrdered-delete service.namespace service.name eps

-- The orders in which an update visits its two maps are rearrangements.
abbrev pub HasRearrangements : UpdateSurroundings → Type 0
HasRearrangements at = Rearranges at.old_order × Rearranges at.curr_order

changed_events-IsOrdered :
    (at : UpdateSurroundings) (curr : KubeService) (old_eps curr_eps : List Endpoint)
    → HasRearrangements at
    → All (BelongsTo curr.namespace curr.name) old_eps
    → All (BelongsTo curr.namespace curr.name) curr_eps
    → IsOrdered (changed_events at curr old_eps curr_eps)
unfolding changed_events
changed_events-IsOrdered at curr old_eps curr_eps rearranges old_belong curr_belong =
    let P = BelongsTo curr.namespace curr.name in
    IsOrdered-create curr.namespace curr.name _ (
      All-append (IsEndpointEvent curr.namespace curr.name) _ _
        (old_endpoint_events-All curr.namespace curr.name (get_endpoints_map_from_slice curr_eps) _
          (λ k e found. get_from_slice-All P curr_eps k e curr_belong found)
          (map_from_slice-All P at.old_order old_eps rearranges.0 old_belong))
        (new_endpoint_events-All curr.namespace curr.name (get_endpoints_map_from_slice curr_eps) _
          (map_from_slice-All P at.curr_order curr_eps rearranges.1 curr_belong)))

switch_events-IsOrdered :
    (at : UpdateSurroundings) (old curr : KubeService)
    (old_checked curr_checked : CheckServiceResult)
    → HasRearrangements at
    → All (BelongsTo curr.namespace curr.name) old_checked.endpoints
    → All (BelongsTo curr.namespace curr.name) curr_checked.endpoints
    → IsOrdered (switch_events at old curr old_checked curr_checked)
unfolding switch_events
switch_events-IsOrdered at old curr old_checked curr_checked rearranges old_belong curr_belong =
    elim (Bool-cases old_checked.passed) [
      | inl was ↦ elim (Bool-cases curr_checked.passed) [
        | inl is ↦
            rw (was, is) (changed_events-IsOrdered at curr _ _ rearranges old_belong curr_belong)
        | inr not_any_more ↦ rw (was, not_any_more) (delete_all-IsOrdered old _)
      ]
      | inr was_not ↦ elim (Bool-cases curr_checked.passed) [
        | inl is ↦ rw (was_not, is) (create_all-IsOrdered curr _ curr_belong)
        | inr is_not ↦ rw (was_not, is_not) IsOrdered-nil
      ]
    ]

-- An update shows one object before and after: its namespace and name do not change.
abbrev pub IsSameObject : Object → Object → Type 0
IsSameObject (Object.service old) (Object.service curr) =
    (old.namespace ≡ curr.namespace) × (old.name ≡ curr.name)
IsSameObject _ _ = Unit

module _ (s : ServiceEventHandler) where
  create_events-IsOrdered :
      (at : Surroundings) (object : Object) → IsOrdered (create_events s at object)
  unfolding create_events
  create_events-IsOrdered at (Object.namespace ns) = IsOrdered-nil
  create_events-IsOrdered at (Object.other kind) = IsOrdered-nil
  create_events-IsOrdered at (Object.service service) =
      elim (Bool-cases (check_parent_namespace s service).0) [
        | inr no_watch ↦ rw no_watch IsOrdered-nil
        | inl watch ↦ elim (Bool-cases (check_service at service s.service_annotations).passed) [
          | inr failed ↦ rw (watch, failed) IsOrdered-nil
          | inl passed ↦
              rw (watch, passed)
                (create_all-IsOrdered service _
                  (check_service-BelongsTo at service s.service_annotations))
        ]
      ]

  handle_delete-IsOrdered :
      (at : Surroundings) (service : KubeService) → IsOrdered (handle_delete s at service)
  unfolding handle_delete
  handle_delete-IsOrdered at service = elim (Bool-cases (check_parent_namespace s service).0) [
    | inr no_watch ↦ rw no_watch IsOrdered-nil
    | inl watch ↦ rw watch (delete_all-IsOrdered service _)
  ]

  live_events-IsOrdered :
      (at : UpdateSurroundings) (old curr : KubeService)
      → HasRearrangements at
      → IsSameObject (Object.service old) (Object.service curr)
      → IsOrdered (live_events s at old curr)
  unfolding live_events
  live_events-IsOrdered at old curr rearranges (same_ns, same_name) =
      elim (Bool-cases (check_parent_namespace s curr).0) [
        | inr no_watch ↦ rw no_watch IsOrdered-nil
        | inl watch ↦ rw watch (
            switch_events-IsOrdered at old curr _ _ rearranges
              (rw (← same_ns, ← same_name)
                (check_service-BelongsTo at.at_old old s.service_annotations))
              (check_service-BelongsTo at.at_curr curr s.service_annotations))
      ]

  update_services-IsOrdered :
      (at : UpdateSurroundings) (old curr : KubeService)
      → HasRearrangements at
      → IsSameObject (Object.service old) (Object.service curr)
      → IsOrdered (sent (update_services s at old curr))
  unfolding update_services sent
  update_services-IsOrdered at old curr rearranges same = elim (Option-cases curr.deleted_at) [
    | inl live ↦
        simp live (rw (sent_all _ _ refl) (live_events-IsOrdered at old curr rearranges same))
    | inr (now, deleted) ↦ elim (Option-cases old.deleted_at) [
      | inl first ↦
          simp (deleted, first) (rw (sent_all _ _ refl) (handle_delete-IsOrdered at.at_curr curr))
      | inr (before, again) ↦ simp (deleted, again) IsOrdered-nil
    ]
  ]

  handle_update-IsOrdered :
      (at : UpdateSurroundings) (object_old object_new : Object)
      → HasRearrangements at
      → IsSameObject object_old object_new
      → IsOrdered (sent (handle_update s at object_old object_new))
  unfolding handle_update sent
  handle_update-IsOrdered at (Object.service old) (Object.service curr) rearranges same =
      update_services-IsOrdered at old curr rearranges same
  handle_update-IsOrdered at _ _ rearranges same = IsOrdered-nil

-- In the events of a service's creation, and in those of an update whose two versions have one
-- name and namespace, a namespace is created before its services and a service before its
-- endpoints are created or updated, and after the deletion of a service nothing names an endpoint
-- of it.
pub handlers-IsOrdered :
    (s : ServiceEventHandler) (at : Surroundings) (at_update : UpdateSurroundings)
    (object_old object_new : Object)
    → HasRearrangements at_update
    → IsSameObject object_old object_new
    → IsOrdered (sent (handle_create s at object_new))
      × IsOrdered (sent (handle_update s at_update object_old object_new))
unfolding handle_create sent
handlers-IsOrdered s at at_update object_old object_new rearranges same = (
  rw (sent_all _ _ refl) (create_events-IsOrdered s at object_new),
  handle_update-IsOrdered s at_update object_old object_new rearranges same,
)
