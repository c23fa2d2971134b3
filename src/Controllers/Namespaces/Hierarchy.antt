-- ===== src/Controllers/Namespaces/Hierarchy.antt =====
-- The events of the handlers of namespaces come in an order that the service registry can follow.
use cnwan_operator.Common.{
  list_laws, ℕ, suc, String, List, [], ◌∷◌, ◌++◌, map, ◌≡◌, refl, All-append, inl, inr, Bool-cases,
}
use cnwan_operator.Common.Result.{ok, Result-cases}
use cnwan_operator.Common.Orders.{IsDistinct}
use cnwan_operator.ServiceRegistry.Events.{create, delete, Endpoint, Resource, Event}
use cnwan_operator.Controllers.Objects.{Object, KubeService, KubeNamespace}
use cnwan_operator.Controllers.Check.{Surroundings, check_service, check_ns_labels}
use cnwan_operator.Controllers.Handling.{event, endpoint_event, sent}
use cnwan_operator.Controllers.Handling.Traces.{sent_all}
use cnwan_operator.Controllers.Handling.Ordered.{
  IsOrdered, IsOrdered-nil, ChildrenFirst, Closes-endpoint,
}
use cnwan_operator.Controllers.Namespaces.{
  NamespaceEventHandler, service_events, services_events, handle_update_event, update_events,
  handle_update, deleted_events, handle_deleted,
}
use cnwan_operator.Controllers.Namespaces.Placed.{
  services_events-IsPlaced, AvoidsService, deletions-AvoidsService, ParentsFirst-of_IsPlaced,
  IsDeletion, ParentsFirst-of_deletes, services_events-IsDeletion,
}

ChildrenFirst-deletes :
    (eps : List Endpoint) (tail : List Event)
    → ChildrenFirst tail
    → ChildrenFirst (map (endpoint_event delete) eps ++ tail)
ChildrenFirst-deletes [] tail h = h
ChildrenFirst-deletes (e ∷ eps) tail h =
    (Closes-endpoint delete e _, ChildrenFirst-deletes eps tail h)

module _ (annotations : List String) (at : ℕ → Surroundings) (ns : String) where
  creations-ChildrenFirst :
      (n : ℕ) (services : List KubeService)
      → ChildrenFirst (services_events annotations at create ns n services)
  unfolding services_events service_events
  creations-ChildrenFirst n [] = tt
  creations-ChildrenFirst n (service ∷ services) =
      elim (Bool-cases (check_service (at n) service annotations).passed) [
        | inr failed ↦ rw failed (creations-ChildrenFirst (suc n) services)
        | inl passed ↦
            rw passed (tt, ChildrenFirst-deletes _ _ (creations-ChildrenFirst (suc n) services))
      ]

  deletions-ChildrenFirst :
      (n : ℕ) (services : List KubeService)
      → IsDistinct (map (λ (s : KubeService). s.name) services)
      → ChildrenFirst (
          services_events annotations at delete ns n services
          ++ event delete (Resource.namespace ns) ∷ [])
  unfolding services_events service_events
  deletions-ChildrenFirst n [] h = (tt, tt)
  deletions-ChildrenFirst n (service ∷ services) (fresh, h) =
      elim (Bool-cases (check_service (at n) service annotations).passed) [
        | inr failed ↦ rw failed (deletions-ChildrenFirst (suc n) services h)
        | inl passed ↦
            let eps = (check_service (at n) service annotations).endpoints in
            let later =
              services_events annotations at delete ns (suc n) services
              ++ event delete (Resource.namespace ns) ∷ [] in
            simp (passed, list_laws)
              (ChildrenFirst-deletes eps (event delete (Resource.service ns service.name) ∷ later) (
                All-append (AvoidsService annotations at ns service.name) _ _
                    (deletions-AvoidsService annotations at ns service.name (suc n) services fresh)
                    (tt, tt),
                deletions-ChildrenFirst (suc n) services h,
              ))
      ]

-- The names of services in one namespace differ.
abbrev pub HasDistinctServices : NamespaceEventHandler → String → Type 0
HasDistinctServices n ns =
    (services : List KubeService)
    → n.list_services ns ≡ ok services
    → IsDistinct (map (λ (s : KubeService). s.name) services)

module _ (n : NamespaceEventHandler) (at : ℕ → Surroundings) (ns : KubeNamespace)
    (distinct : HasDistinctServices n ns.name) where
  create_event-IsOrdered : IsOrdered (handle_update_event n at ns create)
  unfolding handle_update_event
  create_event-IsOrdered = elim (Result-cases (n.list_services ns.name)) [
    | inr (e, failed) ↦ rw failed IsOrdered-nil
    | inl (services, found) ↦ rw found (record {
      parents_first = (
        tt,
        ParentsFirst-of_IsPlaced ns.name _ _ (inl refl)
            (services_events-IsPlaced n.service_annotations at ns.name create 0 services),
      );
      children_first = (tt, creations-ChildrenFirst n.service_annotations at ns.name 0 services);
    })
  ]

  delete_event-IsOrdered : IsOrdered (handle_update_event n at ns delete)
  unfolding handle_update_event
  delete_event-IsOrdered = elim (Result-cases (n.list_services ns.name)) [
    | inr (e, failed) ↦ rw failed IsOrdered-nil
    | inl (services, found) ↦ rw found (record {
      parents_first = ParentsFirst-of_deletes [] _ (
          All-append IsDeletion _ _
            (services_events-IsDeletion n.service_annotations at ns.name 0 services) (refl, tt));
      children_first =
          deletions-ChildrenFirst n.service_annotations at ns.name 0 services
            (distinct services found);
    })
  ]

  update_events-IsOrdered : (old : KubeNamespace) → IsOrdered (update_events n at old ns)
  unfolding update_events
  update_events-IsOrdered old =
      elim (Bool-cases (check_ns_labels old.labels n.watch_namespaces_by_default)) [
        | inl before ↦ elim (Bool-cases (check_ns_labels ns.labels n.watch_namespaces_by_default)) [
          | inl now ↦ rw (before, now) IsOrdered-nil
          | inr not_now ↦ rw (before, not_now) delete_event-IsOrdered
        ]
        | inr not_before ↦
            elim (Bool-cases (check_ns_labels ns.labels n.watch_namespaces_by_default)) [
              | inl now ↦ rw (not_before, now) create_event-IsOrdered
              | inr not_now ↦ rw (not_before, not_now) IsOrdered-nil
            ]
      ]

  deleted_events-IsOrdered : IsOrdered (deleted_events n at (Object.namespace ns))
  unfolding deleted_events
  deleted_events-IsOrdered =
      elim (Bool-cases (check_ns_labels ns.labels n.watch_namespaces_by_default)) [
        | inl watched ↦ rw watched delete_event-IsOrdered
        | inr not_watched ↦ rw not_watched IsOrdered-nil
      ]

-- If no two services of a namespace are listed under one name, then in what its update or
-- deletion sends its creation comes before that of its services, and once a service or the
-- namespace was announced as deleted nothing under it is named.
pub namespace_handlers-IsOrdered :
    (n : NamespaceEventHandler) (at : ℕ → Surroundings) (old curr : KubeNamespace)
    → HasDistinctServices n curr.name
    → IsOrdered (sent (handle_update n at (Object.namespace old) (Object.namespace curr)))
      × IsOrdered (sent (handle_deleted n at (Object.namespace curr)))
unfolding handle_update handle_deleted sent
namespace_handlers-IsOrdered n at old curr distinct = (
  rw (sent_all _ _ refl) (update_events-IsOrdered n at curr distinct old),
  rw (sent_all _ _ refl) (deleted_events-IsOrdered n at curr distinct),
)
