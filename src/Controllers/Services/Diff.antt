-- ===== src/Controllers/Services/Diff.antt =====
-- The events of an update between two versions that pass, in terms of the endpoints by name.
use cnwan_operator.Common.{
  String, Option, none, some, List, [], map, ◌≡◌, ◌≢◌, ◌↔◌, refl, ap, ◌∷◌, arith, Elem, All-of_Elem,
  inl, inr,
}
use mathlib.Core.Path.{subst}
use mathlib.Core.List.{append-nil}
use cnwan_operator.Common.Orders.{Rearranges, Permᴰ-Elem, Permᴰ_symm}
use cnwan_operator.GoMap.{get}
use cnwan_operator.GoMap.Laws.{has-get}
use cnwan_operator.ServiceRegistry.Events.{
  EventType, create, update, delete, Endpoint, Resource, Event,
}
use cnwan_operator.Controllers.Objects.{KubeService}
use cnwan_operator.Controllers.Check.{get_endpoints_map_from_slice}
use cnwan_operator.Controllers.Handling.{event, endpoint_event}
use cnwan_operator.Controllers.Services.{
  UpdateSurroundings, value, old_endpoint_events, new_endpoint_events, changed_events,
}
use cnwan_operator.Controllers.Services.Hierarchy.{HasRearrangements}
use cnwan_operator.Controllers.Services.Changes.{
  IsKeyedByName, from_slice-IsKeyedByName, get-name, Elem-values, old_endpoint_events-sent,
  old_endpoint_events-delete, old_endpoint_events-update, new_endpoint_events-nil,
}

pub keyed : (eps : List Endpoint) → IsKeyedByName (get_endpoints_map_from_slice eps)
unfolding get_endpoints_map_from_slice
keyed eps = from_slice-IsKeyedByName eps [] tt

-- The endpoint that stands under a name in the slice: the last one of that name.
abbrev pub named : String → List Endpoint → Option Endpoint
named name eps = get name (get_endpoints_map_from_slice eps)

pub Elem-visited :
    (order : List Endpoint → List Endpoint) (eps : List Endpoint) (e : Endpoint)
    → Rearranges order
    → Elem e (order (map value (get_endpoints_map_from_slice eps))) ↔ (named e.name eps ≡ some e)
Elem-visited order eps e rearranges = (
  λ m. (Elem-values _ e (keyed eps)).0 (Permᴰ-Elem (rearranges _) e m),
  λ found. Permᴰ-Elem (Permᴰ_symm (rearranges _)) e ((Elem-values _ e (keyed eps)).1 found),
)

not_namespace :
    (t t' : EventType) (e : Endpoint) (ns : String)
    → endpoint_event t e ≢ event t' (Resource.namespace ns)
not_namespace t t' e ns h =
    let q : Resource.endpoint e ≡ Resource.namespace ns = ap (λ (ev : Event). ev.object) h in cc

not_service :
    (t t' : EventType) (e : Endpoint) (ns name : String)
    → endpoint_event t e ≢ event t' (Resource.service ns name)
not_service t t' e ns name h =
    let q : Resource.endpoint e ≡ Resource.service ns name = ap (λ (ev : Event). ev.object) h in cc

module _ (at : UpdateSurroundings) (curr : KubeService) (old_eps curr_eps : List Endpoint)
    (rearranges : HasRearrangements at) where
  abbrev pub first_loop : List Event
  first_loop =
      old_endpoint_events (get_endpoints_map_from_slice curr_eps)
        (at.old_order (map value (get_endpoints_map_from_slice old_eps)))

  second_loop :
      new_endpoint_events
        (get_endpoints_map_from_slice curr_eps)
        (at.curr_order (map value (get_endpoints_map_from_slice curr_eps)))
      ≡ []
  second_loop = new_endpoint_events-nil _ _ (
      All-of_Elem _ _ λ e m.
        let found = (Elem-visited at.curr_order curr_eps e rearranges.1).0 m in
        ground (arith, has-get e.name (get_endpoints_map_from_slice curr_eps), found))

  pub changed_events_lem :
      changed_events at curr old_eps curr_eps
      ≡ event create (Resource.namespace curr.namespace)
        ∷ event create (Resource.service curr.namespace curr.name)
        ∷ first_loop
  unfolding changed_events
  changed_events_lem = rw (second_loop, append-nil) refl

  pub changed_events-first_loop :
      (t : EventType) (e : Endpoint)
      → Elem (endpoint_event t e) (changed_events at curr old_eps curr_eps)
        ↔ Elem (endpoint_event t e) first_loop
  unfolding changed_events
  changed_events-first_loop t e =
      rw (second_loop, append-nil)
        (
          λ m. elim m [
            | inl h ↦ absurd (not_namespace t create e _ h)
            | inr n ↦ elim n [ inl h ↦ absurd (not_service t create e _ _ h) | inr there ↦ there ]
          ],
          λ there. inr (inr there),
        )

  pub delete_iff :
      (e : Endpoint)
      → Elem (endpoint_event delete e) first_loop
        ↔ ((named e.name old_eps ≡ some e) × (named e.name curr_eps ≡ none))
  delete_iff e = (
    λ m. elim (old_endpoint_events-sent _ _ delete e m) [
      | inl (_, there, gone) ↦ ((Elem-visited at.old_order old_eps e rearranges.0).0 there, gone)
      | inr other ↦ absurd (cc (other.0))
    ],
    λ (was, gone).
        old_endpoint_events-delete _ _ e ((Elem-visited at.old_order old_eps e rearranges.0).1 was)
          gone,
  )

  pub update_iff :
      (e : Endpoint)
      → Elem (endpoint_event update e) first_loop
        ↔ ((named e.name curr_eps ≡ some e) × (old : Endpoint) × (named e.name old_eps ≡ some old))
  update_iff e = (
    λ m. elim (old_endpoint_events-sent _ _ update e m) [
      | inl other ↦ absurd (cc (other.0))
      | inr (_, ep, there, found) ↦
          let same : ep.name ≡ e.name = get-name ep.name _ e (keyed curr_eps) found in
          (
            subst (λ k. named k curr_eps ≡ some e) same found,
            ep,
            subst (λ k. named k old_eps ≡ some ep) same
                ((Elem-visited at.old_order old_eps ep rearranges.0).0 there),
          )
    ],
    λ (is, old, was).
        let same : e.name ≡ old.name = get-name e.name _ old (keyed old_eps) was in
        old_endpoint_events-update _ _ old e
          ((Elem-visited at.old_order old_eps old rearranges.0).1
            (subst (λ k. named k old_eps ≡ some old) same was))
          (subst (λ k. named k curr_eps ≡ some e) same is),
  )

  pub not_create : (e : Endpoint) → ¬ Elem (endpoint_event create e) first_loop
  not_create e m = elim (old_endpoint_events-sent _ _ create e m) [
    | inl other ↦ cc (other.0)
    | inr other ↦ cc (other.0)
  ]
