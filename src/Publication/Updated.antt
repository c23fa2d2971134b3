-- ===== src/Publication/Updated.antt =====
-- A service is updated, and passes the check before and after.
use mathlib.Core.Path.{subst}
use cnwan_operator.Common.{
  String, none, some, List, ◌∷◌, map, ◌≡◌, ◌↔◌, ◌⊎◌, sym, inl, inr, Elem, All, of_All-Elem,
  All-of_Elem,
}
use cnwan_operator.GoMap.{get}
use cnwan_operator.ServiceRegistry.Events.{Endpoint}
use cnwan_operator.ServiceRegistry.Registry.{in_namespace, in_service, in_endpoint, Registry}
use cnwan_operator.ServiceRegistry.Registry.Reliable.{IsReliable, Represents}
use cnwan_operator.ServiceRegistry.Worker.{NamespaceWorker, handle_events}
use cnwan_operator.ServiceRegistry.Published.{Contents, apply, apply_events}
use cnwan_operator.Controllers.Objects.{Object, KubeService}
use cnwan_operator.Controllers.Check.{check_service, get_endpoints_map_from_slice}
use cnwan_operator.Controllers.Handling.{sent}
use cnwan_operator.Controllers.Handling.Ordered.{BelongsTo}
use cnwan_operator.Controllers.Services.{
  ServiceEventHandler, UpdateSurroundings, handle_update, changed_events, value,
}
use cnwan_operator.Controllers.Services.Belongs.{
  check_service-BelongsTo, map_from_slice-All, get_from_slice-All,
}
use cnwan_operator.Controllers.Services.Changes.{get-name}
use cnwan_operator.Controllers.Services.Diff.{named, keyed, Elem-visited, changed_events_lem}
use cnwan_operator.Controllers.Services.Hierarchy.{HasRearrangements, IsSameObject}
use cnwan_operator.Controllers.Services.Updates.{
  PassesBoth, old_named, curr_named, handle_update-changed,
}
use cnwan_operator.Publication.{IsShown}
use cnwan_operator.Publication.Created.{represented}
use cnwan_operator.Publication.Visited.{IsNamed, Elem-old_endpoint_events}

module _ (at : UpdateSurroundings) (curr : KubeService) (old_eps curr_eps : List Endpoint)
    (rearranges : HasRearrangements at)
    (old_belong : All (BelongsTo curr.namespace curr.name) old_eps)
    (curr_belong : All (BelongsTo curr.namespace curr.name) curr_eps) where
  visited : List Endpoint
  visited = at.old_order (map value (get_endpoints_map_from_slice old_eps))

  placed :
      (k : String) (e : Endpoint)
      → get k (get_endpoints_map_from_slice curr_eps) ≡ some e
      → (e.service ≡ curr.name) × (e.name ≡ k)
  placed k e found = (
    (get_from_slice-All (BelongsTo curr.namespace curr.name) curr_eps k e curr_belong found).1,
    sym (get-name k _ e (keyed curr_eps) found),
  )

  IsNamed-visited :
      (name : String) → IsNamed name visited ↔ ((was : Endpoint) × (named name old_eps ≡ some was))
  unfolding visited
  IsNamed-visited name = (
    λ (e, m, is). (
      e,
      subst (λ k. named k old_eps ≡ some e) is
          ((Elem-visited at.old_order old_eps e rearranges.0).0 m),
    ),
    λ (was, found).
        let is : name ≡ was.name = get-name name _ was (keyed old_eps) found in
        (
          was,
          (Elem-visited at.old_order old_eps was rearranges.0).1
              (subst (λ k. named k old_eps ≡ some was) is found),
          sym is,
        ),
  )

  -- The endpoint is in both versions, or it is there and is not dropped.
  abbrev pub Stays : String → Type 0 → Type 0
  Stays name P =
      (((was : Endpoint) × (named name old_eps ≡ some was))
        × ((is : Endpoint) × (named name curr_eps ≡ some is)))
      ⊎ (P
          × ¬ (((was : Endpoint) × (named name old_eps ≡ some was)) × (named name curr_eps ≡ none)))

  Elem-changed_events :
      (name : String) (c : Contents)
      → Elem
          (in_endpoint curr.namespace curr.name name)
          (apply_events curr.namespace (changed_events at curr old_eps curr_eps) c)
        ↔ Stays name (Elem (in_endpoint curr.namespace curr.name name) c)
  unfolding apply_events apply visited
  Elem-changed_events name c =
      let services =
        map_from_slice-All (BelongsTo curr.namespace curr.name) at.old_order old_eps rearranges.0
          old_belong in
      let kept =
        Elem-old_endpoint_events curr.namespace curr.name name
          (get_endpoints_map_from_slice curr_eps) placed visited
          (in_service curr.namespace curr.name ∷ in_namespace curr.namespace ∷ c)
          (All-of_Elem _ _
            (λ e m. (of_All-Elem (BelongsTo curr.namespace curr.name) visited e services m).1)) in
      let names = IsNamed-visited name in
      rw (changed_events_lem at curr old_eps curr_eps rearranges) (
        λ m. elim (kept.0 m) [
          | inl (n, found) ↦ inl (names.0 n, found)
          | inr (old, not_gone) ↦ inr (
            elim old [ inl e ↦ cc | inr (inl e) ↦ cc | inr (inr m) ↦ m ],
            λ (was, gone). not_gone (names.1 was, gone),
          )
        ],
        λ h. kept.1 (elim h [
          | inl (was, found) ↦ inl (names.1 was, found)
          | inr (m, not_gone) ↦ inr (inr (inr m), λ (n, gone). not_gone (names.0 n, gone))
        ]),
      )

-- Over a reliable registry that shows only what the operator has published, after the worker of the
-- namespace has handled what the update of a live service sent, whose two versions pass the check, an
-- endpoint of the service is shown if and only if both versions have one of its name, or it was shown
-- before and is not one that only the old version has. So an endpoint that only the new version has
-- is not shown, unless it was before.
pub handle_update-IsShown :
    (r : Registry) (n : NamespaceWorker) (s : ServiceEventHandler) (at : UpdateSurroundings)
    (old curr : KubeService) (st : Registry.State r) (c : Contents) (name : String)
    → IsReliable r
    → get "owner" n.persistent_meta ≡ some "cnwan-operator"
    → n.namespace ≡ curr.namespace
    → Represents r st c
    → HasRearrangements at
    → IsSameObject (Object.service old) (Object.service curr)
    → PassesBoth s at old curr
    → IsShown r
        (handle_events r n
          (sent (handle_update s at (Object.service old) (Object.service curr)))
          st)
        (in_endpoint curr.namespace curr.name name)
      ↔ ((((was : Endpoint) × (old_named s at old curr name ≡ some was))
            × ((is : Endpoint) × (curr_named s at old curr name ≡ some is)))
          ⊎ (IsShown r st (in_endpoint curr.namespace curr.name name)
              × ¬ (
                  ((was : Endpoint) × (old_named s at old curr name ≡ some was))
                  × (curr_named s at old curr name ≡ none))))
handle_update-IsShown r n s at old curr st c name reliable owner same rep rearranges
      (same_ns, same_name) passes =
    let old_eps = (check_service at.at_old old s.service_annotations).endpoints in
    let curr_eps = (check_service at.at_curr curr s.service_annotations).endpoints in
    let old_belong : All (BelongsTo curr.namespace curr.name) old_eps =
      rw (← same_ns, ← same_name) (check_service-BelongsTo at.at_old old s.service_annotations) in
    let curr_belong = check_service-BelongsTo at.at_curr curr s.service_annotations in
    let after =
      represented r n curr.namespace (changed_events at curr old_eps curr_eps) st c reliable owner
        same rep in
    let iff =
      Elem-changed_events at curr old_eps curr_eps rearranges old_belong curr_belong name c in
    rw (handle_update-changed s at old curr passes) (
      λ (m, h). elim (iff.0 (after.shown _ m h).0) [
        | inl both ↦ inl both
        | inr (old_one, not_gone) ↦ inr (rep.there _ old_one, not_gone)
      ],
      λ h. after.there _ (
          iff.1 (elim h [
            | inl both ↦ inl both
            | inr ((m, was), not_gone) ↦ inr ((rep.shown _ m was).0, not_gone)
          ])),
    )
