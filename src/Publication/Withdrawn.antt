-- ===== src/Publication/Withdrawn.antt =====
-- A service is created and then marked for deletion.
use mathlib.Core.Path.{subst}
use cnwan_operator.Common.{
  ℕ, String, true, false, none, some, List, map, ◌≡◌, ◌≢◌, ◌↔◌, ◌⊎◌, refl, sym, inl, inr, Elem,
  Bool-cases, All, of_All-Elem,
}
use cnwan_operator.GoMap.{get}
use cnwan_operator.ServiceRegistry.Events.{delete, Endpoint}
use cnwan_operator.ServiceRegistry.Registry.{Place, in_namespace, in_service, IsUnder, Registry}
use cnwan_operator.ServiceRegistry.Registry.Reliable.{IsReliable, Represents}
use cnwan_operator.ServiceRegistry.Worker.{NamespaceWorker, handle_events}
use cnwan_operator.ServiceRegistry.Published.{Contents, has_child, apply, apply_events}
use cnwan_operator.ServiceRegistry.Published.Contents.{has_child_iff, Elem-retract}
use cnwan_operator.ServiceRegistry.Published.Series.{
  on_endpoint, apply_events-append, Elem-apply_events-delete,
}
use cnwan_operator.Controllers.Objects.{Object, KubeService}
use cnwan_operator.Controllers.Check.{Surroundings, check_service, make_endpoint}
use cnwan_operator.Controllers.Addresses.{get_ips_from_service}
use cnwan_operator.Controllers.Handling.{sent}
use cnwan_operator.Controllers.Handling.Traces.{sent_all}
use cnwan_operator.Controllers.Handling.Ordered.{BelongsTo}
use cnwan_operator.Controllers.Services.{
  ServiceEventHandler, UpdateSurroundings, create_all, delete_all, handle_create, handle_delete,
  handle_update, update_services,
}
use cnwan_operator.Controllers.Services.Belongs.{check_service-BelongsTo}
use cnwan_operator.Controllers.Services.Silence.{
  IsInWatchedNamespace, check_parent_namespace-IsInWatchedNamespace,
}
use cnwan_operator.Publication.{IsShown}
use cnwan_operator.Publication.Created.{
  handle_create-passed, Elem-create_all, represented, IsShown-iff,
}

-- The service when its deletion has been asked for.
abbrev pub marked : ℕ → KubeService → KubeService
marked now service = record service { deleted_at = some now }

check_service-marked :
    (at : Surroundings) (now : ℕ) (service : KubeService) (keep : List String)
    → check_service at (marked now service) keep ≡ check_service at service keep
unfolding check_service make_endpoint get_ips_from_service
check_service-marked at now service keep = refl

handle_update-marked :
    (s : ServiceEventHandler) (at : UpdateSurroundings) (now : ℕ) (service : KubeService)
    → IsInWatchedNamespace s service
    → service.deleted_at ≡ none
    → sent (handle_update s at (Object.service service) (Object.service (marked now service)))
      ≡ delete_all service (check_service at.at_curr service s.service_annotations).endpoints
unfolding handle_update update_services handle_delete sent
handle_update-marked s at now service watched live =
    let watch = (check_parent_namespace-IsInWatchedNamespace s service).1 watched in
    simp live (
      rw
        (
          sent_all _ _ refl,
          watch,
          check_service-marked at.at_curr now service s.service_annotations,
        )
        refl)

module _ (service : KubeService) (eps : List Endpoint) (c : Contents)
    (belong : All (BelongsTo service.namespace service.name) eps)
    (new : (q : Place)
      → Elem q c
      → (q ≢ in_service service.namespace service.name)
        × ¬ IsUnder (in_service service.namespace service.name) q) where
  service_place : Place
  service_place = in_service service.namespace service.name

  created : Contents
  created = apply_events service.namespace (create_all service eps) c

  without_endpoints : Contents
  without_endpoints = apply_events service.namespace (map (on_endpoint delete) eps) created

  Elem-without_endpoints :
      (q : Place)
      → Elem q without_endpoints ↔ (
          (Elem q c ⊎ (q ≡ in_namespace service.namespace))
          ⊎ (q ≡ in_service service.namespace service.name))
  unfolding without_endpoints created
  Elem-without_endpoints q =
      let left = Elem-apply_events-delete service.namespace eps created q in
      let all = Elem-create_all service eps c q in
      (
        λ m. elim (all.0 (left.0 m).0) [
          | inl old ↦ inl (inl old)
          | inr (inl e) ↦ inl (inr e)
          | inr (inr (inl e)) ↦ inr e
          | inr (inr (inr endpoint)) ↦ absurd ((left.0 m).1 endpoint)
        ],
        λ h. left.1 (elim h [
          | inl (inl old) ↦ (
            all.1 (inl old),
            λ (ep, m, e).
                let (_, at_name) =
                  of_All-Elem (BelongsTo service.namespace service.name) eps ep belong m in
                (new q old).1 (rw e (refl, sym at_name)),
          )
          | inl (inr e) ↦ (all.1 (inr (inl e)), λ (ep, m, e'). cc (e, e'))
          | inr e ↦ (all.1 (inr (inr (inl e))), λ (ep, m, e'). cc (e, e'))
        ]),
      )

  childless : has_child (in_service service.namespace service.name) without_endpoints ≡ false
  childless =
      elim (Bool-cases (has_child (in_service service.namespace service.name) without_endpoints)) [
        | inr e ↦ e
        | inl parent ↦
            let (q, under, m) = (has_child_iff _ without_endpoints).0 parent in
            absurd (elim ((Elem-without_endpoints q).0 m) [
              | inl (inl old) ↦ (new q old).1 under
              | inl (inr e) ↦
                  subst (λ (p : Place). IsUnder (in_service service.namespace service.name) p) e
                    under
              | inr e ↦
                  subst (λ (p : Place). IsUnder (in_service service.namespace service.name) p) e
                    under
            ])
      ]

  Elem-delete_all :
      (q : Place)
      → Elem q (apply_events service.namespace (delete_all service eps) created)
        ↔ (Elem q c ⊎ (q ≡ in_namespace service.namespace))
  unfolding delete_all apply_events apply without_endpoints
  Elem-delete_all q =
      rw (apply_events-append service.namespace (map (on_endpoint delete) eps) _ created) (
        λ m.
            let (kept, why) =
              (Elem-retract (in_service service.namespace service.name) q without_endpoints).0 m in
            elim ((Elem-without_endpoints q).0 kept) [
              | inl h ↦ h
              | inr e ↦ elim why [
                | inl ne ↦ absurd (ne (sym e))
                | inr parent ↦ cc (parent, childless)
              ]
            ],
        λ h. (Elem-retract (in_service service.namespace service.name) q without_endpoints).1 (
          (Elem-without_endpoints q).1 (inl h),
          inl (λ e. elim h [ inl old ↦ (new q old).0 (sym e) | inr e' ↦ cc (e, e') ]),
        ),
      )

-- A service that passes the check, in a watched namespace, is published by its creation and
-- withdrawn when it is marked for deletion: over a reliable registry that shows only what the
-- operator has published and nothing of the service, if both checks find the same endpoints, then
-- after the worker has handled the events of both, a place is shown if and only if it was shown
-- before or is that of the namespace.
pub handle_update-handle_create :
    (r : Registry) (n : NamespaceWorker) (s : ServiceEventHandler) (at : Surroundings)
    (at_update : UpdateSurroundings) (service : KubeService) (now : ℕ) (st : Registry.State r)
    (c : Contents) (q : Place)
    → IsReliable r
    → get "owner" n.persistent_meta ≡ some "cnwan-operator"
    → n.namespace ≡ service.namespace
    → Represents r st c
    → IsInWatchedNamespace s service
    → (check_service at service s.service_annotations).passed ≡ true
    → (check_service at_update.at_curr service s.service_annotations).endpoints
      ≡ (check_service at service s.service_annotations).endpoints
    → service.deleted_at ≡ none
    → ((p : Place)
        → IsShown r st p
        → (p ≢ in_service service.namespace service.name)
          × ¬ IsUnder (in_service service.namespace service.name) p)
    → IsShown r
        (handle_events r n
          (sent (
            handle_update s at_update
              (Object.service service)
              (Object.service (marked now service))))
          (handle_events r n (sent (handle_create s at (Object.service service))) st))
        q
      ↔ (IsShown r st q ⊎ (q ≡ in_namespace service.namespace))
unfolding apply_events created
handle_update-handle_create r n s at at_update service now st c q reliable owner same rep watched
      passed checks live new =
    let eps = (check_service at service s.service_annotations).endpoints in
    let belong = check_service-BelongsTo at service s.service_annotations in
    let before : (p : Place)
        → Elem p c
        → (p ≢ in_service service.namespace service.name)
          × ¬ IsUnder (in_service service.namespace service.name) p =
      λ p old. new p (rep.there p old) in
    let middle =
      represented r n service.namespace (create_all service eps) st c reliable owner same rep in
    let after =
      represented r n service.namespace (delete_all service eps) _ _ reliable owner same middle in
    rw
      (
        handle_create-passed s at service watched passed,
        handle_update-marked s at_update now service watched live,
        checks,
      )
      (IsShown-iff r st _ c _ _ q rep after (Elem-delete_all service eps c belong before q))
