-- ===== src/Controllers/Services/Silence.antt =====
-- When the handlers of services send nothing, and how often they tell the queue.
use mathlib.Core.Path.{subst}
use cnwan_operator.Common.{
  true, false, [], ◌≡◌, ◌↔◌, refl, inl, inr, is_some, Bool-cases, Option-cases, if◌then◌else◌,
}
use cnwan_operator.Common.Result.{ok, Result-cases}
use cnwan_operator.Controllers.Objects.{Object, KubeService, KubeNamespace}
use cnwan_operator.Controllers.Check.{Surroundings}
use cnwan_operator.Controllers.Check.Labels.{IsWatched, check_ns_labels-IsWatched}
use cnwan_operator.Controllers.Handling.{sent, times_done}
use cnwan_operator.Controllers.Handling.Traces.{sent_all, times_done-send_all}
use cnwan_operator.Controllers.Services.{
  ServiceEventHandler, UpdateSurroundings, check_parent_namespace, handle_create, update_services,
  handle_update, handle_deleted, handle_generic,
}

module _ (s : ServiceEventHandler) (service : KubeService) where
  -- The namespace of the service could be read and is watched.
  abbrev pub IsInWatchedNamespace : Type 0
  IsInWatchedNamespace =
      (ns : KubeNamespace) × (s.get_namespace service.namespace ≡ ok ns)
      × IsWatched ns.labels s.watch_namespaces_by_default

  pub check_parent_namespace-IsInWatchedNamespace :
      ((check_parent_namespace s service).0 ≡ true) ↔ IsInWatchedNamespace
  unfolding check_parent_namespace
  check_parent_namespace-IsInWatchedNamespace =
      elim (Result-cases (s.get_namespace service.namespace)) [
        | inr (e, failed) ↦ rw failed (λ h. cc, λ (ns, found, w). cc found)
        | inl (ns, found) ↦
            let decided = check_ns_labels-IsWatched ns.labels s.watch_namespaces_by_default in
            rw found (
              λ h. (ns, refl, decided.0 h),
              λ (ns', same, w).
                  let q : ns' ≡ ns = cc same in
                  decided.1 (subst (λ n. IsWatched n.labels s.watch_namespaces_by_default) q w),
            )
      ]

  not_watched : ¬ IsInWatchedNamespace → (check_parent_namespace s service).0 ≡ false
  not_watched h = elim (Bool-cases (check_parent_namespace s service).0) [
    | inl yes_watched ↦ absurd (h (check_parent_namespace-IsInWatchedNamespace.0 yes_watched))
    | inr e ↦ e
  ]

  update_services-nil :
      (at : UpdateSurroundings) (old : KubeService)
      → (check_parent_namespace s service).0 ≡ false
      → sent (update_services s at old service) ≡ []
  unfolding update_services sent
  update_services-nil at old e = elim (Option-cases service.deleted_at) [
    | inl live ↦ simp live (rw (sent_all _ _ refl, e) refl)
    | inr (now, deleted) ↦ elim (Option-cases old.deleted_at) [
      | inl first ↦ simp (deleted, first) (rw (sent_all _ _ refl, e) refl)
      | inr (before, again) ↦ simp (deleted, again) refl
    ]
  ]

-- Nothing is sent about a service whose namespace cannot be read or is not watched, neither when it
-- is created nor when it is updated or marked for deletion.
pub handlers_silent :
    (s : ServiceEventHandler) (service : KubeService)
    → ¬ IsInWatchedNamespace s service
    → ((at : Surroundings) → sent (handle_create s at (Object.service service)) ≡ [])
      × ((at : UpdateSurroundings) (old : Object)
          → sent (handle_update s at old (Object.service service)) ≡ [])
unfolding handle_create handle_update sent
handlers_silent s service h =
    let off = not_watched s service h in
    (
      λ at. rw (sent_all _ _ refl, off) refl,
      λ at old. elim old as (λ o. sent (handle_update s at o (Object.service service)) ≡ []) [
        | Object.service before ↦ update_services-nil s service at before off
        | Object.namespace before ↦ refl
        | Object.other kind ↦ refl
      ],
    )

update_services_done :
    (s : ServiceEventHandler) (at : UpdateSurroundings) (old curr : KubeService)
    → times_done (update_services s at old curr) ≡ (if is_some curr.deleted_at then 1 else 2)
unfolding update_services times_done
update_services_done s at old curr = elim (Option-cases curr.deleted_at) [
  | inl live ↦ simp live (rw times_done-send_all refl)
  | inr (now, deleted) ↦ elim (Option-cases old.deleted_at) [
    | inl first ↦ simp (deleted, first) (rw times_done-send_all refl)
    | inr (before, again) ↦ simp (deleted, again) refl
  ]
]

-- Every handler of services tells the queue that it is done with its object, exactly once, except
-- that an update of a live service tells it twice.
pub handlers_done :
    (s : ServiceEventHandler) (at : Surroundings) (at_update : UpdateSurroundings) (object : Object)
    (old curr : KubeService)
    → (times_done (handle_create s at object) ≡ 1)
      × (times_done (handle_deleted object) ≡ 1)
      × (times_done (handle_generic object) ≡ 1)
      × (times_done (handle_update s at_update (Object.service old) (Object.service curr))
          ≡ (if is_some curr.deleted_at then 1 else 2))
unfolding handle_create handle_deleted handle_generic handle_update times_done
handlers_done s at at_update object old curr =
    (rw times_done-send_all refl, refl, refl, update_services_done s at_update old curr)
