-- ===== src/Controllers/Services/Updates.antt =====
-- What `Update` sends for a live service of a watched namespace that passed before and passes now.
use cnwan_operator.Common.{String, true, Option, none, some, ◌≡◌, ◌↔◌, refl, sym, ◌∙◌, Elem}
use cnwan_operator.ServiceRegistry.Events.{EventType, create, update, delete, Endpoint}
use cnwan_operator.Controllers.Objects.{Object, KubeService}
use cnwan_operator.Controllers.Check.{check_service}
use cnwan_operator.Controllers.Handling.{sent, endpoint_event}
use cnwan_operator.Controllers.Handling.Traces.{sent_all}
use cnwan_operator.Controllers.Services.{
  ServiceEventHandler, UpdateSurroundings, check_parent_namespace, changed_events, switch_events,
  live_events, update_services, handle_update,
}
use cnwan_operator.Controllers.Services.Hierarchy.{HasRearrangements}
use cnwan_operator.Controllers.Services.Diff.{
  named, changed_events-first_loop, delete_iff, update_iff, not_create,
}

-- The update is of a live service, in a namespace that is watched now, and both versions pass.
pub record PassesBoth (s : ServiceEventHandler) (at : UpdateSurroundings) (old curr : KubeService)
    : Type 0 where
  pub live : curr.deleted_at ≡ none
  pub watched : (check_parent_namespace s curr).0 ≡ true
  pub was : (check_service at.at_old old s.service_annotations).passed ≡ true
  pub is : (check_service at.at_curr curr s.service_annotations).passed ≡ true

module _ (s : ServiceEventHandler) (at : UpdateSurroundings) (old curr : KubeService) where
  abbrev pub old_named : String → Option Endpoint
  old_named name = named name (check_service at.at_old old s.service_annotations).endpoints

  abbrev pub curr_named : String → Option Endpoint
  curr_named name = named name (check_service at.at_curr curr s.service_annotations).endpoints

  -- `e` is announced by an event of the type `t`.
  abbrev pub Announces : EventType → Endpoint → Type 0
  Announces t e =
      Elem (endpoint_event t e)
        (sent (handle_update s at (Object.service old) (Object.service curr)))

  live_events-changed :
      PassesBoth s at old curr
      → live_events s at old curr
        ≡ changed_events at curr
            (check_service at.at_old old s.service_annotations).endpoints
            (check_service at.at_curr curr s.service_annotations).endpoints
  unfolding live_events switch_events
  live_events-changed p = rw (p.watched, p.was, p.is)

  update_services-live :
      curr.deleted_at ≡ none → sent (update_services s at old curr) ≡ live_events s at old curr
  unfolding update_services sent
  update_services-live live = simp live (rw (sent_all _ _ refl) refl)

  pub handle_update-changed :
      PassesBoth s at old curr
      → sent (handle_update s at (Object.service old) (Object.service curr))
        ≡ changed_events at curr
            (check_service at.at_old old s.service_annotations).endpoints
            (check_service at.at_curr curr s.service_annotations).endpoints
  unfolding handle_update
  handle_update-changed p = rw (update_services-live p.live, live_events-changed p) refl

-- For a live service of a watched namespace that passed before and passes now, the endpoints that
-- `Update` deletes are those of the old version whose name the new version lacks; those that it
-- updates are, as the new version has them, those whose name both versions have; and it creates
-- none.
pub handle_update-Announces :
    (s : ServiceEventHandler) (at : UpdateSurroundings) (old curr : KubeService) (e : Endpoint)
    → HasRearrangements at
    → PassesBoth s at old curr
    → (Announces s at old curr delete e
        ↔ ((old_named s at old curr e.name ≡ some e) × (curr_named s at old curr e.name ≡ none)))
      × (Announces s at old curr update e ↔ (
          (curr_named s at old curr e.name ≡ some e)
          × (was : Endpoint) × (old_named s at old curr e.name ≡ some was)))
      × ¬ Announces s at old curr create e
handle_update-Announces s at old curr e rearranges p =
    let old_eps = (check_service at.at_old old s.service_annotations).endpoints in
    let curr_eps = (check_service at.at_curr curr s.service_annotations).endpoints in
    let first = changed_events-first_loop at curr old_eps curr_eps rearranges in
    let gone = delete_iff at curr old_eps curr_eps rearranges e in
    let kept = update_iff at curr old_eps curr_eps rearranges e in
    rw (handle_update-changed s at old curr p) (
      (λ m. gone.0 ((first delete e).0 m), λ h. (first delete e).1 (gone.1 h)),
      (λ m. kept.0 ((first update e).0 m), λ h. (first update e).1 (kept.1 h)),
      λ m. not_create at curr old_eps curr_eps rearranges e ((first create e).0 m),
    )

-- For a live service of a watched namespace that passed before and passes now, an endpoint that
-- only the new version has is never announced: no event of any type carries an endpoint whose
-- name the old version lacks.
pub handle_update-misses_new :
    (s : ServiceEventHandler) (at : UpdateSurroundings) (old curr : KubeService) (t : EventType)
    (e : Endpoint)
    → HasRearrangements at
    → PassesBoth s at old curr
    → old_named s at old curr e.name ≡ none
    → ¬ Announces s at old curr t e
handle_update-misses_new s at old curr create e rearranges p new m =
    (handle_update-Announces s at old curr e rearranges p).2 m
handle_update-misses_new s at old curr update e rearranges p new m =
    let (_, was, found) = (handle_update-Announces s at old curr e rearranges p).1.0 m in
    cc (sym new ∙ found)
handle_update-misses_new s at old curr delete e rearranges p new m =
    let (found, _) = (handle_update-Announces s at old curr e rearranges p).0.0 m in
    cc (sym new ∙ found)
