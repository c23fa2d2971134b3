-- ===== src/Publication/Created.antt =====
-- A service is created.
use mathlib.Core.Path.{subst}
use cnwan_operator.Common.{String, true, some, List, ◌∷◌, ◌≡◌, ◌↔◌, ◌⊎◌, refl, inl, inr, Elem}
use cnwan_operator.GoMap.{get}
use cnwan_operator.ServiceRegistry.Events.{Endpoint, Event}
use cnwan_operator.ServiceRegistry.Registry.{Place, in_namespace, in_service, Registry}
use cnwan_operator.ServiceRegistry.Registry.Reliable.{IsReliable, Represents}
use cnwan_operator.ServiceRegistry.Worker.{NamespaceWorker, handle_events}
use cnwan_operator.ServiceRegistry.Worker.Refines.{handle_events-Represents}
use cnwan_operator.ServiceRegistry.Published.{Contents, apply, apply_events}
use cnwan_operator.ServiceRegistry.Published.Series.{Elem-apply_events-create}
use cnwan_operator.Controllers.Objects.{Object, KubeService}
use cnwan_operator.Controllers.Check.{Surroundings, check_service}
use cnwan_operator.Controllers.Handling.{sent}
use cnwan_operator.Controllers.Handling.Traces.{sent_all}
use cnwan_operator.Controllers.Services.{ServiceEventHandler, create_all, handle_create}
use cnwan_operator.Controllers.Services.Silence.{
  IsInWatchedNamespace, check_parent_namespace-IsInWatchedNamespace,
}
use cnwan_operator.Publication.{IsShown, IsPlaceFor}

pub handle_create-passed :
    (s : ServiceEventHandler) (at : Surroundings) (service : KubeService)
    → IsInWatchedNamespace s service
    → (check_service at service s.service_annotations).passed ≡ true
    → sent (handle_create s at (Object.service service))
      ≡ create_all service (check_service at service s.service_annotations).endpoints
unfolding handle_create sent
handle_create-passed s at service watched passed =
    let watch = (check_parent_namespace-IsInWatchedNamespace s service).1 watched in
    rw (sent_all _ _ refl, watch, passed) refl

module _ (service : KubeService) (eps : List Endpoint) (c : Contents) where
  pub Elem-create_all :
      (q : Place)
      → Elem q (apply_events service.namespace (create_all service eps) c)
        ↔ (Elem q c ⊎ IsPlaceFor service eps q)
  unfolding create_all apply_events apply
  Elem-create_all q =
      let all =
        Elem-apply_events-create service.namespace eps
          (in_service service.namespace service.name ∷ in_namespace service.namespace ∷ c) q in
      (
        λ m. elim (all.0 m) [
          | inl (inl e) ↦ inr (inr (inl e))
          | inl (inr (inl e)) ↦ inr (inl e)
          | inl (inr (inr old)) ↦ inl old
          | inr endpoint ↦ inr (inr (inr endpoint))
        ],
        λ h. elim h [
          | inl old ↦ all.1 (inl (inr (inr old)))
          | inr (inl e) ↦ all.1 (inl (inr (inl e)))
          | inr (inr (inl e)) ↦ all.1 (inl (inl e))
          | inr (inr (inr endpoint)) ↦ all.1 (inr endpoint)
        ],
      )

-- The worker of the namespace leaves what the events leave published.
pub represented :
    (r : Registry) (n : NamespaceWorker) (ns : String) (events : List Event) (st : Registry.State r)
    (c : Contents)
    → IsReliable r
    → get "owner" n.persistent_meta ≡ some "cnwan-operator"
    → n.namespace ≡ ns
    → Represents r st c
    → Represents r (handle_events r n events st) (apply_events ns events c)
represented r n ns events st c reliable owner same rep =
    subst
      (λ (name : String). Represents r (handle_events r n events st) (apply_events name events c))
      same (handle_events-Represents r n events st c reliable owner rep)

-- What is added to the contents is added to what is shown.
pub IsShown-iff :
    (r : Registry) (st after : Registry.State r) (c d : Contents) (P : Type 0) (q : Place)
    → Represents r st c
    → Represents r after d
    → Elem q d ↔ (Elem q c ⊎ P)
    → IsShown r after q ↔ (IsShown r st q ⊎ P)
IsShown-iff r st after c d P q rep rep' iff = (
  λ (m, h). elim (iff.0 (rep'.shown q m h).0) [
    | inl old ↦ inl (rep.there q old)
    | inr more ↦ inr more
  ],
  λ h.
      rep'.there q
        (iff.1 (elim h [ inl (m, was) ↦ inl (rep.shown q m was).0 | inr more ↦ inr more ])),
)
