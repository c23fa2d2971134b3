-- ===== src/Publication/Arrives.antt =====
-- What a handler of services sends arrives in the registry, through the channel, the dispatcher and the
-- worker of the namespace.
use mathlib.Core.Path.{subst}
use cnwan_operator.Common.{
  String, true, false, some, List, [], ◌∷◌, ◌++◌, ◌≡◌, ◌≢◌, ◌↔◌, ◌⊎◌, refl, sym, ap, ◌∙◌, Elem,
  eq_refl, eq_iff, ◌==◌, map, All,
}
use cnwan_operator.GoMap.{Map, get}
use cnwan_operator.ServiceRegistry.Events.{
  create, Endpoint, get_namespace_name_from_event_object, namespace_name_of,
}
use cnwan_operator.ServiceRegistry.Registry.{Place, Registry}
use cnwan_operator.ServiceRegistry.Registry.Reliable.{IsReliable, Represents}
use cnwan_operator.ServiceRegistry.Published.{Contents, apply_events}
use cnwan_operator.ServiceRegistry.Published.Series.{apply_events-append}
use cnwan_operator.ServiceRegistry.Worker.Frame.{namespace_of}
use cnwan_operator.ServiceRegistry.System.Histories.{NoneNamed}
use cnwan_operator.ServiceRegistry.Pipeline.{Pipeline, sent_to, Runs, Follows}
use cnwan_operator.ServiceRegistry.Pipeline.Received.{sent_to-append}
use cnwan_operator.ServiceRegistry.Pipeline.Settles.{Runs-settles}
use cnwan_operator.Controllers.Objects.{Object, KubeService}
use cnwan_operator.Controllers.Check.{Surroundings, check_service}
use cnwan_operator.Controllers.Services.Belongs.{check_service-BelongsTo}
use cnwan_operator.Controllers.Handling.Ordered.{BelongsTo}
use cnwan_operator.Controllers.Handling.{sent, endpoint_event}
use cnwan_operator.Controllers.Services.{ServiceEventHandler, create_all, handle_create}
use cnwan_operator.Controllers.Services.Silence.{IsInWatchedNamespace}
use cnwan_operator.Publication.{IsShown, IsPlaceFor}
use cnwan_operator.Publication.Created.{handle_create-passed, Elem-create_all}

-- All that is sent about a service goes to the worker of its namespace.
sent_to-endpoints :
    (ns name : String) (eps : List Endpoint)
    → All (BelongsTo ns name) eps
    → sent_to ns (map (endpoint_event create) eps) ≡ map (endpoint_event create) eps
unfolding sent_to get_namespace_name_from_event_object namespace_name_of
sent_to-endpoints ns name [] h = refl
sent_to-endpoints ns name (ep ∷ eps) ((here, _), h) =
    let same : (ep.namespace == ns) ≡ true = (eq_iff ep.namespace ns).1 here in
    rw same (ap (λ es. endpoint_event create ep ∷ es) (sent_to-endpoints ns name eps h))

sent_to-create_all :
    (service : KubeService) (eps : List Endpoint)
    → All (BelongsTo service.namespace service.name) eps
    → sent_to service.namespace (create_all service eps) ≡ create_all service eps
unfolding sent_to create_all get_namespace_name_from_event_object namespace_name_of
sent_to-create_all service eps h =
    rw (eq_refl service.namespace, sent_to-endpoints service.namespace service.name eps h) refl

-- The creation of a service that passes the check, in a watched namespace, can arrive in the
-- registry: from every state that a dispatcher over a reliable registry can come to before the
-- main context is cancelled, while the handler of the creation sends its events, the dispatcher
-- and its workers can come to a state in which, in the namespace of the service, exactly that is
-- shown which the events announced before leave published, and the places of the namespace, of
-- the service and of the endpoints of the check. The name of the namespace is not empty, none of
-- its workers was removed from the map of workers, the registry showed exactly the published
-- places at first, and the metadata names the operator as the owner of everything.
pub handle_create-arrives :
    (r : Registry) (meta : Map String) (st : Registry.State r) (c : Contents) (p : Pipeline r)
    (s : ServiceEventHandler) (at : Surroundings) (service : KubeService)
    → IsReliable r
    → get "owner" meta ≡ some "cnwan-operator"
    → Represents r st c
    → Runs r meta st p
    → p.system.handler.main_cancelled ≡ false
    → service.namespace ≢ ""
    → NoneNamed service.namespace p.system.handler.removed
    → IsInWatchedNamespace s service
    → (check_service at service s.service_annotations).passed ≡ true
    → (p' : Pipeline r) × Follows r meta (sent (handle_create s at (Object.service service))) p p'
      × ((q : Place)
          → namespace_of q ≡ service.namespace
          → IsShown r p'.system.state q ↔ (
              Elem q (apply_events service.namespace (sent_to service.namespace p.announced) c)
              ⊎ IsPlaceFor service (check_service at service s.service_annotations).endpoints q))
handle_create-arrives r meta st c p s at service reliable owner rep run main named alone watched
      passed =
    let ns = service.namespace in
    let eps = (check_service at service s.service_annotations).endpoints in
    let belong = check_service-BelongsTo at service s.service_annotations in
    let events = create_all service eps in
    let (p', follows, shown) = Runs-settles r meta st c p events reliable owner rep run main in
    let before = apply_events ns (sent_to ns p.announced) c in
    let all : apply_events ns (sent_to ns (p.announced ++ events)) c
        ≡ apply_events ns events before =
      ap (λ es. apply_events ns es c)
        (sent_to-append ns p.announced events
          ∙ ap (λ es. sent_to ns p.announced ++ es) (sent_to-create_all service eps belong))
      ∙ apply_events-append ns (sent_to ns p.announced) events c in
    (
      p',
      rw (handle_create-passed s at service watched passed) follows,
      λ q here.
          let (there, back) = shown ns q named alone here in
          let (split, join) = Elem-create_all service eps before q in
          (
            λ m. split (subst (λ d. Elem q d) all (there m)),
            λ h. back (subst (λ d. Elem q d) (sym all) (join h)),
          ),
    )
