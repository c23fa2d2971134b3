-- ===== src/Controllers/Namespaces/Tests.antt =====
-- Tests of the handlers of namespaces: one with a single service.
use cnwan_operator.Common.{ℕ, true, [], ◌∷◌, ◌≡◌, refl, inr, Elem, map}
use mathlib.Core.Path.{subst}
use cnwan_operator.Common.Orders.{IsDistinct}
use cnwan_operator.Common.Text.{split, decimal, first_chars}
use cnwan_operator.GoMap.{get, has, put}
use cnwan_operator.ServiceRegistry.Events.{EventType, create, delete, Endpoint, Resource}
use cnwan_operator.Controllers.Objects.{Object, KubeService}
use cnwan_operator.Controllers.Annotations.{filter_annotations}
use cnwan_operator.Controllers.Addresses.{
  try_resolve_hostnames, put_all, add_ingress, get_ips_from_service,
}
use cnwan_operator.Controllers.Check.{check_ns_labels, check_service, to_be_hashed, make_endpoint}
use cnwan_operator.Controllers.Check.Labels.{IsWatched, check_ns_labels-IsWatched}
use cnwan_operator.Controllers.Handling.{event, endpoint_event, sent}
use cnwan_operator.Controllers.Handling.Ordered.{IsOrdered}
use cnwan_operator.Controllers.Namespaces.{
  handle_update, handle_deleted, update_events, handle_update_event, service_events,
}
use cnwan_operator.Controllers.Namespaces.Hierarchy.{
  HasDistinctServices, namespace_handlers-IsOrdered,
}
use cnwan_operator.Controllers.Namespaces.Listed.{IsNth}
use cnwan_operator.Controllers.Namespaces.Sent.{
  IsWatchedHere, update_sent, handle_update-starts, handlers-stop,
}
use cnwan_operator.Controllers.Samples.{
  surroundings_at, web, web_endpoint, allowed, namespace_handler, shop, http,
}

test_start :
    update_sent namespace_handler surroundings_at (shop "disabled") (shop "enabled")
    ≡ event create (Resource.namespace "shop")
      ∷ event create (Resource.service "shop" "web")
      ∷ endpoint_event delete (web_endpoint http "a" "web-a:80")
      ∷ endpoint_event delete (web_endpoint http "b" "web-b:80")
      ∷ []
unfolding handle_update sent update_events handle_update_event service_events check_ns_labels get
    check_service make_endpoint to_be_hashed decimal first_chars filter_annotations
    get_ips_from_service add_ingress put_all put has split try_resolve_hostnames
test_start = refl

shop_disabled : ¬ IsWatchedHere namespace_handler (shop "disabled")
unfolding check_ns_labels get
shop_disabled watched =
    let decided : check_ns_labels (shop "disabled").labels true ≡ true =
      (check_ns_labels-IsWatched (shop "disabled").labels true).1 watched in
    cc decided

shop_enabled : IsWatchedHere namespace_handler (shop "enabled")
unfolding get
shop_enabled = IsWatched.enabled refl

handle_update-starts_example :
    ((i : ℕ) (service : KubeService)
      → IsNth 0 (web (http ∷ []) ∷ []) i service
      → (check_service (surroundings_at i) service allowed).passed ≡ true
      → Elem
          (event create (Resource.service "shop" service.name))
          (update_sent namespace_handler surroundings_at (shop "disabled") (shop "enabled"))
        × ((e : Endpoint)
            → Elem e (check_service (surroundings_at i) service allowed).endpoints
            → Elem
                (endpoint_event delete e)
                (update_sent namespace_handler surroundings_at (shop "disabled") (shop "enabled"))))
    × ((t : EventType) (e : Endpoint)
        → Elem
            (endpoint_event t e)
            (update_sent namespace_handler surroundings_at (shop "disabled") (shop "enabled"))
        → t ≡ delete)
handle_update-starts_example =
    handle_update-starts namespace_handler surroundings_at (shop "disabled") (shop "enabled")
      (web (http ∷ []) ∷ []) shop_disabled shop_enabled refl

handlers-stop_example :
    Elem
      (event delete (Resource.namespace "shop"))
      (sent (handle_deleted namespace_handler surroundings_at (Object.namespace (shop "enabled"))))
    × ((i : ℕ) (service : KubeService)
        → IsNth 0 (web (http ∷ []) ∷ []) i service
        → (check_service (surroundings_at i) service allowed).passed ≡ true
        → Elem (event delete (Resource.service "shop" service.name)) (
            sent (
              handle_deleted namespace_handler surroundings_at (Object.namespace (shop "enabled"))))
          × ((e : Endpoint)
              → Elem e (check_service (surroundings_at i) service allowed).endpoints
              → Elem (endpoint_event delete e) (
                  sent (
                    handle_deleted namespace_handler surroundings_at
                      (Object.namespace (shop "enabled"))))))
handlers-stop_example =
    handlers-stop namespace_handler surroundings_at (shop "enabled") (shop "enabled")
      (web (http ∷ []) ∷ [])
      (sent (handle_deleted namespace_handler surroundings_at (Object.namespace (shop "enabled"))))
      refl (inr (shop_enabled, refl))

one_service : HasDistinctServices namespace_handler "shop"
one_service services e =
    let same : web (http ∷ []) ∷ [] ≡ services = cc e in
    subst (λ services. IsDistinct (map (λ (s : KubeService). s.name) services)) same (tt, tt)

namespace_handlers-IsOrdered_example :
    IsOrdered (update_sent namespace_handler surroundings_at (shop "disabled") (shop "enabled"))
    × IsOrdered (
        sent (handle_deleted namespace_handler surroundings_at (Object.namespace (shop "enabled"))))
namespace_handlers-IsOrdered_example =
    namespace_handlers-IsOrdered namespace_handler surroundings_at (shop "disabled")
      (shop "enabled") one_service
