-- ===== src/Controllers/Services/Tests.antt =====
-- Tests of the handlers of services: a service whose port 80 is replaced by 443 and kept at 22.
use cnwan_operator.Common.{true, none, some, [], ◌∷◌, ◌≡◌, ◌↔◌, refl}
use mathlib.Core.Path.{subst, sym}
use cnwan_operator.Common.Text.{split, decimal, first_chars}
use cnwan_operator.GoMap.{get, has, put}
use cnwan_operator.ServiceRegistry.Events.{create, update, delete, Endpoint, Resource}
use cnwan_operator.Controllers.Objects.{Object, KubeService, KubeNamespace}
use cnwan_operator.Controllers.Annotations.{filter_annotations}
use cnwan_operator.Controllers.Addresses.{
  try_resolve_hostnames, put_all, add_ingress, get_ips_from_service,
}
use cnwan_operator.Controllers.Check.{
  Surroundings, check_ns_labels, check_service, to_be_hashed, make_endpoint,
  get_endpoints_map_from_slice, from_slice,
}
use cnwan_operator.Controllers.Check.Labels.{check_ns_labels-IsWatched}
use cnwan_operator.Controllers.Handling.{event, endpoint_event, sent}
use cnwan_operator.Controllers.Handling.Ordered.{IsOrdered}
use cnwan_operator.Controllers.Services.{
  UpdateSurroundings, check_parent_namespace, handle_create, handle_update, update_services,
  live_events, switch_events, changed_events,
}
use cnwan_operator.Controllers.Services.Hierarchy.{handlers-IsOrdered}
use cnwan_operator.Controllers.Services.Updates.{
  PassesBoth, old_named, curr_named, Announces, handle_update-Announces,
}
use cnwan_operator.Controllers.Services.Silence.{IsInWatchedNamespace, handlers_silent}
use cnwan_operator.Controllers.Samples.{
  surroundings, update_surroundings, same_order-Rearranges, web, web_endpoint, handler, shop, http,
  https,
}

abbrev old_web : KubeService
old_web = web (22 ∷ http ∷ [])

abbrev new_web : KubeService
new_web = web (22 ∷ https ∷ [])

test_update :
    sent (
      handle_update
        (handler "enabled")
        update_surroundings
        (Object.service old_web)
        (Object.service new_web))
    ≡ event create (Resource.namespace "shop")
      ∷ event create (Resource.service "shop" "web")
      ∷ endpoint_event update (web_endpoint 22 "a" "web-a:22")
      ∷ endpoint_event update (web_endpoint 22 "b" "web-b:22")
      ∷ endpoint_event delete (web_endpoint http "a" "web-a:80")
      ∷ endpoint_event delete (web_endpoint http "b" "web-b:80")
      ∷ []
unfolding handle_update sent update_services live_events switch_events changed_events
    check_parent_namespace check_ns_labels get_endpoints_map_from_slice from_slice get check_service
    make_endpoint to_be_hashed decimal first_chars filter_annotations get_ips_from_service
    add_ingress put_all put has split try_resolve_hostnames
test_update = refl

both_pass : PassesBoth (handler "enabled") update_surroundings old_web new_web
unfolding check_parent_namespace check_ns_labels check_service filter_annotations
    get_ips_from_service add_ingress put_all put has get split try_resolve_hostnames
both_pass = record { live = refl; watched = refl; was = refl; is = refl }

handle_update-Announces_example :
    (Announces
        (handler "enabled")
        update_surroundings
        old_web
        new_web
        delete
        (web_endpoint http "a" "web-a:80")
      ↔ ((old_named (handler "enabled") update_surroundings old_web new_web "web-a:80"
            ≡ some (web_endpoint http "a" "web-a:80"))
          × (curr_named (handler "enabled") update_surroundings old_web new_web "web-a:80" ≡ none)))
    × (Announces
          (handler "enabled")
          update_surroundings
          old_web
          new_web
          update
          (web_endpoint http "a" "web-a:80")
        ↔ ((curr_named (handler "enabled") update_surroundings old_web new_web "web-a:80"
              ≡ some (web_endpoint http "a" "web-a:80"))
            × (was : Endpoint) × (old_named
                  (handler "enabled")
                  update_surroundings
                  old_web
                  new_web
                  "web-a:80"
                ≡ some was)))
    × ¬ Announces
        (handler "enabled")
        update_surroundings
        old_web
        new_web
        create
        (web_endpoint http "a" "web-a:80")
handle_update-Announces_example =
    handle_update-Announces (handler "enabled") update_surroundings old_web new_web
      (web_endpoint http "a" "web-a:80") (same_order-Rearranges, same_order-Rearranges) both_pass

handlers-IsOrdered_example :
    IsOrdered (sent (handle_create (handler "enabled") surroundings (Object.service new_web)))
    × IsOrdered (
        sent (
          handle_update
            (handler "enabled")
            update_surroundings
            (Object.service old_web)
            (Object.service new_web)))
handlers-IsOrdered_example =
    handlers-IsOrdered (handler "enabled") surroundings update_surroundings (Object.service old_web)
      (Object.service new_web) (same_order-Rearranges, same_order-Rearranges) (refl, refl)

not_in_watched_namespace : ¬ IsInWatchedNamespace (handler "disabled") new_web
unfolding check_ns_labels get
not_in_watched_namespace (ns, found, watched) =
    let same : shop "disabled" ≡ ns = cc found in
    let decided : check_ns_labels ns.labels true ≡ true =
      (check_ns_labels-IsWatched ns.labels true).1 watched in
    let here : check_ns_labels (shop "disabled").labels true ≡ true =
      subst (λ (ns : KubeNamespace). check_ns_labels ns.labels true ≡ true) (sym same) decided in
    cc here

handlers_silent_example :
    ((at : Surroundings)
      → sent (handle_create (handler "disabled") at (Object.service new_web)) ≡ [])
    × ((at : UpdateSurroundings) (old : Object)
        → sent (handle_update (handler "disabled") at old (Object.service new_web)) ≡ [])
handlers_silent_example = handlers_silent (handler "disabled") new_web not_in_watched_namespace
