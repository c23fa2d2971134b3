-- ===== src/Publication/Tests.antt =====
-- Tests of a handler, a worker and the registry in memory together.
use cnwan_operator.Common.{Elem, true, some, none, List, [], ◌∷◌, ◌≡◌, ◌↔◌, ◌⊎◌, refl}
use cnwan_operator.GoMap.{get, has, put}
use cnwan_operator.Common.Text.{split}
use cnwan_operator.ServiceRegistry.Registry.{Place, in_namespace, in_service}
use cnwan_operator.ServiceRegistry.Registry.Memory.{memory, entry}
use cnwan_operator.ServiceRegistry.Registry.Answering.{memory-IsReliable, memory-Represents}
use cnwan_operator.ServiceRegistry.Worker.{NamespaceWorker, handle_events}
use cnwan_operator.Controllers.Objects.{Object, KubeService}
use cnwan_operator.Controllers.Annotations.{filter_annotations}
use cnwan_operator.Controllers.Addresses.{
  try_resolve_hostnames, put_all, add_ingress, get_ips_from_service,
}
use cnwan_operator.Controllers.Check.{check_service, check_ns_labels}
use cnwan_operator.Controllers.Check.Labels.{check_ns_labels-IsWatched}
use cnwan_operator.Controllers.Handling.{sent}
use cnwan_operator.Controllers.Services.{handle_create, handle_update}
use cnwan_operator.Controllers.Services.Silence.{IsInWatchedNamespace}
use cnwan_operator.Controllers.Samples.{
  surroundings, update_surroundings, allowed, web, handler, shop, http,
}
use cnwan_operator.ServiceRegistry.Events.{Endpoint, Event}
use cnwan_operator.ServiceRegistry.Registry.{in_endpoint}
use cnwan_operator.Controllers.Samples.{https, same_order-Rearranges}
use cnwan_operator.Controllers.Services.{check_parent_namespace}
use cnwan_operator.Controllers.Services.Updates.{PassesBoth, old_named, curr_named}
use cnwan_operator.Publication.Updated.{handle_update-IsShown}
use cnwan_operator.Publication.Arrives.{handle_create-arrives}
use cnwan_operator.ServiceRegistry.Published.{apply_events}
use cnwan_operator.ServiceRegistry.Worker.Frame.{namespace_of}
use cnwan_operator.ServiceRegistry.Dispatcher.{new_event_handler}
use cnwan_operator.ServiceRegistry.Pipeline.{Pipeline, Follows, started, sent_to, starts}
use cnwan_operator.Publication.{IsShown, IsPlaceFor}
use cnwan_operator.Publication.Withdrawn.{marked, handle_update-handle_create}

abbrev shop_worker : NamespaceWorker
shop_worker = record { namespace = "shop"; persistent_meta = ("owner", "cnwan-operator") ∷ [] }

abbrev shop_web : KubeService
shop_web = web (http ∷ [])

abbrev web_place : Place
web_place = in_service "shop" "web"

in_watched_namespace : IsInWatchedNamespace (handler "enabled") shop_web
unfolding check_ns_labels get
in_watched_namespace =
    (shop "enabled", refl, (check_ns_labels-IsWatched (shop "enabled").labels true).0 refl)

shop_web_passes : (check_service surroundings shop_web allowed).passed ≡ true
unfolding check_service filter_annotations get_ips_from_service add_ingress put_all put has get
    split try_resolve_hostnames
shop_web_passes = refl

handle_update-handle_create_example :
    IsShown memory
      (handle_events memory shop_worker
        (sent (
          handle_update
            (handler "enabled")
            update_surroundings
            (Object.service shop_web)
            (Object.service (marked 5 shop_web))))
        (handle_events memory shop_worker
          (sent (handle_create (handler "enabled") surroundings (Object.service shop_web)))
          []))
      web_place
    ↔ (IsShown memory [] web_place ⊎ (web_place ≡ in_namespace "shop"))
unfolding get entry
handle_update-handle_create_example =
    handle_update-handle_create memory shop_worker (handler "enabled") surroundings
      update_surroundings shop_web 5 [] [] web_place memory-IsReliable refl refl memory-Represents
      in_watched_namespace shop_web_passes refl refl (λ p (m, h). absurd (cc h))

-- Port 80 is replaced by 443.
abbrev moved_web : KubeService
moved_web = web (https ∷ [])

both_pass : PassesBoth (handler "enabled") update_surroundings shop_web moved_web
unfolding check_parent_namespace check_ns_labels check_service filter_annotations
    get_ips_from_service add_ingress put_all put has get split try_resolve_hostnames
both_pass = record { live = refl; watched = refl; was = refl; is = refl }

abbrev sent_on_update : List Event
sent_on_update = sent (
    handle_update (handler "enabled") update_surroundings (Object.service shop_web)
      (Object.service moved_web))

handle_update-IsShown_example :
    IsShown memory
      (handle_events memory shop_worker sent_on_update [])
      (in_endpoint "shop" "web" "web-a:443")
    ↔ ((((was : Endpoint) × (old_named
                (handler "enabled")
                update_surroundings
                shop_web
                moved_web
                "web-a:443"
              ≡ some was))
          × ((is : Endpoint) × (curr_named
                  (handler "enabled")
                  update_surroundings
                  shop_web
                  moved_web
                  "web-a:443"
                ≡ some is)))
        ⊎ (IsShown memory [] (in_endpoint "shop" "web" "web-a:443")
            × ¬ (
                ((was : Endpoint) × (old_named
                      (handler "enabled")
                      update_surroundings
                      shop_web
                      moved_web
                      "web-a:443"
                    ≡ some was))
                × (curr_named (handler "enabled") update_surroundings shop_web moved_web "web-a:443"
                    ≡ none))))
unfolding get
handle_update-IsShown_example =
    handle_update-IsShown memory shop_worker (handler "enabled") update_surroundings shop_web
      moved_web [] [] "web-a:443" memory-IsReliable refl refl memory-Represents
      (same_order-Rearranges, same_order-Rearranges) (refl, refl) both_pass

handle_create-arrives_example :
    (p : Pipeline memory) × Follows memory
      (("owner", "cnwan-operator") ∷ [])
      (sent (handle_create (handler "enabled") surroundings (Object.service shop_web)))
      (started memory (("owner", "cnwan-operator") ∷ []) [])
      p
    × ((q : Place)
        → namespace_of q ≡ "shop"
        → IsShown memory p.system.state q ↔ (
            Elem q (apply_events "shop" (sent_to "shop" []) [])
            ⊎ IsPlaceFor shop_web (check_service surroundings shop_web allowed).endpoints q))
unfolding new_event_handler get
handle_create-arrives_example =
    handle_create-arrives memory (("owner", "cnwan-operator") ∷ []) [] []
      (started memory (("owner", "cnwan-operator") ∷ []) []) (handler "enabled") surroundings
      shop_web memory-IsReliable refl memory-Represents starts refl (λ e. cc e) (λ v m. absurd m)
      in_watched_namespace shop_web_passes
