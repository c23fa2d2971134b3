-- ===== src/ServiceRegistry/Worker/Tests.antt =====
-- Tests of the worker of the namespace "shop", over the registry in memory.
use cnwan_operator.Common.{String, some, [], ◌∷◌, ◌≡◌, refl}
use cnwan_operator.GoMap.{Map, get, put}
use cnwan_operator.ServiceRegistry.Events.{create, delete, Resource, Event, is_owned_by_operator}
use cnwan_operator.ServiceRegistry.Registry.{Place, in_namespace, in_service, in_endpoint}
use cnwan_operator.ServiceRegistry.Registry.Places.{place_eq, is_under}
use cnwan_operator.ServiceRegistry.Registry.Memory.{
  Entries, memory, entry, without, first_under, override, metadata_of, register_in,
}
use cnwan_operator.ServiceRegistry.Worker.{
  NamespaceWorker, handle_event, handle_events, handle_delete, handle_create_update,
  handle_delete_service,
}
use cnwan_operator.ServiceRegistry.Worker.Ownership.{
  IsPlaceOf, handle_delete-keeps_foreign, handle_delete-keeps_parent,
}
use cnwan_operator.ServiceRegistry.Registry.Reliable.{Represents}
use cnwan_operator.ServiceRegistry.Registry.Answering.{memory-IsReliable, memory-Represents}
use cnwan_operator.ServiceRegistry.Published.{apply_events}
use cnwan_operator.ServiceRegistry.Worker.Refines.{handle_events-Represents}
use cnwan_operator.ServiceRegistry.Worker.Frame.{handle_events-frame}

abbrev owned : Map String
owned = ("owner", "cnwan-operator") ∷ []

abbrev foreign : Map String
foreign = ("owner", "somebody") ∷ []

abbrev worker : NamespaceWorker
worker = record { namespace = "shop"; persistent_meta = owned }

abbrev web : Resource
web = Resource.service "shop" "web"

abbrev web_place : Place
web_place = in_service "shop" "web"

abbrev web_endpoint : Place
web_endpoint = in_endpoint "shop" "web" "web-1"

abbrev ours : Entries
ours = (web_place, owned) ∷ (web_endpoint, owned) ∷ []

abbrev theirs : Entries
theirs = (web_place, foreign) ∷ []

abbrev deletion : Resource → Event
deletion object = record { event_type = delete; object = object }

abbrev creation : Resource → Event
creation object = record { event_type = create; object = object }

test_create : handle_event memory worker (creation web) [] ≡ (web_place, owned) ∷ []
unfolding handle_event handle_create_update place_eq without override metadata_of put register_in
test_create = refl

test_delete : handle_event memory worker (deletion web) ((web_place, owned) ∷ []) ≡ []
unfolding handle_event handle_delete handle_delete_service place_eq entry without first_under
    is_under is_owned_by_operator get
test_delete = refl

handle_delete-keeps_foreign_example :
    entry (handle_event memory worker (deletion web) theirs) web_place ≡ some foreign
unfolding entry place_eq is_owned_by_operator get
handle_delete-keeps_foreign_example =
    handle_delete-keeps_foreign memory worker web theirs web_place foreign refl refl

handle_delete-keeps_parent_example :
    (entry (handle_event memory worker (deletion web) ours) web_place ≡ some owned)
    × (¬ IsPlaceOf worker web web_endpoint
        → entry (handle_event memory worker (deletion web) ours) web_endpoint ≡ some owned)
unfolding entry place_eq
handle_delete-keeps_parent_example =
    handle_delete-keeps_parent memory worker web ours web_place web_endpoint owned owned
      (refl, refl) refl refl

handle_events-frame_example :
    entry
      (handle_events memory worker
        (deletion web ∷ creation web ∷ [])
        ((in_namespace "other", foreign) ∷ ours))
      (in_namespace "other")
    ≡ entry ((in_namespace "other", foreign) ∷ ours) (in_namespace "other")
handle_events-frame_example =
    handle_events-frame memory worker (deletion web ∷ creation web ∷ [])
      ((in_namespace "other", foreign) ∷ ours) (in_namespace "other") (λ e. cc e)

handle_events-Represents_example :
    Represents memory
      (handle_events memory worker (creation web ∷ creation (Resource.namespace "shop") ∷ []) [])
      (apply_events "shop" (creation web ∷ creation (Resource.namespace "shop") ∷ []) [])
unfolding get
handle_events-Represents_example =
    handle_events-Represents memory worker
      (creation web ∷ creation (Resource.namespace "shop") ∷ []) [] [] memory-IsReliable refl
      memory-Represents
