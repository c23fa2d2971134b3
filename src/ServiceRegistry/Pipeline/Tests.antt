-- ===== src/ServiceRegistry/Pipeline/Tests.antt =====
-- Tests of the channel, the dispatcher and a worker, over the registry in memory: a handler announces
-- the service "web" of the namespace "shop".
use cnwan_operator.Common.{◌≢◌, String, some, [], ◌∷◌, ◌≡◌, ◌↔◌, refl, arith, Elem}
use cnwan_operator.GoMap.{Map, get, has, put}
use cnwan_operator.ServiceRegistry.Events.{
  create, Event, Resource, get_namespace_name_from_event_object, namespace_name_of,
}
use cnwan_operator.ServiceRegistry.Registry.{Place, in_service, Registry}
use cnwan_operator.ServiceRegistry.Registry.Memory.{memory}
use cnwan_operator.ServiceRegistry.Registry.Answering.{memory-IsReliable, memory-Represents}
use cnwan_operator.ServiceRegistry.Published.{apply_events}
use cnwan_operator.ServiceRegistry.Dispatcher.{
  Worker, watching, EventHandler, new_event_handler, new_worker, get_or_create_namespace_worker,
  receive, push, take, takes, finish, finishes, receives, sends, moves,
}
use mathlib.Core.Path.{subst}
use cnwan_operator.ServiceRegistry.Dispatcher.Queued.{IsIdle}
use cnwan_operator.ServiceRegistry.System.{finished, finished_by, advance}
use cnwan_operator.ServiceRegistry.Pipeline.{
  Pipeline, received, sent_to, started, announce, Runs, Follows, starts, announces, proceeds,
}
use cnwan_operator.ServiceRegistry.Pipeline.Delivered.{Runs-IsShown}
use cnwan_operator.ServiceRegistry.Pipeline.Settles.{Runs-settles}
use cnwan_operator.ServiceRegistry.System.Histories.{NoneNamed}
use cnwan_operator.ServiceRegistry.Worker.Frame.{namespace_of}

abbrev creation : Event
creation = record { event_type = create; object = Resource.service "shop" "web" }

abbrev owned : Map String
owned = ("owner", "cnwan-operator") ∷ []

abbrev announced : Pipeline memory
announced = announce memory owned creation (started memory owned [])

abbrev taken_over : Pipeline memory
taken_over = record announced {
  events_channel = [];
  system = record announced.system { handler = receive creation new_event_handler };
}

abbrev busy : Worker
busy = push creation 7 (new_worker "shop")

abbrev sent : EventHandler
sent = record taken_over.system.handler { workers = ("shop", busy) ∷ []; phase = watching }

abbrev passed_on : Pipeline memory
passed_on = record taken_over { system = record taken_over.system { handler = sent } }

abbrev in_work : Worker
in_work = take creation [] busy

abbrev at_work : EventHandler
at_work = record sent { workers = ("shop", in_work) ∷ [] }

abbrev busied : Pipeline memory
busied = record passed_on { system = record passed_on.system { handler = at_work } }

abbrev done : Worker
done = finish creation in_work

abbrev handled : EventHandler
handled = record sent { workers = ("shop", done) ∷ [] }

abbrev settled : Pipeline memory
settled = record busied {
  system = advance memory owned handled (some ("shop", creation)) busied.system;
}

settled-Runs : Runs memory owned [] settled
unfolding new_event_handler new_worker receive get_or_create_namespace_worker
    get_namespace_name_from_event_object namespace_name_of has get put push take finish finished
    finished_by received
settled-Runs =
    proceeds busied handled
      (moves at_work "shop" in_work done 0 refl (finishes in_work creation refl refl)) [] refl
      (proceeds passed_on at_work
        (moves sent "shop" busy in_work 0 refl (takes busy creation [] refl refl refl)) [] refl
        (proceeds taken_over sent
          (sends taken_over.system.handler creation "shop" 7 (new_worker "shop") refl refl
            (omega arith))
          [] refl
          (proceeds announced taken_over.system.handler (receives new_event_handler creation refl)
            [] refl (announces (started memory owned []) creation (omega arith) starts))))

Runs-IsShown_example :
    ((m : Map String) × (Registry.view memory settled.system.state (in_service "shop" "web")
        ≡ some m))
    ↔ Elem (in_service "shop" "web") (apply_events "shop" (sent_to "shop" settled.announced) [])
unfolding new_event_handler new_worker receive get_or_create_namespace_worker
    get_namespace_name_from_event_object namespace_name_of has get put push take finish sent_to
Runs-IsShown_example =
    Runs-IsShown memory owned [] [] settled "shop" (in_service "shop" "web") memory-IsReliable refl
      memory-Represents settled-Runs refl (λ e. cc e) refl refl
      (λ w there. let is : done ≡ w = cc there in subst (λ v. IsIdle v) is (refl, refl))
      (λ v m. absurd m) refl

Runs-settles_example :
    (p : Pipeline memory) × Follows memory owned (creation ∷ []) (started memory owned []) p
    × ((ns : String) (q : Place)
        → ns ≢ ""
        → NoneNamed ns []
        → namespace_of q ≡ ns
        → ((m : Map String) × (Registry.view memory p.system.state q ≡ some m))
          ↔ Elem q (apply_events ns (sent_to ns (creation ∷ [])) []))
unfolding new_event_handler get
Runs-settles_example =
    Runs-settles memory owned [] [] (started memory owned []) (creation ∷ []) memory-IsReliable refl
      memory-Represents starts refl
