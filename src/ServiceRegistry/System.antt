-- ===== src/ServiceRegistry/System.antt =====
-- The dispatcher and its workers together with the service registry. A worker takes an event from its
-- channel in one step and is done with it in a later one; the registry is what handling the event makes of
-- it from that step on. The log is history: which worker has handled which event.
pub mod Apart
pub mod Histories
pub mod Logged
pub mod Shown
use cnwan_operator.Common.{String, Bool, ℕ, Option, none, some, List, [], ◌∷◌, ◌++◌}
use cnwan_operator.GoMap.{Map}
use cnwan_operator.ServiceRegistry.Events.{Event}
use cnwan_operator.ServiceRegistry.Registry.{Registry}
use cnwan_operator.ServiceRegistry.Worker.{NamespaceWorker, handle_event}
use cnwan_operator.ServiceRegistry.Dispatcher.{
  Worker, EventHandler, new_event_handler, WorkerStep, takes, finishes, exits, Step, cancels_main,
  stops, receives, sends, ticks, waits, moves, moves_removed,
}

abbrev pub Log : Type 0
Log = List (String × Event)

pub record System (r : Registry) : Type 0 where
  pub handler : EventHandler
  pub state : Registry.State r
  pub log : Log

-- The event that a step of `handleNamespacedEvents` has handled.
unfoldable pub finished_by :
    {main_cancelled : Bool} {w w' : Worker} {d : ℕ}
    → WorkerStep main_cancelled w w' d
    → Option Event
finished_by (takes w event rest alive free queue) = none
finished_by (finishes w event alive hand) = some event
finished_by (exits w alive free told) = none

abbrev pub tagged : String → Option Event → Option (String × Event)
tagged name none = none
tagged name (some event) = some (name, event)

unfoldable pub finished : {e e' : EventHandler} → Step e e' → Option (String × Event)
unfolding finished_by
finished (cancels_main e new) = none
finished (stops e in_select main) = none
finished (receives e event in_select) = none
finished (sends e event name now w about there room) = none
finished (ticks e now in_select) = none
finished (waits e in_wait nobody) = none
finished (moves e name w w' d there step) = tagged w.name (finished_by step)
finished (moves_removed e before w later w' d there step) = tagged w.name (finished_by step)

-- `persistentMeta` is the same for all workers.
abbrev pub worker_of : Map String → String → NamespaceWorker
worker_of meta name = record { namespace = name; persistent_meta = meta }

module _ (r : Registry) (meta : Map String) where
  abbrev pub advance : EventHandler → Option (String × Event) → System r → System r
  advance e none y = record y { handler = e }
  advance e (some (name, event)) y = record {
    handler = e;
    state = handle_event r (worker_of meta name) event y.state;
    log = y.log ++ (name, event) ∷ [];
  }

  -- What may come of a new event handler and a state of the registry.
  pub data Reaches (st : Registry.State r) : System r → Type 0 where
    starts : Reaches st (record { handler = new_event_handler; state = st; log = [] })
    steps :
        (y : System r) (e : EventHandler) (step : Step y.handler e)
        → Reaches st y
        → Reaches st (advance e (finished step) y)
