-- ===== src/ServiceRegistry/Pipeline.antt =====
-- main.go: the channel of events between the handlers of the controllers and the dispatcher, before the
-- dispatcher, its workers and the registry. A handler waits while the channel is full. What the handlers
-- have sent is history.
pub mod Received
pub mod Delivered
pub mod Advances
pub mod Settles
mod Tests
use cnwan_operator.Common.{
  ℕ, ◌<◌, String, Bool, List, [], ◌∷◌, ◌++◌, ◌≡◌, ◌==◌, if◌then◌else◌, length,
}
use cnwan_operator.GoMap.{Map}
use cnwan_operator.ServiceRegistry.Events.{Event, get_namespace_name_from_event_object}
use cnwan_operator.ServiceRegistry.Registry.{Registry}
use cnwan_operator.ServiceRegistry.Dispatcher.{
  Phase, watching, sending, waiting, returned, EventHandler, new_event_handler, Step, cancels_main,
  stops, receives, sends, ticks, waits, moves, moves_removed,
}
use cnwan_operator.ServiceRegistry.System.{System, finished, advance}

-- `make(chan *serviceregistry.Event, 100)`
abbrev pub events_capacity : ℕ
events_capacity = 100

pub record Pipeline (r : Registry) : Type 0 where
  pub events_channel : List Event
  pub system : System r
  pub announced : List Event

-- What a step of the dispatcher takes from the channel.
unfoldable pub received : {e e' : EventHandler} → Step e e' → List Event
received (cancels_main e new) = []
received (stops e in_select main) = []
received (receives e event in_select) = event ∷ []
received (sends e event name now w about there room) = []
received (ticks e now in_select) = []
received (waits e in_wait nobody) = []
received (moves e name w w' d there step) = []
received (moves_removed e before w later w' d there step) = []

-- The event that the dispatcher has taken from the channel and not yet given to a worker.
abbrev pub pending : Phase → List Event
pending watching = []
pending (sending event name) = event ∷ []
pending waiting = []
pending returned = []

unfoldable pub sent_to : String → List Event → List Event
sent_to ns [] = []
sent_to ns (event ∷ events) =
    let rest = sent_to ns events in
    if get_namespace_name_from_event_object event == ns then event ∷ rest else rest

module _ (r : Registry) (meta : Map String) where
  abbrev pub started : Registry.State r → Pipeline r
  started st = record {
    events_channel = [];
    system = record { handler = new_event_handler; state = st; log = [] };
    announced = [];
  }

  abbrev pub announce : Event → Pipeline r → Pipeline r
  announce event p = record p {
    events_channel = p.events_channel ++ event ∷ [];
    announced = p.announced ++ event ∷ [];
  }

  abbrev pub proceed :
      (p : Pipeline r) (e : EventHandler) → Step p.system.handler e → List Event → Pipeline r
  proceed p e step rest = record p {
    events_channel = rest;
    system = advance r meta e (finished step) p.system;
  }

  -- What may come of a dispatcher that starts over a state of the registry.
  pub data Runs (st : Registry.State r) : Pipeline r → Type 0 where
    starts : Runs st (started st)
    announces :
        (p : Pipeline r) (event : Event)
        → length p.events_channel < events_capacity
        → Runs st p
        → Runs st (announce event p)
    proceeds :
        (p : Pipeline r) (e : EventHandler) (step : Step p.system.handler e) (rest : List Event)
        → p.events_channel ≡ received step ++ rest
        → Runs st p
        → Runs st (proceed p e step rest)

  -- What may follow while the handlers send these events, one after the other, and no others.
  pub data Follows : List Event → Pipeline r → Pipeline r → Type 0 where
    stays : (p : Pipeline r) → Follows [] p p
    is_sent :
        (p : Pipeline r) (event : Event) (events : List Event) (p' : Pipeline r)
        → length p.events_channel < events_capacity
        → Follows events (announce event p) p'
        → Follows (event ∷ events) p p'
    goes_on :
        (events : List Event) (p : Pipeline r) (e : EventHandler) (step : Step p.system.handler e)
        (rest : List Event) (p' : Pipeline r)
        → p.events_channel ≡ received step ++ rest
        → Follows events (proceed p e step rest) p'
        → Follows events p p'
