-- ===== src/ServiceRegistry/Dispatcher.antt =====
-- pkg/serviceregistry/events_handler.go: `WatchForEvents`, `getOrCreateNamespaceWorker` and the
-- goroutines of the workers, as a step relation. A worker that the clean-up removes from the map of
-- workers may run on for a while, so the goroutines that are no longer in the map are a part of the
-- state. Times are in seconds.
pub mod Workers
pub mod Maps
pub mod Consistent
pub mod Invariant
pub mod Returns
pub mod Filling
pub mod Blocked
pub mod Shutdown
pub mod Terminates
pub mod Losing
pub mod Working
pub mod Queued
mod Tests
use cnwan_operator.Common.{
  ℕ, ◌+◌, ◌-◌, ◌<◌, String, Bool, true, false, Option, none, some, List, [], ◌∷◌, ◌++◌, ◌≡◌, ◌==◌,
  if◌then◌else◌, ltb, is_empty, length, Elem, ◌⊎◌,
}
use cnwan_operator.GoMap.{Map, get, has, put}
use cnwan_operator.ServiceRegistry.Events.{Event, get_namespace_name_from_event_object}

-- `namespaceWorkerData` and its goroutine: its buffered channel, whether `canc` was called and
-- whether the goroutine has ended. `in_hand` is the event that the goroutine has taken from the channel and
-- is handling. The last two fields are history: what was sent to the worker, and what its goroutine has
-- handled to the end.
pub record Worker : Type 0 where
  pub name : String
  pub events_chan : List Event
  pub cancelled : Bool
  pub last_event : ℕ
  pub exited : Bool
  pub in_hand : Option Event
  pub received : List Event
  pub handled : List Event

-- Where `WatchForEvents` is: in `select`, before it sends an event to the worker of a namespace, in
-- `waitGroup.Wait`, or back.
pub data Phase : Type 0 where
  watching : Phase
  sending : Event → String → Phase
  waiting : Phase
  returned : Phase

-- `main_cancelled` tells of `mainCtx`, from which the contexts of the workers derive.
pub record EventHandler : Type 0 where
  pub workers : Map Worker
  pub removed : List Worker
  pub wait_group : ℕ
  pub main_cancelled : Bool
  pub phase : Phase

unfoldable pub new_event_handler : EventHandler
new_event_handler = record {
  workers = [];
  removed = [];
  wait_group = 0;
  main_cancelled = false;
  phase = watching;
}

-- `make(chan *Event, 25)`
abbrev pub capacity : ℕ
capacity = 25

-- `maximumIdleDuration`
abbrev pub maximum_idle_duration : ℕ
maximum_idle_duration = 300

unfoldable pub new_worker : String → Worker
new_worker name = record {
  name = name;
  events_chan = [];
  cancelled = false;
  last_event = 0;
  exited = false;
  in_hand = none;
  received = [];
  handled = [];
}

unfoldable pub get_or_create_namespace_worker : String → EventHandler → EventHandler
unfolding new_worker
get_or_create_namespace_worker name e =
    if has name e.workers
    then e
    else record e { workers = put name (new_worker name) e.workers; wait_group = e.wait_group + 1 }

-- `case event := <-eventsChannel`, up to the send.
unfoldable pub receive : Event → EventHandler → EventHandler
unfolding get_or_create_namespace_worker
receive event e =
    let namespace_name = get_namespace_name_from_event_object event in
    if namespace_name == "" then e else record (get_or_create_namespace_worker namespace_name e) {
      phase = sending event namespace_name;
    }

-- The send, once the channel has room, and what follows it.
unfoldable pub push : Event → ℕ → Worker → Worker
push event now w = record w {
  events_chan = w.events_chan ++ event ∷ [];
  last_event = now;
  received = w.received ++ event ∷ [];
}

abbrev pub cancel : Worker → Worker
cancel w = record w { cancelled = true }

abbrev pub is_idle : ℕ → Worker → Bool
is_idle now w = ltb (w.last_event + maximum_idle_duration) now

-- The workers that stay in the map, and those that the clean-up stops and deletes from it.
unfoldable pub keep_busy : ℕ → Map Worker → Map Worker
keep_busy now [] = []
keep_busy now ((k, w) ∷ m) =
    let rest = keep_busy now m in if is_idle now w then rest else (k, w) ∷ rest

unfoldable pub stop_idle : ℕ → Map Worker → List Worker
stop_idle now [] = []
stop_idle now ((k, w) ∷ m) =
    let rest = stop_idle now m in if is_idle now w then cancel w ∷ rest else rest

-- `case <-cleanUpTicker.C`
unfoldable pub clean_up : ℕ → EventHandler → EventHandler
unfolding keep_busy stop_idle
clean_up now e = record e {
  workers = keep_busy now e.workers;
  removed = stop_idle now e.workers ++ e.removed;
}

unfoldable pub cancel_all : Map Worker → Map Worker
cancel_all [] = []
cancel_all ((k, w) ∷ m) = (k, cancel w) ∷ cancel_all m

-- `case <-mainCtx.Done()`, up to `waitGroup.Wait`.
unfoldable pub stop_watching : EventHandler → EventHandler
unfolding cancel_all
stop_watching e =
    if is_empty e.workers
    then record e { phase = returned }
    else record e { workers = cancel_all e.workers; phase = waiting }

-- `case event := <-n.eventsChan`, and the end of what follows it.
unfoldable pub take : Event → List Event → Worker → Worker
take event rest w = record w { events_chan = rest; in_hand = some event }

abbrev pub held : Option Event → List Event
held none = []
held (some event) = event ∷ []

unfoldable pub finish : Event → Worker → Worker
finish event w = record w { in_hand = none; handled = w.handled ++ event ∷ [] }

unfoldable pub exit : Worker → Worker
exit w = record w { exited = true }

-- A step of `handleNamespacedEvents`, with the number of calls of `waitGroup.Done` that it makes: the
-- goroutine takes an event, comes to the end of handling it, or ends. Where both cases of the `select`
-- are ready, either may run; the goroutine is in its `select` while it has no event in hand.
pub data WorkerStep (main_cancelled : Bool) : Worker → Worker → ℕ → Type 0 where
  takes :
      (w : Worker) (event : Event) (rest : List Event)
      → w.exited ≡ false
      → w.in_hand ≡ none
      → w.events_chan ≡ event ∷ rest
      → WorkerStep main_cancelled w (take event rest w) 0
  finishes :
      (w : Worker) (event : Event)
      → w.exited ≡ false
      → w.in_hand ≡ some event
      → WorkerStep main_cancelled w (finish event w) 0
  exits :
      (w : Worker)
      → w.exited ≡ false
      → w.in_hand ≡ none
      → (if w.cancelled then true else main_cancelled) ≡ true
      → WorkerStep main_cancelled w (exit w) 1

-- A step of the dispatcher, of a worker, or of whoever cancels the main context.
pub data Step : EventHandler → EventHandler → Type 0 where
  cancels_main :
      (e : EventHandler) → e.main_cancelled ≡ false → Step e (record e { main_cancelled = true })
  stops :
      (e : EventHandler) → e.phase ≡ watching → e.main_cancelled ≡ true → Step e (stop_watching e)
  receives : (e : EventHandler) (event : Event) → e.phase ≡ watching → Step e (receive event e)
  sends :
      (e : EventHandler) (event : Event) (name : String) (now : ℕ) (w : Worker)
      → e.phase ≡ sending event name
      → get name e.workers ≡ some w
      → length w.events_chan < capacity
      → Step e (record e { workers = put name (push event now w) e.workers; phase = watching })
  ticks : (e : EventHandler) (now : ℕ) → e.phase ≡ watching → Step e (clean_up now e)
  waits :
      (e : EventHandler)
      → e.phase ≡ waiting
      → e.wait_group ≡ 0
      → Step e (record e { phase = returned })
  moves :
      (e : EventHandler) (name : String) (w w' : Worker) (d : ℕ)
      → get name e.workers ≡ some w
      → WorkerStep e.main_cancelled w w' d
      → Step e (record e { workers = put name w' e.workers; wait_group = e.wait_group - d })
  moves_removed :
      (e : EventHandler) (before : List Worker) (w : Worker) (later : List Worker) (w' : Worker)
      (d : ℕ)
      → e.removed ≡ before ++ w ∷ later
      → WorkerStep e.main_cancelled w w' d
      → Step e (record e { removed = before ++ w' ∷ later; wait_group = e.wait_group - d })

-- What may come of a new event handler.
pub data IsReachable : EventHandler → Type 0 where
  starts : IsReachable new_event_handler
  steps : (e e' : EventHandler) → IsReachable e → Step e e' → IsReachable e'

pub data Steps : EventHandler → EventHandler → Type 0 where
  nothing : (e : EventHandler) → Steps e e
  followed : (e e' e'' : EventHandler) → Step e e' → Steps e' e'' → Steps e e''

-- A worker whose goroutine was started, whether it is in the map or not.
abbrev pub IsWorker : EventHandler → Worker → Type 0
IsWorker e w = ((name : String) × Elem (name, w) e.workers) ⊎ Elem w e.removed
