-- ===== src/ServiceRegistry/Dispatcher/Invariant.antt =====
-- What holds of an event handler whatever it has received and however its goroutines took turns.
use cnwan_operator.Common.{
  ℕ, ◌+◌, ◌-◌, ◌<◌, String, some, List, [], ◌∷◌, ◌++◌, ◌≡◌, ◌∙◌, refl, sym, arith, All, length,
}
use mathlib.Core.Path.{subst}
use cnwan_operator.GoMap.{get, put}
use cnwan_operator.GoMap.Laws.{put-HasDistinctKeys}
use cnwan_operator.ServiceRegistry.Events.{Event, get_namespace_name_from_event_object}
use cnwan_operator.ServiceRegistry.Dispatcher.{
  capacity, Worker, watching, sending, EventHandler, push, WorkerStep, Step, cancels_main, stops,
  receives, sends, ticks, waits, moves, moves_removed, IsReachable, starts, steps,
}
use cnwan_operator.ServiceRegistry.Dispatcher.Workers.{
  running, push-IsSound, WorkerStep-IsSound, WorkerStep-cancelled, WorkerStep-running,
}
use cnwan_operator.ServiceRegistry.Dispatcher.Maps.{
  put-All, get-All, running_of, running_in, running_of-replaced, running_in-put,
}
use cnwan_operator.ServiceRegistry.Dispatcher.Consistent.{
  IsPlaced, IsToldToStop, Agrees, IsConsistent, new_event_handler-IsConsistent, Agrees-fewer,
  WorkerStep-IsPlaced, receive-IsConsistent, clean_up-IsConsistent, stop_watching-IsConsistent,
}

sends-IsConsistent :
    (e : EventHandler) (event : Event) (name : String) (now : ℕ) (w : Worker)
    → e.phase ≡ sending event name
    → get name e.workers ≡ some w
    → length w.events_chan < capacity
    → IsConsistent e
    → IsConsistent (record e { workers = put name (push event now w) e.workers; phase = watching })
sends-IsConsistent e event name now w about there room h =
    let (named, sound) = get-All IsPlaced name w e.workers h.placed there in
    let here : get_namespace_name_from_event_object event ≡ name =
      subst (λ p. Agrees p e.workers) about h.agrees in
    let same : running (push event now w) ≡ running w = unfold push in refl in
    let kept = running_in-put name w (push event now w) e.workers there in
    record {
      placed =
          put-All IsPlaced name (push event now w) e.workers
            (unfold push in named, push-IsSound event now w sound (here ∙ sym named) room) h.placed;
      told = h.told;
      distinct = put-HasDistinctKeys name (push event now w) e.workers h.distinct;
      counted = omega (arith, h.counted);
      agrees = tt;
    }

moves-IsConsistent :
    (e : EventHandler) (name : String) (w w' : Worker) (d : ℕ)
    → get name e.workers ≡ some w
    → WorkerStep e.main_cancelled w w' d
    → IsConsistent e
    → IsConsistent (record e { workers = put name w' e.workers; wait_group = e.wait_group - d })
moves-IsConsistent e name w w' d there step h =
    let placed = get-All IsPlaced name w e.workers h.placed there in
    let replaced = running_in-put name w w' e.workers there in
    let runs = WorkerStep-running step in
    let fewer : running_in (put name w' e.workers) + d ≡ running_in e.workers = omega arith in
    record {
      placed = put-All IsPlaced name w' e.workers (WorkerStep-IsPlaced name step placed) h.placed;
      told = h.told;
      distinct = put-HasDistinctKeys name w' e.workers h.distinct;
      counted = omega (arith, h.counted);
      agrees = Agrees-fewer e.phase e.workers (put name w' e.workers) d fewer h.agrees;
    }

replace-All :
    (P : Worker → Type 0) (before : List Worker) (w : Worker) (later : List Worker) (w' : Worker)
    → (P w → P w')
    → All P (before ++ w ∷ later)
    → All P (before ++ w' ∷ later)
replace-All P [] w later w' f (p, h) = (f p, h)
replace-All P (x ∷ before) w later w' f (p, h) = (p, replace-All P before w later w' f h)

moves_removed-IsConsistent :
    (e : EventHandler) (before : List Worker) (w : Worker) (later : List Worker) (w' : Worker)
    (d : ℕ)
    → e.removed ≡ before ++ w ∷ later
    → WorkerStep e.main_cancelled w w' d
    → IsConsistent e
    → IsConsistent (record e { removed = before ++ w' ∷ later; wait_group = e.wait_group - d })
moves_removed-IsConsistent e before w later w' d there step h =
    let replaced = running_of-replaced before w w' later in
    let runs = WorkerStep-running step in
    let was : e.wait_group ≡ running_in e.workers + running_of (before ++ w ∷ later) =
      subst (λ removed. e.wait_group ≡ running_in e.workers + running_of removed) there h.counted in
    record {
      placed = h.placed;
      told =
          replace-All IsToldToStop before w later w'
            (λ (told, sound). (WorkerStep-cancelled step ∙ told, WorkerStep-IsSound step sound))
            (subst (All IsToldToStop) there h.told);
      distinct = h.distinct;
      counted = omega arith;
      agrees = h.agrees;
    }

pub Step-IsConsistent : {e e' : EventHandler} → Step e e' → IsConsistent e → IsConsistent e'
Step-IsConsistent (cancels_main e new) h = record {
  placed = h.placed;
  told = h.told;
  distinct = h.distinct;
  counted = h.counted;
  agrees = h.agrees;
}
Step-IsConsistent (stops e in_select main) h = stop_watching-IsConsistent e h
Step-IsConsistent (receives e event in_select) h = receive-IsConsistent event e h
Step-IsConsistent (sends e event name now w about there room) h =
    sends-IsConsistent e event name now w about there room h
Step-IsConsistent (ticks e now in_select) h = clean_up-IsConsistent now e in_select h
Step-IsConsistent (waits e in_wait nobody) h = record {
  placed = h.placed;
  told = h.told;
  distinct = h.distinct;
  counted = h.counted;
  agrees = omega (arith, h.counted);
}
Step-IsConsistent (moves e name w w' d there step) h = moves-IsConsistent e name w w' d there step h
Step-IsConsistent (moves_removed e before w later w' d there step) h =
    moves_removed-IsConsistent e before w later w' d there step h

-- In every reachable state each worker stands in the map under its own namespace, once; those
-- removed from the map were told to stop; the wait group counts the goroutines that run, removed
-- or not; every worker got only events of its namespace, in order, and no more than its channel
-- holds; an event about to be sent goes to the worker of its namespace; and once the dispatcher
-- has returned no worker in the map runs.
pub IsReachable-IsConsistent : (e : EventHandler) → IsReachable e → IsConsistent e
IsReachable-IsConsistent _ starts = new_event_handler-IsConsistent
IsReachable-IsConsistent _ (steps e e' r step) =
    Step-IsConsistent step (IsReachable-IsConsistent e r)
