-- ===== src/ServiceRegistry/Dispatcher/Blocked.antt =====
-- A shutdown that never ends: the dispatcher sends to a worker that has stopped.
use cnwan_operator.Common.{
  ◌-◌, ◌≤◌, String, Bool, true, false, some, ◌≡◌, ◌≢◌, ◌∙◌, refl, sym, arith, ◌==◌, eq_iff, eq_refl,
  if◌then◌else◌, Bool-cases, inl, inr, length,
}
use mathlib.Core.Path.{subst}
use cnwan_operator.GoMap.{get, has, put}
use cnwan_operator.GoMap.Laws.{get-put, has-get}
use cnwan_operator.ServiceRegistry.Events.{Event, get_namespace_name_from_event_object}
use cnwan_operator.ServiceRegistry.Dispatcher.{
  capacity, Worker, sending, returned, EventHandler, exit, WorkerStep, exits, Step, cancels_main,
  stops, receives, sends, ticks, waits, moves, moves_removed, IsReachable, steps, Steps, nothing,
  followed,
}
use cnwan_operator.ServiceRegistry.Dispatcher.Workers.{WorkerStep-runs}
use cnwan_operator.ServiceRegistry.Dispatcher.Filling.{received, fills}

-- The dispatcher is about to send to a worker that has ended with its channel full.
pub record IsBlocked (e : EventHandler) : Type 0 where
  pub event : Event
  pub name : String
  pub worker : Worker
  pub about : e.phase ≡ sending event name
  pub there : get name e.workers ≡ some worker
  pub ended : worker.exited ≡ true
  pub full : capacity ≤ length worker.events_chan

Step-IsBlocked : {e e' : EventHandler} → Step e e' → IsBlocked e → IsBlocked e'
Step-IsBlocked (cancels_main e new) b = record {
  event = b.event;
  name = b.name;
  worker = b.worker;
  about = b.about;
  there = b.there;
  ended = b.ended;
  full = b.full;
}
Step-IsBlocked (stops e in_select main) b = let clash = sym in_select ∙ b.about in cc clash
Step-IsBlocked (receives e event in_select) b = let clash = sym in_select ∙ b.about in cc clash
Step-IsBlocked (sends e event name now w about there room) b =
    let same : sending event name ≡ sending b.event b.name = sym about ∙ b.about in
    let same_name : name ≡ b.name = cc same in
    let found : get b.name e.workers ≡ some w = rw (← same_name) there in
    let same_worker : w ≡ b.worker = cc (found, b.there) in
    let no_room : capacity ≤ length w.events_chan = rw same_worker b.full in absurd (omega arith)
Step-IsBlocked (ticks e now in_select) b = let clash = sym in_select ∙ b.about in cc clash
Step-IsBlocked (waits e in_wait nobody) b = let clash = sym in_wait ∙ b.about in cc clash
Step-IsBlocked (moves e name w w' d there step) b = elim (Bool-cases (name == b.name)) [
  | inl same ↦
      let same_name : name ≡ b.name = (eq_iff name b.name).0 same in
      let found : get b.name e.workers ≡ some w = rw (← same_name) there in
      let same_worker : w ≡ b.worker = cc (found, b.there) in
      let ended : w.exited ≡ true = rw same_worker b.ended in
      let alive = WorkerStep-runs step in cc (ended, alive)
  | inr other ↦ record {
    event = b.event;
    name = b.name;
    worker = b.worker;
    about = b.about;
    there = get-put name b.name w' e.workers ∙ rw other b.there;
    ended = b.ended;
    full = b.full;
  }
]
Step-IsBlocked (moves_removed e before w later w' d there step) b = record {
  event = b.event;
  name = b.name;
  worker = b.worker;
  about = b.about;
  there = b.there;
  ended = b.ended;
  full = b.full;
}

IsBlocked-never_returns : (e e' : EventHandler) → IsBlocked e → Steps e e' → e'.phase ≢ returned
IsBlocked-never_returns e _ b (nothing _) back = let clash = sym back ∙ b.about in cc clash
IsBlocked-never_returns e e' b (followed _ middle _ step more) back =
    IsBlocked-never_returns middle e' (Step-IsBlocked step b) more back

told_by_main : (cancelled : Bool) → (if cancelled then true else true) ≡ true
told_by_main true = refl
told_by_main false = refl

-- For every event with a namespace a state can be reached in which the main context is cancelled and
-- the dispatcher is about to send the event to the worker of its namespace, and from which
-- `WatchForEvents` does not return, whatever happens next.
pub shutdown-may_block :
    (event : Event)
    → get_namespace_name_from_event_object event ≢ ""
    → (e : EventHandler) × IsReachable e
      × (e.phase ≡ sending event (get_namespace_name_from_event_object event))
      × (e.main_cancelled ≡ true)
      × ((e' : EventHandler) → Steps e e' → e'.phase ≢ returned)
unfolding exit
shutdown-may_block event named =
    let name = get_namespace_name_from_event_object event in
    let (e, f) = fills event named 24 (omega arith) in
    let told : EventHandler = record e { main_cancelled = true } in
    let stopped : EventHandler = record told {
      workers = put name (exit f.worker) e.workers;
      wait_group = e.wait_group - 1;
    } in
    let blocked : EventHandler = record stopped { phase = sending event name } in
    let there : get name stopped.workers ≡ some (exit f.worker) =
      get-put name name (exit f.worker) e.workers ∙ rw (eq_refl name) refl in
    let known : has name stopped.workers ≡ true = has-get name stopped.workers ∙ rw there refl in
    let told_step : WorkerStep true f.worker (exit f.worker) 1 =
      exits f.worker f.alive f.free (told_by_main f.worker.cancelled) in
    let reached_told : IsReachable told = steps e told f.reached (cancels_main e f.uncancelled) in
    let reached_stopped : IsReachable stopped =
      steps told stopped reached_told
        (moves told name f.worker (exit f.worker) 1 f.there told_step) in
    let reached : IsReachable blocked = steps stopped blocked reached_stopped (
      subst (Step stopped) (received event named stopped known)
        (receives stopped event f.in_select)) in
    (
      blocked,
      reached,
      refl,
      refl,
      λ e' more.
          IsBlocked-never_returns blocked e'
            (record {
              event = event;
              name = name;
              worker = exit f.worker;
              about = refl;
              there = there;
              ended = refl;
              full = omega (arith, f.filled);
            })
            more,
    )
