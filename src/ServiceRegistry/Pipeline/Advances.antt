-- ===== src/ServiceRegistry/Pipeline/Advances.antt =====
-- As long as something is under way and the main context is not cancelled, a step brings it on.
use cnwan_operator.Common.{
  ℕ, suc, ◌+◌, ◌*◌, ◌≤◌, ◌<◌, String, true, false, some, List, [], ◌∷◌, ◌++◌, ◌≡◌, ◌⊎◌, refl, ap,
  ◌∙◌, arith, inl, inr, length, Option-cases, Bool-cases, ◌==◌,
}
use mathlib.Core.Path.{subst}
use cnwan_operator.GoMap.{get, has, put}
use cnwan_operator.GoMap.Laws.{has-get}
use cnwan_operator.ServiceRegistry.Events.{Event, get_namespace_name_from_event_object}
use cnwan_operator.ServiceRegistry.Dispatcher.{
  Worker, Phase, watching, sending, waiting, returned, EventHandler, receive, push, take, finish,
  held, takes, finishes, get_or_create_namespace_worker, Step, receives, sends, moves, IsReachable,
}
use cnwan_operator.ServiceRegistry.Dispatcher.Maps.{get-All}
use cnwan_operator.ServiceRegistry.Dispatcher.Losing.{receive-removed}
use cnwan_operator.ServiceRegistry.Dispatcher.Invariant.{IsReachable-IsConsistent}
use cnwan_operator.ServiceRegistry.Dispatcher.Terminates.{rounds_in}
use cnwan_operator.ServiceRegistry.Dispatcher.Working.{
  IsAlive, IsReady, IsReachable-IsWorking, receive-main_cancelled,
}
use cnwan_operator.ServiceRegistry.Dispatcher.Queued.{
  HasWork, IsIdle, rounds_in-put, rounds_in-receive, AllIdle, IsBusy-or_AllIdle,
}
use cnwan_operator.ServiceRegistry.Pipeline.{received}

-- What an event has before it: from the channel to the dispatcher, to a worker, to the registry.
abbrev pub weight : Phase → ℕ
weight watching = 0
weight (sending event name) = 3
weight waiting = 0
weight returned = 0

abbrev pub work : List Event → EventHandler → ℕ
work events e = 4 * length events + (weight e.phase + rounds_in e.workers)

pub record IsSettled (events : List Event) (e : EventHandler) : Type 0 where
  pub empty : events ≡ []
  pub in_select : e.phase ≡ watching
  pub idle : AllIdle e.workers

pub record Advance (events : List Event) (e : EventHandler) : Type 0 where
  pub next : EventHandler
  pub step : Step e next
  pub rest : List Event
  pub taken_over : events ≡ received step ++ rest
  pub less : work rest next < work events e
  pub not_cancelled : next.main_cancelled ≡ false
  pub same_removed : next.removed ≡ e.removed

receive-weight :
    (event : Event) (e : EventHandler) → e.phase ≡ watching → weight (receive event e).phase ≤ 3
unfolding receive get_or_create_namespace_worker
receive-weight event e in_select =
    elim (Bool-cases (get_namespace_name_from_event_object event == "")) [
      | inl unnamed ↦ rw (unnamed, in_select) (omega arith)
      | inr named ↦ rw named (omega arith)
    ]

module _ (e : EventHandler) (reachable : IsReachable e) (main : e.main_cancelled ≡ false) where
  alive_in : (name : String) (w : Worker) → get name e.workers ≡ some w → w.exited ≡ false
  alive_in name w there =
      let (_, alive) =
        get-All IsAlive name w e.workers (IsReachable-IsWorking e reachable main).alive there in
      alive

  -- A worker does the next of its rounds.
  works :
      (events : List Event) (name : String) (w : Worker)
      → get name e.workers ≡ some w
      → HasWork w
      → Advance events e
  unfolding received take finish
  works events name w there (inl (event, hand)) =
      let w' = finish event w in
      let one_held : length (held w.in_hand) ≡ 1 = ap (λ o. length (held o)) hand in
      let sum = rounds_in-put name w w' e.workers there in
      record {
        next = record e { workers = put name w' e.workers; wait_group = _ };
        step = moves e name w w' 0 there (finishes w event (alive_in name w there) hand);
        rest = events;
        taken_over = refl;
        less = omega arith;
        not_cancelled = main;
        same_removed = refl;
      }
  works events name w there (inr (free, event, rest, queue)) =
      let w' = take event rest w in
      let one_less : length w.events_chan ≡ suc (length rest) = ap length queue in
      let none_held : length (held w.in_hand) ≡ 0 = ap (λ o. length (held o)) free in
      let sum = rounds_in-put name w w' e.workers there in
      record {
        next = record e { workers = put name w' e.workers; wait_group = _ };
        step = moves e name w w' 0 there (takes w event rest (alive_in name w there) free queue);
        rest = events;
        taken_over = refl;
        less = omega arith;
        not_cancelled = main;
        same_removed = refl;
      }

  gives :
      (events : List Event) (event : Event) (name : String)
      → e.phase ≡ sending event name
      → AllIdle e.workers
      → Advance events e
  unfolding received push
  gives events event name about idle =
      let known : has name e.workers ≡ true =
        subst (λ p. IsReady p e.workers) about (IsReachable-IsWorking e reachable main).ready in
      elim (Option-cases (get name e.workers)) [
        | inl absent ↦
            let unknown : has name e.workers ≡ false = has-get name e.workers ∙ rw absent refl in
            cc (known, unknown)
        | inr (w, there) ↦
            let (empty, _) =
              get-All (λ (x : String × Worker). IsIdle x.1) name w e.workers idle there in
            let w' = push event 0 w in
            let none_there : length w.events_chan ≡ 0 = ap length empty in
            let one : length w'.events_chan ≡ 1 = rw empty refl in
            let sum = rounds_in-put name w w' e.workers there in
            let three : weight e.phase ≡ 3 = ap weight about in
            record {
              next = record e { workers = put name w' e.workers; phase = watching };
              step = sends e event name 0 w about there (omega arith);
              rest = events;
              taken_over = refl;
              less = omega arith;
              not_cancelled = main;
              same_removed = refl;
            }
      ]

  accepts : (event : Event) (events : List Event) → e.phase ≡ watching → Advance (event ∷ events) e
  unfolding received
  accepts event events in_select =
      let sum = rounds_in-receive event e in
      let bound = receive-weight event e in_select in
      record {
        next = receive event e;
        step = receives e event in_select;
        rest = events;
        taken_over = refl;
        less = omega arith;
        not_cancelled = receive-main_cancelled event e ∙ main;
        same_removed = receive-removed event e;
      }

  idle_advances :
      (events : List Event) (p : Phase)
      → e.phase ≡ p
      → AllIdle e.workers
      → IsSettled events e ⊎ Advance events e
  idle_advances [] watching at idle = inl (record { empty = refl; in_select = at; idle = idle })
  idle_advances (event ∷ events) watching at idle = inr (accepts event events at)
  idle_advances events (sending event name) at idle = inr (gives events event name at idle)
  idle_advances events waiting at idle =
      absurd (subst (λ p. IsReady p e.workers) at (IsReachable-IsWorking e reachable main).ready)
  idle_advances events returned at idle =
      absurd (subst (λ p. IsReady p e.workers) at (IsReachable-IsWorking e reachable main).ready)

  -- Either nothing is under way or a step leaves less to do.
  pub advances : (events : List Event) → IsSettled events e ⊎ Advance events e
  advances events =
      elim (IsBusy-or_AllIdle e.workers (IsReachable-IsConsistent e reachable).distinct) [
        | inl (name, w, there, work_left) ↦ inr (works events name w there work_left)
        | inr idle ↦ idle_advances events e.phase refl idle
      ]
