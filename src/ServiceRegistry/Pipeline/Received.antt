-- ===== src/ServiceRegistry/Pipeline/Received.antt =====
-- Each step of the dispatcher passes events on to the worker of their namespace in the order in which
-- it takes them from the channel.
use cnwan_operator.Common.{
  ◌-◌, ℕ, String, Bool, true, false, some, List, [], ◌∷◌, ◌++◌, ◌≡◌, ◌≢◌, refl, sym, ap, ◌∙◌, inl,
  inr, Elem-append_left, Elem-append_right, Bool-cases, ◌==◌, eq_iff, is_empty,
}
use mathlib.Core.Path.{subst}
use mathlib.Core.List.{append-nil}
use cnwan_operator.GoMap.{Map, get, put}
use cnwan_operator.GoMap.Laws.{get-put}
use cnwan_operator.ServiceRegistry.Events.{Event, get_namespace_name_from_event_object}
use cnwan_operator.ServiceRegistry.Dispatcher.{
  returned, Worker, watching, EventHandler, new_worker, receive, push, stop_watching, stop_idle,
  clean_up, take, finish, exit, WorkerStep, takes, finishes, exits, Step, cancels_main, stops,
  receives, sends, ticks, waits, moves, moves_removed,
}
use cnwan_operator.ServiceRegistry.Dispatcher.Workers.{WorkerStep-name}
use cnwan_operator.ServiceRegistry.Dispatcher.Consistent.{Agrees, IsConsistent}
use cnwan_operator.ServiceRegistry.Dispatcher.Losing.{receive-removed, stop_watching-removed}
use cnwan_operator.ServiceRegistry.System.Histories.{
  NoneNamed, NoneNamed-replaced, history_by, history_of, history_by-put, history_by-keep_busy,
  history_by-receive, history_by-stop_watching,
}
use cnwan_operator.ServiceRegistry.Pipeline.{received, pending, sent_to}

abbrev pub received_events : Worker → List Event
received_events w = w.received

abbrev pub received_by : String → Map Worker → List Event
received_by ns m = history_by received_events ns m

new_worker-received : (name : String) → received_events (new_worker name) ≡ []
unfolding new_worker
new_worker-received name = refl

WorkerStep-received :
    {main_cancelled : Bool} {w w' : Worker} {d : ℕ}
    → WorkerStep main_cancelled w w' d
    → w'.received ≡ w.received
unfolding take finish exit
WorkerStep-received (takes w event rest alive free queue) = refl
WorkerStep-received (finishes w event alive hand) = refl
WorkerStep-received (exits w alive free told) = refl

pub sent_to-append :
    (ns : String) (events events' : List Event)
    → sent_to ns (events ++ events') ≡ sent_to ns events ++ sent_to ns events'
unfolding sent_to
sent_to-append ns [] events' = refl
sent_to-append ns (event ∷ events) events' =
    let later = sent_to-append ns events events' in
    elim (Bool-cases (get_namespace_name_from_event_object event == ns)) [
      | inl same ↦ rw same (ap (λ es. event ∷ es) later)
      | inr other ↦ rw other later
    ]

module _ (ns : String) where
  -- What of a namespace has been given to its worker, or is about to be.
  abbrev pub passed : EventHandler → List Event
  passed e = received_by ns e.workers ++ sent_to ns (pending e.phase)

  stop_watching-pending : (e : EventHandler) → sent_to ns (pending (stop_watching e).phase) ≡ []
  unfolding stop_watching sent_to
  stop_watching-pending e = elim (Bool-cases (is_empty e.workers)) [
    | inl nobody ↦ rw nobody refl
    | inr somebody ↦ rw somebody refl
  ]

  receive-pending :
      (event : Event) (e : EventHandler)
      → ns ≢ ""
      → e.phase ≡ watching
      → sent_to ns (pending (receive event e).phase) ≡ sent_to ns (event ∷ [])
  unfolding receive sent_to
  receive-pending event e named in_select =
      let name = get_namespace_name_from_event_object event in
      elim (Bool-cases (name == "")) [
        | inr known ↦ rw known refl
        | inl unnamed ↦
            let other : (name == ns) ≡ false = elim (Bool-cases (name == ns)) [
              | inl same ↦
                  absurd (named (sym ((eq_iff name ns).0 same) ∙ (eq_iff name "").0 unnamed))
              | inr e ↦ e
            ] in
            rw (unnamed, in_select, other) refl
      ]

  push-passed :
      (e : EventHandler) (event : Event) (name : String) (now : ℕ) (w : Worker)
      → get name e.workers ≡ some w
      → get_namespace_name_from_event_object event ≡ name
      → received_by ns (put name (push event now w) e.workers)
        ≡ received_by ns e.workers ++ sent_to ns (event ∷ [])
  unfolding push sent_to
  push-passed e event name now w there about = elim (Bool-cases (name == ns)) [
    | inl same ↦
        let is : name ≡ ns = (eq_iff name ns).0 same in
        let was : received_by ns e.workers ≡ w.received =
          rw (← is) (ap (history_of received_events) there) in
        rw (get-put name ns (push event now w) e.workers, about, same)
          (ap (λ es. es ++ event ∷ []) (sym was))
    | inr other ↦
        rw (get-put name ns (push event now w) e.workers, about, other)
          (sym (append-nil (received_by ns e.workers)))
  ]

  -- A step that takes nothing from the channel.
  nothing_received :
      (e e' : EventHandler)
      → received_by ns e'.workers ≡ received_by ns e.workers
      → sent_to ns (pending e'.phase) ≡ sent_to ns (pending e.phase)
      → passed e' ≡ passed e ++ sent_to ns []
  unfolding sent_to
  nothing_received e e' workers phase = rw (workers, phase) (sym (append-nil (passed e)))

  pub Step-removed :
      {e e' : EventHandler} (step : Step e e') → NoneNamed ns e'.removed → NoneNamed ns e.removed
  unfolding clean_up
  Step-removed (cancels_main e new) alone = alone
  Step-removed (stops e in_select main) alone =
      subst (λ ws. NoneNamed ns ws) (stop_watching-removed e) alone
  Step-removed (receives e event in_select) alone =
      subst (λ ws. NoneNamed ns ws) (receive-removed event e) alone
  Step-removed (sends e event name now w about there room) alone = alone
  Step-removed (ticks e now in_select) alone =
      λ v m. alone v (Elem-append_right v (stop_idle now e.workers) e.removed m)
  Step-removed (waits e in_wait nobody) alone = alone
  Step-removed (moves e name w w' d there step) alone = alone
  Step-removed (moves_removed e before w later w' d there step) alone =
      subst (λ ws. NoneNamed ns ws) (sym there)
        (NoneNamed-replaced ns before w w' later (WorkerStep-name step) alone)

  pub Step-passed :
      {e e' : EventHandler} (step : Step e e')
      → IsConsistent e
      → ns ≢ ""
      → NoneNamed ns e'.removed
      → passed e' ≡ passed e ++ sent_to ns (received step)
  unfolding received clean_up
  Step-passed (cancels_main e new) c named alone =
      nothing_received e (record e { main_cancelled = true }) refl refl
  Step-passed (stops e in_select main) c named alone =
      nothing_received e (stop_watching e)
        (history_by-stop_watching received_events (λ w. refl) ns e)
        (stop_watching-pending e ∙ rw in_select (unfold sent_to in refl))
  Step-passed (receives e event in_select) c named alone =
      rw
        (
          history_by-receive received_events new_worker-received ns event e,
          receive-pending event e named in_select,
          in_select,
        )
        (ap (λ es. es ++ sent_to ns (event ∷ []))
          (sym (unfold sent_to in append-nil (received_by ns e.workers))))
  Step-passed (sends e event name now w about there room) c named alone =
      let about' : get_namespace_name_from_event_object event ≡ name =
        subst (λ p. Agrees p e.workers) about c.agrees in
      rw (push-passed e event name now w there about', about) refl
  Step-passed (ticks e now in_select) c named alone =
      nothing_received e (clean_up now e)
        (history_by-keep_busy received_events ns now e.workers c.placed
          (λ v m. alone v (Elem-append_left v (stop_idle now e.workers) e.removed m)))
        refl
  Step-passed (waits e in_wait nobody) c named alone =
      nothing_received e (record e { phase = returned }) refl (rw in_wait refl)
  Step-passed (moves e name w w' d there step) c named alone =
      nothing_received e
        (record e { workers = put name w' e.workers; wait_group = e.wait_group - d })
        (history_by-put received_events ns name w' e.workers
          (WorkerStep-received step ∙ sym (ap (history_of received_events) there)))
        refl
  Step-passed (moves_removed e before w later w' d there step) c named alone =
      nothing_received e
        (record e { removed = before ++ w' ∷ later; wait_group = e.wait_group - d }) refl refl
