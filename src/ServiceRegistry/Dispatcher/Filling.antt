-- ===== src/ServiceRegistry/Dispatcher/Filling.antt =====
-- How the channel of a worker fills up.
use cnwan_operator.Common.{
  text_laws, ℕ, zero, suc, ◌<◌, String, ◌==◌, eq_refl, ◌≢◌, true, false, none, some, [], ◌∷◌, ◌≡◌,
  ◌∙◌, refl, arith, length, length-append,
}
use mathlib.Core.Path.{subst}
use cnwan_operator.GoMap.{get, has, put}
use cnwan_operator.GoMap.Laws.{get-put, has-get}
use cnwan_operator.ServiceRegistry.Events.{Event, get_namespace_name_from_event_object}
use cnwan_operator.ServiceRegistry.Dispatcher.{
  capacity, Worker, watching, sending, EventHandler, new_event_handler, new_worker,
  get_or_create_namespace_worker, receive, push, Step, receives, sends, IsReachable, starts, steps,
}

module _ (event : Event) (named : get_namespace_name_from_event_object event ≢ "") where
  abbrev pub name : String
  name = get_namespace_name_from_event_object event

  is_named : (name == "") ≡ false
  is_named = grind text_laws

  -- A reachable handler in `select` whose worker of the event's namespace runs with n events in its channel.
  pub record IsFilled (n : ℕ) (e : EventHandler) : Type 0 where
    pub reached : IsReachable e
    pub in_select : e.phase ≡ watching
    pub uncancelled : e.main_cancelled ≡ false
    pub worker : Worker
    pub there : get name e.workers ≡ some worker
    pub alive : worker.exited ≡ false
    pub free : worker.in_hand ≡ none
    pub filled : length worker.events_chan ≡ n

  pub received :
      (e : EventHandler)
      → has name e.workers ≡ true
      → receive event e ≡ record e { phase = sending event name }
  unfolding receive get_or_create_namespace_worker
  received e there = rw is_named (rw there refl)

  sent_one :
      (n : ℕ) (e : EventHandler) (w : Worker)
      → IsReachable e
      → e.phase ≡ sending event name
      → get name e.workers ≡ some w
      → w.exited ≡ false
      → w.in_hand ≡ none
      → length w.events_chan ≡ n
      → n < capacity
      → e.main_cancelled ≡ false
      → (e' : EventHandler) × IsFilled (suc n) e'
  unfolding push
  sent_one n e w reached about there alive idle filled room free =
      let after = record e { workers = put name (push event 0 w) e.workers; phase = watching } in
      let longer = length-append w.events_chan (event ∷ []) in
      (
        after,
        record {
          reached = steps e after reached (sends e event name 0 w about there (omega arith));
          in_select = refl;
          uncancelled = free;
          worker = push event 0 w;
          there = get-put name name (push event 0 w) e.workers ∙ rw (eq_refl name) refl;
          alive = alive;
          free = idle;
          filled = omega arith;
        },
      )

  received_first : receive event new_event_handler ≡ record {
    workers = (name, new_worker name) ∷ [];
    removed = [];
    wait_group = 1;
    main_cancelled = false;
    phase = sending event name;
  }
  unfolding receive get_or_create_namespace_worker new_event_handler has put
  received_first = rw is_named refl

  first_one : (e : EventHandler) × IsFilled 1 e
  unfolding new_worker get
  first_one =
      let e : EventHandler = record {
        workers = (name, new_worker name) ∷ [];
        removed = [];
        wait_group = 1;
        main_cancelled = false;
        phase = sending event name;
      } in
      let step : Step new_event_handler e =
        subst (Step new_event_handler) received_first
          (receives new_event_handler event (unfold new_event_handler in refl)) in
      sent_one 0 e (new_worker name) (steps new_event_handler e starts step) refl
        (rw (eq_refl name) refl) refl refl refl (omega arith) refl

  next_one :
      (n : ℕ) (e : EventHandler)
      → IsFilled n e
      → n < capacity
      → (e' : EventHandler) × IsFilled (suc n) e'
  next_one n e f room =
      let sends_next = record e { phase = sending event name } in
      let known : has name e.workers ≡ true = has-get name e.workers ∙ rw f.there refl in
      let step : Step e sends_next =
        subst (Step e) (received e known) (receives e event f.in_select) in
      sent_one n sends_next f.worker (steps e sends_next f.reached step) refl f.there f.alive f.free
        f.filled room f.uncancelled

  pub fills : (n : ℕ) → n < capacity → (e : EventHandler) × IsFilled (suc n) e
  fills zero room = first_one
  fills (suc n) room = let (e, f) = fills n (omega arith) in next_one (suc n) e f room
