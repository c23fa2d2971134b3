-- ===== src/ServiceRegistry/Dispatcher/Tests.antt =====
-- Tests of the dispatcher: one event for the namespace "shop", and a shutdown.
use cnwan_operator.Common.{
  true, false, [], ◌∷◌, ◌≡◌, ◌≢◌, ◌⊎◌, refl, inl, arith, Elem, length, ◌≤◌, ◌+◌,
}
use cnwan_operator.GoMap.{get, has, put}
use cnwan_operator.ServiceRegistry.Events.{
  create, Event, Resource, get_namespace_name_from_event_object, namespace_name_of,
}
use cnwan_operator.ServiceRegistry.Dispatcher.{
  sending, Worker, watching, returned, EventHandler, new_event_handler, new_worker,
  get_or_create_namespace_worker, receive, push, cancel, clean_up, keep_busy, stop_idle,
  stop_watching, cancel_all, waiting, capacity, exit, exits, moves, Step, nothing, followed,
  cancels_main, stops, receives, sends, IsReachable, starts, steps, Steps, IsWorker,
}
use cnwan_operator.ServiceRegistry.Dispatcher.Workers.{IsSound}
use cnwan_operator.ServiceRegistry.Dispatcher.Returns.{
  IsReachable-IsSound, IsReachable-one_worker, IsReachable-ended,
}
use cnwan_operator.ServiceRegistry.Dispatcher.Blocked.{shutdown-may_block}
use cnwan_operator.ServiceRegistry.Dispatcher.Losing.{clean_up-may_lose}
use cnwan_operator.ServiceRegistry.Dispatcher.Terminates.{
  rounds_in, rounds_of, steps_count, waiting_terminates,
}

abbrev creation : Event
creation = record { event_type = create; object = Resource.namespace "shop" }

abbrev shop_worker : Worker
shop_worker = push creation 7 (new_worker "shop")

abbrev after_one : EventHandler
after_one = record {
  workers = ("shop", shop_worker) ∷ [];
  removed = [];
  wait_group = 1;
  main_cancelled = false;
  phase = watching;
}

after_one-IsReachable : IsReachable after_one
unfolding new_event_handler new_worker receive get_or_create_namespace_worker
    get_namespace_name_from_event_object namespace_name_of has get put push
after_one-IsReachable =
    let received = receive creation new_event_handler in
    let first : IsReachable received =
      steps new_event_handler received starts (receives new_event_handler creation refl) in
    steps received after_one first
      (sends received creation "shop" 7 (new_worker "shop") refl refl (omega arith))

-- The clean-up stops the worker after more than five minutes, but not before.
test_busy : clean_up 307 after_one ≡ after_one
unfolding clean_up keep_busy stop_idle push new_worker
test_busy = refl

test_idle :
    clean_up 308 after_one ≡ record after_one { workers = []; removed = cancel shop_worker ∷ [] }
unfolding clean_up keep_busy stop_idle push new_worker
test_idle = refl

-- The dispatcher returns at once if the map is empty, without waiting for a worker that the clean-up
-- removed and whose goroutine still runs.
test_returns_early :
    stop_watching (clean_up 308 after_one)
    ≡ record after_one { workers = []; removed = cancel shop_worker ∷ []; phase = returned }
unfolding clean_up keep_busy stop_idle push new_worker stop_watching
test_returns_early = refl

abbrev shutting_down : EventHandler
shutting_down = stop_watching (record after_one { main_cancelled = true })

shutting_down-IsReachable : IsReachable shutting_down
unfolding stop_watching
shutting_down-IsReachable =
    let told = record after_one { main_cancelled = true } in
    steps told shutting_down
      (steps after_one told after_one-IsReachable (cancels_main after_one refl))
      (stops told refl refl)

shop_worker-IsWorker : IsWorker after_one shop_worker
shop_worker-IsWorker = inl ("shop", inl refl)

IsReachable-IsSound_example : IsSound shop_worker
IsReachable-IsSound_example =
    IsReachable-IsSound after_one shop_worker after_one-IsReachable shop_worker-IsWorker

IsReachable-one_worker_example : shop_worker ≡ shop_worker
unfolding push new_worker
IsReachable-one_worker_example =
    IsReachable-one_worker after_one shop_worker shop_worker after_one-IsReachable
      shop_worker-IsWorker shop_worker-IsWorker refl refl refl

IsReachable-ended_example :
    (after_one.wait_group ≡ 0 → shop_worker.exited ≡ true)
    × (after_one.phase ≡ returned
        → (shop_worker.exited ≡ true)
          ⊎ (Elem shop_worker after_one.removed × (shop_worker.cancelled ≡ true)))
IsReachable-ended_example =
    IsReachable-ended after_one shop_worker after_one-IsReachable shop_worker-IsWorker

shutdown-may_block_example :
    (e : EventHandler) × IsReachable e
    × (e.phase ≡ sending creation "shop")
    × (e.main_cancelled ≡ true)
    × ((e' : EventHandler) → Steps e e' → e'.phase ≢ returned)
unfolding get_namespace_name_from_event_object namespace_name_of
shutdown-may_block_example = shutdown-may_block creation (λ e. cc e)

clean_up-may_lose_example :
    (e : EventHandler) × IsReachable e
    × (e.main_cancelled ≡ false)
    × (w : Worker) × (w.name ≡ "shop")
    × (length w.events_chan ≡ capacity)
    × ((e' : EventHandler) → Steps e e' → Elem w e'.removed × (w.exited ≡ true))
unfolding get_namespace_name_from_event_object namespace_name_of
clean_up-may_lose_example = clean_up-may_lose creation (λ e. cc e)

-- The wait of the shutdown ends after two steps.
abbrev ended_worker : Worker
ended_worker = exit (cancel shop_worker)

abbrev all_ended : EventHandler
all_ended = record shutting_down { workers = ("shop", ended_worker) ∷ []; wait_group = 0 }

one_ended : Steps shutting_down all_ended
unfolding stop_watching cancel_all put get
one_ended =
    followed shutting_down all_ended all_ended
      (moves shutting_down "shop" (cancel shop_worker) ended_worker 1 refl (
        exits (cancel shop_worker) (unfold push new_worker in refl) (unfold push new_worker in refl)
          refl))
      (nothing all_ended)

waiting_terminates_example :
    (steps_count one_ended
      ≤ rounds_in shutting_down.workers
        + (rounds_of shutting_down.removed + (shutting_down.wait_group + 1)))
    × (all_ended.phase ≡ waiting → (e : EventHandler) × Step all_ended e)
unfolding stop_watching
waiting_terminates_example =
    waiting_terminates shutting_down all_ended one_ended shutting_down-IsReachable refl
