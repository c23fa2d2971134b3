-- ===== src/ServiceRegistry/Dispatcher/Consistent.antt =====
-- What holds of every state of an event handler, and that the dispatcher's own moves keep it.
use cnwan_operator.Common.{
  ℕ, ◌+◌, String, Bool, true, [], ◌∷◌, ◌≡◌, ◌∙◌, refl, arith, ◌==◌, Bool-cases, inl, inr, All,
  All-append, is_empty,
}
use cnwan_operator.GoMap.{Map, has, HasDistinctKeys}
use cnwan_operator.GoMap.Laws.{put-HasDistinctKeys}
use cnwan_operator.ServiceRegistry.Events.{Event, get_namespace_name_from_event_object}
use cnwan_operator.ServiceRegistry.Dispatcher.{
  Worker, Phase, watching, sending, waiting, returned, EventHandler, new_event_handler, new_worker,
  get_or_create_namespace_worker, receive, clean_up, stop_idle, stop_watching, WorkerStep,
}
use cnwan_operator.ServiceRegistry.Dispatcher.Workers.{
  IsSound, running, new_worker-IsSound, cancel-IsSound, WorkerStep-IsSound, WorkerStep-name,
}
use cnwan_operator.ServiceRegistry.Dispatcher.Maps.{
  put-All, keep_busy-All, cancel_all-All, stop_idle-All, keep_busy-HasDistinctKeys,
  cancel_all-HasDistinctKeys, running_of, running_in, running_of-append, running_in-put_new,
  running_in-keep_busy, running_in-cancel_all,
}

-- A worker stands in the map under the name of its namespace.
abbrev pub IsPlaced : String × Worker → Type 0
IsPlaced e = (e.1.name ≡ e.0) × IsSound e.1

-- A worker that is no longer in the map was told to stop.
abbrev pub IsToldToStop : Worker → Type 0
IsToldToStop w = (w.cancelled ≡ true) × IsSound w

-- An event that is about to be sent goes to the worker of its own namespace; once the dispatcher is
-- back, no worker in the map runs.
abbrev pub Agrees : Phase → Map Worker → Type 0
Agrees watching m = Unit
Agrees (sending event name) m = get_namespace_name_from_event_object event ≡ name
Agrees waiting m = Unit
Agrees returned m = running_in m ≡ 0

pub record IsConsistent (e : EventHandler) : Type 0 where
  pub placed : All IsPlaced e.workers
  pub told : All IsToldToStop e.removed
  pub distinct : HasDistinctKeys e.workers
  pub counted : e.wait_group ≡ running_in e.workers + running_of e.removed
  pub agrees : Agrees e.phase e.workers

pub new_event_handler-IsConsistent : IsConsistent new_event_handler
unfolding new_event_handler running_in running_of
new_event_handler-IsConsistent = record {
  placed = tt;
  told = tt;
  distinct = tt;
  counted = refl;
  agrees = tt;
}

-- No goroutine comes to life when a worker in the map moves.
pub Agrees-fewer :
    (p : Phase) (m m' : Map Worker) (d : ℕ)
    → running_in m' + d ≡ running_in m
    → Agrees p m
    → Agrees p m'
Agrees-fewer watching m m' d fewer h = tt
Agrees-fewer (sending event name) m m' d fewer h = h
Agrees-fewer waiting m m' d fewer h = tt
Agrees-fewer returned m m' d fewer h = omega arith

pub WorkerStep-IsPlaced :
    {main_cancelled : Bool} {w w' : Worker} {d : ℕ} (k : String)
    → WorkerStep main_cancelled w w' d
    → IsPlaced (k, w)
    → IsPlaced (k, w')
WorkerStep-IsPlaced k step (name, sound) =
    (WorkerStep-name step ∙ name, WorkerStep-IsSound step sound)

get_or_create-IsConsistent :
    (name : String) (event : Event) (e : EventHandler)
    → get_namespace_name_from_event_object event ≡ name
    → IsConsistent e
    → IsConsistent (record (get_or_create_namespace_worker name e) { phase = sending event name })
unfolding get_or_create_namespace_worker
get_or_create-IsConsistent name event e here h = elim (Bool-cases (has name e.workers)) [
  | inl there ↦ rw there (record {
    placed = h.placed;
    told = h.told;
    distinct = h.distinct;
    counted = h.counted;
    agrees = here;
  })
  | inr fresh ↦ rw fresh (record {
    placed =
        put-All IsPlaced name (new_worker name) e.workers (refl, new_worker-IsSound name) h.placed;
    told = h.told;
    distinct = put-HasDistinctKeys name (new_worker name) e.workers h.distinct;
    counted =
        let more = running_in-put_new name (new_worker name) e.workers fresh in
        let one : running (new_worker name) ≡ 1 = unfold new_worker in refl in
        omega (arith, h.counted);
    agrees = here;
  })
]

pub receive-IsConsistent :
    (event : Event) (e : EventHandler) → IsConsistent e → IsConsistent (receive event e)
unfolding receive
receive-IsConsistent event e h =
    elim (Bool-cases (get_namespace_name_from_event_object event == "")) [
      | inl unnamed ↦ rw unnamed h
      | inr named ↦
          rw named
            (get_or_create-IsConsistent (get_namespace_name_from_event_object event) event e refl h)
    ]

pub clean_up-IsConsistent :
    (now : ℕ) (e : EventHandler)
    → e.phase ≡ watching
    → IsConsistent e
    → IsConsistent (clean_up now e)
unfolding clean_up
clean_up-IsConsistent now e in_select h = record {
  placed = keep_busy-All IsPlaced now e.workers h.placed;
  told =
      All-append IsToldToStop (stop_idle now e.workers) e.removed
        (stop_idle-All IsPlaced IsToldToStop (λ k w p. (refl, cancel-IsSound w p.1)) now e.workers
          h.placed)
        h.told;
  distinct = keep_busy-HasDistinctKeys now e.workers h.distinct;
  counted = omega (
    arith,
    h.counted,
    running_in-keep_busy now e.workers,
    running_of-append (stop_idle now e.workers) e.removed,
  );
  agrees = rw in_select tt;
}

is_empty-running_in : (m : Map Worker) → is_empty m ≡ true → running_in m ≡ 0
unfolding running_in
is_empty-running_in [] h = refl
is_empty-running_in (x ∷ m) h = cc

pub stop_watching-IsConsistent :
    (e : EventHandler) → IsConsistent e → IsConsistent (stop_watching e)
unfolding stop_watching
stop_watching-IsConsistent e h = elim (Bool-cases (is_empty e.workers)) [
  | inl nobody ↦ rw nobody (record {
    placed = h.placed;
    told = h.told;
    distinct = h.distinct;
    counted = h.counted;
    agrees = is_empty-running_in e.workers nobody;
  })
  | inr somebody ↦ rw somebody (record {
    placed = cancel_all-All IsPlaced (λ k w p. (p.0, cancel-IsSound w p.1)) e.workers h.placed;
    told = h.told;
    distinct = cancel_all-HasDistinctKeys e.workers h.distinct;
    counted = h.counted ∙ rw (running_in-cancel_all e.workers) refl;
    agrees = tt;
  })
]
