-- ===== src/ServiceRegistry/Dispatcher/Working.antt =====
-- The dispatcher and its workers as long as the main context is not cancelled.
use cnwan_operator.Common.{
  is_empty, ℕ, String, Bool, true, false, ◌≡◌, ◌∙◌, refl, sym, inl, inr, All, Bool-cases, eq_refl,
  ◌==◌, if◌then◌else◌,
}
use cnwan_operator.GoMap.{Map, has, put}
use cnwan_operator.GoMap.Laws.{has-put}
use cnwan_operator.ServiceRegistry.Events.{Event, get_namespace_name_from_event_object}
use cnwan_operator.ServiceRegistry.Dispatcher.{
  Worker, Phase, watching, sending, waiting, returned, EventHandler, new_event_handler, new_worker,
  get_or_create_namespace_worker, receive, push, clean_up, stop_watching, WorkerStep, take, finish,
  exit, takes, finishes, exits, Step, cancels_main, stops, receives, sends, ticks, waits, moves,
  moves_removed, IsReachable, starts, steps,
}
use cnwan_operator.ServiceRegistry.Dispatcher.Maps.{put-All, get-All, keep_busy-All}

-- The worker was not told to stop and has not ended.
abbrev pub IsAlive : String × Worker → Type 0
IsAlive e = (e.1.cancelled ≡ false) × (e.1.exited ≡ false)

abbrev pub IsReady : Phase → Map Worker → Type 0
IsReady watching m = Unit
IsReady (sending event name) m = has name m ≡ true
IsReady waiting m = ⊥
IsReady returned m = ⊥

pub record IsWorking (e : EventHandler) : Type 0 where
  pub alive : All IsAlive e.workers
  pub ready : IsReady e.phase e.workers

IsReady-put :
    (p : Phase) (k : String) (w : Worker) (m : Map Worker) → IsReady p m → IsReady p (put k w m)
IsReady-put watching k w m h = tt
IsReady-put (sending event name) k w m h = elim (Bool-cases (k == name)) [
  | inl same ↦ rw (has-put k name w m, same) refl
  | inr other ↦ rw (has-put k name w m, other) h
]
IsReady-put waiting k w m h = absurd h
IsReady-put returned k w m h = absurd h

receive-IsWorking : (event : Event) (e : EventHandler) → IsWorking e → IsWorking (receive event e)
unfolding receive get_or_create_namespace_worker new_worker
receive-IsWorking event e h =
    let name = get_namespace_name_from_event_object event in
    elim (Bool-cases (name == "")) [
      | inl unnamed ↦ rw unnamed h
      | inr named ↦ elim (Bool-cases (has name e.workers)) [
        | inl known ↦ rw (named, known) (record { alive = h.alive; ready = known })
        | inr new ↦
            rw (named, new)
              (record {
                alive = put-All IsAlive name (new_worker name) e.workers (refl, refl) h.alive;
                ready = rw (has-put name name (new_worker name) e.workers, eq_refl name) refl;
              })
      ]
    ]

WorkerStep-IsAlive :
    (name : String) {main_cancelled : Bool} {w w' : Worker} {d : ℕ}
    → WorkerStep main_cancelled w w' d
    → main_cancelled ≡ false
    → IsAlive (name, w)
    → IsAlive (name, w')
unfolding take finish exit
WorkerStep-IsAlive name (takes w event rest alive free queue) main h = h
WorkerStep-IsAlive name (finishes w event alive hand) main h = h
WorkerStep-IsAlive name (exits w alive idle told) main (free, h) =
    let never : (if w.cancelled then true else false) ≡ true = rw main at told in
    let not_told : (if w.cancelled then true else false) ≡ false = rw free refl in
    absurd (cc (never, not_told))

pub receive-main_cancelled :
    (event : Event) (e : EventHandler) → (receive event e).main_cancelled ≡ e.main_cancelled
unfolding receive get_or_create_namespace_worker
receive-main_cancelled event e =
    let name = get_namespace_name_from_event_object event in
    elim (Bool-cases (name == "")) [
      | inl unnamed ↦ rw unnamed refl
      | inr named ↦ elim (Bool-cases (has name e.workers)) [
        | inl known ↦ rw (named, known) refl
        | inr new ↦ rw (named, new) refl
      ]
    ]

stop_watching-main_cancelled :
    (e : EventHandler) → (stop_watching e).main_cancelled ≡ e.main_cancelled
unfolding stop_watching
stop_watching-main_cancelled e = elim (Bool-cases (is_empty e.workers)) [
  | inl nobody ↦ rw nobody refl
  | inr somebody ↦ rw somebody refl
]

not_cancelled_before :
    {e e' : EventHandler} → Step e e' → e'.main_cancelled ≡ false → e.main_cancelled ≡ false
unfolding clean_up
not_cancelled_before (cancels_main e new) now = new
not_cancelled_before (stops e in_select main) now = sym (stop_watching-main_cancelled e) ∙ now
not_cancelled_before (receives e event in_select) now = sym (receive-main_cancelled event e) ∙ now
not_cancelled_before (sends e event name time w about there room) now = now
not_cancelled_before (ticks e time in_select) now = now
not_cancelled_before (waits e in_wait nobody) now = now
not_cancelled_before (moves e name w w' d there step) now = now
not_cancelled_before (moves_removed e before w later w' d there step) now = now

Step-IsWorking :
    {e e' : EventHandler}
    → Step e e'
    → e'.main_cancelled ≡ false
    → e.main_cancelled ≡ false
    → IsWorking e
    → IsWorking e'
unfolding push clean_up
Step-IsWorking (cancels_main e new) now main h = cc
Step-IsWorking (stops e in_select told) now main h = cc (told, main)
Step-IsWorking (receives e event in_select) now main h = receive-IsWorking event e h
Step-IsWorking (sends e event name time w about there room) now main h = record {
  alive =
      put-All IsAlive name (push event time w) e.workers
        (get-All IsAlive name w e.workers h.alive there) h.alive;
  ready = tt;
}
Step-IsWorking (ticks e time in_select) now main h = record {
  alive = keep_busy-All IsAlive time e.workers h.alive;
  ready = rw in_select tt;
}
Step-IsWorking (waits e in_wait nobody) now main h = absurd (rw in_wait at h.ready)
Step-IsWorking (moves e name w w' d there step) now main h = record {
  alive =
      put-All IsAlive name w' e.workers
        (WorkerStep-IsAlive name step main (get-All IsAlive name w e.workers h.alive there))
        h.alive;
  ready = IsReady-put e.phase name w' e.workers h.ready;
}
Step-IsWorking (moves_removed e before w later w' d there step) now main h = record {
  alive = h.alive;
  ready = h.ready;
}

-- Until the main context is cancelled no worker in the map was told to stop or has ended, and the
-- dispatcher only ever sends to a worker in the map.
pub IsReachable-IsWorking :
    (e : EventHandler) → IsReachable e → e.main_cancelled ≡ false → IsWorking e
unfolding new_event_handler
IsReachable-IsWorking e starts main = record { alive = tt; ready = tt }
IsReachable-IsWorking e' (steps e e1 before step) main =
    let was = not_cancelled_before step main in
    Step-IsWorking step main was (IsReachable-IsWorking e before was)
