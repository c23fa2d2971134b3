-- ===== src/ServiceRegistry/System/Logged.antt =====
-- What the worker of a namespace has handled is what the log has of the namespace, as long as no other
-- worker of it was removed from the map.
use cnwan_operator.Common.{
  ℕ, ◌-◌, String, Bool, Option, none, some, List, [], ◌∷◌, ◌++◌, ◌≡◌, ◌≢◌, refl, sym, ap, ◌∙◌, inl,
  inr, Elem-append_left, Elem-append_right, Bool-cases, ◌==◌, eq_iff,
}
use mathlib.Core.Path.{subst}
use cnwan_operator.GoMap.{Map, get, put}
use cnwan_operator.GoMap.Laws.{get-put}
use cnwan_operator.ServiceRegistry.Events.{Event}
use cnwan_operator.ServiceRegistry.Dispatcher.{
  Worker, EventHandler, new_worker, push, stop_idle, clean_up, take, finish, exit, WorkerStep,
  takes, finishes, exits, Step, cancels_main, stops, receives, sends, ticks, waits, moves,
  moves_removed,
}
use cnwan_operator.ServiceRegistry.Dispatcher.Maps.{get-All}
use cnwan_operator.ServiceRegistry.Dispatcher.Consistent.{IsPlaced, IsConsistent}
use cnwan_operator.ServiceRegistry.Dispatcher.Losing.{receive-removed, stop_watching-removed}
use cnwan_operator.ServiceRegistry.System.{Log, finished_by, tagged, finished}
use cnwan_operator.ServiceRegistry.System.Apart.{
  events_of, events_of-append_same, events_of-append_other,
}
use cnwan_operator.ServiceRegistry.System.Histories.{
  NoneNamed-replaced, history_by, history_of, NoneNamed, history_by-put, history_by-keep_busy,
  history_by-receive, history_by-stop_watching,
}

abbrev pub handled_events : Worker → List Event
handled_events w = w.handled

new_worker-handled : (name : String) → handled_events (new_worker name) ≡ []
unfolding new_worker
new_worker-handled name = refl

abbrev pub handled_by : String → Map Worker → List Event
handled_by ns m = history_by handled_events ns m

abbrev pub log_after : Option (String × Event) → Log → Log
log_after none log = log
log_after (some x) log = log ++ x ∷ []

pub record IsLogged (e : EventHandler) (log : Log) : Type 0 where
  pub logged : (ns : String) → NoneNamed ns e.removed → events_of ns log ≡ handled_by ns e.workers

module _ (e : EventHandler) (log : Log) (h : IsLogged e log) where
  -- A step in which no worker of the map takes an event.
  quiet :
      (e' : EventHandler)
      → ((ns : String)
          → NoneNamed ns e'.removed
          → NoneNamed ns e.removed × (handled_by ns e'.workers ≡ handled_by ns e.workers))
      → IsLogged e' log
  quiet e' same = record {
    logged =
        λ ns alone. let (alone_before, is) = same ns alone in h.logged ns alone_before ∙ sym is;
  }

  finishes-IsLogged :
      (name : String) (w w' : Worker) (event : Event) (e' : EventHandler)
      → get name e.workers ≡ some w
      → w.name ≡ name
      → w'.handled ≡ w.handled ++ event ∷ []
      → e'.removed ≡ e.removed
      → e'.workers ≡ put name w' e.workers
      → IsLogged e' (log ++ (w.name, event) ∷ [])
  finishes-IsLogged name w w' event e' there named handles removed workers = record {
    logged = λ ns alone.
        let alone_before : NoneNamed ns e.removed = subst (λ ws. NoneNamed ns ws) removed alone in
        let before = h.logged ns alone_before in
        elim (Bool-cases (name == ns)) [
          | inl same ↦
              let is : name ≡ ns = (eq_iff name ns).0 same in
              let was : handled_by ns e.workers ≡ w.handled =
                rw (← is) (ap (history_of handled_events) there) in
              let now : handled_by ns (put name w' e.workers) ≡ w'.handled =
                rw (get-put name ns w' e.workers, same) refl in
              events_of-append_same ns log w.name event (named ∙ is)
              ∙ ap (λ es. es ++ event ∷ []) (before ∙ was)
              ∙ sym handles
              ∙ sym now
              ∙ ap (λ m. handled_by ns m) (sym workers)
          | inr elsewhere ↦
              let other : w.name ≢ ns = λ is. cc ((eq_iff name ns).1 (sym named ∙ is), elsewhere) in
              let now : handled_by ns (put name w' e.workers) ≡ handled_by ns e.workers =
                rw (get-put name ns w' e.workers, elsewhere) refl in
              events_of-append_other ns log w.name event other
              ∙ before
              ∙ sym now
              ∙ ap (λ m. handled_by ns m) (sym workers)
        ];
  }

moves-IsLogged :
    (e : EventHandler) (log : Log) (name : String) {main_cancelled : Bool} {w w' : Worker} {d : ℕ}
    (step : WorkerStep main_cancelled w w' d) (group : ℕ)
    → get name e.workers ≡ some w
    → w.name ≡ name
    → IsLogged e log
    → IsLogged
        (record e { workers = put name w' e.workers; wait_group = group })
        (log_after (tagged w.name (finished_by step)) log)
unfolding finished_by take finish exit
moves-IsLogged e log name (takes w event rest alive free queue) group there named h =
    quiet e log h _ λ ns alone. (
      alone,
      history_by-put handled_events ns name (take event rest w) e.workers
          (sym (ap (history_of handled_events) there)),
    )
moves-IsLogged e log name (finishes w event alive hand) group there named h =
    finishes-IsLogged e log h name w (finish event w) event _ there named refl refl refl
moves-IsLogged e log name (exits w alive free told) group there named h =
    quiet e log h _ λ ns alone. (
      alone,
      history_by-put handled_events ns name (exit w) e.workers
          (sym (ap (history_of handled_events) there)),
    )

moves_removed-IsLogged :
    (e : EventHandler) (log : Log) (before later : List Worker) {main_cancelled : Bool}
    {w w' : Worker} {d : ℕ} (step : WorkerStep main_cancelled w w' d) (group : ℕ)
    → e.removed ≡ before ++ w ∷ later
    → IsLogged e log
    → IsLogged
        (record e { removed = before ++ w' ∷ later; wait_group = group })
        (log_after (tagged w.name (finished_by step)) log)
unfolding finished_by take finish exit
moves_removed-IsLogged e log before later (takes w event rest alive free queue) group there h =
    quiet e log h _ λ ns alone. (
      subst (λ ws. NoneNamed ns ws) (sym there)
          (NoneNamed-replaced ns before w (take event rest w) later refl alone),
      refl,
    )
moves_removed-IsLogged e log before later (finishes w event alive hand) group there h = record {
  logged = λ ns alone.
      let alone' = NoneNamed-replaced ns before w (finish event w) later refl alone in
      let other : w.name ≢ ns = alone' w (Elem-append_right w before (w ∷ later) (inl refl)) in
      events_of-append_other ns log w.name event other
      ∙ h.logged ns (subst (λ ws. NoneNamed ns ws) (sym there) alone');
}
moves_removed-IsLogged e log before later (exits w alive free told) group there h =
    quiet e log h _ λ ns alone. (
      subst (λ ws. NoneNamed ns ws) (sym there)
          (NoneNamed-replaced ns before w (exit w) later refl alone),
      refl,
    )

pub Step-IsLogged :
    {e e' : EventHandler} (log : Log) (step : Step e e')
    → IsConsistent e
    → IsLogged e log
    → IsLogged e' (log_after (finished step) log)
unfolding finished clean_up push
Step-IsLogged log (cancels_main e new) c h = quiet e log h _ λ ns alone. (alone, refl)
Step-IsLogged log (stops e in_select main) c h = quiet e log h _ λ ns alone. (
  subst (λ ws. NoneNamed ns ws) (stop_watching-removed e) alone,
  history_by-stop_watching handled_events (λ w. refl) ns e,
)
Step-IsLogged log (receives e event in_select) c h = quiet e log h _ λ ns alone. (
  subst (λ ws. NoneNamed ns ws) (receive-removed event e) alone,
  history_by-receive handled_events (new_worker-handled) ns event e,
)
Step-IsLogged log (sends e event name now w about there room) c h = quiet e log h _ λ ns alone. (
  alone,
  history_by-put handled_events ns name (push event now w) e.workers
      (sym (ap (history_of handled_events) there)),
)
Step-IsLogged log (ticks e now in_select) c h = quiet e log h _ λ ns alone. (
  λ v m. alone v (Elem-append_right v (stop_idle now e.workers) e.removed m),
  history_by-keep_busy handled_events ns now e.workers c.placed
      (λ v m. alone v (Elem-append_left v (stop_idle now e.workers) e.removed m)),
)
Step-IsLogged log (waits e in_wait nobody) c h = quiet e log h _ λ ns alone. (alone, refl)
Step-IsLogged log (moves e name w w' d there step) c h =
    let (named, _) = get-All IsPlaced name w e.workers c.placed there in
    moves-IsLogged e log name step (e.wait_group - d) there named h
Step-IsLogged log (moves_removed e before w later w' d there step) c h =
    moves_removed-IsLogged e log before later step (e.wait_group - d) there h
