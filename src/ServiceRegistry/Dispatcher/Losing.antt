-- ===== src/ServiceRegistry/Dispatcher/Losing.antt =====
-- Events that are lost: the clean-up stops a worker without looking at its channel.
use cnwan_operator.Common.{
  ℕ, ◌+◌, ◌-◌, String, true, false, some, List, [], ◌∷◌, ◌++◌, ◌≡◌, ◌≢◌, ◌∙◌, refl, sym, ap, arith,
  Elem, Elem-append_left, Elem-append_right, Elem-append, ◌==◌, Bool-cases, inl, inr, length,
  is_empty,
}
use cnwan_operator.GoMap.{Map, get, has}
use cnwan_operator.ServiceRegistry.Events.{Event, get_namespace_name_from_event_object}
use cnwan_operator.ServiceRegistry.Dispatcher.{
  capacity, maximum_idle_duration, is_idle, Worker, EventHandler, cancel, exit, stop_idle, clean_up,
  receive, get_or_create_namespace_worker, stop_watching, exits, Step, cancels_main, stops,
  receives, sends, ticks, waits, moves, moves_removed, IsReachable, steps, Steps, nothing, followed,
}
use cnwan_operator.ServiceRegistry.Dispatcher.Workers.{WorkerStep-runs}
use cnwan_operator.ServiceRegistry.Dispatcher.Maps.{get-All}
use cnwan_operator.ServiceRegistry.Dispatcher.Consistent.{IsPlaced}
use cnwan_operator.ServiceRegistry.Dispatcher.Invariant.{IsReachable-IsConsistent}
use cnwan_operator.ServiceRegistry.Dispatcher.Filling.{fills}

Elem-stop_idle :
    (now : ℕ) (k : String) (w : Worker) (m : Map Worker)
    → get k m ≡ some w
    → is_idle now w ≡ true
    → Elem (cancel w) (stop_idle now m)
unfolding get stop_idle
Elem-stop_idle now k w [] h idle = cc h
Elem-stop_idle now k w ((j, v) ∷ m) h idle = elim (Bool-cases (j == k)) [
  | inl same ↦
      let is : v ≡ w = ground arith in
      let idle_v : is_idle now v ≡ true = rw is idle in
      rw idle_v (inl (ap (λ x. cancel x) (sym is)))
  | inr other ↦
      let below = Elem-stop_idle now k w m (ground arith) idle in
      elim (Bool-cases (is_idle now v)) [
        | inl idle_v ↦ rw idle_v (inr below)
        | inr busy ↦ rw busy below
      ]
]

split_at :
    (w : Worker) (ws : List Worker)
    → Elem w ws
    → (before : List Worker) × (later : List Worker) × (ws ≡ before ++ w ∷ later)
split_at w [] m = absurd m
split_at w (v ∷ ws) (inl e) = ([], ws, rw e refl)
split_at w (v ∷ ws) (inr m) =
    let (before, later, is) = split_at w ws m in (v ∷ before, later, ap (λ rest. v ∷ rest) is)

pub receive-removed : (event : Event) (e : EventHandler) → (receive event e).removed ≡ e.removed
unfolding receive get_or_create_namespace_worker
receive-removed event e =
    let name = get_namespace_name_from_event_object event in
    elim (Bool-cases (name == "")) [
      | inl unnamed ↦ rw unnamed refl
      | inr named ↦ elim (Bool-cases (has name e.workers)) [
        | inl known ↦ rw (named, known) refl
        | inr new ↦ rw (named, new) refl
      ]
    ]

pub stop_watching-removed : (e : EventHandler) → (stop_watching e).removed ≡ e.removed
unfolding stop_watching
stop_watching-removed e = elim (Bool-cases (is_empty e.workers)) [
  | inl nobody ↦ rw nobody refl
  | inr somebody ↦ rw somebody refl
]

-- A worker that was removed and has ended stays as it is.
Step-keeps_ended :
    {e e' : EventHandler} (v : Worker)
    → Step e e'
    → v.exited ≡ true
    → Elem v e.removed
    → Elem v e'.removed
unfolding clean_up
Step-keeps_ended v (cancels_main e new) ended m = m
Step-keeps_ended v (stops e in_select main) ended m = rw (stop_watching-removed e) m
Step-keeps_ended v (receives e event in_select) ended m = rw (receive-removed event e) m
Step-keeps_ended v (sends e event name now w about there room) ended m = m
Step-keeps_ended v (ticks e now in_select) ended m =
    Elem-append_right v (stop_idle now e.workers) e.removed m
Step-keeps_ended v (waits e in_wait nobody) ended m = m
Step-keeps_ended v (moves e name w w' d there step) ended m = m
Step-keeps_ended v (moves_removed e before w later w' d there step) ended m =
    elim (Elem-append v before (w ∷ later) (rw (← there) m)) [
      | inl earlier ↦ Elem-append_left v before (w' ∷ later) earlier
      | inr (inl same) ↦
          let alive : v.exited ≡ false =
            ap (λ (x : Worker). x.exited) same ∙ WorkerStep-runs step in
          cc (alive, ended)
      | inr (inr more) ↦ Elem-append_right v before (w' ∷ later) (inr more)
    ]

Steps-keeps_ended :
    {e e' : EventHandler} (v : Worker)
    → Steps e e'
    → v.exited ≡ true
    → Elem v e.removed
    → Elem v e'.removed
Steps-keeps_ended v (nothing e) ended m = m
Steps-keeps_ended v (followed e e' e'' step more) ended m =
    Steps-keeps_ended v more ended (Step-keeps_ended v step ended m)

-- For every event with a namespace a state can be reached in which a worker of the namespace has ended
-- with 25 events in its channel, without the main context being cancelled: the clean-up has removed and
-- cancelled it. Whatever happens next, it never takes them.
pub clean_up-may_lose :
    (event : Event)
    → get_namespace_name_from_event_object event ≢ ""
    → (e : EventHandler) × IsReachable e
      × (e.main_cancelled ≡ false)
      × (w : Worker) × (w.name ≡ get_namespace_name_from_event_object event)
      × (length w.events_chan ≡ capacity)
      × ((e' : EventHandler) → Steps e e' → Elem w e'.removed × (w.exited ≡ true))
unfolding clean_up exit
clean_up-may_lose event named =
    let name = get_namespace_name_from_event_object event in
    let (e, f) = fills event named 24 (omega arith) in
    let w = f.worker in
    let now = w.last_event + maximum_idle_duration + 1 in
    let idle : is_idle now w ≡ true = ground arith in
    let (at, _) =
      get-All IsPlaced name w e.workers (IsReachable-IsConsistent e f.reached).placed f.there in
    let cleaned = clean_up now e in
    let reached : IsReachable cleaned = steps e cleaned f.reached (ticks e now f.in_select) in
    let (before, later, is) = split_at (cancel w) cleaned.removed (
      Elem-append_left (cancel w) (stop_idle now e.workers) e.removed
        (Elem-stop_idle now name w e.workers f.there idle)) in
    let lost = exit (cancel w) in
    let after : EventHandler = record cleaned {
      removed = before ++ lost ∷ later;
      wait_group = cleaned.wait_group - 1;
    } in
    (
      after,
      steps cleaned after reached (
          moves_removed cleaned before (cancel w) later lost 1 is
            (exits (cancel w) f.alive f.free refl)),
      f.uncancelled,
      lost,
      at,
      f.filled,
      λ e' more. (
        Steps-keeps_ended lost more refl (Elem-append_right lost before (lost ∷ later) (inl refl)),
        refl,
      ),
    )
