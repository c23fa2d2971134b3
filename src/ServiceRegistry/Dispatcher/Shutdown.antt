-- ===== src/ServiceRegistry/Dispatcher/Shutdown.antt =====
-- While the dispatcher waits for its workers, one of them can go on.
use cnwan_operator.Common.{
  Option-cases, ℕ, suc, String, Bool, true, false, some, List, [], ◌∷◌, ◌++◌, ◌≡◌, ◌≢◌, ◌∙◌, refl,
  sym, ap, arith, ◌==◌, eq_iff, eq_refl, if◌then◌else◌, Bool-cases, inl, inr, is_empty, nat_eq,
}
use cnwan_operator.GoMap.{Map, get, has, HasDistinctKeys}
use cnwan_operator.GoMap.Laws.{has-get}
use cnwan_operator.ServiceRegistry.Events.{get_namespace_name_from_event_object}
use cnwan_operator.ServiceRegistry.Dispatcher.{
  Worker, watching, waiting, EventHandler, new_event_handler, receive, clean_up, stop_watching,
  exit, finish, finishes, exits, WorkerStep, Step, cancels_main, stops, receives, sends, ticks,
  waits, moves, moves_removed, IsReachable, starts, steps,
}
use cnwan_operator.ServiceRegistry.Dispatcher.Maps.{running_of, running_in}
use cnwan_operator.ServiceRegistry.Dispatcher.Consistent.{IsConsistent}

stop_watching-main :
    (e : EventHandler) → e.main_cancelled ≡ true → (stop_watching e).main_cancelled ≡ true
unfolding stop_watching
stop_watching-main e main = elim (Bool-cases (is_empty e.workers)) [
  | inl nobody ↦ rw nobody main
  | inr somebody ↦ rw somebody main
]

receive-not_waiting :
    (event : _) (e : EventHandler) → e.phase ≡ watching → (receive event e).phase ≢ waiting
unfolding receive
receive-not_waiting event e in_select h =
    elim (Bool-cases (get_namespace_name_from_event_object event == "")) [
      | inl unnamed ↦
          let still : e.phase ≡ waiting = rw unnamed at h in
          let clash = sym in_select ∙ still in cc clash
      | inr named ↦ let about = rw named at h in cc about
    ]

Step-main_cancelled :
    {e e' : EventHandler}
    → Step e e'
    → (e.phase ≡ waiting → e.main_cancelled ≡ true)
    → e'.phase ≡ waiting
    → e'.main_cancelled ≡ true
unfolding clean_up
Step-main_cancelled (cancels_main e new) before h = refl
Step-main_cancelled (stops e in_select main) before h = stop_watching-main e main
Step-main_cancelled (receives e event in_select) before h =
    absurd (receive-not_waiting event e in_select h)
Step-main_cancelled (sends e event name now w about there room) before h = cc h
Step-main_cancelled (ticks e now in_select) before h = before h
Step-main_cancelled (waits e in_wait nobody) before h = cc h
Step-main_cancelled (moves e name w w' d there step) before h = before h
Step-main_cancelled (moves_removed e before_it w later w' d there step) before h = before h

-- The dispatcher waits for its workers only once the main context is cancelled.
pub waiting-main_cancelled :
    (e : EventHandler) → IsReachable e → e.phase ≡ waiting → e.main_cancelled ≡ true
unfolding new_event_handler
waiting-main_cancelled _ starts h = cc h
waiting-main_cancelled _ (steps e e' r step) h =
    Step-main_cancelled step (waiting-main_cancelled e r) h

found_in :
    (m : Map Worker)
    → HasDistinctKeys m
    → running_in m ≢ 0
    → (k : String) × (w : Worker) × (get k m ≡ some w) × (w.exited ≡ false)
unfolding running_in get
found_in [] d h = absurd (h refl)
found_in ((j, v) ∷ m) (fresh, d) h = elim (Bool-cases v.exited) [
  | inr alive ↦ (j, v, rw (eq_refl j) refl, alive)
  | inl ended ↦
      let (k, w, there, alive) = found_in m d (λ e. h (rw (ended, e) refl)) in
      let known : has k m ≡ true = has-get k m ∙ rw there refl in
      let other : (j == k) ≡ false = elim (Bool-cases (j == k)) [
        | inr e ↦ e
        | inl same ↦
            let key : j ≡ k = (eq_iff j k).0 same in
            let absent : has k m ≡ false = rw (← key) fresh in cc (known, absent)
      ] in
      (k, w, rw other there, alive)
]

found_of :
    (ws : List Worker)
    → running_of ws ≢ 0
    → (before : List Worker) × (w : Worker) × (later : List Worker) × (ws ≡ before ++ w ∷ later)
      × (w.exited ≡ false)
unfolding running_of
found_of [] h = absurd (h refl)
found_of (v ∷ ws) h = elim (Bool-cases v.exited) [
  | inr alive ↦ ([], v, ws, refl, alive)
  | inl ended ↦
      let (before, w, later, is, alive) = found_of ws (λ e. h (rw (ended, e) refl)) in
      (v ∷ before, w, later, ap (λ rest. v ∷ rest) is, alive)
]

told_by_main : (cancelled main : Bool) → main ≡ true → (if cancelled then true else main) ≡ true
told_by_main true main h = refl
told_by_main false main h = h

-- A goroutine that runs, with the main context cancelled, comes to the end of its event or ends.
can_move :
    (main : Bool) (w : Worker)
    → main ≡ true
    → w.exited ≡ false
    → (w' : Worker) × (d : ℕ) × WorkerStep main w w' d
can_move main w told alive = elim (Option-cases w.in_hand) [
  | inl free ↦ (exit w, 1, exits w alive free (told_by_main w.cancelled main told))
  | inr (event, hand) ↦ (finish event w, 0, finishes w event alive hand)
]

-- As long as a goroutine runs, one of them can go on.
pub one_moves :
    (e : EventHandler) (n : ℕ)
    → IsConsistent e
    → e.main_cancelled ≡ true
    → e.wait_group ≡ suc n
    → (e' : EventHandler) × Step e e'
one_moves e n c main group = elim (Bool-cases (nat_eq (running_in e.workers) 0)) [
  | inr some_run ↦
      let (k, w, there, alive) = found_in e.workers c.distinct (λ z. ground arith) in
      let (w', d, step) = can_move e.main_cancelled w main alive in (_, moves e k w w' d there step)
  | inl none_runs ↦
      let (before, w, later, there, alive) = found_of e.removed (λ z. ground arith) in
      let (w', d, step) = can_move e.main_cancelled w main alive in
      (_, moves_removed e before w later w' d there step)
]
