-- ===== src/ServiceRegistry/Dispatcher/Workers.antt =====
-- What holds of one worker, whichever way it came about: it gets the events of its own namespace
-- only, takes them in the order in which they were sent, and its channel holds no more than fit.
use cnwan_operator.Common.{
  ℕ, suc, ◌+◌, ◌<◌, ◌≤◌, String, Bool, false, [], ◌∷◌, ◌++◌, ◌≡◌, refl, sym, ap, ◌∙◌, arith,
  if◌then◌else◌, length, length-append, All, All-append,
}
use mathlib.Core.List.{append_assoc}
use cnwan_operator.ServiceRegistry.Events.{Event, get_namespace_name_from_event_object}
use cnwan_operator.ServiceRegistry.Dispatcher.{
  Worker, new_worker, push, cancel, take, finish, exit, held, WorkerStep, takes, finishes, exits,
  capacity,
}

pub record IsSound (w : Worker) : Type 0 where
  pub routed : All (λ event. get_namespace_name_from_event_object event ≡ w.name) w.received
  pub in_order : w.handled ++ (held w.in_hand ++ w.events_chan) ≡ w.received
  pub within : length w.events_chan ≤ capacity

-- How many goroutines a worker keeps the wait group waiting for.
abbrev pub running : Worker → ℕ
running w = if w.exited then 0 else 1

pub new_worker-IsSound : (name : String) → IsSound (new_worker name)
unfolding new_worker
new_worker-IsSound name = record { routed = tt; in_order = refl; within = omega arith }

pub push-IsSound :
    (event : Event) (now : ℕ) (w : Worker)
    → IsSound w
    → get_namespace_name_from_event_object event ≡ w.name
    → length w.events_chan < capacity
    → IsSound (push event now w)
unfolding push
push-IsSound event now w h here room = record {
  routed = All-append _ w.received (event ∷ []) h.routed (here, tt);
  in_order =
      ap (λ events. w.handled ++ events)
        (sym (append_assoc (held w.in_hand) w.events_chan (event ∷ [])))
      ∙ sym (append_assoc w.handled (held w.in_hand ++ w.events_chan) (event ∷ []))
      ∙ ap (λ events. events ++ event ∷ []) h.in_order;
  within = omega (arith, length-append w.events_chan (event ∷ []));
}

pub cancel-IsSound : (w : Worker) → IsSound w → IsSound (cancel w)
cancel-IsSound w h = record { routed = h.routed; in_order = h.in_order; within = h.within }

pub WorkerStep-IsSound :
    {main_cancelled : Bool} {w w' : Worker} {d : ℕ}
    → WorkerStep main_cancelled w w' d
    → IsSound w
    → IsSound w'
unfolding take finish exit
WorkerStep-IsSound (takes w event rest alive free queue) h = record {
  routed = h.routed;
  in_order =
      ap (λ events. w.handled ++ events) (sym (ap (λ o. held o ++ w.events_chan) free ∙ queue))
      ∙ h.in_order;
  within = let one_less : length w.events_chan ≡ suc (length rest) = ap length queue in omega arith;
}
WorkerStep-IsSound (finishes w event alive hand) h = record {
  routed = h.routed;
  in_order =
      append_assoc w.handled (event ∷ []) w.events_chan
      ∙ ap (λ o. w.handled ++ (held o ++ w.events_chan)) (sym hand)
      ∙ h.in_order;
  within = h.within;
}
WorkerStep-IsSound (exits w alive free told) h = record {
  routed = h.routed;
  in_order = h.in_order;
  within = h.within;
}

pub WorkerStep-name :
    {main_cancelled : Bool} {w w' : Worker} {d : ℕ}
    → WorkerStep main_cancelled w w' d
    → w'.name ≡ w.name
unfolding take finish exit
WorkerStep-name (takes w event rest alive free queue) = refl
WorkerStep-name (finishes w event alive hand) = refl
WorkerStep-name (exits w alive free told) = refl

pub WorkerStep-cancelled :
    {main_cancelled : Bool} {w w' : Worker} {d : ℕ}
    → WorkerStep main_cancelled w w' d
    → w'.cancelled ≡ w.cancelled
unfolding take finish exit
WorkerStep-cancelled (takes w event rest alive free queue) = refl
WorkerStep-cancelled (finishes w event alive hand) = refl
WorkerStep-cancelled (exits w alive free told) = refl

pub WorkerStep-running :
    {main_cancelled : Bool} {w w' : Worker} {d : ℕ}
    → WorkerStep main_cancelled w w' d
    → running w ≡ running w' + d
unfolding take finish exit
WorkerStep-running (takes w event rest alive free queue) = omega arith
WorkerStep-running (finishes w event alive hand) = omega arith
WorkerStep-running (exits w alive free told) = simp alive refl

pub WorkerStep-runs :
    {main_cancelled : Bool} {w w' : Worker} {d : ℕ}
    → WorkerStep main_cancelled w w' d
    → w.exited ≡ false
WorkerStep-runs (takes w event rest alive free queue) = alive
WorkerStep-runs (finishes w event alive hand) = alive
WorkerStep-runs (exits w alive free told) = alive
