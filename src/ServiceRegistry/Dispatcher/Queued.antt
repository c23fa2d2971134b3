-- ===== src/ServiceRegistry/Dispatcher/Queued.antt =====
-- What the events of the workers in the map still make, and a worker that has one.
use cnwan_operator.Common.{
  none, Option-cases, ◌+◌, String, true, false, some, List, [], ◌∷◌, ◌≡◌, ◌⊎◌, refl, ◌∙◌, arith,
  inl, inr, ◌==◌, eq_iff, eq_refl, Bool-cases, All,
}
use cnwan_operator.GoMap.{Map, get, has, put, HasDistinctKeys}
use cnwan_operator.GoMap.Laws.{has-get}
use cnwan_operator.ServiceRegistry.Events.{Event, get_namespace_name_from_event_object}
use cnwan_operator.ServiceRegistry.Dispatcher.{
  Worker, EventHandler, new_worker, get_or_create_namespace_worker, receive,
}
use cnwan_operator.ServiceRegistry.Dispatcher.Maps.{running_in-put}
use cnwan_operator.ServiceRegistry.Dispatcher.Terminates.{
  rounds, rounds_in, chores_in-put, chores_in-rounds,
}

pub rounds_in-put :
    (k : String) (w w' : Worker) (m : Map Worker)
    → get k m ≡ some w
    → rounds_in (put k w' m) + rounds w ≡ rounds_in m + rounds w'
rounds_in-put k w w' m there = omega (
  arith,
  chores_in-put k w w' m there,
  running_in-put k w w' m there,
  chores_in-rounds m,
  chores_in-rounds (put k w' m),
)

rounds_in-put_new :
    (k : String) (w : Worker) (m : Map Worker)
    → has k m ≡ false
    → rounds_in (put k w m) ≡ rounds_in m + rounds w
unfolding has put rounds_in
rounds_in-put_new k w [] h = omega arith
rounds_in-put_new k w ((j, v) ∷ m) h = elim (Bool-cases (j == k)) [
  | inl same ↦ absurd (ground arith)
  | inr other ↦ let below = rounds_in-put_new k w m (ground arith) in rw other (omega arith)
]

pub rounds_in-receive :
    (event : Event) (e : EventHandler) → rounds_in (receive event e).workers ≡ rounds_in e.workers
unfolding receive get_or_create_namespace_worker new_worker
rounds_in-receive event e =
    let name = get_namespace_name_from_event_object event in
    elim (Bool-cases (name == "")) [
      | inl unnamed ↦ rw unnamed refl
      | inr named ↦ elim (Bool-cases (has name e.workers)) [
        | inl known ↦ rw (named, known) refl
        | inr new ↦
            rw (named, new) (omega (arith, rounds_in-put_new name (new_worker name) e.workers new))
      ]
    ]

List-cases :
    (events : List Event)
    → (events ≡ []) ⊎ ((event : Event) × (rest : List Event) × (events ≡ event ∷ rest))
List-cases [] = inl refl
List-cases (event ∷ rest) = inr (event, rest, refl)

-- The goroutine has an event in hand, or could take one.
abbrev pub HasWork : Worker → Type 0
HasWork w =
    ((event : Event) × (w.in_hand ≡ some event))
    ⊎ ((w.in_hand ≡ none) × (event : Event) × (rest : List Event) × (w.events_chan ≡ event ∷ rest))

-- It has neither.
abbrev pub IsIdle : Worker → Type 0
IsIdle w = (w.events_chan ≡ []) × (w.in_hand ≡ none)

HasWork-or_IsIdle : (w : Worker) → HasWork w ⊎ IsIdle w
HasWork-or_IsIdle w = elim (Option-cases w.in_hand) [
  | inr held_one ↦ inl (inl held_one)
  | inl free ↦ elim (List-cases w.events_chan) [
    | inr (event, rest, queue) ↦ inl (inr (free, event, rest, queue))
    | inl empty ↦ inr (empty, free)
  ]
]

abbrev pub IsBusy : Map Worker → Type 0
IsBusy m = (name : String) × (w : Worker) × (get name m ≡ some w) × HasWork w

abbrev pub AllIdle : Map Worker → Type 0
AllIdle m = All (λ (x : String × Worker). IsIdle x.1) m

get_later :
    (k name : String) (v w : Worker) (m : Map Worker)
    → has k m ≡ false
    → get name m ≡ some w
    → get name ((k, v) ∷ m) ≡ some w
unfolding get
get_later k name v w m fresh there = elim (Bool-cases (k == name)) [
  | inl same ↦
      let known : has name m ≡ true = has-get name m ∙ rw there refl in
      let is : k ≡ name = (eq_iff k name).0 same in absurd (cc (is, known, fresh))
  | inr other ↦ rw other there
]

pub IsBusy-or_AllIdle : (m : Map Worker) → HasDistinctKeys m → IsBusy m ⊎ AllIdle m
unfolding get
IsBusy-or_AllIdle [] d = inr tt
IsBusy-or_AllIdle ((k, w) ∷ m) (fresh, d) = elim (HasWork-or_IsIdle w) [
  | inl work ↦ inl (k, w, rw (eq_refl k) refl, work)
  | inr idle ↦ elim (IsBusy-or_AllIdle m d) [
    | inl (name, v, there, work) ↦ inl (name, v, get_later k name w v m fresh there, work)
    | inr all_idle ↦ inr (idle, all_idle)
  ]
]
