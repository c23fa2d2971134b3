-- ===== src/ServiceRegistry/Dispatcher/Terminates.antt =====
-- How long the dispatcher waits for its workers.
use cnwan_operator.Common.{
  ℕ, zero, suc, ◌+◌, ◌*◌, ◌≤◌, String, true, some, List, [], ◌∷◌, ◌++◌, ◌≡◌, ◌⊎◌, refl, ap, arith,
  ◌==◌, Bool-cases, inl, inr, length,
}
use cnwan_operator.GoMap.{Map, get, put}
use cnwan_operator.ServiceRegistry.Dispatcher.{
  Worker, Phase, watching, waiting, returned, EventHandler, WorkerStep, takes, finishes, exits,
  take, finish, exit, held, Step, cancels_main, stops, receives, sends, ticks, waits, moves,
  moves_removed, IsReachable, steps, Steps, nothing, followed,
}
use cnwan_operator.ServiceRegistry.Dispatcher.Workers.{running}
use cnwan_operator.ServiceRegistry.Dispatcher.Maps.{running_of, running_in}
use cnwan_operator.ServiceRegistry.Dispatcher.Invariant.{IsReachable-IsConsistent}
use cnwan_operator.ServiceRegistry.Dispatcher.Shutdown.{waiting-main_cancelled, one_moves}

-- What a worker can still do about events: take each of its channel and handle it to the end, and come
-- to the end of the one that it has in hand.
abbrev pub rounds : Worker → ℕ
rounds w = 2 * length w.events_chan + length (held w.in_hand)

-- It can also end.
abbrev pub chores : Worker → ℕ
chores w = rounds w + running w

unfoldable pub chores_of : List Worker → ℕ
chores_of [] = 0
chores_of (w ∷ ws) = chores w + chores_of ws

unfoldable pub chores_in : Map Worker → ℕ
chores_in [] = 0
chores_in ((k, w) ∷ m) = chores w + chores_in m

chores_of-append :
    (before later : List Worker) → chores_of (before ++ later) ≡ chores_of before + chores_of later
unfolding chores_of
chores_of-append [] later = omega arith
chores_of-append (w ∷ before) later = omega (arith, chores_of-append before later)

chores_of-replaced :
    (before : List Worker) (w w' : Worker) (later : List Worker)
    → chores_of (before ++ w' ∷ later) + chores w ≡ chores_of (before ++ w ∷ later) + chores w'
unfolding chores_of
chores_of-replaced before w w' later =
    omega (arith, chores_of-append before (w ∷ later), chores_of-append before (w' ∷ later))

pub chores_in-put :
    (k : String) (w w' : Worker) (m : Map Worker)
    → get k m ≡ some w
    → chores_in (put k w' m) + chores w ≡ chores_in m + chores w'
unfolding get put chores_in
chores_in-put k w w' [] e = cc
chores_in-put k w w' ((j, v) ∷ m) e = elim (Bool-cases (j == k)) [
  | inl same ↦ let value : v ≡ w = ground arith in rw (same, value) (omega arith)
  | inr other ↦ let below = chores_in-put k w w' m (ground arith) in rw other (omega arith)
]

WorkerStep-chores :
    {main_cancelled : _} {w w' : Worker} {d : ℕ}
    → WorkerStep main_cancelled w w' d
    → chores w ≡ suc (chores w')
unfolding take finish exit
WorkerStep-chores (takes w event rest alive free queue) =
    let one_less : length w.events_chan ≡ suc (length rest) = ap length queue in
    let none_held : length (held w.in_hand) ≡ 0 = ap (λ o. length (held o)) free in omega arith
WorkerStep-chores (finishes w event alive hand) =
    let one_held : length (held w.in_hand) ≡ 1 = ap (λ o. length (held o)) hand in omega arith
WorkerStep-chores (exits w alive free told) = simp alive (omega arith)

abbrev wait : Phase → ℕ
wait waiting = 1
wait _ = 0

abbrev pub chores_left : EventHandler → ℕ
chores_left e = chores_in e.workers + (chores_of e.removed + wait e.phase)

-- `WatchForEvents` is in `waitGroup.Wait` or has returned.
abbrev IsDone : Phase → Type 0
IsDone p = (p ≡ waiting) ⊎ (p ≡ returned)

IsDone-ne_watching : (p : Phase) → IsDone p → p ≡ watching → ⊥
IsDone-ne_watching p (inl h) e = cc (h, e)
IsDone-ne_watching p (inr h) e = cc (h, e)

Step-chores_left :
    {e e' : EventHandler}
    → Step e e'
    → IsDone e.phase
    → e.main_cancelled ≡ true
    → (chores_left e ≡ suc (chores_left e')) × IsDone e'.phase × (e'.main_cancelled ≡ true)
Step-chores_left (cancels_main e new) done main = cc (new, main)
Step-chores_left (stops e in_select m) done main =
    absurd (IsDone-ne_watching e.phase done in_select)
Step-chores_left (receives e event in_select) done main =
    absurd (IsDone-ne_watching e.phase done in_select)
Step-chores_left (sends e event name now w about there room) done main = elim done [
  | inl h ↦ cc (h, about)
  | inr h ↦ cc (h, about)
]
Step-chores_left (ticks e now in_select) done main =
    absurd (IsDone-ne_watching e.phase done in_select)
Step-chores_left (waits e in_wait nobody) done main = (simp in_wait (omega arith), inr refl, main)
Step-chores_left (moves e name w w' d there step) done main =
    let fewer = WorkerStep-chores step in
    let swapped = chores_in-put name w w' e.workers there in (omega arith, done, main)
Step-chores_left (moves_removed e before w later w' d there step) done main =
    let fewer = WorkerStep-chores step in
    let swapped = chores_of-replaced before w w' later in (rw there (omega arith), done, main)

unfoldable pub steps_count : {e e' : EventHandler} → Steps e e' → ℕ
steps_count (nothing e) = 0
steps_count (followed e e' e'' step more) = suc (steps_count more)

Steps-chores_left :
    {e e' : EventHandler} (more : Steps e e')
    → IsDone e.phase
    → e.main_cancelled ≡ true
    → steps_count more + chores_left e' ≡ chores_left e
unfolding steps_count
Steps-chores_left (nothing e) done main = omega arith
Steps-chores_left (followed e e' e'' step more) done main =
    let (fewer, done', main') = Step-chores_left step done main in
    let rest = Steps-chores_left more done' main' in omega arith

Steps-IsReachable : {e e' : EventHandler} → Steps e e' → IsReachable e → IsReachable e'
Steps-IsReachable (nothing e) r = r
Steps-IsReachable (followed e e' e'' step more) r = Steps-IsReachable more (steps e e' r step)

waiting_goes_on :
    (e : EventHandler) → IsReachable e → e.phase ≡ waiting → (e' : EventHandler) × Step e e'
waiting_goes_on e r in_wait = go e.wait_group refl
  where
    go : (n : ℕ) → e.wait_group ≡ n → (e' : EventHandler) × Step e e'
    go zero group = (_, waits e in_wait group)
    go (suc n) group =
        let (e', step) =
          one_moves e n (IsReachable-IsConsistent e r) (waiting-main_cancelled e r in_wait) group in
        (e', step)

-- The steps that the events in the channels of workers and in their hands still make: two for an event in a
-- channel, one for an event in hand.
unfoldable pub rounds_of : List Worker → ℕ
rounds_of [] = 0
rounds_of (w ∷ ws) = rounds w + rounds_of ws

unfoldable pub rounds_in : Map Worker → ℕ
rounds_in [] = 0
rounds_in ((k, w) ∷ m) = rounds w + rounds_in m

chores_of-rounds : (ws : List Worker) → chores_of ws ≡ rounds_of ws + running_of ws
unfolding chores_of rounds_of running_of
chores_of-rounds [] = omega arith
chores_of-rounds (w ∷ ws) = omega (arith, chores_of-rounds ws)

pub chores_in-rounds : (m : Map Worker) → chores_in m ≡ rounds_in m + running_in m
unfolding chores_in rounds_in running_in
chores_in-rounds [] = omega arith
chores_in-rounds ((k, w) ∷ m) = omega (arith, chores_in-rounds m)

-- Once the dispatcher waits for its workers it does not wait forever: whatever steps follow, they are
-- at most two for each event in a channel, one for each event that a goroutine has in hand, one for
-- each goroutine in the wait group, and one more; and as long as the dispatcher still waits, another
-- step is possible.
pub waiting_terminates :
    (e e' : EventHandler) (more : Steps e e')
    → IsReachable e
    → e.phase ≡ waiting
    → (steps_count more ≤ rounds_in e.workers + (rounds_of e.removed + (e.wait_group + 1)))
      × (e'.phase ≡ waiting → (e'' : EventHandler) × Step e' e'')
waiting_terminates e e' more r in_wait =
    let main = waiting-main_cancelled e r in_wait in
    let total = Steps-chores_left more (inl in_wait) main in
    let c = IsReachable-IsConsistent e r in
    let one : wait e.phase ≡ 1 = simp in_wait refl in
    (
      omega (arith, chores_in-rounds e.workers, chores_of-rounds e.removed, c.counted),
      λ still. waiting_goes_on e' (Steps-IsReachable more r) still,
    )
