-- ===== src/ServiceRegistry/Dispatcher/Returns.antt =====
-- How many workers a namespace has, and what has become of the workers when `WatchForEvents` returns.
use cnwan_operator.Common.{
  String, true, false, List, [], ◌∷◌, ◌≡◌, ◌∙◌, ◌⊎◌, refl, sym, ap, arith, eq_refl, inl, inr, Elem,
  of_All-Elem,
}
use mathlib.Core.Path.{subst}
use cnwan_operator.GoMap.{Map, has, HasDistinctKeys}
use cnwan_operator.ServiceRegistry.Dispatcher.{
  Worker, returned, EventHandler, IsReachable, IsWorker,
}
use cnwan_operator.ServiceRegistry.Dispatcher.Workers.{IsSound}
use cnwan_operator.ServiceRegistry.Dispatcher.Maps.{running_of, running_in}
use cnwan_operator.ServiceRegistry.Dispatcher.Consistent.{
  IsPlaced, IsToldToStop, Agrees, IsConsistent,
}
use cnwan_operator.ServiceRegistry.Dispatcher.Invariant.{IsReachable-IsConsistent}

-- In every reachable state each worker, removed from the map or not, was sent events of its own
-- namespace only, has taken them in the order in which they were sent, and has no more than 25 of
-- them in its channel.
pub IsReachable-IsSound : (e : EventHandler) (w : Worker) → IsReachable e → IsWorker e w → IsSound w
IsReachable-IsSound e w r (inl (name, m)) =
    (of_All-Elem IsPlaced e.workers (name, w) (IsReachable-IsConsistent e r).placed m).1
IsReachable-IsSound e w r (inr m) =
    (of_All-Elem IsToldToStop e.removed w (IsReachable-IsConsistent e r).told m).1

Elem-has : (k : String) (w : Worker) (m : Map Worker) → Elem (k, w) m → has k m ≡ true
unfolding has
Elem-has k w [] h = absurd h
Elem-has k w ((j, v) ∷ m) (inl same) =
    let key : k ≡ j = ap (λ (x : String × Worker). x.0) same in rw key (rw (eq_refl j) refl)
Elem-has k w ((j, v) ∷ m) (inr h) = ground (arith, Elem-has k w m h)

same_key :
    (k : String) (w w' : Worker) (m : Map Worker)
    → HasDistinctKeys m
    → Elem (k, w) m
    → Elem (k, w') m
    → w ≡ w'
same_key k w w' [] d h h' = absurd h
same_key k w w' ((j, v) ∷ m) (fresh, d) (inl e) (inl e') =
    ap (λ (x : String × Worker). x.1) (e ∙ sym e')
same_key k w w' ((j, v) ∷ m) (fresh, d) (inl e) (inr h') =
    let key : k ≡ j = ap (λ (x : String × Worker). x.0) e in
    let there : has j m ≡ true = rw (← key) (Elem-has k w' m h') in cc (fresh, there)
same_key k w w' ((j, v) ∷ m) (fresh, d) (inr h) (inl e') =
    let key : k ≡ j = ap (λ (x : String × Worker). x.0) e' in
    let there : has j m ≡ true = rw (← key) (Elem-has k w m h) in cc (fresh, there)
same_key k w w' ((j, v) ∷ m) (fresh, d) (inr h) (inr h') = same_key k w w' m d h h'

-- A worker that was not told to stop is in the map, under its name.
is_in_map :
    (e : EventHandler) (w : Worker)
    → IsConsistent e
    → IsWorker e w
    → w.cancelled ≡ false
    → Elem (w.name, w) e.workers
is_in_map e w c (inl (name, m)) free =
    let (named, _) = of_All-Elem IsPlaced e.workers (name, w) c.placed m in
    subst (λ n. Elem (n, w) e.workers) (sym named) m
is_in_map e w c (inr m) free =
    let (told, _) = of_All-Elem IsToldToStop e.removed w c.told m in cc (told, free)

-- In every reachable state at most one of the workers of one namespace was not told to stop.
pub IsReachable-one_worker :
    (e : EventHandler) (w w' : Worker)
    → IsReachable e
    → IsWorker e w
    → IsWorker e w'
    → w.cancelled ≡ false
    → w'.cancelled ≡ false
    → w.name ≡ w'.name
    → w ≡ w'
IsReachable-one_worker e w w' r m m' free free' same =
    let c = IsReachable-IsConsistent e r in
    same_key w.name w w' e.workers c.distinct (is_in_map e w c m free)
      (subst (λ n. Elem (n, w') e.workers) (sym same) (is_in_map e w' c m' free'))

running_in-exited :
    (m : Map Worker) (k : String) (w : Worker) → running_in m ≡ 0 → Elem (k, w) m → w.exited ≡ true
unfolding running_in
running_in-exited [] k w h there = absurd there
running_in-exited ((j, v) ∷ m) k w h (inl same) =
    let value : w ≡ v = ap (λ (x : String × Worker). x.1) same in rw value (ground arith)
running_in-exited ((j, v) ∷ m) k w h (inr there) = running_in-exited m k w (omega arith) there

running_of-exited :
    (ws : List Worker) (w : Worker) → running_of ws ≡ 0 → Elem w ws → w.exited ≡ true
unfolding running_of
running_of-exited [] w h there = absurd there
running_of-exited (v ∷ ws) w h (inl same) = rw same (ground arith)
running_of-exited (v ∷ ws) w h (inr there) = running_of-exited ws w (omega arith) there

-- In every reachable state: when the wait group is at zero, the goroutine of every worker has
-- ended, those of the workers that the clean-up removed from the map included; and when the
-- dispatcher has returned, every worker has ended, unless the clean-up removed it and told it to
-- stop.
pub IsReachable-ended :
    (e : EventHandler) (w : Worker)
    → IsReachable e
    → IsWorker e w
    → (e.wait_group ≡ 0 → w.exited ≡ true)
      × (e.phase ≡ returned → (w.exited ≡ true) ⊎ (Elem w e.removed × (w.cancelled ≡ true)))
IsReachable-ended e w r (inl (name, m)) =
    let c = IsReachable-IsConsistent e r in
    (
      λ zero_group. running_in-exited e.workers name w (omega (arith, c.counted)) m,
      λ back.
          inl
            (running_in-exited e.workers name w (subst (λ p. Agrees p e.workers) back c.agrees) m),
    )
IsReachable-ended e w r (inr m) =
    let c = IsReachable-IsConsistent e r in
    (
      λ zero_group. running_of-exited e.removed w (omega (arith, c.counted)) m,
      λ back. inr (m, (of_All-Elem IsToldToStop e.removed w c.told m).0),
    )
