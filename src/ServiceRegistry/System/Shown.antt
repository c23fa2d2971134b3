-- ===== src/ServiceRegistry/System/Shown.antt =====
-- What the registry shows once the dispatcher and its workers have come somewhere.
use cnwan_operator.Common.{String, Option, none, some, [], ◌++◌, ◌≡◌, ◌↔◌, refl, sym, ap, ◌∙◌, Elem}
use mathlib.Core.Path.{subst}
use cnwan_operator.GoMap.{Map, get}
use mathlib.Core.List.{append-nil}
use cnwan_operator.ServiceRegistry.Events.{Event}
use cnwan_operator.ServiceRegistry.Registry.{Place, Registry}
use cnwan_operator.ServiceRegistry.Registry.Reliable.{IsReliable, Represents}
use cnwan_operator.ServiceRegistry.Published.{Contents, apply_events}
use cnwan_operator.ServiceRegistry.Worker.Frame.{namespace_of}
use cnwan_operator.ServiceRegistry.Worker.Refines.{handle_event-Represents}
use cnwan_operator.ServiceRegistry.Dispatcher.{
  held, Worker, EventHandler, new_event_handler, IsReachable,
}
use cnwan_operator.ServiceRegistry.Dispatcher.Queued.{IsIdle}
use cnwan_operator.ServiceRegistry.Dispatcher.Maps.{get-All}
use cnwan_operator.ServiceRegistry.Dispatcher.Consistent.{IsPlaced}
use cnwan_operator.ServiceRegistry.Dispatcher.Invariant.{IsReachable-IsConsistent}
use cnwan_operator.ServiceRegistry.System.{
  System, finished, worker_of, advance, Reaches, starts, steps,
}
use cnwan_operator.ServiceRegistry.System.Apart.{
  apply_log, apply_log-append, events_of, apply_log-AgreesIn,
}
use cnwan_operator.ServiceRegistry.System.Histories.{history_of, NoneNamed}
use cnwan_operator.ServiceRegistry.System.Logged.{
  handled_by, handled_events, log_after, IsLogged, Step-IsLogged,
}

new_event_handler-IsLogged : IsLogged new_event_handler []
unfolding new_event_handler events_of get
new_event_handler-IsLogged = record { logged = λ ns alone. refl }

module _ (r : Registry) (meta : Map String) where
  pub advance-handler :
      (e : EventHandler) (x : Option (String × Event)) (y : System r)
      → (advance r meta e x y).handler ≡ e
  advance-handler e none y = refl
  advance-handler e (some x) y = refl

  advance-log :
      (e : EventHandler) (x : Option (String × Event)) (y : System r)
      → (advance r meta e x y).log ≡ log_after x y.log
  advance-log e none y = refl
  advance-log e (some x) y = refl

  module _ (st : Registry.State r) where
    -- The registry has no influence on the dispatcher.
    pub Reaches-IsReachable : (y : System r) → Reaches r meta st y → IsReachable y.handler
    Reaches-IsReachable y starts = IsReachable.starts
    Reaches-IsReachable y' (steps y e step before) =
        subst IsReachable (sym (advance-handler e (finished step) y))
          (IsReachable.steps y.handler e (Reaches-IsReachable y before) step)

    Reaches-IsLogged : (y : System r) → Reaches r meta st y → IsLogged y.handler y.log
    Reaches-IsLogged y starts = new_event_handler-IsLogged
    Reaches-IsLogged y' (steps y e step before) =
        let next = finished step in
        let consistent = IsReachable-IsConsistent y.handler (Reaches-IsReachable y before) in
        subst (λ h. IsLogged h (advance r meta e next y).log) (sym (advance-handler e next y))
          (subst (IsLogged e) (sym (advance-log e next y))
            (Step-IsLogged y.log step consistent (Reaches-IsLogged y before)))

    module _ (c : Contents) (reliable : IsReliable r)
        (owner : get "owner" meta ≡ some "cnwan-operator") where
      advance-Represents :
          (e : EventHandler) (x : Option (String × Event)) (y : System r)
          → Represents r y.state (apply_log y.log c)
          → Represents r (advance r meta e x y).state (apply_log (log_after x y.log) c)
      advance-Represents e none y rep = rep
      advance-Represents e (some (name, event)) y rep =
          subst (Represents r _) (sym (apply_log-append y.log name event c))
            (handle_event-Represents r reliable (worker_of meta name) event y.state _ owner rep)

      Reaches-Represents :
          (y : System r)
          → Represents r st c
          → Reaches r meta st y
          → Represents r y.state (apply_log y.log c)
      unfolding apply_log
      Reaches-Represents y rep starts = rep
      Reaches-Represents y' rep (steps y e step before) =
          let next = finished step in
          subst (λ log. Represents r (advance r meta e next y).state (apply_log log c))
            (sym (advance-log e next y))
            (advance-Represents e next y (Reaches-Represents y rep before))

-- The namespace shows what its worker's handled events leave published.
pub Reaches-shows_handled :
    (r : Registry) (meta : Map String) (st : Registry.State r) (c : Contents) (y : System r)
    (ns : String) (q : Place)
    → IsReliable r
    → get "owner" meta ≡ some "cnwan-operator"
    → Represents r st c
    → Reaches r meta st y
    → NoneNamed ns y.handler.removed
    → namespace_of q ≡ ns
    → ((m : Map String) × (Registry.view r y.state q ≡ some m))
      ↔ Elem q (apply_events ns (handled_by ns y.handler.workers) c)
Reaches-shows_handled r meta st c y ns q reliable owner rep reached alone at =
    let now = Reaches-Represents r meta st c reliable owner y rep reached in
    let events = (Reaches-IsLogged r meta st y reached).logged ns alone in
    let (there, back) = apply_log-AgreesIn ns y.log c c (λ q at. (λ m. m, λ m. m)) q at in
    (
      λ (m, shown).
          subst (λ es. Elem q (apply_events ns es c)) events (there (now.shown q m shown).0),
      λ m. now.there q (back (subst (λ es. Elem q (apply_events ns es c)) (sym events) m)),
    )

-- Once the worker of a namespace has nothing left in its channel or in hand, it has handled what it was sent.
pub idle-handled_by :
    (e : EventHandler) (ns : String) (w : Worker)
    → IsReachable e
    → get ns e.workers ≡ some w
    → IsIdle w
    → handled_by ns e.workers ≡ w.received
idle-handled_by e ns w reachable there (empty, free) =
    let consistent = IsReachable-IsConsistent e reachable in
    let (_, sound) = get-All IsPlaced ns w e.workers consistent.placed there in
    ap (history_of handled_events) there
    ∙ sym (append-nil w.handled)
    ∙ ap (λ es. w.handled ++ es) (sym (ap (λ o. held o ++ w.events_chan) free ∙ empty))
    ∙ sound.in_order
