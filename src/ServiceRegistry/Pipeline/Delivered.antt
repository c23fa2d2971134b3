-- ===== src/ServiceRegistry/Pipeline/Delivered.antt =====
-- What the handlers send reaches the worker of its namespace, and so the registry.
use cnwan_operator.Common.{
  false, String, some, [], ◌∷◌, ◌++◌, ◌≡◌, ◌≢◌, ◌↔◌, refl, sym, ap, ◌∙◌, Elem, Option-cases, inl,
  inr,
}
use mathlib.Core.Path.{subst}
use mathlib.Core.List.{append-nil, append_assoc}
use cnwan_operator.GoMap.{Map, get}
use cnwan_operator.ServiceRegistry.Registry.{Place, Registry}
use cnwan_operator.ServiceRegistry.Registry.Reliable.{IsReliable, Represents}
use cnwan_operator.ServiceRegistry.Published.{Contents, apply_events}
use cnwan_operator.ServiceRegistry.Worker.Frame.{namespace_of}
use cnwan_operator.ServiceRegistry.Dispatcher.{
  Worker, watching, EventHandler, new_event_handler, IsReachable,
}
use cnwan_operator.ServiceRegistry.Dispatcher.Queued.{IsIdle}
use cnwan_operator.ServiceRegistry.Dispatcher.Invariant.{IsReachable-IsConsistent}
use cnwan_operator.ServiceRegistry.System.{finished, advance, Reaches}
use cnwan_operator.ServiceRegistry.System.Histories.{history_of, NoneNamed}
use cnwan_operator.ServiceRegistry.System.Logged.{handled_events, handled_by}
use cnwan_operator.ServiceRegistry.System.Shown.{
  advance-handler, Reaches-IsReachable, Reaches-shows_handled, idle-handled_by,
}
use cnwan_operator.ServiceRegistry.Pipeline.{
  Pipeline, received, sent_to, Runs, starts, announces, proceeds,
}
use cnwan_operator.ServiceRegistry.Pipeline.Received.{
  received_events, received_by, sent_to-append, passed, Step-removed, Step-passed,
}

module _ (r : Registry) (meta : Map String) (st : Registry.State r) where
  pub Runs-Reaches : (p : Pipeline r) → Runs r meta st p → Reaches r meta st p.system
  Runs-Reaches p starts = Reaches.starts
  Runs-Reaches p' (announces p event room before) = Runs-Reaches p before
  Runs-Reaches p' (proceeds p e step rest there before) =
      Reaches.steps p.system e step (Runs-Reaches p before)

  pub Runs-IsReachable : (p : Pipeline r) → Runs r meta st p → IsReachable p.system.handler
  Runs-IsReachable p run = Reaches-IsReachable r meta st p.system (Runs-Reaches p run)

  module _ (ns : String) (named : ns ≢ "") where
    -- All that was sent about the namespace was passed on, in order, or is still in the channel.
    pub Runs-passed :
        (p : Pipeline r)
        → Runs r meta st p
        → NoneNamed ns p.system.handler.removed
        → sent_to ns p.announced ≡ passed ns p.system.handler ++ sent_to ns p.events_channel
    unfolding sent_to new_event_handler get
    Runs-passed p starts alone = refl
    Runs-passed p' (announces p event room before) alone =
        sent_to-append ns p.announced (event ∷ [])
        ∙ ap (λ es. es ++ sent_to ns (event ∷ [])) (Runs-passed p before alone)
        ∙ append_assoc (passed ns p.system.handler) (sent_to ns p.events_channel)
            (sent_to ns (event ∷ []))
        ∙ ap (λ es. passed ns p.system.handler ++ es)
            (sym (sent_to-append ns p.events_channel (event ∷ [])))
    Runs-passed p' (proceeds p e step rest there before) alone =
        let now : (advance r meta e (finished step) p.system).handler ≡ e =
          advance-handler r meta e (finished step) p.system in
        let alone' : NoneNamed ns e.removed = subst (λ h. NoneNamed ns h.removed) now alone in
        let consistent = IsReachable-IsConsistent p.system.handler (Runs-IsReachable p before) in
        Runs-passed p before (Step-removed ns step alone')
        ∙ ap (λ es. passed ns p.system.handler ++ sent_to ns es) there
        ∙ ap (λ es. passed ns p.system.handler ++ es) (sent_to-append ns (received step) rest)
        ∙ sym (
            append_assoc (passed ns p.system.handler) (sent_to ns (received step))
              (sent_to ns rest))
        ∙ ap (λ es. es ++ sent_to ns rest) (sym (Step-passed ns step consistent named alone'))
        ∙ ap (λ h. passed ns h ++ sent_to ns rest) (sym now)

settled_handled :
    (e : EventHandler) (ns : String)
    → IsReachable e
    → ((w : Worker) → get ns e.workers ≡ some w → IsIdle w)
    → handled_by ns e.workers ≡ received_by ns e.workers
settled_handled e ns reachable idle = elim (Option-cases (get ns e.workers)) [
  | inl absent ↦
      ap (history_of handled_events) absent ∙ sym (ap (history_of received_events) absent)
  | inr (w, there) ↦
      idle-handled_by e ns w reachable there (idle w there)
      ∙ sym (ap (history_of received_events) there)
]

-- Of every state that the handlers of the controllers, the channel of 100 events, the dispatcher
-- and its workers can come to over a reliable registry before the main context is cancelled: if
-- the channel is empty, the dispatcher is in its select and the worker of a namespace, if it has
-- one, has an empty channel and is done with the event that it took last, then something is shown
-- at a place of the namespace exactly where all the events announced about it, in the order in
-- which they were sent, leave it published. The name of the namespace is not empty, no earlier
-- worker of it was removed from the map of workers, the registry showed exactly the published
-- places at first, and the metadata names the operator as the owner of everything.
pub Runs-IsShown :
    (r : Registry) (meta : Map String) (st : Registry.State r) (c : Contents) (p : Pipeline r)
    (ns : String) (q : Place)
    → IsReliable r
    → get "owner" meta ≡ some "cnwan-operator"
    → Represents r st c
    → Runs r meta st p
    → p.system.handler.main_cancelled ≡ false
    → ns ≢ ""
    → p.events_channel ≡ []
    → p.system.handler.phase ≡ watching
    → ((w : Worker) → get ns p.system.handler.workers ≡ some w → IsIdle w)
    → NoneNamed ns p.system.handler.removed
    → namespace_of q ≡ ns
    → ((m : Map String) × (Registry.view r p.system.state q ≡ some m))
      ↔ Elem q (apply_events ns (sent_to ns p.announced) c)
unfolding sent_to
Runs-IsShown r meta st c p ns q reliable owner rep run main named empty in_select idle alone at =
    let e = p.system.handler in
    let all : sent_to ns p.announced ≡ handled_by ns e.workers =
      Runs-passed r meta st ns named p run alone
      ∙ rw (empty, in_select) (append-nil (received_by ns e.workers ++ []))
      ∙ append-nil (received_by ns e.workers)
      ∙ sym (settled_handled e ns (Runs-IsReachable r meta st p run) idle) in
    rw all (
      Reaches-shows_handled r meta st c p.system ns q reliable owner rep
        (Runs-Reaches r meta st p run) alone at)
