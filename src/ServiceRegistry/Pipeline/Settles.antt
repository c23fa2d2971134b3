-- ===== src/ServiceRegistry/Pipeline/Settles.antt =====
-- What the handlers have sent can always still be brought into the registry.
use cnwan_operator.Common.{
  List, [], ◌∷◌, ◌++◌, length, ℕ, zero, suc, ◌<◌, ◌≤◌, String, false, some, ◌≡◌, ◌≢◌, ◌↔◌, refl,
  sym, ap, ◌∙◌, arith, inl, inr, Elem,
}
use mathlib.Core.Path.{subst}
use mathlib.Core.List.{append-nil, append_assoc}
use cnwan_operator.ServiceRegistry.Events.{Event}
use cnwan_operator.GoMap.{Map, get}
use cnwan_operator.ServiceRegistry.Registry.{Place, Registry}
use cnwan_operator.ServiceRegistry.Registry.Reliable.{IsReliable, Represents}
use cnwan_operator.ServiceRegistry.Published.{Contents, apply_events}
use cnwan_operator.ServiceRegistry.Worker.Frame.{namespace_of}
use cnwan_operator.ServiceRegistry.Dispatcher.{Worker, EventHandler}
use cnwan_operator.ServiceRegistry.Dispatcher.Queued.{IsIdle}
use cnwan_operator.ServiceRegistry.Dispatcher.Maps.{get-All}
use cnwan_operator.ServiceRegistry.System.{finished}
use cnwan_operator.ServiceRegistry.System.Histories.{NoneNamed}
use cnwan_operator.ServiceRegistry.System.Shown.{advance-handler}
use cnwan_operator.ServiceRegistry.Pipeline.{
  Pipeline, sent_to, Runs, proceeds, proceed, Follows, stays, goes_on, is_sent, announces, announce,
  events_capacity,
}
use cnwan_operator.ServiceRegistry.Pipeline.Delivered.{Runs-IsReachable, Runs-IsShown}
use cnwan_operator.ServiceRegistry.Pipeline.Advances.{work, IsSettled, Advance, advances}

module _ (r : Registry) (meta : Map String) (st : Registry.State r) where
  -- A state without anything under way that may follow.
  record Settled (events : List Event) (p : Pipeline r) : Type 0 where
    end : Pipeline r
    follows : Follows r meta events p end
    runs : Runs r meta st end
    settled : IsSettled end.events_channel end.system.handler
    not_cancelled : end.system.handler.main_cancelled ≡ false
    all_announced : end.announced ≡ p.announced ++ events
    same_removed : end.system.handler.removed ≡ p.system.handler.removed

  abbrev SettlesWithin : ℕ → Type 0
  SettlesWithin fuel =
      (p : Pipeline r)
      → work p.events_channel p.system.handler ≤ fuel
      → Runs r meta st p
      → p.system.handler.main_cancelled ≡ false
      → Settled [] p

  further :
      (fuel : ℕ) (p : Pipeline r)
      → SettlesWithin fuel
      → work p.events_channel p.system.handler ≤ suc fuel
      → Runs r meta st p
      → Advance p.events_channel p.system.handler
      → Settled [] p
  further fuel p later enough run a =
      let next = proceed r meta p a.next a.step a.rest in
      let at : next.system.handler ≡ a.next =
        advance-handler r meta a.next (finished a.step) p.system in
      let less : work a.rest next.system.handler < work p.events_channel p.system.handler =
        subst (λ e. work a.rest e < work p.events_channel p.system.handler) (sym at) a.less in
      let s =
        later next (omega (arith, less, enough)) (proceeds p a.next a.step a.rest a.taken_over run)
          (ap (λ (e : EventHandler). e.main_cancelled) at ∙ a.not_cancelled) in
      record {
        end = s.end;
        follows = goes_on [] p a.next a.step a.rest s.end a.taken_over s.follows;
        runs = s.runs;
        settled = s.settled;
        not_cancelled = s.not_cancelled;
        all_announced = s.all_announced;
        same_removed = s.same_removed ∙ ap (λ (e : EventHandler). e.removed) at ∙ a.same_removed;
      }

  at_end :
      (p : Pipeline r)
      → Runs r meta st p
      → p.system.handler.main_cancelled ≡ false
      → IsSettled p.events_channel p.system.handler
      → Settled [] p
  at_end p run main done = record {
    end = p;
    follows = stays p;
    runs = run;
    settled = done;
    not_cancelled = main;
    all_announced = sym (append-nil p.announced);
    same_removed = refl;
  }

  settles_within : (fuel : ℕ) → SettlesWithin fuel
  settles_within zero p enough run main =
      elim (advances p.system.handler (Runs-IsReachable r meta st p run) main p.events_channel) [
        | inl done ↦ at_end p run main done
        | inr a ↦ absurd (let less = a.less in omega arith)
      ]
  settles_within (suc fuel) p enough run main =
      let later = settles_within fuel in
      elim (advances p.system.handler (Runs-IsReachable r meta st p run) main p.events_channel) [
        | inl done ↦ at_end p run main done
        | inr a ↦ further fuel p later enough run a
      ]

  settles :
      (p : Pipeline r) → Runs r meta st p → p.system.handler.main_cancelled ≡ false → Settled [] p
  settles p run main =
      settles_within (work p.events_channel p.system.handler) p (omega arith) run main

  Follows-append :
      {events events' : List Event} {p p' p'' : Pipeline r}
      → Follows r meta events p p'
      → Follows r meta events' p' p''
      → Follows r meta (events ++ events') p p''
  Follows-append (stays p) later = later
  Follows-append (is_sent p event events p' room first) later =
      is_sent p event _ _ room (Follows-append first later)
  Follows-append (goes_on events p e step rest p' there first) later =
      goes_on _ p e step rest _ there (Follows-append first later)

  -- The handlers send each event once the one before it has arrived.
  settles_after :
      (events : List Event) (p : Pipeline r)
      → Runs r meta st p
      → p.system.handler.main_cancelled ≡ false
      → Settled events p
  settles_after [] p run main = settles p run main
  settles_after (event ∷ events) p run main =
      let s = settles p run main in
      let room : length s.end.events_channel < events_capacity = rw s.settled.empty (omega arith) in
      let t =
        settles_after events (announce r meta event s.end) (announces s.end event room s.runs)
          s.not_cancelled in
      record {
        end = t.end;
        follows = Follows-append s.follows (is_sent s.end event events t.end room t.follows);
        runs = t.runs;
        settled = t.settled;
        not_cancelled = t.not_cancelled;
        all_announced =
            t.all_announced
            ∙ append_assoc s.end.announced (event ∷ []) events
            ∙ ap (λ es. es ++ event ∷ events) (s.all_announced ∙ append-nil p.announced);
        same_removed = t.same_removed ∙ s.same_removed;
      }

-- From every state that a dispatcher over a reliable registry can come to before the main context
-- is cancelled, whatever list of events the handlers send next, the dispatcher and its workers
-- can come to a state in which something is shown at a place exactly where all the events about
-- its namespace, those announced before and these, in the order in which they were sent, leave it
-- published. This is so for all places of all namespaces whose name is not empty and of which no
-- worker was removed from the map of workers; the registry showed exactly the published places at
-- first, and the metadata names the operator as the owner of everything.
pub Runs-settles :
    (r : Registry) (meta : Map String) (st : Registry.State r) (c : Contents) (p : Pipeline r)
    (events : List Event)
    → IsReliable r
    → get "owner" meta ≡ some "cnwan-operator"
    → Represents r st c
    → Runs r meta st p
    → p.system.handler.main_cancelled ≡ false
    → (p' : Pipeline r) × Follows r meta events p p'
      × ((ns : String) (q : Place)
          → ns ≢ ""
          → NoneNamed ns p.system.handler.removed
          → namespace_of q ≡ ns
          → ((m : Map String) × (Registry.view r p'.system.state q ≡ some m))
            ↔ Elem q (apply_events ns (sent_to ns (p.announced ++ events)) c))
Runs-settles r meta st c p events reliable owner rep run main =
    let s = settles_after r meta st events p run main in
    let done = s.settled in
    let e = s.end.system.handler in
    (
      s.end,
      s.follows,
      λ ns q named alone at.
          subst
            (λ sent.
              ((m : Map String) × (Registry.view r s.end.system.state q ≡ some m))
              ↔ Elem q (apply_events ns (sent_to ns sent) c))
            s.all_announced
            (Runs-IsShown r meta st c s.end ns q reliable owner rep s.runs s.not_cancelled named
              done.empty done.in_select
              (λ w there.
                get-All (λ (x : String × Worker). IsIdle x.1) ns w e.workers done.idle there)
              (subst (λ ws. NoneNamed ns ws) (sym s.same_removed) alone) at),
    )
