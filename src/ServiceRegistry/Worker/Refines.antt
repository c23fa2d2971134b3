-- ===== src/ServiceRegistry/Worker/Refines.antt =====
-- The worker of a namespace implements the published contents.
use cnwan_operator.Common.{false, some, List, [], ◌∷◌, ◌≡◌, inl, inr, refl, Bool-cases}
use cnwan_operator.Common.Result.{Result-cases}
use cnwan_operator.GoMap.{get}
use cnwan_operator.ServiceRegistry.Events.{create, update, delete, Resource, Event}
use cnwan_operator.ServiceRegistry.Registry.{Place, Registry}
use cnwan_operator.ServiceRegistry.Worker.{
  NamespaceWorker, by_type, delete_owned, delete_owned_childless, delete_childless,
  handle_create_update, handle_delete, handle_event, handle_events,
}
use cnwan_operator.ServiceRegistry.Worker.Effects.{first_options}
use cnwan_operator.ServiceRegistry.Published.{
  Contents, has_child, retract, apply, place_in, apply_at, apply_events,
}
use cnwan_operator.ServiceRegistry.Published.Contents.{has_child_iff, has_child-in_endpoint}
use cnwan_operator.ServiceRegistry.Registry.Reliable.{
  IsReliable, Represents, register-Represents, parent-Represents, gone-Represents,
  unread-Represents,
}

module _ (r : Registry) (reliable : IsReliable r) where
  open r use {
    State, view, register, get_metadata, next_child, deregister, get-view, done-view, register-view,
    register-view_ne, deregister-view, deregister-view_ne,
  }

  delete_owned-Represents :
      (n : NamespaceWorker) (p : Place) (s : State) (c : Contents)
      → has_child p c ≡ false
      → Represents r s c
      → Represents r (delete_owned r n p (get_metadata p s) s) (retract p c)
  unfolding delete_owned
  delete_owned-Represents n p s c childless rep = elim (Result-cases (get_metadata p s)) [
    | inr (e, no_reply) ↦ rw no_reply (unread-Represents r reliable p e s c no_reply rep)
    | inl (m, got) ↦
        let owned = (rep.shown p m (get-view p s m got)).1 in
        rw (got, owned) (gone-Represents r reliable p s c childless rep)
  ]

  delete_owned_childless-Represents :
      (n : NamespaceWorker) (p : Place) (s : State) (c : Contents)
      → Represents r s c
      → Represents r (delete_owned_childless r n p (get_metadata p s) s) (retract p c)
  unfolding delete_owned_childless delete_childless
  delete_owned_childless-Represents n p s c rep = elim (Result-cases (get_metadata p s)) [
    | inr (e, no_reply) ↦ rw no_reply (unread-Represents r reliable p e s c no_reply rep)
    | inl (m, got) ↦
        let owned = (rep.shown p m (get-view p s m got)).1 in
        elim (reliable.lists p s) [
          | inl finished ↦
              let childless : has_child p c ≡ false = elim (Bool-cases (has_child p c)) [
                | inr e ↦ e
                | inl parent ↦
                    let (q, under, old) = (has_child_iff p c).0 parent in
                    let (m', was) = rep.there q old in
                    absurd (cc (was, done-view p q s finished under))
              ] in
              rw (got, owned, finished) (gone-Represents r reliable p s c childless rep)
          | inr (some_child, q, under, m', was) ↦
              let parent = (has_child_iff p c).1 (q, under, (rep.shown q m' was).0) in
              rw (got, owned, some_child) (parent-Represents r reliable p s c parent rep)
        ]
  ]

  module _ (n : NamespaceWorker) where
    handle_delete-Represents :
        (object : Resource) (s : State) (c : Contents)
        → Represents r s c
        → Represents r
            (handle_delete r n object s)
            (apply_at delete (place_in n.namespace object) c)
    unfolding handle_delete apply
    handle_delete-Represents (Resource.namespace name) s c rep =
        delete_owned_childless-Represents n _ s c rep
    handle_delete-Represents (Resource.service ns name) s c rep =
        delete_owned_childless-Represents n _ s c rep
    handle_delete-Represents (Resource.endpoint e) s c rep =
        delete_owned-Represents n _ s c (has_child-in_endpoint n.namespace e.service e.name c) rep
    handle_delete-Represents Resource.other s c rep = rep

    handle_create_update-Represents :
        (object : Resource) (s : State) (c : Contents)
        → get "owner" n.persistent_meta ≡ some "cnwan-operator"
        → Represents r s c
        → Represents r
            (handle_create_update r n object s)
            (apply_at create (place_in n.namespace object) c)
    unfolding handle_create_update apply
    handle_create_update-Represents (Resource.namespace name) s c owner rep =
        register-Represents r reliable _ [] n.persistent_meta s c owner rep
    handle_create_update-Represents (Resource.service ns name) s c owner rep =
        register-Represents r reliable _ [] n.persistent_meta s c owner rep
    handle_create_update-Represents (Resource.endpoint e) s c owner rep =
        register-Represents r reliable _ (first_options r n (Resource.endpoint e)) n.persistent_meta
          s c owner rep
    handle_create_update-Represents Resource.other s c owner rep = rep

    refreshed :
        (object : Resource) (c : Contents)
        → apply_at update (place_in n.namespace object) c
          ≡ apply_at create (place_in n.namespace object) c
    unfolding apply
    refreshed (Resource.namespace name) c = refl
    refreshed (Resource.service ns name) c = refl
    refreshed (Resource.endpoint e) c = refl
    refreshed Resource.other c = refl

    pub handle_event-Represents :
        (event : Event) (s : State) (c : Contents)
        → get "owner" n.persistent_meta ≡ some "cnwan-operator"
        → Represents r s c
        → Represents r
            (handle_event r n event s)
            (apply_at event.event_type (place_in n.namespace event.object) c)
    unfolding handle_event
    handle_event-Represents event s c owner rep =
        let at = place_in n.namespace event.object in
        elim event.event_type
          as (λ t. Represents r (by_type r n t event.object s) (apply_at t at c)) [
            | create ↦ handle_create_update-Represents event.object s c owner rep
            | update ↦
                rw (refreshed event.object c)
                  (handle_create_update-Represents event.object s c owner rep)
            | delete ↦ handle_delete-Represents event.object s c rep
          ]

-- The worker refines the published contents: over a reliable registry, if the metadata given to
-- everything names the operator as the owner and the registry shows exactly the published places,
-- then after any sequence of events it shows exactly the places that the events leave published.
pub handle_events-Represents :
    (r : Registry) (n : NamespaceWorker) (events : List Event) (s : Registry.State r) (c : Contents)
    → IsReliable r
    → get "owner" n.persistent_meta ≡ some "cnwan-operator"
    → Represents r s c
    → Represents r (handle_events r n events s) (apply_events n.namespace events c)
unfolding handle_events apply_events
handle_events-Represents r n [] s c reliable owner rep = rep
handle_events-Represents r n (event ∷ events) s c reliable owner rep =
    handle_events-Represents r n events _ _ reliable owner
      (handle_event-Represents r reliable n event s c owner rep)
