-- ===== src/ServiceRegistry/Worker/Frame.antt =====
-- A worker stays within its namespace.
use cnwan_operator.Common.{String, List, [], ◌∷◌, ◌≡◌, ◌≢◌, ◌∙◌, inl, inr, refl, sym, ap}
use cnwan_operator.ServiceRegistry.Events.{create, update, delete, Resource, Event}
use cnwan_operator.ServiceRegistry.Registry.{
  Place, in_namespace, in_service, in_endpoint, IsUnder, Registry,
}
use cnwan_operator.ServiceRegistry.Worker.{
  NamespaceWorker, by_type, handle_create_update, handle_delete, handle_event, handle_events,
}
use cnwan_operator.ServiceRegistry.Worker.Ownership.{IsPlaceOf, handle_delete-Removal}

abbrev pub namespace_of : Place → String
namespace_of (in_namespace n) = n
namespace_of (in_service n s) = n
namespace_of (in_endpoint n s e) = n

pub IsUnder-namespace_of : (p q : Place) → IsUnder p q → namespace_of p ≡ namespace_of q
IsUnder-namespace_of (in_namespace n) (in_namespace n') h = absurd h
IsUnder-namespace_of (in_namespace n) (in_service n' s) h = h
IsUnder-namespace_of (in_namespace n) (in_endpoint n' s e) h = h
IsUnder-namespace_of (in_service n s) (in_namespace n') h = absurd h
IsUnder-namespace_of (in_service n s) (in_service n' s') h = absurd h
IsUnder-namespace_of (in_service n s) (in_endpoint n' s' e) h = h.0
IsUnder-namespace_of (in_endpoint n s e) q h = absurd (under_leaf q h)
  where
    under_leaf : (q : Place) → IsUnder (in_endpoint n s e) q → ⊥
    under_leaf (in_namespace n') h = h
    under_leaf (in_service n' s') h = h
    under_leaf (in_endpoint n' s' e') h = h

IsPlaceOf-namespace_of :
    (n : NamespaceWorker) (object : Resource) (p : Place)
    → IsPlaceOf n object p
    → namespace_of p ≡ n.namespace
IsPlaceOf-namespace_of n (Resource.namespace name) p h = ap namespace_of h
IsPlaceOf-namespace_of n (Resource.service ns name) p h = ap namespace_of h
IsPlaceOf-namespace_of n (Resource.endpoint e) p h = ap namespace_of h
IsPlaceOf-namespace_of n Resource.other p h = absurd h

module _ (r : Registry) (n : NamespaceWorker) (q : Place) where
  open r use {State, view, register-view_ne, deregister-view_ne}

  handle_create_update-frame :
      (object : Resource) (s : State)
      → ¬ IsPlaceOf n object q
      → view (handle_create_update r n object s) q ≡ view s q
  unfolding handle_create_update
  handle_create_update-frame (Resource.namespace name) s h =
      register-view_ne _ q _ s (λ e. h (sym e))
  handle_create_update-frame (Resource.service ns name) s h =
      register-view_ne _ q _ s (λ e. h (sym e))
  handle_create_update-frame (Resource.endpoint e) s h = register-view_ne _ q _ s (λ e. h (sym e))
  handle_create_update-frame Resource.other s h = refl

  handle_delete-frame :
      (object : Resource) (s : State)
      → ((p : Place) → IsPlaceOf n object p → (p ≢ q) × (¬ IsUnder p q))
      → view (handle_delete r n object s) q ≡ view s q
  handle_delete-frame object s h = elim (handle_delete-Removal r n object s) [
    | inl same ↦ rw same refl
    | inr (p, is_place, removal) ↦
        rw removal.is (deregister-view_ne p q s (h p is_place).0 (h p is_place).1)
  ]

  other_place :
      (object : Resource) (p : Place)
      → namespace_of q ≢ n.namespace
      → IsPlaceOf n object p
      → (p ≢ q) × (¬ IsUnder p q)
  other_place object p ne is_place =
      let at : namespace_of p ≡ n.namespace = IsPlaceOf-namespace_of n object p is_place in
      (
        λ e. ne (sym (ap namespace_of e) ∙ at),
        λ under. ne (sym (IsUnder-namespace_of p q under) ∙ at),
      )

  -- One event changes nothing outside the namespace.
  handle_event-frame :
      (event : Event) (s : State)
      → namespace_of q ≢ n.namespace
      → view (handle_event r n event s) q ≡ view s q
  unfolding handle_event
  handle_event-frame event s ne =
      elim event.event_type as (λ t. view (by_type r n t event.object s) q ≡ view s q) [
        | create ↦
            handle_create_update-frame event.object s
              (λ h. (other_place event.object q ne h).0 refl)
        | update ↦
            handle_create_update-frame event.object s
              (λ h. (other_place event.object q ne h).0 refl)
        | delete ↦ handle_delete-frame event.object s (λ p h. other_place event.object p ne h)
      ]

-- Whatever events a worker gets, what is registered in other namespaces stays as it is.
pub handle_events-frame :
    (r : Registry) (n : NamespaceWorker) (events : List Event) (s : Registry.State r) (q : Place)
    → namespace_of q ≢ n.namespace
    → Registry.view r (handle_events r n events s) q ≡ Registry.view r s q
unfolding handle_events
handle_events-frame r n [] s q ne = refl
handle_events-frame r n (event ∷ events) s q ne =
    handle_events-frame r n events (handle_event r n event s) q ne
    ∙ handle_event-frame r n q event s ne
