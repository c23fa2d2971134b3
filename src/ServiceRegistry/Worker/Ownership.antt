-- ===== src/ServiceRegistry/Worker/Ownership.antt =====
-- A worker deletes only what the operator owns, and only what has nothing below it.
use cnwan_operator.Common.{
  String, true, false, none, some, ◌≡◌, ◌≢◌, ◌⊎◌, ◌∙◌, inl, inr, refl, Bool-cases,
}
use cnwan_operator.Common.Result.{ok, Result-cases}
use cnwan_operator.GoMap.{Map}
use cnwan_operator.ServiceRegistry.Events.{delete, Resource, is_owned_by_operator}
use cnwan_operator.ServiceRegistry.Registry.{
  Place, in_namespace, in_service, in_endpoint, IsUnder, Next, found, iterator_done, failed,
  Registry,
}
use cnwan_operator.ServiceRegistry.Worker.{
  NamespaceWorker, delete_owned, delete_childless, delete_owned_childless, handle_delete,
  handle_event,
}

-- The place of an object in the worker's namespace.
abbrev pub IsPlaceOf : NamespaceWorker → Resource → Place → Type 0
IsPlaceOf n (Resource.namespace name) p = p ≡ in_namespace n.namespace
IsPlaceOf n (Resource.service ns name) p = p ≡ in_service n.namespace name
IsPlaceOf n (Resource.endpoint e) p = p ≡ in_endpoint n.namespace e.service e.name
IsPlaceOf n Resource.other p = ⊥

module _ (r : Registry) where
  open r use {
    State, view, get_metadata, next_child, deregister, get-view, done-view, deregister-view_ne,
  }

  -- The one way in which a deletion changes the registry.
  pub record Removal (p : Place) (s after : State) : Type 0 where
    pub metadata : Map String
    pub got : get_metadata p s ≡ ok metadata
    pub owned : is_owned_by_operator metadata ≡ true
    pub childless : (q : Place) → IsUnder p q → view s q ≡ none
    pub is : after ≡ (deregister p s).1

  Next-cases : (x : Next) → (x ≡ iterator_done) ⊎ (x ≢ iterator_done)
  Next-cases found = inr cc
  Next-cases iterator_done = inl refl
  Next-cases (failed e) = inr cc

  delete_childless_ne :
      (n : NamespaceWorker) (p : Place) (x : Next) (s : State)
      → x ≢ iterator_done
      → delete_childless r n p x s ≡ s
  unfolding delete_childless
  delete_childless_ne n p found s h = refl
  delete_childless_ne n p iterator_done s h = absurd (h refl)
  delete_childless_ne n p (failed e) s h = refl

  module _ (n : NamespaceWorker) (p : Place) (s : State) where
    delete_owned-Removal :
        ((q : Place) → ¬ IsUnder p q)
        → (delete_owned r n p (get_metadata p s) s ≡ s)
          ⊎ Removal p s (delete_owned r n p (get_metadata p s) s)
    unfolding delete_owned
    delete_owned-Removal leaf = elim (Result-cases (get_metadata p s)) [
      | inr (e, no_reply) ↦ inl (rw no_reply refl)
      | inl (metadata, got) ↦ elim (Bool-cases (is_owned_by_operator metadata)) [
        | inr foreign ↦ inl (rw (got, foreign) refl)
        | inl owned ↦ inr (record {
          metadata = metadata;
          got = got;
          owned = owned;
          childless = λ q under. absurd (leaf q under);
          is = rw (got, owned) refl;
        })
      ]
    ]

    delete_owned_childless-Removal :
        (delete_owned_childless r n p (get_metadata p s) s ≡ s)
        ⊎ Removal p s (delete_owned_childless r n p (get_metadata p s) s)
    unfolding delete_owned_childless
    delete_owned_childless-Removal = elim (Result-cases (get_metadata p s)) [
      | inr (e, no_reply) ↦ inl (rw no_reply refl)
      | inl (metadata, got) ↦ elim (Bool-cases (is_owned_by_operator metadata)) [
        | inr foreign ↦ inl (rw (got, foreign) refl)
        | inl owned ↦ elim (Next-cases (next_child p s)) [
          | inr not_done ↦
              inl (rw (got, owned, delete_childless_ne n p (next_child p s) s not_done) refl)
          | inl finished ↦ inr (record {
            metadata = metadata;
            got = got;
            owned = owned;
            childless = λ q under. done-view p q s finished under;
            is = rw (got, owned, finished) refl;
          })
        ]
      ]
    ]

  -- Either nothing happens, or the object's own place is removed, if it is owned and has nothing
  -- below it.
  pub handle_delete-Removal :
      (n : NamespaceWorker) (object : Resource) (s : State)
      → (handle_delete r n object s ≡ s)
        ⊎ ((p : Place) × IsPlaceOf n object p × Removal p s (handle_delete r n object s))
  unfolding handle_delete
  handle_delete-Removal n (Resource.namespace name) s =
      elim (delete_owned_childless-Removal n (in_namespace n.namespace) s) [
        | inl same ↦ inl same
        | inr removal ↦ inr (in_namespace n.namespace, refl, removal)
      ]
  handle_delete-Removal n (Resource.service ns name) s =
      elim (delete_owned_childless-Removal n (in_service n.namespace name) s) [
        | inl same ↦ inl same
        | inr removal ↦ inr (in_service n.namespace name, refl, removal)
      ]
  handle_delete-Removal n (Resource.endpoint e) s =
      elim (delete_owned-Removal n (in_endpoint n.namespace e.service e.name) s
        (λ q under. under)) [
          | inl same ↦ inl same
          | inr removal ↦ inr (in_endpoint n.namespace e.service e.name, refl, removal)
        ]
  handle_delete-Removal n Resource.other s = inl refl

  not_removed :
      {p : Place} {s after : State} (q : Place) (m : Map String)
      → Removal p s after
      → view s q ≡ some m
      → ((p ≡ q) → ⊥)
      → view after q ≡ some m
  not_removed {p} {s} q m removal there ne =
      rw removal.is
        (deregister-view_ne p q s ne (λ under. cc (removal.childless q under, there)) ∙ there)

-- What somebody else owns survives every deletion event, with its metadata.
pub handle_delete-keeps_foreign :
    (r : Registry) (n : NamespaceWorker) (object : Resource) (s : Registry.State r) (q : Place)
    (m : Map String)
    → Registry.view r s q ≡ some m
    → is_owned_by_operator m ≡ false
    → Registry.view r (handle_event r n (record { event_type = delete; object = object }) s) q
      ≡ some m
unfolding handle_event
handle_delete-keeps_foreign r n object s q m there foreign =
    elim (handle_delete-Removal r n object s) [
      | inl same ↦ rw same there
      | inr (p, is_place, removal) ↦ not_removed r q m removal there λ e.
          let here : Registry.view r s q ≡ some removal.metadata =
            rw (← e) (Registry.get-view r p s removal.metadata removal.got) in
          let same : m ≡ removal.metadata = cc (there, here) in
          let owned : is_owned_by_operator m ≡ true = rw same removal.owned in cc (foreign, owned)
    ]

-- A namespace or service under which something is registered survives every deletion event, and so
-- does what is registered under it, unless that is itself the object of the event.
pub handle_delete-keeps_parent :
    (r : Registry) (n : NamespaceWorker) (object : Resource) (s : Registry.State r)
    (parent child : Place) (m m' : Map String)
    → IsUnder parent child
    → Registry.view r s parent ≡ some m
    → Registry.view r s child ≡ some m'
    → (Registry.view r (handle_event r n (record { event_type = delete; object = object }) s) parent
        ≡ some m)
      × (¬ IsPlaceOf n object child
          → Registry.view r
              (handle_event r n (record { event_type = delete; object = object }) s)
              child
            ≡ some m')
unfolding handle_event
handle_delete-keeps_parent r n object s parent child m m' under there below =
    elim (handle_delete-Removal r n object s) [
      | inl same ↦ rw same (there, λ _. below)
      | inr (p, is_place, removal) ↦ (
        not_removed r parent m removal there
            (λ e. cc (removal.childless child (rw e under), below)),
        λ other. not_removed r child m' removal below (λ e. other (rw (← e) is_place)),
      )
    ]
