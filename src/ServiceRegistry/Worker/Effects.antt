-- ===== src/ServiceRegistry/Worker/Effects.antt =====
-- What a worker's calls bring about when the service registry answers.
use cnwan_operator.Common.{String, true, none, some, List, [], ◌∷◌, ◌++◌, ◌≡◌, ◌≢◌, refl}
use cnwan_operator.Common.Result.{ok}
use cnwan_operator.GoMap.{Map, get}
use cnwan_operator.ServiceRegistry.Events.{
  create, update, delete, Resource, Event, is_owned_by_operator, get-is_owned_by_operator,
}
use cnwan_operator.ServiceRegistry.Registry.{
  Place, RegisterOption, with_metadata, with_address, with_port, iterator_done, Registry,
}
use cnwan_operator.ServiceRegistry.Worker.{
  NamespaceWorker, delete_owned, delete_childless, delete_owned_childless, handle_create_update,
  handle_delete, handle_event, by_type,
}
use cnwan_operator.ServiceRegistry.Worker.Ownership.{IsPlaceOf}

module _ (r : Registry) (n : NamespaceWorker) where
  open r use {
    State, view, register, get_metadata, next_child, deregister, register-view, deregister-view,
  }

  -- The options with which an object is registered, but for the last.
  abbrev pub first_options : Resource → List RegisterOption
  first_options (Resource.endpoint e) =
      with_address e.address ∷ with_port e.port ∷ with_metadata e.metadata ∷ []
  first_options _ = []

  create_update_lem :
      (object : Resource) (p : Place) (s : State)
      → IsPlaceOf n object p
      → handle_create_update r n object s
        ≡ (register p (first_options object ++ with_metadata n.persistent_meta ∷ []) s).1
  unfolding handle_create_update
  create_update_lem (Resource.namespace name) p s e = rw e refl
  create_update_lem (Resource.service ns name) p s e = rw e refl
  create_update_lem (Resource.endpoint x) p s e = rw e refl
  create_update_lem Resource.other p s e = absurd e

  -- The listing that the deletion of a parent wants is empty.
  abbrev pub HasNoChild : Resource → Place → State → Type 0
  HasNoChild (Resource.endpoint e) p s = Unit
  HasNoChild _ p s = next_child p s ≡ iterator_done

  delete_lem :
      (object : Resource) (p : Place) (s : State) (m : Map String)
      → IsPlaceOf n object p
      → get_metadata p s ≡ ok m
      → is_owned_by_operator m ≡ true
      → HasNoChild object p s
      → handle_delete r n object s ≡ (deregister p s).1
  unfolding handle_delete delete_owned delete_owned_childless delete_childless
  delete_lem (Resource.namespace name) p s m e got owned alone =
      rw (← e) (rw (got, owned, alone) refl)
  delete_lem (Resource.service ns name) p s m e got owned alone =
      rw (← e) (rw (got, owned, alone) refl)
  delete_lem (Resource.endpoint x) p s m e got owned alone = rw (← e) (rw (got, owned) refl)
  delete_lem Resource.other p s m e got owned alone = absurd e

-- If the metadata that the operator gives to everything names it as the owner, a successful
-- registration leaves the object at its own place, with all of that metadata, so that it counts
-- as owned by the operator.
pub handle_event-registers :
    (r : Registry) (n : NamespaceWorker) (event : Event) (s : Registry.State r) (p : Place)
    → event.event_type ≢ delete
    → IsPlaceOf n event.object p
    → get "owner" n.persistent_meta ≡ some "cnwan-operator"
    → (Registry.register r p
        (first_options r n event.object ++ with_metadata n.persistent_meta ∷ [])
        s).0
      ≡ none
    → (m : Map String) × (Registry.view r (handle_event r n event s) p ≡ some m)
      × (is_owned_by_operator m ≡ true)
      × ((k v : String) → get k n.persistent_meta ≡ some v → get k m ≡ some v)
unfolding handle_event
handle_event-registers r n event s p registers is_place owner done =
    let (m, there, all) =
      Registry.register-view r p (first_options r n event.object) n.persistent_meta s done in
    let owned = get-is_owned_by_operator m (all "owner" "cnwan-operator" owner) in
    let step = create_update_lem r n event.object p s is_place in
    elim event.event_type
        as (λ t.
          event.event_type ≡ t
          → (m : Map String) × (Registry.view r (by_type r n t event.object s) p ≡ some m)
            × (is_owned_by_operator m ≡ true)
            × ((k v : String) → get k n.persistent_meta ≡ some v → get k m ≡ some v)) [
              | create ↦ λ _. (m, rw step there, owned, all)
              | update ↦ λ _. (m, rw step there, owned, all)
              | delete ↦ λ e. absurd (registers e)
            ]
      refl

-- A deletion that meets no obstacle removes the object.
pub handle_event-delete-gone :
    (r : Registry) (n : NamespaceWorker) (object : Resource) (s : Registry.State r) (p : Place)
    (m : Map String)
    → IsPlaceOf n object p
    → Registry.get_metadata r p s ≡ ok m
    → is_owned_by_operator m ≡ true
    → HasNoChild r n object p s
    → (Registry.deregister r p s).0 ≡ none
    → Registry.view r (handle_event r n (record { event_type = delete; object = object }) s) p
      ≡ none
unfolding handle_event
handle_event-delete-gone r n object s p m is_place got owned alone gone =
    rw (delete_lem r n object p s m is_place got owned alone) (Registry.deregister-view r p s gone)

-- What the operator has registered, with metadata that names it as the owner, it can remove
-- again: after a successful registration the event that deletes the object leaves nothing at its
-- place, if the registry can be read, lists nothing below a namespace or service, and does not
-- refuse to deregister.
pub delete-create :
    (r : Registry) (n : NamespaceWorker) (object : Resource) (s : Registry.State r) (p : Place)
    (m : Map String)
    → IsPlaceOf n object p
    → get "owner" n.persistent_meta ≡ some "cnwan-operator"
    → (Registry.register r p (first_options r n object ++ with_metadata n.persistent_meta ∷ []) s).0
      ≡ none
    → Registry.get_metadata r p
        (handle_event r n (record { event_type = create; object = object }) s)
      ≡ ok m
    → HasNoChild r n object p (handle_event r n (record { event_type = create; object = object }) s)
    → (Registry.deregister r p
        (handle_event r n (record { event_type = create; object = object }) s)).0
      ≡ none
    → Registry.view r
        (handle_event r n
          (record { event_type = delete; object = object })
          (handle_event r n (record { event_type = create; object = object }) s))
        p
      ≡ none
delete-create r n object s p m is_place owner done got alone gone =
    let created = handle_event r n (record { event_type = create; object = object }) s in
    let (m', there, owned', _) =
      handle_event-registers r n (record { event_type = create; object = object }) s p (λ e. cc e)
        is_place owner done in
    let same : m ≡ m' = cc (there, Registry.get-view r p created m got) in
    let owned : is_owned_by_operator m ≡ true = rw same owned' in
    handle_event-delete-gone r n object created p m is_place got owned alone gone
