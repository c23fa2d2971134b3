-- ===== src/Controllers/Handling/Ordered.antt =====
-- In which order events have to reach the service registry: a parent is created before anything is
-- registered under it, and once a parent is to be deleted nothing under it is named again.
use cnwan_operator.Common.{String, List, [], ◌∷◌, ◌++◌, map, ◌≡◌, ◌≢◌, refl, Elem, All, inl, inr}
use cnwan_operator.ServiceRegistry.Events.{
  EventType, create, update, delete, Endpoint, Resource, Event,
}
use cnwan_operator.Controllers.Handling.{event, endpoint_event}

-- The parent of what is registered was created earlier.
abbrev pub HasParent : List Resource → EventType → Resource → Type 0
HasParent seen delete r = Unit
HasParent seen _ (Resource.endpoint e) = Elem (Resource.service e.namespace e.service) seen
HasParent seen _ (Resource.service ns name) = Elem (Resource.namespace ns) seen
HasParent seen _ _ = Unit

abbrev pub after : EventType → Resource → List Resource → List Resource
after create r seen = r ∷ seen
after _ r seen = seen

abbrev pub ParentsFirst : List Resource → List Event → Type 0
ParentsFirst seen [] = Unit
ParentsFirst seen (e ∷ es) =
    HasParent seen e.event_type e.object × ParentsFirst (after e.event_type e.object seen) es

-- A later event does not name what lies under a resource that is to be deleted.
abbrev pub NotUnder : Resource → Resource → Type 0
NotUnder (Resource.service ns name) (Resource.endpoint e) = (e.namespace ≡ ns) → e.service ≢ name
NotUnder (Resource.namespace ns) (Resource.endpoint e) = e.namespace ≢ ns
NotUnder (Resource.namespace ns) (Resource.service ns' name) = ns' ≢ ns
NotUnder _ _ = Unit

abbrev pub Closes : EventType → Resource → List Event → Type 0
Closes delete r later = All (λ e. NotUnder r e.object) later
Closes _ r later = Unit

abbrev pub ChildrenFirst : List Event → Type 0
ChildrenFirst [] = Unit
ChildrenFirst (e ∷ es) = Closes e.event_type e.object es × ChildrenFirst es

-- Both.
pub record IsOrdered (events : List Event) : Type 0 where
  pub parents_first : ParentsFirst [] events
  pub children_first : ChildrenFirst events

pub IsOrdered-nil : IsOrdered []
IsOrdered-nil = record { parents_first = tt; children_first = tt }

-- Endpoints of one service.
abbrev pub BelongsTo : String → String → Endpoint → Type 0
BelongsTo ns name e = (e.namespace ≡ ns) × (e.service ≡ name)

HasParent-endpoint :
    (seen : List Resource) (t : EventType) (e : Endpoint)
    → Elem (Resource.service e.namespace e.service) seen
    → HasParent seen t (Resource.endpoint e)
HasParent-endpoint seen create e m = m
HasParent-endpoint seen update e m = m
HasParent-endpoint seen delete e m = tt

Elem-after :
    (t : EventType) (r s : Resource) (seen : List Resource) → Elem s seen → Elem s (after t r seen)
Elem-after create r s seen m = inr m
Elem-after update r s seen m = m
Elem-after delete r s seen m = m

pub Closes-endpoint :
    (t : EventType) (e : Endpoint) (later : List Event) → Closes t (Resource.endpoint e) later
Closes-endpoint create e later = tt
Closes-endpoint update e later = tt
Closes-endpoint delete e [] = tt
Closes-endpoint delete e (x ∷ later) = (tt, Closes-endpoint delete e later)

module _ (ns name : String) where
  -- The event is about an endpoint of the service.
  abbrev pub IsEndpointEvent : Event → Type 0
  IsEndpointEvent ev = (e : Endpoint) × (ev.object ≡ Resource.endpoint e) × BelongsTo ns name e

  pub ParentsFirst-endpoints :
      (seen : List Resource) (events : List Event)
      → Elem (Resource.service ns name) seen
      → All IsEndpointEvent events
      → ParentsFirst seen events
  ParentsFirst-endpoints seen [] m h = tt
  ParentsFirst-endpoints seen (ev ∷ events) m ((e, is_endpoint, (at_ns, at_name)), h) = (
    rw is_endpoint (HasParent-endpoint seen ev.event_type e (rw (at_ns, at_name) m)),
    ParentsFirst-endpoints (after ev.event_type ev.object seen) events
        (Elem-after ev.event_type ev.object _ seen m) h,
  )

  pub ChildrenFirst-endpoints :
      (events : List Event) → All IsEndpointEvent events → ChildrenFirst events
  ChildrenFirst-endpoints [] h = tt
  ChildrenFirst-endpoints (ev ∷ events) ((e, is_endpoint, belongs), h) =
      (rw is_endpoint (Closes-endpoint ev.event_type e events), ChildrenFirst-endpoints events h)

  -- The namespace and the service are created, then come endpoints of the service.
  pub IsOrdered-create :
      (events : List Event)
      → All IsEndpointEvent events
      → IsOrdered
          (event create (Resource.namespace ns) ∷ event create (Resource.service ns name) ∷ events)
  IsOrdered-create events h = record {
    parents_first = (tt, (inl refl, ParentsFirst-endpoints _ events (inl refl) h));
    children_first = (tt, (tt, ChildrenFirst-endpoints events h));
  }

  pub All-IsEndpointEvent :
      (t : EventType) (eps : List Endpoint)
      → All (BelongsTo ns name) eps
      → All IsEndpointEvent (map (endpoint_event t) eps)
  All-IsEndpointEvent t [] h = tt
  All-IsEndpointEvent t (e ∷ eps) (b, h) = ((e, refl, b), All-IsEndpointEvent t eps h)

  ChildrenFirst-delete :
      (eps : List Endpoint)
      → ChildrenFirst
          (map (endpoint_event delete) eps ++ event delete (Resource.service ns name) ∷ [])
  ChildrenFirst-delete [] = (tt, tt)
  ChildrenFirst-delete (e ∷ eps) = (Closes-endpoint delete e _, ChildrenFirst-delete eps)

  ParentsFirst-delete :
      (eps : List Endpoint) (seen : List Resource)
      → ParentsFirst seen
          (map (endpoint_event delete) eps ++ event delete (Resource.service ns name) ∷ [])
  ParentsFirst-delete [] seen = (tt, tt)
  ParentsFirst-delete (e ∷ eps) seen = (tt, ParentsFirst-delete eps seen)

  -- The endpoints are deleted, then the service.
  pub IsOrdered-delete :
      (eps : List Endpoint)
      → IsOrdered (map (endpoint_event delete) eps ++ event delete (Resource.service ns name) ∷ [])
  IsOrdered-delete eps = record {
    parents_first = ParentsFirst-delete eps [];
    children_first = ChildrenFirst-delete eps;
  }
