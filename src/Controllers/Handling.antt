-- ===== src/Controllers/Handling.antt =====
-- What both event handlers share: the options of pkg/controllers/namespace.go and the actions of a
-- handler. A handler sends events on `EventsChan`, in order, and tells the work queue that it is
-- done with an object, which `defer` does last. Logging is not modelled.
pub mod Traces
pub mod Ordered
use cnwan_operator.Common.{ℕ, zero, suc, ◌+◌, Bool, String, List, [], ◌∷◌, map, ◌++◌}
use cnwan_operator.ServiceRegistry.Events.{Event, EventType, Resource, Endpoint}
use cnwan_operator.Controllers.Objects.{Object}

pub record ControllerOptions : Type 0 where
  pub watch_namespaces_by_default : Bool
  pub service_annotations : List String

pub data Action : Type 0 where
  send : Event → Action
  done : Object → Action

-- Events are sent one by one.
abbrev pub send_all : List Event → List Action
send_all events = map send events

abbrev pub event : EventType → Resource → Event
event t r = record { event_type = t; object = r }

abbrev pub endpoint_event : EventType → Endpoint → Event
endpoint_event t e = event t (Resource.endpoint e)

-- What was sent, and how often the queue was told.
unfoldable pub sent : List Action → List Event
sent [] = []
sent (send e ∷ actions) = e ∷ sent actions
sent (done o ∷ actions) = sent actions

unfoldable pub times_done : List Action → ℕ
times_done [] = 0
times_done (send e ∷ actions) = times_done actions
times_done (done o ∷ actions) = suc (times_done actions)
