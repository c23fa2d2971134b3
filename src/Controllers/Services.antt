-- ===== src/Controllers/Services.antt =====
-- pkg/controllers/service.go: the handlers of service events. Each returns its actions; what it is
-- told by the cluster, the name service and the map ranges are arguments.
pub mod Belongs
pub mod Hierarchy
pub mod Changes
pub mod Diff
pub mod Updates
pub mod Silence
mod Tests
use cnwan_operator.Common.{
  String, Bool, true, false, not, Option, none, some, List, [], ◌∷◌, ◌++◌, map, ◌&&◌, if◌then◌else◌,
  is_some,
}
use cnwan_operator.Common.Result.{Result, ok, err}
use cnwan_operator.GoMap.{Map, get, has, put}
use cnwan_operator.ServiceRegistry.Events.{
  EventType, create, update, delete, Endpoint, Resource, Event,
}
use cnwan_operator.Controllers.Objects.{Object, KubeService, KubeNamespace}
use cnwan_operator.Controllers.Check.{
  Surroundings, CheckServiceResult, check_service, check_ns_labels, get_endpoints_map_from_slice,
}
use cnwan_operator.Controllers.Handling.{
  ControllerOptions, Action, send, done, send_all, event, endpoint_event,
}

-- `get_namespace` is the client's `Get` of a namespace, which may fail.
pub record ServiceEventHandler : Type 0 where
  pub options : ControllerOptions
  pub open options use *
  pub get_namespace : String → Result KubeNamespace

abbrev watched : Bool → Result KubeNamespace → Bool × Option String
watched by_default (err e) = (false, some e)
watched by_default (ok ns) = (check_ns_labels ns.labels by_default, none)

unfoldable pub check_parent_namespace : ServiceEventHandler → KubeService → Bool × Option String
check_parent_namespace s service =
    watched s.watch_namespaces_by_default (s.get_namespace service.namespace)

-- The namespace, the service, then the endpoints.
unfoldable pub create_all : KubeService → List Endpoint → List Event
create_all service endpoints =
    event create (Resource.namespace service.namespace)
    ∷ event create (Resource.service service.namespace service.name)
    ∷ map (endpoint_event create) endpoints

-- The endpoints, then the service.
unfoldable pub delete_all : KubeService → List Endpoint → List Event
delete_all service endpoints =
    map (endpoint_event delete) endpoints
    ++ event delete (Resource.service service.namespace service.name) ∷ []

create_events : ServiceEventHandler → Surroundings → Object → List Event
create_events s at (Object.service service) =
    if not (check_parent_namespace s service).0
    then []
    else let checked = check_service at service s.service_annotations in
      if not checked.passed then [] else create_all service checked.endpoints
create_events s at _ = []

unfoldable pub handle_create : ServiceEventHandler → Surroundings → Object → List Action
unfolding create_events create_all check_parent_namespace
handle_create s at object = send_all (create_events s at object) ++ done object ∷ []

unfoldable pub handle_delete : ServiceEventHandler → Surroundings → KubeService → List Event
unfolding delete_all check_parent_namespace
handle_delete s at service =
    if not (check_parent_namespace s service).0
    then []
    else delete_all service (check_service at service s.service_annotations).endpoints

-- What an update gets from outside: the surroundings of its two checks, and the orders in which
-- the endpoints in its two maps are visited.
pub record UpdateSurroundings : Type 0 where
  pub at_curr : Surroundings
  pub at_old : Surroundings
  pub old_order : List Endpoint → List Endpoint
  pub curr_order : List Endpoint → List Endpoint

abbrev pub value : String × Endpoint → Endpoint
value e = e.1

abbrev replaced_or_gone : Endpoint → Option Endpoint → Event
replaced_or_gone ep none = endpoint_event delete ep
replaced_or_gone ep (some curr_ep) = endpoint_event update curr_ep

-- `for _, ep := range oldEndpoints`
unfoldable pub old_endpoint_events : Map Endpoint → List Endpoint → List Event
old_endpoint_events curr [] = []
old_endpoint_events curr (ep ∷ eps) =
    replaced_or_gone ep (get ep.name curr) ∷ old_endpoint_events curr eps

-- `for _, ep := range currEndpoints`, with the test that the code makes.
pub new_endpoint_events : Map Endpoint → List Endpoint → List Event
new_endpoint_events curr [] = []
new_endpoint_events curr (ep ∷ eps) =
    let rest = new_endpoint_events curr eps in
    if not (has ep.name curr) then endpoint_event create ep ∷ rest else rest

unfoldable pub changed_events :
    UpdateSurroundings → KubeService → List Endpoint → List Endpoint → List Event
unfolding old_endpoint_events new_endpoint_events
changed_events at curr old_slice curr_slice =
    let old_endpoints = get_endpoints_map_from_slice old_slice in
    let curr_endpoints = get_endpoints_map_from_slice curr_slice in
    event create (Resource.namespace curr.namespace)
    ∷ event create (Resource.service curr.namespace curr.name)
    ∷ (old_endpoint_events curr_endpoints (at.old_order (map value old_endpoints))
        ++ new_endpoint_events curr_endpoints (at.curr_order (map value curr_endpoints)))

-- The `switch` on the two checks, old first, and what follows it.
unfoldable pub switch_events :
    UpdateSurroundings
    → KubeService
    → KubeService
    → CheckServiceResult
    → CheckServiceResult
    → List Event
unfolding changed_events create_all delete_all
switch_events at old curr old_checked curr_checked =
    if not old_checked.passed && not curr_checked.passed
    then []
    else if old_checked.passed && not curr_checked.passed
    then delete_all old old_checked.endpoints
    else if not old_checked.passed && curr_checked.passed
    then create_all curr curr_checked.endpoints
    else changed_events at curr old_checked.endpoints curr_checked.endpoints

unfoldable pub live_events :
    ServiceEventHandler → UpdateSurroundings → KubeService → KubeService → List Event
unfolding check_parent_namespace
live_events s at old curr =
    if not (check_parent_namespace s curr).0
    then []
    else switch_events at old curr (check_service at.at_old old s.service_annotations)
        (check_service at.at_curr curr s.service_annotations)

-- Both objects are services. The second `defer wq.Done` is reached only without a deletion.
unfoldable pub update_services :
    ServiceEventHandler → UpdateSurroundings → KubeService → KubeService → List Action
unfolding live_events handle_delete
update_services s at old curr =
    let object = Object.service curr in
    if is_some curr.deleted_at
    then if is_some old.deleted_at
      then done object ∷ []
      else send_all (handle_delete s at.at_curr curr) ++ done object ∷ []
    else send_all (live_events s at old curr) ++ done object ∷ done object ∷ []

unfoldable pub handle_update :
    ServiceEventHandler → UpdateSurroundings → (object_old object_new : Object) → List Action
unfolding update_services
handle_update s at (Object.service old) (Object.service curr) = update_services s at old curr
handle_update s at _ object_new = done object_new ∷ []

-- A deletion is acted on when it is announced by a timestamp, not when it has happened.
unfoldable pub handle_deleted : Object → List Action
handle_deleted object = done object ∷ []

unfoldable pub handle_generic : Object → List Action
handle_generic object = done object ∷ []
