-- ===== src/Controllers/Check.antt =====
-- pkg/controllers/utils.go: `checkNsLabels`, `checkService` and `getEndpointsMapFromSlice`.
pub mod Passed
pub mod Endpoints
pub mod Names
pub mod Labels
mod Tests
use Prim.Native.String
use cnwan_operator.Common.{
  ℕ, String, Bool, true, false, not, Option, none, some, List, [], ◌∷◌, ◌++◌, if◌then◌else◌, ◌==◌,
  is_empty,
}
use cnwan_operator.Common.Result.{Result, ok, err}
use cnwan_operator.Common.Text.{decimal, first_chars}
use cnwan_operator.GoMap.{Map, get, put, or_empty}
use cnwan_operator.ServiceRegistry.Events.{Endpoint}
use cnwan_operator.Controllers.Objects.{KubeService}
use cnwan_operator.Controllers.Annotations.{filter_annotations}
use cnwan_operator.Controllers.Addresses.{Resolver, get_ips_from_service}

-- `switch labels[watchLabel]`
unfoldable pub check_ns_labels : Map String → Bool → Bool
check_ns_labels labels watch_all_by_default =
    let label = or_empty (get "operator.cnwan.io/watch" labels) in
    if label == "enabled" then true else if label == "disabled" then false else watch_all_by_default

-- What one check gets from outside: the name service, the order of `range ipsMap`, and SHA-256 in
-- hexadecimal digits (Go's crypto/sha256 and encoding/hex).
pub record Surroundings : Type 0 where
  pub lookup_host : Resolver
  pub order : List String → List String
  pub sha256_hex : String → String

pub record CheckServiceResult : Type 0 where
  pub passed : Bool
  pub reason : String
  pub error : Option String
  pub annotations : Map String
  pub ips : List String
  pub endpoints : List Endpoint

abbrev rejected : String → Option String → CheckServiceResult
rejected reason error = record {
  passed = false;
  reason = reason;
  error = error;
  annotations = [];
  ips = [];
  endpoints = [];
}

-- `fmt.Sprintf("%s:%d", ip, port.Port)`
unfoldable pub to_be_hashed : String → ℕ → String
to_be_hashed ip port = String.◌++◌ ip (String.◌++◌ ":" (decimal port))

unfoldable pub make_endpoint : (String → String) → KubeService → Map String → ℕ → String → Endpoint
make_endpoint sha256_hex service annotations port ip = record {
  namespace = service.namespace;
  service = service.name;
  name =
      String.◌++◌ service.name
        (String.◌++◌ "-" (first_chars 10 (sha256_hex (to_be_hashed ip port))));
  address = ip;
  port = port;
  metadata = annotations;
}

-- The inner loop, over the addresses, and the outer one, over the ports.
add_ips : (String → Endpoint) → List String → List Endpoint → List Endpoint
add_ips make [] endpoints = endpoints
add_ips make (ip ∷ ips) endpoints = add_ips make ips (endpoints ++ make ip ∷ [])

add_ports : (ℕ → String → Endpoint) → List String → List ℕ → List Endpoint → List Endpoint
unfolding add_ips
add_ports make ips [] endpoints = endpoints
add_ports make ips (port ∷ ports) endpoints =
    add_ports make ips ports (add_ips (make port) ips endpoints)

check_ips : (String → String) → KubeService → Map String → Result (List String) → CheckServiceResult
unfolding add_ports
check_ips sha256_hex service annotations (err e) = rejected "no valid hostnames/ips found" (some e)
check_ips sha256_hex service annotations (ok []) = rejected "no valid hostnames/ips found" none
check_ips sha256_hex service annotations (ok (ip ∷ ips)) = record {
  passed = true;
  reason = "";
  error = none;
  annotations = annotations;
  ips = ip ∷ ips;
  endpoints = add_ports (make_endpoint sha256_hex service annotations) (ip ∷ ips) service.ports [];
}

unfoldable pub check_service : Surroundings → KubeService → List String → CheckServiceResult
unfolding check_ips
check_service s service annotations_to_keep =
    if not (service.kind == "LoadBalancer")
    then rejected "not a LoadBalancer" none
    else let annotations = filter_annotations service.annotations annotations_to_keep in
      if is_empty annotations
      then rejected "no valid annotations" none
      else check_ips s.sha256_hex service annotations
          (get_ips_from_service s.lookup_host s.order service 10)

unfoldable pub from_slice : List Endpoint → Map Endpoint → Map Endpoint
from_slice [] ep_map = ep_map
from_slice (ep ∷ eps) ep_map = from_slice eps (put ep.name ep ep_map)

unfoldable pub get_endpoints_map_from_slice : List Endpoint → Map Endpoint
unfolding from_slice
get_endpoints_map_from_slice endpoints = from_slice endpoints []
