-- ===== src/Controllers/Samples.antt =====
-- Objects for the tests of the controllers.
use cnwan_operator.Common.{ℕ, zero, String, true, none, List, [], ◌∷◌}
use cnwan_operator.Common.Result.{ok, err}
use cnwan_operator.Common.Orders.{Rearranges, Permᴰ_refl}
use cnwan_operator.GoMap.{Map}
use cnwan_operator.ServiceRegistry.Events.{Endpoint}
use cnwan_operator.Controllers.Objects.{Ingress, KubeService, KubeNamespace}
use cnwan_operator.Controllers.Addresses.{Resolver}
use cnwan_operator.Controllers.Check.{Surroundings}
use cnwan_operator.Controllers.Handling.{ControllerOptions}
use cnwan_operator.Controllers.Services.{ServiceEventHandler, UpdateSurroundings}
use cnwan_operator.Controllers.Namespaces.{NamespaceEventHandler}

abbrev pub same_order : {A : Type 0} → List A → List A
same_order xs = xs

pub same_order-Rearranges : {A : Type 0} → Rearranges {A = A} same_order
same_order-Rearranges xs = Permᴰ_refl xs

abbrev pub first_ip : String
first_ip = "a"

abbrev pub second_ip : String
second_ip = "b"

abbrev pub http : ℕ
http = 80

abbrev pub https : ℕ
https = 443

-- The first look-up of every host fails, the others give one address.
abbrev pub second_answers : Resolver
second_answers zero host = err "timeout"
second_answers _ host = ok ("b" ∷ [])

abbrev pub never_answers : Resolver
never_answers n host = err "no such host"

abbrev pub surroundings : Surroundings
surroundings = record { lookup_host = second_answers; order = same_order; sha256_hex = λ s. s }

abbrev pub surroundings_at : ℕ → Surroundings
surroundings_at n = surroundings

abbrev pub update_surroundings : UpdateSurroundings
update_surroundings = record {
  at_curr = surroundings;
  at_old = surroundings;
  old_order = same_order;
  curr_order = same_order;
}

abbrev pub balancer : Ingress
balancer = record { ip = "a"; hostname = "lb.example" }

abbrev pub profile : Map String
profile = ("cnwan.io/profile", "video") ∷ ("team", "red") ∷ []

abbrev pub allowed : List String
allowed = "cnwan.io/*" ∷ []

abbrev pub web : List ℕ → KubeService
web ports = record {
  namespace = "shop";
  name = "web";
  kind = "LoadBalancer";
  annotations = profile;
  external_ips = "a" ∷ [];
  ingress = balancer ∷ [];
  ports = ports;
  deleted_at = none;
}

abbrev pub kept_profile : Map String
kept_profile = ("cnwan.io/profile", "video") ∷ []

abbrev pub web_endpoint : ℕ → String → String → Endpoint
web_endpoint port address name = record {
  namespace = "shop";
  service = "web";
  name = name;
  address = address;
  port = port;
  metadata = kept_profile;
}

abbrev pub options : ControllerOptions
options = record { watch_namespaces_by_default = true; service_annotations = allowed }

abbrev pub shop : String → KubeNamespace
shop label = record { name = "shop"; labels = ("operator.cnwan.io/watch", label) ∷ [] }

abbrev pub handler : String → ServiceEventHandler
handler label = record { options = options; get_namespace = λ name. ok (shop label) }

abbrev pub namespace_handler : NamespaceEventHandler
namespace_handler = record { options = options; list_services = λ name. ok (web (80 ∷ []) ∷ []) }
