-- ===== src/Settings.antt =====
-- internal/types/settings.go and internal/utils/utils.go: the settings of the operator, and how they
-- are parsed and validated. Numbers of ports are not negative. An element of the endpoints may be a nil
-- pointer, which YAML makes of a null; to follow it is a panic.
pub mod Endpoints
pub mod Validity
pub mod Again
pub mod Parsed
pub mod Nil
mod Tests
use cnwan_operator.Common.{
  map, ℕ, zero, suc, ◌+◌, String, Bool, true, false, not, Option, none, some, List, [], ◌∷◌, ◌==◌,
  ◌&&◌, ◌||◌, if◌then◌else◌, is_empty, is_some, nat_eq, ltb,
}
use cnwan_operator.Common.Outcome.{Outcome, returns, panics, after}
use cnwan_operator.Common.Result.{Result, ok, err}
use cnwan_operator.GoMap.{Map, get, put}

pub record ServiceDirectorySettings : Type 0 where
  pub default_region : String
  pub project_id : String

pub record EtcdEndpoint : Type 0 where
  pub host : String
  pub port : Option ℕ

pub record EtcdSettings : Type 0 where
  pub authentication : String
  pub prefix : Option String
  pub endpoints : List (Option EtcdEndpoint)

pub record CloudMapSettings : Type 0 where
  pub default_region : String

pub record CloudMetadata : Type 0 where
  pub network : Option String
  pub sub_network : Option String

-- The pointers that the Go structs embed.
pub record ServiceRegistrySettings : Type 0 where
  pub service_directory_settings : Option ServiceDirectorySettings
  pub etcd_settings : Option EtcdSettings
  pub cloud_map_settings : Option CloudMapSettings

pub record Settings : Type 0 where
  pub watch_namespaces_by_default : Bool
  pub annotations : List String
  pub service_registry_settings : Option ServiceRegistrySettings
  pub cloud_metadata : Option CloudMetadata

abbrev pub etcd_auth_with_nothing : String
etcd_auth_with_nothing = ""

abbrev pub etcd_auth_with_username_passw : String
etcd_auth_with_username_passw = "WithUsernameAndPassword"

abbrev pub etcd_auth_with_tls : String
etcd_auth_with_tls = "WithTLS"

-- `port := 2379`, unless the endpoint has its own.
abbrev pub or_default : Option ℕ → ℕ
or_default none = 2379
or_default (some port) = port

abbrev pub is_dup : Option ℕ → ℕ → Bool
is_dup none port = false
is_dup (some val) port = nat_eq val port

abbrev with_first : EtcdEndpoint → Outcome (List EtcdEndpoint) → Outcome (List EtcdEndpoint)
with_first endp panics = panics
with_first endp (returns endpoints) = returns (endp ∷ endpoints)

-- The loop over the endpoints follows the pointer to each of them, and nothing ends it early: it panics if
-- one of them is nil.
unfoldable pub dereferenced : List (Option EtcdEndpoint) → Outcome (List EtcdEndpoint)
dereferenced [] = returns []
dereferenced (none ∷ endpoints) = panics
dereferenced (some endp ∷ endpoints) = with_first endp (dereferenced endpoints)

-- What the loop makes of endpoints that are not nil, with `dups`.
unfoldable pub parse_endpoints : Map ℕ → List EtcdEndpoint → List EtcdEndpoint
parse_endpoints dups [] = []
parse_endpoints dups (endp ∷ endpoints) =
    let port = or_default endp.port in
    let skipped = parse_endpoints dups endpoints in
    let rest = parse_endpoints (put endp.host port dups) endpoints in
    if endp.host == ""
    then skipped
    else if is_dup (get endp.host dups) port
    then skipped
    else record { host = endp.host; port = some port } ∷ rest

abbrev pub with_endpoints : EtcdSettings → List EtcdEndpoint → EtcdSettings
with_endpoints settings endpoints = record settings { endpoints = map some endpoints }

abbrev parsed_with : EtcdSettings → Outcome (List EtcdEndpoint) → Outcome (Result EtcdSettings)
parsed_with settings panics = panics
parsed_with settings (returns endpoints) =
    returns (ok (with_endpoints settings (parse_endpoints [] endpoints)))

unfoldable pub parse_etcd_settings : EtcdSettings → Outcome (Result EtcdSettings)
unfolding dereferenced parse_endpoints
parse_etcd_settings settings =
    if is_empty settings.endpoints
    then returns (err "no etcd endpoints provided")
    else if not (settings.authentication == etcd_auth_with_nothing)
        && not (settings.authentication == etcd_auth_with_username_passw)
        && not (settings.authentication == etcd_auth_with_tls)
    then returns (err "unrecognized authentication method for etcd")
    else if settings.authentication == etcd_auth_with_tls
    then returns (err "etcd authentication with TLS is not supported yet")
    else parsed_with settings (dereferenced settings.endpoints)

-- `*p != ""` of a pointer that is not nil.
abbrev pub non_empty : Option String → Option String
non_empty none = none
non_empty (some s) = if s == "" then none else some s

unfoldable pub parse_cloud_metadata : Option CloudMetadata → Option CloudMetadata
parse_cloud_metadata none = none
parse_cloud_metadata (some cl_cfg) =
    let final_cfg : CloudMetadata = record {
      network = non_empty cl_cfg.network;
      sub_network = non_empty cl_cfg.sub_network;
    } in
    if is_some (non_empty cl_cfg.network) || is_some (non_empty cl_cfg.sub_network)
    then some final_cfg
    else none

abbrev count : Bool → ℕ
count true = 1
count false = 0

-- `srs`
unfoldable pub registries : ServiceRegistrySettings → ℕ
registries r =
    count (is_some r.etcd_settings)
    + (count (is_some r.service_directory_settings) + count (is_some r.cloud_map_settings))

-- The last part, once there is exactly one registry: etcd's settings are parsed, the others kept.
abbrev etcd_only : EtcdSettings → ServiceRegistrySettings
etcd_only parsed = record {
  service_directory_settings = none;
  etcd_settings = some parsed;
  cloud_map_settings = none;
}

pub parse_one :
    ServiceRegistrySettings → Option EtcdSettings → Outcome (Result ServiceRegistrySettings)
unfolding parse_etcd_settings
parse_one r (some etcd) = after (parse_etcd_settings etcd) etcd_only
parse_one r none = returns (
    ok (record {
      service_directory_settings = r.service_directory_settings;
      etcd_settings = none;
      cloud_map_settings = r.cloud_map_settings;
    }))

unfoldable pub parse_registry :
    Option ServiceRegistrySettings → Outcome (Result ServiceRegistrySettings)
unfolding registries parse_one
parse_registry none = returns (err "no service registry provided")
parse_registry (some r) =
    if nat_eq (registries r) 0
    then returns (err "no service registry provided")
    else if ltb 1 (registries r)
    then returns (err "UNSUPPORTED: multiple service registries have been provided")
    else parse_one r r.etcd_settings

abbrev with_registry : Settings → ServiceRegistrySettings → Settings
with_registry settings registry = record {
  watch_namespaces_by_default = settings.watch_namespaces_by_default;
  annotations = settings.annotations;
  service_registry_settings = some registry;
  cloud_metadata = parse_cloud_metadata settings.cloud_metadata;
}

unfoldable pub parse_and_validate_settings : Option Settings → Outcome (Result Settings)
unfolding parse_registry parse_cloud_metadata
parse_and_validate_settings none = returns (err "no settings provided")
parse_and_validate_settings (some settings) =
    after (parse_registry settings.service_registry_settings) (with_registry settings)
