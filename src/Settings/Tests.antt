-- ===== src/Settings/Tests.antt =====
-- Tests of the parsing of settings.
use cnwan_operator.Common.{
  map, ℕ, String, true, Option, none, some, List, [], ◌∷◌, ◌≡◌, ◌≢◌, ◌↔◌, refl, Elem,
}
use cnwan_operator.Common.Outcome.{returns, panics}
use cnwan_operator.Common.Result.{ok}
use cnwan_operator.GoMap.{get, put}
use cnwan_operator.Settings.{
  EtcdEndpoint, ServiceRegistrySettings, Settings, CloudMetadata, dereferenced, parse_endpoints,
  parse_etcd_settings, parse_cloud_metadata, registries, parse_registry,
  parse_and_validate_settings,
}
use cnwan_operator.Settings.Endpoints.{explicit, Elem-parse_endpoints}
use cnwan_operator.Settings.Validity.{Accepted, IsValidRegistry, parse_and_validate_settings-IsOk}
use cnwan_operator.Settings.Again.{parse_and_validate_settings-again}

abbrev endpoint : String → Option ℕ → EtcdEndpoint
endpoint host port = record { host = host; port = port }

abbrev given : List EtcdEndpoint
given =
    endpoint "a" none
    ∷ endpoint "" (some 80)
    ∷ endpoint "a" (some 2379)
    ∷ endpoint "b" (some 80)
    ∷ []

abbrev parsed : List EtcdEndpoint
parsed = endpoint "a" (some 2379) ∷ endpoint "b" (some 80) ∷ []

test_endpoints : parse_endpoints [] given ≡ parsed
unfolding parse_endpoints get put
test_endpoints = refl

-- Only the last port of a host is remembered, so a repetition further on stays.
test_repeated :
    parse_endpoints [] (endpoint "a" (some 1) ∷ endpoint "a" (some 2) ∷ endpoint "a" (some 1) ∷ [])
    ≡ endpoint "a" (some 1) ∷ endpoint "a" (some 2) ∷ endpoint "a" (some 1) ∷ []
unfolding parse_endpoints get put
test_repeated = refl

abbrev etcd : List (Option EtcdEndpoint) → ServiceRegistrySettings
etcd endpoints = record {
  service_directory_settings = none;
  etcd_settings = some (record { authentication = ""; prefix = none; endpoints = endpoints });
  cloud_map_settings = none;
}

abbrev with_etcd : List (Option EtcdEndpoint) → Option CloudMetadata → Settings
with_etcd endpoints cloud_metadata = record {
  watch_namespaces_by_default = true;
  annotations = "*/*" ∷ [];
  service_registry_settings = some (etcd endpoints);
  cloud_metadata = cloud_metadata;
}

abbrev given_cloud : Option CloudMetadata
given_cloud = some (record { network = some "auto"; sub_network = some "" })

abbrev parsed_cloud : Option CloudMetadata
parsed_cloud = some (record { network = some "auto"; sub_network = none })

test_settings :
    parse_and_validate_settings (some (with_etcd (map some given) given_cloud))
    ≡ returns (ok (with_etcd (map some parsed) parsed_cloud))
unfolding parse_and_validate_settings parse_registry registries parse_etcd_settings dereferenced
    parse_cloud_metadata parse_endpoints get put
test_settings = refl

-- A null among the endpoints.
test_nil :
    parse_and_validate_settings (some (with_etcd (none ∷ map some given) given_cloud)) ≡ panics
unfolding parse_and_validate_settings parse_registry registries parse_etcd_settings dereferenced
    parse_cloud_metadata
test_nil = refl

Elem-parse_endpoints_example : Elem (endpoint "a" (some 2379)) (parse_endpoints [] given) ↔ (
    (endp : EtcdEndpoint) × Elem endp given
    × (endp.host ≢ "")
    × (endpoint "a" (some 2379) ≡ explicit endp))
Elem-parse_endpoints_example = Elem-parse_endpoints given (endpoint "a" (some 2379))

parse_and_validate_settings-IsOk_example :
    Accepted (parse_and_validate_settings (some (with_etcd (map some given) given_cloud))) ↔ (
      (r : ServiceRegistrySettings) × (some (etcd (map some given)) ≡ some r)
      × IsValidRegistry r.service_directory_settings r.etcd_settings r.cloud_map_settings)
parse_and_validate_settings-IsOk_example =
    parse_and_validate_settings-IsOk (with_etcd (map some given) given_cloud)

parse_and_validate_settings-again_example :
    parse_and_validate_settings (some (with_etcd (map some parsed) parsed_cloud))
    ≡ returns (ok (with_etcd (map some parsed) parsed_cloud))
parse_and_validate_settings-again_example =
    parse_and_validate_settings-again (with_etcd (map some given) given_cloud)
      (with_etcd (map some parsed) parsed_cloud) (etcd (map some parsed)) test_settings refl refl
