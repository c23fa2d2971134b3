-- ===== src/Startup/Tests.antt =====
-- Tests of the start of the operator, on EKS and on GKE.
use cnwan_operator.Common.{String, none, some, List, [], ◌∷◌, map, ◌⊎◌, ◌≡◌, ◌↔◌, refl}
use cnwan_operator.Common.Result.{Result, ok, err}
use cnwan_operator.Common.Text.{to_lower, decimal, cut_last}
use cnwan_operator.GoMap.{Map, get, put, or_empty}
use cnwan_operator.Settings.{
  EtcdEndpoint, EtcdSettings, CloudMetadata, ServiceDirectorySettings, dereferenced,
  parse_endpoints, parse_etcd_settings,
}
use cnwan_operator.Cluster.{
  ClusterManager, gke_cluster, eks_cluster, unknown_cluster, Surroundings,
  get_google_service_account_secret, get_network_from_gke, get_gcp_region,
}
use cnwan_operator.Common.Outcome.{returns, panics}
use cnwan_operator.Startup.{
  replace_auto, get_network_cfg, put_network, persistent_meta, parse_and_reset_gsd_settings,
  etcd_addresses,
}
use cnwan_operator.Settings.{etcd_auth_with_nothing, etcd_auth_with_username_passw}
use cnwan_operator.Cluster.{get_etcd_credentials_secret}
use cnwan_operator.Startup.Clients.{EtcdConfig, get_etcd_client, get_etcd_client-parsed}
use cnwan_operator.Startup.Endpoints.{address_of}
use cnwan_operator.Startup.ServiceDirectory.{Settles, parse_and_reset_gsd_settings-Settles}

abbrev running : ClusterManager → Surroundings
running platform = record {
  running_in = platform;
  secret = λ name. ok (("key.json", "secret") ∷ []);
  config_map = λ name. ok [];
  zone = ok "us-west1-a";
  project_id = ok "project";
  cluster_name = ok "cluster";
  get_cluster = λ credentials project_id zone cluster_name.
      ok (record { network_name = "vpc"; sub_network_name = "subnet" });
}

abbrev cloud : CloudMetadata
cloud = record { network = some "Auto"; sub_network = some "mine" }

abbrev found_meta : Map String
found_meta =
    ("owner", "cnwan-operator")
    ∷ ("cnwan.io/platform", "GKE")
    ∷ ("cnwan.io/network", "vpc")
    ∷ ("cnwan.io/sub-network", "mine")
    ∷ []

test_meta : persistent_meta (running gke_cluster) (some cloud) ≡ returns found_meta
unfolding persistent_meta get_network_cfg put_network replace_auto to_lower
    get_google_service_account_secret get_network_from_gke put
test_meta = refl

test_panics : persistent_meta (running eks_cluster) (some cloud) ≡ panics
unfolding persistent_meta get_network_cfg to_lower
test_panics = refl

-- A sub-network without a network is left out, since the network's name is tested for both.
test_sub_network_only :
    persistent_meta
      (running unknown_cluster)
      (some (record { network = none; sub_network = some "mine" }))
    ≡ returns (("owner", "cnwan-operator") ∷ [])
unfolding persistent_meta get_network_cfg put_network to_lower
test_sub_network_only = refl

abbrev settings : String → List EtcdEndpoint → EtcdSettings
settings authentication endpoints = record {
  authentication = authentication;
  prefix = none;
  endpoints = map some endpoints;
}

abbrev endpoints : List EtcdEndpoint
endpoints = record { host = "etcd"; port = none } ∷ []

abbrev parsed : List EtcdEndpoint
parsed = record { host = "etcd"; port = some 2379 } ∷ []

test_parsed :
    parse_etcd_settings (settings etcd_auth_with_username_passw endpoints)
    ≡ returns (ok (settings etcd_auth_with_username_passw parsed))
unfolding parse_etcd_settings dereferenced parse_endpoints get
test_parsed = refl

test_not_parsed : etcd_addresses (map some endpoints) ≡ panics
unfolding etcd_addresses
test_not_parsed = refl

test_nil : etcd_addresses (none ∷ []) ≡ panics
unfolding etcd_addresses
test_nil = refl

test_addresses : etcd_addresses (map some parsed) ≡ returns ("etcd:2379" ∷ [])
unfolding etcd_addresses decimal
test_addresses = refl

-- A cluster with the credentials of etcd.
abbrev credentials : Map String
credentials = ("password", "secret") ∷ ("username", "admin") ∷ []

abbrev with_login : Surroundings
with_login = record (running gke_cluster) { secret = λ name. ok credentials }

abbrev asks : EtcdConfig → Result EtcdConfig
asks config = ok config

test_login :
    get_etcd_client asks with_login (settings etcd_auth_with_username_passw parsed)
    ≡ returns
        (ok (record { endpoints = "etcd:2379" ∷ []; username = "admin"; password = "secret" }))
unfolding get_etcd_client get_etcd_credentials_secret etcd_addresses decimal get
test_login = refl

get_etcd_client-parsed_example :
    (eps : List EtcdEndpoint) × (map some parsed ≡ map some eps)
    × (((etcd_auth_with_username_passw ≡ etcd_auth_with_nothing)
          × (get_etcd_client asks with_login (settings etcd_auth_with_username_passw parsed)
              ≡ returns
                  (asks (record { endpoints = map address_of eps; username = ""; password = "" }))))
        ⊎ ((etcd_auth_with_username_passw ≡ etcd_auth_with_username_passw)
            × (data_of : Map String) × (ok credentials ≡ ok data_of)
            × (get_etcd_client asks with_login (settings etcd_auth_with_username_passw parsed)
                ≡ returns (
                    asks (record {
                      endpoints = map address_of eps;
                      username = or_empty (get "username" data_of);
                      password = or_empty (get "password" data_of);
                    }))))
        ⊎ ((etcd_auth_with_username_passw ≡ etcd_auth_with_username_passw)
            × (e : String) × (ok credentials ≡ err e)
            × (get_etcd_client asks with_login (settings etcd_auth_with_username_passw parsed)
                ≡ returns (err e))))
get_etcd_client-parsed_example =
    get_etcd_client-parsed asks with_login (settings etcd_auth_with_username_passw endpoints)
      (settings etcd_auth_with_username_passw parsed) test_parsed

abbrev directory : (default_region project_id : String) → ServiceDirectorySettings
directory default_region project_id = record {
  default_region = default_region;
  project_id = project_id;
}

test_directory :
    parse_and_reset_gsd_settings (running gke_cluster) (directory "" "mine")
    ≡ ok (directory "us-west1" "mine")
unfolding parse_and_reset_gsd_settings get_gcp_region cut_last
test_directory = refl

parse_and_reset_gsd_settings-Settles_example :
    (parse_and_reset_gsd_settings (running gke_cluster) (directory "" "mine")
      ≡ ok (directory "us-west1" "mine"))
    ↔ (Settles (running gke_cluster) "" (get_gcp_region (running gke_cluster)) "us-west1"
        × Settles (running gke_cluster) "mine" (ok "project") "mine")
parse_and_reset_gsd_settings-Settles_example =
    parse_and_reset_gsd_settings-Settles (running gke_cluster) (directory "" "mine")
      (directory "us-west1" "mine")
