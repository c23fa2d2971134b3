-- ===== src/Cluster/Tests.antt =====
-- Tests of what is read from Kubernetes and from Google's metadata.
use cnwan_operator.Common.{String, [], ◌∷◌, ◌≡◌, ◌≢◌, ◌↔◌, none, some, refl}
use cnwan_operator.Common.Result.{ok, err}
use cnwan_operator.Cluster.{
  gke_cluster, Surroundings, get_operator_settings_config_map, get_network_from_gke,
}
use cnwan_operator.Cluster.Kubernetes.{Api, panics, get_config_map, get_secret, get_secret-panics}

abbrev on_gke : Surroundings
on_gke = record {
  running_in = gke_cluster;
  secret = λ name. ok (("key.json", "secret") ∷ []);
  config_map = λ name. ok [];
  zone = ok "us-west1-a";
  project_id = ok "project";
  cluster_name = err "no cluster";
  get_cluster = λ credentials project_id zone cluster_name. err "no network";
}

test_empty_config_map :
    get_operator_settings_config_map on_gke
    ≡ err "configmap cnwan-operator-system/cnwan-operator-settings has no data"
unfolding get_operator_settings_config_map
test_empty_config_map = refl

test_network : get_network_from_gke on_gke "secret" ≡ err "no cluster"
unfolding get_network_from_gke
test_network = refl

-- The configuration is there, but no client can be made at first.
abbrev no_client : Api
no_client = record {
  config_error = none;
  client_error = some "bad host";
  secret = λ name. ok [];
  config_map = λ name. ok [];
}

get_secret-panics_example :
    ((get_config_map no_client "settings" none).0 ≢ panics)
    × (((get_secret
            (record no_client { client_error = none })
            "key"
            (get_config_map no_client "settings" none).1).0
          ≡ panics)
        ↔ ((no_client.config_error ≡ none) × (e : String) × (no_client.client_error ≡ some e)))
get_secret-panics_example =
    get_secret-panics no_client (record no_client { client_error = none }) "settings" "key"
