-- ===== src/Cluster.antt =====
-- pkg/cluster: where the operator runs, and the secrets, the configmap and the cloud metadata that it
-- reads. The answers of Kubernetes and of the clouds are arguments. The data of a secret is a map; which
-- entry a `range` gives first is the order of the map.
pub mod Entries
pub mod Platform
pub mod Kubernetes
mod Tests
use Prim.Native.String
use cnwan_operator.Common.{ℕ, String, Bool, Option, none, some, List, [], ◌∷◌}
use cnwan_operator.Common.Result.{Result, ok, err, ◌>>=◌}
use cnwan_operator.Common.Text.{cut_last, dash}
use cnwan_operator.GoMap.{Map, get, or_empty}

pub data ClusterManager : Type 0 where
  gke_cluster eks_cluster unknown_cluster : ClusterManager

pub record NetworkConfiguration : Type 0 where
  pub network_name : String
  pub sub_network_name : String

-- The switch on the length of the data.
abbrev pub only_entry : String → Map String → Result String
only_entry what [] = err (String.◌++◌ what " has no data")
only_entry what ((k, d) ∷ []) = ok d
only_entry what (e ∷ f ∷ m) = err (String.◌++◌ what " has multiple data")

abbrev pub first_entry : String → Map String → Result String
first_entry what [] = err (String.◌++◌ what " has no data")
first_entry what ((k, d) ∷ m) = ok d

-- What the operator is told: the platform that it found at its start, Kubernetes' `Get` of a secret
-- and of a configmap of its own namespace, the answers of Google's metadata server, and the cluster as
-- Google's API describes it to who has the credentials.
pub record Surroundings : Type 0 where
  pub running_in : ClusterManager
  pub secret : String → Result (Map String)
  pub config_map : String → Result (Map String)
  pub zone : Result String
  pub project_id : Result String
  pub cluster_name : Result String
  pub get_cluster :
      (credentials project_id zone cluster_name : String) → Result NetworkConfiguration

unfoldable pub get_google_service_account_secret : Surroundings → Result String
get_google_service_account_secret at = at.secret "google-service-account" >>= λ data_of.
    only_entry "secret cnwan-operator-system/google-service-account" data_of

unfoldable pub get_aws_credentials_secret : Surroundings → Result String
get_aws_credentials_secret at = at.secret "aws-credentials" >>= λ data_of.
    first_entry "secret cnwan-operator-system/aws-credentials" data_of

-- User name and password; a missing one is empty.
unfoldable pub get_etcd_credentials_secret : Surroundings → Result (String × String)
get_etcd_credentials_secret at = at.secret "etcd-credentials" >>= λ data_of.
    ok (or_empty (get "username" data_of), or_empty (get "password" data_of))

unfoldable pub get_operator_settings_config_map : Surroundings → Result String
get_operator_settings_config_map at = at.config_map "cnwan-operator-settings" >>= λ data_of.
    only_entry "configmap cnwan-operator-system/cnwan-operator-settings" data_of

unfoldable pub get_network_from_gke : Surroundings → String → Result NetworkConfiguration
get_network_from_gke at credentials = elim at.running_in [
  | gke_cluster ↦ at.project_id >>= λ project_id. at.zone >>= λ zone.
      at.cluster_name >>= λ cluster_name. at.get_cluster credentials project_id zone cluster_name
  | _ ↦ err "not running in GKE or no permissions to get metadata from GKE"
]

abbrev region_of : String → Option (String × String) → Result String
region_of zone none = err (String.◌++◌ "unexpected zone found: " zone)
region_of zone (some (region, last)) = ok region

unfoldable pub get_gcp_region : Surroundings → Result String
get_gcp_region at = at.zone >>= λ zone. region_of zone (cut_last zone dash)
