-- ===== src/Startup.antt =====
-- utils.go and main.go: what the operator settles before it starts its controllers. A pointer that
-- would be followed although it is nil is an outcome of its own.
pub mod Network
pub mod Metadata
pub mod Endpoints
pub mod ServiceDirectory
pub mod Clients
mod Tests
use Prim.Native.String
use cnwan_operator.Common.{
  ℕ, String, Bool, true, false, not, Option, none, some, List, [], ◌∷◌, ◌==◌, ◌&&◌, ◌||◌,
  if◌then◌else◌,
}
use cnwan_operator.Common.Outcome.{Outcome, returns, panics}
use cnwan_operator.Common.Result.{Result, ok, err, ◌>>=◌, wrap}
use cnwan_operator.Common.Text.{to_lower, decimal}
use cnwan_operator.GoMap.{Map, put, or_empty}
use cnwan_operator.Settings.{
  EtcdEndpoint, CloudMetadata, CloudMapSettings, ServiceDirectorySettings,
}
use cnwan_operator.Cluster.{
  ClusterManager, gke_cluster, eks_cluster, unknown_cluster, NetworkConfiguration, Surroundings,
  get_google_service_account_secret, get_network_from_gke, get_gcp_region,
}

abbrev pub is_auto : String → Bool
is_auto name = to_lower name == "auto"

unfoldable pub replace_auto : NetworkConfiguration → NetworkConfiguration → NetworkConfiguration
replace_auto res net_cfg = record {
  network_name = if is_auto net_cfg.network_name then res.network_name else net_cfg.network_name;
  sub_network_name =
      if is_auto net_cfg.sub_network_name then res.sub_network_name else net_cfg.sub_network_name;
}

-- `res` stays nil on EKS.
look_up :
    Surroundings → NetworkConfiguration → ClusterManager → Outcome (Result NetworkConfiguration)
unfolding replace_auto
look_up at net_cfg unknown_cluster = returns (
    err
      "could not get information about the managed cluster: unsupported or no permissions to do so")
look_up at net_cfg eks_cluster = panics
look_up at net_cfg gke_cluster = returns (
    get_google_service_account_secret at >>= λ sa.
    get_network_from_gke at sa >>= λ res. ok (replace_auto res net_cfg))

unfoldable pub get_network_cfg :
    Surroundings → (network subnetwork : Option String) → Outcome (Result NetworkConfiguration)
unfolding look_up
get_network_cfg at network subnetwork =
    let net_cfg : NetworkConfiguration = record {
      network_name = or_empty network;
      sub_network_name = or_empty subnetwork;
    } in
    if is_auto (or_empty network) || is_auto (or_empty subnetwork)
    then look_up at net_cfg at.running_in
    else returns (ok net_cfg)

abbrev pub put_platform : ClusterManager → Map String → Map String
put_platform gke_cluster meta = put "cnwan.io/platform" "GKE" meta
put_platform eks_cluster meta = put "cnwan.io/platform" "EKS" meta
put_platform unknown_cluster meta = meta

-- Both tests of main.go are on the network's name.
unfoldable pub put_network : NetworkConfiguration → Map String → Map String
put_network net_cfg meta =
    if not (net_cfg.network_name == "")
    then put "cnwan.io/sub-network" net_cfg.sub_network_name
        (put "cnwan.io/network" net_cfg.network_name meta)
    else meta

abbrev pub owner_meta : Map String
owner_meta = ("owner", "cnwan-operator") ∷ []

-- An error is logged and skipped.
abbrev pub add_network :
    ClusterManager → Outcome (Result NetworkConfiguration) → Outcome (Map String)
add_network running_in panics = panics
add_network running_in (returns (err e)) = returns owner_meta
add_network running_in (returns (ok net_cfg)) =
    returns (put_network net_cfg (put_platform running_in owner_meta))

unfoldable pub persistent_meta : Surroundings → Option CloudMetadata → Outcome (Map String)
unfolding get_network_cfg put_network
persistent_meta at none = returns owner_meta
persistent_meta at (some cloud) =
    add_network at.running_in (get_network_cfg at cloud.network cloud.sub_network)

unfoldable pub parse_and_reset_aws_cloud_map_settings : CloudMapSettings → Result CloudMapSettings
parse_and_reset_aws_cloud_map_settings cm =
    if cm.default_region == ""
    then err "invalid cloud map region provided"
    else ok (record { default_region = cm.default_region })

-- An empty field is asked for where the operator runs.
abbrev pub or_ask : String → Result String → Result String
or_ask given answer = if given == "" then answer else ok given

abbrev pub ask_cloud :
    ClusterManager → Result ServiceDirectorySettings → Result ServiceDirectorySettings
ask_cloud gke_cluster asked = asked
ask_cloud _ asked =
    err
      "could not load data from Google Cloud: either platform is not GKE or there are no permissions to do so"

-- The settings are not nil where main.go calls this.
unfoldable pub parse_and_reset_gsd_settings :
    Surroundings → ServiceDirectorySettings → Result ServiceDirectorySettings
parse_and_reset_gsd_settings at gc =
    if not (gc.default_region == "") && not (gc.project_id == "")
    then ok (record { default_region = gc.default_region; project_id = gc.project_id })
    else ask_cloud at.running_in (
        or_ask gc.default_region (wrap "could not get region from GCP: " (get_gcp_region at))
        >>= λ region.
            or_ask gc.project_id (wrap "could not get project ID from GCP: " at.project_id)
            >>= λ project_id. ok (record { default_region = region; project_id = project_id }))

abbrev pub address : String → ℕ → String
address host port = String.◌++◌ host (String.◌++◌ ":" (decimal port))

abbrev pub before_rest : String → Outcome (List String) → Outcome (List String)
before_rest endp (returns endps) = returns (endp ∷ endps)
before_rest endp panics = panics

-- The loop of `getEtcdClient`, which follows the pointer to each port.
abbrev pub dial : String → Option ℕ → Outcome (List String) → Outcome (List String)
dial host none rest = panics
dial host (some port) rest = before_rest (address host port) rest

unfoldable pub etcd_addresses : List (Option EtcdEndpoint) → Outcome (List String)
etcd_addresses [] = returns []
etcd_addresses (none ∷ endpoints) = panics
etcd_addresses (some endp ∷ endpoints) = dial endp.host endp.port (etcd_addresses endpoints)
