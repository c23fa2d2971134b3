-- ===== src/Cluster/Platform.antt =====
-- pkg/cluster/network.go: the platform, which a package variable holds once it is known, and the
-- network of EKS. What Google and AWS answer are arguments.
use cnwan_operator.Common.{
  String, Bool, true, false, Option, none, some, List, [], ◌∷◌, ◌≡◌, refl, if◌then◌else◌, is_empty,
  not,
}
use cnwan_operator.Common.Result.{Result, ok, err, ◌>>=◌}
use cnwan_operator.GoMap.{or_empty}
use cnwan_operator.Cluster.{
  ClusterManager, gke_cluster, eks_cluster, unknown_cluster, NetworkConfiguration,
}

-- `iAmIn` is none where it is the empty string.
unfoldable pub where_am_i_running : Option ClusterManager → (on_gce on_eks : Bool) → ClusterManager
where_am_i_running (some platform) on_gce on_eks = platform
where_am_i_running none on_gce on_eks =
    if on_gce then gke_cluster else if on_eks then eks_cluster else unknown_cluster

-- `init`
unfoldable pub init : (on_gce on_eks : Bool) → Option ClusterManager
unfolding where_am_i_running
init on_gce on_eks = some (where_am_i_running none on_gce on_eks)

-- The platform is found once, when the package is loaded: Google's before Amazon's, and what the
-- metadata servers answer later changes nothing.
pub where_am_i_running-init :
    (on_gce on_eks later_gce later_eks : Bool)
    → (where_am_i_running (init on_gce on_eks) later_gce later_eks
        ≡ where_am_i_running none on_gce on_eks)
      × (where_am_i_running (init true on_eks) later_gce later_eks ≡ gke_cluster)
      × (where_am_i_running (init false true) later_gce later_eks ≡ eks_cluster)
      × (where_am_i_running (init false false) later_gce later_eks ≡ unknown_cluster)
unfolding init where_am_i_running
where_am_i_running-init on_gce on_eks later_gce later_eks = (refl, refl, refl, refl)

pub record Instance : Type 0 where
  pub vpc_id : Option String
  pub subnet_id : Option String

-- What the client of the metadata server answers, which depends on the configurations it is made
-- with, and the instances of each reservation that EC2 describes.
pub record Amazon (Config : Type 0) : Type 0 where
  pub instance_id : List Config → Result String
  pub region : List Config → Result String
  pub reservations : (region instance_id : String) → Result (List (List Instance))

abbrev first_instance : List (List Instance) → Result NetworkConfiguration
first_instance ((inst ∷ instances) ∷ reservations) =
    ok (record { network_name = or_empty inst.vpc_id; sub_network_name = or_empty inst.subnet_id })
first_instance _ = err "could not find currently running instance"

unfoldable pub get_network_from_eks :
    {Config : Type 0} → ClusterManager → Amazon Config → List Config → Result NetworkConfiguration
get_network_from_eks eks_cluster amazon cfgs =
    let metcli = if not (is_empty cfgs) then [] else cfgs in
    amazon.instance_id metcli >>= λ instance_id. amazon.region metcli >>= λ region.
    amazon.reservations region instance_id >>= λ reservations. first_instance reservations
get_network_from_eks _ amazon cfgs =
    err "not running in EKS or no permissions to get metadata from EKS"

-- The configurations given to `GetNetworkFromEKS` have no influence on its result.
pub get_network_from_eks-ignores :
    {Config : Type 0} (i_am_in : ClusterManager) (amazon : Amazon Config) (cfgs : List Config)
    → get_network_from_eks i_am_in amazon cfgs ≡ get_network_from_eks i_am_in amazon []
unfolding get_network_from_eks
get_network_from_eks-ignores eks_cluster amazon [] = refl
get_network_from_eks-ignores eks_cluster amazon (cfg ∷ cfgs) = refl
get_network_from_eks-ignores gke_cluster amazon cfgs = refl
get_network_from_eks-ignores unknown_cluster amazon cfgs = refl
