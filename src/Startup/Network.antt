-- ===== src/Startup/Network.antt =====
-- When `getNetworkCfg` follows a nil pointer.
use cnwan_operator.Common.{
  String, Bool, true, Option, ◌≡◌, ◌↔◌, ◌⊎◌, refl, arith, inl, inr, ◌||◌, Bool-cases,
}
use cnwan_operator.GoMap.{or_empty}
use cnwan_operator.Cluster.{
  ClusterManager, gke_cluster, eks_cluster, unknown_cluster, NetworkConfiguration, Surroundings,
}
use cnwan_operator.Common.Outcome.{panics}
use cnwan_operator.Startup.{is_auto, look_up, get_network_cfg}

-- The network or the sub-network is to be found out.
abbrev pub IsAsked : (network subnetwork : Option String) → Type 0
IsAsked network subnetwork =
    (is_auto (or_empty network) ≡ true) ⊎ (is_auto (or_empty subnetwork) ≡ true)

look_up-panics :
    (at : Surroundings) (net_cfg : NetworkConfiguration) (c : ClusterManager)
    → (look_up at net_cfg c ≡ panics) ↔ (c ≡ eks_cluster)
unfolding look_up
look_up-panics at net_cfg gke_cluster = (λ h. cc h, λ h. cc h)
look_up-panics at net_cfg eks_cluster = (λ h. refl, λ h. refl)
look_up-panics at net_cfg unknown_cluster = (λ h. cc h, λ h. cc h)

asked_iff : (a b : Bool) → ((a || b) ≡ true) ↔ ((a ≡ true) ⊎ (b ≡ true))
asked_iff a b = ground arith

-- The network configuration is read through a nil pointer exactly when the operator runs on EKS and
-- the settings ask for the network or the sub-network to be found out.
pub get_network_cfg-panics :
    (at : Surroundings) (network subnetwork : Option String)
    → (get_network_cfg at network subnetwork ≡ panics)
      ↔ ((at.running_in ≡ eks_cluster) × IsAsked network subnetwork)
unfolding get_network_cfg
get_network_cfg-panics at network subnetwork =
    let asked = asked_iff (is_auto (or_empty network)) (is_auto (or_empty subnetwork)) in
    elim (Bool-cases (is_auto (or_empty network) || is_auto (or_empty subnetwork))) [
      | inl auto ↦ rw auto (
        λ h. ((look_up-panics at _ at.running_in).0 h, asked.0 auto),
        λ (on_eks, _). (look_up-panics at _ at.running_in).1 on_eks,
      )
      | inr given ↦
          rw given (λ h. cc h, λ (_, wanted). let clash = asked.1 wanted in cc (clash, given))
    ]
