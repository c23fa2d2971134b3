-- ===== src/Startup/Metadata.antt =====
-- The metadata that every registered object gets.
use cnwan_operator.Common.{String, Option, none, some, ◌≡◌, ◌∙◌, refl, inl, inr, ◌==◌, Bool-cases}
use cnwan_operator.Common.Result.{Result, ok, err}
use cnwan_operator.GoMap.{Map, get, put}
use cnwan_operator.GoMap.Laws.{get-put}
use cnwan_operator.Settings.{CloudMetadata}
use cnwan_operator.Cluster.{
  ClusterManager, gke_cluster, eks_cluster, unknown_cluster, NetworkConfiguration, Surroundings,
}
use cnwan_operator.Common.Outcome.{Outcome, returns, panics}
use cnwan_operator.Startup.{
  get_network_cfg, put_platform, put_network, owner_meta, add_network, persistent_meta,
}

platform-owner :
    (c : ClusterManager) → get "owner" (put_platform c owner_meta) ≡ some "cnwan-operator"
unfolding get put
platform-owner gke_cluster = refl
platform-owner eks_cluster = refl
platform-owner unknown_cluster = refl

put_network-owner :
    (net_cfg : NetworkConfiguration) (meta : Map String)
    → get "owner" (put_network net_cfg meta) ≡ get "owner" meta
unfolding put_network
put_network-owner net_cfg meta = elim (Bool-cases (net_cfg.network_name == "")) [
  | inl empty ↦ rw empty refl
  | inr named ↦ rw named (
      get-put "cnwan.io/sub-network" "owner" net_cfg.sub_network_name
        (put "cnwan.io/network" net_cfg.network_name meta)
      ∙ get-put "cnwan.io/network" "owner" net_cfg.network_name meta)
]

add_network-owner :
    (c : ClusterManager) (o : Outcome (Result NetworkConfiguration)) (meta : Map String)
    → add_network c o ≡ returns meta
    → get "owner" meta ≡ some "cnwan-operator"
unfolding get
add_network-owner c panics meta h = cc h
add_network-owner c (returns (err e)) meta h = let is : owner_meta ≡ meta = cc h in rw (← is) refl
add_network-owner c (returns (ok net_cfg)) meta h =
    let is : put_network net_cfg (put_platform c owner_meta) ≡ meta = cc h in
    rw (← is) (put_network-owner net_cfg (put_platform c owner_meta) ∙ platform-owner c)

-- Whatever the operator finds out about its network, the metadata that it gives to all objects names
-- it as their owner.
pub persistent_meta-owner :
    (at : Surroundings) (cloud : Option CloudMetadata) (meta : Map String)
    → persistent_meta at cloud ≡ returns meta
    → get "owner" meta ≡ some "cnwan-operator"
unfolding persistent_meta
persistent_meta-owner at none meta h =
    let is : owner_meta ≡ meta = cc h in unfold get in rw (← is) refl
persistent_meta-owner at (some cloud) meta h =
    add_network-owner at.running_in (get_network_cfg at cloud.network cloud.sub_network) meta h
