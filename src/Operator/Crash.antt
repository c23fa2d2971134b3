-- ===== src/Operator/Crash.antt =====
-- When `run` crashes.
use cnwan_operator.Common.{ap, ◌∙◌, String, ◌⊎◌, ℕ, Option, none, some, ◌≡◌, ◌↔◌, refl, inl, inr}
use mathlib.Core.Path.{subst}
use cnwan_operator.Common.Result.{Result, ok, err}
use cnwan_operator.Settings.{
  parse_and_validate_settings, ServiceRegistrySettings, EtcdSettings, ServiceDirectorySettings,
  Settings, CloudMetadata, parse_etcd_settings,
}
use cnwan_operator.Settings.Nil.{FollowsNil, parse_and_validate_settings-panics}
use cnwan_operator.Settings.Parsed.{IsParsed}
use cnwan_operator.Cluster.{
  Surroundings, ClusterManager, NetworkConfiguration, eks_cluster, get_operator_settings_config_map,
}
use cnwan_operator.Common.Outcome.{Outcome, returns, panics}
use cnwan_operator.Startup.{
  persistent_meta, get_network_cfg, add_network, parse_and_reset_aws_cloud_map_settings,
  parse_and_reset_gsd_settings,
}
use cnwan_operator.Startup.Network.{IsAsked, get_network_cfg-panics}
use cnwan_operator.Startup.Clients.{
  get_etcd_client, get_etcd_client-parsed, get_gsd_client, get_aws_client,
}
use cnwan_operator.Controllers.Registration.{new_manager}
use cnwan_operator.Operator.{
  crashes, passes, ◌>>=◌, or_halt, or_crash, Libraries, load_settings, use_etcd,
  use_service_directory, or_nil, get_registry, run, cannot_establish_connection_to_etcd,
  cannot_get_service_directory_client, invalid_service_directory_settings,
  cannot_get_cloud_map_client, invalid_cloud_map_settings, no_manager, settings_validation_error,
  cannot_unmarshal_configmap, cannot_get_configmap,
}
use cnwan_operator.Operator.Stages.{
  or_halt-passes, bind-crashes, or_halt_ne_crashes, or_crash-crashes,
}
use cnwan_operator.Operator.Steps.{load_settings-IsParsed}

module _ {H : Type 0} (lib : Libraries H) (at : Surroundings) where
  -- The configmap holds settings in which an endpoint of etcd is nil.
  abbrev pub HoldsNil : Type 0
  HoldsNil =
      (settings_byte : String) × (get_operator_settings_config_map at ≡ ok settings_byte)
      × (settings : Settings) × (lib.unmarshal settings_byte ≡ ok (some settings))
      × FollowsNil settings

  parsed-FollowsNil :
      (o : Option Settings)
      → parse_and_validate_settings o ≡ panics
      → (settings : Settings) × (o ≡ some settings) × FollowsNil settings
  parsed-FollowsNil none h = unfold parse_and_validate_settings in cc h
  parsed-FollowsNil (some settings) h =
      (settings, refl, (parse_and_validate_settings-panics settings).0 h)

  load_settings-crashes : (load_settings lib at ≡ crashes) ↔ HoldsNil
  unfolding load_settings
  load_settings-crashes = (
    λ h.
        elim (bind-crashes (or_halt cannot_get_configmap (get_operator_settings_config_map at)) _
          h) [
            | inl now ↦ absurd (or_halt_ne_crashes cannot_get_configmap _ now)
            | inr (settings_byte, got, h) ↦
                elim (bind-crashes
                  (or_halt cannot_unmarshal_configmap (lib.unmarshal settings_byte)) _ h) [
                    | inl now ↦ absurd (or_halt_ne_crashes cannot_unmarshal_configmap _ now)
                    | inr (o, is_yaml, h) ↦
                        elim (bind-crashes (or_crash (parse_and_validate_settings o)) _ h) [
                          | inr (answer, _, h) ↦
                              absurd (or_halt_ne_crashes settings_validation_error answer h)
                          | inl now ↦
                              let (settings, is, nil) =
                                parsed-FollowsNil o (or_crash-crashes _ now) in
                              (
                                settings_byte,
                                or_halt-passes cannot_get_configmap _ settings_byte got,
                                settings,
                                or_halt-passes cannot_unmarshal_configmap _ o is_yaml
                                    ∙ ap (λ x. ok x) is,
                                nil,
                              )
                        ]
                  ]
          ],
    λ (settings_byte, got, settings, is_yaml, nil).
        rw got (rw is_yaml (rw ((parse_and_validate_settings-panics settings).1 nil) refl)),
  )

  -- Two fallible calls and a return.
  two_calls_ne_crashes :
      {A B C : Type 0} (code code' : ℕ) (r : Result A) (s : A → Result B) (f : A → B → C)
      → ¬ ((or_halt code r >>= λ a. or_halt code' (s a) >>= λ b. passes (f a b)) ≡ crashes)
  two_calls_ne_crashes code code' (err e) s f h = cc h
  two_calls_ne_crashes code code' (ok a) s f h = elim (bind-crashes (or_halt code' (s a)) _ h) [
    | inl now ↦ or_halt_ne_crashes code' (s a) now
    | inr (b, _, h) ↦ cc h
  ]

  use_etcd_ne_crashes :
      (e e' : EtcdSettings)
      → parse_etcd_settings e ≡ returns (ok e')
      → ¬ (use_etcd lib at e' ≡ crashes)
  use_etcd_ne_crashes e e' parsed h =
      let (answer, returned) : (answer : Result H) × (get_etcd_client lib.etcd at e'
            ≡ returns answer) =
        elim (get_etcd_client-parsed lib.etcd at e e' parsed).2 [
          | inl (_, is) ↦ (_, is)
          | inr (inl (_, _, _, is)) ↦ (_, is)
          | inr (inr (_, _, _, is)) ↦ (_, is)
        ] in
      two_calls_ne_crashes cannot_establish_connection_to_etcd cannot_establish_connection_to_etcd
        answer (λ cli. lib.registry_from_etcd cli) (λ cli r. some r) (rw returned at h)

  use_service_directory_ne_crashes :
      (d : ServiceDirectorySettings) → ¬ (use_service_directory lib at d ≡ crashes)
  use_service_directory_ne_crashes d h =
      elim (bind-crashes
        (or_halt cannot_get_service_directory_client (get_gsd_client lib.registration_client at)) _
        h) [
          | inl now ↦ or_halt_ne_crashes cannot_get_service_directory_client _ now
          | inr (cli, _, h) ↦
              two_calls_ne_crashes invalid_service_directory_settings
                cannot_get_service_directory_client (parse_and_reset_gsd_settings at d)
                (λ sd_settings. lib.registry_from_service_directory cli sd_settings)
                (λ sd_settings r. some r) h
        ]

  get_registry_ne_crashes :
      (o : Option ServiceRegistrySettings) (r : ServiceRegistrySettings)
      → o ≡ some r
      → IsParsed r
      → ¬ (get_registry lib at o ≡ crashes)
  unfolding get_registry
  get_registry_ne_crashes o r is (inl (e, e', parsed, etcd)) h =
      use_etcd_ne_crashes e e' parsed (simp (is, etcd) at h)
  get_registry_ne_crashes o r is (inr (inl (d, no_etcd, directory))) h =
      use_service_directory_ne_crashes d (simp (is, no_etcd, directory) at h)
  get_registry_ne_crashes o r is (inr (inr (c, no_etcd, no_directory, cloud_map))) h =
      two_calls_ne_crashes invalid_cloud_map_settings cannot_get_cloud_map_client
        (parse_and_reset_aws_cloud_map_settings c)
        (λ cm_settings. (get_aws_client lib.aws at (some cm_settings.default_region) none).0)
        (λ cm_settings cli. or_nil lib at (lib.registry_from_cloud_map cli))
        (simp (is, no_etcd, no_directory, cloud_map) at h)

  add_network-panics :
      (c : ClusterManager) (o : Outcome (Result NetworkConfiguration))
      → add_network c o ≡ panics
      → o ≡ panics
  add_network-panics c panics h = refl
  add_network-panics c (returns (err e)) h = cc h
  add_network-panics c (returns (ok net_cfg)) h = cc h

  -- The settings ask for the network to be found out, and the operator runs on EKS.
  abbrev pub AsksOnEks : Option CloudMetadata → Type 0
  AsksOnEks cloud =
      (cl_cfg : CloudMetadata) × (cloud ≡ some cl_cfg)
      × (at.running_in ≡ eks_cluster)
      × IsAsked cl_cfg.network cl_cfg.sub_network

  persistent_meta-panics :
      (cloud : Option CloudMetadata) → (persistent_meta at cloud ≡ panics) ↔ AsksOnEks cloud
  unfolding persistent_meta
  persistent_meta-panics none = (λ h. cc h, λ (cl_cfg, is, _, _). cc is)
  persistent_meta-panics (some cl_cfg) =
      let both = get_network_cfg-panics at cl_cfg.network cl_cfg.sub_network in
      (
        λ h.
            let (on_eks, asked) = both.0 (
              add_network-panics at.running_in
                (get_network_cfg at cl_cfg.network cl_cfg.sub_network) h) in
            (cl_cfg, refl, on_eks, asked),
        λ (cl_cfg', is, on_eks, asked).
            let same : cl_cfg' ≡ cl_cfg = cc is in
            let wanted : IsAsked cl_cfg.network cl_cfg.sub_network =
              subst (λ (t : CloudMetadata). IsAsked t.network t.sub_network) same asked in
            rw (both.1 (on_eks, wanted)) refl,
      )

-- `run` follows a nil pointer if and only if the settings of the configmap have etcd as their only
-- registry, with a way to log in that is supported and an endpoint that is nil; or they could be loaded and
-- ask for the network or the sub-network to be found out, on EKS.
pub run-crashes :
    {H : Type 0} (lib : Libraries H) (at : Surroundings)
    → (run lib at ≡ crashes) ↔ (
        HoldsNil lib at
        ⊎ ((settings : Settings) × (load_settings lib at ≡ passes settings)
            × AsksOnEks lib at settings.cloud_metadata))
unfolding run
run-crashes lib at = (
  λ h. elim (bind-crashes (load_settings lib at) _ h) [
    | inl now ↦ inl ((load_settings-crashes lib at).0 now)
    | inr (settings, loaded, h) ↦
        elim (bind-crashes (or_crash (persistent_meta at settings.cloud_metadata)) _ h) [
          | inl now ↦ inr (
            settings,
            loaded,
            (persistent_meta-panics lib at settings.cloud_metadata).0 (or_crash-crashes _ now),
          )
          | inr (meta, _, h) ↦
              elim (bind-crashes (get_registry lib at settings.service_registry_settings) _ h) [
                | inl now ↦
                    let (r, is, parsed) = load_settings-IsParsed lib at settings loaded in
                    absurd (
                      get_registry_ne_crashes lib at settings.service_registry_settings r is parsed
                        now)
                | inr (client, _, h) ↦
                    elim (bind-crashes (or_halt no_manager (new_manager lib.runtime "")) _ h) [
                      | inl now ↦
                          absurd (or_halt_ne_crashes no_manager (new_manager lib.runtime "") now)
                      | inr (manager, _, h) ↦ cc h
                    ]
              ]
        ]
  ],
  λ h. elim h [
    | inl nil ↦ rw ((load_settings-crashes lib at).1 nil) refl
    | inr (settings, loaded, asks) ↦
        rw (loaded, (persistent_meta-panics lib at settings.cloud_metadata).1 asks) refl
  ],
)
