-- ===== src/Operator/Exit.antt =====
-- The exit codes of `run`.
use cnwan_operator.Common.{ℕ, String, ap, ◌∙◌, ℕ, Option, none, some, ◌≡◌, inl, inr}
use mathlib.Core.Path.{subst}
use cnwan_operator.Common.Result.{Result, err}
use cnwan_operator.Settings.{
  parse_and_validate_settings, CloudMapSettings, ServiceRegistrySettings, EtcdSettings,
  ServiceDirectorySettings,
}
use cnwan_operator.Settings.Parsed.{IsParsed}
use cnwan_operator.Cluster.{Surroundings, get_operator_settings_config_map}
use cnwan_operator.Common.Outcome.{returns}
use cnwan_operator.Startup.{
  persistent_meta, parse_and_reset_aws_cloud_map_settings, parse_and_reset_gsd_settings,
}
use cnwan_operator.Startup.Clients.{get_etcd_client, get_gsd_client, get_aws_client}
use cnwan_operator.Controllers.Registration.{new_manager}
use cnwan_operator.Operator.{
  halts, use_cloud_map, or_halt, or_crash, Libraries, load_settings, use_etcd,
  use_service_directory, get_registry, run, cannot_establish_connection_to_etcd,
  cannot_get_service_directory_client, invalid_service_directory_settings,
  cannot_get_cloud_map_client, invalid_cloud_map_settings, no_manager, settings_validation_error,
  cannot_unmarshal_configmap, cannot_get_configmap,
}
use cnwan_operator.Operator.Stages.{
  bind-halts, or_halt-halts, or_crash_ne_halts, or_crash-passes, or_halt-passes,
}
use cnwan_operator.Operator.Steps.{load_settings-IsParsed}
use cnwan_operator.Operator.Cause.{
  Names, Cause, no_configmap, no_yaml, not_valid, no_etcd_client, no_etcd_registry,
  no_directory_client, no_directory_settings, no_directory_registry, no_cloud_map_settings,
  no_cloud_map_client, without_manager,
}

module _ {H : Type 0} (lib : Libraries H) (at : Surroundings) where
  -- A call that fails with its code.
  call-Cause :
      {A : Type 0} (c : ℕ) (r : Result A) (code : ℕ) (e : String)
      → ((e' : String) → r ≡ err e' → Cause lib at c e')
      → or_halt c r ≡ halts code e
      → Cause lib at code e
  call-Cause c r code e cause h =
      let (is_code, failed) = or_halt-halts c r code e h in
      subst (λ (n : ℕ). Cause lib at n e) is_code (cause e failed)

  load_settings-Cause :
      (code : ℕ) (e : String) → load_settings lib at ≡ halts code e → Cause lib at code e
  unfolding load_settings
  load_settings-Cause code e h =
      elim (bind-halts (or_halt cannot_get_configmap (get_operator_settings_config_map at)) _ code e
        h) [
          | inl now ↦
              call-Cause cannot_get_configmap _ code e (λ e' failed. no_configmap failed) now
          | inr (settings_byte, got, h) ↦
              let read = or_halt-passes cannot_get_configmap _ settings_byte got in
              elim (bind-halts (or_halt cannot_unmarshal_configmap (lib.unmarshal settings_byte)) _
                code e h) [
                  | inl now ↦
                      call-Cause cannot_unmarshal_configmap _ code e
                        (λ e' failed. no_yaml settings_byte read failed) now
                  | inr (o, got, h) ↦
                      let is_yaml = or_halt-passes cannot_unmarshal_configmap _ o got in
                      elim (bind-halts (or_crash (parse_and_validate_settings o)) _ code e h) [
                        | inl now ↦ absurd (or_crash_ne_halts _ code e now)
                        | inr (answer, got, h) ↦
                            let returned = or_crash-passes _ answer got in
                            call-Cause settings_validation_error answer code e
                              (λ e' failed.
                                not_valid settings_byte o read is_yaml
                                  (returned ∙ ap (λ x. returns x) failed))
                              h
                      ]
                ]
        ]

  module _ (r : ServiceRegistrySettings) (names : Names lib at r) (code : ℕ) (e : String) where
    use_etcd-Cause :
        (etcd : EtcdSettings)
        → r.etcd_settings ≡ some etcd
        → use_etcd lib at etcd ≡ halts code e
        → Cause lib at code e
    use_etcd-Cause etcd is h =
        elim (bind-halts (or_crash (get_etcd_client lib.etcd at etcd)) _ code e h) [
          | inl now ↦ absurd (or_crash_ne_halts _ code e now)
          | inr (answer, got, h) ↦
              let returned = or_crash-passes _ answer got in
              elim (bind-halts (or_halt cannot_establish_connection_to_etcd answer) _ code e h) [
                | inl now ↦
                    call-Cause cannot_establish_connection_to_etcd answer code e
                      (λ e' failed.
                        no_etcd_client r etcd names is (returned ∙ ap (λ x. returns x) failed))
                      now
                | inr (cli, got, h) ↦
                    let connected =
                      returned ∙ ap (λ x. returns x) (or_halt-passes _ answer cli got) in
                    elim (bind-halts
                      (or_halt cannot_establish_connection_to_etcd (lib.registry_from_etcd cli)) _
                      code e h) [
                        | inl now ↦
                            call-Cause cannot_establish_connection_to_etcd _ code e
                              (λ e' failed. no_etcd_registry r etcd cli names is connected failed)
                              now
                        | inr (_, _, h) ↦ absurd (cc h)
                      ]
              ]
        ]

    use_service_directory-Cause :
        (d : ServiceDirectorySettings)
        → r.service_directory_settings ≡ some d
        → use_service_directory lib at d ≡ halts code e
        → Cause lib at code e
    use_service_directory-Cause d is h =
        elim (bind-halts
          (or_halt cannot_get_service_directory_client (get_gsd_client lib.registration_client at))
          _ code e h) [
            | inl now ↦
                call-Cause cannot_get_service_directory_client _ code e
                  (λ e' failed. no_directory_client r d names is failed) now
            | inr (cli, got_cli, h) ↦
                let client = or_halt-passes cannot_get_service_directory_client _ cli got_cli in
                elim (bind-halts
                  (or_halt invalid_service_directory_settings (parse_and_reset_gsd_settings at d)) _
                  code e h) [
                    | inl now ↦
                        call-Cause invalid_service_directory_settings _ code e
                          (λ e' failed. no_directory_settings r d names is failed) now
                    | inr (sd_settings, got, h) ↦
                        let settled =
                          or_halt-passes invalid_service_directory_settings _ sd_settings got in
                        elim (bind-halts
                          (or_halt cannot_get_service_directory_client
                            (lib.registry_from_service_directory cli sd_settings))
                          _ code e h) [
                            | inl now ↦
                                call-Cause cannot_get_service_directory_client _ code e
                                  (λ e' failed.
                                    no_directory_registry r d sd_settings cli names is client
                                      settled failed)
                                  now
                            | inr (_, _, h) ↦ absurd (cc h)
                          ]
                  ]
          ]

    use_cloud_map-Cause :
        (c : CloudMapSettings)
        → r.cloud_map_settings ≡ some c
        → use_cloud_map lib at c ≡ halts code e
        → Cause lib at code e
    use_cloud_map-Cause c is h =
        elim (bind-halts
          (or_halt invalid_cloud_map_settings (parse_and_reset_aws_cloud_map_settings c)) _ code e
          h) [
            | inl now ↦
                call-Cause invalid_cloud_map_settings _ code e
                  (λ e' failed. no_cloud_map_settings r c names is failed) now
            | inr (cm_settings, got, h) ↦
                let settled = or_halt-passes invalid_cloud_map_settings _ cm_settings got in
                elim (bind-halts
                  (or_halt cannot_get_cloud_map_client
                    (get_aws_client lib.aws at (some cm_settings.default_region) none).0)
                  _ code e h) [
                    | inl now ↦
                        call-Cause cannot_get_cloud_map_client _ code e
                          (λ e' failed. no_cloud_map_client r c cm_settings names is settled failed)
                          now
                    | inr (_, _, h) ↦ absurd (cc h)
                  ]
          ]

    get_registry-Cause :
        (o : Option ServiceRegistrySettings)
        → o ≡ some r
        → IsParsed r
        → get_registry lib at o ≡ halts code e
        → Cause lib at code e
    unfolding get_registry
    get_registry-Cause o is (inl (s, s', parsed, etcd)) h =
        use_etcd-Cause s' etcd (simp (is, etcd) at h)
    get_registry-Cause o is (inr (inl (d, no_etcd, directory))) h =
        use_service_directory-Cause d directory (simp (is, no_etcd, directory) at h)
    get_registry-Cause o is (inr (inr (c, no_etcd, no_directory, cloud_map))) h =
        use_cloud_map-Cause c cloud_map (simp (is, no_etcd, no_directory, cloud_map) at h)

-- If `run` returns an error, its exit code tells which step failed, with that step's error: the
-- configmap (7), its YAML (8), the settings in it (9), etcd (10), the client of Service Directory (11) or
-- its settings (12), the client of Cloud Map (13) or its settings (14), or the manager (1).
pub run-Cause :
    {H : Type 0} (lib : Libraries H) (at : Surroundings) (code : ℕ) (e : String)
    → run lib at ≡ halts code e
    → Cause lib at code e
unfolding run
run-Cause lib at code e h = elim (bind-halts (load_settings lib at) _ code e h) [
  | inl now ↦ load_settings-Cause lib at code e now
  | inr (settings, loaded, h) ↦
      let (r, is, parsed) = load_settings-IsParsed lib at settings loaded in
      let names : Names lib at r = record { settings = settings; loaded = loaded; is = is } in
      elim (bind-halts (or_crash (persistent_meta at settings.cloud_metadata)) _ code e h) [
        | inl now ↦ absurd (or_crash_ne_halts _ code e now)
        | inr (meta, _, h) ↦
            elim (bind-halts (get_registry lib at settings.service_registry_settings) _ code e h) [
              | inl now ↦ get_registry-Cause lib at r names code e _ is parsed now
              | inr (client, _, h) ↦
                  elim (bind-halts (or_halt no_manager (new_manager lib.runtime "")) _ code e h) [
                    | inl now ↦
                        call-Cause lib at no_manager _ code e (λ e' failed. without_manager failed)
                          now
                    | inr (_, _, h) ↦ absurd (cc h)
                  ]
            ]
      ]
]
