-- ===== src/Operator.antt =====
-- main.go: the steps of `run` up to the controllers, with the exit code of each failure. What the
-- libraries and the cluster answer are arguments. Their objects are handles of one type.
pub mod Stages
pub mod Steps
pub mod Starting
pub mod Crash
pub mod Cause
pub mod Exit
pub mod Ending
mod Tests
use cnwan_operator.Common.{ℕ, String, Bool, false, Option, none, some, List, [], ◌∷◌, ◌++◌}
use cnwan_operator.Common.Result.{Result, ok, err}
use cnwan_operator.GoMap.{Map}
use cnwan_operator.Settings.{
  ServiceRegistrySettings, ServiceDirectorySettings, EtcdSettings, CloudMapSettings, Settings,
  parse_and_validate_settings,
}
use cnwan_operator.Cluster.{Surroundings, get_operator_settings_config_map}
use cnwan_operator.Common.Outcome.{Outcome, returns, panics}
use cnwan_operator.Startup.{
  persistent_meta, parse_and_reset_aws_cloud_map_settings, parse_and_reset_gsd_settings,
}
use cnwan_operator.Startup.Clients.{
  EtcdConfig, AwsSdk, TempFile, get_etcd_client, get_gsd_client, get_aws_client,
}
use cnwan_operator.Controllers.Handling.{ControllerOptions}
use cnwan_operator.Controllers.Registration.{
  Runtime, Controller, new_manager, new_service_controller, new_namespace_controller,
}

-- `iota` counts the six constants above `Success` too.
abbrev pub success : ℕ
success = 6

abbrev pub cannot_get_configmap : ℕ
cannot_get_configmap = 7

abbrev pub cannot_unmarshal_configmap : ℕ
cannot_unmarshal_configmap = 8

abbrev pub settings_validation_error : ℕ
settings_validation_error = 9

abbrev pub cannot_establish_connection_to_etcd : ℕ
cannot_establish_connection_to_etcd = 10

abbrev pub cannot_get_service_directory_client : ℕ
cannot_get_service_directory_client = 11

abbrev pub invalid_service_directory_settings : ℕ
invalid_service_directory_settings = 12

abbrev pub cannot_get_cloud_map_client : ℕ
cannot_get_cloud_map_client = 13

abbrev pub invalid_cloud_map_settings : ℕ
invalid_cloud_map_settings = 14

-- The code that `run` returns when there is no manager is written out there.
abbrev pub no_manager : ℕ
no_manager = 1

-- A part of `run`: it returns a code with an error, follows a nil pointer, or goes on.
pub data Stage {ℓ} (A : Type ℓ) : Type ℓ where
  halts : (code : ℕ) (error : String) → Stage A
  crashes : Stage A
  passes : A → Stage A

infixl 5 ◌>>=◌
abbrev pub ◌>>=◌ {ℓ κ} : {A : Type ℓ} {B : Type κ} → Stage A → (A → Stage B) → Stage B
halts code error >>= rest = halts code error
crashes >>= rest = crashes
passes a >>= rest = rest a

-- `return code, fmt.Errorf(…, err)`, without the text before the error.
abbrev pub or_halt : {A : Type 0} → ℕ → Result A → Stage A
or_halt code (err e) = halts code e
or_halt code (ok a) = passes a

abbrev pub or_crash : {A : Type 0} → Outcome A → Stage A
or_crash panics = crashes
or_crash (returns a) = passes a

-- The libraries: yaml, etcd, the cloud clients, serego and controller-runtime.
pub record Libraries (H : Type 0) : Type 0 where
  pub unmarshal : String → Result (Option Settings)
  pub etcd : EtcdConfig → Result H
  pub registry_from_etcd : H → Result H
  pub registration_client : String → Result H
  pub registry_from_service_directory : H → ServiceDirectorySettings → Result H
  pub aws : AwsSdk H
  pub registry_from_cloud_map : Option H → Result H
  pub runtime : Runtime H H

-- What the rest of `run` works with. The client of the registry may be nil.
pub record Started (H : Type 0) : Type 0 where
  pub serego_client : Option H
  pub meta : Map String
  pub manager : H
  pub controllers : List Controller

module _ {H : Type 0} (lib : Libraries H) (at : Surroundings) where
  unfoldable pub load_settings : Stage Settings
  load_settings =
      or_halt cannot_get_configmap (get_operator_settings_config_map at) >>= λ settings_byte.
      or_halt cannot_unmarshal_configmap (lib.unmarshal settings_byte) >>= λ settings.
      or_crash (parse_and_validate_settings settings) >>= λ answer.
      or_halt settings_validation_error answer

  abbrev pub use_etcd : EtcdSettings → Stage (Option H)
  use_etcd settings = or_crash (get_etcd_client lib.etcd at settings) >>= λ client.
      or_halt cannot_establish_connection_to_etcd client >>= λ cli.
      or_halt cannot_establish_connection_to_etcd (lib.registry_from_etcd cli) >>= λ r.
      passes (some r)

  abbrev pub use_service_directory : ServiceDirectorySettings → Stage (Option H)
  use_service_directory settings =
      or_halt cannot_get_service_directory_client (get_gsd_client lib.registration_client at)
      >>= λ cli.
          or_halt invalid_service_directory_settings (parse_and_reset_gsd_settings at settings)
          >>= λ sd_settings.
              or_halt cannot_get_service_directory_client
                (lib.registry_from_service_directory cli sd_settings)
              >>= λ r. passes (some r)

  -- The error of serego is dropped: `seregoClient, _ = …`.
  abbrev pub or_nil : Result H → Option H
  or_nil (err e) = none
  or_nil (ok r) = some r

  abbrev pub use_cloud_map : CloudMapSettings → Stage (Option H)
  use_cloud_map settings =
      or_halt invalid_cloud_map_settings (parse_and_reset_aws_cloud_map_settings settings)
      >>= λ cm_settings.
          or_halt cannot_get_cloud_map_client
            (get_aws_client lib.aws at (some cm_settings.default_region) none).0
          >>= λ cli. passes (or_nil (lib.registry_from_cloud_map cli))

  -- The `switch`. The embedded pointer is followed first.
  abbrev pub by_settings :
      Option EtcdSettings
      → Option ServiceDirectorySettings
      → Option CloudMapSettings
      → Stage (Option H)
  by_settings (some etcd) d c = use_etcd etcd
  by_settings none (some d) c = use_service_directory d
  by_settings none none (some c) = use_cloud_map c
  by_settings none none none = passes none

  unfoldable pub get_registry : Option ServiceRegistrySettings → Stage (Option H)
  get_registry none = crashes
  get_registry (some r) =
      by_settings r.etcd_settings r.service_directory_settings r.cloud_map_settings

  -- The options of both controllers: `WatchNamespacesByDefault` is not set.
  abbrev pub options : Settings → ControllerOptions
  options settings = record {
    watch_namespaces_by_default = false;
    service_annotations = settings.annotations;
  }

  -- Errors of the two constructors are dropped.
  abbrev pub created : Result Controller → List Controller
  created (err e) = []
  created (ok c) = c ∷ []

  unfoldable pub new_controllers : Settings → H → List Controller
  new_controllers settings manager =
      created (new_namespace_controller lib.runtime (some manager) (some (options settings)))
      ++ created (new_service_controller lib.runtime (some manager) (some (options settings)))

  unfoldable pub run : Stage (Started H)
  unfolding load_settings get_registry new_controllers
  run = load_settings >>= λ settings.
      or_crash (persistent_meta at settings.cloud_metadata) >>= λ meta.
      get_registry settings.service_registry_settings >>= λ client.
      or_halt no_manager (new_manager lib.runtime "") >>= λ manager. passes (record {
        serego_client = client;
        meta = meta;
        manager = manager;
        controllers = new_controllers settings manager;
      })
