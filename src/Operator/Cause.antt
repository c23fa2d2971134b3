-- ===== src/Operator/Cause.antt =====
-- What makes `run` return an error, for each exit code.
use cnwan_operator.Common.{ℕ, String, ℕ, Option, none, some, ◌≡◌}
use cnwan_operator.Common.Result.{ok, err}
use cnwan_operator.Settings.{
  CloudMapSettings, parse_and_validate_settings, ServiceRegistrySettings, EtcdSettings,
  ServiceDirectorySettings, Settings,
}
use cnwan_operator.Cluster.{Surroundings, get_operator_settings_config_map}
use cnwan_operator.Common.Outcome.{returns}
use cnwan_operator.Startup.{parse_and_reset_aws_cloud_map_settings, parse_and_reset_gsd_settings}
use cnwan_operator.Startup.Clients.{get_etcd_client, get_gsd_client, get_aws_client}
use cnwan_operator.Controllers.Registration.{new_manager}
use cnwan_operator.Operator.{
  passes, Libraries, load_settings, cannot_establish_connection_to_etcd,
  cannot_get_service_directory_client, invalid_service_directory_settings,
  cannot_get_cloud_map_client, invalid_cloud_map_settings, no_manager, settings_validation_error,
  cannot_unmarshal_configmap, cannot_get_configmap,
}

module _ {H : Type 0} (lib : Libraries H) (at : Surroundings) where
  -- The settings that were loaded name this service registry.
  pub record Names (r : ServiceRegistrySettings) : Type 0 where
    pub settings : Settings
    pub loaded : load_settings lib at ≡ passes settings
    pub is : settings.service_registry_settings ≡ some r

  -- What fails, with which error, for each code.
  pub data Cause : ℕ → String → Type 0 where
    no_configmap :
        {e : String} → get_operator_settings_config_map at ≡ err e → Cause cannot_get_configmap e
    no_yaml :
        {e : String} (settings_byte : String)
        → get_operator_settings_config_map at ≡ ok settings_byte
        → lib.unmarshal settings_byte ≡ err e
        → Cause cannot_unmarshal_configmap e
    not_valid :
        {e : String} (settings_byte : String) (o : Option Settings)
        → get_operator_settings_config_map at ≡ ok settings_byte
        → lib.unmarshal settings_byte ≡ ok o
        → parse_and_validate_settings o ≡ returns (err e)
        → Cause settings_validation_error e
    no_etcd_client :
        {e : String} (r : ServiceRegistrySettings) (etcd : EtcdSettings)
        → Names r
        → r.etcd_settings ≡ some etcd
        → get_etcd_client lib.etcd at etcd ≡ returns (err e)
        → Cause cannot_establish_connection_to_etcd e
    no_etcd_registry :
        {e : String} (r : ServiceRegistrySettings) (etcd : EtcdSettings) (cli : H)
        → Names r
        → r.etcd_settings ≡ some etcd
        → get_etcd_client lib.etcd at etcd ≡ returns (ok cli)
        → lib.registry_from_etcd cli ≡ err e
        → Cause cannot_establish_connection_to_etcd e
    no_directory_client :
        {e : String} (r : ServiceRegistrySettings) (d : ServiceDirectorySettings)
        → Names r
        → r.service_directory_settings ≡ some d
        → get_gsd_client lib.registration_client at ≡ err e
        → Cause cannot_get_service_directory_client e
    no_directory_settings :
        {e : String} (r : ServiceRegistrySettings) (d : ServiceDirectorySettings)
        → Names r
        → r.service_directory_settings ≡ some d
        → parse_and_reset_gsd_settings at d ≡ err e
        → Cause invalid_service_directory_settings e
    no_directory_registry :
        {e : String} (r : ServiceRegistrySettings) (d sd_settings : ServiceDirectorySettings)
        (cli : H)
        → Names r
        → r.service_directory_settings ≡ some d
        → get_gsd_client lib.registration_client at ≡ ok cli
        → parse_and_reset_gsd_settings at d ≡ ok sd_settings
        → lib.registry_from_service_directory cli sd_settings ≡ err e
        → Cause cannot_get_service_directory_client e
    no_cloud_map_settings :
        {e : String} (r : ServiceRegistrySettings) (c : CloudMapSettings)
        → Names r
        → r.cloud_map_settings ≡ some c
        → parse_and_reset_aws_cloud_map_settings c ≡ err e
        → Cause invalid_cloud_map_settings e
    no_cloud_map_client :
        {e : String} (r : ServiceRegistrySettings) (c cm_settings : CloudMapSettings)
        → Names r
        → r.cloud_map_settings ≡ some c
        → parse_and_reset_aws_cloud_map_settings c ≡ ok cm_settings
        → (get_aws_client lib.aws at (some cm_settings.default_region) none).0 ≡ err e
        → Cause cannot_get_cloud_map_client e
    without_manager : {e : String} → new_manager lib.runtime "" ≡ err e → Cause no_manager e
