-- ===== src/Operator/Tests.antt =====
-- Tests of `run`: with etcd, with Cloud Map on EKS, and with a configmap that is missing.
use cnwan_operator.Common.{
  ◌⊎◌, String, true, false, Option, none, some, [], ◌∷◌, ◌≡◌, ◌↔◌, refl, All,
}
use cnwan_operator.Common.Result.{ok, err}
use cnwan_operator.GoMap.{get}
use cnwan_operator.Settings.{
  CloudMapSettings, ServiceRegistrySettings, Settings, parse_and_validate_settings, parse_registry,
  parse_etcd_settings, dereferenced, parse_cloud_metadata, parse_endpoints, registries,
}
use cnwan_operator.Cluster.{
  eks_cluster, Surroundings, get_operator_settings_config_map, get_aws_credentials_secret,
}
use cnwan_operator.Startup.{
  persistent_meta, etcd_addresses, parse_and_reset_aws_cloud_map_settings, owner_meta,
}
use cnwan_operator.Startup.Clients.{get_etcd_client, get_aws_client}
use cnwan_operator.Controllers.Registration.{
  Runtime, Controller, Kind, new_manager, new_service_controller, new_namespace_controller,
  services, namespaces,
}
use cnwan_operator.Operator.{
  halts, crashes, passes, Libraries, Started, load_settings, get_registry, new_controllers, run,
  cannot_get_configmap,
}
use cnwan_operator.Operator.Starting.{run-options, run-serego_client, IsRefused}
use cnwan_operator.Operator.Crash.{run-crashes, HoldsNil, AsksOnEks}
use cnwan_operator.Operator.Cause.{Cause}
use cnwan_operator.Operator.Exit.{run-Cause}

abbrev runtime : Runtime String String
runtime = record {
  scheme_error = none;
  get_config = ok "config";
  build_config_from_flags = λ path. ok path;
  manager = λ config. ok "manager";
  controller_error = λ name. none;
  watch_error = λ kind. none;
}

-- serego takes no client of Cloud Map.
abbrev libraries : Settings → Libraries String
libraries settings = record {
  unmarshal = λ text. ok (some settings);
  etcd = λ config. ok "etcd";
  registry_from_etcd = λ cli. ok cli;
  registration_client = λ credentials. ok "directory";
  registry_from_service_directory = λ cli sd_settings. ok cli;
  aws = record { write_error = none; load_default_config = λ region file. err "no profile" };
  registry_from_cloud_map = λ cli. err "no client";
  runtime = runtime;
}

abbrev settings_for : ServiceRegistrySettings → Settings
settings_for r = record {
  watch_namespaces_by_default = true;
  annotations = "cnwan.io/*" ∷ [];
  service_registry_settings = some r;
  cloud_metadata = none;
}

abbrev etcd_registry : ServiceRegistrySettings
etcd_registry = record {
  service_directory_settings = none;
  etcd_settings = some (record {
    authentication = "";
    prefix = none;
    endpoints = some (record { host = "etcd.example"; port = some 2379 }) ∷ [];
  });
  cloud_map_settings = none;
}

abbrev cloud_map_registry : ServiceRegistrySettings
cloud_map_registry = record {
  service_directory_settings = none;
  etcd_settings = none;
  cloud_map_settings = some (record { default_region = "us-west-2" });
}

abbrev cluster : Surroundings
cluster = record {
  running_in = eks_cluster;
  secret = λ name. ok (("key", "secret") ∷ []);
  config_map = λ name. ok (("settings.yaml", "text") ∷ []);
  zone = ok "us-west1-a";
  project_id = ok "project";
  cluster_name = ok "cluster";
  get_cluster = λ credentials project_id zone cluster_name. err "no network";
}

abbrev controller : String → Kind → Controller
controller name kind = record {
  name = name;
  watches = kind;
  options = record { watch_namespaces_by_default = false; service_annotations = "cnwan.io/*" ∷ [] };
}

abbrev started_with : Option String → Started String
started_with client = record {
  serego_client = client;
  meta = owner_meta;
  manager = "manager";
  controllers =
      controller "namespace-event-handler" namespaces
      ∷ controller "service-event-handler" services
      ∷ [];
}

etcd_starts :
    run (libraries (settings_for etcd_registry)) cluster ≡ passes (started_with (some "etcd"))
unfolding run load_settings get_operator_settings_config_map parse_and_validate_settings
    parse_registry parse_etcd_settings dereferenced parse_endpoints registries parse_cloud_metadata
    persistent_meta get_registry get_etcd_client etcd_addresses new_manager new_controllers
    new_namespace_controller new_service_controller get
etcd_starts = refl

cloud_map_starts :
    run (libraries (settings_for cloud_map_registry)) cluster ≡ passes (started_with none)
unfolding run load_settings get_operator_settings_config_map parse_and_validate_settings
    parse_registry registries parse_cloud_metadata persistent_meta get_registry
    parse_and_reset_aws_cloud_map_settings get_aws_client get_aws_credentials_secret new_manager
    new_controllers new_namespace_controller new_service_controller
cloud_map_starts = refl

run-options_example :
    (get "owner" owner_meta ≡ some "cnwan-operator")
    × (settings : Settings) × (load_settings (libraries (settings_for etcd_registry)) cluster
        ≡ passes settings)
    × All
        (λ (c : Controller). c.options ≡ record {
          watch_namespaces_by_default = false;
          service_annotations = settings.annotations;
        })
        (started_with (some "etcd")).controllers
run-options_example =
    run-options (libraries (settings_for etcd_registry)) cluster (started_with (some "etcd"))
      etcd_starts

run-serego_client_example :
    (settings : Settings) × (load_settings (libraries (settings_for cloud_map_registry)) cluster
      ≡ passes settings)
    × (r : ServiceRegistrySettings) × (settings.service_registry_settings ≡ some r)
    × (c : CloudMapSettings) × (r.cloud_map_settings ≡ some c)
    × IsRefused (libraries (settings_for cloud_map_registry)) cluster c
run-serego_client_example =
    run-serego_client (libraries (settings_for cloud_map_registry)) cluster (started_with none)
      cloud_map_starts refl

-- The endpoints of etcd are a single null.
abbrev nil_registry : ServiceRegistrySettings
nil_registry = record {
  service_directory_settings = none;
  etcd_settings = some (record { authentication = ""; prefix = none; endpoints = none ∷ [] });
  cloud_map_settings = none;
}

nil_crashes : run (libraries (settings_for nil_registry)) cluster ≡ crashes
unfolding run load_settings get_operator_settings_config_map parse_and_validate_settings
    parse_registry parse_etcd_settings dereferenced registries parse_cloud_metadata
nil_crashes = refl

run-crashes_example : (run (libraries (settings_for nil_registry)) cluster ≡ crashes) ↔ (
    HoldsNil (libraries (settings_for nil_registry)) cluster
    ⊎ ((settings : Settings) × (load_settings (libraries (settings_for nil_registry)) cluster
          ≡ passes settings)
        × AsksOnEks (libraries (settings_for nil_registry)) cluster settings.cloud_metadata))
run-crashes_example = run-crashes (libraries (settings_for nil_registry)) cluster

-- A cluster without the configmap.
abbrev bare_cluster : Surroundings
bare_cluster = record cluster { config_map = λ name. err "not found" }

bare_halts :
    run (libraries (settings_for etcd_registry)) bare_cluster
    ≡ halts cannot_get_configmap "not found"
unfolding run load_settings get_operator_settings_config_map
bare_halts = refl

run-Cause_example :
    Cause (libraries (settings_for etcd_registry)) bare_cluster cannot_get_configmap "not found"
run-Cause_example =
    run-Cause (libraries (settings_for etcd_registry)) bare_cluster cannot_get_configmap "not found"
      bare_halts
