-- ===== src/Operator/Steps.antt =====
-- The steps that `run` has taken once it has started the operator.
use cnwan_operator.Common.{ap, ◌∙◌, some, ◌≡◌, refl}
use mathlib.Core.Path.{subst}
use cnwan_operator.Common.Result.{ok}
use cnwan_operator.Settings.{parse_and_validate_settings, ServiceRegistrySettings, Settings}
use cnwan_operator.Settings.Parsed.{IsParsed, parse_and_validate_settings-IsParsed}
use cnwan_operator.Cluster.{Surroundings, get_operator_settings_config_map}
use cnwan_operator.Common.Outcome.{returns}
use cnwan_operator.Startup.{persistent_meta}
use cnwan_operator.Controllers.Registration.{new_manager}
use cnwan_operator.Operator.{
  passes, or_halt, or_crash, Libraries, Started, load_settings, get_registry, new_controllers, run,
  no_manager, settings_validation_error, cannot_unmarshal_configmap, cannot_get_configmap,
}
use cnwan_operator.Operator.Stages.{bind-passes, or_halt-passes, or_crash-passes}

module _ {H : Type 0} (lib : Libraries H) (at : Surroundings) where
  -- The steps of a `run` that has started.
  pub record Steps (started : Started H) : Type 0 where
    pub settings : Settings
    pub loaded : load_settings lib at ≡ passes settings
    pub meta : persistent_meta at settings.cloud_metadata ≡ returns started.meta
    pub client :
        get_registry lib at settings.service_registry_settings ≡ passes started.serego_client
    pub manager : new_manager lib.runtime "" ≡ ok started.manager
    pub controllers : started.controllers ≡ new_controllers lib at settings started.manager

  pub run-Steps : (started : Started H) → run lib at ≡ passes started → Steps started
  unfolding run
  run-Steps started h =
      let (settings, loaded, h) = bind-passes (load_settings lib at) _ started h in
      let (meta, h_meta, h) =
        bind-passes (or_crash (persistent_meta at settings.cloud_metadata)) _ started h in
      let (client, h_client, h) =
        bind-passes (get_registry lib at settings.service_registry_settings) _ started h in
      let (manager, h_manager, h) =
        bind-passes (or_halt no_manager (new_manager lib.runtime "")) _ started h in
      let is : record {
        serego_client = client;
        meta = meta;
        manager = manager;
        controllers = new_controllers lib at settings manager;
      }
          ≡ started =
        cc h in
      subst (λ (t : Started H). Steps t) is
        (record {
          settings = settings;
          loaded = loaded;
          meta = or_crash-passes _ meta h_meta;
          client = h_client;
          manager = or_halt-passes no_manager _ manager h_manager;
          controllers = refl;
        })

  pub load_settings-IsParsed :
      (settings : Settings)
      → load_settings lib at ≡ passes settings
      → (r : ServiceRegistrySettings) × (settings.service_registry_settings ≡ some r) × IsParsed r
  unfolding load_settings
  load_settings-IsParsed settings h =
      let (settings_byte, _, h) =
        bind-passes (or_halt cannot_get_configmap (get_operator_settings_config_map at)) _ settings
          h in
      let (o, _, h) =
        bind-passes (or_halt cannot_unmarshal_configmap (lib.unmarshal settings_byte)) _ settings
          h in
      let (answer, got, h) = bind-passes (or_crash (parse_and_validate_settings o)) _ settings h in
      parse_and_validate_settings-IsParsed o settings (
        or_crash-passes _ answer got
        ∙ ap (λ x. returns x) (or_halt-passes settings_validation_error answer settings h))
