-- ===== src/Operator/Starting.antt =====
-- What the operator works with once `run` has started it.
use cnwan_operator.Common.{
  String, false, Option, none, some, ◌≡◌, ◌≢◌, refl, sym, ap, ◌==◌, Bool-cases, Option-cases, inl,
  inr, All, All-append,
}
use mathlib.Core.Path.{subst}
use cnwan_operator.Common.Result.{Result, ok, err, IsErr}
use cnwan_operator.GoMap.{get}
use cnwan_operator.Settings.{
  ServiceRegistrySettings, EtcdSettings, ServiceDirectorySettings, CloudMapSettings, Settings,
}
use cnwan_operator.Settings.Parsed.{IsParsed}
use cnwan_operator.Cluster.{Surroundings}
use cnwan_operator.Startup.{parse_and_reset_aws_cloud_map_settings, parse_and_reset_gsd_settings}
use cnwan_operator.Startup.Metadata.{persistent_meta-owner}
use cnwan_operator.Startup.Clients.{get_etcd_client, get_gsd_client, get_aws_client}
use cnwan_operator.Controllers.Registration.{
  Controller, new_service_controller, new_namespace_controller, start_watch, Kind, services,
  namespaces,
}
use cnwan_operator.Controllers.Handling.{ControllerOptions}
use cnwan_operator.Operator.{
  passes, or_halt, or_crash, Libraries, Started, load_settings, use_etcd, use_service_directory,
  use_cloud_map, or_nil, get_registry, options, created, new_controllers, run,
  cannot_establish_connection_to_etcd, cannot_get_service_directory_client,
  invalid_service_directory_settings, cannot_get_cloud_map_client, invalid_cloud_map_settings,
}
use cnwan_operator.Operator.Stages.{bind-passes, or_halt-passes}
use cnwan_operator.Operator.Steps.{run-Steps, load_settings-IsParsed}

module _ {H : Type 0} (lib : Libraries H) (at : Surroundings) where
  use_etcd-client :
      (e : EtcdSettings) (client : Option H) → use_etcd lib at e ≡ passes client → client ≢ none
  use_etcd-client e client h =
      let (answer, _, h) = bind-passes (or_crash (get_etcd_client lib.etcd at e)) _ client h in
      let (cli, _, h) =
        bind-passes (or_halt cannot_establish_connection_to_etcd answer) _ client h in
      let (r, _, h) =
        bind-passes (or_halt cannot_establish_connection_to_etcd (lib.registry_from_etcd cli)) _
          client h in
      λ e. cc (h, e)

  use_service_directory-client :
      (d : ServiceDirectorySettings) (client : Option H)
      → use_service_directory lib at d ≡ passes client
      → client ≢ none
  use_service_directory-client d client h =
      let (cli, _, h) =
        bind-passes
          (or_halt cannot_get_service_directory_client (get_gsd_client lib.registration_client at))
          _ client h in
      let (sd_settings, _, h) =
        bind-passes (or_halt invalid_service_directory_settings (parse_and_reset_gsd_settings at d))
          _ client h in
      let (r, _, h) =
        bind-passes
          (or_halt cannot_get_service_directory_client
            (lib.registry_from_service_directory cli sd_settings))
          _ client h in
      λ e. cc (h, e)

  parsed_region :
      (c c' : CloudMapSettings)
      → parse_and_reset_aws_cloud_map_settings c ≡ ok c'
      → c'.default_region ≡ c.default_region
  unfolding parse_and_reset_aws_cloud_map_settings
  parsed_region c c' h = elim (Bool-cases (c.default_region == "")) [
    | inl missing ↦ let clash = simp missing at h in cc clash
    | inr given ↦
        let is : record { default_region = c.default_region } ≡ c' = cc (simp given at h) in
        sym (ap (λ (t : CloudMapSettings). t.default_region) is)
  ]

  -- Cloud Map's client was made, or is nil, and serego refuses it.
  abbrev pub IsRefused : CloudMapSettings → Type 0
  IsRefused c =
      (cli : Option H) × ((get_aws_client lib.aws at (some c.default_region) none).0 ≡ ok cli)
      × IsErr (lib.registry_from_cloud_map cli)

  or_nil-none : (r : Result H) → or_nil lib at r ≡ none → IsErr r
  or_nil-none (ok x) h = cc h
  or_nil-none (err e) h = (e, refl)

  use_cloud_map-client : (c : CloudMapSettings) → use_cloud_map lib at c ≡ passes none → IsRefused c
  use_cloud_map-client c h =
      let (cm_settings, h_settings, h) =
        bind-passes (or_halt invalid_cloud_map_settings (parse_and_reset_aws_cloud_map_settings c))
          _ none h in
      let (cli, h_cli, h) =
        bind-passes
          (or_halt cannot_get_cloud_map_client
            (get_aws_client lib.aws at (some cm_settings.default_region) none).0)
          _ none h in
      let same : cm_settings.default_region ≡ c.default_region =
        parsed_region c cm_settings
          (or_halt-passes invalid_cloud_map_settings _ cm_settings h_settings) in
      let got = or_halt-passes cannot_get_cloud_map_client _ cli h_cli in
      (
        cli,
        subst (λ (region : String). (get_aws_client lib.aws at (some region) none).0 ≡ ok cli) same
            got,
        or_nil-none (lib.registry_from_cloud_map cli) (cc h),
      )

  get_registry-client :
      (o : Option ServiceRegistrySettings) (r : ServiceRegistrySettings)
      → o ≡ some r
      → IsParsed r
      → get_registry lib at o ≡ passes none
      → (c : CloudMapSettings) × (r.cloud_map_settings ≡ some c) × IsRefused c
  unfolding get_registry
  get_registry-client o r is (inl (e, e', parsed, etcd)) h =
      absurd (use_etcd-client e' none (simp (is, etcd) at h) refl)
  get_registry-client o r is (inr (inl (d, no_etcd, directory))) h =
      absurd (use_service_directory-client d none (simp (is, no_etcd, directory) at h) refl)
  get_registry-client o r is (inr (inr (c, no_etcd, no_directory, cloud_map))) h =
      (c, cloud_map, use_cloud_map-client c (simp (is, no_etcd, no_directory, cloud_map) at h))

module _ {H : Type 0} (lib : Libraries H) (at : Surroundings) where
  abbrev HasOptions : ControllerOptions → Controller → Type 0
  HasOptions opts c = c.options ≡ opts

  start_watch-options :
      (name : String) (kind : Kind) (opts : ControllerOptions)
      → All (HasOptions opts) (created lib at (start_watch lib.runtime name kind opts))
  start_watch-options name kind opts = elim (Option-cases (lib.runtime.controller_error name)) [
    | inr (e, failed) ↦ simp failed tt
    | inl made ↦ elim (Option-cases (lib.runtime.watch_error kind)) [
      | inr (e, failed) ↦ simp (made, failed) tt
      | inl watching ↦ simp (made, watching) (refl, tt)
    ]
  ]

  new_controllers-options :
      (settings : Settings) (manager : H)
      → All (HasOptions (options lib at settings)) (new_controllers lib at settings manager)
  unfolding new_controllers new_namespace_controller new_service_controller
  new_controllers-options settings manager =
      All-append (HasOptions (options lib at settings)) _ _
        (start_watch-options "namespace-event-handler" namespaces (options lib at settings))
        (start_watch-options "service-event-handler" services (options lib at settings))

-- If `run` starts the operator, the metadata for all objects names it as their owner, and every
-- controller has the annotations of the settings and does not watch namespaces by default, whatever
-- the settings say about that.
pub run-options :
    {H : Type 0} (lib : Libraries H) (at : Surroundings) (started : Started H)
    → run lib at ≡ passes started
    → (get "owner" started.meta ≡ some "cnwan-operator")
      × (settings : Settings) × (load_settings lib at ≡ passes settings)
      × All
          (λ (c : Controller). c.options ≡ record {
            watch_namespaces_by_default = false;
            service_annotations = settings.annotations;
          })
          started.controllers
run-options lib at started h =
    let steps = run-Steps lib at started h in
    (
      persistent_meta-owner at steps.settings.cloud_metadata started.meta steps.meta,
      steps.settings,
      steps.loaded,
      rw steps.controllers (new_controllers-options lib at steps.settings started.manager),
    )

-- If `run` starts the operator without a service registry, the settings name Cloud Map and serego
-- refused the client of AWS, an error that `run` drops.
pub run-serego_client :
    {H : Type 0} (lib : Libraries H) (at : Surroundings) (started : Started H)
    → run lib at ≡ passes started
    → started.serego_client ≡ none
    → (settings : Settings) × (load_settings lib at ≡ passes settings)
      × (r : ServiceRegistrySettings) × (settings.service_registry_settings ≡ some r)
      × (c : CloudMapSettings) × (r.cloud_map_settings ≡ some c)
      × IsRefused lib at c
run-serego_client lib at started h no_client =
    let steps = run-Steps lib at started h in
    let (r, is, parsed) = load_settings-IsParsed lib at steps.settings steps.loaded in
    let (c, cloud_map, refused) =
      get_registry-client lib at steps.settings.service_registry_settings r is parsed
        (rw no_client at steps.client) in
    (steps.settings, steps.loaded, r, is, c, cloud_map, refused)
