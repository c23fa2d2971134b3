-- ===== src/Controllers/Registration.antt =====
-- The constructors of pkg/controllers: NewManager of manager.go, NewServiceController of service.go and
-- NewNamespaceController of namespace.go. What controller-runtime returns is an argument.
use cnwan_operator.Common.{String, Option, none, some, ◌==◌, if◌then◌else◌}
use cnwan_operator.Common.Result.{Result, ok, err, ◌>>=◌, wrap}
use cnwan_operator.Controllers.Handling.{ControllerOptions}

-- What a controller watches.
pub data Kind : Type 0 where
  services namespaces : Kind

-- A controller and the event handler that it feeds, with the handler's options.
pub record Controller : Type 0 where
  pub name : String
  pub watches : Kind
  pub options : ControllerOptions

-- `controller.New` by the controller's name, and `Watch`.
pub record Runtime (Config Manager : Type 0) : Type 0 where
  pub scheme_error : Option String
  pub get_config : Result Config
  pub build_config_from_flags : String → Result Config
  pub manager : Config → Result Manager
  pub controller_error : String → Option String
  pub watch_error : Kind → Option String

abbrev pub error_invalid_manager : String
error_invalid_manager = "invalid manager provided"

abbrev pub error_invalid_controller_options : String
error_invalid_controller_options = "invalid controller options provided"

-- `if err != nil { return nil, err }` of a call that returns nothing else.
abbrev pub fail_or : {A : Type 0} → Option String → Result A → Result A
fail_or (some e) rest = err e
fail_or none rest = rest

module _ {Config Manager : Type 0} (runtime : Runtime Config Manager) where
  unfoldable pub new_manager : String → Result Manager
  new_manager kubeconfig_path =
      wrap "could not add to scheme: " (fail_or runtime.scheme_error (ok tt)) >>= λ _.
      wrap "could not get config: " (
        if kubeconfig_path == ""
        then runtime.get_config
        else runtime.build_config_from_flags kubeconfig_path)
      >>= λ cfg. runtime.manager cfg

  abbrev pub start_watch : String → Kind → ControllerOptions → Result Controller
  start_watch name kind opts = fail_or (runtime.controller_error name) (
      fail_or (runtime.watch_error kind)
        (ok (record { name = name; watches = kind; options = opts })))

  unfoldable pub new_service_controller :
      Option Manager → Option ControllerOptions → Result Controller
  new_service_controller none opts = err error_invalid_manager
  new_service_controller (some mgr) none = err error_invalid_controller_options
  new_service_controller (some mgr) (some opts) = start_watch "service-event-handler" services opts

  unfoldable pub new_namespace_controller :
      Option Manager → Option ControllerOptions → Result Controller
  new_namespace_controller none opts = err error_invalid_manager
  new_namespace_controller (some mgr) none = err error_invalid_controller_options
  new_namespace_controller (some mgr) (some opts) =
      start_watch "namespace-event-handler" namespaces opts
