-- ===== src/Settings/Nil.antt =====
-- When the parsing of the settings follows a nil pointer.
use cnwan_operator.Common.{
  [], ◌∷◌, false, is_empty, Option, none, some, List, ◌≡◌, ◌↔◌, refl, inl, inr, Elem, Option-cases,
}
use mathlib.Core.Path.{subst}
use cnwan_operator.Common.Outcome.{panics, after-panics}
use cnwan_operator.Settings.{
  ServiceDirectorySettings, EtcdEndpoint, EtcdSettings, CloudMapSettings, ServiceRegistrySettings,
  Settings, parse_etcd_settings, registries, parse_one, parse_registry, parse_and_validate_settings,
}
use cnwan_operator.Settings.Validity.{
  IsSupported, registry, dereferenced-cases, parse_etcd_settings-IsSupported,
  parse_etcd_settings-nil, parse_etcd_settings-valid,
}

-- There is no service registry but etcd, with a way to log in that is supported, and one of its endpoints
-- is nil.
abbrev pub HasNilEndpoint :
    Option ServiceDirectorySettings → Option EtcdSettings → Option CloudMapSettings → Type 0
HasNilEndpoint d e c =
    (d ≡ none)
    × (c ≡ none)
    × (etcd : EtcdSettings) × (e ≡ some etcd)
    × IsSupported etcd
    × Elem none etcd.endpoints

some_given :
    (endpoints : List (Option EtcdEndpoint)) → Elem none endpoints → is_empty endpoints ≡ false
some_given [] m = absurd m
some_given (e ∷ endpoints) m = refl

parse_etcd_settings-panics :
    (s : EtcdSettings) → (parse_etcd_settings s ≡ panics) ↔ (IsSupported s × Elem none s.endpoints)
parse_etcd_settings-panics s = (
  λ h.
      let (some_given, supported) =
        parse_etcd_settings-IsSupported s (λ e failed. cc (h, failed)) in
      elim (dereferenced-cases s.endpoints) [
        | inl (given, followed, _) ↦
            let valid = parse_etcd_settings-valid s given some_given supported followed in
            cc (valid, h)
        | inr (_, missing) ↦ (supported, missing)
      ],
  λ (supported, missing). elim (dereferenced-cases s.endpoints) [
    | inl (_, _, complete) ↦ absurd (complete missing)
    | inr (nil, _) ↦ parse_etcd_settings-nil s (some_given s.endpoints missing) supported nil
  ],
)

parse_registry-panics :
    (d : Option ServiceDirectorySettings) (e : Option EtcdSettings) (c : Option CloudMapSettings)
    → (parse_registry (some (registry d e c)) ≡ panics) ↔ HasNilEndpoint d e c
unfolding parse_registry registries parse_one
parse_registry-panics none none none = (λ h. cc h, λ (_, _, e, is, _, _). cc is)
parse_registry-panics (some d) none none = (λ h. cc h, λ (other, _, _, _, _, _). cc other)
parse_registry-panics none none (some c) = (λ h. cc h, λ (_, other, _, _, _, _). cc other)
parse_registry-panics (some d) none (some c) = (λ h. cc h, λ (other, _, _, _, _, _). cc other)
parse_registry-panics (some d) (some e) none = (λ h. cc h, λ (other, _, _, _, _, _). cc other)
parse_registry-panics (some d) (some e) (some c) = (λ h. cc h, λ (other, _, _, _, _, _). cc other)
parse_registry-panics none (some e) (some c) = (λ h. cc h, λ (_, other, _, _, _, _). cc other)
parse_registry-panics none (some e) none = (
  λ h.
      let (supported, missing) =
        (parse_etcd_settings-panics e).0 (after-panics (parse_etcd_settings e) _ h) in
      (refl, refl, e, refl, supported, missing),
  λ (_, _, etcd, is, supported, missing).
      let same : etcd ≡ e = cc is in
      rw
        ((parse_etcd_settings-panics e).1 (
          subst (λ (s : EtcdSettings). IsSupported s × Elem none s.endpoints) same
            (supported, missing)))
        refl,
)

-- The settings have a service registry with a nil endpoint.
abbrev pub FollowsNil : Settings → Type 0
FollowsNil settings =
    (r : ServiceRegistrySettings) × (settings.service_registry_settings ≡ some r)
    × HasNilEndpoint r.service_directory_settings r.etcd_settings r.cloud_map_settings

pub parse_and_validate_settings-panics :
    (settings : Settings)
    → (parse_and_validate_settings (some settings) ≡ panics) ↔ FollowsNil settings
unfolding parse_and_validate_settings
parse_and_validate_settings-panics settings = (
  λ h.
      let now = after-panics (parse_registry settings.service_registry_settings) _ h in
      elim (Option-cases settings.service_registry_settings) [
        | inl missing ↦ let clash = rw missing at now in unfold parse_registry in cc clash
        | inr (r, is) ↦ (
          r,
          is,
          (parse_registry-panics r.service_directory_settings r.etcd_settings
                r.cloud_map_settings).0
              (rw is at now),
        )
      ],
  λ (r, is, nil).
      let panic =
        (parse_registry-panics r.service_directory_settings r.etcd_settings r.cloud_map_settings).1
          nil in
      rw is (rw panic refl),
)
