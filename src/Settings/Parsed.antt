-- ===== src/Settings/Parsed.antt =====
-- The service registry of settings that were accepted.
use cnwan_operator.Common.{Option, none, some, ◌≡◌, ◌⊎◌, refl, inl, inr}
use mathlib.Core.Path.{subst}
use cnwan_operator.Common.Outcome.{returns, after-eq-ok}
use cnwan_operator.Common.Result.{ok}
use cnwan_operator.Settings.{
  ServiceDirectorySettings, CloudMapSettings, EtcdSettings, ServiceRegistrySettings, Settings,
  parse_etcd_settings, registries, parse_one, parse_registry, parse_and_validate_settings,
  parse_cloud_metadata,
}
use cnwan_operator.Settings.Validity.{registry}

-- There is one registry; if it is etcd, its settings were parsed.
abbrev pub IsParsed : ServiceRegistrySettings → Type 0
IsParsed r =
    ((e : EtcdSettings) × (e' : EtcdSettings) × (parse_etcd_settings e ≡ returns (ok e'))
      × (r.etcd_settings ≡ some e'))
    ⊎ ((d : ServiceDirectorySettings) × (r.etcd_settings ≡ none)
        × (r.service_directory_settings ≡ some d))
    ⊎ ((c : CloudMapSettings) × (r.etcd_settings ≡ none)
        × (r.service_directory_settings ≡ none)
        × (r.cloud_map_settings ≡ some c))

parts-IsParsed :
    (d : Option ServiceDirectorySettings) (e : Option EtcdSettings) (c : Option CloudMapSettings)
    (r : ServiceRegistrySettings)
    → parse_registry (some (registry d e c)) ≡ returns (ok r)
    → IsParsed r
unfolding parse_registry registries parse_one
parts-IsParsed none none none r h = cc h
parts-IsParsed (some d) none none r h =
    let is : registry (some d) none none ≡ r = cc h in
    subst (λ r. IsParsed r) is (inr (inl (d, refl, refl)))
parts-IsParsed none none (some c) r h =
    let is : registry none none (some c) ≡ r = cc h in
    subst (λ r. IsParsed r) is (inr (inr (c, refl, refl, refl)))
parts-IsParsed (some d) none (some c) r h = cc h
parts-IsParsed (some d) (some e) none r h = cc h
parts-IsParsed (some d) (some e) (some c) r h = cc h
parts-IsParsed none (some e) (some c) r h = cc h
parts-IsParsed none (some e) none r h =
    let (parsed, is_ok, ends) = after-eq-ok (parse_etcd_settings e) _ h in
    let is : registry none (some parsed) none ≡ r = ends in
    subst (λ r. IsParsed r) is (inl (e, parsed, is_ok, refl))

parse_registry-IsParsed :
    (o : Option ServiceRegistrySettings) (r : ServiceRegistrySettings)
    → parse_registry o ≡ returns (ok r)
    → IsParsed r
unfolding parse_registry
parse_registry-IsParsed none r h = cc h
parse_registry-IsParsed (some q) r h =
    parts-IsParsed q.service_directory_settings q.etcd_settings q.cloud_map_settings r h

pub parse_and_validate_settings-IsParsed :
    (o : Option Settings) (parsed : Settings)
    → parse_and_validate_settings o ≡ returns (ok parsed)
    → (r : ServiceRegistrySettings) × (parsed.service_registry_settings ≡ some r) × IsParsed r
unfolding parse_and_validate_settings
parse_and_validate_settings-IsParsed none parsed h = cc h
parse_and_validate_settings-IsParsed (some settings) parsed h =
    let (q, is_ok, ends) = after-eq-ok (parse_registry settings.service_registry_settings) _ h in
    let is : record settings {
      service_registry_settings = some q;
      cloud_metadata = parse_cloud_metadata settings.cloud_metadata;
    }
        ≡ parsed =
      ends in
    subst
      (λ (t : Settings).
        (r : ServiceRegistrySettings) × (t.service_registry_settings ≡ some r) × IsParsed r)
      is (q, refl, parse_registry-IsParsed settings.service_registry_settings q is_ok)
