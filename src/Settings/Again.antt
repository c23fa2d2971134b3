-- ===== src/Settings/Again.antt =====
-- The parsed settings parse to themselves.
use cnwan_operator.Common.{
  ℕ, String, false, Option, none, some, List, [], ◌∷◌, ◌≡◌, ◌∙◌, refl, ap, arith, inl, inr, ◌==◌,
  Bool-cases, is_empty, ◌||◌, is_some,
}
use mathlib.Core.Path.{subst}
use cnwan_operator.Common.Outcome.{returns, after-eq-ok}
use cnwan_operator.Common.Result.{ok}
use cnwan_operator.GoMap.{Map, get, put}
use cnwan_operator.Settings.{
  ServiceDirectorySettings, CloudMapSettings, EtcdEndpoint, EtcdSettings, CloudMetadata,
  ServiceRegistrySettings, Settings, or_default, is_dup, with_endpoints, parse_endpoints,
  parse_etcd_settings, non_empty, parse_cloud_metadata, registries, parse_one, parse_registry,
  parse_and_validate_settings,
}
use cnwan_operator.Settings.Validity.{
  registry, parse_etcd_settings-valid, parse_etcd_settings-IsParsedEtcd, dereferenced-map,
}

parse_endpoints-again :
    (dups : Map ℕ) (endpoints : List EtcdEndpoint)
    → parse_endpoints dups (parse_endpoints dups endpoints) ≡ parse_endpoints dups endpoints
unfolding parse_endpoints
parse_endpoints-again dups [] = refl
parse_endpoints-again dups (endp ∷ endpoints) = elim (Bool-cases (endp.host == "")) [
  | inl empty ↦ rw empty (parse_endpoints-again dups endpoints)
  | inr named ↦ elim (Bool-cases (is_dup (get endp.host dups) (or_default endp.port))) [
    | inl dup ↦ rw (named, dup) (parse_endpoints-again dups endpoints)
    | inr new ↦
        let below = parse_endpoints-again (put endp.host (or_default endp.port) dups) endpoints in
        rw (named, new, named, new) (rw below refl)
  ]
]

non_empty-again : (o : Option String) → non_empty (non_empty o) ≡ non_empty o
non_empty-again none = refl
non_empty-again (some s) = ground arith

parse_cloud_metadata-again :
    (c : Option CloudMetadata)
    → parse_cloud_metadata (parse_cloud_metadata c) ≡ parse_cloud_metadata c
unfolding parse_cloud_metadata
parse_cloud_metadata-again none = refl
parse_cloud_metadata-again (some c) =
    let network = non_empty-again c.network in
    let sub_network = non_empty-again c.sub_network in
    elim (Bool-cases (is_some (non_empty c.network) || is_some (non_empty c.sub_network))) [
      | inl given ↦ rw given (rw (network, sub_network, given) refl)
      | inr absent ↦ rw absent refl
    ]

parse_etcd_settings-again :
    (s s' : EtcdSettings)
    → parse_etcd_settings s ≡ returns (ok s')
    → is_empty s'.endpoints ≡ false
    → parse_etcd_settings s' ≡ returns (ok s')
parse_etcd_settings-again s s' h some_left =
    let p = parse_etcd_settings-IsParsedEtcd s s' h in
    let endpoints = parse_endpoints [] p.given in
    subst
      (λ (t : EtcdSettings).
        (is_empty t.endpoints ≡ false) → parse_etcd_settings t ≡ returns (ok t))
      p.is
      (λ left.
        parse_etcd_settings-valid (with_endpoints s endpoints) endpoints left p.supported
          (dereferenced-map endpoints)
        ∙ ap (λ es. returns (ok (with_endpoints s es))) (parse_endpoints-again [] p.given))
      some_left

-- An etcd registry in the settings has an endpoint left.
abbrev pub HasEndpoints : Option EtcdSettings → Type 0
HasEndpoints none = Unit
HasEndpoints (some e) = is_empty e.endpoints ≡ false

parse_registry-again :
    (d : Option ServiceDirectorySettings) (e : Option EtcdSettings) (c : Option CloudMapSettings)
    (r : ServiceRegistrySettings)
    → parse_registry (some (registry d e c)) ≡ returns (ok r)
    → HasEndpoints r.etcd_settings
    → parse_registry (some r) ≡ returns (ok r)
unfolding parse_registry registries parse_one
parse_registry-again none none none r h left = cc h
parse_registry-again (some d) none none r h left =
    let is : registry (some d) none none ≡ r = cc h in
    subst (λ r. parse_registry (some r) ≡ returns (ok r)) is refl
parse_registry-again none none (some c) r h left =
    let is : registry none none (some c) ≡ r = cc h in
    subst (λ r. parse_registry (some r) ≡ returns (ok r)) is refl
parse_registry-again (some d) none (some c) r h left = cc h
parse_registry-again (some d) (some e) none r h left = cc h
parse_registry-again (some d) (some e) (some c) r h left = cc h
parse_registry-again none (some e) (some c) r h left = cc h
parse_registry-again none (some e) none r h left =
    let (parsed, is_ok, ends) = after-eq-ok (parse_etcd_settings e) _ h in
    let is : registry none (some parsed) none ≡ r = ends in
    subst
      (λ (r : ServiceRegistrySettings).
        HasEndpoints r.etcd_settings → parse_registry (some r) ≡ returns (ok r))
      is (λ left. rw (parse_etcd_settings-again e parsed is_ok left) refl) left

parsed_registry-again :
    (o : Option ServiceRegistrySettings) (q : ServiceRegistrySettings)
    → parse_registry o ≡ returns (ok q)
    → HasEndpoints q.etcd_settings
    → parse_registry (some q) ≡ returns (ok q)
unfolding parse_registry
parsed_registry-again none q h left = cc h
parsed_registry-again (some r) q h left =
    parse_registry-again r.service_directory_settings r.etcd_settings r.cloud_map_settings q h left

-- Settings that were accepted are accepted again, and parsing them once more changes nothing, unless
-- all their endpoints of etcd were left out because they had no host.
pub parse_and_validate_settings-again :
    (settings parsed : Settings) (r : ServiceRegistrySettings)
    → parse_and_validate_settings (some settings) ≡ returns (ok parsed)
    → parsed.service_registry_settings ≡ some r
    → HasEndpoints r.etcd_settings
    → parse_and_validate_settings (some parsed) ≡ returns (ok parsed)
unfolding parse_and_validate_settings
parse_and_validate_settings-again settings parsed r h at_r left =
    let (q, is_ok, ends) = after-eq-ok (parse_registry settings.service_registry_settings) _ h in
    let is : record settings {
      service_registry_settings = some q;
      cloud_metadata = parse_cloud_metadata settings.cloud_metadata;
    }
        ≡ parsed =
      ends in
    let same : some q ≡ some r = ap (λ (t : Settings). t.service_registry_settings) is ∙ at_r in
    let same_registry : q ≡ r = cc same in
    let left_in_q : HasEndpoints q.etcd_settings = rw same_registry left in
    let again = parsed_registry-again settings.service_registry_settings q is_ok left_in_q in
    subst (λ t. parse_and_validate_settings (some t) ≡ returns (ok t)) is
      (rw (again, parse_cloud_metadata-again settings.cloud_metadata) refl)
