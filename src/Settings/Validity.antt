-- ===== src/Settings/Validity.antt =====
-- Which settings are accepted, and what of them is kept.
use cnwan_operator.Common.{
  Bool-cases, ◌==◌, map, List, ◌∷◌, Elem, ◌≢◌, String, false, Option, none, some, [], ◌≡◌, ◌↔◌, ◌⊎◌,
  refl, inl, inr, eq_iff, is_empty, Option-cases, sym, ◌∙◌,
}
use mathlib.Core.Path.{subst}
use cnwan_operator.Common.Outcome.{Outcome, returns, panics, after-eq-ok}
use cnwan_operator.Common.Result.{Result, ok, err}
use cnwan_operator.Settings.{
  ServiceDirectorySettings, EtcdSettings, CloudMapSettings, ServiceRegistrySettings, Settings,
  etcd_auth_with_nothing, etcd_auth_with_username_passw, EtcdEndpoint, dereferenced, with_endpoints,
  parse_endpoints, parse_etcd_settings, registries, parse_one, parse_registry,
  parse_and_validate_settings, parse_cloud_metadata,
}

-- The settings of etcd name an endpoint and a way to log in that is supported, and no endpoint is nil.
abbrev pub IsValidEtcd : EtcdSettings → Type 0
IsValidEtcd s =
    (is_empty s.endpoints ≡ false)
    × (¬ Elem none s.endpoints)
    × ((s.authentication ≡ etcd_auth_with_nothing)
        ⊎ (s.authentication ≡ etcd_auth_with_username_passw))

-- Exactly one service registry is given; if that is etcd, its settings are valid.
abbrev pub IsValidRegistry :
    Option ServiceDirectorySettings → Option EtcdSettings → Option CloudMapSettings → Type 0
IsValidRegistry none none none = ⊥
IsValidRegistry (some d) none none = Unit
IsValidRegistry none (some e) none = IsValidEtcd e
IsValidRegistry none none (some c) = Unit
IsValidRegistry (some d) (some e) c = ⊥
IsValidRegistry (some d) none (some c) = ⊥
IsValidRegistry none (some e) (some c) = ⊥

pub dereferenced-map :
    (endpoints : List EtcdEndpoint) → dereferenced (map some endpoints) ≡ returns endpoints
unfolding dereferenced
dereferenced-map [] = refl
dereferenced-map (endp ∷ endpoints) = rw (dereferenced-map endpoints) refl

-- Nothing is nil, or the loop panics.
pub dereferenced-cases :
    (endpoints : List (Option EtcdEndpoint))
    → ((given : List EtcdEndpoint) × (dereferenced endpoints ≡ returns given)
        × ¬ Elem none endpoints)
      ⊎ ((dereferenced endpoints ≡ panics) × Elem none endpoints)
unfolding dereferenced
dereferenced-cases [] = inl ([], refl, λ m. absurd m)
dereferenced-cases (none ∷ endpoints) = inr (refl, inl refl)
dereferenced-cases (some endp ∷ endpoints) = elim (dereferenced-cases endpoints) [
  | inl (given, is, all_given) ↦
      inl (endp ∷ given, rw is refl, λ m. elim m [ inl e ↦ cc e | inr later ↦ all_given later ])
  | inr (is, missing) ↦ inr (rw is refl, inr missing)
]

abbrev pub IsSupported : EtcdSettings → Type 0
IsSupported s =
    (s.authentication ≡ etcd_auth_with_nothing) ⊎ (s.authentication ≡ etcd_auth_with_username_passw)

pub parse_etcd_settings-valid :
    (s : EtcdSettings) (given : List EtcdEndpoint)
    → is_empty s.endpoints ≡ false
    → IsSupported s
    → dereferenced s.endpoints ≡ returns given
    → parse_etcd_settings s ≡ returns (ok (with_endpoints s (parse_endpoints [] given)))
unfolding parse_etcd_settings
parse_etcd_settings-valid s given some_given (inl nothing) is = simp (some_given, nothing, is)
parse_etcd_settings-valid s given some_given (inr passw) is = simp (some_given, passw, is)

-- An outcome that is not an error needs an endpoint and a way to log in.
pub parse_etcd_settings-IsSupported :
    (s : EtcdSettings)
    → ((e : String) → parse_etcd_settings s ≢ returns (err e))
    → (is_empty s.endpoints ≡ false) × IsSupported s
unfolding parse_etcd_settings
parse_etcd_settings-IsSupported s h = elim (Bool-cases (is_empty s.endpoints)) [
  | inl nobody ↦ absurd (h "no etcd endpoints provided" (rw nobody refl))
  | inr some_given ↦ elim (Bool-cases (s.authentication == "")) [
    | inl nothing ↦ (some_given, inl ((eq_iff s.authentication "").0 nothing))
    | inr other ↦ elim (Bool-cases (s.authentication == "WithUsernameAndPassword")) [
      | inl passw ↦ (some_given, inr ((eq_iff s.authentication "WithUsernameAndPassword").0 passw))
      | inr neither ↦ elim (Bool-cases (s.authentication == "WithTLS")) [
        | inl tls ↦ absurd (
            h "etcd authentication with TLS is not supported yet"
              (rw (some_given, other, neither, tls) refl))
        | inr unknown ↦ absurd (
            h "unrecognized authentication method for etcd"
              (rw (some_given, other, neither, unknown) refl))
      ]
    ]
  ]
]

pub parse_etcd_settings-nil :
    (s : EtcdSettings)
    → is_empty s.endpoints ≡ false
    → IsSupported s
    → dereferenced s.endpoints ≡ panics
    → parse_etcd_settings s ≡ panics
unfolding parse_etcd_settings
parse_etcd_settings-nil s some_given (inl nothing) is = simp (some_given, nothing, is)
parse_etcd_settings-nil s some_given (inr passw) is = simp (some_given, passw, is)

-- What was parsed.
pub record IsParsedEtcd (s parsed : EtcdSettings) : Type 0 where
  pub given : List EtcdEndpoint
  pub some_given : is_empty s.endpoints ≡ false
  pub supported : IsSupported s
  pub followed : dereferenced s.endpoints ≡ returns given
  pub complete : ¬ Elem none s.endpoints
  pub is : with_endpoints s (parse_endpoints [] given) ≡ parsed

pub parse_etcd_settings-IsParsedEtcd :
    (s parsed : EtcdSettings) → parse_etcd_settings s ≡ returns (ok parsed) → IsParsedEtcd s parsed
parse_etcd_settings-IsParsedEtcd s parsed h =
    let (some_given, supported) = parse_etcd_settings-IsSupported s (λ e failed. cc (h, failed)) in
    elim (dereferenced-cases s.endpoints) [
      | inr (nil, missing) ↦
          let panic = parse_etcd_settings-nil s some_given supported nil in cc (panic, h)
      | inl (given, followed, complete) ↦
          let valid = parse_etcd_settings-valid s given some_given supported followed in
          record {
            given = given;
            some_given = some_given;
            supported = supported;
            followed = followed;
            complete = complete;
            is = cc (sym valid ∙ h);
          }
    ]

pub authentication_of_parsed :
    (s parsed : EtcdSettings) → parse_etcd_settings s ≡ returns (ok parsed) → IsSupported parsed
authentication_of_parsed s parsed h =
    let p = parse_etcd_settings-IsParsedEtcd s parsed h in
    subst (λ (t : EtcdSettings). IsSupported t) p.is p.supported

abbrev pub registry :
    Option ServiceDirectorySettings
    → Option EtcdSettings
    → Option CloudMapSettings
    → ServiceRegistrySettings
registry d e c = record {
  service_directory_settings = d;
  etcd_settings = e;
  cloud_map_settings = c;
}

-- Neither an error nor a panic.
abbrev pub Accepted : {A : Type 0} → Outcome (Result A) → Type 0
Accepted {A = A} o = (a : A) × (o ≡ returns (ok a))

parse_registry-IsOk :
    (d : Option ServiceDirectorySettings) (e : Option EtcdSettings) (c : Option CloudMapSettings)
    → Accepted (parse_registry (some (registry d e c))) ↔ IsValidRegistry d e c
unfolding parse_registry registries parse_one
parse_registry-IsOk none none none = (λ (r, h). cc h, λ h. absurd h)
parse_registry-IsOk (some d) none none = (λ h. tt, λ h. (_, refl))
parse_registry-IsOk none none (some c) = (λ h. tt, λ h. (_, refl))
parse_registry-IsOk (some d) none (some c) = (λ (r, h). cc h, λ h. absurd h)
parse_registry-IsOk (some d) (some e) none = (λ (r, h). cc h, λ h. absurd h)
parse_registry-IsOk (some d) (some e) (some c) = (λ (r, h). cc h, λ h. absurd h)
parse_registry-IsOk none (some e) (some c) = (λ (r, h). cc h, λ h. absurd h)
parse_registry-IsOk none (some e) none = (
  λ (r, h).
      let (parsed, is_ok, _) = after-eq-ok (parse_etcd_settings e) _ h in
      let p = parse_etcd_settings-IsParsedEtcd e parsed is_ok in
      (p.some_given, p.complete, p.supported),
  λ (some_given, complete, supported). elim (dereferenced-cases e.endpoints) [
    | inr (_, missing) ↦ absurd (complete missing)
    | inl (given, followed, _) ↦ (
      registry none (some (with_endpoints e (parse_endpoints [] given))) none,
      rw (parse_etcd_settings-valid e given some_given supported followed) refl,
    )
  ],
)

-- Settings are accepted exactly if there is one service registry in them and no second, and, if that
-- is etcd, it has an endpoint, none of its endpoints is nil, and it logs in with nothing or with username
-- and password.
pub parse_and_validate_settings-IsOk :
    (settings : Settings)
    → Accepted (parse_and_validate_settings (some settings)) ↔ (
        (r : ServiceRegistrySettings) × (settings.service_registry_settings ≡ some r)
        × IsValidRegistry r.service_directory_settings r.etcd_settings r.cloud_map_settings)
unfolding parse_and_validate_settings
parse_and_validate_settings-IsOk settings = (
  λ (parsed, h).
      let (r, is_ok, _) = after-eq-ok (parse_registry settings.service_registry_settings) _ h in
      elim (Option-cases settings.service_registry_settings) [
        | inl missing ↦ let clash = rw missing at is_ok in unfold parse_registry in cc clash
        | inr (given, is) ↦ (
          given,
          is,
          (parse_registry-IsOk given.service_directory_settings given.etcd_settings
                given.cloud_map_settings).0
              (r, rw is at is_ok),
        )
      ],
  λ (given, is, valid).
      let (r, is_ok) =
        (parse_registry-IsOk given.service_directory_settings given.etcd_settings
            given.cloud_map_settings).1
          valid in
      (
        record settings {
          service_registry_settings = some r;
          cloud_metadata = parse_cloud_metadata settings.cloud_metadata;
        },
        rw is (rw is_ok refl),
      ),
)
