-- ===== src/Startup/Endpoints.antt =====
-- The addresses that `getEtcdClient` dials.
use Prim.Native.String
use cnwan_operator.Common.Text.{decimal}
use cnwan_operator.Common.{
  ap, ℕ, String, some, List, [], ◌∷◌, map, ◌≡◌, refl, sym, inl, inr, All, ◌==◌, Bool-cases,
}
use cnwan_operator.Common.Result.{ok}
use cnwan_operator.GoMap.{Map, get, put}
use cnwan_operator.Settings.{
  EtcdEndpoint, EtcdSettings, or_default, is_dup, parse_endpoints, parse_etcd_settings,
}
use cnwan_operator.Settings.Validity.{parse_etcd_settings-IsParsedEtcd}
use cnwan_operator.Common.Outcome.{returns}
use cnwan_operator.Startup.{etcd_addresses}

abbrev pub HasPort : EtcdEndpoint → Type 0
HasPort e = (port : ℕ) × (e.port ≡ some port)

parse_endpoints-HasPort :
    (dups : Map ℕ) (endpoints : List EtcdEndpoint) → All HasPort (parse_endpoints dups endpoints)
unfolding parse_endpoints
parse_endpoints-HasPort dups [] = tt
parse_endpoints-HasPort dups (endp ∷ endpoints) = elim (Bool-cases (endp.host == "")) [
  | inl empty ↦ rw empty (parse_endpoints-HasPort dups endpoints)
  | inr named ↦ elim (Bool-cases (is_dup (get endp.host dups) (or_default endp.port))) [
    | inl dup ↦ rw (named, dup) (parse_endpoints-HasPort dups endpoints)
    | inr new ↦
        rw (named, new)
          (
            (or_default endp.port, refl),
            parse_endpoints-HasPort (put endp.host (or_default endp.port) dups) endpoints,
          )
  ]
]

-- The address of an endpoint whose port is written out.
abbrev pub address_of : EtcdEndpoint → String
address_of e = String.◌++◌ e.host (String.◌++◌ ":" (decimal (or_default e.port)))

etcd_addresses-returns :
    (endpoints : List EtcdEndpoint)
    → All HasPort endpoints
    → etcd_addresses (map some endpoints) ≡ returns (map address_of endpoints)
unfolding etcd_addresses
etcd_addresses-returns [] h = refl
etcd_addresses-returns (e ∷ endpoints) ((port, is), h) =
    rw (is, etcd_addresses-returns endpoints h) refl

-- With settings that were parsed no nil pointer is followed: every endpoint is dialled at its host and
-- port, in the order of the settings.
pub etcd_addresses-parsed :
    (s parsed : EtcdSettings)
    → parse_etcd_settings s ≡ returns (ok parsed)
    → (endpoints : List EtcdEndpoint) × (parsed.endpoints ≡ map some endpoints)
      × (etcd_addresses parsed.endpoints ≡ returns (map address_of endpoints))
etcd_addresses-parsed s parsed h =
    let p = parse_etcd_settings-IsParsedEtcd s parsed h in
    let endpoints = parse_endpoints [] p.given in
    let is : map some endpoints ≡ parsed.endpoints = ap (λ (t : EtcdSettings). t.endpoints) p.is in
    (
      endpoints,
      sym is,
      rw (← is) (etcd_addresses-returns endpoints (parse_endpoints-HasPort [] p.given)),
    )
