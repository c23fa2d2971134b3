-- ===== src/Controllers/Addresses.antt =====
-- pkg/controllers/utils.go: `tryResolveHostnames` and `getIPsFromService`. The name service is a
-- parameter: the answer to the n-th `net.LookupHost` of a check may depend on n. The pause between
-- attempts is not modelled.
pub mod Resolving
pub mod Collected
pub mod Returned
mod Tests
use Prim.Native.String
use cnwan_operator.Common.{
  ℕ, zero, suc, ◌+◌, String, Bool, true, false, Option, none, some, List, [], ◌∷◌, if◌then◌else◌,
  ◌==◌, nat_eq,
}
use cnwan_operator.Common.Result.{Result, ok, err, ◌>>=◌}
use cnwan_operator.GoMap.{Map, put, keys}
use cnwan_operator.Controllers.Objects.{Ingress, KubeService}

-- `net.LookupHost`, by the number of the call.
abbrev pub Resolver : Type 0
Resolver = ℕ → String → Result (List String)

-- `%w` of an error that may be nil.
abbrev pub wrapped : Option String → String
wrapped none = "%!w(<nil>)"
wrapped (some e) = e

-- `for attempts := 0; attempts < maxAttempts; attempts++`, by the attempts left; returns the
-- number of the next call too.
try_from : Resolver → String → ℕ → ℕ → Option String → Result (List String) × ℕ
try_from lookup_host host calls zero last =
    (err (String.◌++◌ "too many failed attempts to resolve hostname: " (wrapped last)), calls)
try_from lookup_host host calls (suc left) last = elim (lookup_host calls host) [
  | ok ips ↦ (ok ips, calls + 1)
  | err e ↦ try_from lookup_host host (calls + 1) left (some e)
]

unfoldable pub try_resolve_hostnames : Resolver → ℕ → String → ℕ → Result (List String) × ℕ
unfolding try_from
try_resolve_hostnames lookup_host calls host max_attempts =
    try_from lookup_host host calls max_attempts none

-- `for _, ip := range ips { ipsMap[ip] = true }`
unfoldable pub put_all : List String → Map Bool → Map Bool
put_all [] set = set
put_all (ip ∷ ips) set = put_all ips (put ip true set)

put_ip : Ingress → Map Bool → Map Bool
put_ip ing set = if ing.ip == "" then set else put ing.ip true set

-- `if attempts == 0 { attempts = 1 }`
at_least_one : ℕ → ℕ
at_least_one attempts = if nat_eq attempts 0 then 1 else attempts

-- The variables of the loop over the load balancer's ingress points.
pub record Progress : Type 0 where
  pub calls : ℕ
  pub attempts : ℕ
  pub set : Map Bool

abbrev add_resolved : Progress → Result (List String) × ℕ → Result Progress
add_resolved p (ok ips, calls) = ok (record p { calls = calls; set = put_all ips p.set })
add_resolved p (err e, calls) = err e

-- One round of that loop: an error ends the loop.
add_one : Resolver → Ingress → Progress → Result Progress
unfolding put_ip at_least_one
add_one lookup_host ing p =
    let with_ip = record p { set = put_ip ing p.set } in
    let tries = at_least_one p.attempts in
    if ing.hostname == ""
    then ok with_ip
    else add_resolved (record with_ip { attempts = tries })
        (try_resolve_hostnames lookup_host p.calls ing.hostname tries)

unfoldable pub add_ingress : Resolver → List Ingress → Progress → Result Progress
unfolding add_one
add_ingress lookup_host [] p = ok p
add_ingress lookup_host (ing ∷ rest) p =
    add_one lookup_host ing p >>= λ q. add_ingress lookup_host rest q

-- The order is that in which `range ipsMap` visits the keys.
abbrev listed : (List String → List String) → Result Progress → Result (List String)
listed order (ok p) = ok (order (keys p.set))
listed order (err e) = err e

abbrev start : KubeService → ℕ → Progress
start service attempts = record {
  calls = 0;
  attempts = attempts;
  set = put_all service.external_ips [];
}

unfoldable pub get_ips_from_service :
    Resolver → (List String → List String) → KubeService → ℕ → Result (List String)
get_ips_from_service lookup_host order service attempts =
    listed order (add_ingress lookup_host service.ingress (start service attempts))
