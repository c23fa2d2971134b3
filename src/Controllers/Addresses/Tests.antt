-- ===== src/Controllers/Addresses/Tests.antt =====
-- Tests of the addresses of a service: a hostname that the second look-up resolves, and one that no
-- look-up resolves.
use cnwan_operator.Common.{ℕ, ◌+◌, ◌<◌, String, [], ◌∷◌, ◌≡◌, ◌↔◌, ◌⊎◌, refl, inl, inr, Elem}
use cnwan_operator.Common.Result.{ok, err}
use cnwan_operator.GoMap.{put}
use cnwan_operator.Controllers.Objects.{Ingress}
use cnwan_operator.Controllers.Addresses.{
  try_resolve_hostnames, put_all, add_ingress, get_ips_from_service,
}
use cnwan_operator.Controllers.Addresses.Resolving.{FirstAnswer, try_resolve_hostnames-FirstAnswer}
use cnwan_operator.Controllers.Addresses.Collected.{Offers, Covers}
use cnwan_operator.Controllers.Addresses.Returned.{
  get_ips_from_service-Offers, get_ips_from_service-Covers,
}
use cnwan_operator.Controllers.Samples.{
  first_ip, second_ip, same_order, same_order-Rearranges, second_answers, balancer, web,
}

test_second_attempt : try_resolve_hostnames second_answers 0 "lb.example" 10 ≡ (ok ("b" ∷ []), 2)
unfolding try_resolve_hostnames
test_second_attempt = refl

test_one_attempt :
    try_resolve_hostnames second_answers 0 "lb.example" 1
    ≡ (err "too many failed attempts to resolve hostname: timeout", 1)
unfolding try_resolve_hostnames
test_one_attempt = refl

test_ips : get_ips_from_service second_answers same_order (web []) 10 ≡ ok ("a" ∷ "b" ∷ [])
unfolding get_ips_from_service add_ingress put_all put try_resolve_hostnames
test_ips = refl

try_resolve_hostnames-FirstAnswer_example :
    (try_resolve_hostnames second_answers 0 "lb.example" 10 ≡ (ok ("b" ∷ []), 2)) ↔ (
      (k : ℕ) × (k < 10) × FirstAnswer second_answers "lb.example" 0 k ("b" ∷ []) × (2 ≡ 0 + k + 1))
try_resolve_hostnames-FirstAnswer_example =
    try_resolve_hostnames-FirstAnswer second_answers 0 "lb.example" 10 ("b" ∷ []) 2

get_ips_from_service-Offers_example :
    Elem second_ip (first_ip ∷ [])
    ⊎ ((ing : Ingress) × Elem ing (balancer ∷ []) × Offers second_answers ing second_ip)
get_ips_from_service-Offers_example =
    get_ips_from_service-Offers second_answers same_order same_order-Rearranges (web []) 10
      ("a" ∷ "b" ∷ []) test_ips "b" (inr (inl refl))

get_ips_from_service-Covers_example :
    ((ip : String) → Elem ip ("a" ∷ []) → Elem ip ("a" ∷ "b" ∷ []))
    × ((ing : Ingress)
        → Elem ing (balancer ∷ [])
        → Covers second_answers (λ ip. Elem ip ("a" ∷ "b" ∷ [])) ing)
get_ips_from_service-Covers_example =
    get_ips_from_service-Covers second_answers same_order same_order-Rearranges (web []) 10
      ("a" ∷ "b" ∷ []) test_ips
