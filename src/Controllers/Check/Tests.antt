-- ===== src/Controllers/Check/Tests.antt =====
-- Tests of `checkNsLabels` and `checkService`.
use cnwan_operator.Common.{true, none, [], ◌∷◌, ◌≡◌, ◌↔◌, ◌*◌, refl, Elem, length}
use cnwan_operator.Common.Result.{ok}
use cnwan_operator.Common.Text.{split, decimal, first_chars}
use cnwan_operator.GoMap.{has, put, HasDistinctKeys}
use cnwan_operator.ServiceRegistry.Events.{Endpoint}
use cnwan_operator.Controllers.Annotations.{filter_annotations}
use cnwan_operator.Controllers.Addresses.{
  try_resolve_hostnames, put_all, add_ingress, get_ips_from_service,
}
use cnwan_operator.Controllers.Check.{
  CheckServiceResult, check_service, to_be_hashed, make_endpoint,
}
use cnwan_operator.Controllers.Check.Passed.{HasAllowedAnnotation, HasAddress, check_service-passed}
use cnwan_operator.Controllers.Check.Endpoints.{IsMade, endpoint_for, check_service-IsMade}
use cnwan_operator.Controllers.Check.Names.{make_endpoint-name}
use cnwan_operator.Controllers.Samples.{
  http, https, first_ip, second_ip, surroundings, web, web_endpoint, profile, kept_profile, allowed,
}

abbrev checked : CheckServiceResult
checked = check_service surroundings (web (80 ∷ [])) allowed

test_checked : checked ≡ record {
  passed = true;
  reason = "";
  error = none;
  annotations = kept_profile;
  ips = "a" ∷ "b" ∷ [];
  endpoints = web_endpoint 80 "a" "web-a:80" ∷ web_endpoint 80 "b" "web-b:80" ∷ [];
}
unfolding check_service make_endpoint to_be_hashed decimal first_chars filter_annotations
    get_ips_from_service add_ingress put_all put has split try_resolve_hostnames
test_checked = refl

profile_keys : HasDistinctKeys profile
unfolding has
profile_keys = (refl, (refl, tt))

check_service-passed_example : (checked.passed ≡ true) ↔ (
    ((web (80 ∷ [])).kind ≡ "LoadBalancer")
    × HasAllowedAnnotation (web (80 ∷ [])) allowed
    × HasAddress surroundings (web (80 ∷ [])))
check_service-passed_example =
    check_service-passed surroundings (web (80 ∷ [])) allowed profile_keys

check_service-IsMade_example :
    (get_ips_from_service surroundings.lookup_host surroundings.order (web (80 ∷ [])) 10
      ≡ ok checked.ips)
    × ((e : Endpoint)
        → Elem e checked.endpoints
          ↔ IsMade
              (endpoint_for surroundings.sha256_hex (web (80 ∷ [])) checked.annotations)
              checked.ips
              (80 ∷ [])
              e)
    × (length checked.endpoints ≡ 1 * length checked.ips)
check_service-IsMade_example =
    check_service-IsMade surroundings (web (80 ∷ [])) allowed (rw test_checked refl)

make_endpoint-name_example :
    ((make_endpoint (λ s. s) (web []) [] 80 "a").name
      ≡ (make_endpoint (λ s. s) (web []) [] 443 "b").name)
    ↔ ((first_ip ≡ second_ip) × (http ≡ https))
unfolding to_be_hashed decimal first_chars
make_endpoint-name_example = make_endpoint-name (λ s. s) (web []) [] 80 443 "a" "b" (λ e. cc e)
