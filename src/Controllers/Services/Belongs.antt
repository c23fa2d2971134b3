-- ===== src/Controllers/Services/Belongs.antt =====
-- The endpoints that a check makes, and that a map of them holds, belong to the service.
use cnwan_operator.Common.{
  String, some, List, [], ◌∷◌, map, ◌≡◌, refl, arith, All, All-of_Elem, inl, inr, Bool-cases, ◌==◌,
}
use cnwan_operator.Common.Orders.{Rearranges, Permᴰ-All, Permᴰ_symm}
use cnwan_operator.GoMap.{Map, get, put}
use cnwan_operator.ServiceRegistry.Events.{Endpoint}
use cnwan_operator.Controllers.Objects.{KubeService}
use cnwan_operator.Controllers.Check.{
  Surroundings, check_service, from_slice, get_endpoints_map_from_slice,
}
use cnwan_operator.Controllers.Check.Passed.{check_service-IsConsistent}
use cnwan_operator.Controllers.Check.Endpoints.{check_service-IsMade}
use cnwan_operator.Controllers.Handling.Ordered.{BelongsTo}
use cnwan_operator.Controllers.Services.{value}

-- The endpoints of a check are those of the service.
pub check_service-BelongsTo :
    (at : Surroundings) (service : KubeService) (keep : List String)
    → All (BelongsTo service.namespace service.name) (check_service at service keep).endpoints
check_service-BelongsTo at service keep = elim (Bool-cases (check_service at service keep).passed) [
  | inr failed ↦ rw ((check_service-IsConsistent at service keep).refused failed).3 tt
  | inl passed ↦ All-of_Elem _ _ λ e m.
      let (_, members, _) = check_service-IsMade at service keep passed in
      let (port, ip, _, _, made) = (members e).0 m in rw made (refl, refl)
]

module _ (P : Endpoint → Type 0) where
  put-All :
      (k : String) (e : Endpoint) (m : Map Endpoint)
      → P e
      → All P (map value m)
      → All P (map value (put k e m))
  unfolding put
  put-All k e [] p h = (p, tt)
  put-All k e ((j, f) ∷ m) p (q, h) = elim (Bool-cases (j == k)) [
    | inl same ↦ rw same (p, h)
    | inr other ↦ rw other (q, put-All k e m p h)
  ]

  from_slice-All :
      (eps : List Endpoint) (m : Map Endpoint)
      → All P eps
      → All P (map value m)
      → All P (map value (from_slice eps m))
  unfolding from_slice
  from_slice-All [] m h k = k
  from_slice-All (e ∷ eps) m (p, h) k =
      from_slice-All eps (put e.name e m) h (put-All e.name e m p k)

  get-All :
      (k : String) (m : Map Endpoint) (e : Endpoint) → All P (map value m) → get k m ≡ some e → P e
  unfolding get
  get-All k [] e h found = cc
  get-All k ((j, f) ∷ m) e (p, h) found = elim (Bool-cases (j == k)) [
    | inl same ↦ let q : f ≡ e = ground arith in rw (← q) p
    | inr other ↦ get-All k m e h (ground arith)
  ]

  -- What holds of the endpoints of a slice holds of those of its map, in any order.
  pub map_from_slice-All :
      (order : List Endpoint → List Endpoint) (eps : List Endpoint)
      → Rearranges order
      → All P eps
      → All P (order (map value (get_endpoints_map_from_slice eps)))
  unfolding get_endpoints_map_from_slice
  map_from_slice-All order eps rearranges h =
      Permᴰ-All P (Permᴰ_symm (rearranges _)) (from_slice-All eps [] h tt)

  pub get_from_slice-All :
      (eps : List Endpoint) (k : String) (e : Endpoint)
      → All P eps
      → get k (get_endpoints_map_from_slice eps) ≡ some e
      → P e
  unfolding get_endpoints_map_from_slice
  get_from_slice-All eps k e h = get-All k (from_slice eps []) e (from_slice-All eps [] h tt)
