-- ===== src/Controllers/Addresses/Returned.antt =====
-- What `getIPsFromService` returns, in terms of the service and of the name service's answers.
use cnwan_operator.Common.{ℕ, String, true, List, [], ◌≡◌, ◌≢◌, ◌⊎◌, refl, arith, inl, inr, Elem}
use cnwan_operator.Common.Result.{Result, ok, err, IsErr, Result-cases}
use cnwan_operator.Common.Orders.{Rearranges, IsDistinct, Permᴰ-Elem, Permᴰ_symm, Permᴰ-IsDistinct}
use cnwan_operator.GoMap.{has, keys}
use cnwan_operator.GoMap.Laws.{Elem-keys_iff, keys-IsDistinct}
use cnwan_operator.Controllers.Objects.{Ingress, KubeService}
use cnwan_operator.Controllers.Addresses.{
  Resolver, Progress, start, add_ingress, listed, get_ips_from_service,
}
use cnwan_operator.Controllers.Addresses.Collected.{
  Answered, no_hostname, answered, Offers, Covers, has-put_all, put_all-HasDistinctKeys,
  add_ingress_sound, add_ingress-keeps, add_ingress-Covers, add_ingress-HasDistinctKeys,
}

listed-eq-ok :
    (order : List String → List String) (r : Result Progress) (ips : List String)
    → listed order r ≡ ok ips
    → (q : Progress) × (r ≡ ok q) × (ips ≡ order (keys q.set))
listed-eq-ok order (ok q) ips h = (q, refl, ground arith)
listed-eq-ok order (err e) ips h = cc

module _ (lookup_host : Resolver) (order : List String → List String)
    (rearranges : Rearranges order) (service : KubeService) (attempts : ℕ) (ips : List String)
    (returned : get_ips_from_service lookup_host order service attempts ≡ ok ips) where
  abbrev Run : Type 0
  Run =
      (q : Progress) × (add_ingress lookup_host service.ingress (start service attempts) ≡ ok q)
      × (ips ≡ order (keys q.set))

  run : Run
  unfolding get_ips_from_service
  run = listed-eq-ok order _ ips returned

  has_ip-Elem :
      (q : Progress) (ip : String) → ips ≡ order (keys q.set) → has ip q.set ≡ true → Elem ip ips
  has_ip-Elem q ip e there =
      rw e (Permᴰ-Elem (Permᴰ_symm (rearranges (keys q.set))) ip ((Elem-keys_iff ip q.set).1 there))

  -- Each address that is returned is an external address of the service, or stands in one of its
  -- ingress points, or is in an answer of the name service for an ingress point's hostname.
  pub get_ips_from_service-Offers :
      (ip : String)
      → Elem ip ips
      → Elem ip service.external_ips
        ⊎ ((ing : Ingress) × Elem ing service.ingress × Offers lookup_host ing ip)
  get_ips_from_service-Offers ip m =
      let (q, done, e) = run in
      let in_keys : Elem ip (keys q.set) = Permᴰ-Elem (rearranges (keys q.set)) ip (rw e at m) in
      elim (add_ingress_sound lookup_host service.ingress (start service attempts) q ip done
        ((Elem-keys_iff ip q.set).0 in_keys)) [
          | inr offer ↦ inr offer
          | inl external ↦ elim ((has-put_all ip service.external_ips []).0 external) [
            | inl x ↦ inl x
            | inr nothing ↦ absurd (unfold has in cc)
          ]
        ]

  -- When addresses are returned, every external address is among them, and of every ingress point
  -- the address that it has and all of one answer for its hostname.
  pub get_ips_from_service-Covers :
      ((ip : String) → Elem ip service.external_ips → Elem ip ips)
      × ((ing : Ingress) → Elem ing service.ingress → Covers lookup_host (λ ip. Elem ip ips) ing)
  get_ips_from_service-Covers =
      let (q, done, e) = run in
      (
        λ ip m. has_ip-Elem q ip e (
            add_ingress-keeps lookup_host service.ingress (start service attempts) q ip done
              ((has-put_all ip service.external_ips []).1 (inl m))),
        λ ing m.
            let c =
              add_ingress-Covers lookup_host service.ingress (start service attempts) q ing done
                m in
            record {
              own = λ ne. has_ip-Elem q ing.ip e (c.own ne);
              answer = c.answer;
              given = c.given;
              all_of_it = λ ip there. has_ip-Elem q ip e (c.all_of_it ip there);
            },
      )

  -- When addresses are returned, none is returned twice, however often the service or the name
  -- service repeats it.
  pub get_ips_from_service-IsDistinct : IsDistinct ips
  get_ips_from_service-IsDistinct =
      let (q, done, e) = run in
      let d =
        add_ingress-HasDistinctKeys lookup_host service.ingress (start service attempts) q done
          (put_all-HasDistinctKeys service.external_ips [] tt) in
      rw e (Permᴰ-IsDistinct (Permᴰ_symm (rearranges (keys q.set))) (keys-IsDistinct q.set d))

-- One hostname that is never answered makes the whole call fail, whatever other addresses the
-- service has.
pub get_ips_from_service-IsErr :
    (lookup_host : Resolver) (order : List String → List String) (service : KubeService)
    (attempts : ℕ) (ing : Ingress)
    → Rearranges order
    → Elem ing service.ingress
    → ing.hostname ≢ ""
    → ((n : ℕ) → IsErr (lookup_host n ing.hostname))
    → IsErr (get_ips_from_service lookup_host order service attempts)
get_ips_from_service-IsErr lookup_host order service attempts ing rearranges m named fails =
    elim (Result-cases (get_ips_from_service lookup_host order service attempts)) [
      | inr e ↦ e
      | inl (ips, e) ↦
          let (_, covers) =
            get_ips_from_service-Covers lookup_host order rearranges service attempts ips e in
          absurd (never (covers ing m).answer (covers ing m).given)
    ]
  where
    never : (answer : List String) → Answered lookup_host ing answer → ⊥
    never answer (no_hostname e _) = named e
    never answer (answered n _ found) = let (e, failed) = fails n in cc
