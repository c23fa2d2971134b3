-- ===== src/Controllers/Addresses/Collected.antt =====
-- Which addresses `getIPsFromService` returns.
use cnwan_operator.Common.{
  text_laws, ℕ, ◌+◌, String, Bool, true, List, [], ◌∷◌, ◌≡◌, ◌≢◌, ◌↔◌, ◌⊎◌, refl, arith, inl, inr,
  Elem, Bool-cases, eq_iff, ◌==◌,
}
use cnwan_operator.Common.Result.{Result, ok, err, bind-eq-ok}
use cnwan_operator.GoMap.{Map, has, put, HasDistinctKeys}
use cnwan_operator.GoMap.Laws.{has-put, put-HasDistinctKeys}
use cnwan_operator.Controllers.Objects.{Ingress}
use cnwan_operator.Controllers.Addresses.{
  Resolver, Progress, put_all, put_ip, at_least_one, add_one, add_resolved, add_ingress,
  try_resolve_hostnames,
}
use cnwan_operator.Controllers.Addresses.Resolving.{try_resolve_hostnames-FirstAnswer}

pub has-put_all :
    (k : String) (ips : List String) (set : Map Bool)
    → (has k (put_all ips set) ≡ true) ↔ (Elem k ips ⊎ (has k set ≡ true))
unfolding put_all
has-put_all k [] set = ground arith
has-put_all k (ip ∷ ips) set =
    grind (text_laws, has-put_all k ips (put ip true set), has-put ip k true set)

has-put_ip :
    (k : String) (ing : Ingress) (set : Map Bool)
    → (has k (put_ip ing set) ≡ true) ↔ (((ing.ip ≢ "") × (k ≡ ing.ip)) ⊎ (has k set ≡ true))
unfolding put_ip
has-put_ip k ing set = grind (text_laws, has-put ing.ip k true set)

pub put_all-HasDistinctKeys :
    (ips : List String) (set : Map Bool) → HasDistinctKeys set → HasDistinctKeys (put_all ips set)
unfolding put_all
put_all-HasDistinctKeys [] set h = h
put_all-HasDistinctKeys (ip ∷ ips) set h =
    put_all-HasDistinctKeys ips (put ip true set) (put-HasDistinctKeys ip true set h)

put_ip-HasDistinctKeys :
    (ing : Ingress) (set : Map Bool) → HasDistinctKeys set → HasDistinctKeys (put_ip ing set)
unfolding put_ip
put_ip-HasDistinctKeys ing set h = ground (arith, put-HasDistinctKeys ing.ip true set h)

-- What one ingress point adds: the answer to a look-up of its hostname, if it has one.
pub data Answered (lookup_host : Resolver) (ing : Ingress) (ips : List String) : Type 0 where
  no_hostname : ing.hostname ≡ "" → ips ≡ [] → Answered lookup_host ing ips
  answered :
      (n : ℕ)
      → ing.hostname ≢ ""
      → lookup_host n ing.hostname ≡ ok ips
      → Answered lookup_host ing ips

add_resolved-eq-ok :
    (p q : Progress) (r : Result (List String) × ℕ)
    → add_resolved p r ≡ ok q
    → (ips : List String) × (r.0 ≡ ok ips) × (q.set ≡ put_all ips p.set)
add_resolved-eq-ok p q (ok ips, after) h = (ips, refl, ground arith)
add_resolved-eq-ok p q (err e, after) h = cc

module _ (lookup_host : Resolver) where
  answer_of :
      (calls : ℕ) (host : String) (tries : ℕ) (ips : List String)
      → (try_resolve_hostnames lookup_host calls host tries).0 ≡ ok ips
      → (n : ℕ) × (lookup_host n host ≡ ok ips)
  answer_of calls host tries ips h =
      let r = try_resolve_hostnames lookup_host calls host tries in
      let e : r ≡ (ok ips, r.1) = λ i. (h i, r.1) in
      let (k, lt, first, same) =
        (try_resolve_hostnames-FirstAnswer lookup_host calls host tries ips r.1).0 e in
      (calls + k, first.0)

  add_one-Answered :
      (ing : Ingress) (p q : Progress)
      → add_one lookup_host ing p ≡ ok q
      → (ips : List String) × (q.set ≡ put_all ips (put_ip ing p.set))
        × Answered lookup_host ing ips
  unfolding add_one
  add_one-Answered ing p q h = elim (Bool-cases (ing.hostname == "")) [
    | inl no_name ↦ ([], unfold put_all in ground arith, no_hostname ((eq_iff _ _).0 no_name) refl)
    | inr name ↦
        let tries = at_least_one p.attempts in
        let (ips, e, same) =
          add_resolved-eq-ok (record p { set = put_ip ing p.set; attempts = tries }) q
            (try_resolve_hostnames lookup_host p.calls ing.hostname tries) (ground arith) in
        let (n, found) = answer_of p.calls ing.hostname tries ips e in
        (ips, same, answered n (grind text_laws) found)
  ]

  -- An address that one ingress point offers: its own, or one that its hostname resolved to.
  pub data Offers (ing : Ingress) (ip : String) : Type 0 where
    direct : ing.ip ≢ "" → ip ≡ ing.ip → Offers ing ip
    resolved :
        (n : ℕ) (ips : List String)
        → ing.hostname ≢ ""
        → lookup_host n ing.hostname ≡ ok ips
        → Elem ip ips
        → Offers ing ip

  Answered-Offers :
      (ing : Ingress) (ips : List String) (ip : String)
      → Answered lookup_host ing ips
      → Elem ip ips
      → Offers ing ip
  Answered-Offers ing ips ip (no_hostname e none_) m = absurd (rw none_ at m)
  Answered-Offers ing ips ip (answered n ne found) m = resolved n ips ne found m

  -- Every address in the set comes from somewhere.
  pub add_ingress_sound :
      (ings : List Ingress) (p q : Progress) (ip : String)
      → add_ingress lookup_host ings p ≡ ok q
      → has ip q.set ≡ true
      → (has ip p.set ≡ true) ⊎ ((ing : Ingress) × Elem ing ings × Offers ing ip)
  unfolding add_ingress
  add_ingress_sound [] p q ip h there = inl (ground arith)
  add_ingress_sound (ing ∷ rest) p q ip h there =
      let (mid, one, more) =
        bind-eq-ok (add_one lookup_host ing p) (add_ingress lookup_host rest) h in
      elim (add_ingress_sound rest mid q ip more there) [
        | inr (other, m, offer) ↦ inr (other, inr m, offer)
        | inl before ↦
            let (ips, same, answer) = add_one-Answered ing p mid one in
            elim ((has-put_all ip ips (put_ip ing p.set)).0 (rw same at before)) [
              | inl found ↦ inr (ing, inl refl, Answered-Offers ing ips ip answer found)
              | inr earlier ↦ elim ((has-put_ip ip ing p.set).0 earlier) [
                | inl own ↦ inr (ing, inl refl, direct own.0 own.1)
                | inr old ↦ inl old
              ]
            ]
      ]

  -- Nothing that was in the set is lost.
  add_one-keeps :
      (ing : Ingress) (p q : Progress) (ip : String)
      → add_one lookup_host ing p ≡ ok q
      → has ip p.set ≡ true
      → has ip q.set ≡ true
  add_one-keeps ing p q ip h there =
      let (ips, same, answer) = add_one-Answered ing p q h in
      rw same ((has-put_all ip ips _).1 (inr ((has-put_ip ip ing p.set).1 (inr there))))

  pub add_ingress-keeps :
      (ings : List Ingress) (p q : Progress) (ip : String)
      → add_ingress lookup_host ings p ≡ ok q
      → has ip p.set ≡ true
      → has ip q.set ≡ true
  unfolding add_ingress
  add_ingress-keeps [] p q ip h there = ground arith
  add_ingress-keeps (ing ∷ rest) p q ip h there =
      let (mid, one, more) =
        bind-eq-ok (add_one lookup_host ing p) (add_ingress lookup_host rest) h in
      add_ingress-keeps rest mid q ip more (add_one-keeps ing p mid ip one there)

  -- The set holds the address of the ingress point and one complete answer for its hostname.
  pub record Covers (has_ip : String → Type 0) (ing : Ingress) : Type 0 where
    pub own : ing.ip ≢ "" → has_ip ing.ip
    pub answer : List String
    pub given : Answered lookup_host ing answer
    pub all_of_it : (ip : String) → Elem ip answer → has_ip ip

  pub add_ingress-Covers :
      (ings : List Ingress) (p q : Progress) (ing : Ingress)
      → add_ingress lookup_host ings p ≡ ok q
      → Elem ing ings
      → Covers (λ ip. has ip q.set ≡ true) ing
  unfolding add_ingress
  add_ingress-Covers [] p q ing h m = absurd m
  add_ingress-Covers (first ∷ rest) p q ing h (inr m) =
      let (mid, one, more) =
        bind-eq-ok (add_one lookup_host first p) (add_ingress lookup_host rest) h in
      add_ingress-Covers rest mid q ing more m
  add_ingress-Covers (first ∷ rest) p q ing h (inl e) =
      let (mid, one, more) =
        bind-eq-ok (add_one lookup_host first p) (add_ingress lookup_host rest) h in
      let (ips, same, answer) = add_one-Answered first p mid one in
      rw e (record {
        own = λ ne. add_ingress-keeps rest mid q first.ip more (
            rw same
              ((has-put_all _ ips _).1 (inr ((has-put_ip _ first p.set).1 (inl (ne, refl))))));
        answer = ips;
        given = answer;
        all_of_it = λ ip there.
            add_ingress-keeps rest mid q ip more (rw same ((has-put_all ip ips _).1 (inl there)));
      })

  pub add_ingress-HasDistinctKeys :
      (ings : List Ingress) (p q : Progress)
      → add_ingress lookup_host ings p ≡ ok q
      → HasDistinctKeys p.set
      → HasDistinctKeys q.set
  unfolding add_ingress
  add_ingress-HasDistinctKeys [] p q h d = let e : p.set ≡ q.set = ground arith in rw e at d
  add_ingress-HasDistinctKeys (ing ∷ rest) p q h d =
      let (mid, one, more) =
        bind-eq-ok (add_one lookup_host ing p) (add_ingress lookup_host rest) h in
      let (ips, same, answer) = add_one-Answered ing p mid one in
      let d' : HasDistinctKeys mid.set =
        rw same (put_all-HasDistinctKeys ips _ (put_ip-HasDistinctKeys ing p.set d)) in
      add_ingress-HasDistinctKeys rest mid q more d'
