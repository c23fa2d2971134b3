-- ===== src/Publication/Visited.antt =====
-- What the first loop of an update, over the old endpoints, leaves published.
use cnwan_operator.Common.{
  String, none, some, List, [], ◌∷◌, ◌≡◌, ◌≢◌, ◌↔◌, ◌⊎◌, refl, sym, ap, ◌∙◌, inl, inr, Elem, All,
  Bool-cases, Option-cases, ◌==◌, eq_iff,
}
use cnwan_operator.GoMap.{Map, get}
use cnwan_operator.ServiceRegistry.Events.{Endpoint}
use cnwan_operator.ServiceRegistry.Registry.{in_endpoint}
use cnwan_operator.ServiceRegistry.Published.{Contents, retract, apply, apply_events}
use cnwan_operator.ServiceRegistry.Published.Contents.{Elem-retract, has_child-in_endpoint}
use cnwan_operator.ServiceRegistry.Published.Series.{place_of}
use cnwan_operator.Controllers.Services.{old_endpoint_events}

-- One of the endpoints has the name.
abbrev pub IsNamed : String → List Endpoint → Type 0
IsNamed name eps = (ep : Endpoint) × Elem ep eps × (ep.name ≡ name)

module _ (ns service name : String) (curr : Map Endpoint)
    (placed : (k : String) (e : Endpoint)
      → get k curr ≡ some e
      → (e.service ≡ service) × (e.name ≡ k)) where
  abbrev pub IsKept : List Endpoint → Contents → Type 0
  IsKept eps c =
      (IsNamed name eps × ((e : Endpoint) × (get name curr ≡ some e)))
      ⊎ (Elem (in_endpoint ns service name) c × ¬ (IsNamed name eps × (get name curr ≡ none)))

  place_eq_name : (ep : Endpoint) → in_endpoint ns service name ≡ place_of ns ep → name ≡ ep.name
  place_eq_name ep e = cc

  IsNamed-later :
      (ep : Endpoint) (eps : List Endpoint)
      → (ep.name ≢ name)
      → IsNamed name (ep ∷ eps)
      → IsNamed name eps
  IsNamed-later ep eps other (e, inl same, is) =
      absurd (other (ap (λ (x : Endpoint). x.name) (sym same) ∙ is))
  IsNamed-later ep eps other (e, inr m, is) = (e, m, is)

  -- An endpoint of another name changes nothing.
  IsKept-later :
      (ep : Endpoint) (eps : List Endpoint) (c c' : Contents)
      → ep.name ≢ name
      → (Elem (in_endpoint ns service name) c' ↔ Elem (in_endpoint ns service name) c)
      → IsKept eps c' ↔ IsKept (ep ∷ eps) c
  IsKept-later ep eps c c' other same = (
    λ h. elim h [
      | inl ((e, m, is), found) ↦ inl ((e, inr m, is), found)
      | inr (m, not_gone) ↦
          inr (same.0 m, λ (n, gone). not_gone (IsNamed-later ep eps other n, gone))
    ],
    λ h. elim h [
      | inl (n, found) ↦ inl (IsNamed-later ep eps other n, found)
      | inr (m, not_gone) ↦ inr (same.1 m, λ ((e, m', is), gone). not_gone ((e, inr m', is), gone))
    ],
  )

  deleted :
      (ep : Endpoint) (eps : List Endpoint) (c : Contents) {P : Type 0}
      → ep.service ≡ service
      → get ep.name curr ≡ none
      → ep.name ≡ name
      → P ↔ IsKept eps (retract (place_of ns ep) c)
      → P ↔ IsKept (ep ∷ eps) c
  deleted ep eps c here gone is later =
      let missing : get name curr ≡ none = ap (λ k. get k curr) (sym is) ∙ gone in
      let at : place_of ns ep ≡ in_endpoint ns service name = cc (here, is) in
      (
        λ m. elim (later.0 m) [
          | inl (n, (e, found)) ↦ absurd (cc (found, missing))
          | inr (m', _) ↦
              elim ((Elem-retract (place_of ns ep) (in_endpoint ns service name) c).0 m').1 [
                | inl ne ↦ absurd (ne at)
                | inr parent ↦ cc (parent, has_child-in_endpoint ns ep.service ep.name c)
              ]
        ],
        λ h. elim h [
          | inl (n, (e, found)) ↦ absurd (cc (found, missing))
          | inr (_, not_gone) ↦ absurd (not_gone ((ep, inl refl, is), missing))
        ],
      )

  updated :
      (ep ce : Endpoint) (eps : List Endpoint) (c : Contents) {P : Type 0}
      → get ep.name curr ≡ some ce
      → ep.name ≡ name
      → P ↔ IsKept eps (place_of ns ce ∷ c)
      → P ↔ IsKept (ep ∷ eps) c
  updated ep ce eps c found is later =
      let there : get name curr ≡ some ce = ap (λ k. get k curr) (sym is) ∙ found in
      let (of_service, renamed) = placed ep.name ce found in
      let at : in_endpoint ns service name ≡ place_of ns ce = cc (of_service, renamed, is) in
      (
        λ m. inl ((ep, inl refl, is), (ce, there)),
        λ h. later.1 (inr (inl at, λ (_, gone). cc (gone, there))),
      )

  chain : {P Q R : Type 0} → P ↔ Q → Q ↔ R → P ↔ R
  chain f g = (λ p. g.0 (f.0 p), λ r. f.1 (g.1 r))

  pub Elem-old_endpoint_events :
      (eps : List Endpoint) (c : Contents)
      → All (λ ep. ep.service ≡ service) eps
      → Elem (in_endpoint ns service name) (apply_events ns (old_endpoint_events curr eps) c)
        ↔ IsKept eps c
  unfolding old_endpoint_events apply_events apply
  Elem-old_endpoint_events [] c h = (
    λ m. inr (m, λ ((e, none_here, is), gone). none_here),
    λ h. elim h [ inl ((e, m, is), found) ↦ absurd m | inr (m, _) ↦ m ],
  )
  Elem-old_endpoint_events (ep ∷ eps) c (here, h) = elim (Option-cases (get ep.name curr)) [
    | inl gone ↦
        let later = Elem-old_endpoint_events eps (retract (place_of ns ep) c) h in
        let left = Elem-retract (place_of ns ep) (in_endpoint ns service name) c in
        rw gone (elim (Bool-cases (ep.name == name)) [
          | inl e ↦ deleted ep eps c here gone ((eq_iff ep.name name).0 e) later
          | inr e ↦
              let other : ep.name ≢ name = λ is. cc ((eq_iff ep.name name).1 is, e) in
              chain later (
                IsKept-later ep eps c (retract (place_of ns ep) c) other (
                  λ m. (left.0 m).0,
                  λ m. left.1 (m, inl (λ e. other (sym (place_eq_name ep (sym e))))),
                ))
        ])
    | inr (ce, found) ↦
        let later = Elem-old_endpoint_events eps (place_of ns ce ∷ c) h in
        rw found (elim (Bool-cases (ep.name == name)) [
          | inl e ↦ updated ep ce eps c found ((eq_iff ep.name name).0 e) later
          | inr e ↦
              let other : ep.name ≢ name = λ is. cc ((eq_iff ep.name name).1 is, e) in
              let (_, renamed) = placed ep.name ce found in
              chain later (
                IsKept-later ep eps c (place_of ns ce ∷ c) other (
                  λ m. elim m [
                    | inl e ↦ absurd (other (sym (place_eq_name ce e ∙ renamed)))
                    | inr m ↦ m
                  ],
                  λ m. inr m,
                ))
        ])
  ]
