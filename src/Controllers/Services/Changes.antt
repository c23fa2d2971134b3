-- ===== src/Controllers/Services/Changes.antt =====
-- What an update sends when the service passed before and passes now.
use cnwan_operator.Common.{
  text_laws, String, true, false, none, some, List, [], ◌∷◌, map, ◌≡◌, ◌∙◌, ◌↔◌, ◌⊎◌, refl, sym, ap,
  arith, Elem, All, inl, inr, Bool-cases, Option-cases, ◌==◌, eq_iff,
}
use cnwan_operator.GoMap.{Map, get, has, put}
use cnwan_operator.GoMap.Laws.{has-put, has-get}
use cnwan_operator.ServiceRegistry.Events.{EventType, update, delete, Endpoint, Resource, Event}
use cnwan_operator.Controllers.Check.{from_slice}
use cnwan_operator.Controllers.Handling.{endpoint_event}
use cnwan_operator.Controllers.Services.{
  value, replaced_or_gone, old_endpoint_events, new_endpoint_events,
}

-- Each endpoint stands under its own name, and each name once.
abbrev pub IsKeyedByName : Map Endpoint → Type 0
IsKeyedByName [] = Unit
IsKeyedByName ((k, e) ∷ m) = (k ≡ e.name) × (has k m ≡ false) × IsKeyedByName m

put-IsKeyedByName :
    (e : Endpoint) (m : Map Endpoint) → IsKeyedByName m → IsKeyedByName (put e.name e m)
unfolding put has
put-IsKeyedByName e [] h = (refl, refl, tt)
put-IsKeyedByName e ((k, f) ∷ m) (named, fresh, h) = elim (Bool-cases (k == e.name)) [
  | inl same ↦ let q : k ≡ e.name = (eq_iff k e.name).0 same in rw same (refl, rw q at fresh, h)
  | inr other ↦ rw other (named, grind (text_laws, has-put e.name k e m), put-IsKeyedByName e m h)
]

pub from_slice-IsKeyedByName :
    (eps : List Endpoint) (m : Map Endpoint) → IsKeyedByName m → IsKeyedByName (from_slice eps m)
unfolding from_slice
from_slice-IsKeyedByName [] m h = h
from_slice-IsKeyedByName (e ∷ eps) m h =
    from_slice-IsKeyedByName eps (put e.name e m) (put-IsKeyedByName e m h)

pub get-name :
    (k : String) (m : Map Endpoint) (e : Endpoint) → IsKeyedByName m → get k m ≡ some e → k ≡ e.name
unfolding get
get-name k [] e h found = cc
get-name k ((j, f) ∷ m) e (named, fresh, h) found = elim (Bool-cases (j == k)) [
  | inl same ↦
      let q : f ≡ e = ground arith in
      sym ((eq_iff j k).0 same) ∙ named ∙ ap (λ (x : Endpoint). x.name) q
  | inr other ↦ get-name k m e h (ground arith)
]

pub Elem-values :
    (m : Map Endpoint) (e : Endpoint)
    → IsKeyedByName m
    → Elem e (map value m) ↔ (get e.name m ≡ some e)
unfolding get
Elem-values [] e h = (λ m. absurd m, λ found. cc)
Elem-values ((k, f) ∷ m) e (named, fresh, h) = (
  λ m'. elim m' [
    | inl same ↦
        let q : (k == e.name) ≡ true =
          (eq_iff k e.name).1 (named ∙ ap (λ (x : Endpoint). x.name) (sym same)) in
        rw q (ap some (sym same))
    | inr later ↦
        let found = (Elem-values m e h).0 later in
        elim (Bool-cases (k == e.name)) [
          | inl same ↦
              let clash : has e.name m ≡ false = rw ((eq_iff k e.name).0 same) at fresh in
              absurd (ground (arith, has-get e.name m))
          | inr other ↦ rw other found
        ]
  ],
  λ found. elim (Bool-cases (k == e.name)) [
    | inl same ↦ inl (ground arith)
    | inr other ↦ inr ((Elem-values m e h).1 (ground arith))
  ],
)

abbrev of_resource : Resource → Endpoint → Endpoint
of_resource (Resource.endpoint e) default = e
of_resource _ default = default

same_endpoint :
    (t t' : EventType) (e f : Endpoint) → endpoint_event t e ≡ endpoint_event t' f → e ≡ f
same_endpoint t t' e f h = ap (λ (ev : Event). of_resource ev.object e) h

same_type : (t t' : EventType) (e f : Endpoint) → endpoint_event t e ≡ endpoint_event t' f → t ≡ t'
same_type t t' e f h = ap (λ (ev : Event). ev.event_type) h

module _ (curr : Map Endpoint) where
  -- What one round of the first loop can have sent.
  round_sent :
      (ep : Endpoint) (t : EventType) (e : Endpoint)
      → endpoint_event t e ≡ replaced_or_gone ep (get ep.name curr)
      → ((t ≡ delete) × (e ≡ ep) × (get e.name curr ≡ none))
        ⊎ ((t ≡ update) × (get ep.name curr ≡ some e))
  round_sent ep t e h = elim (Option-cases (get ep.name curr)) [
    | inl gone ↦
        let q : endpoint_event t e ≡ endpoint_event delete ep = rw gone at h in
        let r : e ≡ ep = same_endpoint t delete e ep q in
        inl (same_type t delete e ep q, r, rw r gone)
    | inr (f, found) ↦
        let q : endpoint_event t e ≡ endpoint_event update f = rw found at h in
        inr (same_type t update e f q, found ∙ ap some (sym (same_endpoint t update e f q)))
  ]

  pub old_endpoint_events-sent :
      (eps : List Endpoint) (t : EventType) (e : Endpoint)
      → Elem (endpoint_event t e) (old_endpoint_events curr eps)
      → ((t ≡ delete) × Elem e eps × (get e.name curr ≡ none))
        ⊎ ((t ≡ update) × (ep : Endpoint) × Elem ep eps × (get ep.name curr ≡ some e))
  unfolding old_endpoint_events
  old_endpoint_events-sent [] t e m = absurd m
  old_endpoint_events-sent (ep ∷ eps) t e (inl now) = elim (round_sent ep t e now) [
    | inl (is, same, gone) ↦ inl (is, inl same, gone)
    | inr (is, found) ↦ inr (is, ep, inl refl, found)
  ]
  old_endpoint_events-sent (ep ∷ eps) t e (inr later) =
      elim (old_endpoint_events-sent eps t e later) [
        | inl (is, m, gone) ↦ inl (is, inr m, gone)
        | inr (is, f, m, found) ↦ inr (is, f, inr m, found)
      ]

  pub old_endpoint_events-delete :
      (eps : List Endpoint) (e : Endpoint)
      → Elem e eps
      → get e.name curr ≡ none
      → Elem (endpoint_event delete e) (old_endpoint_events curr eps)
  unfolding old_endpoint_events
  old_endpoint_events-delete [] e m gone = absurd m
  old_endpoint_events-delete (ep ∷ eps) e (inl same) gone = inl (rw (← same, gone))
  old_endpoint_events-delete (ep ∷ eps) e (inr m) gone =
      inr (old_endpoint_events-delete eps e m gone)

  pub old_endpoint_events-update :
      (eps : List Endpoint) (ep e : Endpoint)
      → Elem ep eps
      → get ep.name curr ≡ some e
      → Elem (endpoint_event update e) (old_endpoint_events curr eps)
  unfolding old_endpoint_events
  old_endpoint_events-update [] ep e m found = absurd m
  old_endpoint_events-update (f ∷ eps) ep e (inl same) found = inl (rw (← same, found))
  old_endpoint_events-update (f ∷ eps) ep e (inr m) found =
      inr (old_endpoint_events-update eps ep e m found)

  pub new_endpoint_events-nil :
      (eps : List Endpoint)
      → All (λ e. has e.name curr ≡ true) eps
      → new_endpoint_events curr eps ≡ []
  unfolding new_endpoint_events
  new_endpoint_events-nil [] h = refl
  new_endpoint_events-nil (e ∷ eps) (there, h) = rw (there, new_endpoint_events-nil eps h) refl
