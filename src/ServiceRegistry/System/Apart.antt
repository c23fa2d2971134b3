-- ===== src/ServiceRegistry/System/Apart.antt =====
-- The events of one namespace decide what is published in it.
use cnwan_operator.Common.{
  String, true, false, List, [], ◌∷◌, ◌++◌, ◌≡◌, ◌≢◌, ◌↔◌, refl, sym, ap, ◌∙◌, inl, inr, Elem,
  Bool-cases, ◌==◌, eq_iff, if◌then◌else◌,
}
use cnwan_operator.ServiceRegistry.Events.{EventType, create, update, delete, Resource, Event}
use cnwan_operator.ServiceRegistry.Registry.{Place}
use cnwan_operator.ServiceRegistry.Worker.Frame.{namespace_of, IsUnder-namespace_of}
use cnwan_operator.ServiceRegistry.Published.{
  Contents, has_child, retract, apply, place_in, apply_at, apply_events,
}
use cnwan_operator.ServiceRegistry.Published.Contents.{has_child_iff, Elem-retract}
use cnwan_operator.ServiceRegistry.System.{Log}

unfoldable pub apply_log : Log → Contents → Contents
apply_log [] c = c
apply_log ((name, event) ∷ log) c =
    apply_log log (apply_at event.event_type (place_in name event.object) c)

-- What the workers of a namespace have finished.
unfoldable pub events_of : String → Log → List Event
events_of ns [] = []
events_of ns ((name, event) ∷ log) =
    let rest = events_of ns log in if name == ns then event ∷ rest else rest

pub apply_log-append :
    (log : Log) (name : String) (event : Event) (c : Contents)
    → apply_log (log ++ (name, event) ∷ []) c
      ≡ apply_at event.event_type (place_in name event.object) (apply_log log c)
unfolding apply_log
apply_log-append [] name event c = refl
apply_log-append ((n, e) ∷ log) name event c = apply_log-append log name event _

pub events_of-append_same :
    (ns : String) (log : Log) (name : String) (event : Event)
    → name ≡ ns
    → events_of ns (log ++ (name, event) ∷ []) ≡ events_of ns log ++ event ∷ []
unfolding events_of
events_of-append_same ns [] name event is = rw ((eq_iff name ns).1 is) refl
events_of-append_same ns ((n, e) ∷ log) name event is =
    let later = events_of-append_same ns log name event is in
    elim (Bool-cases (n == ns)) [
      | inl same ↦ rw same (ap (λ es. e ∷ es) later)
      | inr other ↦ rw other later
    ]

pub events_of-append_other :
    (ns : String) (log : Log) (name : String) (event : Event)
    → name ≢ ns
    → events_of ns (log ++ (name, event) ∷ []) ≡ events_of ns log
unfolding events_of
events_of-append_other ns [] name event other =
    let different : (name == ns) ≡ false = elim (Bool-cases (name == ns)) [
      | inl same ↦ absurd (other ((eq_iff name ns).0 same))
      | inr e ↦ e
    ] in
    rw different refl
events_of-append_other ns ((n, e) ∷ log) name event other =
    let later = events_of-append_other ns log name event other in
    elim (Bool-cases (n == ns)) [
      | inl same ↦ rw same (ap (λ es. e ∷ es) later)
      | inr elsewhere ↦ rw elsewhere later
    ]

module _ (ns : String) where
  -- The same is published in the namespace.
  abbrev pub AgreesIn : Contents → Contents → Type 0
  AgreesIn c c' = (q : Place) → namespace_of q ≡ ns → Elem q c ↔ Elem q c'

  retract-other :
      (p : Place) (c c' : Contents)
      → namespace_of p ≢ ns
      → AgreesIn c c'
      → AgreesIn (retract p c) c'
  retract-other p c c' other agrees q at =
      let ne : p ≢ q = λ e. other (ap namespace_of e ∙ at) in
      (
        λ m. (agrees q at).0 ((Elem-retract p q c).0 m).0,
        λ m. (Elem-retract p q c).1 ((agrees q at).1 m, inl ne),
      )

  has_child-same :
      (p : Place) (c c' : Contents)
      → namespace_of p ≡ ns
      → ((q : Place) → namespace_of q ≡ ns → Elem q c → Elem q c')
      → has_child p c ≡ true
      → has_child p c' ≡ true
  has_child-same p c c' here agrees parent =
      let (q, under, m) = (has_child_iff p c).0 parent in
      (has_child_iff p c').1 (q, under, agrees q (sym (IsUnder-namespace_of p q under) ∙ here) m)

  retract-same :
      (p : Place) (c c' : Contents)
      → namespace_of p ≡ ns
      → AgreesIn c c'
      → AgreesIn (retract p c) (retract p c')
  retract-same p c c' here agrees q at = (
    λ m.
        let (old, why) = (Elem-retract p q c).0 m in
        (Elem-retract p q c').1 (
          (agrees q at).0 old,
          elim why [
            | inl ne ↦ inl ne
            | inr parent ↦ inr (has_child-same p c c' here (λ q at. (agrees q at).0) parent)
          ],
        ),
    λ m.
        let (old, why) = (Elem-retract p q c').0 m in
        (Elem-retract p q c).1 (
          (agrees q at).1 old,
          elim why [
            | inl ne ↦ inl ne
            | inr parent ↦ inr (has_child-same p c' c here (λ q at. (agrees q at).1) parent)
          ],
        ),
  )

  cons-other :
      (p : Place) (c c' : Contents) → namespace_of p ≢ ns → AgreesIn c c' → AgreesIn (p ∷ c) c'
  cons-other p c c' other agrees q at = (
    λ m. elim m [
      | inl e ↦ absurd (other (ap namespace_of (sym e) ∙ at))
      | inr old ↦ (agrees q at).0 old
    ],
    λ m. inr ((agrees q at).1 m),
  )

  cons-same : (p : Place) (c c' : Contents) → AgreesIn c c' → AgreesIn (p ∷ c) (p ∷ c')
  cons-same p c c' agrees q at = (
    λ m. elim m [ inl e ↦ inl e | inr old ↦ inr ((agrees q at).0 old) ],
    λ m. elim m [ inl e ↦ inl e | inr old ↦ inr ((agrees q at).1 old) ],
  )

  apply-other :
      (t : EventType) (p : Place) (c c' : Contents)
      → namespace_of p ≢ ns
      → AgreesIn c c'
      → AgreesIn (apply t p c) c'
  unfolding apply
  apply-other create p c c' other agrees = cons-other p c c' other agrees
  apply-other update p c c' other agrees = cons-other p c c' other agrees
  apply-other delete p c c' other agrees = retract-other p c c' other agrees

  apply-same :
      (t : EventType) (p : Place) (c c' : Contents)
      → namespace_of p ≡ ns
      → AgreesIn c c'
      → AgreesIn (apply t p c) (apply t p c')
  unfolding apply
  apply-same create p c c' here agrees = cons-same p c c' agrees
  apply-same update p c c' here agrees = cons-same p c c' agrees
  apply-same delete p c c' here agrees = retract-same p c c' here agrees

  event-other :
      (name : String) (t : EventType) (object : Resource) (c c' : Contents)
      → name ≢ ns
      → AgreesIn c c'
      → AgreesIn (apply_at t (place_in name object) c) c'
  event-other name t (Resource.namespace n) c c' other agrees = apply-other t _ c c' other agrees
  event-other name t (Resource.service m n) c c' other agrees = apply-other t _ c c' other agrees
  event-other name t (Resource.endpoint e) c c' other agrees = apply-other t _ c c' other agrees
  event-other name t Resource.other c c' other agrees = agrees

  event-same :
      (t : EventType) (object : Resource) (c c' : Contents)
      → AgreesIn c c'
      → AgreesIn (apply_at t (place_in ns object) c) (apply_at t (place_in ns object) c')
  event-same t (Resource.namespace n) c c' agrees = apply-same t _ c c' refl agrees
  event-same t (Resource.service m n) c c' agrees = apply-same t _ c c' refl agrees
  event-same t (Resource.endpoint e) c c' agrees = apply-same t _ c c' refl agrees
  event-same t Resource.other c c' agrees = agrees

  -- However the workers of other namespaces came in between.
  pub apply_log-AgreesIn :
      (log : Log) (c c' : Contents)
      → AgreesIn c c'
      → AgreesIn (apply_log log c) (apply_events ns (events_of ns log) c')
  unfolding apply_log events_of apply_events
  apply_log-AgreesIn [] c c' agrees = agrees
  apply_log-AgreesIn ((name, event) ∷ log) c c' agrees = elim (Bool-cases (name == ns)) [
    | inl same ↦
        let here : name ≡ ns = (eq_iff name ns).0 same in
        rw same (
          apply_log-AgreesIn log _ _
            (rw here (event-same event.event_type event.object c c' agrees)))
    | inr elsewhere ↦
        let other : name ≢ ns = λ here. cc ((eq_iff name ns).1 here, elsewhere) in
        rw elsewhere (
          apply_log-AgreesIn log _ c'
            (event-other name event.event_type event.object c c' other agrees))
  ]
