-- ===== src/ServiceRegistry/Published/Series.antt =====
-- Which places are published after a series of events.
use cnwan_operator.Common.{
  String, List, [], ◌∷◌, ◌++◌, map, ◌≡◌, ◌↔◌, ◌⊎◌, refl, sym, inl, inr, Elem,
}
use cnwan_operator.ServiceRegistry.Events.{EventType, create, delete, Resource, Endpoint, Event}
use cnwan_operator.ServiceRegistry.Registry.{Place, in_endpoint}
use cnwan_operator.ServiceRegistry.Published.{Contents, apply, retract, apply_events}
use cnwan_operator.ServiceRegistry.Published.Contents.{Elem-retract, has_child-in_endpoint}

abbrev pub place_of : String → Endpoint → Place
place_of ns ep = in_endpoint ns ep.service ep.name

-- One of the endpoints lies at the place.
abbrev pub IsEndpointOf : String → List Endpoint → Place → Type 0
IsEndpointOf ns eps q = (ep : Endpoint) × Elem ep eps × (q ≡ place_of ns ep)

abbrev pub on_endpoint : EventType → Endpoint → Event
on_endpoint t ep = record { event_type = t; object = Resource.endpoint ep }

pub apply_events-append :
    (ns : String) (first later : List Event) (c : Contents)
    → apply_events ns (first ++ later) c ≡ apply_events ns later (apply_events ns first c)
unfolding apply_events
apply_events-append ns [] later c = refl
apply_events-append ns (event ∷ first) later c = apply_events-append ns first later _

pub Elem-apply_events-create :
    (ns : String) (eps : List Endpoint) (c : Contents) (q : Place)
    → Elem q (apply_events ns (map (on_endpoint create) eps) c) ↔ (Elem q c ⊎ IsEndpointOf ns eps q)
unfolding apply_events apply
Elem-apply_events-create ns [] c q =
    (λ m. inl m, λ h. elim h [ inl m ↦ m | inr (ep, m, e) ↦ absurd m ])
Elem-apply_events-create ns (ep ∷ eps) c q =
    let later = Elem-apply_events-create ns eps (place_of ns ep ∷ c) q in
    (
      λ m. elim (later.0 m) [
        | inl (inl e) ↦ inr (ep, inl refl, e)
        | inl (inr old) ↦ inl old
        | inr (ep', m', e) ↦ inr (ep', inr m', e)
      ],
      λ h. elim h [
        | inl old ↦ later.1 (inl (inr old))
        | inr (ep', inl same, e) ↦ later.1 (inl (inl (rw (← same) e)))
        | inr (ep', inr m', e) ↦ later.1 (inr (ep', m', e))
      ],
    )

pub Elem-apply_events-delete :
    (ns : String) (eps : List Endpoint) (c : Contents) (q : Place)
    → Elem q (apply_events ns (map (on_endpoint delete) eps) c)
      ↔ (Elem q c × ¬ IsEndpointOf ns eps q)
unfolding apply_events apply
Elem-apply_events-delete ns [] c q = (λ m. (m, λ (ep, none_here, e). none_here), λ h. h.0)
Elem-apply_events-delete ns (ep ∷ eps) c q =
    let p = place_of ns ep in
    let later = Elem-apply_events-delete ns eps (retract p c) q in
    (
      λ m.
          let (kept, apart) = later.0 m in
          let (old, why) = (Elem-retract p q c).0 kept in
          (
            old,
            λ (ep', among, e). elim among [
              | inl same ↦ elim why [
                | inl ne ↦ ne (rw (← same) (sym e))
                | inr parent ↦ cc (parent, has_child-in_endpoint ns ep.service ep.name c)
              ]
              | inr m' ↦ apart (ep', m', e)
            ],
          ),
      λ (old, apart). later.1 (
        (Elem-retract p q c).1 (old, inl (λ e. apart (ep, inl refl, sym e))),
        λ (ep', m', e). apart (ep', inr m', e),
      ),
    )
