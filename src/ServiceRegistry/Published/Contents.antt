-- ===== src/ServiceRegistry/Published/Contents.antt =====
-- Which places are published after an operation.
use cnwan_operator.Common.{
  true, false, [], ◌∷◌, ◌≡◌, ◌≢◌, ◌↔◌, ◌⊎◌, refl, sym, inl, inr, Elem, Bool-cases, ◌∙◌,
}
use cnwan_operator.ServiceRegistry.Registry.{Place, in_endpoint, IsUnder}
use cnwan_operator.ServiceRegistry.Registry.Places.{place_eq, place_eq_iff, is_under, is_under_iff}
use cnwan_operator.ServiceRegistry.Published.{Contents, has_child, without_place, retract}

pub has_child_iff :
    (p : Place) (c : Contents) → (has_child p c ≡ true) ↔ ((q : Place) × IsUnder p q × Elem q c)
unfolding has_child
has_child_iff p [] = (λ h. cc h, λ (q, under, m). absurd m)
has_child_iff p (first ∷ c) = elim (Bool-cases (is_under p first)) [
  | inl below ↦ rw below (λ h. (first, (is_under_iff p first).0 below, inl refl), λ h. refl)
  | inr apart ↦ rw apart (
    λ h. let (q, under, m) = (has_child_iff p c).0 h in (q, under, inr m),
    λ (q, under, m). elim m [
      | inl same ↦
          let below : is_under p first ≡ true = rw (← same) ((is_under_iff p q).1 under) in
          cc (below, apart)
      | inr later ↦ (has_child_iff p c).1 (q, under, later)
    ],
  )
]

pub Elem-without_place :
    (p q : Place) (c : Contents) → Elem q (without_place p c) ↔ (Elem q c × (p ≢ q))
unfolding without_place
Elem-without_place p q [] = (λ h. absurd h, λ h. absurd h.0)
Elem-without_place p q (first ∷ c) = elim (Bool-cases (place_eq p first)) [
  | inl here ↦
      let same : p ≡ first = (place_eq_iff p first).0 here in
      rw here (
        λ h. let (m, ne) = (Elem-without_place p q c).0 h in (inr m, ne),
        λ (m, ne). elim m [
          | inl e ↦ absurd (ne (same ∙ sym e))
          | inr later ↦ (Elem-without_place p q c).1 (later, ne)
        ],
      )
  | inr other ↦ rw other (
    λ h. elim h [
      | inl e ↦
          (inl e, λ same. let clash = (place_eq_iff p first).1 (same ∙ e) in cc (clash, other))
      | inr later ↦ let (m, ne) = (Elem-without_place p q c).0 later in (inr m, ne)
    ],
    λ (m, ne). elim m [
      | inl e ↦ inl e
      | inr later ↦ inr ((Elem-without_place p q c).1 (later, ne))
    ],
  )
]

-- After a retraction a place is published if it was, unless it is the retracted place and nothing
-- was published below that.
pub Elem-retract :
    (p q : Place) (c : Contents)
    → Elem q (retract p c) ↔ (Elem q c × ((p ≢ q) ⊎ (has_child p c ≡ true)))
unfolding retract
Elem-retract p q c = elim (Bool-cases (has_child p c)) [
  | inl parent ↦ rw parent (λ m. (m, inr refl), λ h. h.0)
  | inr childless ↦ rw childless (
    λ h. let (m, ne) = (Elem-without_place p q c).0 h in (m, inl ne),
    λ (m, why). elim why [ inl ne ↦ (Elem-without_place p q c).1 (m, ne) | inr clash ↦ cc clash ],
  )
]

pub has_child-in_endpoint : (ns s e : _) (c : Contents) → has_child (in_endpoint ns s e) c ≡ false
has_child-in_endpoint ns s e c = elim (Bool-cases (has_child (in_endpoint ns s e) c)) [
  | inl parent ↦
      let (q, under, _) = (has_child_iff (in_endpoint ns s e) c).0 parent in absurd (leaf q under)
  | inr childless ↦ childless
]
  where
    leaf : (q : Place) → ¬ IsUnder (in_endpoint ns s e) q
    leaf (Place.in_namespace n) h = h
    leaf (Place.in_service n t) h = h
    leaf (in_endpoint n t f) h = h
