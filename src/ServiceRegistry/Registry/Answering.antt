-- ===== src/ServiceRegistry/Registry/Answering.antt =====
-- The service registry in memory never fails.
use cnwan_operator.Common.{none, some, [], ◌∷◌, ◌≡◌, ◌⊎◌, refl, inl, inr, ◌∙◌, sym, Bool-cases}
use cnwan_operator.GoMap.{Map}
use cnwan_operator.ServiceRegistry.Registry.{Place, IsUnder, found, iterator_done}
use cnwan_operator.ServiceRegistry.Registry.Places.{place_eq, place_eq_iff, is_under, is_under_iff}
use cnwan_operator.ServiceRegistry.Registry.Memory.{
  Entries, entry, without, first_under, register_in, entry-without, memory,
}
use cnwan_operator.ServiceRegistry.Registry.Reliable.{IsReliable, Represents}

first_under-cases :
    (p : Place) (s : Entries)
    → (first_under p s ≡ iterator_done)
      ⊎ ((first_under p s ≡ found) × (q : Place) × IsUnder p q × (m : Map _) × (entry s q ≡ some m))
unfolding first_under entry
first_under-cases p [] = inl refl
first_under-cases p ((j, m) ∷ s) = elim (Bool-cases (is_under p j)) [
  | inl below ↦
      rw below (inr (refl, j, (is_under_iff p j).0 below, m, rw ((place_eq_iff j j).1 refl) refl))
  | inr apart ↦ rw apart (elim (first_under-cases p s) [
    | inl nothing ↦ inl nothing
    | inr (something, q, under, m', there) ↦
        let (m'', is) : (w : Map _) × (entry ((j, m) ∷ s) q ≡ some w) = shadowed q m' there in
        inr (something, q, under, m'', is)
  ])
]
  where
    shadowed :
        (q : Place) (m' : Map _)
        → entry s q ≡ some m'
        → (m'' : Map _) × (entry ((j, m) ∷ s) q ≡ some m'')
    shadowed q m' there = elim (Bool-cases (place_eq j q)) [
      | inl same ↦ (m, rw same refl)
      | inr other ↦ (m', rw other there)
    ]

removed_before :
    (p q : Place) (m : Map _) (s : Entries) → entry (without p s) q ≡ some m → entry s q ≡ some m
removed_before p q m s h = elim (Bool-cases (place_eq p q)) [
  | inl same ↦
      let gone : entry (without p s) q ≡ none = rw (entry-without p q s, same) refl in
      absurd (cc (gone, h))
  | inr other ↦
      let kept : entry (without p s) q ≡ entry s q = rw (entry-without p q s, other) refl in
      sym kept ∙ h
]

pub memory-IsReliable : IsReliable memory
unfolding register_in
memory-IsReliable = record {
  registers = λ p options s. refl;
  gets = λ p m s h. rw h refl;
  lists = λ p s. first_under-cases p s;
  deregisters = λ p s. refl;
  removes = λ p q m s h. removed_before p q m s h;
}

-- An empty registry shows nothing.
pub memory-Represents : Represents memory [] []
unfolding entry
memory-Represents = record { shown = λ p m h. absurd (cc h); there = λ p m. absurd m }
