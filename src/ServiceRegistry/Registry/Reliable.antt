-- ===== src/ServiceRegistry/Registry/Reliable.antt =====
-- A service registry that does not fail and holds nothing of anybody else, and what it shows.
use cnwan_operator.Common.{
  ap, true, false, none, some, List, [], ◌∷◌, ◌++◌, ◌≡◌, ◌⊎◌, inl, inr, Elem, Bool-cases,
  Option-cases, sym, ◌∙◌, ◌≢◌, String,
}
use cnwan_operator.Common.Result.{ok, err}
use cnwan_operator.GoMap.{Map, get}
use cnwan_operator.ServiceRegistry.Events.{is_owned_by_operator, get-is_owned_by_operator}
use cnwan_operator.ServiceRegistry.Registry.{
  Place, IsUnder, RegisterOption, with_metadata, found, iterator_done, Registry,
}
use cnwan_operator.ServiceRegistry.Registry.Places.{place_eq, place_eq_iff}
use cnwan_operator.ServiceRegistry.Published.{Contents, has_child, retract}
use cnwan_operator.ServiceRegistry.Published.Contents.{has_child_iff, Elem-retract}

module _ (r : Registry) where
  open r use {State, view, register, get_metadata, next_child, deregister}

  -- Every call succeeds where it can, and a removal adds nothing.
  pub record IsReliable : Type 0 where
    pub registers :
        (p : Place) (options : List RegisterOption) (s : State) → (register p options s).0 ≡ none
    pub gets :
        (p : Place) (m : Map String) (s : State) → view s p ≡ some m → get_metadata p s ≡ ok m
    pub lists :
        (p : Place) (s : State)
        → (next_child p s ≡ iterator_done)
          ⊎ ((next_child p s ≡ found)
              × (q : Place) × IsUnder p q
              × (m : Map String) × (view s q ≡ some m))
    pub deregisters : (p : Place) (s : State) → (deregister p s).0 ≡ none
    pub removes :
        (p q : Place) (m : Map String) (s : State)
        → view (deregister p s).1 q ≡ some m
        → view s q ≡ some m

  -- The registry shows the published places and nothing else, all owned by the operator.
  pub record Represents (s : State) (c : Contents) : Type 0 where
    pub shown :
        (p : Place) (m : Map String)
        → view s p ≡ some m
        → Elem p c × (is_owned_by_operator m ≡ true)
    pub there : (p : Place) → Elem p c → (m : Map String) × (view s p ≡ some m)

module _ (r : Registry) (reliable : IsReliable r) where
  open r use {
    State, view, register, get_metadata, next_child, deregister, get-view, done-view, register-view,
    register-view_ne, deregister-view, deregister-view_ne,
  }

  pub register-Represents :
      (p : Place) (options : List RegisterOption) (last : Map String) (s : State) (c : Contents)
      → get "owner" last ≡ some "cnwan-operator"
      → Represents r s c
      → Represents r (register p (options ++ with_metadata last ∷ []) s).1 (p ∷ c)
  register-Represents p options last s c owner rep =
      let all = options ++ with_metadata last ∷ [] in
      let (m, here, has) = register-view p options last s (reliable.registers p all s) in
      record {
        shown = λ q m' h. elim (Bool-cases (place_eq p q)) [
          | inl e ↦
              let same : p ≡ q = (place_eq_iff p q).0 e in
              let at : view (register p all s).1 p ≡ some m' =
                ap (view (register p all s).1) same ∙ h in
              let is : m ≡ m' = cc (here, at) in
              (inl (sym same), rw (← is) (get-is_owned_by_operator m (has _ _ owner)))
          | inr e ↦
              let other : p ≢ q = λ same. cc ((place_eq_iff p q).1 same, e) in
              let (old, owned) = rep.shown q m' (sym (register-view_ne p q all s other) ∙ h) in
              (inr old, owned)
        ];
        there = λ q h. elim (Bool-cases (place_eq p q)) [
          | inl e ↦ let same : p ≡ q = (place_eq_iff p q).0 e in (m, rw (← same) here)
          | inr e ↦
              let other : p ≢ q = λ same. cc ((place_eq_iff p q).1 same, e) in
              elim h [
                | inl same ↦ absurd (other (sym same))
                | inr old ↦
                    let (m', was) = rep.there q old in (m', register-view_ne p q all s other ∙ was)
              ]
        ];
      }

  absent-Represents :
      (p : Place) (s : State) (c : Contents)
      → view s p ≡ none
      → Represents r s c
      → Represents r s (retract p c)
  absent-Represents p s c absent rep = record {
    shown = λ q m h.
        let (old, owned) = rep.shown q m h in
        let other : p ≢ q =
          λ e. let at : view s p ≡ some m = ap (view s) e ∙ h in cc (at, absent) in
        ((Elem-retract p q c).1 (old, inl other), owned);
    there = λ q h. rep.there q ((Elem-retract p q c).0 h).0;
  }

  pub parent-Represents :
      (p : Place) (s : State) (c : Contents)
      → has_child p c ≡ true
      → Represents r s c
      → Represents r s (retract p c)
  unfolding retract
  parent-Represents p s c parent rep = rw parent rep

  pub gone-Represents :
      (p : Place) (s : State) (c : Contents)
      → has_child p c ≡ false
      → Represents r s c
      → Represents r (deregister p s).1 (retract p c)
  gone-Represents p s c childless rep = record {
    shown = λ q m h.
        let (old, owned) = rep.shown q m (reliable.removes p q m s h) in
        let other : p ≢ q = λ e.
          let at : view (deregister p s).1 p ≡ some m = ap (view (deregister p s).1) e ∙ h in
          cc (at, deregister-view p s (reliable.deregisters p s)) in
        ((Elem-retract p q c).1 (old, inl other), owned);
    there = λ q h.
        let (old, why) = (Elem-retract p q c).0 h in
        let (m, was) = rep.there q old in
        let other : p ≢ q = elim why [
          | inl ne ↦ ne
          | inr parent ↦ absurd (cc (parent, childless))
        ] in
        let apart : ¬ IsUnder p q =
          λ under. cc ((has_child_iff p c).1 (q, under, old), childless) in
        (m, deregister-view_ne p q s other apart ∙ was);
  }

  pub unread-Represents :
      (p : Place) (e : String) (s : State) (c : Contents)
      → get_metadata p s ≡ err e
      → Represents r s c
      → Represents r s (retract p c)
  unread-Represents p e s c no_reply rep = elim (Option-cases (view s p)) [
    | inl absent ↦ absent-Represents p s c absent rep
    | inr (m, there) ↦ absurd (cc (no_reply, reliable.gets p m s there))
  ]
