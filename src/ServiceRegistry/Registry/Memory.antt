-- ===== src/ServiceRegistry/Registry/Memory.antt =====
-- A service registry in memory: an instance that shows that what is assumed of serego can hold.
-- It models no code of the repository.
use cnwan_operator.Common.{
  text_laws, String, true, Option, none, some, List, [], ◌∷◌, ◌++◌, ◌≡◌, refl, arith, inl, inr,
  if◌then◌else◌, Bool-cases,
}
use cnwan_operator.Common.Result.{Result, ok, err}
use cnwan_operator.GoMap.{Map, get, put}
use cnwan_operator.GoMap.Laws.{get-put}
use cnwan_operator.ServiceRegistry.Registry.Places.{
  place_eq, place_eq_iff, place_eq_ne, is_under, is_under_iff,
}
use cnwan_operator.ServiceRegistry.Registry.{
  Place, IsUnder, RegisterOption, with_metadata, with_address, with_port, Next, found,
  iterator_done, Registry,
}

abbrev pub Entries : Type 0
Entries = List (Place × Map String)

unfoldable pub entry : Entries → Place → Option (Map String)
entry [] p = none
entry ((q, m) ∷ s) p = if place_eq q p then some m else entry s p

unfoldable pub without : Place → Entries → Entries
without p [] = []
without p ((q, m) ∷ s) = let rest = without p s in if place_eq q p then rest else (q, m) ∷ rest

unfoldable pub first_under : Place → Entries → Next
first_under p [] = iterator_done
first_under p ((q, m) ∷ s) = if is_under p q then found else first_under p s

unfoldable pub override : Map String → Map String → Map String
override [] base = base
override ((k, v) ∷ m) base = put k v (override m base)

unfoldable pub metadata_of : List RegisterOption → Map String → Map String
metadata_of [] base = base
metadata_of (with_metadata m ∷ options) base = metadata_of options (override m base)
metadata_of (with_address a ∷ options) base = metadata_of options base
metadata_of (with_port n ∷ options) base = metadata_of options base

pub entry-without :
    (p q : Place) (s : Entries) → entry (without p s) q ≡ (if place_eq p q then none else entry s q)
unfolding entry without
entry-without p q [] = ground arith
entry-without p q ((j, m) ∷ s) =
    grind (text_laws, entry-without p q s, place_eq_iff j p, place_eq_iff j q, place_eq_iff p q)

pub first_under-entry :
    (p q : Place) (s : Entries) → first_under p s ≡ iterator_done → IsUnder p q → entry s q ≡ none
unfolding first_under entry
first_under-entry p q [] h under = refl
first_under-entry p q ((j, m) ∷ s) h under = elim (Bool-cases (place_eq j q)) [
  | inl same ↦
      let e : j ≡ q = (place_eq_iff j q).0 same in
      let below : is_under p j ≡ true = (is_under_iff p j).1 (rw e under) in absurd (ground arith)
  | inr other ↦ rw other (first_under-entry p q s (ground arith) under)
]

get-override :
    (m base : Map String) (k v : String) → get k m ≡ some v → get k (override m base) ≡ some v
unfolding get override
get-override [] base k v h = cc
get-override ((j, w) ∷ m) base k v h =
    ground (arith, get-put j k w (override m base), get-override m base k v)

metadata_of-append :
    (options : List RegisterOption) (last base : Map String)
    → metadata_of (options ++ with_metadata last ∷ []) base
      ≡ override last (metadata_of options base)
unfolding metadata_of
metadata_of-append [] last base = refl
metadata_of-append (with_metadata m ∷ options) last base = metadata_of-append options last _
metadata_of-append (with_address a ∷ options) last base = metadata_of-append options last base
metadata_of-append (with_port n ∷ options) last base = metadata_of-append options last base

abbrev answer : Option (Map String) → Result (Map String)
answer none = err "not found"
answer (some m) = ok m

pub answer-eq-ok : (o : Option (Map String)) (m : Map String) → answer o ≡ ok m → o ≡ some m
answer-eq-ok none m h = cc
answer-eq-ok (some x) m h = cc

unfoldable pub register_in : Place → List RegisterOption → Entries → Option String × Entries
unfolding without metadata_of override
register_in p options s = (none, (p, metadata_of options []) ∷ without p s)

pub entry-register_in :
    (p q : Place) (options : List RegisterOption) (s : Entries)
    → entry (register_in p options s).1 q
      ≡ (if place_eq p q then some (metadata_of options []) else entry s q)
unfolding register_in entry
entry-register_in p q options s = ground (arith, entry-without p q s)

pub registered :
    (p : Place) (options : List RegisterOption) (last : Map String) (s : Entries)
    → (m : Map String) × (entry (register_in p (options ++ with_metadata last ∷ []) s).1 p ≡ some m)
      × ((k v : String) → get k last ≡ some v → get k m ≡ some v)
registered p options last s = (
  override last (metadata_of options []),
  rw
      (
        entry-register_in p p (options ++ with_metadata last ∷ []) s,
        (place_eq_iff p p).1 refl,
        metadata_of-append options last [],
      )
      refl,
  λ k v h. get-override last (metadata_of options []) k v h,
)

abbrev pub memory : Registry
memory = record {
  State = Entries;
  view = λ s p. entry s p;
  register = register_in;
  get_metadata = λ p s. answer (entry s p);
  next_child = first_under;
  deregister = λ p s. (none, without p s);
  get-view = λ p s m h. answer-eq-ok (entry s p) m h;
  done-view = λ p q s h under. first_under-entry p q s h under;
  register-view_ne =
      λ p q options s other. rw (entry-register_in p q options s, place_eq_ne p q other) refl;
  register-view = λ p options last s h. registered p options last s;
  deregister-view_ne = λ p q s other below. rw (entry-without p q s, place_eq_ne p q other) refl;
  deregister-view = λ p s h. rw (entry-without p p s, (place_eq_iff p p).1 refl) refl;
}
