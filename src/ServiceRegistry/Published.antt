-- ===== src/ServiceRegistry/Published.antt =====
-- What the workers of pkg/serviceregistry promise, with no registry, metadata or owner in it: the
-- places that the operator has published, as a list in which order and repetition mean nothing, and
-- what an event does to them. A specification: it models no code by itself.
pub mod Contents
pub mod Series
use cnwan_operator.Common.{
  String, Bool, true, false, Option, none, some, List, [], ◌∷◌, ◌||◌, if◌then◌else◌,
}
use cnwan_operator.ServiceRegistry.Events.{EventType, create, update, delete, Resource, Event}
use cnwan_operator.ServiceRegistry.Registry.{Place, in_namespace, in_service, in_endpoint}
use cnwan_operator.ServiceRegistry.Registry.Places.{place_eq, is_under}

abbrev pub Contents : Type 0
Contents = List Place

pub has_child : Place → Contents → Bool
has_child p [] = false
has_child p (q ∷ c) = is_under p q || has_child p c

pub without_place : Place → Contents → Contents
without_place p [] = []
without_place p (q ∷ c) = let rest = without_place p c in if place_eq p q then rest else q ∷ rest

-- What has something below it stays.
unfoldable pub retract : Place → Contents → Contents
unfolding has_child without_place
retract p c = if has_child p c then c else without_place p c

unfoldable pub apply : EventType → Place → Contents → Contents
unfolding retract
apply delete p c = retract p c
apply create p c = p ∷ c
apply update p c = p ∷ c

-- The place that an event of a namespace's worker is about.
abbrev pub place_in : String → Resource → Option Place
place_in ns (Resource.namespace name) = some (in_namespace ns)
place_in ns (Resource.service ns' name) = some (in_service ns name)
place_in ns (Resource.endpoint e) = some (in_endpoint ns e.service e.name)
place_in ns Resource.other = none

abbrev pub apply_at : EventType → Option Place → Contents → Contents
apply_at t none c = c
apply_at t (some p) c = apply t p c

unfoldable pub apply_events : String → List Event → Contents → Contents
unfolding apply
apply_events ns [] c = c
apply_events ns (event ∷ events) c =
    apply_events ns events (apply_at event.event_type (place_in ns event.object) c)
