-- ===== src/ServiceRegistry/Events.antt =====
-- pkg/serviceregistry/events_handler.go (`EventType`, `Event`) and utils.go. The objects are those
-- of serego's core types, with the fields that the sources set or read.
use cnwan_operator.Common.{
  ℕ, String, Bool, true, false, Option, none, some, ◌==◌, ◌≡◌, refl, eq_refl,
}
use cnwan_operator.GoMap.{Map, get}

pub data EventType : Type 0 where
  create update delete : EventType

pub record Endpoint : Type 0 where
  pub namespace : String
  pub service : String
  pub name : String
  pub address : String
  pub port : ℕ
  pub metadata : Map String

-- `Event.Object` is an interface value: `other` stands for any other type.
pub data Resource : Type 0 where
  namespace : (name : String) → Resource
  service : (namespace name : String) → Resource
  endpoint : Endpoint → Resource
  other : Resource

pub record Event : Type 0 where
  pub event_type : EventType
  pub object : Resource

unfoldable pub namespace_name_of : Resource → String
namespace_name_of (namespace name) = name
namespace_name_of (service ns name) = ns
namespace_name_of (endpoint e) = e.namespace
namespace_name_of other = ""

unfoldable pub get_namespace_name_from_event_object : Event → String
unfolding namespace_name_of
get_namespace_name_from_event_object event = namespace_name_of event.object

abbrev is_operator : Option String → Bool
is_operator none = false
is_operator (some owner) = owner == "cnwan-operator"

unfoldable pub is_owned_by_operator : Map String → Bool
is_owned_by_operator metadata = is_operator (get "owner" metadata)

pub get-is_owned_by_operator :
    (m : Map String) → get "owner" m ≡ some "cnwan-operator" → is_owned_by_operator m ≡ true
unfolding is_owned_by_operator
get-is_owned_by_operator m e = rw (e, eq_refl "cnwan-operator") refl
