-- ===== src/ServiceRegistry/Registry.antt =====
-- The service registry as github.com/CloudNativeSDWAN/serego shows it to pkg/serviceregistry: a
-- parameter of the model, with the behaviour that the workers rely on. Nobody else writes to it
-- between the calls of one worker.
pub mod Places
pub mod Memory
pub mod Reliable
pub mod Answering
use cnwan_operator.Common.{ℕ, String, Option, none, some, List, [], ◌∷◌, ◌++◌, ◌≡◌, ◌≢◌}
use cnwan_operator.Common.Result.{Result, ok, err}
use cnwan_operator.GoMap.{Map, get}

-- `client.Namespace(n)`, `.Service(s)`, `.Endpoint(e)`
pub data Place : Type 0 where
  in_namespace : String → Place
  in_service : (namespace service : String) → Place
  in_endpoint : (namespace service endpoint : String) → Place

-- The first place is the parent of the second, or its parent's.
abbrev pub IsUnder : Place → Place → Type 0
IsUnder (in_namespace n) (in_service n' s) = n ≡ n'
IsUnder (in_namespace n) (in_endpoint n' s e) = n ≡ n'
IsUnder (in_service n s) (in_endpoint n' s' e) = (n ≡ n') × (s ≡ s')
IsUnder _ _ = ⊥

pub data RegisterOption : Type 0 where
  with_metadata : Map String → RegisterOption
  with_address : String → RegisterOption
  with_port : ℕ → RegisterOption

-- `List().Next()`: a child, the end of the iterator, or another error.
pub data Next : Type 0 where
  found : Next
  iterator_done : Next
  failed : String → Next

pub record Registry : Type 1 where
  pub State : Type 0
  -- The metadata of what is registered at a place.
  pub view : State → Place → Option (Map String)
  pub register : Place → List RegisterOption → State → Option String × State
  pub get_metadata : Place → State → Result (Map String)
  pub next_child : Place → State → Next
  pub deregister : Place → State → Option String × State
  -- `Get` returns what is registered.
  pub get-view :
      (p : Place) (s : State) (m : Map String) → get_metadata p s ≡ ok m → view s p ≡ some m
  -- The iterator is done at once only where nothing is registered below.
  pub done-view :
      (p q : Place) (s : State) → next_child p s ≡ iterator_done → IsUnder p q → view s q ≡ none
  -- `Register` writes to its own place, and the metadata given last is all there afterwards.
  pub register-view_ne :
      (p q : Place) (options : List RegisterOption) (s : State)
      → p ≢ q
      → view (register p options s).1 q ≡ view s q
  pub register-view :
      (p : Place) (options : List RegisterOption) (last : Map String) (s : State)
      → (register p (options ++ with_metadata last ∷ []) s).0 ≡ none
      → (m : Map String) × (view (register p (options ++ with_metadata last ∷ []) s).1 p ≡ some m)
        × ((k v : String) → get k last ≡ some v → get k m ≡ some v)
  -- `Deregister` removes its own place and perhaps what is below it, and nothing else.
  pub deregister-view_ne :
      (p q : Place) (s : State) → p ≢ q → ¬ IsUnder p q → view (deregister p s).1 q ≡ view s q
  pub deregister-view :
      (p : Place) (s : State) → (deregister p s).0 ≡ none → view (deregister p s).1 p ≡ none
