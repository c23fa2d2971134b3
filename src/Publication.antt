-- ===== src/Publication.antt =====
-- The handlers of pkg/controllers/service.go and the worker of pkg/serviceregistry/
-- namespace_worker.go together: the registry after the worker has handled what a handler sent.
pub mod Created
pub mod Arrives
pub mod Withdrawn
pub mod Visited
pub mod Updated
mod Tests
use cnwan_operator.Common.{String, List, ◌≡◌, ◌⊎◌, some}
use cnwan_operator.GoMap.{Map}
use cnwan_operator.ServiceRegistry.Events.{Endpoint}
use cnwan_operator.ServiceRegistry.Registry.{Place, in_namespace, in_service, Registry}
use cnwan_operator.ServiceRegistry.Published.Series.{IsEndpointOf}
use cnwan_operator.Controllers.Objects.{KubeService}

-- Something is registered at the place.
abbrev pub IsShown : (r : Registry) → Registry.State r → Place → Type 0
IsShown r s p = (m : Map String) × (Registry.view r s p ≡ some m)

-- What a service with its endpoints takes up in a registry.
abbrev pub IsPlaceFor : KubeService → List Endpoint → Place → Type 0
IsPlaceFor service eps p =
    (p ≡ in_namespace service.namespace)
    ⊎ (p ≡ in_service service.namespace service.name)
    ⊎ IsEndpointOf service.namespace eps p
