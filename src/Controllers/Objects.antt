-- ===== src/Controllers/Objects.antt =====
-- The objects of the cluster that the handlers read: `corev1.Service` and `corev1.Namespace`, with
-- the fields that the sources use. They are types of k8s.io/api; numbers of ports are not negative.
use cnwan_operator.Common.{ℕ, String, Option, List}
use cnwan_operator.GoMap.{Map}

pub record Ingress : Type 0 where
  pub ip : String
  pub hostname : String

pub record KubeService : Type 0 where
  pub namespace : String
  pub name : String
  pub kind : String
  pub annotations : Map String
  pub external_ips : List String
  pub ingress : List Ingress
  pub ports : List ℕ
  pub deleted_at : Option ℕ

pub record KubeNamespace : Type 0 where
  pub name : String
  pub labels : Map String

-- `event.Object`: the informers hand over an interface value.
pub data Object : Type 0 where
  service : KubeService → Object
  namespace : KubeNamespace → Object
  other : String → Object
