-- ===== src/Kube/Meta.antt =====
-- Object metadata.
use gardener_extension_shoot.Base.{String}
use gardener_extension_shoot.Base.Assoc.{Map}

-- metav1.TypeMeta
pub record TypeMeta : Type 0 where
  pub api_version : String
  pub kind : String

-- metav1.ObjectMeta; "" for the namespace of a cluster-scoped object
pub record ObjectMeta : Type 0 where
  pub name : String
  pub namespace : String
  pub labels : Map String
  pub annotations : Map String
