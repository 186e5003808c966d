-- ===== src/Kube/Gardener.antt =====
-- The Gardener resources that the extension reads: shoots, clusters and extensions.
use gardener_extension_shoot.Base.{ℕ, String, Bool, Option, List}

-- An entry of `shoot.spec.extensions`.
pub record ShootExtension : Type 0 where
  pub extension_type : String
  pub disabled : Option Bool

-- `shoot.spec.dns`
pub record ShootDns : Type 0 where
  pub domain : Option String

pub record Shoot : Type 0 where
  pub name : String
  pub deletion_timestamp : Option ℕ
  pub dns : Option ShootDns
  pub purpose : Option String
  pub extensions : List ShootExtension
  pub hibernation : Option Bool

pub record Cluster : Type 0 where
  pub shoot : Shoot

-- An Extension resource, with the raw text of its provider config.
pub record Extension : Type 0 where
  pub name : String
  pub namespace : String
  pub provider_config : Option String

pub data ExtensionClass : Type 0 where
  shoot_class garden_class seed_class : ExtensionClass
