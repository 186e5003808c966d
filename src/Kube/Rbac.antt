-- ===== src/Kube/Rbac.antt =====
-- Service accounts and access rights.
use gardener_extension_shoot.Base.{String, List}
use gardener_extension_shoot.Kube.Meta.{TypeMeta, ObjectMeta}

pub record ServiceAccount : Type 0 where
  pub type_meta : TypeMeta
  pub meta : ObjectMeta

pub record PolicyRule : Type 0 where
  pub api_groups : List String
  pub resources : List String
  pub verbs : List String

pub record ClusterRole : Type 0 where
  pub type_meta : TypeMeta
  pub meta : ObjectMeta
  pub rules : List PolicyRule

pub record RoleRef : Type 0 where
  pub api_group : String
  pub kind : String
  pub name : String

pub record Subject : Type 0 where
  pub kind : String
  pub name : String
  pub namespace : String

pub record ClusterRoleBinding : Type 0 where
  pub type_meta : TypeMeta
  pub meta : ObjectMeta
  pub role_ref : RoleRef
  pub subjects : List Subject
