-- ===== src/Kube/Encoding.antt =====
-- The codecs, which are code of other modules: parameters of the program.
use gardener_extension_shoot.Base.{String, List, Result}
use gardener_extension_shoot.Kube.Rbac.{ServiceAccount, ClusterRole, ClusterRoleBinding}
use gardener_extension_shoot.Kube.Pods.{Deployment}
use gardener_extension_shoot.Kube.Network.{
  Service, IngressClass, NetworkPolicy, PodDisruptionBudget, DnsRecord, Crd,
}

-- An object that is encoded for the shoot.
pub data Manifest : Type 0 where
  service_account : ServiceAccount → Manifest
  cluster_role : ClusterRole → Manifest
  cluster_role_binding : ClusterRoleBinding → Manifest
  deployment : Deployment → Manifest
  service : Service → Manifest
  ingress_class : IngressClass → Manifest
  network_policy : NetworkPolicy → Manifest
  pod_disruption_budget : PodDisruptionBudget → Manifest

-- `runtime.Encode` with either codec; the results of a YAML decoder's `Decode` calls on a text up to
-- the first `io.EOF`; `json.Marshal` of a CRD; and the text of the embedded crds.yaml.
pub record Codec : Type 0 where
  pub encode_shoot : Manifest → Result String
  pub encode_extensions : DnsRecord → Result String
  pub documents : String → List (Result Crd)
  pub marshal_crd : Crd → Result String
  pub crd_yaml : String
