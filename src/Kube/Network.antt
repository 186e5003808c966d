-- ===== src/Kube/Network.antt =====
-- Services, ingress classes, network policies, disruption budgets and DNS records.
use gardener_extension_shoot.Base.{String, List}
use gardener_extension_shoot.Base.Assoc.{Map}
use gardener_extension_shoot.Kube.Meta.{TypeMeta, ObjectMeta}
use gardener_extension_shoot.Kube.Pods.{Protocol, Port}
use gardener_extension_shoot.Base.{ℕ}

pub data ServiceType : Type 0 where
  cluster_ip node_port load_balancer external_name : ServiceType

pub record ServicePort : Type 0 where
  pub name : String
  pub port : ℕ
  pub target_port : Port
  pub protocol : Protocol

-- One entry of `status.loadBalancer.ingress`.
pub record LoadBalancerIngress : Type 0 where
  pub ip : String
  pub hostname : String

pub record Service : Type 0 where
  pub type_meta : TypeMeta
  pub meta : ObjectMeta
  pub service_type : ServiceType
  pub selector : Map String
  pub ports : List ServicePort
  pub load_balancer_ingress : List LoadBalancerIngress

pub record IngressClass : Type 0 where
  pub type_meta : TypeMeta
  pub meta : ObjectMeta
  pub controller : String

pub data PolicyType : Type 0 where
  ingress egress : PolicyType

-- A peer by selectors; an empty selector selects everything.
pub record NetworkPolicyPeer : Type 0 where
  pub namespace_selector : Map String
  pub pod_selector : Map String

-- An ingress or egress rule; no peers means that every peer is allowed.
pub record NetworkPolicyRule : Type 0 where
  pub peers : List NetworkPolicyPeer

pub record NetworkPolicy : Type 0 where
  pub type_meta : TypeMeta
  pub meta : ObjectMeta
  pub pod_selector : Map String
  pub policy_types : List PolicyType
  pub ingress_rules : List NetworkPolicyRule
  pub egress_rules : List NetworkPolicyRule

pub record PodDisruptionBudget : Type 0 where
  pub type_meta : TypeMeta
  pub meta : ObjectMeta
  pub min_available : Port
  pub match_labels : Map String

pub record SecretReference : Type 0 where
  pub name : String
  pub namespace : String

pub record DnsRecord : Type 0 where
  pub type_meta : TypeMeta
  pub meta : ObjectMeta
  pub provider_type : String
  pub secret_ref : SecretReference
  pub name : String
  pub record_type : String
  pub values : List String

-- A CustomResourceDefinition, or another document that was decoded as one; `rest` is what it holds
-- beside its kind and its name.
pub record Crd : Type 0 where
  pub kind : String
  pub name : String
  pub rest : String
