-- ===== src/Kube/Pods.antt =====
-- Deployments and their pods.
use gardener_extension_shoot.Base.{ℕ, String, Bool, List}
use gardener_extension_shoot.Base.Assoc.{Map}
use gardener_extension_shoot.Base.Int.{ℤ}
use gardener_extension_shoot.Kube.Meta.{TypeMeta, ObjectMeta}

pub data Protocol : Type 0 where
  tcp udp sctp : Protocol

pub data WhenUnsatisfiable : Type 0 where
  do_not_schedule schedule_anyway : WhenUnsatisfiable

-- An `intstr.IntOrString` of either kind.
pub data Port : Type 0 where
  number : ℕ → Port
  named : String → Port

pub record ContainerPort : Type 0 where
  pub name : String
  pub container_port : ℕ
  pub protocol : Protocol

-- A probe by an HTTP GET; 0 for a field that is left to the API server's default.
pub record Probe : Type 0 where
  pub path : String
  pub port : Port
  pub initial_delay_seconds : ℕ
  pub period_seconds : ℕ
  pub timeout_seconds : ℕ
  pub failure_threshold : ℕ

pub record ResourceList : Type 0 where
  pub cpu : String
  pub memory : String

pub record SecurityContext : Type 0 where
  pub allow_privilege_escalation : Bool
  pub read_only_root_filesystem : Bool
  pub capabilities_drop : List String

pub record Container : Type 0 where
  pub name : String
  pub image : String
  pub args : List String
  pub ports : List ContainerPort
  pub startup_probe : Probe
  pub liveness_probe : Probe
  pub readiness_probe : Probe
  pub requests : ResourceList
  pub limits : ResourceList
  pub security_context : SecurityContext

pub record PodSecurityContext : Type 0 where
  pub run_as_non_root : Bool
  pub run_as_user : ℕ
  pub run_as_group : ℕ
  pub fs_group : ℕ

pub record TopologySpreadConstraint : Type 0 where
  pub max_skew : ℕ
  pub topology_key : String
  pub when_unsatisfiable : WhenUnsatisfiable
  pub match_labels : Map String

pub record PodTemplate : Type 0 where
  pub labels : Map String
  pub annotations : Map String
  pub service_account_name : String
  pub security_context : PodSecurityContext
  pub containers : List Container
  pub topology_spread_constraints : List TopologySpreadConstraint

pub record Deployment : Type 0 where
  pub type_meta : TypeMeta
  pub meta : ObjectMeta
  pub replicas : ℤ
  pub match_labels : Map String
  pub template : PodTemplate
