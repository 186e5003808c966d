-- ===== src/Api.antt =====
-- What the extension calls and does not implement: the clients of the seed and of the shoot, the
-- managed-resource helpers of Gardener, the clock and the metrics registry. All act on a `World`
-- that the program does not see into; every answer, errors included, is left open.
use gardener_extension_shoot.Base.{
  ℕ, String, Bool, true, Option, Error, Result, ok, err, is_some, not,
}
use gardener_extension_shoot.Base.Exec.{Exec}
use gardener_extension_shoot.Base.Assoc.{Map}
use gardener_extension_shoot.Kube.{Codec, Cluster, Shoot, Service, DnsRecord}

-- Constants and pure helpers of Gardener's packages.
pub record Gardener : Type 0 where
  -- `v1beta1helper.HibernationIsEnabled`
  pub hibernation_is_enabled : Shoot → Bool
  -- `extensionsv1alpha1helper.GetDNSRecordType`
  pub get_dns_record_type : String → String
  -- `gardenerutils.IngressPrefix`
  pub ingress_prefix : String
  -- `v1beta1constants.ConfirmationDeletion`
  pub confirmation_deletion : String
  -- `extensionsv1alpha1.SchemeGroupVersion.String()` and `extensionsv1alpha1.DNSRecordResource`
  pub extensions_group_version : String
  pub dns_record_resource : String

pub record Api : Type 1 where
  pub World : Type 0
  pub ShootClient : Type 0
  pub codec : Codec
  pub gardener : Gardener
  -- `client.IgnoreNotFound` of an error that is not nil
  pub ignore_not_found : Error → Option Error
  -- `extensionscontroller.GetCluster`
  pub get_cluster : String → Exec World Cluster
  -- `extensionsutil.NewClientForShoot`, and that client's `Get` of a Service
  pub new_client_for_shoot : String → Exec World ShootClient
  pub get_service : ShootClient → String → String → Exec World Service
  -- `managedresources`: namespace and name, then `origin`, `keepObjects`, `secretNameWithPrefix`,
  -- the data, or the timeout in nanoseconds before them
  pub create_for_shoot : String → String → String → Bool → Map String → Exec World (Unit {0})
  pub create_for_seed : String → String → Bool → Map String → Exec World (Unit {0})
  pub set_keep_objects : String → String → Bool → Exec World (Unit {0})
  pub delete_resource : String → String → Bool → Exec World (Unit {0})
  pub wait_until_deleted : ℕ → String → String → Exec World (Unit {0})
  -- The seed client's `Get`, `Patch` and `Delete` of a DNSRecord. `Patch` takes the changed object
  -- and the base of the merge patch, and gives the object as the server answers it.
  pub get_dns_record : String → String → Exec World DnsRecord
  pub patch_dns_record : DnsRecord → DnsRecord → Exec World DnsRecord
  pub delete_dns_record : DnsRecord → Exec World (Unit {0})
  -- `time.Now`, in nanoseconds
  pub now : World → ℕ × World
  -- `ActuatorOperationTotal.WithLabelValues(cluster, operation).Inc()`, and `Set` of the gauge
  -- `ActuatorOperationDurationSeconds`, in nanoseconds
  pub count_operation : String → String → World → World
  pub set_duration : String → String → ℕ → World → World

-- A call returned, or what it is about was not found.
abbrev pub is_tolerable : {R : Type 0} → Api → Result R → Bool
is_tolerable A (ok a) = true
is_tolerable A (err e) = not (is_some (A.ignore_not_found e))
