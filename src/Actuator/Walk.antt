-- ===== src/Actuator/Walk.antt =====
-- What the operations keep, from what their parts keep.
use gardener_extension_shoot.Base.{String, Option, none, some}
use gardener_extension_shoot.Base.Exec.{Exec}
use gardener_extension_shoot.Base.Exec.Keeps.{Keeps, keeps_rules}
use gardener_extension_shoot.Kube.{Cluster, Extension}
use gardener_extension_shoot.Api.{Api}
use gardener_extension_shoot.Trace.{Event, counted, timed, History, traced}
use gardener_extension_shoot.Trace.Along.{Along}
use gardener_extension_shoot.Traefik.Config.{Deployer}
use gardener_extension_shoot.Traefik.Deploy.{deploy}
use gardener_extension_shoot.Actuator.Settings.{Actuator}
use gardener_extension_shoot.Actuator.Dns.{
  DnsRecordRef, external_dns_record_ref, publish_address, with_ref, with_domain,
  reconcile_dns_record,
}
use gardener_extension_shoot.Actuator.Operations.{measured, best_effort, deploy_all, reconcile_body}

-- A condition that speaks of neither metric.
pub record IgnoresMetrics (Q : Event → History → Type 0) : Type 0 where
  pub of_counted : (cluster operation : String) (h : History) → Q (counted cluster operation) h
  pub of_timed : (cluster operation : String) (h : History) → Q (timed cluster operation) h

abbrev pub AlongHistory : (A : Api) → (Event → History → Type 0) → A.World × History → Type 0
AlongHistory A Q s = Along Q s.1

pub Along-measured :
    (A : Api) {Q : Event → History → Type 0} (free : IgnoresMetrics Q)
    (cluster_name operation : String) (body : Exec (A.World × History) (Unit {0}))
    → Keeps (AlongHistory A Q) body
    → Keeps (AlongHistory A Q) (measured (traced A) cluster_name operation body)
unfolding measured
Along-measured A free cluster_name operation body k = record {
  at = λ s h. (
    free.of_timed cluster_name operation _,
    (free.of_counted cluster_name operation _, k.at _ h),
  );
}

module _ (A : Api) {P : A.World × History → Type 0} where
  pub Keeps-best_effort :
      (body : Exec (A.World × History) (Unit {0}))
      → Keeps P body
      → Keeps P (best_effort (traced A) body)
  unfolding best_effort
  Keeps-best_effort body k = record { at = k.at }

module _ (A : Api) {P : A.World × History → Type 0}
    (in_deploy : (d : Deployer) (ns : String) → Keeps P (deploy (traced A) d ns))
    (in_ref : (ns name : String) → Keeps P (external_dns_record_ref (traced A) ns name))
    (in_publish : (ns domain : String) (ref : DnsRecordRef)
      → Keeps P (publish_address (traced A) ns domain ref))
    (in_cluster : (ns : String) → Keeps P ((traced A).get_cluster ns)) where
  with_ref-Keeps :
      (ns domain : String) (ref : Option DnsRecordRef) → Keeps P (with_ref (traced A) ns domain ref)
  unfolding with_ref
  with_ref-Keeps ns domain none = search keeps_rules
  with_ref-Keeps ns domain (some ref) = in_publish ns domain ref

  with_domain-Keeps :
      (cluster : Cluster) (ns : String) (domain : Option String)
      → Keeps P (with_domain (traced A) cluster ns domain)
  unfolding with_domain
  with_domain-Keeps cluster ns none = search keeps_rules
  with_domain-Keeps cluster ns (some domain) = search (keeps_rules, in_ref, with_ref-Keeps)

  reconcile_dns_record-Keeps :
      (cluster : Cluster) (ns : String) → Keeps P (reconcile_dns_record (traced A) cluster ns)
  unfolding reconcile_dns_record
  reconcile_dns_record-Keeps cluster ns = with_domain-Keeps cluster ns _

  deploy_all-Keeps :
      (a : Actuator) (ex : Extension) (cluster : Cluster)
      → Keeps P (deploy_all (traced A) a ex cluster)
  unfolding deploy_all
  deploy_all-Keeps a ex cluster = search (keeps_rules, in_deploy, reconcile_dns_record-Keeps)

  pub Keeps-reconcile_body :
      (a : Actuator) (ex : Extension) → Keeps P (reconcile_body (traced A) a ex)
  unfolding reconcile_body
  Keeps-reconcile_body a ex = search (keeps_rules, in_cluster, deploy_all-Keeps)
