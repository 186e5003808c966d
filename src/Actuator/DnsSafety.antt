-- ===== src/Actuator/DnsSafety.antt =====
-- `DeleteDNSRecord`: what stands before the deletion of a DNSRecord.
use gardener_extension_shoot.Base.{String, arith, eq_refl}
use gardener_extension_shoot.Base.Exec.{Exec, ◌>>=◌}
use gardener_extension_shoot.Base.Exec.Keeps.{Keeps, keeps_rules}
use gardener_extension_shoot.Base.Assoc.{lookup-insert_self}
use gardener_extension_shoot.Kube.{Extension}
use gardener_extension_shoot.Api.{Api}
use gardener_extension_shoot.Trace.{History, traced}
use gardener_extension_shoot.Trace.Safety.{Permitted, IsSafe}
use gardener_extension_shoot.Traefik.Config.{Deployer}
use gardener_extension_shoot.Traefik.Deploy.{
  deploy, delete, delete_keeping_objects, deploy_dns_record, delete_dns_record,
}
use gardener_extension_shoot.Actuator.Settings.{Actuator}
use gardener_extension_shoot.Actuator.Dns.{DnsRecordRef, external_dns_record_ref, publish_address}
use gardener_extension_shoot.Actuator.Operations.{
  measured, reconcile_body, reconcile, delete_extension, force_delete, restore, migrate,
}
use gardener_extension_shoot.Actuator.Operation.{Operation, reconciling, run}
use gardener_extension_shoot.Actuator.Walk.{
  IgnoresMetrics, AlongHistory, Along-measured, Keeps-best_effort, Keeps-reconcile_body,
}

module _ (A : Api) where
  abbrev pub Safe : A.World × History → Type 0
  Safe = AlongHistory A (Permitted A.gardener.confirmation_deletion)

  metrics : IgnoresMetrics (Permitted A.gardener.confirmation_deletion)
  metrics = record { of_counted = λ c o h. tt; of_timed = λ c o h. tt }

  Safe-delete_dns_record : (ns : String) → Keeps Safe (delete_dns_record (traced A) ns)
  unfolding delete_dns_record ◌>>=◌
  Safe-delete_dns_record ns = record { at = λ s h. grind (arith, eq_refl ns, lookup-insert_self) }

  Safe-deploy : (d : Deployer) (ns : String) → Keeps Safe (deploy (traced A) d ns)
  unfolding deploy ◌>>=◌
  Safe-deploy d ns = record { at = λ s h. ground arith }

  Safe-delete : (ns : String) → Keeps Safe (delete (traced A) ns)
  unfolding delete ◌>>=◌
  Safe-delete ns = record { at = λ s h. ground arith }

  Safe-delete_keeping_objects : (ns : String) → Keeps Safe (delete_keeping_objects (traced A) ns)
  unfolding delete_keeping_objects ◌>>=◌
  Safe-delete_keeping_objects ns = record { at = λ s h. ground arith }

  Safe-publish_address :
      (ns domain : String) (ref : DnsRecordRef)
      → Keeps Safe (publish_address (traced A) ns domain ref)
  unfolding publish_address deploy_dns_record ◌>>=◌
  Safe-publish_address ns domain ref = record { at = λ s h. ground arith }

  Safe-external_dns_record_ref :
      (ns name : String) → Keeps Safe (external_dns_record_ref (traced A) ns name)
  unfolding external_dns_record_ref ◌>>=◌
  Safe-external_dns_record_ref ns name = record { at = λ s h. ground arith }

  Safe-get_cluster : (ns : String) → Keeps Safe ((traced A).get_cluster ns)
  Safe-get_cluster ns = record { at = λ s h. ground arith }

  Safe-reconcile_body :
      (a : Actuator) (ex : Extension) → Keeps Safe (reconcile_body (traced A) a ex)
  Safe-reconcile_body =
      Keeps-reconcile_body A Safe-deploy Safe-external_dns_record_ref Safe-publish_address
        Safe-get_cluster

  Safe-measured :
      (ns operation : String) (body : Exec (A.World × History) (Unit {0}))
      → Keeps Safe body
      → Keeps Safe (measured (traced A) ns operation body)
  Safe-measured = Along-measured A metrics

  ruleset safe_rules = (
    keeps_rules, Safe-measured, Keeps-best_effort, Safe-reconcile_body, Safe-delete_dns_record,
    Safe-delete, Safe-delete_keeping_objects,
  )

  Safe-run : (a : Actuator) (op : Operation) (ex : Extension) → Keeps Safe (run (traced A) a op ex)
  unfolding run reconcile delete_extension force_delete restore migrate
  Safe-run a reconciling ex = search safe_rules
  Safe-run a _ ex = search safe_rules

  -- Whatever the operation and however it ends, a history in which every deletion of a DNSRecord was
  -- prepared stays so.
  pub run-IsSafe :
      (a : Actuator) (op : Operation) (ex : Extension) (s : A.World × History)
      → IsSafe A.gardener.confirmation_deletion s.1
      → IsSafe A.gardener.confirmation_deletion (run (traced A) a op ex s).1.1
  run-IsSafe a op ex s h = (Safe-run a op ex).at s h
