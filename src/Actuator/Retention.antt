-- ===== src/Actuator/Retention.antt =====
-- Which operations leave Traefik running in the shoot, and which remove it.
use gardener_extension_shoot.Base.{String, arith}
use gardener_extension_shoot.Base.Exec.{Exec, ◌>>=◌}
use gardener_extension_shoot.Base.Exec.Keeps.{Keeps, keeps_rules}
use gardener_extension_shoot.Kube.{Extension}
use gardener_extension_shoot.Api.{Api}
use gardener_extension_shoot.Trace.{History, traced}
use gardener_extension_shoot.Trace.Keep.{KeptBefore, KeepFree, KeepsObjects, NeverKeeps}
use gardener_extension_shoot.Traefik.Config.{Deployer}
use gardener_extension_shoot.Traefik.Deploy.{
  deploy, delete, delete_keeping_objects, deploy_dns_record, delete_dns_record,
}
use gardener_extension_shoot.Actuator.Settings.{Actuator}
use gardener_extension_shoot.Actuator.Dns.{DnsRecordRef, external_dns_record_ref, publish_address}
use gardener_extension_shoot.Actuator.Operations.{
  measured, reconcile_body, reconcile, delete_extension, force_delete, restore, migrate,
}
use gardener_extension_shoot.Actuator.Walk.{
  AlongHistory, Along-measured, Keeps-best_effort, Keeps-reconcile_body,
}

module _ (A : Api) where
  abbrev pub Kept : A.World × History → Type 0
  Kept = AlongHistory A (KeptBefore A)

  abbrev pub Unkept : A.World × History → Type 0
  Unkept = AlongHistory A KeepFree

  Kept-measured :
      (ns operation : String) (body : Exec (A.World × History) (Unit {0}))
      → Keeps Kept body
      → Keeps Kept (measured (traced A) ns operation body)
  Kept-measured = Along-measured A (record { of_counted = λ c o h. tt; of_timed = λ c o h. tt })

  Kept-delete_dns_record : (ns : String) → Keeps Kept (delete_dns_record (traced A) ns)
  unfolding delete_dns_record ◌>>=◌
  Kept-delete_dns_record ns = record { at = λ s h. ground arith }

  Kept-delete_keeping_objects : (ns : String) → Keeps Kept (delete_keeping_objects (traced A) ns)
  unfolding delete_keeping_objects ◌>>=◌
  Kept-delete_keeping_objects ns = record { at = λ s h. ground arith }

  ruleset kept_rules = (
    keeps_rules, Kept-measured, Keeps-best_effort, Kept-delete_dns_record,
    Kept-delete_keeping_objects,
  )

  Kept-leaving :
      (ex : Extension)
      → Keeps Kept (force_delete (traced A) ex) × Keeps Kept (migrate (traced A) ex)
  unfolding force_delete migrate
  Kept-leaving ex = (search kept_rules, search kept_rules)

  -- However they end, a force-delete and a migration delete the shoot's managed resource only just
  -- after a call that set `keepObjects` on it returned, or did not find it: a history in which each
  -- such deletion was prepared this way stays so.
  pub leaving-KeepsObjects :
      (ex : Extension) (s : A.World × History)
      → KeepsObjects A s.1
      → KeepsObjects A (force_delete (traced A) ex s).1.1
        × KeepsObjects A (migrate (traced A) ex s).1.1
  leaving-KeepsObjects ex s h =
      let (forced, migrated) = Kept-leaving ex in (forced.at s h, migrated.at s h)

  Unkept-measured :
      (ns operation : String) (body : Exec (A.World × History) (Unit {0}))
      → Keeps Unkept body
      → Keeps Unkept (measured (traced A) ns operation body)
  Unkept-measured = Along-measured A (record { of_counted = λ c o h. tt; of_timed = λ c o h. tt })

  Unkept-delete_dns_record : (ns : String) → Keeps Unkept (delete_dns_record (traced A) ns)
  unfolding delete_dns_record ◌>>=◌
  Unkept-delete_dns_record ns = record { at = λ s h. ground arith }

  Unkept-delete : (ns : String) → Keeps Unkept (delete (traced A) ns)
  unfolding delete ◌>>=◌
  Unkept-delete ns = record { at = λ s h. ground arith }

  Unkept-deploy : (d : Deployer) (ns : String) → Keeps Unkept (deploy (traced A) d ns)
  unfolding deploy ◌>>=◌
  Unkept-deploy d ns = record { at = λ s h. ground arith }

  Unkept-publish_address :
      (ns domain : String) (ref : DnsRecordRef)
      → Keeps Unkept (publish_address (traced A) ns domain ref)
  unfolding publish_address deploy_dns_record ◌>>=◌
  Unkept-publish_address ns domain ref = record { at = λ s h. ground arith }

  Unkept-external_dns_record_ref :
      (ns name : String) → Keeps Unkept (external_dns_record_ref (traced A) ns name)
  unfolding external_dns_record_ref ◌>>=◌
  Unkept-external_dns_record_ref ns name = record { at = λ s h. ground arith }

  Unkept-get_cluster : (ns : String) → Keeps Unkept ((traced A).get_cluster ns)
  Unkept-get_cluster ns = record { at = λ s h. ground arith }

  Unkept-reconcile_body :
      (a : Actuator) (ex : Extension) → Keeps Unkept (reconcile_body (traced A) a ex)
  Unkept-reconcile_body =
      Keeps-reconcile_body A Unkept-deploy Unkept-external_dns_record_ref Unkept-publish_address
        Unkept-get_cluster

  ruleset unkept_rules =
      (keeps_rules, Unkept-measured, Unkept-reconcile_body, Unkept-delete_dns_record, Unkept-delete)

  Unkept-managing :
      (a : Actuator) (ex : Extension)
      → Keeps Unkept (reconcile (traced A) a ex)
        × Keeps Unkept (restore (traced A) a ex)
        × Keeps Unkept (delete_extension (traced A) ex)
  unfolding reconcile restore delete_extension
  Unkept-managing a ex = (search unkept_rules, search unkept_rules, search unkept_rules)

  -- However they end, reconciling, restoring and deleting never set `keepObjects` on the shoot's
  -- managed resource, nor create it with the flag: a history in which it was never set stays so.
  pub managing-NeverKeeps :
      (a : Actuator) (ex : Extension) (s : A.World × History)
      → NeverKeeps s.1
      → NeverKeeps (reconcile (traced A) a ex s).1.1
        × NeverKeeps (restore (traced A) a ex s).1.1
        × NeverKeeps (delete_extension (traced A) ex s).1.1
  managing-NeverKeeps a ex s h =
      let (reconciled, restored, deleted) = Unkept-managing a ex in
      (reconciled.at s h, restored.at s h, deleted.at s h)
