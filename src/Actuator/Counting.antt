-- ===== src/Actuator/Counting.antt =====
-- The metrics of `Actuator`: how often an operation is counted.
use gardener_extension_shoot.Base.{ℕ, ◌+◌, String, ◌≡◌, arith, ◌&&◌, ◌==◌, if◌then◌else◌}
use gardener_extension_shoot.Base.Exec.{◌>>=◌}
use gardener_extension_shoot.Kube.{Cluster, Extension, SecretReference}
use gardener_extension_shoot.Api.{Api}
use gardener_extension_shoot.Trace.{History, traced, occurrences}
use gardener_extension_shoot.Traefik.Config.{Deployer}
use gardener_extension_shoot.Traefik.Deploy.{
  deploy, delete, delete_keeping_objects, deploy_dns_record, delete_dns_record,
}
use gardener_extension_shoot.Actuator.Settings.{Actuator}
use gardener_extension_shoot.Actuator.Dns.{reconcile_dns_record}
use gardener_extension_shoot.Actuator.Operations.{
  deploy_all, reconcile, delete_extension, force_delete, restore, migrate, measured, best_effort,
}
use gardener_extension_shoot.Actuator.Operation.{
  Operation, reconciling, deleting, force_deleting, restoring, migrating, run, label,
}

abbrev hit : String → String → Extension → String → ℕ
hit cluster operation ex name = if ex.namespace == cluster && name == operation then 1 else 0

-- What one run adds to the counter of a cluster and an operation; a restore counts as a reconcile too.
abbrev pub charge : String → String → Extension → Operation → ℕ
charge cluster operation ex restoring =
    hit cluster operation ex "restore" + hit cluster operation ex "reconcile"
charge cluster operation ex op = hit cluster operation ex (label op)

module _ (A : Api) (c o : String) where
  occurrences-deploy :
      (d : Deployer) (ns : String) (s : A.World × History)
      → occurrences c o (deploy (traced A) d ns s).1.1 ≡ occurrences c o s.1
  unfolding deploy ◌>>=◌
  occurrences-deploy d ns s = ground arith

  occurrences-delete :
      (ns : String) (s : A.World × History)
      → occurrences c o (delete (traced A) ns s).1.1 ≡ occurrences c o s.1
  unfolding delete ◌>>=◌
  occurrences-delete ns s = ground arith

  occurrences-delete_keeping_objects :
      (ns : String) (s : A.World × History)
      → occurrences c o (delete_keeping_objects (traced A) ns s).1.1 ≡ occurrences c o s.1
  unfolding delete_keeping_objects ◌>>=◌
  occurrences-delete_keeping_objects ns s = ground arith

  occurrences-delete_dns_record :
      (ns : String) (s : A.World × History)
      → occurrences c o (delete_dns_record (traced A) ns s).1.1 ≡ occurrences c o s.1
  unfolding delete_dns_record ◌>>=◌
  occurrences-delete_dns_record ns s = ground arith

  occurrences-deploy_dns_record :
      (ns address name provider : String) (ref : SecretReference) (s : A.World × History)
      → occurrences c o (deploy_dns_record (traced A) ns address name provider ref s).1.1
        ≡ occurrences c o s.1
  unfolding deploy_dns_record ◌>>=◌
  occurrences-deploy_dns_record ns address name provider ref s = ground arith

  occurrences-reconcile_dns_record :
      (cluster : Cluster) (ns : String) (s : A.World × History)
      → occurrences c o (reconcile_dns_record (traced A) cluster ns s).1.1 ≡ occurrences c o s.1
  unfolding reconcile_dns_record ◌>>=◌
  occurrences-reconcile_dns_record cluster ns s = grind (arith, occurrences-deploy_dns_record)

  occurrences-deploy_all :
      (a : Actuator) (ex : Extension) (cluster : Cluster) (s : A.World × History)
      → occurrences c o (deploy_all (traced A) a ex cluster s).1.1 ≡ occurrences c o s.1
  unfolding deploy_all ◌>>=◌
  occurrences-deploy_all a ex cluster s =
      grind (arith, occurrences-deploy, occurrences-reconcile_dns_record)

  -- However a run ends, it adds its charge to the counters of its cluster, and nothing to others.
  pub occurrences-run :
      (a : Actuator) (op : Operation) (ex : Extension) (s : A.World × History)
      → occurrences c o (run (traced A) a op ex s).1.1 ≡ charge c o ex op + occurrences c o s.1
  unfolding run reconcile measured best_effort ◌>>=◌
  occurrences-run a reconciling ex s = grind (arith, occurrences-deploy_all)
  occurrences-run a deleting ex s =
      unfold delete_extension ◌>>=◌ in
      grind (arith, occurrences-delete, occurrences-delete_dns_record)
  occurrences-run a force_deleting ex s =
      unfold force_delete in
      grind (arith, occurrences-delete_keeping_objects, occurrences-delete_dns_record)
  occurrences-run a restoring ex s = unfold restore ◌>>=◌ in grind (arith, occurrences-deploy_all)
  occurrences-run a migrating ex s =
      unfold migrate in
      grind (arith, occurrences-delete_keeping_objects, occurrences-delete_dns_record)
