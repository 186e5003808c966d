-- ===== src/Actuator/Teardown.antt =====
-- What has happened when an operation that takes Traefik down reports success.
use gardener_extension_shoot.Base.{String, true, ok, ◌≡◌, arith, eq_refl}
use gardener_extension_shoot.Base.Exec.{◌>>=◌}
use gardener_extension_shoot.Kube.{Extension}
use gardener_extension_shoot.Api.{Api}
use gardener_extension_shoot.Trace.{History, traced, released}
use gardener_extension_shoot.Traefik.Config.{managed_resource_name, seed_managed_resource_name}
use gardener_extension_shoot.Traefik.Deploy.{delete, delete_keeping_objects, delete_dns_record}
use gardener_extension_shoot.Actuator.Operations.{
  measured, best_effort, delete_extension, force_delete, migrate,
}

module _ (A : Api) (ns : String) (s : A.World × History) where
  pub released-delete_dns_record :
      (delete_dns_record (traced A) ns s).0 ≡ ok tt
      → released ns seed_managed_resource_name (delete_dns_record (traced A) ns s).1.1 ≡ true
  unfolding delete_dns_record ◌>>=◌
  released-delete_dns_record h = ground (arith, eq_refl ns)

  released-delete :
      (delete (traced A) ns s).0 ≡ ok tt
      → (released ns managed_resource_name (delete (traced A) ns s).1.1 ≡ true)
        × (released ns seed_managed_resource_name (delete (traced A) ns s).1.1
            ≡ released ns seed_managed_resource_name s.1)
  unfolding delete ◌>>=◌
  released-delete h = ground (arith, eq_refl ns)

  released-delete_keeping_objects :
      (delete_keeping_objects (traced A) ns s).0 ≡ ok tt
      → (released ns managed_resource_name (delete_keeping_objects (traced A) ns s).1.1 ≡ true)
        × (released ns seed_managed_resource_name (delete_keeping_objects (traced A) ns s).1.1
            ≡ released ns seed_managed_resource_name s.1)
  unfolding delete_keeping_objects ◌>>=◌
  released-delete_keeping_objects h = ground (arith, eq_refl ns)

module _ (A : Api) (ex : Extension) (s : A.World × History) where
  -- A delete that succeeds has waited for both managed resources to be gone.
  pub delete_extension-released :
      (delete_extension (traced A) ex s).0 ≡ ok tt
      → (released ex.namespace managed_resource_name (delete_extension (traced A) ex s).1.1 ≡ true)
        × (released ex.namespace seed_managed_resource_name (delete_extension (traced A) ex s).1.1
            ≡ true)
  unfolding delete_extension measured ◌>>=◌
  delete_extension-released h = grind (arith, released-delete_dns_record, released-delete)

  -- A migration that succeeds has waited for both managed resources to be gone.
  pub migrate-released :
      (migrate (traced A) ex s).0 ≡ ok tt
      → (released ex.namespace managed_resource_name (migrate (traced A) ex s).1.1 ≡ true)
        × (released ex.namespace seed_managed_resource_name (migrate (traced A) ex s).1.1 ≡ true)
  unfolding migrate measured ◌>>=◌
  migrate-released h = grind (arith, released-delete_dns_record, released-delete_keeping_objects)

  -- A force-delete that succeeds has waited for the shoot's managed resource, whatever became of
  -- the DNS record.
  pub force_delete-released :
      (force_delete (traced A) ex s).0 ≡ ok tt
      → released ex.namespace managed_resource_name (force_delete (traced A) ex s).1.1 ≡ true
  unfolding force_delete measured best_effort ◌>>=◌
  force_delete-released h = grind (arith, released-delete_keeping_objects)
