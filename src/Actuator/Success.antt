-- ===== src/Actuator/Success.antt =====
-- That the operations that take Traefik down succeed when the seed answers well.
use gardener_extension_shoot.Base.{ℕ, String, Bool, true, ok, ◌≡◌, is_ok, arith}
use gardener_extension_shoot.Base.Exec.{◌>>=◌}
use gardener_extension_shoot.Kube.{Extension, DnsRecord}
use gardener_extension_shoot.Api.{Api, is_tolerable}
use gardener_extension_shoot.Traefik.Config.{managed_resource_name, seed_managed_resource_name}
use gardener_extension_shoot.Traefik.Deploy.{delete, delete_keeping_objects, delete_dns_record}
use gardener_extension_shoot.Actuator.Operations.{
  measured, best_effort, delete_extension, force_delete, migrate,
}

module _ (A : Api) where
  -- The managed resource of a name can be deleted, and goes in time once it is.
  pub record Releases (name : String) : Type 0 where
    pub set_keep :
        (ns : String) (keep : Bool) (w : A.World)
        → is_tolerable A (A.set_keep_objects ns name keep w).0 ≡ true
    pub deletes :
        (ns : String) (secret : Bool) (w : A.World) → (A.delete_resource ns name secret w).0 ≡ ok tt
    pub waits :
        (timeout : ℕ) (ns : String) (secret : Bool) (w : A.World)
        → (A.wait_until_deleted timeout ns name (A.delete_resource ns name secret w).1).0 ≡ ok tt

  -- The record of a name can be read, changed and deleted, or is not there.
  pub record Records (name : String) : Type 0 where
    pub gets : (ns : String) (w : A.World) → is_tolerable A (A.get_dns_record ns name w).0 ≡ true
    pub patches :
        (changed base : DnsRecord) (w : A.World)
        → is_ok (A.patch_dns_record changed base w).0 ≡ true
    pub deletes : (r : DnsRecord) (w : A.World) → is_tolerable A (A.delete_dns_record r w).0 ≡ true

  delete_ok :
      Releases managed_resource_name → (ns : String) (w : A.World) → (delete A ns w).0 ≡ ok tt
  unfolding delete ◌>>=◌
  delete_ok well ns w = grind (arith, well.deletes, well.waits)

  delete_keeping_objects_ok :
      Releases managed_resource_name
      → (ns : String) (w : A.World) → (delete_keeping_objects A ns w).0 ≡ ok tt
  unfolding delete_keeping_objects ◌>>=◌
  delete_keeping_objects_ok well ns w = grind (arith, well.set_keep, well.deletes, well.waits)

  delete_dns_record_ok :
      Releases seed_managed_resource_name
      → Records seed_managed_resource_name
      → (ns : String) (w : A.World) → (delete_dns_record A ns w).0 ≡ ok tt
  unfolding delete_dns_record ◌>>=◌
  delete_dns_record_ok well records ns w = grind (
    arith, well.set_keep, well.deletes, well.waits, records.gets, records.patches, records.deletes,
  )

  -- If the seed lets go of the shoot's managed resource, a force-delete succeeds, whatever becomes of
  -- the DNS record.
  pub force_delete_succeeds :
      Releases managed_resource_name
      → (ex : Extension) (w : A.World) → (force_delete A ex w).0 ≡ ok tt
  unfolding force_delete measured best_effort ◌>>=◌
  force_delete_succeeds well ex w = grind (arith, delete_keeping_objects_ok well)

  -- If the seed lets go of both managed resources and of the DNS record, or the record is not there, a
  -- delete and a migration succeed.
  pub delete_migrate_succeed :
      Releases managed_resource_name
      → Releases seed_managed_resource_name
      → Records seed_managed_resource_name
      → (ex : Extension) (w : A.World)
      → ((delete_extension A ex w).0 ≡ ok tt) × ((migrate A ex w).0 ≡ ok tt)
  unfolding delete_extension migrate measured ◌>>=◌
  delete_migrate_succeed shoot_well seed_well records ex w = (
    grind (arith, delete_dns_record_ok seed_well records, delete_ok shoot_well),
    grind (arith, delete_dns_record_ok seed_well records, delete_keeping_objects_ok shoot_well),
  )
