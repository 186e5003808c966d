-- ===== src/Actuator/Order.antt =====
-- That the DNS record is taken down before Traefik.
use gardener_extension_shoot.Base.{String, true, ◌==◌, ◌≡◌, arith, eq_refl, if◌then◌else◌}
use gardener_extension_shoot.Base.Exec.{◌>>=◌}
use gardener_extension_shoot.Kube.{Extension}
use gardener_extension_shoot.Api.{Api}
use gardener_extension_shoot.Trace.{Event, deleted_resource, History, traced, released}
use gardener_extension_shoot.Trace.Along.{Along}
use gardener_extension_shoot.Traefik.Config.{managed_resource_name, seed_managed_resource_name}
use gardener_extension_shoot.Traefik.Deploy.{delete, delete_keeping_objects, delete_dns_record}
use gardener_extension_shoot.Actuator.Operations.{measured, delete_extension, migrate}
use gardener_extension_shoot.Actuator.Teardown.{released-delete_dns_record}

-- Where the shoot's managed resource is deleted, the seed's of the same namespace is gone.
abbrev pub SeedFirst : Event → History → Type 0
SeedFirst (deleted_resource ns name _) h =
    if name == managed_resource_name
    then released ns seed_managed_resource_name h ≡ true
    else Unit {0}
SeedFirst _ h = Unit

module _ (A : Api) (ns : String) (s : A.World × History) where
  SeedFirst-delete_dns_record :
      Along SeedFirst s.1 → Along SeedFirst (delete_dns_record (traced A) ns s).1.1
  unfolding delete_dns_record ◌>>=◌
  SeedFirst-delete_dns_record h = ground arith

  SeedFirst-delete :
      released ns seed_managed_resource_name s.1 ≡ true
      → Along SeedFirst s.1
      → Along SeedFirst (delete (traced A) ns s).1.1
  unfolding delete ◌>>=◌
  SeedFirst-delete gone h = ground (arith, eq_refl ns)

  SeedFirst-delete_keeping_objects :
      released ns seed_managed_resource_name s.1 ≡ true
      → Along SeedFirst s.1
      → Along SeedFirst (delete_keeping_objects (traced A) ns s).1.1
  unfolding delete_keeping_objects ◌>>=◌
  SeedFirst-delete_keeping_objects gone h = ground (arith, eq_refl ns)

-- However they end, a delete and a migration delete the shoot's managed resource only once the seed's
-- managed resource, which stands for the DNS record, is gone: a history in which each such deletion
-- came in this order stays so.
pub teardown-SeedFirst :
    (A : Api) (ex : Extension) (s : A.World × History)
    → Along SeedFirst s.1
    → Along SeedFirst (delete_extension (traced A) ex s).1.1
      × Along SeedFirst (migrate (traced A) ex s).1.1
unfolding delete_extension migrate measured ◌>>=◌
teardown-SeedFirst A ex s h = (
  grind (arith, SeedFirst-delete_dns_record, SeedFirst-delete, released-delete_dns_record),
  grind (
    arith, SeedFirst-delete_dns_record, SeedFirst-delete_keeping_objects,
    released-delete_dns_record,
  ),
)
