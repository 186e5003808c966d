-- ===== src/Tests/Successes.antt =====
-- The theorems on success, on the small seed, which lets everything go.
use gardener_extension_shoot.Base.{String, true, [], ◌∷◌, ok, ◌≡◌, refl, arith}
use gardener_extension_shoot.Base.Assoc.{Map}
use gardener_extension_shoot.Kube.{DnsRecord}
use gardener_extension_shoot.Traefik.Config.{managed_resource_name, seed_managed_resource_name}
use gardener_extension_shoot.Actuator.Operations.{delete_extension, force_delete, migrate}
use gardener_extension_shoot.Api.{is_tolerable}
use gardener_extension_shoot.Actuator.Success.{
  Releases, Records, force_delete_succeeds, delete_migrate_succeed,
}
use gardener_extension_shoot.Tests.Fake.{find, seed_api, seed, extension}

shoot_lets_go : Releases seed_api managed_resource_name
shoot_lets_go = record {
  set_keep = λ ns keep w. refl;
  deletes = λ ns secret w. refl;
  waits = λ timeout ns secret w. refl;
}

seed_lets_go : Releases seed_api seed_managed_resource_name
seed_lets_go = record {
  set_keep = λ ns keep w. refl;
  deletes = λ ns secret w. refl;
  waits = λ timeout ns secret w. refl;
}

-- The fake's own errors are all of a record that is not found.
find_tolerable : (name : String) (m : Map DnsRecord) → is_tolerable seed_api (find name m) ≡ true
find_tolerable name [] = refl
find_tolerable name ((k, r) ∷ m) = ground (arith, find_tolerable name m)

dns_lets_go : Records seed_api seed_managed_resource_name
dns_lets_go = record {
  gets = λ ns w. find_tolerable seed_managed_resource_name w.records;
  patches = λ changed base w. refl;
  deletes = λ r w. refl;
}

force_delete_succeeds_example : (force_delete seed_api extension seed).0 ≡ ok tt
force_delete_succeeds_example = force_delete_succeeds seed_api shoot_lets_go extension seed

delete_migrate_succeed_example :
    ((delete_extension seed_api extension seed).0 ≡ ok tt)
    × ((migrate seed_api extension seed).0 ≡ ok tt)
delete_migrate_succeed_example =
    delete_migrate_succeed seed_api shoot_lets_go seed_lets_go dns_lets_go extension seed
