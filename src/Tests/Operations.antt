-- ===== src/Tests/Operations.antt =====
-- The theorems on the actuator's operations, at runs on the small seed.
use gardener_extension_shoot.Base.{◌+◌, true, [], ◌∷◌, ok, ◌≡◌, refl}
use gardener_extension_shoot.Base.Exec.{◌>>=◌}
use gardener_extension_shoot.Base.Assoc.{insert, copy}
use gardener_extension_shoot.Trace.{
  History, traced, released, occurrences, got_cluster, timed, counted,
}
use gardener_extension_shoot.Trace.Safety.{IsSafe}
use gardener_extension_shoot.Trace.Keep.{KeepsObjects, NeverKeeps}
use gardener_extension_shoot.Traefik.Config.{managed_resource_name, seed_managed_resource_name}
use gardener_extension_shoot.Traefik.Workload.{deployment}
use gardener_extension_shoot.Traefik.Resources.{split_crds, generate_resources}
use gardener_extension_shoot.Traefik.Deploy.{
  deploy, delete, delete_keeping_objects, deploy_dns_record, delete_dns_record,
}
use gardener_extension_shoot.Actuator.Settings.{resolve_config}
use gardener_extension_shoot.Actuator.Dns.{reconcile_dns_record}
use gardener_extension_shoot.Actuator.Operations.{
  measured, deploy_all, reconcile, delete_extension, best_effort, force_delete, restore, migrate,
}
use gardener_extension_shoot.Actuator.Operation.{deleting, restoring, run}
use gardener_extension_shoot.Actuator.Counting.{charge, occurrences-run}
use gardener_extension_shoot.Actuator.DnsSafety.{run-IsSafe}
use gardener_extension_shoot.Actuator.Retention.{leaving-KeepsObjects, managing-NeverKeeps}
use gardener_extension_shoot.Trace.Along.{Along}
use gardener_extension_shoot.Actuator.Order.{SeedFirst, teardown-SeedFirst}
use gardener_extension_shoot.Actuator.Teardown.{
  delete_extension-released, migrate-released, force_delete-released,
}
use gardener_extension_shoot.Actuator.Reconciled.{BodyDone, reconcile_done}
use gardener_extension_shoot.Tests.Fake.{seed_api, seed, Seed, extension, actuator}

abbrev start : Seed × History
start = (seed, [])

deletes : (delete_extension (traced seed_api) extension start).0 ≡ ok tt
unfolding delete_extension measured delete_dns_record delete ◌>>=◌
deletes = refl

forces : (force_delete (traced seed_api) extension start).0 ≡ ok tt
unfolding force_delete measured best_effort delete_dns_record delete_keeping_objects ◌>>=◌
forces = refl

migrates : (migrate (traced seed_api) extension start).0 ≡ ok tt
unfolding migrate measured delete_dns_record delete_keeping_objects ◌>>=◌
migrates = refl

reconciles : (reconcile (traced seed_api) actuator extension start).0 ≡ ok tt
unfolding reconcile measured deploy_all deploy reconcile_dns_record deploy_dns_record resolve_config
    generate_resources split_crds deployment ◌>>=◌ copy insert
reconciles = refl

delete_extension-released_example :
    (released "shoot--dev--one" managed_resource_name
        (delete_extension (traced seed_api) extension start).1.1
      ≡ true)
    × (released "shoot--dev--one" seed_managed_resource_name
          (delete_extension (traced seed_api) extension start).1.1
        ≡ true)
delete_extension-released_example = delete_extension-released seed_api extension start deletes

migrate-released_example :
    (released "shoot--dev--one" managed_resource_name
        (migrate (traced seed_api) extension start).1.1
      ≡ true)
    × (released "shoot--dev--one" seed_managed_resource_name
          (migrate (traced seed_api) extension start).1.1
        ≡ true)
migrate-released_example = migrate-released seed_api extension start migrates

force_delete-released_example :
    released "shoot--dev--one" managed_resource_name
      (force_delete (traced seed_api) extension start).1.1
    ≡ true
force_delete-released_example = force_delete-released seed_api extension start forces

reconcile_done_example :
    (cluster : _) × (h : History) × ((reconcile (traced seed_api) actuator extension start).1.1
      ≡ timed "shoot--dev--one" "reconcile" ∷ counted "shoot--dev--one" "reconcile" ∷ h)
    × BodyDone seed_api actuator extension cluster
        (got_cluster "shoot--dev--one" (ok cluster) ∷ [])
        h
reconcile_done_example = reconcile_done seed_api actuator extension start reconciles

run-IsSafe_example :
    IsSafe "confirmation.gardener.cloud/deletion"
      (run (traced seed_api) actuator deleting extension start).1.1
run-IsSafe_example = run-IsSafe seed_api actuator deleting extension start tt

leaving-KeepsObjects_example :
    KeepsObjects seed_api (force_delete (traced seed_api) extension start).1.1
    × KeepsObjects seed_api (migrate (traced seed_api) extension start).1.1
leaving-KeepsObjects_example = leaving-KeepsObjects seed_api extension start tt

managing-NeverKeeps_example :
    NeverKeeps (reconcile (traced seed_api) actuator extension start).1.1
    × NeverKeeps (restore (traced seed_api) actuator extension start).1.1
    × NeverKeeps (delete_extension (traced seed_api) extension start).1.1
managing-NeverKeeps_example = managing-NeverKeeps seed_api actuator extension start tt

occurrences-run_example :
    occurrences "shoot--dev--one" "reconcile"
      (run (traced seed_api) actuator restoring extension start).1.1
    ≡ charge "shoot--dev--one" "reconcile" extension restoring + 0
occurrences-run_example =
    occurrences-run seed_api "shoot--dev--one" "reconcile" actuator restoring extension start

teardown-SeedFirst_example :
    Along SeedFirst (delete_extension (traced seed_api) extension start).1.1
    × Along SeedFirst (migrate (traced seed_api) extension start).1.1
teardown-SeedFirst_example = teardown-SeedFirst seed_api extension start tt
