-- ===== src/Actuator/Operations.antt =====
-- The five operations of `extension.Actuator`. A deployer's configuration plays no part in what it
-- deletes, so the deleting methods take the namespace alone.
use gardener_extension_shoot.Base.{◌-◌, String, [], ok, is_some, if◌then◌else◌}
use gardener_extension_shoot.Base.Exec.{Exec, pure, lift, wrapping, ◌>>=◌, ◌>>◌}
use gardener_extension_shoot.Kube.{Cluster, Extension}
use gardener_extension_shoot.Api.{Api}
use gardener_extension_shoot.Traefik.Config.{new_deployer}
use gardener_extension_shoot.Traefik.Deploy.{
  deploy, delete_dns_record, delete, delete_keeping_objects,
}
use gardener_extension_shoot.Actuator.Settings.{Actuator, resolve_config}
use gardener_extension_shoot.Actuator.Dns.{reconcile_dns_record}

module _ (A : Api) where
  abbrev Action : Type 0
  Action = Exec A.World (Unit {0})

  -- `start := time.Now()` and the deferred function, which runs however the body ends.
  unfoldable pub measured : String → String → Action → Action
  measured cluster_name operation body w =
      let (start, w₁) = A.now w in
      let (r, w₂) = body w₁ in
      let (end, w₃) = A.now (A.count_operation cluster_name operation w₂) in
      (r, A.set_duration cluster_name operation (end - start) w₃)

  -- The part of `Reconcile` for a shoot that is neither deleted nor hibernated.
  unfoldable pub deploy_all : Actuator → Extension → Cluster → Action
  deploy_all a ex cluster = do
    cfg ← lift (resolve_config a.decoder ex.provider_config)
    wrapping "failed to deploy traefik: %w" []
        (deploy A (new_deployer cfg a.image_vector) ex.namespace)
    reconcile_dns_record A cluster ex.namespace

  unfoldable pub reconcile_body : Actuator → Extension → Action
  reconcile_body a ex = do
    cluster ← wrapping "failed to get cluster: %w" [] (A.get_cluster ex.namespace)
    if is_some cluster.shoot.deletion_timestamp
        then pure tt
        else if A.gardener.hibernation_is_enabled cluster.shoot
        then pure tt
        else deploy_all a ex cluster

  unfoldable pub reconcile : Actuator → Extension → Action
  unfolding reconcile_body
  reconcile a ex = measured ex.namespace "reconcile" (reconcile_body a ex)

  unfoldable pub delete_extension : Extension → Action
  delete_extension ex = measured ex.namespace "delete" do
    wrapping "failed to delete traefik ingress DNS record: %w" [] (delete_dns_record A ex.namespace)
    wrapping "failed to delete traefik: %w" [] (delete A ex.namespace)

  -- `if err := m; err != nil { logger.Error(err, …) }`
  unfoldable pub best_effort : Action → Action
  best_effort m w = let (r, w') = m w in (ok tt, w')

  unfoldable pub force_delete : Extension → Action
  force_delete ex = measured ex.namespace "force_delete" do
    best_effort (delete_dns_record A ex.namespace)
    wrapping "failed to force-delete traefik: %w" [] (delete_keeping_objects A ex.namespace)

  unfoldable pub restore : Actuator → Extension → Action
  unfolding reconcile
  restore a ex = measured ex.namespace "restore" (reconcile a ex)

  unfoldable pub migrate : Extension → Action
  migrate ex = measured ex.namespace "migrate" do
    wrapping "failed to delete traefik ingress DNS record during migrate: %w" []
        (delete_dns_record A ex.namespace)
    wrapping "failed to delete traefik managed resource during migrate: %w" []
        (delete_keeping_objects A ex.namespace)
