-- ===== src/Traefik/Resources.antt =====
-- `generateResources` and `splitCRDs` of pkg/traefik/deployer.go.
use gardener_extension_shoot.Base.{
  String, ◌<>◌, ◌||◌, not, List, [], ◌∷◌, Result, ok, err, wrapf, new_error, wrap, ◌>>=◌, ◌==◌,
  if◌then◌else◌,
}
use gardener_extension_shoot.Base.Assoc.{Map, insert, copy}
use gardener_extension_shoot.Kube.{Codec, Crd, Manifest}
use gardener_extension_shoot.Traefik.Config.{Deployer}
use gardener_extension_shoot.Traefik.Manifests.{
  service_account, cluster_role, cluster_role_binding, service, ingress_class, network_policy,
  pod_disruption_budget,
}
use gardener_extension_shoot.Traefik.Workload.{deployment}

abbrev pub crd_key : String → String
crd_key name = "crd-" <> (name <> ".yaml")

module _ (codec : Codec) where
  -- The loop, over the decoder's results that are left.
  unfoldable pub split_loop : List (Result Crd) → Map String → Result (Map String)
  split_loop [] result = ok result
  split_loop (err e ∷ docs) result = err (wrapf "failed to decode CRD: %w" [] e)
  split_loop (ok crd ∷ docs) result =
      let skip = split_loop docs result in
      if not (crd.kind == "CustomResourceDefinition") || crd.name == "" then skip else do
        json ← wrap "failed to marshal CRD %s: %w" (crd.name ∷ []) (codec.marshal_crd crd)
        split_loop docs (insert (crd_key crd.name) json result)

  abbrev pub non_empty : Map String → Result (Map String)
  non_empty [] = err (new_error "no CRDs found in embedded YAML")
  non_empty (entry ∷ result) = ok (entry ∷ result)

  unfoldable pub split_crds : String → Result (Map String)
  unfolding split_loop
  split_crds raw = do result ← split_loop (codec.documents raw) []; non_empty result

  unfoldable pub generate_resources : Deployer → Result (Map String)
  generate_resources d = do
    sa ←
        wrap "failed to encode service account: %w" []
          (codec.encode_shoot (Manifest.service_account (service_account d)))
    cr ←
        wrap "failed to encode cluster role: %w" []
          (codec.encode_shoot (Manifest.cluster_role (cluster_role d)))
    crb ←
        wrap "failed to encode cluster role binding: %w" []
          (codec.encode_shoot (Manifest.cluster_role_binding (cluster_role_binding d)))
    deploy ← wrap "failed to create deployment: %w" [] (deployment d)
    deploy_yaml ←
        wrap "failed to encode deployment: %w" [] (codec.encode_shoot (Manifest.deployment deploy))
    svc ← wrap "failed to encode service: %w" [] (codec.encode_shoot (Manifest.service (service d)))
    ic ←
        wrap "failed to encode ingress class: %w" []
          (codec.encode_shoot (Manifest.ingress_class (ingress_class d)))
    np ←
        wrap "failed to encode network policy: %w" []
          (codec.encode_shoot (Manifest.network_policy (network_policy d)))
    pdb ←
        wrap "failed to encode pod disruption budget: %w" []
          (codec.encode_shoot (Manifest.pod_disruption_budget (pod_disruption_budget d)))
    crds ← wrap "failed to split traefik CRDs: %w" [] (split_crds codec.crd_yaml)
    ok (
        copy
          (("serviceaccount.yaml", sa)
            ∷ ("clusterrole.yaml", cr)
            ∷ ("clusterrolebinding.yaml", crb)
            ∷ ("deployment.yaml", deploy_yaml)
            ∷ ("service.yaml", svc)
            ∷ ("ingressclass.yaml", ic)
            ∷ ("networkpolicy.yaml", np)
            ∷ ("poddisruptionbudget.yaml", pdb)
            ∷ [])
          crds)
