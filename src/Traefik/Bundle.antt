-- ===== src/Traefik/Bundle.antt =====
-- What `generateResources` of pkg/traefik/deployer.go returns: the manifests at their keys.
use gardener_extension_shoot.Base.{
  String, ◌<>◌, Bool, true, false, not, ◌||◌, List, [], ◌∷◌, none, some, Result, ok, err, wrap,
  ◌>>=◌, ◌==◌, ◌≡◌, refl, sym, ap, ◌∙◌, >>=-eq-ok, err-ne-ok, ok-injective, if◌then◌else◌, ◌⊎◌, inl,
  inr,
}
use gardener_extension_shoot.Base.Text.{prefix_differs}
use gardener_extension_shoot.Base.Assoc.{Map, lookup, insert, copy, lookup-insert, lookup-copy}
use gardener_extension_shoot.Kube.{Codec, Crd, Manifest, Deployment}
use gardener_extension_shoot.Traefik.Config.{Deployer}
use gardener_extension_shoot.Traefik.Manifests.{
  service_account, cluster_role, cluster_role_binding, service, ingress_class, network_policy,
  pod_disruption_budget,
}
use gardener_extension_shoot.Traefik.Workload.{deployment}
use gardener_extension_shoot.Traefik.Resources.{
  crd_key, split_loop, non_empty, split_crds, generate_resources,
}
use mathlib.Core.Path.{subst}
use text.Mathlib.Text.{starts_with}
use gardener_extension_shoot.Traefik.Bundle.Calls.{files, generated}
mod Calls

if-eq : {A : Type 0} (b : Bool) (x y : A) {z : A} → (if b then x else y) ≡ z → (x ≡ z) ⊎ (y ≡ z)
if-eq true x y h = inl h
if-eq false x y h = inr h

other_key :
    (x k v : String) (m : Map String)
    → starts_with k "crd-" ≡ false
    → lookup k (insert ("crd-" <> x) v m) ≡ lookup k m
other_key x k v m h = rw lookup-insert (rw (prefix_differs "crd-" x k h) refl)

module _ (codec : Codec) where
  -- The loop puts nothing at a key that does not start with "crd-".
  split_loop-lookup :
      (docs : List (Result Crd)) (result m : Map String) (k : String)
      → starts_with k "crd-" ≡ false
      → split_loop codec docs result ≡ ok m
      → lookup k m ≡ lookup k result
  unfolding split_loop
  split_loop-lookup [] result m k h e = ap (lookup k) (sym (ok-injective e))
  split_loop-lookup (err x ∷ docs) result m k h e = absurd (err-ne-ok e)
  split_loop-lookup (ok crd ∷ docs) result m k h e =
      elim (if-eq (not (crd.kind == "CustomResourceDefinition") || crd.name == "") _ _ e) [
        | inl skipped ↦ split_loop-lookup docs result m k h skipped
        | inr used ↦
            let (json, _, rest) =
              >>=-eq-ok
                (wrap "failed to marshal CRD %s: %w" (crd.name ∷ []) (codec.marshal_crd crd))
                (λ json. split_loop codec docs (insert (crd_key crd.name) json result)) used in
            split_loop-lookup docs (insert (crd_key crd.name) json result) m k h rest
            ∙ other_key (crd.name <> ".yaml") k json result h
      ]

  non_empty-eq : {m : Map String} (found : Map String) → non_empty codec found ≡ ok m → found ≡ m
  non_empty-eq [] h = absurd (err-ne-ok h)
  non_empty-eq (x ∷ xs) h = ok-injective h

  split_crds-lookup :
      (m : Map String) (k : String)
      → starts_with k "crd-" ≡ false
      → split_crds codec codec.crd_yaml ≡ ok m
      → lookup k m ≡ none
  unfolding split_crds lookup
  split_crds-lookup m k h e =
      let (found, split, checked) =
        >>=-eq-ok (split_loop codec (codec.documents codec.crd_yaml) []) (non_empty codec) e in
      ap (lookup k) (sym (non_empty-eq found checked))
      ∙ split_loop-lookup (codec.documents codec.crd_yaml) [] found k h split

  -- The map has an object's text at a key.
  abbrev pub Has : Map String → String → Manifest → Type 0
  Has m key object =
      (text : String) × (codec.encode_shoot object ≡ ok text) × (lookup key m ≡ some text)

  at_key :
      (dst crds : Map String) (key : String) (object : Manifest) (text : String)
      → starts_with key "crd-" ≡ false
      → split_crds codec codec.crd_yaml ≡ ok crds
      → codec.encode_shoot object ≡ ok text
      → lookup key dst ≡ some text
      → Has (copy dst crds) key object
  at_key dst crds key object text h split encoded found =
      (text, encoded, rw lookup-copy (rw (split_crds-lookup crds key h split) found))

  -- Every object of the deployer is in the map, under its file's name.
  pub record IsBundle (d : Deployer) (m : Map String) : Type 0 where
    account : Has m "serviceaccount.yaml" (Manifest.service_account (service_account d))
    role : Has m "clusterrole.yaml" (Manifest.cluster_role (cluster_role d))
    binding :
        Has m "clusterrolebinding.yaml" (Manifest.cluster_role_binding (cluster_role_binding d))
    workload :
        (dep : Deployment) × (deployment d ≡ ok dep)
        × Has m "deployment.yaml" (Manifest.deployment dep)
    front : Has m "service.yaml" (Manifest.service (service d))
    class : Has m "ingressclass.yaml" (Manifest.ingress_class (ingress_class d))
    policy : Has m "networkpolicy.yaml" (Manifest.network_policy (network_policy d))
    budget :
        Has m "poddisruptionbudget.yaml" (Manifest.pod_disruption_budget (pod_disruption_budget d))

  -- If the resources are generated, then each of the eight files holds the encoding of the object
  -- that the deployer makes for it, whatever CRDs are merged into the map afterwards.
  pub generate_resources-IsBundle :
      (d : Deployer) {m : Map String} → generate_resources codec d ≡ ok m → IsBundle d m
  unfolding generate_resources lookup
  generate_resources-IsBundle d h =
      let (dep, made, fs) =
        generated (codec.encode_shoot (Manifest.service_account (service_account d)))
          (codec.encode_shoot (Manifest.cluster_role (cluster_role d)))
          (codec.encode_shoot (Manifest.cluster_role_binding (cluster_role_binding d)))
          (deployment d) (λ dep. codec.encode_shoot (Manifest.deployment dep))
          (codec.encode_shoot (Manifest.service (service d)))
          (codec.encode_shoot (Manifest.ingress_class (ingress_class d)))
          (codec.encode_shoot (Manifest.network_policy (network_policy d)))
          (codec.encode_shoot (Manifest.pod_disruption_budget (pod_disruption_budget d)))
          (split_crds codec codec.crd_yaml) h in
      subst (IsBundle d) (sym fs.same) (record {
        account = at_key _ fs.crd_map _ _ fs.sa_text refl fs.crds_ok fs.sa_ok refl;
        role = at_key _ fs.crd_map _ _ fs.cr_text refl fs.crds_ok fs.cr_ok refl;
        binding = at_key _ fs.crd_map _ _ fs.crb_text refl fs.crds_ok fs.crb_ok refl;
        workload = (dep, made, at_key _ fs.crd_map _ _ fs.dep_text refl fs.crds_ok fs.dep_ok refl);
        front = at_key _ fs.crd_map _ _ fs.svc_text refl fs.crds_ok fs.svc_ok refl;
        class = at_key _ fs.crd_map _ _ fs.ic_text refl fs.crds_ok fs.ic_ok refl;
        policy = at_key _ fs.crd_map _ _ fs.np_text refl fs.crds_ok fs.np_ok refl;
        budget = at_key _ fs.crd_map _ _ fs.pdb_text refl fs.crds_ok fs.pdb_ok refl;
      })
