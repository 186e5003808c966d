-- ===== src/Actuator/Outcome.antt =====
-- What a reconciliation that reports success has done.
use gardener_extension_shoot.Base.{
  String, false, ◌<>◌, none, some, [], ◌∷◌, Result, ok, err, ◌==◌, ◌≡◌, refl, arith,
}
use gardener_extension_shoot.Base.Exec.{◌>>=◌}
use gardener_extension_shoot.Base.Assoc.{Map}
use gardener_extension_shoot.Kube.{Cluster}
use gardener_extension_shoot.Api.{Api}
use gardener_extension_shoot.Trace.{
  History, traced, created_for_seed, got_service, built_client, got_dns_record, created_for_shoot,
}
use gardener_extension_shoot.Traefik.Config.{
  Deployer, managed_resource_name, seed_managed_resource_name, namespace, deployment_name,
}
use gardener_extension_shoot.Traefik.Resources.{generate_resources}
use gardener_extension_shoot.Traefik.Deploy.{deploy, deploy_dns_record, dns_record_of}
use gardener_extension_shoot.Actuator.Dns.{reconcile_dns_record, lb_address_from_service, domain_of}

abbrev Encodes : Map String → Result String → Type 0
Encodes content (ok text) = content ≡ ("dnsrecord.yaml", text) ∷ []
Encodes content (err e) = ⊥

module _ (A : Api) (cluster : Cluster) (ns domain : String) (start : History) where
  -- On top of `start`, either the external DNSRecord was looked up and not found, or it was read and
  -- a record for the wildcard domain, with its provider and its credentials, that points to the
  -- address of the Traefik service was handed to the seed.
  abbrev pub Published : History → Type 0
  Published
        (created_for_seed n m keep content (ok _)
          ∷ got_service sn sm (ok svc)
          ∷ built_client cn _
          ∷ got_dns_record rn ext (ok r)
          ∷ h) =
      (n ≡ ns)
      × (m ≡ seed_managed_resource_name)
      × (keep ≡ false)
      × (sn ≡ namespace)
      × (sm ≡ deployment_name)
      × (cn ≡ ns)
      × (rn ≡ ns)
      × (ext ≡ cluster.shoot.name <> "-external")
      × ((lb_address_from_service svc == "") ≡ false)
      × Encodes content (
          A.codec.encode_extensions (
            dns_record_of A ns (lb_address_from_service svc)
              ("*." <> (A.gardener.ingress_prefix <> ("." <> domain))) r.provider_type
              r.secret_ref))
      × (h ≡ start)
  Published (got_dns_record rn ext (err e) ∷ h) =
      (rn ≡ ns)
      × (ext ≡ cluster.shoot.name <> "-external")
      × (A.ignore_not_found e ≡ none)
      × (h ≡ start)
  Published _ = ⊥

module _ (A : Api) (cluster : Cluster) (ns : String) (s : A.World × History) where
  pub reconcile_dns_record-Published :
      (domain : String)
      → domain_of cluster.shoot.dns ≡ some domain
      → (reconcile_dns_record (traced A) cluster ns s).0 ≡ ok tt
      → Published A cluster ns domain s.1 (reconcile_dns_record (traced A) cluster ns s).1.1
  unfolding reconcile_dns_record deploy_dns_record ◌>>=◌
  reconcile_dns_record-Published domain e h = ground arith

module _ (A : Api) (d : Deployer) (ns : String) (s : A.World × History) where
  abbrev pub CreatedWith : Map String → History → Type 0
  CreatedWith content h = h ≡ created_for_shoot ns managed_resource_name false content (ok tt) ∷ s.1

  pub deploy-created :
      (deploy (traced A) d ns s).0 ≡ ok tt
      → (content : Map String) × (generate_resources A.codec d ≡ ok content)
        × CreatedWith content (deploy (traced A) d ns s).1.1
  unfolding deploy ◌>>=◌
  deploy-created h = created (generate_resources A.codec d) refl
    where
      created :
          (r : Result (Map String))
          → generate_resources A.codec d ≡ r
          → (content : Map String) × (generate_resources A.codec d ≡ ok content)
            × CreatedWith content (deploy (traced A) d ns s).1.1
      created (ok content) e = (content, e, ground arith)
      created (err x) e = absurd (ground arith)
