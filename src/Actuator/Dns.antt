-- ===== src/Actuator/Dns.antt =====
-- The DNS part of `Reconcile`: `reconcileDNSRecord` and its helpers.
use gardener_extension_shoot.Base.{
  String, ◌<>◌, Option, none, some, List, [], ◌∷◌, Result, ok, err, new_error, ◌==◌, if◌then◌else◌,
}
use gardener_extension_shoot.Base.Exec.{Exec, pure, raise, wrapping, ◌>>=◌}
use gardener_extension_shoot.Kube.{
  Cluster, ShootDns, DnsRecord, SecretReference, Service, LoadBalancerIngress,
}
use gardener_extension_shoot.Api.{Api}
use gardener_extension_shoot.Traefik.Config.{namespace, deployment_name}
use gardener_extension_shoot.Traefik.Deploy.{deploy_dns_record}

-- The first address among the entries, an IP before a host name; "" if there is none.
unfoldable pub first_address : List LoadBalancerIngress → String
first_address [] = ""
first_address (ing ∷ rest) =
    let later = first_address rest in
    if ing.ip == "" then (if ing.hostname == "" then later else ing.hostname) else ing.ip

unfoldable pub lb_address_from_service : Service → String
unfolding first_address
lb_address_from_service svc = first_address svc.load_balancer_ingress

pub record DnsRecordRef : Type 0 where
  pub provider_type : String
  pub secret_ref : SecretReference

-- `*shoot.Spec.DNS.Domain`, where neither pointer is nil
abbrev pub domain_of : Option ShootDns → Option String
domain_of none = none
domain_of (some dns) = dns.domain

module _ (A : Api) where
  abbrev ref_of : Result DnsRecord → Exec A.World (Option DnsRecordRef)
  ref_of (ok r) =
      pure (some (record { provider_type = r.provider_type; secret_ref = r.secret_ref }))
  ref_of (err e) = elim (A.ignore_not_found e) [ none ↦ pure none | some e' ↦ raise e ]

  unfoldable pub external_dns_record_ref : String → String → Exec A.World (Option DnsRecordRef)
  external_dns_record_ref ns shoot_name w =
      let (r, w') = A.get_dns_record ns (shoot_name <> "-external") w in ref_of r w'

  -- `reconcileDNSRecord` from the client for the shoot on.
  unfoldable pub publish_address : String → String → DnsRecordRef → Exec A.World (Unit {0})
  publish_address cluster_name domain ref = do
    shoot_client ←
        wrapping "failed to create shoot client: %w" [] (A.new_client_for_shoot cluster_name)
    svc ←
        wrapping "failed to get traefik service from shoot: %w" []
          (A.get_service shoot_client namespace deployment_name)
    let lb_address = lb_address_from_service svc
    if lb_address == ""
        then raise (new_error "traefik LoadBalancer address not yet available, will retry")
        else deploy_dns_record A cluster_name lb_address
            ("*." <> (A.gardener.ingress_prefix <> ("." <> domain))) ref.provider_type
            ref.secret_ref

  unfoldable pub with_ref : String → String → Option DnsRecordRef → Exec A.World (Unit {0})
  with_ref cluster_name domain none = pure tt
  with_ref cluster_name domain (some ref) = publish_address cluster_name domain ref

  unfoldable pub with_domain : Cluster → String → Option String → Exec A.World (Unit {0})
  with_domain cluster cluster_name none = pure tt
  with_domain cluster cluster_name (some domain) = do
    ref ←
        wrapping "failed to look up external DNSRecord for shoot: %w" []
          (external_dns_record_ref cluster_name cluster.shoot.name)
    with_ref cluster_name domain ref

  unfoldable pub reconcile_dns_record : Cluster → String → Exec A.World (Unit {0})
  unfolding external_dns_record_ref lb_address_from_service publish_address with_ref with_domain
  reconcile_dns_record cluster cluster_name =
      with_domain cluster cluster_name (domain_of cluster.shoot.dns)
