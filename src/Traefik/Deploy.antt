-- ===== src/Traefik/Deploy.antt =====
-- The methods of `Deployer` in pkg/traefik/deployer.go that act on the seed.
use gardener_extension_shoot.Base.{
  ℕ, ◌*◌, String, true, false, none, some, [], ◌∷◌, Error, Result, ok, err, wrapf, wrap,
}
use gardener_extension_shoot.Base.Exec.{Exec, pure, raise, lift, wrapping, ◌>>=◌, ◌>>◌}
use gardener_extension_shoot.Base.Assoc.{insert}
use gardener_extension_shoot.Kube.{DnsRecord, SecretReference}
use gardener_extension_shoot.Api.{Api}
use gardener_extension_shoot.Traefik.Config.{
  Deployer, managed_resource_name, seed_managed_resource_name,
}
use gardener_extension_shoot.Traefik.Resources.{generate_resources}

-- Two minutes, in nanoseconds.
abbrev pub managed_resource_deletion_timeout : ℕ
managed_resource_deletion_timeout = 2 * 60_000_000_000

module _ (A : Api) where
  abbrev Action : Type 0
  Action = Exec A.World (Unit {0})

  -- `if client.IgnoreNotFound(err) != nil { return fmt.Errorf(format, err) }`
  abbrev unless_not_found : String → Error → Action
  unless_not_found format e = elim (A.ignore_not_found e) [
    | none ↦ pure tt
    | some _ ↦ raise (wrapf format [] e)
  ]

  abbrev ignoring_result : String → Result (Unit {0}) → Action
  ignoring_result format (ok a) = pure tt
  ignoring_result format (err e) = unless_not_found format e

  abbrev ignoring_not_found : String → Action → Action
  ignoring_not_found format m w = let (r, w') = m w in ignoring_result format r w'

  unfoldable pub deploy : Deployer → String → Action
  deploy d ns = do
    resources ←
        lift (wrap "failed to generate traefik resources: %w" [] (generate_resources A.codec d))
    wrapping "failed to create or update managed resource: %w" []
        (A.create_for_shoot ns managed_resource_name managed_resource_name false resources)

  unfoldable pub delete_managed_resource : String → Action
  delete_managed_resource ns = do
    wrapping "failed to delete managed resource: %w" []
        (A.delete_resource ns managed_resource_name true)
    wrapping "timed out waiting for managed resource to be deleted: %w" []
        (A.wait_until_deleted managed_resource_deletion_timeout ns managed_resource_name)

  unfoldable pub delete : String → Action
  unfolding delete_managed_resource
  delete ns = delete_managed_resource ns

  unfoldable pub delete_keeping_objects : String → Action
  unfolding delete_managed_resource
  delete_keeping_objects ns = do
    ignoring_not_found "failed to set keepObjects on managed resource: %w"
        (A.set_keep_objects ns managed_resource_name true)
    delete_managed_resource ns

  abbrev pub dns_record_of : String → String → String → String → SecretReference → DnsRecord
  dns_record_of ns lb_address dns_name provider_type secret_ref = record {
    type_meta = record {
      api_version = A.gardener.extensions_group_version;
      kind = A.gardener.dns_record_resource;
    };
    meta = record {
      name = seed_managed_resource_name;
      namespace = ns;
      labels = [];
      annotations = [];
    };
    provider_type = provider_type;
    secret_ref = secret_ref;
    name = dns_name;
    record_type = A.gardener.get_dns_record_type lb_address;
    values = lb_address ∷ [];
  }

  unfoldable pub deploy_dns_record : String → String → String → String → SecretReference → Action
  deploy_dns_record ns lb_address dns_name provider_type secret_ref = do
    dns_record_data ← lift (
        wrap "failed to encode DNSRecord: %w" [] (
          A.codec.encode_extensions
            (dns_record_of ns lb_address dns_name provider_type secret_ref)))
    wrapping "failed to deploy seed ManagedResource for DNSRecord: %w" [] (
        A.create_for_seed ns seed_managed_resource_name false
          (("dnsrecord.yaml", dns_record_data) ∷ []))

  abbrev pub confirmed : DnsRecord → DnsRecord
  confirmed r = record r {
    meta = record (r.meta) {
      annotations = insert A.gardener.confirmation_deletion "true" r.meta.annotations;
    };
  }

  -- The rest of `DeleteDNSRecord` after its `Get`.
  abbrev delete_found : Result DnsRecord → Action
  delete_found (ok r) = do
    patched ←
        wrapping "failed to annotate DNSRecord with deletion confirmation: %w" []
          (A.patch_dns_record (confirmed r) r)
    ignoring_not_found "failed to delete DNSRecord: %w" (A.delete_dns_record patched)
  delete_found (err e) = unless_not_found "failed to get DNSRecord: %w" e

  abbrev delete_directly : String → Action
  delete_directly ns w =
      let (r, w') = A.get_dns_record ns seed_managed_resource_name w in delete_found r w'

  unfoldable pub delete_dns_record : String → Action
  delete_dns_record ns = do
    ignoring_not_found "failed to set keepObjects on seed ManagedResource: %w"
        (A.set_keep_objects ns seed_managed_resource_name true)
    wrapping "failed to delete seed ManagedResource for DNSRecord: %w" []
        (A.delete_resource ns seed_managed_resource_name true)
    wrapping "timed out waiting for seed ManagedResource to be deleted: %w" []
        (A.wait_until_deleted managed_resource_deletion_timeout ns seed_managed_resource_name)
    delete_directly ns
