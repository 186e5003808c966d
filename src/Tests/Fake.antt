-- ===== src/Tests/Fake.antt =====
-- A seed that holds one shoot: its DNSRecord, and which managed resources are there.
use gardener_extension_shoot.Base.{
  ℕ, ◌+◌, String, Bool, true, false, Option, none, some, [], ◌∷◌, Error, foreign, Result, ok, err,
  ◌==◌, is_some, if◌then◌else◌,
}
use gardener_extension_shoot.Base.Int.{pos}
use gardener_extension_shoot.Base.Assoc.{Map}
use gardener_extension_shoot.Kube.{
  Codec, Manifest, Cluster, Shoot, Extension, Service, DnsRecord, load_balancer,
}
use gardener_extension_shoot.Api.{Api, Gardener}
use gardener_extension_shoot.Traefik.Config.{Deployer, default_config}
use gardener_extension_shoot.Actuator.Settings.{Actuator, Decoder}

pub record Seed : Type 0 where
  pub cluster : Cluster
  pub records : Map DnsRecord
  pub in_shoot : Bool
  pub in_seed : Bool
  pub time : ℕ

abbrev file_of : Manifest → String
file_of (Manifest.service_account _) = "account"
file_of (Manifest.cluster_role _) = "role"
file_of (Manifest.cluster_role_binding _) = "binding"
file_of (Manifest.deployment _) = "deployment"
file_of (Manifest.service _) = "service"
file_of (Manifest.ingress_class _) = "class"
file_of (Manifest.network_policy _) = "policy"
file_of (Manifest.pod_disruption_budget _) = "budget"

abbrev pub codec : Codec
codec = record {
  encode_shoot = λ m. ok (file_of m);
  encode_extensions = λ r. ok "record";
  documents = λ raw. ok (record { kind = "CustomResourceDefinition"; name = raw; rest = "" }) ∷ [];
  marshal_crd = λ c. ok c.rest;
  crd_yaml = "middlewares.traefik.io";
}

abbrev gardener : Gardener
gardener = record {
  hibernation_is_enabled = λ s. is_some s.hibernation;
  get_dns_record_type = λ address. "A";
  ingress_prefix = "ingress";
  confirmation_deletion = "confirmation.gardener.cloud/deletion";
  extensions_group_version = "extensions.gardener.cloud/v1alpha1";
  dns_record_resource = "DNSRecord";
}

abbrev pub service : Service
service = record {
  type_meta = record { api_version = "v1"; kind = "Service" };
  meta = record { name = "traefik"; namespace = "kube-system"; labels = []; annotations = [] };
  service_type = load_balancer;
  selector = [];
  ports = [];
  load_balancer_ingress =
      record { ip = ""; hostname = "" } ∷ record { ip = "10.0.0.1"; hostname = "lb" } ∷ [];
}

abbrev set_present : String → Bool → Seed → Seed
set_present name b w =
    if name == "extension-traefik" then record w { in_shoot = b } else record w { in_seed = b }

abbrev is_present : String → Seed → Bool
is_present name w = if name == "extension-traefik" then w.in_shoot else w.in_seed

abbrev pub find : String → Map DnsRecord → Result DnsRecord
find name [] = err (foreign "not found")
find name ((k, r) ∷ m) = if k == name then ok r else find name m

abbrev ignore : Error → Option Error
ignore (foreign s) = if s == "not found" then none else some (foreign s)
ignore e = some e

abbrev pub seed_api : Api
seed_api = record {
  World = Seed;
  ShootClient = Unit {0};
  codec = codec;
  gardener = gardener;
  ignore_not_found = ignore;
  get_cluster = λ ns w. (ok w.cluster, w);
  new_client_for_shoot = λ ns w. (ok tt, w);
  get_service = λ c ns name w. (ok service, w);
  create_for_shoot = λ ns name origin keep content w. (ok tt, set_present name true w);
  create_for_seed = λ ns name keep content w. (ok tt, set_present name true w);
  set_keep_objects = λ ns name keep w. (ok tt, w);
  delete_resource = λ ns name secret w. (ok tt, set_present name false w);
  wait_until_deleted =
      λ timeout ns name w. (if is_present name w then err (foreign "timed out") else ok tt, w);
  get_dns_record = λ ns name w. (find name w.records, w);
  patch_dns_record = λ changed base w. (ok changed, w);
  delete_dns_record = λ r w. (ok tt, record w { records = [] });
  now = λ w. (w.time, record w { time = w.time + 1 });
  count_operation = λ cluster operation w. w;
  set_duration = λ cluster operation d w. w;
}

abbrev record_named : String → DnsRecord
record_named name = record {
  type_meta = record { api_version = "extensions.gardener.cloud/v1alpha1"; kind = "DNSRecord" };
  meta = record { name = name; namespace = "shoot--dev--one"; labels = []; annotations = [] };
  provider_type = "aws-route53";
  secret_ref = record { name = "dns"; namespace = "shoot--dev--one" };
  name = "api.one.example.org";
  record_type = "A";
  values = "10.0.0.2" ∷ [];
}

abbrev pub shoot : Shoot
shoot = record {
  name = "one";
  deletion_timestamp = none;
  dns = some (record { domain = some "one.example.org" });
  purpose = some "evaluation";
  extensions = record { extension_type = "shoot-traefik"; disabled = none } ∷ [];
  hibernation = none;
}

-- With the record of the shoot's API server, and that of Traefik.
abbrev pub seed : Seed
seed = record {
  cluster = record { shoot = shoot };
  records =
      ("one-external", record_named "one-external")
      ∷ ("extension-traefik-ingress-dns", record_named "extension-traefik-ingress-dns")
      ∷ [];
  in_shoot = true;
  in_seed = true;
  time = 7;
}

abbrev pub extension : Extension
extension = record {
  name = "shoot-traefik";
  namespace = "shoot--dev--one";
  provider_config = some "nginx";
}

-- The text is the provider, or not to be decoded.
abbrev pub decode : Decoder
decode raw =
    if raw == "nginx"
    then ok (record {
      type_meta = record { api_version = ""; kind = "" };
      spec = record {
        replicas = pos 3;
        ingress_provider = "KubernetesIngressNGINX";
        log_level = "Debug";
        dashboard = true;
      };
    })
    else if raw == "loud"
    then ok (record {
      type_meta = record { api_version = ""; kind = "" };
      spec = record {
        replicas = pos 0;
        ingress_provider = "";
        log_level = "Loud";
        dashboard = false;
      };
    })
    else err (foreign "no config")

abbrev pub actuator : Actuator
actuator = record {
  decoder = some decode;
  image_vector = λ name. ok "traefik:v3";
  gardener_version = "v1.130.0";
  gardenlet_feature_gates = [];
}

abbrev pub deployer : Deployer
deployer = record { config = default_config; image_vector = λ name. ok "traefik:v3" }
