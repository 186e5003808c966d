-- ===== src/Traefik/Config.antt =====
-- pkg/traefik/constants.go, the configuration of pkg/traefik/deployer.go, and the schema of
-- pkg/apis/config/types.go.
use gardener_extension_shoot.Base.{String, Bool, false, List, [], ◌∷◌, Result, ◌==◌, if◌then◌else◌}
use gardener_extension_shoot.Base.Int.{ℤ, pos}
use gardener_extension_shoot.Kube.Meta.{TypeMeta}

-- An `IngressProviderType` is any text; these two are the documented ones.
abbrev pub kubernetes_ingress : String
kubernetes_ingress = "KubernetesIngress"

abbrev pub kubernetes_ingress_nginx : String
kubernetes_ingress_nginx = "KubernetesIngressNGINX"

-- What a shoot owner writes, "" or 0 for a field that is left out.
pub record TraefikConfigSpec : Type 0 where
  pub replicas : ℤ
  pub ingress_provider : String
  pub log_level : String
  pub dashboard : Bool

pub record TraefikConfig : Type 0 where
  pub type_meta : TypeMeta
  pub spec : TraefikConfigSpec

-- What the deployer works with.
pub record Config : Type 0 where
  pub replicas : ℤ
  pub ingress_provider : String
  pub log_level : String
  pub dashboard : Bool

abbrev pub default_config : Config
default_config = record {
  replicas = pos 2;
  ingress_provider = kubernetes_ingress;
  log_level = "Info";
  dashboard = false;
}

unfoldable pub ingress_class_name : Config → String
ingress_class_name c = if c.ingress_provider == kubernetes_ingress_nginx then "nginx" else "traefik"

abbrev pub namespace : String
namespace = "kube-system"

abbrev pub deployment_name : String
deployment_name = "traefik"

abbrev pub service_account_name : String
service_account_name = "traefik"

abbrev pub managed_resource_name : String
managed_resource_name = "extension-traefik"

abbrev pub image_name : String
image_name = "traefik"

abbrev pub seed_managed_resource_name : String
seed_managed_resource_name = "extension-traefik-ingress-dns"

-- The keys of the map that serves as a set.
abbrev pub valid_log_levels : List String
valid_log_levels = "Debug" ∷ "Info" ∷ "Warn" ∷ "Error" ∷ "Fatal" ∷ "Panic" ∷ []

-- The image vector's `FindImage`, with the image's `String`; a parameter of the program.
abbrev pub ImageVector : Type 0
ImageVector = String → Result String

-- The client and the logger of a `Deployer` are the calls of `Api`.
pub record Deployer : Type 0 where
  pub config : Config
  pub image_vector : ImageVector

abbrev pub new_deployer : Config → ImageVector → Deployer
new_deployer cfg image_vector = record { config = cfg; image_vector = image_vector }
