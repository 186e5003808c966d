-- ===== src/Tests/Resources.antt =====
-- The theorems on the configuration and on the generated resources, at concrete inputs.
use gardener_extension_shoot.Base.{
  ◌<>◌, String, true, false, some, [], ◌∷◌, ◌&&◌, ◌==◌, ◌≡◌, ◌≢◌, ◌↔◌, refl, ok, is_ok,
}
use gardener_extension_shoot.Base.Int.{pos}
use gardener_extension_shoot.Base.Lists.{any, all, All, contains}
use gardener_extension_shoot.Base.Assoc.{Map, lookup, copy, insert}
use gardener_extension_shoot.Traefik.Config.{
  Config, TraefikConfig, valid_log_levels, kubernetes_ingress, kubernetes_ingress_nginx,
  default_config,
}
use gardener_extension_shoot.Traefik.Manifests.{cluster_role, ingress_class}
use gardener_extension_shoot.Traefik.Workload.{container_args, deployment_of, deployment}
use gardener_extension_shoot.Traefik.Resources.{split_crds, generate_resources}
use gardener_extension_shoot.Traefik.Config.{Deployer}
use gardener_extension_shoot.Base.{if◌then◌else◌}
use gardener_extension_shoot.Traefik.Access.{
  grants, is_modest, is_nginx_right, cluster_role_modest, cluster_role_nginx,
}
use gardener_extension_shoot.Traefik.Crds.{
  is_fine, counts, last_of, split_crds-is_ok, split_crds-last,
}
use gardener_extension_shoot.Traefik.Bundle.{IsBundle, generate_resources-IsBundle}
use gardener_extension_shoot.Traefik.Providers.{providers_exact}
use gardener_extension_shoot.Traefik.Wiring.{IsWired, deployment-IsWired}
use gardener_extension_shoot.Actuator.Settings.{resolve_config}
use gardener_extension_shoot.Actuator.Dns.{lb_address_from_service}
use gardener_extension_shoot.Actuator.Address.{HasNone, Picks, lb_address_from_service_exact}
use gardener_extension_shoot.Actuator.Resolve.{
  IsValid, spec_of, resolve_config-IsValid, resolve_config-spec_of, resolve_config_fails_iff,
}
use gardener_extension_shoot.Tests.Fake.{codec, decode, deployer, service}

abbrev nginx : Config
nginx = record {
  replicas = pos 3;
  ingress_provider = "KubernetesIngressNGINX";
  log_level = "Debug";
  dashboard = true;
}

abbrev nginx_deployer : Deployer
nginx_deployer = record deployer { config = nginx }

nginx-IsValid : IsValid nginx
nginx-IsValid = record { replicas = refl; provider = refl; level = refl }

decoded : decode "nginx" ≡ ok (spec_of (record { api_version = ""; kind = "" }) nginx)
decoded = refl

resolved : resolve_config (some decode) (some "nginx") ≡ ok nginx
unfolding resolve_config
resolved = refl

resolve_config-IsValid_example : IsValid nginx
resolve_config-IsValid_example = resolve_config-IsValid (some decode) (some "nginx") nginx resolved

resolve_config-spec_of_example : resolve_config (some decode) (some "nginx") ≡ ok nginx
resolve_config-spec_of_example =
    resolve_config-spec_of (record { api_version = ""; kind = "" }) nginx decode "nginx"
      nginx-IsValid decoded

resolve_config_fails_iff_example : (is_ok (resolve_config (some decode) (some "loud")) ≡ false) ↔ (
    (cfg : TraefikConfig) × (decode "loud" ≡ ok cfg)
    × ((cfg.spec.log_level == "") ≡ false)
    × (contains valid_log_levels cfg.spec.log_level ≡ false))
resolve_config_fails_iff_example = resolve_config_fails_iff decode "loud"

made : deployment deployer ≡ ok (deployment_of deployer "traefik:v3")
unfolding deployment
made = refl

deployment-IsWired_example : IsWired deployer (deployment_of deployer "traefik:v3")
deployment-IsWired_example = deployment-IsWired deployer _ made

reads_secrets : grants (cluster_role deployer).rules "" "secrets" "list" ≡ true
unfolding cluster_role
reads_secrets = refl

cluster_role_modest_example : is_modest "secrets" "list" ≡ true
cluster_role_modest_example = cluster_role_modest deployer "" "secrets" "list" reads_secrets

cluster_role_nginx_example : grants (cluster_role deployer).rules "" "pods" "get" ≡ (
    if is_nginx_right "" "pods" "get"
    then kubernetes_ingress == kubernetes_ingress_nginx
    else grants (cluster_role nginx_deployer).rules "" "pods" "get")
cluster_role_nginx_example = cluster_role_nginx deployer nginx_deployer "" "pods" "get"

providers_exact_example :
    (contains (container_args default_config) "--providers.kubernetesingress=true" ≡ true)
    × (contains (container_args default_config) "--providers.kubernetesingressnginx=true" ≡ false)
    × (contains
          (container_args default_config)
          ("--providers.kubernetesingress.ingressclass=" <> (ingress_class deployer).meta.name)
        ≡ true)
    × (contains
          (container_args default_config)
          ("--providers.kubernetesingressnginx.ingressclass=" <> (ingress_class deployer).meta.name)
        ≡ false)
    × (contains (container_args default_config) "--entrypoints.traefik.address=:9000" ≡ false)
    × (contains (container_args default_config) "--api.insecure=true" ≡ false)
providers_exact_example = providers_exact deployer

abbrev address : String
address = "10.0.0.1"

lb_address_from_service_exact_example :
    ((lb_address_from_service service ≡ "") ↔ All HasNone service.load_balancer_ingress)
    × (((lb_address_from_service service ≡ address) × (address ≢ ""))
        ↔ Picks service.load_balancer_ingress address)
lb_address_from_service_exact_example = lb_address_from_service_exact service address

abbrev bundle : Map String
bundle =
    ("serviceaccount.yaml", "account")
    ∷ ("clusterrole.yaml", "role")
    ∷ ("clusterrolebinding.yaml", "binding")
    ∷ ("deployment.yaml", "deployment")
    ∷ ("service.yaml", "service")
    ∷ ("ingressclass.yaml", "class")
    ∷ ("networkpolicy.yaml", "policy")
    ∷ ("poddisruptionbudget.yaml", "budget")
    ∷ ("crd-middlewares.traefik.io.yaml", "")
    ∷ []

bundled : generate_resources codec deployer ≡ ok bundle
unfolding generate_resources split_crds deployment copy insert
bundled = refl

generate_resources-IsBundle_example : IsBundle codec deployer bundle
generate_resources-IsBundle_example = generate_resources-IsBundle codec deployer bundled

abbrev crds : Map String
crds = ("crd-middlewares.traefik.io.yaml", "") ∷ []

crds_split : split_crds codec "middlewares.traefik.io" ≡ ok crds
unfolding split_crds insert
crds_split = refl

split_crds-is_ok_example : is_ok (split_crds codec "middlewares.traefik.io") ≡ (
    all (is_fine codec) (codec.documents "middlewares.traefik.io")
    && any (counts codec) (codec.documents "middlewares.traefik.io"))
split_crds-is_ok_example = split_crds-is_ok codec "middlewares.traefik.io"

split_crds-last_example :
    lookup "crd-middlewares.traefik.io.yaml" crds
    ≡ last_of codec (codec.documents "middlewares.traefik.io") "crd-middlewares.traefik.io.yaml"
split_crds-last_example =
    split_crds-last codec "middlewares.traefik.io" crds "crd-middlewares.traefik.io.yaml" crds_split
