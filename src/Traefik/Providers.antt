-- ===== src/Traefik/Providers.antt =====
-- The arguments of `buildArgs` in `deployment` beside the ingress class and the ports: which
-- providers and entry points Traefik starts with.
use gardener_extension_shoot.Base.{
  String, Bool, true, false, List, [], ◌∷◌, ◌++◌, ◌<>◌, ◌||◌, ◌∙◌, ◌==◌, ◌≡◌, refl, if◌then◌else◌,
}
use text.Mathlib.Text.{starts_with}
use gardener_extension_shoot.Base.Text.{format_bool, prefix_differs}
use gardener_extension_shoot.Base.Lists.{contains}
use gardener_extension_shoot.Traefik.Config.{
  Deployer, kubernetes_ingress, kubernetes_ingress_nginx, ingress_class_name,
}
use gardener_extension_shoot.Traefik.Manifests.{ingress_class}
use gardener_extension_shoot.Traefik.Workload.{container_args}

-- The arguments over the tests that choose them.
abbrev class_of : Bool → String
class_of nginx = if nginx then "nginx" else "traefik"

abbrev args_of : Bool → Bool → Bool → String → List String
args_of dashboard default nginx level =
    (("--api.insecure=" <> format_bool dashboard)
      ∷ ("--api.dashboard=" <> format_bool dashboard)
      ∷ "--ping=true"
      ∷ "--ping.entrypoint=web"
      ∷ "--metrics.prometheus=true"
      ∷ "--metrics.prometheus.entrypoint=metrics"
      ∷ "--entrypoints.web.address=:8000"
      ∷ "--entrypoints.websecure.address=:8443"
      ∷ "--entrypoints.metrics.address=:9100"
      ∷ ("--log.level=" <> level)
      ∷ [])
    ++ ((if dashboard then "--entrypoints.traefik.address=:9000" ∷ [] else [])
        ++ ((if default
              then "--providers.kubernetesingress=true"
                ∷ ("--providers.kubernetesingress.ingressclass=" <> class_of nginx)
                ∷ "--providers.kubernetesingress.ingressendpoint.publishedservice=kube-system/traefik"
                ∷ []
              else [])
            ++ (if nginx
                then "--providers.kubernetesingressnginx=true"
                  ∷ ("--providers.kubernetesingressnginx.ingressclass=" <> class_of nginx)
                  ∷ "--providers.kubernetesingressnginx.publishservice=kube-system/traefik"
                  ∷ []
                else [])))

-- No other argument depends on the log level.
without_level :
    (dashboard default nginx : Bool) (level t : String)
    → starts_with t "--log.level=" ≡ false
    → contains (args_of dashboard default nginx level) t
      ≡ contains (args_of dashboard default nginx "") t
without_level dashboard default nginx level t h =
    rw (prefix_differs "--log.level=" level t h) (rw (prefix_differs "--log.level=" "" t h) refl)

-- What the theorem below says of the arguments, over the tests.
abbrev Enabled : Bool → Bool → Bool → List String → Type 0
Enabled dashboard default nginx args =
    (contains args "--providers.kubernetesingress=true" ≡ default)
    × (contains args "--providers.kubernetesingressnginx=true" ≡ nginx)
    × (contains args ("--providers.kubernetesingress.ingressclass=" <> class_of nginx) ≡ default)
    × (contains args ("--providers.kubernetesingressnginx.ingressclass=" <> class_of nginx) ≡ nginx)
    × (contains args "--entrypoints.traefik.address=:9000" ≡ dashboard)
    × (contains args "--api.insecure=true" ≡ dashboard)

Enabled-of :
    (dashboard default nginx : Bool)
    → Enabled dashboard default nginx (args_of dashboard default nginx "")
Enabled-of true true true = (refl, refl, refl, refl, refl, refl)
Enabled-of true true false = (refl, refl, refl, refl, refl, refl)
Enabled-of true false true = (refl, refl, refl, refl, refl, refl)
Enabled-of true false false = (refl, refl, refl, refl, refl, refl)
Enabled-of false true true = (refl, refl, refl, refl, refl, refl)
Enabled-of false true false = (refl, refl, refl, refl, refl, refl)
Enabled-of false false true = (refl, refl, refl, refl, refl, refl)
Enabled-of false false false = (refl, refl, refl, refl, refl, refl)

class_differs :
    (nginx : Bool)
    → starts_with ("--providers.kubernetesingress.ingressclass=" <> class_of nginx) "--log.level="
      ≡ false
class_differs true = refl
class_differs false = refl

nginx_class_differs :
    (nginx : Bool)
    → starts_with
        ("--providers.kubernetesingressnginx.ingressclass=" <> class_of nginx)
        "--log.level="
      ≡ false
nginx_class_differs true = refl
nginx_class_differs false = refl

args-Enabled :
    (dashboard default nginx : Bool) (level : String)
    → Enabled dashboard default nginx (args_of dashboard default nginx level)
args-Enabled b d n level =
    let e = Enabled-of b d n in
    (
      without_level b d n level _ refl ∙ e.0,
      without_level b d n level _ refl ∙ e.1,
      without_level b d n level _ (class_differs n) ∙ e.2,
      without_level b d n level _ (nginx_class_differs n) ∙ e.3,
      without_level b d n level _ refl ∙ e.4,
      without_level b d n level _ refl ∙ e.5,
    )

-- Traefik is started with the Kubernetes Ingress provider exactly if that is configured or none is,
-- with the NGINX provider exactly if that is configured (so with neither for any other text); the
-- provider that is started watches the ingress class that is deployed; and the dashboard's entry
-- point and the insecure API are there exactly if the dashboard is on.
pub providers_exact :
    (d : Deployer)
    → (contains (container_args d.config) "--providers.kubernetesingress=true"
        ≡ (d.config.ingress_provider == kubernetes_ingress || d.config.ingress_provider == ""))
      × (contains (container_args d.config) "--providers.kubernetesingressnginx=true"
          ≡ (d.config.ingress_provider == kubernetes_ingress_nginx))
      × (contains
            (container_args d.config)
            ("--providers.kubernetesingress.ingressclass=" <> (ingress_class d).meta.name)
          ≡ (d.config.ingress_provider == kubernetes_ingress || d.config.ingress_provider == ""))
      × (contains
            (container_args d.config)
            ("--providers.kubernetesingressnginx.ingressclass=" <> (ingress_class d).meta.name)
          ≡ (d.config.ingress_provider == kubernetes_ingress_nginx))
      × (contains (container_args d.config) "--entrypoints.traefik.address=:9000"
          ≡ d.config.dashboard)
      × (contains (container_args d.config) "--api.insecure=true" ≡ d.config.dashboard)
unfolding container_args ingress_class ingress_class_name
providers_exact d =
    args-Enabled d.config.dashboard
      (d.config.ingress_provider == kubernetes_ingress || d.config.ingress_provider == "")
      (d.config.ingress_provider == kubernetes_ingress_nginx) d.config.log_level
