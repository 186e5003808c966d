-- ===== src/Traefik/Workload.antt =====
-- `deployment` of pkg/traefik/deployer.go.
use gardener_extension_shoot.Base.{
  String, true, false, ◌||◌, List, [], ◌∷◌, ◌++◌, ◌<>◌, Result, ok, wrap, ◌>>=◌, ◌==◌,
  if◌then◌else◌,
}
use gardener_extension_shoot.Base.Text.{format_bool}
use gardener_extension_shoot.Base.Assoc.{Map}
use gardener_extension_shoot.Kube.{
  Deployment, ContainerPort, Container, tcp, number, schedule_anyway,
}
use gardener_extension_shoot.Traefik.Config.{
  Config, Deployer, kubernetes_ingress, kubernetes_ingress_nginx, namespace, deployment_name,
  service_account_name, image_name, ingress_class_name,
}

abbrev pub pod_labels : Map String
pod_labels =
    ("app.kubernetes.io/name", "traefik")
    ∷ ("app.kubernetes.io/instance", "traefik")
    ∷ ("app.kubernetes.io/component", "ingress-controller")
    ∷ ("app.kubernetes.io/managed-by", "gardener")
    ∷ ("networking.gardener.cloud/to-apiserver", "allowed")
    ∷ ("networking.gardener.cloud/to-dns", "allowed")
    ∷ []

-- The four appends to `args`, in order.
unfoldable pub container_args : Config → List String
unfolding ingress_class_name
container_args c =
    (("--api.insecure=" <> format_bool c.dashboard)
      ∷ ("--api.dashboard=" <> format_bool c.dashboard)
      ∷ "--ping=true"
      ∷ "--ping.entrypoint=web"
      ∷ "--metrics.prometheus=true"
      ∷ "--metrics.prometheus.entrypoint=metrics"
      ∷ "--entrypoints.web.address=:8000"
      ∷ "--entrypoints.websecure.address=:8443"
      ∷ "--entrypoints.metrics.address=:9100"
      ∷ ("--log.level=" <> c.log_level)
      ∷ [])
    ++ ((if c.dashboard then "--entrypoints.traefik.address=:9000" ∷ [] else [])
        ++ ((if c.ingress_provider == kubernetes_ingress || c.ingress_provider == ""
              then "--providers.kubernetesingress=true"
                ∷ ("--providers.kubernetesingress.ingressclass=" <> ingress_class_name c)
                ∷ "--providers.kubernetesingress.ingressendpoint.publishedservice=kube-system/traefik"
                ∷ []
              else [])
            ++ (if c.ingress_provider == kubernetes_ingress_nginx
                then "--providers.kubernetesingressnginx=true"
                  ∷ ("--providers.kubernetesingressnginx.ingressclass=" <> ingress_class_name c)
                  ∷ "--providers.kubernetesingressnginx.publishservice=kube-system/traefik"
                  ∷ []
                else [])))

unfoldable pub container_ports : Config → List ContainerPort
container_ports c =
    (record { name = "web"; container_port = 8000; protocol = tcp }
      ∷ record { name = "websecure"; container_port = 8443; protocol = tcp }
      ∷ record { name = "metrics"; container_port = 9100; protocol = tcp }
      ∷ [])
    ++ (if c.dashboard
        then record { name = "traefik"; container_port = 9000; protocol = tcp } ∷ []
        else [])

unfoldable pub traefik_container : Config → String → Container
unfolding container_args container_ports
traefik_container c image = record {
  name = "traefik";
  image = image;
  args = container_args c;
  ports = container_ports c;
  startup_probe = record {
    path = "/ping";
    port = number 8000;
    initial_delay_seconds = 5;
    period_seconds = 5;
    timeout_seconds = 3;
    failure_threshold = 12;
  };
  liveness_probe = record {
    path = "/ping";
    port = number 8000;
    initial_delay_seconds = 0;
    period_seconds = 10;
    timeout_seconds = 5;
    failure_threshold = 3;
  };
  readiness_probe = record {
    path = "/ping";
    port = number 8000;
    initial_delay_seconds = 0;
    period_seconds = 5;
    timeout_seconds = 3;
    failure_threshold = 3;
  };
  requests = record { cpu = "100m"; memory = "128Mi" };
  limits = record { cpu = "500m"; memory = "512Mi" };
  security_context = record {
    allow_privilege_escalation = false;
    read_only_root_filesystem = true;
    capabilities_drop = "ALL" ∷ [];
  };
}

abbrev pub deployment_of : Deployer → String → Deployment
deployment_of d image = record {
  type_meta = record { api_version = "apps/v1"; kind = "Deployment" };
  meta = record {
    name = deployment_name;
    namespace = namespace;
    labels = pod_labels;
    annotations = [];
  };
  replicas = d.config.replicas;
  match_labels =
      ("app.kubernetes.io/name", "traefik") ∷ ("app.kubernetes.io/instance", "traefik") ∷ [];
  template = record {
    labels = pod_labels;
    annotations = ("prometheus.io/scrape", "true") ∷ ("prometheus.io/port", "9100") ∷ [];
    service_account_name = service_account_name;
    security_context = record {
      run_as_non_root = true;
      run_as_user = 65532;
      run_as_group = 65532;
      fs_group = 65532;
    };
    containers = traefik_container d.config image ∷ [];
    topology_spread_constraints =
        record {
          max_skew = 1;
          topology_key = "kubernetes.io/hostname";
          when_unsatisfiable = schedule_anyway;
          match_labels =
              ("app.kubernetes.io/name", "traefik")
              ∷ ("app.kubernetes.io/instance", "traefik")
              ∷ [];
        }
        ∷ [];
  };
}

-- The image comes from the image vector, which may lack it.
unfoldable pub deployment : Deployer → Result Deployment
unfolding traefik_container
deployment d = do
  image ← wrap "failed to find traefik image in image vector: %w" [] (d.image_vector image_name)
  ok (deployment_of d image)
