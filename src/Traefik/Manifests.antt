-- ===== src/Traefik/Manifests.antt =====
-- The shoot objects of pkg/traefik/deployer.go, but for the deployment.
use gardener_extension_shoot.Base.{String, List, [], ◌∷◌, ◌++◌, ◌==◌, if◌then◌else◌}
use gardener_extension_shoot.Kube.{
  ServiceAccount, PolicyRule, ClusterRole, ClusterRoleBinding, tcp, number, named, load_balancer,
  Service, IngressClass, ingress, egress, NetworkPolicy, PodDisruptionBudget,
}
use gardener_extension_shoot.Traefik.Config.{
  Deployer, kubernetes_ingress_nginx, namespace, service_account_name, deployment_name,
  ingress_class_name,
}

unfoldable pub service_account : Deployer → ServiceAccount
service_account d = record {
  type_meta = record { api_version = "v1"; kind = "ServiceAccount" };
  meta = record {
    name = service_account_name;
    namespace = namespace;
    labels =
        ("app.kubernetes.io/name", "traefik")
        ∷ ("app.kubernetes.io/instance", "traefik")
        ∷ ("app.kubernetes.io/component", "ingress-controller")
        ∷ ("app.kubernetes.io/managed-by", "gardener")
        ∷ [];
    annotations = [];
  };
}

abbrev pub read_verbs : List String
read_verbs = "get" ∷ "list" ∷ "watch" ∷ []

-- The rules of every provider.
abbrev pub base_rules : List PolicyRule
base_rules =
    record {
      api_groups = "" ∷ [];
      resources = "services" ∷ "endpoints" ∷ "secrets" ∷ "nodes" ∷ [];
      verbs = read_verbs;
    }
    ∷ record {
      api_groups = "discovery.k8s.io" ∷ [];
      resources = "endpointslices" ∷ [];
      verbs = read_verbs;
    }
    ∷ record {
      api_groups = "extensions" ∷ "networking.k8s.io" ∷ [];
      resources = "ingresses" ∷ "ingressclasses" ∷ [];
      verbs = read_verbs;
    }
    ∷ record {
      api_groups = "extensions" ∷ "networking.k8s.io" ∷ [];
      resources = "ingresses/status" ∷ [];
      verbs = "update" ∷ [];
    }
    ∷ record {
      api_groups = "traefik.io" ∷ [];
      resources =
          "ingressroutes" ∷ "ingressroutetcps" ∷ "ingressrouteudps" ∷ "middlewares"
          ∷ "middlewaretcps" ∷ "serverstransports" ∷ "serverstransporttcps" ∷ "tlsoptions"
          ∷ "tlsstores" ∷ "traefikservices" ∷ [];
      verbs = read_verbs;
    }
    ∷ []

-- The rules that the NGINX provider needs beside them.
abbrev pub nginx_rules : List PolicyRule
nginx_rules =
    record { api_groups = "" ∷ []; resources = "namespaces" ∷ []; verbs = read_verbs }
    ∷ record { api_groups = "" ∷ []; resources = "pods" ∷ []; verbs = "get" ∷ [] }
    ∷ []

unfoldable pub cluster_role : Deployer → ClusterRole
cluster_role d = record {
  type_meta = record { api_version = "rbac.authorization.k8s.io/v1"; kind = "ClusterRole" };
  meta = record {
    name = "traefik-ingress-controller";
    namespace = "";
    labels =
        ("app.kubernetes.io/name", "traefik")
        ∷ ("app.kubernetes.io/instance", "traefik")
        ∷ ("app.kubernetes.io/managed-by", "gardener")
        ∷ [];
    annotations = [];
  };
  rules =
      if d.config.ingress_provider == kubernetes_ingress_nginx
      then base_rules ++ nginx_rules
      else base_rules;
}

unfoldable pub cluster_role_binding : Deployer → ClusterRoleBinding
cluster_role_binding d = record {
  type_meta = record { api_version = "rbac.authorization.k8s.io/v1"; kind = "ClusterRoleBinding" };
  meta = record {
    name = "traefik-ingress-controller";
    namespace = "";
    labels =
        ("app.kubernetes.io/name", "traefik")
        ∷ ("app.kubernetes.io/instance", "traefik")
        ∷ ("app.kubernetes.io/managed-by", "gardener")
        ∷ [];
    annotations = [];
  };
  role_ref = record {
    api_group = "rbac.authorization.k8s.io";
    kind = "ClusterRole";
    name = "traefik-ingress-controller";
  };
  subjects =
      record { kind = "ServiceAccount"; name = service_account_name; namespace = namespace } ∷ [];
}

unfoldable pub service : Deployer → Service
service d = record {
  type_meta = record { api_version = "v1"; kind = "Service" };
  meta = record {
    name = "traefik";
    namespace = namespace;
    labels =
        ("app.kubernetes.io/name", "traefik")
        ∷ ("app.kubernetes.io/instance", "traefik")
        ∷ ("app.kubernetes.io/component", "ingress-controller")
        ∷ ("app.kubernetes.io/managed-by", "gardener")
        ∷ [];
    annotations = [];
  };
  service_type = load_balancer;
  selector = ("app.kubernetes.io/name", "traefik") ∷ ("app.kubernetes.io/instance", "traefik") ∷ [];
  ports =
      record { name = "web"; port = 80; target_port = named "web"; protocol = tcp }
      ∷ record { name = "websecure"; port = 443; target_port = named "websecure"; protocol = tcp }
      ∷ [];
  load_balancer_ingress = [];
}

unfoldable pub ingress_class : Deployer → IngressClass
unfolding ingress_class_name
ingress_class d = record {
  type_meta = record { api_version = "networking.k8s.io/v1"; kind = "IngressClass" };
  meta = record {
    name = ingress_class_name d.config;
    namespace = "";
    labels =
        ("app.kubernetes.io/name", "traefik")
        ∷ ("app.kubernetes.io/instance", "traefik")
        ∷ ("app.kubernetes.io/managed-by", "gardener")
        ∷ [];
    annotations =
        ("ingressclass.kubernetes.io/is-default-class", "true")
        ∷ ("resources.gardener.cloud/delete-on-invalid-update", "true")
        ∷ [];
  };
  controller =
      if d.config.ingress_provider == kubernetes_ingress_nginx
      then "k8s.io/ingress-nginx"
      else "traefik.io/ingress-controller";
}

unfoldable pub network_policy : Deployer → NetworkPolicy
network_policy d = record {
  type_meta = record { api_version = "networking.k8s.io/v1"; kind = "NetworkPolicy" };
  meta = record {
    name = "traefik-allow-ingress";
    namespace = namespace;
    labels =
        ("app.kubernetes.io/name", "traefik") ∷ ("app.kubernetes.io/managed-by", "gardener") ∷ [];
    annotations = [];
  };
  pod_selector =
      ("app.kubernetes.io/name", "traefik") ∷ ("app.kubernetes.io/instance", "traefik") ∷ [];
  policy_types = ingress ∷ egress ∷ [];
  ingress_rules = record { peers = [] } ∷ [];
  egress_rules = record { peers = record { namespace_selector = []; pod_selector = [] } ∷ [] } ∷ [];
}

unfoldable pub pod_disruption_budget : Deployer → PodDisruptionBudget
pod_disruption_budget d = record {
  type_meta = record { api_version = "policy/v1"; kind = "PodDisruptionBudget" };
  meta = record {
    name = deployment_name;
    namespace = namespace;
    labels =
        ("app.kubernetes.io/name", "traefik")
        ∷ ("app.kubernetes.io/instance", "traefik")
        ∷ ("app.kubernetes.io/managed-by", "gardener")
        ∷ [];
    annotations = [];
  };
  min_available = number 1;
  match_labels =
      ("app.kubernetes.io/name", "traefik") ∷ ("app.kubernetes.io/instance", "traefik") ∷ [];
}
