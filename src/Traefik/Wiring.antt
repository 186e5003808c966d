-- ===== src/Traefik/Wiring.antt =====
-- How the objects of pkg/traefik/deployer.go refer to each other: selectors and labels, ports and
-- their names, accounts and roles.
use gardener_extension_shoot.Base.{
  String, Bool, true, false, List, [], ◌∷◌, ◌++◌, ◌∙◌, if◌then◌else◌, ◌&&◌, ◌==◌, ◌≡◌, refl, ok,
  nat_eq, ok-injective, >>=-eq-ok, arith, none, some, wrap,
}
use mathlib.Core.Path.{subst}
use gardener_extension_shoot.Base.Lists.{any, all}
use gardener_extension_shoot.Base.Text.{format_port}
use gardener_extension_shoot.Base.Assoc.{Map, lookup}
use gardener_extension_shoot.Kube.{Deployment, ContainerPort, tcp, Port, number, named}
use gardener_extension_shoot.Traefik.Config.{Deployer, image_name}
use gardener_extension_shoot.Traefik.Manifests.{
  service_account, cluster_role, cluster_role_binding, service, network_policy,
  pod_disruption_budget,
}
use gardener_extension_shoot.Traefik.Workload.{
  container_ports, traefik_container, deployment_of, deployment,
}

abbrev pub has_label : String × String → Map String → Bool
has_label (k, v) labels = elim (lookup k labels) [ none ↦ false | some w ↦ w == v ]

-- Whether a label selector (`matchLabels`, or a service's `selector`) asks for some label, and a pod
-- has all that it asks for.
abbrev pub selects : Map String → Map String → Bool
selects [] labels = false
selects (label ∷ selector) labels = has_label label labels && all (λ l. has_label l labels) selector

-- Whether a port is one that a container declares.
abbrev pub declares : List ContainerPort → Port → Bool
declares ports (number n) = any (λ p. nat_eq p.container_port n) ports
declares ports (named s) = any (λ p. p.name == s) ports

-- What the objects of a deployer must agree on.
pub record IsWired (d : Deployer) (dep : Deployment) : Type 0 where
  own_pods : selects dep.match_labels dep.template.labels ≡ true
  service_pods : selects (service d).selector dep.template.labels ≡ true
  budget_pods : selects (pod_disruption_budget d).match_labels dep.template.labels ≡ true
  policy_pods : selects (network_policy d).pod_selector dep.template.labels ≡ true
  spread_pods :
      all (λ t. selects t.match_labels dep.template.labels) dep.template.topology_spread_constraints
      ≡ true
  service_namespace : (service d).meta.namespace ≡ dep.meta.namespace
  budget_namespace : (pod_disruption_budget d).meta.namespace ≡ dep.meta.namespace
  policy_namespace : (network_policy d).meta.namespace ≡ dep.meta.namespace
  account_namespace : (service_account d).meta.namespace ≡ dep.meta.namespace
  account : (service_account d).meta.name ≡ dep.template.service_account_name
  role : (cluster_role d).meta.name ≡ (cluster_role_binding d).role_ref.name
  bound :
      any
        (λ s.
          s.name == (service_account d).meta.name
          && s.namespace == (service_account d).meta.namespace)
        (cluster_role_binding d).subjects
      ≡ true
  targets :
      all (λ c. all (λ p. declares c.ports p.target_port) (service d).ports) dep.template.containers
      ≡ true
  probes :
      all
        (λ c.
          declares c.ports c.startup_probe.port
          && (declares c.ports c.liveness_probe.port && declares c.ports c.readiness_probe.port))
        dep.template.containers
      ≡ true
  scraping : lookup "prometheus.io/scrape" dep.template.annotations ≡ some "true"
  scraped :
      (port : String) × (lookup "prometheus.io/port" dep.template.annotations ≡ some port)
      × (all (λ c. any (λ p. format_port p.container_port == port) c.ports) dep.template.containers
          ≡ true)
  dashboard : all (λ c. declares c.ports (number 9000)) dep.template.containers ≡ d.config.dashboard

-- The container's ports over the test that chooses them.
dashboard_port :
    (dashboard : Bool)
    → declares
        ((record { name = "web"; container_port = 8000; protocol = tcp }
            ∷ record { name = "websecure"; container_port = 8443; protocol = tcp }
            ∷ record { name = "metrics"; container_port = 9100; protocol = tcp }
            ∷ [])
          ++ (if dashboard
              then record { name = "traefik"; container_port = 9000; protocol = tcp } ∷ []
              else []))
        (number 9000)
      ≡ dashboard
dashboard_port true = refl
dashboard_port false = refl

and_true : (b : Bool) → (b && true) ≡ b
and_true b = ground arith

deployment_of-IsWired : (d : Deployer) (image : String) → IsWired d (deployment_of d image)
unfolding traefik_container container_ports service pod_disruption_budget network_policy
    service_account cluster_role cluster_role_binding lookup
deployment_of-IsWired d image = record {
  own_pods = refl;
  service_pods = refl;
  budget_pods = refl;
  policy_pods = refl;
  spread_pods = refl;
  service_namespace = refl;
  budget_namespace = refl;
  policy_namespace = refl;
  account_namespace = refl;
  account = refl;
  role = refl;
  bound = refl;
  targets = refl;
  probes = refl;
  scraping = refl;
  scraped = ("9100", refl, refl);
  dashboard = and_true _ ∙ dashboard_port d.config.dashboard;
}

-- Every deployment that the program makes is wired to the other objects of the same deployer: its
-- own selector, the service, the disruption budget, the network policy and the spread constraint all
-- select its pods; the objects share a namespace; the pods run under the account that the role
-- binding binds to the cluster role; the ports that the service, the probes and the annotation for
-- the scraper aim at are declared by the container; and port 9000 is declared exactly if the
-- dashboard is on.
pub deployment-IsWired : (d : Deployer) (dep : Deployment) → deployment d ≡ ok dep → IsWired d dep
unfolding deployment
deployment-IsWired d dep h =
    let (image, _, made) =
      >>=-eq-ok
        (wrap "failed to find traefik image in image vector: %w" [] (d.image_vector image_name))
        (λ image. ok (deployment_of d image)) h in
    subst (IsWired d) (ok-injective made) (deployment_of-IsWired d image)
