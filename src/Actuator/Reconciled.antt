-- ===== src/Actuator/Reconciled.antt =====
-- `Reconcile` as a whole.
use mathlib.Core.Path.{subst}
use gardener_extension_shoot.Base.{
  String, Bool, true, false, Option, none, some, [], ◌∷◌, ok, ◌||◌, ◌≡◌, refl, sym, ap, ◌∙◌,
  is_some, if◌then◌else◌,
}
use gardener_extension_shoot.Base.Exec.{Exec, pure, lift, wrapping, ◌>>=◌}
use gardener_extension_shoot.Base.Exec.Inversion.{>>=-eq-ok, wrapping-eq-ok}
use gardener_extension_shoot.Base.Assoc.{Map}
use gardener_extension_shoot.Kube.{Cluster, Extension}
use gardener_extension_shoot.Api.{Api}
use gardener_extension_shoot.Trace.{History, traced, created_for_shoot, got_cluster, counted, timed}
use gardener_extension_shoot.Traefik.Config.{Config, new_deployer, managed_resource_name}
use gardener_extension_shoot.Traefik.Resources.{generate_resources}
use gardener_extension_shoot.Traefik.Deploy.{deploy}
use gardener_extension_shoot.Actuator.Settings.{Actuator, resolve_config}
use gardener_extension_shoot.Actuator.Dns.{reconcile_dns_record, with_domain, domain_of}
use gardener_extension_shoot.Actuator.Operations.{measured, deploy_all, reconcile_body, reconcile}
use gardener_extension_shoot.Actuator.Outcome.{
  Published, deploy-created, reconcile_dns_record-Published,
}

-- The shoot has no domain and nothing was done, or its record was taken care of.
abbrev pub DnsDone : (A : Api) → Cluster → String → Option String → History → History → Type 0
DnsDone A cluster ns none start h = h ≡ start
DnsDone A cluster ns (some domain) start h = Published A cluster ns domain start h

module _ (A : Api) (a : Actuator) (ex : Extension) (cluster : Cluster) where
  -- The managed resource was created with all that is generated for the resolved configuration,
  -- and then the DNS record was taken care of.
  abbrev pub Deployed : History → History → Type 0
  Deployed start h =
      (cfg : Config) × (content : Map String) × (resolve_config a.decoder ex.provider_config
        ≡ ok cfg)
      × (generate_resources A.codec (new_deployer cfg a.image_vector) ≡ ok content)
      × DnsDone A cluster ex.namespace (domain_of cluster.shoot.dns)
          (created_for_shoot ex.namespace managed_resource_name false content (ok tt) ∷ start) h

  module _ (s : A.World × History) where
    reconcile_dns_record-DnsDone :
        (domain : Option String)
        → domain_of cluster.shoot.dns ≡ domain
        → (reconcile_dns_record (traced A) cluster ex.namespace s).0 ≡ ok tt
        → DnsDone A cluster ex.namespace domain s.1
            (reconcile_dns_record (traced A) cluster ex.namespace s).1.1
    unfolding reconcile_dns_record with_domain ◌>>=◌
    reconcile_dns_record-DnsDone none e h = rw (e, with_domain) refl
    reconcile_dns_record-DnsDone (some domain) e h =
        reconcile_dns_record-Published A cluster ex.namespace s domain e h

    DnsDone-after :
        (reconcile_dns_record (traced A) cluster ex.namespace s).0 ≡ ok tt
        → DnsDone A cluster ex.namespace
            (domain_of cluster.shoot.dns)
            s.1
            (reconcile_dns_record (traced A) cluster ex.namespace s).1.1
    DnsDone-after = reconcile_dns_record-DnsDone (domain_of cluster.shoot.dns) refl

  module _ (s : A.World × History) where
    deploy_all-Deployed :
        (deploy_all (traced A) a ex cluster s).0 ≡ ok tt
        → Deployed s.1 (deploy_all (traced A) a ex cluster s).1.1
    unfolding deploy_all lift
    deploy_all-Deployed h =
        let (cfg, resolved, h₁, e₁) =
          >>=-eq-ok (lift (resolve_config a.decoder ex.provider_config)) _ s h in
        let deployer = new_deployer cfg a.image_vector in
        let (_, wrapped, h₂, e₂) =
          >>=-eq-ok
            (wrapping "failed to deploy traefik: %w" [] (deploy (traced A) deployer ex.namespace)) _
            s h₁ in
        let (deployed, e₃) =
          wrapping-eq-ok "failed to deploy traefik: %w" [] (deploy (traced A) deployer ex.namespace)
            s wrapped in
        let (content, generated, created) = deploy-created A deployer ex.namespace s deployed in
        (
          cfg,
          content,
          resolved,
          generated,
          rw (e₁, e₂, e₃)
              (rw created at
                (DnsDone-after (deploy (traced A) deployer ex.namespace s).1 (rw e₃ at h₂))),
        )

-- A shoot that is left as it is: one in deletion, or hibernated.
abbrev pub is_skipped : Api → Cluster → Bool
is_skipped A cluster =
    is_some cluster.shoot.deletion_timestamp || A.gardener.hibernation_is_enabled cluster.shoot

module _ (A : Api) (a : Actuator) (ex : Extension) where
  -- What the body does of a cluster from the history `start` on.
  abbrev pub BodyDone : Cluster → History → History → Type 0
  BodyDone cluster start h =
      if is_skipped A cluster then h ≡ start else Deployed A a ex cluster start h

  abbrev choose : Bool → Bool → Cluster → Exec (A.World × History) (Unit {0})
  choose deleted hibernated cluster =
      if deleted
      then pure tt
      else if hibernated
      then pure tt
      else deploy_all (traced A) a ex cluster

  choose-done :
      (deleted hibernated : Bool) (cluster : Cluster) (t : A.World × History)
      → (choose deleted hibernated cluster t).0 ≡ ok tt
      → (if deleted || hibernated
          then (choose deleted hibernated cluster t).1.1 ≡ t.1
          else Deployed A a ex cluster t.1 (choose deleted hibernated cluster t).1.1)
  unfolding pure
  choose-done true hibernated cluster t h = refl
  choose-done false true cluster t h = refl
  choose-done false false cluster t h = deploy_all-Deployed A a ex cluster t h

  after_cluster :
      (cluster : Cluster) (t : A.World × History)
      → ((traced A).get_cluster ex.namespace t).0 ≡ ok cluster
      → let u = ((traced A).get_cluster ex.namespace t).1 in
        let m =
          choose
            (is_some cluster.shoot.deletion_timestamp)
            (A.gardener.hibernation_is_enabled cluster.shoot)
            cluster in
        (m u).0 ≡ ok tt → BodyDone cluster (got_cluster ex.namespace (ok cluster) ∷ t.1) (m u).1.1
  after_cluster cluster t got h =
      subst
        (λ r.
          BodyDone cluster (got_cluster ex.namespace r ∷ t.1)
            (choose (is_some cluster.shoot.deletion_timestamp)
              (A.gardener.hibernation_is_enabled cluster.shoot) cluster
              ((traced A).get_cluster ex.namespace t).1).1.1)
        got
        (choose-done (is_some cluster.shoot.deletion_timestamp)
          (A.gardener.hibernation_is_enabled cluster.shoot) cluster _ h)

  abbrev body_after : Cluster → Exec (A.World × History) (Unit {0})
  body_after cluster =
      choose (is_some cluster.shoot.deletion_timestamp)
        (A.gardener.hibernation_is_enabled cluster.shoot) cluster

  reconcile_body-done :
      (t : A.World × History)
      → (reconcile_body (traced A) a ex t).0 ≡ ok tt
      → (cluster : Cluster) × BodyDone cluster
          (got_cluster ex.namespace (ok cluster) ∷ t.1)
          (reconcile_body (traced A) a ex t).1.1
  unfolding reconcile_body
  reconcile_body-done t h =
      let get = wrapping "failed to get cluster: %w" [] ((traced A).get_cluster ex.namespace) in
      let (cluster, wrapped, h₁, e₁) = >>=-eq-ok get body_after t h in
      let (got, e₂) =
        wrapping-eq-ok "failed to get cluster: %w" [] ((traced A).get_cluster ex.namespace) t
          wrapped in
      let ran : (reconcile_body (traced A) a ex t)
          ≡ body_after cluster ((traced A).get_cluster ex.namespace t).1 =
        e₁ ∙ ap (λ x. body_after cluster x.1) e₂ in
      (
        cluster,
        subst (λ x. BodyDone cluster (got_cluster ex.namespace (ok cluster) ∷ t.1) x.1.1) (sym ran)
            (after_cluster cluster t got (sym (ap (λ x. x.0) ran) ∙ h)),
      )

  -- A reconciliation that reports success has read the cluster and left a shoot in deletion or in
  -- hibernation as it is; for any other shoot it has resolved a configuration, created the shoot's
  -- managed resource with all that is generated for it, and, if the shoot has a domain, published
  -- the address of the Traefik service, or found no external DNSRecord. It has made no other call.
  pub reconcile_done :
      (s : A.World × History)
      → (reconcile (traced A) a ex s).0 ≡ ok tt
      → (cluster : Cluster) × (h : History) × ((reconcile (traced A) a ex s).1.1
          ≡ timed ex.namespace "reconcile" ∷ counted ex.namespace "reconcile" ∷ h)
        × BodyDone cluster (got_cluster ex.namespace (ok cluster) ∷ s.1) h
  unfolding reconcile measured
  reconcile_done s h =
      let (cluster, done) = reconcile_body-done ((traced A).now s).1 h in (cluster, _, refl, done)
