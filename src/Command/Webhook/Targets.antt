-- ===== src/Command/Webhook/Targets.antt =====
-- On which clusters the manager of the webhook command works.
use mathlib.Core.Path.{subst}
use gardener_extension_shoot.Base.{true, some, [], ◌∷◌, Result, ok, ◌≡◌, sym}
use gardener_extension_shoot.Base.Int.{pos}
use gardener_extension_shoot.Manager.Host.{Types, Host}
use gardener_extension_shoot.Manager.Options.{Manager}
use gardener_extension_shoot.Manager.Build.{options_of}
use gardener_extension_shoot.Manager.Runs.{EachRan, done, next, IsFound}
use gardener_extension_shoot.Command.Constants.{Constants}
use gardener_extension_shoot.Command.Webhook.Flags.{Flags}
use gardener_extension_shoot.Command.Webhook.Services.{Services}
use gardener_extension_shoot.Command.Webhook.Configured.{flags_server, configured_manager}
use gardener_extension_shoot.Command.Webhook.Run.{run_webhook_server}
use gardener_extension_shoot.Command.Webhook.Serving.{IsServing, run_webhook_server-IsServing}

module _ (T : Types) (host : Host T) (C : Constants T.World) (S : Services T C)
    (f : Flags C.Float S.Cluster) where
  -- What the manager is created for, and what runs beside it.
  pub record IsAimed (w : T.World) : Type 0 where
    pub source : T.RestConfig
    pub after_source : T.World
    pub found : host.get_config w ≡ (ok source, after_source)
    pub source_cluster : S.Cluster
    pub logger : C.Logger
    pub after_cluster : T.World
    pub clustered :
        S.new_cluster source
          (λ opts. record opts {
            logger = logger;
            default_namespaces = f.webhook_config_namespace ∷ [];
          })
          after_source
        ≡ (ok source_cluster, after_cluster)
    pub target : T.RestConfig
    pub after_target : T.World
    pub targeted :
        S.build_config_from_flags "" f.garden_kubeconfig after_cluster ≡ (ok target, after_target)
    pub manager : T.CrManager
    pub before_new : T.World
    pub after_new : T.World
    pub created :
        host.new_cr_manager target
          (record {
            scheme = host.empty_scheme;
            metrics = record { bind_address = f.metrics_bind_addr; rest = host.zero_metrics };
            health_probe_bind_address = f.health_probe_bind_addr;
            leader_election = f.leader_election;
            leader_election_id = f.leader_election_id;
            leader_election_namespace = f.leader_election_namespace;
            leader_election_resource_lock = host.leases_resource_lock;
            leader_election_config = some source;
            base_context = S.context;
            controller = record {
              max_concurrent_reconciles = pos 5;
              recover_panic = some true;
              rest = host.zero_controller;
            };
            webhook_server = some (flags_server T host C S f);
            logger = host.zero_logger;
            pprof_bind_address = f.pprof_bind_addr;
            client = host.zero_client;
            cache = host.zero_cache;
          })
          (host.apply_connection
            (some (S.connection f.client_conn_qps f.client_conn_burst))
            target
            before_new)
        ≡ (ok manager, after_new)
    pub before_runnables : T.World
    pub after_runnables : T.World
    pub beside :
        host.add manager (S.runnable_of source_cluster) before_runnables ≡ (ok tt, after_runnables)

  only :
      {X : Type 0} (g : X → T.World → Result (Unit {0}) × T.World) (x : X) {w v : T.World}
      → EachRan g (x ∷ []) w v
      → g x w ≡ (ok tt, v)
  only g _ (next x _ e (done v)) = e

  IsServing-IsAimed : (w v : T.World) → IsServing T host C S f w v → IsAimed w
  IsServing-IsAimed w v s =
      let a = s.assembled in
      let b = a.built in
      let (same, _) =
        subst
          (λ (m : Manager T).
            IsFound T host m.rest_config b.rest_config b.after_installs b.after_config)
          a.configured b.configured in
      record {
        source = a.source;
        after_source = a.after_source;
        found = a.found;
        source_cluster = s.source_cluster;
        logger = a.logger;
        after_cluster = a.after_cluster;
        clustered = a.clustered;
        target = a.target;
        after_target = a.after_target;
        targeted = a.targeted;
        manager = s.manager;
        before_new = b.after_config;
        after_new = b.after_new;
        created =
            subst
              (λ c.
                host.new_cr_manager c
                  (options_of T host
                    (configured_manager T host C S f a.source s.source_cluster a.target))
                  (host.apply_connection (some (S.connection f.client_conn_qps f.client_conn_burst))
                    c b.after_config)
                ≡ (ok s.manager, b.after_new))
              (sym same)
              (subst
                (λ (m : Manager T).
                  host.new_cr_manager b.rest_config (options_of T host m)
                    (host.apply_connection m.client_conn_config b.rest_config b.after_config)
                  ≡ (ok s.manager, b.after_new))
                a.configured b.created);
        before_runnables = b.ready.after_handlers;
        after_runnables = a.after_manager;
        beside = only (host.add s.manager) (S.runnable_of s.source_cluster) (
            subst
              (λ (m : Manager T).
                EachRan (host.add s.manager) m.runnables b.ready.after_handlers a.after_manager)
              a.configured b.ready.runnables);
      }

  -- A run of the webhook command that returns without an error creates its manager for the
  -- configuration that the garden kubeconfig gives, with the settings of the flags and their webhook
  -- server, and with the configuration of the source cluster, which is the one that was found, for
  -- the leader election; and it adds to the manager a cluster that was made of the source's
  -- configuration.
  pub serving_targets :
      (w : T.World) → (run_webhook_server T host C S true f w).0 ≡ ok tt → IsAimed w
  serving_targets w h =
      IsServing-IsAimed w (run_webhook_server T host C S true f w).1
        (run_webhook_server-IsServing T host C S f w h)
