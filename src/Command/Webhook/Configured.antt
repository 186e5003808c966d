-- ===== src/Command/Webhook/Configured.antt =====
-- What the options of the webhook command make of the builder of its manager.
use gardener_extension_shoot.Base.{true, some, [], ◌∷◌, ok, ◌≡◌, refl}
use gardener_extension_shoot.Base.Int.{pos}
use gardener_extension_shoot.Base.Assoc.{insert}
use gardener_extension_shoot.Base.Options.{apply_options}
use gardener_extension_shoot.Traefik.Install.{config_install}
use gardener_extension_shoot.Manager.Host.{Types, Host}
use gardener_extension_shoot.Manager.Options.{Manager, initial_manager}
use gardener_extension_shoot.Command.Constants.{Constants}
use gardener_extension_shoot.Command.Webhook.Flags.{Flags}
use gardener_extension_shoot.Command.Webhook.Services.{Services}
use gardener_extension_shoot.Command.Webhook.Run.{manager_options}

module _ (T : Types) (host : Host T) (C : Constants T.World) (S : Services T C)
    (f : Flags C.Float S.Cluster) where
  -- The server that listens where the flags say, with their certificate.
  abbrev pub flags_server : T.Server
  flags_server = S.new_server (record {
    host = f.webhook_server_host;
    port = f.webhook_server_port;
    cert_dir = f.webhook_server_cert_dir;
    cert_name = f.webhook_server_cert_name;
    key_name = f.webhook_server_key_name;
  })

  -- The target is what the manager works on, the source is where it elects its leader.
  abbrev pub configured_manager : T.RestConfig → S.Cluster → T.RestConfig → Manager T
  configured_manager source source_cluster target = record {
    scheme = host.empty_scheme;
    metrics_server_opts = record { bind_address = f.metrics_bind_addr; rest = host.zero_metrics };
    health_probe_addr = f.health_probe_bind_addr;
    pprof_addr = f.pprof_bind_addr;
    leader_election_enabled = f.leader_election;
    leader_election_id = f.leader_election_id;
    leader_election_namespace = f.leader_election_namespace;
    base_context = S.context;
    logger = host.zero_logger;
    extra_metrics_handlers = [];
    healthz_checks = ("healthz", S.ping) ∷ [];
    client_opts = host.zero_client;
    cache_opts = host.zero_cache;
    client_conn_config = some (S.connection f.client_conn_qps f.client_conn_burst);
    add_to_schemes = S.client_go_scheme ∷ [];
    install_schemes = S.core_install ∷ config_install S.schemes ∷ [];
    rest_config = some target;
    leader_election_config = some source;
    webhook_server = some (flags_server);
    controller_opts = record {
      max_concurrent_reconciles = pos 5;
      recover_panic = some true;
      rest = host.zero_controller;
    };
    runnables = S.runnable_of source_cluster ∷ [];
    readyz_checks =
        ("readyz", S.ping)
        ∷ ("webhook-server", S.started_checker (flags_server))
        ∷ ("source-informer-sync", S.cluster_synced source_cluster)
        ∷ [];
  }

  -- The options of the webhook command never fail, and they leave the builder with these fields: the
  -- manager works on the target cluster, elects its leader in the source cluster, which runs beside
  -- it, and is ready only if its webhook server has started and the source cluster's cache is filled.
  pub webhook_options_applied :
      (source : T.RestConfig) (source_cluster : S.Cluster) (target : T.RestConfig)
      → apply_options
          (manager_options T host C S f source source_cluster target)
          (initial_manager T host)
        ≡ ok (configured_manager source source_cluster target)
  unfolding apply_options insert
  webhook_options_applied source source_cluster target = refl
