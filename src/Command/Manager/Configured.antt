-- ===== src/Command/Manager/Configured.antt =====
-- What the options of the manager command make of the builder of its manager.
use gardener_extension_shoot.Base.{true, none, some, [], ◌∷◌, ok, ◌≡◌, refl}
use gardener_extension_shoot.Base.Assoc.{insert}
use gardener_extension_shoot.Base.Options.{apply_options}
use gardener_extension_shoot.Traefik.Install.{config_install}
use gardener_extension_shoot.Manager.Host.{Types, Host}
use gardener_extension_shoot.Manager.Options.{Manager, initial_manager}
use gardener_extension_shoot.Command.Constants.{Constants}
use gardener_extension_shoot.Command.Manager.Flags.{Flags}
use gardener_extension_shoot.Command.Manager.Run.{Services, manager_options}

module _ (T : Types) (host : Host T) (C : Constants T.World) (S : Services T C)
    (f : Flags C.Float) where
  -- No configuration is set, so that the builder looks for the default one.
  abbrev pub configured_manager : Manager T
  configured_manager = record {
    scheme = host.empty_scheme;
    metrics_server_opts = record { bind_address = f.metrics_bind_addr; rest = host.zero_metrics };
    health_probe_addr = f.health_probe_bind_addr;
    pprof_addr = f.pprof_bind_addr;
    leader_election_enabled = f.leader_election;
    leader_election_id = f.leader_election_id;
    leader_election_namespace = f.leader_election_namespace;
    base_context = S.context;
    logger = host.zero_logger;
    extra_metrics_handlers = [];
    healthz_checks = ("healthz", S.ping) ∷ [];
    client_opts = host.zero_client;
    cache_opts = host.zero_cache;
    client_conn_config = some (S.connection f.client_conn_qps f.client_conn_burst);
    add_to_schemes =
        S.client_go_scheme ∷ S.extensions_scheme ∷ S.resources_scheme ∷ S.core_scheme ∷ [];
    install_schemes = config_install S.schemes ∷ [];
    rest_config = none;
    leader_election_config = none;
    webhook_server = none;
    controller_opts = record {
      max_concurrent_reconciles = f.max_concurrent_reconciles;
      recover_panic = some true;
      rest = host.zero_controller;
    };
    runnables = [];
    readyz_checks = ("readyz", S.ping) ∷ [];
  }

  -- The options of the manager command never fail, and they leave the builder with these fields.
  pub manager_options_applied :
      apply_options (manager_options T host C S f) (initial_manager T host) ≡ ok configured_manager
  unfolding apply_options insert
  manager_options_applied = refl
