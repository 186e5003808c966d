-- ===== src/Manager/Options.antt =====
-- The `mgr` structure of pkg/mgr/mgr.go and its options.
use gardener_extension_shoot.Base.{
  String, Bool, true, false, Option, none, some, List, [], ◌∷◌, ◌++◌, Result, ok,
}
use gardener_extension_shoot.Base.Int.{ℤ, pos}
use gardener_extension_shoot.Base.Exec.{Exec}
use gardener_extension_shoot.Base.Assoc.{Map, insert}
use gardener_extension_shoot.Manager.Host.{Types, Host, MetricsOptions, ControllerOptions}

-- A scheme is changed in place: adding to it acts on the world. A function that installs into it has
-- no error to return, but may panic.
pub record Manager (T : Types) : Type 0 where
  pub scheme : T.Scheme
  pub add_to_schemes : List (T.Scheme → Exec T.World (Unit {0}))
  pub install_schemes : List (T.Scheme → Exec T.World (Unit {0}))
  pub rest_config : Option T.RestConfig
  pub metrics_server_opts : MetricsOptions T.MetricsRest
  pub health_probe_addr : String
  pub pprof_addr : String
  pub leader_election_enabled : Bool
  pub leader_election_id : String
  pub leader_election_namespace : String
  pub leader_election_config : Option T.RestConfig
  pub webhook_server : Option T.Server
  pub base_context : T.Context
  pub controller_opts : ControllerOptions T.ControllerRest
  pub logger : T.Logger
  pub runnables : List T.Runnable
  pub extra_metrics_handlers : Map T.Handler
  pub healthz_checks : Map T.Checker
  pub readyz_checks : Map T.Checker
  pub client_opts : T.ClientOptions
  pub cache_opts : T.CacheOptions
  pub client_conn_config : Option T.ConnectionConfig

module _ (T : Types) where
  abbrev pub ManagerOption : Type 0
  ManagerOption = Manager T → Result (Manager T)

  abbrev pub initial_manager : Host T → Manager T
  initial_manager host = record {
    scheme = host.empty_scheme;
    add_to_schemes = [];
    install_schemes = [];
    rest_config = none;
    metrics_server_opts = record { bind_address = ""; rest = host.zero_metrics };
    health_probe_addr = "";
    pprof_addr = "";
    leader_election_enabled = false;
    leader_election_id = "";
    leader_election_namespace = "";
    leader_election_config = none;
    webhook_server = none;
    base_context = host.background;
    controller_opts = record {
      max_concurrent_reconciles = pos 5;
      recover_panic = some true;
      rest = host.zero_controller;
    };
    logger = host.zero_logger;
    runnables = [];
    extra_metrics_handlers = [];
    healthz_checks = [];
    readyz_checks = [];
    client_opts = host.zero_client;
    cache_opts = host.zero_cache;
    client_conn_config = none;
  }

  abbrev pub with_config : Option T.RestConfig → ManagerOption
  with_config c m = ok (record m { rest_config = c })

  abbrev pub with_scheme : T.Scheme → ManagerOption
  with_scheme s m = ok (record m { scheme = s })

  abbrev pub with_add_to_scheme : (T.Scheme → Exec T.World (Unit {0})) → ManagerOption
  with_add_to_scheme f m = ok (record m { add_to_schemes = m.add_to_schemes ++ f ∷ [] })

  abbrev pub with_install_scheme : (T.Scheme → Exec T.World (Unit {0})) → ManagerOption
  with_install_scheme f m = ok (record m { install_schemes = m.install_schemes ++ f ∷ [] })

  abbrev pub with_metrics_options : MetricsOptions T.MetricsRest → ManagerOption
  with_metrics_options opts m = ok (record m { metrics_server_opts = opts })

  abbrev pub with_metrics_address : String → ManagerOption
  with_metrics_address addr m =
      ok (record m { metrics_server_opts = record (m.metrics_server_opts) { bind_address = addr } })

  abbrev pub with_extra_metrics_handler : String → T.Handler → ManagerOption
  with_extra_metrics_handler path handler m =
      ok (record m { extra_metrics_handlers = insert path handler m.extra_metrics_handlers })

  abbrev pub with_leader_election : Bool → ManagerOption
  with_leader_election enable m = ok (record m { leader_election_enabled = enable })

  abbrev pub with_leader_election_id : String → ManagerOption
  with_leader_election_id id m = ok (record m { leader_election_id = id })

  abbrev pub with_leader_election_namespace : String → ManagerOption
  with_leader_election_namespace ns m = ok (record m { leader_election_namespace = ns })

  abbrev pub with_leader_election_config : Option T.RestConfig → ManagerOption
  with_leader_election_config c m = ok (record m { leader_election_config = c })

  abbrev pub with_context : T.Context → ManagerOption
  with_context ctx m = ok (record m { base_context = ctx })

  abbrev pub with_manager_controller_options : ControllerOptions T.ControllerRest → ManagerOption
  with_manager_controller_options opts m = ok (record m { controller_opts = opts })

  abbrev pub with_max_concurrent_reconciles : ℤ → ManagerOption
  with_max_concurrent_reconciles val m = ok (record m {
    controller_opts = record (m.controller_opts) { max_concurrent_reconciles = val };
  })

  abbrev pub with_healthz_check : String → T.Checker → ManagerOption
  with_healthz_check name checker m =
      ok (record m { healthz_checks = insert name checker m.healthz_checks })

  abbrev pub with_readyz_check : String → T.Checker → ManagerOption
  with_readyz_check name checker m =
      ok (record m { readyz_checks = insert name checker m.readyz_checks })

  abbrev pub with_health_probe_address : String → ManagerOption
  with_health_probe_address addr m = ok (record m { health_probe_addr = addr })

  abbrev pub with_webhook_server : Option T.Server → ManagerOption
  with_webhook_server server m = ok (record m { webhook_server = server })

  abbrev pub with_logger : T.Logger → ManagerOption
  with_logger logger m = ok (record m { logger = logger })

  abbrev pub with_pprof_address : String → ManagerOption
  with_pprof_address addr m = ok (record m { pprof_addr = addr })

  abbrev pub with_runnable : T.Runnable → ManagerOption
  with_runnable r m = ok (record m { runnables = m.runnables ++ r ∷ [] })

  abbrev pub with_client_options : T.ClientOptions → ManagerOption
  with_client_options opts m = ok (record m { client_opts = opts })

  abbrev pub with_cache_options : T.CacheOptions → ManagerOption
  with_cache_options opts m = ok (record m { cache_opts = opts })

  abbrev pub with_connection_configuration : Option T.ConnectionConfig → ManagerOption
  with_connection_configuration cfg m = ok (record m { client_conn_config = cfg })

  -- `if m.webhookServer == nil { m.webhookServer = … }`
  abbrev server_or : Option T.Server → T.Server → Option T.Server
  server_or none server = some server
  server_or (some old) server = some old

  unfoldable pub with_webhook_port : Host T → ℤ → ManagerOption
  with_webhook_port host port m =
      ok (record m { webhook_server = server_or m.webhook_server (host.server_on_port port) })

  unfoldable pub with_webhook_cert_dir : Host T → String → ManagerOption
  with_webhook_cert_dir host cert_dir m = ok (record m {
    webhook_server = server_or m.webhook_server (host.server_with_cert_dir cert_dir);
  })
