-- ===== src/Manager/Build.antt =====
-- `New` of pkg/mgr/mgr.go.
use gardener_extension_shoot.Base.{String, Option, none, some, List, [], ◌∷◌, ok}
use gardener_extension_shoot.Base.Exec.{Exec, pure, lift, wrapping, ◌>>=◌, ◌>>◌}
use gardener_extension_shoot.Base.Options.{apply_options}
use gardener_extension_shoot.Manager.Host.{Types, Host, ManagerOptions}
use gardener_extension_shoot.Manager.Options.{Manager, ManagerOption, initial_manager}

-- `for _, x := range xs { if err := f(x); err != nil { return err } }`
unfoldable pub for_each : {W X : Type 0} → (X → Exec W (Unit {0})) → List X → Exec W (Unit {0})
for_each f [] = pure tt
for_each f (x ∷ xs) = f x >>= λ _. for_each f xs

module _ (T : Types) (host : Host T) where
  abbrev pub install : Manager T → (T.Scheme → Exec T.World (Unit {0})) → Exec T.World (Unit {0})
  install m f = f m.scheme

  abbrev pub rest_config_of : Option T.RestConfig → Exec T.World T.RestConfig
  rest_config_of none = wrapping "failed to get rest config: %w" [] host.get_config
  rest_config_of (some c) = pure c

  abbrev pub connect : Manager T → T.RestConfig → Exec T.World (Unit {0})
  connect m c w = (ok tt, host.apply_connection m.client_conn_config c w)

  abbrev pub options_of : Manager T → ManagerOptions T
  options_of m = record {
    scheme = m.scheme;
    metrics = m.metrics_server_opts;
    health_probe_bind_address = m.health_probe_addr;
    leader_election = m.leader_election_enabled;
    leader_election_id = m.leader_election_id;
    leader_election_namespace = m.leader_election_namespace;
    leader_election_resource_lock = host.leases_resource_lock;
    leader_election_config = m.leader_election_config;
    base_context = m.base_context;
    controller = m.controller_opts;
    webhook_server = m.webhook_server;
    logger = m.logger;
    pprof_bind_address = m.pprof_addr;
    client = m.client_opts;
    cache = m.cache_opts;
  }

  abbrev pub add_scheme : Manager T → (T.Scheme → Exec T.World (Unit {0})) → Exec T.World (Unit {0})
  add_scheme m f = wrapping "failed to add scheme: %w" [] (f m.scheme)

  abbrev pub set_up_healthz : T.CrManager → String × T.Checker → Exec T.World (Unit {0})
  set_up_healthz cr (name, checker) =
      wrapping "failed to setup health check: %w" [] (host.add_healthz_check cr name checker)

  abbrev pub set_up_readyz : T.CrManager → String × T.Checker → Exec T.World (Unit {0})
  set_up_readyz cr (name, checker) =
      wrapping "failed to setup ready check: %w" [] (host.add_readyz_check cr name checker)

  abbrev pub set_up_handler : T.CrManager → String × T.Handler → Exec T.World (Unit {0})
  set_up_handler cr (path, handler) =
      wrapping "failed to setup extra handler: %w" [] (host.add_extra_handler cr path handler)

  abbrev pub set_up_runnable : T.CrManager → T.Runnable → Exec T.World (Unit {0})
  set_up_runnable cr r = wrapping "failed to setup runnable: %w" [] (host.add cr r)

  -- What follows `manager.New`.
  unfoldable pub set_up : Manager T → T.CrManager → Exec T.World T.CrManager
  set_up m cr = do
    for_each (set_up_healthz cr) (host.range_checks m.healthz_checks)
    for_each (set_up_readyz cr) (host.range_checks m.readyz_checks)
    for_each (set_up_handler cr) (host.range_handlers m.extra_metrics_handlers)
    for_each (set_up_runnable cr) m.runnables
    pure cr

  -- What follows the loop over the options.
  unfoldable pub build : Manager T → Exec T.World T.CrManager
  build m = do
    for_each (add_scheme m) m.add_to_schemes
    for_each (install m) m.install_schemes
    rest_config ← rest_config_of m.rest_config
    connect m rest_config
    cr ← wrapping "failed to create manager: %w" [] (host.new_cr_manager rest_config (options_of m))
    set_up m cr

  unfoldable pub new_manager : List (ManagerOption T) → Exec T.World T.CrManager
  new_manager opts = do m ← lift (apply_options opts (initial_manager T host)); build m
