-- ===== src/Command/Webhook/Run.antt =====
-- `getManager`, `getExtensionWebhookOpts`, `getFlags` and `runWebhookServer` of the webhook command.
use gardener_extension_shoot.Base.{
  Bool, false, some, List, [], ◌∷◌, ◌++◌, Result, ok, if◌then◌else◌,
}
use gardener_extension_shoot.Base.Exec.{Exec, pure, lift, wrapping, ◌>>=◌, ◌>>◌}
use gardener_extension_shoot.Admission.Webhook.{new_shoot_validator_webhook}
use gardener_extension_shoot.Traefik.Install.{config_install}
use gardener_extension_shoot.Manager.Host.{Types, Host}
use gardener_extension_shoot.Manager.Options.{
  ManagerOption, with_context, with_config, with_add_to_scheme, with_install_scheme,
  with_metrics_address, with_health_probe_address, with_leader_election, with_leader_election_id,
  with_leader_election_namespace, with_leader_election_config, with_healthz_check,
  with_readyz_check, with_pprof_address, with_connection_configuration, with_webhook_server,
  with_runnable,
}
use gardener_extension_shoot.Manager.Build.{new_manager}
use gardener_extension_shoot.Command.Cli.Given.{Given, store_given, with_actions}
use gardener_extension_shoot.Command.Constants.{Constants, before}
use gardener_extension_shoot.Command.Webhook.Services.{
  ClusterOptions, AddToManagerOptions, SwitchConfig, Services,
}
use gardener_extension_shoot.Command.Webhook.Flags.{Flags, zero_flags, webhook_flags}

-- The loop over the functions that make webhooks.
unfoldable pub create_webhooks :
    {W M Webhook : Type 0} → M → List (M → Exec W Webhook) → List Webhook → Exec W (List Webhook)
create_webhooks m [] webhooks = pure webhooks
create_webhooks m (webhook_func ∷ webhook_funcs) webhooks =
    wrapping "failed to create admission webhook: %w" [] (webhook_func m) >>= λ wh.
    create_webhooks m webhook_funcs (webhooks ++ wh ∷ [])

module _ (T : Types) (host : Host T) (C : Constants T.World) (S : Services T C) where
  abbrev pub get_logger : Flags C.Float S.Cluster → Result C.Logger
  get_logger f = C.must_new_zap_logger f.zap_log_level f.zap_log_format

  abbrev pub webhook_server_of : Flags C.Float S.Cluster → T.Server
  webhook_server_of f = S.new_server (record {
    host = f.webhook_server_host;
    port = f.webhook_server_port;
    cert_dir = f.webhook_server_cert_dir;
    cert_name = f.webhook_server_cert_name;
    key_name = f.webhook_server_key_name;
  })

  abbrev pub cluster_option :
      C.Logger
      → Flags C.Float S.Cluster
      → ClusterOptions C.Logger S.ClusterRest
      → ClusterOptions C.Logger S.ClusterRest
  cluster_option logger f opts = record opts {
    logger = logger;
    default_namespaces = f.webhook_config_namespace ∷ [];
  }

  abbrev pub manager_options :
      Flags C.Float S.Cluster → T.RestConfig → S.Cluster → T.RestConfig → List (ManagerOption T)
  manager_options f source source_cluster target =
      with_context T S.context
      ∷ with_config T (some target)
      ∷ with_add_to_scheme T S.client_go_scheme
      ∷ with_install_scheme T S.core_install
      ∷ with_install_scheme T (config_install S.schemes)
      ∷ with_metrics_address T f.metrics_bind_addr
      ∷ with_health_probe_address T f.health_probe_bind_addr
      ∷ with_leader_election T f.leader_election
      ∷ with_leader_election_id T f.leader_election_id
      ∷ with_leader_election_namespace T f.leader_election_namespace
      ∷ with_leader_election_config T (some source)
      ∷ with_healthz_check T "healthz" S.ping
      ∷ with_readyz_check T "readyz" S.ping
      ∷ with_pprof_address T f.pprof_bind_addr
      ∷ with_connection_configuration T (some (S.connection f.client_conn_qps f.client_conn_burst))
      ∷ with_webhook_server T (some (webhook_server_of f))
      ∷ with_readyz_check T "webhook-server" (S.started_checker (webhook_server_of f))
      ∷ with_readyz_check T "source-informer-sync" (S.cluster_synced source_cluster)
      ∷ with_runnable T (S.runnable_of source_cluster)
      ∷ []

  -- The flags come back with the source cluster in them. After an error nobody reads them.
  unfoldable pub get_manager :
      Flags C.Float S.Cluster → Exec T.World (T.CrManager × Flags C.Float S.Cluster)
  get_manager f = do
    logger ← lift (get_logger f)
    source ← wrapping "failed to load source cluster config: %w" [] host.get_config
    source_cluster ←
        wrapping "failed to create source cluster from config: %w" []
          (S.new_cluster source (cluster_option logger f))
    target ←
        wrapping "failed to load garden cluster config: %w" []
          (S.build_config_from_flags "" f.garden_kubeconfig)
    m ← new_manager T host (manager_options f source source_cluster target)
    wrapping "failed to setup ready check: %w" []
        (host.add_readyz_check m "informer-sync" (S.manager_synced m))
    pure (m, record f { source_cluster = some source_cluster })

  abbrev pub get_extension_webhook_opts : Flags C.Float S.Cluster → AddToManagerOptions
  get_extension_webhook_opts f = record {
    extension_name = f.extension_name;
    managed_resource_name = "";
    namespace_selector = [];
    general = record {
      gardener_version = f.gardener_version;
      self_hosted_shoot_cluster = f.self_hosted_shoot_cluster;
    };
    server = record {
      mode = f.webhook_config_mode;
      url = f.webhook_config_url;
      service_port = f.webhook_config_service_port;
      namespace = f.webhook_config_namespace;
      owner_namespace = f.webhook_config_owner_namespace;
    };
  }

  -- `Before` stores the flags in the context; without that, `getFlags` gives zero flags.
  abbrev pub get_flags : Bool → Flags C.Float S.Cluster → Flags C.Float S.Cluster
  get_flags stored f = if stored then f else zero_flags C S.Cluster

  abbrev pub webhook_funcs : List (T.CrManager → Exec T.World S.Webhook)
  webhook_funcs = new_shoot_validator_webhook S.admitted S.new_webhook ∷ []

  abbrev pub switch_of : List S.Webhook → SwitchConfig T.CrManager S.Webhook
  switch_of webhooks = record { disabled = false; webhooks_factory = λ m. ok webhooks }

  unfoldable pub run_webhook_server : Bool → Flags C.Float S.Cluster → Exec T.World (Unit {0})
  unfolding get_manager create_webhooks
  run_webhook_server stored flags = do
    (m, f) ← get_manager (get_flags stored flags)
    webhooks ← create_webhooks m webhook_funcs []
    config ← S.complete (get_extension_webhook_opts f)
    wrapping "failed to setup extension webhook with manager: %w" []
        (S.add_to_manager (record config { switch = switch_of webhooks }) m f.source_cluster)
    S.start m

  -- The command: `Before`, the actions of the flags that were given, and then `Action`. All of them
  -- work on the same flags.
  unfoldable pub webhook_command : Given (webhook_flags C S.Cluster) → Exec T.World (Unit {0})
  unfolding run_webhook_server
  webhook_command given = do
    let f = store_given (webhook_flags C S.Cluster) given (zero_flags C S.Cluster)
    stored ← before C f.zap_log_level f.zap_log_format
    f' ← with_actions (webhook_flags C S.Cluster) given f
    run_webhook_server stored f'
