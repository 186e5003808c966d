-- ===== src/Command/Manager/Run.antt =====
-- `getManager`, `getFlags` and `runManager` of the manager command.
use gardener_extension_shoot.Base.{Bool, some, List, [], ◌∷◌, Result, wrap, if◌then◌else◌}
use gardener_extension_shoot.Base.Int.{ℤ}
use gardener_extension_shoot.Base.Exec.{Exec, pure, lift, wrapping, ◌>>=◌, ◌>>◌}
use gardener_extension_shoot.Traefik.Config.{ImageVector}
use gardener_extension_shoot.Traefik.Install.{SchemeApi, config_install}
use gardener_extension_shoot.Actuator.Settings.{
  Actuator, Decoder, new_actuator, with_decoder, with_gardener_version, with_gardenlet_features,
  actuator_name, extension_type, finalizer_suffix, extension_class,
}
use gardener_extension_shoot.Heartbeat.{
  Heartbeat, AddArgs, new_heartbeat, with_extension_name, with_lease_namespace, with_renew_interval,
  setup_heartbeat,
}
use gardener_extension_shoot.Controller.{
  Kinds, Controller, new_controller, with_actuator, with_name, with_extension_type,
  with_finalizer_suffix, with_extension_class, with_ignore_operation_annotation,
  with_resync_interval, setup_controller,
}
use gardener_extension_shoot.Manager.Host.{Types, Host}
use gardener_extension_shoot.Manager.Options.{
  ManagerOption, with_context, with_add_to_scheme, with_install_scheme, with_metrics_address,
  with_health_probe_address, with_leader_election, with_leader_election_id,
  with_leader_election_namespace, with_max_concurrent_reconciles, with_healthz_check,
  with_readyz_check, with_pprof_address, with_connection_configuration,
}
use gardener_extension_shoot.Manager.Build.{new_manager}
use gardener_extension_shoot.Command.Cli.Given.{Given, store_given, with_actions}
use gardener_extension_shoot.Command.Constants.{Constants, before}
use gardener_extension_shoot.Command.Manager.Flags.{Flags, zero_flags, manager_flags}

-- What the command uses beside the manager's builder.
pub record Services (T : Types) (C : Constants T.World) : Type 1 where
  pub Clock : Type 0
  pub ControllerRest : Type 0
  pub Predicate : Type 0
  pub Watch : Type 0
  -- The context that the command runs in, and `healthz.Ping`
  pub context : T.Context
  pub ping : T.Checker
  -- The AddToScheme functions of client-go, of Gardener's extensions, resources and core, and
  -- what `configinstall.Install` uses of a scheme
  pub client_go_scheme : T.Scheme → Exec T.World (Unit {0})
  pub extensions_scheme : T.Scheme → Exec T.World (Unit {0})
  pub resources_scheme : T.Scheme → Exec T.World (Unit {0})
  pub core_scheme : T.Scheme → Exec T.World (Unit {0})
  pub schemes : SchemeApi T.World T.Scheme
  -- A `ClientConnectionConfiguration` with queries per second and a burst
  pub connection : C.Float → ℤ → T.ConnectionConfig
  -- The real clock, `int32(d.Seconds())` and `heartbeatcontroller.Add`
  pub real_clock : Clock
  pub to_seconds : ℤ → ℤ
  pub add_heartbeat : T.CrManager → AddArgs Clock → Exec T.World (Unit {0})
  -- The strict decoder over the manager's scheme, and that over its client's scheme
  pub decoder_of : T.CrManager → Decoder
  pub client_decoder_of : T.CrManager → Decoder
  -- Whether `GetClient` is not nil; `imagevector.ImageVector()`
  pub has_client : T.CrManager → Bool
  pub image_vector : ImageVector
  -- Zero options of a controller, `extension.DefaultPredicates` and `extension.Add`
  pub zero_options : ControllerRest
  pub default_predicates : T.CrManager → Bool → List Predicate
  pub add_controller :
      T.CrManager
      → Controller (record {
        Act = Actuator;
        Options = ControllerRest;
        Predicate = Predicate;
        Watch = Watch;
      })
      → Exec T.World (Unit {0})
  -- `Start` of a manager
  pub start : T.CrManager → Exec T.World (Unit {0})

abbrev pub kinds_of : {T : Types} {C : Constants T.World} → Services T C → Kinds
kinds_of S = record {
  Act = Actuator;
  Options = S.ControllerRest;
  Predicate = S.Predicate;
  Watch = S.Watch;
}

module _ (T : Types) (host : Host T) (C : Constants T.World) (S : Services T C) where
  abbrev pub manager_options : Flags C.Float → List (ManagerOption T)
  manager_options f =
      with_context T S.context
      ∷ with_add_to_scheme T S.client_go_scheme
      ∷ with_add_to_scheme T S.extensions_scheme
      ∷ with_add_to_scheme T S.resources_scheme
      ∷ with_add_to_scheme T S.core_scheme
      ∷ with_install_scheme T (config_install S.schemes)
      ∷ with_metrics_address T f.metrics_bind_addr
      ∷ with_health_probe_address T f.health_probe_bind_addr
      ∷ with_leader_election T f.leader_election
      ∷ with_leader_election_id T f.leader_election_id
      ∷ with_leader_election_namespace T f.leader_election_namespace
      ∷ with_max_concurrent_reconciles T f.max_concurrent_reconciles
      ∷ with_healthz_check T "healthz" S.ping
      ∷ with_readyz_check T "readyz" S.ping
      ∷ with_pprof_address T f.pprof_bind_addr
      ∷ with_connection_configuration T (some (S.connection f.client_conn_qps f.client_conn_burst))
      ∷ []

  abbrev pub heartbeat_of : Flags C.Float → Result (Heartbeat S.Clock)
  heartbeat_of f = wrap "failed to create heartbeat controller: %w" [] (
      new_heartbeat S.Clock S.real_clock (
        with_extension_name S.Clock f.extension_name
        ∷ with_lease_namespace S.Clock f.heartbeat_namespace
        ∷ with_renew_interval S.Clock f.heartbeat_renew_interval
        ∷ []))

  unfoldable pub get_manager : Flags C.Float → Exec T.World T.CrManager
  get_manager f = do
    m ← new_manager T host (manager_options f)
    hb ← lift (heartbeat_of f)
    wrapping "failed to setup heartbeat controller: %w" []
        (setup_heartbeat S.Clock S.to_seconds (S.add_heartbeat m) hb)
    pure m

  -- `Before` stores the flags in the context; without that, `getFlags` gives zero flags.
  abbrev pub get_flags : Bool → Flags C.Float → Flags C.Float
  get_flags stored f = if stored then f else zero_flags C

  abbrev pub actuator_of : T.CrManager → Flags C.Float → Result Actuator
  actuator_of m f = wrap "failed to create actuator: %w" [] (
      new_actuator (S.has_client m) (S.client_decoder_of m) (some S.image_vector) (
        with_decoder (some (S.decoder_of m))
        ∷ with_gardener_version f.gardener_version
        ∷ with_gardenlet_features f.gardenlet_feature_gates
        ∷ []))

  abbrev pub controller_of : Actuator → Flags C.Float → Result (Controller (kinds_of S))
  controller_of act f = wrap "failed to create a controller: %w" [] (
      new_controller (kinds_of S) S.zero_options (
        with_actuator (kinds_of S) (some act)
        ∷ with_name (kinds_of S) actuator_name
        ∷ with_extension_type (kinds_of S) extension_type
        ∷ with_finalizer_suffix (kinds_of S) finalizer_suffix
        ∷ with_extension_class (kinds_of S) extension_class
        ∷ with_ignore_operation_annotation (kinds_of S) f.ignore_operation_annotation
        ∷ with_resync_interval (kinds_of S) f.resync_interval
        ∷ []))

  -- `SetupWithManager`, of which the changed controller is not used any more.
  abbrev pub set_up_controller : T.CrManager → Controller (kinds_of S) → Exec T.World (Unit {0})
  set_up_controller m c w =
      let (r, w', c') =
        setup_controller (kinds_of S) (S.default_predicates m) (S.add_controller m) c w in
      (r, w')

  unfoldable pub run_manager : Bool → Flags C.Float → Exec T.World (Unit {0})
  unfolding get_manager
  run_manager stored flags = do
    let f = get_flags stored flags
    m ← get_manager f
    act ← lift (actuator_of m f)
    c ← lift (controller_of act f)
    wrapping "failed to setup controller with manager: %w" [] (set_up_controller m c)
    wrapping "failed to start manager: %w" [] (S.start m)

  -- The command: `Before`, the actions of the flags that were given, and then `Action`. All of them
  -- work on the same flags.
  unfoldable pub manager_command : Given (manager_flags C) → Exec T.World (Unit {0})
  unfolding run_manager
  manager_command given = do
    let f = store_given (manager_flags C) given (zero_flags C)
    stored ← before C f.zap_log_level f.zap_log_format
    f' ← with_actions (manager_flags C) given f
    run_manager stored f'
