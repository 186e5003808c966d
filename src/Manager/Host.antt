-- ===== src/Manager/Host.antt =====
-- What pkg/mgr uses of other modules: their types, and their functions over a world.
use gardener_extension_shoot.Base.{String, Bool, Option, List}
use gardener_extension_shoot.Base.Int.{ℤ}
use gardener_extension_shoot.Base.Exec.{Exec}
use gardener_extension_shoot.Base.Assoc.{Map}

-- `metricsserver.Options` and `controllerconfig.Controller`: the fields that an option sets by
-- itself, and the rest of the structure.
pub record MetricsOptions (Rest : Type 0) : Type 0 where
  pub bind_address : String
  pub rest : Rest

pub record ControllerOptions (Rest : Type 0) : Type 0 where
  pub max_concurrent_reconciles : ℤ
  pub recover_panic : Option Bool
  pub rest : Rest

pub record Types : Type 1 where
  pub World : Type 0
  pub Scheme : Type 0
  pub RestConfig : Type 0
  pub MetricsRest : Type 0
  pub ControllerRest : Type 0
  pub Handler : Type 0
  pub Checker : Type 0
  pub Server : Type 0
  pub Context : Type 0
  pub Logger : Type 0
  pub Runnable : Type 0
  pub ClientOptions : Type 0
  pub CacheOptions : Type 0
  pub ConnectionConfig : Type 0
  pub CrManager : Type 0

-- `manager.Options`
pub record ManagerOptions (T : Types) : Type 0 where
  pub scheme : T.Scheme
  pub metrics : MetricsOptions T.MetricsRest
  pub health_probe_bind_address : String
  pub leader_election : Bool
  pub leader_election_id : String
  pub leader_election_namespace : String
  pub leader_election_resource_lock : String
  pub leader_election_config : Option T.RestConfig
  pub base_context : T.Context
  pub controller : ControllerOptions T.ControllerRest
  pub webhook_server : Option T.Server
  pub logger : T.Logger
  pub pprof_bind_address : String
  pub client : T.ClientOptions
  pub cache : T.CacheOptions

pub record Host (T : Types) : Type 0 where
  -- Zero values, `runtime.NewScheme()`, `context.Background` and `resourcelock.LeasesResourceLock`
  pub zero_metrics : T.MetricsRest
  pub zero_controller : T.ControllerRest
  pub zero_logger : T.Logger
  pub zero_client : T.ClientOptions
  pub zero_cache : T.CacheOptions
  pub empty_scheme : T.Scheme
  pub background : T.Context
  pub leases_resource_lock : String
  -- `webhook.NewServer` with a port, or with a directory of certificates
  pub server_on_port : ℤ → T.Server
  pub server_with_cert_dir : String → T.Server
  -- `config.GetConfig`, and `util.ApplyClientConnectionConfigurationToRESTConfig`, which changes the
  -- configuration that its pointer leads to
  pub get_config : Exec T.World T.RestConfig
  pub apply_connection : Option T.ConnectionConfig → T.RestConfig → T.World → T.World
  -- `manager.New` and the methods of its result
  pub new_cr_manager : T.RestConfig → ManagerOptions T → Exec T.World T.CrManager
  pub add_healthz_check : T.CrManager → String → T.Checker → Exec T.World (Unit {0})
  pub add_readyz_check : T.CrManager → String → T.Checker → Exec T.World (Unit {0})
  pub add_extra_handler : T.CrManager → String → T.Handler → Exec T.World (Unit {0})
  pub add : T.CrManager → T.Runnable → Exec T.World (Unit {0})
  -- The order in which `range` goes through a map.
  pub range_checks : Map T.Checker → List (String × T.Checker)
  pub range_handlers : Map T.Handler → List (String × T.Handler)
