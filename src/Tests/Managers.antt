-- ===== src/Tests/Managers.antt =====
-- The theorems on the manager's builder, for a host that counts its calls.
use gardener_extension_shoot.Base.{ℕ, ◌+◌, String, some, List, [], ◌∷◌, map, ok, ◌≡◌, refl}
use gardener_extension_shoot.Base.Int.{pos}
use gardener_extension_shoot.Base.Exec.{◌>>=◌}
use gardener_extension_shoot.Base.Assoc.{insert}
use gardener_extension_shoot.Base.Options.{apply_options}
use gardener_extension_shoot.Manager.Host.{Types, Host}
use gardener_extension_shoot.Manager.Options.{
  ManagerOption, initial_manager, with_add_to_scheme, with_healthz_check, with_runnable,
}
use gardener_extension_shoot.Manager.Build.{for_each, set_up, build, new_manager}
use gardener_extension_shoot.Manager.Runs.{IsBuilt, new_manager-IsBuilt}
use gardener_extension_shoot.Manager.Server.{on_port, in_cert_dir, option_of, first_server_setting}

abbrev pub types : Types
types = record {
  World = ℕ;
  Scheme = Unit {0};
  RestConfig = String;
  MetricsRest = Unit {0};
  ControllerRest = Unit {0};
  Handler = Unit {0};
  Checker = String;
  Server = String;
  Context = Unit {0};
  Logger = Unit {0};
  Runnable = String;
  ClientOptions = Unit {0};
  CacheOptions = Unit {0};
  ConnectionConfig = Unit {0};
  CrManager = String;
}

abbrev pub host : Host types
host = record {
  zero_metrics = tt;
  zero_controller = tt;
  zero_logger = tt;
  zero_client = tt;
  zero_cache = tt;
  empty_scheme = tt;
  background = tt;
  leases_resource_lock = "leases";
  server_on_port = λ port. "port";
  server_with_cert_dir = λ cert_dir. cert_dir;
  get_config = λ w. (ok "in-cluster", w);
  apply_connection = λ connection c w. w;
  new_cr_manager = λ c opts w. (ok c, w + 1);
  add_healthz_check = λ cr name checker w. (ok tt, w + 1);
  add_readyz_check = λ cr name checker w. (ok tt, w + 1);
  add_extra_handler = λ cr path handler w. (ok tt, w + 1);
  add = λ cr r w. (ok tt, w + 1);
  range_checks = λ m. m;
  range_handlers = λ m. m;
}

abbrev settings : List (ManagerOption types)
settings =
    with_add_to_scheme types (λ scheme w. (ok tt, w + 1))
    ∷ with_healthz_check types "healthz" "ping"
    ∷ with_runnable types "cluster"
    ∷ []

builds_manager : (new_manager types host settings 0).0 ≡ ok "in-cluster"
unfolding new_manager build set_up for_each ◌>>=◌ apply_options insert
builds_manager = refl

new_manager-IsBuilt_example :
    IsBuilt types host settings "in-cluster" 0 (new_manager types host settings 0).1
new_manager-IsBuilt_example = new_manager-IsBuilt types host settings "in-cluster" 0 builds_manager

first_server_setting_example :
    apply_options
      (map (option_of types host) (on_port (pos 9443) ∷ in_cert_dir "/certs" ∷ []))
      (initial_manager types host)
    ≡ ok (record (initial_manager types host) { webhook_server = some "port" })
first_server_setting_example =
    first_server_setting types host (on_port (pos 9443)) (in_cert_dir "/certs" ∷ [])
      (initial_manager types host) refl
