-- ===== src/Tests/Commands/ManagerRuns.antt =====
-- The theorems on the manager command and on its feature gates, at concrete inputs.
use gardener_extension_shoot.Base.{
  ℕ, ◌+◌, String, true, List, [], ◌∷◌, ok, err, Error, Wraps, is_ok, ◌≡◌, refl,
}
use gardener_extension_shoot.Base.Exec.{◌>>=◌}
use gardener_extension_shoot.Base.Options.{apply_options}
use gardener_extension_shoot.Base.Assoc.{lookup, insert, or_else}
use gardener_extension_shoot.Base.Lists.{all}
use gardener_extension_shoot.Heartbeat.{
  err_invalid_heartbeat, new_heartbeat, with_extension_name, with_lease_namespace,
  with_renew_interval, setup_heartbeat,
}
use gardener_extension_shoot.Controller.{
  setup_controller, new_controller, with_actuator, with_name, with_extension_type,
  with_finalizer_suffix, with_extension_class, with_ignore_operation_annotation,
  with_resync_interval,
}
use gardener_extension_shoot.Actuator.Settings.{
  new_actuator, with_decoder, with_gardener_version, with_gardenlet_features,
}
use gardener_extension_shoot.Manager.Build.{for_each, set_up, build, new_manager}
use gardener_extension_shoot.Command.Features.{
  parse_bool, set_gates, set_gates-is_ok, set_gates-asked, is_word, asked,
}
use gardener_extension_shoot.Base.{some}
use mathlib.Core.Path.{subst}
use gardener_extension_shoot.Base.{Result}
use gardener_extension_shoot.Command.Manager.Gates.{manager_command-asked}
use mathlib.Core.Option.{some-injective}
use gardener_extension_shoot.Base.Assoc.{Map}
use gardener_extension_shoot.Command.Cli.Given.{Given, store_given, IsAccepted}
use gardener_extension_shoot.Command.Manager.Flags.{
  Flags, zero_flags, manager_flags, flags_but_gates, feature_gate_flag,
}
use gardener_extension_shoot.Command.Manager.Run.{
  Services, manager_options, run_manager, manager_command,
}
use gardener_extension_shoot.Command.Manager.Started.{IsStarted, run_manager-IsStarted}
use gardener_extension_shoot.Command.Manager.Refused.{run_manager-err_invalid_heartbeat}
use gardener_extension_shoot.Command.Manager.Succeeds.{
  Provides, IsNamed, gate_items, manager_command_succeeds,
}
use gardener_extension_shoot.Traefik.Install.{config_install}
use gardener_extension_shoot.Tests.Fake.{decode}
use gardener_extension_shoot.Tests.Managers.{types, host}
use gardener_extension_shoot.Tests.Commands.{
  schemes, constants, constants-HasLogger, host-Answers, schemes-Takes, nothing_given, give,
  give-IsAccepted, store_defaults,
}

abbrev gates : List (String × String)
gates = ("NewFeature", "true") ∷ ("OldFeature", "1") ∷ ("NewFeature", "F") ∷ []

set_gates-is_ok_example :
    is_ok (set_gates (("NewFeature", "maybe") ∷ gates) []).0
    ≡ all (λ (item : String × String). is_word item.1) (("NewFeature", "maybe") ∷ gates)
set_gates-is_ok_example = set_gates-is_ok (("NewFeature", "maybe") ∷ gates) []

gates_set : (set_gates gates []).0 ≡ ok tt
unfolding set_gates parse_bool
gates_set = refl

set_gates-asked_example :
    lookup "NewFeature" (set_gates gates []).1
    ≡ or_else (asked gates "NewFeature") (lookup "NewFeature" [])
set_gates-asked_example = set_gates-asked gates [] "NewFeature" gates_set

abbrev services : Services types constants
services = record {
  Clock = Unit {0};
  ControllerRest = Unit {0};
  Predicate = String;
  Watch = Unit {0};
  context = tt;
  ping = "ping";
  client_go_scheme = λ scheme w. (ok tt, w + 1);
  extensions_scheme = λ scheme w. (ok tt, w + 1);
  resources_scheme = λ scheme w. (ok tt, w + 1);
  core_scheme = λ scheme w. (ok tt, w + 1);
  schemes = schemes;
  connection = λ qps burst. tt;
  real_clock = tt;
  to_seconds = λ interval. interval;
  add_heartbeat = λ m args w. (ok tt, w + 1);
  decoder_of = λ m. decode;
  client_decoder_of = λ m. decode;
  has_client = λ m. true;
  image_vector = λ name. ok "traefik:v3";
  zero_options = tt;
  default_predicates = λ m ignored. "default" ∷ [];
  add_controller = λ m c w. (ok tt, w + 1);
  start = λ m w. (ok tt, w + 1);
}

abbrev flags : Flags constants.Float
flags = store_defaults (manager_flags constants) (zero_flags constants)

services-Provides : Provides types constants services
services-Provides = record {
  env = λ name value. record { at = λ w. refl };
  client = λ m. refl;
  client_go = λ s. record { at = λ w. refl };
  extensions = λ s. record { at = λ w. refl };
  resources = λ s. record { at = λ w. refl };
  core = λ s. record { at = λ w. refl };
  schemes = schemes-Takes;
  heartbeat = λ m args. record { at = λ w. refl };
  controller = λ m c. record { at = λ w. refl };
  starts = λ m. record { at = λ w. refl };
}

-- Feature gates.
unfoldable given : Given (manager_flags constants)
unfolding manager_flags
given =
    give (flags_but_gates constants) (feature_gate_flag constants) [] gates
      (nothing_given (manager_flags constants))

given-IsAccepted : IsAccepted (manager_flags constants) given
unfolding manager_flags given
given-IsAccepted =
    give-IsAccepted (flags_but_gates constants) (feature_gate_flag constants) [] gates refl refl
      refl

given-IsNamed : IsNamed (store_given (manager_flags constants) given (zero_flags constants))
unfolding manager_flags given
given-IsNamed = (refl, refl)

is_ok-ok : (r : Result (Unit {0})) → is_ok r ≡ true → r ≡ ok tt
is_ok-ok (ok tt) h = refl
is_ok-ok (err e) h = cc

gate_words :
    (items : Map String)
    → gate_items constants given ≡ some items
    → all (λ (item : String × String). is_word item.1) items ≡ true
unfolding manager_flags given gate_items is_word
gate_words items e =
    subst
      (λ (o : List (String × String)). all (λ (item : String × String). is_word item.1) o ≡ true)
      (some-injective _ _ e) refl

manager_command_succeeds_example :
    is_ok (manager_command types host constants services given 0).0 ≡ true
manager_command_succeeds_example =
    manager_command_succeeds types host constants services constants-HasLogger host-Answers
      services-Provides given 0 given-IsAccepted given-IsNamed gate_words

returns : (manager_command types host constants services given 0).0 ≡ ok tt
returns = is_ok-ok (manager_command types host constants services given 0).0 (
    manager_command_succeeds types host constants services constants-HasLogger host-Answers
      services-Provides given 0 given-IsAccepted given-IsNamed gate_words)

given-gates : gate_items constants given ≡ some gates
unfolding manager_flags given gate_items
given-gates = refl

manager_command-asked_example :
    (all (λ (item : String × String). is_word item.1) gates ≡ true)
    × ((f : Flags constants.Float) × (v : ℕ) × ((feature : String)
          → lookup feature f.gardenlet_feature_gates ≡ asked gates feature)
        × (manager_command types host constants services given 0
            ≡ run_manager types host constants services true f v))
manager_command-asked_example =
    manager_command-asked types host constants services given gates 0 given-gates returns

runs : (run_manager types host constants services true flags 0).0 ≡ ok tt
unfolding run_manager new_manager build set_up for_each ◌>>=◌ apply_options insert new_heartbeat
    with_extension_name with_lease_namespace with_renew_interval setup_heartbeat setup_controller
    new_controller with_actuator with_name with_extension_type with_finalizer_suffix
    with_extension_class with_ignore_operation_annotation with_resync_interval new_actuator
    with_decoder with_gardener_version with_gardenlet_features manager_flags config_install
runs = refl

run_manager-IsStarted_example :
    IsStarted types host constants services flags 0
      (run_manager types host constants services true flags 0).1
run_manager-IsStarted_example =
    run_manager-IsStarted types host constants services (λ m. refl) flags 0 runs

abbrev unnamed : Flags constants.Float
unnamed = record flags { extension_name = "" }

abbrev world_of_manager : ℕ
world_of_manager =
    (new_manager types host (manager_options types host constants services unnamed) 0).1

manager_built :
    new_manager types host (manager_options types host constants services unnamed) 0
    ≡ (ok "in-cluster", world_of_manager)
unfolding new_manager build set_up for_each ◌>>=◌ apply_options insert config_install
manager_built = refl

run_manager-err_invalid_heartbeat_example :
    (e : Error) × Wraps err_invalid_heartbeat e
    × (run_manager types host constants services true unnamed 0 ≡ (err e, world_of_manager))
run_manager-err_invalid_heartbeat_example =
    run_manager-err_invalid_heartbeat types host constants services unnamed "in-cluster" 0
      world_of_manager manager_built refl
