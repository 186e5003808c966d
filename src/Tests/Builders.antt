-- ===== src/Tests/Builders.antt =====
-- The theorems on the webhook, the heartbeat and the controller, at concrete inputs.
use gardener_extension_shoot.Base.{
  false, none, some, List, [], ◌∷◌, ok, err, wrapf, Wraps, Error, ◌≡◌, ◌⊎◌, ◌↔◌, refl,
}
use gardener_extension_shoot.Base.Int.{pos}
use gardener_extension_shoot.Base.Options.{apply_options}
use gardener_extension_shoot.Kube.{shoot_class}
use gardener_extension_shoot.Admission.{validate_shoot, purpose_evaluation}
use gardener_extension_shoot.Admission.Policy.{Enables, validate_shoot_iff}
use gardener_extension_shoot.Heartbeat.{
  Heartbeat, HeartbeatOption, initial_heartbeat, new_heartbeat, with_extension_name,
  with_lease_namespace, err_invalid_heartbeat,
}
use gardener_extension_shoot.Heartbeat.Build.{
  IsReady as IsHeartbeat, new_heartbeat_iff, new_heartbeat_error,
}
use gardener_extension_shoot.Controller.{
  Kinds, Controller, ControllerOption, initial_controller, new_controller, with_actuator, with_name,
  with_extension_type, with_extension_class, err_invalid_controller,
}
use gardener_extension_shoot.Controller.Build.{
  IsReady as IsController, IsDefaulted, new_controller-IsReady, new_controller_error,
}
use gardener_extension_shoot.Tests.Fake.{shoot}

validate_shoot_iff_example :
    (validate_shoot shoot ≡ none)
    ↔ (Enables shoot.extensions → shoot.purpose ≡ some purpose_evaluation)
validate_shoot_iff_example = validate_shoot_iff shoot

abbrev beats : List (HeartbeatOption (Unit {0}))
beats = with_extension_name _ "traefik" ∷ with_lease_namespace _ "garden" ∷ []

abbrev beat : Heartbeat (Unit {0})
beat = record {
  extension_name = "traefik";
  namespace = "garden";
  renew_interval = pos 30_000_000_000;
  clock = tt;
}

new_heartbeat_iff_example : (new_heartbeat (Unit {0}) tt beats ≡ ok beat) ↔ (
    (apply_options beats (initial_heartbeat (Unit {0}) tt) ≡ ok beat) × IsHeartbeat (Unit {0}) beat)
new_heartbeat_iff_example = new_heartbeat_iff (Unit {0}) tt beats beat

abbrev no_namespace : Error
no_namespace = wrapf "%w: missing lease namespace" [] err_invalid_heartbeat

no_beat : new_heartbeat (Unit {0}) tt (with_extension_name _ "traefik" ∷ []) ≡ err no_namespace
unfolding new_heartbeat with_extension_name apply_options
no_beat = refl

new_heartbeat_error_example :
    (apply_options (with_extension_name _ "traefik" ∷ []) (initial_heartbeat (Unit {0}) tt)
      ≡ err no_namespace)
    ⊎ Wraps err_invalid_heartbeat no_namespace
new_heartbeat_error_example =
    new_heartbeat_error (Unit {0}) tt (with_extension_name _ "traefik" ∷ []) no_namespace no_beat

abbrev kinds : Kinds
kinds = record { Act = Unit {0}; Options = Unit {0}; Predicate = Unit {0}; Watch = Unit {0} }

abbrev settings : List (ControllerOption kinds)
settings =
    with_actuator kinds (some tt)
    ∷ with_name kinds "traefik"
    ∷ with_extension_type kinds "shoot-traefik"
    ∷ with_extension_class kinds shoot_class
    ∷ []

abbrev ready : Controller kinds
ready = record {
  actuator = some tt;
  name = "traefik";
  finalizer_suffix = "traefik";
  controller_options = tt;
  predicates = [];
  resync = pos 0;
  extension_type = "shoot-traefik";
  watch_builder = none;
  ignore_operation_annotation = false;
  extension_classes = shoot_class ∷ [];
}

builds : new_controller kinds tt settings ≡ ok ready
unfolding new_controller with_actuator with_name with_extension_type with_extension_class
    apply_options
builds = refl

new_controller-IsReady_example :
    (g : Controller kinds) × (apply_options settings (initial_controller kinds tt) ≡ ok g)
    × IsDefaulted kinds g ready
    × IsController kinds ready
new_controller-IsReady_example = new_controller-IsReady kinds tt settings ready builds

abbrev no_actuator : Error
no_actuator = wrapf "%w: missing actuator implementation" [] err_invalid_controller

no_controller : new_controller kinds tt (with_name kinds "traefik" ∷ []) ≡ err no_actuator
unfolding new_controller with_name apply_options
no_controller = refl

new_controller_error_example :
    (apply_options (with_name kinds "traefik" ∷ []) (initial_controller kinds tt) ≡ err no_actuator)
    ⊎ Wraps err_invalid_controller no_actuator
new_controller_error_example =
    new_controller_error kinds tt (with_name kinds "traefik" ∷ []) no_actuator no_controller
