-- ===== src/Actuator/Settings.antt =====
-- The actuator, its options, and the part of `Reconcile` that settles the configuration.
use gardener_extension_shoot.Base.{
  String, Bool, true, false, Option, none, some, List, [], ◌∷◌, Error, Result, ok, err, new_error,
  errorf, wrapf, panic, ◌>>=◌, ◌==◌, if◌then◌else◌,
}
use gardener_extension_shoot.Base.Assoc.{Map}
use gardener_extension_shoot.Base.Int.{is_positive}
use gardener_extension_shoot.Base.Lists.{contains}
use gardener_extension_shoot.Base.Options.{apply_options}
use gardener_extension_shoot.Kube.{ExtensionClass, shoot_class}
use gardener_extension_shoot.Traefik.Config.{
  TraefikConfig, TraefikConfigSpec, Config, default_config, valid_log_levels, ImageVector,
}

-- `runtime.DecodeInto` with a decoder: the config that a raw text holds.
abbrev pub Decoder : Type 0
Decoder = String → Result TraefikConfig

pub record Actuator : Type 0 where
  pub decoder : Option Decoder
  pub image_vector : ImageVector
  pub gardener_version : String
  pub gardenlet_feature_gates : Map Bool

abbrev pub ActuatorOption : Type 0
ActuatorOption = Actuator → Result Actuator

abbrev pub err_invalid_actuator : Error
err_invalid_actuator = new_error "invalid actuator"

unfoldable pub with_decoder : Option Decoder → ActuatorOption
with_decoder d a = ok (record a { decoder = d })

unfoldable pub with_gardener_version : String → ActuatorOption
with_gardener_version v a = ok (record a { gardener_version = v })

unfoldable pub with_gardenlet_features : Map Bool → ActuatorOption
with_gardenlet_features feats a = ok (record a { gardenlet_feature_gates = feats })

-- `default_decoder` is the strict universal decoder of the client's scheme.
abbrev with_default_decoder : Decoder → Actuator → Actuator
with_default_decoder default_decoder a = elim a.decoder [
  | none ↦ record a { decoder = some default_decoder }
  | some _ ↦ a
]

-- Whether there is a client is told by `has_client`.
unfoldable pub new_actuator :
    Bool → Decoder → Option ImageVector → List ActuatorOption → Result Actuator
new_actuator false default_decoder image_vector opts =
    err (wrapf "%w: no client specified" [] err_invalid_actuator)
new_actuator true default_decoder none opts =
    err (wrapf "%w: no image vector specified" [] err_invalid_actuator)
new_actuator true default_decoder (some image_vector) opts = do
  act ← apply_options opts (record {
    decoder = none;
    image_vector = image_vector;
    gardener_version = "";
    gardenlet_feature_gates = [];
  })
  ok (with_default_decoder default_decoder act)

abbrev pub actuator_name : String
actuator_name = "traefik"

abbrev pub extension_type : String
extension_type = "shoot-traefik"

abbrev pub finalizer_suffix : String
finalizer_suffix = "gardener-extension-shoot-traefik"

abbrev pub extension_class : ExtensionClass
extension_class = shoot_class

abbrev pub with_log_level : String → Config → Result Config
with_log_level level c =
    if level == ""
    then ok c
    else if contains valid_log_levels level
    then ok (record c { log_level = level })
    else err (
        errorf "invalid traefik log level %q: must be one of Debug, Info, Warn, Error, Fatal, Panic"
          (level ∷ []))

-- The custom settings, over `c`: a field that is left out, or a count of replicas that is not
-- positive, leaves the value of `c`.
abbrev pub apply_spec : TraefikConfigSpec → Config → Result Config
apply_spec spec c = do
  c' ← with_log_level spec.log_level (record c {
    replicas = if is_positive spec.replicas then spec.replicas else c.replicas;
    ingress_provider =
        if spec.ingress_provider == "" then c.ingress_provider else spec.ingress_provider;
  })
  ok (record c' { dashboard = spec.dashboard })

-- A config that cannot be decoded is logged, and the defaults are used.
abbrev pub from_decoded : Result TraefikConfig → Result Config
from_decoded (err e) = ok default_config
from_decoded (ok cfg) = apply_spec cfg.spec default_config

-- With no decoder, a config panics: `DecodeInto` calls a method of a nil interface.
unfoldable pub resolve_config : Option Decoder → Option String → Result Config
resolve_config decoder none = ok default_config
resolve_config none (some raw) = err (panic "nil decoder")
resolve_config (some decode) (some raw) = from_decoded (decode raw)
