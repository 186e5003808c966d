-- ===== src/Traefik/Install.antt =====
-- pkg/apis/config/install/install.go, and the registrations of pkg/apis/config/register.go and of
-- pkg/apis/config/v1alpha1: how the configuration's types get into a scheme.
use gardener_extension_shoot.Base.{String, List, [], ◌∷◌, Error, Result, ok, err, panic}
use gardener_extension_shoot.Base.Exec.{Exec, pure, ◌>>=◌, ◌>>◌}
use gardener_extension_shoot.Traefik.Config.{
  TraefikConfigSpec as InternalSpec, TraefikConfig as InternalConfig,
}
use gardener_extension_shoot.Traefik.V1alpha1.{
  TraefikConfigSpec, TraefikConfig, convert_to_config, convert_from_config, spec_to_config,
  spec_from_config,
}

pub record GroupVersion : Type 0 where
  pub group : String
  pub version : String

-- The function of a registered conversion, between the types that it names.
pub data Conversion : Type 0 where
  to_config : (TraefikConfig → InternalConfig → Result InternalConfig) → Conversion
  from_config : (InternalConfig → TraefikConfig → Result TraefikConfig) → Conversion
  to_spec : (TraefikConfigSpec → InternalSpec → Result InternalSpec) → Conversion
  from_spec : (InternalSpec → TraefikConfigSpec → Result TraefikConfigSpec) → Conversion

-- What is used of a `runtime.Scheme`, whose types go by their Go names; the first two calls have no
-- error to return, but may panic. `error_text` is the text of an error.
pub record SchemeApi (W Scheme : Type 0) : Type 0 where
  pub add_known_types : Scheme → GroupVersion → List String → Exec W (Unit {0})
  pub add_to_group_version : Scheme → GroupVersion → Exec W (Unit {0})
  pub add_generated_conversion_func : Scheme → Conversion → Exec W (Unit {0})
  pub set_version_priority : Scheme → GroupVersion → Exec W (Unit {0})
  pub error_text : Error → String
  -- `runtime.APIVersionInternal`
  pub api_version_internal : String

abbrev pub group_name : String
group_name = "traefik.extensions.gardener.cloud"

abbrev pub group_version : GroupVersion
group_version = record { group = group_name; version = "v1alpha1" }

module _ {W Scheme : Type 0} (A : SchemeApi W Scheme) where
  abbrev pub internal_group_version : GroupVersion
  internal_group_version = record { group = group_name; version = A.api_version_internal }

  -- `AddToScheme` of a `runtime.SchemeBuilder`: its functions in the order of their registration.
  abbrev pub add_to_scheme : List (Scheme → Exec W (Unit {0})) → Scheme → Exec W (Unit {0})
  add_to_scheme [] scheme = pure tt
  add_to_scheme (f ∷ fs) scheme = f scheme >>= λ _. add_to_scheme fs scheme

  abbrev as_panic : Error → Error
  as_panic (panic text) = panic text
  as_panic e = panic (A.error_text e)

  abbrev pub panicking : Result (Unit {0}) × W → Result (Unit {0}) × W
  panicking (ok a, w) = (ok a, w)
  panicking (err e, w) = (err (as_panic e), w)

  -- `utilruntime.Must`
  abbrev pub must : Exec W (Unit {0}) → Exec W (Unit {0})
  must call w = panicking (call w)

  abbrev pub add_internal_types : Scheme → Exec W (Unit {0})
  add_internal_types scheme = do
    A.add_known_types scheme internal_group_version ("*config.TraefikConfig" ∷ [])
    pure tt

  abbrev pub add_known_types : Scheme → Exec W (Unit {0})
  add_known_types scheme = do
    A.add_known_types scheme group_version ("*v1alpha1.TraefikConfig" ∷ [])
    A.add_to_group_version scheme group_version
    pure tt

  abbrev pub register_conversions : Scheme → Exec W (Unit {0})
  register_conversions scheme = do
    A.add_generated_conversion_func scheme (to_config convert_to_config)
    A.add_generated_conversion_func scheme (from_config convert_from_config)
    A.add_generated_conversion_func scheme (to_spec spec_to_config)
    A.add_generated_conversion_func scheme (from_spec spec_from_config)
    pure tt

  -- `Install` of v1alpha1. The `init` functions of a package run in the order of its files' names, so
  -- that the one of generated.conversion.go registers first.
  abbrev pub install_v1alpha1 : Scheme → Exec W (Unit {0})
  install_v1alpha1 scheme = add_to_scheme (register_conversions ∷ add_known_types ∷ []) scheme

  unfoldable pub config_install : Scheme → Exec W (Unit {0})
  config_install scheme = do
    must (add_to_scheme (add_internal_types ∷ []) scheme)
    must (install_v1alpha1 scheme)
    must (A.set_version_priority scheme group_version)
