-- ===== src/Controller.antt =====
-- pkg/controller/controller.go: the controller that wraps an actuator.
use gardener_extension_shoot.Base.{
  String, Bool, false, Option, none, some, List, [], ◌∷◌, ◌++◌, Error, Result, ok, err, new_error,
  wrapf, ◌>>=◌, ◌==◌, if◌then◌else◌,
}
use gardener_extension_shoot.Base.Int.{ℤ, pos}
use gardener_extension_shoot.Base.Options.{apply_options}
use gardener_extension_shoot.Kube.{ExtensionClass}
pub mod Build

abbrev pub err_invalid_controller : Error
err_invalid_controller = new_error "invalid controller config"

-- The types of other modules: actuators, `controller.Options`, predicates and watch builders.
pub record Kinds : Type 1 where
  pub Act : Type 0
  pub Options : Type 0
  pub Predicate : Type 0
  pub Watch : Type 0

module _ (K : Kinds) where
  -- A nil actuator or watch builder is `none`; the resync interval is in nanoseconds.
  pub record Controller : Type 0 where
    pub actuator : Option K.Act
    pub name : String
    pub finalizer_suffix : String
    pub controller_options : K.Options
    pub predicates : List K.Predicate
    pub resync : ℤ
    pub extension_type : String
    pub watch_builder : Option K.Watch
    pub ignore_operation_annotation : Bool
    pub extension_classes : List ExtensionClass

  abbrev pub ControllerOption : Type 0
  ControllerOption = Controller → Result Controller

  abbrev pub finish_suffix : Controller → Controller
  finish_suffix c = if c.finalizer_suffix == "" then record c { finalizer_suffix = c.name } else c

  abbrev is_empty : List ExtensionClass → Bool
  is_empty [] = Bool.true
  is_empty (x ∷ xs) = false

  abbrev is_nil : Option K.Act → Bool
  is_nil none = Bool.true
  is_nil (some a) = false

  abbrev check_controller : Controller → Result Controller
  check_controller c =
      if is_nil c.actuator
      then err (wrapf "%w: missing actuator implementation" [] err_invalid_controller)
      else if c.name == ""
      then err (wrapf "%w: missing controller name" [] err_invalid_controller)
      else if c.extension_type == ""
      then err (wrapf "%w: missing extension type" [] err_invalid_controller)
      else if is_empty c.extension_classes
      then err (wrapf "%w: missing extension class" [] err_invalid_controller)
      else ok (finish_suffix c)

  -- The zero values of Go; `zero_options` is that of `controller.Options`.
  abbrev pub initial_controller : K.Options → Controller
  initial_controller zero_options = record {
    actuator = none;
    name = "";
    finalizer_suffix = "";
    controller_options = zero_options;
    predicates = [];
    resync = pos 0;
    extension_type = "";
    watch_builder = none;
    ignore_operation_annotation = false;
    extension_classes = [];
  }

  unfoldable pub new_controller : K.Options → List ControllerOption → Result Controller
  new_controller zero_options opts = do
    c ← apply_options opts (initial_controller zero_options)
    check_controller c

  unfoldable pub with_actuator : Option K.Act → ControllerOption
  with_actuator act c = ok (record c { actuator = act })

  unfoldable pub with_name : String → ControllerOption
  with_name name c = ok (record c { name = name })

  unfoldable pub with_finalizer_suffix : String → ControllerOption
  with_finalizer_suffix suffix c = ok (record c { finalizer_suffix = suffix })

  unfoldable pub with_controller_options : K.Options → ControllerOption
  with_controller_options opts c = ok (record c { controller_options = opts })

  unfoldable pub with_predicate : K.Predicate → ControllerOption
  with_predicate pred c = ok (record c { predicates = c.predicates ++ pred ∷ [] })

  unfoldable pub with_extension_type : String → ControllerOption
  with_extension_type extension_type c = ok (record c { extension_type = extension_type })

  unfoldable pub with_watch_builder : Option K.Watch → ControllerOption
  with_watch_builder builder c = ok (record c { watch_builder = builder })

  unfoldable pub with_ignore_operation_annotation : Bool → ControllerOption
  with_ignore_operation_annotation ignore c = ok (record c { ignore_operation_annotation = ignore })

  unfoldable pub with_extension_class : ExtensionClass → ControllerOption
  with_extension_class item c =
      ok (record c { extension_classes = c.extension_classes ++ item ∷ [] })

  unfoldable pub with_resync_interval : ℤ → ControllerOption
  with_resync_interval duration c = ok (record c { resync = duration })

  -- `extension.AddArgs` has the fields of the controller. `default_predicates` is
  -- `extension.DefaultPredicates`, `add` is `extension.Add`; the controller keeps the predicates
  -- that were filled in.
  abbrev filled : (Bool → List K.Predicate) → List K.Predicate → Controller → Controller
  filled default_predicates [] c = record c {
    predicates = default_predicates c.ignore_operation_annotation;
  }
  filled default_predicates (p ∷ ps) c = c

  unfoldable pub setup_controller {ℓ} :
      {W : Type ℓ}
      → (Bool → List K.Predicate)
      → (Controller → W → Result (Unit {ℓ}) × W)
      → Controller
      → W
      → Result (Unit {ℓ}) × W × Controller
  setup_controller default_predicates add c w =
      let c' = filled default_predicates c.predicates c in let (r, w') = add c' w in (r, w', c')
