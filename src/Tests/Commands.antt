-- ===== src/Tests/Commands.antt =====
-- What the two commands are run with: small services, and flags that are left at their defaults.
use gardener_extension_shoot.Base.{
  ℕ, ◌+◌, String, Bool, true, false, Option, none, some, List, [], ◌∷◌, ok, err, panic, Error, ◌≡◌,
  ◌&&◌, inl, refl, if◌then◌else◌, arith,
}
use gardener_extension_shoot.Base.Int.{ℤ}
use gardener_extension_shoot.Base.Lists.{contains, all}
use gardener_extension_shoot.Traefik.Install.{SchemeApi}
use gardener_extension_shoot.Traefik.Installed.{Takes}
use gardener_extension_shoot.Manager.Answers.{Answers}
use gardener_extension_shoot.Tests.Managers.{types, host}
use gardener_extension_shoot.Command.Cli.{Flag, Parsed}
use gardener_extension_shoot.Base.{some, ◌++◌, not}
use gardener_extension_shoot.Command.Cli.Given.{Given, IsAccepted}
use gardener_extension_shoot.Command.Constants.{Constants, HasLogger}
pub mod ManagerRuns
pub mod WebhookRuns

abbrev levels : List String
levels = "debug" ∷ "info" ∷ "error" ∷ []

abbrev formats : List String
formats = "json" ∷ "text" ∷ []

-- A scheme that takes every registration.
abbrev pub schemes : SchemeApi ℕ (Unit {0})
schemes = record {
  add_known_types = λ scheme version types w. (ok tt, w + 1);
  add_to_group_version = λ scheme version w. (ok tt, w + 1);
  add_generated_conversion_func = λ scheme conversion w. (ok tt, w + 1);
  set_version_priority = λ scheme version w. (ok tt, w + 1);
  error_text = λ e. "error";
  api_version_internal = "__internal";
}

abbrev pub constants : Constants ℕ
constants = record {
  Float = ℤ;
  float = λ n. n;
  info_level = "info";
  all_log_levels = levels;
  format_text = "text";
  all_log_formats = formats;
  mode_service = "service";
  mode_url = "url";
  mode_url_with_service_name = "url-service";
  config_path_env = "KUBECONFIG";
  set_env = λ name value w. (ok tt, w + 1);
  url_error = λ s. none;
  Logger = String;
  must_new_zap_logger = λ level format.
      if contains levels level && contains formats format then ok level else err (panic level);
  set_logger = λ logger w. w;
}

pub constants-HasLogger : HasLogger constants
constants-HasLogger = record {
  level = refl;
  format = refl;
  makes_logger =
      λ level format known_level known_format. (level, rw (known_level, known_format) refl);
}

-- Flags of which none is given.
abbrev pub store_defaults : {W F : Type 0} → List (Flag W F) → F → F
store_defaults [] f = f
store_defaults (flag ∷ flags) f = store_defaults flags (flag.destination flag.value f)

pub defaults_taken :
    {W F : Type 0} (flags : List (Flag W F)) (f : F) → Parsed flags f (store_defaults flags f)
defaults_taken [] f = refl
defaults_taken (flag ∷ flags) f =
    (flag.value, inl refl, defaults_taken flags (flag.destination flag.value f))

pub schemes-Takes : Takes schemes
schemes-Takes = record {
  types = λ s v names. record { at = λ w. refl };
  to_version = λ s v. record { at = λ w. refl };
  conversions = λ s c. record { at = λ w. refl };
  priority = λ s v. record { at = λ w. refl };
}

pub host-Answers : Answers types host
host-Answers = record {
  config = record { at = λ w. refl };
  creates = λ c o. record { at = λ w. refl };
  healthz = λ cr name c. record { at = λ w. refl };
  readyz = λ cr name c. record { at = λ w. refl };
  handlers = λ cr path h. record { at = λ w. refl };
  runnables = λ cr r. record { at = λ w. refl };
}

-- Nothing is given, or something to one flag of a table too.
abbrev pub nothing_given : {W F : Type 0} (flags : List (Flag W F)) → Given flags
nothing_given [] = tt
nothing_given (flag ∷ flags) = (none, nothing_given flags)

abbrev pub give :
    {W F : Type 0} (before : List (Flag W F)) (flag : Flag W F) (after : List (Flag W F))
    → flag.V
    → Given (before ++ flag ∷ after)
    → Given (before ++ flag ∷ after)
give [] flag after v (o, given) = (some v, given)
give (b ∷ before) flag after v (o, given) = (o, give before flag after v given)

-- None of the flags has to be given.
abbrev pub are_optional : {W F : Type 0} → List (Flag W F) → Bool
are_optional flags = all (λ flag. not flag.required) flags

first_optional :
    (required others : Bool) → not required && others ≡ true → (required ≡ false) × (others ≡ true)
first_optional required others h = ground arith

nothing_given-IsAccepted :
    {W F : Type 0} (flags : List (Flag W F))
    → are_optional flags ≡ true
    → IsAccepted flags (nothing_given flags)
nothing_given-IsAccepted [] h = tt
nothing_given-IsAccepted (flag ∷ flags) h =
    let (optional, others) = first_optional flag.required (are_optional flags) h in
    (optional, nothing_given-IsAccepted flags others)

pub give-IsAccepted :
    {W F : Type 0} (before : List (Flag W F)) (flag : Flag W F) (after : List (Flag W F))
    → (v : flag.V) → are_optional before ≡ true
    → are_optional after ≡ true
    → flag.validator v ≡ none
    → IsAccepted
        (before ++ flag ∷ after)
        (give before flag after v (nothing_given (before ++ flag ∷ after)))
give-IsAccepted [] flag after v hb ha h = (h, nothing_given-IsAccepted after ha)
give-IsAccepted (b ∷ before) flag after v hb ha h =
    let (optional, others) = first_optional b.required (are_optional before) hb in
    (optional, give-IsAccepted before flag after v others ha h)
