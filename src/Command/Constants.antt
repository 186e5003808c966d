-- ===== src/Command/Constants.antt =====
-- What the commands use of other modules beside the manager's: names, numbers and the environment.
use gardener_extension_shoot.Base.Exec.Inversion.{>>=-eq-ok}
use gardener_extension_shoot.Base.{sym, ok-injective}
use gardener_extension_shoot.Base.{
  String, Bool, true, false, List, Option, none, some, Error, Result, ok, new_error, if◌then◌else◌,
  ◌≡◌, ◌⊎◌, inl, inr, refl,
}
use gardener_extension_shoot.Base.Int.{ℤ}
use gardener_extension_shoot.Base.Exec.{Exec, pure, lift, ◌>>=◌, ◌>>◌}
use gardener_extension_shoot.Base.Lists.{contains}

pub record Constants (W : Type 0) : Type 1 where
  -- float32, with the integers in it
  pub Float : Type 0
  pub float : ℤ → Float
  -- `glogger.InfoLevel`, `AllLogLevels`, `FormatText` and `AllLogFormats`
  pub info_level : String
  pub all_log_levels : List String
  pub format_text : String
  pub all_log_formats : List String
  -- `extensionswebhook.ModeService`, `ModeURL` and `ModeURLWithServiceName`
  pub mode_service : String
  pub mode_url : String
  pub mode_url_with_service_name : String
  -- `clientcmd.RecommendedConfigPathEnvVar`, `os.Setenv`, and the error of `url.Parse`
  pub config_path_env : String
  pub set_env : String → String → Exec W (Unit {0})
  pub url_error : String → Option Error
  -- `glogger.MustNewZapLogger`, which may panic, and `ctrllog.SetLogger`
  pub Logger : Type 0
  pub must_new_zap_logger : String → String → Result Logger
  pub set_logger : Logger → W → W

-- The default level and format are known ones, and of known ones a logger can be made.
pub record HasLogger {W : Type 0} (C : Constants W) : Type 0 where
  pub level : contains C.all_log_levels C.info_level ≡ true
  pub format : contains C.all_log_formats C.format_text ≡ true
  pub makes_logger :
      (level format : String)
      → contains C.all_log_levels level ≡ true
      → contains C.all_log_formats format ≡ true
      → (logger : C.Logger) × (C.must_new_zap_logger level format ≡ ok logger)

-- `Before` of both commands: whether the flags are stored in the context.
abbrev pub before : {W : Type 0} → Constants W → String → String → Exec W Bool
before C level format = do
  logger ← lift (C.must_new_zap_logger level format)
  λ w. (ok tt, C.set_logger logger w)
  pure true

-- A validator that accepts the values of a list.
abbrev pub one_of : List String → String → String → Option Error
one_of values message val = if contains values val then none else some (new_error message)

-- A validator that tests a value accepts those that pass.
pub accepted : (b : Bool) (e : Error) → (if b then none else some e) ≡ none → b ≡ true
accepted true e h = refl
accepted false e h = cc

-- What such a validator accepts, and a default among the values, is one of them.
pub one_of-accepts :
    (values : List String) (message default v : String)
    → contains values default ≡ true
    → (v ≡ default) ⊎ (one_of values message v ≡ none)
    → contains values v ≡ true
one_of-accepts values message default v listed (inl same) = rw same listed
one_of-accepts values message default v listed (inr none_wrong) =
    accepted (contains values v) (new_error message) none_wrong

-- Of a known level and a known format, `Before` makes the logger and stores the flags.
pub before-ok :
    {W : Type 0} (C : Constants W) (defaults : HasLogger C) (level format : String) (w : W)
    → contains C.all_log_levels level ≡ true
    → contains C.all_log_formats format ≡ true
    → (logger : C.Logger) × (C.must_new_zap_logger level format ≡ ok logger)
      × (before C level format w ≡ (ok true, C.set_logger logger w))
unfolding ◌>>=◌
before-ok C defaults level format w known_level known_format =
    let (logger, made) = defaults.makes_logger level format known_level known_format in
    (logger, made, rw made refl)

-- `Before` stores the flags whenever it returns.
pub before-true :
    {W : Type 0} (C : Constants W) (level format : String) (w : W) {stored : Bool}
    → (before C level format w).0 ≡ ok stored
    → stored ≡ true
unfolding pure
before-true C level format w h =
    let (logger, _, rest, _) = >>=-eq-ok (lift (C.must_new_zap_logger level format)) _ w h in
    let (_, _, last, _) = >>=-eq-ok (λ w. (ok tt, C.set_logger logger w)) _ _ rest in
    sym (ok-injective last)
