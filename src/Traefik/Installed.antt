-- ===== src/Traefik/Installed.antt =====
-- That the configuration's types get into a scheme that takes them.
use gardener_extension_shoot.Base.{String, true, List, Result, ok, err, is_ok, ◌≡◌, refl}
use mathlib.Core.Bool.{false≢true}
use gardener_extension_shoot.Base.Exec.{Exec}
use gardener_extension_shoot.Base.Exec.Succeeds.{Succeeds, succeeds_rules}
use gardener_extension_shoot.Traefik.Install.{
  GroupVersion, Conversion, SchemeApi, must, panicking, config_install,
}

-- A scheme takes every registration.
pub record Takes {W Scheme : Type 0} (A : SchemeApi W Scheme) : Type 0 where
  pub types :
      (s : Scheme) (v : GroupVersion) (names : List String) → Succeeds (A.add_known_types s v names)
  pub to_version : (s : Scheme) (v : GroupVersion) → Succeeds (A.add_to_group_version s v)
  pub conversions : (s : Scheme) (c : Conversion) → Succeeds (A.add_generated_conversion_func s c)
  pub priority : (s : Scheme) (v : GroupVersion) → Succeeds (A.set_version_priority s v)

module _ {W Scheme : Type 0} (A : SchemeApi W Scheme) where
  panicking_ok :
      (r : Result (Unit {0})) (w : W) → is_ok r ≡ true → is_ok (panicking A (r, w)).0 ≡ true
  panicking_ok (ok a) w h = refl
  panicking_ok (err e) w h = absurd (false≢true h)

  must-Succeeds : (call : Exec W (Unit {0})) → Succeeds call → Succeeds (must A call)
  must-Succeeds call s = record { at = λ w. panicking_ok (call w).0 (call w).1 (s.at w) }

  pub config_install-Succeeds : Takes A → (scheme : Scheme) → Succeeds (config_install A scheme)
  unfolding config_install
  config_install-Succeeds takes scheme =
      search
        (
          succeeds_rules, must-Succeeds, takes.types, takes.to_version, takes.conversions,
          takes.priority,
        )
        depth 20
