-- ===== src/Base/Exec/Succeeds.antt =====
-- Calls that return in every world, whatever they return: one rule for each way to build one.
use Prim.Native.String.{String}
use mathlib.Core.Path.{◌≡◌, refl}
use mathlib.Core.Bool.{true}
use mathlib.Core.List.{List}
use gardener_extension_shoot.Base.Errors.{Result, ok, err, is_ok}
use gardener_extension_shoot.Base.Exec.{Exec, pure, lift, wrapping, with_wrap, continue, ◌>>=◌}

pub record Succeeds {W A : Type 0} (m : Exec W A) : Type 0 where
  pub at : (w : W) → is_ok (m w).0 ≡ true

with_wrap_succeeds :
    {W A : Type 0} (format : String) (args : List String) (r : Result A) (w : W)
    → is_ok r ≡ true
    → is_ok (with_wrap format args r w).0 ≡ true
with_wrap_succeeds format args (ok a) w h = h
with_wrap_succeeds format args (err e) w h = h

continue_succeeds :
    {W A B : Type 0} (r : Result A) (f : A → Exec W B) (w : W)
    → is_ok r ≡ true
    → ((a : A) → Succeeds (f a))
    → is_ok (continue r f w).0 ≡ true
continue_succeeds (ok a) f w h k = (k a).at w
continue_succeeds (err e) f w h k = h

module _ {W A : Type 0} where
  pub Succeeds-pure : (a : A) → Succeeds {W = W} (pure a)
  unfolding pure
  Succeeds-pure a = record { at = λ w. refl }

  pub Succeeds-lift : (r : Result A) → is_ok r ≡ true → Succeeds {W = W} (lift r)
  unfolding lift
  Succeeds-lift r h = record { at = λ w. h }

  pub Succeeds-wrapping :
      (format : String) (args : List String) (m : Exec W A)
      → Succeeds m
      → Succeeds (wrapping format args m)
  unfolding wrapping
  Succeeds-wrapping format args m s = record {
    at = λ w. with_wrap_succeeds format args (m w).0 (m w).1 (s.at w);
  }

  pub Succeeds-bind :
      {B : Type 0} (m : Exec W A) (f : A → Exec W B)
      → Succeeds m
      → ((a : A) → Succeeds (f a))
      → Succeeds (m >>= f)
  unfolding ◌>>=◌
  Succeeds-bind m f s k = record { at = λ w. continue_succeeds (m w).0 f (m w).1 (s.at w) k }

pub ruleset succeeds_rules = (Succeeds-pure, Succeeds-lift, Succeeds-wrapping, Succeeds-bind)
