-- ===== src/Base/Exec/Keeps.antt =====
-- What a call keeps of the world, whether it returns or fails: one rule for each way to build a call.
use Prim.Native.String.{String}
use mathlib.Core.Bool.{Bool, true, false}
use mathlib.Core.List.{List}
use gardener_extension_shoot.Base.Tests.{if◌then◌else◌}
use gardener_extension_shoot.Base.Errors.{Error, Result, ok, err}
use gardener_extension_shoot.Base.Exec.{
  Exec, pure, raise, lift, wrapping, with_wrap, continue, ◌>>=◌,
}

pub record Keeps {W A : Type 0} (P : W → Type 0) (m : Exec W A) : Type 0 where
  pub at : (w : W) → P w → P (m w).1

with_wrap_keeps :
    {W A : Type 0} (P : W → Type 0) (format : String) (args : List String) (r : Result A) (w : W)
    → P w
    → P (with_wrap format args r w).1
with_wrap_keeps P format args (ok a) w h = h
with_wrap_keeps P format args (err e) w h = h

continue_keeps :
    {W A B : Type 0} (P : W → Type 0) (r : Result A) (f : A → Exec W B)
    → ((a : A) → Keeps P (f a))
    → (w : W) → P w
    → P (continue r f w).1
continue_keeps P (ok a) f k w h = (k a).at w h
continue_keeps P (err e) f k w h = h

module _ {W A : Type 0} {P : W → Type 0} where
  pub Keeps-pure : (a : A) → Keeps P (pure a)
  unfolding pure
  Keeps-pure a = record { at = λ w h. h }

  pub Keeps-raise : (e : Error) → Keeps P (raise {A = A} e)
  unfolding raise
  Keeps-raise e = record { at = λ w h. h }

  pub Keeps-lift : (r : Result A) → Keeps P (lift r)
  unfolding lift
  Keeps-lift r = record { at = λ w h. h }

  pub Keeps-wrapping :
      (format : String) (args : List String) (m : Exec W A)
      → Keeps P m
      → Keeps P (wrapping format args m)
  unfolding wrapping
  Keeps-wrapping format args m k = record {
    at = λ w h. let (r, w') = m w in with_wrap_keeps P format args r w' (k.at w h);
  }

  pub Keeps-if : (b : Bool) (m n : Exec W A) → Keeps P m → Keeps P n → Keeps P (if b then m else n)
  Keeps-if true m n km kn = km
  Keeps-if false m n km kn = kn

module _ {W A B : Type 0} {P : W → Type 0} where
  pub Keeps-bind :
      (m : Exec W A) (f : A → Exec W B) → Keeps P m → ((a : A) → Keeps P (f a)) → Keeps P (m >>= f)
  unfolding ◌>>=◌
  Keeps-bind m f km kf = record {
    at = λ w h. let (r, w') = m w in continue_keeps P r f kf w' (km.at w h);
  }

pub ruleset keeps_rules =
    (Keeps-pure, Keeps-raise, Keeps-lift, Keeps-wrapping, Keeps-if, Keeps-bind)
