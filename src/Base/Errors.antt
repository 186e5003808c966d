-- ===== src/Base/Errors.antt =====
-- Go's `error`, and a call that returns a value or an error.
use Prim.Native.String.{String}
use mathlib.Core.Path.{◌≡◌, refl, ap}
use mathlib.Core.Logic.{◌⊎◌, inl, inr}
use mathlib.Core.Bool.{Bool, true, false}
use mathlib.Core.Option.{Option, none, some}
use mathlib.Core.List.{List}
use gardener_extension_shoot.Base.Tests.{if◌then◌else◌}

-- An error is one that code outside the repository made, one of `errors.New`, one of `fmt.Errorf`
-- with its verbs' arguments, or one of `fmt.Errorf` whose `%w` holds another error. A panic stands
-- beside them: it unwinds through the deferred calls as a returned error does.
pub data Error : Type 0 where
  foreign : String → Error
  new_error : String → Error
  errorf : String → List String → Error
  wrapf : String → List String → Error → Error
  panic : String → Error

-- `errors.Is(e, target)`, as a relation: `target` is `e` or stands in its chain.
pub data Wraps (target : Error) : Error → Type 0 where
  here : Wraps target target
  under :
      (format : String) (args : List String) {e : Error}
      → Wraps target e
      → Wraps target (wrapf format args e)

pub data Result {ℓ} (A : Type ℓ) : Type ℓ where
  ok : A → Result A
  err : Error → Result A

infixl 10 ◌>>=◌
abbrev pub ◌>>=◌ {ℓ κ} : {A : Type ℓ} {B : Type κ} → Result A → (A → Result B) → Result B
ok a >>= f = f a
err e >>= f = err e

-- `if err != nil { return fmt.Errorf(format, args, err) }`
abbrev pub wrap {ℓ} : {A : Type ℓ} → String → List String → Result A → Result A
wrap format args (ok a) = ok a
wrap format args (err e) = err (wrapf format args e)

abbrev pub failure {ℓ} : {A : Type ℓ} → Result A → Option Error
failure (ok a) = none
failure (err e) = some e

abbrev pub is_ok {ℓ} : {A : Type ℓ} → Result A → Bool
is_ok (ok a) = true
is_ok (err e) = false

module _ {ℓ} {A : Type ℓ} where
  pub ok-injective : {a b : A} → ok a ≡ ok b → a ≡ b
  ok-injective h = cc

  pub err-injective : {x y : Error} → ◌≡◌ {A = Result A} (err x) (err y) → x ≡ y
  err-injective h = cc

  pub err-ne-ok : {x : Error} {a : A} → err x ≡ ok a → ⊥
  err-ne-ok h = cc

  pub ok-ne-err : {x : Error} {a : A} → ok a ≡ err x → ⊥
  ok-ne-err h = cc

  pub wrap-eq-ok :
      (format : String) (args : List String) (r : Result A) {a : A}
      → wrap format args r ≡ ok a
      → r ≡ ok a
  wrap-eq-ok format args (ok a) h = h
  wrap-eq-ok format args (err e) h = absurd (err-ne-ok h)

module _ {ℓ κ} {A : Type ℓ} {B : Type κ} where
  -- A chain that returned ran its first part to a value, and then the rest.
  pub >>=-eq-ok :
      (r : Result A) (f : A → Result B) {b : B}
      → (r >>= f) ≡ ok b
      → (a : A) × (r ≡ ok a) × (f a ≡ ok b)
  >>=-eq-ok (ok a) f h = (a, refl, h)
  >>=-eq-ok (err e) f h = absurd (err-ne-ok h)

  pub >>=-eq-err :
      (r : Result A) (f : A → Result B) {e : Error}
      → (r >>= f) ≡ err e
      → (r ≡ err e) ⊎ ((a : A) × (r ≡ ok a) × (f a ≡ err e))
  >>=-eq-err (ok a) f h = inr (a, refl, h)
  >>=-eq-err (err x) f h = inl (ap err (err-injective h))

module _ {ℓ} {A : Type ℓ} where
  -- `if test { return …, x }` and what follows it.
  pub guard-eq-ok :
      (b : Bool) (x : Error) (r : Result A) {a : A}
      → (if b then err x else r) ≡ ok a
      → (b ≡ false) × (r ≡ ok a)
  guard-eq-ok true x r h = absurd (err-ne-ok h)
  guard-eq-ok false x r h = (refl, h)

  pub guard-eq-err :
      (b : Bool) (x : Error) (r : Result A) {e : Error}
      → (if b then err x else r) ≡ err e
      → (x ≡ e) ⊎ (r ≡ err e)
  guard-eq-err true x r h = inl (err-injective h)
  guard-eq-err false x r h = inr h
