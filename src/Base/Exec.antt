-- ===== src/Base/Exec.antt =====
-- Calls that act on the world and may fail. What was done before a failure stays done, so the
-- world comes back beside the error too.
use Prim.Native.String.{String}
use mathlib.Core.List.{List}
pub mod Keeps
pub mod Inversion
pub mod Succeeds
use gardener_extension_shoot.Base.Errors.{Error, Result, ok, err, wrapf}

abbrev pub Exec {ℓ κ} : Type ℓ → Type κ → Type (ℓ ⊔ κ)
Exec W A = W → Result A × W

module _ {ℓ} {W A : Type ℓ} where
  unfoldable pub pure : A → Exec W A
  pure a w = (ok a, w)

  unfoldable pub raise : Error → Exec W A
  raise e w = (err e, w)

  unfoldable pub lift : Result A → Exec W A
  lift r w = (r, w)

  abbrev with_wrap : String → List String → Result A → W → Result A × W
  with_wrap format args (ok a) w = (ok a, w)
  with_wrap format args (err e) w = (err (wrapf format args e), w)

  -- `if err := m; err != nil { return fmt.Errorf(format, err) }`
  unfoldable pub wrapping : String → List String → Exec W A → Exec W A
  wrapping format args m w = let (r, w') = m w in with_wrap format args r w'

module _ {ℓ} {W A B : Type ℓ} where
  abbrev continue : Result A → (A → Exec W B) → W → Result B × W
  continue (ok a) f w = f a w
  continue (err e) f w = (err e, w)

  infixl 10 ◌>>=◌ ◌>>◌
  -- Opening this opens the other ways to build a call.
  unfoldable pub ◌>>=◌ : Exec W A → (A → Exec W B) → Exec W B
  unfolding pure raise lift wrapping
  ◌>>=◌ m f w = let (r, w') = m w in continue r f w'

  abbrev pub ◌>>◌ : Exec W A → Exec W B → Exec W B
  m >> n = m >>= λ _. n
