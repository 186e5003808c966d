-- ===== src/Base/Exec/Inversion.antt =====
-- What a call that returned was made of.
use Prim.Native.String.{String}
use mathlib.Core.Path.{◌≡◌, refl, sym, ap, ◌∙◌}
use mathlib.Core.List.{List}
use gardener_extension_shoot.Base.Errors.{Result, ok, err}
use gardener_extension_shoot.Base.Exec.{Exec, wrapping, with_wrap, continue, ◌>>=◌}

continue-eq-ok :
    {W A B : Type 0} (r : Result A) (f : A → Exec W B) (w : W) {b : B}
    → (continue r f w).0 ≡ ok b
    → (a : A) × (r ≡ ok a) × ((f a w).0 ≡ ok b) × (continue r f w ≡ f a w)
continue-eq-ok (ok a) f w h = (a, refl, h, refl)
continue-eq-ok (err e) f w h = cc

with_wrap-eq-ok :
    {W A : Type 0} (format : String) (args : List String) (r : Result A) (w : W) {a : A}
    → (with_wrap format args r w).0 ≡ ok a
    → (r ≡ ok a) × (with_wrap format args r w ≡ (r, w))
with_wrap-eq-ok format args (ok a) w h = (h, refl)
with_wrap-eq-ok format args (err e) w h = cc

module _ {W A : Type 0} where
  -- A sequence that returned ran its first part to a value and then the rest.
  pub >>=-eq-ok :
      {B : Type 0} (m : Exec W A) (f : A → Exec W B) (w : W) {b : B}
      → ((m >>= f) w).0 ≡ ok b
      → (a : A) × ((m w).0 ≡ ok a) × ((f a (m w).1).0 ≡ ok b) × ((m >>= f) w ≡ f a (m w).1)
  unfolding ◌>>=◌
  >>=-eq-ok m f w h = continue-eq-ok (m w).0 f (m w).1 h

  -- Wrapping changes nothing of a call that returned.
  pub wrapping-eq-ok :
      (format : String) (args : List String) (m : Exec W A) (w : W) {a : A}
      → (wrapping format args m w).0 ≡ ok a
      → ((m w).0 ≡ ok a) × (wrapping format args m w ≡ m w)
  unfolding wrapping
  wrapping-eq-ok format args m w h = with_wrap-eq-ok format args (m w).0 (m w).1 h

  -- What a wrapped call that returned did.
  pub wrapping-eq-pair :
      (format : String) (args : List String) (m : Exec W A) (w : W) {a : A}
      → (wrapping format args m w).0 ≡ ok a
      → m w ≡ (ok a, (wrapping format args m w).1)
  wrapping-eq-pair format args m w h =
      let (_, same) = wrapping-eq-ok format args m w h in
      sym same ∙ ap (λ r. (r, (wrapping format args m w).1)) h

continue-ext :
    {W A B : Type 0} (r : Result A) (f g : A → Exec W B) (w : W)
    → ((a : A) (v : W) → f a v ≡ g a v)
    → continue r f w ≡ continue r g w
continue-ext (ok a) f g w h = h a w
continue-ext (err e) f g w h = refl

-- A sequence may go on with any call that does the same.
pub >>=-ext :
    {W A B : Type 0} (m : Exec W A) (f g : A → Exec W B) (w : W)
    → ((a : A) (v : W) → f a v ≡ g a v)
    → (m >>= f) w ≡ (m >>= g) w
unfolding ◌>>=◌
>>=-ext m f g w h = continue-ext (m w).0 f g (m w).1 h

-- A sequence whose first part returned goes on from there.
pub >>=-of-ok :
    {W A B : Type 0} (m : Exec W A) (f : A → Exec W B) (w : W) {a : A} {v : W}
    → m w ≡ (ok a, v)
    → (m >>= f) w ≡ f a v
unfolding ◌>>=◌
>>=-of-ok m f w e = ap (λ r. continue r.0 f r.1) e
