-- ===== src/Base/Options.antt =====
-- Functional options: each changes the object under construction, or fails.
use mathlib.Core.Path.{◌≡◌, refl}
use mathlib.Core.List.{List, [], ◌∷◌, ◌++◌}
use gardener_extension_shoot.Base.Errors.{Result, ok, err, ◌>>=◌}

bind-bind {ℓ} :
    {S : Type ℓ} (r : Result S) (f g h : S → Result S)
    → ((s : S) → h s ≡ (f s >>= g))
    → (r >>= h) ≡ ((r >>= f) >>= g)
bind-bind (ok s) f g h e = e s
bind-bind (err x) f g h e = refl

module _ {ℓ} {S : Type ℓ} where
  -- `for _, opt := range opts { if err := opt(s); err != nil { return nil, err } }`
  unfoldable pub apply_options : List (S → Result S) → S → Result S
  apply_options [] s = ok s
  apply_options (opt ∷ opts) s = opt s >>= apply_options opts

  -- Options are applied in order: those of a first list, then those of a second.
  pub apply_options-append :
      (xs ys : List (S → Result S)) (s : S)
      → apply_options (xs ++ ys) s ≡ (apply_options xs s >>= apply_options ys)
  unfolding apply_options
  apply_options-append [] ys s = refl
  apply_options-append (opt ∷ xs) ys s =
      bind-bind (opt s) (apply_options xs) (apply_options ys) (apply_options (xs ++ ys))
        (apply_options-append xs ys)
