-- ===== src/Controller/Build.antt =====
-- When `New` gives a controller, and what its errors are.
use mathlib.Core.Path.{subst}
use gardener_extension_shoot.Base.{
  String, true, false, refl, List, [], Error, ok, err, wrapf, Wraps, here, under, guard-eq-ok,
  guard-eq-err, >>=-eq-ok, >>=-eq-err, ok-injective, ok-ne-err, ◌==◌, ◌≡◌, ◌⊎◌, inl, inr,
  Bool-cases,
}
use gardener_extension_shoot.Base.Options.{apply_options}
use gardener_extension_shoot.Controller.{
  Kinds, Controller, ControllerOption, new_controller, initial_controller, check_controller,
  finish_suffix, is_nil, is_empty, err_invalid_controller,
}

module _ (K : Kinds) where
  -- What `extension.Add` needs of a controller.
  pub record IsReady (c : Controller K) : Type 0 where
    pub actuator : is_nil K c.actuator ≡ false
    pub name : (c.name == "") ≡ false
    pub finalizer_suffix : (c.finalizer_suffix == "") ≡ false
    pub extension_type : (c.extension_type == "") ≡ false
    pub extension_classes : is_empty K c.extension_classes ≡ false

  finish_suffix-IsReady :
      (c : Controller K)
      → is_nil K c.actuator ≡ false
      → (c.name == "") ≡ false
      → (c.extension_type == "") ≡ false
      → is_empty K c.extension_classes ≡ false
      → IsReady (finish_suffix K c)
  finish_suffix-IsReady c a n t e = elim (Bool-cases (c.finalizer_suffix == "")) [
    | inl unset ↦ rw unset (record {
      actuator = a;
      name = n;
      finalizer_suffix = n;
      extension_type = t;
      extension_classes = e;
    })
    | inr given ↦ rw given (record {
      actuator = a;
      name = n;
      finalizer_suffix = given;
      extension_type = t;
      extension_classes = e;
    })
  ]

  -- The suffix of `c` is that of `g`, or its name if it has none; the rest is the same.
  abbrev pub IsDefaulted : Controller K → Controller K → Type 0
  IsDefaulted g c =
      (((g.finalizer_suffix == "") ≡ true) × (c ≡ record g { finalizer_suffix = g.name }))
      ⊎ (((g.finalizer_suffix == "") ≡ false) × (c ≡ g))

  finish_suffix-IsDefaulted : (g : Controller K) → IsDefaulted g (finish_suffix K g)
  finish_suffix-IsDefaulted g = elim (Bool-cases (g.finalizer_suffix == "")) [
    | inl unset ↦ inl (unset, rw unset refl)
    | inr given ↦ inr (given, rw given refl)
  ]

  check_controller-IsReady :
      (g c : Controller K) → check_controller K g ≡ ok c → IsDefaulted g c × IsReady c
  check_controller-IsReady g c h =
      let (has_actuator, h₁) = guard-eq-ok (is_nil K g.actuator) _ _ h in
      let (has_name, h₂) = guard-eq-ok (g.name == "") _ _ h₁ in
      let (has_type, h₃) = guard-eq-ok (g.extension_type == "") _ _ h₂ in
      let (has_class, h₄) = guard-eq-ok (is_empty K g.extension_classes) _ _ h₃ in
      let same = ok-injective h₄ in
      (
        subst (IsDefaulted g) same (finish_suffix-IsDefaulted g),
        subst IsReady same (finish_suffix-IsReady g has_actuator has_name has_type has_class),
      )

  check_controller-Wraps :
      (g : Controller K) (e : Error) → check_controller K g ≡ err e → Wraps err_invalid_controller e
  check_controller-Wraps g e h = first (guard-eq-err (is_nil K g.actuator) _ _ h) (λ h₁.
      first (guard-eq-err (g.name == "") _ _ h₁) (λ h₂.
        first (guard-eq-err (g.extension_type == "") _ _ h₂) (λ h₃.
          first (guard-eq-err (is_empty K g.extension_classes) _ _ h₃)
            (λ h₄. absurd (ok-ne-err h₄)))))
    where
      first :
          {format : String} {R : Type 0}
          → (wrapf format [] err_invalid_controller ≡ e) ⊎ R
          → (R → Wraps err_invalid_controller e)
          → Wraps err_invalid_controller e
      first {format} (inl same) rest =
          subst (Wraps err_invalid_controller) same (under format [] here)
      first (inr r) rest = rest r

  -- A controller that `New` gives is what the options make of the zero one, with the name as the
  -- finalizer suffix exactly if they leave that empty, and has an actuator, a name, a suffix, an
  -- extension type and a class.
  pub new_controller-IsReady :
      (zero_options : K.Options) (opts : List (ControllerOption K)) (c : Controller K)
      → new_controller K zero_options opts ≡ ok c
      → (g : Controller K) × (apply_options opts (initial_controller K zero_options) ≡ ok g)
        × IsDefaulted g c
        × IsReady c
  unfolding new_controller
  new_controller-IsReady zero_options opts c h =
      let (g, applied, checked) = >>=-eq-ok (apply_options opts _) (check_controller K) h in
      let (defaulted, ready) = check_controller-IsReady g c checked in
      (g, applied, defaulted, ready)

  -- An error of `New` is that of the first option that fails, or one that wraps the sentinel.
  pub new_controller_error :
      (zero_options : K.Options) (opts : List (ControllerOption K)) (e : Error)
      → new_controller K zero_options opts ≡ err e
      → (apply_options opts (initial_controller K zero_options) ≡ err e)
        ⊎ Wraps err_invalid_controller e
  unfolding new_controller
  new_controller_error zero_options opts e h =
      elim (>>=-eq-err (apply_options opts _) (check_controller K) h) [
        | inl failed ↦ inl failed
        | inr (g, _, refused) ↦ inr (check_controller-Wraps g e refused)
      ]
