-- ===== src/Admission/Policy.antt =====
-- The policy that the webhook enforces.
use gardener_extension_shoot.Base.{
  String, true, false, Option, none, some, List, [], ◌∷◌, ◌++◌, ◌==◌, ◌≡◌, ◌≢◌, ◌↔◌, refl, ap,
  arith, eq_iff, Bool-cases, inl, inr,
}
use gardener_extension_shoot.Base.Lists.{All}
use gardener_extension_shoot.Kube.{Shoot, ShootExtension}
use gardener_extension_shoot.Admission.{
  Found, absent, disabled, enabled, extension_type, check_purpose, verdict, find_extension,
  validate_shoot, purpose_evaluation,
}

-- The first entry of the Traefik extension is there and not disabled.
pub record Enables (exts : List ShootExtension) : Type 0 where
  pub before : List ShootExtension
  pub entry : ShootExtension
  pub after : List ShootExtension
  pub split : exts ≡ before ++ entry ∷ after
  pub others : All (λ (e : ShootExtension). (e.extension_type == extension_type) ≡ false) before
  pub typed : entry.extension_type ≡ extension_type
  pub active : entry.disabled ≢ some true

later_Enables :
    (e : ShootExtension) (rest : List ShootExtension)
    → (e.extension_type == extension_type) ≡ false
    → Enables rest
    → Enables (e ∷ rest)
later_Enables e rest other en = record {
  before = e ∷ en.before;
  entry = en.entry;
  after = en.after;
  split = ap (λ l. e ∷ l) en.split;
  others = (other, en.others);
  typed = en.typed;
  active = en.active;
}

Enables-find : (exts : List ShootExtension) → find_extension exts ≡ enabled → Enables exts
unfolding find_extension
Enables-find [] h = absurd (ground arith)
Enables-find (e ∷ rest) h = elim (Bool-cases (e.extension_type == extension_type)) [
  | inl same ↦ record {
    before = [];
    entry = e;
    after = rest;
    split = refl;
    others = tt;
    typed = (eq_iff _ _).0 same;
    active = ground arith;
  }
  | inr other ↦ later_Enables e rest other (Enables-find rest (ground arith))
]

find-before :
    (before : List ShootExtension) (e : ShootExtension) (after : List ShootExtension)
    → All (λ (x : ShootExtension). (x.extension_type == extension_type) ≡ false) before
    → e.extension_type ≡ extension_type
    → e.disabled ≢ some true
    → find_extension (before ++ e ∷ after) ≡ enabled
unfolding find_extension
find-before [] e after others typed active = ground (arith, eq_iff e.extension_type extension_type)
find-before (x ∷ before) e after others typed active =
    ground (arith, find-before before e after others.1 typed active)

find-Enables : (exts : List ShootExtension) → Enables exts → find_extension exts ≡ enabled
find-Enables exts en =
    rw en.split (find-before en.before en.entry en.after en.others en.typed en.active)

check_purpose_iff :
    (purpose : Option String) → (check_purpose purpose ≡ none) ↔ (purpose ≡ some purpose_evaluation)
check_purpose_iff none = ground arith
check_purpose_iff (some p) = ground (arith, eq_iff p purpose_evaluation)

-- A shoot is admitted exactly when it has purpose "evaluation", or Traefik is not enabled on it.
pub validate_shoot_iff :
    (s : Shoot)
    → (validate_shoot s ≡ none) ↔ (Enables s.extensions → s.purpose ≡ some purpose_evaluation)
unfolding validate_shoot
validate_shoot_iff s = (
  λ h en. (check_purpose_iff s.purpose).0 (rw (find-Enables s.extensions en) at h),
  λ h. admitted (find_extension s.extensions) refl h,
)
  where
    admitted :
        (f : Found)
        → find_extension s.extensions ≡ f
        → (Enables s.extensions → s.purpose ≡ some purpose_evaluation)
        → verdict f s.purpose ≡ none
    admitted absent e h = refl
    admitted disabled e h = refl
    admitted enabled e h = (check_purpose_iff s.purpose).1 (h (Enables-find s.extensions e))
