-- ===== src/Command/Cli/Actions.antt =====
-- What the actions of flags keep, and that they return.
use gardener_extension_shoot.Base.{
  true, none, some, List, [], ◌∷◌, ◌++◌, Result, ok, err, is_ok, ◌≡◌, refl, sym, ap, ◌∙◌, inl, inr,
  Option, ok-injective,
}
use mathlib.Core.Bool.{false≢true}
use gardener_extension_shoot.Base.Exec.Keeps.{Keeps, Keeps-bind, Keeps-pure}
use gardener_extension_shoot.Base.Exec.Succeeds.{Succeeds, Succeeds-bind, Succeeds-pure}
use gardener_extension_shoot.Base.Lists.{All}
use gardener_extension_shoot.Base.Exec.{pure}
use gardener_extension_shoot.Base.Exec.Inversion.{>>=-eq-ok}
use gardener_extension_shoot.Command.Cli.{Flag, Parsed}
use gardener_extension_shoot.Command.Cli.Given.{
  Given, store_given, IsAccepted, run_action, run_actions, returning, with_actions, last_given,
}

-- The action of a flag that has none.
pub quiet-Succeeds : {S : Type 0} → Succeeds {W = S} (λ s. (ok tt, s))
quiet-Succeeds = record { at = λ s. refl }

pub quiet-Keeps : {S : Type 0} (P : S → Type 0) → Keeps P (λ s. (ok tt, s))
quiet-Keeps P = record { at = λ s h. h }

returning-eq-ok :
    {A : Type 0} (a : A) (r : Result (Unit {0})) {b : A}
    → returning a r ≡ ok b
    → (r ≡ ok tt) × (a ≡ b)
returning-eq-ok a (ok u) h = (refl, ok-injective h)
returning-eq-ok a (err e) h = cc

module _ {W F : Type 0} where
  -- What an accepted command line stores is a result of parsing.
  pub store_given-Parsed :
      (flags : List (Flag W F)) (given : Given flags) (f : F)
      → IsAccepted flags given
      → Parsed flags f (store_given flags given f)
  store_given-Parsed [] given f h = refl
  store_given-Parsed (flag ∷ flags) (none, given) f (_, h) =
      (flag.value, inl refl, store_given-Parsed flags given (flag.destination flag.value f) h)
  store_given-Parsed (flag ∷ flags) (some v, given) f (accepted, h) =
      (v, inr accepted, store_given-Parsed flags given (flag.destination v f) h)

  -- The action of each flag that was given returns.
  abbrev pub Acts : (flags : List (Flag W F)) → Given flags → Type 0
  Acts [] given = Unit
  Acts (flag ∷ flags) (none, given) = Acts flags given
  Acts (flag ∷ flags) (some v, given) = Succeeds (flag.action v) × Acts flags given

  -- All actions return but the last, which returns on what it is given.
  pub Acts-last :
      (before : List (Flag W F)) (flag : Flag W F) (given : Given (before ++ flag ∷ []))
      → All (λ (b : Flag W F). (v : b.V) → Succeeds (b.action v)) before
      → ((v : flag.V) → last_given before flag given ≡ some v → Succeeds (flag.action v))
      → Acts (before ++ flag ∷ []) given
  Acts-last [] flag (none, given) all h = tt
  Acts-last [] flag (some v, given) all h = (h v refl, tt)
  Acts-last (b ∷ before) flag (none, given) (s, ss) h = Acts-last before flag given ss h
  Acts-last (b ∷ before) flag (some v, given) (s, ss) h = (s v, Acts-last before flag given ss h)

  pub Acts-All :
      (flags : List (Flag W F)) (given : Given flags)
      → All (λ (b : Flag W F). (v : b.V) → Succeeds (b.action v)) flags
      → Acts flags given
  Acts-All [] given all = tt
  Acts-All (b ∷ flags) (none, given) (s, ss) = Acts-All flags given ss
  Acts-All (b ∷ flags) (some v, given) (s, ss) = (s v, Acts-All flags given ss)

  run_actions-Succeeds :
      (flags : List (Flag W F)) (given : Given flags)
      → Acts flags given
      → Succeeds (run_actions flags given)
  unfolding run_actions
  run_actions-Succeeds [] given acts = Succeeds-pure tt
  run_actions-Succeeds (flag ∷ flags) (none, given) acts =
      Succeeds-bind _ _ (record { at = λ s. refl }) (λ _. run_actions-Succeeds flags given acts)
  run_actions-Succeeds (flag ∷ flags) (some v, given) (act, acts) =
      Succeeds-bind _ _ (record { at = λ s. act.at s }) (λ _. run_actions-Succeeds flags given acts)

  run_actions-Keeps :
      (P : W × F → Type 0) (flags : List (Flag W F)) (given : Given flags)
      → All (λ (b : Flag W F). (v : b.V) → Keeps P (b.action v)) flags
      → Keeps P (run_actions flags given)
  unfolding run_actions
  run_actions-Keeps P [] given all = Keeps-pure tt
  run_actions-Keeps P (flag ∷ flags) (none, given) (k, ks) =
      Keeps-bind _ _ (record { at = λ s h. h }) (λ _. run_actions-Keeps P flags given ks)
  run_actions-Keeps P (flag ∷ flags) (some v, given) (k, ks) =
      Keeps-bind _ _ (record { at = λ s h. (k v).at s h }) (λ _. run_actions-Keeps P flags given ks)

  -- If each action that is started returns, then the actions give flags of which what all of them
  -- keep still holds.
  pub with_actions-ok :
      (P : W × F → Type 0) (flags : List (Flag W F)) (given : Given flags) (f : F) (w : W)
      → All (λ (b : Flag W F). (v : b.V) → Keeps P (b.action v)) flags
      → Acts flags given
      → P (w, f)
      → (g : F) × (v : W) × (with_actions flags given f w ≡ (ok g, v)) × P (v, g)
  with_actions-ok P flags given f w keeps acts h =
      let ran = run_actions flags given (w, f) in
      (
        ran.1.1,
        ran.1.0,
        returned ran.0 ran.1.1 ran.1.0 ((run_actions-Succeeds flags given acts).at (w, f)),
        (run_actions-Keeps P flags given keeps).at (w, f) h,
      )
    where
      returned :
          (r : Result (Unit {0})) (g : F) (v : W)
          → is_ok r ≡ true
          → ◌≡◌ {A = Result F × W} (returning g r, v) (ok g, v)
      returned (ok a) g v e = refl
      returned (err x) g v e = absurd (false≢true e)

  run_action-Keeps :
      (P : W × F → Type 0) (b : Flag W F) (o : Option b.V)
      → ((v : b.V) → Keeps P (b.action v))
      → Keeps P (run_action b o)
  run_action-Keeps P b none k = record { at = λ s h. h }
  run_action-Keeps P b (some v) k = record { at = λ s h. (k v).at s h }

  run_action-some :
      (b : Flag W F) (o : Option b.V) {v : b.V} (s : W × F)
      → o ≡ some v
      → run_action b o s ≡ b.action v s
  run_action-some b o s e = ap (λ x. run_action b x s) e

  -- Where all actions returned, what the others keep held when that of the last flag was run, and
  -- nothing was done after it.
  run_actions-last :
      (P : W × F → Type 0) (before : List (Flag W F)) (flag : Flag W F)
      → (given : Given (before ++ flag ∷ [])) (v : flag.V) (s : W × F)
      → All (λ (b : Flag W F). (v : b.V) → Keeps P (b.action v)) before
      → last_given before flag given ≡ some v
      → P s
      → (run_actions (before ++ flag ∷ []) given s).0 ≡ ok tt
      → (t : W × F) × P t × (flag.action v t ≡ run_actions (before ++ flag ∷ []) given s)
  unfolding run_actions pure
  run_actions-last P [] flag (o, given) v s keeps e p h =
      let (_, first, _, same) = >>=-eq-ok (run_action flag o) _ s h in
      (
        s,
        p,
        sym (run_action-some flag o s e) ∙ ap (λ r. (r, (run_action flag o s).1)) first ∙ sym same,
      )
  run_actions-last P (b ∷ before) flag (o, given) v s (k, ks) e p h =
      let (_, _, rest, same) = >>=-eq-ok (run_action b o) _ s h in
      let (t, q, last) =
        run_actions-last P before flag given v (run_action b o s).1 ks e
          ((run_action-Keeps P b o k).at s p) rest in
      (t, q, last ∙ sym same)

  -- Flags that the actions made are those of the last action.
  pub with_actions-last :
      (P : W × F → Type 0) (before : List (Flag W F)) (flag : Flag W F)
      → (given : Given (before ++ flag ∷ [])) (v : flag.V) (f : F) (w : W) {g : F}
      → All (λ (b : Flag W F). (v : b.V) → Keeps P (b.action v)) before
      → last_given before flag given ≡ some v
      → P (w, f)
      → (with_actions (before ++ flag ∷ []) given f w).0 ≡ ok g
      → (t : W × F) × P t × ((flag.action v t).0 ≡ ok tt) × ((flag.action v t).1.1 ≡ g)
  with_actions-last P before flag given v f w keeps e p h =
      let ran = run_actions (before ++ flag ∷ []) given (w, f) in
      let (returned, made) = returning-eq-ok ran.1.1 ran.0 h in
      let (t, q, last) = run_actions-last P before flag given v (w, f) keeps e p returned in
      (t, q, ap (λ r. r.0) last ∙ returned, ap (λ r. r.1.1) last ∙ made)
