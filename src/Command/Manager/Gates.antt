-- ===== src/Command/Manager/Gates.antt =====
-- What the feature-gate flag of the manager command does to a run, from the command line on.
use gardener_extension_shoot.Base.{
  String, Bool, true, Option, none, some, [], ok, is_ok, ◌≡◌, refl, sym, ap, ◌∙◌,
}
use gardener_extension_shoot.Base.Assoc.{Map, lookup, or_else}
use gardener_extension_shoot.Base.Lists.{All, all}
use gardener_extension_shoot.Base.Exec.Inversion.{>>=-eq-ok}
use gardener_extension_shoot.Base.Exec.Keeps.{Keeps}
use gardener_extension_shoot.Manager.Host.{Types, Host}
use gardener_extension_shoot.Command.Features.{is_word, asked, set_gates-is_ok, set_gates-asked}
use gardener_extension_shoot.Command.Cli.Given.{Given, store_given, with_actions}
use gardener_extension_shoot.Command.Cli.Actions.{quiet-Keeps, with_actions-last}
use gardener_extension_shoot.Command.Constants.{Constants, before, before-true}
use gardener_extension_shoot.Command.Manager.Flags.{
  Flags, zero_flags, manager_flags, ManagerFlag, feature_gate_flag, flags_but_gates,
}
use gardener_extension_shoot.Command.Manager.Run.{Services, run_manager, manager_command}
use gardener_extension_shoot.Command.Manager.Succeeds.{gate_items}

abbrev NoGates : {W Float : Type 0} → W × Flags Float → Type 0
NoGates s = s.1.gardenlet_feature_gates ≡ []

actions-NoGates :
    {W : Type 0} (C : Constants W)
    → All (λ (b : ManagerFlag C). (v : b.V) → Keeps NoGates (b.action v)) (flags_but_gates C)
actions-NoGates C = search quiet-Keeps depth 40

stored-NoGates :
    {W : Type 0} (C : Constants W) (given : Given (manager_flags C))
    → (store_given (manager_flags C) given (zero_flags C)).gardenlet_feature_gates ≡ []
unfolding manager_flags
stored-NoGates C given = refl

or_else-none : (o : Option Bool) → or_else o none ≡ o
or_else-none none = refl
or_else-none (some b) = refl

-- If the manager command returns without an error and feature gates were given, then each item has a
-- word for true or false, and the command ran the manager on flags in which each feature has the
-- value of its last item, and no other feature has one.
pub manager_command-asked :
    (T : Types) (host : Host T) (C : Constants T.World) (S : Services T C)
    (given : Given (manager_flags C)) (items : Map String) (w : T.World)
    → gate_items C given ≡ some items
    → (manager_command T host C S given w).0 ≡ ok tt
    → (all (λ (item : String × String). is_word item.1) items ≡ true)
      × ((f : Flags C.Float) × (v : T.World) × ((feature : String)
            → lookup feature f.gardenlet_feature_gates ≡ asked items feature)
          × (manager_command T host C S given w ≡ run_manager T host C S true f v))
unfolding manager_command manager_flags gate_items lookup
manager_command-asked T host C S given items w e h =
    let f = store_given (manager_flags C) given (zero_flags C) in
    let first = before C f.zap_log_level f.zap_log_format in
    let acts = with_actions (manager_flags C) given f in
    let (stored, b, h₁, same₁) = >>=-eq-ok first _ w h in
    let (g, made, h₂, same₂) = >>=-eq-ok acts (run_manager T host C S stored) (first w).1 h₁ in
    let ((v, t), none_yet, returned, same) =
      with_actions-last NoGates (flags_but_gates C) (feature_gate_flag C) given items f (first w).1
        (actions-NoGates C) e (stored-NoGates C given) made in
    (
      sym (set_gates-is_ok items t.gardenlet_feature_gates) ∙ ap is_ok returned,
      (
        g,
        (acts (first w).1).1,
        λ feature.
            ap (λ x. lookup feature x.gardenlet_feature_gates) (sym same)
            ∙ set_gates-asked items t.gardenlet_feature_gates feature returned
            ∙ ap (λ x. or_else (asked items feature) (lookup feature x)) none_yet
            ∙ or_else-none (asked items feature),
        same₁
            ∙ same₂
            ∙ ap (λ b. run_manager T host C S b g (acts (first w).1).1)
                (before-true C f.zap_log_level f.zap_log_format w b),
      ),
    )
