-- ===== src/Command/Manager/Succeeds.antt =====
-- That the manager command ends well where every call returns.
use gardener_extension_shoot.Base.{true, false, is_ok, ◌==◌, ◌≡◌, refl}
use gardener_extension_shoot.Base.Exec.Inversion.{>>=-of-ok}
use mathlib.Core.Path.{subst, sym, ◌∙◌}
use gardener_extension_shoot.Base.Exec.Succeeds.{Succeeds, Succeeds-bind, succeeds_rules}
use gardener_extension_shoot.Base.Options.{apply_options}
use gardener_extension_shoot.Traefik.Installed.{Takes, config_install-Succeeds}
use gardener_extension_shoot.Heartbeat.{
  AddArgs, new_heartbeat, with_extension_name, with_lease_namespace, with_renew_interval,
  setup_heartbeat,
}
use gardener_extension_shoot.Controller.{Controller}
use gardener_extension_shoot.Manager.Host.{Types, Host}
use gardener_extension_shoot.Manager.Answers.{Answers, new_manager-Succeeds}
use gardener_extension_shoot.Base.{String, Option, some}
use gardener_extension_shoot.Base.Assoc.{Map}
use gardener_extension_shoot.Base.Lists.{All, all}
use gardener_extension_shoot.Base.Exec.Keeps.{Keeps}
use gardener_extension_shoot.Command.Features.{is_word, set_gates-is_ok}
use gardener_extension_shoot.Command.Cli.Given.{Given, store_given, IsAccepted, last_given}
use gardener_extension_shoot.Command.Cli.Actions.{
  Acts, Acts-last, with_actions-ok, quiet-Succeeds, quiet-Keeps,
}
use gardener_extension_shoot.Command.Constants.{Constants, HasLogger}
use gardener_extension_shoot.Command.Manager.Flags.{
  Flags, zero_flags, manager_flags, ManagerFlag, kubeconfig_flag, feature_gate_flag,
  flags_but_gates,
}
use gardener_extension_shoot.Command.Manager.Run.{
  Services, kinds_of, heartbeat_of, get_manager, run_manager, manager_command,
}
use gardener_extension_shoot.Command.Manager.Configured.{
  configured_manager, manager_options_applied,
}
use gardener_extension_shoot.Command.Manager.Built.{control, run_manager-control}
use gardener_extension_shoot.Command.Manager.Entry.{manager_command-run_manager}

-- What the command calls of libraries returns, and managers have a client.
pub record Provides (T : Types) (C : Constants T.World) (S : Services T C) : Type 0 where
  pub env : (name value : String) → Succeeds (C.set_env name value)
  pub client : (m : T.CrManager) → S.has_client m ≡ true
  pub client_go : (s : T.Scheme) → Succeeds (S.client_go_scheme s)
  pub extensions : (s : T.Scheme) → Succeeds (S.extensions_scheme s)
  pub resources : (s : T.Scheme) → Succeeds (S.resources_scheme s)
  pub core : (s : T.Scheme) → Succeeds (S.core_scheme s)
  pub schemes : Takes S.schemes
  pub heartbeat : (m : T.CrManager) (args : AddArgs S.Clock) → Succeeds (S.add_heartbeat m args)
  pub controller : (m : T.CrManager) (c : Controller (kinds_of S)) → Succeeds (S.add_controller m c)
  pub starts : (m : T.CrManager) → Succeeds (S.start m)

module _ (T : Types) (host : Host T) (C : Constants T.World) (S : Services T C)
    (answers : Answers T host) (provides : Provides T C S) (f : Flags C.Float)
    (extension_named : (f.extension_name == "") ≡ false)
    (namespace_named : (f.heartbeat_namespace == "") ≡ false) where
  heartbeat_of-ok : is_ok (heartbeat_of T host C S f) ≡ true
  unfolding new_heartbeat with_extension_name with_lease_namespace with_renew_interval apply_options
  heartbeat_of-ok = rw (extension_named, namespace_named) refl

  get_manager-Succeeds : Succeeds (get_manager T host C S f)
  unfolding get_manager setup_heartbeat
  get_manager-Succeeds =
      Succeeds-bind _ _
        (new_manager-Succeeds T host answers _ (configured_manager T host C S f)
          (manager_options_applied T host C S f)
          (record {
            adds = (
              provides.client_go _,
              (provides.extensions _, (provides.resources _, (provides.core _, tt))),
            );
            installs = (config_install-Succeeds S.schemes provides.schemes _, tt);
          }))
        (λ m. search (succeeds_rules, heartbeat_of-ok, provides.heartbeat) depth 12)

  control-Succeeds : (m : T.CrManager) → Succeeds (control T host C S f m)
  control-Succeeds m = search (succeeds_rules, provides.controller, provides.starts) depth 12

  run_manager-Succeeds : (w : T.World) → is_ok (run_manager T host C S true f w).0 ≡ true
  run_manager-Succeeds w =
      rw (run_manager-control T host C S provides.client f w)
        ((Succeeds-bind _ _ get_manager-Succeeds control-Succeeds).at w)

-- The items that are given to the flag of the feature gates.
unfoldable pub gate_items :
    {W : Type 0} (C : Constants W) → Given (manager_flags C) → Option (Map String)
unfolding manager_flags
gate_items C given = last_given (flags_but_gates C) (feature_gate_flag C) given

-- The flags have a name for the extension and a namespace for the heartbeat.
abbrev pub IsNamed : {Float : Type 0} → Flags Float → Type 0
IsNamed f = ((f.extension_name == "") ≡ false) × ((f.heartbeat_namespace == "") ≡ false)

module _ (T : Types) (C : Constants T.World) (S : Services T C) (provides : Provides T C S) where
  kubeconfig-Succeeds : (val : String) → Succeeds ((kubeconfig_flag C).action val)
  kubeconfig-Succeeds val = record { at = λ s. (provides.env C.config_path_env val).at s.0 }

  gates-Succeeds :
      (items : Map String)
      → all (λ (item : String × String). is_word item.1) items ≡ true
      → Succeeds ((feature_gate_flag C).action items)
  gates-Succeeds items words = record {
    at = λ s. set_gates-is_ok items (s.1.gardenlet_feature_gates) ∙ words;
  }

  actions-Acts :
      (given : Given (manager_flags C))
      → ((items : Map String)
          → gate_items C given ≡ some items
          → all (λ (item : String × String). is_word item.1) items ≡ true)
      → Acts (manager_flags C) given
  unfolding manager_flags gate_items
  actions-Acts given words =
      Acts-last (flags_but_gates C) (feature_gate_flag C) given
        (search (quiet-Succeeds, kubeconfig-Succeeds) depth 40)
        (λ items e. gates-Succeeds items (words items e))

actions-Keeps :
    {W : Type 0} (C : Constants W)
    → All
        (λ (b : ManagerFlag C).
          (v : b.V) → Keeps (λ (s : W × Flags C.Float). IsNamed s.1) (b.action v))
        (manager_flags C)
unfolding manager_flags
actions-Keeps C = search quiet-Keeps depth 40

-- If the command line of the manager command is accepted, names the extension and the heartbeat's
-- namespace, and gives only words for true or false to feature gates, a logger can be made of every
-- known level and format, managers have a client, and every call of a library returns, then the
-- command, with the actions of the flags that are given, returns without an error.
pub manager_command_succeeds :
    (T : Types) (host : Host T) (C : Constants T.World) (S : Services T C)
    → HasLogger C
    → Answers T host
    → Provides T C S
    → (given : Given (manager_flags C)) (w : T.World) → IsAccepted (manager_flags C) given
    → IsNamed (store_given (manager_flags C) given (zero_flags C))
    → ((items : Map String)
        → gate_items C given ≡ some items
        → all (λ (item : String × String). is_word item.1) items ≡ true)
    → is_ok (manager_command T host C S given w).0 ≡ true
manager_command_succeeds T host C S logger answers provides given w accepted is_named words =
    let (l, _, same) = manager_command-run_manager T host C S logger given w accepted in
    let (f, v, ran, (named, placed)) =
      with_actions-ok (λ (s : T.World × Flags C.Float). IsNamed s.1) (manager_flags C) given
        (store_given (manager_flags C) given (zero_flags C)) (C.set_logger l w) (actions-Keeps C)
        (actions-Acts T C S provides given words) is_named in
    subst (λ r. is_ok r.0 ≡ true) (sym (same ∙ >>=-of-ok _ (run_manager T host C S true) _ ran))
      (run_manager-Succeeds T host C S answers provides f named placed v)
