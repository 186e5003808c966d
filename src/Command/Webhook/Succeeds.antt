-- ===== src/Command/Webhook/Succeeds.antt =====
-- That the webhook command ends well where every call returns.
use gardener_extension_shoot.Base.{String, true, Option, List, ok, is_ok, ◌≡◌, refl}
use gardener_extension_shoot.Base.Exec.Inversion.{>>=-of-ok}
use mathlib.Core.Path.{subst, sym, ◌∙◌}
use gardener_extension_shoot.Base.Exec.Succeeds.{
  Succeeds, Succeeds-bind, Succeeds-lift, Succeeds-pure, Succeeds-wrapping, succeeds_rules,
}
use gardener_extension_shoot.Traefik.Installed.{Takes, config_install-Succeeds}
use gardener_extension_shoot.Admission.Webhook.{Args, ShootValidator}
use gardener_extension_shoot.Manager.Host.{Types, Host}
use gardener_extension_shoot.Manager.Build.{new_manager}
use gardener_extension_shoot.Manager.Answers.{Answers, new_manager-Succeeds}
use gardener_extension_shoot.Base.Lists.{All}
use gardener_extension_shoot.Base.Exec.Keeps.{Keeps}
use gardener_extension_shoot.Command.Cli.Given.{Given, store_given, IsAccepted}
use gardener_extension_shoot.Command.Cli.Actions.{
  Acts, Acts-All, with_actions-ok, quiet-Succeeds, quiet-Keeps,
}
use gardener_extension_shoot.Command.Constants.{Constants, HasLogger}
use gardener_extension_shoot.Command.Webhook.Flags.{
  Flags, zero_flags, webhook_flags, WebhookFlag, kubeconfig_flag,
}
use gardener_extension_shoot.Command.Webhook.Services.{
  ClusterOptions, AddToManagerOptions, AddToManagerConfig, Services,
}
use gardener_extension_shoot.Command.Webhook.Run.{
  get_logger, manager_options, get_manager, create_webhooks, webhook_funcs, run_webhook_server,
  webhook_command,
}
use gardener_extension_shoot.Command.Webhook.Configured.{
  configured_manager, webhook_options_applied,
}
use gardener_extension_shoot.Command.Webhook.Entry.{webhook_command-run_webhook_server}

-- What the command calls of libraries returns.
pub record Provides (T : Types) (C : Constants T.World) (S : Services T C) : Type 0 where
  pub env : (name value : String) → Succeeds (C.set_env name value)
  pub client_go : (s : T.Scheme) → Succeeds (S.client_go_scheme s)
  pub core : (s : T.Scheme) → Succeeds (S.core_install s)
  pub schemes : Takes S.schemes
  pub clusters :
      (c : T.RestConfig)
      (option : ClusterOptions C.Logger S.ClusterRest → ClusterOptions C.Logger S.ClusterRest)
      → Succeeds (S.new_cluster c option)
  pub configs : (address path : String) → Succeeds (S.build_config_from_flags address path)
  pub webhooks :
      (m : T.CrManager) (args : Args (ShootValidator S.admitted.Client S.admitted.Decoder))
      → Succeeds (S.new_webhook m args)
  pub completes : (o : AddToManagerOptions) → Succeeds (S.complete o)
  pub adds :
      (c : AddToManagerConfig T.CrManager S.Webhook S.ConfigRest) (m : T.CrManager)
      (source : Option S.Cluster)
      → Succeeds (S.add_to_manager c m source)
  pub starts : (m : T.CrManager) → Succeeds (S.start m)

module _ (T : Types) (host : Host T) (C : Constants T.World) (S : Services T C)
    (answers : Answers T host) (provides : Provides T C S) where
  create_webhooks-Succeeds :
      (m : T.CrManager) (webhooks : List S.Webhook)
      → Succeeds (create_webhooks m (webhook_funcs T host C S) webhooks)
  unfolding create_webhooks
  create_webhooks-Succeeds m webhooks = search (succeeds_rules, provides.webhooks) depth 12

  built :
      (f : Flags C.Float S.Cluster) (source : T.RestConfig) (cluster : S.Cluster)
      (target : T.RestConfig)
      → Succeeds (new_manager T host (manager_options T host C S f source cluster target))
  built f source cluster target =
      new_manager-Succeeds T host answers _ (configured_manager T host C S f source cluster target)
        (webhook_options_applied T host C S f source cluster target)
        (record {
          adds = (provides.client_go _, tt);
          installs = (provides.core _, (config_install-Succeeds S.schemes provides.schemes _, tt));
        })

  get_manager-Succeeds :
      (f : Flags C.Float S.Cluster) (logger : C.Logger)
      → get_logger T host C S f ≡ ok logger
      → Succeeds (get_manager T host C S f)
  unfolding get_manager
  get_manager-Succeeds f logger made = Succeeds-bind _ _ (Succeeds-lift _ logged) (λ l.
      Succeeds-bind _ _ (Succeeds-wrapping _ _ _ answers.config) (λ source.
        Succeeds-bind _ _ (Succeeds-wrapping _ _ _ (provides.clusters source _)) (λ cluster.
          Succeeds-bind _ _ (Succeeds-wrapping _ _ _ (provides.configs "" _)) (λ target.
            Succeeds-bind _ _ (built f source cluster target) (λ m.
              Succeeds-bind _ _ (Succeeds-wrapping _ _ _ (answers.readyz m _ _))
                (λ _. Succeeds-pure _))))))
    where
      logged : is_ok (get_logger T host C S f) ≡ true
      logged = rw made refl

  run_webhook_server-Succeeds :
      (f : Flags C.Float S.Cluster) (logger : C.Logger)
      → get_logger T host C S f ≡ ok logger
      → Succeeds (run_webhook_server T host C S true f)
  unfolding run_webhook_server
  run_webhook_server-Succeeds f logger made =
      Succeeds-bind _ _ (get_manager-Succeeds f logger made) (λ (m, g).
        search
          (
            succeeds_rules, create_webhooks-Succeeds, provides.completes, provides.adds,
            provides.starts,
          )
          depth 16)

-- The flags say how a logger is made.
abbrev IsLogging :
    {W Cluster : Type 0} (C : Constants W) → C.Logger → Flags C.Float Cluster → Type 0
IsLogging C logger f = C.must_new_zap_logger f.zap_log_level f.zap_log_format ≡ ok logger

module _ (T : Types) (C : Constants T.World) (S : Services T C) (provides : Provides T C S) where
  kubeconfig-Succeeds : (val : String) → Succeeds ((kubeconfig_flag C S.Cluster).action val)
  kubeconfig-Succeeds val = record { at = λ s. (provides.env C.config_path_env val).at s.0 }

  actions-Acts :
      (given : Given (webhook_flags C S.Cluster)) → Acts (webhook_flags C S.Cluster) given
  unfolding webhook_flags
  actions-Acts given =
      Acts-All (webhook_flags C S.Cluster) given
        (search (quiet-Succeeds, kubeconfig-Succeeds) depth 60)

actions-Keeps :
    {W : Type 0} (C : Constants W) (Cluster : Type 0) (logger : C.Logger)
    → All
        (λ (b : WebhookFlag C Cluster).
          (v : b.V)
          → Keeps (λ (s : W × Flags C.Float Cluster). IsLogging C logger s.1) (b.action v))
        (webhook_flags C Cluster)
unfolding webhook_flags
actions-Keeps C Cluster logger = search quiet-Keeps depth 60

-- If the command line of the webhook command is accepted, a logger can be made of every known level
-- and format, and every call of a library returns, then the command, with the actions of the flags
-- that are given, returns without an error.
pub webhook_command_succeeds :
    (T : Types) (host : Host T) (C : Constants T.World) (S : Services T C)
    → HasLogger C
    → Answers T host
    → Provides T C S
    → (given : Given (webhook_flags C S.Cluster)) (w : T.World)
    → IsAccepted (webhook_flags C S.Cluster) given
    → is_ok (webhook_command T host C S given w).0 ≡ true
webhook_command_succeeds T host C S logger answers provides given w accepted =
    let (l, made, same) = webhook_command-run_webhook_server T host C S logger given w accepted in
    let (f, v, ran, logging) =
      with_actions-ok (λ (s : T.World × Flags C.Float S.Cluster). IsLogging C l s.1)
        (webhook_flags C S.Cluster) given
        (store_given (webhook_flags C S.Cluster) given (zero_flags C S.Cluster)) (C.set_logger l w)
        (actions-Keeps C S.Cluster l) (actions-Acts T C S provides given) made in
    subst (λ r. is_ok r.0 ≡ true)
      (sym (same ∙ >>=-of-ok _ (run_webhook_server T host C S true) _ ran))
      ((run_webhook_server-Succeeds T host C S answers provides f l logging).at v)
