-- ===== src/Command/Webhook/Assembled.antt =====
-- The managers that the webhook command builds.
use mathlib.Core.Path.{subst}
use gardener_extension_shoot.Base.{◌∷◌, some, [], ok, ◌≡◌, refl, sym, ◌∙◌, ok-injective}
use gardener_extension_shoot.Base.Exec.{pure, lift, wrapping}
use gardener_extension_shoot.Base.Exec.Inversion.{>>=-eq-ok, wrapping-eq-pair}
use gardener_extension_shoot.Manager.Host.{Types, Host}
use gardener_extension_shoot.Manager.Build.{new_manager}
use gardener_extension_shoot.Manager.Runs.{IsBuilt, new_manager-IsBuilt}
use gardener_extension_shoot.Command.Constants.{Constants}
use gardener_extension_shoot.Command.Webhook.Flags.{Flags}
use gardener_extension_shoot.Command.Webhook.Configured.{
  configured_manager, webhook_options_applied,
}
use gardener_extension_shoot.Command.Webhook.Services.{Services}
use gardener_extension_shoot.Command.Webhook.Run.{
  get_logger, cluster_option, manager_options, get_manager,
}

module _ (T : Types) (host : Host T) (C : Constants T.World) (S : Services T C)
    (f : Flags C.Float S.Cluster) where
  -- A manager of the garden cluster was built, with a cluster of the source cluster beside it.
  pub record IsAssembled (m : T.CrManager) (source_cluster : S.Cluster) (w v : T.World)
      : Type 0 where
    pub logger : C.Logger
    pub logged : C.must_new_zap_logger f.zap_log_level f.zap_log_format ≡ ok logger
    pub source : T.RestConfig
    pub after_source : T.World
    pub found : host.get_config w ≡ (ok source, after_source)
    pub after_cluster : T.World
    pub clustered :
        S.new_cluster source
          (λ opts. record opts {
            logger = logger;
            default_namespaces = f.webhook_config_namespace ∷ [];
          })
          after_source
        ≡ (ok source_cluster, after_cluster)
    pub target : T.RestConfig
    pub after_target : T.World
    pub targeted :
        S.build_config_from_flags "" f.garden_kubeconfig after_cluster ≡ (ok target, after_target)
    pub after_manager : T.World
    pub built :
        IsBuilt T host
          (manager_options T host C S f source source_cluster target)
          m
          after_target
          after_manager
    pub configured : built.manager ≡ configured_manager T host C S f source source_cluster target
    pub checked :
        host.add_readyz_check m "informer-sync" (S.manager_synced m) after_manager ≡ (ok tt, v)

  abbrev pub IsReturned : T.CrManager × Flags C.Float S.Cluster → T.World → T.World → Type 0
  IsReturned (m, g) w v =
      (source_cluster : S.Cluster) × (g ≡ record f { source_cluster = some source_cluster })
      × IsAssembled m source_cluster w v

  pub get_manager-IsReturned :
      (made : T.CrManager × Flags C.Float S.Cluster) (w : T.World)
      → (get_manager T host C S f w).0 ≡ ok made
      → IsReturned made w (get_manager T host C S f w).1
  unfolding get_manager lift pure
  get_manager-IsReturned made w h =
      let (logger, r₁, h₁, e₁) = >>=-eq-ok (lift (get_logger T host C S f)) _ w h in
      let find = wrapping "failed to load source cluster config: %w" [] host.get_config in
      let (source, r₂, h₂, e₂) = >>=-eq-ok find _ w h₁ in
      let create =
        wrapping "failed to create source cluster from config: %w" []
          (S.new_cluster source (cluster_option T host C S logger f)) in
      let w₂ = (find w).1 in
      let (source_cluster, r₃, h₃, e₃) = >>=-eq-ok create _ w₂ h₂ in
      let load =
        wrapping "failed to load garden cluster config: %w" []
          (S.build_config_from_flags "" f.garden_kubeconfig) in
      let w₃ = (create w₂).1 in
      let (target, r₄, h₄, e₄) = >>=-eq-ok load _ w₃ h₃ in
      let create_manager =
        new_manager T host (manager_options T host C S f source source_cluster target) in
      let w₄ = (load w₃).1 in
      let (m, r₅, h₅, e₅) = >>=-eq-ok create_manager _ w₄ h₄ in
      let built = new_manager-IsBuilt T host _ m w₄ r₅ in
      let check =
        wrapping "failed to setup ready check: %w" []
          (host.add_readyz_check m "informer-sync" (S.manager_synced m)) in
      let w₅ = (create_manager w₄).1 in
      let (_, r₆, h₆, e₆) = >>=-eq-ok check _ w₅ h₅ in
      subst (λ r. IsReturned made w r.1) (sym (e₁ ∙ e₂ ∙ e₃ ∙ e₄ ∙ e₅ ∙ e₆))
        (subst (λ x. IsReturned x w (check w₅).1) (ok-injective h₆)
          (
            source_cluster,
            refl,
            record {
              logger = logger;
              logged = r₁;
              source = source;
              after_source = w₂;
              found = wrapping-eq-pair _ _ _ w r₂;
              after_cluster = w₃;
              clustered = wrapping-eq-pair _ _ _ w₂ r₃;
              target = target;
              after_target = w₄;
              targeted = wrapping-eq-pair _ _ _ w₃ r₄;
              after_manager = w₅;
              built = built;
              configured = ok-injective (
                  sym built.applied
                  ∙ webhook_options_applied T host C S f source source_cluster target);
              checked = wrapping-eq-pair _ _ _ w₅ r₆;
            },
          ))
