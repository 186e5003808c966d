-- ===== src/Command/Webhook/Serving.antt =====
-- The runs of the webhook command that end well.
use mathlib.Core.Path.{subst}
use gardener_extension_shoot.Base.{
  true, false, Option, some, List, [], ◌∷◌, ok, ◌≡◌, sym, ap, ◌∙◌, ok-injective,
}
use gardener_extension_shoot.Base.Exec.{Exec, pure, wrapping}
use gardener_extension_shoot.Base.Exec.Inversion.{>>=-eq-ok, wrapping-eq-pair}
use gardener_extension_shoot.Admission.Webhook.{new_shoot_validator_webhook}
use gardener_extension_shoot.Manager.Host.{Types, Host}
use gardener_extension_shoot.Command.Constants.{Constants}
use gardener_extension_shoot.Command.Webhook.Flags.{Flags}
use gardener_extension_shoot.Command.Webhook.Assembled.{IsAssembled, get_manager-IsReturned}
use gardener_extension_shoot.Command.Webhook.Services.{AddToManagerConfig, Services}
use gardener_extension_shoot.Command.Webhook.Run.{
  get_manager, get_extension_webhook_opts, switch_of, create_webhooks, webhook_funcs,
  run_webhook_server,
}

module _ (T : Types) (host : Host T) (C : Constants T.World) (S : Services T C)
    (f : Flags C.Float S.Cluster) where
  -- Such a manager was built, the webhook of the shoot validator made and added, and it was started.
  pub record IsServing (w v : T.World) : Type 0 where
    pub manager : T.CrManager
    pub source_cluster : S.Cluster
    pub after_assembly : T.World
    pub assembled : IsAssembled T host C S f manager source_cluster w after_assembly
    pub webhook : S.Webhook
    pub after_webhook : T.World
    pub created :
        S.new_webhook manager
          (record {
            provider = "shoot-traefik";
            name = "shoot-validator";
            path = "/webhooks/validate-shoot-traefik";
            target = S.admitted.target_seed;
            validators =
                (
                  record {
                    client = S.admitted.client_of manager;
                    decoder = S.admitted.strict_decoder_of manager;
                  },
                  "*v1beta1.Shoot" ∷ [],
                )
                ∷ [];
          })
          after_assembly
        ≡ (ok webhook, after_webhook)
    pub config : AddToManagerConfig T.CrManager S.Webhook S.ConfigRest
    pub after_completion : T.World
    pub completed :
        S.complete
          (record {
            extension_name = f.extension_name;
            managed_resource_name = "";
            namespace_selector = [];
            general = record {
              gardener_version = f.gardener_version;
              self_hosted_shoot_cluster = f.self_hosted_shoot_cluster;
            };
            server = record {
              mode = f.webhook_config_mode;
              url = f.webhook_config_url;
              service_port = f.webhook_config_service_port;
              namespace = f.webhook_config_namespace;
              owner_namespace = f.webhook_config_owner_namespace;
            };
          })
          after_webhook
        ≡ (ok config, after_completion)
    pub after_addition : T.World
    pub added :
        S.add_to_manager
          (record config {
            switch = record { disabled = false; webhooks_factory = λ m. ok (webhook ∷ []) };
          })
          manager
          (some source_cluster)
          after_completion
        ≡ (ok tt, after_addition)
    pub started : S.start manager after_addition ≡ (ok tt, v)

  -- One function makes one webhook.
  create_webhooks-eq-ok :
      (m : T.CrManager) (func : T.CrManager → Exec T.World S.Webhook) (webhooks : List S.Webhook)
      (w : T.World)
      → (create_webhooks m (func ∷ []) [] w).0 ≡ ok webhooks
      → (webhook : S.Webhook) × (webhooks ≡ webhook ∷ [])
        × (func m w ≡ (ok webhook, (create_webhooks m (func ∷ []) [] w).1))
  unfolding create_webhooks pure
  create_webhooks-eq-ok m func webhooks w h =
      let make = wrapping "failed to create admission webhook: %w" [] (func m) in
      let (webhook, r, h₁, e) = >>=-eq-ok make _ w h in
      (
        webhook,
        sym (ok-injective h₁),
        wrapping-eq-pair _ _ _ w r ∙ ap (λ x. (ok webhook, x)) (sym (ap (λ p. p.1) e)),
      )

  added_with :
      (m : T.CrManager) (config : AddToManagerConfig T.CrManager S.Webhook S.ConfigRest)
      (w v : T.World) {xs ys : List S.Webhook} {c d : Option S.Cluster}
      → xs ≡ ys
      → c ≡ d
      → S.add_to_manager (record config { switch = switch_of T host C S xs }) m c w ≡ (ok tt, v)
      → S.add_to_manager (record config { switch = switch_of T host C S ys }) m d w ≡ (ok tt, v)
  added_with m config w v p q h = rw (sym p) (rw (sym q) h)

  run-IsServing :
      (w : T.World)
      → (run_webhook_server T host C S true f w).0 ≡ ok tt
      → IsServing w (run_webhook_server T host C S true f w).1
  unfolding run_webhook_server
  run-IsServing w h =
      let get = get_manager T host C S f in
      let ((m, g), r₁, h₁, e₁) = >>=-eq-ok get _ w h in
      let w₁ = (get w).1 in
      let (source_cluster, same, assembled) = get_manager-IsReturned T host C S f (m, g) w r₁ in
      let make = create_webhooks m (webhook_funcs T host C S) [] in
      let (webhooks, r₂, h₂, e₂) = >>=-eq-ok make _ w₁ h₁ in
      let w₂ = (make w₁).1 in
      let (webhook, one, created) =
        create_webhooks-eq-ok m (new_shoot_validator_webhook S.admitted S.new_webhook) webhooks w₁
          r₂ in
      let complete = S.complete (get_extension_webhook_opts T host C S g) in
      let (config, r₃, h₃, e₃) = >>=-eq-ok complete _ w₂ h₂ in
      let w₃ = (complete w₂).1 in
      let add = wrapping "failed to setup extension webhook with manager: %w" [] (
        S.add_to_manager (record config { switch = switch_of T host C S webhooks }) m
          g.source_cluster) in
      let (_, r₄, h₄, e₄) = >>=-eq-ok add _ w₃ h₃ in
      let w₄ = (add w₃).1 in
      subst (λ r. IsServing w r.1) (sym (e₁ ∙ e₂ ∙ e₃ ∙ e₄))
        (record {
          manager = m;
          source_cluster = source_cluster;
          after_assembly = w₁;
          assembled = assembled;
          webhook = webhook;
          after_webhook = w₂;
          created = created;
          config = config;
          after_completion = w₃;
          completed =
              subst (λ x. S.complete (get_extension_webhook_opts T host C S x) w₂ ≡ (ok config, w₃))
                same (ap (λ r. (r, w₃)) r₃);
          after_addition = w₄;
          added =
              added_with m config w₃ w₄ one
                (ap (λ (x : Flags C.Float S.Cluster). x.source_cluster) same)
                (wrapping-eq-pair _ _ _ w₃ r₄);
          started = ap (λ r. (r, (S.start m w₄).1)) h₄;
        })

-- If the webhook command returns without an error, then it has made a source cluster of the
-- leader-election configuration and a manager of the garden cluster's configuration, has made one
-- webhook, that of the shoot validator, has added it with the source cluster, and has started the
-- manager, in this order and with no call that failed.
pub run_webhook_server-IsServing :
    (T : Types) (host : Host T) (C : Constants T.World) (S : Services T C)
    (f : Flags C.Float S.Cluster) (w : T.World)
    → (run_webhook_server T host C S true f w).0 ≡ ok tt
    → IsServing T host C S f w (run_webhook_server T host C S true f w).1
run_webhook_server-IsServing T host C S f w h = run-IsServing T host C S f w h
