-- ===== src/Command/Webhook/Valid.antt =====
-- What the flags of the webhook command are after parsing.
use gardener_extension_shoot.Base.{
  String, true, none, List, [], ◌∷◌, ◌++◌, ◌≡◌, ◌⊎◌, inl, inr, refl,
}
use text.Mathlib.TextEquality.{eq_iff}
use gardener_extension_shoot.Base.Int.{ℤ, pos, is_positive}
use gardener_extension_shoot.Base.Lists.{contains}
use gardener_extension_shoot.Command.Cli.{Parsed, Parsed-settles}
use gardener_extension_shoot.Command.Constants.{Constants, HasLogger, one_of-accepts, accepted}
use gardener_extension_shoot.Command.Webhook.Flags.{
  Flags, WebhookFlag, webhook_flags, flags_before_level, flags_before_mode, flags_after_port,
  log_level_flag, log_format_flag, webhook_config_mode_flag, webhook_config_url_flag,
  webhook_config_service_port_flag, supported_modes, port_error,
}

port_holds :
    (val : ℤ) → (val ≡ pos 0) ⊎ (port_error val ≡ none) → (val ≡ pos 0) ⊎ (is_positive val ≡ true)
port_holds val (inl default) = inl default
port_holds val (inr none_wrong) = inr (accepted (is_positive val) _ none_wrong)

head_listed : (x : String) (xs : List String) → contains (x ∷ xs) x ≡ true
head_listed x xs = rw ((eq_iff x x).1 refl) refl

module _ {W : Type 0} (C : Constants W) (Cluster : Type 0) (defaults : HasLogger C)
    (f g : Flags C.Float Cluster) where
  -- What holds of the flags once they are parsed.
  pub record IsValid : Type 0 where
    pub level : contains C.all_log_levels g.zap_log_level ≡ true
    pub format : contains C.all_log_formats g.zap_log_format ≡ true
    pub mode : contains (supported_modes C) g.webhook_config_mode ≡ true
    pub url : (g.webhook_config_url ≡ "") ⊎ (C.url_error g.webhook_config_url ≡ none)
    pub port :
        (g.webhook_config_service_port ≡ pos 0) ⊎ (is_positive g.webhook_config_service_port ≡ true)

  abbrev after_mode : List (WebhookFlag C Cluster)
  after_mode =
      webhook_config_url_flag C Cluster
      ∷ webhook_config_service_port_flag C Cluster
      ∷ flags_after_port C Cluster

  abbrev after_logging : List (WebhookFlag C Cluster)
  after_logging = flags_before_mode C Cluster ++ webhook_config_mode_flag C Cluster ∷ after_mode

  abbrev before_mode : List (WebhookFlag C Cluster)
  before_mode =
      flags_before_level C Cluster
      ++ log_level_flag C Cluster ∷ log_format_flag C Cluster ∷ flags_before_mode C Cluster

  -- Of the flags of the webhook command that were parsed, the log level and format and the mode are
  -- supported ones, the URL is empty or parses, and the service port is zero, its default, or
  -- positive.
  pub Parsed-IsValid : Parsed (webhook_flags C Cluster) f g → IsValid
  unfolding webhook_flags
  Parsed-IsValid parsed = record {
    level =
        Parsed-settles (λ h. contains C.all_log_levels h.zap_log_level ≡ true)
          (flags_before_level C Cluster) (log_level_flag C Cluster)
          (log_format_flag C Cluster ∷ after_logging) f g
          (λ v h chosen. one_of-accepts C.all_log_levels _ C.info_level v defaults.level chosen)
          (search) parsed;
    format =
        Parsed-settles (λ h. contains C.all_log_formats h.zap_log_format ≡ true)
          (flags_before_level C Cluster ++ log_level_flag C Cluster ∷ [])
          (log_format_flag C Cluster) after_logging f g
          (λ v h chosen. one_of-accepts C.all_log_formats _ C.format_text v defaults.format chosen)
          (search) parsed;
    mode =
        Parsed-settles (λ h. contains (supported_modes C) h.webhook_config_mode ≡ true) before_mode
          (webhook_config_mode_flag C Cluster) after_mode f g
          (λ v h chosen.
            one_of-accepts (supported_modes C) _ C.mode_service v
              (head_listed C.mode_service (C.mode_url ∷ C.mode_url_with_service_name ∷ [])) chosen)
          (search) parsed;
    url =
        Parsed-settles
          (λ h. (h.webhook_config_url ≡ "") ⊎ (C.url_error h.webhook_config_url ≡ none))
          (before_mode ++ webhook_config_mode_flag C Cluster ∷ [])
          (webhook_config_url_flag C Cluster)
          (webhook_config_service_port_flag C Cluster ∷ flags_after_port C Cluster) f g
          (λ v h chosen. chosen) (search) parsed;
    port =
        Parsed-settles
          (λ h.
            (h.webhook_config_service_port ≡ pos 0)
            ⊎ (is_positive h.webhook_config_service_port ≡ true))
          (before_mode
            ++ webhook_config_mode_flag C Cluster ∷ webhook_config_url_flag C Cluster ∷ [])
          (webhook_config_service_port_flag C Cluster) (flags_after_port C Cluster) f g
          (λ v h chosen. port_holds v chosen) (search) parsed;
  }
