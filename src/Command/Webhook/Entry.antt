-- ===== src/Command/Webhook/Entry.antt =====
-- The webhook command from its command line on.
use gardener_extension_shoot.Base.{true, ok, ◌≡◌, refl}
use gardener_extension_shoot.Base.Exec.{◌>>=◌}
use gardener_extension_shoot.Manager.Host.{Types, Host}
use gardener_extension_shoot.Command.Cli.Given.{Given, store_given, IsAccepted, with_actions}
use gardener_extension_shoot.Command.Cli.Actions.{store_given-Parsed}
use gardener_extension_shoot.Command.Constants.{Constants, HasLogger, before-ok}
use gardener_extension_shoot.Command.Webhook.Flags.{zero_flags, webhook_flags}
use gardener_extension_shoot.Command.Webhook.Valid.{Parsed-IsValid}
use gardener_extension_shoot.Command.Webhook.Services.{Services}
use gardener_extension_shoot.Command.Webhook.Run.{run_webhook_server, webhook_command}

-- With a command line that is accepted, the webhook command makes a logger of the flags, which does
-- not panic, sets it, runs the actions of the flags, and then runs on these flags, not on zero ones.
pub webhook_command-run_webhook_server :
    (T : Types) (host : Host T) (C : Constants T.World) (S : Services T C)
    → HasLogger C
    → (given : Given (webhook_flags C S.Cluster)) (w : T.World)
    → IsAccepted (webhook_flags C S.Cluster) given
    → (logger : C.Logger) × (C.must_new_zap_logger
          (store_given (webhook_flags C S.Cluster) given (zero_flags C S.Cluster)).zap_log_level
          (store_given (webhook_flags C S.Cluster) given (zero_flags C S.Cluster)).zap_log_format
        ≡ ok logger)
      × (webhook_command T host C S given w
          ≡ (with_actions
                  (webhook_flags C S.Cluster)
                  given
                  (store_given (webhook_flags C S.Cluster) given (zero_flags C S.Cluster))
                >>= run_webhook_server T host C S true)
              (C.set_logger logger w))
unfolding webhook_command ◌>>=◌
webhook_command-run_webhook_server T host C S defaults given w h =
    let f = store_given (webhook_flags C S.Cluster) given (zero_flags C S.Cluster) in
    let parsed =
      Parsed-IsValid C S.Cluster defaults (zero_flags C S.Cluster) f
        (store_given-Parsed (webhook_flags C S.Cluster) given (zero_flags C S.Cluster) h) in
    let (logger, made, same) =
      before-ok C defaults f.zap_log_level f.zap_log_format w parsed.level parsed.format in
    (logger, made, rw same refl)
