-- ===== src/Command/Manager/Entry.antt =====
-- The manager command from its command line on.
use gardener_extension_shoot.Base.{true, ok, ◌≡◌, refl}
use gardener_extension_shoot.Base.Exec.{◌>>=◌}
use gardener_extension_shoot.Manager.Host.{Types, Host}
use gardener_extension_shoot.Command.Cli.Given.{Given, store_given, IsAccepted, with_actions}
use gardener_extension_shoot.Command.Cli.Actions.{store_given-Parsed}
use gardener_extension_shoot.Command.Constants.{Constants, HasLogger, before-ok}
use gardener_extension_shoot.Command.Manager.Flags.{zero_flags, manager_flags}
use gardener_extension_shoot.Command.Manager.Valid.{logging_known}
use gardener_extension_shoot.Command.Manager.Run.{Services, run_manager, manager_command}

-- With a command line that is accepted, the manager command makes a logger of the flags, which does
-- not panic, sets it, runs the actions of the flags, and then runs on these flags, not on zero ones.
pub manager_command-run_manager :
    (T : Types) (host : Host T) (C : Constants T.World) (S : Services T C)
    → HasLogger C
    → (given : Given (manager_flags C)) (w : T.World) → IsAccepted (manager_flags C) given
    → (logger : C.Logger) × (C.must_new_zap_logger
          (store_given (manager_flags C) given (zero_flags C)).zap_log_level
          (store_given (manager_flags C) given (zero_flags C)).zap_log_format
        ≡ ok logger)
      × (manager_command T host C S given w
          ≡ (with_actions
                  (manager_flags C)
                  given
                  (store_given (manager_flags C) given (zero_flags C))
                >>= run_manager T host C S true)
              (C.set_logger logger w))
unfolding manager_command ◌>>=◌
manager_command-run_manager T host C S defaults given w h =
    let f = store_given (manager_flags C) given (zero_flags C) in
    let parsed =
      logging_known C defaults (zero_flags C) f
        (store_given-Parsed (manager_flags C) given (zero_flags C) h) in
    let (logger, made, same) =
      before-ok C defaults f.zap_log_level f.zap_log_format w parsed.0 parsed.1 in
    (logger, made, rw same refl)
