-- ===== src/Manager/Server.antt =====
-- The two options of pkg/mgr/mgr.go that make a webhook server.
use gardener_extension_shoot.Base.{String, none, some, List, [], ◌∷◌, map, ok, ◌≡◌, refl}
use gardener_extension_shoot.Base.Int.{ℤ}
use gardener_extension_shoot.Base.Options.{apply_options}
use gardener_extension_shoot.Manager.Host.{Types, Host}
use gardener_extension_shoot.Manager.Options.{
  Manager, ManagerOption, with_webhook_port, with_webhook_cert_dir,
}

pub data ServerSetting : Type 0 where
  on_port : ℤ → ServerSetting
  in_cert_dir : String → ServerSetting

module _ (T : Types) (host : Host T) where
  abbrev pub option_of : ServerSetting → ManagerOption T
  option_of (on_port port) = with_webhook_port T host port
  option_of (in_cert_dir cert_dir) = with_webhook_cert_dir T host cert_dir

  abbrev pub server_of : ServerSetting → T.Server
  server_of (on_port port) = host.server_on_port port
  server_of (in_cert_dir cert_dir) = host.server_with_cert_dir cert_dir

  later_ignored :
      (later : List ServerSetting) (m : Manager T) (server : T.Server)
      → apply_options (map option_of later) (record m { webhook_server = some server })
        ≡ ok (record m { webhook_server = some server })
  unfolding apply_options with_webhook_port with_webhook_cert_dir
  later_ignored [] m server = refl
  later_ignored (on_port port ∷ later) m server = later_ignored later m server
  later_ignored (in_cert_dir cert_dir ∷ later) m server = later_ignored later m server

  -- Of several options that set the port or the directory of certificates of the webhook server, the
  -- first makes the server, if none is there before, and the others have no effect.
  pub first_server_setting :
      (first : ServerSetting) (later : List ServerSetting) (m : Manager T)
      → m.webhook_server ≡ none
      → apply_options (map option_of (first ∷ later)) m
        ≡ ok (record m { webhook_server = some (server_of first) })
  unfolding apply_options with_webhook_port with_webhook_cert_dir
  first_server_setting (on_port port) later m h =
      rw h (later_ignored later m (host.server_on_port port))
  first_server_setting (in_cert_dir cert_dir) later m h =
      rw h (later_ignored later m (host.server_with_cert_dir cert_dir))
