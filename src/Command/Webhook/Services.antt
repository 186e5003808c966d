-- ===== src/Command/Webhook/Services.antt =====
-- What the webhook command uses of other modules: their types, and their functions over a world.
use gardener_extension_shoot.Base.{String, Bool, Option, List, Result}
use gardener_extension_shoot.Base.Int.{ℤ}
use gardener_extension_shoot.Base.Assoc.{Map}
use gardener_extension_shoot.Base.Exec.{Exec}
use gardener_extension_shoot.Admission.Webhook.{Args, Admitted, ShootValidator}
use gardener_extension_shoot.Traefik.Install.{SchemeApi}
use gardener_extension_shoot.Manager.Host.{Types}
use gardener_extension_shoot.Command.Constants.{Constants}

-- `webhook.Options`, as far as the command sets them.
pub record WebhookOptions : Type 0 where
  pub host : String
  pub port : ℤ
  pub cert_dir : String
  pub cert_name : String
  pub key_name : String

-- `cluster.Options`: the fields that the command sets, and the rest. The keys of the cache's default
-- namespaces all have the empty configuration.
pub record ClusterOptions (Logger Rest : Type 0) : Type 0 where
  pub logger : Logger
  pub default_namespaces : List String
  pub rest : Rest

-- `ServerOptions` and `GeneralOptions` of Gardener's webhook utilities.
pub record ServerOptions : Type 0 where
  pub mode : String
  pub url : String
  pub service_port : ℤ
  pub namespace : String
  pub owner_namespace : String

pub record GeneralOptions : Type 0 where
  pub gardener_version : String
  pub self_hosted_shoot_cluster : Bool

-- The arguments of `NewAddToManagerOptions`; its switch options are empty.
pub record AddToManagerOptions : Type 0 where
  pub extension_name : String
  pub managed_resource_name : String
  pub namespace_selector : Map String
  pub general : GeneralOptions
  pub server : ServerOptions

pub record SwitchConfig (M Webhook : Type 0) : Type 0 where
  pub disabled : Bool
  pub webhooks_factory : M → Result (List Webhook)

-- `AddToManagerConfig`: its switch, and the rest.
pub record AddToManagerConfig (M Webhook Rest : Type 0) : Type 0 where
  pub switch : SwitchConfig M Webhook
  pub rest : Rest

-- What the command uses beside the manager's builder.
pub record Services (T : Types) (C : Constants T.World) : Type 1 where
  pub Cluster : Type 0
  pub ClusterRest : Type 0
  pub Webhook : Type 0
  pub ConfigRest : Type 0
  -- The context that the command runs in, and `healthz.Ping`
  pub context : T.Context
  pub ping : T.Checker
  -- `AddToScheme` of client-go, `Install` of Gardener's core, and what `configinstall.Install` uses of
  -- a scheme
  pub client_go_scheme : T.Scheme → Exec T.World (Unit {0})
  pub core_install : T.Scheme → Exec T.World (Unit {0})
  pub schemes : SchemeApi T.World T.Scheme
  pub connection : C.Float → ℤ → T.ConnectionConfig
  -- `webhook.NewServer`, and the check that the server has started
  pub new_server : WebhookOptions → T.Server
  pub started_checker : T.Server → T.Checker
  -- `cluster.New` and a cluster as a runnable; `NewCacheSyncHealthz` of the two caches
  pub new_cluster :
      T.RestConfig
      → (ClusterOptions C.Logger ClusterRest → ClusterOptions C.Logger ClusterRest)
      → Exec T.World Cluster
  pub runnable_of : Cluster → T.Runnable
  pub cluster_synced : Cluster → T.Checker
  pub manager_synced : T.CrManager → T.Checker
  -- `clientcmd.BuildConfigFromFlags`, which is given a master's address and a path
  pub build_config_from_flags : String → String → Exec T.World T.RestConfig
  -- `extensionswebhook.New` and what it is given of a manager
  pub admitted : Admitted T.CrManager
  pub new_webhook :
      T.CrManager → Args (ShootValidator admitted.Client admitted.Decoder) → Exec T.World Webhook
  -- `Complete` and then `Completed`; `AddToManager`, of which the first result is dropped
  pub complete :
      AddToManagerOptions → Exec T.World (AddToManagerConfig T.CrManager Webhook ConfigRest)
  pub add_to_manager :
      AddToManagerConfig T.CrManager Webhook ConfigRest
      → T.CrManager
      → Option Cluster
      → Exec T.World (Unit {0})
  -- `Start` of a manager
  pub start : T.CrManager → Exec T.World (Unit {0})
