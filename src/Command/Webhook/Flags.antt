-- ===== src/Command/Webhook/Flags.antt =====
-- The flags of the webhook command: the structure that keeps them, and their table.
use gardener_extension_shoot.Base.{
  String, Bool, true, false, Option, none, some, List, [], ◌∷◌, ◌++◌, Error, new_error,
  if◌then◌else◌,
}
use gardener_extension_shoot.Base.Int.{ℤ, pos, negsuc, is_positive}
use gardener_extension_shoot.Base.Exec.{Exec}
use gardener_extension_shoot.Command.Cli.{
  Flag, flag_of, string_kind, bool_kind, int_kind, int32_kind, float32_kind,
}
use gardener_extension_shoot.Command.Constants.{Constants, one_of}

-- `Cluster` is the type of the source cluster, which no flag stores.
pub record Flags (Float Cluster : Type 0) : Type 0 where
  pub extension_name : String
  pub metrics_bind_addr : String
  pub health_probe_bind_addr : String
  pub leader_election : Bool
  pub leader_election_id : String
  pub leader_election_namespace : String
  pub kubeconfig : String
  pub garden_kubeconfig : String
  pub zap_log_level : String
  pub zap_log_format : String
  pub pprof_bind_addr : String
  pub client_conn_qps : Float
  pub client_conn_burst : ℤ
  pub webhook_server_host : String
  pub webhook_server_port : ℤ
  pub webhook_server_cert_dir : String
  pub webhook_server_cert_name : String
  pub webhook_server_key_name : String
  pub webhook_config_namespace : String
  pub webhook_config_mode : String
  pub webhook_config_url : String
  pub webhook_config_service_port : ℤ
  pub webhook_config_owner_namespace : String
  pub gardener_version : String
  pub self_hosted_shoot_cluster : Bool
  pub source_cluster : Option Cluster

abbrev pub supported_modes : {W : Type 0} → Constants W → List String
supported_modes C = C.mode_service ∷ C.mode_url ∷ C.mode_url_with_service_name ∷ []

abbrev pub port_error : ℤ → Option Error
port_error val = if is_positive val then none else some (new_error "port cannot be negative")

module _ {W : Type 0} (C : Constants W) (Cluster : Type 0) where
  -- `flags{}`
  abbrev pub zero_flags : Flags C.Float Cluster
  zero_flags = record {
    extension_name = "";
    metrics_bind_addr = "";
    health_probe_bind_addr = "";
    leader_election = false;
    leader_election_id = "";
    leader_election_namespace = "";
    kubeconfig = "";
    garden_kubeconfig = "";
    zap_log_level = "";
    zap_log_format = "";
    pprof_bind_addr = "";
    client_conn_qps = C.float (pos 0);
    client_conn_burst = pos 0;
    webhook_server_host = "";
    webhook_server_port = pos 0;
    webhook_server_cert_dir = "";
    webhook_server_cert_name = "";
    webhook_server_key_name = "";
    webhook_config_namespace = "";
    webhook_config_mode = "";
    webhook_config_url = "";
    webhook_config_service_port = pos 0;
    webhook_config_owner_namespace = "";
    gardener_version = "";
    self_hosted_shoot_cluster = false;
    source_cluster = none;
  }

  abbrev pub WebhookFlag : Type 1
  WebhookFlag = Flag W (Flags C.Float Cluster)

  abbrev set_kubeconfig : String → Exec (W × Flags C.Float Cluster) (Unit {0})
  set_kubeconfig val (w, f) = let (r, w') = C.set_env C.config_path_env val w in (r, (w', f))

  abbrev pub kubeconfig_flag : WebhookFlag
  kubeconfig_flag =
      record (flag_of string_kind "kubeconfig" "" ("KUBECONFIG" ∷ [])
        (λ v f. record f { kubeconfig = v })) { action = set_kubeconfig }

  abbrev pub garden_kubeconfig_flag : WebhookFlag
  garden_kubeconfig_flag =
      record (flag_of string_kind "garden-kubeconfig" "" ("GARDEN_KUBECONFIG" ∷ [])
        (λ v f. record f { garden_kubeconfig = v })) {
          required = true;
          aliases = "target-kubeconfig" ∷ [];
        }

  abbrev pub log_level_flag : WebhookFlag
  log_level_flag =
      record (flag_of string_kind "log-level" C.info_level []
        (λ v f. record f { zap_log_level = v })) {
          validator = one_of C.all_log_levels "invalid log level specified";
        }

  abbrev pub log_format_flag : WebhookFlag
  log_format_flag =
      record (flag_of string_kind "log-format" C.format_text []
        (λ v f. record f { zap_log_format = v })) {
          validator = one_of C.all_log_formats "invalid log level format specified";
        }

  abbrev pub webhook_config_mode_flag : WebhookFlag
  webhook_config_mode_flag =
      record (flag_of string_kind "webhook-config-mode" C.mode_service ("WEBHOOK_CONFIG_MODE" ∷ [])
        (λ v f. record f { webhook_config_mode = v })) {
          validator = one_of (supported_modes C) "invalid webhook config mode specified";
        }

  abbrev pub webhook_config_url_flag : WebhookFlag
  webhook_config_url_flag =
      record (flag_of string_kind "webhook-config-url" "" ("WEBHOOK_CONFIG_URL" ∷ [])
        (λ v f. record f { webhook_config_url = v })) { validator = C.url_error }

  abbrev pub webhook_config_service_port_flag : WebhookFlag
  webhook_config_service_port_flag =
      record (flag_of int_kind "webhook-config-service-port" (pos 0)
        ("WEBHOOK_CONFIG_SERVICE_PORT" ∷ [])
        (λ v f. record f { webhook_config_service_port = v })) { validator = port_error }

  abbrev pub flags_to_kubeconfig : List WebhookFlag
  flags_to_kubeconfig =
      flag_of string_kind "extension-name" "gardener-extension-admission-shoot-traefik"
        ("EXTENSION_NAME" ∷ []) (λ v f. record f { extension_name = v })
      ∷ flag_of string_kind "metrics-bind-address" ":8080" ("METRICS_BIND_ADDRESS" ∷ [])
          (λ v f. record f { metrics_bind_addr = v })
      ∷ flag_of string_kind "pprof-bind-address" "" ("PPROF_BIND_ADDRESS" ∷ [])
          (λ v f. record f { pprof_bind_addr = v })
      ∷ flag_of string_kind "health-probe-bind-address" ":8081" ("HEALTH_PROBE_BIND_ADDRESS" ∷ [])
          (λ v f. record f { health_probe_bind_addr = v })
      ∷ flag_of bool_kind "leader-election" false ("LEADER_ELECTION" ∷ [])
          (λ v f. record f { leader_election = v })
      ∷ flag_of string_kind "leader-election-id" "gardener-extension-admission-shoot-traefik"
          ("LEADER_ELECTION_ID" ∷ []) (λ v f. record f { leader_election_id = v })
      ∷ flag_of string_kind "leader-election-namespace" "gardener-extension-shoot-traefik"
          ("LEADER_ELECTION_NAMESPACE" ∷ []) (λ v f. record f { leader_election_namespace = v })
      ∷ kubeconfig_flag
      ∷ []

  abbrev pub flags_before_level : List WebhookFlag
  flags_before_level = flags_to_kubeconfig ++ garden_kubeconfig_flag ∷ []

  abbrev pub flags_before_mode : List WebhookFlag
  flags_before_mode =
      flag_of float32_kind "client-conn-qps" (C.float (negsuc 0)) ("CLIENT_CONNECTION_QPS" ∷ [])
        (λ v f. record f { client_conn_qps = v })
      ∷ flag_of int32_kind "client-conn-burst" (pos 0) ("CLIENT_CONNECTION_BURST" ∷ [])
          (λ v f. record f { client_conn_burst = v })
      ∷ flag_of string_kind "gardener-version" "" ("GARDENER_VERSION" ∷ [])
          (λ v f. record f { gardener_version = v })
      ∷ flag_of bool_kind "self-hosted-shoot-cluster" false ("SELF_HOSTED_SHOOT_CLUSTER" ∷ [])
          (λ v f. record f { self_hosted_shoot_cluster = v })
      ∷ flag_of string_kind "webhook-server-host" "" ("WEBHOOK_SERVER_HOST" ∷ [])
          (λ v f. record f { webhook_server_host = v })
      ∷ flag_of int_kind "webhook-server-port" (pos 9443) ("WEBHOOK_SERVER_PORT" ∷ [])
          (λ v f. record f { webhook_server_port = v })
      ∷ flag_of string_kind "webhook-server-cert-dir" "" ("WEBHOOK_SERVER_CERT_DIR" ∷ [])
          (λ v f. record f { webhook_server_cert_dir = v })
      ∷ flag_of string_kind "webhook-server-cert-name" "tls.crt" ("WEBHOOK_SERVER_CERT_NAME" ∷ [])
          (λ v f. record f { webhook_server_cert_name = v })
      ∷ flag_of string_kind "webhook-server-key-name" "tls.key" ("WEBHOOK_SERVER_KEY_NAME" ∷ [])
          (λ v f. record f { webhook_server_key_name = v })
      ∷ flag_of string_kind "webhook-config-namespace" "garden" ("WEBHOOK_CONFIG_NAMESPACE" ∷ [])
          (λ v f. record f { webhook_config_namespace = v })
      ∷ []

  abbrev pub flags_after_port : List WebhookFlag
  flags_after_port =
      flag_of string_kind "webhook-config-owner-namespace" ""
        ("WEBHOOK_CONFIG_OWNER_NAMESPACE" ∷ [])
        (λ v f. record f { webhook_config_owner_namespace = v })
      ∷ []

  abbrev pub flags_after_kubeconfig : List WebhookFlag
  flags_after_kubeconfig =
      log_level_flag ∷ log_format_flag ∷ flags_before_mode
      ++ webhook_config_mode_flag ∷ webhook_config_url_flag ∷ webhook_config_service_port_flag
        ∷ flags_after_port

  -- `Flags` of `New`.
  unfoldable pub webhook_flags : List WebhookFlag
  webhook_flags = flags_before_level ++ flags_after_kubeconfig
