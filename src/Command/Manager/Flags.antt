-- ===== src/Command/Manager/Flags.antt =====
-- The flags of the manager command: the structure that keeps them, and their table.
use gardener_extension_shoot.Base.{String, Bool, false, List, [], ◌∷◌, ◌++◌}
use gardener_extension_shoot.Base.Int.{ℤ, pos}
use gardener_extension_shoot.Base.Assoc.{Map}
use gardener_extension_shoot.Base.Exec.{Exec}
use gardener_extension_shoot.Command.Cli.{
  Flag, flag_of, string_kind, bool_kind, int_kind, int32_kind, duration_kind, float32_kind,
  string_map_kind,
}
use gardener_extension_shoot.Command.Constants.{Constants, one_of}
use gardener_extension_shoot.Command.Features.{set_gates}

pub record Flags (Float : Type 0) : Type 0 where
  pub extension_name : String
  pub metrics_bind_addr : String
  pub health_probe_bind_addr : String
  pub heartbeat_renew_interval : ℤ
  pub heartbeat_namespace : String
  pub leader_election : Bool
  pub leader_election_id : String
  pub leader_election_namespace : String
  pub ignore_operation_annotation : Bool
  pub max_concurrent_reconciles : ℤ
  pub kubeconfig : String
  pub zap_log_level : String
  pub zap_log_format : String
  pub resync_interval : ℤ
  pub pprof_bind_addr : String
  pub client_conn_qps : Float
  pub client_conn_burst : ℤ
  pub gardener_version : String
  pub gardenlet_feature_gates : Map Bool

module _ {W : Type 0} (C : Constants W) where
  -- `flags{}`; the map is the empty one that `New` makes.
  abbrev pub zero_flags : Flags C.Float
  zero_flags = record {
    extension_name = "";
    metrics_bind_addr = "";
    health_probe_bind_addr = "";
    heartbeat_renew_interval = pos 0;
    heartbeat_namespace = "";
    leader_election = false;
    leader_election_id = "";
    leader_election_namespace = "";
    ignore_operation_annotation = false;
    max_concurrent_reconciles = pos 0;
    kubeconfig = "";
    zap_log_level = "";
    zap_log_format = "";
    resync_interval = pos 0;
    pprof_bind_addr = "";
    client_conn_qps = C.float (pos 0);
    client_conn_burst = pos 0;
    gardener_version = "";
    gardenlet_feature_gates = [];
  }

  abbrev pub ManagerFlag : Type 1
  ManagerFlag = Flag W (Flags C.Float)

  abbrev set_kubeconfig : String → Exec (W × Flags C.Float) (Unit {0})
  set_kubeconfig val (w, f) = let (r, w') = C.set_env C.config_path_env val w in (r, (w', f))

  -- `items` in the order in which `range` goes through the map.
  abbrev set_feature_gates : Map String → Exec (W × Flags C.Float) (Unit {0})
  set_feature_gates items (w, f) =
      let (r, gates) = set_gates items f.gardenlet_feature_gates in
      (r, (w, record f { gardenlet_feature_gates = gates }))

  abbrev pub kubeconfig_flag : ManagerFlag
  kubeconfig_flag =
      record (flag_of string_kind "kubeconfig" "" ("KUBECONFIG" ∷ [])
        (λ v f. record f { kubeconfig = v })) { action = set_kubeconfig }

  abbrev pub log_level_flag : ManagerFlag
  log_level_flag =
      record (flag_of string_kind "log-level" C.info_level []
        (λ v f. record f { zap_log_level = v })) {
          validator = one_of C.all_log_levels "invalid log level specified";
        }

  abbrev pub log_format_flag : ManagerFlag
  log_format_flag =
      record (flag_of string_kind "log-format" C.format_text []
        (λ v f. record f { zap_log_format = v })) {
          validator = one_of C.all_log_formats "invalid log level format specified";
        }

  -- This flag has no destination: its action stores it.
  abbrev pub feature_gate_flag : ManagerFlag
  feature_gate_flag = record (flag_of string_map_kind "gardenlet-feature-gate" [] [] (λ v f. f)) {
    action = set_feature_gates;
  }

  abbrev pub flags_before_level : List ManagerFlag
  flags_before_level =
      flag_of string_kind "extension-name" "gardener-extension-shoot-traefik"
        ("EXTENSION_NAME" ∷ []) (λ v f. record f { extension_name = v })
      ∷ flag_of string_kind "metrics-bind-address" ":8080" ("METRICS_BIND_ADDRESS" ∷ [])
          (λ v f. record f { metrics_bind_addr = v })
      ∷ flag_of string_kind "pprof-bind-address" "" ("PPROF_BIND_ADDRESS" ∷ [])
          (λ v f. record f { pprof_bind_addr = v })
      ∷ flag_of string_kind "health-probe-bind-address" ":8081" ("HEALTH_PROBE_BIND_ADDRESS" ∷ [])
          (λ v f. record f { health_probe_bind_addr = v })
      ∷ flag_of duration_kind "heartbeat-renew-interval" (pos 30_000_000_000)
          ("HEARTBEAT_RENEW_INTERVAL" ∷ []) (λ v f. record f { heartbeat_renew_interval = v })
      ∷ flag_of string_kind "heartbeat-namespace" "gardener-extension-shoot-traefik"
          ("HEARTBEAT_NAMESPACE" ∷ []) (λ v f. record f { heartbeat_namespace = v })
      ∷ flag_of bool_kind "leader-election" false ("LEADER_ELECTION" ∷ [])
          (λ v f. record f { leader_election = v })
      ∷ flag_of string_kind "leader-election-id" "gardener-extension-shoot-traefik-leader-election"
          ("LEADER_ELECTION_ID" ∷ []) (λ v f. record f { leader_election_id = v })
      ∷ flag_of string_kind "leader-election-namespace" "gardener-extension-shoot-traefik"
          ("LEADER_ELECTION_NAMESPACE" ∷ []) (λ v f. record f { leader_election_namespace = v })
      ∷ flag_of bool_kind "ignore-operation-annotation" false ("IGNORE_OPERATION_ANNOTATION" ∷ [])
          (λ v f. record f { ignore_operation_annotation = v })
      ∷ flag_of int_kind "max-concurrent-reconciles" (pos 5) ("MAX_CONCURRENT_RECONCILES" ∷ [])
          (λ v f. record f { max_concurrent_reconciles = v })
      ∷ kubeconfig_flag
      ∷ []

  abbrev pub flags_before_gates : List ManagerFlag
  flags_before_gates =
      flag_of duration_kind "resync-interval" (pos 30_000_000_000) ("RESYNC_INTERVAL" ∷ [])
        (λ v f. record f { resync_interval = v })
      ∷ flag_of float32_kind "client-conn-qps" (C.float (pos 100)) ("CLIENT_CONNECTION_QPS" ∷ [])
          (λ v f. record f { client_conn_qps = v })
      ∷ flag_of int32_kind "client-conn-burst" (pos 130) ("CLIENT_CONNECTION_BURST" ∷ [])
          (λ v f. record f { client_conn_burst = v })
      ∷ flag_of string_kind "gardener-version" "" [] (λ v f. record f { gardener_version = v })
      ∷ []

  abbrev pub flags_after_format : List ManagerFlag
  flags_after_format = flags_before_gates ++ feature_gate_flag ∷ []

  -- `Flags` of `New`.
  unfoldable pub manager_flags : List ManagerFlag
  manager_flags = flags_before_level ++ log_level_flag ∷ log_format_flag ∷ flags_after_format

  -- All of them but the last, which is the one of the feature gates.
  abbrev pub flags_but_gates : List ManagerFlag
  flags_but_gates = flags_before_level ++ log_level_flag ∷ log_format_flag ∷ flags_before_gates
