-- ===== src/Tests/Commands/WebhookRuns.antt =====
-- The theorems on the webhook command and on the versions of the configuration, at concrete inputs.
use gardener_extension_shoot.Base.{◌+◌, String, true, false, [], ok, is_ok, ◌≡◌, refl}
use gardener_extension_shoot.Base.Int.{pos, negsuc}
use gardener_extension_shoot.Base.Errors.{◌>>=◌}
use gardener_extension_shoot.Base.Exec.{◌>>=◌ as ◌then◌}
use gardener_extension_shoot.Base.Options.{apply_options}
use gardener_extension_shoot.Base.Assoc.{insert}
use gardener_extension_shoot.Manager.Build.{for_each, set_up, build, new_manager}
use gardener_extension_shoot.Traefik.Config.{
  TraefikConfig as InternalConfig, kubernetes_ingress, kubernetes_ingress_nginx,
}
use gardener_extension_shoot.Traefik.Install.{config_install}
use gardener_extension_shoot.Traefik.V1alpha1.{
  TraefikConfig, convert_to_config, convert_from_config, convert_to_config-convert_from_config,
}
use gardener_extension_shoot.Command.Cli.Given.{Given, IsAccepted}
use gardener_extension_shoot.Command.Webhook.Flags.{
  Flags, zero_flags, webhook_flags, garden_kubeconfig_flag, flags_to_kubeconfig,
  flags_after_kubeconfig,
}
use gardener_extension_shoot.Command.Webhook.Valid.{IsValid, Parsed-IsValid}
use gardener_extension_shoot.Command.Webhook.Services.{Services}
use gardener_extension_shoot.Command.Webhook.Run.{run_webhook_server, webhook_command}
use gardener_extension_shoot.Command.Webhook.Serving.{IsServing, run_webhook_server-IsServing}
use gardener_extension_shoot.Command.Webhook.Succeeds.{Provides, webhook_command_succeeds}
use gardener_extension_shoot.Command.Webhook.Targets.{IsAimed, serving_targets}
use gardener_extension_shoot.Tests.Managers.{types, host}
use gardener_extension_shoot.Tests.Commands.{
  schemes, constants, constants-HasLogger, host-Answers, schemes-Takes, nothing_given, give,
  give-IsAccepted, store_defaults, defaults_taken,
}

abbrev written : TraefikConfig
written = record {
  type_meta = record {
    api_version = "traefik.extensions.gardener.cloud/v1alpha1";
    kind = "TraefikConfig";
  };
  spec = record {
    replicas = pos 3;
    ingress_provider = kubernetes_ingress_nginx;
    log_level = "Debug";
    dashboard = true;
  };
}

abbrev internal : InternalConfig
internal = record {
  type_meta = record { api_version = ""; kind = "" };
  spec = record {
    replicas = negsuc 0;
    ingress_provider = kubernetes_ingress;
    log_level = "";
    dashboard = false;
  };
}

convert_to_config-convert_from_config_example :
    ((convert_to_config written internal >>= λ x. convert_from_config x written)
      ≡ ok (record { type_meta = written.type_meta; spec = written.spec }))
    × ((convert_from_config internal written >>= λ x. convert_to_config x internal)
        ≡ ok (record { type_meta = internal.type_meta; spec = internal.spec }))
convert_to_config-convert_from_config_example =
    convert_to_config-convert_from_config written written internal internal

abbrev services : Services types constants
services = record {
  Cluster = String;
  ClusterRest = Unit {0};
  Webhook = String;
  ConfigRest = Unit {0};
  context = tt;
  ping = "ping";
  client_go_scheme = λ scheme w. (ok tt, w + 1);
  core_install = λ scheme w. (ok tt, w + 1);
  schemes = schemes;
  connection = λ qps burst. tt;
  new_server = λ options. "server";
  started_checker = λ server. "started";
  new_cluster = λ source option w. (ok source, w + 1);
  runnable_of = λ cluster. cluster;
  cluster_synced = λ cluster. "synced";
  manager_synced = λ m. "synced";
  build_config_from_flags = λ master path w. (ok "garden", w + 1);
  admitted = record {
    Client = Unit {0};
    Decoder = Unit {0};
    client_of = λ m. tt;
    strict_decoder_of = λ m. tt;
    target_seed = "seed";
  };
  new_webhook = λ m args w. (ok (args.name), w + 1);
  complete = λ options w. (
    ok (record { switch = record { disabled = true; webhooks_factory = λ m. ok [] }; rest = tt }),
    w + 1,
  );
  add_to_manager = λ config m source_cluster w. (ok tt, w + 1);
  start = λ m w. (ok tt, w + 1);
}

abbrev flags : Flags constants.Float services.Cluster
flags =
    store_defaults (webhook_flags constants services.Cluster)
      (zero_flags constants services.Cluster)

Parsed-IsValid_example :
    IsValid constants services.Cluster constants-HasLogger
      (zero_flags constants services.Cluster)
      flags
Parsed-IsValid_example =
    Parsed-IsValid constants services.Cluster constants-HasLogger
      (zero_flags constants services.Cluster) flags
      (defaults_taken (webhook_flags constants services.Cluster)
        (zero_flags constants services.Cluster))

services-Provides : Provides types constants services
services-Provides = record {
  env = λ name value. record { at = λ w. refl };
  client_go = λ s. record { at = λ w. refl };
  core = λ s. record { at = λ w. refl };
  schemes = schemes-Takes;
  clusters = λ c option. record { at = λ w. refl };
  configs = λ address path. record { at = λ w. refl };
  webhooks = λ m args. record { at = λ w. refl };
  completes = λ o. record { at = λ w. refl };
  adds = λ c m source. record { at = λ w. refl };
  starts = λ m. record { at = λ w. refl };
}

-- The kubeconfig of the garden cluster.
unfoldable given : Given (webhook_flags constants services.Cluster)
unfolding webhook_flags
given =
    give (flags_to_kubeconfig constants services.Cluster)
      (garden_kubeconfig_flag constants services.Cluster)
      (flags_after_kubeconfig constants services.Cluster) "/garden"
      (nothing_given (webhook_flags constants services.Cluster))

given-IsAccepted : IsAccepted (webhook_flags constants services.Cluster) given
unfolding webhook_flags given
given-IsAccepted =
    give-IsAccepted (flags_to_kubeconfig constants services.Cluster)
      (garden_kubeconfig_flag constants services.Cluster)
      (flags_after_kubeconfig constants services.Cluster) "/garden" refl refl refl

webhook_command_succeeds_example :
    is_ok (webhook_command types host constants services given 0).0 ≡ true
webhook_command_succeeds_example =
    webhook_command_succeeds types host constants services constants-HasLogger host-Answers
      services-Provides given 0 given-IsAccepted

runs : (run_webhook_server types host constants services true flags 0).0 ≡ ok tt
unfolding run_webhook_server new_manager build set_up for_each ◌then◌ apply_options insert
    webhook_flags config_install
runs = refl

run_webhook_server-IsServing_example :
    IsServing types host constants services flags 0
      (run_webhook_server types host constants services true flags 0).1
run_webhook_server-IsServing_example =
    run_webhook_server-IsServing types host constants services flags 0 runs

serving_targets_example : IsAimed types host constants services flags 0
serving_targets_example = serving_targets types host constants services flags 0 runs
