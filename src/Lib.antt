-- ===== src/Lib.antt =====
-- The Traefik extension of Gardener: what it deploys to a shoot, in which order it acts on the seed,
-- and which shoots it admits.
--
-- The program and its model. An operator starts two commands, each of which builds its manager by
-- functional options. The first runs a controller that calls the actuator for each Extension
-- resource of type "shoot-traefik"; the actuator uses a deployer to create or delete managed
-- resources and a DNSRecord on the seed; a heartbeat renews a lease. The second runs a webhook in the
-- garden cluster that looks at shoots before they are stored.
--
--   Traefik      pkg/traefik. Config: constants.go, the configuration of deployer.go and the schema
--                of pkg/apis/config/types.go. V1alpha1: pkg/apis/config/v1alpha1 and its
--                conversions. Install: how the types of both versions get into a scheme. Manifests
--                and Workload: the object builders, one function each.
--                Resources: generateResources and splitCRDs. Deploy: Deploy, Delete,
--                DeleteKeepingObjects, DeployDNSRecord and DeleteDNSRecord. Its other modules hold
--                theorems: Access on the cluster role, Providers on the arguments, Wiring on how the
--                objects refer to each other, Crds on splitCRDs, Bundle on the map of files, Installed on
--                scheme registration.
--   Actuator     pkg/actuator/actuator.go. Settings: New, the options, the accessors, and the part of
--                Reconcile that settles the configuration. Dns: reconcileDNSRecord and its helpers.
--                Operations: Reconcile, Delete, ForceDelete, Restore and Migrate. Operation: the five
--                of them as values. The other modules hold theorems.
--   Admission    pkg/admission/validator/shoot.go: Validate and validateShoot. Webhook: the two
--                constructors. Policy: a theorem on who is admitted.
--   Heartbeat    pkg/heartbeat/heartbeat.go.
--   Controller   pkg/controller/controller.go.
--   Manager      pkg/mgr/mgr.go. Host: what it uses of controller-runtime. Options: the structure and
--                its options. Build: New. Runs: the runs of New that succeed, as a relation. Server:
--                a theorem on the options that make a webhook server. Answers: that New returns where
--                what it calls does.
--   Command      cmd/extension-traefik. Cli: the table of flags of github.com/urfave/cli, and what its
--                parser promises; Given: a command line, and the actions of the flags that it gives.
--                Constants: what both commands use of other modules, and Before.
--                Features: the feature-gate flag. Manager: internal/manager/manager.go, with the
--                flags in Flags, and getManager, getFlags and runManager in Run. Webhook:
--                webhook/webhook.go, with the flags in Flags, what is used of libraries in Services,
--                and the functions in Run. The other modules under both hold theorems: Valid on
--                parsed flags, Configured on the manager's options, Built, Started, Refused,
--                Assembled, Serving, Entry, Targets, Succeeds and Gates on what a run does.
--   Api          what is called and not implemented here: the clients of the seed and of the shoot,
--                the helpers for managed resources, the clock and the metrics registry, over a world
--                of any type. Each call answers a value or any error at all.
--   Trace        an Api that notes each call of another one, newest first, and predicates on such
--                histories. What the operations do, and in which order, is stated over them.
--   Kube         the Kubernetes and Gardener objects, with the fields that the program sets or reads.
--   Base         shared names; errors and results; calls that change a world and may fail; maps as
--                association lists; functional options.
--   Tests        a small seed in place of the clients, and runs on it.
--
-- Conventions. A Go error is a value that keeps its format, its arguments and the error it wraps. A
-- call that may fail gives the world back beside its error, since what was done before stays done.
-- A loop is a recursion on the list that it ranges over, so there is no fuel. An int32 or a duration
-- is a signed number that the program only compares with zero or passes on; a deferred function is
-- run on every way out. A pointer that may be nil is an option.
--
-- The parser of a command line is a relation between the flags before and after it: each flag of the
-- table in turn stores its own value, or one that was given and that its validator accepts, as the
-- documentation of github.com/urfave/cli says. A command is run on what was given to each flag: the
-- values are stored, then Before runs, then the action of each given flag in the order of the table,
-- and then the command's own action; the first error ends it. A logger that cannot be made is a panic.
--
-- Not modelled. cmd/extension-traefik/main.go dispatches to the two commands; pkg/metrics and
-- imagevector declare values for libraries; the generated deep copies of pkg/apis/config have no
-- counterpart, since the values of the model do not change; crds.yaml is data. Usage texts,
-- logging, contexts, and the deadline of a wait are left out, so that a wait is one call that ends
-- well or with an error. Codecs, decoders and the image vector are parameters.
pub mod Base
pub mod Kube
pub mod Api
pub mod Traefik
pub mod Actuator
pub mod Admission
pub mod Heartbeat
pub mod Controller
pub mod Command
pub mod Manager
pub mod Trace
pub mod Tests
