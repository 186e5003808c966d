-- ===== src/Command/Webhook.antt =====
-- cmd/extension-traefik/webhook/webhook.go: the command of the admission webhook.
pub mod Flags
pub mod Valid
pub mod Services
pub mod Run
pub mod Assembled
pub mod Serving
pub mod Entry
pub mod Configured
pub mod Targets
pub mod Succeeds
