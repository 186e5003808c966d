-- ===== src/Command.antt =====
-- cmd/extension-traefik: the two commands, their flags and what they start.
pub mod Cli
pub mod Features
pub mod Constants
pub mod Manager
pub mod Webhook
