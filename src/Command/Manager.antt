-- ===== src/Command/Manager.antt =====
-- cmd/extension-traefik/internal/manager/manager.go: the command that runs the controllers.
pub mod Flags
pub mod Valid
pub mod Run
pub mod Built
pub mod Started
pub mod Refused
pub mod Entry
pub mod Configured
pub mod Succeeds
pub mod Gates
