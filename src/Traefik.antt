-- ===== src/Traefik.antt =====
-- pkg/traefik: what is deployed to a shoot, and how.
pub mod Config
pub mod Manifests
pub mod Workload
pub mod Resources
pub mod Deploy
pub mod Access
pub mod Providers
pub mod Wiring
pub mod Crds
pub mod Bundle
pub mod V1alpha1
pub mod Install
pub mod Installed
