-- ===== src/Actuator.antt =====
-- pkg/actuator/actuator.go: what happens to a shoot's Traefik when its Extension resource is
-- reconciled, deleted, force-deleted, restored or migrated.
pub mod Settings
pub mod Dns
pub mod Operations
pub mod Resolve
pub mod Address
pub mod Outcome
pub mod Reconciled
pub mod Operation
pub mod Walk
pub mod Counting
pub mod DnsSafety
pub mod Teardown
pub mod Retention
pub mod Order
pub mod Success
