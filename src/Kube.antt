-- ===== src/Kube.antt =====
-- The Kubernetes and Gardener objects that the extension reads or writes, with the fields that it
-- sets or reads. A pointer that may be nil is an `Option`; a field that is never read nor set is
-- left out.
pub mod Meta
pub mod Rbac
pub mod Pods
pub mod Network
pub mod Encoding
pub mod Gardener
pub use Meta.*
pub use Rbac.*
pub use Pods.*
pub use Network.*
pub use Encoding.*
pub use Gardener.*
