-- ===== src/Manager.antt =====
-- pkg/mgr: the builder of a controller-runtime manager, with functional options.
pub mod Host
pub mod Options
pub mod Build
pub mod Server
pub mod Runs
pub mod Answers
