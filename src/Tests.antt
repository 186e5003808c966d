-- ===== src/Tests.antt =====
-- Concrete runs of the program: a small seed with a shoot in it, in place of the clients.
mod Fake
mod Operations
mod Resources
mod Builders
mod Managers
mod Successes
mod Commands
