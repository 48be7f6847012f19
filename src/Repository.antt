-- ===== src/Repository.antt =====
-- `_repository`: the durable export repository.
pub mod Observations
pub mod Journal
pub mod Retention
pub mod Leases
pub mod Artifacts
