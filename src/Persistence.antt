-- ===== src/Persistence.antt =====
-- src/ai_ent/persistence: the tables with their constraints, the session, and the repositories.
pub mod Models
pub mod Session
pub mod Tasks
pub mod Executions
pub mod Leases
pub mod Checkpoints
pub mod Invariant
pub mod Sound
pub mod Ensures
