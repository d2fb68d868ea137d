-- ===== src/Scheduler.antt =====
-- src/ai_ent/scheduler: the services that select, claim, run and finish tasks, and plan repairs.
pub mod Claiming
pub mod Cycles
pub mod Readiness
pub mod Durability
pub mod Execution
pub mod Finalization
pub mod Repair
pub mod Baseline
pub mod Iteration
pub mod Bounded
