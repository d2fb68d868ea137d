-- ===== src/Bootstrap.antt =====
-- src/ai_ent/bootstrap: the data of tasks and packages, and the Git boundary of a candidate.
pub mod Models
pub mod Git
