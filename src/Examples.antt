-- ===== src/Examples.antt =====
-- Concrete runs: sample tables, and each theorem applied to them.
pub mod Data
pub mod Claims
pub mod Runs
pub mod Graphs
pub mod Repairs
mod Iterations
mod Rounds
mod Baselines
