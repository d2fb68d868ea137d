-- ===== src/Persistence/Invariant.antt =====
-- What the constraints of the tables promise of the leases and executions that are stored.
use ai_ent.Prelude.{ℕ, ◌≤◌, ◌≡◌, none, count}
use ai_ent.Persistence.Session.{Db}
use ai_ent.Persistence.Executions
use ai_ent.Persistence.Leases

-- One active lease for a task, one execution for an attempt, and one lease for an execution, which
-- is stored.
pub record WellFormed (db : Db) : Type 0 where
  pub one_holder : (task_id : ℕ) → count (Leases.holds task_id) db.leases ≤ 1
  pub one_attempt :
      (task_id attempt : ℕ) → count (Executions.is_attempt task_id attempt) db.executions ≤ 1
  pub one_lease : (execution_id : ℕ) → count (Leases.of_execution execution_id) db.leases ≤ 1
  pub stored :
      (execution_id : ℕ)
      → Executions.get execution_id db ≡ none
      → count (Leases.of_execution execution_id) db.leases ≡ 0
