-- ===== src/Scheduler/Durability.antt =====
-- src/ai_ent/scheduler/durability.py: persist_execution_ownership. `session.get` on an id that is
-- None cannot be called here: without a lease id the active lease is queried, and `one_or_none`
-- raises where there are several.
use ai_ent.Prelude.{
  ℕ, ◌≡◌, ◌&&◌, ◌||◌, not, Bool, true, false, Option, none, some, List, [], ◌∷◌, ◌==◌,
  if◌then◌else◌, keep,
}
use ai_ent.Persistence.Models.{Task, Execution, TaskLease, is_running, is_runnable, is_active}
use ai_ent.Persistence.Session.{
  Db, Session, Action, runtime_error, integrity_error, pure, throw, gets, commit, ◌>>=◌, ◌>>◌,
}
use ai_ent.Persistence.Tasks
use ai_ent.Persistence.Executions
use ai_ent.Persistence.Leases
pub mod Ownership

pub record DurableExecutionOwnership : Type 0 where
  pub task_id : ℕ
  pub execution_id : ℕ
  pub lease_id : ℕ
  pub owner_id : ℕ

abbrev pub holds_execution : (task_id execution_id : ℕ) → TaskLease → Bool
holds_execution task_id execution_id l =
    l.task_id == task_id && l.execution_id == execution_id && is_active l.status

abbrev pub one_or_none : List TaskLease → Action (Option TaskLease)
one_or_none [] = pure none
one_or_none (l ∷ []) = pure (some l)
one_or_none (l ∷ m ∷ ls) = throw integrity_error

abbrev pub owned_lease : (task_id execution_id : ℕ) → Option ℕ → Action (Option TaskLease)
owned_lease task_id execution_id (some lease_id) = gets (λ s. Leases.get lease_id s.db)
owned_lease task_id execution_id none = do
  leases ← gets (λ s. keep (holds_execution task_id execution_id) s.db.leases)
  one_or_none leases

module _ (task_id execution_id owner_id : ℕ) where
  abbrev pub check_rows :
      Option Execution → Option Task → Option TaskLease → Action DurableExecutionOwnership
  check_rows none task lease = throw (runtime_error "execution ownership was not persisted")
  check_rows (some execution) none lease = throw (runtime_error "task ownership was not persisted")
  check_rows (some execution) (some task) none =
      throw (runtime_error "lease ownership was not persisted")
  check_rows (some execution) (some task) (some lease) =
      if not (execution.task_id == task_id)
      then throw (runtime_error "execution task mismatch")
      else if not (lease.task_id == task_id) || not (lease.execution_id == execution_id)
      then throw (runtime_error "lease execution mismatch")
      else if not (lease.owner_id == owner_id) || not (is_active lease.status)
      then throw (runtime_error "lease ownership invalid")
      else if not (is_running task.status) || not (is_runnable execution.status)
      then throw (runtime_error "execution ownership not runnable")
      else do
        commit
        pure (record {
          task_id = task_id;
          execution_id = execution_id;
          lease_id = lease.id;
          owner_id = owner_id;
        })

  unfoldable pub persist_execution_ownership : Option ℕ → Action DurableExecutionOwnership
  persist_execution_ownership lease_id = do
    commit
    execution ← gets (λ s. Executions.get execution_id s.db)
    task ← gets (λ s. Tasks.get task_id s.db)
    lease ← owned_lease task_id execution_id lease_id
    check_rows execution task lease
