-- ===== src/Scheduler/Durability/Ownership.antt =====
-- src/ai_ent/scheduler/durability.py: what an ownership that is returned says of the stored rows.
use ai_ent.Prelude.{
  ℕ, ◌≡◌, ◌==◌, ◌||◌, not, true, Option, none, some, List, [], ◌∷◌, arith, Option-cases, inl, inr,
  keep,
}
use ai_ent.Persistence.Models.{
  Task, TaskStatus, Execution, TaskLease, active, is_active, is_running, is_runnable,
}
use ai_ent.Persistence.Session.{Db, Session, return, commit}
use ai_ent.Persistence.Tasks
use ai_ent.Persistence.Executions
use ai_ent.Persistence.Leases
use ai_ent.Persistence.Sound.{Keeps, bind-Keeps, if-Keeps}
use ai_ent.Scheduler.Durability.{
  DurableExecutionOwnership, persist_execution_ownership, check_rows, owned_lease, one_or_none,
  holds_execution,
}

-- The rows behind an ownership: a running task, its runnable execution, and the owner's active lease.
pub record IsOwned (db : Db) (task_id execution_id owner_id lease_id : ℕ) : Type 0 where
  pub task : Task
  pub execution : Execution
  pub lease : TaskLease
  pub has_task : Tasks.get task_id db ≡ some task
  pub has_execution : Executions.get execution_id db ≡ some execution
  pub has_lease : Leases.get lease_id db ≡ some lease
  pub is_running : task.status ≡ TaskStatus.running
  pub may_run : is_runnable execution.status ≡ true
  pub of_task : execution.task_id ≡ task_id
  pub leases_task : lease.task_id ≡ task_id
  pub leases_execution : lease.execution_id ≡ execution_id
  pub is_owner : lease.owner_id ≡ owner_id
  pub is_held : lease.status ≡ active

-- An ownership that is returned for a named lease is stored: the committed tables are those of the
-- session before, and hold the running task, its runnable execution and the owner's active lease.
pub persist-IsOwned :
    (task_id execution_id owner_id lease_id : ℕ) (s : Session)
    {ownership : DurableExecutionOwnership}
    → (persist_execution_ownership task_id execution_id owner_id (some lease_id) s).0
      ≡ return ownership
    → ((persist_execution_ownership task_id execution_id owner_id (some lease_id) s).1.durable
        ≡ s.db)
      × IsOwned s.db task_id execution_id owner_id lease_id
unfolding persist_execution_ownership
persist-IsOwned task_id execution_id owner_id lease_id s {ownership} h =
    elim (Option-cases (Executions.get execution_id s.db)) [
      | inl e ↦ absurd (ground (arith, e, h))
      | inr (execution, e) ↦ elim (Option-cases (Tasks.get task_id s.db)) [
        | inl t ↦ absurd (ground (arith, e, t, h))
        | inr (task, t) ↦ elim (Option-cases (Leases.get lease_id s.db)) [
          | inl l ↦ absurd (ground (arith, e, t, l, h))
          | inr (lease, l) ↦ (
            ground (arith, e, t, l, h),
            record {
              task = task;
              execution = execution;
              lease = lease;
              has_task = t;
              has_execution = e;
              has_lease = l;
              is_running = ground (arith, e, t, l, h);
              may_run = ground (arith, e, t, l, h);
              of_task = ground (arith, e, t, l, h);
              leases_task = ground (arith, e, t, l, h);
              leases_execution = ground (arith, e, t, l, h);
              is_owner = ground (arith, e, t, l, h);
              is_held = ground (arith, e, t, l, h);
            },
          )
        ]
      ]
    ]

pub commit-Keeps : Keeps commit
commit-Keeps s h = record { current = h.current; committed = h.current }

one_or_none-Keeps : (leases : List TaskLease) → Keeps (one_or_none leases)
one_or_none-Keeps [] s h = h
one_or_none-Keeps (l ∷ []) s h = h
one_or_none-Keeps (l ∷ m ∷ ls) s h = h

module _ (task_id execution_id owner_id : ℕ) where
  check_rows-Keeps :
      (execution : Option Execution) (task : Option Task) (lease : Option TaskLease)
      → Keeps (check_rows task_id execution_id owner_id execution task lease)
  check_rows-Keeps none task lease s = λ h. h
  check_rows-Keeps (some execution) none lease s = λ h. h
  check_rows-Keeps (some execution) (some task) none s = λ h. h
  check_rows-Keeps (some execution) (some task) (some lease) s =
      if-Keeps (not (execution.task_id == task_id)) _ _ (λ _ h. h)
        (if-Keeps (not (lease.task_id == task_id) || not (lease.execution_id == execution_id)) _ _
          (λ _ h. h)
          (if-Keeps (not (lease.owner_id == owner_id) || not (is_active lease.status)) _ _
            (λ _ h. h)
            (if-Keeps (not (is_running task.status) || not (is_runnable execution.status)) _ _
              (λ _ h. h) commit-Keeps)))
        s

  owned_lease-Keeps : (lease_id : Option ℕ) → Keeps (owned_lease task_id execution_id lease_id)
  owned_lease-Keeps none s =
      one_or_none-Keeps (keep (holds_execution task_id execution_id) s.db.leases) s
  owned_lease-Keeps (some lease_id) s = λ h. h

  pub persist-Keeps :
      (lease_id : Option ℕ)
      → Keeps (persist_execution_ownership task_id execution_id owner_id lease_id)
  unfolding persist_execution_ownership
  persist-Keeps lease_id s h =
      bind-Keeps (owned_lease task_id execution_id lease_id) _ (owned_lease-Keeps lease_id)
        (check_rows-Keeps (Executions.get execution_id s.db) (Tasks.get task_id s.db)) _
        (commit-Keeps s h)
