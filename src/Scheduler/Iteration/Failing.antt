-- ===== src/Scheduler/Iteration/Failing.antt =====
-- src/ai_ent/scheduler/iteration.py: a package that cannot be built.
use ai_ent.Prelude.{
  ℕ, ◌<◌, ◌≡◌, refl, subst, String, Option, none, some, arith, Option-cases, inl, inr,
  find-modify_self, count, find-key,
}
use ai_ent.Persistence.Models.{
  Task, TaskStatus, Execution, ExecutionStatus, TaskLease, RuntimeTaskPlanBinding, active,
}
use ai_ent.Persistence.Session.{
  Session, Action, Error, value_error, return, raise, now, Result-cases, ◌>>=◌,
}
use ai_ent.Persistence.Tasks
use ai_ent.Persistence.Executions
use ai_ent.Persistence.Leases
use ai_ent.Persistence.Invariant.{WellFormed}
use ai_ent.Bootstrap.Models.{BootstrapTask}
use ai_ent.Scheduler.Claiming.{ClaimResult, LeaseActionResult, updated, mark_released, release}
use ai_ent.Scheduler.Claiming.Leasing.{IsFreed, unheld-IsFreed, ended-unheld}
use ai_ent.Scheduler.Baseline.{binding_of}
use ai_ent.Scheduler.Iteration.{
  ExecutionPackageFactory, Scheduler, error, claimed_result, current_baseline, unbuilt,
  package_failure, fail_package, build_package, build, manifest_tasks_for, check_manifest_task,
}

-- What is left where a package could not be built: the execution failed, the task is blocked, and no one
-- holds it.
pub record IsAbandoned (task_id execution_id : ℕ) (s : Session) : Type 0 where
  pub execution : Execution
  pub task : Task
  pub has_execution : Executions.get execution_id s.db ≡ some execution
  pub has_task : Tasks.get task_id s.db ≡ some task
  pub has_failed : execution.status ≡ ExecutionStatus.failed
  pub is_classified : execution.error_classification ≡ some "package_construction_failed"
  pub is_blocked : task.status ≡ TaskStatus.blocked
  pub is_free : IsFreed task_id s

-- Where the action raises, it has changed nothing.
Clean : {A : Type 0} → Action A → Type 0
Clean m = (s : Session) (e : Error) → (m s).0 ≡ raise e → (m s).1 ≡ s

then-Clean :
    {A B : Type 0} (m : Action A) (f : A → Action B)
    → ((s : Session) → (m s).1 ≡ s)
    → ((a : A) → Clean (f a))
    → Clean (m >>= f)
unfolding Clean
then-Clean m f reads k s e h = elim (Result-cases (m s).0) [
  | inr (x, r) ↦ ground (arith, r, reads s)
  | inl (a, r) ↦
      let same : (m >>= f) s ≡ f a s = ground (arith, r, reads s) in
      let rest = k a s e (ground (arith, same, h)) in ground (arith, same, rest)
]

module _ (factory : ExecutionPackageFactory) (task : Task) (execution_id project_id : ℕ) where
  manifest_tasks_for-reads :
      (known : Option (ℕ → Option BootstrapTask)) (binding : Option RuntimeTaskPlanBinding)
      (s : Session)
      → (manifest_tasks_for factory task execution_id project_id known binding s).1 ≡ s
  manifest_tasks_for-reads (some tasks) binding s = refl
  manifest_tasks_for-reads none none s = refl
  manifest_tasks_for-reads none (some binding) s =
      elim (Result-cases (factory.build_runtime_manifest_tasks project_id s.db)) [
        | inl (a, e) ↦ ground (arith, e)
        | inr (x, e) ↦ ground (arith, e)
      ]

  check_manifest_task-Clean :
      (binding : Option RuntimeTaskPlanBinding) (manifest : Option BootstrapTask)
      → Clean (check_manifest_task factory task execution_id project_id binding manifest)
  unfolding Clean
  check_manifest_task-Clean none none s e h = refl
  check_manifest_task-Clean (some binding) none s e h = refl
  check_manifest_task-Clean binding (some manifest) s e h =
      elim (Option-cases (current_baseline factory task execution_id project_id binding s.db)) [
        | inl b ↦ ground (arith, b, h)
        | inr (b, c) ↦ ground (arith, c, h)
      ]

  build_raises :
      (s : Session) (e : Error)
      → (build factory task execution_id project_id s).0 ≡ raise e
      → (build factory task execution_id project_id s).1 ≡ s
  unfolding build Clean
  build_raises s =
      then-Clean
        (manifest_tasks_for factory task execution_id project_id factory.manifest_tasks
          (binding_of task.id s.db))
        _ (manifest_tasks_for-reads factory.manifest_tasks (binding_of task.id s.db))
        (λ tasks. check_manifest_task-Clean (binding_of task.id s.db) (tasks task.id)) s

module _ (scheduler : Scheduler) (project_id : ℕ) (task : Task) (claim : ClaimResult)
    (execution : Execution) (lease : TaskLease) where
  -- The lease that the owner holds while a package is built.
  pub record IsHeld (s : Session) : Type 0 where
    pub row : TaskLease
    pub has_lease : Leases.get lease.id s.db ≡ some row
    pub of_task : row.task_id ≡ task.id
    pub is_owner : row.owner_id ≡ scheduler.owner_id
    pub is_held : row.status ≡ active
    pub unexpired : now s < row.expires_at

  -- The tables once the lease is released, the execution failed and the task blocked.
  abbrev abandoned : Session → Session
  abandoned s = record s {
    db = Tasks.set_status task.id TaskStatus.blocked (
        Executions.set_lifecycle execution.id package_failure
          (Leases.set_lease lease.id (mark_released (now s)) s.db));
  }

  release_held :
      (s : Session)
      → IsHeld s
      → (r : LeaseActionResult) × (release lease.id scheduler.owner_id s
          ≡ (return r, record s { db = Leases.set_lease lease.id (mark_released (now s)) s.db }))
        × (r.status ≡ updated)
  unfolding release
  release_held s held = (
    record { status = updated; lease = some (mark_released (now s) held.row) },
    ground (
      arith,
      held.has_lease,
      held.is_owner,
      held.is_held,
      held.unexpired,
      find-key Leases.lease_key lease.id s.db.leases held.has_lease,
    ),
    refl,
  )

  update_known :
      (c : Executions.Lifecycle) (u : Session) {known : Execution}
      → Executions.get execution.id u.db ≡ some known
      → Executions.update_lifecycle execution.id c u ≡ (
        return (Executions.apply_lifecycle c known),
        record u { db = Executions.set_lifecycle execution.id c u.db },
      )
  unfolding Executions.update_lifecycle Executions.require
  update_known c u h = ground (arith, h)

  fail_package-eq :
      (s : Session) (e : Error) {known : Execution}
      → IsHeld s
      → Executions.get execution.id s.db ≡ some known
      → fail_package scheduler project_id task claim execution lease e s ≡ (
        return (record (claimed_result scheduler project_id task claim execution lease error) {
          reason = some (unbuilt e);
        }),
        abandoned s,
      )
  unfolding fail_package
  fail_package-eq s e {known} held has_execution =
      let (r, released, _) = release_held s held in
      let u : Session = record s { db = Leases.set_lease lease.id (mark_released (now s)) s.db } in
      rw (released, update_known package_failure u {known = known} has_execution)

  abandoned-IsAbandoned :
      (s : Session) {known : Execution} {row : Task}
      → WellFormed s.db
      → IsHeld s
      → Executions.get execution.id s.db ≡ some known
      → Tasks.get task.id s.db ≡ some row
      → IsAbandoned task.id execution.id (abandoned s)
  abandoned-IsAbandoned s {known} {row} w held has_execution has_task = record {
    execution = Executions.apply_lifecycle package_failure known;
    task = Tasks.with_status TaskStatus.blocked row;
    has_execution = ground (
      arith,
      has_execution,
      find-modify_self Executions.execution_key (Executions.apply_lifecycle package_failure)
          (λ x. refl) execution.id s.db.executions,
    );
    has_task = ground (
      arith,
      has_task,
      find-modify_self Tasks.task_key (Tasks.with_status TaskStatus.blocked) (λ x. refl) task.id
          s.db.tasks,
    );
    has_failed = refl;
    is_classified = refl;
    is_blocked = refl;
    is_free = unheld-IsFreed task.id (abandoned s) (
        subst
          (λ x.
            count (Leases.holds x) (Leases.set_lease lease.id (mark_released (now s)) s.db).leases
            ≡ 0)
          held.of_task
          (ended-unheld (mark_released (now s)) (λ l. refl) s.db lease.id held.row w held.has_lease
            held.is_held));
  }

  -- Where the package of a claimed task cannot be built because of a ValueError, the iteration
  -- answers ERROR with it, and leaves the execution failed with its classification, the task
  -- blocked, and no active lease of the task. The conditions are well-formed tables, the owner's
  -- valid lease, and the rows of the execution and the task.
  pub build_package-IsAbandoned :
      (s : Session) (text : String) {known : Execution} {row : Task}
      → WellFormed s.db
      → IsHeld s
      → Executions.get execution.id s.db ≡ some known
      → Tasks.get task.id s.db ≡ some row
      → (build scheduler.factory task execution.id project_id s).0 ≡ raise (value_error text)
      → ((build_package scheduler project_id task claim execution lease s).0
          ≡ return (record (claimed_result scheduler project_id task claim execution lease error) {
            reason = some (unbuilt (value_error text));
          }))
        × IsAbandoned task.id execution.id
            (build_package scheduler project_id task claim execution lease s).1
  unfolding build_package
  build_package-IsAbandoned s text {known} {row} w held has_execution has_task raised =
      let stays =
        build_raises scheduler.factory task execution.id project_id s (value_error text) raised in
      rw (raised, stays, fail_package-eq s (value_error text) {known = known} held has_execution)
        (refl, abandoned-IsAbandoned s w held has_execution has_task)
