-- ===== src/Scheduler/Iteration/Iterating.antt =====
-- src/ai_ent/scheduler/iteration.py: what an iteration keeps.
use ai_ent.Prelude.{
  ℕ, refl, not, Option, none, some, List, [], ◌∷◌, arith, str_eq, count-modify, find-of_modify-none,
}
use ai_ent.Persistence.Models.{Task, Execution, TaskStatus, TaskLease, RuntimeTaskPlanBinding}
use ai_ent.Persistence.Session.{Error, Result, return, raise, change}
use ai_ent.Persistence.Executions
use ai_ent.Persistence.Sound.{Keeps, bind-Keeps, if-Keeps, update_then-Keeps, set_status-Keeps}
use ai_ent.Bootstrap.Models.{BootstrapTask, ExecutionPackage}
use ai_ent.Scheduler.Claiming.{ClaimResult, claim_task, is_claimed, release}
use ai_ent.Scheduler.Claiming.Soundness.{claim_task-Keeps, release-Keeps}
use ai_ent.Scheduler.Baseline.{HardeningBaselineState, binding_of}
use ai_ent.Scheduler.Readiness.{list_ready_tasks}
use ai_ent.Scheduler.Iteration.{
  ExecutionPackageFactory, Scheduler, manifest_tasks_for, lifted, same_class, same_bool, larger,
  finish_build, check_manifest_task, current_baseline, build, set_baseline, with_baseline,
  is_value_error, fail_package, after_build, build_package, with_rows, run_ready, iterate,
  claim_request, package_failure,
}

-- The columns of a baseline are in no constraint.
set_baseline-Keeps : (id : ℕ) (b : HardeningBaselineState) → Keeps (change (set_baseline id b))
set_baseline-Keeps id b s h = record {
  current = record {
    one_holder = h.current.one_holder;
    one_attempt = λ t a. omega (
      arith,
      h.current.one_attempt t a,
      count-modify Executions.execution_key (Executions.is_attempt t a) id (with_baseline b)
          s.db.executions (λ e. refl),
    );
    one_lease = h.current.one_lease;
    stored = λ x n. h.current.stored x (
        find-of_modify-none Executions.execution_key (with_baseline b) (λ e. refl) id x
          s.db.executions n);
  };
  committed = h.committed;
}

module _ (factory : ExecutionPackageFactory) (task : Task) (execution_id project_id : ℕ) where
  lifted-Keeps : {A : Type 0} (r : Result A) → Keeps (lifted factory task execution_id project_id r)
  lifted-Keeps (return a) s h = h
  lifted-Keeps (raise e) s h = h

  manifest_tasks_for-Keeps :
      (known : Option (ℕ → Option BootstrapTask)) (binding : Option RuntimeTaskPlanBinding)
      → Keeps (manifest_tasks_for factory task execution_id project_id known binding)
  manifest_tasks_for-Keeps (some tasks) binding s h = h
  manifest_tasks_for-Keeps none none s h = h
  manifest_tasks_for-Keeps none (some binding) s h =
      lifted-Keeps (factory.build_runtime_manifest_tasks project_id s.db) s h

  finish_build-Keeps :
      (manifest : BootstrapTask) (binding : Option RuntimeTaskPlanBinding)
      (baseline : Option HardeningBaselineState)
      → Keeps (finish_build factory task execution_id project_id manifest binding baseline)
  finish_build-Keeps manifest binding none s h = h
  finish_build-Keeps manifest binding (some b) s h = set_baseline-Keeps execution_id b s h

  check_manifest_task-Keeps :
      (binding : Option RuntimeTaskPlanBinding) (manifest : Option BootstrapTask)
      → Keeps (check_manifest_task factory task execution_id project_id binding manifest)
  check_manifest_task-Keeps none none s = λ h. h
  check_manifest_task-Keeps (some binding) none s = λ h. h
  check_manifest_task-Keeps binding (some manifest) s =
      if-Keeps (not (str_eq task.title manifest.title)) _ _ (λ _ h. h)
        (if-Keeps (not (same_class task.execution_class manifest.execution_class)) _ _ (λ _ h. h)
          (if-Keeps (not (same_bool task.schedulable manifest.schedulable)) _ _ (λ _ h. h)
            (λ t.
              finish_build-Keeps manifest binding
                (current_baseline factory task execution_id project_id binding t.db) t)))
        s

  build-Keeps : Keeps (build factory task execution_id project_id)
  unfolding build
  build-Keeps s =
      bind-Keeps
        (manifest_tasks_for factory task execution_id project_id factory.manifest_tasks
          (binding_of task.id s.db))
        _ (manifest_tasks_for-Keeps factory.manifest_tasks (binding_of task.id s.db))
        (λ tasks. check_manifest_task-Keeps (binding_of task.id s.db) (tasks task.id)) s

module _ (scheduler : Scheduler) (project_id : ℕ) where
  module _ (task : Task) (claim : ClaimResult) where
    module _ (execution : Execution) (lease : TaskLease) where
      fail_package-Keeps :
          (e : Error) → Keeps (fail_package scheduler project_id task claim execution lease e)
      unfolding fail_package
      fail_package-Keeps e =
          bind-Keeps (release lease.id scheduler.owner_id) _
            (release-Keeps lease.id scheduler.owner_id)
            (λ _.
              update_then-Keeps execution.id package_failure _
                (λ _. set_status-Keeps task.id TaskStatus.blocked))

      after_build-Keeps :
          (r : Result ExecutionPackage)
          → Keeps (after_build scheduler project_id task claim execution lease r)
      after_build-Keeps (return bundle) s = λ h. h
      after_build-Keeps (raise e) s =
          if-Keeps (is_value_error e) _ _ (fail_package-Keeps e) (λ _ h. h) s

      build_package-Keeps : Keeps (build_package scheduler project_id task claim execution lease)
      unfolding build_package
      build_package-Keeps s h =
          after_build-Keeps (build scheduler.factory task execution.id project_id s).0 _
            (build-Keeps scheduler.factory task execution.id project_id s h)

    with_rows-Keeps :
        (execution : Option Execution) (lease : Option TaskLease)
        → Keeps (with_rows scheduler project_id task claim execution lease)
    with_rows-Keeps (some execution) (some lease) s = build_package-Keeps execution lease s
    with_rows-Keeps (some execution) none s = λ h. h
    with_rows-Keeps none lease s = λ h. h

  run_ready-Keeps : (ready : List Task) → Keeps (run_ready scheduler project_id ready)
  run_ready-Keeps [] s = λ h. h
  run_ready-Keeps (task ∷ tasks) s =
      bind-Keeps (claim_task scheduler.blocking (claim_request scheduler project_id task.id)) _
        (claim_task-Keeps scheduler.blocking (claim_request scheduler project_id task.id))
        (λ claim.
          if-Keeps (is_claimed claim.status) _ _
            (with_rows-Keeps task claim claim.execution claim.lease) (λ _ h. h))
        s

  -- An iteration keeps the tables of a sound session well formed.
  pub iterate-Keeps : (limit : ℕ) → Keeps (iterate scheduler project_id limit)
  unfolding iterate
  iterate-Keeps limit s =
      run_ready-Keeps
        (list_ready_tasks scheduler.plan_state scheduler.has_prefix project_id
          (some (larger limit 1)) s)
        s
