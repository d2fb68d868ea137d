-- ===== src/Scheduler/Bounded/Keeping.antt =====
-- src/ai_ent/scheduler/bounded.py: a run keeps the tables well formed.
use ai_ent.Prelude.{ℕ, zero, suc, ◌+◌, ◌&&◌, not, Option, none, some, ltb, leb}
use ai_ent.Persistence.Models.{Task, TaskStatus, Execution, TaskLease}
use ai_ent.Persistence.Session.{Action, pure, commit}
use ai_ent.Persistence.Sound.{Keeps, bind-Keeps, if-Keeps, set_status-Keeps}
use ai_ent.Bootstrap.Models.{ExecutionPackage}
use ai_ent.Scheduler.Claiming.{release}
use ai_ent.Scheduler.Claiming.Soundness.{release-Keeps}
use ai_ent.Scheduler.Durability.{persist_execution_ownership}
use ai_ent.Scheduler.Durability.Ownership.{commit-Keeps, persist-Keeps}
use ai_ent.Scheduler.Execution.{ClaimedExecutionStatus, run_claimed}
use ai_ent.Scheduler.Execution.Running.{run_claimed-Keeps}
use ai_ent.Scheduler.Finalization.{ExecutionFinalizationResult, is_completed}
use ai_ent.Scheduler.Finalization.Steps.{finalize}
use ai_ent.Scheduler.Finalization.Soundness.{finalize-Keeps}
use ai_ent.Scheduler.Repair.Service.{RepairExecutionResult, repair_once, is_executed}
use ai_ent.Scheduler.Repair.Repairing.{repair_once-Keeps}
use ai_ent.Scheduler.Iteration.{SchedulerIterationResult, SchedulerIterationStatus, iterate}
use ai_ent.Scheduler.Iteration.Iterating.{iterate-Keeps}
use ai_ent.Scheduler.Bounded.Tasks.{
  TaskRunner, TaskResult, is_lost, is_repaired, is_not_allowed, counted, after_repairs,
  next_failure, after_finalization, repair_rounds, after_finalize, run_failed, finish_executed,
  run_task, record_executor_failure, block_running, release_held, row_is_running, row_is_active,
  failed_execution,
}
use ai_ent.Scheduler.Bounded.{
  BoundedRunner, Run, Flow, break, continue, exhausted, first_run, round, rounds, run_bounded,
  follow, after_iteration, not_ready, with_package, attempt_task, after_task, after_success,
  count_task, is_done, stop_reason_for_outcome, persist_rows, persist_claim_boundary, persist_if,
  elapsed,
}

block_running-Keeps : (task : Option Task) → Keeps (block_running task)
block_running-Keeps none s = λ h. h
block_running-Keeps (some task) s =
    if-Keeps (row_is_running task.id s) _ _ (set_status-Keeps task.id TaskStatus.blocked) (λ _ h. h)
      s

release_held-Keeps :
    (status : ClaimedExecutionStatus) (owner_id : ℕ) (lease : Option TaskLease)
    → Keeps (release_held status owner_id lease)
release_held-Keeps status owner_id none s = λ h. h
release_held-Keeps status owner_id (some lease) s =
    if-Keeps (row_is_active lease.id s && not (is_lost status)) _ _
      (bind-Keeps (release lease.id owner_id) _ (release-Keeps lease.id owner_id) (λ _ _ h. h))
      (λ _ h. h) s

record_executor_failure-Keeps :
    (scheduled : SchedulerIterationResult) (status : ClaimedExecutionStatus) (owner_id : ℕ)
    → Keeps (record_executor_failure scheduled status owner_id)
unfolding record_executor_failure
record_executor_failure-Keeps scheduled status owner_id =
    bind-Keeps (block_running scheduled.task) _ (block_running-Keeps scheduled.task)
      (λ _. release_held-Keeps status owner_id scheduled.lease)

module _ (r : TaskRunner) (repair_calls : Keeps r.repair.finalizer.after_verification) where
  module _ (bundle : ExecutionPackage) where
    after_repairs-Keeps :
        (last : Option RepairExecutionResult) (n : ℕ) → Keeps (after_repairs r bundle last n)
    after_repairs-Keeps none n s h = h
    after_repairs-Keeps (some result) n s h = h

    repair_rounds-Keeps :
        (fuel n : ℕ) (last : Option RepairExecutionResult) (id : ℕ)
        → Keeps (repair_rounds r bundle fuel n last id)
    unfolding repair_rounds
    repair_rounds-Keeps zero n last id = λ s h. h
    repair_rounds-Keeps (suc fuel) n last id =
        if-Keeps (ltb n r.max_repairs_per_task) _ _
          (bind-Keeps (repair_once r.repair id) _ (repair_once-Keeps r.repair repair_calls id)
            (λ result.
              if-Keeps (is_not_allowed result.status) _ _ (after_repairs-Keeps (some result) n) (
                ended _ result (counted r bundle result.decision n)
                  (λ next.
                    repair_rounds-Keeps fuel (counted r bundle result.decision n) (some result)
                      next)
                  result.finalization)))
          (after_repairs-Keeps last n)
      where
        next :
            (loop : ℕ → Action (Option TaskResult)) (result : RepairExecutionResult) (m : ℕ)
            → ((id : ℕ) → Keeps (loop id))
            → (failed : Option ℕ) → Keeps (next_failure r bundle loop result m failed)
        next loop result m k none = after_repairs-Keeps (some result) m
        next loop result m k (some id) = k id

        ended :
            (loop : ℕ → Action (Option TaskResult)) (result : RepairExecutionResult) (m : ℕ)
            → ((id : ℕ) → Keeps (loop id))
            → (e : Option ExecutionFinalizationResult)
            → Keeps (after_finalization r bundle loop result m e)
        ended loop result m k none = after_repairs-Keeps (some result) m
        ended loop result m k (some e) =
            if-Keeps (is_repaired result.status) _ _ (λ _ h. h) (next loop result m k e.execution)

    after_finalize-Keeps :
        (fuel id : ℕ) (ended : ExecutionFinalizationResult)
        → Keeps (after_finalize r bundle fuel id ended)
    after_finalize-Keeps fuel id ended =
        if-Keeps (is_completed ended.status) _ _ (λ _ h. h)
          (repair_rounds-Keeps fuel 0 none (failed_execution r bundle ended.execution id))

  module _ (calls_back : Keeps r.finalizer.after_verification) (owner_id fuel : ℕ)
      (scheduled : SchedulerIterationResult) (bundle : ExecutionPackage) where
    run_failed-Keeps :
        (status : ClaimedExecutionStatus)
        → Keeps (run_failed r owner_id fuel scheduled bundle status)
    run_failed-Keeps status =
        bind-Keeps (record_executor_failure scheduled status owner_id) _
          (record_executor_failure-Keeps scheduled status owner_id) (λ _ _ h. h)

    finish_executed-Keeps :
        (status : ClaimedExecutionStatus) (ran : Option ExecutionPackage)
        → Keeps (finish_executed r owner_id fuel scheduled bundle status ran)
    finish_executed-Keeps status none = run_failed-Keeps status
    finish_executed-Keeps status (some ran) =
        bind-Keeps (finalize r.finalizer (r.worktree ran) owner_id ran) _
          (finalize-Keeps r.finalizer (r.worktree ran) owner_id calls_back ran)
          (after_finalize-Keeps ran fuel bundle.execution_id)

    run_task-Keeps : Keeps (run_task r owner_id fuel scheduled bundle)
    unfolding run_task
    run_task-Keeps =
        bind-Keeps (run_claimed (r.runner bundle) owner_id bundle r.baseline_ref) _
          (run_claimed-Keeps (r.runner bundle) owner_id bundle r.baseline_ref)
          (λ run.
            if-Keeps (is_executed run.status) _ _
              (finish_executed-Keeps run.status run.execution_package)
              (run_failed-Keeps run.status))

module _ (r : BoundedRunner) (calls_back : Keeps r.tasks.finalizer.after_verification)
    (repair_calls : Keeps r.tasks.repair.finalizer.after_verification) where
  persist_rows-Keeps :
      (task : Option Task) (execution : Option Execution) (lease : Option TaskLease)
      → Keeps (persist_rows r task execution lease)
  persist_rows-Keeps none execution lease = λ s h. h
  persist_rows-Keeps (some task) none lease = λ s h. h
  persist_rows-Keeps (some task) (some execution) none = λ s h. h
  persist_rows-Keeps (some task) (some execution) (some lease) =
      bind-Keeps
        (persist_execution_ownership task.id execution.id r.scheduler.owner_id (some lease.id)) _
        (persist-Keeps task.id execution.id r.scheduler.owner_id (some lease.id)) (λ _ _ h. h)

  after_success-Keeps : (run : Run) → Keeps (after_success r run)
  after_success-Keeps run =
      if-Keeps (r.shutdown run.asked) _ _ (λ _ h. h)
        (if-Keeps (leb r.limits.max_tasks_per_run run.tasks_attempted) _ _ (λ _ h. h) (λ _ h. h))

  after_task-Keeps : (run : Run) (result : Option TaskResult) → Keeps (after_task r run result)
  after_task-Keeps run none = λ s h. h
  after_task-Keeps run (some result) = λ s h.
      let successful = record (count_task r result run) {
        tasks_completed = run.tasks_completed + 1;
      } in
      let failed = record (count_task r result run) { tasks_failed = run.tasks_failed + 1 } in
      if-Keeps (is_done result.outcome.status) (after_success r successful)
        (pure (break (stop_reason_for_outcome result.outcome) failed))
        (after_success-Keeps successful) (λ _ q. q) (commit s).1 (commit-Keeps s h)

  attempt_task-Keeps :
      (run : Run) (scheduled : SchedulerIterationResult) (bundle : ExecutionPackage)
      → Keeps (attempt_task r run scheduled bundle)
  unfolding attempt_task
  attempt_task-Keeps run scheduled bundle =
      bind-Keeps (persist_claim_boundary r scheduled) _
        (persist_rows-Keeps scheduled.task scheduled.execution scheduled.lease)
        (λ _.
          bind-Keeps (run_task r.tasks r.scheduler.owner_id r.repair_fuel scheduled bundle) _
            (run_task-Keeps r.tasks repair_calls calls_back r.scheduler.owner_id r.repair_fuel
              scheduled bundle)
            (after_task-Keeps _))

  persist_if-Keeps : (e : Option Execution) → Keeps (persist_if r e)
  persist_if-Keeps none = λ s h. h
  persist_if-Keeps (some e) = commit-Keeps

  not_ready-Keeps :
      (run : Run) (scheduled : SchedulerIterationResult) → Keeps (not_ready r run scheduled)
  not_ready-Keeps run scheduled =
      bind-Keeps (persist_if r scheduled.execution) _ (persist_if-Keeps scheduled.execution)
        (λ _ _ h. h)

  with_package-Keeps :
      (run : Run) (scheduled : SchedulerIterationResult) (bundle : Option ExecutionPackage)
      → Keeps (with_package r run scheduled bundle)
  with_package-Keeps run scheduled none = not_ready-Keeps run scheduled
  with_package-Keeps run scheduled (some bundle) = attempt_task-Keeps run scheduled bundle

  after_iteration-Keeps :
      (run : Run) (scheduled : SchedulerIterationResult) (status : SchedulerIterationStatus)
      → Keeps (after_iteration r run scheduled status)
  after_iteration-Keeps run scheduled SchedulerIterationStatus.no_ready_task = λ s h. h
  after_iteration-Keeps run scheduled SchedulerIterationStatus.claim_contention = λ s h. h
  after_iteration-Keeps run scheduled SchedulerIterationStatus.package_ready =
      with_package-Keeps run scheduled scheduled.execution_package
  after_iteration-Keeps run scheduled SchedulerIterationStatus.blocked =
      not_ready-Keeps run scheduled
  after_iteration-Keeps run scheduled SchedulerIterationStatus.error = not_ready-Keeps run scheduled

  round-Keeps : (run : Run) → Keeps (round r run)
  unfolding round
  round-Keeps run =
      if-Keeps (leb r.limits.max_tasks_per_run run.tasks_attempted) _ _ (λ _ h. h)
        (if-Keeps (leb r.limits.max_wall_clock_seconds (elapsed r run.ticks)) _ _ (λ _ h. h)
          (if-Keeps (leb r.limits.max_failures_per_run run.tasks_failed) _ _ (λ _ h. h)
            (if-Keeps (r.shutdown run.asked) _ _ (λ _ h. h)
              (bind-Keeps (iterate r.scheduler r.project_id 1) _
                (iterate-Keeps r.scheduler r.project_id 1)
                (λ scheduled. after_iteration-Keeps _ scheduled scheduled.status)))))

  rounds-Keeps : (fuel : ℕ) (run : Run) → Keeps (rounds r fuel run)
  unfolding rounds
  rounds-Keeps zero run = λ s h. h
  rounds-Keeps (suc fuel) run =
      bind-Keeps (round r run) _ (round-Keeps run) (follow-Keeps (rounds-Keeps fuel))
    where
      follow-Keeps :
          ((next : Run) → Keeps (rounds r fuel next))
          → (flow : Flow) → Keeps (follow r (rounds r fuel) flow)
      follow-Keeps k (break reason final) = λ s h. h
      follow-Keeps k (continue next) = k next
      follow-Keeps k exhausted = λ s h. h

  -- A bounded run, of any length, keeps the tables of a sound session well formed, in its
  -- transaction and in what is committed, where the callbacks of its finalizers do.
  pub run_bounded-Keeps : (fuel : ℕ) → Keeps (run_bounded r fuel)
  unfolding run_bounded
  run_bounded-Keeps fuel = rounds-Keeps fuel first_run
