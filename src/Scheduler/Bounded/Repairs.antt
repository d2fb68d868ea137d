-- ===== src/Scheduler/Bounded/Repairs.antt =====
-- src/ai_ent/scheduler/bounded.py: the repairs of a task stay within their limit.
use ai_ent.Prelude.{ℕ, zero, suc, ◌≤◌, Option, none, some, arith, ltb}
use ai_ent.Persistence.Session.{Session, Action}
use ai_ent.Persistence.Ensures.{Ensures, pure-Ensures, throw-Ensures, if-Ensures, bind-Ensures}
use ai_ent.Bootstrap.Models.{ExecutionPackage}
use ai_ent.Scheduler.Execution.{ClaimedExecutionStatus, run_claimed}
use ai_ent.Scheduler.Finalization.{ExecutionFinalizationResult, is_completed}
use ai_ent.Scheduler.Finalization.Steps.{finalize}
use ai_ent.Scheduler.Repair.Service.{RepairExecutionResult, repair_once, is_executed}
use ai_ent.Scheduler.Iteration.{SchedulerIterationResult}
use ai_ent.Scheduler.Bounded.Tasks.{
  TaskRunner, TaskResult, is_repaired, is_not_allowed, counted, after_repairs, next_failure,
  after_finalization, repair_rounds, after_finalize, run_failed, finish_executed, run_task,
  record_executor_failure, failed_execution,
}

-- The repairs of a task stay within the limit.
abbrev pub Within : ℕ → Option TaskResult → Type 0
Within max none = Unit
Within max (some t) = t.repairs_attempted ≤ max

abbrev pub Limited : ℕ → Option TaskResult → Session → Type 0
Limited max result s = Within max result

module _ (r : TaskRunner) (bundle : ExecutionPackage) where
  after_repairs-Limited :
      (last : Option RepairExecutionResult) (n : ℕ)
      → n ≤ r.max_repairs_per_task
      → Ensures (Limited r.max_repairs_per_task) (after_repairs r bundle last n)
  after_repairs-Limited none n h = throw-Ensures _ _
  after_repairs-Limited (some result) n h = pure-Ensures _ _ (λ s. h)

  next_failure-Limited :
      (loop : ℕ → Action (Option TaskResult)) (result : RepairExecutionResult) (n : ℕ)
      (failed : Option ℕ)
      → n ≤ r.max_repairs_per_task
      → ((id : ℕ) → Ensures (Limited r.max_repairs_per_task) (loop id))
      → Ensures (Limited r.max_repairs_per_task) (next_failure r bundle loop result n failed)
  next_failure-Limited loop result n none h k = after_repairs-Limited (some result) n h
  next_failure-Limited loop result n (some id) h k = k id

  after_finalization-Limited :
      (loop : ℕ → Action (Option TaskResult)) (result : RepairExecutionResult) (n : ℕ)
      (ended : Option ExecutionFinalizationResult)
      → n ≤ r.max_repairs_per_task
      → ((id : ℕ) → Ensures (Limited r.max_repairs_per_task) (loop id))
      → Ensures (Limited r.max_repairs_per_task) (after_finalization r bundle loop result n ended)
  after_finalization-Limited loop result n none h k = after_repairs-Limited (some result) n h
  after_finalization-Limited loop result n (some ended) h k =
      if-Ensures _ (is_repaired result.status) _ _ (λ _. pure-Ensures _ _ (λ s. h))
        (λ _. next_failure-Limited loop result n ended.execution h k)

  repair_rounds-Limited :
      (fuel n : ℕ) (last : Option RepairExecutionResult) (id : ℕ)
      → n ≤ r.max_repairs_per_task
      → Ensures (Limited r.max_repairs_per_task) (repair_rounds r bundle fuel n last id)
  unfolding repair_rounds
  repair_rounds-Limited zero n last id h = pure-Ensures _ none (λ s. tt)
  repair_rounds-Limited (suc fuel) n last id h =
      if-Ensures _ (ltb n r.max_repairs_per_task) _ _
        (λ below. bind-Ensures _ (repair_once r.repair id) _ (λ result.
          if-Ensures _ (is_not_allowed result.status) _ _
            (λ _. after_repairs-Limited (some result) n h)
            (λ _.
              let more : counted r bundle result.decision n ≤ r.max_repairs_per_task =
                ground (arith, below) in
              after_finalization-Limited _ result (counted r bundle result.decision n)
                result.finalization more
                (λ next.
                  repair_rounds-Limited fuel (counted r bundle result.decision n) (some result) next
                    more))))
        (λ _. after_repairs-Limited last n h)

  after_finalize-Limited :
      (fuel id : ℕ) (ended : ExecutionFinalizationResult)
      → Ensures (Limited r.max_repairs_per_task) (after_finalize r bundle fuel id ended)
  after_finalize-Limited fuel id ended =
      if-Ensures _ (is_completed ended.status) _ _ (λ _. pure-Ensures _ _ (λ s. omega arith))
        (λ _.
          repair_rounds-Limited fuel 0 none (failed_execution r bundle ended.execution id)
            (omega arith))

module _ (r : TaskRunner) (owner_id fuel : ℕ) (scheduled : SchedulerIterationResult)
    (bundle : ExecutionPackage) where
  run_failed-Limited :
      (status : ClaimedExecutionStatus)
      → Ensures
          (Limited r.max_repairs_per_task)
          (run_failed r owner_id fuel scheduled bundle status)
  run_failed-Limited status =
      bind-Ensures _ (record_executor_failure scheduled status owner_id) _
        (λ _. pure-Ensures _ _ (λ s. omega arith))

  finish_executed-Limited :
      (status : ClaimedExecutionStatus) (ran : Option ExecutionPackage)
      → Ensures
          (Limited r.max_repairs_per_task)
          (finish_executed r owner_id fuel scheduled bundle status ran)
  finish_executed-Limited status none = run_failed-Limited status
  finish_executed-Limited status (some ran) =
      bind-Ensures _ (finalize r.finalizer (r.worktree ran) owner_id ran) _
        (after_finalize-Limited r ran fuel bundle.execution_id)

  pub run_task-Limited :
      Ensures (Limited r.max_repairs_per_task) (run_task r owner_id fuel scheduled bundle)
  unfolding run_task
  run_task-Limited =
      bind-Ensures _ (run_claimed (r.runner bundle) owner_id bundle r.baseline_ref) _ (λ run.
        if-Ensures _ (is_executed run.status) _ _
          (λ _. finish_executed-Limited run.status run.execution_package)
          (λ _. run_failed-Limited run.status))
