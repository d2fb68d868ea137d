-- ===== src/Scheduler/Bounded.antt =====
-- src/ai_ent/scheduler/bounded.py: BoundedSchedulerRunner. The answers of the clock and of
-- `shutdown_requested` are functions of how often they were asked, and a second of the monotonic
-- clock is a number. Both loops take fuel, and answer `none` where it runs out. What names a run
-- (its identifier and its dates) is left out.
pub mod Tasks
pub mod Repairs
pub mod Counting
pub mod Ending
pub mod Keeping
pub mod Asserting
use ai_ent.Prelude.{
  ℕ, zero, suc, ◌+◌, ◌-◌, ◌≡◌, ◌&&◌, ◌||◌, not, Bool, true, false, String, Option, none, some, List,
  [], ◌∷◌, ◌++◌, leb, ltb, if◌then◌else◌,
}
use ai_ent.Persistence.Models.{Task, Execution, TaskLease}
use ai_ent.Persistence.Session.{Session, Action, pure, gets, commit, ◌>>=◌, ◌>>◌}
use ai_ent.Bootstrap.Models.{ExecutionPackage}
use ai_ent.Scheduler.Durability.{persist_execution_ownership}
use ai_ent.Scheduler.Readiness.{list_ready_tasks}
use ai_ent.Scheduler.Repair.{FailureClassification, Retryability}
use ai_ent.Scheduler.Iteration.{
  Scheduler, SchedulerIterationResult, SchedulerIterationStatus, iterate,
}
use ai_ent.Scheduler.Bounded.Tasks.{
  TaskRunner, TaskRunOutcome, TaskOutcomeStatus, TaskResult, OutcomeReason, run_task, new_outcome,
}

pub data StopReason : Type 0 where
  no_ready_task max_tasks_per_run max_wall_clock_seconds max_failures_per_run human_required block
        replan reconciliation_required runtime_error shutdown_requested :
      StopReason

pub record BoundedRunLimits : Type 0 where
  pub max_tasks_per_run : ℕ
  pub max_wall_clock_seconds : ℕ
  pub max_failures_per_run : ℕ

-- The variables of the loop, with how often the clock and the flag were asked.
pub record Run : Type 0 where
  pub tasks_attempted : ℕ
  pub tasks_completed : ℕ
  pub tasks_failed : ℕ
  pub repairs_attempted : ℕ
  pub commits_created : List String
  pub outcomes : List TaskRunOutcome
  pub last_task_id : Option ℕ
  pub last_execution_id : Option ℕ
  pub ticks : ℕ
  pub asked : ℕ

pub record BoundedRunResult : Type 0 where
  pub final : Run
  pub stop_reason : StopReason

pub record BoundedRunner : Type 0 where
  pub scheduler : Scheduler
  pub project_id : ℕ
  pub tasks : TaskRunner
  pub limits : BoundedRunLimits
  pub clock : ℕ → ℕ
  pub shutdown : ℕ → Bool
  pub repair_fuel : ℕ

pub data Flow : Type 0 where
  break : StopReason → Run → Flow
  continue : Run → Flow
  exhausted : Flow

abbrev pub first_run : Run
first_run = record {
  tasks_attempted = 0;
  tasks_completed = 0;
  tasks_failed = 0;
  repairs_attempted = 0;
  commits_created = [];
  outcomes = [];
  last_task_id = none;
  last_execution_id = none;
  ticks = 1;
  asked = 0;
}

abbrev pub task_id_of : Option Task → Option ℕ
task_id_of none = none
task_id_of (some task) = some task.id

-- `_scheduler_outcome`
abbrev pub scheduler_outcome : SchedulerIterationResult → TaskOutcomeStatus → TaskRunOutcome
scheduler_outcome result status = record (new_outcome status) {
  task_id = task_id_of result.task;
  execution_id = elim result.execution [ some e ↦ some e.id | none ↦ none ];
  reason = some (OutcomeReason.scheduling result.reason result.status);
}

-- `_stop_reason_for_outcome`
abbrev pub stop_for : Retryability → TaskOutcomeStatus → StopReason
stop_for Retryability.reconciliation_required status = reconciliation_required
stop_for Retryability.human_required status = human_required
stop_for _ TaskOutcomeStatus.blocked = block
stop_for _ status = max_failures_per_run

unfoldable pub stop_reason_for_outcome : TaskRunOutcome → StopReason
stop_reason_for_outcome outcome = elim outcome.classification [
  | none ↦ runtime_error
  | some c ↦ stop_for c.retryability outcome.status
]

abbrev pub is_done : TaskOutcomeStatus → Bool
is_done TaskOutcomeStatus.completed = true
is_done TaskOutcomeStatus.repaired = true
is_done _ = false

abbrev pub add_outcome : TaskRunOutcome → Run → Run
add_outcome outcome run = record run { outcomes = run.outcomes ++ outcome ∷ [] }

module _ (r : BoundedRunner) where
  -- `_persist_claim_boundary`
  abbrev pub persist_rows : Option Task → Option Execution → Option TaskLease → Action Unit
  persist_rows (some task) (some execution) (some lease) = do
    persist_execution_ownership task.id execution.id r.scheduler.owner_id (some lease.id)
    pure tt
  persist_rows (some task) (some execution) none = pure tt
  persist_rows (some task) none lease = pure tt
  persist_rows none execution lease = pure tt

  abbrev pub persist_claim_boundary : SchedulerIterationResult → Action Unit
  persist_claim_boundary scheduled = persist_rows scheduled.task scheduled.execution scheduled.lease

  -- `_max_task_stop_reason`
  abbrev pub stop_of_ready : List Task → StopReason
  stop_of_ready [] = no_ready_task
  stop_of_ready (t ∷ ts) = max_tasks_per_run

  abbrev pub max_task_stop_reason : Session → StopReason
  max_task_stop_reason s =
      stop_of_ready
        (list_ready_tasks r.scheduler.plan_state r.scheduler.has_prefix r.project_id (some 1) s)

  -- After a task: its outcome is counted, and the run goes on or stops.
  abbrev pub count_task : TaskResult → Run → Run
  count_task result run = record run {
    outcomes = run.outcomes ++ result.outcome ∷ [];
    commits_created = run.commits_created ++ result.commits;
    repairs_attempted = run.repairs_attempted + result.repairs_attempted;
  }

  abbrev pub after_success : Run → Action Flow
  after_success run =
      let asked = record run { asked = run.asked + 1 } in
      if r.shutdown run.asked
      then pure (break shutdown_requested asked)
      else if leb r.limits.max_tasks_per_run run.tasks_attempted
      then (do reason ← gets max_task_stop_reason; pure (break reason asked))
      else pure (continue asked)

  abbrev pub after_task : Run → Option TaskResult → Action Flow
  after_task run none = pure exhausted
  after_task run (some result) = do
    commit
    if is_done result.outcome.status
        then after_success
            (record (count_task result run) { tasks_completed = run.tasks_completed + 1 })
        else pure (
            break (stop_reason_for_outcome result.outcome)
              (record (count_task result run) { tasks_failed = run.tasks_failed + 1 }))

  unfoldable pub attempt_task : Run → SchedulerIterationResult → ExecutionPackage → Action Flow
  attempt_task run scheduled bundle = do
    persist_claim_boundary scheduled
    result ← run_task r.tasks r.scheduler.owner_id r.repair_fuel scheduled bundle
    after_task
        (record run {
          tasks_attempted = run.tasks_attempted + 1;
          last_task_id = some bundle.task_id;
          last_execution_id = some bundle.execution_id;
        })
        result

  -- `if scheduled.execution is not None: self._persist_attempt_boundary(session)`
  abbrev pub persist_if : Option Execution → Action Unit
  persist_if none = pure tt
  persist_if (some execution) = commit

  abbrev pub not_ready : Run → SchedulerIterationResult → Action Flow
  not_ready run scheduled = do
    persist_if scheduled.execution
    pure (
        break runtime_error
          (add_outcome (scheduler_outcome scheduled TaskOutcomeStatus.blocked) run))

  abbrev pub with_package : Run → SchedulerIterationResult → Option ExecutionPackage → Action Flow
  with_package run scheduled none = not_ready run scheduled
  with_package run scheduled (some bundle) = attempt_task run scheduled bundle

  abbrev pub after_iteration :
      Run → SchedulerIterationResult → SchedulerIterationStatus → Action Flow
  after_iteration run scheduled SchedulerIterationStatus.no_ready_task =
      pure (break no_ready_task run)
  after_iteration run scheduled SchedulerIterationStatus.claim_contention =
      pure (continue (add_outcome (scheduler_outcome scheduled TaskOutcomeStatus.contention) run))
  after_iteration run scheduled SchedulerIterationStatus.package_ready =
      with_package run scheduled scheduled.execution_package
  after_iteration run scheduled _ = not_ready run scheduled

  abbrev pub elapsed : ℕ → ℕ
  elapsed tick = r.clock tick - r.clock 0

  -- One round of the loop.
  unfoldable pub round : Run → Action Flow
  round run =
      let timed = record run { ticks = run.ticks + 1 } in
      let asked = record run { ticks = run.ticks + 1; asked = run.asked + 1 } in
      if leb r.limits.max_tasks_per_run run.tasks_attempted
      then pure (break max_tasks_per_run run)
      else if leb r.limits.max_wall_clock_seconds (elapsed run.ticks)
      then pure (break max_wall_clock_seconds timed)
      else if leb r.limits.max_failures_per_run run.tasks_failed
      then pure (break max_failures_per_run timed)
      else if r.shutdown run.asked
      then pure (break shutdown_requested asked)
      else do
        scheduled ← iterate r.scheduler r.project_id 1
        after_iteration asked scheduled scheduled.status

  abbrev pub follow :
      (Run → Action (Option BoundedRunResult)) → Flow → Action (Option BoundedRunResult)
  follow loop (break reason run) = pure (some (record { final = run; stop_reason = reason }))
  follow loop (continue run) = loop run
  follow loop exhausted = pure none

  unfoldable pub rounds : (fuel : ℕ) → Run → Action (Option BoundedRunResult)
  rounds zero run = pure none
  rounds (suc fuel) run = round run >>= follow (rounds fuel)

  unfoldable pub run_bounded : (fuel : ℕ) → Action (Option BoundedRunResult)
  run_bounded fuel = rounds fuel first_run
