-- ===== src/Scheduler/Bounded/Tasks.antt =====
-- src/ai_ent/scheduler/bounded.py: `_run_task`, which runs a claimed task, finalizes it, and repairs
-- it while repairs are allowed. The loop of the repairs takes fuel.
use ai_ent.Prelude.{
  ℕ, zero, suc, ◌+◌, ◌&&◌, not, Bool, true, false, String, Option, none, some, List, [], ◌∷◌, ltb,
  str_eq, if◌then◌else◌, is_some,
}
use ai_ent.Persistence.Models.{Task, TaskStatus, Execution, TaskLease, is_running, is_active}
use ai_ent.Persistence.Session.{
  Session, Action, assertion_error, pure, throw, gets, change, ◌>>=◌, ◌>>◌,
}
use ai_ent.Persistence.Tasks
use ai_ent.Persistence.Leases
use ai_ent.Bootstrap.Models.{ExecutionPackage}
use ai_ent.Scheduler.Claiming.{release}
use ai_ent.Scheduler.Execution.{
  Runner, ClaimedExecutionResult, ClaimedExecutionStatus, ownership_lost, run_claimed,
}
use ai_ent.Scheduler.Finalization.{
  Finalizer, Worktree, ExecutionFinalizationResult, SuccessfulFinalizationKind, is_completed,
}
use ai_ent.Scheduler.Finalization.Steps.{finalize}
use ai_ent.Scheduler.Repair.{FailureClassification, RepairDecision}
use ai_ent.Scheduler.Repair.Service.{
  RepairService, RepairExecutionResult, RepairExecutionStatus, is_executed, repair_once,
}
use ai_ent.Scheduler.Iteration.{SchedulerIterationResult, SchedulerIterationStatus, IterationReason}

pub data TaskOutcomeStatus : Type 0 where
  completed failed repaired repair_failed contention blocked : TaskOutcomeStatus

pub data OutcomeReason : Type 0 where
  scheduling : Option IterationReason → SchedulerIterationStatus → OutcomeReason
  running : ClaimedExecutionStatus → OutcomeReason
  repairing : RepairExecutionStatus → OutcomeReason

pub record TaskRunOutcome : Type 0 where
  pub task_id : Option ℕ
  pub execution_id : Option ℕ
  pub status : TaskOutcomeStatus
  pub commit_id : Option String
  pub success_kind : Option SuccessfulFinalizationKind
  pub repair_execution_id : Option ℕ
  pub classification : Option FailureClassification
  pub reason : Option OutcomeReason

-- `_InternalTaskResult`
pub record TaskResult : Type 0 where
  pub outcome : TaskRunOutcome
  pub commits : List String
  pub repairs_attempted : ℕ

pub record TaskRunner : Type 0 where
  pub runner : ExecutionPackage → Runner
  pub baseline_ref : String
  pub finalizer : Finalizer
  pub worktree : ExecutionPackage → Worktree
  pub repair : RepairService
  pub max_repairs_per_task : ℕ

abbrev pub new_outcome : TaskOutcomeStatus → TaskRunOutcome
new_outcome status = record {
  task_id = none;
  execution_id = none;
  status = status;
  commit_id = none;
  success_kind = none;
  repair_execution_id = none;
  classification = none;
  reason = none;
}

-- `(commit,) if commit else ()`
abbrev pub as_commits : Option String → List String
as_commits none = []
as_commits (some id) = if str_eq id "" then [] else id ∷ []

abbrev pub is_lost : ClaimedExecutionStatus → Bool
is_lost ownership_lost = true
is_lost _ = false

abbrev pub is_repaired : RepairExecutionStatus → Bool
is_repaired RepairExecutionStatus.repaired = true
is_repaired _ = false

abbrev pub is_not_allowed : RepairExecutionStatus → Bool
is_not_allowed RepairExecutionStatus.repair_not_allowed = true
is_not_allowed _ = false

abbrev pub execution_of : Option Execution → Option ℕ
execution_of none = none
execution_of (some execution) = some execution.id

-- The rows of the task and of the lease as they are now.
abbrev pub row_is_running : ℕ → Session → Bool
row_is_running id s = elim (Tasks.get id s.db) [ some t ↦ is_running t.status | none ↦ false ]

abbrev pub row_is_active : ℕ → Session → Bool
row_is_active id s = elim (Leases.get id s.db) [ some l ↦ is_active l.status | none ↦ false ]

abbrev pub block_running : Option Task → Action Unit
block_running none = pure tt
block_running (some task) = do
  runs ← gets (row_is_running task.id)
  if runs then change (Tasks.set_status task.id TaskStatus.blocked) else pure tt

abbrev pub release_held : ClaimedExecutionStatus → ℕ → Option TaskLease → Action Unit
release_held status owner_id none = pure tt
release_held status owner_id (some lease) = do
  held ← gets (row_is_active lease.id)
  if held && not (is_lost status) then (do release lease.id owner_id; pure tt) else pure tt

-- `_record_executor_failure`
unfoldable pub record_executor_failure :
    SchedulerIterationResult → ClaimedExecutionStatus → (owner_id : ℕ) → Action Unit
record_executor_failure scheduled status owner_id = do
  block_running scheduled.task
  release_held status owner_id scheduled.lease

-- The outcome of a task whose repair was tried.
abbrev pub classification_after : RepairExecutionResult → Option FailureClassification
classification_after result = elim result.followup_classification [
  | some c ↦ some c
  | none ↦ some result.decision.classification
]

module _ (r : TaskRunner) (bundle : ExecutionPackage) where
  abbrev pub bundle_outcome : TaskOutcomeStatus → TaskRunOutcome
  bundle_outcome status = record (new_outcome status) {
    task_id = some bundle.task_id;
    execution_id = some bundle.execution_id;
  }

  abbrev pub repaired_result : RepairExecutionResult → ExecutionFinalizationResult → ℕ → TaskResult
  repaired_result result ended repairs = record {
    outcome = record (bundle_outcome repaired) {
      commit_id = ended.commit_id;
      success_kind = ended.success_kind;
      repair_execution_id = execution_of result.decision.next_execution;
      classification = some result.decision.classification;
    };
    commits = as_commits ended.commit_id;
    repairs_attempted = repairs;
  }

  abbrev pub unrepaired_result : RepairExecutionResult → ℕ → TaskResult
  unrepaired_result result repairs = record {
    outcome = record (bundle_outcome repair_failed) {
      repair_execution_id = execution_of result.decision.next_execution;
      classification = classification_after result;
      reason = some (OutcomeReason.repairing result.status);
    };
    commits = [];
    repairs_attempted = repairs;
  }

  -- What the loop leaves: `assert repair_result is not None`, and the outcome.
  abbrev pub after_repairs : Option RepairExecutionResult → ℕ → Action (Option TaskResult)
  after_repairs none repairs = throw assertion_error
  after_repairs (some result) repairs = pure (some (unrepaired_result result repairs))

  -- The end of a round: the loop goes on with the execution whose finalization failed.
  abbrev pub next_failure :
      ((failed_id : ℕ) → Action (Option TaskResult))
      → RepairExecutionResult
      → ℕ
      → Option ℕ
      → Action (Option TaskResult)
  next_failure loop result repairs none = after_repairs (some result) repairs
  next_failure loop result repairs (some failed_id) = loop failed_id

  abbrev pub after_finalization :
      ((failed_id : ℕ) → Action (Option TaskResult))
      → RepairExecutionResult
      → ℕ
      → Option ExecutionFinalizationResult
      → Action (Option TaskResult)
  after_finalization loop result repairs none = after_repairs (some result) repairs
  after_finalization loop result repairs (some ended) =
      if is_repaired result.status
      then pure (some (repaired_result result ended repairs))
      else next_failure loop result repairs ended.execution

  -- `repairs_attempted += 1`, where the decision has a next execution.
  abbrev pub counted : RepairDecision → ℕ → ℕ
  counted decision repairs = if is_some decision.next_execution then repairs + 1 else repairs

  abbrev pub after_repair :
      ((repairs : ℕ) (last : RepairExecutionResult) (failed_id : ℕ) → Action (Option TaskResult))
      → ℕ
      → RepairExecutionResult
      → Action (Option TaskResult)
  after_repair loop repairs result =
      if is_not_allowed result.status
      then after_repairs (some result) repairs
      else after_finalization (loop (counted result.decision repairs) result) result
          (counted result.decision repairs) result.finalization

  -- The loop over the repairs; `last` is the result of the round before.
  unfoldable pub repair_rounds :
      (fuel repairs : ℕ) (last : Option RepairExecutionResult) (failed_id : ℕ)
      → Action (Option TaskResult)
  repair_rounds zero repairs last failed_id = pure none
  repair_rounds (suc fuel) repairs last failed_id =
      if ltb repairs r.max_repairs_per_task
      then (repair_once r.repair failed_id
          >>= after_repair (λ n result. repair_rounds fuel n (some result)) repairs)
      else after_repairs last repairs

  abbrev pub completed_result : ExecutionFinalizationResult → TaskResult
  completed_result ended = record {
    outcome = record (bundle_outcome completed) {
      commit_id = ended.commit_id;
      success_kind = ended.success_kind;
    };
    commits = as_commits ended.commit_id;
    repairs_attempted = 0;
  }

  abbrev pub failed_execution : Option ℕ → ℕ → ℕ
  failed_execution none scheduled_id = scheduled_id
  failed_execution (some id) scheduled_id = id

  abbrev pub after_finalize :
      (fuel scheduled_id : ℕ) → ExecutionFinalizationResult → Action (Option TaskResult)
  after_finalize fuel scheduled_id ended =
      if is_completed ended.status
      then pure (some (completed_result ended))
      else repair_rounds fuel 0 none (failed_execution ended.execution scheduled_id)

module _ (r : TaskRunner) (owner_id fuel : ℕ) (scheduled : SchedulerIterationResult)
    (bundle : ExecutionPackage) where
  abbrev pub run_failed : ClaimedExecutionStatus → Action (Option TaskResult)
  run_failed status = do
    record_executor_failure scheduled status owner_id
    pure (
        some (record {
          outcome = record (bundle_outcome r bundle failed) {
            reason = some (OutcomeReason.running status);
          };
          commits = [];
          repairs_attempted = 0;
        }))

  abbrev pub finish_executed :
      ClaimedExecutionStatus → Option ExecutionPackage → Action (Option TaskResult)
  finish_executed status none = run_failed status
  finish_executed status (some ran) = do
    ended ← finalize r.finalizer (r.worktree ran) owner_id ran
    after_finalize r ran fuel bundle.execution_id ended

  abbrev pub after_claimed : ClaimedExecutionResult → Action (Option TaskResult)
  after_claimed run =
      if is_executed run.status
      then finish_executed run.status run.execution_package
      else run_failed run.status

  unfoldable pub run_task : Action (Option TaskResult)
  unfolding record_executor_failure repair_rounds
  run_task = do
    run ← run_claimed (r.runner bundle) owner_id bundle r.baseline_ref
    after_claimed run
