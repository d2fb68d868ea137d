-- ===== src/Scheduler/Repair/Service.antt =====
-- src/ai_ent/scheduler/repair.py: RepairExecutionService, which plans a repair, runs it as a claimed
-- execution and finalizes it. What the runner and the finalizer ask of git is a function of the
-- package. A result names its execution, whose row the session holds.
use ai_ent.Prelude.{
  ℕ, ◌&&◌, Bool, true, false, String, Option, none, some, List, ltb, head?, keep, if◌then◌else◌,
}
use ai_ent.Persistence.Models.{Task, Execution, ExecutionStatus}
use ai_ent.Persistence.Session.{Db, Action, pure, gets, ◌>>=◌, ◌>>◌}
use ai_ent.Persistence.Tasks
use ai_ent.Persistence.Executions
use ai_ent.Persistence.Checkpoints
use ai_ent.Bootstrap.Models.{BootstrapTask, ExecutionPackage}
use ai_ent.Scheduler.Durability.{persist_execution_ownership}
use ai_ent.Scheduler.Execution.{
  Runner, ClaimedExecutionResult, ClaimedExecutionStatus, executed, run_claimed,
}
use ai_ent.Scheduler.Finalization.{Finalizer, Worktree, ExecutionFinalizationResult, is_completed}
use ai_ent.Scheduler.Finalization.Steps.{finalize}
use ai_ent.Scheduler.Repair.{
  RepairPolicy, RepairDecision, FailureClassification, classify, is_repair, plan,
  read_only_decision,
}

pub data RepairExecutionStatus : Type 0 where
  repair_already_exists repair_not_allowed execution_failed repaired repair_failed :
      RepairExecutionStatus

pub record RepairExecutionResult : Type 0 where
  pub status : RepairExecutionStatus
  pub decision : RepairDecision
  pub execution_result : Option ClaimedExecutionResult
  pub finalization : Option ExecutionFinalizationResult
  pub followup_classification : Option FailureClassification
  pub existing : Option ℕ

-- The parts of the service, as its constructor takes them.
pub record RepairService : Type 0 where
  pub policy : RepairPolicy
  pub blocking : Task → Db → List ℕ
  pub manifest_tasks : ℕ → Option BootstrapTask
  pub worktree_path : ℕ → String
  pub runner : ExecutionPackage → Runner
  pub baseline_ref : String
  pub finalizer : Finalizer
  pub worktree : ExecutionPackage → Worktree
  pub owner_id : ℕ

abbrev pub is_executed : ClaimedExecutionStatus → Bool
is_executed executed = true
is_executed _ = false

-- `status in {"pending", "running", "succeeded", "timeout"}`
abbrev pub is_open_or_done : ExecutionStatus → Bool
is_open_or_done ExecutionStatus.pending = true
is_open_or_done ExecutionStatus.running = true
is_open_or_done ExecutionStatus.succeeded = true
is_open_or_done ExecutionStatus.timeout = true
is_open_or_done _ = false

abbrev pub repairs : Execution → Execution → Bool
repairs failed execution = ltb failed.attempt execution.attempt && is_open_or_done execution.status

-- `_existing_repair_attempt`: the first such execution in the order of the attempts.
unfoldable pub existing_repair_attempt : Execution → Db → Option Execution
existing_repair_attempt failed db =
    head? (keep (repairs failed) (Executions.list_by_task failed.task_id db))

abbrev pub classify_row : Option Execution → Db → Option FailureClassification
classify_row none db = none
classify_row (some execution) db =
    some (classify execution (Checkpoints.latest_for_execution execution.id db))

-- The classification of the execution that a result names, from its row as it is now.
unfoldable pub classification_of : Option ℕ → Db → Option FailureClassification
classification_of none db = none
classification_of (some execution_id) db = classify_row (Executions.get execution_id db) db

abbrev pub repair_result : RepairExecutionStatus → RepairDecision → RepairExecutionResult
repair_result status decision = record {
  status = status;
  decision = decision;
  execution_result = none;
  finalization = none;
  followup_classification = none;
  existing = none;
}

module _ (service : RepairService) where
  module _ (decision : RepairDecision) where
    abbrev pub after_finalization :
        ClaimedExecutionResult → ExecutionFinalizationResult → Action RepairExecutionResult
    after_finalization run ended =
        if is_completed ended.status
        then pure (record (repair_result repaired decision) {
          execution_result = some run;
          finalization = some ended;
        })
        else do
          followup ← gets (λ s. classification_of ended.execution s.db)
          pure (record (repair_result repair_failed decision) {
            execution_result = some run;
            finalization = some ended;
            followup_classification = followup;
          })

    abbrev pub run_failed : ClaimedExecutionResult → Action RepairExecutionResult
    run_failed run = do
      followup ← gets (λ s. classification_of run.execution s.db)
      pure (record (repair_result execution_failed decision) {
        execution_result = some run;
        followup_classification = followup;
      })

    abbrev pub finish_run :
        ClaimedExecutionResult → Option ExecutionPackage → Action RepairExecutionResult
    finish_run run none = run_failed run
    finish_run run (some bundle) = do
      ended ← finalize service.finalizer (service.worktree bundle) service.owner_id bundle
      after_finalization run ended

    abbrev pub after_run : ClaimedExecutionResult → Action RepairExecutionResult
    after_run run =
        if is_executed run.status then finish_run run run.execution_package else run_failed run

    -- `if decision.next_execution is not None: persist_execution_ownership(…)`
    abbrev pub persist_next : Option Execution → Action Unit
    persist_next none = pure tt
    persist_next (some execution) = do
      persist_execution_ownership decision.task.id execution.id service.owner_id none
      pure tt

    unfoldable pub run_package : ExecutionPackage → Action RepairExecutionResult
    run_package bundle = do
      persist_next decision.next_execution
      run ← run_claimed (service.runner bundle) service.owner_id bundle service.baseline_ref
      after_run run

    abbrev pub run_next : Option ExecutionPackage → Action RepairExecutionResult
    run_next none = pure (repair_result repair_not_allowed decision)
    run_next (some bundle) = run_package bundle

    abbrev pub run_decision : Action RepairExecutionResult
    run_decision =
        if is_repair decision.action
        then run_next decision.next_package
        else pure (repair_result repair_not_allowed decision)

  abbrev pub after_existing : Execution → Option Execution → Action RepairExecutionResult
  after_existing failed (some existing) = do
    task ← Tasks.require failed.task_id
    decision ← gets (read_only_decision service.policy failed task)
    pure (record (repair_result repair_already_exists decision) { existing = some existing.id })
  after_existing failed none = do
    decision ←
        plan service.policy service.blocking service.manifest_tasks
          (service.worktree_path failed.task_id) failed.id
    run_decision decision

  unfoldable pub repair_once : (failed_execution_id : ℕ) → Action RepairExecutionResult
  repair_once failed_execution_id = do
    failed ← Executions.require failed_execution_id
    existing ← gets (λ s. existing_repair_attempt failed s.db)
    after_existing failed existing
