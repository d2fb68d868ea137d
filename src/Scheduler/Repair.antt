-- ===== src/Scheduler/Repair.antt =====
-- src/ai_ent/scheduler/repair.py: the classifier of failures and the planner of repairs. The
-- repair text that goes into the objective of the task is left out, as the instructions of a
-- package are.
pub mod Classes
pub mod Plans
pub mod Planning
pub mod Service
pub mod Repairing
pub mod Naming
use ai_ent.Prelude.{
  ℕ, ◌+◌, ◌≡◌, ◌&&◌, ◌||◌, not, Bool, true, false, String, Option, none, some, List, [], ◌∷◌,
  Fields, ◌==◌, ltb, leb, str_eq, if◌then◌else◌, is_none, or_else, truthy, opt_eq, get_field,
  as_text, count, mentions, reads_as,
}
use ai_ent.Persistence.Models.{Task, TaskStatus, Execution, ExecutionStatus, Checkpoint, TaskLease}
use ai_ent.Persistence.Session.{
  Db, Session, Action, value_error, pure, throw, gets, change, now, ◌>>=◌, ◌>>◌,
}
use ai_ent.Persistence.Tasks
use ai_ent.Persistence.Executions
use ai_ent.Persistence.Leases
use ai_ent.Persistence.Checkpoints
use ai_ent.Bootstrap.Models.{BootstrapTask, ExecutionPackage, build_execution_package}
use ai_ent.Scheduler.Claiming.{
  ClaimRequest, ClaimResult, ClaimStatus, is_claimed, claim_task, mark_released,
}

pub data FailureCategory : Type 0 where
  implementation_defect verification_failure executor_failure timeout environment_failure
        lease_ownership_failure repository_worktree_failure configuration_failure
        policy_security_failure db_finalization_failure irrecoverable_system_failure :
      FailureCategory

pub data FailureStage : Type 0 where
  claim worktree_preparation executor candidate_freeze scope_validation verification commit
        db_finalization lease_finalization :
      FailureStage

pub data Retryability : Type 0 where
  transient repairable non_retryable reconciliation_required human_required : Retryability

pub data RepairAction : Type 0 where
  retry_same_execution_stage repair_with_new_execution replan block escalate_human reconcile :
      RepairAction

-- A reason is the recorded error, the terminal state in lower case, or a fixed text.
pub data Reason : Type 0 where
  recorded lowered fixed : String → Reason

pub record FailureClassification : Type 0 where
  pub category : FailureCategory
  pub stage : FailureStage
  pub retryability : Retryability
  pub reason : Reason

-- `json.loads(state).get("status")`, where that is a text.
abbrev pub state_status : Option Fields → Option String
state_status none = none
state_status (some fields) = as_text (get_field "status" fields)

abbrev pub checkpoint_status : Option Checkpoint → Option String
checkpoint_status none = none
checkpoint_status (some checkpoint) = state_status checkpoint.state

abbrev or_reason : Option String → Reason → Reason
or_reason none other = other
or_reason (some text) other = if str_eq text "" then other else recorded text

abbrev is_timeout : ExecutionStatus → Bool
is_timeout ExecutionStatus.timeout = true
is_timeout _ = false

-- `status in {"failed", "cancelled"}`
abbrev pub is_failed_or_cancelled : ExecutionStatus → Bool
is_failed_or_cancelled ExecutionStatus.failed = true
is_failed_or_cancelled ExecutionStatus.cancelled = true
is_failed_or_cancelled _ = false

abbrev pub is_failed : ExecutionStatus → Bool
is_failed ExecutionStatus.failed = true
is_failed _ = false

abbrev terminal_reason : String → Reason
terminal_reason text = if str_eq text "" then fixed "executor failed" else lowered text

abbrev as_classification :
    FailureCategory → FailureStage → Retryability → Option String → String → FailureClassification
as_classification category stage retryability error text = record {
  category = category;
  stage = stage;
  retryability = retryability;
  reason = or_reason error (fixed text);
}

-- The last tests of `classify`, and its default.
classify_rest : Execution → FailureClassification
classify_rest execution =
    let recorded_error = execution.error_classification in
    let error = or_else recorded_error "" in
    let terminal = or_else execution.terminal_state "" in
    if reads_as "not_configured" terminal || mentions "not_configured" error
    then as_classification configuration_failure executor human_required recorded_error
        "executor not configured"
    else if mentions "worktree" error
    then as_classification repository_worktree_failure worktree_preparation transient recorded_error
        "worktree failure"
    else if mentions "lease" error || mentions "ownership" error
    then as_classification lease_ownership_failure lease_finalization transient recorded_error
        "lease ownership failure"
    else if mentions "environment" error || mentions "postgres" error || mentions "docker" error
    then as_classification environment_failure executor transient recorded_error
        "environment failure"
    else if is_failed_or_cancelled execution.status
    then record {
      category = executor_failure;
      stage = executor;
      retryability = repairable;
      reason = or_reason recorded_error (terminal_reason terminal);
    }
    else as_classification irrecoverable_system_failure executor human_required recorded_error
        "unclassified failure"

-- The tests in the order of the code. `error` and `terminal` are read in lower case.
unfoldable pub classify : Execution → Option Checkpoint → FailureClassification
unfolding classify_rest
classify execution latest_checkpoint =
    let recorded_error = execution.error_classification in
    let error = or_else recorded_error "" in
    let terminal = or_else execution.terminal_state "" in
    let status = checkpoint_status latest_checkpoint in
    if opt_eq status (some "scope_failed") || mentions "scope" error
    then as_classification policy_security_failure scope_validation human_required recorded_error
        "scope validation failed"
    else if opt_eq status (some "verification_failed") || mentions "verification" error
    then as_classification verification_failure verification repairable recorded_error
        "verification failed"
    else if opt_eq status (some "commit_denied") || mentions "commit" error
    then as_classification repository_worktree_failure commit non_retryable recorded_error
        "commit denied"
    else if mentions "db_pending" error || mentions "db" error
    then as_classification db_finalization_failure db_finalization reconciliation_required
        recorded_error "database finalization pending"
    else if is_timeout execution.status || reads_as "timeout" terminal || mentions "timeout" error
    then as_classification FailureCategory.timeout executor transient recorded_error "timeout"
    else classify_rest execution

pub record RepairPolicy : Type 0 where
  pub max_autonomous_repair_attempts : ℕ
  pub repair_lease_duration : ℕ
  pub repair_owner_id : ℕ

pub record RepairDecision : Type 0 where
  pub classification : FailureClassification
  pub action : RepairAction
  pub failed_execution : Execution
  pub task : Task
  pub repair_attempt_count : ℕ
  pub max_attempts : ℕ
  pub next_execution : Option Execution
  pub next_package : Option ExecutionPackage
  pub human_reason : Option Reason

unfoldable pub action_for : RepairPolicy → Retryability → ℕ → RepairAction
action_for policy reconciliation_required attempts = reconcile
action_for policy human_required attempts = escalate_human
action_for policy non_retryable attempts = block
action_for policy transient attempts = retry_same_execution_stage
action_for policy repairable attempts =
    if leb policy.max_autonomous_repair_attempts attempts
    then escalate_human
    else repair_with_new_execution

-- `execution.attempt > 1 and execution.status == "failed"`
abbrev pub is_failed_repair : Execution → Bool
is_failed_repair e = ltb 1 e.attempt && is_failed e.status

unfoldable pub repair_attempt_count : List Execution → ℕ
repair_attempt_count = count is_failed_repair

abbrev pub is_repair : RepairAction → Bool
is_repair repair_with_new_execution = true
is_repair _ = false

abbrev escalated_reason : RepairAction → Reason → Option Reason
escalated_reason escalate_human reason = some reason
escalated_reason _ reason = none

abbrev pub claim_status_text : ClaimStatus → String
claim_status_text ClaimStatus.claimed = "CLAIMED"
claim_status_text ClaimStatus.not_found = "NOT_FOUND"
claim_status_text ClaimStatus.not_claimable = "NOT_CLAIMABLE"
claim_status_text ClaimStatus.already_leased = "ALREADY_LEASED"

module _ (policy : RepairPolicy) where
  -- A decision with no next execution.
  abbrev decided :
      FailureClassification → RepairAction → Execution → Task → ℕ → Option Reason → RepairDecision
  decided classification action execution task attempts human_reason = record {
    classification = classification;
    action = action;
    failed_execution = execution;
    task = task;
    repair_attempt_count = attempts;
    max_attempts = policy.max_autonomous_repair_attempts;
    next_execution = none;
    next_package = none;
    human_reason = human_reason;
  }

  -- The decision about an execution of a task, from what the tables hold.
  unfoldable pub read_only_decision : Execution → Task → Session → RepairDecision
  read_only_decision execution task s =
      let classification =
        classify execution (Checkpoints.latest_for_execution execution.id s.db) in
      let attempts = repair_attempt_count (Executions.list_by_task task.id s.db) in
      let action = action_for policy classification.retryability attempts in
      decided classification action execution task attempts
        (escalated_reason action classification.reason)

  abbrev pub repair_request : ℕ → ClaimRequest
  repair_request task_id = record {
    task_id = task_id;
    owner_id = policy.repair_owner_id;
    lease_duration = policy.repair_lease_duration;
    executor_type = "codex";
    lease_id = none;
    execution_id = none;
  }

  module _ (blocking : Task → Db → List ℕ) (manifest : ℕ → Option BootstrapTask)
      (worktree_path : String) where
    -- The package of the repair; `self._manifest_task` raises where the manifest has no such task.
    abbrev with_package : RepairDecision → Execution → Option BootstrapTask → Action RepairDecision
    with_package decision execution none = throw (value_error "manifest task not found")
    with_package decision execution (some task) = pure (record decision {
      next_execution = some execution;
      next_package =
          some (build_execution_package task worktree_path execution.id 900 none none none);
    })

    abbrev after_claim : RepairDecision → ClaimResult → Option Execution → Action RepairDecision
    after_claim decision granted (some execution) =
        if is_claimed granted.status
        then with_package decision execution (manifest decision.task.id)
        else pure (record decision {
          action = block;
          human_reason = some (fixed (claim_status_text granted.status));
        })
    after_claim decision granted none = pure (record decision {
      action = block;
      human_reason = some (fixed (claim_status_text granted.status));
    })

    -- `active_lease.status = "released"`, where the task has an active lease.
    abbrev release_active : Option TaskLease → Action Unit
    release_active none s = pure tt s
    release_active (some lease) s = change (Leases.set_lease lease.id (mark_released (now s))) s

    unfoldable pub start_repair : RepairDecision → Action RepairDecision
    start_repair decision = do
      lease ← gets (λ s. Leases.active_for_task decision.task.id s.db)
      release_active lease
      change (Tasks.set_status decision.task.id TaskStatus.pending)
      granted ← claim_task blocking (repair_request decision.task.id)
      after_claim decision granted granted.execution

    unfoldable pub plan : ℕ → Action RepairDecision
    plan execution_id = do
      execution ← Executions.require execution_id
      task ← Tasks.require execution.task_id
      decision ← gets (read_only_decision execution task)
      if is_repair decision.action then start_repair decision else pure decision
