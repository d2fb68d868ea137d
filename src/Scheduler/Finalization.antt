-- ===== src/Scheduler/Finalization.antt =====
-- src/ai_ent/scheduler/finalization.py: ExecutionFinalizer. The manifest, git, the verifier, the
-- committer and the callback after verification are arguments, as in the constructor; an answer of
-- git that raises is a RuntimeError. A result names its execution and its task, whose rows the
-- session holds. Identifiers are written into texts by `id_text`.
pub mod Steps
pub mod Outcome
pub mod Guards
pub mod Promises
pub mod Recorded
pub mod Soundness
use Prim.Native.String.{◌++◌ as ◌+++◌}
use ai_ent.Prelude.{
  ℕ, ◌≡◌, ◌&&◌, ◌||◌, not, Bool, true, false, String, Option, none, some, List, [], ◌∷◌, map, ◌==◌,
  ltb, str_eq, if◌then◌else◌, is_some, truthy, Json, null, str, num, bool, arr, obj, Items, nil,
  cons, Fields, end, field, get_field, as_text, text_items,
}
use ai_ent.Persistence.Models.{
  Task, TaskStatus, Execution, ExecutionStatus, ExecutionClass, Checkpoint, CheckpointType,
  TaskLease, is_passed, is_succeeded, is_implementation,
}
use ai_ent.Persistence.Session.{
  Db, Session, Action, Error, value_error, Result, return, raise, pure, throw, gets, now, draw_uuid,
  ◌>>=◌, ◌>>◌,
}
use ai_ent.Persistence.Tasks
use ai_ent.Persistence.Executions
use ai_ent.Persistence.Leases
use ai_ent.Persistence.Checkpoints
use ai_ent.Bootstrap.Models.{
  BootstrapTask, Candidate, CommandResult, VerificationResult, ExecutionPackage, command_ok,
}
use ai_ent.Bootstrap.Git.{Finding, finding_text, is_empty, validate_scope, ◌>>=◌ as ◌>>=ʳ◌}
use ai_ent.Scheduler.Claiming.{has_valid_lease, release, complete}

pub data FinalizationStatus : Type 0 where
  completed idempotent_completed precondition_failed scope_failed verification_failed commit_denied
        commit_created_db_pending :
      FinalizationStatus

pub data SuccessfulFinalizationKind : Type 0 where
  new_verified_change already_satisfied_noop repair_converged_existing_tree :
      SuccessfulFinalizationKind

pub data FinalizationReason : Type 0 where
  execution_task_mismatch execution_not_ready missing_execution_lease lease_not_owned_or_expired
        missing_worktree manifest_db_mismatch not_verified :
      FinalizationReason
  out_of_scope : List Finding → FinalizationReason
  raised : Error → FinalizationReason

pub record ExecutionFinalizationResult : Type 0 where
  pub status : FinalizationStatus
  pub execution : Option ℕ
  pub task : Option ℕ
  pub lease : Option TaskLease
  pub candidate : Option Candidate
  pub verification : Option VerificationResult
  pub commit_id : Option String
  pub committed_tree_hash : Option String
  pub success_kind : Option SuccessfulFinalizationKind
  pub checkpoint : Option Checkpoint
  pub reason : Option FinalizationReason

abbrev pub is_completed : FinalizationStatus → Bool
is_completed completed = true
is_completed idempotent_completed = true
is_completed _ = false

abbrev pub kind_text : SuccessfulFinalizationKind → String
kind_text new_verified_change = "NEW_VERIFIED_CHANGE"
kind_text already_satisfied_noop = "ALREADY_SATISFIED_NOOP"
kind_text repair_converged_existing_tree = "REPAIR_CONVERGED_EXISTING_TREE"

abbrev pub is_new_change : SuccessfulFinalizationKind → Bool
is_new_change new_verified_change = true
is_new_change _ = false

-- The answers of git in the worktree, and whether the worktree is a directory.
pub record Worktree : Type 0 where
  pub exists : Bool
  pub toplevel : Result Unit
  pub head : Result String
  pub capture_candidate : BootstrapTask → Result Candidate
  pub subject : Result String
  pub body : Result String
  pub short_head : Result String
  pub head_tree : Result String

pub record Finalizer : Type 0 where
  pub manifest_tasks : ℕ → Option BootstrapTask
  pub verifier : BootstrapTask → VerificationResult
  pub committer : BootstrapTask → Candidate → VerificationResult → String → Result (Option String)
  pub after_verification : Action Unit
  pub fnmatch : String → String → Bool
  pub id_text : ℕ → String
  pub contains : String → String → Bool
  pub error_text : Error → String

abbrev same_class : ExecutionClass → ExecutionClass → Bool
same_class a b = if is_implementation a then is_implementation b else not (is_implementation b)

abbrev same_bool : Bool → Bool → Bool
same_bool a b = if a then b else not b

-- `_manifest_task`
abbrev pub check_manifest : Task → Option BootstrapTask → Option BootstrapTask
check_manifest task none = none
check_manifest task (some m) =
    if not (str_eq task.title m.title)
    then none
    else if not (same_class task.execution_class m.execution_class)
    then none
    else if not (same_bool task.schedulable m.schedulable)
    then none
    else some m

unfoldable pub clean_candidate_success_kind : Execution → SuccessfulFinalizationKind
clean_candidate_success_kind execution =
    if ltb 1 execution.attempt then repair_converged_existing_tree else already_satisfied_noop

abbrev kind_of_text : Option String → Option SuccessfulFinalizationKind
kind_of_text none = none
kind_of_text (some text) =
    if str_eq text "NEW_VERIFIED_CHANGE"
    then some new_verified_change
    else if str_eq text "ALREADY_SATISFIED_NOOP"
    then some already_satisfied_noop
    else if str_eq text "REPAIR_CONVERGED_EXISTING_TREE"
    then some repair_converged_existing_tree
    else none

abbrev state_kind : Option Fields → Option SuccessfulFinalizationKind
state_kind none = none
state_kind (some state) = kind_of_text (as_text (get_field "success_kind" state))

-- `_recorded_success_kind`
unfoldable pub recorded_success_kind : ℕ → Db → Option SuccessfulFinalizationKind
recorded_success_kind execution_id db = elim (Checkpoints.latest_for_execution execution_id db) [
  | none ↦ none
  | some checkpoint ↦ state_kind checkpoint.state
]

abbrev json_text : Option String → Json
json_text none = null
json_text (some text) = str text

-- `_verification_state`
unfoldable pub verification_state : List CommandResult → Items
verification_state [] = nil
verification_state (c ∷ cs) =
    cons
      (obj (
        field "command" (str c.command) (
          field "returncode" (num c.returncode)
            (field "ok" (bool (command_ok c)) (field "output" (str c.output) end)))))
      (verification_state cs)

unfoldable pub failed_outputs : List CommandResult → List String
failed_outputs [] = []
failed_outputs (c ∷ cs) = if command_ok c then failed_outputs cs else c.output ∷ failed_outputs cs

abbrev pub append_checkpoint :
    (task_id execution_id : ℕ)
    → Fields
    → (commit_hash tree_hash : Option String) → Action Checkpoint
append_checkpoint task_id execution_id state commit_hash tree_hash = do
  checkpoint_id ← draw_uuid
  Checkpoints.create checkpoint_id task_id (some execution_id) CheckpointType.execution (some state)
      commit_hash tree_hash

-- What a candidate and its commit leave to record.
pub record Commitment : Type 0 where
  pub commit_id : Option String
  pub success_kind : SuccessfulFinalizationKind
  pub committed_tree_hash : String

-- The rows that a finalization has read.
pub record Subject : Type 0 where
  pub execution : Execution
  pub task : Task
  pub lease : TaskLease

module _ (owner_id : ℕ) (subject : Subject) (candidate : Candidate) where
  abbrev pub failed_lifecycle : String → ℕ → Executions.Lifecycle
  failed_lifecycle reason time = record (Executions.lifecycle ExecutionStatus.failed) {
    candidate_tree_hash = some candidate.tree_hash;
    terminal_state = some "failure";
    error_classification = some reason;
    finished_at = some time;
  }

  abbrev pub failure_state : String → List String → Fields
  failure_state reason findings = field "status" (str reason) (
      field "candidate_tree_hash" (str candidate.tree_hash) (
        field "changed_files" (arr (text_items candidate.changed_files))
          (field "findings" (arr (text_items findings)) end)))

  -- The execution is failed, the task blocked, the lease released, and a checkpoint appended.
  unfoldable pub block_task : Executions.Lifecycle → Fields → Action Checkpoint
  block_task lifecycle state = do
    Executions.update_lifecycle subject.execution.id lifecycle
    Tasks.update_status subject.task.id TaskStatus.blocked
    release subject.lease.id owner_id
    append_checkpoint subject.task.id subject.execution.id state none (some candidate.tree_hash)

  abbrev pub record_failure : String → List String → Action Checkpoint
  record_failure reason findings = do
    time ← gets now
    block_task (failed_lifecycle reason time) (failure_state reason findings)

  abbrev pub success_lifecycle : Commitment → ℕ → Executions.Lifecycle
  success_lifecycle c time = record (Executions.lifecycle ExecutionStatus.succeeded) {
    candidate_tree_hash = some candidate.tree_hash;
    commit_hash = c.commit_id;
    terminal_state = some "success";
    finished_at = some time;
  }

  abbrev pub success_state : String → VerificationResult → Commitment → Fields
  success_state baseline_commit verification c = field "status" (str "completed") (
      field "baseline_commit" (str baseline_commit) (
        field "candidate_tree_hash" (str candidate.tree_hash) (
          field "committed_tree_hash" (str c.committed_tree_hash) (
            field "commit_id" (json_text c.commit_id) (
              field "commit_created" (bool (is_new_change c.success_kind)) (
                field "success_kind" (str (kind_text c.success_kind))
                  (field "verification" (arr (verification_state verification.commands)) end)))))))

  unfoldable pub record_success : String → VerificationResult → Commitment → Action Checkpoint
  record_success baseline_commit verification c = do
    time ← gets now
    Executions.update_lifecycle subject.execution.id (success_lifecycle c time)
    Tasks.update_status subject.task.id TaskStatus.passed
    complete subject.lease.id owner_id
    append_checkpoint subject.task.id subject.execution.id
        (success_state baseline_commit verification c) c.commit_id (some candidate.tree_hash)
