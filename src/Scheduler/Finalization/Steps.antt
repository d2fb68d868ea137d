-- ===== src/Scheduler/Finalization/Steps.antt =====
-- src/ai_ent/scheduler/finalization.py: `finalize`, in the order of its tests and steps.
use Prim.Native.String.{◌++◌ as ◌+++◌}
use mathlib.Core.Option
use ai_ent.Prelude.{
  ℕ, ◌&&◌, ◌||◌, not, Bool, true, false, String, Option, none, some, List, [], ◌∷◌, map, ◌==◌,
  str_eq, if◌then◌else◌, is_some, truthy, str, Fields, end, field,
}
use ai_ent.Persistence.Models.{
  Task, Execution, ExecutionStatus, Checkpoint, TaskLease, is_passed, is_succeeded,
}
use ai_ent.Persistence.Session.{
  Action, Error, value_error, Result, return, raise, pure, throw, gets, ◌>>=◌, ◌>>◌,
}
use ai_ent.Persistence.Tasks
use ai_ent.Persistence.Executions
use ai_ent.Persistence.Leases
use ai_ent.Bootstrap.Models.{BootstrapTask, Candidate, VerificationResult, ExecutionPackage}
use ai_ent.Bootstrap.Git.{Finding, finding_text, is_empty, validate_scope, ◌>>=◌ as ◌>>=ʳ◌}
use ai_ent.Scheduler.Claiming.{has_valid_lease}
use ai_ent.Scheduler.Finalization.{
  FinalizationStatus, completed, idempotent_completed, precondition_failed, scope_failed,
  verification_failed, commit_denied, commit_created_db_pending, FinalizationReason,
  execution_task_mismatch, execution_not_ready, missing_execution_lease, lease_not_owned_or_expired,
  missing_worktree, manifest_db_mismatch, not_verified, out_of_scope, raised,
  ExecutionFinalizationResult, Finalizer, Worktree, Commitment, Subject, SuccessfulFinalizationKind,
  new_verified_change, clean_candidate_success_kind, recorded_success_kind, check_manifest,
  failed_outputs, record_failure, record_success, block_task,
}

module _ (finalizer : Finalizer) (worktree : Worktree) where
  -- `subject == f"Complete {task_id}" and f"Execution: {execution_id}" in body`
  abbrev pub names : BootstrapTask → ℕ → String → String → Bool
  names task execution_id subject body =
      str_eq subject ("Complete " +++ finalizer.id_text task.id)
      && finalizer.contains ("Execution: " +++ finalizer.id_text execution_id) body

  abbrev pub matching_body : BootstrapTask → ℕ → String → Result String → Result (Option String)
  matching_body task execution_id subject (raise e) = return none
  matching_body task execution_id subject (return body) =
      if names task execution_id subject body
      then (worktree.short_head >>=ʳ λ head. return (some head))
      else return none

  abbrev pub matching_subject : BootstrapTask → ℕ → Result String → Result (Option String)
  matching_subject task execution_id (raise e) = return none
  matching_subject task execution_id (return subject) =
      matching_body task execution_id subject worktree.body

  -- `_matching_existing_task_commit`
  unfoldable pub matching_existing_task_commit : BootstrapTask → ℕ → Result (Option String)
  matching_existing_task_commit task execution_id =
      matching_subject task execution_id worktree.subject

  abbrev pub with_tree : Option String × SuccessfulFinalizationKind → Result Commitment
  with_tree (commit_id, kind) = worktree.head_tree >>=ʳ λ tree.
      return (record { commit_id = commit_id; success_kind = kind; committed_tree_hash = tree })

  abbrev pub clean_commitment : Execution → Option String → Result Commitment
  clean_commitment execution none = with_tree (none, clean_candidate_success_kind execution)
  clean_commitment execution (some commit) = with_tree (some commit, new_verified_change)

  -- The commit of a verified candidate; a candidate without changes may stand committed already.
  unfoldable pub commit_candidate :
      BootstrapTask → Execution → Candidate → VerificationResult → Result Commitment
  commit_candidate task execution candidate verification =
      if not (is_empty candidate.changed_files)
      then (finalizer.committer task candidate verification (
            "Complete "
            +++ finalizer.id_text task.id
            +++ "\n\nExecution: "
            +++ finalizer.id_text execution.id)
          >>=ʳ λ commit. with_tree (commit, new_verified_change))
      else (matching_existing_task_commit task execution.id >>=ʳ λ commit.
          clean_commitment execution commit)

-- `except (RuntimeError, SQLAlchemyError)`: a ValueError is not caught.
abbrev pub is_caught : Error → Bool
is_caught (value_error text) = false
is_caught _ = true

module _ (finalizer : Finalizer) (worktree : Worktree) (owner_id : ℕ) where
  abbrev pub answer :
      FinalizationStatus
      → Option ℕ
      → Option ℕ
      → Option TaskLease
      → Option FinalizationReason
      → ExecutionFinalizationResult
  answer status execution task lease reason = record {
    status = status;
    execution = execution;
    task = task;
    lease = lease;
    candidate = none;
    verification = none;
    commit_id = none;
    committed_tree_hash = none;
    success_kind = none;
    checkpoint = none;
    reason = reason;
  }

  module _ (subject : Subject) where
    abbrev pub of_subject :
        FinalizationStatus → Option FinalizationReason → ExecutionFinalizationResult
    of_subject status reason =
        answer status (some subject.execution.id) (some subject.task.id) (some subject.lease) reason

    module _ (manifest : BootstrapTask) (baseline_commit : String) (candidate : Candidate) where
      abbrev pub with_commitment :
          FinalizationStatus
          → VerificationResult
          → Commitment
          → Option Checkpoint
          → Option FinalizationReason
          → ExecutionFinalizationResult
      with_commitment status verification c checkpoint reason = record (of_subject status reason) {
        candidate = some candidate;
        verification = some verification;
        commit_id = c.commit_id;
        committed_tree_hash = some c.committed_tree_hash;
        success_kind = some c.success_kind;
        checkpoint = checkpoint;
      }

      abbrev pub after_success :
          VerificationResult → Commitment → Result Checkpoint → Action ExecutionFinalizationResult
      after_success verification c (return checkpoint) =
          pure (with_commitment completed verification c (some checkpoint) none)
      after_success verification c (raise e) =
          if is_caught e
          then pure
              (with_commitment commit_created_db_pending verification c none (some (raised e)))
          else throw e

      unfoldable pub finish_success :
          VerificationResult → Commitment → Action ExecutionFinalizationResult
      finish_success verification c s =
          let (r, s') =
            record_success owner_id subject candidate baseline_commit verification c s in
          after_success verification c r s'

      abbrev pub denied_state : Error → Fields
      denied_state e = field "status" (str "commit_denied") (
          field "reason" (str (finalizer.error_text e)) (
            field "baseline_commit" (str baseline_commit)
              (field "candidate_tree_hash" (str candidate.tree_hash) end)))

      abbrev pub denied_lifecycle : Executions.Lifecycle
      denied_lifecycle = record (Executions.lifecycle ExecutionStatus.failed) {
        candidate_tree_hash = some candidate.tree_hash;
        terminal_state = some "failure";
        error_classification = some "commit_denied";
      }

      abbrev pub after_commit :
          VerificationResult → Result Commitment → Action ExecutionFinalizationResult
      after_commit verification (return c) = finish_success verification c
      after_commit verification (raise e) = do
        block_task owner_id subject candidate denied_lifecycle (denied_state e)
        pure (record (of_subject commit_denied (some (raised e))) {
          candidate = some candidate;
          verification = some verification;
        })

      unfoldable pub finish_verified : VerificationResult → Action ExecutionFinalizationResult
      finish_verified verification =
          if not verification.ok
          then (do
            record_failure owner_id subject candidate "verification_failed"
                (failed_outputs verification.commands)
            pure (record (of_subject verification_failed (some not_verified)) {
              candidate = some candidate;
              verification = some verification;
            }))
          else after_commit verification (
              commit_candidate finalizer worktree manifest subject.execution candidate verification)

      abbrev pub check_scope : List Finding → Action ExecutionFinalizationResult
      check_scope (f ∷ fs) = do
        record_failure owner_id subject candidate "scope_failed" (map finding_text (f ∷ fs))
        pure (record (of_subject scope_failed (some (out_of_scope (f ∷ fs)))) {
          candidate = some candidate;
        })
      check_scope [] = do
        finalizer.after_verification
        finish_verified (finalizer.verifier manifest)

    abbrev pub captured : BootstrapTask → Result (String × Candidate)
    captured manifest = worktree.toplevel >>=ʳ λ _. worktree.head >>=ʳ λ baseline_commit.
        worktree.capture_candidate manifest >>=ʳ λ candidate. return (baseline_commit, candidate)

    abbrev pub check_candidate :
        BootstrapTask → Result (String × Candidate) → Action ExecutionFinalizationResult
    check_candidate manifest (raise e) = pure (of_subject precondition_failed (some (raised e)))
    check_candidate manifest (return (baseline_commit, candidate)) =
        check_scope manifest baseline_commit candidate
          (validate_scope finalizer.fnmatch manifest candidate.changed_files)

    abbrev pub check_manifest_task : Option BootstrapTask → Action ExecutionFinalizationResult
    check_manifest_task none = pure (of_subject precondition_failed (some manifest_db_mismatch))
    check_manifest_task (some manifest) = check_candidate manifest (captured manifest)

    unfoldable pub finalize_subject : Action ExecutionFinalizationResult
    finalize_subject = do
      valid ← gets (has_valid_lease subject.task.id owner_id)
      if not valid
          then pure (of_subject precondition_failed (some lease_not_owned_or_expired))
          else if not worktree.exists
          then pure (of_subject precondition_failed (some missing_worktree))
          else check_manifest_task
              (check_manifest subject.task (finalizer.manifest_tasks subject.task.id))

  abbrev pub of_rows :
      FinalizationStatus
      → Execution
      → Task
      → Option FinalizationReason
      → ExecutionFinalizationResult
  of_rows status execution task reason =
      answer status (some execution.id) (some task.id) none reason

  abbrev pub check_lease : Execution → Task → Option TaskLease → Action ExecutionFinalizationResult
  check_lease execution task none =
      pure (of_rows precondition_failed execution task (some missing_execution_lease))
  check_lease execution task (some lease) =
      if not (lease.execution_id == execution.id)
      then pure (of_rows precondition_failed execution task (some missing_execution_lease))
      else finalize_subject (record { execution = execution; task = task; lease = lease })

  abbrev pub is_idempotent : Execution → Task → Bool
  is_idempotent execution task =
      is_succeeded execution.status && truthy execution.candidate_tree_hash && is_passed task.status

  abbrev pub check_status : Execution → Task → Action ExecutionFinalizationResult
  check_status execution task s =
      if is_idempotent execution task
      then pure
          (record (of_rows idempotent_completed execution task none) {
            commit_id = execution.commit_hash;
            committed_tree_hash = execution.candidate_tree_hash;
            success_kind = recorded_success_kind execution.id s.db;
          })
          s
      else if not (is_succeeded execution.status) || is_some execution.commit_hash
      then pure (of_rows precondition_failed execution task (some execution_not_ready)) s
      else check_lease execution task (Leases.active_for_task task.id s.db) s

  abbrev pub check_rows :
      ExecutionPackage → Option Execution → Option Task → Action ExecutionFinalizationResult
  check_rows bundle (some execution) (some task) =
      if not (execution.task_id == bundle.task_id)
      then pure (of_rows precondition_failed execution task (some execution_task_mismatch))
      else check_status execution task
  check_rows bundle execution task = pure (
      answer precondition_failed (Option.map (λ e. e.id) execution) (Option.map (λ t. t.id) task)
        none (some execution_task_mismatch))

  unfoldable pub finalize : ExecutionPackage → Action ExecutionFinalizationResult
  finalize bundle = do
    execution ← gets (λ s. Executions.get bundle.execution_id s.db)
    task ← gets (λ s. Tasks.get bundle.task_id s.db)
    check_rows bundle execution task
