-- ===== src/Scheduler/Finalization/Soundness.antt =====
-- src/ai_ent/scheduler/finalization.py: a finalization keeps the tables well formed.
use ai_ent.Prelude.{
  ℕ, ◌==◌, ◌||◌, not, String, Option, none, some, List, [], ◌∷◌, map, Fields, is_some,
}
use ai_ent.Persistence.Models.{
  Task, TaskStatus, Execution, Checkpoint, CheckpointType, TaskLease, is_succeeded,
}
use ai_ent.Persistence.Session.{Result, return, raise, now}
use ai_ent.Persistence.Tasks
use ai_ent.Persistence.Executions
use ai_ent.Persistence.Leases
use ai_ent.Persistence.Sound.{
  Keeps, bind-Keeps, if-Keeps, if-IsSound, update_then-Keeps, update_status-Keeps,
  create_checkpoint-Keeps,
}
use ai_ent.Bootstrap.Models.{BootstrapTask, Candidate, VerificationResult, ExecutionPackage}
use ai_ent.Bootstrap.Git.{Finding, finding_text, validate_scope}
use ai_ent.Scheduler.Claiming.{has_valid_lease, release, complete}
use ai_ent.Scheduler.Claiming.Soundness.{release-Keeps, complete-Keeps}
use ai_ent.Scheduler.Finalization.{
  Finalizer, Worktree, Subject, Commitment, check_manifest, record_failure, record_success,
  block_task, failed_outputs, failed_lifecycle, failure_state, success_lifecycle, success_state,
  append_checkpoint,
}
use ai_ent.Scheduler.Finalization.Steps.{
  finalize, finalize_subject, finish_verified, finish_success, check_scope, captured,
  check_candidate, check_manifest_task, check_lease, check_status, check_rows, is_idempotent,
  after_commit, commit_candidate, denied_lifecycle, denied_state, after_success, is_caught,
}

append_checkpoint-Keeps :
    (task_id execution_id : ℕ) (state : Fields) (commit tree : Option String)
    → Keeps (append_checkpoint task_id execution_id state commit tree)
append_checkpoint-Keeps task_id execution_id state commit tree s h =
    create_checkpoint-Keeps (s.uuid s.drawn) task_id (some execution_id) CheckpointType.execution
      (some state) commit tree _ (record { current = h.current; committed = h.committed })

module _ (owner_id : ℕ) (subject : Subject) (candidate : Candidate) where
  block_task-Keeps :
      (c : Executions.Lifecycle) (state : Fields)
      → Keeps (block_task owner_id subject candidate c state)
  unfolding block_task
  block_task-Keeps c state = update_then-Keeps subject.execution.id c _ (λ _.
      bind-Keeps (Tasks.update_status subject.task.id TaskStatus.blocked) _
        (update_status-Keeps subject.task.id TaskStatus.blocked)
        (λ _.
          bind-Keeps (release subject.lease.id owner_id) _ (release-Keeps subject.lease.id owner_id)
            (λ _.
              append_checkpoint-Keeps subject.task.id subject.execution.id state none
                (some candidate.tree_hash))))

  record_success-Keeps :
      (baseline : String) (verification : VerificationResult) (k : Commitment)
      → Keeps (record_success owner_id subject candidate baseline verification k)
  unfolding record_success
  record_success-Keeps baseline verification k s =
      update_then-Keeps subject.execution.id
        (success_lifecycle owner_id subject candidate k (now s)) _
        (λ _.
          bind-Keeps (Tasks.update_status subject.task.id TaskStatus.passed) _
            (update_status-Keeps subject.task.id TaskStatus.passed)
            (λ _.
              bind-Keeps (complete subject.lease.id owner_id) _
                (complete-Keeps subject.lease.id owner_id)
                (λ _.
                  append_checkpoint-Keeps subject.task.id subject.execution.id
                    (success_state owner_id subject candidate baseline verification k) k.commit_id
                    (some candidate.tree_hash))))
        s

module _ (finalizer : Finalizer) (worktree : Worktree) (owner_id : ℕ)
    (calls_back : Keeps finalizer.after_verification) where
  module _ (subject : Subject) where
    module _ (manifest : BootstrapTask) (baseline : String) (candidate : Candidate) where
      after_success-Keeps :
          (verification : VerificationResult) (k : Commitment) (r : Result Checkpoint)
          → Keeps (
              after_success finalizer worktree owner_id subject manifest baseline candidate
                verification k r)
      after_success-Keeps verification k (return p) s h = h
      after_success-Keeps verification k (raise e) s h =
          if-Keeps (is_caught e) _ _ (λ _ q. q) (λ _ q. q) s h

      finish_success-Keeps :
          (verification : VerificationResult) (k : Commitment)
          → Keeps (
              finish_success finalizer worktree owner_id subject manifest baseline candidate
                verification k)
      unfolding finish_success
      finish_success-Keeps verification k s h =
          after_success-Keeps verification k
            (record_success owner_id subject candidate baseline verification k s).0 _
            (record_success-Keeps owner_id subject candidate baseline verification k s h)

      after_commit-Keeps :
          (verification : VerificationResult) (r : Result Commitment)
          → Keeps (
              after_commit finalizer worktree owner_id subject manifest baseline candidate
                verification r)
      after_commit-Keeps verification (return k) s = finish_success-Keeps verification k s
      after_commit-Keeps verification (raise e) s =
          bind-Keeps
            (block_task owner_id subject candidate
              (denied_lifecycle finalizer worktree owner_id subject manifest baseline candidate)
              (denied_state finalizer worktree owner_id subject manifest baseline candidate e))
            _
            (block_task-Keeps owner_id subject candidate
              (denied_lifecycle finalizer worktree owner_id subject manifest baseline candidate)
              (denied_state finalizer worktree owner_id subject manifest baseline candidate e))
            (λ _ _ q. q) s

      record_failure-Keeps :
          (reason : String) (findings : List String)
          → Keeps (record_failure owner_id subject candidate reason findings)
      record_failure-Keeps reason findings s =
          block_task-Keeps owner_id subject candidate
            (failed_lifecycle owner_id subject candidate reason (now s))
            (failure_state owner_id subject candidate reason findings) s

      finish_verified-Keeps :
          (verification : VerificationResult)
          → Keeps (
              finish_verified finalizer worktree owner_id subject manifest baseline candidate
                verification)
      unfolding finish_verified
      finish_verified-Keeps verification =
          if-Keeps (not verification.ok) _ _
            (bind-Keeps
              (record_failure owner_id subject candidate "verification_failed"
                (failed_outputs verification.commands))
              _ (record_failure-Keeps "verification_failed" (failed_outputs verification.commands))
              (λ _ _ q. q))
            (after_commit-Keeps verification (
              commit_candidate finalizer worktree manifest subject.execution candidate
                verification))

      check_scope-Keeps :
          (findings : List Finding)
          → Keeps
              (check_scope finalizer worktree owner_id subject manifest baseline candidate findings)
      check_scope-Keeps [] s =
          bind-Keeps finalizer.after_verification _ calls_back
            (λ _. finish_verified-Keeps (finalizer.verifier manifest)) s
      check_scope-Keeps (f ∷ fs) s =
          bind-Keeps
            (record_failure owner_id subject candidate "scope_failed" (map finding_text (f ∷ fs))) _
            (record_failure-Keeps "scope_failed" (map finding_text (f ∷ fs))) (λ _ _ q. q) s

    check_candidate-Keeps :
        (manifest : BootstrapTask) (x : Result (String × Candidate))
        → Keeps (check_candidate finalizer worktree owner_id subject manifest x)
    check_candidate-Keeps manifest (raise e) s h = h
    check_candidate-Keeps manifest (return (baseline, candidate)) s h =
        check_scope-Keeps manifest baseline candidate
          (validate_scope finalizer.fnmatch manifest candidate.changed_files) s h

    check_manifest_task-Keeps :
        (known : Option BootstrapTask)
        → Keeps (check_manifest_task finalizer worktree owner_id subject known)
    check_manifest_task-Keeps none s h = h
    check_manifest_task-Keeps (some manifest) s h =
        check_candidate-Keeps manifest (captured finalizer worktree owner_id subject manifest) s h

    finalize_subject-Keeps : Keeps (finalize_subject finalizer worktree owner_id subject)
    unfolding finalize_subject
    finalize_subject-Keeps s =
        if-Keeps (not (has_valid_lease subject.task.id owner_id s)) _ _ (λ _ q. q)
          (if-Keeps (not worktree.exists) _ _ (λ _ q. q)
            (check_manifest_task-Keeps
              (check_manifest subject.task (finalizer.manifest_tasks subject.task.id))))
          s

  check_lease-Keeps :
      (execution : Execution) (task : Task) (lease : Option TaskLease)
      → Keeps (check_lease finalizer worktree owner_id execution task lease)
  check_lease-Keeps execution task none s = λ q. q
  check_lease-Keeps execution task (some lease) s =
      if-Keeps (not (lease.execution_id == execution.id)) _ _ (λ _ q. q)
        (finalize_subject-Keeps (record { execution = execution; task = task; lease = lease })) s

  check_status-Keeps :
      (execution : Execution) (task : Task)
      → Keeps (check_status finalizer worktree owner_id execution task)
  check_status-Keeps execution task s h =
      if-IsSound (is_idempotent finalizer worktree owner_id execution task) _ _ h (
        if-IsSound (not (is_succeeded execution.status) || is_some execution.commit_hash) _ _ h
          (check_lease-Keeps execution task (Leases.active_for_task task.id s.db) s h))

  check_rows-Keeps :
      (bundle : ExecutionPackage) (execution : Option Execution) (task : Option Task)
      → Keeps (check_rows finalizer worktree owner_id bundle execution task)
  check_rows-Keeps bundle none task s = λ q. q
  check_rows-Keeps bundle (some execution) none s = λ q. q
  check_rows-Keeps bundle (some execution) (some task) s =
      if-Keeps (not (execution.task_id == bundle.task_id)) _ _ (λ _ q. q)
        (check_status-Keeps execution task) s

  pub finalize-Keeps :
      (bundle : ExecutionPackage) → Keeps (finalize finalizer worktree owner_id bundle)
  unfolding finalize
  finalize-Keeps bundle s =
      check_rows-Keeps bundle (Executions.get bundle.execution_id s.db)
        (Tasks.get bundle.task_id s.db) s
