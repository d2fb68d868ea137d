-- ===== src/Scheduler/Finalization/Promises.antt =====
-- src/ai_ent/scheduler/finalization.py: what the steps of `finalize` promise of the rows.
use ai_ent.Prelude.{
  ℕ, ◌≡◌, refl, subst, not, Bool, true, false, String, Option, none, some, List, [], ◌∷◌, map,
  arith, Bool-cases, inl, inr, if◌then◌else◌,
}
use ai_ent.Persistence.Models.{Task, TaskStatus, Execution, ExecutionStatus, Checkpoint}
use ai_ent.Persistence.Session.{Session, Action, Result, return, raise, pure, now, and_then, ◌>>=◌}
use ai_ent.Persistence.Tasks
use ai_ent.Persistence.Executions
use ai_ent.Bootstrap.Models.{BootstrapTask, Candidate, VerificationResult}
use ai_ent.Bootstrap.Git.{Finding, finding_text, validate_scope}
use ai_ent.Scheduler.Claiming.{has_valid_lease}
use ai_ent.Scheduler.Finalization.{
  Finalizer, Worktree, Subject, Commitment, ExecutionFinalizationResult, FinalizationStatus,
  completed, scope_failed, verification_failed, commit_denied, commit_created_db_pending,
  precondition_failed, check_manifest, record_success, block_task, failed_outputs, failed_lifecycle,
  failure_state,
}
use ai_ent.Scheduler.Finalization.Steps.{
  finalize_subject, finish_verified, finish_success, check_scope, captured, check_candidate,
  check_manifest_task, after_commit, commit_candidate, denied_lifecycle, denied_state,
  after_success, is_caught,
}
use ai_ent.Scheduler.Finalization.Outcome.{
  IsRecorded, block_task-IsRecorded, record_success-IsRecorded,
}

-- The execution and the task are stored with these statuses.
pub record IsEnded (execution_id task_id : ℕ) (e : ExecutionStatus) (t : TaskStatus) (s : Session)
    : Type 0 where
  pub execution : Execution
  pub task : Task
  pub has_execution : Executions.get execution_id s.db ≡ some execution
  pub has_task : Tasks.get task_id s.db ≡ some task
  pub execution_status : execution.status ≡ e
  pub task_status : task.status ≡ t

-- What an answer promises: COMPLETED a passed task and a succeeded execution; SCOPE_FAILED,
-- VERIFICATION_FAILED and COMMIT_DENIED a blocked task and a failed execution.
abbrev pub Promised : (execution_id task_id : ℕ) → FinalizationStatus → Session → Type 0
Promised e t completed s = IsEnded e t ExecutionStatus.succeeded TaskStatus.passed s
Promised e t scope_failed s = IsEnded e t ExecutionStatus.failed TaskStatus.blocked s
Promised e t verification_failed s = IsEnded e t ExecutionStatus.failed TaskStatus.blocked s
Promised e t commit_denied s = IsEnded e t ExecutionStatus.failed TaskStatus.blocked s
Promised e t _ s = Unit

recorded-IsEnded :
    {e t : ℕ} {c : Executions.Lifecycle} {status : TaskStatus} {before after : Session}
    → IsRecorded e t c status before after
    → IsEnded e t c.status status after
recorded-IsEnded r = record {
  execution = Executions.apply_lifecycle _ r.old_execution;
  task = Tasks.with_status _ r.old_task;
  has_execution = r.has_execution;
  has_task = r.has_task;
  execution_status = refl;
  task_status = refl;
}

unfoldable pub Promises : (execution_id task_id : ℕ) → Action ExecutionFinalizationResult → Type 0
Promises e t m =
    (s : Session) (r : ExecutionFinalizationResult)
    → (m s).0 ≡ return r
    → Promised e t r.status (m s).1

module _ (e t : ℕ) where
  bind-Promises :
      {A : Type 0} (m : Action A) (f : A → Action ExecutionFinalizationResult)
      → ((a : A) → Promises e t (f a))
      → Promises e t (m >>= f)
  unfolding Promises
  bind-Promises m f k s r = promises (m s).0 (m s).1
    where
      promises :
          (x : Result _) (u : Session)
          → (and_then x f u).0 ≡ return r
          → Promised e t r.status (and_then x f u).1
      promises (return a) u h = k a u r h
      promises (raise x) u h = absurd (ground (arith, h))

  if-Promises :
      (b : Bool) (m n : Action ExecutionFinalizationResult)
      → Promises e t m
      → Promises e t n
      → Promises e t (if b then m else n)
  if-Promises true m n h k = h
  if-Promises false m n h k = k

  -- An answer without a change, where nothing is promised.
  pure-Promises :
      (a : ExecutionFinalizationResult)
      → ((s : Session) → Promised e t a.status s)
      → (s : Session) (r : ExecutionFinalizationResult) → return a ≡ return r
      → Promised e t r.status s
  pure-Promises a k s r h =
      subst (λ (x : FinalizationStatus). Promised e t x s) (ground (arith, h)) (k s)

module _ (finalizer : Finalizer) (worktree : Worktree) (owner_id : ℕ) (subject : Subject) where
  -- A recorded failure, followed by an answer that promises it.
  blocked-Promises :
      (candidate : Candidate) (c : Session → Executions.Lifecycle) (state : _)
      (a : ExecutionFinalizationResult)
      → ((s : Session) → (c s).status ≡ ExecutionStatus.failed)
      → ((s : Session)
          → IsEnded subject.execution.id subject.task.id ExecutionStatus.failed TaskStatus.blocked s
          → Promised subject.execution.id subject.task.id a.status s)
      → Promises subject.execution.id subject.task.id
          (λ s. ((block_task owner_id subject candidate (c s) state) >>= λ _. pure a) s)
  unfolding Promises
  blocked-Promises candidate c state a failed promised s r h =
      ended (block_task owner_id subject candidate (c s) state s).0
        (block_task owner_id subject candidate (c s) state s).1
        (λ p q.
          subst
            (λ x.
              IsEnded subject.execution.id subject.task.id x TaskStatus.blocked
                (block_task owner_id subject candidate (c s) state s).1)
            (failed s)
            (recorded-IsEnded (block_task-IsRecorded owner_id subject candidate (c s) state s q)))
        h
    where
      ended :
          (x : Result Checkpoint) (u : Session)
          → ((p : Checkpoint)
              → x ≡ return p
              → IsEnded subject.execution.id subject.task.id ExecutionStatus.failed
                  TaskStatus.blocked u)
          → (and_then x (λ _. pure a) u).0 ≡ return r
          → Promised subject.execution.id subject.task.id r.status (and_then x (λ _. pure a) u).1
      ended (return p) u k h =
          subst (λ (x : FinalizationStatus). Promised subject.execution.id subject.task.id x u)
            (ground (arith, h)) (promised u (k p refl))
      ended (raise e) u k h = absurd (ground (arith, h))

  module _ (manifest : BootstrapTask) (baseline : String) (candidate : Candidate) where
    success-Promises :
        (verification : VerificationResult) (k : Commitment)
        → Promises subject.execution.id subject.task.id (
            finish_success finalizer worktree owner_id subject manifest baseline candidate
              verification k)
    unfolding finish_success Promises
    success-Promises verification k s r =
        succeeds (record_success owner_id subject candidate baseline verification k s).0
          (record_success owner_id subject candidate baseline verification k s).1
          (λ p q.
            recorded-IsEnded
              (record_success-IsRecorded owner_id subject candidate baseline verification k s q))
      where
        succeeds :
            (x : Result Checkpoint) (u : Session)
            → ((p : Checkpoint)
                → x ≡ return p
                → IsEnded subject.execution.id subject.task.id ExecutionStatus.succeeded
                    TaskStatus.passed u)
            → (after_success finalizer worktree owner_id subject manifest baseline candidate
                verification k x u).0
              ≡ return r
            → Promised subject.execution.id subject.task.id r.status
                (after_success finalizer worktree owner_id subject manifest baseline candidate
                  verification k x u).1
        succeeds (return p) u k h =
            let same : completed ≡ r.status = ground (arith, h) in
            subst (λ x. Promised subject.execution.id subject.task.id x u) same (k p refl)
        succeeds (raise e) u k h = elim (Bool-cases (is_caught e)) [
          | inr c ↦ absurd (ground (arith, c, h))
          | inl c ↦ pending _ (ground (arith, c, h))
        ]
          where
            pending :
                (v : Session)
                → commit_created_db_pending ≡ r.status
                → Promised subject.execution.id subject.task.id r.status v
            pending v same = subst (λ x. Promised subject.execution.id subject.task.id x v) same tt

    verified-Promises : Promises subject.execution.id subject.task.id (
        finish_verified finalizer worktree owner_id subject manifest baseline candidate
          (finalizer.verifier manifest))
    unfolding finish_verified Promises
    verified-Promises s =
        if-Promises _ _ (not (finalizer.verifier manifest).ok) _ _
          (blocked-Promises candidate
            (λ u. failed_lifecycle owner_id subject candidate "verification_failed" (now u))
            (failure_state owner_id subject candidate "verification_failed"
              (failed_outputs (finalizer.verifier manifest).commands))
            _ (λ _. refl) (λ _ h. h))
          (committed (
            commit_candidate finalizer worktree manifest subject.execution candidate
              (finalizer.verifier manifest)))
          s
      where
        committed :
            (x : Result Commitment)
            → Promises subject.execution.id subject.task.id (
                after_commit finalizer worktree owner_id subject manifest baseline candidate
                  (finalizer.verifier manifest)
                  x)
        committed (return k) = success-Promises (finalizer.verifier manifest) k
        committed (raise e) =
            blocked-Promises candidate
              (λ u.
                denied_lifecycle finalizer worktree owner_id subject manifest baseline candidate)
              (denied_state finalizer worktree owner_id subject manifest baseline candidate e) _
              (λ _. refl) (λ _ h. h)

    scope-Promises :
        (findings : List Finding)
        → Promises subject.execution.id subject.task.id
            (check_scope finalizer worktree owner_id subject manifest baseline candidate findings)
    unfolding Promises
    scope-Promises [] s =
        bind-Promises _ _ finalizer.after_verification _ (λ _. verified-Promises) s
    scope-Promises (f ∷ fs) s =
        blocked-Promises candidate
          (λ u. failed_lifecycle owner_id subject candidate "scope_failed" (now u))
          (failure_state owner_id subject candidate "scope_failed" (map finding_text (f ∷ fs))) _
          (λ _. refl) (λ _ h. h) s

  nothing-Promises :
      (a : ExecutionFinalizationResult)
      → a.status ≡ precondition_failed
      → Promises subject.execution.id subject.task.id (pure a)
  unfolding Promises
  nothing-Promises a denied s r h =
      let same : precondition_failed ≡ r.status = ground (arith, denied, h) in
      subst (λ x. Promised subject.execution.id subject.task.id x s) same tt

  manifest-Promises :
      (known : Option BootstrapTask)
      → Promises subject.execution.id subject.task.id
          (check_manifest_task finalizer worktree owner_id subject known)
  manifest-Promises none = nothing-Promises _ refl
  manifest-Promises (some manifest) =
      candidate-Promises (captured finalizer worktree owner_id subject manifest)
    where
      candidate-Promises :
          (x : Result (String × Candidate))
          → Promises subject.execution.id subject.task.id
              (check_candidate finalizer worktree owner_id subject manifest x)
      candidate-Promises (raise e) = nothing-Promises _ refl
      candidate-Promises (return (baseline, candidate)) =
          scope-Promises manifest baseline candidate
            (validate_scope finalizer.fnmatch manifest candidate.changed_files)

  pub subject-Promises :
      Promises subject.execution.id subject.task.id
        (finalize_subject finalizer worktree owner_id subject)
  unfolding finalize_subject Promises
  subject-Promises s =
      if-Promises _ _ (not (has_valid_lease subject.task.id owner_id s)) _ _
        (nothing-Promises _ refl)
        (if-Promises _ _ (not worktree.exists) _ _ (nothing-Promises _ refl) (
          manifest-Promises
            (check_manifest subject.task (finalizer.manifest_tasks subject.task.id))))
        s
