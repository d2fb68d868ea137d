-- ===== src/Scheduler/Finalization/Guards.antt =====
-- src/ai_ent/scheduler/finalization.py: what a finalization that answers COMPLETED has checked.
use ai_ent.Prelude.{
  ℕ, ◌<◌, ◌≡◌, not, Bool, true, false, String, Option, none, some, List, [], ◌∷◌, arith,
  Option-cases, Bool-cases, inl, inr, refl, map, if◌then◌else◌,
}
use ai_ent.Persistence.Models.{Task, Execution, TaskLease, succeeded}
use ai_ent.Persistence.Session.{
  Session, Action, Result, return, raise, now, Result-cases, and_then, ◌>>=◌,
}
use ai_ent.Persistence.Tasks
use ai_ent.Persistence.Executions
use ai_ent.Persistence.Leases
use ai_ent.Bootstrap.Models.{BootstrapTask, Candidate, ExecutionPackage}
use ai_ent.Bootstrap.Git.{Finding, finding_text, validate_scope}
use ai_ent.Scheduler.Claiming.{has_valid_lease}
use ai_ent.Scheduler.Finalization.{
  Finalizer, Worktree, Subject, ExecutionFinalizationResult, completed, check_manifest,
  record_failure, failed_outputs,
}
use ai_ent.Scheduler.Finalization.Steps.{
  finalize, finalize_subject, finish_verified, check_scope, captured, check_manifest_task,
}

-- Wherever the action answers COMPLETED, `P` holds.
Completes : Type 0 → Action ExecutionFinalizationResult → Type 0
Completes P m =
    (s : Session) (r : ExecutionFinalizationResult) → (m s).0 ≡ return r → r.status ≡ completed → P

bind-Completes :
    (P : Type 0) {A : Type 0} (m : Action A) (f : A → Action ExecutionFinalizationResult)
    → ((a : A) → Completes P (f a))
    → Completes P (m >>= f)
unfolding Completes
bind-Completes P m f k s r = completes (m s).0 (m s).1
  where
    completes :
        (x : Result _) (t : Session) → (and_then x f t).0 ≡ return r → r.status ≡ completed → P
    completes (return a) t h g = k a t r h g
    completes (raise e) t h g = absurd (ground (arith, h))

if-Completes :
    (P : Type 0) (b : Bool) (m n : Action ExecutionFinalizationResult)
    → (b ≡ true → Completes P m)
    → (b ≡ false → Completes P n)
    → Completes P (if b then m else n)
if-Completes P true m n h k = h refl
if-Completes P false m n h k = k refl

module _ (finalizer : Finalizer) (worktree : Worktree) (owner_id : ℕ) where
  -- The manifest's task, and a candidate in its scope that the verifier accepts.
  pub record IsVerified (task : Task) : Type 0 where
    pub manifest : BootstrapTask
    pub candidate : Candidate
    pub in_manifest : check_manifest task (finalizer.manifest_tasks task.id) ≡ some manifest
    pub is_captured : worktree.capture_candidate manifest ≡ return candidate
    pub in_scope : validate_scope finalizer.fnmatch manifest candidate.changed_files ≡ []
    pub is_accepted : (finalizer.verifier manifest).ok ≡ true

  module _ (subject : Subject) where
    verified-Completes :
        (P : Type 0) (manifest : BootstrapTask) (baseline_commit : String) (candidate : Candidate)
        → ((finalizer.verifier manifest).ok ≡ true → P)
        → Completes P (
            finish_verified finalizer worktree owner_id subject manifest baseline_commit candidate
              (finalizer.verifier manifest))
    unfolding finish_verified Completes
    verified-Completes P manifest baseline_commit candidate k =
        if-Completes P (not (finalizer.verifier manifest).ok) _ _
          (λ bad s.
            bind-Completes P
              (record_failure owner_id subject candidate "verification_failed"
                (failed_outputs (finalizer.verifier manifest).commands))
              _ (λ _ t r h g. absurd (ground (arith, h, g))) s)
          (λ ok s r h g. k (ground (arith, ok)))

    scope-Completes :
        (P : Type 0) (manifest : BootstrapTask) (baseline_commit : String) (candidate : Candidate)
        (findings : List Finding)
        → (findings ≡ [] → (finalizer.verifier manifest).ok ≡ true → P)
        → Completes P (
            check_scope finalizer worktree owner_id subject manifest baseline_commit candidate
              findings)
    unfolding Completes
    scope-Completes P manifest baseline_commit candidate [] k s =
        bind-Completes P finalizer.after_verification _
          (λ _. verified-Completes P manifest baseline_commit candidate (k refl)) s
    scope-Completes P manifest baseline_commit candidate (f ∷ fs) k s =
        bind-Completes P
          (record_failure owner_id subject candidate "scope_failed" (map finding_text (f ∷ fs))) _
          (λ _ t r h g. absurd (ground (arith, h, g))) s

    captured-candidate :
        (manifest : BootstrapTask) {baseline_commit : String} {candidate : Candidate}
        → captured finalizer worktree owner_id subject manifest
          ≡ return (baseline_commit, candidate)
        → worktree.capture_candidate manifest ≡ return candidate
    captured-candidate manifest {baseline_commit} {candidate} h =
        elim (Result-cases worktree.toplevel) [
          | inr (x, t) ↦ absurd (ground (arith, t, h))
          | inl (u, t) ↦ elim (Result-cases worktree.head) [
            | inr (x, d) ↦ absurd (ground (arith, t, d, h))
            | inl (commit, d) ↦ elim (Result-cases (worktree.capture_candidate manifest)) [
              | inr (x, c) ↦ absurd (ground (arith, t, d, c, h))
              | inl (found, c) ↦ ground (arith, t, d, c, h)
            ]
          ]
        ]

    manifest-Completes :
        (known : Option BootstrapTask)
        → check_manifest subject.task (finalizer.manifest_tasks subject.task.id) ≡ known
        → Completes
            (IsVerified subject.task)
            (check_manifest_task finalizer worktree owner_id subject known)
    unfolding Completes
    manifest-Completes none e s r h g = absurd (ground (arith, h, g))
    manifest-Completes (some manifest) e s r h g =
        elim (Result-cases (captured finalizer worktree owner_id subject manifest)) [
          | inr (x, c) ↦ absurd (ground (arith, c, h, g))
          | inl ((baseline_commit, candidate), c) ↦
              scope-Completes _ manifest baseline_commit candidate
                (validate_scope finalizer.fnmatch manifest candidate.changed_files)
                (λ clean ok. record {
                  manifest = manifest;
                  candidate = candidate;
                  in_manifest = e;
                  is_captured = captured-candidate manifest c;
                  in_scope = clean;
                  is_accepted = ok;
                })
                s r (rw c at h) g
        ]

    subject-IsVerified :
        (s : Session) (r : ExecutionFinalizationResult)
        → (finalize_subject finalizer worktree owner_id subject s).0 ≡ return r
        → r.status ≡ completed
        → (has_valid_lease subject.task.id owner_id s ≡ true) × IsVerified subject.task
    unfolding finalize_subject Completes
    subject-IsVerified s r h g = elim (Bool-cases (has_valid_lease subject.task.id owner_id s)) [
      | inr v ↦ absurd (ground (arith, v, h, g))
      | inl v ↦ elim (Bool-cases worktree.exists) [
        | inr w ↦ absurd (ground (arith, v, w, h, g))
        | inl w ↦ (
          v,
          manifest-Completes
              (check_manifest subject.task (finalizer.manifest_tasks subject.task.id)) refl s r
              (ground (arith, v, w, h)) g,
        )
      ]
    ]

  -- The rows of a finalization that may complete: a succeeded execution of the task that has no
  -- commit, and the task's active lease, which is for it, the owner's and not expired.
  pub record MayComplete (bundle : ExecutionPackage) (s : Session) : Type 0 where
    pub execution : Execution
    pub task : Task
    pub lease : TaskLease
    pub has_execution : Executions.get bundle.execution_id s.db ≡ some execution
    pub has_task : Tasks.get bundle.task_id s.db ≡ some task
    pub of_task : execution.task_id ≡ bundle.task_id
    pub has_succeeded : execution.status ≡ succeeded
    pub uncommitted : execution.commit_hash ≡ none
    pub has_lease : Leases.active_for_task task.id s.db ≡ some lease
    pub leases_execution : lease.execution_id ≡ execution.id
    pub is_owner : lease.owner_id ≡ owner_id
    pub unexpired : now s < lease.expires_at
    pub verified : IsVerified task
    pub finalized :
        finalize finalizer worktree owner_id bundle s
        ≡ finalize_subject finalizer worktree owner_id
            (record { execution = execution; task = task; lease = lease })
            s

  -- A finalization that answers COMPLETED was made for a succeeded execution of the task without a
  -- commit, under the owner's unexpired lease for it, and for a candidate of the manifest's task
  -- that changes nothing outside the scope and that the verifier accepts.
  pub finalize-MayComplete :
      (bundle : ExecutionPackage) (s : Session) {r : ExecutionFinalizationResult}
      → (finalize finalizer worktree owner_id bundle s).0 ≡ return r
      → r.status ≡ completed
      → MayComplete bundle s
  unfolding finalize has_valid_lease
  finalize-MayComplete bundle s {r} h g =
      elim (Option-cases (Executions.get bundle.execution_id s.db)) [
        | inl e ↦ absurd (ground (arith, e, h, g))
        | inr (execution, e) ↦ elim (Option-cases (Tasks.get bundle.task_id s.db)) [
          | inl t ↦ absurd (ground (arith, e, t, h, g))
          | inr (task, t) ↦ elim (Option-cases (Leases.active_for_task task.id s.db)) [
            | inl l ↦ absurd (ground (arith, e, t, l, h, g))
            | inr (lease, l) ↦
                let same : finalize finalizer worktree owner_id bundle s
                    ≡ finalize_subject finalizer worktree owner_id
                        (record { execution = execution; task = task; lease = lease }) s =
                  ground (arith, e, t, l, h, g) in
                let (valid, verified) =
                  subject-IsVerified (record { execution = execution; task = task; lease = lease })
                    s r (ground (arith, same, h)) g in
                record {
                  execution = execution;
                  task = task;
                  lease = lease;
                  has_execution = e;
                  has_task = t;
                  of_task = ground (arith, e, t, l, h, g);
                  has_succeeded = ground (arith, e, t, l, h, g);
                  uncommitted = ground (arith, e, t, l, h, g);
                  has_lease = l;
                  leases_execution = ground (arith, e, t, l, h, g);
                  is_owner = ground (arith, l, valid);
                  unexpired = ground (arith, l, valid);
                  verified = verified;
                  finalized = same;
                }
          ]
        ]
      ]
