-- ===== src/Scheduler/Finalization/Recorded.antt =====
-- src/ai_ent/scheduler/finalization.py: the rows that each answer of `finalize` leaves.
use ai_ent.Prelude.{
  ℕ, ◌≡◌, ◌==◌, subst, sym, ◌||◌, ◌⊎◌, not, arith, Option-cases, Bool-cases, inl, inr, is_some,
  find-key,
}
use ai_ent.Persistence.Models.{Task, Execution, is_succeeded}
use ai_ent.Persistence.Session.{Session, return}
use ai_ent.Persistence.Tasks
use ai_ent.Persistence.Executions
use ai_ent.Persistence.Leases
use ai_ent.Bootstrap.Models.{ExecutionPackage}
use ai_ent.Scheduler.Finalization.{
  Finalizer, Worktree, Subject, ExecutionFinalizationResult, FinalizationStatus,
  precondition_failed, idempotent_completed,
}
use ai_ent.Scheduler.Finalization.Steps.{finalize, finalize_subject, check_status, is_idempotent}
use ai_ent.Scheduler.Finalization.Promises.{Promised, Promises, subject-Promises}

module _ (finalizer : Finalizer) (worktree : Worktree) (owner_id : ℕ) where
  -- The two answers that change nothing promise nothing.
  unpromised :
      (e t : ℕ) (status : FinalizationStatus) (s : Session)
      → (status ≡ precondition_failed) ⊎ (status ≡ idempotent_completed)
      → Promised e t status s
  unpromised e t status s (inl h) = subst (λ x. Promised e t x s) (sym h) tt
  unpromised e t status s (inr h) = subst (λ x. Promised e t x s) (sym h) tt

  status-Promises :
      (execution : Execution) (task : Task)
      → Promises execution.id task.id (check_status finalizer worktree owner_id execution task)
  unfolding Promises
  status-Promises execution task s r h =
      elim (Bool-cases (is_idempotent finalizer worktree owner_id execution task)) [
        | inl e ↦ unpromised _ _ r.status _ (inr (ground (arith, e, h)))
        | inr e ↦
            elim (Bool-cases
              (not (is_succeeded execution.status) || is_some execution.commit_hash)) [
                | inl c ↦ unpromised _ _ r.status _ (inl (ground (arith, e, c, h)))
                | inr c ↦ elim (Option-cases (Leases.active_for_task task.id s.db)) [
                  | inl l ↦ unpromised _ _ r.status _ (inl (ground (arith, e, c, l, h)))
                  | inr (lease, l) ↦ elim (Bool-cases (lease.execution_id == execution.id)) [
                    | inr o ↦ unpromised _ _ r.status _ (inl (ground (arith, e, c, l, o, h)))
                    | inl o ↦
                        let subject : Subject = record {
                          execution = execution;
                          task = task;
                          lease = lease;
                        } in
                        let same : check_status finalizer worktree owner_id execution task s
                            ≡ finalize_subject finalizer worktree owner_id subject s =
                          ground (arith, e, c, l, o) in
                        subst (λ x. Promised execution.id task.id r.status x.1) (sym same)
                          (subject-Promises finalizer worktree owner_id subject s r
                            (ground (arith, same, h)))
                  ]
                ]
              ]
      ]

  renamed :
      {a b c d : ℕ} (status : FinalizationStatus) (u : Session)
      → a ≡ c
      → b ≡ d
      → Promised a b status u
      → Promised c d status u
  renamed {a} {b} {c} {d} status u p q x =
      subst (λ y. Promised c y status u) q (subst (λ y. Promised y b status u) p x)

  -- COMPLETED leaves the package's task passed and its execution succeeded, and SCOPE_FAILED,
  -- VERIFICATION_FAILED and COMMIT_DENIED leave the task blocked and the execution failed.
  pub finalize-Promised :
      (bundle : ExecutionPackage) (s : Session) {r : ExecutionFinalizationResult}
      → (finalize finalizer worktree owner_id bundle s).0 ≡ return r
      → Promised bundle.execution_id bundle.task_id r.status
          (finalize finalizer worktree owner_id bundle s).1
  unfolding finalize Promises
  finalize-Promised bundle s {r} h = elim (Option-cases (Executions.get bundle.execution_id s.db)) [
    | inl e ↦ unpromised _ _ r.status _ (inl (ground (arith, e, h)))
    | inr (execution, e) ↦ elim (Option-cases (Tasks.get bundle.task_id s.db)) [
      | inl t ↦ unpromised _ _ r.status _ (inl (ground (arith, e, t, h)))
      | inr (task, t) ↦ elim (Bool-cases (execution.task_id == bundle.task_id)) [
        | inr o ↦ unpromised _ _ r.status _ (inl (ground (arith, e, t, o, h)))
        | inl o ↦
            let same : finalize finalizer worktree owner_id bundle s
                ≡ check_status finalizer worktree owner_id execution task s =
              ground (arith, e, t, o) in
            subst (λ x. Promised bundle.execution_id bundle.task_id r.status x.1) (sym same)
              (renamed r.status _
                (find-key Executions.execution_key bundle.execution_id s.db.executions e)
                (find-key Tasks.task_key bundle.task_id s.db.tasks t)
                (status-Promises execution task s r (ground (arith, same, h))))
      ]
    ]
  ]
