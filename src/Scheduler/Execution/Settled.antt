-- ===== src/Scheduler/Execution/Settled.antt =====
-- src/ai_ent/scheduler/execution.py: a run that goes on ends its execution.
use ai_ent.Prelude.{
  ℕ, ◌+◌, ◌≡◌, ◌==◌, refl, not, Bool, true, false, String, Option, none, some, arith, if◌then◌else◌,
  inl, inr, find-key, subst,
}
use ai_ent.Persistence.Models.{Execution, ExecutionStatus, TaskLease, is_runnable}
use ai_ent.Persistence.Session.{
  Session, Action, Result, return, raise, now, and_then, ◌>>=◌, Result-cases,
}
use ai_ent.Persistence.Executions
use ai_ent.Persistence.Leases
use ai_ent.Bootstrap.Models.{ExecutionPackage, ExecutionResult}
use ai_ent.Scheduler.Claiming.{has_valid_lease, renew, is_updated}
use ai_ent.Scheduler.Execution.{
  Runner, ClaimedExecutionResult, run_claimed, run_owned, run_executor, check_lease,
  check_execution, run_configured, run_prepared, lift, after_executor, ending, execution_status,
  terminal_text, error_classification, prepare_worktree,
}
use ai_ent.Scheduler.Execution.Running.{went_on, IsSettled, IsSettled-after}

-- Wherever the action returns a run that went on, the execution has ended.
Settles : ℕ → Action ClaimedExecutionResult → Type 0
Settles id m =
    (s : Session) (r : ClaimedExecutionResult)
    → (m s).0 ≡ return r
    → went_on r.status ≡ true
    → IsSettled id (m s).1

module _ (id : ℕ) where
  bind-Settles :
      {A : Type 0} (m : Action A) (f : A → Action ClaimedExecutionResult)
      → ((a : A) → Settles id (f a))
      → Settles id (m >>= f)
  unfolding Settles
  bind-Settles m f k s r = settle (m s).0 (m s).1
    where
      settle :
          (x : Result _) (t : Session)
          → (and_then x f t).0 ≡ return r
          → went_on r.status ≡ true
          → IsSettled id (and_then x f t).1
      settle (return a) t h g = k a t r h g
      settle (raise e) t h g = absurd (ground (arith, h))

  -- The last update, followed by an answer that leaves the session as it is.
  update-Settles :
      (c : Executions.Lifecycle) (f : Execution → Action ClaimedExecutionResult)
      → is_runnable c.status ≡ false
      → ((e : Execution) (s : Session) → (f e s).1 ≡ s)
      → Settles id (Executions.update_lifecycle id c >>= f)
  unfolding Settles
  update-Settles c f ends same s r h g =
      elim (Result-cases (Executions.update_lifecycle id c s).0) [
        | inr (e, x) ↦ absurd (ground (arith, x, h))
        | inl (e, x) ↦
            subst (IsSettled id) (ground (arith, x, same e (Executions.update_lifecycle id c s).1))
              (IsSettled-after id c ends s x)
      ]

  if-Settles :
      (b : Bool) (m n : Action ClaimedExecutionResult)
      → Settles id m
      → Settles id n
      → Settles id (if b then m else n)
  if-Settles true m n h k = h
  if-Settles false m n h k = k

lift-same :
    {A B : Type 0} (x : Result A) (f : A → Action B)
    → ((a : A) (t : Session) → (f a t).1 ≡ t)
    → (t : Session) → ((lift x >>= f) t).1 ≡ t
lift-same (return a) f h t = h a t
lift-same (raise e) f h t = refl

execution_status-ends : (answer : ExecutionResult) → is_runnable (execution_status answer) ≡ false
unfolding execution_status
execution_status-ends answer = ground arith

module _ (runner : Runner) (owner_id : ℕ) (bundle : ExecutionPackage) (baseline_ref : String) where
  module _ (id : ℕ) (lease : TaskLease) where
    after_executor-Settles :
        (worktree : String) (r : Result ExecutionResult)
        → Settles id (after_executor runner owner_id bundle baseline_ref id lease worktree r)
    unfolding Settles
    after_executor-Settles worktree (return answer) s =
        bind-Settles id (lift (runner.changed_files worktree)) _
          (λ _ t.
            update-Settles id
              (ending (execution_status answer) (terminal_text answer.terminal_state)
                (error_classification answer) (now t))
              _ (execution_status-ends answer) (λ _ _. refl) t)
          s
    after_executor-Settles worktree (raise e) s =
        update-Settles id
          (ending ExecutionStatus.failed "failure" (some "executor_exception") (now s)) _ refl
          (λ _. lift-same (runner.changed_files worktree) _ (λ _ _. refl)) s

    run_executor-Settles :
        (worktree : String)
        → Settles id (run_executor runner owner_id bundle baseline_ref id lease worktree)
    unfolding run_executor Settles
    run_executor-Settles worktree s =
        bind-Settles id
          (Executions.update_lifecycle id
            (record (Executions.lifecycle ExecutionStatus.running) { started_at = some (now s) }))
          _
          (λ _.
            after_executor-Settles worktree
              (runner.execute_package (record bundle { worktree_path = worktree })))
          s

    run_prepared-Settles :
        (r : Result String)
        → Settles id (run_prepared runner owner_id bundle baseline_ref id lease r)
    unfolding Settles
    run_prepared-Settles (return worktree) s = run_executor-Settles worktree s
    run_prepared-Settles (raise e) s =
        update-Settles id (ending ExecutionStatus.failed "failure" (some "worktree_error") (now s))
          _ refl (λ _ _. refl) s

    run_owned-Settles : Settles id (run_owned runner owner_id bundle baseline_ref id lease)
    unfolding run_owned Settles
    run_owned-Settles =
        bind-Settles id (renew lease.id owner_id (bundle.timeout_seconds + runner.lease_grace)) _
          (λ answer.
            if-Settles id (is_updated answer.status) _ _
              (run_prepared-Settles (prepare_worktree runner owner_id bundle baseline_ref id))
              (λ s r h g. absurd (ground (arith, h, g))))

    run_configured-Settles :
        (error : Option String)
        → Settles id (run_configured runner owner_id bundle baseline_ref id lease error)
    unfolding Settles
    run_configured-Settles none s = run_owned-Settles s
    run_configured-Settles (some error) s =
        update-Settles id
          (ending ExecutionStatus.failed
            (if runner.has_command then "failure" else "not_configured")
            (some (
              if runner.has_command then "codex_configuration_invalid" else "codex_not_configured"))
            (now s))
          _ refl (λ _ _. refl) s

  check_lease-Settles :
      (execution : Execution) (lease : Option TaskLease)
      → Settles execution.id (check_lease runner owner_id bundle baseline_ref execution lease)
  unfolding Settles
  check_lease-Settles execution none s r h g = absurd (ground (arith, h, g))
  check_lease-Settles execution (some lease) s r h g =
      if-Settles execution.id (not (lease.execution_id == execution.id)) _ _
        (λ t r h g. absurd (ground (arith, h, g)))
        (λ t.
          if-Settles execution.id (has_valid_lease bundle.task_id owner_id t) _ _
            (run_configured-Settles execution.id lease runner.configuration_error)
            (λ t r h g. absurd (ground (arith, h, g))) t)
        s r h g

  check_execution-Settles :
      (id : ℕ) (execution : Option Execution)
      → ((e : Execution) → execution ≡ some e → e.id ≡ id)
      → Settles id (check_execution runner owner_id bundle baseline_ref execution)
  unfolding Settles
  check_execution-Settles id none named s r h g = absurd (ground (arith, h, g))
  check_execution-Settles id (some execution) named s r h g =
      if-Settles id (not (is_runnable execution.status)) _ _
        (λ t r h g. absurd (ground (arith, h, g)))
        (λ t r h g.
          subst
            (λ i.
              IsSettled i
                (check_lease runner owner_id bundle baseline_ref execution
                  (Leases.active_for_task bundle.task_id t.db) t).1)
            (named execution refl)
            (check_lease-Settles execution (Leases.active_for_task bundle.task_id t.db) t r h g))
        s r h g

  -- A run that returns with another status than INVALID_EXECUTION and OWNERSHIP_LOST leaves its
  -- execution stored and ended: neither pending nor running.
  pub run_claimed-IsSettled :
      (s : Session) (result : ClaimedExecutionResult)
      → (run_claimed runner owner_id bundle baseline_ref s).0 ≡ return result
      → went_on result.status ≡ true
      → IsSettled bundle.execution_id (run_claimed runner owner_id bundle baseline_ref s).1
  unfolding run_claimed Settles
  run_claimed-IsSettled s result h g =
      check_execution-Settles bundle.execution_id (Executions.get bundle.execution_id s.db)
        (λ e f. find-key Executions.execution_key bundle.execution_id s.db.executions f) s result h
        g
