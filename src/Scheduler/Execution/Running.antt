-- ===== src/Scheduler/Execution/Running.antt =====
-- src/ai_ent/scheduler/execution.py: who may run an execution, and how a run leaves the tables.
use ai_ent.Prelude.{
  ℕ, ◌+◌, ◌<◌, ◌≡◌, ◌==◌, ==_iff, Bool, true, false, String, Option, none, some, arith, Bool-cases,
  inl, inr, not, refl, if◌then◌else◌, find-modify_self, Option-cases,
}
use ai_ent.Persistence.Models.{Execution, ExecutionStatus, TaskLease, is_runnable}
use ai_ent.Persistence.Session.{Session, Result, return, raise, now}
use ai_ent.Persistence.Executions
use ai_ent.Persistence.Leases
use ai_ent.Persistence.Sound.{Keeps, bind-Keeps, if-Keeps, update_then-Keeps}
use ai_ent.Bootstrap.Models.{ExecutionPackage, ExecutionResult}
use ai_ent.Scheduler.Claiming.{has_valid_lease, renew, is_updated}
use ai_ent.Scheduler.Claiming.Soundness.{renew-Keeps}
use ai_ent.Scheduler.Execution.{
  Runner, ClaimedExecutionResult, ClaimedExecutionStatus, run_claimed, run_owned, run_executor,
  check_lease, check_execution, run_configured, run_prepared, lift, after_executor, ending,
  execution_status, terminal_text, error_classification, prepare_worktree,
}

-- The statuses of a run that went on after the checks of ownership.
abbrev pub went_on : ClaimedExecutionStatus → Bool
went_on ClaimedExecutionStatus.ownership_lost = false
went_on ClaimedExecutionStatus.invalid_execution = false
went_on _ = true

module _ (runner : Runner) (owner_id : ℕ) (bundle : ExecutionPackage) (baseline_ref : String)
    (s : Session) where
  -- The execution may run, and the task's active lease is for it, the owner's, and not expired.
  pub record MayRun : Type 0 where
    pub execution : Execution
    pub lease : TaskLease
    pub has_execution : Executions.get bundle.execution_id s.db ≡ some execution
    pub may_run : is_runnable execution.status ≡ true
    pub has_lease : Leases.active_for_task bundle.task_id s.db ≡ some lease
    pub leases_execution : lease.execution_id ≡ execution.id
    pub is_owner : lease.owner_id ≡ owner_id
    pub unexpired : now s < lease.expires_at

  -- A run that returns with another status than INVALID_EXECUTION and OWNERSHIP_LOST was made for
  -- a runnable execution, whose task has an unexpired active lease for it, held by the owner.
  pub run_claimed-MayRun :
      {result : ClaimedExecutionResult}
      → (run_claimed runner owner_id bundle baseline_ref s).0 ≡ return result
      → went_on result.status ≡ true
      → MayRun
  unfolding run_claimed has_valid_lease
  run_claimed-MayRun {result} h k = elim (Option-cases (Executions.get bundle.execution_id s.db)) [
    | inl e ↦ absurd (ground (arith, e, h, k))
    | inr (execution, e) ↦ elim (Bool-cases (is_runnable execution.status)) [
      | inr r ↦ absurd (ground (arith, e, r, h, k))
      | inl r ↦ elim (Option-cases (Leases.active_for_task bundle.task_id s.db)) [
        | inl l ↦ absurd (ground (arith, e, r, l, h, k))
        | inr (lease, l) ↦ elim (Bool-cases (lease.execution_id == execution.id)) [
          | inr o ↦ absurd (ground (arith, e, r, l, o, h, k))
          | inl o ↦ record {
            execution = execution;
            lease = lease;
            has_execution = e;
            may_run = r;
            has_lease = l;
            leases_execution = (==_iff _ _).0 o;
            is_owner = ground (arith, e, r, l, o, h, k);
            unexpired = ground (arith, e, r, l, o, h, k);
          }
        ]
      ]
    ]
  ]

lift-Keeps : {A : Type 0} (r : Result A) → Keeps (lift r)
lift-Keeps (return a) s h = h
lift-Keeps (raise e) s h = h

-- An execution that is stored and is not pending or running.
pub record IsSettled (execution_id : ℕ) (s : Session) : Type 0 where
  pub execution : Execution
  pub is_stored : Executions.get execution_id s.db ≡ some execution
  pub has_ended : is_runnable execution.status ≡ false

module _ (id : ℕ) (c : Executions.Lifecycle) (ends : is_runnable c.status ≡ false) where
  -- An update that ends the execution, followed by an answer.
  pub IsSettled-after :
      (s : Session) {e : Execution}
      → (Executions.update_lifecycle id c s).0 ≡ return e
      → IsSettled id (Executions.update_lifecycle id c s).1
  unfolding Executions.update_lifecycle Executions.require
  IsSettled-after s {e} h = elim (Option-cases (Executions.get id s.db)) [
    | inl n ↦ absurd (ground (arith, n, h))
    | inr (old, n) ↦ record {
      execution = Executions.apply_lifecycle c old;
      is_stored = ground (
        arith,
        n,
        find-modify_self Executions.execution_key (Executions.apply_lifecycle c) (λ x. refl) id
            s.db.executions,
      );
      has_ended = ends;
    }
  ]

module _ (runner : Runner) (owner_id : ℕ) (bundle : ExecutionPackage) (baseline_ref : String) where
  module _ (id : ℕ) (lease : TaskLease) where
    after_executor-Keeps :
        (worktree : String) (r : Result ExecutionResult)
        → Keeps (after_executor runner owner_id bundle baseline_ref id lease worktree r)
    after_executor-Keeps worktree (raise e) s =
        update_then-Keeps id
          (ending ExecutionStatus.failed "failure" (some "executor_exception") (now s)) _
          (λ _.
            bind-Keeps (lift (runner.changed_files worktree)) _
              (lift-Keeps (runner.changed_files worktree)) (λ _ _ q. q))
          s
    after_executor-Keeps worktree (return answer) s =
        bind-Keeps (lift (runner.changed_files worktree)) _
          (lift-Keeps (runner.changed_files worktree))
          (λ _ t.
            update_then-Keeps id
              (ending (execution_status answer) (terminal_text answer.terminal_state)
                (error_classification answer) (now t))
              _ (λ _ _ q. q) t)
          s

    run_executor-Keeps :
        (worktree : String)
        → Keeps (run_executor runner owner_id bundle baseline_ref id lease worktree)
    unfolding run_executor
    run_executor-Keeps worktree s =
        update_then-Keeps id
          (record (Executions.lifecycle ExecutionStatus.running) { started_at = some (now s) }) _
          (λ _.
            after_executor-Keeps worktree
              (runner.execute_package (record bundle { worktree_path = worktree })))
          s

    run_prepared-Keeps :
        (r : Result String) → Keeps (run_prepared runner owner_id bundle baseline_ref id lease r)
    run_prepared-Keeps (return worktree) s = run_executor-Keeps worktree s
    run_prepared-Keeps (raise e) s =
        update_then-Keeps id
          (ending ExecutionStatus.failed "failure" (some "worktree_error") (now s)) _ (λ _ _ q. q) s

    run_owned-Keeps : Keeps (run_owned runner owner_id bundle baseline_ref id lease)
    unfolding run_owned
    run_owned-Keeps =
        bind-Keeps (renew lease.id owner_id (bundle.timeout_seconds + runner.lease_grace)) _
          (renew-Keeps lease.id owner_id (bundle.timeout_seconds + runner.lease_grace))
          (λ answer.
            if-Keeps (is_updated answer.status) _ _
              (run_prepared-Keeps (prepare_worktree runner owner_id bundle baseline_ref id))
              (λ _ q. q))

    run_configured-Keeps :
        (error : Option String)
        → Keeps (run_configured runner owner_id bundle baseline_ref id lease error)
    run_configured-Keeps none s = run_owned-Keeps s
    run_configured-Keeps (some error) s =
        update_then-Keeps id
          (ending ExecutionStatus.failed
            (if runner.has_command then "failure" else "not_configured")
            (some (
              if runner.has_command then "codex_configuration_invalid" else "codex_not_configured"))
            (now s))
          _ (λ _ _ q. q) s

  check_lease-Keeps :
      (execution : Execution) (lease : Option TaskLease)
      → Keeps (check_lease runner owner_id bundle baseline_ref execution lease)
  check_lease-Keeps execution none s = λ q. q
  check_lease-Keeps execution (some lease) s =
      if-Keeps (not (lease.execution_id == execution.id)) _ _ (λ _ q. q)
        (λ t.
          if-Keeps (has_valid_lease bundle.task_id owner_id t) _ _
            (run_configured-Keeps execution.id lease runner.configuration_error) (λ _ q. q) t)
        s

  check_execution-Keeps :
      (execution : Option Execution)
      → Keeps (check_execution runner owner_id bundle baseline_ref execution)
  check_execution-Keeps none s = λ q. q
  check_execution-Keeps (some execution) s =
      if-Keeps (not (is_runnable execution.status)) _ _ (λ _ q. q)
        (λ t. check_lease-Keeps execution (Leases.active_for_task bundle.task_id t.db) t) s

  -- A run keeps the tables of a sound session well formed, in its transaction and in what is
  -- committed, whether it returns or raises.
  pub run_claimed-Keeps : Keeps (run_claimed runner owner_id bundle baseline_ref)
  unfolding run_claimed
  run_claimed-Keeps s h = check_execution-Keeps (Executions.get bundle.execution_id s.db) s h
