-- ===== src/Scheduler/Execution.antt =====
-- src/ai_ent/scheduler/execution.py: ClaimedExecutionRunner. Git, the worktree and the executor are
-- arguments: an answer that raises is one of the exceptions that the code catches at that place. A
-- result names its execution, whose row the session holds, and has the lease as it was first read.
pub mod Running
pub mod Settled
use ai_ent.Prelude.{
  ℕ, ◌+◌, ◌≡◌, not, Bool, true, false, String, Option, none, some, List, [], ◌∷◌, ◌==◌, str_eq,
  if◌then◌else◌, or_else,
}
use ai_ent.Persistence.Models.{Execution, ExecutionStatus, TaskLease, is_runnable}
use ai_ent.Persistence.Session.{
  Db, Session, Action, Error, runtime_error, Result, return, raise, pure, throw, gets, now, ◌>>=◌,
  ◌>>◌,
}
use ai_ent.Persistence.Executions
use ai_ent.Persistence.Leases
use ai_ent.Bootstrap.Models.{
  ExecutionPackage, ExecutionResult, TerminalState, success, failure, timeout, cancelled,
}
use ai_ent.Bootstrap.Git.{◌>>=◌ as ◌>>=ʳ◌}
use ai_ent.Scheduler.Claiming.{
  LeaseActionResult, LeaseActionStatus, is_updated, has_valid_lease, renew,
}

pub data ClaimedExecutionStatus : Type 0 where
  executed not_configured ownership_lost invalid_execution worktree_error executor_failed :
      ClaimedExecutionStatus

pub data RunReason : Type 0 where
  invalid missing_active_lease lease_not_owned_or_expired : RunReason
  renewal : LeaseActionStatus → RunReason
  configuration : String → RunReason
  raised : Error → RunReason

pub record ClaimedExecutionResult : Type 0 where
  pub status : ClaimedExecutionStatus
  pub execution : Option ℕ
  pub lease : Option TaskLease
  pub execution_package : Option ExecutionPackage
  pub execution_result : Option ExecutionResult
  pub worktree_path : Option String
  pub changed_files : List String
  pub reason : Option RunReason

pub record Runner : Type 0 where
  pub configuration_error : Option String
  pub has_command : Bool
  pub lease_grace : ℕ
  pub toplevel : Result Unit
  pub rev_parse : String → Result String
  pub tree_of : String → Result String
  pub create_worktree : (task_id execution_id : ℕ) (base_commit : String) → Result String
  pub execute_package : ExecutionPackage → Result ExecutionResult
  pub changed_files : String → Result (List String)

abbrev pub terminal_text : TerminalState → String
terminal_text success = "success"
terminal_text failure = "failure"
terminal_text timeout = "timeout"
terminal_text cancelled = "cancelled"
terminal_text TerminalState.not_configured = "not_configured"

unfoldable pub execution_status : ExecutionResult → ExecutionStatus
execution_status result = elim result.terminal_state [
  | timeout ↦ ExecutionStatus.timeout
  | cancelled ↦ ExecutionStatus.cancelled
  | _ ↦ if result.ok then ExecutionStatus.succeeded else ExecutionStatus.failed
]

unfoldable pub error_classification : ExecutionResult → Option String
error_classification result = if result.ok then none else elim result.terminal_state [
  | TerminalState.not_configured ↦ some "codex_not_configured"
  | timeout ↦ some "executor_timeout"
  | _ ↦ some "executor_failed"
]

-- The fields of an execution that ends here.
abbrev pub ending : ExecutionStatus → String → Option String → ℕ → Executions.Lifecycle
ending status terminal error time = record (Executions.lifecycle status) {
  terminal_state = some terminal;
  error_classification = error;
  finished_at = some time;
}

abbrev pub lift : {A : Type 0} → Result A → Action A
lift (return a) = pure a
lift (raise e) = throw e

module _ (runner : Runner) (owner_id : ℕ) (execution_package : ExecutionPackage)
    (baseline_ref : String) where
  abbrev result :
      ClaimedExecutionStatus
      → Option ℕ
      → Option TaskLease
      → Option RunReason
      → ClaimedExecutionResult
  result status execution lease reason = record {
    status = status;
    execution = execution;
    lease = lease;
    execution_package = some execution_package;
    execution_result = none;
    worktree_path = none;
    changed_files = [];
    reason = reason;
  }

  abbrev expected_tree : String → Option String → Result Unit
  expected_tree base_commit none = return tt
  expected_tree base_commit (some tree) = runner.tree_of base_commit >>=ʳ λ base_tree.
      if not (str_eq base_tree tree)
      then raise (runtime_error "execution baseline tree mismatch")
      else return tt

  abbrev requested : Option String → String
  requested none = baseline_ref
  requested (some commit) = if str_eq commit "" then baseline_ref else commit

  unfoldable pub prepare_worktree : ℕ → Result String
  prepare_worktree execution_id = runner.toplevel >>=ʳ λ _.
      runner.rev_parse (requested execution_package.baseline_commit) >>=ʳ λ base_commit.
      expected_tree base_commit execution_package.baseline_tree >>=ʳ λ _.
      runner.create_worktree execution_package.task_id execution_id base_commit

  module _ (execution_id : ℕ) (lease : TaskLease) where
    abbrev after_executor : String → Result ExecutionResult → Action ClaimedExecutionResult
    after_executor worktree (raise e) = do
      time ← gets now
      Executions.update_lifecycle execution_id
          (ending ExecutionStatus.failed "failure" (some "executor_exception") time)
      files ← lift (runner.changed_files worktree)
      pure (record (result executor_failed (some execution_id) (some lease) (some (raised e))) {
        execution_package = some (record execution_package { worktree_path = worktree });
        worktree_path = some worktree;
        changed_files = files;
      })
    after_executor worktree (return answer) = do
      files ← lift (runner.changed_files worktree)
      time ← gets now
      Executions.update_lifecycle execution_id (
          ending (execution_status answer) (terminal_text answer.terminal_state)
            (error_classification answer) time)
      pure
          (record (result (if answer.ok then executed else executor_failed) (some execution_id)
            (some lease) none) {
              execution_package = some (record execution_package { worktree_path = worktree });
              execution_result = some answer;
              worktree_path = some worktree;
              changed_files = files;
            })

    unfoldable pub run_executor : String → Action ClaimedExecutionResult
    run_executor worktree = do
      time ← gets now
      Executions.update_lifecycle execution_id
          (record (Executions.lifecycle ExecutionStatus.running) { started_at = some time })
      after_executor worktree
          (runner.execute_package (record execution_package { worktree_path = worktree }))

    abbrev run_prepared : Result String → Action ClaimedExecutionResult
    run_prepared (return worktree) = run_executor worktree
    run_prepared (raise e) = do
      time ← gets now
      Executions.update_lifecycle execution_id
          (ending ExecutionStatus.failed "failure" (some "worktree_error") time)
      pure (result worktree_error (some execution_id) (some lease) (some (raised e)))

    unfoldable pub run_owned : Action ClaimedExecutionResult
    run_owned = do
      answer ← renew lease.id owner_id (execution_package.timeout_seconds + runner.lease_grace)
      if is_updated answer.status
          then run_prepared (prepare_worktree execution_id)
          else pure (
              result ownership_lost (some execution_id) (some lease) (some (renewal answer.status)))

    abbrev run_configured : Option String → Action ClaimedExecutionResult
    run_configured none = run_owned
    run_configured (some error) = do
      time ← gets now
      Executions.update_lifecycle execution_id (
          ending ExecutionStatus.failed (if runner.has_command then "failure" else "not_configured")
            (some (
              if runner.has_command then "codex_configuration_invalid" else "codex_not_configured"))
            time)
      pure (
          result ClaimedExecutionStatus.not_configured (some execution_id) (some lease)
            (some (configuration error)))

  abbrev check_lease : Execution → Option TaskLease → Action ClaimedExecutionResult
  check_lease execution none =
      pure (result ownership_lost (some execution.id) none (some missing_active_lease))
  check_lease execution (some lease) =
      if not (lease.execution_id == execution.id)
      then pure (result ownership_lost (some execution.id) none (some missing_active_lease))
      else do
        valid ← gets (has_valid_lease execution_package.task_id owner_id)
        if valid
            then run_configured execution.id lease runner.configuration_error
            else pure (
                result ownership_lost (some execution.id) (some lease)
                  (some lease_not_owned_or_expired))

  abbrev check_execution : Option Execution → Action ClaimedExecutionResult
  check_execution none = pure (result invalid_execution none none (some invalid))
  check_execution (some execution) =
      if not (is_runnable execution.status)
      then pure (result invalid_execution none none (some invalid))
      else do
        lease ← gets (λ s. Leases.active_for_task execution_package.task_id s.db)
        check_lease execution lease

  unfoldable pub run_claimed : Action ClaimedExecutionResult
  unfolding run_owned
  run_claimed = do
    execution ← gets (λ s. Executions.get execution_package.execution_id s.db)
    check_execution execution
