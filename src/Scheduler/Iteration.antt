-- ===== src/Scheduler/Iteration.antt =====
-- src/ai_ent/scheduler/iteration.py: the time limits, the factory of packages, called with a
-- session, and one iteration of the scheduler. The loaders of manifests are arguments. A result
-- holds the rows as the claim answered them.
pub mod Failing
pub mod Timeouts
pub mod Iterating
use Prim.Native.String.{◌++◌ as ◌+++◌}
use ai_ent.Prelude.{
  ℕ, ◌+◌, ◌*◌, ◌≡◌, ◌&&◌, ◌||◌, not, Bool, true, false, String, Option, none, some, List, [], ◌∷◌,
  ◌==◌, ltb, leb, str_eq, if◌then◌else◌, modify, reads_as, mentions_dashed,
}
use ai_ent.Persistence.Models.{
  Task, TaskStatus, Execution, ExecutionStatus, ExecutionClass, TaskLease, RuntimeTaskPlanBinding,
  is_implementation,
}
use ai_ent.Persistence.Session.{
  Db, Session, Action, Error, value_error, Result, return, raise, pure, throw, gets, change, ◌>>=◌,
  ◌>>◌,
}
use ai_ent.Persistence.Tasks
use ai_ent.Persistence.Executions
use ai_ent.Bootstrap.Models.{BootstrapTask, ExecutionPackage, build_execution_package}
use ai_ent.Scheduler.Claiming.{
  ClaimRequest, ClaimResult, ClaimStatus, already_leased, is_claimed, claim_task, release,
}
use ai_ent.Scheduler.Readiness.{PlanState, list_ready_tasks}
use ai_ent.Scheduler.Baseline.{HardeningBaselineState, binding_of, current_for_binding}

pub data SchedulerIterationStatus : Type 0 where
  no_ready_task package_ready claim_contention blocked error : SchedulerIterationStatus

pub data IterationReason : Type 0 where
  unclaimed : ClaimStatus → IterationReason
  claim_missing_execution_or_lease : IterationReason
  unbuilt : Error → IterationReason

pub record SchedulerIterationResult : Type 0 where
  pub status : SchedulerIterationStatus
  pub task : Option Task
  pub execution : Option Execution
  pub lease : Option TaskLease
  pub execution_package : Option ExecutionPackage
  pub claim : Option ClaimResult
  pub reason : Option IterationReason

pub record ExecutionTimeoutPolicy : Type 0 where
  pub standard_timeout_seconds : ℕ
  pub high_complexity_timeout_seconds : ℕ

-- The constructor with its checks; a number of seconds here is not negative.
unfoldable pub make_policy : (standard high : ℕ) → Result ExecutionTimeoutPolicy
make_policy standard high =
    if standard == 0
    then raise (value_error "standard timeout must be positive")
    else if high == 0
    then raise (value_error "high-complexity timeout must be positive")
    else if ltb high standard
    then raise (value_error "high-complexity timeout must be at least the standard timeout")
    else return
        (record { standard_timeout_seconds = standard; high_complexity_timeout_seconds = high })

abbrev pub larger : ℕ → ℕ → ℕ
larger a b = if ltb a b then b else a

unfoldable pub for_standard_timeout : ℕ → Result ExecutionTimeoutPolicy
unfolding make_policy
for_standard_timeout seconds = make_policy seconds seconds

unfoldable pub for_codex_default : ℕ → Result ExecutionTimeoutPolicy
unfolding make_policy
for_codex_default seconds = make_policy seconds (larger (seconds * 2) 1800)

unfoldable pub maximum_timeout_seconds : ExecutionTimeoutPolicy → ℕ
maximum_timeout_seconds policy =
    larger policy.standard_timeout_seconds policy.high_complexity_timeout_seconds

-- The texts are compared without regard to case.
unfoldable pub requires_high_complexity_timeout : RuntimeTaskPlanBinding → Bool
requires_high_complexity_timeout binding =
    reads_as "high" binding.risk_level
    || mentions_dashed "high-risk" binding.model_profile
    || reads_as "full_regression_security" binding.verification_profile

unfoldable pub timeout_for_task : ExecutionTimeoutPolicy → Option RuntimeTaskPlanBinding → ℕ
timeout_for_task policy none = policy.standard_timeout_seconds
timeout_for_task policy (some binding) =
    if requires_high_complexity_timeout binding
    then policy.high_complexity_timeout_seconds
    else policy.standard_timeout_seconds

-- `manifest_tasks` is what the constructor was given; the two others are the loaders.
pub record ExecutionPackageFactory : Type 0 where
  pub timeout_policy : Option ExecutionTimeoutPolicy
  pub default_timeout_seconds : ℕ
  pub manifest_tasks : Option (ℕ → Option BootstrapTask)
  pub load_tasks : ℕ → Option BootstrapTask
  pub build_runtime_manifest_tasks : (project_id : ℕ) → Db → Result (ℕ → Option BootstrapTask)
  pub worktree_path : ℕ → String
  pub id_text : ℕ → String

abbrev pub same_class : ExecutionClass → ExecutionClass → Bool
same_class a b = if is_implementation a then is_implementation b else not (is_implementation b)

abbrev pub same_bool : Bool → Bool → Bool
same_bool a b = if a then b else not b

abbrev pub is_value_error : Error → Bool
is_value_error (value_error text) = true
is_value_error _ = false

-- The columns that a baseline sets on the row of the execution.
abbrev pub with_baseline : HardeningBaselineState → Execution → Execution
with_baseline b e = record e {
  baseline_commit = some b.baseline_commit;
  baseline_tree = some b.baseline_tree;
  baseline_generation = some b.generation;
}

abbrev pub set_baseline : ℕ → HardeningBaselineState → Db → Db
set_baseline execution_id b db = record db {
  executions = modify Executions.execution_key execution_id (with_baseline b) db.executions;
}

module _ (factory : ExecutionPackageFactory) (task : Task) (execution_id project_id : ℕ) where
  abbrev pub lifted : {A : Type 0} → Result A → Action A
  lifted (return a) = pure a
  lifted (raise e) = throw e

  -- `_manifest_tasks_for`, with a session.
  abbrev pub manifest_tasks_for :
      Option (ℕ → Option BootstrapTask)
      → Option RuntimeTaskPlanBinding
      → Action (ℕ → Option BootstrapTask)
  manifest_tasks_for (some tasks) binding = pure tasks
  manifest_tasks_for none (some binding) =
      λ s. lifted (factory.build_runtime_manifest_tasks project_id s.db) s
  manifest_tasks_for none none = pure factory.load_tasks

  abbrev pub seconds : Option ExecutionTimeoutPolicy → Option RuntimeTaskPlanBinding → ℕ
  seconds none binding = factory.default_timeout_seconds
  seconds (some policy) binding = timeout_for_task policy binding

  -- The package, with the baseline that is written to the execution's row.
  abbrev pub finish_build :
      BootstrapTask
      → Option RuntimeTaskPlanBinding
      → Option HardeningBaselineState
      → Action ExecutionPackage
  finish_build manifest binding none = pure (
      build_execution_package manifest (factory.worktree_path task.id) execution_id
        (seconds factory.timeout_policy binding) none none none)
  finish_build manifest binding (some b) = do
    change (set_baseline execution_id b)
    pure (
        build_execution_package manifest (factory.worktree_path task.id) execution_id
          (seconds factory.timeout_policy binding) (some b.baseline_commit) (some b.baseline_tree)
          (some b.generation))

  abbrev pub current_baseline : Option RuntimeTaskPlanBinding → Db → Option HardeningBaselineState
  current_baseline none db = none
  current_baseline (some binding) db = current_for_binding factory.id_text binding db

  abbrev pub check_manifest_task :
      Option RuntimeTaskPlanBinding → Option BootstrapTask → Action ExecutionPackage
  check_manifest_task (some binding) none = throw (
      value_error
        ("runtime task is not imported from a valid frozen plan: " +++ factory.id_text task.id))
  check_manifest_task none none =
      throw (value_error ("manifest task not found: " +++ factory.id_text task.id))
  check_manifest_task binding (some manifest) =
      if not (str_eq task.title manifest.title)
      then throw (value_error ("manifest/db task mismatch: " +++ factory.id_text task.id))
      else if not (same_class task.execution_class manifest.execution_class)
      then throw
          (value_error ("manifest/db execution class mismatch: " +++ factory.id_text task.id))
      else if not (same_bool task.schedulable manifest.schedulable)
      then throw (value_error ("manifest/db schedulable mismatch: " +++ factory.id_text task.id))
      else do
        baseline ← gets (λ s. current_baseline binding s.db)
        finish_build manifest binding baseline

  unfoldable pub build : Action ExecutionPackage
  build = do
    binding ← gets (λ s. binding_of task.id s.db)
    tasks ← manifest_tasks_for factory.manifest_tasks binding
    check_manifest_task binding (tasks task.id)

pub record Scheduler : Type 0 where
  pub plan_state : PlanState
  pub has_prefix : ℕ → Bool
  pub blocking : Task → Db → List ℕ
  pub factory : ExecutionPackageFactory
  pub owner_id : ℕ
  pub lease_duration : ℕ

abbrev pub iteration_result : SchedulerIterationStatus → SchedulerIterationResult
iteration_result status = record {
  status = status;
  task = none;
  execution = none;
  lease = none;
  execution_package = none;
  claim = none;
  reason = none;
}

abbrev pub unclaimed_status : ClaimStatus → SchedulerIterationStatus
unclaimed_status already_leased = claim_contention
unclaimed_status _ = blocked

abbrev pub package_failure : Executions.Lifecycle
package_failure = record (Executions.lifecycle ExecutionStatus.failed) {
  terminal_state = some "failure";
  error_classification = some "package_construction_failed";
}

module _ (scheduler : Scheduler) (project_id : ℕ) where
  abbrev pub claim_request : ℕ → ClaimRequest
  claim_request task_id = record {
    task_id = task_id;
    owner_id = scheduler.owner_id;
    lease_duration = scheduler.lease_duration;
    executor_type = "codex";
    lease_id = none;
    execution_id = none;
  }

  module _ (task : Task) (claim : ClaimResult) where
    module _ (execution : Execution) (lease : TaskLease) where
      abbrev pub claimed_result : SchedulerIterationStatus → SchedulerIterationResult
      claimed_result status = record (iteration_result status) {
        task = some task;
        execution = some execution;
        lease = some lease;
        claim = some claim;
      }

      -- `except ValueError`
      unfoldable pub fail_package : Error → Action SchedulerIterationResult
      fail_package e = do
        release lease.id scheduler.owner_id
        Executions.update_lifecycle execution.id package_failure
        change (Tasks.set_status task.id TaskStatus.blocked)
        pure (record (claimed_result error) { reason = some (unbuilt e) })

      abbrev pub after_build : Result ExecutionPackage → Action SchedulerIterationResult
      after_build (return bundle) =
          pure (record (claimed_result package_ready) { execution_package = some bundle })
      after_build (raise e) = if is_value_error e then fail_package e else throw e

      unfoldable pub build_package : Action SchedulerIterationResult
      build_package s =
          let (answer, after) = build scheduler.factory task execution.id project_id s in
          after_build answer after

    abbrev pub with_rows : Option Execution → Option TaskLease → Action SchedulerIterationResult
    with_rows (some execution) (some lease) = build_package execution lease
    with_rows _ _ = pure (record (iteration_result error) {
      task = some task;
      claim = some claim;
      reason = some claim_missing_execution_or_lease;
    })

    abbrev pub after_claim : Action SchedulerIterationResult
    after_claim =
        if is_claimed claim.status
        then with_rows claim.execution claim.lease
        else pure (record (iteration_result (unclaimed_status claim.status)) {
          task = some task;
          claim = some claim;
          reason = some (unclaimed claim.status);
        })

  abbrev pub run_ready : List Task → Action SchedulerIterationResult
  run_ready [] = pure (iteration_result no_ready_task)
  run_ready (task ∷ tasks) = do
    claim ← claim_task scheduler.blocking (claim_request task.id)
    after_claim task claim

  unfoldable pub iterate : (limit : ℕ) → Action SchedulerIterationResult
  iterate limit = do
    ready ← gets (
        list_ready_tasks scheduler.plan_state scheduler.has_prefix project_id
          (some (larger limit 1)))
    run_ready ready
