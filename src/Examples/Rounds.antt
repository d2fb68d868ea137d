-- ===== src/Examples/Rounds.antt =====
-- A run of the scheduler over the sample tables, and a repair of a failed execution.
use ai_ent.Prelude.{
  ℕ, zero, suc, ◌+◌, ◌*◌, ◌<◌, ◌≤◌, ◌≡◌, refl, Bool, true, false, String, Option, none, some, List,
  [], ◌∷◌, arith,
}
use ai_ent.Persistence.Session.{return, raise, assertion_error}
use ai_ent.Bootstrap.Models.{ExecutionPackage}
use ai_ent.Scheduler.Execution.{ClaimedExecutionResult, run_claimed}
use ai_ent.Scheduler.Finalization.{
  Worktree, ExecutionFinalizationResult, new_verified_change, precondition_failed, missing_worktree,
}
use ai_ent.Scheduler.Finalization.Steps.{finalize}
use ai_ent.Scheduler.Iteration.{SchedulerIterationResult, iteration_result, package_ready}
use ai_ent.Scheduler.Repair.Service.{
  RepairService, RepairExecutionResult, RepairExecutionStatus, repair_once, repair_result,
}
use ai_ent.Scheduler.Repair.Repairing.{IsRepaired, repair_once-IsRepaired}
use ai_ent.Scheduler.Bounded.Tasks.{TaskResult, TaskRunner, completed, new_outcome, run_task}
use ai_ent.Scheduler.Bounded.{
  BoundedRunner, BoundedRunLimits, BoundedRunResult, StopReason, first_run, run_bounded,
}
use ai_ent.Scheduler.Bounded.Counting.{IsCounted, run_bounded-IsCounted}
use ai_ent.Scheduler.Bounded.Ending.{run_bounded-ends}
use ai_ent.Examples.Data.{idle, held, no_blockers}
use ai_ent.Examples.Runs.{its_package, runner, finalizer, worktree, manifest_task}
use ai_ent.Examples.Repairs.{policy, failed, blocked, value, planned}
use ai_ent.Examples.Iterations.{scheduler}

abbrev service : RepairService
service = record {
  policy = policy;
  blocking = no_blockers;
  manifest_tasks = λ id. some manifest_task;
  worktree_path = λ id. "before";
  runner = λ bundle. runner;
  baseline_ref = "HEAD";
  finalizer = finalizer;
  worktree = λ bundle. worktree;
  owner_id = 8;
}

abbrev answer : RepairExecutionResult
answer =
    value (repair_result RepairExecutionStatus.repair_failed planned)
      (repair_once service 20 (blocked failed)).0

is_answered : (repair_once service 20 (blocked failed)).0 ≡ return answer
unfolding repair_once ai_ent.Persistence.Executions.require ai_ent.Prelude.find
    ai_ent.Scheduler.Repair.Service.existing_repair_attempt ai_ent.Prelude.keep
    ai_ent.Persistence.Executions.list_by_task ai_ent.Prelude.sort_by ai_ent.Scheduler.Repair.plan
    ai_ent.Persistence.Tasks.require ai_ent.Scheduler.Repair.read_only_decision
    ai_ent.Scheduler.Repair.action_for ai_ent.Scheduler.Repair.classify
    ai_ent.Persistence.Checkpoints.latest_for_execution ai_ent.Prelude.first ai_ent.Prelude.mentions
    ai_ent.Prelude.reads_as ai_ent.Scheduler.Repair.repair_attempt_count ai_ent.Prelude.count
    ai_ent.Scheduler.Repair.start_repair ai_ent.Persistence.Leases.active_for_task
    ai_ent.Scheduler.Claiming.claim_task ai_ent.Prelude.modify ai_ent.Scheduler.Claiming.grant
    ai_ent.Scheduler.Claiming.grant_execution ai_ent.Persistence.Executions.create
    ai_ent.Persistence.Executions.admissible ai_ent.Persistence.Executions.next_attempt
    ai_ent.Scheduler.Claiming.grant_lease ai_ent.Persistence.Leases.create
    ai_ent.Persistence.Leases.admissible ai_ent.Scheduler.Repair.Service.run_package
    ai_ent.Scheduler.Durability.persist_execution_ownership run_claimed ai_ent.Bootstrap.Git.matches
    ai_ent.Bootstrap.Git.validate_scope ai_ent.Bootstrap.Models.build_execution_package
    ai_ent.Persistence.Checkpoints.admissible ai_ent.Persistence.Checkpoints.create
    ai_ent.Persistence.Executions.latest_attempt ai_ent.Persistence.Executions.update_lifecycle
    ai_ent.Persistence.Tasks.update_status ai_ent.Prelude.get_field ai_ent.Prelude.insert_by
    ai_ent.Scheduler.Claiming.claim_free ai_ent.Scheduler.Claiming.complete
    ai_ent.Scheduler.Claiming.has_valid_lease ai_ent.Scheduler.Claiming.release
    ai_ent.Scheduler.Claiming.renew ai_ent.Scheduler.Execution.error_classification
    ai_ent.Scheduler.Execution.execution_status ai_ent.Scheduler.Execution.prepare_worktree
    ai_ent.Scheduler.Execution.run_executor ai_ent.Scheduler.Execution.run_owned
    ai_ent.Scheduler.Finalization.Steps.commit_candidate finalize
    ai_ent.Scheduler.Finalization.Steps.finalize_subject
    ai_ent.Scheduler.Finalization.Steps.finish_success
    ai_ent.Scheduler.Finalization.Steps.finish_verified
    ai_ent.Scheduler.Finalization.Steps.matching_existing_task_commit
    ai_ent.Scheduler.Finalization.block_task
    ai_ent.Scheduler.Finalization.clean_candidate_success_kind
    ai_ent.Scheduler.Finalization.failed_outputs ai_ent.Scheduler.Finalization.record_success
    ai_ent.Scheduler.Finalization.recorded_success_kind
    ai_ent.Scheduler.Finalization.verification_state
    ai_ent.Scheduler.Repair.Service.classification_of
is_answered = refl

is_repaired : answer.status ≡ RepairExecutionStatus.repaired
unfolding repair_once ai_ent.Persistence.Executions.require ai_ent.Prelude.find
    ai_ent.Scheduler.Repair.Service.existing_repair_attempt ai_ent.Prelude.keep
    ai_ent.Persistence.Executions.list_by_task ai_ent.Prelude.sort_by ai_ent.Scheduler.Repair.plan
    ai_ent.Persistence.Tasks.require ai_ent.Scheduler.Repair.read_only_decision
    ai_ent.Scheduler.Repair.action_for ai_ent.Scheduler.Repair.classify
    ai_ent.Persistence.Checkpoints.latest_for_execution ai_ent.Prelude.first ai_ent.Prelude.mentions
    ai_ent.Prelude.reads_as ai_ent.Scheduler.Repair.repair_attempt_count ai_ent.Prelude.count
    ai_ent.Scheduler.Repair.start_repair ai_ent.Persistence.Leases.active_for_task
    ai_ent.Scheduler.Claiming.claim_task ai_ent.Prelude.modify ai_ent.Scheduler.Claiming.grant
    ai_ent.Scheduler.Claiming.grant_execution ai_ent.Persistence.Executions.create
    ai_ent.Persistence.Executions.admissible ai_ent.Persistence.Executions.next_attempt
    ai_ent.Scheduler.Claiming.grant_lease ai_ent.Persistence.Leases.create
    ai_ent.Persistence.Leases.admissible ai_ent.Scheduler.Repair.Service.run_package
    ai_ent.Scheduler.Durability.persist_execution_ownership run_claimed ai_ent.Bootstrap.Git.matches
    ai_ent.Bootstrap.Git.validate_scope ai_ent.Bootstrap.Models.build_execution_package
    ai_ent.Persistence.Checkpoints.admissible ai_ent.Persistence.Checkpoints.create
    ai_ent.Persistence.Executions.latest_attempt ai_ent.Persistence.Executions.update_lifecycle
    ai_ent.Persistence.Tasks.update_status ai_ent.Prelude.get_field ai_ent.Prelude.insert_by
    ai_ent.Scheduler.Claiming.claim_free ai_ent.Scheduler.Claiming.complete
    ai_ent.Scheduler.Claiming.has_valid_lease ai_ent.Scheduler.Claiming.release
    ai_ent.Scheduler.Claiming.renew ai_ent.Scheduler.Execution.error_classification
    ai_ent.Scheduler.Execution.execution_status ai_ent.Scheduler.Execution.prepare_worktree
    ai_ent.Scheduler.Execution.run_executor ai_ent.Scheduler.Execution.run_owned
    ai_ent.Scheduler.Finalization.Steps.commit_candidate finalize
    ai_ent.Scheduler.Finalization.Steps.finalize_subject
    ai_ent.Scheduler.Finalization.Steps.finish_success
    ai_ent.Scheduler.Finalization.Steps.finish_verified
    ai_ent.Scheduler.Finalization.Steps.matching_existing_task_commit
    ai_ent.Scheduler.Finalization.block_task
    ai_ent.Scheduler.Finalization.clean_candidate_success_kind
    ai_ent.Scheduler.Finalization.failed_outputs ai_ent.Scheduler.Finalization.record_success
    ai_ent.Scheduler.Finalization.recorded_success_kind
    ai_ent.Scheduler.Finalization.verification_state
    ai_ent.Scheduler.Repair.Service.classification_of
is_repaired = refl

repair_once-IsRepaired_example : IsRepaired answer (repair_once service 20 (blocked failed)).1
repair_once-IsRepaired_example =
    repair_once-IsRepaired service 20 (blocked failed) is_answered is_repaired

-- A runner of tasks that allows so many repairs.
abbrev tasks : Worktree → ℕ → TaskRunner
tasks files max_repairs = record {
  runner = λ bundle. runner;
  baseline_ref = "HEAD";
  finalizer = finalizer;
  worktree = λ bundle. files;
  repair = service;
  max_repairs_per_task = max_repairs;
}

abbrev no_files : Worktree
no_files = record worktree { exists = false }

-- A run without files cannot be finalized; it may not be repaired, and the assertion fails.
asserts :
    (run_task (tasks no_files 0) 9 1 (iteration_result package_ready) its_package held).0
    ≡ raise assertion_error
unfolding ai_ent.Prelude.sort_by ai_ent.Persistence.Tasks.list_by_project ai_ent.Prelude.keep
    ai_ent.Prelude.find ai_ent.Prelude.count run_task ai_ent.Scheduler.Bounded.Tasks.repair_rounds
    ai_ent.Scheduler.Bounded.Tasks.record_executor_failure ai_ent.Scheduler.Claiming.release
    ai_ent.Persistence.Executions.require ai_ent.Persistence.Executions.list_by_task
    ai_ent.Persistence.Tasks.require ai_ent.Persistence.Checkpoints.latest_for_execution
    ai_ent.Prelude.first ai_ent.Prelude.mentions ai_ent.Prelude.reads_as
    ai_ent.Persistence.Leases.active_for_task ai_ent.Prelude.modify run_claimed
    ai_ent.Bootstrap.Git.matches ai_ent.Bootstrap.Git.validate_scope
    ai_ent.Bootstrap.Models.build_execution_package ai_ent.Persistence.Checkpoints.admissible
    ai_ent.Persistence.Checkpoints.create ai_ent.Persistence.Executions.update_lifecycle
    ai_ent.Persistence.Tasks.update_status ai_ent.Prelude.get_field ai_ent.Prelude.insert_by
    ai_ent.Scheduler.Claiming.complete ai_ent.Scheduler.Claiming.has_valid_lease
    ai_ent.Scheduler.Claiming.renew ai_ent.Scheduler.Execution.error_classification
    ai_ent.Scheduler.Execution.execution_status ai_ent.Scheduler.Execution.prepare_worktree
    ai_ent.Scheduler.Execution.run_executor ai_ent.Scheduler.Execution.run_owned
    ai_ent.Scheduler.Finalization.Steps.commit_candidate finalize
    ai_ent.Scheduler.Finalization.Steps.finalize_subject
    ai_ent.Scheduler.Finalization.Steps.finish_success
    ai_ent.Scheduler.Finalization.Steps.finish_verified
    ai_ent.Scheduler.Finalization.Steps.matching_existing_task_commit
    ai_ent.Scheduler.Finalization.block_task
    ai_ent.Scheduler.Finalization.clean_candidate_success_kind
    ai_ent.Scheduler.Finalization.failed_outputs ai_ent.Scheduler.Finalization.record_success
    ai_ent.Scheduler.Finalization.recorded_success_kind
    ai_ent.Scheduler.Finalization.verification_state
asserts = refl

abbrev its_result : TaskResult
its_result = record {
  outcome = record (new_outcome completed) {
    task_id = some 1;
    execution_id = some 20;
    commit_id = some "abc";
    success_kind = some new_verified_change;
  };
  commits = "abc" ∷ [];
  repairs_attempted = 0;
}

abbrev bounded : BoundedRunner
bounded = record {
  scheduler = scheduler (some manifest_task);
  project_id = 7;
  tasks = tasks worktree 2;
  limits = record { max_tasks_per_run = 1; max_wall_clock_seconds = 2; max_failures_per_run = 1 };
  clock = λ n. n;
  shutdown = λ n. false;
  repair_fuel = 3;
}

-- The one task is completed, and no task is left.
abbrev result : BoundedRunResult
result = record {
  final = record first_run {
    tasks_attempted = 1;
    tasks_completed = 1;
    commits_created = "abc" ∷ [];
    outcomes =
        record (new_outcome completed) {
          task_id = some 1;
          execution_id = some 50;
          commit_id = some "abc";
          success_kind = some new_verified_change;
        }
        ∷ [];
    last_task_id = some 1;
    last_execution_id = some 50;
    ticks = 2;
    asked = 2;
  };
  stop_reason = StopReason.no_ready_task;
}

has_result : (run_bounded bounded 2 idle).0 ≡ return (some result)
unfolding run_bounded ai_ent.Scheduler.Bounded.rounds ai_ent.Scheduler.Bounded.round
    ai_ent.Scheduler.Iteration.iterate ai_ent.Scheduler.Readiness.list_ready_tasks
    ai_ent.Scheduler.Readiness.collect_ready ai_ent.Prelude.sort_by
    ai_ent.Scheduler.Readiness.load_project_graph ai_ent.Persistence.Tasks.list_by_project
    ai_ent.Prelude.keep ai_ent.Scheduler.Readiness.evaluate_loaded ai_ent.Prelude.find
    ai_ent.Scheduler.Cycles.is_cyclic ai_ent.Scheduler.Cycles.visit_each
    ai_ent.Scheduler.Cycles.visit ai_ent.Scheduler.Cycles.member
    ai_ent.Scheduler.Readiness.dependencies_of ai_ent.Prelude.count
    ai_ent.Scheduler.Iteration.build_package ai_ent.Scheduler.Iteration.build
    ai_ent.Scheduler.Iteration.timeout_for_task ai_ent.Scheduler.Bounded.attempt_task
    ai_ent.Scheduler.Bounded.Tasks.run_task ai_ent.Scheduler.Bounded.Tasks.record_executor_failure
    ai_ent.Scheduler.Bounded.stop_reason_for_outcome ai_ent.Scheduler.Claiming.release
    ai_ent.Persistence.Executions.require ai_ent.Persistence.Executions.list_by_task
    ai_ent.Persistence.Tasks.require ai_ent.Persistence.Checkpoints.latest_for_execution
    ai_ent.Prelude.first ai_ent.Prelude.mentions ai_ent.Prelude.reads_as
    ai_ent.Persistence.Leases.active_for_task ai_ent.Scheduler.Claiming.claim_task
    ai_ent.Prelude.modify ai_ent.Scheduler.Claiming.grant ai_ent.Scheduler.Claiming.grant_execution
    ai_ent.Persistence.Executions.create ai_ent.Persistence.Executions.admissible
    ai_ent.Persistence.Executions.next_attempt ai_ent.Scheduler.Claiming.grant_lease
    ai_ent.Persistence.Leases.create ai_ent.Persistence.Leases.admissible
    ai_ent.Scheduler.Durability.persist_execution_ownership run_claimed ai_ent.Bootstrap.Git.matches
    ai_ent.Bootstrap.Git.validate_scope ai_ent.Bootstrap.Models.build_execution_package
    ai_ent.Persistence.Checkpoints.admissible ai_ent.Persistence.Checkpoints.create
    ai_ent.Persistence.Executions.latest_attempt ai_ent.Persistence.Executions.update_lifecycle
    ai_ent.Persistence.Tasks.update_status ai_ent.Prelude.get_field ai_ent.Prelude.insert_by
    ai_ent.Scheduler.Claiming.claim_free ai_ent.Scheduler.Claiming.complete
    ai_ent.Scheduler.Claiming.has_valid_lease ai_ent.Scheduler.Claiming.renew
    ai_ent.Scheduler.Execution.error_classification ai_ent.Scheduler.Execution.execution_status
    ai_ent.Scheduler.Execution.prepare_worktree ai_ent.Scheduler.Execution.run_executor
    ai_ent.Scheduler.Execution.run_owned ai_ent.Scheduler.Finalization.Steps.commit_candidate
    finalize ai_ent.Scheduler.Finalization.Steps.finalize_subject
    ai_ent.Scheduler.Finalization.Steps.finish_success
    ai_ent.Scheduler.Finalization.Steps.finish_verified
    ai_ent.Scheduler.Finalization.Steps.matching_existing_task_commit
    ai_ent.Scheduler.Finalization.block_task
    ai_ent.Scheduler.Finalization.clean_candidate_success_kind
    ai_ent.Scheduler.Finalization.failed_outputs ai_ent.Scheduler.Finalization.record_success
    ai_ent.Scheduler.Finalization.recorded_success_kind
    ai_ent.Scheduler.Finalization.verification_state
    ai_ent.Scheduler.Baseline.Blockers.blockers_by_task
has_result = refl

run_bounded-IsCounted_example : IsCounted bounded result.final
run_bounded-IsCounted_example = run_bounded-IsCounted bounded 2 idle has_result

run_bounded-ends_example : (found : BoundedRunResult) × (some result ≡ some found)
run_bounded-ends_example =
    run_bounded-ends bounded (omega arith) 2 (λ n h. ground (arith, h)) 2 idle (omega arith)
      (omega arith) has_result
