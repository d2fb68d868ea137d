-- ===== src/Examples/Iterations.antt =====
-- Packages that are built for the sample task, and one that cannot be built.
use ai_ent.Prelude.{ℕ, ◌<◌, ◌≤◌, ◌≡◌, refl, Bool, true, String, Option, none, some, arith}
use ai_ent.Persistence.Models.{RuntimeTaskPlanBinding}
use ai_ent.Persistence.Session.{return, raise, value_error}
use ai_ent.Prelude.{end}
use ai_ent.Bootstrap.Models.{BootstrapTask}
use ai_ent.Scheduler.Iteration.{
  ExecutionTimeoutPolicy, ExecutionPackageFactory, Scheduler, make_policy, timeout_for_task,
  maximum_timeout_seconds, build, build_package, claimed_result, unbuilt, error,
}
use ai_ent.Scheduler.Iteration.Failing.{IsAbandoned, IsHeld, build_package-IsAbandoned}
use ai_ent.Scheduler.Iteration.Timeouts.{make_policy_bounds}
use ai_ent.Examples.Data.{
  a_task, held, held-WellFormed, no_blockers, granted, its_execution, its_lease,
}
use ai_ent.Examples.Graphs.{plan_state}

abbrev policy : ExecutionTimeoutPolicy
policy = record { standard_timeout_seconds = 30; high_complexity_timeout_seconds = 60 }

abbrev risky : RuntimeTaskPlanBinding
risky = record {
  task_id = 1;
  import_id = 5;
  plan_id = "P";
  plan_version = "1";
  risk_level = "High";
  model_profile = "";
  verification_profile = "";
  acceptance = end;
}

is_made : make_policy 30 60 ≡ return policy
unfolding make_policy
is_made = refl

make_policy_bounds_example :
    (0 < timeout_for_task policy (some risky))
    × (30 ≤ timeout_for_task policy (some risky))
    × (timeout_for_task policy (some risky) ≤ maximum_timeout_seconds policy)
    × (maximum_timeout_seconds policy ≡ 60)
make_policy_bounds_example = make_policy_bounds 30 60 (some risky) is_made

-- A factory that finds a task in its manifest, or none.
abbrev pub factory : Option BootstrapTask → ExecutionPackageFactory
factory found = record {
  timeout_policy = some policy;
  default_timeout_seconds = 30;
  manifest_tasks = some (λ id. found);
  load_tasks = λ id. none;
  build_runtime_manifest_tasks = λ project_id db. raise (value_error "no plan");
  worktree_path = λ id. "before";
  id_text = λ id. "1";
}

abbrev pub scheduler : Option BootstrapTask → Scheduler
scheduler found = record {
  plan_state = plan_state;
  has_prefix = λ id. true;
  blocking = no_blockers;
  factory = factory found;
  owner_id = 9;
  lease_duration = 60;
}

lease_IsHeld : IsHeld (scheduler none) 7 a_task granted its_execution its_lease held
unfolding ai_ent.Prelude.find
lease_IsHeld = record {
  row = its_lease;
  has_lease = refl;
  of_task = refl;
  is_owner = refl;
  is_held = refl;
  unexpired = omega arith;
}

has_execution : ai_ent.Persistence.Executions.get 20 held.db ≡ some its_execution
unfolding ai_ent.Prelude.find
has_execution = refl

has_task :
    ai_ent.Persistence.Tasks.get 1 held.db
    ≡ some (record a_task { status = ai_ent.Persistence.Models.TaskStatus.running })
unfolding ai_ent.Prelude.find
has_task = refl

is_missing :
    (build (factory none) a_task 20 7 held).0 ≡ raise (value_error "manifest task not found: 1")
unfolding build ai_ent.Prelude.find
is_missing = refl

build_package-IsAbandoned_example :
    ((build_package (scheduler none) 7 a_task granted its_execution its_lease held).0
      ≡ return
          (record (claimed_result (scheduler none) 7 a_task granted its_execution its_lease error) {
            reason = some (unbuilt (value_error "manifest task not found: 1"));
          }))
    × IsAbandoned 1 20
        (build_package (scheduler none) 7 a_task granted its_execution its_lease held).1
build_package-IsAbandoned_example =
    build_package-IsAbandoned (scheduler none) 7 a_task granted its_execution its_lease held
      "manifest task not found: 1" held-WellFormed lease_IsHeld has_execution has_task is_missing
