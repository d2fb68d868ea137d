-- ===== src/Examples/Baselines.antt =====
-- A plan of three tasks with a cumulative baseline: the second has passed and is integrated, and
-- the third, which needs it, is claimed.
use ai_ent.Prelude.{
  ℕ, ◌+◌, ◌≡◌, ◌==◌, ◌⊎◌, refl, inl, Bool, true, false, String, Option, none, some, List, [], ◌∷◌,
  Elem, str_eq, if◌then◌else◌, str, bool, arr, obj, nil, cons, Fields, end, field,
}
use ai_ent.Persistence.Models.{
  Task, TaskStatus, Execution, ExecutionStatus, Checkpoint, CheckpointType, RuntimeTaskPlanBinding,
  RuntimeBaselineIntegration, verified,
}
use ai_ent.Persistence.Session.{Db, Session, return}
use ai_ent.Persistence.Tasks
use ai_ent.Persistence.Checkpoints
use ai_ent.Scheduler.Claiming.{ClaimRequest, ClaimResult, claimed, claim_task}
use ai_ent.Scheduler.Baseline.{
  HardeningBaselineState, as_checkpoint_state, state_of_payload, represents, initial_state,
  binding_of, current_for_binding,
}
use ai_ent.Scheduler.Baseline.Records.{IsWritten, state_of_payload-as_checkpoint_state}
use ai_ent.Scheduler.Baseline.Blockers.{blocking_dependencies_for_claim, task_dependencies}
use ai_ent.Scheduler.Baseline.Validations.{
  BaselineAdvanceResult, stale_advancement, advanced, Git, Advancement,
}
use ai_ent.Scheduler.Baseline.Advances.{advance, plan_binding, state_row}
use ai_ent.Scheduler.Baseline.Current.{advance-unchanged}
use ai_ent.Scheduler.Baseline.Stored.{IsAdvance, advance-IsAdvance}
use ai_ent.Scheduler.Baseline.Reading.{IsNamed, advance-current}
use ai_ent.Scheduler.Baseline.Gates.{claim_task-represents}
use ai_ent.Examples.Data.{a_task, idle, request, its_execution}

abbrev names : ℕ → String
names id = if id == 1 then "T1" else if id == 2 then "T2" else "T3"

abbrev ids : String → String → ℕ → ℕ
ids plan version generation = 70 + generation

abbrev git : Git
git = record {
  object_type = λ name.
      return (if str_eq name "c2" then "commit" else if str_eq name "c9" then "commit" else "tree");
  peel_commit = λ name. return name;
  peel_tree =
      λ name. return (if str_eq name "c2" then "t2" else if str_eq name "c9" then "t9" else name);
}

abbrev acceptance : Fields
acceptance =
    field "cumulative_baseline_policy"
      (obj (field "on_violation" (str "STOP_BEFORE_CLAIM") (field "owner_task" (str "T1") end)))
      (field "baseline_commit" (str "c0") (field "baseline_tree" (str "t0") end))

abbrev binding : ℕ → RuntimeTaskPlanBinding
binding id = record {
  task_id = id;
  import_id = 5;
  plan_id = "P";
  plan_version = "1";
  risk_level = "low";
  model_profile = "";
  verification_profile = "";
  acceptance = acceptance;
}

abbrev integration : RuntimeBaselineIntegration
integration = record {
  id = 60;
  import_id = 5;
  project_id = 7;
  plan_id = "P";
  plan_version = "1";
  task_id = 2;
  source_execution_id = 20;
  source_commit = "c2";
  source_tree = "t2";
  prior_baseline_generation = 0;
  prior_baseline_commit = "c0";
  prior_baseline_tree = "t0";
  integrated_commit = "c9";
  integrated_tree = "t9";
  status = verified;
}

abbrev done : Execution
done = record its_execution {
  task_id = 2;
  status = ExecutionStatus.succeeded;
  terminal_state = some "success";
  commit_hash = some "c2";
  candidate_tree_hash = some "t2";
  baseline_generation = some 0;
  baseline_commit = some "c0";
  baseline_tree = some "t0";
}

abbrev success_state : Fields
success_state = field "status" (str "completed") (
    field "verification" (arr (cons (obj (field "ok" (bool true) end)) nil))
      (field "committed_tree_hash" (str "t2") (field "candidate_tree_hash" (str "t2") end)))

abbrev success : Checkpoint
success =
    Checkpoints.new_row 40 2 (some 20) CheckpointType.execution (some success_state) (some "c2")
      (some "t2") 5

abbrev passed_task : Task
passed_task = record a_task { id = 2; status = TaskStatus.passed }

abbrev waiting : Task
waiting = record a_task { id = 3 }

abbrev plan_rows : Db
plan_rows = record {
  tasks = a_task ∷ passed_task ∷ waiting ∷ [];
  dependencies = record { task_id = 3; depends_on_task_id = 2 } ∷ [];
  executions = done ∷ [];
  checkpoints = success ∷ [];
  leases = [];
  bindings = binding 1 ∷ binding 2 ∷ binding 3 ∷ [];
  integrations = integration ∷ [];
}

abbrev planned : Session
planned = record idle { db = plan_rows; durable = plan_rows }

abbrev advancement : Advancement
advancement = record {
  plan_id = "P";
  plan_version = "1";
  task_id = 2;
  task_commit = "c2";
  task_tree = "t2";
  resulting_baseline_commit = "c9";
  resulting_baseline_tree = "t9";
  expected_generation = 0;
  integration_id = 60;
}

abbrev initial : HardeningBaselineState
initial = record {
  plan_id = "P";
  plan_version = "1";
  owner_task_id = "T1";
  baseline_commit = "c0";
  baseline_tree = "t0";
  generation = 0;
  integrated_task_ids = [];
  task_commits = none;
  task_trees = none;
}

abbrev next : HardeningBaselineState
next = record initial {
  baseline_commit = "c9";
  baseline_tree = "t9";
  generation = 1;
  integrated_task_ids = "T2" ∷ [];
  task_commits = some (field "T2" (str "c2") end);
  task_trees = some (field "T2" (str "t2") end);
}

next-IsWritten : IsWritten next
unfolding ai_ent.Prelude.sort_by
next-IsWritten = record {
  has_plan = refl;
  has_version = refl;
  has_owner = refl;
  has_commit = refl;
  has_tree = refl;
  is_ordered = refl;
}

state_of_payload-as_checkpoint_state_example :
    state_of_payload (as_checkpoint_state next) ≡ some next
state_of_payload-as_checkpoint_state_example =
    state_of_payload-as_checkpoint_state next next-IsWritten

abbrev advanced_to_next : BaselineAdvanceResult
advanced_to_next = record { status = advanced; state = some next; reason = "" }

has_advanced : (advance git names ids advancement planned).0 ≡ return advanced_to_next
unfolding advance ai_ent.Scheduler.Baseline.Validations.unless
    ai_ent.Scheduler.Baseline.Validations.present ai_ent.Scheduler.Baseline.Advances.record_advance
    ai_ent.Scheduler.Baseline.Validations.latest_success_checkpoint
    ai_ent.Scheduler.Baseline.Validations.all_ok
    ai_ent.Scheduler.Baseline.Validations.resolve_commit
    ai_ent.Scheduler.Baseline.Validations.resolve_tree
    ai_ent.Scheduler.Baseline.Validations.resolve_commit_tree
    ai_ent.Scheduler.Baseline.Validations.validate_objects
    ai_ent.Scheduler.Baseline.Validations.validate_checkpoint
    ai_ent.Scheduler.Baseline.Validations.validate_execution
    ai_ent.Scheduler.Baseline.Validations.validate_provenance
    ai_ent.Scheduler.Baseline.Advances.advanced_state ai_ent.Prelude.find ai_ent.Prelude.first
    ai_ent.Prelude.keep ai_ent.Prelude.sort_by ai_ent.Prelude.insert_by ai_ent.Prelude.get_field
    ai_ent.Prelude.set_field ai_ent.Prelude.all_texts ai_ent.Prelude.text_leb
    ai_ent.Prelude.codes_leb ai_ent.Prelude.count initial_state current_for_binding
    ai_ent.Scheduler.Baseline.contains ai_ent.Scheduler.Baseline.latest_baseline_checkpoint
    state_of_payload as_checkpoint_state ai_ent.Persistence.Checkpoints.admissible
has_advanced = refl

advance-IsAdvance_example :
    IsAdvance git names ids advancement planned
      (advance git names ids advancement planned).1
      advanced_to_next
advance-IsAdvance_example = advance-IsAdvance git names ids advancement planned has_advanced refl

has_policy : initial_state (binding 1) ≡ some initial
unfolding initial_state ai_ent.Prelude.get_field
has_policy = refl

has_current : current_for_binding names (binding 1) planned.db ≡ some initial
unfolding current_for_binding initial_state ai_ent.Prelude.get_field
    ai_ent.Scheduler.Baseline.latest_baseline_checkpoint ai_ent.Prelude.keep ai_ent.Prelude.sort_by
has_current = refl

is_bound : plan_binding git names ids advancement planned.db ≡ some (binding 1)
unfolding ai_ent.Prelude.first
is_bound = refl

next-IsNamed : IsNamed next
next-IsNamed = record {
  has_plan = refl;
  has_version = refl;
  has_owner = refl;
  has_commit = refl;
  has_tree = refl;
}

advance-current_example :
    (current_for_binding names (binding 1) (advance git names ids advancement planned).1.db
      ≡ some next)
    × (initial.generation ≡ 0)
    × (next.generation ≡ 1)
    × (represents initial "T2" ≡ false)
    × (represents next "T2" ≡ true)
    × ((t : String) → represents initial t ≡ true → represents next t ≡ true)
advance-current_example =
    advance-current git names ids advancement planned has_advanced refl is_bound has_policy
      has_current refl refl next-IsNamed (refl, tt)

-- The same advancement, for a generation that is not the current one.
abbrev late : Advancement
late = record advancement { expected_generation = 1 }

abbrev refused : BaselineAdvanceResult
refused = record {
  status = ai_ent.Scheduler.Baseline.Validations.provenance_mismatch;
  state = some initial;
  reason = "integration_prior_baseline_mismatch";
}

is_refused : (advance git names ids late planned).0 ≡ return refused
unfolding advance ai_ent.Prelude.first initial_state ai_ent.Prelude.get_field current_for_binding
    ai_ent.Prelude.find ai_ent.Scheduler.Baseline.Validations.validate_provenance
    ai_ent.Scheduler.Baseline.Validations.present ai_ent.Scheduler.Baseline.Validations.unless
    ai_ent.Scheduler.Baseline.latest_baseline_checkpoint
is_refused = refl

advance-unchanged_example :
    (refused.status ≡ advanced) ⊎ ((advance git names ids late planned).1 ≡ planned)
advance-unchanged_example = advance-unchanged git names ids late planned refused is_refused

-- The session once the state is stored, in which the third task is claimed.
abbrev stored : Session
stored = record planned {
  db = record plan_rows { checkpoints = success ∷ state_row git names ids next 1 90 ∷ [] };
}

abbrev claim : ClaimRequest
claim = record request { task_id = 3; execution_id = some 21 }

abbrev given : ClaimResult
given = record {
  status = claimed;
  task_id = 3;
  owner_id = 9;
  lease = some (ai_ent.Persistence.Leases.new_row 30 3 21 9 100 160);
  execution =
      some (
        ai_ent.Persistence.Executions.new_row 21 3 "codex" ExecutionStatus.running (some 100) 1 90);
  reason = [];
}

is_given : (claim_task (blocking_dependencies_for_claim names) claim stored).0 ≡ return given
unfolding claim_task ai_ent.Prelude.find ai_ent.Persistence.Leases.active_for_task
    ai_ent.Prelude.first blocking_dependencies_for_claim ai_ent.Scheduler.Baseline.requires_policy
    initial_state ai_ent.Prelude.get_field current_for_binding ai_ent.Scheduler.Baseline.contains
    ai_ent.Scheduler.Baseline.latest_baseline_checkpoint state_of_payload as_checkpoint_state
    ai_ent.Prelude.all_texts ai_ent.Scheduler.Claiming.grant
    ai_ent.Scheduler.Claiming.grant_execution ai_ent.Persistence.Executions.create
    ai_ent.Persistence.Executions.admissible ai_ent.Persistence.Executions.latest_attempt
    ai_ent.Persistence.Executions.next_attempt ai_ent.Persistence.Leases.admissible
    ai_ent.Persistence.Leases.create ai_ent.Prelude.count ai_ent.Prelude.insert_by
    ai_ent.Prelude.keep ai_ent.Prelude.modify ai_ent.Prelude.sort_by ai_ent.Prelude.codes_leb
    ai_ent.Prelude.text_leb ai_ent.Scheduler.Baseline.Blockers.blockers_by_task
    ai_ent.Scheduler.Baseline.Blockers.collect_blockers ai_ent.Scheduler.Claiming.claim_free
    ai_ent.Scheduler.Claiming.grant_lease
is_given = refl

is_bound_third : binding_of 3 stored.db ≡ some (binding 3)
unfolding ai_ent.Prelude.find
is_bound_third = refl

has_next : current_for_binding names (binding 3) stored.db ≡ some next
unfolding current_for_binding initial_state ai_ent.Prelude.get_field
    ai_ent.Scheduler.Baseline.latest_baseline_checkpoint ai_ent.Prelude.keep ai_ent.Prelude.sort_by
    state_of_payload as_checkpoint_state ai_ent.Prelude.all_texts
has_next = refl

has_third : Tasks.get 3 stored.db ≡ some waiting
unfolding ai_ent.Prelude.find
has_third = refl

has_second : Tasks.get 2 stored.db ≡ some passed_task
unfolding ai_ent.Prelude.find
has_second = refl

needs_second : Elem 2 (task_dependencies names waiting stored.db)
unfolding ai_ent.Prelude.keep
needs_second = inl refl

claim_task-represents_example : represents next "T2" ≡ true
claim_task-represents_example =
    claim_task-represents names claim stored 2 is_given refl is_bound_third has_next has_third
      needs_second refl has_second refl
