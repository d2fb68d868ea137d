-- ===== src/Scheduler/Baseline/Advances.antt =====
-- src/ai_ent/scheduler/hardening_baseline.py: `advance`. The digest that names a checkpoint is an
-- argument.
use Prim.Native.String.{◌++◌ as ◌+++◌}
use ai_ent.Prelude.{
  ℕ, ◌+◌, ◌&&◌, not, Bool, false, String, Option, none, some, [], ◌∷◌, ◌++◌, ◌==◌, leb, str_eq,
  text_leb, opt_eq, if◌then◌else◌, head?, keep, sort_by, first, str, Fields, get_field, set_field,
  as_text,
}
use ai_ent.Persistence.Models.{Task, Checkpoint, CheckpointType, RuntimeTaskPlanBinding, is_passed}
use ai_ent.Persistence.Session.{
  Db, Action, integrity_error, pure, gets, read_clock, flush_checked, ◌>>=◌, ◌>>◌,
}
use ai_ent.Persistence.Tasks
use ai_ent.Persistence.Checkpoints
use ai_ent.Scheduler.Baseline.{
  HardeningBaselineState, as_checkpoint_state, represents, or_empty, initial_state,
  current_for_binding,
}
use ai_ent.Scheduler.Baseline.Validations.{
  BaselineAdvanceStatus, BaselineAdvanceResult, Git, Advancement, Provenance, Validation,
  validate_provenance, advanced, already_represented, stale_advancement, plan_not_found,
  task_not_found, task_not_passed, baseline_policy_missing, baseline_locked, provenance_mismatch,
  valid, invalid,
}

abbrev pub answer :
    BaselineAdvanceStatus → Option HardeningBaselineState → String → BaselineAdvanceResult
answer status state reason = record { status = status; state = state; reason = reason }

-- `(current.task_commits or {}).get(task_id) == commit`
abbrev pub recorded_as : Option Fields → String → String → Bool
recorded_as fields task_id hash = opt_eq (as_text (get_field task_id (or_empty fields))) (some hash)

unfoldable pub advanced_state :
    HardeningBaselineState → String → Provenance → HardeningBaselineState
advanced_state current task_id p = record {
  plan_id = current.plan_id;
  plan_version = current.plan_version;
  owner_task_id = current.owner_task_id;
  baseline_commit = p.baseline_commit;
  baseline_tree = p.baseline_tree;
  generation = current.generation + 1;
  integrated_task_ids = sort_by text_leb (current.integrated_task_ids ++ task_id ∷ []);
  task_commits = some (set_field task_id (str p.task_commit) (or_empty current.task_commits));
  task_trees = some (set_field task_id (str p.task_tree) (or_empty current.task_trees));
}

module _ (git : Git) (id_text : ℕ → String)
    (checkpoint_id : (plan_id plan_version : String) (generation : ℕ) → ℕ) where
  abbrev pub task_named : String → Db → Option Task
  task_named name db = head? (keep (λ t. str_eq (id_text t.id) name) db.tasks)

  abbrev pub state_row : HardeningBaselineState → ℕ → ℕ → Checkpoint
  state_row state owner_id created_at =
      Checkpoints.new_row (checkpoint_id state.plan_id state.plan_version state.generation) owner_id
        none CheckpointType.runtime (some (as_checkpoint_state state)) (some state.baseline_commit)
        (some state.baseline_tree) created_at

  -- The new checkpoint, with its clock for `created_at` and its clock for `updated_at`.
  abbrev pub insert_state : HardeningBaselineState → Option Task → Action BaselineAdvanceResult
  insert_state state none = do
    flush_checked false integrity_error (λ db. db)
    pure (answer advanced (some state) "")
  insert_state state (some owner) = do
    created_at ← read_clock
    read_clock
    let row = state_row state owner.id created_at
    allowed ← gets (λ s. Checkpoints.admissible row s.db)
    flush_checked allowed integrity_error
        (λ db. record db { checkpoints = db.checkpoints ++ row ∷ [] })
    pure (answer advanced (some state) "")

  module _ (a : Advancement) where
    unfoldable pub record_advance :
        HardeningBaselineState → Provenance → Action BaselineAdvanceResult
    record_advance current p =
        if represents current (id_text a.task_id)
        then (if recorded_as current.task_commits (id_text a.task_id) p.task_commit
              && recorded_as current.task_trees (id_text a.task_id) p.task_tree
              && str_eq current.baseline_commit p.baseline_commit
              && str_eq current.baseline_tree p.baseline_tree
            then pure (
                answer already_represented (some current)
                  ("task_already_integrated:" +++ id_text a.task_id))
            else pure (
                answer provenance_mismatch (some current)
                  "task_integrated_with_different_provenance"))
        else if not (current.generation == a.expected_generation)
        then pure (answer stale_advancement (some current) "baseline_generation_changed")
        else do
          owner ← gets (λ s. task_named current.owner_task_id s.db)
          insert_state (advanced_state current (id_text a.task_id) p) owner

    abbrev pub after_validation :
        HardeningBaselineState → Validation Provenance → Action BaselineAdvanceResult
    after_validation current (invalid status reason) = pure (answer status (some current) reason)
    after_validation current (valid p) = record_advance current p

    abbrev pub advance_task :
        RuntimeTaskPlanBinding → HardeningBaselineState → Option Task → Action BaselineAdvanceResult
    advance_task binding current none =
        pure (answer task_not_found (some current) ("task_missing:" +++ id_text a.task_id))
    advance_task binding current (some task) =
        if not (is_passed task.status)
        then pure (answer task_not_passed (some current) ("task_not_passed:" +++ id_text a.task_id))
        else do
          checked ← gets (λ s. validate_provenance git id_text a binding task s.db)
          after_validation current checked

    abbrev pub advance_current :
        RuntimeTaskPlanBinding → Option HardeningBaselineState → Action BaselineAdvanceResult
    advance_current binding none =
        pure (answer baseline_policy_missing none "baseline_policy_missing")
    advance_current binding (some current) = do
      task ← gets (λ s. Tasks.get a.task_id s.db)
      advance_task binding current task

    abbrev pub advance_owned :
        RuntimeTaskPlanBinding → String → Option Task → Action BaselineAdvanceResult
    advance_owned binding name none =
        pure (answer task_not_found none ("owner_task_missing:" +++ name))
    advance_owned binding name (some owner) = do
      locked ← gets (λ s. s.locked owner.id)
      current ← gets (λ s. current_for_binding id_text binding s.db)
      if locked
          then pure (answer baseline_locked none "baseline_owner_locked")
          else advance_current binding current

    abbrev pub advance_initial :
        RuntimeTaskPlanBinding → Option HardeningBaselineState → Action BaselineAdvanceResult
    advance_initial binding none =
        pure (answer baseline_policy_missing none "baseline_policy_missing")
    advance_initial binding (some initial) = do
      owner ← gets (λ s. task_named initial.owner_task_id s.db)
      advance_owned binding initial.owner_task_id owner

    abbrev pub advance_plan : Option RuntimeTaskPlanBinding → Action BaselineAdvanceResult
    advance_plan none = pure (answer plan_not_found none "plan_not_found")
    advance_plan (some binding) = advance_initial binding (initial_state binding)

    -- The binding of the plan with the least task.
    abbrev pub plan_binding : Db → Option RuntimeTaskPlanBinding
    plan_binding db =
        first (λ b. str_eq b.plan_id a.plan_id && str_eq b.plan_version a.plan_version)
          (λ b c. leb b.task_id c.task_id) db.bindings

    unfoldable pub advance : Action BaselineAdvanceResult
    unfolding record_advance
    advance = do binding ← gets (λ s. plan_binding s.db); advance_plan binding
