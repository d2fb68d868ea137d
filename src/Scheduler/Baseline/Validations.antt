-- ===== src/Scheduler/Baseline/Validations.antt =====
-- src/ai_ent/scheduler/hardening_baseline.py: `_validate_advancement_provenance`, the checks of an
-- advancement's provenance. What git answers is an argument; an answer that raises is a RuntimeError.
use Prim.Native.String.{◌++◌ as ◌+++◌}
use ai_ent.Prelude.{
  ℕ, ◌&&◌, ◌||◌, not, Bool, true, false, String, Option, none, some, ◌==◌, str_eq, truthy, opt_eq,
  if◌then◌else◌, first, find, Json, Items, nil, cons, Fields, get_field, as_text,
}
use ai_ent.Persistence.Models.{
  Task, Execution, Checkpoint, CheckpointType, RuntimeTaskPlanBinding, RuntimeBaselineIntegration,
  is_verified, is_succeeded,
}
use ai_ent.Persistence.Session.{Db, Result, return, raise}
use ai_ent.Persistence.Executions
use ai_ent.Persistence.Checkpoints
use ai_ent.Scheduler.Baseline.{HardeningBaselineState, or_empty}

pub data BaselineAdvanceStatus : Type 0 where
  advanced already_represented stale_advancement plan_not_found task_not_found task_not_passed
        baseline_policy_missing baseline_locked execution_not_found execution_not_verified
        integration_not_found integration_not_verified provenance_mismatch git_object_invalid :
      BaselineAdvanceStatus

abbrev pub is_advanced : BaselineAdvanceStatus → Bool
is_advanced advanced = true
is_advanced _ = false

pub record BaselineAdvanceResult : Type 0 where
  pub status : BaselineAdvanceStatus
  pub state : Option HardeningBaselineState
  pub reason : String

-- `cat-file -t`, and `rev-parse` of `…^{commit}` and of `…^{tree}`.
pub record Git : Type 0 where
  pub object_type : String → Result String
  pub peel_commit : String → Result String
  pub peel_tree : String → Result String

-- The arguments of `advance`.
pub record Advancement : Type 0 where
  pub plan_id : String
  pub plan_version : String
  pub task_id : ℕ
  pub task_commit : String
  pub task_tree : String
  pub resulting_baseline_commit : String
  pub resulting_baseline_tree : String
  pub expected_generation : ℕ
  pub integration_id : ℕ

pub record Provenance : Type 0 where
  pub task_commit : String
  pub task_tree : String
  pub baseline_commit : String
  pub baseline_tree : String

-- A check that refuses says with which status and reason.
pub data Validation (A : Type 0) : Type 0 where
  valid : A → Validation A
  invalid : BaselineAdvanceStatus → String → Validation A

abbrev pub and_next : {A B : Type 0} → Validation A → (A → Validation B) → Validation B
and_next (valid a) next = next a
and_next (invalid status reason) next = invalid status reason

module _ {A : Type 0} (status : BaselineAdvanceStatus) (reason : String) where
  -- `if test: return _ValidatedAdvancement(status, reason)`, before what follows.
  unfoldable pub unless : Bool → Validation A → Validation A
  unless true next = invalid status reason
  unless false next = next

  unfoldable pub present : {B : Type 0} → Option B → (B → Validation A) → Validation A
  present none next = invalid status reason
  present (some b) next = next b

abbrev pub integration_key : RuntimeBaselineIntegration → ℕ
integration_key i = i.id

abbrev pub of_success : Execution → Checkpoint → Bool
of_success execution c =
    Checkpoints.of_execution execution.id c
    && elim c.checkpoint_type [ CheckpointType.execution ↦ true | _ ↦ false ]

-- `_latest_success_checkpoint`
unfoldable pub latest_success_checkpoint : Execution → Db → Option Checkpoint
latest_success_checkpoint execution db =
    first (of_success execution) Checkpoints.created_last db.checkpoints

abbrev pub is_true : Option Json → Bool
is_true (some (Json.bool b)) = b
is_true _ = false

unfoldable pub all_ok : Items → Bool
all_ok nil = true
all_ok (cons (Json.obj fields) rest) = is_true (get_field "ok" fields) && all_ok rest
all_ok (cons _ rest) = false

-- `_verification_succeeded`
abbrev pub verification_succeeded : Option Json → Bool
verification_succeeded (some (Json.arr (cons item items))) = all_ok (cons item items)
verification_succeeded _ = false

abbrev pub same_generation : Option ℕ → ℕ → Bool
same_generation none n = false
same_generation (some m) n = m == n

module _ (git : Git) where
  abbrev pub peeled : String → (String → Result String) → Result String → String → Option String
  peeled kind peel (raise e) name = none
  peeled kind peel (return found) name =
      if not (str_eq found kind)
      then none
      else elim (peel name) [ return object ↦ some object | raise e ↦ none ]

  -- `_resolve_commit`, `_resolve_tree`, and `_resolve_commit_tree`.
  unfoldable pub resolve_commit : String → Option String
  resolve_commit commit = peeled "commit" git.peel_commit (git.object_type commit) commit

  unfoldable pub resolve_tree : String → Option String
  resolve_tree tree = peeled "tree" git.peel_tree (git.object_type tree) tree

  abbrev pub paired : String → String → Result String → Option (String × String)
  paired commit tree (raise e) = none
  paired commit tree (return commit_tree) =
      if str_eq commit_tree tree then some (commit, tree) else none

  abbrev pub with_tree : String → Option String → Option (String × String)
  with_tree commit none = none
  with_tree commit (some tree) = paired commit tree (git.peel_tree commit)

  unfoldable pub resolve_commit_tree : String → String → Option (String × String)
  unfolding resolve_commit resolve_tree
  resolve_commit_tree commit tree = elim (resolve_commit commit) [
    | none ↦ none
    | some resolved ↦ with_tree resolved (resolve_tree tree)
  ]

module _ (git : Git) (id_text : ℕ → String) where
  -- The last checks: the objects of git.
  abbrev pub check_source :
      Execution → (String × String) → (String × String) → String → Validation Provenance
  check_source execution (commit, tree) (integrated_commit, integrated_tree) execution_commit =
      unless provenance_mismatch "execution_source_git_identity_mismatch"
        (not (str_eq commit execution_commit)
          || not (opt_eq (some tree) execution.candidate_tree_hash))
        (valid (record {
          task_commit = commit;
          task_tree = tree;
          baseline_commit = integrated_commit;
          baseline_tree = integrated_tree;
        }))

  unfoldable pub validate_objects :
      RuntimeBaselineIntegration → Execution → String → Validation Provenance
  validate_objects integration execution commit_hash =
      present git_object_invalid "source_commit_or_tree_invalid"
        (resolve_commit_tree git integration.source_commit integration.source_tree)
        λ source.
          present git_object_invalid "integrated_commit_or_tree_invalid"
            (resolve_commit_tree git integration.integrated_commit integration.integrated_tree)
            λ integrated.
              present git_object_invalid "execution_commit_invalid" (resolve_commit git commit_hash)
                (check_source execution source integrated)

  -- The checks of the checkpoint that records the success.
  unfoldable pub validate_checkpoint :
      RuntimeBaselineIntegration → Execution → String → Fields → Validation Provenance
  unfolding validate_objects
  validate_checkpoint integration execution commit_hash state =
      unless execution_not_verified ("execution_checkpoint_not_completed:" +++ id_text execution.id)
        (not (opt_eq (as_text (get_field "status" state)) (some "completed")))
        (unless execution_not_verified
          ("execution_verification_missing_or_failed:" +++ id_text execution.id)
          (not (verification_succeeded (get_field "verification" state)))
          (present provenance_mismatch "candidate_committed_tree_mismatch"
            (as_text (get_field "committed_tree_hash" state))
            λ committed_tree.
              present provenance_mismatch "candidate_committed_tree_mismatch"
                (as_text (get_field "candidate_tree_hash" state))
                λ candidate_tree.
                  unless provenance_mismatch "candidate_committed_tree_mismatch"
                    (not (str_eq committed_tree candidate_tree))
                    (unless provenance_mismatch "execution_tree_checkpoint_mismatch"
                      (not (opt_eq (some candidate_tree) execution.candidate_tree_hash))
                      (validate_objects integration execution commit_hash))))

  -- The checks of the execution; `task.id` is the `task_id` that the task was read by.
  unfoldable pub validate_execution :
      Advancement → RuntimeBaselineIntegration → Execution → Db → Validation Provenance
  unfolding validate_checkpoint
  validate_execution a integration execution db =
      unless provenance_mismatch "execution_task_mismatch" (not (execution.task_id == a.task_id)) (
        unless execution_not_verified ("execution_not_verified:" +++ id_text execution.id)
          (not (is_succeeded execution.status)
            || not (opt_eq execution.terminal_state (some "success")))
          (present execution_not_verified
            ("execution_missing_commit_or_tree:" +++ id_text execution.id) execution.commit_hash
            λ commit_hash.
              unless execution_not_verified
                ("execution_missing_commit_or_tree:" +++ id_text execution.id)
                (not (truthy execution.commit_hash) || not (truthy execution.candidate_tree_hash))
                (unless provenance_mismatch "execution_baseline_mismatch"
                  (not (same_generation execution.baseline_generation a.expected_generation)
                    || not
                        (opt_eq execution.baseline_commit (some integration.prior_baseline_commit))
                    || not (opt_eq execution.baseline_tree (some integration.prior_baseline_tree)))
                  (present execution_not_verified
                    ("execution_success_checkpoint_missing:" +++ id_text execution.id)
                    (latest_success_checkpoint execution db)
                    λ checkpoint.
                      validate_checkpoint integration execution commit_hash
                        (or_empty checkpoint.state)))))

  -- `_validate_advancement_provenance`
  unfoldable pub validate_provenance :
      Advancement → RuntimeTaskPlanBinding → Task → Db → Validation Provenance
  unfolding validate_execution
  validate_provenance a binding task db =
      present integration_not_found ("integration_missing:" +++ id_text a.integration_id)
        (find integration_key a.integration_id db.integrations)
        λ integration.
          unless integration_not_verified ("integration_not_verified:" +++ id_text a.integration_id)
            (not (is_verified integration.status))
            (unless provenance_mismatch "integration_task_plan_binding_mismatch"
              (not (str_eq integration.plan_id binding.plan_id)
                || not (str_eq integration.plan_version binding.plan_version)
                || not (integration.import_id == binding.import_id)
                || not (integration.project_id == task.project_id)
                || not (integration.task_id == task.id))
              (unless provenance_mismatch "integration_prior_baseline_mismatch"
                (not (integration.prior_baseline_generation == a.expected_generation))
                (unless provenance_mismatch "caller_integration_provenance_mismatch"
                  (not (str_eq integration.source_commit a.task_commit)
                    || not (str_eq integration.source_tree a.task_tree)
                    || not (str_eq integration.integrated_commit a.resulting_baseline_commit)
                    || not (str_eq integration.integrated_tree a.resulting_baseline_tree))
                  (present execution_not_found
                    ("execution_missing:" +++ id_text integration.source_execution_id)
                    (Executions.get integration.source_execution_id db)
                    λ execution. validate_execution a integration execution db))))
