-- ===== src/Scheduler/Baseline/Records.antt =====
-- src/ai_ent/scheduler/hardening_baseline.py: a state that is written to a checkpoint is read back.
use ai_ent.Prelude.{◌≡◌, false, some, str_eq, text_leb, sort_by, all_texts-text_items, get_field}
use ai_ent.Scheduler.Baseline.{
  HardeningBaselineState, as_checkpoint_state, state_of_payload, or_empty,
}

-- A state that `advance` writes: its texts are not empty, and its tasks are in order.
pub record IsWritten (state : HardeningBaselineState) : Type 0 where
  pub has_plan : str_eq state.plan_id "" ≡ false
  pub has_version : str_eq state.plan_version "" ≡ false
  pub has_owner : str_eq state.owner_task_id "" ≡ false
  pub has_commit : str_eq state.baseline_commit "" ≡ false
  pub has_tree : str_eq state.baseline_tree "" ≡ false
  pub is_ordered : sort_by text_leb state.integrated_task_ids ≡ state.integrated_task_ids

-- A state whose texts are not empty, and whose tasks are in order, is read back from the
-- checkpoint it is written to; missing commits and trees are read as empty objects.
pub state_of_payload-as_checkpoint_state :
    (state : HardeningBaselineState)
    → IsWritten state
    → state_of_payload (as_checkpoint_state state)
      ≡ some (record state {
        task_commits = some (or_empty state.task_commits);
        task_trees = some (or_empty state.task_trees);
      })
unfolding state_of_payload as_checkpoint_state get_field
state_of_payload-as_checkpoint_state state w = rw (
  w.has_plan,
  w.has_version,
  w.has_owner,
  w.has_commit,
  w.has_tree,
  all_texts-text_items state.integrated_task_ids,
  w.is_ordered,
)
