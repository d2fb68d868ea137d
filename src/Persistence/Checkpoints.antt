-- ===== src/Persistence/Checkpoints.antt =====
-- src/ai_ent/persistence/repositories/checkpoints.py
use ai_ent.Prelude.{
  ℕ, ◌&&◌, ◌||◌, Bool, true, false, String, Option, none, some, List, [], ◌∷◌, ◌++◌, Fields, ◌==◌,
  ltb, leb, is_none, is_some, find, keep, sort_by, first,
}
use ai_ent.Persistence.Models.{Checkpoint, CheckpointType}
use ai_ent.Persistence.Session.{
  Db, Action, missing_checkpoint, duplicate_checkpoint, pure, throw, gets, read_clock,
  flush_checked, ◌>>=◌, ◌>>◌,
}
use ai_ent.Persistence.Tasks
use ai_ent.Persistence.Executions

abbrev pub checkpoint_key : Checkpoint → ℕ
checkpoint_key c = c.id

abbrev pub get : ℕ → Db → Option Checkpoint
get checkpoint_id db = find checkpoint_key checkpoint_id db.checkpoints

abbrev found : ℕ → Option Checkpoint → Action Checkpoint
found checkpoint_id none = throw (missing_checkpoint checkpoint_id)
found checkpoint_id (some checkpoint) = pure checkpoint

unfoldable pub require : ℕ → Action Checkpoint
require checkpoint_id = do
  checkpoint ← gets (λ s. get checkpoint_id s.db)
  found checkpoint_id checkpoint

abbrev known_execution : Option ℕ → Db → Bool
known_execution none db = true
known_execution (some execution_id) db = is_some (Executions.get execution_id db)

unfoldable pub admissible : Checkpoint → Db → Bool
admissible row db =
    is_none (get row.id db)
    && is_some (Tasks.get row.task_id db)
    && known_execution row.execution_id db

abbrev pub new_row :
    (checkpoint_id task_id : ℕ) (execution_id : Option ℕ) (checkpoint_type : CheckpointType)
    (state : Option Fields) (commit_hash tree_hash : Option String) (created_at : ℕ)
    → Checkpoint
new_row checkpoint_id task_id execution_id checkpoint_type state commit_hash tree_hash created_at =
    record {
      id = checkpoint_id;
      task_id = task_id;
      execution_id = execution_id;
      checkpoint_type = checkpoint_type;
      state = state;
      commit_hash = commit_hash;
      tree_hash = tree_hash;
      created_at = created_at;
    }

abbrev add_row : Checkpoint → Db → Db
add_row row db = record db { checkpoints = db.checkpoints ++ row ∷ [] }

unfoldable pub create :
    (checkpoint_id task_id : ℕ) (execution_id : Option ℕ) (checkpoint_type : CheckpointType)
    (state : Option Fields) (commit_hash tree_hash : Option String)
    → Action Checkpoint
create checkpoint_id task_id execution_id checkpoint_type state commit_hash tree_hash = do
  created_at ← read_clock
  let row =
      new_row checkpoint_id task_id execution_id checkpoint_type state commit_hash tree_hash
        created_at
  allowed ← gets (λ s. admissible row s.db)
  flush_checked allowed (duplicate_checkpoint checkpoint_id) (add_row row)
  pure row

abbrev pub of_execution : ℕ → Checkpoint → Bool
of_execution execution_id c = elim c.execution_id [ some e ↦ e == execution_id | none ↦ false ]

abbrev of_task : ℕ → Checkpoint → Bool
of_task task_id c = c.task_id == task_id

-- `ORDER BY created_at, id`, and the same order descending.
abbrev pub created_first : Checkpoint → Checkpoint → Bool
created_first a b = ltb a.created_at b.created_at || (a.created_at == b.created_at && leb a.id b.id)

abbrev pub created_last : Checkpoint → Checkpoint → Bool
created_last a b = created_first b a

unfoldable pub list_by_task : ℕ → Db → List Checkpoint
list_by_task task_id db = sort_by created_first (keep (of_task task_id) db.checkpoints)

unfoldable pub list_by_execution : ℕ → Db → List Checkpoint
list_by_execution execution_id db =
    sort_by created_first (keep (of_execution execution_id) db.checkpoints)

unfoldable pub latest_for_task : ℕ → Db → Option Checkpoint
latest_for_task task_id db = first (of_task task_id) created_last db.checkpoints

unfoldable pub latest_for_execution : ℕ → Db → Option Checkpoint
latest_for_execution execution_id db = first (of_execution execution_id) created_last db.checkpoints
