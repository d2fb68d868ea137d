-- ===== src/Persistence/Executions.antt =====
-- src/ai_ent/persistence/repositories/executions.py
pub mod Attempts
use ai_ent.Prelude.{
  ℕ, zero, ◌+◌, ◌≡◌, ◌&&◌, ◌||◌, not, Bool, true, false, String, Option, none, some, List, [], ◌∷◌,
  ◌++◌, ◌==◌, ltb, leb, if◌then◌else◌, is_none, is_some, or_else, given, find, modify, keep, count,
  sort_by, first,
}
use ai_ent.Persistence.Models.{Task, Execution, ExecutionStatus}
use ai_ent.Persistence.Session.{
  Db, Session, Action, Error, missing_execution, duplicate_execution, pure, throw, gets, change,
  read_clock, flush_checked, ◌>>=◌, ◌>>◌,
}
use ai_ent.Persistence.Tasks

abbrev pub execution_key : Execution → ℕ
execution_key e = e.id

abbrev pub get : ℕ → Db → Option Execution
get execution_id db = find execution_key execution_id db.executions

abbrev pub found : ℕ → Option Execution → Action Execution
found execution_id none = throw (missing_execution execution_id)
found execution_id (some execution) = pure execution

unfoldable pub require : ℕ → Action Execution
require execution_id = do
  execution ← gets (λ s. get execution_id s.db)
  found execution_id execution

-- `ORDER BY attempt, created_at, id`, and the same order descending.
abbrev pub attempt_first : Execution → Execution → Bool
attempt_first a b =
    ltb a.attempt b.attempt
    || (a.attempt == b.attempt
        && (ltb a.created_at b.created_at || (a.created_at == b.created_at && leb a.id b.id)))

abbrev pub attempt_last : Execution → Execution → Bool
attempt_last a b = attempt_first b a

abbrev pub of_task : ℕ → Execution → Bool
of_task task_id e = e.task_id == task_id

unfoldable pub list_by_task : ℕ → Db → List Execution
list_by_task task_id db = sort_by attempt_first (keep (of_task task_id) db.executions)

abbrev same_status : ExecutionStatus → ExecutionStatus → Bool
same_status ExecutionStatus.pending ExecutionStatus.pending = true
same_status ExecutionStatus.running ExecutionStatus.running = true
same_status ExecutionStatus.succeeded ExecutionStatus.succeeded = true
same_status ExecutionStatus.failed ExecutionStatus.failed = true
same_status ExecutionStatus.timeout ExecutionStatus.timeout = true
same_status ExecutionStatus.cancelled ExecutionStatus.cancelled = true
same_status _ _ = false

-- `ORDER BY created_at`: rows of one instant keep their order in the table.
abbrev created_first : Execution → Execution → Bool
created_first a b = leb a.created_at b.created_at

abbrev in_task : Option ℕ → Execution → Bool
in_task none e = true
in_task (some task_id) e = of_task task_id e

unfoldable pub list_by_status : ExecutionStatus → Option ℕ → Db → List Execution
list_by_status status task_id db =
    sort_by created_first
      (keep (λ e. same_status e.status status && in_task task_id e) db.executions)

unfoldable pub latest_for_task : ℕ → Db → Option Execution
latest_for_task task_id db = first (of_task task_id) attempt_last db.executions

-- `max` of two optional values, as the aggregate `max` takes it.
abbrev pub larger : ℕ → Option ℕ → Option ℕ
larger a none = some a
larger a (some b) = some (if ltb a b then b else a)

abbrev pub max_attempt : ℕ → List Execution → Option ℕ
max_attempt task_id [] = none
max_attempt task_id (e ∷ es) =
    if e.task_id == task_id
    then larger e.attempt (max_attempt task_id es)
    else max_attempt task_id es

unfoldable pub latest_attempt : ℕ → Db → Option ℕ
latest_attempt task_id db = max_attempt task_id db.executions

unfoldable pub next_attempt : ℕ → Db → ℕ
unfolding latest_attempt
next_attempt task_id db = or_else (latest_attempt task_id db) 0 + 1

-- The unique constraint on (task_id, attempt).
abbrev pub is_attempt : ℕ → ℕ → Execution → Bool
is_attempt task_id attempt e = e.task_id == task_id && e.attempt == attempt

-- A new key, the foreign key to `tasks`, the unique attempt, and `attempt >= 1`.
unfoldable pub admissible : Execution → Db → Bool
admissible row db =
    is_none (get row.id db)
    && is_some (Tasks.get row.task_id db)
    && (count (is_attempt row.task_id row.attempt) db.executions == 0)
    && leb 1 row.attempt

abbrev pub new_row :
    (execution_id task_id : ℕ) (executor_type : String) (status : ExecutionStatus)
    (started_at : Option ℕ) (attempt created_at : ℕ)
    → Execution
new_row execution_id task_id executor_type status started_at attempt created_at = record {
  id = execution_id;
  task_id = task_id;
  executor_type = executor_type;
  status = status;
  attempt = attempt;
  started_at = started_at;
  finished_at = none;
  terminal_state = none;
  error_classification = none;
  candidate_tree_hash = none;
  commit_hash = none;
  baseline_commit = none;
  baseline_tree = none;
  baseline_generation = none;
  created_at = created_at;
}

abbrev add_row : Execution → Db → Db
add_row row db = record db { executions = db.executions ++ row ∷ [] }

-- `create` with the attempt left out: the next one of the task is taken.
unfoldable pub create :
    (execution_id task_id : ℕ) (executor_type : String) (status : ExecutionStatus)
    (started_at : Option ℕ)
    → Action Execution
create execution_id task_id executor_type status started_at = do
  attempt ← gets (λ s. next_attempt task_id s.db)
  created_at ← read_clock
  let row = new_row execution_id task_id executor_type status started_at attempt created_at
  allowed ← gets (λ s. admissible row s.db)
  flush_checked allowed (duplicate_execution execution_id) (add_row row)
  pure row

-- The keyword arguments of `update_lifecycle`; `none` leaves a column as it is.
pub record Lifecycle : Type 0 where
  pub status : ExecutionStatus
  pub started_at : Option ℕ
  pub finished_at : Option ℕ
  pub terminal_state : Option String
  pub error_classification : Option String
  pub candidate_tree_hash : Option String
  pub commit_hash : Option String
  pub baseline_commit : Option String
  pub baseline_tree : Option String
  pub baseline_generation : Option ℕ

abbrev pub lifecycle : ExecutionStatus → Lifecycle
lifecycle status = record {
  status = status;
  started_at = none;
  finished_at = none;
  terminal_state = none;
  error_classification = none;
  candidate_tree_hash = none;
  commit_hash = none;
  baseline_commit = none;
  baseline_tree = none;
  baseline_generation = none;
}

abbrev pub apply_lifecycle : Lifecycle → Execution → Execution
apply_lifecycle c e = record e {
  status = c.status;
  started_at = given c.started_at e.started_at;
  finished_at = given c.finished_at e.finished_at;
  terminal_state = given c.terminal_state e.terminal_state;
  error_classification = given c.error_classification e.error_classification;
  candidate_tree_hash = given c.candidate_tree_hash e.candidate_tree_hash;
  commit_hash = given c.commit_hash e.commit_hash;
  baseline_commit = given c.baseline_commit e.baseline_commit;
  baseline_tree = given c.baseline_tree e.baseline_tree;
  baseline_generation = given c.baseline_generation e.baseline_generation;
}

abbrev pub set_lifecycle : ℕ → Lifecycle → Db → Db
set_lifecycle execution_id c db = record db {
  executions = modify execution_key execution_id (apply_lifecycle c) db.executions;
}

unfoldable pub update_lifecycle : ℕ → Lifecycle → Action Execution
unfolding require
update_lifecycle execution_id c = do
  execution ← require execution_id
  change (set_lifecycle execution_id c)
  pure (apply_lifecycle c execution)
