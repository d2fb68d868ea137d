-- ===== src/Persistence/Tasks.antt =====
-- src/ai_ent/persistence/repositories/tasks.py
use ai_ent.Prelude.{
  ℕ, ◌&&◌, ◌||◌, not, Bool, true, false, String, Option, none, some, List, [], ◌∷◌, ◌++◌, map, ◌==◌,
  ltb, leb, str_eq, if◌then◌else◌, is_none, is_some, find, modify, keep, count, sort_by,
}
use ai_ent.Persistence.Models.{Task, TaskStatus, TaskDependency}
use ai_ent.Persistence.Session.{
  Db, Action, missing_task, duplicate_task, duplicate_dependency, pure, throw, gets, change,
  read_clock, flush_checked, ◌>>=◌, ◌>>◌,
}

abbrev pub task_key : Task → ℕ
task_key t = t.id

-- `get`
abbrev pub get : ℕ → Db → Option Task
get task_id db = find task_key task_id db.tasks

abbrev pub found : ℕ → Option Task → Action Task
found task_id none = throw (missing_task task_id)
found task_id (some task) = pure task

unfoldable pub require : ℕ → Action Task
require task_id = do task ← gets (λ s. get task_id s.db); found task_id task

unfoldable pub exists : ℕ → Db → Bool
exists task_id db = is_some (get task_id db)

-- `task.status = status`
abbrev pub with_status : TaskStatus → Task → Task
with_status status task = record task { status = status }

abbrev pub set_status : ℕ → TaskStatus → Db → Db
set_status task_id status db = record db {
  tasks = modify task_key task_id (with_status status) db.tasks;
}

unfoldable pub update_status : ℕ → TaskStatus → Action Task
unfolding require
update_status task_id status = do
  task ← require task_id
  change (set_status task_id status)
  pure (with_status status task)

-- `ORDER BY created_at, id`
abbrev pub created_first : Task → Task → Bool
created_first a b = ltb a.created_at b.created_at || (a.created_at == b.created_at && leb a.id b.id)

abbrev same_status : TaskStatus → TaskStatus → Bool
same_status TaskStatus.pending TaskStatus.pending = true
same_status TaskStatus.running TaskStatus.running = true
same_status TaskStatus.passed TaskStatus.passed = true
same_status TaskStatus.failed TaskStatus.failed = true
same_status TaskStatus.blocked TaskStatus.blocked = true
same_status _ _ = false

unfoldable pub list_by_project : ℕ → Db → List Task
list_by_project project_id db =
    sort_by created_first (keep (λ t. t.project_id == project_id) db.tasks)

abbrev in_project : Option ℕ → Task → Bool
in_project none task = true
in_project (some project_id) task = task.project_id == project_id

unfoldable pub list_by_status : TaskStatus → Option ℕ → Db → List Task
list_by_status status project_id db =
    sort_by created_first
      (keep (λ t. same_status t.status status && in_project project_id t) db.tasks)

-- The constraints of a new row of `tasks`: its key is new, and so is a fingerprint that it has.
abbrev same_fingerprint : Option String → Task → Bool
same_fingerprint none task = false
same_fingerprint (some a) task = elim task.fingerprint [ some b ↦ str_eq a b | none ↦ false ]

abbrev task_admissible : Task → Db → Bool
task_admissible task db =
    is_none (get task.id db) && (count (same_fingerprint task.fingerprint) db.tasks == 0)

-- The foreign key to `projects` is checked by `known_project`.
unfoldable pub create : (known_project : Bool) → Task → Action Task
create known_project task = do
  created_at ← read_clock
  let row = record task { created_at = created_at }
  admissible ← gets (λ s. known_project && task_admissible row s.db)
  flush_checked admissible (duplicate_task task.id)
      (λ db. record db { tasks = db.tasks ++ row ∷ [] })
  pure row

abbrev is_edge : ℕ → ℕ → TaskDependency → Bool
is_edge task_id depends_on_task_id d =
    d.task_id == task_id && d.depends_on_task_id == depends_on_task_id

unfoldable pub add_dependency : ℕ → ℕ → Action Unit
unfolding exists
add_dependency task_id depends_on_task_id = do
  admissible ← gets (λ s.
      exists task_id s.db
      && exists depends_on_task_id s.db
      && not (task_id == depends_on_task_id)
      && (count (is_edge task_id depends_on_task_id) s.db.dependencies == 0))
  flush_checked admissible (duplicate_dependency task_id depends_on_task_id) (λ db. record db {
    dependencies =
        db.dependencies
        ++ record { task_id = task_id; depends_on_task_id = depends_on_task_id } ∷ [];
  })

unfoldable pub remove_dependency : ℕ → ℕ → Action Bool
remove_dependency task_id depends_on_task_id s =
    let edges = count (is_edge task_id depends_on_task_id) s.db.dependencies in
    if edges == 0
    then pure false s
    else (do
      change (λ db. record db {
        dependencies = keep (λ d. not (is_edge task_id depends_on_task_id d)) db.dependencies;
      })
      pure true)
        s

-- The rows of one task, by the other column.
unfoldable pub list_dependencies : ℕ → Db → List ℕ
list_dependencies task_id db =
    sort_by leb (map (λ d. d.depends_on_task_id) (keep (λ d. d.task_id == task_id) db.dependencies))

unfoldable pub list_dependents : ℕ → Db → List ℕ
list_dependents task_id db =
    sort_by leb (map (λ d. d.task_id) (keep (λ d. d.depends_on_task_id == task_id) db.dependencies))
