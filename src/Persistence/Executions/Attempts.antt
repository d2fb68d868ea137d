-- ===== src/Persistence/Executions/Attempts.antt =====
-- The attempt numbers that `next_attempt` gives out.
use ai_ent.Prelude.{ℕ, ◌≡◌, refl, ◌≤◌, ◌<◌, List, [], ◌∷◌, arith, or_else, count}
use ai_ent.Persistence.Models.{Execution}
use ai_ent.Persistence.Session.{Db}
use ai_ent.Persistence.Executions.{is_attempt, max_attempt, next_attempt}

-- No execution of the task has an attempt above the largest one.
above_max :
    (task_id attempt : ℕ) (es : List Execution)
    → or_else (max_attempt task_id es) 0 < attempt
    → count (is_attempt task_id attempt) es ≡ 0
unfolding count
above_max task_id attempt [] h = refl
above_max task_id attempt (e ∷ es) h = ground (arith, above_max task_id attempt es)

-- The next attempt of a task is one that no execution of the task has.
pub next_attempt-fresh :
    (task_id : ℕ) (db : Db) → count (is_attempt task_id (next_attempt task_id db)) db.executions ≡ 0
unfolding next_attempt
next_attempt-fresh task_id db = above_max task_id _ db.executions (ground arith)

pub next_attempt-pos : (task_id : ℕ) (db : Db) → 1 ≤ next_attempt task_id db
unfolding next_attempt
next_attempt-pos task_id db = ground arith
