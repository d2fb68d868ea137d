-- ===== src/Scheduler/Baseline/Blockers.antt =====
-- src/ai_ent/scheduler/hardening_baseline.py: the dependencies of a task that have passed and that
-- the current baseline does not represent.
use ai_ent.Prelude.{
  ℕ, ◌&&◌, not, Bool, true, false, String, Option, none, some, List, [], ◌∷◌, map, ◌==◌, leb,
  str_eq, if◌then◌else◌, find, keep, sort_by,
}
use ai_ent.Persistence.Models.{Task, RuntimeTaskPlanBinding, is_passed, is_pending}
use ai_ent.Persistence.Session.{Db}
use ai_ent.Persistence.Tasks
use ai_ent.Scheduler.Baseline.{
  HardeningBaselineState, represents, requires_policy, binding_of, current_for_binding,
}

-- `states`: the state of each plan that was read, by the plan and its version.
pub record PlanEntry : Type 0 where
  pub plan_id : String
  pub plan_version : String
  pub state : Option HardeningBaselineState

abbrev pub of_plan : RuntimeTaskPlanBinding → PlanEntry → Bool
of_plan binding entry =
    str_eq entry.plan_id binding.plan_id && str_eq entry.plan_version binding.plan_version

abbrev pub known : RuntimeTaskPlanBinding → List PlanEntry → Option PlanEntry
known binding [] = none
known binding (e ∷ es) = if of_plan binding e then some e else known binding es

abbrev pub passed_in : List Task → ℕ → Bool
passed_in tasks id = elim (find Tasks.task_key id tasks) [
  | some t ↦ is_passed t.status
  | none ↦ false
]

module _ (id_text : ℕ → String) where
  -- The tests on one dependency, and the dependencies that are missing, in order.
  abbrev pub is_missing : List Task → HardeningBaselineState → ℕ → Bool
  is_missing tasks state dependency =
      passed_in tasks dependency && not (represents state (id_text dependency))

  abbrev pub missing : List Task → HardeningBaselineState → List ℕ → List ℕ
  missing tasks state dependencies = sort_by leb (keep (is_missing tasks state) dependencies)

  -- `if missing and task.status == "pending": blockers[task_id] = missing`
  abbrev pub record_blockers : Task → List ℕ → List (ℕ × List ℕ) → List (ℕ × List ℕ)
  record_blockers task [] rest = rest
  record_blockers task (d ∷ ds) rest =
      if is_pending task.status then (task.id, d ∷ ds) ∷ rest else rest

  abbrev pub entry_of : RuntimeTaskPlanBinding → Db → PlanEntry
  entry_of binding db = record {
    plan_id = binding.plan_id;
    plan_version = binding.plan_version;
    state = current_for_binding id_text binding db;
  }

  abbrev pub state_blockers :
      List Task
      → Option HardeningBaselineState
      → Task
      → List ℕ
      → List (ℕ × List ℕ)
      → List (ℕ × List ℕ)
  state_blockers tasks none task dependencies rest = rest
  state_blockers tasks (some state) task dependencies rest =
      record_blockers task (missing tasks state dependencies) rest

  -- The loop of `blockers_by_task` over the rest of the tasks, with the states that it has read.
  unfoldable pub collect_blockers :
      (tasks : List Task) (dependencies : ℕ → List ℕ) (db : Db)
      → List PlanEntry
      → List Task
      → List (ℕ × List ℕ)
  collect_blockers tasks dependencies db states [] = []
  collect_blockers tasks dependencies db states (task ∷ rest) = elim (binding_of task.id db) [
    | none ↦ collect_blockers tasks dependencies db states rest
    | some binding ↦
        let skipped = collect_blockers tasks dependencies db states rest in
        let entry = entry_of binding db in
        let fresh = collect_blockers tasks dependencies db (entry ∷ states) rest in
        if not (requires_policy binding) then skipped else elim (known binding states) [
          | some e ↦ state_blockers tasks e.state task (dependencies task.id) skipped
          | none ↦ state_blockers tasks entry.state task (dependencies task.id) fresh
        ]
  ]

  unfoldable pub blockers_by_task : List Task → (ℕ → List ℕ) → Db → List (ℕ × List ℕ)
  unfolding collect_blockers
  blockers_by_task tasks dependencies db = collect_blockers tasks dependencies db [] tasks

  abbrev pub blockers_at : ℕ → List (ℕ × List ℕ) → List ℕ
  blockers_at id [] = []
  blockers_at id ((k, ds) ∷ rest) = if k == id then ds else blockers_at id rest

  -- `{dependency.depends_on_task_id for dependency in task.dependencies}`
  abbrev pub task_dependencies : Task → Db → List ℕ
  task_dependencies task db =
      map (λ d. d.depends_on_task_id) (keep (λ d. d.task_id == task.id) db.dependencies)

  abbrev pub mentioned : List ℕ → ℕ → Bool
  mentioned [] id = false
  mentioned (x ∷ xs) id = if x == id then true else mentioned xs id

  -- `_tasks`
  abbrev pub tasks_among : List ℕ → Db → List Task
  tasks_among ids db = keep (λ t. mentioned ids t.id) db.tasks

  abbrev pub claim_blockers : Task → List ℕ → Db → List ℕ
  claim_blockers task [] db = []
  claim_blockers task (d ∷ ds) db = blockers_at task.id (
      blockers_by_task (task ∷ tasks_among (d ∷ ds) db) (λ id. if id == task.id then d ∷ ds else [])
        db)

  unfoldable pub blocking_dependencies_for_claim : Task → Db → List ℕ
  unfolding blockers_by_task
  blocking_dependencies_for_claim task db = claim_blockers task (task_dependencies task db) db
