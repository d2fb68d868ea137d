-- ===== src/Scheduler/Readiness.antt =====
-- src/ai_ent/scheduler/readiness.py: TaskReadinessService. A graph is what `_load_project_graph`
-- reads of one project. The pending gates and the unresolved decisions come from tables outside this
-- model, and are arguments.
pub mod Conditions
pub mod Listing
pub mod Claimable
use ai_ent.Prelude.{
  ℕ, ◌+◌, ◌≡◌, ◌&&◌, not, Bool, true, false, String, Option, none, some, List, [], ◌∷◌, map, ◌==◌,
  ltb, leb, if◌then◌else◌, is_none, is_some, find, keep, count, sort_by, length,
}
use ai_ent.Persistence.Models.{Task, TaskStatus, TaskLease, is_passed, is_implementation, is_active}
use ai_ent.Persistence.Session.{Db, Session, now}
use ai_ent.Persistence.Tasks
use ai_ent.Scheduler.Cycles.{is_cyclic}
use ai_ent.Scheduler.Baseline.Blockers.{blockers_by_task, blockers_at}

pub data ReadinessStatus : Type 0 where
  ready waiting_dependencies blocked_dependency not_schedulable decision_blocked terminal running
        already_leased not_found invalid_graph_state :
      ReadinessStatus

pub data ReadinessReason : Type 0 where
  task_missing dependency_target_missing dependency_cycle non_schedulable pending_human_gate
        non_implementation_execution_class active_valid_lease task_running
        dependency_failed_or_blocked dependency_not_complete claimable :
      ReadinessReason
  task_terminal : TaskStatus → ReadinessReason
  unresolved_decision : String → ReadinessReason
  dependency_not_integrated : ℕ → ReadinessReason

pub record ReadinessDecision : Type 0 where
  pub task_id : ℕ
  pub status : ReadinessStatus
  pub reasons : List ReadinessReason
  pub dependencies : List ℕ
  pub blocking_dependencies : List ℕ
  pub waiting_dependencies : List ℕ

abbrev pub is_ready : ReadinessStatus → Bool
is_ready ready = true
is_ready _ = false

-- What the tables outside this model answer about a task, and the texts of identifiers, which the
-- baseline service reads.
pub record PlanState : Type 0 where
  pub pending_gate : ℕ → Bool
  pub unresolved_decisions : ℕ → List String
  pub id_text : ℕ → String

pub record ProjectGraph : Type 0 where
  pub tasks : List Task
  pub dependencies : ℕ → List ℕ
  pub active_leased : ℕ → Bool
  pub in_cycle : ℕ → Bool
  pub pending_gate : ℕ → Bool
  pub unresolved_decisions : ℕ → List String
  pub baseline_blockers : ℕ → List ℕ

-- `task.status in TERMINAL_TASK_STATUSES`
abbrev pub is_terminal : TaskStatus → Bool
is_terminal TaskStatus.passed = true
is_terminal TaskStatus.failed = true
is_terminal TaskStatus.blocked = true
is_terminal _ = false

-- `status in BLOCKING_DEPENDENCY_STATUSES`, and `status not in SATISFIED_DEPENDENCY_STATUSES`,
-- of a dependency that is in the graph.
abbrev pub is_blocking : TaskStatus → Bool
is_blocking TaskStatus.failed = true
is_blocking TaskStatus.blocked = true
is_blocking _ = false

abbrev pub in_graph : List Task → ℕ → Bool
in_graph tasks id = is_some (find Tasks.task_key id tasks)

abbrev status_is : (TaskStatus → Bool) → List Task → ℕ → Bool
status_is p tasks id = elim (find Tasks.task_key id tasks) [ some t ↦ p t.status | none ↦ false ]

abbrev pub absent : List Task → ℕ → Bool
absent tasks id = not (in_graph tasks id)

abbrev pub failed_or_blocked : List Task → ℕ → Bool
failed_or_blocked tasks id = status_is is_blocking tasks id

abbrev pub incomplete : List Task → ℕ → Bool
incomplete tasks id = status_is (λ s. not (is_passed s)) tasks id

abbrev decision :
    ℕ
    → ReadinessStatus
    → List ReadinessReason
    → (dependencies blocking waiting : List ℕ) → ReadinessDecision
decision task_id status reasons dependencies blocking waiting = record {
  task_id = task_id;
  status = status;
  reasons = reasons;
  dependencies = dependencies;
  blocking_dependencies = blocking;
  waiting_dependencies = waiting;
}

abbrev refused : ℕ → ReadinessStatus → ReadinessReason → ReadinessDecision
refused task_id status reason = decision task_id status (reason ∷ []) [] [] []

-- `sorted(dependency for dependency in dependencies if …)`
abbrev pub chosen : (ℕ → Bool) → List ℕ → List ℕ
chosen p dependencies = sort_by leb (keep p dependencies)

module _ (task_id : ℕ) where
  -- The tests after the dependencies: decisions, then the baseline.
  unfoldable pub evaluate_plan : List ℕ → List String → List ℕ → ReadinessDecision
  evaluate_plan ordered (d ∷ ds) blockers =
      decision task_id decision_blocked (map unresolved_decision (d ∷ ds)) ordered [] []
  evaluate_plan ordered [] (b ∷ bs) =
      decision task_id not_schedulable (map dependency_not_integrated (b ∷ bs)) ordered (b ∷ bs) []
  evaluate_plan ordered [] [] = decision task_id ready (claimable ∷ []) ordered [] []

  -- The three tests on the dependencies, on the lists that they collect.
  unfoldable pub evaluate_dependencies :
      (ordered missing blocking waiting : List ℕ) → List String → List ℕ → ReadinessDecision
  unfolding evaluate_plan
  evaluate_dependencies ordered (m ∷ ms) blocking waiting decisions blockers =
      decision task_id invalid_graph_state (dependency_target_missing ∷ []) ordered (m ∷ ms) []
  evaluate_dependencies ordered [] (b ∷ bs) waiting decisions blockers =
      decision task_id blocked_dependency (dependency_failed_or_blocked ∷ []) ordered (b ∷ bs) []
  evaluate_dependencies ordered [] [] (w ∷ ws) decisions blockers =
      decision task_id waiting_dependencies (dependency_not_complete ∷ []) ordered [] (w ∷ ws)
  evaluate_dependencies ordered [] [] [] decisions blockers =
      evaluate_plan ordered decisions blockers

  unfoldable pub evaluate_row : ProjectGraph → Task → ReadinessDecision
  unfolding evaluate_dependencies
  evaluate_row graph task =
      let dependencies = graph.dependencies task_id in
      if graph.in_cycle task_id
      then decision task_id invalid_graph_state (dependency_cycle ∷ []) (sort_by leb dependencies)
          [] []
      else if not task.schedulable
      then refused task_id not_schedulable non_schedulable
      else if graph.pending_gate task_id
      then refused task_id not_schedulable pending_human_gate
      else if not (is_implementation task.execution_class)
      then refused task_id not_schedulable non_implementation_execution_class
      else if is_terminal task.status
      then refused task_id terminal (task_terminal task.status)
      else if graph.active_leased task_id
      then refused task_id already_leased active_valid_lease
      else elim task.status [
        | TaskStatus.pending ↦
            evaluate_dependencies (sort_by leb dependencies)
              (chosen (absent graph.tasks) dependencies)
              (chosen (failed_or_blocked graph.tasks) dependencies)
              (chosen (incomplete graph.tasks) dependencies) (graph.unresolved_decisions task_id)
              (graph.baseline_blockers task_id)
        | _ ↦ refused task_id running task_running
      ]

  unfoldable pub evaluate_loaded : ProjectGraph → ReadinessDecision
  unfolding evaluate_row
  evaluate_loaded graph = elim (find Tasks.task_key task_id graph.tasks) [
    | none ↦ refused task_id invalid_graph_state dependency_target_missing
    | some task ↦ evaluate_row graph task
  ]

-- `_load_project_graph`
abbrev pub leased_until : ℕ → ℕ → TaskLease → Bool
leased_until time id l = l.task_id == id && is_active l.status && ltb time l.expires_at

unfoldable pub dependencies_of : Db → ℕ → List ℕ
dependencies_of db id =
    map (λ d. d.depends_on_task_id) (keep (λ d. d.task_id == id) db.dependencies)

-- `limit is not None and len(ready) >= limit`
abbrev pub reached : Option ℕ → ℕ → Bool
reached none found = false
reached (some limit) found = leb limit found

-- The loop of `list_ready_tasks`, over the tasks in order. The tests on the prefix and on the
-- decision are `wanted`; a limit stops the loop once as many tasks are found.
unfoldable pub collect_ready : (wanted : Task → Bool) → Option ℕ → ℕ → List Task → List Task
collect_ready wanted limit found [] = []
collect_ready wanted limit found (task ∷ tasks) =
    let rest = collect_ready wanted limit (found + 1) tasks in
    let skipped = collect_ready wanted limit found tasks in
    if wanted task then task ∷ (if reached limit (found + 1) then [] else rest) else skipped

module _ (plan_state : PlanState) where
  unfoldable pub load_project_graph : ℕ → Session → ProjectGraph
  load_project_graph project_id s =
      let tasks = Tasks.list_by_project project_id s.db in
      record {
        tasks = tasks;
        dependencies = dependencies_of s.db;
        active_leased = λ id. ltb 0 (count (leased_until (now s) id) s.db.leases);
        in_cycle = is_cyclic (map Tasks.task_key tasks) (dependencies_of s.db);
        pending_gate = plan_state.pending_gate;
        unresolved_decisions = plan_state.unresolved_decisions;
        baseline_blockers = λ id.
            blockers_at plan_state.id_text id
              (blockers_by_task plan_state.id_text tasks (dependencies_of s.db) s.db);
      }

  unfoldable pub evaluate_task : ℕ → Session → ReadinessDecision
  evaluate_task task_id s = elim (Tasks.get task_id s.db) [
    | none ↦ refused task_id not_found task_missing
    | some task ↦ evaluate_loaded task_id (load_project_graph task.project_id s)
  ]

  unfoldable pub list_ready_tasks : (has_prefix : ℕ → Bool) → ℕ → Option ℕ → Session → List Task
  list_ready_tasks has_prefix project_id limit s =
      let graph = load_project_graph project_id s in
      collect_ready (λ t. has_prefix t.id && is_ready (evaluate_loaded t.id graph).status) limit 0
        (sort_by Tasks.created_first graph.tasks)
