-- ===== src/Scheduler/Readiness/Conditions.antt =====
-- src/ai_ent/scheduler/readiness.py: what the decision READY means.
use ai_ent.Prelude.{
  ℕ, String, ◌≡◌, ◌↔◌, Bool, true, false, some, List, [], ◌∷◌, arith, All, keep, sort_by, find, leb,
  Option-cases, inl, inr, sort_by-nil, keep-nil,
}
use ai_ent.Persistence.Models.{Task, TaskStatus, implementation}
use ai_ent.Persistence.Tasks
use ai_ent.Scheduler.Readiness.{
  ProjectGraph, ReadinessDecision, ready, evaluate_loaded, absent, failed_or_blocked, incomplete,
  chosen, evaluate_row, evaluate_dependencies, evaluate_plan,
}

-- A dependency is a task of the graph, and has passed.
pub record IsSatisfied (tasks : List Task) (id : ℕ) : Type 0 where
  pub dependency : Task
  pub is_known : find Tasks.task_key id tasks ≡ some dependency
  pub has_passed : dependency.status ≡ TaskStatus.passed

pub record IsReady (graph : ProjectGraph) (task_id : ℕ) (task : Task) : Type 0 where
  pub is_known : find Tasks.task_key task_id graph.tasks ≡ some task
  pub acyclic : graph.in_cycle task_id ≡ false
  pub is_schedulable : task.schedulable ≡ true
  pub ungated : graph.pending_gate task_id ≡ false
  pub is_implementing : task.execution_class ≡ implementation
  pub is_waiting : task.status ≡ TaskStatus.pending
  pub unleased : graph.active_leased task_id ≡ false
  pub satisfied : All (IsSatisfied graph.tasks) (graph.dependencies task_id)
  pub decided : graph.unresolved_decisions task_id ≡ []
  pub unblocked : graph.baseline_blockers task_id ≡ []

chosen-nil : (p : ℕ → Bool) (xs : List ℕ) → (chosen p xs ≡ []) ↔ All (λ x. p x ≡ false) xs
chosen-nil p xs = (
  λ h. (keep-nil p xs).0 ((sort_by-nil leb (keep p xs)).0 h),
  λ h. (sort_by-nil leb (keep p xs)).1 ((keep-nil p xs).1 h),
)

module _ (tasks : List Task) where
  IsSatisfied-of :
      (ids : List ℕ)
      → All (λ x. absent tasks x ≡ false) ids
      → All (λ x. incomplete tasks x ≡ false) ids
      → All (IsSatisfied tasks) ids
  IsSatisfied-of [] a i = tt
  IsSatisfied-of (x ∷ xs) (a, a') (i, i') = elim (Option-cases (find Tasks.task_key x tasks)) [
    | inl e ↦ absurd (ground (arith, e, a))
    | inr (t, e) ↦ (
      record { dependency = t; is_known = e; has_passed = ground (arith, e, i) },
      IsSatisfied-of xs a' i',
    )
  ]

  of_satisfied :
      (ids : List ℕ)
      → All (IsSatisfied tasks) ids
      → All (λ x. absent tasks x ≡ false) ids
        × All (λ x. failed_or_blocked tasks x ≡ false) ids
        × All (λ x. incomplete tasks x ≡ false) ids
  of_satisfied [] h = (tt, tt, tt)
  of_satisfied (x ∷ xs) (h, h') =
      let (a, b, c) = of_satisfied xs h' in
      (
        (ground (arith, h.is_known), a),
        (ground (arith, h.is_known, h.has_passed), b),
        (ground (arith, h.is_known, h.has_passed), c),
      )

module _ (id : ℕ) where
  -- Of the stages: READY is answered where every list is empty.
  dependencies-ready :
      (ordered missing blocking waiting : List ℕ) (decisions : List String) (blockers : List ℕ)
      → (evaluate_dependencies id ordered missing blocking waiting decisions blockers).status
        ≡ ready
      → (missing ≡ []) × (waiting ≡ []) × (decisions ≡ []) × (blockers ≡ [])
  unfolding evaluate_dependencies evaluate_plan
  dependencies-ready ordered missing blocking waiting decisions blockers h = ground (arith, h)

  -- The dependencies' part of the decision about a pending task.
  abbrev staged : ProjectGraph → Task → ReadinessDecision
  staged graph task =
      evaluate_dependencies id (sort_by leb (graph.dependencies id))
        (chosen (absent graph.tasks) (graph.dependencies id))
        (chosen (failed_or_blocked graph.tasks) (graph.dependencies id))
        (chosen (incomplete graph.tasks) (graph.dependencies id)) (graph.unresolved_decisions id)
        (graph.baseline_blockers id)

  row-guards :
      (graph : ProjectGraph) (task : Task)
      → (evaluate_row id graph task).status ≡ ready
      → (graph.in_cycle id ≡ false)
        × (task.schedulable ≡ true)
        × (graph.pending_gate id ≡ false)
        × (task.execution_class ≡ implementation)
        × (task.status ≡ TaskStatus.pending)
        × (graph.active_leased id ≡ false)
        × ((staged graph task).status ≡ ready)
  unfolding evaluate_row
  row-guards graph task h = ground (arith, h)

  row-staged :
      (graph : ProjectGraph) (task : Task)
      → IsReady graph id task
      → evaluate_row id graph task ≡ staged graph task
  unfolding evaluate_row
  row-staged graph task h =
      ground
        (arith, h.acyclic, h.is_schedulable, h.ungated, h.is_implementing, h.is_waiting, h.unleased)

  row-ready :
      (graph : ProjectGraph) (task : Task)
      → find Tasks.task_key id graph.tasks ≡ some task
      → (evaluate_row id graph task).status ≡ ready
      → IsReady graph id task
  row-ready graph task e h =
      let (a, b, c, d, p, l, rest) = row-guards graph task h in
      let (m, w, u, k) = dependencies-ready _ _ _ _ _ _ rest in
      record {
        is_known = e;
        acyclic = a;
        is_schedulable = b;
        ungated = c;
        is_implementing = d;
        is_waiting = p;
        unleased = l;
        satisfied =
            IsSatisfied-of graph.tasks (graph.dependencies id) ((chosen-nil _ _).0 m)
              ((chosen-nil _ _).0 w);
        decided = u;
        unblocked = k;
      }

  ready-staged :
      (graph : ProjectGraph) (task : Task)
      → IsReady graph id task
      → (staged graph task).status ≡ ready
  unfolding evaluate_dependencies evaluate_plan
  ready-staged graph task h =
      let (a, b, c) = of_satisfied graph.tasks (graph.dependencies id) h.satisfied in
      rw (
        (chosen-nil (absent graph.tasks) _).1 a,
        (chosen-nil (failed_or_blocked graph.tasks) _).1 b,
        (chosen-nil (incomplete graph.tasks) _).1 c,
        h.decided,
        h.unblocked,
      )

-- A task of the graph is READY exactly where it is in no detected cycle, is schedulable, without a
-- pending gate, of the implementation class, pending and without an active lease, all of its
-- dependencies are tasks of the graph that have passed, and no decision and no baseline blocks it.
pub evaluate_loaded-ready :
    (id : ℕ) (graph : ProjectGraph)
    → ((evaluate_loaded id graph).status ≡ ready) ↔ ((task : Task) × IsReady graph id task)
unfolding evaluate_loaded
evaluate_loaded-ready id graph = elim (Option-cases (find Tasks.task_key id graph.tasks)) [
  | inl e ↦ (λ h. absurd (ground (arith, e, h)), λ h. absurd (ground (arith, e, h.1.is_known)))
  | inr (task, e) ↦ (
    λ h. (task, row-ready id graph task e (ground (arith, e, h))),
    λ h. ground (arith, h.1.is_known, row-staged id graph h.0 h.1, ready-staged id graph h.0 h.1),
  )
]
