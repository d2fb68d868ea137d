-- ===== src/Scheduler/Readiness/Listing.antt =====
-- src/ai_ent/scheduler/readiness.py: the tasks that `list_ready_tasks` returns.
use ai_ent.Prelude.{
  ℕ, ◌+◌, ◌≤◌, ◌<◌, ◌≡◌, Bool, true, Option, none, some, List, [], ◌∷◌, arith, Elem, length,
  Elem-sort_by, Elem-sorted, Elem-keep, Elem-kept, inl, inr, Bool-cases, ap,
}
use ai_ent.Persistence.Models.{Task}
use ai_ent.Persistence.Session.{Session}
use ai_ent.Persistence.Tasks
use ai_ent.Scheduler.Readiness.{
  PlanState, ready, evaluate_loaded, load_project_graph, collect_ready, list_ready_tasks,
}

module _ (wanted : Task → Bool) where
  collected-Elem :
      (limit : Option ℕ) (n : ℕ) (t : Task) (ts : List Task)
      → Elem t (collect_ready wanted limit n ts)
      → Elem t ts × (wanted t ≡ true)
  unfolding collect_ready
  collected-Elem limit n t [] h = absurd h
  collected-Elem limit n t (x ∷ xs) h = elim (Bool-cases (wanted x)) [
    | inr e ↦ let (a, b) = collected-Elem limit n t xs (ground (arith, e, h)) in (inr a, b)
    | inl e ↦ ground (arith, e, h, collected-Elem limit (n + 1) t xs)
  ]

  collected-all :
      (n : ℕ) (t : Task) (ts : List Task)
      → Elem t ts
      → wanted t ≡ true
      → Elem t (collect_ready wanted none n ts)
  unfolding collect_ready
  collected-all n t [] h e = h
  collected-all n t (x ∷ xs) (inl h) e = ground (arith, h, e, ap wanted h)
  collected-all n t (x ∷ xs) (inr h) e =
      ground (arith, collected-all (n + 1) t xs h e, collected-all n t xs h e)

  collected-length :
      (limit n : ℕ) (ts : List Task)
      → n < limit
      → length (collect_ready wanted (some limit) n ts) + n ≤ limit
  unfolding collect_ready
  collected-length limit n [] h = omega (arith, h)
  collected-length limit n (x ∷ xs) h =
      ground (arith, collected-length limit (n + 1) xs, collected-length limit n xs h, h)

module _ (plan_state : PlanState) (has_prefix : ℕ → Bool) (project_id : ℕ) (s : Session) where
  -- Each task that is listed is a task of the project, has the prefix and is READY in its graph.
  pub list_ready_sound :
      (limit : Option ℕ) (task : Task)
      → Elem task (list_ready_tasks plan_state has_prefix project_id limit s)
      → Elem task s.db.tasks
        × (task.project_id ≡ project_id)
        × (has_prefix task.id ≡ true)
        × ((evaluate_loaded task.id (load_project_graph plan_state project_id s)).status ≡ ready)
  unfolding list_ready_tasks load_project_graph Tasks.list_by_project
  list_ready_sound limit task h =
      let (e, w) = collected-Elem _ limit 0 task _ h in
      let (a, b) =
        Elem-keep _ task _ (Elem-sort_by _ task _ (Elem-sort_by Tasks.created_first task _ e)) in
      (a, ground (arith, b), ground (arith, w), ground (arith, w))

  -- Without a limit, each task of the project that has the prefix and is READY is listed.
  pub list_ready_complete :
      (task : Task)
      → Elem task s.db.tasks
      → task.project_id ≡ project_id
      → has_prefix task.id ≡ true
      → (evaluate_loaded task.id (load_project_graph plan_state project_id s)).status ≡ ready
      → Elem task (list_ready_tasks plan_state has_prefix project_id none s)
  unfolding list_ready_tasks load_project_graph Tasks.list_by_project
  list_ready_complete task e p h r =
      collected-all _ 0 task _
        (Elem-sorted _ task _ (Elem-sorted _ task _ (Elem-kept _ task _ e (ground (arith, p)))))
        (ground (arith, h, r))

  -- A positive limit bounds how many tasks are listed.
  pub list_ready-limit :
      (limit : ℕ)
      → 0 < limit
      → length (list_ready_tasks plan_state has_prefix project_id (some limit) s) ≤ limit
  unfolding list_ready_tasks
  list_ready-limit limit h = omega (arith, collected-length _ limit 0 _ h)
