-- ===== src/Examples/Graphs.antt =====
-- The decisions about the sample task, and a graph with cycles.
use ai_ent.Prelude.{
  ℕ, zero, suc, ◌<◌, ◌≤◌, ◌≡◌, ◌↔◌, refl, inl, inr, Bool, true, false, Option, none, some, List, [],
  ◌∷◌, arith, Elem, length,
}
use ai_ent.Persistence.Models.{Task}
use ai_ent.Persistence.Session.{return}
use ai_ent.Scheduler.Claiming.{ClaimResult, claimed, claim_task}
use ai_ent.Scheduler.Cycles.{Search, cycle_nodes, is_cyclic}
use ai_ent.Scheduler.Cycles.Paths.{Reaches, is_cyclic-Reaches, cycle_nodes-some}
use ai_ent.Scheduler.Baseline.Blockers.{blocking_dependencies_for_claim}
use ai_ent.Scheduler.Readiness.{
  PlanState, ready, evaluate_task, evaluate_loaded, load_project_graph, list_ready_tasks,
}
use ai_ent.Scheduler.Readiness.Conditions.{IsReady, evaluate_loaded-ready}
use ai_ent.Scheduler.Readiness.Listing.{list_ready_sound, list_ready_complete, list_ready-limit}
use ai_ent.Scheduler.Readiness.Claimable.{HasKeys, ready_task-claimed}
use ai_ent.Examples.Data.{a_task, rows, idle, request, idle-IsSound}
use ai_ent.Examples.Claims.{idle-IsFresh}

abbrev pub plan_state : PlanState
plan_state = record {
  pending_gate = λ id. false;
  unresolved_decisions = λ id. [];
  id_text = λ id. "1";
}

any_prefix : ℕ → Bool
any_prefix id = true

evaluate_loaded-ready_example :
    ((evaluate_loaded 1 (load_project_graph plan_state 7 idle)).status ≡ ready)
    ↔ ((task : Task) × IsReady (load_project_graph plan_state 7 idle) 1 task)
evaluate_loaded-ready_example = evaluate_loaded-ready 1 (load_project_graph plan_state 7 idle)

a_task_listed : Elem a_task (list_ready_tasks plan_state any_prefix 7 (some 1) idle)
unfolding list_ready_tasks ai_ent.Scheduler.Readiness.collect_ready ai_ent.Prelude.sort_by
    load_project_graph ai_ent.Persistence.Tasks.list_by_project ai_ent.Prelude.keep any_prefix
    evaluate_loaded ai_ent.Prelude.find is_cyclic ai_ent.Scheduler.Cycles.visit_each
    ai_ent.Scheduler.Cycles.visit ai_ent.Scheduler.Cycles.member
    ai_ent.Scheduler.Readiness.dependencies_of ai_ent.Prelude.count
    ai_ent.Scheduler.Baseline.Blockers.blockers_by_task
a_task_listed = inl refl

list_ready_sound_example :
    Elem a_task idle.db.tasks
    × (a_task.project_id ≡ 7)
    × (any_prefix 1 ≡ true)
    × ((evaluate_loaded 1 (load_project_graph plan_state 7 idle)).status ≡ ready)
list_ready_sound_example =
    list_ready_sound plan_state any_prefix 7 idle (some 1) a_task a_task_listed

a_task_is_ready : (evaluate_loaded 1 (load_project_graph plan_state 7 idle)).status ≡ ready
unfolding evaluate_loaded ai_ent.Prelude.find load_project_graph
    ai_ent.Persistence.Tasks.list_by_project ai_ent.Prelude.sort_by ai_ent.Prelude.keep is_cyclic
    ai_ent.Scheduler.Cycles.visit_each ai_ent.Scheduler.Cycles.visit ai_ent.Scheduler.Cycles.member
    ai_ent.Scheduler.Readiness.dependencies_of ai_ent.Prelude.count
    ai_ent.Scheduler.Baseline.Blockers.blockers_by_task
a_task_is_ready = refl

a_task_prefix : any_prefix 1 ≡ true
unfolding any_prefix
a_task_prefix = refl

list_ready_complete_example : Elem a_task (list_ready_tasks plan_state any_prefix 7 none idle)
list_ready_complete_example =
    list_ready_complete plan_state any_prefix 7 idle a_task (inl refl) refl a_task_prefix
      a_task_is_ready

list_ready-limit_example : length (list_ready_tasks plan_state any_prefix 7 (some 1) idle) ≤ 1
list_ready-limit_example = list_ready-limit plan_state any_prefix 7 idle 1 (omega arith)

rows-HasKeys : HasKeys rows
rows-HasKeys = record { same = λ a b p q h. ground (arith, p, q) }

a_task_evaluated : (evaluate_task plan_state 1 idle).status ≡ ready
unfolding evaluate_task ai_ent.Prelude.find evaluate_loaded load_project_graph
    ai_ent.Persistence.Tasks.list_by_project ai_ent.Prelude.sort_by ai_ent.Prelude.keep is_cyclic
    ai_ent.Scheduler.Cycles.visit_each ai_ent.Scheduler.Cycles.visit ai_ent.Scheduler.Cycles.member
    ai_ent.Scheduler.Readiness.dependencies_of ai_ent.Prelude.count
    ai_ent.Scheduler.Baseline.Blockers.blockers_by_task
a_task_evaluated = refl

a_task_stored : ai_ent.Persistence.Tasks.get 1 idle.db ≡ some a_task
unfolding ai_ent.Prelude.find
a_task_stored = refl

nothing_blocks : blocking_dependencies_for_claim (λ id. "1") a_task idle.db ≡ []
unfolding blocking_dependencies_for_claim ai_ent.Prelude.keep
nothing_blocks = refl

ready_task-claimed_example :
    (result : ClaimResult) × ((claim_task
        (blocking_dependencies_for_claim (λ id. "1"))
        request
        idle).0
      ≡ return result)
    × (result.status ≡ claimed)
ready_task-claimed_example =
    ready_task-claimed plan_state request idle idle-IsSound.current rows-HasKeys refl idle-IsFresh
      a_task_stored a_task_evaluated nothing_blocks

-- 0 needs 1 and 2, both of them need 3, and 3 needs 0.
abbrev nodes : List ℕ
nodes = 0 ∷ 1 ∷ 2 ∷ 3 ∷ []

abbrev needs : ℕ → List ℕ
needs zero = 1 ∷ 2 ∷ []
needs (suc zero) = 3 ∷ []
needs (suc (suc zero)) = 3 ∷ []
needs (suc (suc (suc n))) = 0 ∷ []

cycle_is_found : is_cyclic nodes needs 1 ≡ true
unfolding is_cyclic ai_ent.Scheduler.Cycles.visit_each ai_ent.Scheduler.Cycles.visit
    ai_ent.Scheduler.Cycles.member ai_ent.Scheduler.Cycles.back_to
cycle_is_found = refl

is_cyclic-Reaches_example : Reaches needs 1 1
is_cyclic-Reaches_example = is_cyclic-Reaches nodes needs 1 cycle_is_found

cycle_nodes-some_example : (found : Search) × (cycle_nodes nodes needs ≡ some found)
cycle_nodes-some_example = cycle_nodes-some nodes needs

-- The node 2 is on the cycle 0, 2, 3, and is not reported.
cycle_is_missed : is_cyclic nodes needs 2 ≡ false
unfolding is_cyclic ai_ent.Scheduler.Cycles.visit_each ai_ent.Scheduler.Cycles.visit
    ai_ent.Scheduler.Cycles.member ai_ent.Scheduler.Cycles.back_to
cycle_is_missed = refl
