-- ===== src/Scheduler/Readiness/Claimable.antt =====
-- src/ai_ent/scheduler/readiness.py and claiming.py: the task that one calls READY, the other grants.
use ai_ent.Prelude.{
  ℕ, ◌≡◌, refl, ◌∙◌, sym, false, some, [], arith, Elem, Elem-sort_by, Elem-keep, find-Elem,
  find-key, first-some, count-pos, Option-cases, Bool-cases, inl, inr, find, ltb, count,
}
use ai_ent.Persistence.Models.{Task}
use ai_ent.Persistence.Session.{Db, Session, return, now}
use ai_ent.Persistence.Tasks
use ai_ent.Persistence.Leases
use ai_ent.Persistence.Invariant.{WellFormed}
use ai_ent.Scheduler.Claiming.{ClaimRequest, ClaimResult, claimed, claim_task}
use ai_ent.Scheduler.Claiming.Claims.{is_valid_at}
use ai_ent.Scheduler.Claiming.Progress.{IsFresh, claim_task-claimed}
use ai_ent.Scheduler.Baseline.Blockers.{blocking_dependencies_for_claim}
use ai_ent.Scheduler.Baseline.Gates.{cleared-blocking}
use ai_ent.Scheduler.Readiness.{
  PlanState, ready, evaluate_task, evaluate_loaded, load_project_graph, leased_until,
}
use ai_ent.Scheduler.Readiness.Conditions.{evaluate_loaded-ready}

-- The primary key of `tasks`.
pub record HasKeys (db : Db) : Type 0 where
  pub same : (a b : Task) → Elem a db.tasks → Elem b db.tasks → a.id ≡ b.id → a ≡ b

module _ (plan_state : PlanState) (r : ClaimRequest) (s : Session) where
  evaluate_task-loaded :
      (evaluate_task plan_state r.task_id s).status ≡ ready
      → (task : Task) × (Tasks.get r.task_id s.db ≡ some task)
        × ((evaluate_loaded r.task_id (load_project_graph plan_state task.project_id s)).status
            ≡ ready)
  unfolding evaluate_task
  evaluate_task-loaded h = elim (Option-cases (Tasks.get r.task_id s.db)) [
    | inl e ↦ absurd (ground (arith, e, h))
    | inr (task, e) ↦ (task, e, ground (arith, e, h))
  ]

  listed-stored :
      (project_id : ℕ) (task other : Task)
      → HasKeys s.db
      → Tasks.get r.task_id s.db ≡ some task
      → find Tasks.task_key r.task_id (Tasks.list_by_project project_id s.db) ≡ some other
      → other ≡ task
  unfolding Tasks.list_by_project
  listed-stored project_id task other keys e f =
      keys.same other task
        (Elem-keep _ other _
          (Elem-sort_by Tasks.created_first other _ (find-Elem Tasks.task_key r.task_id _ f))).0
        (find-Elem Tasks.task_key r.task_id s.db.tasks e)
        (find-key Tasks.task_key r.task_id _ f
          ∙ sym (find-key Tasks.task_key r.task_id s.db.tasks e))

  unleased-free :
      ltb 0 (count (leased_until (now s) r.task_id) s.db.leases) ≡ false
      → is_valid_at (now s) (Leases.active_for_task r.task_id s.db) ≡ false
  unfolding Leases.active_for_task
  unleased-free h = elim (Option-cases (Leases.active_for_task r.task_id s.db)) [
    | inl e ↦ rw (e) refl
    | inr (lease, e) ↦
        let (stands, holds) =
          first-some (Leases.holds r.task_id) Leases.acquired_last s.db.leases e in
        elim (Bool-cases (ltb (now s) lease.expires_at)) [
          | inr late ↦ ground (arith, e, late)
          | inl early ↦ absurd (
              ground (
                arith,
                h,
                count-pos (leased_until (now s) r.task_id) lease s.db.leases stands
                    (ground (arith, holds, early)),
              ))
        ]
  ]

  -- A task that `evaluate_task` calls READY, and that the baseline does not block for a claim, is
  -- claimed by `claim_task` in the same state: the answer is CLAIMED. The other conditions are
  -- well-formed tables, the primary key of `tasks`, no row lock of others, new identifiers, and a
  -- lease that lasts some time.
  pub ready_task-claimed :
      {task : Task}
      → WellFormed s.db
      → HasKeys s.db
      → s.locked r.task_id ≡ false
      → IsFresh r s
      → Tasks.get r.task_id s.db ≡ some task
      → (evaluate_task plan_state r.task_id s).status ≡ ready
      → blocking_dependencies_for_claim plan_state.id_text task s.db ≡ []
      → (result : ClaimResult) × ((claim_task
            (blocking_dependencies_for_claim plan_state.id_text)
            r
            s).0
          ≡ return result)
        × (result.status ≡ claimed)
  unfolding load_project_graph
  ready_task-claimed {task} w keys unlocked fresh e h unblocked =
      let (found, f, loaded) = evaluate_task-loaded h in
      let (other, is) = (evaluate_loaded-ready r.task_id _).0 loaded in
      let same : other ≡ task = listed-stored found.project_id task other keys e is.is_known in
      claim_task-claimed (blocking_dependencies_for_claim plan_state.id_text) r s task w
        (record {
          unlocked = unlocked;
          stored = e;
          ready = ground (arith, same, is.is_schedulable, is.is_implementing, is.is_waiting);
          free = unleased-free is.unleased;
          unblocked = cleared-blocking plan_state.id_text task r.task_id s ∙ unblocked;
        })
        fresh
