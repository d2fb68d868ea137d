-- ===== src/Scheduler/Repair/Plans.antt =====
-- What a planned repair has checked and stored.
use ai_ent.Prelude.{
  ℕ, ◌≡◌, ◌<◌, ◌==◌, ◌&&◌, ◌∙◌, refl, sym, ap, subst, ltb, count, keep, sort_by, count-sort_by,
  count-keep, find-key, Bool, true, false, String, Option, none, some, List, arith, Option-cases,
  Bool-cases, inl, inr,
}
use ai_ent.Persistence.Models.{Task, TaskStatus, Execution, TaskLease}
use ai_ent.Persistence.Session.{
  Db, Session, Error, Action, return, raise, Result-cases, change, now,
}
use ai_ent.Persistence.Tasks
use ai_ent.Persistence.Executions
use ai_ent.Persistence.Checkpoints
use ai_ent.Persistence.Leases
use ai_ent.Persistence.Sound.{IsSound, Keeps, set_lease-Keeps, set_status-Keeps}
use ai_ent.Bootstrap.Models.{BootstrapTask}
use ai_ent.Scheduler.Claiming.{ClaimResult, claimed, claim_task, mark_released}
use ai_ent.Scheduler.Claiming.Soundness.{mark_released-IsLeaseEdit}
use ai_ent.Scheduler.Claiming.Outcome.{Claimed, claim_task-Claimed}
use ai_ent.Scheduler.Repair.Classes.{IsRepairable, classify-IsRepairable, action_for-repair}
use ai_ent.Scheduler.Repair.{
  RepairPolicy, RepairDecision, RepairAction, repair_with_new_execution, is_repair, repair_request,
  read_only_decision, start_repair, plan, release_active, after_claim, is_failed, is_failed_repair,
  repair_attempt_count,
}

is_repair-eq : (a : RepairAction) → is_repair a ≡ true → a ≡ repair_with_new_execution
is_repair-eq a h = ground arith

-- A repair of the task that failed: every execution after the first is a repair.
abbrev pub failed_repair_of : ℕ → Execution → Bool
failed_repair_of task_id e = (e.task_id == task_id) && (ltb 1 e.attempt && is_failed e.status)

module _ (policy : RepairPolicy) (blocking : Task → Db → List ℕ)
    (manifest : ℕ → Option BootstrapTask) (path : String) where
  -- A plan that starts no repair changes nothing, and answers the read-only decision.
  pub plan-read_only :
      (execution_id : ℕ) (s : Session) {execution : Execution} {task : Task}
      → Executions.get execution_id s.db ≡ some execution
      → Tasks.get execution.task_id s.db ≡ some task
      → is_repair (read_only_decision policy execution task s).action ≡ false
      → plan policy blocking manifest path execution_id s
        ≡ (return (read_only_decision policy execution task s), s)
  unfolding plan Executions.require Tasks.require
  plan-read_only execution_id s {execution} {task} e t h = ground (arith, e, t, h)

  -- The session in which the repair claims the task: no lease of it is active, and it is pending.
  abbrev pub prepared : ℕ → Session → Session
  prepared task_id s =
      (change (Tasks.set_status task_id TaskStatus.pending)
        (release_active policy blocking manifest path (Leases.active_for_task task_id s.db) s).1).1

  pub release_active-Keeps :
      (lease : Option TaskLease) → Keeps (release_active policy blocking manifest path lease)
  release_active-Keeps none s h = h
  release_active-Keeps (some lease) s h =
      set_lease-Keeps lease.id (mark_released (now s)) (mark_released-IsLeaseEdit (now s)) s h

  prepared-IsSound : (task_id : ℕ) (s : Session) → IsSound s → IsSound (prepared task_id s)
  prepared-IsSound task_id s h =
      set_status-Keeps task_id TaskStatus.pending _
        (release_active-Keeps (Leases.active_for_task task_id s.db) s h)

  record Continued (d result : RepairDecision) (granted : ClaimResult) (o : Option Execution)
      (s s' : Session) (execution : Execution) : Type 0 where
    was_claimed : granted.status ≡ claimed
    same_execution : o ≡ some execution
    unchanged : s' ≡ s

  after_claim-Continued :
      (d : RepairDecision) (granted : ClaimResult) (o : Option Execution) (s : Session)
      {result : RepairDecision} {execution : Execution}
      → d.next_execution ≡ none
      → (after_claim policy blocking manifest path d granted o s).0 ≡ return result
      → result.next_execution ≡ some execution
      → Continued d result granted o s
          (after_claim policy blocking manifest path d granted o s).1
          execution
  after_claim-Continued d granted none s {result} {execution} f h n =
      absurd (ground (arith, f, h, n))
  after_claim-Continued d granted (some e) s {result} {execution} f h n = ground (arith, f, h, n)

  -- A started repair that has a next execution has claimed the task for it.
  start_repair-Claimed :
      (d : RepairDecision) (s : Session) {result : RepairDecision} {execution : Execution}
      → IsSound s
      → d.next_execution ≡ none
      → (start_repair policy blocking manifest path d s).0 ≡ return result
      → result.next_execution ≡ some execution
      → Claimed
          (repair_request policy d.task.id)
          (prepared d.task.id s)
          (start_repair policy blocking manifest path d s).1
          execution
  unfolding start_repair
  start_repair-Claimed d s {result} {execution} sound fresh h n =
      elim (Result-cases (claiming (prepared d.task.id s)).0) [
        | inr (x, e) ↦ absurd (refute x e h)
        | inl (granted, e) ↦
            let k =
              after_claim-Continued d granted granted.execution (claiming (prepared d.task.id s)).1
                {result = result} {execution = execution} fresh (ground (arith, e, h)) n in
            let (task, made, can, same, c) =
              claim_task-Claimed blocking (repair_request policy d.task.id) (prepared d.task.id s)
                {result = granted} (prepared-IsSound d.task.id s sound).current e k.was_claimed in
            rw (ended granted e k.unchanged, named made same k.same_execution) c
      ]
    where
      claiming : Action ClaimResult
      claiming = claim_task blocking (repair_request policy d.task.id)

      refute :
          (x : Error)
          → (claiming (prepared d.task.id s)).0 ≡ raise x
          → (start_repair policy blocking manifest path d s).0 ≡ return result
          → ⊥
      refute x e h = ground (arith, e, h)

      ended :
          (granted : ClaimResult)
          → (claiming (prepared d.task.id s)).0 ≡ return granted
          → (after_claim policy blocking manifest path d granted granted.execution
              (claiming (prepared d.task.id s)).1).1
            ≡ (claiming (prepared d.task.id s)).1
          → (start_repair policy blocking manifest path d s).1 ≡ (claiming (prepared d.task.id s)).1
      ended granted e u = ground (arith, e, u)

      named :
          (made : Execution) {o : Option Execution}
          → o ≡ some made
          → o ≡ some execution
          → execution ≡ made
      named made a b = cc

  plan-eq-start_repair :
      (execution_id : ℕ) (s : Session) {failed : Execution} {task : Task}
      → Executions.get execution_id s.db ≡ some failed
      → Tasks.get failed.task_id s.db ≡ some task
      → is_repair (read_only_decision policy failed task s).action ≡ true
      → plan policy blocking manifest path execution_id s
        ≡ start_repair policy blocking manifest path (read_only_decision policy failed task s) s
  unfolding plan Executions.require Tasks.require
  plan-eq-start_repair execution_id s {failed} {task} e t h = ground (arith, e, t, h)

  -- A plan that returns has read its execution and the task of it.
  plan-found :
      (execution_id : ℕ) (s : Session) {result : RepairDecision}
      → (plan policy blocking manifest path execution_id s).0 ≡ return result
      → (failed : Execution) × (task : Task) × (Executions.get execution_id s.db ≡ some failed)
        × (Tasks.get failed.task_id s.db ≡ some task)
  unfolding plan Executions.require Tasks.require
  plan-found execution_id s {result} h = elim (Option-cases (Executions.get execution_id s.db)) [
    | inl e ↦ absurd (ground (arith, e, h))
    | inr (failed, e) ↦ elim (Option-cases (Tasks.get failed.task_id s.db)) [
      | inl t ↦ absurd (ground (arith, e, t, h))
      | inr (task, t) ↦ (failed, task, e, t)
    ]
  ]

  -- What the decision to repair rests on.
  repair-allowed :
      (failed : Execution) (task : Task) (s : Session)
      → is_repair (read_only_decision policy failed task s).action ≡ true
      → IsRepairable failed (Checkpoints.latest_for_execution failed.id s.db)
        × (count (failed_repair_of task.id) s.db.executions < policy.max_autonomous_repair_attempts)
  unfolding read_only_decision repair_attempt_count Executions.list_by_task
  repair-allowed failed task s h =
      let last = Checkpoints.latest_for_execution failed.id s.db in
      let (kind, bound) = (action_for-repair policy _ _).0 (is_repair-eq _ h) in
      let same : count is_failed_repair
            (sort_by Executions.attempt_first (keep (Executions.of_task task.id) s.db.executions))
          ≡ count (failed_repair_of task.id) s.db.executions =
        count-sort_by is_failed_repair Executions.attempt_first
          (keep (Executions.of_task task.id) s.db.executions)
        ∙ count-keep is_failed_repair (Executions.of_task task.id) s.db.executions in
      (classify-IsRepairable failed last kind, rw same at bound)

  -- From a sound session, a plan that names a next execution was made for a stored execution whose
  -- failure is not of the scope check, and is of the verification, or of an executor that failed
  -- or was cancelled where the error names no commit, database, time limit, worktree, lease or
  -- environment; its task has fewer failed repairs than the policy allows, a repair being an
  -- execution after the first attempt; that task is claimed for the owner of repairs, and the next
  -- execution is its new running one.
  pub plan-repairs :
      (execution_id : ℕ) (s : Session) {result : RepairDecision} {execution : Execution}
      → IsSound s
      → (plan policy blocking manifest path execution_id s).0 ≡ return result
      → result.next_execution ≡ some execution
      → (failed : Execution) × (Executions.get execution_id s.db ≡ some failed)
        × IsRepairable failed (Checkpoints.latest_for_execution failed.id s.db)
        × (count (failed_repair_of failed.task_id) s.db.executions
            < policy.max_autonomous_repair_attempts)
        × Claimed
            (repair_request policy failed.task_id)
            (prepared failed.task_id s)
            (plan policy blocking manifest path execution_id s).1
            execution
  plan-repairs execution_id s {result} {execution} sound h n =
      let (failed, task, e, t) = plan-found execution_id s {result = result} h in
      let d = read_only_decision policy failed task s in
      let of_failed : task.id ≡ failed.task_id =
        find-key Tasks.task_key failed.task_id s.db.tasks t in
      elim (Bool-cases (is_repair d.action)) [
        | inr b ↦ absurd (stays e t b)
        | inl b ↦
            let same = plan-eq-start_repair execution_id s e t b in
            let c =
              start_repair-Claimed d s {result = result} {execution = execution} sound
                (undecided failed task) (rw same at h) n in
            let (kind, bound) = repair-allowed failed task s b in
            (
              failed,
              e,
              kind,
              rw of_failed at bound,
              subst
                  (λ x.
                    Claimed (repair_request policy x) (prepared x s)
                      (plan policy blocking manifest path execution_id s).1 execution)
                  (ap (λ x. x.id) (decided_task failed task) ∙ of_failed)
                  (subst
                    (λ x.
                      Claimed (repair_request policy d.task.id) (prepared d.task.id s) x.1
                        execution)
                    (sym same) c),
            )
      ]
    where
      undecided :
          (failed : Execution) (task : Task)
          → (read_only_decision policy failed task s).next_execution ≡ none
      undecided failed task = unfold read_only_decision in refl

      decided_task :
          (failed : Execution) (task : Task) → (read_only_decision policy failed task s).task ≡ task
      decided_task failed task = unfold read_only_decision in refl

      stays :
          {failed : Execution} {task : Task}
          → Executions.get execution_id s.db ≡ some failed
          → Tasks.get failed.task_id s.db ≡ some task
          → is_repair (read_only_decision policy failed task s).action ≡ false
          → ⊥
      stays {failed} {task} e t b =
          ground (arith, plan-read_only execution_id s e t b, h, n, undecided failed task)
