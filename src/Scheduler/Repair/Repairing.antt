-- ===== src/Scheduler/Repair/Repairing.antt =====
-- What a repair leaves: its answers, and the tables.
use ai_ent.Prelude.{ℕ, ◌≡◌, refl, Bool-cases, subst, sym, true, Option, none, some, arith, inl, inr}
use ai_ent.Persistence.Models.{Task, Execution}
use ai_ent.Persistence.Session.{Session, return, gets, pure}
use ai_ent.Persistence.Tasks
use ai_ent.Persistence.Executions
use ai_ent.Persistence.Sound.{
  Keeps, bind-Keeps, if-Keeps, require_task-Keeps, require_execution-Keeps,
}
use ai_ent.Persistence.Ensures.{Ensures, pure-Ensures, if-Ensures, then-Ensures, bind-Ensures}
use ai_ent.Bootstrap.Models.{ExecutionPackage}
use ai_ent.Scheduler.Durability.{persist_execution_ownership}
use ai_ent.Scheduler.Durability.Ownership.{persist-Keeps}
use ai_ent.Scheduler.Execution.Running.{run_claimed-Keeps}
use ai_ent.Scheduler.Finalization.Soundness.{finalize-Keeps}
use ai_ent.Scheduler.Repair.Planning.{plan-Keeps}
use ai_ent.Scheduler.Execution.{ClaimedExecutionResult, run_claimed}
use ai_ent.Scheduler.Finalization.{ExecutionFinalizationResult, is_completed}
use ai_ent.Scheduler.Finalization.Steps.{finalize}
use ai_ent.Scheduler.Finalization.Promises.{Promised}
use ai_ent.Scheduler.Finalization.Recorded.{finalize-Promised}
use ai_ent.Scheduler.Repair.{RepairDecision, is_repair, plan, read_only_decision}
use ai_ent.Scheduler.Repair.Service.{
  RepairService, RepairExecutionResult, repaired, repair_already_exists, repair_result,
  existing_repair_attempt, is_executed, finish_run, after_run, after_finalization, run_failed,
  persist_next, run_package, run_next, run_decision, after_existing, repair_once,
}

-- What REPAIRED stands for: the package that was run was finalized as completed, and the rows of
-- its execution and its task are those that the finalization promises.
pub record IsRepaired (r : RepairExecutionResult) (s : Session) : Type 0 where
  pub bundle : ExecutionPackage
  pub ended : ExecutionFinalizationResult
  pub ran :
      (run : ClaimedExecutionResult) × (r.execution_result ≡ some run)
      × (run.execution_package ≡ some bundle)
      × (is_executed run.status ≡ true)
  pub was_finalized : r.finalization ≡ some ended
  pub is_complete : is_completed ended.status ≡ true
  pub promised : Promised bundle.execution_id bundle.task_id ended.status s

abbrev Repairs : RepairExecutionResult → Session → Type 0
Repairs r s = r.status ≡ repaired → IsRepaired r s

module _ (service : RepairService) where
  module _ (decision : RepairDecision) where
    unrepaired : (r : RepairExecutionResult) → (r.status ≡ repaired → ⊥) → Ensures Repairs (pure r)
    unrepaired r no_repair = pure-Ensures Repairs r (λ s h. absurd (no_repair h))

    run_failed-Repairs :
        (run : ClaimedExecutionResult) → Ensures Repairs (run_failed service decision run)
    unfolding Ensures
    run_failed-Repairs run s a h e = absurd (ground (arith, h, e))

    completed-IsRepaired :
        (run : ClaimedExecutionResult) (bundle : ExecutionPackage)
        (ended : ExecutionFinalizationResult) (s : Session) (r : RepairExecutionResult)
        → run.execution_package ≡ some bundle
        → is_executed run.status ≡ true
        → Promised bundle.execution_id bundle.task_id ended.status s
        → (after_finalization service decision run ended s).0 ≡ return r
        → r.status ≡ repaired
        → IsRepaired r (after_finalization service decision run ended s).1
    completed-IsRepaired run bundle ended s r named went promised e same =
        elim (Bool-cases (is_completed ended.status)) [
          | inr c ↦ absurd (ground (arith, c, e, same))
          | inl c ↦
              let stays : (after_finalization service decision run ended s).1 ≡ s =
                ground (arith, c) in
              record {
                bundle = bundle;
                ended = ended;
                ran = (run, ground (arith, c, e), named, went);
                was_finalized = ground (arith, c, e);
                is_complete = c;
                promised =
                    subst (Promised bundle.execution_id bundle.task_id ended.status) (sym stays)
                      promised;
              }
        ]

    finish_run-Repairs :
        (run : ClaimedExecutionResult) (o : Option ExecutionPackage)
        → run.execution_package ≡ o
        → is_executed run.status ≡ true
        → Ensures Repairs (finish_run service decision run o)
    finish_run-Repairs run none named went = run_failed-Repairs run
    finish_run-Repairs run (some bundle) named went =
        then-Ensures Repairs (λ ended s. Promised bundle.execution_id bundle.task_id ended.status s)
          (finalize service.finalizer (service.worktree bundle) service.owner_id bundle) _
          (unfold Ensures in
            λ s ended e.
              finalize-Promised service.finalizer (service.worktree bundle) service.owner_id bundle
                s e)
          (λ ended s promised r. completed-IsRepaired run bundle ended s r named went promised)

    after_run-Repairs :
        (run : ClaimedExecutionResult) → Ensures Repairs (after_run service decision run)
    after_run-Repairs run =
        if-Ensures Repairs (is_executed run.status) _ _
          (finish_run-Repairs run run.execution_package refl) (λ _. run_failed-Repairs run)

    run_next-Repairs : (o : Option ExecutionPackage) → Ensures Repairs (run_next service decision o)
    unfolding run_package
    run_next-Repairs none = unrepaired _ (λ h. cc)
    run_next-Repairs (some bundle) =
        bind-Ensures Repairs (persist_next service decision decision.next_execution) _ (λ _.
          bind-Ensures Repairs
            (run_claimed (service.runner bundle) service.owner_id bundle service.baseline_ref) _
            after_run-Repairs)

    run_decision-Repairs : Ensures Repairs (run_decision service decision)
    run_decision-Repairs =
        if-Ensures Repairs (is_repair decision.action) _ _
          (λ _. run_next-Repairs decision.next_package) (λ _. unrepaired _ (λ h. cc))

  after_existing-Repairs :
      (failed : Execution) (existing : Option Execution)
      → Ensures Repairs (after_existing service failed existing)
  after_existing-Repairs failed none =
      bind-Ensures Repairs
        (plan service.policy service.blocking service.manifest_tasks
          (service.worktree_path failed.task_id) failed.id)
        _ run_decision-Repairs
  after_existing-Repairs failed (some existing) =
      bind-Ensures Repairs (Tasks.require failed.task_id) _ (λ task.
        bind-Ensures Repairs (gets (read_only_decision service.policy failed task)) _ (λ decision.
          unrepaired decision
            (record (repair_result repair_already_exists decision) { existing = some existing.id })
            (λ h. cc)))

  -- A repair that answers REPAIRED executed a package, whose finalization then answered COMPLETED
  -- or IDEMPOTENT_COMPLETED; after COMPLETED, the task of the package is passed and its execution
  -- succeeded.
  pub repair_once-IsRepaired :
      (failed_execution_id : ℕ) (s : Session) {r : RepairExecutionResult}
      → (repair_once service failed_execution_id s).0 ≡ return r
      → r.status ≡ repaired
      → IsRepaired r (repair_once service failed_execution_id s).1
  unfolding repair_once Ensures
  repair_once-IsRepaired failed_execution_id s {r} =
      bind-Ensures Repairs (Executions.require failed_execution_id) _
        (λ failed.
          bind-Ensures Repairs (gets (λ t. existing_repair_attempt failed t.db)) _
            (after_existing-Repairs failed))
        s r

  -- Where a repair exists, the service answers it and starts nothing.
  pub repair_once-existing :
      (failed_execution_id : ℕ) (s : Session) (failed existing : Execution) (task : Task)
      → Executions.get failed_execution_id s.db ≡ some failed
      → existing_repair_attempt failed s.db ≡ some existing
      → Tasks.get failed.task_id s.db ≡ some task
      → repair_once service failed_execution_id s ≡ (
        return
            (record (repair_result repair_already_exists
              (read_only_decision service.policy failed task s)) { existing = some existing.id }),
        s,
      )
  unfolding repair_once Executions.require Tasks.require
  repair_once-existing failed_execution_id s failed existing task e x t = ground (arith, e, x, t)

module _ (service : RepairService) (calls_back : Keeps service.finalizer.after_verification) where
  module _ (decision : RepairDecision) where
    run_failed-Keeps : (run : ClaimedExecutionResult) → Keeps (run_failed service decision run)
    run_failed-Keeps run s h = h

    finish_run-Keeps :
        (run : ClaimedExecutionResult) (o : Option ExecutionPackage)
        → Keeps (finish_run service decision run o)
    finish_run-Keeps run none s = run_failed-Keeps run s
    finish_run-Keeps run (some bundle) s =
        bind-Keeps (finalize service.finalizer (service.worktree bundle) service.owner_id bundle) _
          (finalize-Keeps service.finalizer (service.worktree bundle) service.owner_id calls_back
            bundle)
          (λ ended. if-Keeps (is_completed ended.status) _ _ (λ _ h. h) (λ _ h. h)) s

    after_run-Keeps : (run : ClaimedExecutionResult) → Keeps (after_run service decision run)
    after_run-Keeps run =
        if-Keeps (is_executed run.status) _ _ (finish_run-Keeps run run.execution_package)
          (run_failed-Keeps run)

    persist_next-Keeps : (o : Option Execution) → Keeps (persist_next service decision o)
    persist_next-Keeps none s = λ h. h
    persist_next-Keeps (some execution) s =
        bind-Keeps (persist_execution_ownership decision.task.id execution.id service.owner_id none)
          _ (persist-Keeps decision.task.id execution.id service.owner_id none) (λ _ _ h. h) s

    run_next-Keeps : (o : Option ExecutionPackage) → Keeps (run_next service decision o)
    unfolding run_package
    run_next-Keeps none s = λ h. h
    run_next-Keeps (some bundle) s =
        bind-Keeps (persist_next service decision decision.next_execution) _
          (persist_next-Keeps decision.next_execution)
          (λ _.
            bind-Keeps
              (run_claimed (service.runner bundle) service.owner_id bundle service.baseline_ref) _
              (run_claimed-Keeps (service.runner bundle) service.owner_id bundle
                service.baseline_ref)
              after_run-Keeps)
          s

  after_existing-Keeps :
      (failed : Execution) (existing : Option Execution)
      → Keeps (after_existing service failed existing)
  after_existing-Keeps failed none s =
      bind-Keeps
        (plan service.policy service.blocking service.manifest_tasks
          (service.worktree_path failed.task_id) failed.id)
        _
        (plan-Keeps service.policy service.blocking service.manifest_tasks
          (service.worktree_path failed.task_id) failed.id)
        (λ decision.
          if-Keeps (is_repair decision.action) _ _ (run_next-Keeps decision decision.next_package)
            (λ _ h. h))
        s
  after_existing-Keeps failed (some existing) s =
      bind-Keeps (Tasks.require failed.task_id) _ (require_task-Keeps failed.task_id) (λ _ _ h. h) s

  pub repair_once-Keeps :
      (failed_execution_id : ℕ) → Keeps (repair_once service failed_execution_id)
  unfolding repair_once
  repair_once-Keeps failed_execution_id =
      bind-Keeps (Executions.require failed_execution_id) _
        (require_execution-Keeps failed_execution_id)
        (λ failed s. after_existing-Keeps failed (existing_repair_attempt failed s.db) s)
