-- ===== src/Scheduler/Repair/Naming.antt =====
-- src/ai_ent/scheduler/repair.py: a repair that was finalized names its next execution.
use ai_ent.Prelude.{
  ℕ, ◌≡◌, refl, true, if◌then◌else◌, String, Option, none, some, List, arith, is_some, Bool-cases,
  inl, inr,
}
use ai_ent.Persistence.Models.{Task, TaskStatus, Execution}
use ai_ent.Persistence.Session.{Db, Session, gets, pure, change}
use ai_ent.Persistence.Tasks
use ai_ent.Persistence.Executions
use ai_ent.Persistence.Leases
use ai_ent.Persistence.Ensures.{
  Ensures, Ensures-at, pure-Ensures, throw-Ensures, if-Ensures, then-Ensures, bind-Ensures,
  gets-Ensures,
}
use ai_ent.Bootstrap.Models.{BootstrapTask, ExecutionPackage}
use ai_ent.Scheduler.Claiming.{ClaimResult, claim_task, is_claimed}
use ai_ent.Scheduler.Execution.{ClaimedExecutionResult, run_claimed}
use ai_ent.Scheduler.Finalization.{ExecutionFinalizationResult, is_completed}
use ai_ent.Scheduler.Finalization.Steps.{finalize}
use ai_ent.Scheduler.Repair.{
  RepairPolicy, RepairDecision, repair_request, read_only_decision, start_repair, plan,
  release_active, after_claim, with_package, is_repair,
}
use ai_ent.Scheduler.Repair.Service.{
  RepairService, RepairExecutionResult, is_executed, existing_repair_attempt, finish_run,
  after_finalization, run_failed, persist_next, run_package, run_next, run_decision, after_existing,
  repair_once, repair_result, repair_already_exists,
}

-- A decision with a package has an execution, and so has the decision of a finalized repair.
abbrev Planned : RepairDecision → Session → Type 0
Planned d s = is_some d.next_package ≡ true → is_some d.next_execution ≡ true

abbrev pub Named : RepairExecutionResult → Session → Type 0
Named r s = is_some r.finalization ≡ true → is_some r.decision.next_execution ≡ true

module _ (policy : RepairPolicy) (blocking : Task → Db → List ℕ)
    (manifest : ℕ → Option BootstrapTask) (path : String) where
  with_package-Planned :
      (d : RepairDecision) (e : Execution) (task : Option BootstrapTask)
      → Ensures Planned (with_package policy blocking manifest path d e task)
  with_package-Planned d e none = throw-Ensures _ _
  with_package-Planned d e (some task) = pure-Ensures _ _ (λ s h. refl)

  after_claim-Planned :
      (d : RepairDecision) (granted : ClaimResult) (e : Option Execution)
      → (is_some d.next_package ≡ true → is_some d.next_execution ≡ true)
      → Ensures Planned (after_claim policy blocking manifest path d granted e)
  after_claim-Planned d granted none k = pure-Ensures _ _ (λ s. k)
  after_claim-Planned d granted (some e) k =
      if-Ensures _ (is_claimed granted.status) _ _
        (λ _. with_package-Planned d e (manifest d.task.id)) (λ _. pure-Ensures _ _ (λ s. k))

  start_repair-Planned :
      (d : RepairDecision)
      → (is_some d.next_package ≡ true → is_some d.next_execution ≡ true)
      → Ensures Planned (start_repair policy blocking manifest path d)
  unfolding start_repair
  start_repair-Planned d k =
      bind-Ensures _ (gets (λ s. Leases.active_for_task d.task.id s.db)) _ (λ lease.
        bind-Ensures _ (release_active policy blocking manifest path lease) _ (λ _.
          bind-Ensures _ (change (Tasks.set_status d.task.id TaskStatus.pending)) _ (λ _.
            bind-Ensures _ (claim_task blocking (repair_request policy d.task.id)) _
              (λ granted. after_claim-Planned d granted granted.execution k))))

  read_only-Planned :
      (execution : Execution) (task : Task) (s : Session)
      → is_some (read_only_decision policy execution task s).next_package ≡ true
      → is_some (read_only_decision policy execution task s).next_execution ≡ true
  unfolding read_only_decision
  read_only-Planned execution task s h = ground (arith, h)

  decided-Planned :
      (d : RepairDecision)
      → (is_some d.next_package ≡ true → is_some d.next_execution ≡ true)
      → Ensures Planned
          (if is_repair d.action then start_repair policy blocking manifest path d else pure d)
  decided-Planned d k =
      if-Ensures _ (is_repair d.action) _ _ (λ _. start_repair-Planned d k)
        (λ _. pure-Ensures _ d (λ s. k))

  plan-Planned :
      (execution_id : ℕ) → Ensures Planned (plan policy blocking manifest path execution_id)
  unfolding plan
  plan-Planned execution_id = bind-Ensures _ (Executions.require execution_id) _ (λ execution.
      bind-Ensures _ (Tasks.require execution.task_id) _ (λ task.
        gets-Ensures Planned (read_only_decision policy execution task)
          (λ d. if is_repair d.action then start_repair policy blocking manifest path d else pure d)
          (λ s.
            decided-Planned (read_only_decision policy execution task s)
              (read_only-Planned execution task s))))

module _ (service : RepairService) where
  module _ (d : RepairDecision) where
    run_failed-Named : (run : ClaimedExecutionResult) → Ensures Named (run_failed service d run)
    unfolding Ensures
    run_failed-Named run s a h e = absurd (ground (arith, h, e))

    after_finalization-Named :
        (run : ClaimedExecutionResult) (ended : ExecutionFinalizationResult)
        → is_some d.next_execution ≡ true
        → Ensures Named (after_finalization service d run ended)
    unfolding Ensures
    after_finalization-Named run ended k s a h e = elim (Bool-cases (is_completed ended.status)) [
      | inl c ↦ ground (arith, c, h, k)
      | inr c ↦ ground (arith, c, h, k)
    ]

    finish_run-Named :
        (run : ClaimedExecutionResult) (o : Option ExecutionPackage)
        → is_some d.next_execution ≡ true
        → Ensures Named (finish_run service d run o)
    finish_run-Named run none k = run_failed-Named run
    finish_run-Named run (some bundle) k =
        bind-Ensures _
          (finalize service.finalizer (service.worktree bundle) service.owner_id bundle) _
          (λ ended. after_finalization-Named run ended k)

    run_next-Named :
        (o : Option ExecutionPackage)
        → (is_some o ≡ true → is_some d.next_execution ≡ true)
        → Ensures Named (run_next service d o)
    unfolding run_package
    run_next-Named none k = pure-Ensures Named _ (λ s h. absurd (ground (arith, h)))
    run_next-Named (some bundle) k =
        bind-Ensures _ (persist_next service d d.next_execution) _ (λ _.
          bind-Ensures _
            (run_claimed (service.runner bundle) service.owner_id bundle service.baseline_ref) _
            (λ run.
              if-Ensures _ (is_executed run.status) _ _
                (λ _. finish_run-Named run run.execution_package (k refl))
                (λ _. run_failed-Named run)))

    run_decision-Named :
        (is_some d.next_package ≡ true → is_some d.next_execution ≡ true)
        → Ensures Named (run_decision service d)
    run_decision-Named k =
        if-Ensures _ (is_repair d.action) _ _ (λ _. run_next-Named d.next_package k)
          (λ _. pure-Ensures Named _ (λ s h. absurd (ground (arith, h))))

  after_existing-Named :
      (failed : Execution) (existing : Option Execution)
      → Ensures Named (after_existing service failed existing)
  after_existing-Named failed (some existing) =
      bind-Ensures _ (Tasks.require failed.task_id) _ (λ task.
        bind-Ensures _ (gets (read_only_decision service.policy failed task)) _ (λ decision.
          pure-Ensures Named
            (record (repair_result repair_already_exists decision) { existing = some existing.id })
            (λ s h. absurd (ground (arith, h)))))
  after_existing-Named failed none =
      then-Ensures _ Planned
        (plan service.policy service.blocking service.manifest_tasks
          (service.worktree_path failed.task_id) failed.id)
        _
        (plan-Planned service.policy service.blocking service.manifest_tasks
          (service.worktree_path failed.task_id) failed.id)
        (λ d s k. Ensures-at Named _ (run_decision-Named d k) s)

  pub repair_once-Named :
      (failed_execution_id : ℕ) → Ensures Named (repair_once service failed_execution_id)
  unfolding repair_once
  repair_once-Named failed_execution_id =
      bind-Ensures _ (Executions.require failed_execution_id) _ (λ failed.
        bind-Ensures _ (gets (λ s. existing_repair_attempt failed s.db)) _
          (after_existing-Named failed))
