-- ===== src/Scheduler/Repair/Planning.antt =====
-- A plan, with the repair that it starts, keeps the tables well formed.
use ai_ent.Prelude.{ℕ, String, Option, none, some, List}
use ai_ent.Persistence.Models.{Task, TaskStatus, Execution}
use ai_ent.Persistence.Session.{Db}
use ai_ent.Persistence.Tasks
use ai_ent.Persistence.Executions
use ai_ent.Persistence.Leases
use ai_ent.Persistence.Sound.{
  Keeps, bind-Keeps, if-Keeps, set_status-Keeps, require_task-Keeps, require_execution-Keeps,
}
use ai_ent.Bootstrap.Models.{BootstrapTask}
use ai_ent.Scheduler.Claiming.{ClaimResult, claim_task, is_claimed}
use ai_ent.Scheduler.Claiming.Soundness.{claim_task-Keeps}
use ai_ent.Scheduler.Repair.{
  RepairPolicy, RepairDecision, repair_request, start_repair, plan, release_active, after_claim,
  with_package, is_repair, read_only_decision,
}
use ai_ent.Scheduler.Repair.Plans.{release_active-Keeps}

module _ (policy : RepairPolicy) (blocking : Task → Db → List ℕ)
    (manifest : ℕ → Option BootstrapTask) (path : String) where
  with_package-Keeps :
      (decision : RepairDecision) (execution : Execution) (task : Option BootstrapTask)
      → Keeps (with_package policy blocking manifest path decision execution task)
  with_package-Keeps decision execution none s h = h
  with_package-Keeps decision execution (some task) s h = h

  after_claim-Keeps :
      (decision : RepairDecision) (granted : ClaimResult) (execution : Option Execution)
      → Keeps (after_claim policy blocking manifest path decision granted execution)
  after_claim-Keeps decision granted none s = λ h. h
  after_claim-Keeps decision granted (some execution) s =
      if-Keeps (is_claimed granted.status) _ _
        (with_package-Keeps decision execution (manifest decision.task.id)) (λ _ h. h) s

  start_repair-Keeps :
      (decision : RepairDecision) → Keeps (start_repair policy blocking manifest path decision)
  unfolding start_repair
  start_repair-Keeps decision s =
      bind-Keeps
        (release_active policy blocking manifest path
          (Leases.active_for_task decision.task.id s.db))
        _
        (release_active-Keeps policy blocking manifest path
          (Leases.active_for_task decision.task.id s.db))
        (λ _ t h.
          bind-Keeps (claim_task blocking (repair_request policy decision.task.id)) _
            (claim_task-Keeps blocking (repair_request policy decision.task.id))
            (λ granted. after_claim-Keeps decision granted granted.execution) _
            (set_status-Keeps decision.task.id TaskStatus.pending t h))
        s

  pub plan-Keeps : (execution_id : ℕ) → Keeps (plan policy blocking manifest path execution_id)
  unfolding plan
  plan-Keeps execution_id =
      bind-Keeps (Executions.require execution_id) _ (require_execution-Keeps execution_id)
        (λ execution.
          bind-Keeps (Tasks.require execution.task_id) _ (require_task-Keeps execution.task_id)
            (λ task s.
              if-Keeps (is_repair (read_only_decision policy execution task s).action) _ _
                (start_repair-Keeps (read_only_decision policy execution task s)) (λ _ h. h) s))
