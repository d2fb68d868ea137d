-- ===== src/Scheduler/Claiming/Outcome.antt =====
-- The claims that are granted, and what they leave.
use mathlib.Core.Option
use ai_ent.Prelude.{
  ℕ, ◌+◌, ◌<◌, ◌≡◌, refl, ap, true, none, some, List, [], arith, count, find-append,
  find-modify_self, count-append_one, first-append_one,
}
use ai_ent.Persistence.Models.{Task, TaskStatus, TaskLease, Execution, ExecutionStatus}
use ai_ent.Persistence.Session.{Db, Session, return, now}
use ai_ent.Persistence.Tasks
use ai_ent.Persistence.Executions
use ai_ent.Persistence.Leases
use ai_ent.Persistence.Invariant.{WellFormed}
use ai_ent.Scheduler.Claiming.{
  ClaimRequest, ClaimResult, claimed, already_leased, refused, grant, claim_task, has_valid_lease,
}
use ai_ent.Scheduler.Claiming.Grants.{Granted, grant-Granted}
use ai_ent.Scheduler.Claiming.Claims.{
  cleared, cleared-count, cleared-same, is_valid_at, CanClaim, claim_task-CanClaim,
  claim_task-eq-grant,
}

-- What a claim leaves: a valid lease of the owner, which is the task's only active one, the task
-- running, and a new running execution with the next attempt.
pub record Claimed (r : ClaimRequest) (s s' : Session) (execution : Execution) : Type 0 where
  pub owned : has_valid_lease r.task_id r.owner_id s' ≡ true
  pub single : count (Leases.holds r.task_id) s'.db.leases ≡ 1
  pub running :
      Tasks.get r.task_id s'.db
      ≡ Option.map (Tasks.with_status TaskStatus.running) (Tasks.get r.task_id s.db)
  pub stored : Executions.get execution.id s'.db ≡ some execution
  pub fresh : Executions.get execution.id s.db ≡ none
  pub started : execution.status ≡ ExecutionStatus.running
  pub attempt : execution.attempt ≡ Executions.next_attempt r.task_id s.db

-- `origin` is the session before the expired lease was marked.
module _ (r : ClaimRequest) (origin s s' : Session) (execution : Execution)
    (lease : TaskLease) where
  Granted-Claimed :
      s.db.executions ≡ origin.db.executions
      → s.db.tasks ≡ origin.db.tasks
      → count (Leases.holds r.task_id) s.db.leases ≡ 0
      → Granted r s s' execution lease
      → Claimed r origin s' execution
  unfolding has_valid_lease Leases.active_for_task Executions.next_attempt Executions.latest_attempt
  Granted-Claimed rows tasks free g = record {
    owned = ground (
      arith,
      g,
      held,
      first-append_one (Leases.holds r.task_id) Leases.acquired_last s.db.leases lease free held,
    );
    single = ground (arith, g, held, count-append_one (Leases.holds r.task_id) s.db.leases lease);
    running =
        rw (g.tasks, tasks)
          (find-modify_self Tasks.task_key (Tasks.with_status TaskStatus.running) (λ t. refl)
            r.task_id origin.db.tasks);
    stored =
        ground
          (arith, g, find-append Executions.execution_key execution.id s.db.executions execution);
    fresh = rw rows at g.fresh;
    started = g.execution_running;
    attempt = ground (arith, g.attempt, ap (Executions.max_attempt r.task_id) rows);
  }
    where
      held : Leases.holds r.task_id lease ≡ true
      held = ground (arith, g)

-- On well-formed tables, a claim that answers CLAIMED met every condition of a claim; it leaves
-- the task running with a new running execution, whose attempt is the next one, and a valid lease
-- of the owner, which is the only active lease of the task.
pub claim_task-Claimed :
    (blocking : Task → Db → List ℕ) (r : ClaimRequest) (s : Session) {result : ClaimResult}
    → WellFormed s.db
    → (claim_task blocking r s).0 ≡ return result
    → result.status ≡ claimed
    → (task : Task) × (execution : Execution) × CanClaim blocking r s task
      × (result.execution ≡ some execution)
      × Claimed r s (claim_task blocking r s).1 execution
claim_task-Claimed blocking r s {result} w h k =
    let (task, can) = claim_task-CanClaim blocking r s {result = result} h k in
    let e = claim_task-eq-grant blocking r s task can in
    let (execution, lease, hl, he, g) =
      grant-Granted r (cleared r.task_id s) {result = result} (rw e at h) in
    let (rows, tasks, _) = cleared-same r.task_id s in
    (
      task,
      execution,
      can,
      he,
      rw e (
          Granted-Claimed r s (cleared r.task_id s) (grant r (cleared r.task_id s)).1 execution
            lease rows tasks (cleared-count r.task_id s w) g),
    )

-- A claim on a task that is held.
claim_held :
    (blocking : Task → Db → List ℕ) (r : ClaimRequest) (s : Session) {task : Task}
    → Tasks.get r.task_id s.db ≡ some task
    → is_valid_at (now s) (Leases.active_for_task r.task_id s.db) ≡ true
    → claim_task blocking r s ≡ (return (refused r already_leased []), s)
unfolding claim_task
claim_held blocking r s {task} h v = ground (arith, h, v)

-- The lease that a claim leaves.
claim_task-lease :
    (blocking : Task → Db → List ℕ) (r : ClaimRequest) (s : Session) {result : ClaimResult}
    → WellFormed s.db
    → (claim_task blocking r s).0 ≡ return result
    → result.status ≡ claimed
    → (lease : TaskLease) × (Leases.active_for_task r.task_id (claim_task blocking r s).1.db
        ≡ some lease)
      × (lease.expires_at ≡ now s + r.lease_duration)
unfolding Leases.active_for_task
claim_task-lease blocking r s {result} w h k =
    let (task, can) = claim_task-CanClaim blocking r s {result = result} h k in
    let e = claim_task-eq-grant blocking r s task can in
    let (execution, lease, hl, he, g) =
      grant-Granted r (cleared r.task_id s) {result = result} (rw e at h) in
    let (rows, tasks, time) = cleared-same r.task_id s in
    let held : Leases.holds r.task_id lease ≡ true = ground (arith, g) in
    (
      lease,
      rw (e, g.leases)
          (first-append_one (Leases.holds r.task_id) Leases.acquired_last
            (cleared r.task_id s).db.leases lease (cleared-count r.task_id s w) held),
      ground (arith, g.lease_expiry, time),
    )

-- After a claim that answers CLAIMED, on well-formed tables, every other claim of the task answers
-- ALREADY_LEASED and changes nothing, in any later session that sees the same tables before the
-- lease's time has run out.
pub claim_task-exclusive :
    (blocking : Task → Db → List ℕ) (r : ClaimRequest) (s : Session) {result : ClaimResult}
    (other_blocking : Task → Db → List ℕ) (other : ClaimRequest) (later : Session)
    → WellFormed s.db
    → (claim_task blocking r s).0 ≡ return result
    → result.status ≡ claimed
    → other.task_id ≡ r.task_id
    → later.db ≡ (claim_task blocking r s).1.db
    → now later < now s + r.lease_duration
    → claim_task other_blocking other later ≡ (return (refused other already_leased []), later)
claim_task-exclusive blocking r s {result} other_blocking other later w h k same rows early =
    let (task, execution, can, _, c) = claim_task-Claimed blocking r s {result = result} w h k in
    let (lease, found, expiry) = claim_task-lease blocking r s {result = result} w h k in
    claim_held other_blocking other later {task = Tasks.with_status TaskStatus.running task}
      (rw (same, rows, c.running, can.stored) refl)
      (rw (same, rows, found) (ground (arith, expiry, early)))
