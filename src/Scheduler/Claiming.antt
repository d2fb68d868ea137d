-- ===== src/Scheduler/Claiming.antt =====
-- src/ai_ent/scheduler/claiming.py: TaskClaimingService. The baseline service that it asks for
-- blocking dependencies is an argument, as in the constructor. A result holds the rows as they are
-- when it is returned; `reason` holds the blocking dependencies that the text lists.
mod Grants
pub mod Claims
pub mod Outcome
pub mod Progress
pub mod Soundness
pub mod Leasing
pub mod Held
use ai_ent.Prelude.{
  ℕ, ◌+◌, ◌≡◌, ◌&&◌, ◌||◌, not, Bool, true, false, String, Option, none, some, List, [], ◌∷◌, ◌==◌,
  ltb, leb, if◌then◌else◌,
}
use ai_ent.Persistence.Models.{
  Task, TaskStatus, Execution, ExecutionStatus, TaskLease, LeaseStatus, released, completed,
  is_pending, is_implementation, is_active,
}
use ai_ent.Persistence.Session.{
  Db, Session, Action, pure, gets, change, draw_uuid, now, flush_checked, integrity_error, ◌>>=◌,
  ◌>>◌,
}
use ai_ent.Persistence.Tasks
use ai_ent.Persistence.Executions
use ai_ent.Persistence.Leases

pub data ClaimStatus : Type 0 where
  claimed not_found not_claimable already_leased : ClaimStatus

pub data LeaseActionStatus : Type 0 where
  updated not_found wrong_owner expired not_active : LeaseActionStatus

pub record ClaimResult : Type 0 where
  pub status : ClaimStatus
  pub task_id : ℕ
  pub owner_id : ℕ
  pub lease : Option TaskLease
  pub execution : Option Execution
  pub reason : List ℕ

pub record LeaseActionResult : Type 0 where
  pub status : LeaseActionStatus
  pub lease : Option TaskLease

abbrev pub is_claimed : ClaimStatus → Bool
is_claimed claimed = true
is_claimed _ = false

abbrev pub is_updated : LeaseActionStatus → Bool
is_updated updated = true
is_updated _ = false

-- `lease.status = "expired"`
abbrev pub expire : TaskLease → TaskLease
expire lease = record lease { status = LeaseStatus.expired }

-- `id or f"…-{uuid4()}"`
abbrev pub chosen : Option ℕ → Action ℕ
chosen none = draw_uuid
chosen (some id) = pure id

abbrev pub claimable : Task → Bool
claimable task =
    is_pending task.status && task.schedulable && is_implementation task.execution_class

pub record ClaimRequest : Type 0 where
  pub task_id : ℕ
  pub owner_id : ℕ
  pub lease_duration : ℕ
  pub executor_type : String
  pub lease_id : Option ℕ
  pub execution_id : Option ℕ

abbrev pub refused : ClaimRequest → ClaimStatus → List ℕ → ClaimResult
refused r status reason = record {
  status = status;
  task_id = r.task_id;
  owner_id = r.owner_id;
  lease = none;
  execution = none;
  reason = reason;
}

module _ (r : ClaimRequest) where
  -- The lease and the task's new status.
  unfoldable pub grant_lease : Execution → ℕ → Action ClaimResult
  grant_lease execution lease_id = do
    time ← gets now
    lease ← Leases.create lease_id r.task_id execution.id r.owner_id time (time + r.lease_duration)
    change (Tasks.set_status r.task_id TaskStatus.running)
    pure (record {
      status = claimed;
      task_id = r.task_id;
      owner_id = r.owner_id;
      lease = some lease;
      execution = some execution;
      reason = [];
    })

  unfoldable pub grant_execution : ℕ → Action ClaimResult
  grant_execution execution_id = do
    time ← gets now
    execution ←
        Executions.create execution_id r.task_id r.executor_type ExecutionStatus.running (some time)
    lease_id ← chosen r.lease_id
    grant_lease execution lease_id

  unfoldable pub grant : Action ClaimResult
  grant = do execution_id ← chosen r.execution_id; grant_execution execution_id

module _ (blocking : Task → Db → List ℕ) (r : ClaimRequest) where
  abbrev grant_unblocked : List ℕ → Action ClaimResult
  grant_unblocked [] = grant r
  grant_unblocked (b ∷ bs) = pure (refused r not_claimable (b ∷ bs))

  unfoldable pub claim_free : Task → Action ClaimResult
  claim_free task =
      if claimable task
      then (gets (λ s. blocking task s.db) >>= grant_unblocked)
      else pure (refused r not_claimable [])

  abbrev claim_leased : Task → Option TaskLease → Action ClaimResult
  claim_leased task none = claim_free task
  claim_leased task (some lease) = do
    time ← gets now
    if ltb time lease.expires_at
        then pure (refused r already_leased [])
        else (change (Leases.set_lease lease.id expire) >> claim_free task)

  abbrev claim_row : Option Task → Action ClaimResult
  claim_row none = pure (refused r ClaimStatus.not_found [])
  claim_row (some task) = do
    lease ← gets (λ s. Leases.active_for_task r.task_id s.db)
    claim_leased task lease

  unfoldable pub claim_task : Action ClaimResult
  unfolding claim_free
  claim_task = do
    locked ← gets (λ s. s.locked r.task_id)
    task ← gets (λ s. Tasks.get r.task_id s.db)
    if locked then pure (refused r already_leased []) else claim_row task

abbrev answer : LeaseActionStatus → Option TaskLease → LeaseActionResult
answer status lease = record { status = status; lease = lease }

-- The checks that `renew` and `_finish` share; `apply` is what they then do to the lease.
abbrev act_on :
    (owner_id : ℕ) (apply : ℕ → TaskLease → TaskLease) (allowed : ℕ → TaskLease → Bool)
    → Option TaskLease
    → Action LeaseActionResult
act_on owner_id apply allowed none = pure (answer LeaseActionStatus.not_found none)
act_on owner_id apply allowed (some lease) = do
  time ← gets now
  if not (lease.owner_id == owner_id)
      then pure (answer wrong_owner (some lease))
      else if not (is_active lease.status)
      then pure (answer not_active (some lease))
      else if leb lease.expires_at time
      then (do
        change (Leases.set_lease lease.id expire)
        pure (answer LeaseActionStatus.expired (some (expire lease))))
      else do
        flush_checked (allowed time lease) integrity_error (Leases.set_lease lease.id (apply time))
        pure (answer updated (some (apply time lease)))

abbrev pub extend : ℕ → ℕ → TaskLease → TaskLease
extend lease_duration time lease = record lease {
  renewed_at = time;
  expires_at = time + lease_duration;
}

-- The constraint `expires_at > acquired_at` is the only one that a lease's new fields can violate.
abbrev stays_after : ℕ → ℕ → TaskLease → Bool
stays_after lease_duration time lease = ltb lease.acquired_at (time + lease_duration)

abbrev unchecked : ℕ → TaskLease → Bool
unchecked time lease = true

unfoldable pub renew : (lease_id owner_id lease_duration : ℕ) → Action LeaseActionResult
renew lease_id owner_id lease_duration = do
  lease ← gets (λ s. Leases.get lease_id s.db)
  act_on owner_id (extend lease_duration) (stays_after lease_duration) lease

abbrev pub mark_released : ℕ → TaskLease → TaskLease
mark_released time lease = record lease { status = released; released_at = some time }

abbrev pub mark_completed : ℕ → TaskLease → TaskLease
mark_completed time lease = record lease { status = completed; completed_at = some time }

-- `_finish` with the status "released", and with "completed".
unfoldable pub release : (lease_id owner_id : ℕ) → Action LeaseActionResult
release lease_id owner_id = do
  lease ← gets (λ s. Leases.get lease_id s.db)
  act_on owner_id mark_released unchecked lease

unfoldable pub complete : (lease_id owner_id : ℕ) → Action LeaseActionResult
complete lease_id owner_id = do
  lease ← gets (λ s. Leases.get lease_id s.db)
  act_on owner_id mark_completed unchecked lease

abbrev owned_until : ℕ → ℕ → Option TaskLease → Bool
owned_until owner_id time none = false
owned_until owner_id time (some lease) = lease.owner_id == owner_id && ltb time lease.expires_at

unfoldable pub has_valid_lease : (task_id owner_id : ℕ) → Session → Bool
has_valid_lease task_id owner_id s =
    owned_until owner_id (now s) (Leases.active_for_task task_id s.db)
