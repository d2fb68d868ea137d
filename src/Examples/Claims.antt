-- ===== src/Examples/Claims.antt =====
-- Claims and actions on a lease, on the sample tables.
use ai_ent.Prelude.{
  ℕ, ◌+◌, ◌<◌, ◌≡◌, ◌≢◌, refl, Bool, true, false, Option, none, some, List, [], ◌∷◌, arith,
}
use ai_ent.Persistence.Models.{Task, TaskStatus, Execution, TaskLease, active}
use ai_ent.Persistence.Session.{return, now}
use ai_ent.Persistence.Tasks
use ai_ent.Persistence.Executions
use ai_ent.Persistence.Leases
use ai_ent.Scheduler.Claiming.{
  ClaimResult, LeaseActionResult, claimed, already_leased, updated, claim_task, refused,
  mark_released, release,
}
use ai_ent.Scheduler.Claiming.Claims.{CanClaim, is_valid_at}
use ai_ent.Scheduler.Claiming.Outcome.{Claimed, claim_task-Claimed, claim_task-exclusive}
use ai_ent.Scheduler.Claiming.Held.{AllRun, claim_task-AllRun}
use ai_ent.Scheduler.Claiming.Progress.{IsFresh, claim_task-claimed}
use ai_ent.Scheduler.Claiming.Leasing.{releasing, perform, IsFreed, perform-updated, finish-IsFreed}
use ai_ent.Examples.Data.{
  a_task, idle, no_blockers, request, its_lease, granted, held, idle-IsSound, held-WellFormed,
}

is_granted : (claim_task no_blockers request idle).0 ≡ return granted
unfolding claim_task ai_ent.Prelude.find Leases.active_for_task ai_ent.Prelude.first
    ai_ent.Scheduler.Claiming.grant ai_ent.Scheduler.Claiming.grant_execution Executions.create
    Executions.admissible ai_ent.Prelude.count Executions.next_attempt
    ai_ent.Scheduler.Claiming.grant_lease Leases.create Leases.admissible
is_granted = refl

held_rows_granted : held.db ≡ (claim_task no_blockers request idle).1.db
unfolding claim_task ai_ent.Prelude.find Leases.active_for_task ai_ent.Prelude.first
    ai_ent.Scheduler.Claiming.grant ai_ent.Scheduler.Claiming.grant_execution Executions.create
    Executions.admissible ai_ent.Prelude.count Executions.next_attempt
    ai_ent.Scheduler.Claiming.grant_lease Leases.create Leases.admissible ai_ent.Prelude.modify
held_rows_granted = refl

claim_task-exclusive_example :
    claim_task no_blockers (record request { owner_id = 8 }) held
    ≡ (return (refused (record request { owner_id = 8 }) already_leased []), held)
claim_task-exclusive_example =
    claim_task-exclusive no_blockers request idle no_blockers (record request { owner_id = 8 }) held
      idle-IsSound.current is_granted refl refl held_rows_granted (omega arith)

is_held : (claim_task no_blockers request idle).1 ≡ held
unfolding claim_task ai_ent.Prelude.find Leases.active_for_task ai_ent.Prelude.first
    ai_ent.Scheduler.Claiming.grant ai_ent.Scheduler.Claiming.grant_execution Executions.create
    Executions.admissible ai_ent.Prelude.count Executions.next_attempt
    ai_ent.Scheduler.Claiming.grant_lease Leases.create Leases.admissible ai_ent.Prelude.modify
is_held = refl

claim_task-Claimed_example :
    (task : Task) × (execution : Execution) × CanClaim no_blockers request idle task
    × (granted.execution ≡ some execution)
    × Claimed request idle (claim_task no_blockers request idle).1 execution
claim_task-Claimed_example =
    claim_task-Claimed no_blockers request idle idle-IsSound.current is_granted refl

held_task : Tasks.get 1 held.db ≡ some (record a_task { status = TaskStatus.running })
unfolding ai_ent.Prelude.find
held_task = refl

held_lease : is_valid_at (now held) (Leases.active_for_task 1 held.db) ≡ true
unfolding Leases.active_for_task ai_ent.Prelude.first
held_lease = refl

pub idle-CanClaim : CanClaim no_blockers request idle a_task
unfolding ai_ent.Prelude.find Leases.active_for_task ai_ent.Prelude.first
idle-CanClaim = record {
  unlocked = refl;
  stored = refl;
  ready = refl;
  free = refl;
  unblocked = refl;
}

pub idle-IsFresh : IsFresh request idle
unfolding ai_ent.Prelude.find
idle-IsFresh = record { execution = λ n. refl; lease = λ n. refl; lasting = omega arith }

claim_task-claimed_example :
    (result : ClaimResult) × ((claim_task no_blockers request idle).0 ≡ return result)
    × (result.status ≡ claimed)
claim_task-claimed_example =
    claim_task-claimed no_blockers request idle a_task idle-IsSound.current idle-CanClaim
      idle-IsFresh

abbrev released_answer : LeaseActionResult
released_answer = record { status = updated; lease = some (mark_released 100 its_lease) }

held_released : (perform releasing 30 9 held).0 ≡ return released_answer
unfolding release ai_ent.Prelude.find
held_released = refl

perform-updated_example :
    (lease : TaskLease) × (Leases.get 30 held.db ≡ some lease)
    × (lease.owner_id ≡ 9)
    × (lease.status ≡ active)
    × (now held < lease.expires_at)
perform-updated_example = perform-updated releasing 30 9 held held_released refl

stored_lease : Leases.get 30 held.db ≡ some its_lease
unfolding ai_ent.Prelude.find
stored_lease = refl

finish-IsFreed_example : IsFreed 1 (perform releasing 30 9 held).1
finish-IsFreed_example =
    finish-IsFreed releasing 30 9 held held-WellFormed refl held_released refl stored_lease

idle-AllRun : AllRun idle
idle-AllRun = record { current = tt; committed = tt }

claim_task-AllRun_example : AllRun (claim_task no_blockers request idle).1
claim_task-AllRun_example = claim_task-AllRun no_blockers request idle idle-AllRun
