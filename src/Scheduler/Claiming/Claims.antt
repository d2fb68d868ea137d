-- ===== src/Scheduler/Claiming/Claims.antt =====
-- What a claim does to the task, its lease and its executions.
use ai_ent.Prelude.{
  ℕ, ◌≡◌, refl, Bool, true, false, Option, none, some, List, [], arith, ltb, count, count-modify-lt,
  first-some, first-none, first, Option-cases, inl, inr,
}
use ai_ent.Persistence.Models.{Task, TaskLease}
use ai_ent.Persistence.Session.{Db, Session, return, now}
use ai_ent.Persistence.Tasks
use ai_ent.Persistence.Leases
use ai_ent.Persistence.Invariant.{WellFormed}
use ai_ent.Scheduler.Claiming.{
  ClaimRequest, ClaimResult, claimed, claimable, expire, grant, claim_task,
}

-- The session in which a claim is granted: the expired lease of the task is marked.
abbrev pub cleared : ℕ → Session → Session
cleared task_id s = elim (Leases.active_for_task task_id s.db) [
  | none ↦ s
  | some lease ↦ record s { db = Leases.set_lease lease.id expire s.db }
]

-- A lease that is valid at a time.
abbrev pub is_valid_at : ℕ → Option TaskLease → Bool
is_valid_at time none = false
is_valid_at time (some lease) = ltb time lease.expires_at

-- What a claim asks for.
pub record CanClaim (blocking : Task → Db → List ℕ) (r : ClaimRequest) (s : Session) (task : Task)
    : Type 0 where
  pub unlocked : s.locked r.task_id ≡ false
  pub stored : Tasks.get r.task_id s.db ≡ some task
  pub ready : claimable task ≡ true
  pub free : is_valid_at (now s) (Leases.active_for_task r.task_id s.db) ≡ false
  pub unblocked : blocking task (cleared r.task_id s).db ≡ []

module _ (blocking : Task → Db → List ℕ) (r : ClaimRequest) (s : Session) where
  pub claim_task-eq-grant :
      (task : Task)
      → CanClaim blocking r s task
      → claim_task blocking r s ≡ grant r (cleared r.task_id s)
  unfolding claim_task
  claim_task-eq-grant task c = ground (arith, c.unlocked, c.stored, c.ready, c.free, c.unblocked)

  -- A claim answers CLAIMED only where it may.
  pub claim_task-CanClaim :
      {result : ClaimResult}
      → (claim_task blocking r s).0 ≡ return result
      → result.status ≡ claimed
      → (task : Task) × CanClaim blocking r s task
  unfolding claim_task
  claim_task-CanClaim {result} h k = elim (Option-cases (Tasks.get r.task_id s.db)) [
    | inl e ↦ absurd (ground (arith, e))
    | inr (task, e) ↦ (task, ground (arith, e, h, k))
  ]

-- The claim's mark on an expired lease leaves the task without an active lease.
pub cleared-count :
    (task_id : ℕ) (s : Session)
    → WellFormed s.db
    → count (Leases.holds task_id) (cleared task_id s).db.leases ≡ 0
unfolding Leases.active_for_task
cleared-count task_id s w =
    elim (Option-cases (first (Leases.holds task_id) Leases.acquired_last s.db.leases)) [
      | inl e ↦
          rw (e, cleared) (first-none (Leases.holds task_id) Leases.acquired_last s.db.leases e)
      | inr (lease, e) ↦
          let (listed, held) =
            first-some (Leases.holds task_id) Leases.acquired_last s.db.leases e in
          let fewer =
            count-modify-lt Leases.lease_key (Leases.holds task_id) lease.id expire s.db.leases
              lease (λ l. ground arith) listed held refl in
          rw (e, cleared) (omega (arith, fewer, w.one_holder task_id))
    ]

pub cleared-same :
    (task_id : ℕ) (s : Session)
    → ((cleared task_id s).db.executions ≡ s.db.executions)
      × ((cleared task_id s).db.tasks ≡ s.db.tasks)
      × (now (cleared task_id s) ≡ now s)
cleared-same task_id s = elim (Option-cases (Leases.active_for_task task_id s.db)) [
  | inl e ↦ rw (e, cleared) (refl, refl, refl)
  | inr (lease, e) ↦ rw (e, cleared) (refl, refl, refl)
]
