-- ===== src/Scheduler/Claiming/Soundness.antt =====
-- Every operation of the service keeps the tables well formed.
use ai_ent.Prelude.{
  ℕ, ◌+◌, ◌≡◌, refl, Bool, Option, none, some, List, [], ◌∷◌, ◌==◌, ltb, leb, arith, Bool-cases,
  inl, inr,
}
use ai_ent.Persistence.Models.{Task, TaskStatus, Execution, ExecutionStatus, TaskLease, is_active}
use ai_ent.Persistence.Session.{Db, now, pure, change, ◌>>◌}
use ai_ent.Persistence.Tasks
use ai_ent.Persistence.Executions
use ai_ent.Persistence.Leases
use ai_ent.Persistence.Sound.{
  IsSound, Keeps, IsSound-after, IsLeaseEdit, set_lease-WellFormed, and_then-IsSound,
  set_status-Keeps, set_lease-Keeps, if-Keeps, create_execution-Keeps, create_lease-Keeps,
}
use ai_ent.Scheduler.Claiming.{
  ClaimRequest, expire, extend, mark_released, mark_completed, act_on, stays_after, unchecked,
  grant_unblocked, claim_leased, claim_row, refused, already_leased, not_claimable, claimable,
  renew, release, complete, chosen, grant, grant_lease, grant_execution, claim_task, claim_free,
}

-- The edits of a lease that the services make.
pub expire-IsLeaseEdit : IsLeaseEdit expire
expire-IsLeaseEdit = record {
  same_task = λ l. refl;
  same_execution = λ l. refl;
  not_activated = λ l. ground arith;
}

module _ (time : ℕ) where
  pub extend-IsLeaseEdit : (d : ℕ) → IsLeaseEdit (extend d time)
  extend-IsLeaseEdit d = record {
    same_task = λ l. refl;
    same_execution = λ l. refl;
    not_activated = λ l h. h;
  }

  pub mark_released-IsLeaseEdit : IsLeaseEdit (mark_released time)
  mark_released-IsLeaseEdit = record {
    same_task = λ l. refl;
    same_execution = λ l. refl;
    not_activated = λ l. ground arith;
  }

  pub mark_completed-IsLeaseEdit : IsLeaseEdit (mark_completed time)
  mark_completed-IsLeaseEdit = record {
    same_task = λ l. refl;
    same_execution = λ l. refl;
    not_activated = λ l. ground arith;
  }

module _ (owner_id : ℕ) (apply : ℕ → TaskLease → TaskLease) (allowed : ℕ → TaskLease → Bool)
    (edit : (time : ℕ) → IsLeaseEdit (apply time)) where
  act_on-Keeps : (lease : Option TaskLease) → Keeps (act_on owner_id apply allowed lease)
  act_on-Keeps none s h = h
  act_on-Keeps (some lease) s h = elim (Bool-cases (lease.owner_id == owner_id)) [
    | inr e ↦ unchanged (ground (arith, e)) (ground (arith, e))
    | inl e ↦ elim (Bool-cases (is_active lease.status)) [
      | inr a ↦ unchanged (ground (arith, e, a)) (ground (arith, e, a))
      | inl a ↦ elim (Bool-cases (leb lease.expires_at (now s))) [
        | inl x ↦
            IsSound-after s _ h
              (set_lease-WellFormed lease.id expire s.db expire-IsLeaseEdit h.current)
              (ground (arith, e, a, x)) (ground (arith, e, a, x))
        | inr x ↦ elim (Bool-cases (allowed (now s) lease)) [
          | inl c ↦
              IsSound-after s _ h
                (set_lease-WellFormed lease.id (apply (now s)) s.db (edit (now s)) h.current)
                (ground (arith, e, a, x, c)) (ground (arith, e, a, x, c))
          | inr c ↦
              IsSound-after s _ h h.committed (ground (arith, e, a, x, c))
                (ground (arith, e, a, x, c))
        ]
      ]
    ]
  ]
    where
      unchanged :
          (act_on owner_id apply allowed (some lease) s).1.db ≡ s.db
          → (act_on owner_id apply allowed (some lease) s).1.durable ≡ s.durable
          → IsSound (act_on owner_id apply allowed (some lease) s).1
      unchanged = IsSound-after s _ h h.current

module _ (lease_id owner_id : ℕ) where
  pub renew-Keeps : (d : ℕ) → Keeps (renew lease_id owner_id d)
  unfolding renew
  renew-Keeps d s h =
      act_on-Keeps owner_id (extend d) (stays_after d) (λ t. extend-IsLeaseEdit t d)
        (Leases.get lease_id s.db) s h

  pub release-Keeps : Keeps (release lease_id owner_id)
  unfolding release
  release-Keeps s h =
      act_on-Keeps owner_id mark_released unchecked mark_released-IsLeaseEdit
        (Leases.get lease_id s.db) s h

  pub complete-Keeps : Keeps (complete lease_id owner_id)
  unfolding complete
  complete-Keeps s h =
      act_on-Keeps owner_id mark_completed unchecked mark_completed-IsLeaseEdit
        (Leases.get lease_id s.db) s h

module _ (r : ClaimRequest) where
  grant_lease-Keeps : (e : Execution) (id : ℕ) → Keeps (grant_lease r e id)
  unfolding grant_lease
  grant_lease-Keeps e id s h =
      and_then-IsSound
        (Leases.create id r.task_id e.id r.owner_id (now s) (now s + r.lease_duration) s).0 _ _
        (create_lease-Keeps id r.task_id e.id r.owner_id (now s) (now s + r.lease_duration) s h)
        (λ l. set_status-Keeps r.task_id TaskStatus.running)

  chosen-Keeps : (id : Option ℕ) → Keeps (chosen id)
  chosen-Keeps none s h = record { current = h.current; committed = h.committed }
  chosen-Keeps (some id) s h = h

  grant_execution-Keeps : (id : ℕ) → Keeps (grant_execution r id)
  unfolding grant_execution
  grant_execution-Keeps id s h =
      and_then-IsSound
        (Executions.create id r.task_id r.executor_type ExecutionStatus.running (some (now s)) s).0
        _ _
        (create_execution-Keeps id r.task_id r.executor_type ExecutionStatus.running (some (now s))
          s h)
        (λ e s' h'.
          and_then-IsSound (chosen r.lease_id s').0 _ _ (chosen-Keeps r.lease_id s' h')
            (grant_lease-Keeps e))

  grant-Keeps : Keeps (grant r)
  unfolding grant
  grant-Keeps s h =
      and_then-IsSound (chosen r.execution_id s).0 _ _ (chosen-Keeps r.execution_id s h)
        grant_execution-Keeps

module _ (blocking : Task → Db → List ℕ) (r : ClaimRequest) where
  grant_unblocked-Keeps : (blockers : List ℕ) → Keeps (grant_unblocked blocking r blockers)
  grant_unblocked-Keeps [] = grant-Keeps r
  grant_unblocked-Keeps (b ∷ bs) = λ s h. h

  claim_free-Keeps : (task : Task) → Keeps (claim_free blocking r task)
  unfolding claim_free
  claim_free-Keeps task s h =
      if-Keeps (claimable task) _ (pure (refused r not_claimable []))
        (λ s' h'. grant_unblocked-Keeps (blocking task s'.db) s' h') (λ _ k. k) s h

  claim_leased-Keeps :
      (task : Task) (lease : Option TaskLease) → Keeps (claim_leased blocking r task lease)
  claim_leased-Keeps task none s h = claim_free-Keeps task s h
  claim_leased-Keeps task (some lease) s h =
      if-Keeps (ltb (now s) lease.expires_at) (pure (refused r already_leased []))
        (change (Leases.set_lease lease.id expire) >> claim_free blocking r task) (λ _ k. k)
        (λ s' h'.
          claim_free-Keeps task _ (set_lease-Keeps lease.id expire expire-IsLeaseEdit s' h'))
        s h

  claim_row-Keeps : (task : Option Task) → Keeps (claim_row blocking r task)
  claim_row-Keeps none s h = h
  claim_row-Keeps (some task) s h =
      claim_leased-Keeps task (Leases.active_for_task r.task_id s.db) s h

  -- A claim keeps the tables of a sound session well formed, in its transaction and in what is
  -- committed, whether it returns or raises.
  pub claim_task-Keeps : Keeps (claim_task blocking r)
  unfolding claim_task
  claim_task-Keeps s h =
      if-Keeps (s.locked r.task_id) (pure (refused r already_leased []))
        (claim_row blocking r (Tasks.get r.task_id s.db)) (λ _ k. k)
        (claim_row-Keeps (Tasks.get r.task_id s.db)) s h
