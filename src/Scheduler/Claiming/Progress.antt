-- ===== src/Scheduler/Claiming/Progress.antt =====
-- A claim that meets its conditions is granted: no constraint of the tables stands in its way.
use ai_ent.Prelude.{
  ℕ, ◌+◌, ◌<◌, ◌≡◌, refl, String, Option, none, some, List, [], ◌∷◌, ◌++◌, arith, or_else, count,
  find-append, count-modify, find-modify-none, Option-cases, inl, inr,
}
use ai_ent.Persistence.Models.{Task, TaskLease, Execution, ExecutionStatus}
use ai_ent.Persistence.Session.{Db, Session, Action, return, now, Result-cases}
use ai_ent.Persistence.Tasks
use ai_ent.Persistence.Executions
use ai_ent.Persistence.Executions.Attempts.{next_attempt-fresh, next_attempt-pos}
use ai_ent.Persistence.Leases
use ai_ent.Persistence.Invariant.{WellFormed}
use ai_ent.Scheduler.Claiming.{
  ClaimRequest, ClaimResult, claimed, grant, grant_lease, grant_execution, claim_task, expire,
}
use ai_ent.Scheduler.Claiming.Grants.{create-Started}
use ai_ent.Scheduler.Claiming.Claims.{cleared, cleared-count, CanClaim, claim_task-eq-grant}

-- The identifiers that a claim may take are new, and its lease lasts some time.
pub record IsFresh (r : ClaimRequest) (s : Session) : Type 0 where
  pub execution : (n : ℕ) → Executions.get (or_else r.execution_id (s.uuid n)) s.db ≡ none
  pub lease : (n : ℕ) → Leases.get (or_else r.lease_id (s.uuid n)) s.db ≡ none
  pub lasting : 0 < r.lease_duration

module _ (id task_id : ℕ) (kind : String) (status : ExecutionStatus) (started : Option ℕ)
    (s : Session) {task : Task} where
  create-returns :
      Executions.get id s.db ≡ none
      → Tasks.get task_id s.db ≡ some task
      → (e : Execution) × ((Executions.create id task_id kind status started s).0 ≡ return e)
  unfolding Executions.create Executions.admissible
  create-returns new stored =
      elim (Result-cases (Executions.create id task_id kind status started s).0) [
        | inl (e, h) ↦ (e, h)
        | inr (x, h) ↦
            absurd (ground (arith, next_attempt-fresh task_id s.db, next_attempt-pos task_id s.db))
      ]

module _ (id task_id execution_id owner_id acquired expires : ℕ) (s : Session) {task : Task}
    {execution : Execution} where
  lease-returns :
      Leases.get id s.db ≡ none
      → Tasks.get task_id s.db ≡ some task
      → Executions.get execution_id s.db ≡ some execution
      → count (Leases.of_execution execution_id) s.db.leases ≡ 0
      → count (Leases.holds task_id) s.db.leases ≡ 0
      → acquired < expires
      → (l : TaskLease) × ((Leases.create id task_id execution_id owner_id acquired expires s).0
          ≡ return l)
  unfolding Leases.create Leases.admissible
  lease-returns new stored made single free lasting =
      elim (Result-cases (Leases.create id task_id execution_id owner_id acquired expires s).0) [
        | inl (l, h) ↦ (l, h)
        | inr (x, h) ↦ absurd (ground arith)
      ]

module _ (r : ClaimRequest) (task : Task) where
  lease-claimed :
      (id : ℕ) (s : Session) (execution found : Execution)
      → Leases.get id s.db ≡ none
      → Tasks.get r.task_id s.db ≡ some task
      → Executions.get execution.id s.db ≡ some found
      → count (Leases.of_execution execution.id) s.db.leases ≡ 0
      → count (Leases.holds r.task_id) s.db.leases ≡ 0
      → 0 < r.lease_duration
      → (result : ClaimResult) × ((grant_lease r execution id s).0 ≡ return result)
        × (result.status ≡ claimed)
  unfolding grant_lease
  lease-claimed id s execution found new stored made single free lasting =
      let (l, h) =
        lease-returns id r.task_id execution.id r.owner_id (now s) (now s + r.lease_duration) s
          {task = task} {execution = found} new stored made single free (omega arith) in
      (
        record {
          status = claimed;
          task_id = r.task_id;
          owner_id = r.owner_id;
          lease = some l;
          execution = some execution;
          reason = [];
        },
        ground (arith, h),
        refl,
      )

  -- The session of a grant: nothing holds the task, and each identifier that may be taken is new.
  record IsOpen (s : Session) : Type 0 where
    stored : Tasks.get r.task_id s.db ≡ some task
    free : count (Leases.holds r.task_id) s.db.leases ≡ 0
    unleased :
        (id : ℕ) → Executions.get id s.db ≡ none → count (Leases.of_execution id) s.db.leases ≡ 0
    fresh : IsFresh r s

  -- The same after the new execution is stored.
  lease-claimed_after :
      (id : ℕ) (s after : Session) (e : Execution)
      → IsOpen s
      → after.db ≡ record s.db { executions = s.db.executions ++ e ∷ [] }
      → Executions.get e.id s.db ≡ none
      → Leases.get id s.db ≡ none
      → (result : ClaimResult) × ((grant_lease r e id after).0 ≡ return result)
        × (result.status ≡ claimed)
  lease-claimed_after id s after e o rows new free_id =
      lease-claimed id after e e (rw rows free_id) (rw rows o.stored)
        (rw rows (ground (arith, new, find-append Executions.execution_key e.id s.db.executions e)))
        (rw rows (o.unleased e.id new)) (rw rows o.free) o.fresh.lasting

  execution-claimed :
      (id : ℕ) (s : Session)
      → IsOpen s
      → Executions.get id s.db ≡ none
      → (result : ClaimResult) × ((grant_execution r id s).0 ≡ return result)
        × (result.status ≡ claimed)
  unfolding grant_execution
  execution-claimed id s o new =
      let (e, h) =
        create-returns id r.task_id r.executor_type ExecutionStatus.running (some (now s)) s
          {task = task} new o.stored in
      let (k, _, named) =
        create-Started id r.task_id r.executor_type ExecutionStatus.running (some (now s)) s e h in
      elim (Option-cases r.lease_id) [
        | inl d ↦
            let (result, p, q) =
              lease-claimed_after (s.uuid (create s).1.drawn) s
                (record (create s).1 { drawn = (create s).1.drawn + 1 }) e o k.rows k.fresh
                (ground (arith, d, o.fresh.lease (create s).1.drawn)) in
            (result, ground (arith, d, h, p, k.uuid), q)
        | inr (lid, d) ↦
            let (result, p, q) =
              lease-claimed_after lid s (create s).1 e o k.rows k.fresh
                (ground (arith, d, o.fresh.lease 0)) in
            (result, ground (arith, d, h, p), q)
      ]
    where
      create : Action Execution
      create = Executions.create id r.task_id r.executor_type ExecutionStatus.running (some (now s))

  grant-claimed :
      (s : Session)
      → IsOpen s
      → (result : ClaimResult) × ((grant r s).0 ≡ return result) × (result.status ≡ claimed)
  unfolding grant
  grant-claimed s o = elim (Option-cases r.execution_id) [
    | inl d ↦
        let (result, p, q) =
          execution-claimed (s.uuid s.drawn) (record s { drawn = s.drawn + 1 })
            (record {
              stored = o.stored;
              free = o.free;
              unleased = o.unleased;
              fresh = record {
                execution = o.fresh.execution;
                lease = o.fresh.lease;
                lasting = o.fresh.lasting;
              };
            })
            (ground (arith, d, o.fresh.execution s.drawn)) in
        (result, ground (arith, d, p), q)
    | inr (id, d) ↦
        let (result, p, q) = execution-claimed id s o (ground (arith, d, o.fresh.execution 0)) in
        (result, ground (arith, d, p), q)
  ]

cleared-IsOpen :
    (r : ClaimRequest) (s : Session) (task : Task)
    → WellFormed s.db
    → Tasks.get r.task_id s.db ≡ some task
    → IsFresh r s
    → IsOpen r task (cleared r.task_id s)
cleared-IsOpen r s task w stored fresh =
    elim (Option-cases (Leases.active_for_task r.task_id s.db)) [
      | inl e ↦
          let free = cleared-count r.task_id s w in
          rw (e, cleared)
            (record {
              stored = stored;
              free = rw (e, cleared) at free;
              unleased = w.stored;
              fresh = fresh;
            })
      | inr (lease, e) ↦
          let free = cleared-count r.task_id s w in
          rw (e, cleared)
            (record {
              stored = stored;
              free = rw (e, cleared) at free;
              unleased = λ id h.
                  rw
                    (count-modify Leases.lease_key (Leases.of_execution id) lease.id expire
                      s.db.leases (λ l. refl))
                    (w.stored id h);
              fresh = record {
                execution = fresh.execution;
                lease = λ n.
                    find-modify-none Leases.lease_key expire (λ l. refl) lease.id _ s.db.leases
                      (fresh.lease n);
                lasting = fresh.lasting;
              };
            })
    ]

-- A claim that meets its conditions, on well-formed tables, for new identifiers and a lease that
-- lasts some time, is granted: it returns, and answers CLAIMED.
pub claim_task-claimed :
    (blocking : Task → Db → List ℕ) (r : ClaimRequest) (s : Session) (task : Task)
    → WellFormed s.db
    → CanClaim blocking r s task
    → IsFresh r s
    → (result : ClaimResult) × ((claim_task blocking r s).0 ≡ return result)
      × (result.status ≡ claimed)
claim_task-claimed blocking r s task w can fresh =
    rw (claim_task-eq-grant blocking r s task can)
      (grant-claimed r task (cleared r.task_id s) (cleared-IsOpen r s task w can.stored fresh))
