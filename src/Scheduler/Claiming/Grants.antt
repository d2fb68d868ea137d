-- ===== src/Scheduler/Claiming/Grants.antt =====
-- The stages of a grant, one lemma for each: a stage that returns has stored its rows.
use ai_ent.Prelude.{
  ℕ, String, ◌+◌, ◌<◌, ◌≡◌, Option, none, some, List, [], ◌∷◌, ◌++◌, modify, arith, inl, inr,
  Option-cases,
}
use ai_ent.Persistence.Models.{Task, TaskStatus, TaskLease, Execution, ExecutionStatus, active}
use ai_ent.Persistence.Session.{Session, Action, return, now, Result-cases}
use ai_ent.Persistence.Tasks
use ai_ent.Persistence.Executions
use ai_ent.Persistence.Leases
use ai_ent.Scheduler.Claiming.{ClaimRequest, ClaimResult, grant, grant_lease, grant_execution}

abbrev pub tasks_running : ℕ → Session → List Task
tasks_running task_id s =
    modify Tasks.task_key task_id (Tasks.with_status TaskStatus.running) s.db.tasks

-- What a grant stores: the new execution and lease, and the task as running.
pub record Granted (r : ClaimRequest) (s s' : Session) (execution : Execution) (lease : TaskLease)
    : Type 0 where
  pub leases : s'.db.leases ≡ s.db.leases ++ lease ∷ []
  pub executions : s'.db.executions ≡ s.db.executions ++ execution ∷ []
  pub tasks : s'.db.tasks ≡ tasks_running r.task_id s
  pub time : now s' ≡ now s
  pub fresh : Executions.get execution.id s.db ≡ none
  pub attempt : execution.attempt ≡ Executions.next_attempt r.task_id s.db
  pub execution_task : execution.task_id ≡ r.task_id
  pub execution_running : execution.status ≡ ExecutionStatus.running
  pub lease_task : lease.task_id ≡ r.task_id
  pub lease_execution : lease.execution_id ≡ execution.id
  pub lease_owner : lease.owner_id ≡ r.owner_id
  pub lease_active : lease.status ≡ active
  pub lease_expiry : lease.expires_at ≡ now s + r.lease_duration
  pub positive : 0 < r.lease_duration

pub record Started (task_id : ℕ) (s s' : Session) (e : Execution) : Type 0 where
  pub rows : s'.db ≡ record s.db { executions = s.db.executions ++ e ∷ [] }
  pub time : now s' ≡ now s
  pub uuid : s'.uuid ≡ s.uuid
  pub fresh : Executions.get e.id s.db ≡ none
  pub attempt : e.attempt ≡ Executions.next_attempt task_id s.db
  pub of_task : e.task_id ≡ task_id

module _ (id task_id : ℕ) (kind : String) (status : ExecutionStatus) (started : Option ℕ)
    (s : Session) where
  pub create-Started :
      (e : Execution)
      → (Executions.create id task_id kind status started s).0 ≡ return e
      → Started task_id s (Executions.create id task_id kind status started s).1 e
        × (e.status ≡ status)
        × (e.id ≡ id)
  unfolding Executions.create Executions.admissible
  create-Started e h = ground arith

record Leased (task_id execution_id owner_id acquired expires : ℕ) (s s' : Session) (l : TaskLease)
    : Type 0 where
  rows : s'.db ≡ record s.db { leases = s.db.leases ++ l ∷ [] }
  time : now s' ≡ now s
  of_task : l.task_id ≡ task_id
  of_execution : l.execution_id ≡ execution_id
  owner : l.owner_id ≡ owner_id
  status : l.status ≡ active
  expiry : l.expires_at ≡ expires
  positive : acquired < expires

create-Leased :
    (id task_id execution_id owner_id acquired expires : ℕ) (s : Session) (l : TaskLease)
    → (Leases.create id task_id execution_id owner_id acquired expires s).0 ≡ return l
    → Leased task_id execution_id owner_id acquired expires s
        (Leases.create id task_id execution_id owner_id acquired expires s).1
        l
unfolding Leases.create Leases.admissible
create-Leased id task_id execution_id owner_id acquired expires s l h = ground arith

module _ (r : ClaimRequest) where
  -- What the last stage of a grant stores.
  record LeaseGranted (s s' : Session) (execution : Execution) (lease : TaskLease) : Type 0 where
    executions : s'.db.executions ≡ s.db.executions
    tasks : s'.db.tasks ≡ tasks_running r.task_id s
    leases : s'.db.leases ≡ s.db.leases ++ lease ∷ []
    time : now s' ≡ now s
    of_task : lease.task_id ≡ r.task_id
    of_execution : lease.execution_id ≡ execution.id
    owner : lease.owner_id ≡ r.owner_id
    status : lease.status ≡ active
    expiry : lease.expires_at ≡ now s + r.lease_duration
    positive : 0 < r.lease_duration

  grant_lease-LeaseGranted :
      (id : ℕ) (s : Session) (execution : Execution) {result : ClaimResult}
      → (grant_lease r execution id s).0 ≡ return result
      → (lease : TaskLease) × (result.lease ≡ some lease)
        × (result.execution ≡ some execution)
        × LeaseGranted s (grant_lease r execution id s).1 execution lease
  unfolding grant_lease
  grant_lease-LeaseGranted id s execution {result} h = elim (Result-cases (create s).0) [
    | inl (lease, e) ↦
        let k =
          create-Leased id r.task_id execution.id r.owner_id (now s) (now s + r.lease_duration) s
            lease e in
        (lease, ground (arith, e, h), ground (arith, e, h), ground (arith, e, h, k))
    | inr (x, e) ↦ absurd (ground (arith, e, h))
  ]
    where
      create : Action TaskLease
      create = Leases.create id r.task_id execution.id r.owner_id (now s) (now s + r.lease_duration)

  grant_execution-Granted :
      (id : ℕ) (s : Session) {result : ClaimResult}
      → (grant_execution r id s).0 ≡ return result
      → (execution : Execution) × (lease : TaskLease) × (result.lease ≡ some lease)
        × (result.execution ≡ some execution)
        × Granted r s (grant_execution r id s).1 execution lease
  unfolding grant_execution
  grant_execution-Granted id s {result} h = elim (Result-cases (create s).0) [
    | inl (execution, e) ↦
        let k =
          create-Started id r.task_id r.executor_type ExecutionStatus.running (some (now s)) s
            execution e in
        elim (Option-cases r.lease_id) [
          | inl d ↦
              let (lease, hl, he, g) =
                grant_lease-LeaseGranted ((create s).1.uuid (create s).1.drawn)
                  (record (create s).1 { drawn = (create s).1.drawn + 1 }) execution
                  {result = result} (ground (arith, e, d, h)) in
              (execution, lease, hl, he, ground (arith, e, d, k, g))
          | inr (lid, d) ↦
              let (lease, hl, he, g) =
                grant_lease-LeaseGranted lid (create s).1 execution {result = result}
                  (ground (arith, e, d, h)) in
              (execution, lease, hl, he, ground (arith, e, d, k, g))
        ]
    | inr (x, e) ↦ absurd (ground (arith, e, h))
  ]
    where
      create : Action Execution
      create = Executions.create id r.task_id r.executor_type ExecutionStatus.running (some (now s))

  pub grant-Granted :
      (s : Session) {result : ClaimResult}
      → (grant r s).0 ≡ return result
      → (execution : Execution) × (lease : TaskLease) × (result.lease ≡ some lease)
        × (result.execution ≡ some execution)
        × Granted r s (grant r s).1 execution lease
  unfolding grant
  grant-Granted s {result} h = elim (Option-cases r.execution_id) [
    | inl d ↦
        let (execution, lease, hl, he, g) =
          grant_execution-Granted (s.uuid s.drawn) (record s { drawn = s.drawn + 1 })
            {result = result} (ground (arith, d, h)) in
        (execution, lease, hl, he, ground (arith, d, g))
    | inr (id, d) ↦
        let (execution, lease, hl, he, g) =
          grant_execution-Granted id s {result = result} (ground (arith, d, h)) in
        (execution, lease, hl, he, ground (arith, d, g))
  ]
