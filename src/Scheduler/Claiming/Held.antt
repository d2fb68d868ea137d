-- ===== src/Scheduler/Claiming/Held.antt =====
-- src/ai_ent/scheduler/claiming.py: a task that is leased is running.
use ai_ent.Prelude.{
  ◌+◌, ◌∙◌, String, ℕ, ◌≡◌, ◌==◌, refl, Bool, true, false, Option, none, some, List, [], ◌∷◌, ◌++◌,
  arith, All, find, modify, Option-cases, Bool-cases, inl, inr, find-modify_self, find-modify_ne,
  ==_iff, ltb,
}
use ai_ent.Persistence.Models.{
  Execution, ExecutionStatus, Task, TaskStatus, TaskLease, is_active, is_running,
}
use ai_ent.Persistence.Session.{
  Action, and_then, Result, ◌>>=◌, Db, Session, Error, return, raise, now, Result-cases,
}
use ai_ent.Persistence.Tasks
use ai_ent.Persistence.Executions
use ai_ent.Persistence.Leases
use ai_ent.Scheduler.Claiming.{
  chosen, ClaimRequest, ClaimResult, grant, grant_execution, grant_lease, claim_task, claim_free,
  claimable, claim_leased, grant_unblocked, expire,
}
use ai_ent.Scheduler.Claiming.Grants.{grant-Granted}

abbrev pub runs : List Task → ℕ → Bool
runs tasks id = elim (find Tasks.task_key id tasks) [ some t ↦ is_running t.status | none ↦ false ]

-- The task of a lease is stored and running, where the lease is active.
abbrev pub IsRun : List Task → TaskLease → Type 0
IsRun tasks lease = is_active lease.status ≡ true → runs tasks lease.task_id ≡ true

-- Each active lease is of a running task, in the transaction and in what is committed.
pub record AllRun (s : Session) : Type 0 where
  pub current : All (IsRun s.db.tasks) s.db.leases
  pub committed : All (IsRun s.durable.tasks) s.durable.leases

start_runs :
    (k id : ℕ) (tasks : List Task)
    → runs tasks id ≡ true
    → runs (modify Tasks.task_key k (Tasks.with_status TaskStatus.running) tasks) id ≡ true
start_runs k id tasks h = elim (Bool-cases (k == id)) [
  | inl e ↦
      let same : k ≡ id = (==_iff k id).0 e in
      ground (
        arith,
        h,
        same,
        find-modify_self Tasks.task_key (Tasks.with_status TaskStatus.running) (λ t. refl) k tasks,
      )
  | inr e ↦ ground (
    arith,
    h,
    find-modify_ne Tasks.task_key (Tasks.with_status TaskStatus.running) (λ t. refl) k id tasks
        (λ same. absurd (ground (arith, e, (==_iff k id).1 same))),
  )
]

start-AllRun :
    (k : ℕ) (tasks : List Task) (leases : List TaskLease)
    → All (IsRun tasks) leases
    → All (IsRun (modify Tasks.task_key k (Tasks.with_status TaskStatus.running) tasks)) leases
start-AllRun k tasks [] h = tt
start-AllRun k tasks (l ∷ ls) (here, rest) =
    (λ active. start_runs k l.task_id tasks (here active), start-AllRun k tasks ls rest)

expire-AllRun :
    (k : ℕ) (tasks : List Task) (leases : List TaskLease)
    → All (IsRun tasks) leases
    → All (IsRun tasks) (modify Leases.lease_key k expire leases)
unfolding modify
expire-AllRun k tasks [] h = tt
expire-AllRun k tasks (l ∷ ls) (here, rest) = elim (Bool-cases (l.id == k)) [
  | inl e ↦ rw e (λ active. absurd (ground (arith, active)), expire-AllRun k tasks ls rest)
  | inr e ↦ rw e (here, expire-AllRun k tasks ls rest)
]

append-AllRun :
    (tasks : List Task) (leases : List TaskLease) (lease : TaskLease)
    → All (IsRun tasks) leases
    → IsRun tasks lease
    → All (IsRun tasks) (leases ++ lease ∷ [])
append-AllRun tasks [] lease h last = (last, tt)
append-AllRun tasks (l ∷ ls) lease (here, rest) last =
    (here, append-AllRun tasks ls lease rest last)

-- An action commits nothing, and where it raises, the session is back at the last commit.
Rolls : {A : Type 0} → Action A → Type 0
Rolls m =
    (s : Session)
    → ((m s).1.durable ≡ s.durable) × ((x : Error) → (m s).0 ≡ raise x → (m s).1.db ≡ s.durable)

bind-Rolls :
    {A B : Type 0} (m : Action A) (f : A → Action B)
    → Rolls m
    → ((a : A) → Rolls (f a))
    → Rolls (m >>= f)
unfolding Rolls
bind-Rolls m f hm k s = rolls (m s).0 (m s).1 (hm s)
  where
    rolls :
        (a : Result _) (u : Session)
        → (u.durable ≡ s.durable) × ((x : Error) → a ≡ raise x → u.db ≡ s.durable)
        → ((and_then a f u).1.durable ≡ s.durable)
          × ((x : Error) → (and_then a f u).0 ≡ raise x → (and_then a f u).1.db ≡ s.durable)
    rolls (return a) u (d, _) = ((k a u).0 ∙ d, λ x e. (k a u).1 x e ∙ d)
    rolls (raise x) u (d, e) = (d, λ y h. e x refl)

create_execution-Rolls :
    (id task_id : ℕ) (kind : String) (status : ExecutionStatus) (started : Option ℕ)
    → Rolls (Executions.create id task_id kind status started)
unfolding Rolls Executions.create
create_execution-Rolls id task_id kind status started s = (ground arith, λ x h. ground (arith, h))

create_lease-Rolls :
    (id task_id execution_id owner_id acquired expires : ℕ)
    → Rolls (Leases.create id task_id execution_id owner_id acquired expires)
unfolding Rolls Leases.create
create_lease-Rolls id task_id execution_id owner_id acquired expires s =
    (ground arith, λ x h. ground (arith, h))

chosen-Rolls : (id : Option ℕ) → Rolls (chosen id)
unfolding Rolls
chosen-Rolls none s = (refl, λ x h. absurd (ground (arith, h)))
chosen-Rolls (some id) s = (refl, λ x h. absurd (ground (arith, h)))

module _ (r : ClaimRequest) where
  grant_lease-Rolls :
      (execution : Execution) (lease_id : ℕ) → Rolls (grant_lease r execution lease_id)
  unfolding Rolls grant_lease
  grant_lease-Rolls execution lease_id s =
      bind-Rolls
        (Leases.create lease_id r.task_id execution.id r.owner_id (now s)
          (now s + r.lease_duration))
        _
        (create_lease-Rolls lease_id r.task_id execution.id r.owner_id (now s)
          (now s + r.lease_duration))
        (λ lease u. (refl, λ x h. absurd (ground (arith, h)))) s

  grant_execution-Rolls : (execution_id : ℕ) → Rolls (grant_execution r execution_id)
  unfolding Rolls grant_execution
  grant_execution-Rolls execution_id s =
      bind-Rolls
        (Executions.create execution_id r.task_id r.executor_type ExecutionStatus.running
          (some (now s)))
        _
        (create_execution-Rolls execution_id r.task_id r.executor_type ExecutionStatus.running
          (some (now s)))
        (λ execution.
          bind-Rolls (chosen r.lease_id) _ (chosen-Rolls r.lease_id) (grant_lease-Rolls execution))
        s

  grant-Rolls : Rolls (grant r)
  unfolding grant
  grant-Rolls =
      bind-Rolls (chosen r.execution_id) _ (chosen-Rolls r.execution_id) grant_execution-Rolls

  grant_durable : (s : Session) → (grant r s).1.durable ≡ s.durable
  unfolding Rolls
  grant_durable s = (grant-Rolls s).0

  grant_raises : (s : Session) (x : Error) → (grant r s).0 ≡ raise x → (grant r s).1.db ≡ s.durable
  unfolding Rolls
  grant_raises s = (grant-Rolls s).1

  granted-AllRun :
      (s : Session) (task : Task) {result : ClaimResult}
      → Tasks.get r.task_id s.db ≡ some task
      → AllRun s
      → (grant r s).0 ≡ return result
      → AllRun (grant r s).1
  granted-AllRun s task {result} stored h e =
      let (execution, lease, _, _, g) = grant-Granted r s {result = result} e in
      let after =
        modify Tasks.task_key r.task_id (Tasks.with_status TaskStatus.running) s.db.tasks in
      let found =
        find-modify_self Tasks.task_key (Tasks.with_status TaskStatus.running) (λ t. refl) r.task_id
          s.db.tasks in
      let last : IsRun after lease = λ active. ground (arith, stored, found, g.lease_task) in
      record {
        current =
            rw (g.tasks, g.leases)
              (append-AllRun after s.db.leases lease
                (start-AllRun r.task_id s.db.tasks s.db.leases h.current) last);
        committed = rw (grant_durable s) h.committed;
      }

  grant-AllRun :
      (s : Session) (task : Task)
      → Tasks.get r.task_id s.db ≡ some task
      → AllRun s
      → AllRun (grant r s).1
  grant-AllRun s task stored h = elim (Result-cases (grant r s).0) [
    | inl (result, e) ↦ granted-AllRun s task {result = result} stored h e
    | inr (x, e) ↦ record {
      current = rw (grant_raises s x e) h.committed;
      committed = rw (grant_durable s) h.committed;
    }
  ]

module _ (blocking : Task → Db → List ℕ) (r : ClaimRequest) where
  claim_free-AllRun :
      (s : Session) (task : Task)
      → Tasks.get r.task_id s.db ≡ some task
      → AllRun s
      → AllRun (claim_free blocking r task s).1
  unfolding claim_free
  claim_free-AllRun s task stored h = elim (Bool-cases (claimable task)) [
    | inr e ↦ rw e h
    | inl e ↦ rw e (unblocked (blocking task s.db))
  ]
    where
      unblocked : (blockers : List ℕ) → AllRun (grant_unblocked blocking r blockers s).1
      unblocked [] = grant-AllRun r s task stored h
      unblocked (b ∷ bs) = h

  claim_leased-AllRun :
      (s : Session) (task : Task) (lease : Option TaskLease)
      → Tasks.get r.task_id s.db ≡ some task
      → AllRun s
      → AllRun (claim_leased blocking r task lease s).1
  claim_leased-AllRun s task none stored h = claim_free-AllRun s task stored h
  claim_leased-AllRun s task (some lease) stored h =
      elim (Bool-cases (ltb (now s) lease.expires_at)) [
        | inl e ↦ rw e h
        | inr e ↦ rw e (
            claim_free-AllRun (record s { db = Leases.set_lease lease.id expire s.db }) task stored
              (record {
                current = expire-AllRun lease.id s.db.tasks s.db.leases h.current;
                committed = h.committed;
              }))
      ]

  -- A claim keeps, in its transaction and in what is committed, that the task of each active lease
  -- is stored and running, whether it returns or raises.
  pub claim_task-AllRun : (s : Session) → AllRun s → AllRun (claim_task blocking r s).1
  unfolding claim_task claim_free
  claim_task-AllRun s h = elim (Bool-cases (s.locked r.task_id)) [
    | inl e ↦ rw e h
    | inr e ↦ elim (Option-cases (Tasks.get r.task_id s.db)) [
      | inl f ↦ rw (e, f) h
      | inr (task, f) ↦
          rw (e, f) (claim_leased-AllRun s task (Leases.active_for_task r.task_id s.db) f h)
    ]
  ]
