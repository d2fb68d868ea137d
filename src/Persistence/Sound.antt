-- ===== src/Persistence/Sound.antt =====
-- Every statement keeps the tables well formed, in this transaction and in what is committed.
use ai_ent.Prelude.{
  ℕ, ◌≡◌, refl, Bool, true, false, String, Option, [], ◌∷◌, ◌++◌, Fields, arith, if◌then◌else◌,
  find-append, find-of_modify-none, count-append_one, count-modify, count-modify-le, Bool-cases,
  inl, inr,
}
use ai_ent.Persistence.Models.{
  TaskStatus, Execution, ExecutionStatus, TaskLease, CheckpointType, is_active,
}
use ai_ent.Persistence.Session.{Db, Session, Action, Result, return, raise, and_then, ◌>>=◌, change}
use ai_ent.Persistence.Tasks
use ai_ent.Persistence.Executions
use ai_ent.Persistence.Leases
use ai_ent.Persistence.Checkpoints
use ai_ent.Persistence.Invariant.{WellFormed}

pub record IsSound (s : Session) : Type 0 where
  pub current : WellFormed s.db
  pub committed : WellFormed s.durable

-- A statement keeps the session sound, whether it returns or raises.
abbrev pub Keeps : {A : Type 0} → Action A → Type 0
Keeps m = (s : Session) → IsSound s → IsSound (m s).1

pub and_then-IsSound :
    {A B : Type 0} (r : Result A) (f : A → Action B) (s : Session)
    → IsSound s
    → ((a : A) → Keeps (f a))
    → IsSound (and_then r f s).1
and_then-IsSound (return a) f s h k = k a s h
and_then-IsSound (raise e) f s h k = h

pub bind-Keeps :
    {A B : Type 0} (m : Action A) (f : A → Action B)
    → Keeps m
    → ((a : A) → Keeps (f a))
    → Keeps (m >>= f)
bind-Keeps m f h k s w = and_then-IsSound (m s).0 f (m s).1 (h s w) k

pub if-Keeps :
    {A : Type 0} (b : Bool) (m n : Action A) → Keeps m → Keeps n → Keeps (if b then m else n)
if-Keeps true m n hm hn = hm
if-Keeps false m n hm hn = hn

-- The same, where the two branches are given the session.
pub if-IsSound :
    {A : Type 0} (b : Bool) (x y : Result A × Session)
    → IsSound x.1
    → IsSound y.1
    → IsSound (if b then x else y).1
if-IsSound true x y hx hy = hx
if-IsSound false x y hx hy = hy

pub IsSound-after :
    {db : Db} (s s' : Session)
    → IsSound s
    → WellFormed db
    → s'.db ≡ db
    → s'.durable ≡ s.durable
    → IsSound s'
IsSound-after s s' h w e d = record { current = rw e w; committed = rw d h.committed }

module _ (db : Db) (row : Execution) where
  pub execution-WellFormed :
      WellFormed db
      → Executions.admissible row db ≡ true
      → WellFormed (record db { executions = db.executions ++ row ∷ [] })
  unfolding Executions.admissible
  execution-WellFormed w ok = record {
    one_holder = w.one_holder;
    one_attempt = λ t a. ground (
      arith,
      w.one_attempt t a,
      ok,
      count-append_one (Executions.is_attempt t a) db.executions row,
    );
    one_lease = w.one_lease;
    stored = λ id h.
        w.stored id (ground (arith, h, find-append Executions.execution_key id db.executions row));
  }

module _ (db : Db) (row : TaskLease) where
  pub lease-WellFormed :
      WellFormed db
      → Leases.admissible row db ≡ true
      → WellFormed (record db { leases = db.leases ++ row ∷ [] })
  unfolding Leases.admissible
  lease-WellFormed w ok = record {
    one_holder =
        λ t. ground (arith, w.one_holder t, ok, count-append_one (Leases.holds t) db.leases row);
    one_attempt = w.one_attempt;
    one_lease = λ e.
        ground (arith, w.one_lease e, ok, count-append_one (Leases.of_execution e) db.leases row);
    stored = λ id h.
        ground
          (arith, w.stored id h, ok, h, count-append_one (Leases.of_execution id) db.leases row);
  }

-- Assigning to a lease, where it keeps its identity and does not become active.
pub record IsLeaseEdit (f : TaskLease → TaskLease) : Type 0 where
  pub same_task : (l : TaskLease) → (f l).task_id ≡ l.task_id
  pub same_execution : (l : TaskLease) → (f l).execution_id ≡ l.execution_id
  pub not_activated : (l : TaskLease) → is_active (f l).status ≡ true → is_active l.status ≡ true

pub set_lease-WellFormed :
    (id : ℕ) (f : TaskLease → TaskLease) (db : Db)
    → IsLeaseEdit f
    → WellFormed db
    → WellFormed (Leases.set_lease id f db)
set_lease-WellFormed id f db e w = record {
  one_holder = λ t. omega (
    arith,
    w.one_holder t,
    count-modify-le Leases.lease_key (Leases.holds t) id f db.leases
        (λ l h. ground (arith, e.same_task l, e.not_activated l, h)),
  );
  one_attempt = w.one_attempt;
  one_lease = λ x. omega (
    arith,
    w.one_lease x,
    count-modify Leases.lease_key (Leases.of_execution x) id f db.leases
        (λ l. ground (arith, e.same_execution l)),
  );
  stored = λ x h. omega (
    arith,
    w.stored x h,
    count-modify Leases.lease_key (Leases.of_execution x) id f db.leases
        (λ l. ground (arith, e.same_execution l)),
  );
}

pub set_lifecycle-WellFormed :
    (id : ℕ) (c : Executions.Lifecycle) (db : Db)
    → WellFormed db
    → WellFormed (Executions.set_lifecycle id c db)
set_lifecycle-WellFormed id c db w = record {
  one_holder = w.one_holder;
  one_attempt = λ t a. omega (
    arith,
    w.one_attempt t a,
    count-modify Executions.execution_key (Executions.is_attempt t a) id
        (Executions.apply_lifecycle c) db.executions (λ e. refl),
  );
  one_lease = w.one_lease;
  stored = λ x h. w.stored x (
      find-of_modify-none Executions.execution_key (Executions.apply_lifecycle c) (λ e. refl) id x
        db.executions h);
}

module _ (id : ℕ) where
  pub require_task-Keeps : Keeps (Tasks.require id)
  unfolding Tasks.require
  require_task-Keeps s h = IsSound-after s _ h h.current (ground arith) (ground arith)

  pub require_execution-Keeps : Keeps (Executions.require id)
  unfolding Executions.require
  require_execution-Keeps s h = IsSound-after s _ h h.current (ground arith) (ground arith)

  pub set_status-Keeps : (status : TaskStatus) → Keeps (change (Tasks.set_status id status))
  set_status-Keeps status s h = record {
    current = record {
      one_holder = h.current.one_holder;
      one_attempt = h.current.one_attempt;
      one_lease = h.current.one_lease;
      stored = h.current.stored;
    };
    committed = h.committed;
  }

  pub update_status-Keeps : (status : TaskStatus) → Keeps (Tasks.update_status id status)
  unfolding Tasks.update_status
  update_status-Keeps status s h =
      and_then-IsSound (Tasks.require id s).0 _ _ (require_task-Keeps s h)
        (λ t. set_status-Keeps status)

  pub update_lifecycle-Keeps : (c : Executions.Lifecycle) → Keeps (Executions.update_lifecycle id c)
  unfolding Executions.update_lifecycle
  update_lifecycle-Keeps c s h =
      and_then-IsSound (Executions.require id s).0 _ _ (require_execution-Keeps s h) (λ e s' h'.
        record {
          current = set_lifecycle-WellFormed id c s'.db h'.current;
          committed = h'.committed;
        })

  pub set_lease-Keeps :
      (f : TaskLease → TaskLease) → IsLeaseEdit f → Keeps (change (Leases.set_lease id f))
  set_lease-Keeps f e s h = record {
    current = set_lease-WellFormed id f s.db e h.current;
    committed = h.committed;
  }

  pub create_execution-Keeps :
      (task_id : ℕ) (kind : String) (status : ExecutionStatus) (started : Option ℕ)
      → Keeps (Executions.create id task_id kind status started)
  unfolding Executions.create
  create_execution-Keeps task_id kind status started s h =
      let row =
        Executions.new_row id task_id kind status started (Executions.next_attempt task_id s.db)
          (s.wall_clock s.drawn) in
      elim (Bool-cases (Executions.admissible row s.db)) [
        | inl ok ↦
            IsSound-after s _ h (execution-WellFormed s.db row h.current ok) (ground (arith, ok))
              (ground (arith, ok))
        | inr bad ↦ IsSound-after s _ h h.committed (ground (arith, bad)) (ground (arith, bad))
      ]

  pub create_lease-Keeps :
      (task_id execution_id owner_id acquired expires : ℕ)
      → Keeps (Leases.create id task_id execution_id owner_id acquired expires)
  unfolding Leases.create
  create_lease-Keeps task_id execution_id owner_id acquired expires s h =
      let row = Leases.new_row id task_id execution_id owner_id acquired expires in
      elim (Bool-cases (Leases.admissible row s.db)) [
        | inl ok ↦
            IsSound-after s _ h (lease-WellFormed s.db row h.current ok) (ground (arith, ok))
              (ground (arith, ok))
        | inr bad ↦ IsSound-after s _ h h.committed (ground (arith, bad)) (ground (arith, bad))
      ]

  pub create_checkpoint-Keeps :
      (task_id : ℕ) (execution_id : Option ℕ) (kind : CheckpointType) (state : Option Fields)
      (commit_hash tree_hash : Option String)
      → Keeps (Checkpoints.create id task_id execution_id kind state commit_hash tree_hash)
  unfolding Checkpoints.create
  create_checkpoint-Keeps task_id execution_id kind state commit_hash tree_hash s h =
      let row =
        Checkpoints.new_row id task_id execution_id kind state commit_hash tree_hash
          (s.wall_clock s.drawn) in
      elim (Bool-cases (Checkpoints.admissible row s.db)) [
        | inl ok ↦
            IsSound-after {db = record s.db { checkpoints = s.db.checkpoints ++ row ∷ [] }} s _ h
              (record {
                one_holder = h.current.one_holder;
                one_attempt = h.current.one_attempt;
                one_lease = h.current.one_lease;
                stored = h.current.stored;
              })
              (ground (arith, ok)) (ground (arith, ok))
        | inr bad ↦ IsSound-after s _ h h.committed (ground (arith, bad)) (ground (arith, bad))
      ]

-- A new lifecycle of an execution, then another statement.
pub update_then-Keeps :
    {A : Type 0} (id : ℕ) (c : Executions.Lifecycle) (f : Execution → Action A)
    → ((e : Execution) → Keeps (f e))
    → Keeps (Executions.update_lifecycle id c >>= f)
update_then-Keeps id c f k =
    bind-Keeps (Executions.update_lifecycle id c) f (update_lifecycle-Keeps id c) k
