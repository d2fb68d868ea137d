-- ===== src/Persistence/Session.antt =====
-- A SQLAlchemy session over the tables, as explicit state, and statements that read and change it
-- and may raise. The state outlives an exception. What the database and the machine answer (the
-- time of each transaction, wall clocks, identifiers of uuid4, row locks of others) are fields.
use ai_ent.Prelude.{ℕ, ◌+◌, ◌≡◌, refl, String, Bool, true, false, List, ◌⊎◌, inl, inr}
use ai_ent.Persistence.Models.{
  Task, TaskDependency, Execution, Checkpoint, TaskLease, RuntimeTaskPlanBinding,
  RuntimeBaselineIntegration,
}

pub record Db : Type 0 where
  pub tasks : List Task
  pub dependencies : List TaskDependency
  pub executions : List Execution
  pub checkpoints : List Checkpoint
  pub leases : List TaskLease
  pub bindings : List RuntimeTaskPlanBinding
  pub integrations : List RuntimeBaselineIntegration

-- `db` is what this transaction sees, `durable` what the last commit stored.
pub record Session : Type 0 where
  pub db : Db
  pub durable : Db
  pub transaction : ℕ
  pub drawn : ℕ
  pub transaction_time : ℕ → ℕ
  pub wall_clock : ℕ → ℕ
  pub uuid : ℕ → ℕ
  pub locked : ℕ → Bool

pub data Error : Type 0 where
  integrity_error repository_error assertion_error : Error
  duplicate_task missing_task : ℕ → Error
  duplicate_dependency : ℕ → ℕ → Error
  duplicate_execution missing_execution : ℕ → Error
  duplicate_checkpoint missing_checkpoint : ℕ → Error
  duplicate_lease missing_lease : ℕ → Error
  ownership_error : String → Error
  value_error : String → Error
  runtime_error : String → Error

pub data Result (A : Type 0) : Type 0 where
  return : A → Result A
  raise : Error → Result A

abbrev pub Action : Type 0 → Type 0
Action A = Session → Result A × Session

module _ {A : Type 0} where
  abbrev pub pure : A → Action A
  pure a s = (return a, s)

  abbrev pub throw : Error → Action A
  throw e s = (raise e, s)

  -- A query: it reads the tables and the time of the transaction.
  abbrev pub gets : (Session → A) → Action A
  gets f s = (return (f s), s)

module _ {A : Type 0} {B : Type 0} where
  -- What follows an exception is not run.
  abbrev pub and_then : Result A → (A → Action B) → Action B
  and_then (raise e) next = throw e
  and_then (return a) next = next a

  infixl 5 ◌>>=◌ ◌>>◌
  abbrev pub ◌>>=◌ : (first : Action A) (next : A → Action B) → Action B
  ◌>>=◌ first next s = let (answer, after) = first s in and_then answer next after

  abbrev pub ◌>>◌ : (first : Action A) (second : Action B) → Action B
  first >> second = first >>= λ answer. second

pub Result-cases :
    {A : Type 0} (r : Result A) → ((a : A) × (r ≡ return a)) ⊎ ((e : Error) × (r ≡ raise e))
Result-cases (return a) = inl (a, refl)
Result-cases (raise e) = inr (e, refl)

abbrev pub now : Session → ℕ
now s = s.transaction_time s.transaction

-- A row object that this transaction has changed. `session.flush()` sends it, and no constraint
-- reads the columns that are changed so, except where `flush_checked` stands.
abbrev pub change : (Db → Db) → Action Unit
change f s = (return tt, record s { db = f s.db })

-- `uuid4()` and `utc_now()`: the next answers of the machine.
abbrev pub draw_uuid : Action ℕ
draw_uuid s = (return (s.uuid s.drawn), record s { drawn = s.drawn + 1 })

abbrev pub read_clock : Action ℕ
read_clock s = (return (s.wall_clock s.drawn), record s { drawn = s.drawn + 1 })

-- `session.commit()`: the next statement runs in a new transaction.
abbrev pub commit : Action Unit
commit s = (return tt, record s { durable = s.db; transaction = s.transaction + 1 })

-- A flush that meets a violated constraint rolls the transaction back and raises.
abbrev pub rolled_back : Session → Session
rolled_back s = record s { db = s.durable; transaction = s.transaction + 1 }

-- `session.flush()` with the constraints that it can violate, and the exception that the caller
-- makes of an IntegrityError.
abbrev pub flush_checked : Bool → Error → (Db → Db) → Action Unit
flush_checked true e f s = (return tt, record s { db = f s.db })
flush_checked false e f s = (raise e, rolled_back s)

-- `except RuntimeError` catches it: a RepositoryError and an ownership error are RuntimeErrors.
abbrev pub is_runtime_error : Error → Bool
is_runtime_error (value_error _) = false
is_runtime_error integrity_error = false
is_runtime_error assertion_error = false
is_runtime_error _ = true
