-- ===== src/Examples/Data.antt =====
-- One project with a pending task, the session that reads it, and the claim of that task.
use ai_ent.Prelude.{ℕ, ◌+◌, refl, true, false, none, some, List, [], ◌∷◌, arith, count, find}
use ai_ent.Persistence.Models.{
  Task, TaskStatus, Execution, ExecutionStatus, TaskLease, implementation,
}
use ai_ent.Persistence.Session.{Db, Session}
use ai_ent.Persistence.Executions
use ai_ent.Persistence.Leases
use ai_ent.Persistence.Invariant.{WellFormed}
use ai_ent.Persistence.Sound.{IsSound}
use ai_ent.Scheduler.Claiming.{ClaimRequest, ClaimResult, claimed}

abbrev pub a_task : Task
a_task = record {
  id = 1;
  project_id = 7;
  title = "a task";
  objective = none;
  status = TaskStatus.pending;
  execution_class = implementation;
  schedulable = true;
  fingerprint = none;
  created_at = 3;
}

abbrev pub rows : Db
rows = record {
  tasks = a_task ∷ [];
  dependencies = [];
  executions = [];
  checkpoints = [];
  leases = [];
  bindings = [];
  integrations = [];
}

abbrev pub idle : Session
idle = record {
  db = rows;
  durable = rows;
  transaction = 0;
  drawn = 0;
  transaction_time = λ n. 100;
  wall_clock = λ n. 90;
  uuid = λ n. 50 + n;
  locked = λ id. false;
}

abbrev pub no_blockers : Task → Db → List ℕ
no_blockers task db = []

abbrev pub request : ClaimRequest
request = record {
  task_id = 1;
  owner_id = 9;
  lease_duration = 60;
  executor_type = "codex";
  lease_id = some 30;
  execution_id = some 20;
}

abbrev pub its_execution : Execution
its_execution = Executions.new_row 20 1 "codex" ExecutionStatus.running (some 100) 1 90

abbrev pub its_lease : TaskLease
its_lease = Leases.new_row 30 1 20 9 100 160

abbrev pub granted : ClaimResult
granted = record {
  status = claimed;
  task_id = 1;
  owner_id = 9;
  lease = some its_lease;
  execution = some its_execution;
  reason = [];
}

abbrev pub held_rows : Db
held_rows = record {
  tasks = record a_task { status = TaskStatus.running } ∷ [];
  dependencies = [];
  executions = its_execution ∷ [];
  checkpoints = [];
  leases = its_lease ∷ [];
  bindings = [];
  integrations = [];
}

-- The session after the claim.
abbrev pub held : Session
held = record idle { db = held_rows; drawn = 1 }

pub idle-IsSound : IsSound idle
unfolding count
idle-IsSound = record { current = empty; committed = empty }
  where
    empty : WellFormed rows
    empty = record {
      one_holder = λ t. omega arith;
      one_attempt = λ t a. omega arith;
      one_lease = λ e. omega arith;
      stored = λ e h. refl;
    }

pub held-WellFormed : WellFormed held_rows
unfolding count find
held-WellFormed = record {
  one_holder = λ t. ground arith;
  one_attempt = λ t a. ground arith;
  one_lease = λ e. ground arith;
  stored = λ e h. ground (arith, h);
}
