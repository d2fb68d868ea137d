-- ===== src/Persistence/Models.antt =====
-- src/ai_ent/persistence/models.py: the rows of the tables. An identifier is a number: the code
-- only compares and orders identifiers. An instant is a number of seconds, and `_as_utc` is the
-- identity on instants. The CHECK constraints that list a column's values are the data types.
use ai_ent.Prelude.{ℕ, String, Bool, true, false, Option, Fields}

pub data TaskStatus : Type 0 where
  pending running passed failed blocked : TaskStatus

pub data ExecutionClass : Type 0 where
  implementation simulation : ExecutionClass

pub data ExecutionStatus : Type 0 where
  pending running succeeded failed timeout cancelled : ExecutionStatus

pub data CheckpointType : Type 0 where
  task execution bootstrap runtime : CheckpointType

pub data LeaseStatus : Type 0 where
  active released completed expired : LeaseStatus

pub record Task : Type 0 where
  pub id : ℕ
  pub project_id : ℕ
  pub title : String
  pub objective : Option String
  pub status : TaskStatus
  pub execution_class : ExecutionClass
  pub schedulable : Bool
  pub fingerprint : Option String
  pub created_at : ℕ

pub record TaskDependency : Type 0 where
  pub task_id : ℕ
  pub depends_on_task_id : ℕ

pub record Execution : Type 0 where
  pub id : ℕ
  pub task_id : ℕ
  pub executor_type : String
  pub status : ExecutionStatus
  pub attempt : ℕ
  pub started_at : Option ℕ
  pub finished_at : Option ℕ
  pub terminal_state : Option String
  pub error_classification : Option String
  pub candidate_tree_hash : Option String
  pub commit_hash : Option String
  pub baseline_commit : Option String
  pub baseline_tree : Option String
  pub baseline_generation : Option ℕ
  pub created_at : ℕ

-- `state` is the text of a JSON object, kept as `json.loads` reads it; `none` is a text that
-- `json.loads` refuses.
pub record Checkpoint : Type 0 where
  pub id : ℕ
  pub task_id : ℕ
  pub execution_id : Option ℕ
  pub checkpoint_type : CheckpointType
  pub state : Option Fields
  pub commit_hash : Option String
  pub tree_hash : Option String
  pub created_at : ℕ

pub record TaskLease : Type 0 where
  pub id : ℕ
  pub task_id : ℕ
  pub execution_id : ℕ
  pub owner_id : ℕ
  pub status : LeaseStatus
  pub acquired_at : ℕ
  pub renewed_at : ℕ
  pub expires_at : ℕ
  pub released_at : Option ℕ
  pub completed_at : Option ℕ

pub data RuntimeBaselineIntegrationStatus : Type 0 where
  pending integrated_unverified verified verification_failed conflict rejected :
      RuntimeBaselineIntegrationStatus

-- `acceptance` is `acceptance_json` as `_json_object` reads it.
pub record RuntimeTaskPlanBinding : Type 0 where
  pub task_id : ℕ
  pub import_id : ℕ
  pub plan_id : String
  pub plan_version : String
  pub risk_level : String
  pub model_profile : String
  pub verification_profile : String
  pub acceptance : Fields

pub record RuntimeBaselineIntegration : Type 0 where
  pub id : ℕ
  pub import_id : ℕ
  pub project_id : ℕ
  pub plan_id : String
  pub plan_version : String
  pub task_id : ℕ
  pub source_execution_id : ℕ
  pub source_commit : String
  pub source_tree : String
  pub prior_baseline_generation : ℕ
  pub prior_baseline_commit : String
  pub prior_baseline_tree : String
  pub integrated_commit : String
  pub integrated_tree : String
  pub status : RuntimeBaselineIntegrationStatus

abbrev pub is_verified : RuntimeBaselineIntegrationStatus → Bool
is_verified verified = true
is_verified _ = false

abbrev pub is_pending : TaskStatus → Bool
is_pending TaskStatus.pending = true
is_pending _ = false

abbrev pub is_running : TaskStatus → Bool
is_running TaskStatus.running = true
is_running _ = false

abbrev pub is_passed : TaskStatus → Bool
is_passed passed = true
is_passed _ = false

abbrev pub is_implementation : ExecutionClass → Bool
is_implementation implementation = true
is_implementation _ = false

abbrev pub is_active : LeaseStatus → Bool
is_active active = true
is_active _ = false

-- `execution.status in {"pending", "running"}`
abbrev pub is_runnable : ExecutionStatus → Bool
is_runnable ExecutionStatus.pending = true
is_runnable ExecutionStatus.running = true
is_runnable _ = false

abbrev pub is_succeeded : ExecutionStatus → Bool
is_succeeded succeeded = true
is_succeeded _ = false
