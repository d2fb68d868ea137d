-- ===== src/Bootstrap/Models.antt =====
-- src/ai_ent/bootstrap/models.py and the package of bootstrap/codex.py. A path is its text. What is
-- left out of a package is its instructions and the paths of the repository and of Python, which
-- only the executor reads.
use ai_ent.Prelude.{ℕ, ◌∷◌, [], Bool, String, Option, List, ◌==◌}
use ai_ent.Persistence.Models.{ExecutionClass}

pub data TerminalState : Type 0 where
  success failure timeout cancelled not_configured : TerminalState

pub record BootstrapTask : Type 0 where
  pub id : ℕ
  pub title : String
  pub objective : Option String
  pub allowed_paths : List String
  pub prohibited_paths : List String
  pub commands : List String
  pub execution_class : ExecutionClass
  pub schedulable : Bool

pub record ExecutionResult : Type 0 where
  pub ok : Bool
  pub message : String
  pub terminal_state : TerminalState

pub record ExecutionPackage : Type 0 where
  pub worktree_path : String
  pub task_id : ℕ
  pub execution_id : ℕ
  pub allowed_paths : List String
  pub prohibited_paths : List String
  pub timeout_seconds : ℕ
  pub baseline_commit : Option String
  pub baseline_tree : Option String
  pub baseline_generation : Option ℕ

pub record CommandResult : Type 0 where
  pub command : String
  pub returncode : ℕ
  pub output : String

abbrev pub command_ok : CommandResult → Bool
command_ok c = c.returncode == 0

pub record VerificationResult : Type 0 where
  pub ok : Bool
  pub commands : List CommandResult

pub record Candidate : Type 0 where
  pub task_id : ℕ
  pub tree_hash : String
  pub changed_files : List String

abbrev pub prohibited_default : List String
prohibited_default = ".env" ∷ ".env.*" ∷ ".bootstrap/**" ∷ "aient/**" ∷ []

-- `paths or PROHIBITED_PATHS`
abbrev pub or_default : List String → List String
or_default [] = prohibited_default
or_default (p ∷ ps) = p ∷ ps

unfoldable pub build_execution_package :
    (task : BootstrapTask) (worktree_path : String) (execution_id timeout_seconds : ℕ)
    (baseline_commit baseline_tree : Option String) (baseline_generation : Option ℕ)
    → ExecutionPackage
build_execution_package task worktree_path execution_id timeout_seconds baseline_commit
      baseline_tree baseline_generation =
    record {
      worktree_path = worktree_path;
      task_id = task.id;
      execution_id = execution_id;
      allowed_paths = task.allowed_paths;
      prohibited_paths = or_default task.prohibited_paths;
      timeout_seconds = timeout_seconds;
      baseline_commit = baseline_commit;
      baseline_tree = baseline_tree;
      baseline_generation = baseline_generation;
    }
