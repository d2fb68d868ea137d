-- ===== src/Examples/Runs.antt =====
-- A claimed execution that is run, finalized and made durable, on the sample tables.
use ai_ent.Prelude.{
  ℕ, ◌≡◌, refl, Bool, true, false, String, Option, none, some, List, [], ◌∷◌, str_eq,
}
use ai_ent.Persistence.Models.{TaskStatus, ExecutionStatus, CheckpointType, implementation}
use ai_ent.Persistence.Session.{Session, return, pure}
use ai_ent.Persistence.Checkpoints
use ai_ent.Persistence.Sound.{IsSound}
use ai_ent.Bootstrap.Models.{
  BootstrapTask, Candidate, ExecutionPackage, ExecutionResult, VerificationResult, success,
}
use ai_ent.Scheduler.Durability.{DurableExecutionOwnership, persist_execution_ownership}
use ai_ent.Scheduler.Durability.Ownership.{IsOwned, persist-IsOwned}
use ai_ent.Scheduler.Execution.{Runner, ClaimedExecutionResult, executed, run_claimed}
use ai_ent.Scheduler.Execution.Running.{MayRun, IsSettled, run_claimed-MayRun}
use ai_ent.Scheduler.Execution.Settled.{run_claimed-IsSettled}
use ai_ent.Scheduler.Finalization.{
  Finalizer, Worktree, Subject, Commitment, ExecutionFinalizationResult, completed,
  new_verified_change, success_state,
}
use ai_ent.Scheduler.Finalization.Steps.{finalize}
use ai_ent.Scheduler.Finalization.Guards.{MayComplete, finalize-MayComplete}
use ai_ent.Scheduler.Finalization.Recorded.{finalize-Promised}
use ai_ent.Scheduler.Finalization.Promises.{Promised}
use ai_ent.Examples.Data.{
  a_task, its_execution, its_lease, held, held_rows, held-WellFormed, idle-IsSound,
}

abbrev pub its_package : ExecutionPackage
its_package = record {
  worktree_path = "before";
  task_id = 1;
  execution_id = 20;
  allowed_paths = [];
  prohibited_paths = [];
  timeout_seconds = 30;
  baseline_commit = none;
  baseline_tree = some "base";
  baseline_generation = none;
}

abbrev pub fine : ExecutionResult
fine = record { ok = true; message = "fine"; terminal_state = success }

abbrev pub runner : Runner
runner = record {
  configuration_error = none;
  has_command = true;
  lease_grace = 60;
  toplevel = return tt;
  rev_parse = λ name. return "commit";
  tree_of = λ commit. return "base";
  create_worktree = λ task execution commit. return "worktree";
  execute_package = λ bundle. return fine;
  changed_files = λ path. return ("a.py" ∷ []);
}

abbrev pub ran : ClaimedExecutionResult
ran = record {
  status = executed;
  execution = some 20;
  lease = some its_lease;
  execution_package = some (record its_package { worktree_path = "worktree" });
  execution_result = some fine;
  worktree_path = some "worktree";
  changed_files = "a.py" ∷ [];
  reason = none;
}

pub held-ran : (run_claimed runner 9 its_package "HEAD" held).0 ≡ return ran
unfolding run_claimed ai_ent.Prelude.find ai_ent.Persistence.Leases.active_for_task
    ai_ent.Prelude.first ai_ent.Scheduler.Claiming.has_valid_lease ai_ent.Scheduler.Claiming.renew
    ai_ent.Scheduler.Execution.prepare_worktree ai_ent.Scheduler.Execution.run_executor
    ai_ent.Persistence.Executions.update_lifecycle ai_ent.Prelude.modify
held-ran = refl

pub held-IsSound : IsSound held
held-IsSound = record { current = held-WellFormed; committed = idle-IsSound.committed }

run_claimed-MayRun_example : MayRun runner 9 its_package "HEAD" held
run_claimed-MayRun_example = run_claimed-MayRun runner 9 its_package "HEAD" held held-ran refl

run_claimed-IsSettled_example : IsSettled 20 (run_claimed runner 9 its_package "HEAD" held).1
run_claimed-IsSettled_example =
    run_claimed-IsSettled runner 9 its_package "HEAD" held ran held-ran refl

abbrev ownership : DurableExecutionOwnership
ownership = record { task_id = 1; execution_id = 20; lease_id = 30; owner_id = 9 }

held_persisted : (persist_execution_ownership 1 20 9 (some 30) held).0 ≡ return ownership
unfolding persist_execution_ownership ai_ent.Prelude.find
held_persisted = refl

persist-IsOwned_example :
    ((persist_execution_ownership 1 20 9 (some 30) held).1.durable ≡ held.db)
    × IsOwned held.db 1 20 9 30
persist-IsOwned_example = persist-IsOwned 1 20 9 30 held held_persisted

-- The session after the run, as far as a finalization reads it.
abbrev pub finished : Session
finished = record held {
  db = record held_rows {
    executions = record its_execution { status = ExecutionStatus.succeeded } ∷ [];
  };
}

abbrev pub manifest_task : BootstrapTask
manifest_task = record {
  id = 1;
  title = "a task";
  objective = none;
  allowed_paths = "a.py" ∷ [];
  prohibited_paths = [];
  commands = [];
  execution_class = implementation;
  schedulable = true;
}

abbrev pub accepted : VerificationResult
accepted = record { ok = true; commands = [] }

abbrev pub finalizer : Finalizer
finalizer = record {
  manifest_tasks = λ id. some manifest_task;
  verifier = λ task. accepted;
  committer = λ task candidate verification message. return (some "abc");
  after_verification = pure tt;
  fnmatch = str_eq;
  id_text = λ id. "1";
  contains = λ part text. false;
  error_text = λ e. "";
}

abbrev pub its_candidate : Candidate
its_candidate = record { task_id = 1; tree_hash = "tree"; changed_files = "a.py" ∷ [] }

abbrev pub worktree : Worktree
worktree = record {
  exists = true;
  toplevel = return tt;
  head = return "head";
  capture_candidate = λ task. return its_candidate;
  subject = return "";
  body = return "";
  short_head = return "abc";
  head_tree = return "tree";
}

abbrev its_subject : Subject
its_subject = record {
  execution = record its_execution { status = ExecutionStatus.succeeded };
  task = record a_task { status = TaskStatus.running };
  lease = its_lease;
}

abbrev its_commitment : Commitment
its_commitment = record {
  commit_id = some "abc";
  success_kind = new_verified_change;
  committed_tree_hash = "tree";
}

abbrev finalized : ExecutionFinalizationResult
finalized = record {
  status = completed;
  execution = some 20;
  task = some 1;
  lease = some its_lease;
  candidate = some its_candidate;
  verification = some accepted;
  commit_id = some "abc";
  committed_tree_hash = some "tree";
  success_kind = some new_verified_change;
  checkpoint = some (
      Checkpoints.new_row 51 1 (some 20) CheckpointType.execution
        (some (success_state 9 its_subject its_candidate "head" accepted its_commitment))
        (some "abc") (some "tree") 90);
  reason = none;
}

is_finalized : (finalize finalizer worktree 9 its_package finished).0 ≡ return finalized
unfolding finalize ai_ent.Prelude.find ai_ent.Persistence.Leases.active_for_task
    ai_ent.Prelude.first ai_ent.Scheduler.Finalization.Steps.finalize_subject
    ai_ent.Scheduler.Claiming.has_valid_lease ai_ent.Bootstrap.Git.validate_scope
    ai_ent.Bootstrap.Git.matches ai_ent.Scheduler.Finalization.Steps.finish_verified
    ai_ent.Scheduler.Finalization.Steps.commit_candidate
    ai_ent.Scheduler.Finalization.Steps.finish_success ai_ent.Scheduler.Finalization.record_success
    ai_ent.Persistence.Executions.update_lifecycle ai_ent.Persistence.Tasks.update_status
    ai_ent.Scheduler.Claiming.complete Checkpoints.create Checkpoints.admissible
    ai_ent.Prelude.modify
is_finalized = refl

finalize-MayComplete_example : MayComplete finalizer worktree 9 its_package finished
finalize-MayComplete_example =
    finalize-MayComplete finalizer worktree 9 its_package finished is_finalized refl

finalize-Promised_example :
    Promised 20 1 completed (finalize finalizer worktree 9 its_package finished).1
finalize-Promised_example = finalize-Promised finalizer worktree 9 its_package finished is_finalized
