-- ===== src/Examples/Repairs.antt =====
-- Failures, their repair, and the scope of a candidate.
use ai_ent.Prelude.{
  ℕ, ◌<◌, ◌≡◌, ◌↔◌, refl, inl, inr, Bool, true, false, String, Option, none, some, List, [], ◌∷◌,
  arith, All, str_eq, opt_eq, ◌||◌, mentions, or_else, count,
}
use ai_ent.Persistence.Models.{TaskStatus, Execution, ExecutionStatus, implementation}
use ai_ent.Persistence.Session.{Session, Result, return, raise}
use ai_ent.Persistence.Tasks
use ai_ent.Persistence.Executions
use ai_ent.Persistence.Checkpoints
use ai_ent.Persistence.Invariant.{WellFormed}
use ai_ent.Persistence.Sound.{IsSound}
use ai_ent.Bootstrap.Models.{BootstrapTask, Candidate, VerificationResult}
use ai_ent.Bootstrap.Git.{GitAnswers, validate_scope, commit_verified_candidate}
use ai_ent.Bootstrap.Git.Scope.{
  IsProhibited, IsInScope, validate_scope_sound, validate_scope_complete,
  commit_verified_candidate_sound,
}
use ai_ent.Scheduler.Claiming.Outcome.{Claimed}
use ai_ent.Scheduler.Repair.{
  RepairPolicy, RepairDecision, repairable, repair_with_new_execution, escalate_human, classify,
  action_for, plan, read_only_decision, repair_request, is_repair, checkpoint_status,
}
use ai_ent.Scheduler.Repair.Classes.{IsRepairable}
use ai_ent.Scheduler.Repair.Plans.{failed_repair_of, plan-repairs, prepared}
use ai_ent.Examples.Data.{a_task, rows, idle, no_blockers, its_execution}

abbrev pub policy : RepairPolicy
policy = record {
  max_autonomous_repair_attempts = 2;
  repair_lease_duration = 60;
  repair_owner_id = 8;
}

abbrev manifest_task : BootstrapTask
manifest_task = record {
  id = 1;
  title = "a task";
  objective = none;
  allowed_paths = "a.py" ∷ [];
  prohibited_paths = [];
  commands = [];
  execution_class = implementation;
  schedulable = true;
}

abbrev pub manifest : ℕ → Option BootstrapTask
manifest id = some manifest_task

-- An execution that failed without a recorded error, and one that failed in the scope check.
abbrev pub failed : Execution
failed = record its_execution { status = ExecutionStatus.failed }

abbrev out_of_scope : Execution
out_of_scope = record failed { error_classification = some "scope_failed" }

abbrev pub blocked : Execution → Session
blocked execution =
    let db = record rows {
      tasks = record a_task { status = TaskStatus.blocked } ∷ [];
      executions = execution ∷ [];
    } in
    record idle { db = db; durable = db }

abbrev pub value : {A : Type 0} → A → Result A → A
value d (return a) = a
value d (raise e) = d

abbrev pub planned : RepairDecision
planned =
    value
      (read_only_decision policy failed (record a_task { status = TaskStatus.blocked })
        (blocked failed))
      (plan policy no_blockers manifest "path" 20 (blocked failed)).0

abbrev next : Execution
next = Executions.new_row 50 1 "codex" ExecutionStatus.running (some 100) 2 90

is_planned : (plan policy no_blockers manifest "path" 20 (blocked failed)).0 ≡ return planned
unfolding plan Executions.require ai_ent.Prelude.find Tasks.require read_only_decision action_for
    classify ai_ent.Persistence.Checkpoints.latest_for_execution ai_ent.Prelude.first mentions
    ai_ent.Prelude.reads_as ai_ent.Scheduler.Repair.repair_attempt_count ai_ent.Prelude.count
    Executions.list_by_task ai_ent.Scheduler.Repair.start_repair
    ai_ent.Persistence.Leases.active_for_task ai_ent.Scheduler.Claiming.claim_task
    ai_ent.Bootstrap.Models.build_execution_package Executions.admissible Executions.create
    Executions.latest_attempt Executions.next_attempt ai_ent.Persistence.Leases.admissible
    ai_ent.Persistence.Leases.create ai_ent.Prelude.modify ai_ent.Scheduler.Claiming.claim_free
    ai_ent.Scheduler.Claiming.grant ai_ent.Scheduler.Claiming.grant_execution
    ai_ent.Scheduler.Claiming.grant_lease
is_planned = refl

has_next : planned.next_execution ≡ some next
unfolding plan Executions.require ai_ent.Prelude.find Tasks.require read_only_decision action_for
    classify ai_ent.Persistence.Checkpoints.latest_for_execution ai_ent.Prelude.first mentions
    ai_ent.Prelude.reads_as ai_ent.Scheduler.Repair.repair_attempt_count ai_ent.Prelude.count
    Executions.list_by_task ai_ent.Scheduler.Repair.start_repair
    ai_ent.Persistence.Leases.active_for_task ai_ent.Scheduler.Claiming.claim_task
    ai_ent.Bootstrap.Models.build_execution_package Executions.admissible Executions.create
    Executions.latest_attempt Executions.next_attempt ai_ent.Persistence.Leases.admissible
    ai_ent.Persistence.Leases.create ai_ent.Prelude.modify ai_ent.Scheduler.Claiming.claim_free
    ai_ent.Scheduler.Claiming.grant ai_ent.Scheduler.Claiming.grant_execution
    ai_ent.Scheduler.Claiming.grant_lease
has_next = refl

pub blocked-IsSound : IsSound (blocked failed)
unfolding ai_ent.Prelude.count
blocked-IsSound = record { current = well_formed; committed = well_formed }
  where
    well_formed : WellFormed (blocked failed).db
    well_formed = record {
      one_holder = λ t. omega arith;
      one_attempt = λ t a. ground arith;
      one_lease = λ e. omega arith;
      stored = λ e h. refl;
    }

plan-repairs_example :
    (execution : Execution) × (Executions.get 20 (blocked failed).db ≡ some execution)
    × IsRepairable execution (Checkpoints.latest_for_execution execution.id (blocked failed).db)
    × (count (failed_repair_of execution.task_id) (blocked failed).db.executions
        < policy.max_autonomous_repair_attempts)
    × Claimed
        (repair_request policy execution.task_id)
        (prepared policy no_blockers manifest "path" execution.task_id (blocked failed))
        (plan policy no_blockers manifest "path" 20 (blocked failed)).1
        next
plan-repairs_example =
    plan-repairs policy no_blockers manifest "path" 20 (blocked failed) blocked-IsSound is_planned
      has_next

in_scope : validate_scope str_eq manifest_task ("a.py" ∷ []) ≡ []
unfolding validate_scope ai_ent.Bootstrap.Git.matches
in_scope = refl

validate_scope_sound_example : All (IsInScope str_eq manifest_task) ("a.py" ∷ [])
validate_scope_sound_example = validate_scope_sound str_eq manifest_task ("a.py" ∷ []) in_scope

is_clear : (pattern : String) → IsProhibited manifest_task pattern → str_eq "a.py" pattern ≡ false
is_clear pattern (inl e) = absurd e
is_clear pattern (inr (_, inl e)) = rw e refl
is_clear pattern (inr (_, inr (inl e))) = rw e refl
is_clear pattern (inr (_, inr (inr (inl e)))) = rw e refl
is_clear pattern (inr (_, inr (inr (inr (inl e))))) = rw e refl
is_clear pattern (inr (_, inr (inr (inr (inr e))))) = absurd e

are-IsInScope : All (IsInScope str_eq manifest_task) ("a.py" ∷ [])
are-IsInScope = ((is_clear, inr ("a.py", inl refl, refl)), tt)

validate_scope_complete_example : validate_scope str_eq manifest_task ("a.py" ∷ []) ≡ []
validate_scope_complete_example =
    validate_scope_complete str_eq manifest_task ("a.py" ∷ []) are-IsInScope

abbrev git : GitAnswers
git = record {
  candidate_tree = return "tree";
  add = return tt;
  staged_tree = return "tree";
  commit = return tt;
  short_head = return "abc";
}

abbrev candidate : Candidate
candidate = record { task_id = 1; tree_hash = "tree"; changed_files = "a.py" ∷ [] }

abbrev accepted : VerificationResult
accepted = record { ok = true; commands = [] }

is_committed :
    commit_verified_candidate str_eq git manifest_task candidate accepted ≡ return (some "abc")
unfolding commit_verified_candidate validate_scope ai_ent.Bootstrap.Git.matches
is_committed = refl

commit_verified_candidate_sound_example :
    (candidate.task_id ≡ manifest_task.id)
    × All (IsInScope str_eq manifest_task) ("a.py" ∷ [])
    × (accepted.ok ≡ true)
    × (git.candidate_tree ≡ return "tree")
    × (git.add ≡ return tt)
    × (git.staged_tree ≡ return "tree")
    × (git.commit ≡ return tt)
    × (git.short_head ≡ return "abc")
commit_verified_candidate_sound_example =
    commit_verified_candidate_sound str_eq git manifest_task candidate accepted is_committed
