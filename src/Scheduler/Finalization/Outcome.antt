-- ===== src/Scheduler/Finalization/Outcome.antt =====
-- src/ai_ent/scheduler/finalization.py: what a finalization records of the task and the execution.
use ai_ent.Prelude.{
  ℕ, ◌+◌, ◌≡◌, refl, subst, sym, ◌∙◌, String, Option, none, some, arith, Option-cases, Bool-cases,
  inl, inr, find-modify_self,
}
use ai_ent.Persistence.Models.{Task, TaskStatus, Execution, Checkpoint, CheckpointType}
use ai_ent.Persistence.Session.{Session, Action, return, now, ◌>>=◌, ◌>>◌, Result-cases}
use ai_ent.Persistence.Tasks
use ai_ent.Persistence.Executions
use ai_ent.Persistence.Leases
use ai_ent.Persistence.Checkpoints
use ai_ent.Bootstrap.Models.{Candidate, VerificationResult}
use ai_ent.Scheduler.Claiming.{LeaseActionResult, release, complete}
use ai_ent.Scheduler.Finalization.{
  Subject, Commitment, append_checkpoint, block_task, record_success, success_lifecycle,
  success_state,
}

-- The parts of an action that returns.
record Parts {A B : Type 0} (m : Action A) (f : A → Action B) (s : Session) : Type 0 where
  answer : A
  first_returns : (m s).0 ≡ return answer
  rest : (m >>= f) s ≡ f answer (m s).1

bind-Parts :
    {A B : Type 0} (m : Action A) (f : A → Action B) (s : Session) {b : B}
    → ((m >>= f) s).0 ≡ return b
    → Parts m f s
bind-Parts m f s h = elim (Result-cases (m s).0) [
  | inl (a, e) ↦ record { answer = a; first_returns = e; rest = ground (arith, e) }
  | inr (x, e) ↦ absurd (ground (arith, e, h))
]

-- Neither a task nor an execution is changed.
record SameRows (s t : Session) : Type 0 where
  same_tasks : t.db.tasks ≡ s.db.tasks
  same_executions : t.db.executions ≡ s.db.executions

release-SameRows :
    (lease_id owner_id : ℕ) (s : Session) → SameRows s (release lease_id owner_id s).1
unfolding release
release-SameRows lease_id owner_id s = elim (Option-cases (Leases.get lease_id s.db)) [
  | inl e ↦ record { same_tasks = ground (arith, e); same_executions = ground (arith, e) }
  | inr (l, e) ↦ record { same_tasks = ground (arith, e); same_executions = ground (arith, e) }
]

complete-SameRows :
    (lease_id owner_id : ℕ) (s : Session) → SameRows s (complete lease_id owner_id s).1
unfolding complete
complete-SameRows lease_id owner_id s = elim (Option-cases (Leases.get lease_id s.db)) [
  | inl e ↦ record { same_tasks = ground (arith, e); same_executions = ground (arith, e) }
  | inr (l, e) ↦ record { same_tasks = ground (arith, e); same_executions = ground (arith, e) }
]

append_checkpoint-SameRows :
    (task_id execution_id : ℕ) (state : _) (commit tree : Option String) (s : Session)
    (c : Checkpoint)
    → (append_checkpoint task_id execution_id state commit tree s).0 ≡ return c
    → SameRows s (append_checkpoint task_id execution_id state commit tree s).1
unfolding Checkpoints.create
append_checkpoint-SameRows task_id execution_id state commit tree s c h =
    let row =
      Checkpoints.new_row (s.uuid s.drawn) task_id (some execution_id) CheckpointType.execution
        (some state) commit tree (s.wall_clock (s.drawn + 1)) in
    elim (Bool-cases (Checkpoints.admissible row s.db)) [
      | inl ok ↦ record { same_tasks = ground (arith, ok); same_executions = ground (arith, ok) }
      | inr bad ↦ absurd (ground (arith, bad, h))
    ]

-- The task has the status, and the execution is the row that stood before with the new lifecycle.
pub record IsRecorded (execution_id task_id : ℕ) (c : Executions.Lifecycle) (status : TaskStatus)
    (before after : Session) : Type 0 where
  pub old_execution : Execution
  pub old_task : Task
  pub had_execution : Executions.get execution_id before.db ≡ some old_execution
  pub had_task : Tasks.get task_id before.db ≡ some old_task
  pub has_execution :
      Executions.get execution_id after.db ≡ some (Executions.apply_lifecycle c old_execution)
  pub has_task : Tasks.get task_id after.db ≡ some (Tasks.with_status status old_task)

module _ (execution_id task_id : ℕ) (c : Executions.Lifecycle) (status : TaskStatus) where
  -- The two updates, in their order.
  updates : Action Task
  updates = do Executions.update_lifecycle execution_id c; Tasks.update_status task_id status

  updates-IsRecorded :
      (s : Session) {t : Task}
      → (updates s).0 ≡ return t
      → IsRecorded execution_id task_id c status s (updates s).1
  unfolding updates Executions.update_lifecycle Executions.require Tasks.update_status Tasks.require
  updates-IsRecorded s {t} h = elim (Option-cases (Executions.get execution_id s.db)) [
    | inl e ↦ absurd (ground (arith, e, h))
    | inr (execution, e) ↦ elim (Option-cases (Tasks.get task_id s.db)) [
      | inl k ↦ absurd (ground (arith, e, k, h))
      | inr (task, k) ↦ record {
        old_execution = execution;
        old_task = task;
        had_execution = e;
        had_task = k;
        has_execution = ground (
          arith,
          e,
          k,
          find-modify_self Executions.execution_key (Executions.apply_lifecycle c) (λ x. refl)
              execution_id s.db.executions,
        );
        has_task = ground (
          arith,
          e,
          k,
          find-modify_self Tasks.task_key (Tasks.with_status status) (λ x. refl) task_id s.db.tasks,
        );
      }
    ]
  ]

  after-SameRows :
      (s t u : Session)
      → IsRecorded execution_id task_id c status s t
      → SameRows t u
      → IsRecorded execution_id task_id c status s u
  after-SameRows s t u r same = record {
    old_execution = r.old_execution;
    old_task = r.old_task;
    had_execution = r.had_execution;
    had_task = r.had_task;
    has_execution = ground (arith, r.has_execution, same.same_executions);
    has_task = ground (arith, r.has_task, same.same_tasks);
  }

  module _ (act : Action LeaseActionResult) (append : Action Checkpoint)
      (acts : (s : Session) → SameRows s (act s).1)
      (appends : (s : Session) (p : Checkpoint)
        → (append s).0 ≡ return p
        → SameRows s (append s).1) where
    abbrev all_steps : Action Checkpoint
    all_steps = do
      Executions.update_lifecycle execution_id c
      Tasks.update_status task_id status
      act
      append

    abbrev last_steps : Action Checkpoint
    last_steps = do act; append

    last_steps-SameRows :
        (s : Session) {p : Checkpoint} → (last_steps s).0 ≡ return p → SameRows s (last_steps s).1
    last_steps-SameRows s {p} h =
        let parts = bind-Parts act (λ _. append) s h in
        let one = acts s in
        let two = appends (act s).1 p (ground (arith, parts.rest, h)) in
        record {
          same_tasks = ground (arith, parts.rest, one.same_tasks, two.same_tasks);
          same_executions = ground (arith, parts.rest, one.same_executions, two.same_executions);
        }

    all_steps-IsRecorded :
        (s : Session) {p : Checkpoint}
        → (all_steps s).0 ≡ return p
        → IsRecorded execution_id task_id c status s (all_steps s).1
    unfolding updates
    all_steps-IsRecorded s {p} h =
        let first = bind-Parts (Executions.update_lifecycle execution_id c) _ s h in
        let mid = (Executions.update_lifecycle execution_id c s).1 in
        let second =
          bind-Parts (Tasks.update_status task_id status) (λ _. last_steps) mid {b = p}
            (ground (arith, first.rest, h)) in
        let early = (Tasks.update_status task_id status mid).1 in
        let whole : all_steps s ≡ last_steps early = first.rest ∙ second.rest in
        let done =
          updates-IsRecorded s {t = second.answer}
            (ground (arith, first.first_returns, second.first_returns)) in
        after-SameRows s early (all_steps s).1
          (subst (IsRecorded execution_id task_id c status s) (ground (arith, first.first_returns))
            done)
          (subst (λ x. SameRows early x.1) (sym whole)
            (last_steps-SameRows early {p = p} (ground (arith, whole, h))))

module _ (owner_id : ℕ) (subject : Subject) (candidate : Candidate) where
  pub block_task-IsRecorded :
      (c : Executions.Lifecycle) (state : _) (s : Session) {p : Checkpoint}
      → (block_task owner_id subject candidate c state s).0 ≡ return p
      → IsRecorded subject.execution.id subject.task.id c TaskStatus.blocked s
          (block_task owner_id subject candidate c state s).1
  unfolding block_task
  block_task-IsRecorded c state s h =
      all_steps-IsRecorded subject.execution.id subject.task.id c TaskStatus.blocked
        (release subject.lease.id owner_id)
        (append_checkpoint subject.task.id subject.execution.id state none
          (some candidate.tree_hash))
        (release-SameRows subject.lease.id owner_id)
        (append_checkpoint-SameRows subject.task.id subject.execution.id state none
          (some candidate.tree_hash))
        s h

  pub record_success-IsRecorded :
      (baseline : String) (verification : VerificationResult) (k : Commitment) (s : Session)
      {p : Checkpoint}
      → (record_success owner_id subject candidate baseline verification k s).0 ≡ return p
      → IsRecorded subject.execution.id subject.task.id
          (success_lifecycle owner_id subject candidate k (now s))
          TaskStatus.passed
          s
          (record_success owner_id subject candidate baseline verification k s).1
  unfolding record_success
  record_success-IsRecorded baseline verification k s h =
      all_steps-IsRecorded subject.execution.id subject.task.id
        (success_lifecycle owner_id subject candidate k (now s)) TaskStatus.passed
        (complete subject.lease.id owner_id)
        (append_checkpoint subject.task.id subject.execution.id
          (success_state owner_id subject candidate baseline verification k) k.commit_id
          (some candidate.tree_hash))
        (complete-SameRows subject.lease.id owner_id)
        (append_checkpoint-SameRows subject.task.id subject.execution.id
          (success_state owner_id subject candidate baseline verification k) k.commit_id
          (some candidate.tree_hash))
        s h
