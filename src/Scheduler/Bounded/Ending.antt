-- ===== src/Scheduler/Bounded/Ending.antt =====
-- src/ai_ent/scheduler/bounded.py: both loops end. The repairs of a task end at their limit, and
-- the rounds of a run end when the clock has passed its limit, if not before.
use ai_ent.Prelude.{
  ℕ, zero, suc, ◌+◌, ◌≤◌, ◌<◌, ◌≡◌, refl, true, false, Option, none, some, arith, leb, ltb, is_some,
}
use ai_ent.Persistence.Session.{Session, Action, return, gets, commit}
use ai_ent.Persistence.Ensures.{
  Ensures, Ensures-at, pure-Ensures, throw-Ensures, if-Ensures, then-Ensures, bind-Ensures,
  Ensures-mono,
}
use ai_ent.Bootstrap.Models.{ExecutionPackage}
use ai_ent.Scheduler.Execution.{ClaimedExecutionStatus, run_claimed}
use ai_ent.Scheduler.Finalization.{ExecutionFinalizationResult, is_completed}
use ai_ent.Scheduler.Finalization.Steps.{finalize}
use ai_ent.Scheduler.Repair.Service.{RepairExecutionResult, repair_once, is_executed}
use ai_ent.Scheduler.Repair.Naming.{Named, repair_once-Named}
use ai_ent.Scheduler.Iteration.{SchedulerIterationResult, SchedulerIterationStatus, iterate}
use ai_ent.Scheduler.Bounded.Tasks.{
  TaskRunner, TaskResult, TaskOutcomeStatus, is_repaired, is_not_allowed, counted, after_repairs,
  next_failure, after_finalization, after_repair, repair_rounds, after_finalize, run_failed,
  finish_executed, run_task, record_executor_failure, failed_execution,
}
use ai_ent.Scheduler.Bounded.{
  BoundedRunner, BoundedRunResult, Run, Flow, break, continue, exhausted, first_run, round, rounds,
  run_bounded, follow, after_iteration, not_ready, with_package, attempt_task, after_task,
  after_success, count_task, is_done, persist_claim_boundary, persist_if, elapsed,
  max_task_stop_reason, add_outcome, scheduler_outcome, no_ready_task, stop_reason_for_outcome,
}

-- The fuel has not run out.
abbrev Ends : {A : Type 0} → Option A → Session → Type 0
Ends o s = is_some o ≡ true

module _ (r : TaskRunner) (bundle : ExecutionPackage) where
  after_repairs-Ends :
      (last : Option RepairExecutionResult) (n : ℕ) → Ensures Ends (after_repairs r bundle last n)
  after_repairs-Ends none n = throw-Ensures _ _
  after_repairs-Ends (some result) n = pure-Ensures _ _ (λ s. refl)

  next_failure-Ends :
      (loop : ℕ → Action (Option TaskResult)) (result : RepairExecutionResult) (n : ℕ)
      (failed : Option ℕ)
      → ((id : ℕ) → Ensures Ends (loop id))
      → Ensures Ends (next_failure r bundle loop result n failed)
  next_failure-Ends loop result n none k = after_repairs-Ends (some result) n
  next_failure-Ends loop result n (some id) k = k id

  after_finalization-Ends :
      (loop : ℕ → Action (Option TaskResult)) (result : RepairExecutionResult) (n : ℕ)
      (ended : Option ExecutionFinalizationResult)
      → (is_some ended ≡ true → (id : ℕ) → Ensures Ends (loop id))
      → Ensures Ends (after_finalization r bundle loop result n ended)
  after_finalization-Ends loop result n none k = after_repairs-Ends (some result) n
  after_finalization-Ends loop result n (some ended) k =
      if-Ensures _ (is_repaired result.status) _ _ (λ _. pure-Ensures _ _ (λ s. refl))
        (λ _. next_failure-Ends loop result n ended.execution (k refl))

  repair_rounds-Ends :
      (fuel n : ℕ) (last : Option RepairExecutionResult) (id : ℕ)
      → n ≤ r.max_repairs_per_task
      → r.max_repairs_per_task < fuel + n
      → Ensures Ends (repair_rounds r bundle fuel n last id)
  unfolding repair_rounds
  repair_rounds-Ends zero n last id h enough = absurd (omega arith)
  repair_rounds-Ends (suc fuel) n last id h enough =
      if-Ensures _ (ltb n r.max_repairs_per_task) _ _
        (λ below.
          then-Ensures _ Named (repair_once r.repair id) _ (repair_once-Named r.repair id)
            (λ result s named.
              Ensures-at Ends
                (after_repair r bundle (λ m found. repair_rounds r bundle fuel m (some found)) n
                  result)
                (if-Ensures _ (is_not_allowed result.status) _ _
                  (λ _. after_repairs-Ends (some result) n)
                  (λ _.
                    after_finalization-Ends _ result (counted r bundle result.decision n)
                      result.finalization
                      (λ finalized next.
                        repair_rounds-Ends fuel (counted r bundle result.decision n) (some result)
                          next (ground (arith, below, named finalized))
                          (ground (arith, enough, named finalized)))))
                s))
        (λ _. after_repairs-Ends last n)

  after_finalize-Ends :
      (fuel id : ℕ) (ended : ExecutionFinalizationResult)
      → r.max_repairs_per_task < fuel
      → Ensures Ends (after_finalize r bundle fuel id ended)
  after_finalize-Ends fuel id ended enough =
      if-Ensures _ (is_completed ended.status) _ _ (λ _. pure-Ensures _ _ (λ s. refl))
        (λ _.
          repair_rounds-Ends fuel 0 none (failed_execution r bundle ended.execution id)
            (omega arith) (omega arith))

module _ (r : TaskRunner) (owner_id fuel : ℕ) (scheduled : SchedulerIterationResult)
    (bundle : ExecutionPackage) (enough : r.max_repairs_per_task < fuel) where
  run_failed-Ends :
      (status : ClaimedExecutionStatus)
      → Ensures Ends (run_failed r owner_id fuel scheduled bundle status)
  run_failed-Ends status =
      bind-Ensures _ (record_executor_failure scheduled status owner_id) _
        (λ _. pure-Ensures _ _ (λ s. refl))

  finish_executed-Ends :
      (status : ClaimedExecutionStatus) (ran : Option ExecutionPackage)
      → Ensures Ends (finish_executed r owner_id fuel scheduled bundle status ran)
  finish_executed-Ends status none = run_failed-Ends status
  finish_executed-Ends status (some ran) =
      bind-Ensures _ (finalize r.finalizer (r.worktree ran) owner_id ran) _
        (λ ended. after_finalize-Ends r ran fuel bundle.execution_id ended enough)

  -- With more fuel than repairs are allowed, a task ends.
  run_task-Ends : Ensures Ends (run_task r owner_id fuel scheduled bundle)
  unfolding run_task
  run_task-Ends =
      bind-Ensures _ (run_claimed (r.runner bundle) owner_id bundle r.baseline_ref) _ (λ run.
        if-Ensures _ (is_executed run.status) _ _
          (λ _. finish_executed-Ends run.status run.execution_package)
          (λ _. run_failed-Ends run.status))

module _ (r : BoundedRunner) (enough : r.tasks.max_repairs_per_task < r.repair_fuel) where
  -- A round that goes on has asked the clock once.
  abbrev Ticks : ℕ → Flow → Session → Type 0
  Ticks n (break reason run) s = Unit
  Ticks n (continue run) s = run.ticks ≡ n
  Ticks n exhausted s = ⊥

  module _ (run : Run) where
    not_ready-Ticks :
        (scheduled : SchedulerIterationResult)
        → Ensures (Ticks run.ticks) (not_ready r run scheduled)
    not_ready-Ticks scheduled =
        bind-Ensures _ (persist_if r scheduled.execution) _ (λ _. pure-Ensures _ _ (λ s. tt))

    after_success-Ticks : (n : ℕ) → run.ticks ≡ n → Ensures (Ticks n) (after_success r run)
    after_success-Ticks n h =
        if-Ensures _ (r.shutdown run.asked) _ _ (λ _. pure-Ensures _ (break _ _) (λ s. tt))
          (λ _.
            if-Ensures _ (leb r.limits.max_tasks_per_run run.tasks_attempted) _ _
              (λ _. bind-Ensures _ (gets (max_task_stop_reason r)) _ (λ reason.
                pure-Ensures _ (break reason (record run { asked = run.asked + 1 })) (λ s. tt)))
              (λ _. pure-Ensures _ (continue (record run { asked = run.asked + 1 })) (λ s. h)))

  after_task-Ticks :
      (run : Run) (result : Option TaskResult)
      → is_some result ≡ true
      → Ensures (Ticks run.ticks) (after_task r run result)
  after_task-Ticks run none h = absurd (ground (arith, h))
  after_task-Ticks run (some result) h = bind-Ensures _ commit _ (λ _.
      if-Ensures _ (is_done result.outcome.status) _ _
        (λ _.
          after_success-Ticks
            (record (count_task r result run) { tasks_completed = run.tasks_completed + 1 })
            run.ticks refl)
        (λ _.
          pure-Ensures _
            (break (stop_reason_for_outcome result.outcome)
              (record (count_task r result run) { tasks_failed = run.tasks_failed + 1 }))
            (λ s. tt)))

  module _ (run : Run) where
    attempt_task-Ticks :
        (scheduled : SchedulerIterationResult) (bundle : ExecutionPackage)
        → Ensures (Ticks run.ticks) (attempt_task r run scheduled bundle)
    unfolding attempt_task
    attempt_task-Ticks scheduled bundle =
        bind-Ensures _ (persist_claim_boundary r scheduled) _ (λ _.
          then-Ensures _ Ends (run_task r.tasks r.scheduler.owner_id r.repair_fuel scheduled bundle)
            _ (run_task-Ends r.tasks r.scheduler.owner_id r.repair_fuel scheduled bundle enough)
            (λ result s k.
              Ensures-at (Ticks run.ticks) _
                (after_task-Ticks
                  (record run {
                    tasks_attempted = run.tasks_attempted + 1;
                    last_task_id = some bundle.task_id;
                    last_execution_id = some bundle.execution_id;
                  })
                  result k)
                s))

    with_package-Ticks :
        (scheduled : SchedulerIterationResult) (bundle : Option ExecutionPackage)
        → Ensures (Ticks run.ticks) (with_package r run scheduled bundle)
    with_package-Ticks scheduled none = not_ready-Ticks run scheduled
    with_package-Ticks scheduled (some bundle) = attempt_task-Ticks scheduled bundle

    after_iteration-Ticks :
        (scheduled : SchedulerIterationResult) (status : SchedulerIterationStatus)
        → Ensures (Ticks run.ticks) (after_iteration r run scheduled status)
    after_iteration-Ticks scheduled SchedulerIterationStatus.no_ready_task =
        pure-Ensures _ (break no_ready_task run) (λ s. tt)
    after_iteration-Ticks scheduled SchedulerIterationStatus.claim_contention =
        pure-Ensures _
          (continue (add_outcome (scheduler_outcome scheduled TaskOutcomeStatus.contention) run))
          (λ s. refl)
    after_iteration-Ticks scheduled SchedulerIterationStatus.package_ready =
        with_package-Ticks scheduled scheduled.execution_package
    after_iteration-Ticks scheduled SchedulerIterationStatus.blocked = not_ready-Ticks run scheduled
    after_iteration-Ticks scheduled SchedulerIterationStatus.error = not_ready-Ticks run scheduled

  -- It goes on only before the limit of the clock.
  abbrev Advances : Run → Flow → Session → Type 0
  Advances run (break reason next) s = Unit
  Advances run (continue next) s =
      (next.ticks ≡ run.ticks + 1)
      × (leb r.limits.max_wall_clock_seconds (elapsed r run.ticks) ≡ false)
  Advances run exhausted s = ⊥

  advances :
      (run : Run) (flow : Flow) (s : Session)
      → leb r.limits.max_wall_clock_seconds (elapsed r run.ticks) ≡ false
      → Ticks (run.ticks + 1) flow s
      → Advances run flow s
  advances run (break reason next) s early k = tt
  advances run (continue next) s early k = (k, early)
  advances run exhausted s early k = k

  round-Advances : (run : Run) → Ensures (Advances run) (round r run)
  unfolding round
  round-Advances run =
      if-Ensures _ (leb r.limits.max_tasks_per_run run.tasks_attempted) _ _
        (λ _. pure-Ensures _ (break _ _) (λ s. tt))
        (λ _.
          if-Ensures _ (leb r.limits.max_wall_clock_seconds (elapsed r run.ticks)) _ _
            (λ _. pure-Ensures _ (break _ _) (λ s. tt))
            (λ early.
              if-Ensures _ (leb r.limits.max_failures_per_run run.tasks_failed) _ _
                (λ _. pure-Ensures _ (break _ _) (λ s. tt))
                (λ _.
                  if-Ensures _ (r.shutdown run.asked) _ _
                    (λ _. pure-Ensures _ (break _ _) (λ s. tt))
                    (λ _. bind-Ensures _ (iterate r.scheduler r.project_id 1) _ (λ scheduled.
                      Ensures-mono (Ticks (run.ticks + 1)) (Advances run) _
                        (λ flow s. advances run flow s early)
                        (after_iteration-Ticks
                          (record run { ticks = run.ticks + 1; asked = run.asked + 1 }) scheduled
                          scheduled.status))))))

  module _ (last : ℕ)
      (passes : (n : ℕ) → last ≤ n → leb r.limits.max_wall_clock_seconds (elapsed r n) ≡ true) where
    rounds-Ends :
        (fuel : ℕ) (run : Run)
        → run.ticks ≤ last
        → last < fuel + run.ticks
        → Ensures Ends (rounds r fuel run)
    unfolding rounds
    rounds-Ends zero run h k = absurd (omega arith)
    rounds-Ends (suc fuel) run h k =
        then-Ensures _ (Advances run) (round r run) _ (round-Advances run)
          (followed (λ next p q. rounds-Ends fuel next p q))
      where
        followed :
            ((next : Run)
              → next.ticks ≤ last
              → last < fuel + next.ticks
              → Ensures Ends (rounds r fuel next))
            → (flow : Flow) (s : Session) → Advances run flow s
            → (o : Option BoundedRunResult) → (follow r (rounds r fuel) flow s).0 ≡ return o
            → Ends o (follow r (rounds r fuel) flow s).1
        followed rest (break reason final) s a =
            Ensures-at Ends _
              (pure-Ensures Ends (some (record { final = final; stop_reason = reason }))
                (λ _. refl))
              s
        followed rest (continue next) s (tick, early) =
            Ensures-at Ends _
              (rest next (ground (arith, tick, early, passes run.ticks, h)) (omega (arith, tick))) s
        followed rest exhausted s a = absurd a

    -- A bounded run that returns has a result and did not use up its fuel, where the fuel of the
    -- repairs exceeds their limit, and the clock is past the wall-clock limit from some reading
    -- after its first on, whose number the fuel reaches.
    pub run_bounded-ends :
        (fuel : ℕ) (s : Session) {o : Option BoundedRunResult}
        → 1 ≤ last
        → last ≤ fuel
        → (run_bounded r fuel s).0 ≡ return o
        → (result : BoundedRunResult) × (o ≡ some result)
    unfolding run_bounded
    run_bounded-ends fuel s {o} positive much h =
        answered o (Ensures-at Ends _ (rounds-Ends fuel first_run positive (omega arith)) s o h)
      where
        answered :
            (x : Option BoundedRunResult)
            → is_some x ≡ true
            → (result : BoundedRunResult) × (x ≡ some result)
        answered none e = absurd (ground (arith, e))
        answered (some result) e = (result, refl)
