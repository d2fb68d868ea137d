-- ===== src/Scheduler/Bounded/Counting.antt =====
-- src/ai_ent/scheduler/bounded.py: a run stays within its limits, and its counts agree.
use ai_ent.Prelude.{ℕ, zero, suc, ◌+◌, ◌*◌, ◌≤◌, ◌<◌, ◌≡◌, refl, Option, none, some, arith, leb}
use ai_ent.Persistence.Session.{Session, return, gets, commit}
use ai_ent.Persistence.Ensures.{
  Ensures, pure-Ensures, if-Ensures, then-Ensures, bind-Ensures, Ensures-at,
}
use ai_ent.Bootstrap.Models.{ExecutionPackage}
use ai_ent.Scheduler.Iteration.{SchedulerIterationResult, SchedulerIterationStatus, iterate}
use ai_ent.Scheduler.Bounded.Tasks.{TaskOutcomeStatus, TaskResult, run_task}
use ai_ent.Scheduler.Bounded.{
  BoundedRunner, BoundedRunResult, Run, Flow, break, continue, exhausted, first_run, round, rounds,
  run_bounded, follow, after_iteration, not_ready, with_package, attempt_task, after_task,
  count_task, is_done, persist_claim_boundary, elapsed, stop_reason_for_outcome, add_outcome,
  scheduler_outcome, max_tasks_per_run, max_wall_clock_seconds, max_failures_per_run,
  shutdown_requested, no_ready_task, persist_if, max_task_stop_reason,
}
use ai_ent.Scheduler.Bounded.Repairs.{Within, Limited, run_task-Limited}

-- The counts of a run: every attempted task is completed or failed, at most one has failed, and the
-- tasks and their repairs are within the limits.
pub record IsCounted (r : BoundedRunner) (run : Run) : Type 0 where
  pub totals : run.tasks_attempted ≡ run.tasks_completed + run.tasks_failed
  pub bounded : run.tasks_attempted ≤ r.limits.max_tasks_per_run
  pub one_failure : run.tasks_failed ≤ 1
  pub repairs : run.repairs_attempted ≤ run.tasks_attempted * r.tasks.max_repairs_per_task

module _ (r : BoundedRunner) where
  abbrev Counts : Flow → Session → Type 0
  Counts (break reason run) s = IsCounted r run
  Counts (continue run) s = IsCounted r run × (run.tasks_failed ≡ 0)
  Counts exhausted s = Unit

  module _ (run : Run) (h : IsCounted r run) (clean : run.tasks_failed ≡ 0) where
    not_ready-Counts :
        (scheduled : SchedulerIterationResult) → Ensures Counts (not_ready r run scheduled)
    not_ready-Counts scheduled = bind-Ensures _ (persist_if r scheduled.execution) _ (λ _.
        pure-Ensures _ _ (λ s. record {
          totals = h.totals;
          bounded = h.bounded;
          one_failure = h.one_failure;
          repairs = h.repairs;
        }))

    -- One more task, with its repairs.
    counted_repairs :
        (n : ℕ)
        → n ≤ r.tasks.max_repairs_per_task
        → run.repairs_attempted + n ≤ (run.tasks_attempted + 1) * r.tasks.max_repairs_per_task
    counted_repairs n k = grind (arith, h.repairs)

    module _ (room : run.tasks_attempted < r.limits.max_tasks_per_run)
        (last_task last_execution : Option ℕ) where
      abbrev attempted : Run
      attempted = record run {
        tasks_attempted = run.tasks_attempted + 1;
        last_task_id = last_task;
        last_execution_id = last_execution;
      }

      abbrev done : TaskResult → Run
      done result = record (count_task r result attempted) {
        tasks_completed = run.tasks_completed + 1;
        asked = run.asked + 1;
      }

      done-IsCounted :
          (result : TaskResult)
          → result.repairs_attempted ≤ r.tasks.max_repairs_per_task
          → IsCounted r (done result)
      done-IsCounted result k = record {
        totals = omega (arith, h.totals);
        bounded = omega arith;
        one_failure = h.one_failure;
        repairs = counted_repairs result.repairs_attempted k;
      }

      failed-IsCounted :
          (result : TaskResult)
          → result.repairs_attempted ≤ r.tasks.max_repairs_per_task
          → IsCounted r
              (record (count_task r result attempted) { tasks_failed = run.tasks_failed + 1 })
      failed-IsCounted result k = record {
        totals = omega (arith, h.totals);
        bounded = omega arith;
        one_failure = omega (arith, clean);
        repairs = counted_repairs result.repairs_attempted k;
      }

      after_task-Counts :
          (result : Option TaskResult)
          → Within r.tasks.max_repairs_per_task result
          → Ensures Counts (after_task r attempted result)
      after_task-Counts none k = pure-Ensures _ _ (λ s. tt)
      after_task-Counts (some result) k = bind-Ensures _ commit _ (λ _.
          if-Ensures _ (is_done result.outcome.status) _ _
            (λ _.
              if-Ensures _ (r.shutdown run.asked) _ _
                (λ _.
                  pure-Ensures _ (break shutdown_requested (done result))
                    (λ s. done-IsCounted result k))
                (λ _.
                  if-Ensures _ (leb r.limits.max_tasks_per_run (run.tasks_attempted + 1)) _ _
                    (λ _. bind-Ensures _ (gets (max_task_stop_reason r)) _ (λ reason.
                      pure-Ensures _ (break reason (done result)) (λ s. done-IsCounted result k)))
                    (λ _.
                      pure-Ensures _ (continue (done result))
                        (λ s. (done-IsCounted result k, clean)))))
            (λ _.
              pure-Ensures _
                (break (stop_reason_for_outcome result.outcome)
                  (record (count_task r result attempted) { tasks_failed = run.tasks_failed + 1 }))
                (λ s. failed-IsCounted result k)))

    module _ (room : run.tasks_attempted < r.limits.max_tasks_per_run) where
      attempt_task-Counts :
          (scheduled : SchedulerIterationResult) (bundle : ExecutionPackage)
          → Ensures Counts (attempt_task r run scheduled bundle)
      unfolding attempt_task
      attempt_task-Counts scheduled bundle =
          bind-Ensures _ (persist_claim_boundary r scheduled) _ (λ _.
            then-Ensures _ (Limited r.tasks.max_repairs_per_task)
              (run_task r.tasks r.scheduler.owner_id r.repair_fuel scheduled bundle) _
              (run_task-Limited r.tasks r.scheduler.owner_id r.repair_fuel scheduled bundle)
              (λ result s k.
                Ensures-at Counts _
                  (after_task-Counts room (some bundle.task_id) (some bundle.execution_id) result k)
                  s))

      with_package-Counts :
          (scheduled : SchedulerIterationResult) (bundle : Option ExecutionPackage)
          → Ensures Counts (with_package r run scheduled bundle)
      with_package-Counts scheduled none = not_ready-Counts scheduled
      with_package-Counts scheduled (some bundle) = attempt_task-Counts scheduled bundle

      after_iteration-Counts :
          (scheduled : SchedulerIterationResult) (status : SchedulerIterationStatus)
          → Ensures Counts (after_iteration r run scheduled status)
      after_iteration-Counts scheduled SchedulerIterationStatus.no_ready_task =
          pure-Ensures _ (break no_ready_task run) (λ s. h)
      after_iteration-Counts scheduled SchedulerIterationStatus.claim_contention =
          pure-Ensures _
            (continue (add_outcome (scheduler_outcome scheduled TaskOutcomeStatus.contention) run))
            (λ s. (
              record {
                totals = h.totals;
                bounded = h.bounded;
                one_failure = h.one_failure;
                repairs = h.repairs;
              },
              clean,
            ))
      after_iteration-Counts scheduled SchedulerIterationStatus.package_ready =
          with_package-Counts scheduled scheduled.execution_package
      after_iteration-Counts scheduled SchedulerIterationStatus.blocked = not_ready-Counts scheduled
      after_iteration-Counts scheduled SchedulerIterationStatus.error = not_ready-Counts scheduled

  -- The counts do not depend on how often the clock and the flag were asked.
  asked-IsCounted :
      (run : Run) (ticks asked : ℕ)
      → IsCounted r run
      → IsCounted r (record run { ticks = ticks; asked = asked })
  asked-IsCounted run ticks asked h = record {
    totals = h.totals;
    bounded = h.bounded;
    one_failure = h.one_failure;
    repairs = h.repairs;
  }

  round-Counts : (run : Run) → IsCounted r run → run.tasks_failed ≡ 0 → Ensures Counts (round r run)
  unfolding round
  round-Counts run h clean =
      if-Ensures _ (leb r.limits.max_tasks_per_run run.tasks_attempted) _ _
        (λ _. pure-Ensures _ (break max_tasks_per_run run) (λ s. h))
        (λ room.
          if-Ensures _ (leb r.limits.max_wall_clock_seconds (elapsed r run.ticks)) _ _
            (λ _.
              pure-Ensures _ (break max_wall_clock_seconds (record run { ticks = run.ticks + 1 }))
                (λ s. asked-IsCounted run (run.ticks + 1) run.asked h))
            (λ _.
              if-Ensures _ (leb r.limits.max_failures_per_run run.tasks_failed) _ _
                (λ _.
                  pure-Ensures _ (break max_failures_per_run (record run { ticks = run.ticks + 1 }))
                    (λ s. asked-IsCounted run (run.ticks + 1) run.asked h))
                (λ _.
                  if-Ensures _ (r.shutdown run.asked) _ _
                    (λ _.
                      pure-Ensures _
                        (break shutdown_requested
                          (record run { ticks = run.ticks + 1; asked = run.asked + 1 }))
                        (λ s. asked-IsCounted run (run.ticks + 1) (run.asked + 1) h))
                    (λ _. bind-Ensures _ (iterate r.scheduler r.project_id 1) _ (λ scheduled.
                      after_iteration-Counts
                        (record run { ticks = run.ticks + 1; asked = run.asked + 1 })
                        (asked-IsCounted run (run.ticks + 1) (run.asked + 1) h) clean
                        (ground (arith, room)) scheduled scheduled.status)))))

  abbrev Counted : Option BoundedRunResult → Session → Type 0
  Counted none s = Unit
  Counted (some result) s = IsCounted r result.final

  rounds-Counted :
      (fuel : ℕ) (run : Run)
      → IsCounted r run
      → run.tasks_failed ≡ 0
      → Ensures Counted (rounds r fuel run)
  unfolding rounds
  rounds-Counted zero run h clean = pure-Ensures _ none (λ s. tt)
  rounds-Counted (suc fuel) run h clean =
      then-Ensures _ Counts (round r run) _ (round-Counts run h clean)
        (followed (λ next k still. rounds-Counted fuel next k still))
    where
      followed :
          ((next : Run)
            → IsCounted r next
            → next.tasks_failed ≡ 0
            → Ensures Counted (rounds r fuel next))
          → (flow : Flow) (s : Session) → Counts flow s
          → (o : Option BoundedRunResult) → (follow r (rounds r fuel) flow s).0 ≡ return o
          → Counted o (follow r (rounds r fuel) flow s).1
      followed rest (break reason final) s k =
          Ensures-at Counted _
            (pure-Ensures Counted (some (record { final = final; stop_reason = reason })) (λ _. k))
            s
      followed rest (continue next) s (k, still) = Ensures-at Counted _ (rest next k still) s
      followed rest exhausted s k = Ensures-at Counted _ (pure-Ensures Counted none (λ _. tt)) s

  -- A bounded run that answers attempted as many tasks as it completed or failed, at most the
  -- limit; at most one failed, and the repairs are at most the allowed number for each attempted
  -- task.
  pub run_bounded-IsCounted :
      (fuel : ℕ) (s : Session) {result : BoundedRunResult}
      → (run_bounded r fuel s).0 ≡ return (some result)
      → IsCounted r result.final
  unfolding run_bounded Ensures
  run_bounded-IsCounted fuel s {result} h =
      rounds-Counted fuel first_run
        (record {
          totals = refl;
          bounded = omega arith;
          one_failure = omega arith;
          repairs = omega arith;
        })
        refl s (some result) h
