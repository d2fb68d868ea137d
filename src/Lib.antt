-- ===== src/Lib.antt =====
-- A verification library for the scheduler of ai_ent: the tables of tasks, executions, checkpoints
-- and leases, the services that claim, run, finalize and repair a task over them, the baseline that
-- gates a claim, and the loop that drives them all.
--
-- The parts, and the files of src/ai_ent that they model:
--   * Prelude: tests on numbers, tables as lists of rows, JSON objects, words in a text.
--   * Persistence: persistence/models.py (Models) and persistence/repositories/{tasks, executions,
--     leases, checkpoints}.py, over a session as explicit state (Session). Invariant says what the
--     constraints of the tables promise, and Sound that the statements keep it.
--   * Bootstrap: bootstrap/models.py and build_execution_package of bootstrap/codex.py (Models), the
--     scope check and the commit of bootstrap/git.py (Git).
--   * Scheduler.Claiming: scheduler/claiming.py, claim_task, renew, release, complete and
--     has_valid_lease. A claim reads the task, its active lease and the blockers of the baseline,
--     and stores an execution and a lease.
--   * Scheduler.Cycles and Scheduler.Readiness: scheduler/readiness.py, `_cycle_nodes`, and
--     evaluate_task, list_ready_tasks and the loading of a project's graph, which asks
--     Scheduler.Baseline.Blockers for the dependencies that the baseline lacks.
--   * Scheduler.Durability: scheduler/durability.py, persist_execution_ownership.
--   * Scheduler.Execution: scheduler/execution.py, run_claimed.
--   * Scheduler.Finalization: scheduler/finalization.py; what is recorded stands in the parent, and
--     `finalize` in Steps.
--   * Scheduler.Repair: scheduler/repair.py, the classifier and the planner; a planned repair claims
--     its task again through Scheduler.Claiming. Repair.Service is RepairExecutionService, which
--     plans, runs and finalizes.
--   * Scheduler.Baseline: scheduler/hardening_baseline.py. The parent has the state and how it is
--     read from a checkpoint, Blockers what it asks of a claim, Validations the checks of the
--     provenance of an integration, and Advances `advance`.
--   * Scheduler.Iteration: scheduler/iteration.py. `iterate` is run_once: it lists a ready task,
--     claims it, and builds its package.
--   * Scheduler.Bounded: scheduler/bounded.py. Tasks is `_run_task`, which runs a package, finalizes
--     it and repairs it; the parent is the loop of `run`, an iteration and a task in each round.
--   * Examples: sample tables and runs.
--
-- How the code is read. An identifier is a number: the code only compares and orders identifiers.
-- An instant is a number of seconds. A SQLAlchemy query is a function on the lists of rows, and
-- `session.flush()` checks the constraints of persistence/models.py that its rows can violate; a
-- violated one rolls the session back to its last commit and raises. The time of a transaction,
-- wall clocks, uuid4 and the row locks of others are functions in the session, so a statement about
-- any session holds whatever they answer. An operation is a function from a session to a result,
-- which returns or raises, and the session after it.
--
-- Arguments of the model: git, worktrees, the executor, the verifier, the committer, the manifest and
-- its loaders, fnmatch, the text of an identifier and of an exception, the baseline service of a
-- claim, the pending gates, the unresolved decisions, the digest that names a checkpoint of the
-- baseline, and the answers of the clock and of the shutdown flag of a bounded run. The texts that
-- are read in lower case are ASCII.
--
-- Fuel: `_cycle_nodes` has one more than the number of tasks, as deep as a path of distinct tasks can
-- be. The loop of a bounded run and the loop of its repairs take fuel too: a limit of repairs bounds
-- the one, and the wall-clock limit the other, as a claim that another holds is no attempt.
--
-- Not modelled: guarded.py and recovery.py of the scheduler, and recover_then_run of bounded.py, which
-- calls the latter; the text of objectives, instructions and commit messages; the repositories of
-- projects and bootstrap runs, plan imports and gates, connections and migrations; and the planners,
-- reports and web services around the scheduler, which only call it or produce documents.
pub mod Prelude
pub mod Persistence
pub mod Scheduler
pub mod Bootstrap
pub mod Examples
