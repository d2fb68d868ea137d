-- ===== src/Scheduler/Bounded/Asserting.antt =====
-- src/ai_ent/scheduler/bounded.py: what `_run_task` can answer where no repair is allowed.
use ai_ent.Prelude.{◌≡◌, ◌⊎◌, Option, none, some}
use ai_ent.Persistence.Ensures.{Ensures}
use ai_ent.Persistence.Session.{Session}
use ai_ent.Scheduler.Bounded.Tasks.{TaskResult, TaskOutcomeStatus}

-- A task that was completed without a repair, or whose execution failed.
abbrev pub Unrepaired : Option TaskResult → Type 0
Unrepaired none = Unit
Unrepaired (some t) =
    ((t.outcome.status ≡ TaskOutcomeStatus.completed)
      ⊎ (t.outcome.status ≡ TaskOutcomeStatus.failed))
    × (t.repairs_attempted ≡ 0)

abbrev Stays : Option TaskResult → Session → Type 0
Stays result s = Unrepaired result
