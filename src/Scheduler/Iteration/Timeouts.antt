-- ===== src/Scheduler/Iteration/Timeouts.antt =====
-- src/ai_ent/scheduler/iteration.py: the time limits that a policy gives.
use ai_ent.Prelude.{ℕ, ◌≡◌, ◌<◌, ◌≤◌, Option, none, some, arith}
use ai_ent.Persistence.Models.{RuntimeTaskPlanBinding}
use ai_ent.Persistence.Session.{return}
use ai_ent.Scheduler.Iteration.{
  ExecutionTimeoutPolicy, make_policy, timeout_for_task, maximum_timeout_seconds,
}

-- A policy that the constructor accepts gives every task a positive time limit, at least the
-- standard one and at most the maximum, which is the limit of the complex tasks.
pub make_policy_bounds :
    (standard high : ℕ) (binding : Option RuntimeTaskPlanBinding) {policy : ExecutionTimeoutPolicy}
    → make_policy standard high ≡ return policy
    → (0 < timeout_for_task policy binding)
      × (standard ≤ timeout_for_task policy binding)
      × (timeout_for_task policy binding ≤ maximum_timeout_seconds policy)
      × (maximum_timeout_seconds policy ≡ high)
unfolding make_policy timeout_for_task maximum_timeout_seconds
make_policy_bounds standard high none h = ground (arith, h)
make_policy_bounds standard high (some binding) h = ground (arith, h)
