-- ===== src/Scheduler/Repair/Classes.antt =====
-- Which failures are repairable, and what the decision to repair rests on.
use ai_ent.Prelude.{
  ℕ, ◌≡◌, ◌↔◌, ◌<◌, ◌⊎◌, true, false, String, Option, some, List, [], ◌∷◌, arith, All, or_else,
  opt_eq, mentions,
}
use ai_ent.Persistence.Models.{Execution, Checkpoint}
use ai_ent.Scheduler.Repair.{
  Retryability, repairable, RepairPolicy, repair_with_new_execution, checkpoint_status,
  is_failed_or_cancelled, classify, classify_rest, action_for,
}

-- The recorded error names none of these.
abbrev pub Unmentioned : Execution → List String → Type 0
Unmentioned execution words =
    All (λ word. mentions word (or_else execution.error_classification "") ≡ false) words

-- A failure that may be repaired: not of the scope check; and of the verification or, where neither
-- the commit, the database, a time limit, the worktree nor a lease is to blame, of the executor.
pub record IsRepairable (execution : Execution) (checkpoint : Option Checkpoint) : Type 0 where
  pub not_scope : opt_eq (checkpoint_status checkpoint) (some "scope_failed") ≡ false
  pub no_scope : Unmentioned execution ("scope" ∷ [])
  pub cause :
      ((opt_eq (checkpoint_status checkpoint) (some "verification_failed") ≡ true)
        ⊎ (mentions "verification" (or_else execution.error_classification "") ≡ true))
      ⊎ ((is_failed_or_cancelled execution.status ≡ true)
          × (opt_eq (checkpoint_status checkpoint) (some "commit_denied") ≡ false)
          × Unmentioned execution (
              "commit" ∷ "db" ∷ "timeout" ∷ "worktree" ∷ "lease" ∷ "ownership" ∷ "environment"
              ∷ []))

pub classify-IsRepairable :
    (execution : Execution) (checkpoint : Option Checkpoint)
    → (classify execution checkpoint).retryability ≡ repairable
    → IsRepairable execution checkpoint
unfolding classify classify_rest
classify-IsRepairable execution checkpoint h = record {
  not_scope = ground (arith, h);
  no_scope = ground (arith, h);
  cause = ground (arith, h);
}

pub action_for-repair :
    (policy : RepairPolicy) (retryability : Retryability) (attempts : ℕ)
    → (action_for policy retryability attempts ≡ repair_with_new_execution)
      ↔ ((retryability ≡ repairable) × (attempts < policy.max_autonomous_repair_attempts))
unfolding action_for
action_for-repair policy retryability attempts = ground arith
