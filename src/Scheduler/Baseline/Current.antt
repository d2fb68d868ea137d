-- ===== src/Scheduler/Baseline/Current.antt =====
-- src/ai_ent/scheduler/hardening_baseline.py: what an answer of `advance` says of the tables.
use ai_ent.Prelude.{
  ℕ, ◌≡◌, ◌==◌, ◌⊎◌, inl, inr, refl, not, Bool, true, false, String, Option, none, some, arith,
  if◌then◌else◌,
}
use ai_ent.Persistence.Models.{Task, RuntimeTaskPlanBinding, is_passed}
use ai_ent.Persistence.Session.{Session, Action, return, pure}
use ai_ent.Persistence.Tasks
use ai_ent.Scheduler.Baseline.{
  HardeningBaselineState, represents, initial_state, current_for_binding,
}
use ai_ent.Scheduler.Baseline.Validations.{
  BaselineAdvanceResult, BaselineAdvanceStatus, advanced, Git, Advancement, Provenance, Validation,
  valid, invalid, validate_provenance,
}
use ai_ent.Scheduler.Baseline.Advances.{
  advanced_state, task_named, insert_state, record_advance, after_validation, advance_task,
  advance_current, advance_owned, advance_initial, advance_plan, plan_binding, advance,
}

pub Validation-cases :
    {A : Type 0} (v : Validation A)
    → ((a : A) × (v ≡ valid a))
      ⊎ ((status : BaselineAdvanceStatus) × (reason : String) × (v ≡ invalid status reason))
Validation-cases (valid a) = inl (a, refl)
Validation-cases (invalid status reason) = inr (status, reason, refl)

-- An action that answers ADVANCED, or leaves the session as it is.
Stays : Action BaselineAdvanceResult → Type 0
Stays m =
    (s : Session) (r : BaselineAdvanceResult)
    → (m s).0 ≡ return r
    → (r.status ≡ advanced) ⊎ ((m s).1 ≡ s)

pure-Stays : (a : BaselineAdvanceResult) → Stays (pure a)
unfolding Stays
pure-Stays a s r h = inr refl

if-Stays :
    (b : Bool) (m n : Action BaselineAdvanceResult) → Stays m → Stays n → Stays (if b then m else n)
if-Stays true m n hm hn = hm
if-Stays false m n hm hn = hn

module _ (git : Git) (id_text : ℕ → String)
    (checkpoint_id : (plan_id plan_version : String) (generation : ℕ) → ℕ) where
  insert_state-Stays :
      (state : HardeningBaselineState) (owner : Option Task)
      → Stays (insert_state git id_text checkpoint_id state owner)
  unfolding Stays
  insert_state-Stays state none s r h = absurd (ground (arith, h))
  insert_state-Stays state (some owner) s r h = inl (ground (arith, h))

  module _ (a : Advancement) where
    record_advance-Stays :
        (current : HardeningBaselineState) (p : Provenance)
        → Stays (record_advance git id_text checkpoint_id a current p)
    unfolding record_advance Stays
    record_advance-Stays current p =
        if-Stays (represents current (id_text a.task_id)) _ _
          (if-Stays _ _ _ (pure-Stays _) (pure-Stays _))
          (if-Stays (not (current.generation == a.expected_generation)) _ _ (pure-Stays _) (λ s.
            insert_state-Stays (advanced_state current (id_text a.task_id) p)
              (task_named git id_text checkpoint_id current.owner_task_id s.db) s))

    after_validation-Stays :
        (current : HardeningBaselineState) (v : Validation Provenance)
        → Stays (after_validation git id_text checkpoint_id a current v)
    after_validation-Stays current (valid p) = record_advance-Stays current p
    after_validation-Stays current (invalid status reason) = pure-Stays _

    advance_task-Stays :
        (binding : RuntimeTaskPlanBinding) (current : HardeningBaselineState) (task : Option Task)
        → Stays (advance_task git id_text checkpoint_id a binding current task)
    unfolding Stays
    advance_task-Stays binding current none = pure-Stays _
    advance_task-Stays binding current (some task) =
        if-Stays (not (is_passed task.status)) _ _ (pure-Stays _) (λ s.
          after_validation-Stays current (validate_provenance git id_text a binding task s.db) s)

    advance_current-Stays :
        (binding : RuntimeTaskPlanBinding) (current : Option HardeningBaselineState)
        → Stays (advance_current git id_text checkpoint_id a binding current)
    unfolding Stays
    advance_current-Stays binding none = pure-Stays _
    advance_current-Stays binding (some current) =
        λ s. advance_task-Stays binding current (Tasks.get a.task_id s.db) s

    advance_owned-Stays :
        (binding : RuntimeTaskPlanBinding) (name : String) (owner : Option Task)
        → Stays (advance_owned git id_text checkpoint_id a binding name owner)
    unfolding Stays
    advance_owned-Stays binding name none = pure-Stays _
    advance_owned-Stays binding name (some owner) = λ s.
        if-Stays (s.locked owner.id) _ _ (pure-Stays _)
          (advance_current-Stays binding (current_for_binding id_text binding s.db)) s

    advance_initial-Stays :
        (binding : RuntimeTaskPlanBinding) (initial : Option HardeningBaselineState)
        → Stays (advance_initial git id_text checkpoint_id a binding initial)
    unfolding Stays
    advance_initial-Stays binding none = pure-Stays _
    advance_initial-Stays binding (some initial) = λ s.
        advance_owned-Stays binding initial.owner_task_id
          (task_named git id_text checkpoint_id initial.owner_task_id s.db) s

    advance_plan-Stays :
        (binding : Option RuntimeTaskPlanBinding)
        → Stays (advance_plan git id_text checkpoint_id a binding)
    advance_plan-Stays none = pure-Stays _
    advance_plan-Stays (some binding) = advance_initial-Stays binding (initial_state binding)

    -- An advancement that answers with any status but ADVANCED leaves the session as it was.
    pub advance-unchanged :
        (s : Session) (r : BaselineAdvanceResult)
        → (advance git id_text checkpoint_id a s).0 ≡ return r
        → (r.status ≡ advanced) ⊎ ((advance git id_text checkpoint_id a s).1 ≡ s)
    unfolding advance Stays
    advance-unchanged s = advance_plan-Stays (plan_binding git id_text checkpoint_id a s.db) s
