-- ===== src/Scheduler/Baseline/Stored.antt =====
-- src/ai_ent/scheduler/hardening_baseline.py: the checkpoint that an advancement stores.
use ai_ent.Prelude.{
  ℕ, ◌≡◌, ◌==◌, inl, inr, true, false, String, some, [], ◌∷◌, ◌++◌, arith, Bool-cases, Option-cases,
  ==_iff, subst, sym,
}
use ai_ent.Persistence.Models.{Task, RuntimeTaskPlanBinding, is_passed}
use ai_ent.Persistence.Session.{Session, return}
use ai_ent.Persistence.Tasks
use ai_ent.Persistence.Checkpoints
use ai_ent.Scheduler.Baseline.{
  HardeningBaselineState, represents, initial_state, current_for_binding,
}
use ai_ent.Scheduler.Baseline.Validations.{
  BaselineAdvanceResult, is_advanced, Git, Advancement, Provenance, validate_provenance,
}
use ai_ent.Scheduler.Baseline.Advances.{
  advanced_state, task_named, state_row, record_advance, after_validation, plan_binding, advance,
}
use ai_ent.Scheduler.Baseline.Current.{Validation-cases}
use ai_ent.Scheduler.Baseline.Advancing.{IsProven, provenance-IsProven, provenance-Refuses, Refuses}

module _ (git : Git) (id_text : ℕ → String)
    (checkpoint_id : (plan_id plan_version : String) (generation : ℕ) → ℕ) (a : Advancement) where
  -- The state that is recorded after `current`, and its row.
  pub record IsRecorded (current : HardeningBaselineState) (p : Provenance) (s s' : Session)
      (r : BaselineAdvanceResult) : Type 0 where
    pub owner : Task
    pub is_new : represents current (id_text a.task_id) ≡ false
    pub at_generation : current.generation ≡ a.expected_generation
    pub has_owner : task_named git id_text checkpoint_id current.owner_task_id s.db ≡ some owner
    pub answered : r.state ≡ some (advanced_state current (id_text a.task_id) p)
    pub rows : s'.db ≡ record s.db {
      checkpoints =
          s.db.checkpoints
          ++ state_row git id_text checkpoint_id
              (advanced_state current (id_text a.task_id) p)
              owner.id
              (s.wall_clock s.drawn)
            ∷ [];
    }

  record_advance-IsRecorded :
      (current : HardeningBaselineState) (p : Provenance) (s : Session) {r : BaselineAdvanceResult}
      → (record_advance git id_text checkpoint_id a current p s).0 ≡ return r
      → is_advanced r.status ≡ true
      → IsRecorded current p s (record_advance git id_text checkpoint_id a current p s).1 r
  unfolding record_advance
  record_advance-IsRecorded current p s {r} h k =
      elim (Bool-cases (represents current (id_text a.task_id))) [
        | inl old ↦ absurd (ground (arith, old, h, k))
        | inr new ↦ elim (Bool-cases (current.generation == a.expected_generation)) [
          | inr stale ↦ absurd (ground (arith, new, stale, h, k))
          | inl same ↦
              elim (Option-cases
                (task_named git id_text checkpoint_id current.owner_task_id s.db)) [
                  | inl o ↦ absurd (ground (arith, new, same, o, h, k))
                  | inr (owner, o) ↦
                      elim (Bool-cases (
                        Checkpoints.admissible
                          (state_row git id_text checkpoint_id
                            (advanced_state current (id_text a.task_id) p) owner.id
                            (s.wall_clock s.drawn))
                          s.db)) [
                            | inr bad ↦ absurd (ground (arith, new, same, o, bad, h, k))
                            | inl ok ↦ record {
                              owner = owner;
                              is_new = new;
                              at_generation = (==_iff _ _).0 same;
                              has_owner = o;
                              answered = ground (arith, new, same, o, ok, h, k);
                              rows = ground (arith, new, same, o, ok, h, k);
                            }
                          ]
                ]
        ]
      ]

  -- What an advancement rests on, and what it leaves.
  pub record IsAdvance (s s' : Session) (r : BaselineAdvanceResult) : Type 0 where
    pub binding : RuntimeTaskPlanBinding
    pub current : HardeningBaselineState
    pub task : Task
    pub provenance : Provenance
    pub has_binding : plan_binding git id_text checkpoint_id a s.db ≡ some binding
    pub is_current : current_for_binding id_text binding s.db ≡ some current
    pub has_task : Tasks.get a.task_id s.db ≡ some task
    pub has_passed : is_passed task.status ≡ true
    pub proven : IsProven git id_text a binding task s.db provenance
    pub recorded : IsRecorded current provenance s s' r

  validated-IsAdvance :
      (binding : RuntimeTaskPlanBinding) (current : HardeningBaselineState) (task : Task)
      (s : Session) {r : BaselineAdvanceResult}
      → plan_binding git id_text checkpoint_id a s.db ≡ some binding
      → current_for_binding id_text binding s.db ≡ some current
      → Tasks.get a.task_id s.db ≡ some task
      → is_passed task.status ≡ true
      → (after_validation git id_text checkpoint_id a current
          (validate_provenance git id_text a binding task s.db)
          s).0
        ≡ return r
      → is_advanced r.status ≡ true
      → IsAdvance s
          (after_validation git id_text checkpoint_id a current
            (validate_provenance git id_text a binding task s.db)
            s).1
          r
  unfolding Refuses
  validated-IsAdvance binding current task s {r} b c t passed h k =
      elim (Validation-cases (validate_provenance git id_text a binding task s.db)) [
        | inr (status, reason, v) ↦ absurd (
            ground
              (arith, v, h, k, provenance-Refuses git id_text a binding task s.db status reason v))
        | inl (p, v) ↦
            let same : after_validation git id_text checkpoint_id a current
                  (validate_provenance git id_text a binding task s.db) s
                ≡ record_advance git id_text checkpoint_id a current p s =
              ground (arith, v) in
            record {
              binding = binding;
              current = current;
              task = task;
              provenance = p;
              has_binding = b;
              is_current = c;
              has_task = t;
              has_passed = passed;
              proven = provenance-IsProven git id_text a binding task s.db v;
              recorded =
                  subst (λ x. IsRecorded current p s x.1 r) (sym same)
                    (record_advance-IsRecorded current p s (ground (arith, same, h)) k);
            }
      ]

  -- An advancement that answers ADVANCED is for a passed task that the current state did not
  -- represent, at the expected generation. The verified integration agrees with the plan, the task
  -- and the arguments; its source execution succeeded for the task from the integration's prior
  -- baseline; the checkpoint of that execution records a completed and verified run of its tree;
  -- and git resolves the execution's commit and tree to the source, and the resulting baseline to
  -- the new one. One checkpoint is stored, with the next state, for the owner.
  pub advance-IsAdvance :
      (s : Session) {r : BaselineAdvanceResult}
      → (advance git id_text checkpoint_id a s).0 ≡ return r
      → is_advanced r.status ≡ true
      → IsAdvance s (advance git id_text checkpoint_id a s).1 r
  unfolding advance
  advance-IsAdvance s {r} h k =
      elim (Option-cases (plan_binding git id_text checkpoint_id a s.db)) [
        | inl b ↦ absurd (ground (arith, b, h, k))
        | inr (binding, b) ↦ elim (Option-cases (initial_state binding)) [
          | inl i ↦ absurd (ground (arith, b, i, h, k))
          | inr (initial, i) ↦
              elim (Option-cases
                (task_named git id_text checkpoint_id initial.owner_task_id s.db)) [
                  | inl o ↦ absurd (ground (arith, b, i, o, h, k))
                  | inr (owner, o) ↦ elim (Bool-cases (s.locked owner.id)) [
                    | inl l ↦ absurd (ground (arith, b, i, o, l, h, k))
                    | inr l ↦ elim (Option-cases (current_for_binding id_text binding s.db)) [
                      | inl c ↦ absurd (ground (arith, b, i, o, l, c, h, k))
                      | inr (current, c) ↦ elim (Option-cases (Tasks.get a.task_id s.db)) [
                        | inl t ↦ absurd (ground (arith, b, i, o, l, c, t, h, k))
                        | inr (task, t) ↦ elim (Bool-cases (is_passed task.status)) [
                          | inr p ↦ absurd (ground (arith, b, i, o, l, c, t, p, h, k))
                          | inl p ↦
                              let same : advance git id_text checkpoint_id a s
                                  ≡ after_validation git id_text checkpoint_id a current
                                      (validate_provenance git id_text a binding task s.db) s =
                                ground (arith, b, i, o, l, c, t, p) in
                              subst (λ x. IsAdvance s x.1 r) (sym same)
                                (validated-IsAdvance binding current task s b c t p
                                  (ground (arith, same, h)) k)
                        ]
                      ]
                    ]
                  ]
                ]
        ]
      ]
