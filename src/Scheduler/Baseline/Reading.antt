-- ===== src/Scheduler/Baseline/Reading.antt =====
-- src/ai_ent/scheduler/hardening_baseline.py: the state that an advancement stores is the one that
-- is read afterwards.
use ai_ent.Prelude.{
  ℕ, ◌+◌, ◌≡◌, ◌⊎◌, inl, inr, refl, sym, subst, true, false, String, some, List, [], ◌∷◌, ◌++◌,
  arith, Bool-cases, Option-cases, ltb, All, keep, str_eq, eq_refl, eq_iff, head-keep,
  keep-append_one, All-keep, sort_by-append_first, sort_by-sort_by, text_leb, text_leb_total,
  or_else, Elem, Elem-sorted,
}
use ai_ent.Persistence.Models.{Task, Checkpoint, RuntimeTaskPlanBinding}
use ai_ent.Persistence.Session.{Db, Session, return}
use ai_ent.Persistence.Checkpoints
use ai_ent.Scheduler.Baseline.{
  HardeningBaselineState, as_checkpoint_state, state_of_payload, state_from_checkpoint, same_plan,
  records_baseline, or_empty, represents, contains, initial_state, current_for_binding,
  recorded_state, latest_baseline_checkpoint,
}
use ai_ent.Scheduler.Baseline.Records.{IsWritten, state_of_payload-as_checkpoint_state}
use ai_ent.Scheduler.Baseline.Validations.{
  BaselineAdvanceResult, Git, Advancement, Provenance, is_advanced,
}
use ai_ent.Scheduler.Baseline.Advances.{
  advanced_state, task_named, state_row, advance, plan_binding,
}
use ai_ent.Scheduler.Baseline.Stored.{IsAdvance, advance-IsAdvance}

-- The texts of a state that may not be empty.
pub record IsNamed (state : HardeningBaselineState) : Type 0 where
  pub has_plan : str_eq state.plan_id "" ≡ false
  pub has_version : str_eq state.plan_version "" ≡ false
  pub has_owner : str_eq state.owner_task_id "" ≡ false
  pub has_commit : str_eq state.baseline_commit "" ≡ false
  pub has_tree : str_eq state.baseline_tree "" ≡ false

advanced_state-IsWritten :
    (current : HardeningBaselineState) (task_id : String) (p : Provenance)
    → IsNamed (advanced_state current task_id p)
    → IsWritten (advanced_state current task_id p)
unfolding advanced_state
advanced_state-IsWritten current task_id p n = record {
  has_plan = n.has_plan;
  has_version = n.has_version;
  has_owner = n.has_owner;
  has_commit = n.has_commit;
  has_tree = n.has_tree;
  is_ordered =
      sort_by-sort_by text_leb text_leb_total (current.integrated_task_ids ++ task_id ∷ []);
}

advanced_state-read :
    (current : HardeningBaselineState) (task_id : String) (p : Provenance)
    → IsNamed (advanced_state current task_id p)
    → state_of_payload (as_checkpoint_state (advanced_state current task_id p))
      ≡ some (advanced_state current task_id p)
advanced_state-read current task_id p n =
    subst (λ x. state_of_payload (as_checkpoint_state (advanced_state current task_id p)) ≡ some x)
      same
      (state_of_payload-as_checkpoint_state (advanced_state current task_id p)
        (advanced_state-IsWritten current task_id p n))
  where
    same :
        record (advanced_state current task_id p) {
          task_commits = some (or_empty (advanced_state current task_id p).task_commits);
          task_trees = some (or_empty (advanced_state current task_id p).task_trees);
        }
        ≡ advanced_state current task_id p
    same = unfold advanced_state in refl

module _ (id_text : ℕ → String) (initial : HardeningBaselineState) where
  same_plan_self : same_plan initial (some initial) ≡ true
  same_plan_self = ground (arith, eq_refl initial.plan_id, eq_refl initial.plan_version)

  -- The state that is read is one of the plan.
  recorded_state-same_plan :
      (db : Db)
      → same_plan initial
          (some (recorded_state id_text initial (latest_baseline_checkpoint id_text initial db)))
        ≡ true
  unfolding latest_baseline_checkpoint
  recorded_state-same_plan db =
      elim (Option-cases (latest_baseline_checkpoint id_text initial db)) [
        | inl e ↦ rw e same_plan_self
        | inr (c, e) ↦
            let matches = head-keep (λ x. same_plan initial (state_from_checkpoint x)) _ e in
            rw e (read c matches)
      ]
    where
      read :
          (c : Checkpoint)
          → same_plan initial (state_from_checkpoint c) ≡ true
          → same_plan initial (some (or_else (state_from_checkpoint c) initial)) ≡ true
      read c m = elim (Option-cases (state_from_checkpoint c)) [
        | inl e ↦ absurd (ground (arith, e, m))
        | inr (state, e) ↦ rw e (rw e at m)
      ]

  -- A new record of the plan that is younger than all others is the one that is read.
  latest-appended :
      (db : Db) (row : Checkpoint) (state : HardeningBaselineState)
      → All (λ c. Checkpoints.created_last c row ≡ false) db.checkpoints
      → records_baseline id_text initial row ≡ true
      → state_from_checkpoint row ≡ some state
      → same_plan initial (some state) ≡ true
      → latest_baseline_checkpoint id_text initial
          (record db { checkpoints = db.checkpoints ++ row ∷ [] })
        ≡ some row
  unfolding latest_baseline_checkpoint keep
  latest-appended db row state young kept read plan =
      rw
        (
          keep-append_one (records_baseline id_text initial) db.checkpoints row kept,
          sort_by-append_first Checkpoints.created_last
              (keep (records_baseline id_text initial) db.checkpoints) row
              (All-keep (λ c. Checkpoints.created_last c row ≡ false)
                (records_baseline id_text initial) db.checkpoints young),
        )
        (ground (arith, read, plan))

  current-appended :
      (binding : RuntimeTaskPlanBinding) (db : Db) (row : Checkpoint)
      (state : HardeningBaselineState)
      → initial_state binding ≡ some initial
      → All (λ c. Checkpoints.created_last c row ≡ false) db.checkpoints
      → records_baseline id_text initial row ≡ true
      → state_from_checkpoint row ≡ some state
      → same_plan initial (some state) ≡ true
      → current_for_binding id_text binding (record db { checkpoints = db.checkpoints ++ row ∷ [] })
        ≡ some state
  unfolding current_for_binding
  current-appended binding db row state policy young kept read plan =
      ground (arith, policy, latest-appended db row state young kept read plan, read)

  current-same_plan :
      (binding : RuntimeTaskPlanBinding) (db : Db) (current : HardeningBaselineState)
      → initial_state binding ≡ some initial
      → current_for_binding id_text binding db ≡ some current
      → same_plan initial (some current) ≡ true
  unfolding current_for_binding
  current-same_plan binding db current policy found =
      let same : recorded_state id_text initial (latest_baseline_checkpoint id_text initial db)
          ≡ current =
        ground (arith, policy, found) in
      subst (λ x. same_plan initial (some x) ≡ true) same (recorded_state-same_plan db)

-- A younger row stands first in the descending order.
created_last-younger :
    (row : Checkpoint) (cs : List Checkpoint)
    → All (λ c. ltb c.created_at row.created_at ≡ true) cs
    → All (λ c. Checkpoints.created_last c row ≡ false) cs
created_last-younger row [] h = tt
created_last-younger row (c ∷ cs) h = (ground (arith, h.0), created_last-younger row cs h.1)

-- Membership in a list of texts, as the code tests it.
Elem-contains : (t : String) (ts : List String) → contains ts t ≡ true → Elem t ts
unfolding contains
Elem-contains t [] h = absurd (ground (arith, h))
Elem-contains t (x ∷ xs) h = elim (Bool-cases (str_eq x t)) [
  | inl e ↦ inl (sym ((eq_iff x t).0 e))
  | inr e ↦ inr (Elem-contains t xs (ground (arith, e, h)))
]

contains-Elem : (t : String) (ts : List String) → Elem t ts → contains ts t ≡ true
unfolding contains
contains-Elem t [] e = absurd e
contains-Elem t (x ∷ xs) (inl e) = ground (arith, (eq_iff x t).1 (sym e))
contains-Elem t (x ∷ xs) (inr e) = ground (arith, contains-Elem t xs e)

Elem-append : (t : String) (xs ys : List String) → Elem t xs ⊎ Elem t ys → Elem t (xs ++ ys)
Elem-append t [] ys (inl e) = absurd e
Elem-append t [] ys (inr e) = e
Elem-append t (x ∷ xs) ys (inl (inl e)) = inl e
Elem-append t (x ∷ xs) ys (inl (inr e)) = inr (Elem-append t xs ys (inl e))
Elem-append t (x ∷ xs) ys (inr e) = inr (Elem-append t xs ys (inr e))

-- The next state represents the task and all that the state represented.
advanced_state-represents :
    (current : HardeningBaselineState) (task_id : String) (p : Provenance) (t : String)
    → (t ≡ task_id) ⊎ (represents current t ≡ true)
    → represents (advanced_state current task_id p) t ≡ true
unfolding advanced_state
advanced_state-represents current task_id p t h = contains-Elem t _ (
    Elem-sorted text_leb t (current.integrated_task_ids ++ task_id ∷ [])
      (Elem-append t current.integrated_task_ids (task_id ∷ []) (place h)))
  where
    place :
        (t ≡ task_id) ⊎ (represents current t ≡ true)
        → Elem t current.integrated_task_ids ⊎ Elem t (task_id ∷ [])
    place (inl e) = inr (inl e)
    place (inr e) = inl (Elem-contains t current.integrated_task_ids e)

module _ (git : Git) (id_text : ℕ → String)
    (checkpoint_id : (plan_id plan_version : String) (generation : ℕ) → ℕ) (a : Advancement) where
  -- The row of the next state is one of the plan's records.
  row-recorded :
      (initial current : HardeningBaselineState) (p : Provenance) (owner : Task) (created : ℕ)
      (db : Db)
      → current.owner_task_id ≡ initial.owner_task_id
      → task_named git id_text checkpoint_id current.owner_task_id db ≡ some owner
      → records_baseline id_text initial (
          state_row git id_text checkpoint_id
            (advanced_state current (id_text a.task_id) p)
            owner.id
            created)
        ≡ true
  row-recorded initial current p owner created db same found =
      let named =
        head-keep (λ (t : Task). str_eq (id_text t.id) current.owner_task_id) db.tasks found in
      ground (arith, rw same at named)

  next-same_plan :
      (initial current : HardeningBaselineState) (p : Provenance)
      → same_plan initial (some current) ≡ true
      → same_plan initial (some (advanced_state current (id_text a.task_id) p)) ≡ true
  unfolding advanced_state
  next-same_plan initial current p h = h

  advance-read :
      (s s' : Session) (r : BaselineAdvanceResult) (initial : HardeningBaselineState)
      (ended : IsAdvance git id_text checkpoint_id a s s' r)
      → initial_state ended.binding ≡ some initial
      → ended.current.owner_task_id ≡ initial.owner_task_id
      → IsNamed (advanced_state ended.current (id_text a.task_id) ended.provenance)
      → All (λ c. ltb c.created_at (s.wall_clock s.drawn) ≡ true) s.db.checkpoints
      → current_for_binding id_text ended.binding s'.db
        ≡ some (advanced_state ended.current (id_text a.task_id) ended.provenance)
  advance-read s s' r initial ended policy owner named young =
      let next = advanced_state ended.current (id_text a.task_id) ended.provenance in
      let row =
        state_row git id_text checkpoint_id next ended.recorded.owner.id (s.wall_clock s.drawn) in
      let plan =
        current-same_plan id_text initial ended.binding s.db ended.current policy
          ended.is_current in
      let reads =
        current-appended id_text initial ended.binding s.db row next policy
          (created_last-younger row s.db.checkpoints young)
          (row-recorded initial ended.current ended.provenance ended.recorded.owner
            (s.wall_clock s.drawn) s.db owner ended.recorded.has_owner)
          (advanced_state-read ended.current (id_text a.task_id) ended.provenance named)
          (next-same_plan initial ended.current ended.provenance plan) in
      rw ended.recorded.rows reads

  -- After an advancement that answers ADVANCED, the state that is read for the plan is the one it
  -- answered: its generation is one more than the expected one, which was current, and it
  -- represents the task and all that was represented before. The conditions are that the recorded
  -- owner is the policy's, that the texts of the new state are not empty, and that no checkpoint
  -- is from the present or later.
  pub advance-current :
      (s : Session) {r : BaselineAdvanceResult} {binding : RuntimeTaskPlanBinding}
      {initial current next : HardeningBaselineState}
      → (advance git id_text checkpoint_id a s).0 ≡ return r
      → is_advanced r.status ≡ true
      → plan_binding git id_text checkpoint_id a s.db ≡ some binding
      → initial_state binding ≡ some initial
      → current_for_binding id_text binding s.db ≡ some current
      → current.owner_task_id ≡ initial.owner_task_id
      → r.state ≡ some next
      → IsNamed next
      → All (λ c. ltb c.created_at (s.wall_clock s.drawn) ≡ true) s.db.checkpoints
      → (current_for_binding id_text binding (advance git id_text checkpoint_id a s).1.db
          ≡ some next)
        × (current.generation ≡ a.expected_generation)
        × (next.generation ≡ a.expected_generation + 1)
        × (represents current (id_text a.task_id) ≡ false)
        × (represents next (id_text a.task_id) ≡ true)
        × ((t : String) → represents current t ≡ true → represents next t ≡ true)
  advance-current s {r} {binding} {initial} {current} {next} h k bound policy found owner answered
        named young =
      let ended = advance-IsAdvance git id_text checkpoint_id a s h k in
      let task_id = id_text a.task_id in
      let same_binding : ended.binding ≡ binding = ground (arith, ended.has_binding, bound) in
      let bound_policy : initial_state ended.binding ≡ some initial = rw same_binding policy in
      let bound_state : current_for_binding id_text ended.binding s.db ≡ some current =
        rw same_binding found in
      let same_current : ended.current ≡ current = ground (arith, ended.is_current, bound_state) in
      let owner_text : ended.current.owner_task_id ≡ initial.owner_task_id =
        subst (λ x. x.owner_task_id ≡ initial.owner_task_id) (sym same_current) owner in
      let same_next : advanced_state ended.current task_id ended.provenance ≡ next =
        ground (arith, ended.recorded.answered, answered) in
      let reads =
        advance-read s (advance git id_text checkpoint_id a s).1 r initial ended bound_policy
          owner_text (subst IsNamed (sym same_next) named) young in
      (
        ground (arith, reads, same_binding, same_next),
        subst (λ x. x.generation ≡ a.expected_generation) same_current ended.recorded.at_generation,
        subst (λ x. x.generation ≡ a.expected_generation + 1) same_next
            (next_generation ended.current ended.provenance ended.recorded.at_generation),
        subst (λ x. represents x task_id ≡ false) same_current ended.recorded.is_new,
        subst (λ x. represents x task_id ≡ true) same_next
            (advanced_state-represents ended.current task_id ended.provenance task_id (inl refl)),
        λ t e.
            subst (λ x. represents x t ≡ true) same_next
              (advanced_state-represents ended.current task_id ended.provenance t
                (inr (subst (λ x. represents x t ≡ true) (sym same_current) e))),
      )
    where
      next_generation :
          (c : HardeningBaselineState) (p : Provenance)
          → c.generation ≡ a.expected_generation
          → (advanced_state c (id_text a.task_id) p).generation ≡ a.expected_generation + 1
      next_generation c p e = unfold advanced_state in rw e refl
