-- ===== src/Scheduler/Baseline/Advancing.antt =====
-- src/ai_ent/scheduler/hardening_baseline.py: what ADVANCED has checked and stored.
use ai_ent.Prelude.{
  ℕ, ◌≡◌, refl, Bool, true, false, String, Option, none, some, arith, Fields, find, get_field,
  as_text, truthy, eq_iff, ==_iff, opt_eq,
}
use ai_ent.Persistence.Models.{
  Task, Execution, Checkpoint, RuntimeTaskPlanBinding, RuntimeBaselineIntegration, is_verified,
  is_succeeded,
}
use ai_ent.Persistence.Session.{Db}
use ai_ent.Persistence.Executions
use ai_ent.Scheduler.Baseline.{or_empty}
use ai_ent.Scheduler.Baseline.Validations.{
  BaselineAdvanceStatus, is_advanced, Git, Advancement, Provenance, Validation, valid, invalid,
  unless, present, validate_objects, validate_checkpoint, validate_execution, validate_provenance,
  resolve_commit, resolve_commit_tree, same_generation, latest_success_checkpoint, integration_key,
  verification_succeeded,
}

-- No check refuses with ADVANCED.
unfoldable pub Refuses : Validation Provenance → Type 0
Refuses v =
    (status : BaselineAdvanceStatus) (reason : String)
    → v ≡ invalid status reason
    → is_advanced status ≡ false

module _ (status : BaselineAdvanceStatus) (reason : String)
    (other : is_advanced status ≡ false) where
  invalid-Refuses : Refuses (invalid status reason)
  unfolding Refuses
  invalid-Refuses given text same = ground (arith, same, other)

  unless-Refuses :
      (b : Bool) (v : Validation Provenance) → Refuses v → Refuses (unless status reason b v)
  unfolding unless
  unless-Refuses true v h = invalid-Refuses
  unless-Refuses false v h = h

  present-Refuses :
      {B : Type 0} (o : Option B) (f : B → Validation Provenance)
      → ((b : B) → Refuses (f b))
      → Refuses (present status reason o f)
  unfolding present
  present-Refuses none f h = invalid-Refuses
  present-Refuses (some b) f h = h b

module _ (status : BaselineAdvanceStatus) (reason : String) {p : Provenance} where
  -- A check that is followed to its end has passed.
  unless-valid :
      (b : Bool) (v : Validation Provenance)
      → unless status reason b v ≡ valid p
      → (b ≡ false) × (v ≡ valid p)
  unfolding unless
  unless-valid true v h = absurd (ground (arith, h))
  unless-valid false v h = (refl, h)

  present-valid :
      {B : Type 0} (o : Option B) (f : B → Validation Provenance)
      → present status reason o f ≡ valid p
      → (b : B) × (o ≡ some b) × (f b ≡ valid p)
  unfolding present
  present-valid none f h = absurd (ground (arith, h))
  present-valid (some b) f h = (b, refl, h)

valid-Refuses : (p : Provenance) → Refuses (valid p)
unfolding Refuses
valid-Refuses p status reason same = absurd (ground (arith, same))

-- The tests on optional texts and on generations, as equations.
opt_eq_equal : (a b : Option String) → opt_eq a b ≡ true → a ≡ b
opt_eq_equal none none h = refl
opt_eq_equal (some a) (some b) h = ground (arith, h, eq_iff a b)
opt_eq_equal none (some b) h = absurd (ground (arith, h))
opt_eq_equal (some a) none h = absurd (ground (arith, h))

same_generation_equal : (a : Option ℕ) (n : ℕ) → same_generation a n ≡ true → a ≡ some n
same_generation_equal none n h = absurd (ground (arith, h))
same_generation_equal (some m) n h = ground (arith, h, ==_iff m n)

module _ (git : Git) (id_text : ℕ → String) where
  objects-Refuses :
      (i : RuntimeBaselineIntegration) (e : Execution) (c : String)
      → Refuses (validate_objects git id_text i e c)
  unfolding validate_objects
  objects-Refuses i e c = present-Refuses _ _ refl _ _ (λ source.
      present-Refuses _ _ refl _ _ (λ integrated.
        present-Refuses _ _ refl _ _ (λ commit. unless-Refuses _ _ refl _ _ (valid-Refuses _))))

  checkpoint-Refuses :
      (i : RuntimeBaselineIntegration) (e : Execution) (c : String) (state : Fields)
      → Refuses (validate_checkpoint git id_text i e c state)
  unfolding validate_checkpoint
  checkpoint-Refuses i e c state = unless-Refuses _ _ refl _ _ (
      unless-Refuses _ _ refl _ _ (
        present-Refuses _ _ refl _ _ (λ committed. present-Refuses _ _ refl _ _ (λ candidate.
          unless-Refuses _ _ refl _ _ (unless-Refuses _ _ refl _ _ (objects-Refuses i e c))))))

  execution-Refuses :
      (a : Advancement) (i : RuntimeBaselineIntegration) (e : Execution) (db : Db)
      → Refuses (validate_execution git id_text a i e db)
  unfolding validate_execution
  execution-Refuses a i e db = unless-Refuses _ _ refl _ _ (
      unless-Refuses _ _ refl _ _ (
        present-Refuses _ _ refl _ _ (λ commit. unless-Refuses _ _ refl _ _ (
          unless-Refuses _ _ refl _ _ (
            present-Refuses _ _ refl _ _
              (λ checkpoint. checkpoint-Refuses i e commit (or_empty checkpoint.state)))))))

  pub provenance-Refuses :
      (a : Advancement) (binding : RuntimeTaskPlanBinding) (task : Task) (db : Db)
      → Refuses (validate_provenance git id_text a binding task db)
  unfolding validate_provenance
  provenance-Refuses a binding task db = present-Refuses _ _ refl _ _ (λ integration.
      unless-Refuses _ _ refl _ _ (
        unless-Refuses _ _ refl _ _ (
          unless-Refuses _ _ refl _ _ (
            unless-Refuses _ _ refl _ _ (
              present-Refuses _ _ refl _ _
                (λ execution. execution-Refuses a integration execution db))))))

  -- What a validated provenance rests on: the integration is verified, and agrees with the plan, the
  -- task and the arguments; its source execution succeeded for that task, from the prior baseline of
  -- the integration; the execution's last checkpoint records a completed and verified run of the
  -- execution's tree; and git names one commit and one tree for the execution and the source.
  pub record IsProven (a : Advancement) (binding : RuntimeTaskPlanBinding) (task : Task) (db : Db)
      (p : Provenance) : Type 0 where
    pub integration : RuntimeBaselineIntegration
    pub execution : Execution
    pub checkpoint : Checkpoint
    pub commit : String
    pub has_integration : find integration_key a.integration_id db.integrations ≡ some integration
    pub is_verified_one : is_verified integration.status ≡ true
    pub of_plan :
        (integration.plan_id ≡ binding.plan_id)
        × (integration.plan_version ≡ binding.plan_version)
        × (integration.import_id ≡ binding.import_id)
    pub of_task : (integration.project_id ≡ task.project_id) × (integration.task_id ≡ task.id)
    pub from_generation : integration.prior_baseline_generation ≡ a.expected_generation
    pub as_asked :
        (integration.source_commit ≡ a.task_commit)
        × (integration.source_tree ≡ a.task_tree)
        × (integration.integrated_commit ≡ a.resulting_baseline_commit)
        × (integration.integrated_tree ≡ a.resulting_baseline_tree)
    pub has_execution : Executions.get integration.source_execution_id db ≡ some execution
    pub by_task : execution.task_id ≡ a.task_id
    pub has_succeeded :
        (is_succeeded execution.status ≡ true) × (execution.terminal_state ≡ some "success")
    pub from_baseline :
        (execution.baseline_generation ≡ some a.expected_generation)
        × (execution.baseline_commit ≡ some integration.prior_baseline_commit)
        × (execution.baseline_tree ≡ some integration.prior_baseline_tree)
    pub has_commit : execution.commit_hash ≡ some commit
    pub are_named :
        (truthy execution.commit_hash ≡ true) × (truthy execution.candidate_tree_hash ≡ true)
    pub has_tree : execution.candidate_tree_hash ≡ some p.task_tree
    pub has_checkpoint : latest_success_checkpoint execution db ≡ some checkpoint
    pub is_complete : as_text (get_field "status" (or_empty checkpoint.state)) ≡ some "completed"
    pub has_verification :
        verification_succeeded (get_field "verification" (or_empty checkpoint.state)) ≡ true
    pub recorded_trees :
        (as_text (get_field "committed_tree_hash" (or_empty checkpoint.state)) ≡ some p.task_tree)
        × (as_text (get_field "candidate_tree_hash" (or_empty checkpoint.state)) ≡ some p.task_tree)
    pub execution_commit : resolve_commit git commit ≡ some p.task_commit
    pub source :
        resolve_commit_tree git integration.source_commit integration.source_tree
        ≡ some (p.task_commit, p.task_tree)
    pub resulting :
        resolve_commit_tree git integration.integrated_commit integration.integrated_tree
        ≡ some (p.baseline_commit, p.baseline_tree)

  -- The objects of git that a validated provenance names.
  record ObjectsAgree (i : RuntimeBaselineIntegration) (e : Execution) (c : String) (p : Provenance)
      : Type 0 where
    source :
        resolve_commit_tree git i.source_commit i.source_tree ≡ some (p.task_commit, p.task_tree)
    resulting :
        resolve_commit_tree git i.integrated_commit i.integrated_tree
        ≡ some (p.baseline_commit, p.baseline_tree)
    commit : resolve_commit git c ≡ some p.task_commit
    tree : e.candidate_tree_hash ≡ some p.task_tree

  objects-valid :
      (i : RuntimeBaselineIntegration) (e : Execution) (c : String) {p : Provenance}
      → validate_objects git id_text i e c ≡ valid p
      → ObjectsAgree i e c p
  unfolding validate_objects
  objects-valid i e c {p} h =
      let ((found_commit, found_tree), s, hs) = present-valid _ _ {p = p} _ _ h in
      let (integrated, r, hr) = present-valid _ _ {p = p} _ _ hs in
      let (commit, k, hk) = present-valid _ _ {p = p} _ _ hr in
      let (same, v) = unless-valid _ _ {p = p} _ _ hk in
      let tree = opt_eq_equal (some found_tree) e.candidate_tree_hash (ground (arith, same)) in
      record {
        source = ground (arith, s, v);
        resulting = ground (arith, r, v);
        commit = ground (arith, k, same, v, eq_iff found_commit commit);
        tree = ground (arith, tree, v);
      }

  -- What the checkpoint of a success records.
  record CheckpointAgrees (i : RuntimeBaselineIntegration) (e : Execution) (c : String)
      (state : Fields) (p : Provenance) : Type 0 where
    is_complete : as_text (get_field "status" state) ≡ some "completed"
    has_verification : verification_succeeded (get_field "verification" state) ≡ true
    committed_tree : as_text (get_field "committed_tree_hash" state) ≡ some p.task_tree
    candidate_tree : as_text (get_field "candidate_tree_hash" state) ≡ some p.task_tree
    objects : ObjectsAgree i e c p

  checkpoint-valid :
      (i : RuntimeBaselineIntegration) (e : Execution) (c : String) (state : Fields)
      {p : Provenance}
      → validate_checkpoint git id_text i e c state ≡ valid p
      → CheckpointAgrees i e c state p
  unfolding validate_checkpoint
  checkpoint-valid i e c state {p} h =
      let (done, h1) = unless-valid _ _ {p = p} _ _ h in
      let (verified, h2) = unless-valid _ _ {p = p} _ _ h1 in
      let (committed, has_committed, h3) = present-valid _ _ {p = p} _ _ h2 in
      let (candidate, has_candidate, h4) = present-valid _ _ {p = p} _ _ h3 in
      let (same, h5) = unless-valid _ _ {p = p} _ _ h4 in
      let (of_execution, h6) = unless-valid _ _ {p = p} _ _ h5 in
      let objects = objects-valid i e c {p = p} h6 in
      let tree =
        opt_eq_equal (some candidate) e.candidate_tree_hash (ground (arith, of_execution)) in
      let known : candidate ≡ p.task_tree = ground (arith, tree, objects.tree) in
      record {
        is_complete =
            opt_eq_equal (as_text (get_field "status" state)) (some "completed")
              (ground (arith, done));
        has_verification = ground (arith, verified);
        committed_tree = ground (arith, has_committed, known, same, eq_iff committed candidate);
        candidate_tree = ground (arith, has_candidate, known);
        objects = objects;
      }

  -- What the source execution is.
  record ExecutionAgrees (a : Advancement) (i : RuntimeBaselineIntegration) (e : Execution)
      (db : Db) (p : Provenance) : Type 0 where
    checkpoint : Checkpoint
    commit : String
    by_task : e.task_id ≡ a.task_id
    has_succeeded : (is_succeeded e.status ≡ true) × (e.terminal_state ≡ some "success")
    from_baseline :
        (e.baseline_generation ≡ some a.expected_generation)
        × (e.baseline_commit ≡ some i.prior_baseline_commit)
        × (e.baseline_tree ≡ some i.prior_baseline_tree)
    has_commit : e.commit_hash ≡ some commit
    are_named : (truthy e.commit_hash ≡ true) × (truthy e.candidate_tree_hash ≡ true)
    has_checkpoint : latest_success_checkpoint e db ≡ some checkpoint
    recorded : CheckpointAgrees i e commit (or_empty checkpoint.state) p

  execution-valid :
      (a : Advancement) (i : RuntimeBaselineIntegration) (e : Execution) (db : Db) {p : Provenance}
      → validate_execution git id_text a i e db ≡ valid p
      → ExecutionAgrees a i e db p
  unfolding validate_execution
  execution-valid a i e db {p} h =
      let (own, h1) = unless-valid _ _ {p = p} _ _ h in
      let (ended, h2) = unless-valid _ _ {p = p} _ _ h1 in
      let (commit, has_commit, h3) = present-valid _ _ {p = p} _ _ h2 in
      let (named, h4) = unless-valid _ _ {p = p} _ _ h3 in
      let (prior, h5) = unless-valid _ _ {p = p} _ _ h4 in
      let (checkpoint, found, h6) = present-valid _ _ {p = p} _ _ h5 in
      record {
        checkpoint = checkpoint;
        commit = commit;
        by_task = ground (arith, own, ==_iff e.task_id a.task_id);
        has_succeeded = (
          ground (arith, ended),
          opt_eq_equal e.terminal_state (some "success") (ground (arith, ended)),
        );
        from_baseline = (
          same_generation_equal e.baseline_generation a.expected_generation (ground (arith, prior)),
          opt_eq_equal e.baseline_commit (some i.prior_baseline_commit) (ground (arith, prior)),
          opt_eq_equal e.baseline_tree (some i.prior_baseline_tree) (ground (arith, prior)),
        );
        has_commit = has_commit;
        are_named = (ground (arith, named), ground (arith, named));
        has_checkpoint = found;
        recorded = checkpoint-valid i e commit (or_empty checkpoint.state) {p = p} h6;
      }

  pub provenance-IsProven :
      (a : Advancement) (binding : RuntimeTaskPlanBinding) (task : Task) (db : Db) {p : Provenance}
      → validate_provenance git id_text a binding task db ≡ valid p
      → IsProven a binding task db p
  unfolding validate_provenance
  provenance-IsProven a binding task db {p} h =
      let (i, has_i, h1) = present-valid _ _ {p = p} _ _ h in
      let (verified, h2) = unless-valid _ _ {p = p} _ _ h1 in
      let (bound, h3) = unless-valid _ _ {p = p} _ _ h2 in
      let (prior, h4) = unless-valid _ _ {p = p} _ _ h3 in
      let (asked, h5) = unless-valid _ _ {p = p} _ _ h4 in
      let (e, has_e, h6) = present-valid _ _ {p = p} _ _ h5 in
      let agrees = execution-valid a i e db {p = p} h6 in
      record {
        integration = i;
        execution = e;
        checkpoint = agrees.checkpoint;
        commit = agrees.commit;
        has_integration = has_i;
        is_verified_one = ground (arith, verified);
        of_plan = (
          ground (arith, bound, eq_iff i.plan_id binding.plan_id),
          ground (arith, bound, eq_iff i.plan_version binding.plan_version),
          ground (arith, bound, ==_iff i.import_id binding.import_id),
        );
        of_task = (
          ground (arith, bound, ==_iff i.project_id task.project_id),
          ground (arith, bound, ==_iff i.task_id task.id),
        );
        from_generation = ground (arith, prior);
        as_asked = (
          ground (arith, asked, eq_iff i.source_commit a.task_commit),
          ground (arith, asked, eq_iff i.source_tree a.task_tree),
          ground (arith, asked, eq_iff i.integrated_commit a.resulting_baseline_commit),
          ground (arith, asked, eq_iff i.integrated_tree a.resulting_baseline_tree),
        );
        has_execution = has_e;
        by_task = agrees.by_task;
        has_succeeded = agrees.has_succeeded;
        from_baseline = agrees.from_baseline;
        has_commit = agrees.has_commit;
        are_named = agrees.are_named;
        has_tree = agrees.recorded.objects.tree;
        has_checkpoint = agrees.has_checkpoint;
        is_complete = agrees.recorded.is_complete;
        has_verification = agrees.recorded.has_verification;
        recorded_trees = (agrees.recorded.committed_tree, agrees.recorded.candidate_tree);
        execution_commit = agrees.recorded.objects.commit;
        source = agrees.recorded.objects.source;
        resulting = agrees.recorded.objects.resulting;
      }
