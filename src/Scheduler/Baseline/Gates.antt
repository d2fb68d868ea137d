-- ===== src/Scheduler/Baseline/Gates.antt =====
-- src/ai_ent/scheduler/hardening_baseline.py with claiming.py: what the baseline asks of a claim.
use ai_ent.Prelude.{
  ℕ, ◌≡◌, ◌==◌, refl, true, false, String, some, List, [], ◌∷◌, arith, Elem, Elem-All, keep,
  keep-nil, sort_by-nil, leb, find, Bool-cases, Option-cases, inl, inr, ==_iff, ==_self,
  if◌then◌else◌, find-key, subst, sym, ◌∙◌,
}
use ai_ent.Persistence.Models.{Task, TaskLease, RuntimeTaskPlanBinding, is_passed, is_pending}
use ai_ent.Persistence.Session.{Db, Session, return}
use ai_ent.Persistence.Tasks
use ai_ent.Persistence.Leases
use ai_ent.Scheduler.Baseline.{
  HardeningBaselineState, represents, initial_state, requires_policy, binding_of,
  current_for_binding, latest_baseline_checkpoint,
}
use ai_ent.Scheduler.Baseline.Blockers.{
  is_missing, missing, record_blockers, collect_blockers, blockers_at, passed_in, mentioned,
  tasks_among, task_dependencies, claim_blockers, blockers_by_task, blocking_dependencies_for_claim,
  entry_of, PlanEntry,
}
use ai_ent.Scheduler.Claiming.{ClaimRequest, ClaimResult, claimed, claim_task, expire}
use ai_ent.Scheduler.Claiming.Claims.{cleared, claim_task-CanClaim}

module _ (id_text : ℕ → String) where
  mentioned-Elem : (d : ℕ) (ds : List ℕ) → Elem d ds → mentioned id_text ds d ≡ true
  mentioned-Elem d [] e = absurd e
  mentioned-Elem d (x ∷ xs) (inl e) = ground (arith, e)
  mentioned-Elem d (x ∷ xs) (inr e) = ground (arith, mentioned-Elem d xs e)

  find-among :
      (ids : List ℕ) (d : ℕ) (tasks : List Task)
      → mentioned id_text ids d ≡ true
      → find Tasks.task_key d (keep (λ t. mentioned id_text ids t.id) tasks)
        ≡ find Tasks.task_key d tasks
  unfolding find keep
  find-among ids d [] m = refl
  find-among ids d (t ∷ ts) m = elim (Bool-cases (t.id == d)) [
    | inl e ↦
        let same : t.id ≡ d = (==_iff _ _).0 e in
        let listed : mentioned id_text ids t.id ≡ true = rw same m in
        ground (arith, e, listed, find-among ids d ts m)
    | inr e ↦ ground (arith, e, find-among ids d ts m)
  ]

  passed_in-among :
      (task : Task) (ids : List ℕ) (db : Db) (d : ℕ) {t : Task}
      → Elem d ids
      → (task.id == d) ≡ false
      → Tasks.get d db ≡ some t
      → is_passed t.status ≡ true
      → passed_in (task ∷ tasks_among id_text ids db) d ≡ true
  unfolding find
  passed_in-among task ids db d e other stored passed =
      ground (arith, other, stored, passed, find-among ids d db.tasks (mentioned-Elem d ids e))

  record-nil :
      (task : Task) (ms : List ℕ) (rest : List (ℕ × List ℕ))
      → is_pending task.status ≡ true
      → blockers_at id_text task.id (record_blockers id_text task ms rest) ≡ []
      → ms ≡ []
  record-nil task [] rest waits h = refl
  record-nil task (m ∷ ms) rest waits h = absurd (ground (arith, waits, h, ==_self task.id))

  current-requires :
      (binding : RuntimeTaskPlanBinding) (db : Db) {state : HardeningBaselineState}
      → current_for_binding id_text binding db ≡ some state
      → requires_policy binding ≡ true
  unfolding current_for_binding requires_policy
  current-requires binding db current = elim (Option-cases (initial_state binding)) [
    | inl e ↦ absurd (ground (arith, e, current))
    | inr (initial, e) ↦ ground (arith, e)
  ]

  -- Where nothing blocks the claim, nothing is missing.
  nothing-missing :
      (task : Task) (d : ℕ) (ds : List ℕ) (db : Db) (binding : RuntimeTaskPlanBinding)
      (state : HardeningBaselineState)
      → binding_of task.id db ≡ some binding
      → current_for_binding id_text binding db ≡ some state
      → is_pending task.status ≡ true
      → claim_blockers id_text task (d ∷ ds) db ≡ []
      → missing id_text (task ∷ tasks_among id_text (d ∷ ds) db) state (d ∷ ds) ≡ []
  unfolding blockers_by_task
  nothing-missing task d ds db binding state bound current waits h =
      let policy = current-requires binding db current in
      let fresh =
        collect_blockers id_text (task ∷ tasks_among id_text (d ∷ ds) db)
          (λ id. if id == task.id then d ∷ ds else []) db (entry_of id_text binding db ∷ [])
          (tasks_among id_text (d ∷ ds) db) in
      let found : claim_blockers id_text task (d ∷ ds) db
          ≡ blockers_at id_text task.id (
              record_blockers id_text task
                (missing id_text (task ∷ tasks_among id_text (d ∷ ds) db) state (d ∷ ds)) fresh) =
        ground (arith, bound, current, policy, ==_self task.id) in
      record-nil task _ fresh waits (ground (arith, found, h))

  -- A dependency that has passed is in the baseline, where nothing blocks the claim.
  unblocked-represents :
      (task : Task) (deps : List ℕ) (d : ℕ) (db : Db) {binding : RuntimeTaskPlanBinding}
      {state : HardeningBaselineState} {t : Task}
      → binding_of task.id db ≡ some binding
      → current_for_binding id_text binding db ≡ some state
      → is_pending task.status ≡ true
      → Elem d deps
      → (task.id == d) ≡ false
      → Tasks.get d db ≡ some t
      → is_passed t.status ≡ true
      → claim_blockers id_text task deps db ≡ []
      → represents state (id_text d) ≡ true
  unblocked-represents task [] d db bound current waits e other stored passed h = absurd e
  unblocked-represents task (x ∷ xs) d db {binding} {state} bound current waits e other stored
        passed h =
      let rows = task ∷ tasks_among id_text (x ∷ xs) db in
      let none_kept =
        (sort_by-nil leb (keep (is_missing id_text rows state) (x ∷ xs))).0
          (nothing-missing task x xs db binding state bound current waits h) in
      let each =
        Elem-All (λ y. is_missing id_text rows state y ≡ false) d (x ∷ xs) e
          ((keep-nil (is_missing id_text rows state) (x ∷ xs)).0 none_kept) in
      ground (arith, each, passed_in-among task (x ∷ xs) db d e other stored passed)

  -- The leases have no part in it.
  entry_of-leases :
      (binding : RuntimeTaskPlanBinding) (db : Db) (leases : List TaskLease)
      → entry_of id_text binding (record db { leases = leases }) ≡ entry_of id_text binding db
  unfolding current_for_binding latest_baseline_checkpoint
  entry_of-leases binding db leases = elim (Option-cases (initial_state binding)) [
    | inl e ↦ ground (arith, e)
    | inr (initial, e) ↦ ground (arith, e)
  ]

  collect-leases :
      (tasks : List Task) (deps : ℕ → List ℕ) (db : Db) (leases : List TaskLease)
      (states : List PlanEntry) (rest : List Task)
      → collect_blockers id_text tasks deps (record db { leases = leases }) states rest
        ≡ collect_blockers id_text tasks deps db states rest
  unfolding collect_blockers
  collect-leases tasks deps db leases states [] = refl
  collect-leases tasks deps db leases states (t ∷ ts) = elim (Option-cases (binding_of t.id db)) [
    | inl e ↦ ground (arith, e, collect-leases tasks deps db leases states ts)
    | inr (binding, e) ↦ ground (
      arith,
      e,
      entry_of-leases binding db leases,
      collect-leases tasks deps db leases states ts,
      collect-leases tasks deps db leases (entry_of id_text binding db ∷ states) ts,
    )
  ]

  claim_blockers-leases :
      (task : Task) (deps : List ℕ) (db : Db) (leases : List TaskLease)
      → claim_blockers id_text task deps (record db { leases = leases })
        ≡ claim_blockers id_text task deps db
  unfolding blockers_by_task
  claim_blockers-leases task [] db leases = refl
  claim_blockers-leases task (d ∷ ds) db leases = rw (
      collect-leases (task ∷ tasks_among id_text (d ∷ ds) db)
        (λ id. if id == task.id then d ∷ ds else []) db leases []
        (task ∷ tasks_among id_text (d ∷ ds) db))

  pub cleared-blocking :
      (task : Task) (id : ℕ) (s : Session)
      → blocking_dependencies_for_claim id_text task (cleared id s).db
        ≡ blocking_dependencies_for_claim id_text task s.db
  unfolding blocking_dependencies_for_claim
  cleared-blocking task id s = elim (Option-cases (Leases.active_for_task id s.db)) [
    | inl e ↦ rw (e, cleared) refl
    | inr (lease, e) ↦
        rw (e, cleared)
          (claim_blockers-leases task (task_dependencies id_text task s.db) s.db
            (Leases.set_lease lease.id expire s.db).leases)
  ]

  -- A task of a plan that has a baseline is only claimed where the current baseline represents
  -- each other task that it depends on and that has passed.
  pub claim_task-represents :
      (r : ClaimRequest) (s : Session) (d : ℕ) {result : ClaimResult}
      {binding : RuntimeTaskPlanBinding} {state : HardeningBaselineState} {task t : Task}
      → (claim_task (blocking_dependencies_for_claim id_text) r s).0 ≡ return result
      → result.status ≡ claimed
      → binding_of r.task_id s.db ≡ some binding
      → current_for_binding id_text binding s.db ≡ some state
      → Tasks.get r.task_id s.db ≡ some task
      → Elem d (task_dependencies id_text task s.db)
      → (r.task_id == d) ≡ false
      → Tasks.get d s.db ≡ some t
      → is_passed t.status ≡ true
      → represents state (id_text d) ≡ true
  unfolding blocking_dependencies_for_claim
  claim_task-represents r s d {result} {binding} {state} {task} {t} h k bound current stored e other
        found passed =
      let (row, can) =
        claim_task-CanClaim (blocking_dependencies_for_claim id_text) r s {result = result} h k in
      let same : row ≡ task = ground (arith, stored, can.stored) in
      let key : task.id ≡ r.task_id = find-key Tasks.task_key r.task_id s.db.tasks stored in
      let free : blocking_dependencies_for_claim id_text task s.db ≡ [] =
        sym (cleared-blocking task r.task_id s)
        ∙ subst (λ x. blocking_dependencies_for_claim id_text x (cleared r.task_id s).db ≡ []) same
            can.unblocked in
      unblocked-represents task (task_dependencies id_text task s.db) d s.db {binding = binding}
        {state = state} {t = t} (rw key bound) current (ground (arith, same, can.ready)) e
        (rw key other) found passed free
