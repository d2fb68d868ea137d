-- ===== src/Persistence/Leases.antt =====
-- src/ai_ent/persistence/repositories/leases.py
use ai_ent.Prelude.{
  ℕ, ◌&&◌, ◌||◌, not, Bool, Option, none, some, List, [], ◌∷◌, ◌++◌, ◌==◌, ltb, leb, is_none,
  is_some, find, modify, keep, count, sort_by, first,
}
use ai_ent.Persistence.Models.{TaskLease, active, is_active}
use ai_ent.Persistence.Session.{
  Db, Action, missing_lease, duplicate_lease, pure, throw, gets, flush_checked, ◌>>=◌, ◌>>◌,
}
use ai_ent.Persistence.Tasks
use ai_ent.Persistence.Executions

abbrev pub lease_key : TaskLease → ℕ
lease_key l = l.id

abbrev pub get : ℕ → Db → Option TaskLease
get lease_id db = find lease_key lease_id db.leases

abbrev found : ℕ → Option TaskLease → Action TaskLease
found lease_id none = throw (missing_lease lease_id)
found lease_id (some lease) = pure lease

unfoldable pub require : ℕ → Action TaskLease
require lease_id = do lease ← gets (λ s. get lease_id s.db); found lease_id lease

abbrev pub holds : ℕ → TaskLease → Bool
holds task_id l = l.task_id == task_id && is_active l.status

-- `ORDER BY acquired_at DESC, id DESC`
abbrev pub acquired_last : TaskLease → TaskLease → Bool
acquired_last a b =
    ltb b.acquired_at a.acquired_at || (b.acquired_at == a.acquired_at && leb b.id a.id)

unfoldable pub active_for_task : ℕ → Db → Option TaskLease
active_for_task task_id db = first (holds task_id) acquired_last db.leases

unfoldable pub list_by_task : ℕ → Db → List TaskLease
list_by_task task_id db =
    sort_by (λ a b. acquired_last b a) (keep (λ l. l.task_id == task_id) db.leases)

abbrev pub of_execution : ℕ → TaskLease → Bool
of_execution execution_id l = l.execution_id == execution_id

-- A new key, the two foreign keys, one lease for an execution, `expires_at > acquired_at`, and the
-- index uq_task_leases_one_active_per_task.
unfoldable pub admissible : TaskLease → Db → Bool
admissible row db =
    is_none (get row.id db)
    && is_some (Tasks.get row.task_id db)
    && is_some (Executions.get row.execution_id db)
    && (count (of_execution row.execution_id) db.leases == 0)
    && ltb row.acquired_at row.expires_at
    && (not (is_active row.status) || (count (holds row.task_id) db.leases == 0))

abbrev pub new_row : (lease_id task_id execution_id owner_id acquired_at expires_at : ℕ) → TaskLease
new_row lease_id task_id execution_id owner_id acquired_at expires_at = record {
  id = lease_id;
  task_id = task_id;
  execution_id = execution_id;
  owner_id = owner_id;
  status = active;
  acquired_at = acquired_at;
  renewed_at = acquired_at;
  expires_at = expires_at;
  released_at = none;
  completed_at = none;
}

abbrev add_row : TaskLease → Db → Db
add_row row db = record db { leases = db.leases ++ row ∷ [] }

unfoldable pub create :
    (lease_id task_id execution_id owner_id acquired_at expires_at : ℕ) → Action TaskLease
create lease_id task_id execution_id owner_id acquired_at expires_at = do
  let row = new_row lease_id task_id execution_id owner_id acquired_at expires_at
  allowed ← gets (λ s. admissible row s.db)
  flush_checked allowed (duplicate_lease lease_id) (add_row row)
  pure row

-- Assigning to fields of a lease object.
abbrev pub set_lease : ℕ → (TaskLease → TaskLease) → Db → Db
set_lease lease_id f db = record db { leases = modify lease_key lease_id f db.leases }
