-- ===== src/Scheduler/Baseline.antt =====
-- src/ai_ent/scheduler/hardening_baseline.py: the state of a cumulative baseline, its record in a
-- checkpoint, and the dependencies that it blocks. The texts of identifiers, by which a state names
-- its tasks, are written by `id_text`. An object is read by its keys only, and the sorting of keys
-- in its text is left out.
pub mod Records
pub mod Blockers
pub mod Validations
pub mod Advances
pub mod Current
pub mod Gates
pub mod Advancing
pub mod Stored
pub mod Reading
use ai_ent.Prelude.{
  ℕ, ◌≡◌, ◌&&◌, ◌||◌, not, Bool, true, false, String, Option, none, some, List, [], ◌∷◌, ◌==◌,
  str_eq, text_leb, truthy, opt_eq, if◌then◌else◌, is_some, head?, keep, sort_by, find, or_else,
  Json, null, str, num, bool, arr, obj, Items, nil, Fields, end, field, get_field, as_text,
  as_object, text_items, all_texts,
}
use ai_ent.Persistence.Models.{Checkpoint, CheckpointType, RuntimeTaskPlanBinding}
use ai_ent.Persistence.Session.{Db}
use ai_ent.Persistence.Checkpoints

pub record HardeningBaselineState : Type 0 where
  pub plan_id : String
  pub plan_version : String
  pub owner_task_id : String
  pub baseline_commit : String
  pub baseline_tree : String
  pub generation : ℕ
  pub integrated_task_ids : List String
  pub task_commits : Option Fields
  pub task_trees : Option Fields

unfoldable pub contains : List String → String → Bool
contains [] text = false
contains (t ∷ ts) text = str_eq t text || contains ts text

abbrev pub represents : HardeningBaselineState → String → Bool
represents state task_id = contains state.integrated_task_ids task_id

abbrev pub record_kind : String
record_kind = "hardening_baseline_state"

-- `self.task_commits or {}`
abbrev pub or_empty : Option Fields → Fields
or_empty o = or_else o end

unfoldable pub as_checkpoint_state : HardeningBaselineState → Fields
as_checkpoint_state state = field "record_kind" (str record_kind) (
    field "plan_id" (str state.plan_id) (
      field "plan_version" (str state.plan_version) (
        field "owner_task_id" (str state.owner_task_id) (
          field "baseline_commit" (str state.baseline_commit) (
            field "baseline_tree" (str state.baseline_tree) (
              field "generation" (num state.generation) (
                field "integrated_task_ids" (arr (text_items state.integrated_task_ids)) (
                  field "task_commits" (obj (or_empty state.task_commits))
                    (field "task_trees" (obj (or_empty state.task_trees)) end)))))))))

-- A text that is there and is not empty.
abbrev pub required : String → Fields → Option String
required key payload = elim (as_text (get_field key payload)) [
  | none ↦ none
  | some text ↦ if str_eq text "" then none else some text
]

-- An int that is not negative; True and False are ints.
abbrev pub as_generation : Option Json → Option ℕ
as_generation (some (Json.num n)) = some n
as_generation (some (Json.bool b)) = some (if b then 1 else 0)
as_generation _ = none

-- `payload.get("integrated_task_ids", [])`, where it is a list of texts.
abbrev pub integrated_texts : Option Json → Option (List String)
integrated_texts none = some []
integrated_texts (some (Json.arr items)) = all_texts items
integrated_texts _ = none

-- `payload.get(key, {})`, or `{}` where it is no object.
abbrev pub object_or_empty : String → Fields → Option Fields
object_or_empty key payload = some (or_empty (as_object (get_field key payload)))

infixl 5 ◌>>=◌
abbrev pub ◌>>=◌ : {A B : Type 0} → Option A → (A → Option B) → Option B
none >>= f = none
some a >>= f = f a

abbrev pub guard : Bool → Option (Unit {0})
guard true = some tt
guard false = none

-- `_state_from_checkpoint`, on the object of the checkpoint.
unfoldable pub state_of_payload : Fields → Option HardeningBaselineState
state_of_payload payload = do
  _ ← guard (opt_eq (as_text (get_field "record_kind" payload)) (some record_kind))
  plan_id ← required "plan_id" payload
  plan_version ← required "plan_version" payload
  owner_task_id ← required "owner_task_id" payload
  baseline_commit ← required "baseline_commit" payload
  baseline_tree ← required "baseline_tree" payload
  generation ← as_generation (get_field "generation" payload)
  integrated ← integrated_texts (get_field "integrated_task_ids" payload)
  some (record {
    plan_id = plan_id;
    plan_version = plan_version;
    owner_task_id = owner_task_id;
    baseline_commit = baseline_commit;
    baseline_tree = baseline_tree;
    generation = generation;
    integrated_task_ids = sort_by text_leb integrated;
    task_commits = object_or_empty "task_commits" payload;
    task_trees = object_or_empty "task_trees" payload;
  })

abbrev pub state_from_checkpoint : Checkpoint → Option HardeningBaselineState
state_from_checkpoint checkpoint = state_of_payload (or_empty checkpoint.state)

abbrev policy_of : Option Fields → Option Fields
policy_of none = none
policy_of (some policy) =
    if opt_eq (as_text (get_field "on_violation" policy)) (some "STOP_BEFORE_CLAIM")
    then some policy
    else none

-- `_initial_state_from_binding`
unfoldable pub initial_state : RuntimeTaskPlanBinding → Option HardeningBaselineState
initial_state binding = do
  policy ← policy_of (as_object (get_field "cumulative_baseline_policy" binding.acceptance))
  baseline_commit ← required "baseline_commit" binding.acceptance
  baseline_tree ← required "baseline_tree" binding.acceptance
  owner_task_id ← required "owner_task" policy
  some (record {
    plan_id = binding.plan_id;
    plan_version = binding.plan_version;
    owner_task_id = owner_task_id;
    baseline_commit = baseline_commit;
    baseline_tree = baseline_tree;
    generation = 0;
    integrated_task_ids = [];
    task_commits = none;
    task_trees = none;
  })

unfoldable pub requires_policy : RuntimeTaskPlanBinding → Bool
requires_policy binding = is_some (initial_state binding)

abbrev pub is_runtime : CheckpointType → Bool
is_runtime CheckpointType.runtime = true
is_runtime _ = false

abbrev pub same_plan : HardeningBaselineState → Option HardeningBaselineState → Bool
same_plan initial none = false
same_plan initial (some state) =
    str_eq state.plan_id initial.plan_id && str_eq state.plan_version initial.plan_version

abbrev pub binding_key : RuntimeTaskPlanBinding → ℕ
binding_key binding = binding.task_id

abbrev pub binding_of : ℕ → Db → Option RuntimeTaskPlanBinding
binding_of task_id db = find binding_key task_id db.bindings

module _ (id_text : ℕ → String) where
  abbrev pub records_baseline : HardeningBaselineState → Checkpoint → Bool
  records_baseline initial c =
      str_eq (id_text c.task_id) initial.owner_task_id && is_runtime c.checkpoint_type

  unfoldable pub latest_baseline_checkpoint : HardeningBaselineState → Db → Option Checkpoint
  latest_baseline_checkpoint initial db = head? (
      keep (λ c. same_plan initial (state_from_checkpoint c))
        (sort_by Checkpoints.created_last (keep (records_baseline initial) db.checkpoints)))

  -- `parsed if parsed is not None else initial`
  abbrev pub recorded_state : HardeningBaselineState → Option Checkpoint → HardeningBaselineState
  recorded_state initial none = initial
  recorded_state initial (some c) = or_else (state_from_checkpoint c) initial

  abbrev pub current_from : Option HardeningBaselineState → Db → Option HardeningBaselineState
  current_from none db = none
  current_from (some initial) db =
      some (recorded_state initial (latest_baseline_checkpoint initial db))

  unfoldable pub current_for_binding : RuntimeTaskPlanBinding → Db → Option HardeningBaselineState
  current_for_binding binding db = current_from (initial_state binding) db

  unfoldable pub current_for_task : ℕ → Db → Option HardeningBaselineState
  unfolding current_for_binding
  current_for_task task_id db = elim (binding_of task_id db) [
    | none ↦ none
    | some binding ↦ current_for_binding binding db
  ]
