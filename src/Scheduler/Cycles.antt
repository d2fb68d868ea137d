-- ===== src/Scheduler/Cycles.antt =====
-- src/ai_ent/scheduler/readiness.py: `_cycle_nodes`. `visit` goes down along edges inside the graph
-- with a depth that is bounded by fuel, and answers nothing where the fuel is used up.
pub mod Paths
use ai_ent.Prelude.{
  ℕ, zero, suc, ◌+◌, ◌≤◌, ◌<◌, ◌≡◌, ◌≢◌, ◌⊎◌, inl, inr, refl, Bool, true, false, not, Option, none,
  some, List, [], ◌∷◌, ◌++◌, ◌==◌, ltb, if◌then◌else◌, count, length, Elem, arith, Option-cases,
  Bool-cases,
}

pub record Search : Type 0 where
  pub visited : List ℕ
  pub members : List ℕ

unfoldable pub member : ℕ → List ℕ → Bool
member x [] = false
member x (y ∷ ys) = if y == x then true else member x ys

-- `path[path.index(task_id):]`, for a path that is kept from its last node back to its first.
unfoldable pub back_to : ℕ → List ℕ → List ℕ
back_to x [] = []
back_to x (y ∷ ys) = if y == x then y ∷ [] else y ∷ back_to x ys

-- A loop over nodes, where the visit of a node may be without an answer.
unfoldable pub visit_each : (ℕ → Search → Option Search) → List ℕ → Search → Option Search
visit_each visit [] found = some found
visit_each visit (x ∷ xs) found = elim (visit x found) [
  | none ↦ none
  | some after ↦ visit_each visit xs after
]

module _ (keys : List ℕ) (edges : ℕ → List ℕ) where
  abbrev pub add_cycle : ℕ → List ℕ → Search → Search
  add_cycle x path found = record found { members = back_to x path ++ found.members }

  abbrev pub mark_visited : ℕ → Option Search → Option Search
  mark_visited x none = none
  mark_visited x (some after) = some (record after { visited = x ∷ after.visited })

  -- `visit(task_id, [*path, task_id])`: the nodes of `path` are those of `visiting`, and a node
  -- that is no key is left out.
  unfoldable pub visit : ℕ → List ℕ → ℕ → Search → Option Search
  visit zero path x found = none
  visit (suc fuel) path x found =
      if not (member x keys)
      then some found
      else if member x path
      then some (add_cycle x path found)
      else if member x found.visited
      then some found
      else mark_visited x (visit_each (visit fuel (x ∷ path)) (edges x) found)

  unfoldable pub cycle_nodes : Option Search
  cycle_nodes = visit_each (visit (length keys + 1) []) keys (record { visited = []; members = [] })

  unfoldable pub is_cyclic : ℕ → Bool
  unfolding cycle_nodes
  is_cyclic x = elim cycle_nodes [ none ↦ false | some found ↦ member x found.members ]
