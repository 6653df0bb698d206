-- ===== src/Workflow/Dag.antt =====
-- `validateDAG` (backend/internal/workflow/definition.go): the removal of nodes without incoming
-- edges. `visited` is the list of the nodes that were taken from the queue, newest first; the code
-- keeps its length. A degree is only lowered for an edge that it counts, so that it is never
-- lowered at 0.
pub mod Invariant
pub mod Acyclic
use text.Mathlib.Text.{◌==◌ as str_eq}
use adbcops.Common.{
  ℕ, zero, suc, ◌-◌, String, Bool, Option, none, some, List, [], ◌∷◌, ◌++◌, map, keep, length,
  if◌then◌else◌, ◌==◌,
}
use adbcops.Common.Sorting.{sort_strings}
use adbcops.Workflow.Definition.{Edge, Edges, Problem, not_a_dag}

-- `outgoing[id]`.
abbrev pub tos : String → List Edge → List String
tos id edges = map (λ (e : Edge). e.to) (keep (λ (e : Edge). str_eq e.from id) edges)

-- `indegree[id]--`.
abbrev pub lower : String → (String → ℕ) → String → ℕ
lower id degree x = if str_eq id x then degree x - 1 else degree x

-- The inner loop: a node whose last incoming edge goes joins the queue.
unfoldable pub relax : List String → List String → (String → ℕ) → List String × (String → ℕ)
unfolding sort_strings
relax [] queue degree = (queue, degree)
relax (next ∷ rest) queue degree =
    relax rest (if lower next degree next == 0 then sort_strings (queue ++ next ∷ []) else queue)
      (lower next degree)

-- The outer loop. `none` means that the fuel ran out.
unfoldable pub kahn :
    ℕ → List Edge → List String → (String → ℕ) → List String → Option (List String)
unfolding relax
kahn zero edges queue degree visited = none
kahn (suc fuel) edges [] degree visited = some visited
kahn (suc fuel) edges (id ∷ queue) degree visited =
    let next = relax (tos id edges) queue degree in kahn fuel edges next.0 next.1 (id ∷ visited)

-- The nodes that the loop visits, with one round of fuel for each node and one to end.
unfoldable pub visits : List String → Edges → Option (List String)
unfolding kahn sort_strings
visits nodes v =
    kahn (suc (length nodes)) v.outgoing (sort_strings (keep (λ id. v.indegree id == 0) nodes))
      v.indegree []

abbrev pub all_visited : List String → Option (List String) → List Problem
all_visited nodes none = not_a_dag ∷ []
all_visited nodes (some visited) = if length visited == length nodes then [] else not_a_dag ∷ []

unfoldable pub validate_dag : List String → Edges → List Problem
unfolding visits
validate_dag nodes v = all_visited nodes (visits nodes v)
