-- ===== src/Workflow/Reach.antt =====
-- `walk` and `validateReachability` (backend/internal/workflow/definition.go). The code builds the
-- reverse edges in the order of a map, which has no order; here it is that of the edges.
pub mod Exact
pub mod Turned
use text.Mathlib.Text.{◌==◌ as str_eq}
use adbcops.Common.{
  ℕ, zero, suc, String, Bool, not, Option, none, some, List, [], ◌∷◌, ◌++◌, map, first, length,
  if◌then◌else◌,
}
use adbcops.Common.Members.{String_eq, mem}
use adbcops.Workflow.Definition.{
  Edge, Edges, Checked, Problem, unreachable, dead_end, ids, is_start, is_end, complain_if,
}
use adbcops.Workflow.Dag.{tos}

-- The inner loop of `walk`.
unfoldable pub visit : List String → List String → List String → List String × List String
visit [] seen queue = (seen, queue)
visit (next ∷ rest) seen queue =
    visit rest (if mem next seen then seen else next ∷ seen)
      (if mem next seen then queue else queue ++ next ∷ [])

unfoldable pub walk_loop : ℕ → List Edge → List String → List String → List String
unfolding visit
walk_loop zero edges seen queue = seen
walk_loop (suc fuel) edges seen [] = seen
walk_loop (suc fuel) edges seen (id ∷ queue) =
    let next = visit (tos id edges) seen queue in walk_loop fuel edges next.0 next.1

-- A node is queued at most once, so that one round for each node and one to end are enough.
unfoldable pub walk : List String → String → List Edge → List String
unfolding walk_loop
walk nodes start edges = walk_loop (suc (length nodes)) edges (start ∷ []) (start ∷ [])

abbrev pub turned : Edge → Edge
turned e = record { from = e.to; to = e.from }

abbrev pub reversed : List Edge → List Edge
reversed edges = map turned edges

-- The complaints on the nodes that one of the walks has missed.
abbrev pub missed : List String → List String → List String → List Problem
missed from_start to_end [] = []
missed from_start to_end (id ∷ rest) =
    complain_if (not (mem id from_start)) (unreachable id)
    ++ (complain_if (not (mem id to_end)) (dead_end id) ++ missed from_start to_end rest)

abbrev pub reach_problems : List String → List Edge → Option Checked → Option Checked → List Problem
reach_problems nodes edges none end = []
reach_problems nodes edges (some start) none = []
reach_problems nodes edges (some start) (some end) =
    missed (walk nodes start.id edges) (walk nodes end.id (reversed edges)) nodes

unfoldable pub validate_reachability : List Checked → Edges → List Problem
unfolding walk
validate_reachability nodes v =
    reach_problems (ids nodes) v.outgoing (first (λ (n : Checked). is_start n.kind) nodes)
      (first (λ (n : Checked). is_end n.kind) nodes)
