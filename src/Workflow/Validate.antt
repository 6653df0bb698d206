-- ===== src/Workflow/Validate.antt =====
-- `validate` and `Validate` (backend/internal/workflow/definition.go): the passes in their order.
pub mod Sound
pub mod Kept
use text.Mathlib.Text.{◌==◌ as str_eq}
use adbcops.Common.{ℕ, String, Bool, List, [], ◌∷◌, ◌++◌, length, if◌then◌else◌, ◌==◌, ltb}
use adbcops.Common.Text.{trim_space}
use adbcops.Workflow.Definition.{
  Definition, Catalogs, Problem, name_required, version_required, no_nodes, node_limit, edge_limit,
  Nodes, Edges, ids, validate_nodes, validate_edges, validate_start_end, complain_if,
}
use adbcops.Workflow.Dag.{validate_dag}
use adbcops.Workflow.Reach.{validate_reachability}

pub record Validation : Type 0 where
  pub errors : List Problem
  pub warnings : List String

abbrev pub max_workflow_nodes : ℕ
max_workflow_nodes = 100

abbrev pub max_workflow_edges : ℕ
max_workflow_edges = 200

unfoldable pub header_problems : Definition → List Problem
unfolding trim_space
header_problems d =
    complain_if (str_eq (trim_space d.name) "") name_required
    ++ complain_if (str_eq (trim_space d.version) "") version_required

-- The errors before the passes over the whole graph.
unfoldable pub local_problems : Definition → Nodes → Edges → List Problem
unfolding header_problems validate_start_end
local_problems d n e = header_problems d ++ n.problems ++ e.problems ++ validate_start_end e n.taken

abbrev pub whole_problems : Nodes → Edges → List Problem
whole_problems n e = validate_dag (ids n.taken) e ++ validate_reachability n.taken e

-- The passes over nodes, edges and the whole graph.
unfoldable pub validate_graph : Definition → Nodes → Edges → Validation
unfolding local_problems validate_dag validate_reachability
validate_graph d n e = record {
  errors =
      if length (local_problems d n e) == 0
      then local_problems d n e ++ whole_problems n e
      else local_problems d n e;
  warnings = e.warnings;
}

unfoldable pub validate : Catalogs → Definition → Validation
unfolding validate_graph header_problems validate_nodes validate_edges
validate c d =
    if length d.nodes == 0
    then record { errors = header_problems d ++ no_nodes ∷ []; warnings = [] }
    else if ltb max_workflow_nodes (length d.nodes)
    then record { errors = header_problems d ++ node_limit ∷ []; warnings = [] }
    else if ltb max_workflow_edges (length d.edges)
    then record { errors = header_problems d ++ edge_limit ∷ []; warnings = [] }
    else let n = validate_nodes c d.nodes in
      validate_graph d n (validate_edges (ids n.taken) d.edges)
