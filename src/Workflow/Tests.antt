-- ===== src/Workflow/Tests.antt =====
-- The validator's passes on a workflow of three nodes, with a repeated edge and one to itself.
use adbcops.Common.Members.{mem}
use adbcops.Common.{refl, String, none, List, [], ◌∷◌, All}
use adbcops.Workflow.Definition.{
  Node, Edge, Catalogs, Checked, start_node, skill_node, end_node, validate_nodes, validate_edges,
  validate_start_end,
}
use adbcops.Workflow.Graph.{
  IsNodes, validate_nodes-IsNodes, IsGraph, validate_edges-IsGraph, Placed, validate_start_end_lem,
}

abbrev catalogs : Catalogs
catalogs = record { agents = none; skills = none }

abbrev nodes : List Node
nodes =
    record { id = " s "; type = "START"; agent_name = ""; skill_name = ""; config = "" }
    ∷ record { id = "q"; type = "skill"; agent_name = ""; skill_name = "query"; config = "" }
    ∷ record { id = "e"; type = "end"; agent_name = ""; skill_name = ""; config = "" }
    ∷ record { id = "q"; type = "skill"; agent_name = ""; skill_name = "again"; config = "" }
    ∷ []

abbrev names : List String
names = "s" ∷ "q" ∷ "e" ∷ []

abbrev edges : List Edge
edges =
    record { from = "s"; to = "q" }
    ∷ record { from = " s"; to = "q" }
    ∷ record { from = "q"; to = "e" }
    ∷ []

abbrev checked : List Checked
checked =
    record { id = "s"; kind = start_node }
    ∷ record { id = "q"; kind = skill_node }
    ∷ record { id = "e"; kind = end_node }
    ∷ []

validate_nodes-IsNodes_example : IsNodes (validate_nodes catalogs nodes)
validate_nodes-IsNodes_example = validate_nodes-IsNodes catalogs nodes

validate_edges-IsGraph_example : IsGraph names (validate_edges names edges)
validate_edges-IsGraph_example = validate_edges-IsGraph names edges

validate_start_end_lem_example : All (Placed (validate_edges names edges).outgoing) checked
unfolding validate_start_end validate_edges mem
validate_start_end_lem_example = validate_start_end_lem names edges checked refl
