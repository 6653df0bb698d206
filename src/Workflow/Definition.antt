-- ===== src/Workflow/Definition.antt =====
-- The first passes of the validator of workflow definitions
-- (backend/internal/workflow/definition.go): `validateNodes`, `validateEdges` and
-- `validateStartEnd`. Messages are constructors with the ids that stand in the text. The maps of
-- degrees are functions; the map of nodes is the list of the nodes that were taken, newest first.
use text.Mathlib.Text.{◌==◌ as str_eq}
use Prim.Native.String.{◌++◌ as concat}
use adbcops.Common.{
  ℕ, ◌+◌, String, Bool, true, false, not, ◌&&◌, ◌||◌, Option, none, some, List, [], ◌∷◌, ◌++◌, ◌==◌,
  if◌then◌else◌,
}
use adbcops.Common.Text.{trim_space, lowers_to}
use adbcops.Common.Members.{String_eq, mem}

pub record Node : Type 0 where
  pub id : String
  pub type : String
  pub agent_name : String
  pub skill_name : String
  pub config : String

pub record Edge : Type 0 where
  pub from : String
  pub to : String

pub record Definition : Type 0 where
  pub name : String
  pub version : String
  pub nodes : List Node
  pub edges : List Edge

pub data Kind : Type 0 where
  start_node end_node agent_node skill_node condition_node merge_node unsupported : Kind

-- The type of a node after `strings.ToLower(strings.TrimSpace(...))`.
unfoldable pub kind_of : String → Kind
kind_of text =
    let t = trim_space text in
    if lowers_to t "start"
    then start_node
    else if lowers_to t "end"
    then end_node
    else if lowers_to t "agent"
    then agent_node
    else if lowers_to t "skill"
    then skill_node
    else if lowers_to t "condition"
    then condition_node
    else if lowers_to t "merge"
    then merge_node
    else unsupported

-- `allowedNodeType`.
abbrev pub allowed_node_type : Kind → Bool
allowed_node_type unsupported = false
allowed_node_type _ = true

pub data Problem : Type 0 where
  node_id_required edge_ends_required : Problem
  duplicate_node unsupported_type agent_name_required skill_name_required : String → Problem
  unknown_agent unknown_skill : String → String → Problem
  start_count end_count : ℕ → Problem
  self_edge unknown_from unknown_to : String → Problem
  start_has_incoming end_has_outgoing no_incoming no_outgoing : String → Problem
  name_required version_required no_nodes node_limit edge_limit not_a_dag : Problem
  unreachable dead_end : String → Problem

-- The catalogs, if there are any: whether `Get` finds a name.
pub record Catalogs : Type 0 where
  pub agents : Option (String → Bool)
  pub skills : Option (String → Bool)

-- A node as the validator stores it.
pub record Checked : Type 0 where
  pub id : String
  pub kind : Kind

abbrev pub ids : List Checked → List String
ids [] = []
ids (c ∷ cs) = c.id ∷ ids cs

abbrev pub known : Option (String → Bool) → String → Bool
known none name = true
known (some get) name = get name

-- What is wrong with the name that a node of a kind refers to.
abbrev pub name_problems : Catalogs → Kind → String → Node → List Problem
name_problems c agent_node id node =
    if str_eq (trim_space node.agent_name) ""
    then agent_name_required id ∷ []
    else if known c.agents node.agent_name
    then []
    else unknown_agent id node.agent_name ∷ []
name_problems c skill_node id node =
    if str_eq (trim_space node.skill_name) ""
    then skill_name_required id ∷ []
    else if known c.skills node.skill_name
    then []
    else unknown_skill id node.skill_name ∷ []
name_problems c _ id node = []

pub record Nodes : Type 0 where
  pub taken : List Checked
  pub starts : ℕ
  pub ends : ℕ
  pub problems : List Problem

abbrev pub one_if_start : Kind → ℕ
one_if_start start_node = 1
one_if_start _ = 0

abbrev pub one_if_end : Kind → ℕ
one_if_end end_node = 1
one_if_end _ = 0

-- The node is stored whatever its problems, unless its id is empty or was seen.
abbrev pub take_node : Catalogs → Node → String → Kind → Nodes → Nodes
take_node c node id kind v =
    if str_eq id ""
    then record v { problems = v.problems ++ node_id_required ∷ [] }
    else if mem id (ids v.taken)
    then record v { problems = v.problems ++ duplicate_node id ∷ [] }
    else record {
      taken = record { id = id; kind = kind } ∷ v.taken;
      starts = v.starts + one_if_start kind;
      ends = v.ends + one_if_end kind;
      problems =
          v.problems
          ++ (if allowed_node_type kind then [] else unsupported_type id ∷ [])
          ++ name_problems c kind id node;
    }

unfoldable pub take_nodes : Catalogs → List Node → Nodes → Nodes
unfolding kind_of trim_space
take_nodes c [] v = v
take_nodes c (node ∷ rest) v =
    take_nodes c rest (take_node c node (trim_space node.id) (kind_of node.type) v)

-- `validateNodes`.
unfoldable pub validate_nodes : Catalogs → List Node → Nodes
unfolding take_nodes
validate_nodes c nodes =
    let v = take_nodes c nodes (record { taken = []; starts = 0; ends = 0; problems = [] }) in
    record v {
      problems =
          v.problems
          ++ (if v.starts == 1 then [] else start_count v.starts ∷ [])
          ++ (if v.ends == 1 then [] else end_count v.ends ∷ []);
    }

pub record Edges : Type 0 where
  pub outgoing : List Edge
  pub indegree : String → ℕ
  pub outdegree : String → ℕ
  pub seen : List String
  pub problems : List Problem
  pub warnings : List String

-- `degree[id]++`.
abbrev pub bump : String → (String → ℕ) → String → ℕ
bump id degree x = if str_eq id x then degree x + 1 else degree x

abbrev pub complain : Edges → Problem → Edges
complain v p = record v { problems = v.problems ++ p ∷ [] }

-- The key of an edge in the set of those that were seen.
abbrev pub edge_key : Edge → String
edge_key e = concat e.from (concat "->" e.to)

-- One turn of the loop of `validateEdges`, for the trimmed edge.
abbrev pub take_edge : List String → Edge → Edges → Edges
take_edge nodes e v =
    if str_eq e.from "" || str_eq e.to ""
    then complain v edge_ends_required
    else if str_eq e.from e.to
    then complain v (self_edge e.from)
    else if not (mem e.from nodes)
    then complain v (unknown_from e.from)
    else if not (mem e.to nodes)
    then complain v (unknown_to e.to)
    else if mem (edge_key e) v.seen
    then record v { warnings = v.warnings ++ edge_key e ∷ [] }
    else record v {
      seen = edge_key e ∷ v.seen;
      outgoing = v.outgoing ++ e ∷ [];
      outdegree = bump e.from v.outdegree;
      indegree = bump e.to v.indegree;
    }

unfoldable pub take_edges : List String → List Edge → Edges → Edges
unfolding trim_space
take_edges nodes [] v = v
take_edges nodes (e ∷ rest) v =
    take_edges nodes rest
      (take_edge nodes (record { from = trim_space e.from; to = trim_space e.to }) v)

-- `validateEdges`.
unfoldable pub validate_edges : List String → List Edge → Edges
unfolding take_edges
validate_edges nodes edges = take_edges nodes edges (record {
  outgoing = [];
  indegree = λ _. 0;
  outdegree = λ _. 0;
  seen = [];
  problems = [];
  warnings = [];
})

abbrev pub is_start : Kind → Bool
is_start start_node = true
is_start _ = false

abbrev pub is_end : Kind → Bool
is_end end_node = true
is_end _ = false

abbrev pub complain_if : Bool → Problem → List Problem
complain_if b p = if b then p ∷ [] else []

-- `validateStartEnd`, the nodes in the order of the list.
unfoldable pub validate_start_end : Edges → List Checked → List Problem
validate_start_end v [] = []
validate_start_end v (n ∷ rest) =
    complain_if (is_start n.kind && not (v.indegree n.id == 0)) (start_has_incoming n.id)
    ++ complain_if (is_end n.kind && not (v.outdegree n.id == 0)) (end_has_outgoing n.id)
    ++ complain_if (not (is_start n.kind) && v.indegree n.id == 0) (no_incoming n.id)
    ++ complain_if (not (is_end n.kind) && v.outdegree n.id == 0) (no_outgoing n.id)
    ++ validate_start_end v rest
