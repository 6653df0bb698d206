-- ===== src/Workflow/Executor/Valid.antt =====
-- A definition that `Validate` accepts is one that `execute` completes. The executor reads the ids as
-- they stand in the definition, the validator without the space around them.
use adbcops.Common.{
  ℕ, ◌≡◌, refl, sym, ap, subst, ◌∙◌, inl, inr, String, true, none, some, List, [], ◌∷◌,
  if◌then◌else◌, All, arith,
}
use adbcops.Common.Text.{trim_space}
use adbcops.Common.Members.{String_eq, mem, Subset}
use adbcops.Workflow.Faults.{workflow_partial}
use adbcops.Workflow.Definition.{
  Node, Edge, Definition, Catalogs, Edges, ids, edge_key, validate_nodes, take_nodes,
  validate_edges,
}
use adbcops.Workflow.Graph.{into, Joins, validate_nodes-IsNodes, validate_edges-IsGraph}
use adbcops.Workflow.Dag.Invariant.{Topo}
use adbcops.Workflow.Dag.Acyclic.{Among, All-Among, validate_dag_iff}
use adbcops.Workflow.Validate.{validate}
use adbcops.Workflow.Validate.Sound.{validate-Passes, append_nil}
use adbcops.Workflow.Validate.Kept.{
  trimmed_edge, trimmed_ids, take_edges_seen, IsKept, take_edges-IsKept, take_nodes_quiet,
}
use adbcops.Workflow.Nodes.{Services}
use adbcops.Workflow.Executor.{Outcome, node_ids, execute}
use adbcops.Workflow.Executor.Progress.{IsRunnable, execute_live}

-- No id has space around it, and two edges with one key are the same.
pub record IsNormal (d : Definition) : Type 0 where
  pub ids : All (λ (n : Node). trim_space n.id ≡ n.id) d.nodes
  pub edges : All (λ (e : Edge). trimmed_edge e ≡ e) d.edges
  pub keys : (e f : Edge) → Among e d.edges → Among f d.edges → edge_key e ≡ edge_key f → e ≡ f

All_of_Among : (P : Edge → Type 0) (es : List Edge) → ((e : Edge) → Among e es → P e) → All P es
All_of_Among P [] h = tt
All_of_Among P (e ∷ es) h = (h e (inl refl), All_of_Among P es (λ d a. h d (inr a)))

trimmed_ids_same :
    (ns : List Node) → All (λ (n : Node). trim_space n.id ≡ n.id) ns → trimmed_ids ns ≡ node_ids ns
trimmed_ids_same [] h = refl
trimmed_ids_same (n ∷ ns) h = rw (h.0, trimmed_ids_same ns h.1) refl

-- The ids that the validator takes are those of the definition.
taken_same :
    (c : Catalogs) (d : Definition)
    → IsNormal d
    → (validate_nodes c d.nodes).problems ≡ []
    → (x : String) → mem x (ids (validate_nodes c d.nodes).taken) ≡ mem x (node_ids d.nodes)
unfolding validate_nodes mem
taken_same c d n q x =
    let inner = append_nil (take_nodes c d.nodes _).problems _ (append_nil _ _ q).0 in
    ground (
      arith,
      (take_nodes_quiet c d.nodes _ inner.0).1 x,
      ap (mem x) (trimmed_ids_same d.nodes n.ids),
    )

abbrev no_edges : Edges
no_edges = record {
  outgoing = [];
  indegree = λ _. 0;
  outdegree = λ _. 0;
  seen = [];
  problems = [];
  warnings = [];
}

no_edges-IsKept : (edges : List Edge) → IsKept edges no_edges
unfolding mem
no_edges-IsKept edges = record { keyed = λ x m. absurd (nothing x m); given = λ k b. absurd b }
  where
    nothing : (x : String) → mem x [] ≡ true → ⊥
    nothing x m = cc

-- The validator keeps every edge.
edges_kept :
    (d : Definition) (nodes : List String)
    → IsNormal d
    → (validate_edges nodes d.edges).problems ≡ []
    → (e : Edge) → Among e d.edges
    → Among e (validate_edges nodes d.edges).outgoing
unfolding validate_edges mem
edges_kept d nodes n q e a =
    let kept = take_edges-IsKept d.edges nodes d.edges _ (λ k b. b) (no_edges-IsKept d.edges) in
    let (f, b, key) = kept.keyed _ (take_edges_seen nodes d.edges _ e q a) in
    let (g, g_among, g_same) = kept.given f b in
    let trimmed : trimmed_edge g ≡ g =
      All-Among (λ (k : Edge). trimmed_edge k ≡ k) g d.edges n.edges g_among in
    let e_trimmed : trimmed_edge e ≡ e =
      All-Among (λ (k : Edge). trimmed_edge k ≡ k) e d.edges n.edges a in
    let g_is_f : g ≡ f = sym trimmed ∙ g_same in
    let same : g ≡ e = n.keys g e g_among a (ap edge_key g_is_f ∙ key ∙ ap edge_key e_trimmed) in
    subst (λ k. Among k (validate_edges nodes d.edges).outgoing) (sym g_is_f ∙ same) b

Topo-of_Among :
    (kept edges : List Edge) (o : List String)
    → ((e : Edge) → Among e edges → Among e kept)
    → Topo kept o
    → Topo edges o
Topo-of_Among kept edges [] h t = tt
Topo-of_Among kept edges (x ∷ o) h t = (
  All_of_Among _ edges
      (λ e a. All-Among (λ (k : Edge). into x k ≡ true → mem k.from o ≡ true) e kept t.0 (h e a)),
  Topo-of_Among kept edges o h t.1,
)

validate-IsRunnable :
    (c : Catalogs) (d : Definition) → IsNormal d → (validate c d).errors ≡ [] → IsRunnable d
validate-IsRunnable c d n e =
    let p = validate-Passes c d e in
    let taken = validate_nodes-IsNodes c d.nodes in
    let nodes : List String = ids (validate_nodes c d.nodes).taken in
    let graph = validate_edges-IsGraph nodes d.edges in
    let (o, unique, subset, topo) = (validate_dag_iff nodes d.edges taken.unique).0 p.dag in
    let keeps = edges_kept d nodes n p.edges in
    record {
      order = o;
      all = λ x m. subset x (taken_same c d n p.nodes x ∙ m);
      topo = Topo-of_Among (validate_edges nodes d.edges).outgoing d.edges o keeps topo;
      from_nodes = All_of_Among _ d.edges (λ k a.
          sym (taken_same c d n p.nodes k.from)
          ∙ (All-Among (Joins nodes) k (validate_edges nodes d.edges).outgoing graph.joins
              (keeps k a)).0);
    }

-- `execute` completes a definition that `Validate` accepts, whose ids have no space around them and
-- whose edges have different keys: where no context ends and no node fails, all its nodes are
-- completed, and the only error returned is that of a partial result.
pub execute_valid :
    (c : Catalogs) (s : Services) (d : Definition) (input : String) (o : Outcome)
    → IsNormal d
    → (validate c d).errors ≡ []
    → ((k : ℕ) → s.context_error k ≡ none)
    → execute s d input ≡ some o
    → o.state.failed ≡ []
    → Subset (node_ids d.nodes) o.state.completed
      × (o.error ≡ (if o.state.partial then some workflow_partial else none))
execute_valid c s d input o n e = execute_live s d input o (validate-IsRunnable c d n e)
