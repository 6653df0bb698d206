-- ===== src/Workflow/Validate/Sound.antt =====
-- What a definition without errors is.
use text.Mathlib.Text.{◌==◌ as str_eq}
use text.Mathlib.TextEquality.{eq_iff}
use adbcops.Common.{
  ℕ, ◌≤◌, ◌≡◌, refl, sym, ap, subst, ◌∙◌, inl, inr, String, Bool, true, false, not, some, List, [],
  ◌∷◌, ◌++◌, keep, first, length, if◌then◌else◌, ◌==◌, ltb, All, arith, Bool-cases,
}
use adbcops.Common.Members.{String_eq, mem, mem_head, mem_tail, Nodup}
use adbcops.Workflow.Definition.{
  Definition, Node, Catalogs, Checked, Edge, Nodes, Edges, Problem, ids, is_start, is_end,
  complain_if, unreachable, dead_end, start_count, end_count, validate_nodes, take_nodes,
  validate_edges, validate_start_end,
}
use adbcops.Workflow.Graph.{
  IsGraph, Placed, validate_nodes-IsNodes, validate_edges-IsGraph, validate_start_end_lem,
}
use adbcops.Workflow.Dag.{validate_dag}
use adbcops.Workflow.Dag.Acyclic.{Leads, validate_dag_acyclic}
use adbcops.Workflow.Reach.{walk, reversed, missed, validate_reachability}
use adbcops.Workflow.Reach.Exact.{Reaches, walk_iff}
use adbcops.Workflow.Reach.Turned.{Joins-reversed, Reaches-of_reversed}
use adbcops.Workflow.Validate.{
  validate, validate_graph, local_problems, header_problems, whole_problems, max_workflow_nodes,
  max_workflow_edges,
}

-- Two lists without an element stand behind one.
pub append_nil : {A : Type 0} (xs ys : List A) → xs ++ ys ≡ [] → (xs ≡ []) × (ys ≡ [])
append_nil [] ys e = (refl, e)
append_nil (x ∷ xs) ys e = absurd cc

mem-id-keep :
    (p : Checked → Bool) (n : Checked) (ns rest : List Checked)
    → keep p ns ≡ n ∷ rest
    → (first p ns ≡ some n) × (mem n.id (ids ns) ≡ true)
mem-id-keep p n [] rest e = absurd cc
mem-id-keep p n (m ∷ ns) rest e = elim (Bool-cases (p m)) [
  | inl y ↦
      let same : m ≡ n = ∷-injective (rw y at e) in
      (
        rw y (ap some same),
        subst (λ (k : Checked). mem k.id (ids (m ∷ ns)) ≡ true) same (mem_head m.id (ids ns)),
      )
  | inr k ↦
      let (f, h) = mem-id-keep p n ns rest (rw k at e) in (rw k f, mem_tail n.id m.id (ids ns) h)
]
  where
    ∷-injective : {xs : List Checked} → m ∷ xs ≡ n ∷ rest → m ≡ n
    ∷-injective q = cc

one_element : (ns : List Checked) → length ns ≡ 1 → (n : Checked) × (ns ≡ n ∷ [])
one_element [] e = absurd (omega (arith, e))
one_element (n ∷ []) e = (n, refl)
one_element (n ∷ m ∷ ns) e = absurd (omega (arith, e))

complain_if_nil : (b : Bool) (p : Problem) → complain_if (not b) p ≡ [] → b ≡ true
complain_if_nil true p e = refl
complain_if_nil false p e = absurd cc

missed_none :
    (from_start to_end xs : List String)
    → missed from_start to_end xs ≡ []
    → (x : String) → mem x xs ≡ true
    → (mem x from_start ≡ true) × (mem x to_end ≡ true)
unfolding mem
missed_none f t [] e x m = absurd cc
missed_none f t (y ∷ xs) e x m = elim (Bool-cases (str_eq x y)) [
  | inl s ↦
      subst (λ z. (mem z f ≡ true) × (mem z t ≡ true)) (sym ((eq_iff x y).0 s))
        (
          complain_if_nil (mem y f) (unreachable y) first_part.0,
          complain_if_nil (mem y t) (dead_end y) second_part.0,
        )
  | inr s ↦ missed_none f t xs second_part.1 x (rw s at m)
]
  where
    first_part :
        (complain_if (not (mem y f)) (unreachable y) ≡ [])
        × (complain_if (not (mem y t)) (dead_end y) ++ missed f t xs ≡ [])
    first_part = append_nil _ _ e

    second_part : (complain_if (not (mem y t)) (dead_end y) ≡ []) × (missed f t xs ≡ [])
    second_part = append_nil _ _ first_part.1

-- The graph of a well-formed workflow: one start node and one end node, every node on a way from
-- the one to the other, no way from a node back to it, and edges at the places where they belong.
pub record IsWorkflow (ns : List Checked) (edges : List Edge) : Type 0 where
  pub start : Checked
  pub end : Checked
  pub starts : keep (λ (n : Checked). is_start n.kind) ns ≡ start ∷ []
  pub ends : keep (λ (n : Checked). is_end n.kind) ns ≡ end ∷ []
  pub unique : Nodup (ids ns)
  pub placed : All (Placed edges) ns
  pub passed :
      (x : String) → mem x (ids ns) ≡ true → Reaches edges start.id x × Reaches edges x end.id
  pub acyclic : (x : String) → ¬ (Leads edges x x)

abbrev no_node : Nodes
no_node = record { taken = []; starts = 0; ends = 0; problems = [] }

counted_one :
    (c : Catalogs) (nodes : List Node)
    → (validate_nodes c nodes).problems ≡ []
    → ((take_nodes c nodes no_node).problems ≡ [])
      × ((validate_nodes c nodes).starts ≡ 1)
      × ((validate_nodes c nodes).ends ≡ 1)
unfolding validate_nodes
counted_one c nodes e =
    let outer = append_nil _ _ e in
    let inner = append_nil (take_nodes c nodes no_node).problems _ outer.0 in
    (inner.0, one_of _ start_count inner.1, one_of _ end_count outer.1)
  where
    one_of : (k : ℕ) (p : ℕ → Problem) → (if k == 1 then [] else p k ∷ []) ≡ [] → k ≡ 1
    one_of k p q = ground arith

reached :
    (ns : List Checked) (v : Edges) (s t : Checked)
    → IsGraph (ids ns) v
    → keep (λ (n : Checked). is_start n.kind) ns ≡ s ∷ []
    → keep (λ (n : Checked). is_end n.kind) ns ≡ t ∷ []
    → validate_reachability ns v ≡ []
    → (x : String) → mem x (ids ns) ≡ true
    → Reaches v.outgoing s.id x × Reaches v.outgoing x t.id
unfolding validate_reachability
reached ns v s t g ks ke e x m =
    let (found_s, member_s) = mem-id-keep (λ (n : Checked). is_start n.kind) s ns [] ks in
    let (found_t, member_t) = mem-id-keep (λ (n : Checked). is_end n.kind) t ns [] ke in
    let none : missed (walk (ids ns) s.id v.outgoing) (walk (ids ns) t.id (reversed v.outgoing))
          (ids ns)
        ≡ [] =
      rw (found_s, found_t) at e in
    let (a, b) = missed_none _ _ (ids ns) none x m in
    (
      (walk_iff v.outgoing (ids ns) s.id g.joins x member_s).0 a,
      Reaches-of_reversed v.outgoing t.id x (
          (walk_iff (reversed v.outgoing) (ids ns) t.id (Joins-reversed (ids ns) v.outgoing g.joins)
              x member_t).0
            b),
    )

-- What stands behind a definition without errors: no pass has complained.
pub record Passes (c : Catalogs) (d : Definition) (n : Nodes) (v : Edges) : Type 0 where
  pub few_nodes : length d.nodes ≤ max_workflow_nodes
  pub few_edges : length d.edges ≤ max_workflow_edges
  pub header : header_problems d ≡ []
  pub nodes : n.problems ≡ []
  pub edges : v.problems ≡ []
  pub start_end : validate_start_end v n.taken ≡ []
  pub dag : validate_dag (ids n.taken) v ≡ []
  pub reachability : validate_reachability n.taken v ≡ []

snoc_some : (ps : List Problem) (p : Problem) → ps ++ p ∷ [] ≡ [] → ⊥
snoc_some [] p e = cc
snoc_some (q ∷ ps) p e = cc

validate_graph_nil :
    (d : Definition) (n : Nodes) (v : Edges)
    → (validate_graph d n v).errors ≡ []
    → (local_problems d n v ≡ []) × (whole_problems n v ≡ [])
unfolding validate_graph
validate_graph_nil d n v e = elim (Bool-cases (length (local_problems d n v) == 0)) [
  | inl z ↦ append_nil _ _ (rw z at e)
  | inr z ↦ absurd (some_left (local_problems d n v) z (rw z at e))
]
  where
    some_left : (ps : List Problem) → (length ps == 0) ≡ false → ps ≡ [] → ⊥
    some_left [] z q = cc
    some_left (p ∷ ps) z q = cc

not_above : (a b : ℕ) → ltb a b ≡ false → b ≤ a
not_above a b e = ground arith

local_four :
    (d : Definition) (n : Nodes) (v : Edges)
    → local_problems d n v ≡ []
    → header_problems d ++ n.problems ++ v.problems ++ validate_start_end v n.taken ≡ []
unfolding local_problems
local_four d n v e = e

pub validate-Passes :
    (c : Catalogs) (d : Definition)
    → (validate c d).errors ≡ []
    → Passes c d
        (validate_nodes c d.nodes)
        (validate_edges (ids (validate_nodes c d.nodes).taken) d.edges)
unfolding validate
validate-Passes c d e = elim (Bool-cases (length d.nodes == 0)) [
  | inl z ↦ absurd (snoc_some (header_problems d) _ (rw z at e))
  | inr z ↦ elim (Bool-cases (ltb max_workflow_nodes (length d.nodes))) [
    | inl m ↦ absurd (snoc_some (header_problems d) _ (rw (z, m) at e))
    | inr m ↦ elim (Bool-cases (ltb max_workflow_edges (length d.edges))) [
      | inl k ↦ absurd (snoc_some (header_problems d) _ (rw (z, m, k) at e))
      | inr k ↦ passes (rw (z, m, k) at e) (not_above _ _ m) (not_above _ _ k)
    ]
  ]
]
  where
    n : Nodes
    n = validate_nodes c d.nodes

    v : Edges
    v = validate_edges (ids n.taken) d.edges

    passes :
        (validate_graph d n v).errors ≡ []
        → length d.nodes ≤ max_workflow_nodes
        → length d.edges ≤ max_workflow_edges
        → Passes c d n v
    passes q few_nodes few_edges =
        let (near, whole) = validate_graph_nil d n v q in
        let three = append_nil _ _ (local_four d n v near) in
        let two = append_nil _ _ three.0 in
        let one = append_nil _ _ two.0 in
        let last = append_nil _ _ whole in
        record {
          few_nodes = few_nodes;
          few_edges = few_edges;
          header = one.0;
          nodes = one.1;
          edges = two.1;
          start_end = three.1;
          dag = last.0;
          reachability = last.1;
        }

-- A definition in which `Validate` finds no error is a well-formed workflow: one start node and
-- one end node, each node on a way from the one to the other along the kept edges, no way from a
-- node back to it, and kept edges to every node but the start and from every node but the end.
pub validate-IsWorkflow :
    (c : Catalogs) (d : Definition)
    → (validate c d).errors ≡ []
    → IsWorkflow
        (validate_nodes c d.nodes).taken
        (validate_edges (ids (validate_nodes c d.nodes).taken) d.edges).outgoing
validate-IsWorkflow c d e =
    let p = validate-Passes c d e in
    let taken = validate_nodes-IsNodes c d.nodes in
    let graph = validate_edges-IsGraph (ids (validate_nodes c d.nodes).taken) d.edges in
    let (_, s, t) = counted_one c d.nodes p.nodes in
    let (start, ks) = one_element _ (sym taken.starts ∙ s) in
    let (end, ke) = one_element _ (sym taken.ends ∙ t) in
    record {
      start = start;
      end = end;
      starts = ks;
      ends = ke;
      unique = taken.unique;
      placed = validate_start_end_lem _ d.edges _ p.start_end;
      passed = reached _ _ start end graph ks ke p.reachability;
      acyclic = λ x. validate_dag_acyclic _ d.edges taken.unique x p.dag;
    }
