-- ===== src/Workflow/Dag/Acyclic.antt =====
-- `validateDAG` accepts exactly the graphs that have an order along their edges, and in such a graph
-- no node leads back to itself.
use mathlib.Core.Bool.{true≢false, false≢true}
use text.Mathlib.Text.{◌==◌ as str_eq}
use text.Mathlib.TextEquality.{eq_iff}
use adbcops.Common.{
  ℕ, suc, ◌≡◌, ◌↔◌, refl, sym, subst, ◌∙◌, inl, inr, String, true, false, some, List, [], ◌∷◌, keep,
  length, if◌then◌else◌, ◌==◌, All, Some, arith, Bool-cases,
}
use adbcops.Common.Members.{String_eq, mem, Nodup, Subset, subset_of_length, length_of_Subset}
use adbcops.Workflow.Definition.{Edge, validate_edges}
use adbcops.Workflow.Graph.{into, Joins, IsGraph, validate_edges-IsGraph}
use adbcops.Workflow.Dag.{visits, validate_dag}
use adbcops.Workflow.Dag.Invariant.{Topo, Round, open_into, kahn_ends, start-Round}

-- What stands after a text in a list.
older : String → List String → List String
older y [] = []
older y (x ∷ xs) = let rest = older y xs in if str_eq x y then xs else rest

mem-older : (x y : String) (o : List String) → mem x (older y o) ≡ true → mem x o ≡ true
unfolding mem older
mem-older x y [] m = m
mem-older x y (a ∷ o) m = ground (arith, mem-older x y o)

older_trans :
    (x y z : String) (o : List String)
    → Nodup o
    → mem y (older z o) ≡ true
    → mem x (older y o) ≡ true
    → mem x (older z o) ≡ true
unfolding mem older
older_trans x y z [] n m k = m
older_trans x y z (a ∷ o) n m k =
    ground (arith, older_trans x y z o n.1, mem-older y z o, mem-older x y o, differs)
  where
    differs : mem y o ≡ true → str_eq a y ≡ false
    differs q = elim (Bool-cases (str_eq a y)) [
      | inl s ↦
          absurd (false≢true (sym n.0 ∙ subst (λ b. mem b o ≡ true) (sym ((eq_iff a y).0 s)) q))
      | inr s ↦ s
    ]

older_self : (x : String) (o : List String) → Nodup o → mem x (older x o) ≡ false
unfolding mem older
older_self x [] n = refl
older_self x (a ∷ o) n = elim (Bool-cases (str_eq a x)) [
  | inl s ↦ rw s (subst (λ b. mem b o ≡ false) ((eq_iff a x).0 s) n.0)
  | inr s ↦ rw s (older_self x o n.1)
]

-- An edge of the list.
abbrev pub Among : Edge → List Edge → Type 0
Among e edges = Some (λ d. d ≡ e) edges

-- A way of one edge or more.
pub data Leads (edges : List Edge) (x : String) : String → Type 0 where
  one : (e : Edge) (y : String) → Among e edges → e.from ≡ x → e.to ≡ y → Leads edges x y
  more :
      (e : Edge) (y z : String)
      → Leads edges x y
      → Among e edges
      → e.from ≡ y
      → e.to ≡ z
      → Leads edges x z

pub All-Among :
    (P : Edge → Type 0) (e : Edge) (edges : List Edge) → All P edges → Among e edges → P e
All-Among P e [] h m = absurd m
All-Among P e (d ∷ edges) h (inl s) = subst P s h.0
All-Among P e (d ∷ edges) h (inr m) = All-Among P e edges h.1 m

module _ (edges : List Edge) where
  -- An edge leads from an older node to a newer one.
  edge_older :
      (e : Edge) (o : List String)
      → Topo edges o
      → Among e edges
      → mem e.to o ≡ true
      → mem e.from (older e.to o) ≡ true
  unfolding mem older
  edge_older e [] t a m = absurd cc
  edge_older e (x ∷ o) t a m = elim (Bool-cases (str_eq e.to x)) [
    | inl s ↦ ground (
      arith,
      All-Among (λ (d : Edge). into x d ≡ true → mem d.from o ≡ true) e edges t.0 a s,
      eq_iff x e.to,
      eq_iff e.to x,
    )
    | inr s ↦ ground (arith, edge_older e o t.1 a, eq_iff x e.to, eq_iff e.to x)
  ]

  Leads-older :
      (nodes o : List String)
      → All (Joins nodes) edges
      → Subset nodes o
      → Nodup o
      → Topo edges o
      → (x y : String) → Leads edges x y
      → mem x (older y o) ≡ true
  Leads-older nodes o j s n t x _ (one e y a f g) =
      subst (λ k. mem x (older k o) ≡ true) g
        (subst (λ k. mem k (older e.to o) ≡ true) f
          (edge_older e o t a (s e.to (All-Among (Joins nodes) e edges j a).1)))
  Leads-older nodes o j s n t x _ (more e y z l a f g) =
      older_trans x y z o n
        (subst (λ k. mem y (older k o) ≡ true) g
          (subst (λ k. mem k (older e.to o) ≡ true) f
            (edge_older e o t a (s e.to (All-Among (Joins nodes) e edges j a).1))))
        (Leads-older nodes o j s n t x y l)

  -- Where the older nodes are visited, no edge into the next one is open.
  none_open :
      (nodes visited older_nodes : List String) (x : String) (es : List Edge)
      → All (Joins nodes) es
      → All (λ (e : Edge). into x e ≡ true → mem e.from older_nodes ≡ true) es
      → ((y : String) → mem y older_nodes ≡ true → mem y nodes ≡ true → mem y visited ≡ true)
      → length (keep (open_into visited x) es) ≡ 0
  none_open nodes visited o x [] j t h = refl
  none_open nodes visited o x (e ∷ es) j t h =
      ground (arith, none_open nodes visited o x es j.1 t.1 h, t.0, h e.from, j.0)

  -- When the queue is empty, all nodes of an order are visited.
  order_visited :
      (nodes visited o : List String) (degree : String → ℕ)
      → All (Joins nodes) edges
      → Round edges nodes [] visited [] degree
      → Topo edges o
      → (y : String) → mem y o ≡ true
      → mem y nodes ≡ true
      → mem y visited ≡ true
  unfolding mem
  order_visited nodes visited [] degree j r t y m k = absurd cc
  order_visited nodes visited (x ∷ o) degree j r t y m k = elim (Bool-cases (str_eq y x)) [
    | inr s ↦ order_visited nodes visited o degree j r t.1 y (ground arith) k
    | inl s ↦
        let e : y ≡ x = (eq_iff y x).0 s in
        let zero_degree : degree x ≡ 0 = omega (
          arith,
          r.counts x,
          none_open nodes visited o x edges j t.0 (order_visited nodes visited o degree j r t.1),
        ) in
        subst (λ z. mem z visited ≡ true) (sym e)
          (ground (arith, r.all x (subst (λ z. mem z nodes ≡ true) e k) zero_degree))
  ]

module _ (nodes : List String) (edges : List Edge) (unique : Nodup nodes) where
  graph : IsGraph nodes (validate_edges nodes edges)
  graph = validate_edges-IsGraph nodes edges

  -- What the loop comes to.
  outcome :
      (final : List String) × (last : String → ℕ) × (visits nodes (validate_edges nodes edges)
        ≡ some final)
      × Round (validate_edges nodes edges).outgoing nodes [] final [] last
  unfolding visits
  outcome =
      kahn_ends (validate_edges nodes edges).outgoing nodes graph.joins (suc (length nodes)) [] _
        (validate_edges nodes edges).indegree (omega arith)
        (start-Round nodes (validate_edges nodes edges) unique graph)

  visited_Subset : Subset outcome.0 nodes
  visited_Subset x m = outcome.3.known x (rw m refl)

  -- The loop of `validateDAG` ends within a round for each node and one more: it does not run out
  -- of fuel.
  pub visits-some : (final : List String) × (visits nodes (validate_edges nodes edges) ≡ some final)
  visits-some = (outcome.0, outcome.2)

  accepted : validate_dag nodes (validate_edges nodes edges) ≡ [] → length outcome.0 ≡ length nodes
  unfolding validate_dag
  accepted e = elim (Bool-cases (length outcome.0 == length nodes)) [
    | inl s ↦ ground arith
    | inr s ↦ absurd (ground (arith, outcome.2))
  ]

  -- `validateDAG` finds nothing wrong exactly when the nodes stand in an order in which every kept
  -- edge leads from an older node to a newer one.
  pub validate_dag_iff : (validate_dag nodes (validate_edges nodes edges) ≡ []) ↔ (
      (o : List String) × Nodup o × Subset nodes o × Topo (validate_edges nodes edges).outgoing o)
  unfolding validate_dag
  validate_dag_iff = (to, from)
    where
      to :
          validate_dag nodes (validate_edges nodes edges) ≡ []
          → (o : List String) × Nodup o
            × Subset nodes o
            × Topo (validate_edges nodes edges).outgoing o
      to e = (
        outcome.0,
        outcome.3.visited_unique,
        subset_of_length outcome.0 nodes outcome.3.visited_unique visited_Subset
            (omega (arith, accepted e)),
        outcome.3.order,
      )

      from :
          (o : List String) × Nodup o
            × Subset nodes o
            × Topo (validate_edges nodes edges).outgoing o
          → validate_dag nodes (validate_edges nodes edges) ≡ []
      from (o, n, s, t) = rw (outcome.2) (ground (arith, same_length))
        where
          same_length : length outcome.0 ≡ length nodes
          same_length = omega (
            arith,
            length_of_Subset outcome.0 nodes outcome.3.visited_unique visited_Subset,
            length_of_Subset nodes outcome.0 unique (λ x m.
                order_visited (validate_edges nodes edges).outgoing nodes outcome.0 o outcome.1
                  graph.joins outcome.3 t x (s x m) m),
          )

  -- In a graph in which `validateDAG` finds nothing wrong, no way along the kept edges leads from a
  -- node back to it.
  pub validate_dag_acyclic :
      (x : String)
      → validate_dag nodes (validate_edges nodes edges) ≡ []
      → ¬ (Leads (validate_edges nodes edges).outgoing x x)
  validate_dag_acyclic x e l =
      let (o, n, s, t) = validate_dag_iff.0 e in
      true≢false (
        sym (Leads-older (validate_edges nodes edges).outgoing nodes o graph.joins s n t x x l)
        ∙ older_self x o n)
