-- ===== src/Workflow/Graph.antt =====
-- What the passes of the validator establish: the nodes that it takes, the edges that it keeps with
-- their degrees, and the places of the nodes among the edges.
use text.Mathlib.Text.{◌==◌ as str_eq}
use adbcops.Common.{
  ◌+◌, ◌≡◌, refl, sym, ap, ◌∙◌, String, Bool, true, false, not, ◌&&◌, ◌||◌, List, [], ◌∷◌, ◌++◌,
  ◌==◌, if◌then◌else◌, All, any, keep, length, arith, inl, inr, Bool-cases,
}
use adbcops.Common.Text.{trim_space}
use adbcops.Common.Members.{String_eq, mem, Nodup}
use adbcops.Workflow.Definition.{
  start_has_incoming, end_has_outgoing, no_incoming, no_outgoing, Node, Edge, Kind, Checked,
  Catalogs, Nodes, Edges, Problem, ids, is_start, is_end, take_node, take_nodes, validate_nodes,
  complain_if, edge_key, take_edge, take_edges, validate_edges, validate_start_end, kind_of,
}

-- The ids of the nodes that were taken are not empty and differ, and the start nodes among them are
-- those that were counted.
pub record IsNodes (v : Nodes) : Type 0 where
  pub unique : Nodup (ids v.taken)
  pub named : All (λ (c : Checked). str_eq c.id "" ≡ false) v.taken
  pub starts : v.starts ≡ length (keep (λ (c : Checked). is_start c.kind) v.taken)
  pub ends : v.ends ≡ length (keep (λ (c : Checked). is_end c.kind) v.taken)

take_node-IsNodes :
    (c : Catalogs) (node : Node) (id : String) (kind : Kind) (v : Nodes)
    → IsNodes v
    → IsNodes (take_node c node id kind v)
take_node-IsNodes c node id kind v h = elim (Bool-cases (str_eq id "")) [
  | inl e ↦ rw e (record { unique = h.unique; named = h.named; starts = h.starts; ends = h.ends })
  | inr e ↦ rw e (elim (Bool-cases (mem id (ids v.taken))) [
    | inl m ↦ rw m (record { unique = h.unique; named = h.named; starts = h.starts; ends = h.ends })
    | inr m ↦ rw m (record {
      unique = (m, h.unique);
      named = (e, h.named);
      starts = ground (arith, h.starts);
      ends = ground (arith, h.ends);
    })
  ])
]

take_nodes-IsNodes :
    (c : Catalogs) (nodes : List Node) (v : Nodes) → IsNodes v → IsNodes (take_nodes c nodes v)
unfolding take_nodes
take_nodes-IsNodes c [] v h = h
take_nodes-IsNodes c (node ∷ rest) v h =
    take_nodes-IsNodes c rest _ (take_node-IsNodes c node _ (kind_of node.type) v h)

-- `validateNodes` takes nodes with distinct ids that are not empty, and its counts are the numbers
-- of the start nodes and of the end nodes among them.
pub validate_nodes-IsNodes : (c : Catalogs) (nodes : List Node) → IsNodes (validate_nodes c nodes)
unfolding validate_nodes
validate_nodes-IsNodes c nodes = record {
  unique = h.unique;
  named = h.named;
  starts = h.starts;
  ends = h.ends;
}
  where
    h : IsNodes (take_nodes c nodes (record { taken = []; starts = 0; ends = 0; problems = [] }))
    h =
        take_nodes-IsNodes c nodes _
          (record { unique = tt; named = tt; starts = refl; ends = refl })

abbrev pub into : String → Edge → Bool
into x e = str_eq e.to x

abbrev pub out_of : String → Edge → Bool
out_of x e = str_eq e.from x

-- An edge between two known nodes that differ.
abbrev pub Joins : List String → Edge → Type 0
Joins nodes e = (mem e.from nodes ≡ true) × (mem e.to nodes ≡ true) × (str_eq e.from e.to ≡ false)

-- The kept edges join known nodes, no two of them have the same key, and the degrees count them.
pub record IsGraph (nodes : List String) (v : Edges) : Type 0 where
  pub joins : All (Joins nodes) v.outgoing
  pub unique : Nodup v.seen
  pub indegree : (x : String) → v.indegree x ≡ length (keep (into x) v.outgoing)
  pub outdegree : (x : String) → v.outdegree x ≡ length (keep (out_of x) v.outgoing)

All-snoc :
    {A : Type 0} (P : A → Type 0) (xs : List A) (x : A) → All P xs → P x → All P (xs ++ x ∷ [])
All-snoc P [] x h p = (p, tt)
All-snoc P (y ∷ xs) x h p = (h.0, All-snoc P xs x h.1 p)

length-keep-snoc :
    {A : Type 0} (b : A → Bool) (xs : List A) (x : A)
    → length (keep b (xs ++ x ∷ [])) ≡ length (keep b xs) + (if b x then 1 else 0)
length-keep-snoc b [] x = ground arith
length-keep-snoc b (y ∷ xs) x = ground (arith, length-keep-snoc b xs x)

take_edge-IsGraph :
    (nodes : List String) (e : Edge) (v : Edges)
    → IsGraph nodes v
    → IsGraph nodes (take_edge nodes e v)
take_edge-IsGraph nodes e v h = elim (Bool-cases (str_eq e.from "" || str_eq e.to "")) [
  | inl y ↦ rw y same
  | inr n ↦ rw n (elim (Bool-cases (str_eq e.from e.to)) [
    | inl y ↦ rw y same
    | inr apart ↦ rw apart (elim (Bool-cases (mem e.from nodes)) [
      | inr y ↦ rw y same
      | inl from ↦ rw from (elim (Bool-cases (mem e.to nodes)) [
        | inr y ↦ rw y same
        | inl to ↦ rw to (elim (Bool-cases (mem (edge_key e) v.seen)) [
          | inl y ↦ rw y same
          | inr fresh ↦ rw fresh (record {
            joins = All-snoc (Joins nodes) v.outgoing e h.joins (from, to, apart);
            unique = (fresh, h.unique);
            indegree = λ x. ground (arith, h.indegree x, length-keep-snoc (into x) v.outgoing e);
            outdegree =
                λ x. ground (arith, h.outdegree x, length-keep-snoc (out_of x) v.outgoing e);
          })
        ])
      ])
    ])
  ])
]
  where
    same :
        {p : List Problem} {w : List String}
        → IsGraph nodes (record v { problems = p; warnings = w })
    same = record {
      joins = h.joins;
      unique = h.unique;
      indegree = h.indegree;
      outdegree = h.outdegree;
    }

take_edges-IsGraph :
    (nodes : List String) (edges : List Edge) (v : Edges)
    → IsGraph nodes v
    → IsGraph nodes (take_edges nodes edges v)
unfolding take_edges
take_edges-IsGraph nodes [] v h = h
take_edges-IsGraph nodes (e ∷ rest) v h =
    take_edges-IsGraph nodes rest _
      (take_edge-IsGraph nodes (record { from = trim_space e.from; to = trim_space e.to }) v h)

-- `validateEdges` keeps edges that join two known nodes that differ, none of them twice by its key,
-- and the degree of each node is the number of kept edges that lead to it or from it.
pub validate_edges-IsGraph :
    (nodes : List String) (edges : List Edge) → IsGraph nodes (validate_edges nodes edges)
unfolding validate_edges
validate_edges-IsGraph nodes edges =
    take_edges-IsGraph nodes edges _
      (record { joins = tt; unique = tt; indegree = λ _. refl; outdegree = λ _. refl })

-- No edge leads to a start node and one leads to any other; none leads from an end node and one
-- leads from any other.
abbrev pub Placed : List Edge → Checked → Type 0
Placed out n =
    (any (into n.id) out ≡ not (is_start n.kind)) × (any (out_of n.id) out ≡ not (is_end n.kind))

any_of_count : {A : Type 0} (b : A → Bool) (xs : List A) → any b xs ≡ not (length (keep b xs) == 0)
any_of_count b [] = refl
any_of_count b (x ∷ xs) = elim (Bool-cases (b x)) [
  | inl e ↦ rw e (ground arith)
  | inr e ↦ rw e (any_of_count b xs)
]

-- No complaint is made.
quiet :
    (a b c d : Bool) (p q r t : Problem) (rest : List Problem)
    → complain_if a p ++ complain_if b q ++ complain_if c r ++ complain_if d t ++ rest ≡ []
    → (a ≡ false) × (b ≡ false) × (c ≡ false) × (d ≡ false) × (rest ≡ [])
quiet true b c d p q r t rest e = absurd cc
quiet false true c d p q r t rest e = absurd cc
quiet false false true d p q r t rest e = absurd cc
quiet false false false true p q r t rest e = absurd cc
quiet false false false false p q r t rest e = (refl, refl, refl, refl, e)

placed : (s z : Bool) → (s && not z) ≡ false → (not s && z) ≡ false → not z ≡ not s
placed s z a b = ground arith

validate_start_end-Placed :
    (nodes : List String) (v : Edges) (ns : List Checked)
    → IsGraph nodes v
    → validate_start_end v ns ≡ []
    → All (Placed v.outgoing) ns
unfolding validate_start_end
validate_start_end-Placed nodes v [] h e = tt
validate_start_end-Placed nodes v (n ∷ ns) h e =
    let none =
      quiet _ _ _ _ (start_has_incoming n.id) (end_has_outgoing n.id) (no_incoming n.id)
        (no_outgoing n.id) (validate_start_end v ns) e in
    (
      (
        any_of_count (into n.id) v.outgoing
            ∙ ap (λ k. not (k == 0)) (sym (h.indegree n.id))
            ∙ placed (is_start n.kind) (v.indegree n.id == 0) none.0 none.2,
        any_of_count (out_of n.id) v.outgoing
            ∙ ap (λ k. not (k == 0)) (sym (h.outdegree n.id))
            ∙ placed (is_end n.kind) (v.outdegree n.id == 0) none.1 none.3,
      ),
      validate_start_end-Placed nodes v ns h none.4,
    )

-- Where `validateStartEnd` finds nothing wrong after `validateEdges`, no kept edge leads to a start
-- node or from an end node, and every other node has a kept edge that leads to it or from it.
pub validate_start_end_lem :
    (nodes : List String) (edges : List Edge) (ns : List Checked)
    → validate_start_end (validate_edges nodes edges) ns ≡ []
    → All (Placed (validate_edges nodes edges).outgoing) ns
validate_start_end_lem nodes edges ns e =
    validate_start_end-Placed nodes (validate_edges nodes edges) ns
      (validate_edges-IsGraph nodes edges) e
