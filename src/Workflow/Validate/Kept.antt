-- ===== src/Workflow/Validate/Kept.antt =====
-- In a definition without errors, whose ids have no space around them and whose edges differ by their
-- keys, the validator keeps every node and every edge.
use text.Mathlib.Text.{◌==◌ as str_eq}
use text.Mathlib.TextEquality.{eq_iff}
use adbcops.Common.{
  ◌≡◌, ◌≢◌, ◌⊎◌, refl, sym, ap, subst, inl, inr, String, true, ◌||◌, List, [], ◌∷◌, ◌++◌, arith,
  Bool-cases, map,
}
use adbcops.Common.Text.{trim_space}
use adbcops.Common.Members.{String_eq, mem, mem_head, mem_tail, Subset}
use adbcops.Workflow.Definition.{
  Node, Edge, Catalogs, Nodes, Edges, Kind, Problem, ids, edge_key, take_edge, take_edges,
  take_node, take_nodes, kind_of,
}
use adbcops.Workflow.Dag.Acyclic.{Among}
use adbcops.Workflow.Validate.Sound.{append_nil}

abbrev pub trimmed_edge : Edge → Edge
trimmed_edge e = record { from = trim_space e.from; to = trim_space e.to }

snoc_some : {A : Type 0} (xs : List A) (x : A) → xs ++ x ∷ [] ≢ []
snoc_some [] x e = cc
snoc_some (y ∷ xs) x e = cc

-- Where an edge makes no complaint, its key is seen, and none was made before.
take_edge_quiet :
    (nodes : List String) (e : Edge) (v : Edges)
    → (take_edge nodes e v).problems ≡ []
    → (v.problems ≡ [])
      × (mem (edge_key e) (take_edge nodes e v).seen ≡ true)
      × Subset v.seen (take_edge nodes e v).seen
unfolding mem
take_edge_quiet nodes e v q = elim (Bool-cases (str_eq e.from "" || str_eq e.to "")) [
  | inl y ↦ absurd (snoc_some v.problems _ (rw y at q))
  | inr n ↦ elim (Bool-cases (str_eq e.from e.to)) [
    | inl y ↦ absurd (snoc_some v.problems _ (rw (n, y) at q))
    | inr apart ↦ elim (Bool-cases (mem e.from nodes)) [
      | inr y ↦ absurd (snoc_some v.problems _ (rw (n, apart, y) at q))
      | inl from ↦ elim (Bool-cases (mem e.to nodes)) [
        | inr y ↦ absurd (snoc_some v.problems _ (rw (n, apart, from, y) at q))
        | inl to ↦ elim (Bool-cases (mem (edge_key e) v.seen)) [
          | inl y ↦ rw (n, apart, from, to, y) (rw (n, apart, from, to, y) at q, y, λ x m. m)
          | inr fresh ↦
              rw (n, apart, from, to, fresh)
                (
                  rw (n, apart, from, to, fresh) at q,
                  mem_head (edge_key e) v.seen,
                  λ x m. mem_tail x (edge_key e) v.seen m,
                )
        ]
      ]
    ]
  ]
]

take_edges_quiet :
    (nodes : List String) (es : List Edge) (v : Edges)
    → (take_edges nodes es v).problems ≡ []
    → (v.problems ≡ []) × Subset v.seen (take_edges nodes es v).seen
unfolding take_edges
take_edges_quiet nodes [] v q = (q, λ x m. m)
take_edges_quiet nodes (e ∷ es) v q =
    let (later, grown) = take_edges_quiet nodes es (take_edge nodes (trimmed_edge e) v) q in
    let (before, _, s) = take_edge_quiet nodes (trimmed_edge e) v later in
    (before, λ x m. grown x (s x m))

-- The key of every edge is seen.
pub take_edges_seen :
    (nodes : List String) (es : List Edge) (v : Edges) (e : Edge)
    → (take_edges nodes es v).problems ≡ []
    → Among e es
    → mem (edge_key (trimmed_edge e)) (take_edges nodes es v).seen ≡ true
unfolding take_edges
take_edges_seen nodes [] v e q a = absurd a
take_edges_seen nodes (d ∷ es) v e q (inr a) = take_edges_seen nodes es _ e q a
take_edges_seen nodes (d ∷ es) v e q (inl s) =
    let (later, grown) = take_edges_quiet nodes es (take_edge nodes (trimmed_edge d) v) q in
    let (_, key, _) = take_edge_quiet nodes (trimmed_edge d) v later in
    subst
      (λ k.
        mem (edge_key (trimmed_edge k))
          (take_edges nodes es (take_edge nodes (trimmed_edge d) v)).seen
        ≡ true)
      s (grown (edge_key (trimmed_edge d)) key)

-- What is seen is the key of a kept edge, and a kept edge is one of the definition, trimmed.
pub record IsKept (edges : List Edge) (v : Edges) : Type 0 where
  pub keyed :
      (x : String) → mem x v.seen ≡ true → (d : Edge) × Among d v.outgoing × (edge_key d ≡ x)
  pub given : (d : Edge) → Among d v.outgoing → (e : Edge) × Among e edges × (trimmed_edge e ≡ d)

Among-snoc : (d e : Edge) (es : List Edge) → Among d (es ++ e ∷ []) → Among d es ⊎ (e ≡ d)
Among-snoc d e [] (inl s) = inr s
Among-snoc d e [] (inr a) = absurd a
Among-snoc d e (k ∷ es) (inl s) = inl (inl s)
Among-snoc d e (k ∷ es) (inr a) = elim (Among-snoc d e es a) [ inl b ↦ inl (inr b) | inr s ↦ inr s ]

Among-left : (d e : Edge) (es : List Edge) → Among d es → Among d (es ++ e ∷ [])
Among-left d e [] a = absurd a
Among-left d e (k ∷ es) (inl s) = inl s
Among-left d e (k ∷ es) (inr a) = inr (Among-left d e es a)

Among-last : (e : Edge) (es : List Edge) → Among e (es ++ e ∷ [])
Among-last e [] = inl refl
Among-last e (k ∷ es) = inr (Among-last e es)

take_edge-IsKept :
    (edges : List Edge) (nodes : List String) (e : Edge) (v : Edges)
    → Among e edges
    → IsKept edges v
    → IsKept edges (take_edge nodes (trimmed_edge e) v)
unfolding mem
take_edge-IsKept edges nodes e v a h = elim (Bool-cases (str_eq t.from "" || str_eq t.to "")) [
  | inl y ↦ rw y same
  | inr n ↦ rw n (elim (Bool-cases (str_eq t.from t.to)) [
    | inl y ↦ rw y same
    | inr apart ↦ rw apart (elim (Bool-cases (mem t.from nodes)) [
      | inr y ↦ rw y same
      | inl from ↦ rw from (elim (Bool-cases (mem t.to nodes)) [
        | inr y ↦ rw y same
        | inl to ↦ rw to (elim (Bool-cases (mem (edge_key t) v.seen)) [
          | inl y ↦ rw y same
          | inr fresh ↦ rw fresh (record {
            keyed = λ x m. elim (Bool-cases (str_eq x (edge_key t))) [
              | inl s ↦ (t, Among-last t v.outgoing, sym ((eq_iff x (edge_key t)).0 s))
              | inr s ↦
                  let (d, b, k) = h.keyed x (ground arith) in (d, Among-left d t v.outgoing b, k)
            ];
            given = λ d b. elim (Among-snoc d t v.outgoing b) [
              | inl c ↦ h.given d c
              | inr s ↦ (e, a, s)
            ];
          })
        ])
      ])
    ])
  ])
]
  where
    t : Edge
    t = trimmed_edge e

    same :
        {p : List Problem} {w : List String}
        → IsKept edges (record v { problems = p; warnings = w })
    same = record { keyed = h.keyed; given = h.given }

pub take_edges-IsKept :
    (edges : List Edge) (nodes : List String) (es : List Edge) (v : Edges)
    → ((e : Edge) → Among e es → Among e edges)
    → IsKept edges v
    → IsKept edges (take_edges nodes es v)
unfolding take_edges
take_edges-IsKept edges nodes [] v a h = h
take_edges-IsKept edges nodes (e ∷ es) v a h =
    take_edges-IsKept edges nodes es _ (λ d b. a d (inr b))
      (take_edge-IsKept edges nodes e v (a e (inl refl)) h)

-- The trimmed ids of the nodes.
abbrev pub trimmed_ids : List Node → List String
trimmed_ids ns = map (λ (n : Node). trim_space n.id) ns

take_node_quiet :
    (c : Catalogs) (node : Node) (id : String) (kind : Kind) (v : Nodes)
    → (take_node c node id kind v).problems ≡ []
    → (v.problems ≡ []) × (ids (take_node c node id kind v).taken ≡ id ∷ ids v.taken)
unfolding mem
take_node_quiet c node id kind v q = elim (Bool-cases (str_eq id "")) [
  | inl y ↦ absurd (snoc_some v.problems _ (rw y at q))
  | inr n ↦ elim (Bool-cases (mem id (ids v.taken))) [
    | inl y ↦ absurd (snoc_some v.problems _ (rw (n, y) at q))
    | inr m ↦ rw (n, m) ((append_nil _ _ (append_nil _ _ (rw (n, m) at q)).0).0, refl)
  ]
]

-- The nodes that are taken are those of the definition.
pub take_nodes_quiet :
    (c : Catalogs) (ns : List Node) (v : Nodes)
    → (take_nodes c ns v).problems ≡ []
    → (v.problems ≡ [])
      × ((x : String)
          → mem x (ids (take_nodes c ns v).taken) ≡ (mem x (trimmed_ids ns) || mem x (ids v.taken)))
unfolding take_nodes mem
take_nodes_quiet c [] v q = (q, λ x. refl)
take_nodes_quiet c (n ∷ ns) v q =
    let (later, same) =
      take_nodes_quiet c ns (take_node c n (trim_space n.id) (kind_of n.type) v) q in
    let (before, one) = take_node_quiet c n (trim_space n.id) (kind_of n.type) v later in
    (before, λ x. ground (arith, same x, ap (mem x) one))
