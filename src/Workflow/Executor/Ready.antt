-- ===== src/Workflow/Executor/Ready.antt =====
-- What `ready` answers: the nodes that may run, and none only when all others wait.
use text.Mathlib.Text.{◌==◌ as str_eq}
use text.Mathlib.TextEquality.{eq_iff}
use adbcops.Common.{
  ◌≡◌, refl, sym, subst, ◌∙◌, inl, inr, String, true, false, ◌||◌, none, some, List, [], ◌∷◌, All,
  arith, Bool-cases, Option-cases,
}
use adbcops.Common.Members.{String_eq, mem, mem_head, mem_tail, Subset}
use adbcops.Workflow.Definition.{Node, Edge, Definition}
use adbcops.Workflow.Graph.{into}
use adbcops.Workflow.Executor.{node_ids, node_at, parents, blocked, ready_from}

-- All edges into a node come from nodes of the list.
abbrev pub Open : List Edge → List String → String → Type 0
Open edges completed x = All (λ (e : Edge). into x e ≡ true → mem e.from completed ≡ true) edges

-- A node that may run now.
pub record IsReady (d : Definition) (completed : List String) (n : Node) : Type 0 where
  pub fresh : mem n.id completed ≡ false
  pub known : mem n.id (node_ids d.nodes) ≡ true
  pub above : Open d.edges completed n.id

node_at-id : (id : String) (ns : List Node) (m : Node) → node_at id ns ≡ some m → m.id ≡ id
node_at-id id [] m e = absurd cc
node_at-id id (n ∷ ns) m e = elim (Option-cases (node_at id ns)) [
  | inr (k, s) ↦ node_at-id id ns m (s ∙ (rw s at e))
  | inl s ↦ elim (Bool-cases (str_eq n.id id)) [
    | inl y ↦
        let same : some n ≡ some m = (rw (s, y) at e) in
        subst (λ (k : Node). k.id ≡ id) (some_injective same) ((eq_iff n.id id).0 y)
    | inr y ↦ absurd (none_some (rw (s, y) at e))
  ]
]
  where
    some_injective : some n ≡ some m → n ≡ m
    some_injective q = cc

    none_some : none ≡ some m → ⊥
    none_some q = cc

node_at-some :
    (x : String) (ns : List Node)
    → mem x (node_ids ns) ≡ true
    → (m : Node) × (node_at x ns ≡ some m)
unfolding mem
node_at-some x [] m = absurd cc
node_at-some x (n ∷ ns) m = elim (Option-cases (node_at x ns)) [
  | inr (k, s) ↦ (k, rw s refl)
  | inl s ↦ elim (Bool-cases (str_eq n.id x)) [
    | inl y ↦ (n, rw (s, y) refl)
    | inr y ↦
        let (k, f) = node_at-some x ns (ground (arith, eq_iff n.id x, eq_iff x n.id)) in
        absurd (none_some k (sym s ∙ f))
  ]
]
  where
    none_some : (k : Node) → none ≡ some k → ⊥
    none_some k q = cc

not_blocked :
    (completed failed : List String) (x : String) (edges : List Edge)
    → blocked completed failed (parents x edges) ≡ false
    → Open edges completed x
not_blocked completed failed x [] b = tt
not_blocked completed failed x (e ∷ es) b = elim (Bool-cases (str_eq e.to x)) [
  | inl y ↦ ((λ i. ground arith), not_blocked completed failed x es (ground arith))
  | inr y ↦ ((λ i. ground arith), not_blocked completed failed x es (ground arith))
]

-- The node of an id may run when any node with that id may.
IsReady-alike :
    (d : Definition) (completed : List String) (n m : Node)
    → m.id ≡ n.id
    → IsReady d completed n
    → IsReady d completed m
IsReady-alike d completed n m e r = record {
  fresh = subst (λ x. mem x completed ≡ false) (sym e) r.fresh;
  known = subst (λ x. mem x (node_ids d.nodes) ≡ true) (sym e) r.known;
  above = subst (Open d.edges completed) (sym e) r.above;
}

-- What `ready` answers may run.
pub ready_from-IsReady :
    (d : Definition) (completed failed : List String) (ns : List Node)
    → Subset (node_ids ns) (node_ids d.nodes)
    → All (IsReady d completed) (ready_from d completed failed ns)
unfolding ready_from
ready_from-IsReady d completed failed [] k = tt
ready_from-IsReady d completed failed (n ∷ ns) k =
    let rest =
      ready_from-IsReady d completed failed ns (λ x m. k x (mem_tail x n.id (node_ids ns) m)) in
    elim (Bool-cases (mem n.id completed || mem n.id failed)) [
      | inl y ↦ rw y rest
      | inr y ↦ rw y (elim (Bool-cases (blocked completed failed (parents n.id d.edges))) [
        | inl b ↦ rw b rest
        | inr b ↦ rw b (elim (Option-cases (node_at n.id d.nodes)) [
          | inl s ↦ rw s rest
          | inr (m, s) ↦ rw s (
            IsReady-alike d completed n m (node_at-id n.id d.nodes m s) (record {
              fresh = ground arith;
              known = k n.id (mem_head n.id (node_ids ns));
              above = not_blocked completed failed n.id d.edges b;
            }),
            rest,
          )
        ])
      ])
    ]

-- Where `ready` answers nothing, each node that did not run waits for one that did not.
Open-blocked :
    (completed : List String) (x : String) (edges : List Edge)
    → Open edges completed x
    → blocked completed [] (parents x edges) ≡ false
unfolding mem
Open-blocked completed x [] o = refl
Open-blocked completed x (e ∷ es) o = ground (arith, Open-blocked completed x es o.1, o.0)

ready-cons :
    (d : Definition) (completed : List String) (n : Node) (ns : List Node)
    → mem n.id (node_ids d.nodes) ≡ true
    → ready_from d completed [] (n ∷ ns) ≡ []
    → (ready_from d completed [] ns ≡ [])
      × (Open d.edges completed n.id → mem n.id completed ≡ true)
unfolding ready_from mem
ready-cons d completed n ns k e = elim (Bool-cases (mem n.id completed)) [
  | inl y ↦ (rw y at e, λ o. y)
  | inr y ↦ elim (Bool-cases (blocked completed [] (parents n.id d.edges))) [
    | inl b ↦ (rw (y, b) at e, λ o. absurd (ground (arith, Open-blocked completed n.id d.edges o)))
    | inr b ↦ let (m, s) = node_at-some n.id d.nodes k in absurd (some_ready m (rw (y, b, s) at e))
  ]
]
  where
    some_ready : (m : Node) → {ms : List Node} → m ∷ ms ≡ [] → ⊥
    some_ready m q = cc

pub ready-nil :
    (d : Definition) (completed : List String) (ns : List Node)
    → Subset (node_ids ns) (node_ids d.nodes)
    → ready_from d completed [] ns ≡ []
    → (x : String) → mem x (node_ids ns) ≡ true
    → Open d.edges completed x
    → mem x completed ≡ true
unfolding mem
ready-nil d completed [] k e x m o = absurd cc
ready-nil d completed (n ∷ ns) k e x m o =
    let (rest, here) = ready-cons d completed n ns (k n.id (mem_head n.id (node_ids ns))) e in
    elim (Bool-cases (str_eq x n.id)) [
      | inl s ↦
          let same = (eq_iff x n.id).0 s in
          subst (λ y. mem y completed ≡ true) (sym same)
            (here (subst (Open d.edges completed) same o))
      | inr s ↦
          ready-nil d completed ns (λ y q. k y (mem_tail y n.id (node_ids ns) q)) rest x
            (ground arith) o
    ]
