-- ===== src/Workflow/Executor/Progress.antt =====
-- The rounds of `execute` end, run every node after the nodes that lead to it, and reach all nodes of
-- a well-formed workflow.
use text.Mathlib.Text.{◌==◌ as str_eq}
use text.Mathlib.TextEquality.{eq_iff}
use adbcops.Common.{
  ℕ, zero, suc, ◌+◌, ◌≤◌, ◌<◌, ◌≡◌, ◌≢◌, refl, sym, ap, subst, ◌∙◌, inl, inr, String, true, false,
  Option, none, some, List, [], ◌∷◌, length, if◌then◌else◌, ltb, All, arith, Bool-cases,
  Option-cases,
}
use adbcops.Common.Members.{
  String_eq, mem, Nodup, Subset, subset_of_length, length_of_Subset, unique_from, mem-unique_from,
  unique_from-Nodup,
}
use adbcops.Workflow.Faults.{Fault, workflow_partial}
use adbcops.Workflow.Definition.{Node, Edge, Definition}
use adbcops.Workflow.Graph.{into}
use adbcops.Workflow.Dag.Invariant.{Topo}
use adbcops.Workflow.Nodes.{Services}
use adbcops.Workflow.Executor.{
  State, Outcome, Turn, stop, more, node_ids, node_count, ready, run_ready, after_batch, turn,
  rounds, fresh, execute,
}
use adbcops.Workflow.Executor.Ready.{Open, IsReady, ready_from-IsReady, ready-nil}
use adbcops.Workflow.Executor.Batch.{IsRun, run_batch-IsRun, batch_advances}

-- The nodes have an order along the edges, and the edges come from nodes.
pub record IsRunnable (d : Definition) : Type 0 where
  pub order : List String
  pub all : Subset (node_ids d.nodes) order
  pub topo : Topo d.edges order
  pub from_nodes : All (λ (e : Edge). mem e.from (node_ids d.nodes) ≡ true) d.edges

-- What a run has come to when it stops: a run without an error has completed all nodes; where no
-- context ends and no node fails, a well-formed workflow has completed all nodes, and the only
-- error left is that of a partial result.
pub record Ends (s : Services) (d : Definition) (o : Outcome) : Type 0 where
  pub run : IsRun d o.state
  pub done : o.error ≡ none → Subset (node_ids d.nodes) o.state.completed
  pub live :
      IsRunnable d
      → ((k : ℕ) → s.context_error k ≡ none)
      → o.state.failed ≡ []
      → Subset (node_ids d.nodes) o.state.completed
        × (o.error ≡ (if o.state.partial then some workflow_partial else none))

-- When nothing is ready, all nodes of an order have run.
order_completed :
    (d : Definition) (completed o : List String)
    → ready d completed [] ≡ []
    → All (λ (e : Edge). mem e.from (node_ids d.nodes) ≡ true) d.edges
    → Topo d.edges o
    → (x : String) → mem x o ≡ true
    → mem x (node_ids d.nodes) ≡ true
    → mem x completed ≡ true
unfolding mem
order_completed d completed [] r f t x m k = absurd cc
order_completed d completed (y ∷ o) r f t x m k = elim (Bool-cases (str_eq x y)) [
  | inr s ↦ order_completed d completed o r f t.1 x (ground arith) k
  | inl s ↦
      let e : x ≡ y = (eq_iff x y).0 s in
      ready-nil d completed d.nodes (λ z q. q) r x k
        (subst (Open d.edges completed) (sym e)
          (above d.edges y (order_completed d completed o r f t.1) t.0 f))
]
  where
    above :
        (edges : List Edge) (y : String)
        → ((z : String) → mem z o ≡ true → mem z (node_ids d.nodes) ≡ true → mem z completed ≡ true)
        → All (λ (e : Edge). into y e ≡ true → mem e.from o ≡ true) edges
        → All (λ (e : Edge). mem e.from (node_ids d.nodes) ≡ true) edges
        → Open edges completed y
    above [] y h t f = tt
    above (e ∷ es) y h t f = ((λ i. h e.from (t.0 i) f.0), above es y h t.1 f.1)

all_of_count :
    (d : Definition) (completed : List String)
    → Nodup completed
    → Subset completed (node_ids d.nodes)
    → node_count d ≤ length completed
    → Subset (node_ids d.nodes) completed
unfolding mem
all_of_count d completed n s l x m =
    subset_of_length completed (unique_from [] (node_ids d.nodes)) n
      (λ y q. ground (arith, mem-unique_from y [] (node_ids d.nodes), s y)) l x
      (ground (arith, mem-unique_from x [] (node_ids d.nodes)))

count_of_all :
    (d : Definition) (completed : List String)
    → Subset (node_ids d.nodes) completed
    → node_count d ≤ length completed
unfolding mem
count_of_all d completed s =
    length_of_Subset (unique_from [] (node_ids d.nodes)) completed
      (unique_from-Nodup [] (node_ids d.nodes))
      (λ y q. s y (ground (arith, mem-unique_from y [] (node_ids d.nodes))))

count_bound :
    (d : Definition) (completed : List String)
    → Nodup completed
    → Subset completed (node_ids d.nodes)
    → length completed ≤ node_count d
unfolding mem
count_bound d completed n s =
    length_of_Subset completed (unique_from [] (node_ids d.nodes)) n
      (λ y q. ground (arith, mem-unique_from y [] (node_ids d.nodes), s y))

-- A turn stops as it should, or completes a node.
Turned : Services → Definition → State → Turn → Type 0
Turned s d st (stop o) = Ends s d o
Turned s d st (more next) =
    IsRun d next × (next.first_error ≡ none) × (suc (length st.completed) ≤ length next.completed)

stop-Turned :
    (s : Services) (d : Definition) (st : State) (e : Fault)
    → IsRun d st
    → (((k : ℕ) → s.context_error k ≡ none) → IsRunnable d → st.failed ≢ [])
    → Ends s d (record { state = st; error = some e })
stop-Turned s d st e h never = record {
  run = h;
  done = λ q. absurd cc;
  live = λ r quiet f. absurd (never quiet r f);
}

after_batch-Turned :
    (s : Services) (d : Definition) (st next : State) (e : Option Fault)
    → next.first_error ≡ e
    → IsRun d next
    → (next.first_error ≡ none → suc (length st.completed) ≤ length next.completed)
    → Turned s d st (after_batch e next)
unfolding Turned
after_batch-Turned s d st next none e h grown = (h, e, grown e)
after_batch-Turned s d st next (some f) e h grown =
    stop-Turned s d next f h (λ quiet r q. some_none (sym e ∙ h.clean.1 q))
  where
    some_none : some f ≡ none → ⊥
    some_none q = cc

run_ready-Turned :
    (s : Services) (d : Definition) (input : String) (st : State) (ns : List Node)
    → IsRun d st
    → ltb (length st.completed) (node_count d) ≡ true
    → All (IsReady d st.completed) ns
    → (ns ≡ [] → IsRunnable d → Subset (node_ids d.nodes) st.completed)
    → Turned s d st (run_ready s input st ns)
unfolding Turned
run_ready-Turned s d input st [] h l r all =
    stop-Turned s d st _ h (λ quiet w q. ground (arith, count_of_all d st.completed (all refl w)))
run_ready-Turned s d input st (n ∷ ns) h l r all =
    after_batch-Turned s d st _ _ refl
      (run_batch-IsRun s d input st.outputs st.completed (n ∷ ns) st r (λ x m. m) h)
      (batch_advances s d input st.outputs n ns st r.0)

turn-Turned :
    (s : Services) (d : Definition) (input : String) (round : ℕ) (st : State)
    → IsRun d st
    → st.failed ≡ []
    → Turned s d st (turn s d input round st)
unfolding Turned turn
turn-Turned s d input round st h e =
    elim (Bool-cases (ltb (length st.completed + length st.failed) (node_count d))) [
      | inr l ↦ rw l (record { run = h; done = λ q. all l; live = λ r quiet q. (all l, refl) })
      | inl l ↦ elim (Option-cases (s.context_error round)) [
        | inr (f, c) ↦
            rw (l, c) (stop-Turned s d st f h (λ quiet r q. some_none f (sym c ∙ quiet round)))
        | inl c ↦
            rw (l, c)
              (run_ready-Turned s d input st (ready d st.completed st.failed) h (below l)
                (ready_from-IsReady d st.completed st.failed d.nodes (λ x m. m))
                (λ nil r. λ x m.
                  order_completed d st.completed r.order
                    (subst (λ f. ready d st.completed f ≡ []) e nil) r.from_nodes r.topo x
                    (r.all x m) m))
      ]
    ]
  where
    some_none : (f : Fault) → some f ≡ none → ⊥
    some_none f q = cc

    all :
        ltb (length st.completed + length st.failed) (node_count d) ≡ false
        → Subset (node_ids d.nodes) st.completed
    all l = all_of_count d st.completed h.unique h.known (ground (arith, ap length e))

    below :
        ltb (length st.completed + length st.failed) (node_count d) ≡ true
        → ltb (length st.completed) (node_count d) ≡ true
    below l = ground arith

abbrev Found : Services → Definition → Option Outcome → Type 0
Found s d found = (o : Outcome) × (found ≡ some o) × Ends s d o

rounds_end :
    (fuel : ℕ) (s : Services) (d : Definition) (input : String) (round : ℕ) (st : State)
    → node_count d < fuel + length st.completed
    → IsRun d st
    → st.failed ≡ []
    → Found s d (rounds fuel s d input round st)
unfolding rounds Turned
rounds_end zero s d input round st f h e =
    absurd (omega (arith, f, count_bound d st.completed h.unique h.known))
rounds_end (suc fuel) s d input round st f h e =
    (elim (turn s d input round st)
        as (λ t.
          Turned s d st t
          → Found s d
              (elim t [ stop o ↦ some o | more next ↦ rounds fuel s d input (suc round) next ])) [
                | stop o ↦ λ t. (o, refl, t)
                | more next ↦ λ t.
                    rounds_end fuel s d input (suc round) next (omega (arith, f, t.2)) t.0
                      (t.0.clean.0 t.1)
              ])
      (turn-Turned s d input round st h e)

execute-Found : (s : Services) (d : Definition) (input : String) → Found s d (execute s d input)
unfolding execute mem
execute-Found s d input =
    rounds_end (suc (node_count d)) s d input 0 fresh (omega arith)
      (record {
        order = tt;
        unique = tt;
        known = λ x m. absurd cc;
        clean = ((λ e. refl), λ e. refl);
      })
      refl

-- `execute` returns within a round for each node and one more, whatever the definition and the
-- services; the nodes that it has completed are nodes of the definition, each once and after every
-- node with an edge to it, and when it returns without an error it has completed all nodes.
pub execute-some :
    (s : Services) (d : Definition) (input : String)
    → (o : Outcome) × (execute s d input ≡ some o)
      × Topo d.edges o.state.completed
      × Nodup o.state.completed
      × Subset o.state.completed (node_ids d.nodes)
      × (o.error ≡ none → Subset (node_ids d.nodes) o.state.completed)
execute-some s d input =
    let (o, found, ends) = execute-Found s d input in
    (o, found, ends.run.order, ends.run.unique, ends.run.known, ends.done)

-- In a workflow whose nodes have an order along its edges and whose edges come from nodes, where no
-- context ends and no node fails, `execute` completes all nodes, and the only error that it returns
-- is that of a partial result.
pub execute_live :
    (s : Services) (d : Definition) (input : String) (o : Outcome)
    → IsRunnable d
    → ((k : ℕ) → s.context_error k ≡ none)
    → execute s d input ≡ some o
    → o.state.failed ≡ []
    → Subset (node_ids d.nodes) o.state.completed
      × (o.error ≡ (if o.state.partial then some workflow_partial else none))
execute_live s d input o r quiet e f =
    let (p, found, ends) = execute-Found s d input in
    let same : p ≡ o = outcome_of p (sym found ∙ e) in
    subst
      (λ (q : Outcome).
        q.state.failed ≡ []
        → Subset (node_ids d.nodes) q.state.completed
          × (q.error ≡ (if q.state.partial then some workflow_partial else none)))
      same (ends.live r quiet) f
  where
    outcome_of : (p : Outcome) → some p ≡ some o → p ≡ o
    outcome_of p q = cc
