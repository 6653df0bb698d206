-- ===== src/Workflow/Executor/Batch.antt =====
-- What a batch leaves behind: the order of the completed nodes, and one node more without an error.
use text.Mathlib.Text.{◌==◌ as str_eq}
use text.Mathlib.TextEquality.{eq_iff}
use adbcops.Common.{
  suc, ◌≤◌, ◌≡◌, ◌≢◌, ◌↔◌, inl, inr, String, ◌||◌, Option, none, some, List, [], ◌∷◌, length, All,
  ok, err, arith, Bool-cases,
}
use adbcops.Common.Members.{String_eq, mem, Nodup, Subset}
use adbcops.Workflow.Faults.{Fault}
use adbcops.Workflow.Definition.{Node, Edge, Definition}
use adbcops.Workflow.Dag.Invariant.{Topo}
use adbcops.Workflow.Nodes.{Services, Executed, execute_node}
use adbcops.Workflow.Executor.{State, first_of, node_ids, put_key, take_result, run_batch}
use adbcops.Workflow.Executor.Ready.{Open, IsReady}

-- The state of a run: the completed nodes are nodes of the definition in an order along its edges,
-- and a node that failed left an error.
pub record IsRun (d : Definition) (st : State) : Type 0 where
  pub order : Topo d.edges st.completed
  pub unique : Nodup st.completed
  pub known : Subset st.completed (node_ids d.nodes)
  pub clean : (st.first_error ≡ none) ↔ (st.failed ≡ [])

put_key-mem :
    (x key : String) (keys : List String) → mem x (put_key key keys) ≡ (str_eq x key || mem x keys)
unfolding mem
put_key-mem x key keys = ground (arith, eq_iff x key)

Open-more :
    (edges : List Edge) (old new : List String) (x : String)
    → Subset old new
    → Open edges old x
    → Open edges new x
Open-more [] old new x s o = tt
Open-more (e ∷ es) old new x s o = ((λ i. s e.from (o.0 i)), Open-more es old new x s o.1)

put_key-Topo :
    (edges : List Edge) (x : String) (keys : List String)
    → Open edges keys x
    → Topo edges keys
    → Topo edges (put_key x keys)
put_key-Topo edges x keys o t = elim (Bool-cases (mem x keys)) [
  | inl y ↦ rw y t
  | inr y ↦ rw y (o, t)
]

put_key-Nodup : (x : String) (keys : List String) → Nodup keys → Nodup (put_key x keys)
put_key-Nodup x keys n = elim (Bool-cases (mem x keys)) [ inl y ↦ rw y n | inr y ↦ rw y (y, n) ]

put_key-some : (x : String) (keys : List String) → put_key x keys ≢ []
unfolding mem
put_key-some x [] e = cc
put_key-some x (k ∷ keys) e = elim (Bool-cases (mem x (k ∷ keys))) [
  | inl y ↦ nonempty (rw y at e)
  | inr y ↦ nonempty (rw y at e)
]
  where
    nonempty : {k : String} {ks : List String} → k ∷ ks ≡ [] → ⊥
    nonempty q = cc

first_of-some : (old : Option Fault) (e : Fault) → first_of old e ≢ none
first_of-some none e q = cc
first_of-some (some f) e q = cc

-- One result of a batch whose nodes could run when `base` was completed.
take_result-IsRun :
    (s : Services) (d : Definition) (base : List String) (n : Node) (x : Executed) (st : State)
    → IsReady d base n
    → Subset base st.completed
    → IsRun d st
    → IsRun d (take_result s n x st) × Subset base (take_result s n x st).completed
take_result-IsRun s d base n x st r b h =
    elim (x.result)
      as (λ q.
        IsRun d (take_result s n (record x { result = q }) st)
        × Subset base (take_result s n (record x { result = q }) st).completed) [
          | err e ↦ (
            record {
              order = h.order;
              unique = h.unique;
              known = h.known;
              clean = (
                (λ q. absurd (first_of-some st.first_error e q)),
                λ q. absurd (put_key-some n.id st.failed q),
              );
            },
            b,
          )
          | ok output ↦ (
            record {
              order =
                  put_key-Topo d.edges n.id st.completed
                    (Open-more d.edges base st.completed n.id b r.above) h.order;
              unique = put_key-Nodup n.id st.completed h.unique;
              known = λ y m.
                  ground
                    (arith, put_key-mem y n.id st.completed, h.known y, eq_iff y n.id, r.known);
              clean = h.clean;
            },
            λ y m. ground (arith, put_key-mem y n.id st.completed, b y),
          )
        ]

pub run_batch-IsRun :
    (s : Services) (d : Definition) (input : String) (previous : List (String × String))
    (base : List String) (ns : List Node) (st : State)
    → All (IsReady d base) ns
    → Subset base st.completed
    → IsRun d st
    → IsRun d (run_batch s input previous ns st)
unfolding run_batch
run_batch-IsRun s d input previous base [] st r b h = h
run_batch-IsRun s d input previous base (n ∷ ns) st r b h =
    let (h2, b2) = take_result-IsRun s d base n (execute_node s n input previous) st r.0 b h in
    run_batch-IsRun s d input previous base ns _ r.1 b2 h2

length-put_key : (x : String) (keys : List String) → length keys ≤ length (put_key x keys)
length-put_key x keys = ground arith

length-take_result :
    (s : Services) (n : Node) (x : Executed) (st : State)
    → length st.completed ≤ length (take_result s n x st).completed
length-take_result s n x st =
    elim (x.result)
      as (λ q.
        length st.completed ≤ length (take_result s n (record x { result = q }) st).completed) [
          | err e ↦ omega arith
          | ok output ↦ length-put_key n.id st.completed
        ]

length-run_batch :
    (s : Services) (input : String) (previous : List (String × String)) (ns : List Node)
    (st : State)
    → length st.completed ≤ length (run_batch s input previous ns st).completed
unfolding run_batch
length-run_batch s input previous [] st = omega arith
length-run_batch s input previous (n ∷ ns) st = omega (
  arith,
  length-run_batch s input previous ns (take_result s n (execute_node s n input previous) st),
  length-take_result s n (execute_node s n input previous) st,
)

-- An error stays.
no_error_before :
    (s : Services) (input : String) (previous : List (String × String)) (ns : List Node)
    (st : State)
    → (run_batch s input previous ns st).first_error ≡ none
    → st.first_error ≡ none
unfolding run_batch
no_error_before s input previous [] st e = e
no_error_before s input previous (n ∷ ns) st e =
    one (execute_node s n input previous) (no_error_before s input previous ns _ e)
  where
    one : (x : Executed) → (take_result s n x st).first_error ≡ none → st.first_error ≡ none
    one x =
        elim (x.result)
          as (λ q.
            (take_result s n (record x { result = q }) st).first_error ≡ none
            → st.first_error ≡ none) [
              | err f ↦ λ q. absurd (first_of-some st.first_error f q)
              | ok output ↦ λ q. q
            ]

-- A batch without an error completes a node.
pub batch_advances :
    (s : Services) (d : Definition) (input : String) (previous : List (String × String)) (n : Node)
    (ns : List Node) (st : State)
    → IsReady d st.completed n
    → (run_batch s input previous (n ∷ ns) st).first_error ≡ none
    → suc (length st.completed) ≤ length (run_batch s input previous (n ∷ ns) st).completed
unfolding run_batch
batch_advances s d input previous n ns st r e = omega (
  arith,
  one (execute_node s n input previous) (no_error_before s input previous ns _ e),
  length-run_batch s input previous ns (take_result s n (execute_node s n input previous) st),
)
  where
    one :
        (x : Executed)
        → (take_result s n x st).first_error ≡ none
        → suc (length st.completed) ≤ length (take_result s n x st).completed
    one x =
        elim (x.result)
          as (λ q.
            (take_result s n (record x { result = q }) st).first_error ≡ none
            → suc (length st.completed)
              ≤ length (take_result s n (record x { result = q }) st).completed) [
                | err f ↦ λ q. absurd (first_of-some st.first_error f q)
                | ok output ↦ λ q. ground (arith, r.fresh)
              ]
