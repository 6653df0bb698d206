-- ===== src/Workflow/Executor.antt =====
-- The rounds of a workflow run (backend/internal/workflow/executor.go): `buildExecutionGraph`,
-- `ready`, `executeBatch` and `execute`. The nodes of a batch run at the same time; each reads the
-- outputs of the rounds before, and the results are taken in the order of the batch. A map with the
-- value true is the list of its keys, newest first.
pub mod Ready
pub mod Batch
pub mod Progress
pub mod Valid
use text.Mathlib.Text.{◌==◌ as str_eq}
use adbcops.Common.{
  ℕ, zero, suc, ◌+◌, String, Bool, true, false, not, ◌&&◌, ◌||◌, Option, none, some, List, [], ◌∷◌,
  ◌++◌, map, length, any, if◌then◌else◌, ltb, Result, ok, err,
}
use adbcops.Common.Members.{String_eq, mem, unique_from}
use adbcops.Workflow.Faults.{Fault, invalid_definition, workflow_partial}
use adbcops.Workflow.Definition.{Node, Edge, Definition}
use adbcops.Workflow.Nodes.{Write, Services, Executed, execute_node, is_partial_output}

abbrev pub node_ids : List Node → List String
node_ids ns = map (λ (n : Node). n.id) ns

-- `graph.nodes[id]`: the last node with an id.
abbrev pub node_at : String → List Node → Option Node
node_at id [] = none
node_at id (n ∷ ns) = elim (node_at id ns) [
  | some m ↦ some m
  | none ↦ if str_eq n.id id then some n else none
]

-- `len(graph.nodes)`.
abbrev pub node_count : Definition → ℕ
node_count d = length (unique_from [] (node_ids d.nodes))

-- `graph.incoming[id]`.
abbrev pub parents : String → List Edge → List String
parents id [] = []
parents id (e ∷ es) = let rest = parents id es in if str_eq e.to id then e.from ∷ rest else rest

abbrev pub blocked : List String → List String → List String → Bool
blocked completed failed above = any (λ p. mem p failed || not (mem p completed)) above

unfoldable pub ready_from : Definition → List String → List String → List Node → List Node
unfolding mem
ready_from d completed failed [] = []
ready_from d completed failed (n ∷ ns) =
    let rest = ready_from d completed failed ns in
    if mem n.id completed || mem n.id failed
    then rest
    else if blocked completed failed (parents n.id d.edges)
    then rest
    else (elim (node_at n.id d.nodes) [ some m ↦ m ∷ rest | none ↦ rest ])

abbrev pub ready : Definition → List String → List String → List Node
ready d completed failed = ready_from d completed failed d.nodes

abbrev pub put_key : String → List String → List String
put_key key keys = if mem key keys then keys else key ∷ keys

abbrev pub put_output : String → String → List (String × String) → List (String × String)
put_output key raw [] = (key, raw) ∷ []
put_output key raw ((k, old) ∷ rest) =
    if str_eq key k then (k, raw) ∷ rest else (k, old) ∷ put_output key raw rest

pub record State : Type 0 where
  pub completed : List String
  pub failed : List String
  pub outputs : List (String × String)
  pub first_error : Option Fault
  pub partial : Bool
  pub writes : List Write

abbrev pub first_of : Option Fault → Fault → Option Fault
first_of none e = some e
first_of (some old) e = some old

-- The loop over the results of a batch.
abbrev pub take_result : Services → Node → Executed → State → State
take_result s node x st = elim x.result [
  | err e ↦ record st {
    failed = put_key node.id st.failed;
    first_error = first_of st.first_error e;
    writes = st.writes ++ x.writes;
  }
  | ok output ↦ record st {
    completed = put_key node.id st.completed;
    partial = st.partial || is_partial_output s.codec output;
    outputs = if str_eq output "" then st.outputs else put_output node.id output st.outputs;
    writes = st.writes ++ x.writes;
  }
]

-- `executeBatch` and the loop over its results.
unfoldable pub run_batch : Services → String → List (String × String) → List Node → State → State
unfolding execute_node mem
run_batch s input previous [] st = st
run_batch s input previous (n ∷ ns) st =
    run_batch s input previous ns (take_result s n (execute_node s n input previous) st)

-- What `execute` returns; the code keeps the outputs of the state.
pub record Outcome : Type 0 where
  pub state : State
  pub error : Option Fault

pub data Turn : Type 0 where
  stop : Outcome → Turn
  more : State → Turn

-- What follows a batch, by the first error.
abbrev pub after_batch : Option Fault → State → Turn
after_batch (some e) st = stop (record { state = st; error = some e })
after_batch none st = more st

abbrev pub run_ready : Services → String → State → List Node → Turn
run_ready s input st [] =
    stop (record { state = st; error = some (invalid_definition "no ready workflow nodes") })
run_ready s input st (n ∷ ns) =
    let next = run_batch s input st.outputs (n ∷ ns) st in after_batch next.first_error next

-- One turn of the loop of `execute`.
unfoldable pub turn : Services → Definition → String → ℕ → State → Turn
unfolding run_batch ready_from unique_from
turn s d input round st =
    if ltb (length st.completed + length st.failed) (node_count d)
    then elim (s.context_error round) [
      | some e ↦ stop (record { state = st; error = some e })
      | none ↦ run_ready s input st (ready d st.completed st.failed)
    ]
    else stop (record { state = st; error = if st.partial then some workflow_partial else none })

-- `none` means that the fuel ran out.
unfoldable pub rounds : ℕ → Services → Definition → String → ℕ → State → Option Outcome
unfolding turn
rounds zero s d input round st = none
rounds (suc fuel) s d input round st = elim (turn s d input round st) [
  | stop o ↦ some o
  | more next ↦ rounds fuel s d input (suc round) next
]

abbrev pub fresh : State
fresh = record {
  completed = [];
  failed = [];
  outputs = [];
  first_error = none;
  partial = false;
  writes = [];
}

-- `execute`, with one round of fuel for each node and one to end.
unfoldable pub execute : Services → Definition → String → Option Outcome
unfolding rounds
execute s d input = rounds (suc (node_count d)) s d input 0 fresh
