-- ===== src/Workflow/Nodes.antt =====
-- One node of a workflow run (backend/internal/workflow/executor.go): `executeNode` and
-- `dispatchNode`. The repository, the skills and the agents are parameters; what is written to the
-- repository is a list of writes.
pub mod Recorded
use text.Mathlib.Text.{◌==◌ as str_eq}
use adbcops.Common.{
  ℕ, String, Bool, true, false, not, ◌&&◌, ◌||◌, Option, none, some, List, [], ◌∷◌, ◌++◌,
  if◌then◌else◌, Result, ok, err,
}
use adbcops.Workflow.Json.{
  Json, boolean, string, array, object, Items, no_items, item, Fields, no_fields, field, Codec,
}
use adbcops.Workflow.Faults.{Fault, invalid_definition, is_canceled}
use adbcops.Workflow.Definition.{Node}
use adbcops.Workflow.Mapping.{
  get_field, raw_field, node_input_payload, evaluate_workflow_condition,
  workflow_condition_required, Evaluated,
}

pub data RunStatus : Type 0 where
  running success partial_success failed cancelled : RunStatus

pub record Evidence : Type 0 where
  pub key : String
  pub summary : String
  pub source : String

pub record AgentContext : Type 0 where
  pub query : String
  pub scope : Option Fields
  pub variables : Fields
  pub evidence : List Evidence

-- The writes to the runs of nodes.
pub data Write : Type 0 where
  node_created : ℕ → String → Write
  node_updated : ℕ → RunStatus → Option Fault → Write

pub record Services : Type 0 where
  pub codec : Codec
  pub context_error : ℕ → Option Fault
  pub create_node_run : Node → String → Result Fault ℕ
  pub update_node_run : ℕ → RunStatus → Option Fault
  pub run_skill : ℕ → String → String → Result Fault String
  pub run_agent : String → AgentContext → Result Fault String

-- `isPartialWorkflowOutput`.
abbrev pub is_partial_output : Codec → String → Bool
is_partial_output c output =
    not (str_eq output "") && (elim (c.decode_partial output) [ some b ↦ b | none ↦ false ])

-- `skillPayload`.
abbrev pub skill_payload : Codec → String → String
skill_payload c input = elim (c.decode_raw input) [
  | none ↦ input
  | some fields ↦ elim (raw_field "workflowInput" fields) [
    | none ↦ input
    | some raw ↦ if c.valid raw then raw else input
  ]
]

-- A type assertion on a field; the zero value where it fails.
abbrev pub text_field : String → Fields → String
text_field key body = elim (get_field key body) [ some (string s) ↦ s | _ ↦ "" ]

abbrev pub object_field : String → Fields → Option Fields
object_field key body = elim (get_field key body) [ some (object fields) ↦ some fields | _ ↦ none ]

abbrev pub other_variables : Fields → Fields
other_variables no_fields = no_fields
other_variables (field key v rest) =
    let more = other_variables rest in
    if str_eq key "query" || str_eq key "scope" || str_eq key "evidence"
    then more
    else field key v more

abbrev pub evidence_of : Json → List Evidence
evidence_of (object fields) =
    if str_eq (text_field "key" fields) ""
    then []
    else record {
      key = text_field "key" fields;
      summary = text_field "summary" fields;
      source = text_field "source" fields;
    }
      ∷ []
evidence_of _ = []

abbrev pub evidence_items : Items → List Evidence
evidence_items no_items = []
evidence_items (item v rest) = evidence_of v ++ evidence_items rest

abbrev pub agent_body : Fields → Fields
agent_body body = elim (object_field "workflowInput" body) [ some inner ↦ inner | none ↦ body ]

abbrev pub context_of : Fields → AgentContext
context_of body = record {
  query = text_field "query" body;
  scope = object_field "scope" body;
  variables = elim (object_field "variables" body) [ some v ↦ v | none ↦ other_variables body ];
  evidence = elim (get_field "evidence" body) [
    | some (array items) ↦ evidence_items items
    | _ ↦ []
  ];
}

-- `agentContext`, less the actor.
unfoldable pub agent_context : Codec → String → AgentContext
agent_context c input =
    context_of (agent_body (elim (c.decode_fields input) [ some body ↦ body | none ↦ no_fields ]))

abbrev pub evaluated_output : Codec → Node → Evaluated → Result Fault String
evaluated_output c node v =
    if not v.matched && workflow_condition_required c node.config
    then err (invalid_definition "required condition did not match")
    else ok (
        c.encode (
          object (
            field "status" (string "evaluated") (
              field "nodeType" (string node.type) (
                field "matched" (boolean v.matched)
                  (field "detail" (string v.detail) no_fields))))))

-- `dispatchNode`. The type of the node is compared as it stands in the definition.
unfoldable pub dispatch_node : Services → ℕ → Node → String → Result Fault String
unfolding evaluate_workflow_condition agent_context
dispatch_node s id node input =
    if str_eq node.type "start" || str_eq node.type "end" || str_eq node.type "merge"
    then ok (
        s.codec.encode
          (object (field "status" (string "ok") (field "nodeType" (string node.type) no_fields))))
    else if str_eq node.type "condition"
    then elim (evaluate_workflow_condition s.codec node.config input) [
      | err e ↦ err e
      | ok v ↦ evaluated_output s.codec node v
    ]
    else if str_eq node.type "skill"
    then s.run_skill id node.skill_name (skill_payload s.codec input)
    else if str_eq node.type "agent"
    then s.run_agent node.agent_name (agent_context s.codec input)
    else err (invalid_definition "unsupported node type")

-- The status that `executeNode` writes for an outcome.
abbrev pub node_status : Codec → Result Fault String → RunStatus
node_status c (err e) = if is_canceled e then cancelled else failed
node_status c (ok output) = if is_partial_output c output then partial_success else success

abbrev pub fault_of : Result Fault String → Option Fault
fault_of (ok output) = none
fault_of (err e) = some e

pub record Executed : Type 0 where
  pub writes : List Write
  pub result : Result Fault String

-- What follows the dispatch, by the error of the update, which replaces the outcome.
abbrev pub finish_node : Codec → ℕ → Node → Result Fault String → Option Fault → Executed
finish_node c id node outcome (some e) = record {
  writes = node_created id node.id ∷ [];
  result = err e;
}
finish_node c id node outcome none = record {
  writes =
      node_created id node.id ∷ node_updated id (node_status c outcome) (fault_of outcome) ∷ [];
  result = outcome;
}

abbrev pub execute_created : Services → Node → String → Result Fault ℕ → Executed
execute_created s node payload (err e) = record { writes = []; result = err e }
execute_created s node payload (ok id) =
    let outcome = dispatch_node s id node payload in
    finish_node s.codec id node outcome (s.update_node_run id (node_status s.codec outcome))

abbrev pub execute_payload : Services → Node → Result Fault String → Executed
execute_payload s node (err e) = record { writes = []; result = err e }
execute_payload s node (ok payload) =
    execute_created s node payload (s.create_node_run node payload)

unfoldable pub execute_node : Services → Node → String → List (String × String) → Executed
unfolding node_input_payload dispatch_node
execute_node s node input previous =
    execute_payload s node (node_input_payload s.codec node input previous)
