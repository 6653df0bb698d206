-- ===== src/Workflow/Examples.antt =====
-- A workflow of three nodes, run with services that always answer.
use text.Mathlib.Text.{◌==◌ as str_eq}
use mathlib.Core.Bool.{false≢true}
use adbcops.Common.{
  ◌≡◌, ◌↔◌, refl, sym, ap, ◌∙◌, inl, inr, String, true, false, Option, none, some, List, [], ◌∷◌,
  if◌then◌else◌, ok,
}
use adbcops.Common.Int.{pos}
use adbcops.Common.Members.{String_eq, mem, Nodup, Subset}
use adbcops.Common.Text.{trim_space, lowers_to}
use adbcops.Workflow.Json.{Codec, string, object, field, no_fields, Fields}
use adbcops.Workflow.Faults.{workflow_partial}
use adbcops.Workflow.Definition.{
  Edge, Definition, Catalogs, ids, validate_nodes, validate_edges, edge_key,
}
use adbcops.Workflow.Dag.{visits, validate_dag}
use adbcops.Workflow.Dag.Invariant.{Topo}
use adbcops.Workflow.Dag.Acyclic.{Among, visits-some, validate_dag_iff}
use adbcops.Workflow.Reach.{walk}
use adbcops.Workflow.Reach.Exact.{Reaches, walk_iff}
use adbcops.Workflow.Validate.{validate}
use adbcops.Workflow.Validate.Sound.{IsWorkflow, validate-IsWorkflow}
use adbcops.Workflow.Mapping.{resolve_workflow_path}
use adbcops.Workflow.Mapping.Paths.{IsPath, resolve_workflow_path-IsPath}
use adbcops.Workflow.Nodes.{Services, node_created, node_updated, success, execute_node}
use adbcops.Workflow.Nodes.Recorded.{IsRecorded, execute_node-IsRecorded}
use adbcops.Workflow.Executor.{Outcome, node_ids, execute}
use adbcops.Workflow.Executor.Progress.{execute-some}
use adbcops.Workflow.Executor.Valid.{IsNormal, execute_valid}
use adbcops.Workflow.Run.{acquired, RunServices, Request, Returned, run}
use adbcops.Workflow.Run.Endings
use adbcops.Workflow.Run.Endings.{run-IsRecorded}

abbrev flow : Definition
flow = record {
  name = "diagnose";
  version = "1";
  nodes =
      record { id = "s"; type = "start"; agent_name = ""; skill_name = ""; config = "" }
      ∷ record { id = "q"; type = "skill"; agent_name = ""; skill_name = "query"; config = "" }
      ∷ record { id = "e"; type = "end"; agent_name = ""; skill_name = ""; config = "" }
      ∷ [];
  edges = record { from = "s"; to = "q" } ∷ record { from = "q"; to = "e" } ∷ [];
}

abbrev catalogs : Catalogs
catalogs = record { agents = none; skills = none }

abbrev codec : Codec
codec = record {
  valid = λ raw. true;
  decode = λ raw. none;
  decode_fields = λ raw. none;
  decode_raw = λ raw. none;
  decode_texts = λ raw. none;
  decode_condition = λ raw. none;
  decode_partial = λ raw. some false;
  encode = λ v. "{}";
  encode_envelope = λ input previous. input;
  sprint = λ v. "";
  is_zero = λ raw. false;
}

abbrev services : Services
services = record {
  codec = codec;
  context_error = λ k. none;
  create_node_run = λ node input. ok 7;
  update_node_run = λ id status. none;
  run_skill = λ id name input. ok "rows";
  run_agent = λ name context. ok "report";
}

abbrev outcome : Option Outcome
outcome = execute services flow "{}"

abbrev ended : Outcome
ended = record {
  state = record {
    completed = "e" ∷ "q" ∷ "s" ∷ [];
    failed = [];
    outputs = ("s", "{}") ∷ ("q", "rows") ∷ ("e", "{}") ∷ [];
    first_error = none;
    partial = false;
    writes =
        node_created 7 "s"
        ∷ node_updated 7 success none
        ∷ node_created 7 "q"
        ∷ node_updated 7 success none
        ∷ node_created 7 "e"
        ∷ node_updated 7 success none
        ∷ [];
  };
  error = none;
}

keys_apart :
    (e f : Edge) → Among e flow.edges → Among f flow.edges → edge_key e ≡ edge_key f → e ≡ f
keys_apart e f (inl a) (inl b) k = sym a ∙ b
keys_apart e f (inl a) (inr (inl b)) k =
    absurd (false≢true (ap (str_eq "q->e") (ap edge_key a ∙ k ∙ sym (ap edge_key b))))
keys_apart e f (inr (inl a)) (inl b) k =
    absurd (false≢true (ap (str_eq "s->q") (ap edge_key a ∙ k ∙ sym (ap edge_key b))))
keys_apart e f (inr (inl a)) (inr (inl b)) k = sym a ∙ b
keys_apart e f (inr (inr a)) _ k = absurd a
keys_apart e f _ (inr (inr b)) k = absurd b

flow-IsNormal : IsNormal flow
unfolding trim_space
flow-IsNormal = record {
  ids = (refl, (refl, (refl, tt)));
  edges = (refl, (refl, tt));
  keys = keys_apart;
}

execute_valid_example :
    Subset (node_ids flow.nodes) ended.state.completed
    × (ended.error ≡ (if ended.state.partial then some workflow_partial else none))
unfolding validate execute
execute_valid_example =
    execute_valid catalogs services flow "{}" ended flow-IsNormal refl (λ k. refl) refl refl

execute-some_example :
    (o : Outcome) × (execute services flow "{}" ≡ some o)
    × Topo flow.edges o.state.completed
    × Nodup o.state.completed
    × Subset o.state.completed (node_ids flow.nodes)
    × (o.error ≡ none → Subset (node_ids flow.nodes) o.state.completed)
execute-some_example = execute-some services flow "{}"

validate-IsWorkflow_example :
    IsWorkflow
      (validate_nodes catalogs flow.nodes).taken
      (validate_edges (ids (validate_nodes catalogs flow.nodes).taken) flow.edges).outgoing
unfolding validate mem lowers_to
validate-IsWorkflow_example = validate-IsWorkflow catalogs flow refl

abbrev names : List String
names = "s" ∷ "q" ∷ "e" ∷ []

names-Nodup : Nodup names
unfolding mem
names-Nodup = (refl, (refl, (refl, tt)))

validate_dag_iff_example : (validate_dag names (validate_edges names flow.edges) ≡ []) ↔ (
    (o : List String) × Nodup o
    × Subset names o
    × Topo (validate_edges names flow.edges).outgoing o)
validate_dag_iff_example = validate_dag_iff names flow.edges names-Nodup

visits-some_example :
    (final : List String) × (visits names (validate_edges names flow.edges) ≡ some final)
visits-some_example = visits-some names flow.edges names-Nodup

walk_iff_example : (mem "e" (walk names "s" flow.edges) ≡ true) ↔ Reaches flow.edges "s" "e"
unfolding mem
walk_iff_example =
    walk_iff flow.edges names "s" ((refl, refl, refl), ((refl, refl, refl), tt)) "e" refl

abbrev run_services : RunServices
run_services = record {
  slot = acquired;
  find = λ id. ok (record { enabled = true; definition = "{}" });
  decode_definition = λ raw. ok flow;
  catalogs = catalogs;
  create_run = ok 4;
  update_run = λ id status e. none;
  codec = codec;
  nodes = λ id. services;
}

abbrev request : Request
request = record { has_actor = true; workflow_id = pos 1; input = "{}" }

run-IsRecorded_example : (r : Returned) × (run run_services request ≡ some r) × Endings.IsRecorded r
run-IsRecorded_example = run-IsRecorded run_services request

execute_node-IsRecorded_example :
    IsRecorded codec
      (record { id = "q"; type = "skill"; agent_name = ""; skill_name = "query"; config = "" })
      (execute_node services
        (record { id = "q"; type = "skill"; agent_name = ""; skill_name = "query"; config = "" })
        "{}"
        [])
execute_node-IsRecorded_example =
    execute_node-IsRecorded services
      (record { id = "q"; type = "skill"; agent_name = ""; skill_name = "query"; config = "" }) "{}"
      []

abbrev root : Fields
root = field "workflowInput" (object (field "host" (string "db-1") no_fields)) no_fields

abbrev plain_codec : Codec
plain_codec = record codec { valid = λ raw. false }

resolve_workflow_path-IsPath_example : (parts : List String) × IsPath " $.workflowInput.host" parts
unfolding resolve_workflow_path
resolve_workflow_path-IsPath_example =
    resolve_workflow_path-IsPath plain_codec root " $.workflowInput.host" (string "db-1") refl
