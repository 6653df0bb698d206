-- ===== src/Rca/Actions.antt =====
-- The actions, the evidence and the root cause candidates of a run
-- (backend/internal/rca/service.go).
use adbcops.Common.{
  ℕ, ◌*◌, Bool, true, false, not, ◌&&◌, ◌||◌, Option, none, some, List, [], Result, ok, err, ltb,
  ◌==◌, if◌then◌else◌, keep, length, is_some,
}
use adbcops.Common.Text.{trim_space}
use adbcops.Common.Members.{ℕ_eq, mem}
use adbcops.Rca.Status.{
  pending, running, is_open, is_running, is_pending, valid_action_terminal_status,
}
use adbcops.Rca.Store.{
  Error, invalid_input, forbidden, invalid_transition, evidence_required, Run, Action, Evidence,
  Candidate, Store, Exec, ◌>>=◌, ◌>>◌, pure, raise, require, gets,
}
use adbcops.Rca.Repository.{
  action_updates, find_round, find_action, update_action, create_or_get_action, create_evidence,
  create_candidate, evidence_ids_belong, list_evidence,
}
use adbcops.Rca.Inputs.{
  Actor, Env, CreateActionInput, CompleteActionInput, CreateEvidenceInput, CreateCandidateInput,
  is_admin, is_blank, sanitize_json, truncate_text, unique_ids, safe_failure, out_of_unit,
  allowed_data_sources, data_source_allowed,
}
use adbcops.Rca.Service.{lift, get_run}

-- `CreateAction` after `GetRun`.
unfoldable pub create_action_of : Env → CreateActionInput → Run → Exec Action
unfolding find_round create_or_get_action
create_action_of env input run = do
  require (is_running run.status) invalid_transition
  round ← find_round input.round_id
  require (round.run_id == run.id && is_running round.status) invalid_transition
  require (is_some (sanitize_json env input.input (16 * 1024))) invalid_input
  create_or_get_action (record {
    id = 0;
    run_id = run.id;
    round_id = round.id;
    action_key = truncate_text (trim_space input.action_key) 160;
    skill_name = truncate_text (trim_space input.skill_name) 120;
    status = pending;
    evidence_ids = [];
    error_code = none;
    error_message = none;
    sensitive_read = input.sensitive_read;
    attempt = 1;
    started_at = none;
    finished_at = none;
  })

unfoldable pub create_action : Env → Option Actor → ℕ → CreateActionInput → Exec Action
unfolding get_run
create_action env actor run_id input = do
  require (not (is_blank input.action_key || is_blank input.skill_name) && ltb 0 input.round_id)
      invalid_input
  run ← get_run env actor run_id
  create_action_of env input run

-- `StartAction` after `GetRun`.
unfoldable pub start_action_of : Env → ℕ → Run → Exec Action
unfolding find_action update_action
start_action_of env action_id run = do
  require (is_running run.status) invalid_transition
  action ← find_action action_id
  require (action.run_id == run.id && is_pending action.status) invalid_transition
  update_action action_id (record (action_updates running) { started_at = some env.now })

unfoldable pub start_action : Env → Option Actor → ℕ → ℕ → Exec Action
unfolding get_run
start_action env actor run_id action_id = do
  run ← get_run env actor run_id
  start_action_of env action_id run

-- `CompleteAction` after `GetRun`; the status of the run is not asked for.
unfoldable pub complete_action_of : Env → ℕ → CompleteActionInput → Run → Exec Action
unfolding find_action update_action
complete_action_of env action_id input run = do
  action ← find_action action_id
  require (action.run_id == run.id && is_open action.status) invalid_transition
  require (valid_action_terminal_status input.status) invalid_input
  belongs ← gets (evidence_ids_belong run.id input.evidence_ids)
  require (length input.evidence_ids == 0 || belongs) invalid_input
  require (is_some (sanitize_json env input.output (64 * 1024))) invalid_input
  update_action action_id (record (action_updates input.status) {
    evidence_ids = some (unique_ids input.evidence_ids);
    error_code = (safe_failure input.error_code input.error_message).0;
    error_message = (safe_failure input.error_code input.error_message).1;
    finished_at = some env.now;
  })

unfoldable pub complete_action : Env → Option Actor → ℕ → ℕ → CompleteActionInput → Exec Action
unfolding get_run
complete_action env actor run_id action_id input = do
  run ← get_run env actor run_id
  complete_action_of env action_id input run

-- The action of a new evidence record must be one of its round and run.
unfoldable pub check_action : ℕ → ℕ → Option ℕ → Exec (Unit {0})
unfolding find_action
check_action run_id round_id none = pure tt
check_action run_id round_id (some action_id) = do
  action ← find_action action_id
  require (action.run_id == run_id && action.round_id == round_id) invalid_input

-- The data source of a new evidence record must be one that the caller may read.
unfoldable pub check_data_source : Env → Actor → Option ℕ → Exec (Unit {0})
check_data_source env actor none = pure tt
check_data_source env actor (some id) = do
  allowed ← lift (data_source_allowed env actor id)
  require allowed forbidden

-- `AddEvidence` after `GetRun`.
unfoldable pub add_evidence_of :
    Env
    → Actor
    → (CreateEvidenceInput → Result Error (Unit {0}))
    → CreateEvidenceInput
    → Run
    → Exec Evidence
unfolding find_round check_action check_data_source create_evidence
add_evidence_of env actor accept input run = do
  round ← find_round input.round_id
  require (round.run_id == run.id) invalid_input
  check_action run.id round.id input.action_id
  check_data_source env actor input.data_source_id
  lift (accept input)
  create_evidence (record {
    id = 0;
    rca_run_id = some run.id;
    rca_round_id = some input.round_id;
    data_source_id = input.data_source_id;
    owner_user_id = some actor.id;
  })

-- `GetRun` refuses a missing caller first.
unfoldable pub add_evidence_by :
    Env
    → Option Actor
    → (CreateEvidenceInput → Result Error (Unit {0}))
    → CreateEvidenceInput
    → Run
    → Exec Evidence
add_evidence_by env none accept input run = raise invalid_input
add_evidence_by env (some actor) accept input run = add_evidence_of env actor accept input run

-- `AddEvidence` with the evidence service that the RCA service was given, if any.
unfoldable pub add_evidence_with :
    Env
    → Option Actor
    → ℕ
    → CreateEvidenceInput
    → Option (CreateEvidenceInput → Result Error (Unit {0}))
    → Exec Evidence
unfolding get_run add_evidence_by
add_evidence_with env actor run_id input none = raise invalid_input
add_evidence_with env actor run_id input (some accept) = do
  require
      (ltb 0 input.round_id
        && not (is_blank input.evidence_kind)
        && not (is_blank input.source_skill))
      invalid_input
  run ← get_run env actor run_id
  add_evidence_by env actor accept input run

unfoldable pub add_evidence : Env → Option Actor → ℕ → CreateEvidenceInput → Exec Evidence
unfolding add_evidence_with
add_evidence env actor run_id input = add_evidence_with env actor run_id input env.accept_evidence

-- `AddRootCauseCandidate` after `GetRun`.
unfoldable pub add_candidate_of : Env → CreateCandidateInput → Run → Exec Candidate
unfolding find_round create_candidate
add_candidate_of env input run = do
  round ← find_round input.round_id
  require (round.run_id == run.id) invalid_input
  belongs ← gets (evidence_ids_belong run.id input.evidence_ids)
  require belongs evidence_required
  create_candidate (record {
    id = 0;
    run_id = run.id;
    round_id = input.round_id;
    summary = truncate_text (env.sanitize_text (trim_space input.summary)) 4096;
    confidence = input.confidence;
    evidence_ids = unique_ids input.evidence_ids;
    rejected = input.rejected;
  })

unfoldable pub add_candidate : Env → Option Actor → ℕ → CreateCandidateInput → Exec Candidate
unfolding get_run
add_candidate env actor run_id input = do
  require
      (not (is_blank input.summary) && ltb 0 input.round_id && not (out_of_unit input.confidence))
      invalid_input
  require (ltb 0 (length (unique_ids input.evidence_ids))) evidence_required
  run ← get_run env actor run_id
  add_candidate_of env input run

-- A record that a caller who is no admin may read: his own, from a source that he may read.
abbrev pub accessible : Actor → List ℕ → Evidence → Bool
accessible actor allowed e =
    elim e.owner_user_id [ none ↦ false | some owner ↦ owner == actor.id ]
    && elim e.data_source_id [ none ↦ true | some id ↦ mem id allowed ]

-- `listAccessibleEvidence`.
unfoldable pub accessible_evidence : Env → Actor → ℕ → Store → Result Error (List Evidence)
unfolding list_evidence allowed_data_sources
accessible_evidence env actor run_id s =
    if is_admin actor.role
    then ok (list_evidence run_id s)
    else elim (allowed_data_sources env actor) [
      | err e ↦ err e
      | ok allowed ↦ ok (keep (accessible actor allowed) (list_evidence run_id s))
    ]

unfoldable pub list_run_evidence : Env → Option Actor → ℕ → Exec (List Evidence)
unfolding get_run accessible_evidence
list_run_evidence env actor run_id = do
  run ← get_run env actor run_id
  elim actor [
    | none ↦ raise forbidden
    | some caller ↦ λ s. (accessible_evidence env caller run_id s, s)
  ]
