-- ===== src/Rca/Effects.antt =====
-- What the operations of the RCA service write: either nothing, or the rows that are given here,
-- and then the guards of the operation have passed.
use adbcops.Rca.Tables.{find-update, found_key, any_of_keep}
use adbcops.Common.{
  inl, inr, Option-cases, refl, leb, ◌*◌, ℕ, ◌+◌, ◌<◌, ◌≡◌, ◌⊎◌, Bool, true, false, ◌&&◌, Option,
  none, some, List, [], ◌∷◌, Result, ok, arith, if◌then◌else◌, is_some, is_ok, any, ◌==◌,
}
use adbcops.Common.Text.{trim_space}
use adbcops.Rca.Status.{
  Status, running, pending, partial_success, may_start_round, is_running, is_pending, is_open,
  is_partial_success, is_success, valid_run_terminal_status, valid_round_terminal_status,
  valid_action_terminal_status, terminal_run_status,
}
use adbcops.Rca.Store.{Run, Round, Action, Evidence, Candidate, Store, find, update, next_id, Error}
use adbcops.Rca.Repository.{
  RunUpdates, RoundUpdates, ActionUpdates, run_updates, round_updates, action_updates, run_values,
  round_values, action_values, evidence_ids_belong, list_candidates, same_action,
}
use adbcops.Rca.Inputs.{
  Actor, Env, Hypothesis, CompleteRoundInput, CreateActionInput, CompleteActionInput,
  CreateEvidenceInput, CreateCandidateInput, CompleteRunInput, safe_failure, unique_ids,
  truncate_text, CreateRunInput, sanitize_json, max_rounds_of, timeout_of, max_timeout,
  authorize_scope, answers, normalized_hypotheses, normalized_next_actions,
}
use adbcops.Rca.Service.{create_run, start_round_of, complete_round_of, hypotheses_belong}
use adbcops.Rca.Lifecycle.{complete_run_of, is_active, stop_reason_of}
use adbcops.Rca.Actions.{
  create_action_of, start_action_of, complete_action_of, add_evidence_of, add_candidate_of,
}

abbrev pub run_key : Run → ℕ
run_key r = r.id

abbrev pub round_key : Round → ℕ
round_key r = r.id

abbrev pub action_key : Action → ℕ
action_key a = a.id

abbrev pub started : Env → List Hypothesis → Run → Store → Store
started env hypotheses run s = record s {
  runs =
      update run_key run.id
        (run_values (record (run_updates running) {
          current_round = some (run.current_round + 1);
          started_at = if is_some run.started_at then none else some env.now;
        }))
        s.runs;
  rounds =
      record {
        id = next_id round_key s.rounds;
        run_id = run.id;
        round_number = run.current_round + 1;
        status = running;
        input_hypotheses = hypotheses;
        new_evidence_ids = [];
        rejected_hypotheses = [];
        next_actions = [];
        error_code = none;
        started_at = some env.now;
        finished_at = none;
      }
      ∷ s.rounds;
}

pub start_round_of_effect :
    (env : Env) (hs : List Hypothesis) (run : Run) (s : Store)
    → ((start_round_of env hs run s).1 ≡ s)
      ⊎ ((run.current_round < run.max_rounds)
          × (may_start_round run.status ≡ true)
          × (is_ok (normalized_hypotheses env hs false) ≡ true)
          × (hypotheses_belong run.id (answers (normalized_hypotheses env hs false)) s ≡ true)
          × ((start_round_of env hs run s).1
              ≡ started env (answers (normalized_hypotheses env hs false)) run s))
unfolding start_round_of
start_round_of_effect env hs run s = ground arith

abbrev pub round_end : Env → CompleteRoundInput → RoundUpdates
round_end env input = record (round_updates input.status) {
  new_evidence_ids = some (unique_ids input.new_evidence_ids);
  rejected_hypotheses = some (answers (normalized_hypotheses env input.rejected_hypotheses true));
  next_actions = some (answers (normalized_next_actions env input.next_actions));
  error_code = (safe_failure input.error_code "").0;
  finished_at = some env.now;
}

abbrev pub round_completed : Env → ℕ → CompleteRoundInput → Run → Store → Store
round_completed env round_id input run s = record s {
  rounds = update round_key round_id (round_values (round_end env input)) s.rounds;
  runs =
      if is_partial_success input.status
      then update run_key run.id (run_values (run_updates partial_success)) s.runs
      else s.runs;
}

-- The round that is completed is a running one of the run, and the status one that ends a round.
abbrev pub completes_round : ℕ → CompleteRoundInput → Run → Store → Bool
completes_round round_id input run s = elim (find round_key round_id s.rounds) [
  | none ↦ false
  | some round ↦
      round.run_id == run.id && is_running round.status && valid_round_terminal_status input.status
]

pub complete_round_of_effect :
    (env : Env) (round_id : ℕ) (input : CompleteRoundInput) (run : Run) (s : Store)
    → ((complete_round_of env round_id input run s).1 ≡ s)
      ⊎ ((completes_round round_id input run s ≡ true)
          × (is_ok (normalized_hypotheses env input.rejected_hypotheses true) ≡ true)
          × (hypotheses_belong run.id
                (answers (normalized_hypotheses env input.rejected_hypotheses true))
                s
              ≡ true)
          × (is_ok (normalized_next_actions env input.next_actions) ≡ true)
          × ((complete_round_of env round_id input run s).1
              ≡ round_completed env round_id input run s))
unfolding complete_round_of
complete_round_of_effect env round_id input run s = ground (
  arith,
  find-update round_key (round_values (round_end env input)) (λ r. refl) round_id round_id s.rounds,
)

abbrev pub running_round : ℕ → Run → Store → Bool
running_round round_id run s = elim (find round_key round_id s.rounds) [
  | none ↦ false
  | some round ↦ round.run_id == run.id && is_running round.status
]

abbrev pub new_action : CreateActionInput → Run → Store → Action
new_action input run s = record {
  id = next_id action_key s.actions;
  run_id = run.id;
  round_id = input.round_id;
  action_key = truncate_text (trim_space input.action_key) 160;
  skill_name = truncate_text (trim_space input.skill_name) 120;
  status = pending;
  evidence_ids = [];
  error_code = none;
  error_message = none;
  sensitive_read = input.sensitive_read;
  attempt = 1;
  started_at = none;
  finished_at = none;
}

-- `CreateAction` adds at most one pending action, to a run that is running.
pub create_action_of_effect :
    (env : Env) (input : CreateActionInput) (run : Run) (s : Store)
    → ((create_action_of env input run s).1 ≡ s)
      ⊎ ((is_running run.status ≡ true)
          × (running_round input.round_id run s ≡ true)
          × (any (same_action run.id (truncate_text (trim_space input.action_key) 160)) s.actions
              ≡ false)
          × ((create_action_of env input run s).1
              ≡ record s { actions = new_action input run s ∷ s.actions }))
unfolding create_action_of
create_action_of_effect env input run s =
    elim (Option-cases (find round_key input.round_id s.rounds)) [
      | inl e ↦ ground arith
      | inr (round, e) ↦ ground (
        arith,
        found_key round_key input.round_id s.rounds round e,
        any_of_keep (same_action run.id (truncate_text (trim_space input.action_key) 160))
            s.actions,
      )
    ]

abbrev pub action_of_run : (Status → Bool) → ℕ → Run → Store → Bool
action_of_run test action_id run s = elim (find action_key action_id s.actions) [
  | none ↦ false
  | some action ↦ action.run_id == run.id && test action.status
]

pub start_action_of_effect :
    (env : Env) (action_id : ℕ) (run : Run) (s : Store)
    → ((start_action_of env action_id run s).1 ≡ s)
      ⊎ ((is_running run.status ≡ true)
          × (action_of_run is_pending action_id run s ≡ true)
          × ((start_action_of env action_id run s).1 ≡ record s {
            actions =
                update action_key action_id
                  (action_values (record (action_updates running) { started_at = some env.now }))
                  s.actions;
          }))
unfolding start_action_of
start_action_of_effect env action_id run s = ground arith

abbrev pub action_end : Env → CompleteActionInput → ActionUpdates
action_end env input = record (action_updates input.status) {
  evidence_ids = some (unique_ids input.evidence_ids);
  error_code = (safe_failure input.error_code input.error_message).0;
  error_message = (safe_failure input.error_code input.error_message).1;
  finished_at = some env.now;
}

pub complete_action_of_effect :
    (env : Env) (action_id : ℕ) (input : CompleteActionInput) (run : Run) (s : Store)
    → ((complete_action_of env action_id input run s).1 ≡ s)
      ⊎ ((action_of_run is_open action_id run s ≡ true)
          × (valid_action_terminal_status input.status ≡ true)
          × ((complete_action_of env action_id input run s).1 ≡ record s {
            actions = update action_key action_id (action_values (action_end env input)) s.actions;
          }))
unfolding complete_action_of
complete_action_of_effect env action_id input run s = ground arith

pub add_evidence_of_effect :
    (env : Env) (actor : Actor) (accept : CreateEvidenceInput → Result Error (Unit {0}))
    (input : CreateEvidenceInput) (run : Run) (s : Store)
    → ((add_evidence_of env actor accept input run s).1 ≡ s)
      ⊎ ((add_evidence_of env actor accept input run s).1 ≡ record s {
        evidence =
            record {
              id = next_id (λ (x : Evidence). x.id) s.evidence;
              rca_run_id = some run.id;
              rca_round_id = some input.round_id;
              data_source_id = input.data_source_id;
              owner_user_id = some actor.id;
            }
            ∷ s.evidence;
      })
unfolding add_evidence_of
add_evidence_of_effect env actor accept input run s = ground arith

abbrev pub new_candidate : Env → CreateCandidateInput → Run → Store → Candidate
new_candidate env input run s = record {
  id = next_id (λ (x : Candidate). x.id) s.candidates;
  run_id = run.id;
  round_id = input.round_id;
  summary = truncate_text (env.sanitize_text (trim_space input.summary)) 4096;
  confidence = input.confidence;
  evidence_ids = unique_ids input.evidence_ids;
  rejected = input.rejected;
}

-- `AddRootCauseCandidate` adds a candidate whose evidence belongs to the run.
pub add_candidate_of_effect :
    (env : Env) (input : CreateCandidateInput) (run : Run) (s : Store)
    → ((add_candidate_of env input run s).1 ≡ s)
      ⊎ ((evidence_ids_belong run.id input.evidence_ids s ≡ true)
          × ((add_candidate_of env input run s).1
              ≡ record s { candidates = new_candidate env input run s ∷ s.candidates }))
unfolding add_candidate_of
add_candidate_of_effect env input run s = ground arith

abbrev pub run_end : Env → CompleteRunInput → RunUpdates
run_end env input = record (run_updates input.status) {
  error_code = (safe_failure input.error_code input.error_message).0;
  error_message = (safe_failure input.error_code input.error_message).1;
  stop_reason = stop_reason_of env input.stop_reason;
  finished_at = some env.now;
}

-- `CompleteRun` ends a run that has not ended; a success needs an active candidate.
pub complete_run_of_effect :
    (env : Env) (input : CompleteRunInput) (run : Run) (s : Store)
    → ((complete_run_of env input run s).1 ≡ s)
      ⊎ ((valid_run_terminal_status input.status ≡ true)
          × (terminal_run_status run.status ≡ false)
          × (is_success input.status ≡ true → any is_active (list_candidates run.id s) ≡ true)
          × ((complete_run_of env input run s).1
              ≡ record s { runs = update run_key run.id (run_values (run_end env input)) s.runs }))
unfolding complete_run_of
complete_run_of_effect env input run s = ground arith

abbrev pub value_or {ℓ} : {A : Type ℓ} → Option A → A → A
value_or none d = d
value_or (some a) d = a

abbrev pub new_run : Env → Actor → CreateRunInput → Store → Run
new_run env actor input s = record {
  id = next_id run_key s.runs;
  user_id = actor.id;
  status = pending;
  query = truncate_text (env.sanitize_text (trim_space input.query)) 4096;
  scope = value_or (sanitize_json env input.scope (16 * 1024)) "";
  current_round = 0;
  max_rounds = value_or (max_rounds_of input.max_rounds) 0;
  timeout_at = some (env.now + timeout_of input.timeout_seconds);
  cancel_requested_at = none;
  error_code = none;
  error_message = none;
  stop_reason = none;
  started_at = none;
  finished_at = none;
}

-- `CreateRun` adds at most one pending run, whose rounds and timeout are in range.
pub create_run_effect :
    (env : Env) (actor : Actor) (input : CreateRunInput) (s : Store)
    → ((create_run env (some actor) input s).1 ≡ s)
      ⊎ ((is_some (max_rounds_of input.max_rounds) ≡ true)
          × (leb (timeout_of input.timeout_seconds) max_timeout ≡ true)
          × (authorize_scope env actor (value_or (sanitize_json env input.scope (16 * 1024)) "")
              ≡ ok tt)
          × ((create_run env (some actor) input s).1
              ≡ record s { runs = new_run env actor input s ∷ s.runs }))
unfolding create_run
create_run_effect env actor input s = ground arith
