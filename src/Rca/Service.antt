-- ===== src/Rca/Service.antt =====
-- The runs and rounds of the RCA service (backend/internal/rca/service.go). Each operation is an
-- action on the store; what stands in it after `GetRun` is a function of the run that was found.
-- Logging and metrics are left out.
use adbcops.Common.{
  ℕ, ◌+◌, ◌*◌, Bool, true, false, not, ◌&&◌, ◌||◌, Option, none, some, List, [], ◌∷◌, ◌++◌, Result,
  ok, err, leb, ltb, ◌==◌, if◌then◌else◌, keep, length, is_some, take,
}
use adbcops.Common.Text.{trim_space}
use adbcops.Rca.Status.{
  Status, pending, running, partial_success, is_running, is_partial_success, may_start_round,
  valid_round_terminal_status,
}
use adbcops.Rca.Store.{
  Error, invalid_input, forbidden, invalid_transition, round_limit, Run, Round, Store, Exec, ◌>>=◌,
  ◌>>◌, pure, raise, require, gets, or_error,
}
use adbcops.Rca.Repository.{
  run_updates, round_updates, find_run, find_round, update_run, update_round,
  create_run as create_run_row, create_round, evidence_ids_belong, mark_timed_out,
}
use adbcops.Rca.Inputs.{
  Actor, Env, Hypothesis, CreateRunInput, CompleteRoundInput, is_admin, is_blank, sanitize_json,
  truncate_text, unique_ids, safe_failure, normalized_hypotheses, normalized_next_actions,
  authorize_scope, timeout_of, max_timeout, max_rounds_of,
}

abbrev pub lift : {A : Type 0} → Result Error A → Exec A
lift r s = (r, s)

-- `authorizeRun`.
abbrev pub authorized : Actor → Run → Bool
authorized actor run = is_admin actor.role || run.user_id == actor.id

unfoldable pub mark : Env → Exec (Unit {0})
mark env s = (ok tt, mark_timed_out env.now s)

unfoldable pub get_run : Env → Option Actor → ℕ → Exec Run
unfolding mark find_run
get_run env none run_id = raise invalid_input
get_run env (some actor) run_id = do
  require (ltb 0 run_id) invalid_input
  mark env
  run ← find_run run_id
  require (authorized actor run) forbidden
  pure run

-- `ListRuns`; `matches` is the clause on the status, true of all without a filter.
unfoldable pub list_runs : Env → Option Actor → ℕ → (Status → Bool) → Exec (List Run)
unfolding mark
list_runs env none limit matches = raise forbidden
list_runs env (some actor) limit matches = do
  mark env
  gets (λ s.
      take (if limit == 0 || ltb 200 limit then 50 else limit)
        (keep (λ (r : Run). authorized actor r && matches r.status) s.runs))

create_run_as : Env → Actor → CreateRunInput → Exec Run
unfolding create_run_row
create_run_as env actor input = do
  require (not (is_blank input.query)) invalid_input
  max_rounds ← lift (or_error (max_rounds_of input.max_rounds) invalid_input)
  let timeout = timeout_of input.timeout_seconds
  require (ltb 0 timeout && leb timeout max_timeout) invalid_input
  scope ← lift (or_error (sanitize_json env input.scope (16 * 1024)) invalid_input)
  lift (authorize_scope env actor scope)
  create_run_row (record {
    id = 0;
    user_id = actor.id;
    status = pending;
    query = truncate_text (env.sanitize_text (trim_space input.query)) 4096;
    scope = scope;
    current_round = 0;
    max_rounds = max_rounds;
    timeout_at = some (env.now + timeout);
    cancel_requested_at = none;
    error_code = none;
    error_message = none;
    stop_reason = none;
    started_at = none;
    finished_at = none;
  })

unfoldable pub create_run : Env → Option Actor → CreateRunInput → Exec Run
unfolding create_run_as
create_run env none input = raise invalid_input
create_run env (some actor) input = create_run_as env actor input

abbrev pub evidence_of_hypotheses : List Hypothesis → List ℕ
evidence_of_hypotheses [] = []
evidence_of_hypotheses (h ∷ hs) = h.evidence_ids ++ evidence_of_hypotheses hs

-- The test of `validateHypothesisEvidence`.
abbrev pub hypotheses_belong : ℕ → List Hypothesis → Store → Bool
hypotheses_belong run_id hypotheses s =
    let ids = unique_ids (evidence_of_hypotheses hypotheses) in
    length ids == 0 || evidence_ids_belong run_id ids s

-- `validateHypothesisEvidence`.
unfoldable pub validate_hypothesis_evidence : ℕ → List Hypothesis → Exec (Unit {0})
validate_hypothesis_evidence run_id hypotheses s =
    ((if hypotheses_belong run_id hypotheses s then ok tt else err invalid_input), s)

-- `StartRound` after `GetRun`.
unfoldable pub start_round_of : Env → List Hypothesis → Run → Exec Round
unfolding validate_hypothesis_evidence create_round update_run
start_round_of env input_hypotheses run = do
  require (may_start_round run.status) invalid_transition
  require (not (is_some run.finished_at)) invalid_transition
  require (ltb run.current_round run.max_rounds) round_limit
  hypotheses ← lift (normalized_hypotheses env input_hypotheses false)
  validate_hypothesis_evidence run.id hypotheses
  round ← create_round (record {
    id = 0;
    run_id = run.id;
    round_number = run.current_round + 1;
    status = running;
    input_hypotheses = hypotheses;
    new_evidence_ids = [];
    rejected_hypotheses = [];
    next_actions = [];
    error_code = none;
    started_at = some env.now;
    finished_at = none;
  })
  _ ← update_run run.id (record (run_updates running) {
    current_round = some round.round_number;
    started_at = if is_some run.started_at then none else some env.now;
  })
  pure round

unfoldable pub start_round : Env → Option Actor → ℕ → List Hypothesis → Exec Round
unfolding get_run
start_round env actor run_id input_hypotheses = do
  run ← get_run env actor run_id
  start_round_of env input_hypotheses run

-- A round that ends in part makes its run one that ended in part; the update's result is ignored.
unfoldable pub reopen_run : ℕ → Status → Exec (Unit {0})
unfolding update_run
reopen_run id status s =
    if is_partial_success status
    then (ok tt, (update_run id (run_updates partial_success) s).1)
    else (ok tt, s)

-- `CompleteRound` after `GetRun`.
unfoldable pub complete_round_of : Env → ℕ → CompleteRoundInput → Run → Exec Round
unfolding find_round validate_hypothesis_evidence update_round reopen_run
complete_round_of env round_id input run = do
  round ← find_round round_id
  require
      (round.run_id == run.id
        && is_running round.status
        && valid_round_terminal_status input.status)
      invalid_transition
  belongs ← gets (evidence_ids_belong run.id input.new_evidence_ids)
  require (length input.new_evidence_ids == 0 || belongs) invalid_input
  rejected ← lift (normalized_hypotheses env input.rejected_hypotheses true)
  validate_hypothesis_evidence run.id rejected
  next_actions ← lift (normalized_next_actions env input.next_actions)
  updated ← update_round round_id (record (round_updates input.status) {
    new_evidence_ids = some (unique_ids input.new_evidence_ids);
    rejected_hypotheses = some rejected;
    next_actions = some next_actions;
    error_code = (safe_failure input.error_code "").0;
    finished_at = some env.now;
  })
  reopen_run run.id input.status
  pure updated

unfoldable pub complete_round : Env → Option Actor → ℕ → ℕ → CompleteRoundInput → Exec Round
unfolding get_run
complete_round env actor run_id round_id input = do
  run ← get_run env actor run_id
  complete_round_of env round_id input run
