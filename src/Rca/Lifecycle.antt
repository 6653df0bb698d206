-- ===== src/Rca/Lifecycle.antt =====
-- How a run of the RCA service ends and is taken up again (backend/internal/rca/service.go):
-- `CompleteRun`, `Cancel` and `Recover`. `Cancel` also calls the cancel function of a running
-- orchestrator, which is left out.
use text.Mathlib.Text.{◌==◌ as str_eq}
use adbcops.Common.{
  ℕ, zero, suc, ◌+◌, ◌/◌, String, Bool, true, not, ◌&&◌, ◌||◌, Option, none, some, List, [], ◌∷◌,
  ok, ltb, ◌==◌, if◌then◌else◌, any,
}
use adbcops.Common.Text.{trim_space}
use adbcops.Rca.Status.{
  pending, running, cancelled, is_open, is_success, is_done, is_recoverable,
  valid_run_terminal_status, terminal_run_status, terminal_action_status,
}
use adbcops.Rca.Store.{
  invalid_transition, evidence_required, Run, Round, Action, Candidate, Exec, ◌>>=◌, ◌>>◌, pure,
  require, gets,
}
use adbcops.Rca.Repository.{
  run_updates, round_updates, action_updates, update_run, update_round, update_action, list_rounds,
  list_actions, list_candidates,
}
use adbcops.Rca.Inputs.{Actor, Env, CompleteRunInput, truncate_text, safe_failure}
use adbcops.Rca.Service.{get_run}

-- The digits of a number, one turn for each and at most `fuel` and one.
decimal_length : ℕ → ℕ → ℕ
decimal_length zero n = 1
decimal_length (suc fuel) n =
    let rest = decimal_length fuel (n / 10) in if ltb n 10 then 1 else suc rest

items_length : List ℕ → ℕ
unfolding decimal_length
items_length [] = 0
items_length (id ∷ []) = decimal_length id id
items_length (id ∷ next ∷ ids) = decimal_length id id + 2 + items_length (next ∷ ids)

-- The bytes of the document of a list of ids, as a column of type jsonb gives it back: the brackets,
-- and the ids with a comma and a space between them.
unfoldable pub document_length : List ℕ → ℕ
unfolding items_length
document_length ids = suc (suc (items_length ids))

-- A candidate that is not rejected and whose document of evidence ids is not empty:
-- `hasActiveCandidate`.
unfoldable pub is_active : Candidate → Bool
unfolding document_length
is_active c = not c.rejected && ltb 0 (document_length c.evidence_ids)

unfoldable pub stop_reason_of : Env → String → Option String
unfolding truncate_text trim_space
stop_reason_of env raw =
    let text = truncate_text (env.sanitize_text (trim_space raw)) 80 in
    if str_eq text "" then none else some text

-- `CompleteRun` after `GetRun`.
unfoldable pub complete_run_of : Env → CompleteRunInput → Run → Exec Run
unfolding list_candidates update_run is_active
complete_run_of env input run = do
  require (valid_run_terminal_status input.status && not (terminal_run_status run.status))
      invalid_transition
  candidates ← gets (list_candidates run.id)
  require (not (is_success input.status) || any is_active candidates) evidence_required
  update_run run.id (record (run_updates input.status) {
    error_code = (safe_failure input.error_code input.error_message).0;
    error_message = (safe_failure input.error_code input.error_message).1;
    stop_reason = stop_reason_of env input.stop_reason;
    finished_at = some env.now;
  })

unfoldable pub complete_run : Env → Option Actor → ℕ → CompleteRunInput → Exec Run
unfolding get_run
complete_run env actor run_id input = do
  run ← get_run env actor run_id
  complete_run_of env input run

-- The loop of `Cancel` over the rounds that were listed.
unfoldable pub cancel_rounds : Env → List Round → Exec (Unit {0})
unfolding update_round
cancel_rounds env [] s = (ok tt, s)
cancel_rounds env (round ∷ rest) s =
    let close =
      update_round round.id (record (round_updates cancelled) { finished_at = some env.now }) in
    (if is_open round.status
        then (close >>= λ _. cancel_rounds env rest)
        else cancel_rounds env rest)
      s

unfoldable pub cancel_actions : Env → List Action → Exec (Unit {0})
unfolding update_action
cancel_actions env [] s = (ok tt, s)
cancel_actions env (action ∷ rest) s =
    let close =
      update_action action.id (record (action_updates cancelled) { finished_at = some env.now }) in
    (if not (terminal_action_status action.status)
        then (close >>= λ _. cancel_actions env rest)
        else cancel_actions env rest)
      s

-- `Cancel` after `GetRun`.
unfoldable pub cancel_of : Env → Run → Exec Run
unfolding list_rounds list_actions update_run
cancel_of env run = do
  require (not (terminal_run_status run.status)) invalid_transition
  rounds ← gets (list_rounds run.id)
  cancel_rounds env rounds
  actions ← gets (list_actions run.id)
  cancel_actions env actions
  update_run run.id (record (run_updates cancelled) {
    cancel_requested_at = some env.now;
    error_code = some "cancelled";
    error_message = some "RCA run was cancelled";
    stop_reason = some "user_cancelled";
    finished_at = some env.now;
  })

unfoldable pub cancel : Env → Option Actor → ℕ → Exec Run
unfolding get_run
cancel env actor run_id = do run ← get_run env actor run_id; cancel_of env run

pub record RecoveryPlan : Type 0 where
  pub run : Run
  pub skipped_action_ids : List ℕ
  pub retryable_action_ids : List ℕ

abbrev pub Ids : Type 0
Ids = List ℕ × List ℕ

-- The loop of `Recover` over the actions: it returns the skipped and the retryable ids.
unfoldable pub retry_actions : List Action → Exec Ids
unfolding update_action
retry_actions [] s = (ok ([], []), s)
retry_actions (action ∷ rest) s =
    let retry = update_action action.id (record (action_updates pending) {
      attempt = some (action.attempt + 1);
      clear_error = true;
      clear_finished_at = true;
    }) in
    (if is_done action.status
        then (retry_actions rest >>= λ (ids : Ids). pure (action.id ∷ ids.0, ids.1))
        else if is_recoverable action.status
        then (retry >>= λ _. retry_actions rest >>= λ (ids : Ids). pure (ids.0, action.id ∷ ids.1))
        else retry_actions rest)
      s

unfoldable pub reopen_rounds : ℕ → List Round → Exec (Unit {0})
unfolding update_round
reopen_rounds current [] s = (ok tt, s)
reopen_rounds current (round ∷ rest) s =
    let reopen =
      update_round round.id
        (record (round_updates running) { clear_error = true; clear_finished_at = true }) in
    (if round.round_number == current && is_recoverable round.status
        then (reopen >>= λ _. reopen_rounds current rest)
        else reopen_rounds current rest)
      s

-- `Recover` after `GetRun`.
unfoldable pub recover_of : Run → Exec RecoveryPlan
unfolding list_rounds list_actions update_run
recover_of run = do
  require (is_recoverable run.status) invalid_transition
  actions ← gets (list_actions run.id)
  ids ← retry_actions actions
  rounds ← gets (list_rounds run.id)
  reopen_rounds run.current_round rounds
  updated ← update_run run.id (record (run_updates running) {
    clear_error = true;
    clear_stop_reason = true;
    clear_finished_at = true;
  })
  pure (record { run = updated; skipped_action_ids = ids.0; retryable_action_ids = ids.1 })

unfoldable pub recover : Env → Option Actor → ℕ → Exec RecoveryPlan
unfolding get_run
recover env actor run_id = do run ← get_run env actor run_id; recover_of run
