-- ===== src/Rca/Writes.antt =====
-- The writes of the RCA service: what one request can do to the store.
use adbcops.Common.{ℕ, ltb, ◌<◌, ◌≡◌, true, false, some, List, ◌∷◌, any, length, is_some, is_ok}
use adbcops.Common.Text.{trim_space}
use adbcops.Rca.Status.{
  is_running, is_pending, is_open, is_success, is_recoverable, may_start_round, running,
  terminal_run_status, valid_run_terminal_status, valid_action_terminal_status,
}
use adbcops.Rca.Store.{Run, Evidence, Store, find, update, next_id}
use adbcops.Rca.Repository.{
  same_action, action_values, action_updates, run_values, evidence_ids_belong, list_candidates,
  mark_timed_out,
}
use adbcops.Rca.Inputs.{
  Actor, Env, CreateRunInput, CompleteRoundInput, CreateActionInput, CompleteActionInput,
  CreateCandidateInput, CompleteRunInput, max_rounds_of, truncate_text, unique_ids, Hypothesis,
  normalized_hypotheses, normalized_next_actions, answers,
}
use adbcops.Rca.Service.{hypotheses_belong}
use adbcops.Rca.Lifecycle.{is_active}
use adbcops.Rca.Effects.{
  run_key, action_key, new_run, started, round_completed, completes_round, running_round,
  new_action, action_of_run, action_end, new_candidate, run_end,
}
use adbcops.Rca.Endings.{after_cancel, after_recover}

abbrev pub Found : Run → Store → Type 0
Found run s = find run_key run.id s.runs ≡ some run

pub data Write (env : Env) (s t : Store) : Type 0 where
  nothing : t ≡ s → Write env s t
  run_created :
      (actor : Actor) (input : CreateRunInput)
      → is_some (max_rounds_of input.max_rounds) ≡ true
      → t ≡ record s { runs = new_run env actor input s ∷ s.runs }
      → Write env s t
  round_started :
      (hypotheses : List Hypothesis) (run : Run)
      → Found run s
      → run.current_round < run.max_rounds
      → may_start_round run.status ≡ true
      → is_ok (normalized_hypotheses env hypotheses false) ≡ true
      → hypotheses_belong run.id (answers (normalized_hypotheses env hypotheses false)) s ≡ true
      → t ≡ started env (answers (normalized_hypotheses env hypotheses false)) run s
      → Write env s t
  round_ended :
      (round_id : ℕ) (input : CompleteRoundInput) (run : Run)
      → Found run s
      → completes_round round_id input run s ≡ true
      → is_ok (normalized_hypotheses env input.rejected_hypotheses true) ≡ true
      → hypotheses_belong run.id
          (answers (normalized_hypotheses env input.rejected_hypotheses true))
          s
        ≡ true
      → is_ok (normalized_next_actions env input.next_actions) ≡ true
      → t ≡ round_completed env round_id input run s
      → Write env s t
  action_created :
      (input : CreateActionInput) (run : Run)
      → Found run s
      → is_running run.status ≡ true
      → running_round input.round_id run s ≡ true
      → any (same_action run.id (truncate_text (trim_space input.action_key) 160)) s.actions ≡ false
      → t ≡ record s { actions = new_action input run s ∷ s.actions }
      → Write env s t
  action_started :
      (action_id : ℕ) (run : Run)
      → Found run s
      → is_running run.status ≡ true
      → action_of_run is_pending action_id run s ≡ true
      → t ≡ record s {
        actions =
            update action_key action_id
              (action_values (record (action_updates running) { started_at = some env.now }))
              s.actions;
      }
      → Write env s t
  action_ended :
      (action_id : ℕ) (input : CompleteActionInput) (run : Run)
      → Found run s
      → action_of_run is_open action_id run s ≡ true
      → valid_action_terminal_status input.status ≡ true
      → t ≡ record s {
        actions = update action_key action_id (action_values (action_end env input)) s.actions;
      }
      → Write env s t
  evidence_added :
      (e : Evidence)
      → e.id ≡ next_id (λ (x : Evidence). x.id) s.evidence
      → t ≡ record s { evidence = e ∷ s.evidence }
      → Write env s t
  candidate_added :
      (input : CreateCandidateInput) (run : Run)
      → Found run s
      → ltb 0 (length (unique_ids input.evidence_ids)) ≡ true
      → evidence_ids_belong run.id input.evidence_ids s ≡ true
      → t ≡ record s { candidates = new_candidate env input run s ∷ s.candidates }
      → Write env s t
  run_ended :
      (input : CompleteRunInput) (run : Run)
      → Found run s
      → valid_run_terminal_status input.status ≡ true
      → terminal_run_status run.status ≡ false
      → (is_success input.status ≡ true → any is_active (list_candidates run.id s) ≡ true)
      → t ≡ record s { runs = update run_key run.id (run_values (run_end env input)) s.runs }
      → Write env s t
  run_cancelled :
      (run : Run)
      → Found run s
      → terminal_run_status run.status ≡ false
      → t ≡ after_cancel env run s
      → Write env s t
  run_recovered :
      (run : Run)
      → Found run s
      → is_recoverable run.status ≡ true
      → t ≡ after_recover run s
      → Write env s t

-- A request writes to the store as it finds it, or after `MarkTimedOutRCARuns`.
pub data Served (env : Env) (s t : Store) : Type 0 where
  at_once : Write env s t → Served env s t
  after_mark : Write env (mark_timed_out env.now s) t → Served env s t
