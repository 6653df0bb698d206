-- ===== src/Rca/Endings.antt =====
-- What `Cancel` and `Recover` write: the rows of the three tables at once.
use adbcops.Common.{
  Result, err, ◌≡◌, refl, ◌⊎◌, inl, inr, Bool, true, false, not, some, ok, Bool-cases, List,
  is_some, keep, ◌==◌,
}
use adbcops.Rca.Status.{
  cancelled, running, is_open, is_recoverable, terminal_run_status, terminal_action_status,
}
use adbcops.Rca.Store.{Run, Round, Action, Store, update, continue, pure, found, find, Error}
use adbcops.Common.Listing.{sort_by, All-sort_by}
use adbcops.Rca.Repository.{round_before, action_before, RunUpdates, run_updates, run_values}
use adbcops.Rca.Inputs.{Env}
use adbcops.Rca.Lifecycle.{cancel_of, recover_of}
use adbcops.Rca.Effects.{run_key, round_key, action_key}
use adbcops.Rca.Loops.{
  AllFound, update_each, keep-AllFound, round_cancelled, action_cancelled, round_reopened,
  action_retried, to_reopen, to_retry, cancel_rounds_lem, cancel_actions_lem, reopen_rounds_lem,
  retry_actions_lem,
}

abbrev pub of_run : Run → Round → Bool
of_run run r = r.run_id == run.id

abbrev pub action_in : Run → Action → Bool
action_in run a = a.run_id == run.id

-- The rows of a run as they are listed.
abbrev pub rounds_of : Run → List Round → List Round
rounds_of run rounds = sort_by round_before (keep (of_run run) rounds)

abbrev pub actions_of : Run → List Action → List Action
actions_of run actions = sort_by action_before (keep (action_in run) actions)

pub rounds_of-AllFound :
    (run : Run) (rounds : List Round) → AllFound round_key (rounds_of run rounds) rounds
rounds_of-AllFound run rounds =
    All-sort_by round_before (λ (r : Round). is_some (find round_key r.id rounds) ≡ true)
      (keep (of_run run) rounds) (keep-AllFound round_key (of_run run) rounds)

pub actions_of-AllFound :
    (run : Run) (actions : List Action) → AllFound action_key (actions_of run actions) actions
actions_of-AllFound run actions =
    All-sort_by action_before (λ (a : Action). is_some (find action_key a.id actions) ≡ true)
      (keep (action_in run) actions) (keep-AllFound action_key (action_in run) actions)

abbrev pub cancel_updates : Env → RunUpdates
cancel_updates env = record (run_updates cancelled) {
  cancel_requested_at = some env.now;
  error_code = some "cancelled";
  error_message = some "RCA run was cancelled";
  stop_reason = some "user_cancelled";
  finished_at = some env.now;
}

abbrev pub after_cancel : Env → Run → Store → Store
after_cancel env run s = record s {
  runs = update run_key run.id (run_values (cancel_updates env)) s.runs;
  rounds =
      update_each round_key (λ r. is_open r.status) (round_cancelled env) (rounds_of run s.rounds)
        s.rounds;
  actions =
      update_each action_key (λ a. not (terminal_action_status a.status)) (action_cancelled env)
        (actions_of run s.actions) s.actions;
}

pub cancel_of_live :
    (env : Env) (run : Run) (s : Store)
    → terminal_run_status run.status ≡ false
    → (cancel_of env run s).1 ≡ after_cancel env run s
unfolding cancel_of
cancel_of_live env run s e = rw e (
    rw (cancel_rounds_lem env (rounds_of run s.rounds) s (rounds_of-AllFound run s.rounds)) (
      rw
        (cancel_actions_lem env (actions_of run s.actions)
          (record s {
            rounds =
                update_each round_key (λ r. is_open r.status) (round_cancelled env)
                  (rounds_of run s.rounds) s.rounds;
          })
          (actions_of-AllFound run s.actions))
        refl))

pub cancel_of_effect :
    (env : Env) (run : Run) (s : Store)
    → ((cancel_of env run s).1 ≡ s)
      ⊎ ((terminal_run_status run.status ≡ false)
          × ((cancel_of env run s).1 ≡ after_cancel env run s))
unfolding cancel_of
cancel_of_effect env run s = elim (Bool-cases (terminal_run_status run.status)) [
  | inl e ↦ inl (rw e refl)
  | inr e ↦ inr (e, cancel_of_live env run s e)
]

-- A last step that only builds the result leaves the store.
continue-pure :
    {A B : Type 0} (r : Result Error A) (g : A → B) (s : Store)
    → (continue r (λ a. pure (g a)) s).1 ≡ s
continue-pure (ok a) g s = refl
continue-pure (err e) g s = refl

abbrev pub recover_updates : RunUpdates
recover_updates = record (run_updates running) {
  clear_error = true;
  clear_stop_reason = true;
  clear_finished_at = true;
}

abbrev pub after_recover : Run → Store → Store
after_recover run s = record s {
  runs = update run_key run.id (run_values recover_updates) s.runs;
  rounds =
      update_each round_key (to_reopen run.current_round) round_reopened (rounds_of run s.rounds)
        s.rounds;
  actions = update_each action_key to_retry action_retried (actions_of run s.actions) s.actions;
}

pub recover_of_effect :
    (run : Run) (s : Store)
    → ((recover_of run s).1 ≡ s)
      ⊎ ((is_recoverable run.status ≡ true) × ((recover_of run s).1 ≡ after_recover run s))
unfolding recover_of
recover_of_effect run s = elim (Bool-cases (is_recoverable run.status)) [
  | inr e ↦ inl (rw e refl)
  | inl e ↦ inr (
    e,
    rw e (
        rw (retry_actions_lem (actions_of run s.actions) s (actions_of-AllFound run s.actions)) (
          rw
            (reopen_rounds_lem run.current_round (rounds_of run s.rounds)
              (record s {
                actions =
                    update_each action_key to_retry action_retried (actions_of run s.actions)
                      s.actions;
              })
              (rounds_of-AllFound run s.rounds))
            (continue-pure
              (found
                (find run_key run.id (update run_key run.id (run_values recover_updates) s.runs)))
              _ (after_recover run s)))),
  )
]
