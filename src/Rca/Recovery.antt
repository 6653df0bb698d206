-- ===== src/Rca/Recovery.antt =====
-- What `Recover` answers and what it leaves (backend/internal/rca/service.go).
use adbcops.Common.{
  ℕ, ◌<◌, ◌≡◌, ◌⊎◌, ◌||◌, inl, inr, refl, sym, subst, Bool, true, false, some, Result, ok, map,
  arith, All, keep, ◌==◌, ==_iff, ltb,
}
use adbcops.Rca.Status.{
  Status, failed, timed_out, partial_success, running, is_recoverable, is_done,
}
use adbcops.Rca.Store.{Run, Round, Action, Store, Error, find}
use adbcops.Rca.Repository.{
  action_values, round_values, run_values, round_before, action_before, mark_timed_out,
}
use adbcops.Rca.Inputs.{Env, Actor, is_admin}
use adbcops.Rca.Service.{get_run}
use adbcops.Rca.Tables.{find-update, found_key}
use adbcops.Rca.Lifecycle.{RecoveryPlan, recover_of, recover}
use adbcops.Rca.Effects.{run_key, round_key, action_key}
use adbcops.Rca.Loops.{
  update_each, round_reopened, action_retried, to_reopen, to_retry, plan_ids, retry_actions_lem,
  reopen_rounds_lem, update_each-closes,
}
use adbcops.Rca.Endings.{
  of_run, action_in, rounds_of, actions_of, rounds_of-AllFound, actions_of-AllFound,
  recover_updates, after_recover,
}
use adbcops.Rca.Writes.{Found}
use adbcops.Rca.Closed.{run_status}

abbrev recovered : Run → Store → RecoveryPlan
recovered run s = record {
  run = run_values recover_updates run;
  skipped_action_ids = (plan_ids (actions_of run s.actions)).0;
  retryable_action_ids = (plan_ids (actions_of run s.actions)).1;
}

recover_of-succeeds :
    (run : Run) (s : Store)
    → Found run s
    → is_recoverable run.status ≡ true
    → recover_of run s ≡ (ok (recovered run s), after_recover run s)
unfolding recover_of
recover_of-succeeds run s has e = rw e (
    rw (retry_actions_lem (actions_of run s.actions) s (actions_of-AllFound run s.actions)) (
      rw
        (reopen_rounds_lem run.current_round (rounds_of run s.rounds)
          (record s {
            actions =
                update_each action_key to_retry action_retried (actions_of run s.actions) s.actions;
          })
          (rounds_of-AllFound run s.rounds))
        (rw
          (
            find-update run_key (run_values recover_updates) (λ _. unfold run_values in refl) run.id
                run.id s.runs,
            has,
          )
          (ground arith))))

-- What follows `GetRun` in `Recover`.
recover_of_lem :
    (run : Run) (s : Store)
    → Found run s
    → is_recoverable run.status ≡ true
    → (plan : RecoveryPlan) × ((recover_of run s).0 ≡ ok plan)
      × (plan.skipped_action_ids
          ≡ map action_key (keep (λ a. is_done a.status) (actions_of run s.actions)))
      × (plan.retryable_action_ids ≡ map action_key (keep to_retry (actions_of run s.actions)))
      × (run_status run.id (recover_of run s).1.runs ≡ some running)
      × All
          (λ (a : Action). action_in run a ≡ true → to_retry a ≡ false)
          (recover_of run s).1.actions
      × All
          (λ (r : Round). of_run run r ≡ true → to_reopen run.current_round r ≡ false)
          (recover_of run s).1.rounds
recover_of_lem run s has e = (
  recovered run s,
  rw whole refl,
  refl,
  refl,
  rw whole (
      rw
        (
          find-update run_key (run_values recover_updates) (λ _. unfold run_values in refl) run.id
              run.id s.runs,
          has,
        )
        (unfold run_values in ground arith)),
  rw whole (
      update_each-closes action_key action_retried (action_in run) to_retry
        (λ _ _. unfold action_values in refl) (λ _ _. unfold action_values in refl) action_before
        s.actions),
  rw whole (
      update_each-closes round_key round_reopened (of_run run) (to_reopen run.current_round)
        (λ _ _. unfold round_values in refl) (λ _ r. unfold round_values in ground arith)
        round_before s.rounds),
)
  where
    whole : recover_of run s ≡ (ok (recovered run s), after_recover run s)
    whole = recover_of-succeeds run s has e

allowed : (admin own : Bool) → (admin ≡ true) ⊎ (own ≡ true) → (admin || own) ≡ true
allowed admin own (inl a) = rw a refl
allowed admin own (inr o) = ground (arith, o)

positive : (n : ℕ) → 0 < n → ltb 0 n ≡ true
positive n z = ground (arith, z)

-- `GetRun` of a run that is there, for its owner or an admin.
get_run_allowed :
    (env : Env) (actor : Actor) (id : ℕ) (s : Store) (run : Run)
    → 0 < id
    → find run_key id (mark_timed_out env.now s).runs ≡ some run
    → (is_admin actor.role ≡ true) ⊎ (run.user_id ≡ actor.id)
    → get_run env (some actor) id s ≡ (ok run, mark_timed_out env.now s)
unfolding get_run
get_run_allowed env actor id s run z has may =
    rw (positive id z, has, allowed (is_admin actor.role) (run.user_id == actor.id) (either may))
      refl
  where
    either :
        (is_admin actor.role ≡ true) ⊎ (run.user_id ≡ actor.id)
        → (is_admin actor.role ≡ true) ⊎ ((run.user_id == actor.id) ≡ true)
    either (inl a) = inl a
    either (inr o) = inr ((==_iff run.user_id actor.id).1 o)

-- Whether a status is one that `Recover` takes up.
abbrev pub Recoverable : Status → Type 0
Recoverable status = (status ≡ failed) ⊎ ((status ≡ timed_out) ⊎ (status ≡ partial_success))

Recoverable-test : (status : Status) → Recoverable status → is_recoverable status ≡ true
Recoverable-test status (inl e) = rw e refl
Recoverable-test status (inr (inl e)) = rw e refl
Recoverable-test status (inr (inr e)) = rw e refl

-- What `Recover` answers, and what it leaves of the store after the marking of overdue runs.
pub record IsRecovered (run : Run) (marked : Store) (out : Result Error RecoveryPlan × Store)
    : Type 0 where
  pub plan : RecoveryPlan
  pub answered : out.0 ≡ ok plan
  pub skipped :
      plan.skipped_action_ids
      ≡ map action_key (keep (λ a. is_done a.status) (actions_of run marked.actions))
  pub retryable :
      plan.retryable_action_ids ≡ map action_key (keep to_retry (actions_of run marked.actions))
  pub run_goes_on : run_status run.id out.1.runs ≡ some running
  pub actions : All (λ (a : Action). action_in run a ≡ true → to_retry a ≡ false) out.1.actions
  pub rounds :
      All (λ (r : Round). of_run run r ≡ true → to_reopen run.current_round r ≡ false) out.1.rounds

recover_of-IsRecovered :
    (run : Run) (s : Store)
    → Found run s
    → is_recoverable run.status ≡ true
    → IsRecovered run s (recover_of run s)
recover_of-IsRecovered run s has e =
    let (plan, answered, skipped, retryable, goes_on, actions, rounds) =
      recover_of_lem run s has e in
    record {
      plan = plan;
      answered = answered;
      skipped = skipped;
      retryable = retryable;
      run_goes_on = goes_on;
      actions = actions;
      rounds = rounds;
    }

-- `Recover` succeeds for the owner or an admin, of a run that is there and, once overdue runs are
-- marked, failed, timed out or ended in part. It answers the ids of the run's actions that were done
-- and of those that are tried again; afterwards the run is running, none of its actions is left to
-- try again, and none of the rounds of its current number is left to reopen.
pub recover-IsRecovered :
    (env : Env) (actor : Actor) (id : ℕ) (s : Store) (run : Run)
    → 0 < id
    → find run_key id (mark_timed_out env.now s).runs ≡ some run
    → (is_admin actor.role ≡ true) ⊎ (run.user_id ≡ actor.id)
    → Recoverable run.status
    → IsRecovered run (mark_timed_out env.now s) (recover env (some actor) id s)
unfolding recover
recover-IsRecovered env actor id s run z has may ended =
    rw (get_run_allowed env actor id s run z has may) (
      recover_of-IsRecovered run (mark_timed_out env.now s) stored
        (Recoverable-test run.status ended))
  where
    stored : Found run (mark_timed_out env.now s)
    stored =
        subst (λ k. find run_key k (mark_timed_out env.now s).runs ≡ some run)
          (sym (found_key run_key id (mark_timed_out env.now s).runs run has)) has
