-- ===== src/Rca/Shut.antt =====
-- A cancelled run is final: `Cancel` closes all that is open under the run, and no later request
-- reaches the run or opens anything under it.
use mathlib.Core.Bool.{false≢true, true≢false}
use adbcops.Common.{
  ◌&&◌, ℕ, ◌≡◌, refl, sym, subst, ap, ◌∙◌, Bool, true, false, not, Option, none, some, List, ◌∷◌,
  arith, if◌then◌else◌, inl, inr, Bool-cases, Option-cases, All, ◌==◌, ok,
}
use adbcops.Rca.Status.{
  Status, cancelled, partial_success, is_partial_success, is_open, is_running, is_pending,
  is_recoverable, may_start_round, terminal_run_status, terminal_action_status,
  valid_action_terminal_status, valid_round_terminal_status,
}
use adbcops.Rca.Store.{Run, Action, Store, find, update, next_id, empty}
use adbcops.Rca.Tables.{All-imp, find-update, found_has, All-update, All-update_found}
use adbcops.Rca.Repository.{
  run_values, run_updates, round_values, action_values, round_before, action_before, mark_timed_out,
}
use adbcops.Rca.Inputs.{Actor, Env, CompleteRoundInput}
use adbcops.Rca.Effects.{completes_round, run_key, round_key, action_key}
use adbcops.Rca.Loops.{update_each-closes, round_cancelled, action_cancelled}
use adbcops.Rca.Requests.{Request, serve_all}
use adbcops.Rca.Writes.{
  Found, Write, nothing, run_created, round_started, round_ended, action_created, action_started,
  action_ended, evidence_added, candidate_added, run_ended, run_cancelled, run_recovered,
}
use adbcops.Rca.Serving.{get_ok, serve_all_induction}
use adbcops.Rca.Lifecycle.{cancel_of, cancel}
use adbcops.Rca.Endings.{cancel_updates, cancel_of_live, of_run, action_in}
use adbcops.Common.Listing.{All-sort_by}
use adbcops.Rca.Groups.{found_lower, Grouped-keep, All-update_group}
use adbcops.Rca.Order.{serve_all-InOrder, Ordered, InOrder, mark-InOrder, Write-InOrder}
use adbcops.Rca.Closed.{
  run_status, RoundClosed, ActionClosed, IsShut, mark-IsShut, run_status-update, other_run,
}

abbrev action_test : Run → Option Action → Bool
action_test run none = false
action_test run (some a) = a.run_id == run.id && is_pending a.status

run_status-cons :
    (id : ℕ) (run : Run) (runs : List Run)
    → Ordered run_key runs
    → run.id ≡ next_id run_key runs
    → run_status id runs ≡ some cancelled
    → run_status id (run ∷ runs) ≡ some cancelled
unfolding find
run_status-cons id run runs o e h = elim (Option-cases (find run_key id runs)) [
  | inl missing ↦ absurd cc
  | inr (r, has) ↦ ground (arith, found_lower run_key id (next_id run_key runs) runs r o has)
]

-- A round that is open is not one of a cancelled run.
round_run :
    (id round_id : ℕ) (input : CompleteRoundInput) (run : Run) (s : Store)
    → completes_round round_id input run s ≡ true
    → All (RoundClosed id) s.rounds
    → ((run.id == id) ≡ false) × (valid_round_terminal_status input.status ≡ true)
round_run id round_id input run s ends h = elim (Option-cases (find round_key round_id s.rounds)) [
  | inl missing ↦ absurd (cc)
  | inr (round, has) ↦
      ground (arith, found_has round_key (RoundClosed id) round_id s.rounds round has h)
]

ended_action : (st : Status) → valid_action_terminal_status st ≡ true → is_open st ≡ false
ended_action st e = ground arith

ended_round : (st : Status) → valid_round_terminal_status st ≡ true → is_open st ≡ false
ended_round st e = ground arith

module _ (env : Env) (id : ℕ) where
  Write-IsShut : (s t : Store) → Write env s t → InOrder s → IsShut id s → IsShut id t
  unfolding run_values round_values action_values
  Write-IsShut s t (nothing eq) o h = subst (IsShut id) (sym eq) h
  Write-IsShut s t (run_created actor input _ eq) o h = subst (IsShut id) (sym eq) (record {
    run = run_status-cons id _ s.runs o.runs refl h.run;
    rounds = h.rounds;
    actions = h.actions;
  })
  Write-IsShut s t (round_started _ run has room may _ _ eq) o h =
      subst (IsShut id) (sym eq) (record {
        run = run_status-update _ run.id id s.runs (λ _. refl) other ∙ h.run;
        rounds = (λ same. absurd (true≢false (sym same ∙ other)), h.rounds);
        actions = h.actions;
      })
    where
      other : (run.id == id) ≡ false
      other = other_run id s run may_start_round has h.run may refl
  Write-IsShut s t (round_ended round_id input run has ends _ _ _ eq) o h =
      subst (IsShut id) (sym eq) (record {
        run = reopened (is_partial_success input.status);
        rounds =
            All-update round_key (RoundClosed id) _ round_id s.rounds
              (λ r _ _. ended_round input.status facts.1) h.rounds;
        actions = h.actions;
      })
    where
      facts : ((run.id == id) ≡ false) × (valid_round_terminal_status input.status ≡ true)
      facts = round_run id round_id input run s ends h.rounds

      reopened :
          (b : Bool)
          → run_status id (
              if b
              then update run_key run.id (run_values (run_updates partial_success)) s.runs
              else s.runs)
            ≡ some cancelled
      reopened true = run_status-update _ run.id id s.runs (λ _. refl) facts.0 ∙ h.run
      reopened false = h.run
  Write-IsShut s t (action_created input run has live _ _ eq) o h =
      subst (IsShut id) (sym eq) (record {
        run = h.run;
        rounds = h.rounds;
        actions = (
          λ same.
              absurd (true≢false (sym same ∙ other_run id s run is_running has h.run live refl)),
          h.actions,
        );
      })
  Write-IsShut s t (action_started action_id run has live waits eq) o h =
      subst (IsShut id) (sym eq) (record {
        run = h.run;
        rounds = h.rounds;
        actions = elim (Option-cases (find action_key action_id s.actions)) [
          | inl missing ↦
              absurd
                (false≢true (subst (λ (a : Option Action). action_test run a ≡ true) missing waits))
          | inr (action, e) ↦
              All-update_found action_key (ActionClosed id) _ action_id _ s.actions action o.actions
                e
                (λ same. absurd (
                  of_other action (subst (λ (a : Option Action). action_test run a ≡ true) e waits)
                    same))
                h.actions
        ];
      })
    where
      of_other :
          (a : Action)
          → (a.run_id == run.id && is_pending a.status) ≡ true
          → (a.run_id == id) ≡ true
          → ⊥
      of_other a of same =
          absurd (ground (arith, other_run id s run is_running has h.run live refl))
  Write-IsShut s t (action_ended action_id input run has _ valid eq) o h =
      subst (IsShut id) (sym eq) (record {
        run = h.run;
        rounds = h.rounds;
        actions =
            All-update action_key (ActionClosed id) _ action_id s.actions
              (λ a _ _. ended_action input.status valid) h.actions;
      })
  Write-IsShut s t (evidence_added _ _ eq) o h =
      subst (IsShut id) (sym eq) (record { run = h.run; rounds = h.rounds; actions = h.actions })
  Write-IsShut s t (candidate_added _ _ _ _ _ eq) o h =
      subst (IsShut id) (sym eq) (record { run = h.run; rounds = h.rounds; actions = h.actions })
  Write-IsShut s t (run_ended input run has _ live _ eq) o h = subst (IsShut id) (sym eq) (record {
    run =
        run_status-update _ run.id id s.runs (λ _. refl)
          (other_run id s run (λ st. not (terminal_run_status st)) has h.run (ap not live) refl)
        ∙ h.run;
    rounds = h.rounds;
    actions = h.actions;
  })
  Write-IsShut s t (run_cancelled run has live eq) o h = subst (IsShut id) (sym eq) (record {
    run = run_status-update _ run.id id s.runs (λ _. refl) other ∙ h.run;
    rounds =
        All-update_group round_key (λ r. r.run_id) run.id (RoundClosed id) _ _ (λ _ _. refl)
          (λ _ _. refl) (λ _ _ _ _. refl) _ _ s.rounds o.rounds
          (All-sort_by round_before _ _
            (Grouped-keep round_key (λ r. r.run_id) run.id _ s.rounds o.rounds))
          h.rounds;
    actions =
        All-update_group action_key (λ a. a.run_id) run.id (ActionClosed id) _ _ (λ _ _. refl)
          (λ _ _. refl) (λ _ _ _ _. refl) _ _ s.actions o.actions
          (All-sort_by action_before _ _
            (Grouped-keep action_key (λ a. a.run_id) run.id _ s.actions o.actions))
          h.actions;
  })
    where
      other : (run.id == id) ≡ false
      other = other_run id s run (λ st. not (terminal_run_status st)) has h.run (ap not live) refl
  Write-IsShut s t (run_recovered run has may eq) o h = subst (IsShut id) (sym eq) (record {
    run = run_status-update _ run.id id s.runs (λ _. refl) other ∙ h.run;
    rounds =
        All-update_group round_key (λ r. r.run_id) run.id (RoundClosed id) _ _ (λ _ _. refl)
          (λ _ _. refl) (λ x y e same. absurd (ground (arith, other))) _ _ s.rounds o.rounds
          (All-sort_by round_before _ _
            (Grouped-keep round_key (λ r. r.run_id) run.id _ s.rounds o.rounds))
          h.rounds;
    actions =
        All-update_group action_key (λ a. a.run_id) run.id (ActionClosed id) _ _ (λ _ _. refl)
          (λ _ _. refl) (λ x y e same. absurd (ground (arith, other))) _ _ s.actions o.actions
          (All-sort_by action_before _ _
            (Grouped-keep action_key (λ a. a.run_id) run.id _ s.actions o.actions))
          h.actions;
  })
    where
      other : (run.id == id) ≡ false
      other = other_run id s run is_recoverable has h.run may refl

-- What is closed under a cancelled run stays closed.
pub serve_all-IsShut :
    (id : ℕ) (rs : List Request) (s : Store)
    → InOrder s
    → IsShut id s
    → InOrder (serve_all rs s) × IsShut id (serve_all rs s)
serve_all-IsShut id rs s o h =
    serve_all_induction (λ t. InOrder t × IsShut id t)
      (λ now t p. (mark-InOrder now t p.0, mark-IsShut id now t p.1))
      (λ env t u w p. (Write-InOrder env t u w p.0, Write-IsShut env id t u w p.0 p.1)) rs s (o, h)

not_open : (st : Status) → not (terminal_action_status st) ≡ false → is_open st ≡ false
not_open st e = ground arith

refused :
    (env : Env) (run : Run) (s : Store) (answer : Run)
    → terminal_run_status run.status ≡ true
    → (cancel_of env run s).0 ≡ ok answer
    → ⊥
unfolding cancel_of
refused env run s answer over e = ground arith

-- `Cancel` closes all that is open under the run.
cancel_of-IsShut :
    (env : Env) (run : Run) (s : Store)
    → Found run s
    → terminal_run_status run.status ≡ false
    → IsShut run.id (cancel_of env run s).1
unfolding run_values
cancel_of-IsShut env run s has live =
    subst (IsShut run.id) (sym (cancel_of_live env run s live)) (record {
      run =
          rw
            (
              find-update run_key (run_values (cancel_updates env)) (λ _. refl) run.id run.id
                  s.runs,
              has,
            )
            (ground arith);
      rounds =
          update_each-closes round_key (round_cancelled env) (of_run run) (λ r. is_open r.status)
            (λ _ _. unfold round_values in refl) (λ _ _. unfold round_values in refl) round_before
            s.rounds;
      actions =
          All-imp _ (ActionClosed run.id) _ (λ a closed same. not_open a.status (closed same))
            (update_each-closes action_key (action_cancelled env) (action_in run)
              (λ a. not (terminal_action_status a.status)) (λ _ _. unfold action_values in refl)
              (λ _ _. unfold action_values in refl) action_before s.actions);
    })

-- The store after `Cancel`.
pub cancel-IsShut :
    (before : List Request) (env : Env) (actor : Option Actor) (id : ℕ) (answer : Run)
    → (cancel env actor id (serve_all before empty)).0 ≡ ok answer
    → InOrder (cancel env actor id (serve_all before empty)).1
      × IsShut id (cancel env actor id (serve_all before empty)).1
unfolding cancel
cancel-IsShut before env actor id answer e =
    get_ok env actor id (cancel_of env) s answer (λ t. InOrder t × IsShut id t) after_cancelling e
  where
    s : Store
    s = serve_all before empty

    marked : InOrder (mark_timed_out env.now s)
    marked = mark-InOrder env.now s (serve_all-InOrder before)

    after_cancelling :
        (run : Run)
        → Found run (mark_timed_out env.now s)
        → run.id ≡ id
        → (cancel_of env run (mark_timed_out env.now s)).0 ≡ ok answer
        → InOrder (cancel_of env run (mark_timed_out env.now s)).1
          × IsShut id (cancel_of env run (mark_timed_out env.now s)).1
    after_cancelling run has same ok_e = elim (Bool-cases (terminal_run_status run.status)) [
      | inl over ↦ absurd (refused env run (mark_timed_out env.now s) answer over ok_e)
      | inr live ↦ (
        subst InOrder (sym (cancel_of_live env run (mark_timed_out env.now s) live))
            (Write-InOrder env _ _ (run_cancelled run has live refl) marked),
        subst (λ k. IsShut k (cancel_of env run (mark_timed_out env.now s)).1) same
            (cancel_of-IsShut env run (mark_timed_out env.now s) has live),
      )
    ]
