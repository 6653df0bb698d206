-- ===== src/Rca/Rounds.antt =====
-- The rounds of a run stay within its limit, whatever the requests.
use adbcops.Common.{
  if◌then◌else◌, is_some, ℕ, ◌≤◌, ◌≡◌, refl, inl, inr, subst, sym, true, none, some, List, ◌∷◌,
  arith, All, Option-cases, Bool-cases,
}
use adbcops.Common.Int.{ℤ, pos, negsuc}
use adbcops.Rca.Status.{Status, partial_success, is_partial_success}
use adbcops.Rca.Store.{Run, Store, find, update, next_id, Below, empty}
use adbcops.Rca.Tables.{
  All-map, All-update, All-update_found, Below-update, Below-map, next_id-update, next_id-map,
  found_has,
}
use adbcops.Rca.Repository.{RunUpdates, run_updates, run_values, mark_timed_out, time_out_run}
use adbcops.Rca.Inputs.{Actor, Env, CreateRunInput, max_rounds_of}
use adbcops.Rca.Requests.{Request, serve_all}
use adbcops.Rca.Writes.{
  Write, nothing, run_created, round_started, round_ended, action_created, action_started,
  action_ended, evidence_added, candidate_added, run_ended, run_cancelled, run_recovered,
}
use adbcops.Rca.Serving.{serve_all_induction}
use adbcops.Rca.Effects.{run_end, run_key, new_run}

abbrev pub InBounds : Run → Type 0
InBounds r = (1 ≤ r.max_rounds) × (r.current_round ≤ r.max_rounds) × (r.max_rounds ≤ 10)

pub record RunsBounded (runs : List Run) : Type 0 where
  pub ids : Below run_key (next_id run_key runs) runs
  pub rounds : All InBounds runs

abbrev pub IsBounded : Store → Type 0
IsBounded s = RunsBounded s.runs

time_out_run-id : (now : ℕ) (r : Run) → (time_out_run now r).id ≡ r.id
unfolding time_out_run
time_out_run-id now r = ground arith

time_out_run-InBounds : (now : ℕ) (r : Run) → InBounds r → InBounds (time_out_run now r)
unfolding time_out_run
time_out_run-InBounds now r h = ground arith

pub mark-IsBounded : (now : ℕ) (s : Store) → IsBounded s → IsBounded (mark_timed_out now s)
unfolding mark_timed_out
mark-IsBounded now s h = record {
  ids = rw (next_id-map run_key (time_out_run now) (time_out_run-id now) s.runs) (
      Below-map run_key (time_out_run now) (time_out_run-id now) (next_id run_key s.runs) s.runs
        h.ids);
  rounds = All-map InBounds (time_out_run now) s.runs (time_out_run-InBounds now) h.rounds;
}

-- An update of a row that a lookup finds.
updated-RunsBounded :
    (id : ℕ) (u : RunUpdates) (run : Run) (runs : List Run)
    → find run_key id runs ≡ some run
    → InBounds (run_values u run)
    → RunsBounded runs
    → RunsBounded (update run_key id (run_values u) runs)
unfolding run_values
updated-RunsBounded id u run runs e b h = record {
  ids =
      rw (next_id-update run_key (run_values u) (λ r. refl) id runs)
        (Below-update run_key (run_values u) (λ r. refl) id (next_id run_key runs) runs h.ids);
  rounds =
      All-update_found run_key InBounds (run_values u) id (next_id run_key runs) runs run h.ids e b
        h.rounds;
}

-- An update that leaves the number of the round.
pub status-RunsBounded :
    (id : ℕ) (u : RunUpdates) (runs : List Run)
    → u.current_round ≡ none
    → RunsBounded runs
    → RunsBounded (update run_key id (run_values u) runs)
unfolding run_values
status-RunsBounded id u runs e h = record {
  ids =
      rw (next_id-update run_key (run_values u) (λ r. refl) id runs)
        (Below-update run_key (run_values u) (λ r. refl) id (next_id run_key runs) runs h.ids);
  rounds = All-update run_key InBounds (run_values u) id runs (λ r b. rw e b) h.rounds;
}

max_rounds_of-bounds : (m : ℤ) (n : ℕ) → max_rounds_of m ≡ some n → (1 ≤ n) × (n ≤ 10)
unfolding max_rounds_of
max_rounds_of-bounds (pos m) n e = ground arith
max_rounds_of-bounds (negsuc m) n e = cc

cons-RunsBounded :
    (run : Run) (runs : List Run)
    → run.id ≡ next_id run_key runs
    → InBounds run
    → RunsBounded runs
    → RunsBounded (run ∷ runs)
unfolding next_id
cons-RunsBounded run runs e b h = record { ids = (omega arith, rw e h.ids); rounds = (b, h.rounds) }

new_run-InBounds :
    (env : Env) (actor : Actor) (input : CreateRunInput) (s : Store)
    → is_some (max_rounds_of input.max_rounds) ≡ true
    → InBounds (new_run env actor input s)
new_run-InBounds env actor input s e = elim (Option-cases (max_rounds_of input.max_rounds)) [
  | inl missing ↦ cc
  | inr (n, has) ↦ rw has (let b = max_rounds_of-bounds input.max_rounds n has in omega arith)
]

Write-IsBounded : (env : Env) (s t : Store) → Write env s t → IsBounded s → IsBounded t
Write-IsBounded env s t (nothing eq) h = subst IsBounded (sym eq) h
Write-IsBounded env s t (run_created actor input e eq) h = subst IsBounded (sym eq) (
    cons-RunsBounded (new_run env actor input s) s.runs refl (new_run-InBounds env actor input s e)
      h)
Write-IsBounded env s t (round_started _ run has room _ _ _ eq) h = subst IsBounded (sym eq) (
    updated-RunsBounded run.id _ run s.runs has
      (let b : InBounds run = found_has run_key InBounds run.id s.runs run has h.rounds in
        unfold run_values in (b.0, omega arith, b.2))
      h)
Write-IsBounded env s t (round_ended round_id input run has _ _ _ _ eq) h =
    subst IsBounded (sym eq) (reopened input.status)
  where
    reopened :
        (st : Status)
        → RunsBounded (
            if is_partial_success st
            then update run_key run.id (run_values (run_updates partial_success)) s.runs
            else s.runs)
    reopened st = elim (Bool-cases (is_partial_success st)) [
      | inl e ↦ rw e (status-RunsBounded run.id (run_updates partial_success) s.runs refl h)
      | inr e ↦ rw e h
    ]
Write-IsBounded env s t (action_created _ _ _ _ _ _ eq) h = subst IsBounded (sym eq) h
Write-IsBounded env s t (action_started _ _ _ _ _ eq) h = subst IsBounded (sym eq) h
Write-IsBounded env s t (action_ended _ _ _ _ _ _ eq) h = subst IsBounded (sym eq) h
Write-IsBounded env s t (evidence_added _ _ eq) h = subst IsBounded (sym eq) h
Write-IsBounded env s t (candidate_added _ _ _ _ _ eq) h = subst IsBounded (sym eq) h
Write-IsBounded env s t (run_ended input run has _ _ _ eq) h =
    subst IsBounded (sym eq) (status-RunsBounded run.id (run_end env input) s.runs refl h)
Write-IsBounded env s t (run_cancelled run has _ eq) h =
    subst IsBounded (sym eq) (status-RunsBounded run.id _ s.runs refl h)
Write-IsBounded env s t (run_recovered run has _ eq) h =
    subst IsBounded (sym eq) (status-RunsBounded run.id _ s.runs refl h)

-- Whatever requests the service has served, the number of every run's current round is at most its
-- limit, which is from 1 to 10, and no two runs have the same id.
pub serve_all-IsBounded : (rs : List Request) → IsBounded (serve_all rs empty)
serve_all-IsBounded rs =
    serve_all_induction IsBounded mark-IsBounded Write-IsBounded rs empty
      (record { ids = tt; rounds = tt })
