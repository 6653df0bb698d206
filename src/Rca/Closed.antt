-- ===== src/Rca/Closed.antt =====
-- A cancelled run and all that is closed under it, and what the updates of other runs and the marking
-- of overdue runs leave of that.
use adbcops.Common.{
  ℕ, ◌≡◌, refl, subst, Bool, true, false, Option, some, List, map, arith, inl, inr, Bool-cases,
  Option-cases, All, ◌==◌, ==_iff,
}
use adbcops.Rca.Status.{Status, cancelled, is_open}
use adbcops.Rca.Store.{Run, Round, Action, Store, find, update}
use adbcops.Rca.Tables.{map_option, find-update, find-map, All-map}
use adbcops.Rca.Repository.{
  mark_timed_out, time_out_run, time_out_round, time_out_action, overdue_ids,
}
use adbcops.Rca.Effects.{run_key}
use adbcops.Rca.Writes.{Found}
use adbcops.Rca.Order.{time_out_run-id}

-- The status of a run, if there is such a run.
abbrev pub run_status : ℕ → List Run → Option Status
run_status id runs = map_option (λ (r : Run). r.status) (find run_key id runs)

abbrev pub RoundClosed : ℕ → Round → Type 0
RoundClosed id r = (r.run_id == id) ≡ true → is_open r.status ≡ false

abbrev pub ActionClosed : ℕ → Action → Type 0
ActionClosed id a = (a.run_id == id) ≡ true → is_open a.status ≡ false

-- The run is cancelled, and none of its rounds and actions passes the test for an open one.
pub record IsShut (id : ℕ) (s : Store) : Type 0 where
  pub run : run_status id s.runs ≡ some cancelled
  pub rounds : All (RoundClosed id) s.rounds
  pub actions : All (ActionClosed id) s.actions

time_out_run-status :
    (now : ℕ) (r : Run) → r.status ≡ cancelled → (time_out_run now r).status ≡ cancelled
unfolding time_out_run
time_out_run-status now r e = ground arith

time_out_round-Closed :
    (id now : ℕ) (ids : List ℕ) (r : Round)
    → RoundClosed id r
    → RoundClosed id (time_out_round now ids r)
unfolding time_out_round
time_out_round-Closed id now ids r h e = ground (arith, h)

time_out_action-Closed :
    (id now : ℕ) (ids : List ℕ) (a : Action)
    → ActionClosed id a
    → ActionClosed id (time_out_action now ids a)
unfolding time_out_action
time_out_action-Closed id now ids a h e = ground (arith, h)

run_status-map :
    (f : Run → Run) (id : ℕ) (runs : List Run)
    → ((r : Run) → (f r).id ≡ r.id)
    → ((r : Run) → r.status ≡ cancelled → (f r).status ≡ cancelled)
    → run_status id runs ≡ some cancelled
    → run_status id (map f runs) ≡ some cancelled
run_status-map f id runs same keeps e = elim (Option-cases (find run_key id runs)) [
  | inl missing ↦ absurd (cc)
  | inr (r, has) ↦ rw (find-map run_key f same id runs, has) (ground (arith, keeps r))
]

pub mark-IsShut : (id now : ℕ) (s : Store) → IsShut id s → IsShut id (mark_timed_out now s)
unfolding mark_timed_out
mark-IsShut id now s h = record {
  run =
      run_status-map (time_out_run now) id s.runs (time_out_run-id now) (time_out_run-status now)
        h.run;
  rounds =
      All-map (RoundClosed id) (time_out_round now (overdue_ids now s)) s.rounds
        (time_out_round-Closed id now (overdue_ids now s)) h.rounds;
  actions =
      All-map (ActionClosed id) (time_out_action now (overdue_ids now s)) s.actions
        (time_out_action-Closed id now (overdue_ids now s)) h.actions;
}

-- A run with another id may be written.
pub run_status-update :
    (f : Run → Run) (k id : ℕ) (runs : List Run)
    → ((r : Run) → (f r).id ≡ r.id)
    → (k == id) ≡ false
    → run_status id (update run_key k f runs) ≡ run_status id runs
run_status-update f k id runs same e = rw (find-update run_key f same k id runs, e) refl

-- A found run of another status is another run.
pub other_run :
    (id : ℕ) (s : Store) (run : Run) (test : Status → Bool)
    → Found run s
    → run_status id s.runs ≡ some cancelled
    → test run.status ≡ true
    → test cancelled ≡ false
    → (run.id == id) ≡ false
other_run id s run test has e t c = elim (Bool-cases (run.id == id)) [
  | inr n ↦ n
  | inl y ↦ absurd (
      ground (
        arith,
        ==_iff run.id id,
        subst (λ k. find run_key k s.runs ≡ some run) ((==_iff run.id id).0 y) has,
      ))
]
