-- ===== src/Rca/Repository.antt =====
-- The repository of an RCA (backend/internal/repository/rca_repository.go) over the store of
-- `Rca/Store.antt`. A query does not fail but by a missing row or a violated constraint of
-- backend/migrations/000050_rca_round_state.up.sql.
use text.Mathlib.Text.{◌==◌ as str_eq}
use adbcops.Common.{
  ℕ, String, Bool, true, false, ◌&&◌, Option, none, some, List, [], ◌∷◌, map, ok, err, leb, ltb,
  ◌==◌, if◌then◌else◌, keep, any, length,
}
use adbcops.Common.Int.{ltb_ℤ}
use adbcops.Common.Listing.{sort_by}
use adbcops.Common.Members.{ℕ_eq, mem, unique_from}
use adbcops.Rca.Status.{Status, timed_out, is_open}
use adbcops.Rca.Store.{
  conflict, Hypothesis, NextAction, Run, Round, Action, Evidence, Candidate, Store, find, update,
  next_id, Exec, found,
}

-- `RCARunUpdates`: an absent value leaves the column, a clear flag empties it.
pub record RunUpdates : Type 0 where
  pub status : Status
  pub current_round : Option ℕ
  pub cancel_requested_at : Option ℕ
  pub error_code : Option String
  pub error_message : Option String
  pub stop_reason : Option String
  pub clear_error : Bool
  pub clear_stop_reason : Bool
  pub started_at : Option ℕ
  pub finished_at : Option ℕ
  pub clear_finished_at : Bool

abbrev pub run_updates : Status → RunUpdates
run_updates status = record {
  status = status;
  current_round = none;
  cancel_requested_at = none;
  error_code = none;
  error_message = none;
  stop_reason = none;
  clear_error = false;
  clear_stop_reason = false;
  started_at = none;
  finished_at = none;
  clear_finished_at = false;
}

pub record RoundUpdates : Type 0 where
  pub status : Status
  pub new_evidence_ids : Option (List ℕ)
  pub rejected_hypotheses : Option (List Hypothesis)
  pub next_actions : Option (List NextAction)
  pub error_code : Option String
  pub clear_error : Bool
  pub finished_at : Option ℕ
  pub clear_finished_at : Bool

abbrev pub round_updates : Status → RoundUpdates
round_updates status = record {
  status = status;
  new_evidence_ids = none;
  rejected_hypotheses = none;
  next_actions = none;
  error_code = none;
  clear_error = false;
  finished_at = none;
  clear_finished_at = false;
}

pub record ActionUpdates : Type 0 where
  pub status : Status
  pub evidence_ids : Option (List ℕ)
  pub error_code : Option String
  pub error_message : Option String
  pub clear_error : Bool
  pub attempt : Option ℕ
  pub started_at : Option ℕ
  pub finished_at : Option ℕ
  pub clear_finished_at : Bool

abbrev pub action_updates : Status → ActionUpdates
action_updates status = record {
  status = status;
  evidence_ids = none;
  error_code = none;
  error_message = none;
  clear_error = false;
  attempt = none;
  started_at = none;
  finished_at = none;
  clear_finished_at = false;
}

-- `if updates.X != nil { values["x"] = *updates.X }`, for a column that may be null.
abbrev pub set_column {ℓ} : {A : Type ℓ} → Option A → Option A → Option A
set_column none old = old
set_column (some v) old = some v

-- The same for a column that is never null.
abbrev pub set_value {ℓ} : {A : Type ℓ} → Option A → A → A
set_value none old = old
set_value (some v) old = v

unfoldable pub run_values : RunUpdates → Run → Run
run_values u r = record r {
  status = u.status;
  current_round = set_value u.current_round r.current_round;
  cancel_requested_at = set_column u.cancel_requested_at r.cancel_requested_at;
  error_code = if u.clear_error then none else set_column u.error_code r.error_code;
  error_message = if u.clear_error then none else set_column u.error_message r.error_message;
  stop_reason = if u.clear_stop_reason then none else set_column u.stop_reason r.stop_reason;
  started_at = set_column u.started_at r.started_at;
  finished_at = if u.clear_finished_at then none else set_column u.finished_at r.finished_at;
}

unfoldable pub round_values : RoundUpdates → Round → Round
round_values u r = record r {
  status = u.status;
  new_evidence_ids = set_value u.new_evidence_ids r.new_evidence_ids;
  rejected_hypotheses = set_value u.rejected_hypotheses r.rejected_hypotheses;
  next_actions = set_value u.next_actions r.next_actions;
  error_code = if u.clear_error then none else set_column u.error_code r.error_code;
  finished_at = if u.clear_finished_at then none else set_column u.finished_at r.finished_at;
}

unfoldable pub action_values : ActionUpdates → Action → Action
action_values u a = record a {
  status = u.status;
  evidence_ids = set_value u.evidence_ids a.evidence_ids;
  error_code = if u.clear_error then none else set_column u.error_code a.error_code;
  error_message = if u.clear_error then none else set_column u.error_message a.error_message;
  attempt = set_value u.attempt a.attempt;
  started_at = set_column u.started_at a.started_at;
  finished_at = if u.clear_finished_at then none else set_column u.finished_at a.finished_at;
}

unfoldable pub find_run : ℕ → Exec Run
find_run id s = (found (find (λ (r : Run). r.id) id s.runs), s)

unfoldable pub find_round : ℕ → Exec Round
find_round id s = (found (find (λ (r : Round). r.id) id s.rounds), s)

unfoldable pub find_action : ℕ → Exec Action
find_action id s = (found (find (λ (a : Action). a.id) id s.actions), s)

-- The updates write the row and read it back; `ErrNotFound` if there is none.
unfoldable pub update_run : ℕ → RunUpdates → Exec Run
unfolding run_values find_run
update_run id u s =
    find_run id (record s { runs = update (λ (r : Run). r.id) id (run_values u) s.runs })

unfoldable pub update_round : ℕ → RoundUpdates → Exec Round
unfolding round_values find_round
update_round id u s =
    find_round id (record s { rounds = update (λ (r : Round). r.id) id (round_values u) s.rounds })

unfoldable pub update_action : ℕ → ActionUpdates → Exec Action
unfolding action_values find_action
update_action id u s =
    find_action id
      (record s { actions = update (λ (a : Action). a.id) id (action_values u) s.actions })

unfoldable pub create_run : Run → Exec Run
create_run run s =
    let row = record run { id = next_id (λ (r : Run). r.id) s.runs } in
    (ok row, record s { runs = row ∷ s.runs })

-- `UNIQUE(run_id, round_number)`.
unfoldable pub create_round : Round → Exec Round
create_round round s =
    let row = record round { id = next_id (λ (r : Round). r.id) s.rounds } in
    if any (λ (r : Round). r.run_id == row.run_id && r.round_number == row.round_number) s.rounds
    then (err conflict, s)
    else (ok row, record s { rounds = row ∷ s.rounds })

abbrev pub same_action : ℕ → String → Action → Bool
same_action run_id key a = a.run_id == run_id && str_eq a.action_key key

-- On a conflict of run and key the row that is there is returned.
unfoldable pub create_or_get_action : Action → Exec Action
create_or_get_action action s =
    elim (keep (same_action action.run_id action.action_key) s.actions) [
      | stored ∷ _ ↦ (ok stored, s)
      | [] ↦
          let row = record action { id = next_id (λ (a : Action). a.id) s.actions } in
          (ok row, record s { actions = row ∷ s.actions })
    ]

unfoldable pub create_evidence : Evidence → Exec Evidence
create_evidence e s =
    let row = record e { id = next_id (λ (x : Evidence). x.id) s.evidence } in
    (ok row, record s { evidence = row ∷ s.evidence })

unfoldable pub create_candidate : Candidate → Exec Candidate
create_candidate c s =
    let row = record c { id = next_id (λ (x : Candidate). x.id) s.candidates } in
    (ok row, record s { candidates = row ∷ s.candidates })

-- `ORDER BY round_number`.
abbrev pub round_before : Round → Round → Bool
round_before r q = leb r.round_number q.round_number

-- `ORDER BY round_id, id`.
abbrev pub action_before : Action → Action → Bool
action_before a b = if a.round_id == b.round_id then leb a.id b.id else ltb a.round_id b.round_id

-- `ORDER BY confidence DESC, id`.
abbrev pub candidate_before : Candidate → Candidate → Bool
candidate_before c d =
    if ltb_ℤ d.confidence c.confidence
    then true
    else if ltb_ℤ c.confidence d.confidence
    then false
    else leb c.id d.id

unfoldable pub list_rounds : ℕ → Store → List Round
list_rounds run_id s = sort_by round_before (keep (λ (r : Round). r.run_id == run_id) s.rounds)

unfoldable pub list_actions : ℕ → Store → List Action
list_actions run_id s = sort_by action_before (keep (λ (a : Action). a.run_id == run_id) s.actions)

unfoldable pub list_candidates : ℕ → Store → List Candidate
list_candidates run_id s =
    sort_by candidate_before (keep (λ (c : Candidate). c.run_id == run_id) s.candidates)

abbrev pub of_run : ℕ → Evidence → Bool
of_run run_id e = elim e.rca_run_id [ none ↦ false | some r ↦ r == run_id ]

-- A column in ascending order, what is null last, and then `tie`.
abbrev pub nulls_last : Option ℕ → Option ℕ → Bool → Bool
nulls_last none none tie = tie
nulls_last none (some b) tie = false
nulls_last (some a) none tie = true
nulls_last (some a) (some b) tie = if a == b then tie else ltb a b

-- `ORDER BY rca_round_id, id`.
abbrev pub evidence_before : Evidence → Evidence → Bool
evidence_before e f = nulls_last e.rca_round_id f.rca_round_id (leb e.id f.id)

unfoldable pub list_evidence : ℕ → Store → List Evidence
list_evidence run_id s = sort_by evidence_before (keep (of_run run_id) s.evidence)

-- `EvidenceIDsBelongToRCARun`: the rows of the run among the ids are as many as the distinct ids.
unfoldable pub evidence_ids_belong : ℕ → List ℕ → Store → Bool
evidence_ids_belong run_id [] s = false
evidence_ids_belong run_id (id ∷ ids) s =
    length (keep (λ (e : Evidence). of_run run_id e && mem e.id (id ∷ ids)) s.evidence)
    == length (unique_from [] (id ∷ ids))

-- Whether the deadline of a run that is pending or running has passed.
abbrev pub is_overdue : ℕ → Run → Bool
is_overdue now r = is_open r.status && elim r.timeout_at [ none ↦ false | some t ↦ leb t now ]

unfoldable pub time_out_run : ℕ → Run → Run
time_out_run now r =
    if is_overdue now r
    then record r {
      status = timed_out;
      error_code = some "run_timeout";
      error_message = some "RCA run exceeded its configured deadline";
      stop_reason = some "wall_time_budget_exhausted";
      finished_at = some now;
    }
    else r

unfoldable pub time_out_round : ℕ → List ℕ → Round → Round
time_out_round now ids r =
    if mem r.run_id ids && is_open r.status
    then record r { status = timed_out; error_code = some "run_timeout"; finished_at = some now }
    else r

unfoldable pub time_out_action : ℕ → List ℕ → Action → Action
time_out_action now ids a =
    if mem a.run_id ids && is_open a.status
    then record a {
      status = timed_out;
      error_code = some "run_timeout";
      error_message = some "RCA run exceeded its configured deadline";
      finished_at = some now;
    }
    else a

unfoldable pub overdue_ids : ℕ → Store → List ℕ
overdue_ids now s = map (λ (r : Run). r.id) (keep (is_overdue now) s.runs)

-- `MarkTimedOutRCARuns`, one transaction. With no overdue run it changes nothing.
unfoldable pub mark_timed_out : ℕ → Store → Store
unfolding time_out_run time_out_round time_out_action overdue_ids
mark_timed_out now s =
    let ids = overdue_ids now s in
    record s {
      runs = map (time_out_run now) s.runs;
      rounds = map (time_out_round now ids) s.rounds;
      actions = map (time_out_action now ids) s.actions;
    }
