-- ===== src/Workflow/Run/Endings.antt =====
-- What `Run` returns agrees with what it wrote.
use adbcops.Common.{
  ℕ, ◌≡◌, ◌≢◌, ◌↔◌, refl, sym, ap, ◌∙◌, inl, inr, String, Bool, true, false, ◌&&◌, ◌||◌, Option,
  none, some, [], length, if◌then◌else◌, ◌==◌, Result, ok, err, Bool-cases,
}
use adbcops.Workflow.Faults.{
  Fault, workflow_limited, is_canceled, is_workflow_cancelled, is_deadline,
}
use adbcops.Workflow.Definition.{Definition}
use adbcops.Workflow.Validate.{validate}
use adbcops.Workflow.Nodes.{RunStatus, running, success, partial_success, failed, cancelled}
use adbcops.Workflow.Executor.{Outcome, execute}
use adbcops.Workflow.Executor.Progress.{execute-some}
use adbcops.Workflow.Run.{
  Acquired, acquired, limit_exceeded, refused, Stored, RunServices, Request, Returned, is_positive,
  run_status, refuse, close_run, run_executed, run_created, run_decoded, run_found, run_acquired,
  run,
}

-- What is returned agrees with what was written: without an error the run was updated as a success;
-- the status that was written is never that of a run that goes on, is returned with the error that
-- was written with it, and is a success exactly when there was none; a run that was not created
-- has nothing written.
pub record IsRecorded (r : Returned) : Type 0 where
  pub faultless : r.error ≡ none → (r.updated ≡ some (success, none)) × (r.run ≡ some success)
  pub written :
      (status : RunStatus) (f : Option Fault)
      → r.updated ≡ some (status, f)
      → (r.error ≡ f)
        × (r.run ≡ some status)
        × ((status ≡ success) ↔ (f ≡ none))
        × (status ≢ running)
  pub untouched : r.created ≡ none → (r.writes ≡ []) × (r.updated ≡ none)

abbrev Finished : Option Returned → Type 0
Finished found = (r : Returned) × (found ≡ some r) × IsRecorded r

refuse-Finished : (e : Fault) → Finished (some (refuse e))
refuse-Finished e = (
  refuse e,
  refl,
  record {
    faultless = λ q. absurd cc;
    written = λ status f q. absurd cc;
    untouched = λ q. (refl, refl);
  },
)

three_ways :
    (a b : Bool)
    → ((if a then cancelled else if b then failed else partial_success) ≢ success)
      × ((if a then cancelled else if b then failed else partial_success) ≢ running)
three_ways true b = ((λ q. cc), λ q. cc)
three_ways false true = ((λ q. cc), λ q. cc)
three_ways false false = ((λ q. cc), λ q. cc)

status_lem : (f : Option Fault) → ((run_status f ≡ success) ↔ (f ≡ none)) × (run_status f ≢ running)
status_lem none = (((λ q. refl), λ q. refl), λ q. cc)
status_lem (some e) =
    let (a, b) = three_ways (is_canceled e || is_workflow_cancelled e) (is_deadline e) in
    (((λ q. absurd (a q)), λ q. absurd cc), b)

close_run-Finished : (id : ℕ) (o : Outcome) (u : Option Fault) → Finished (some (close_run id o u))
close_run-Finished id o (some e) = (
  close_run id o (some e),
  refl,
  record {
    faultless = λ q. absurd cc;
    written = λ status f q. absurd cc;
    untouched = λ q. absurd cc;
  },
)
close_run-Finished id o none = (
  close_run id o none,
  refl,
  record {
    faultless = λ q. rw q (refl, refl);
    written = λ status f q.
        let (a, b) = status_lem o.error in
        let same_status : run_status o.error ≡ status = ap first_part q in
        let same_error : o.error ≡ f = cc in
        (
          same_error,
          ap some same_status,
          (
            (λ s. sym same_error ∙ a.0 (same_status ∙ s)),
            λ n. sym same_status ∙ a.1 (same_error ∙ n),
          ),
          λ s. b (same_status ∙ s),
        );
    untouched = λ q. absurd cc;
  },
)
  where
    first_part : Option (RunStatus × Option Fault) → RunStatus
    first_part (some (a, b)) = a
    first_part none = running

run_executed-Finished :
    (s : RunServices) (id : ℕ) (d : Definition) (input : String)
    → Finished (run_executed s id (execute (s.nodes id) d input))
run_executed-Finished s id d input =
    let found = execute-some (s.nodes id) d input in rw (found.1) (close_run-Finished id found.0 _)

run_created-Finished :
    (s : RunServices) (q : Request) (d : Definition) (c : Result Fault ℕ)
    → Finished (run_created s q d c)
run_created-Finished s q d (err e) = refuse-Finished e
run_created-Finished s q d (ok id) = run_executed-Finished s id d _

run_decoded-Finished :
    (s : RunServices) (q : Request) (d : Result Fault Definition) → Finished (run_decoded s q d)
run_decoded-Finished s q (err e) = refuse-Finished e
run_decoded-Finished s q (ok d) = elim (Bool-cases (length (validate s.catalogs d).errors == 0)) [
  | inl y ↦ rw y (run_created-Finished s q d s.create_run)
  | inr n ↦ rw n (refuse-Finished _)
]

run_found-Finished :
    (s : RunServices) (q : Request) (found : Result Fault Stored) → Finished (run_found s q found)
run_found-Finished s q (err e) = refuse-Finished e
run_found-Finished s q (ok stored) = elim (Bool-cases stored.enabled) [
  | inl y ↦ rw y (run_decoded-Finished s q (s.decode_definition stored.definition))
  | inr n ↦ rw n (refuse-Finished _)
]

run_acquired-Finished :
    (s : RunServices) (q : Request) (a : Acquired) → Finished (run_acquired s q a)
run_acquired-Finished s q limit_exceeded = refuse-Finished workflow_limited
run_acquired-Finished s q (refused e) = refuse-Finished e
run_acquired-Finished s q acquired = run_found-Finished s q (s.find q.workflow_id)

-- `Run` returns on every path, whatever the services answer, and what it returns agrees with what it
-- wrote: without an error the run was updated as a success; the status of an update is not that of
-- a run that goes on, it is returned with the error that was written, and it is a success exactly
-- when there was no error; where no run was created, nothing was written.
pub run-IsRecorded :
    (s : RunServices) (q : Request) → (r : Returned) × (run s q ≡ some r) × IsRecorded r
unfolding run
run-IsRecorded s q = elim (Bool-cases (q.has_actor && is_positive q.workflow_id)) [
  | inl y ↦ rw y (run_acquired-Finished s q s.slot)
  | inr n ↦ rw n (refuse-Finished _)
]
