-- ===== src/Workflow/Run.antt =====
-- `Run` and `Cancel` of the workflow executor (backend/internal/workflow/executor.go). The limiter, the
-- repository and the decoder of definitions are parameters; what is written of the run is in the
-- answer. The contexts of the active runs are the list of their ids.
pub mod Endings
use text.Mathlib.Text.{◌==◌ as str_eq}
use adbcops.Common.{
  ℕ, ◌+◌, String, Bool, true, false, not, ◌&&◌, ◌||◌, Option, none, some, List, [], ◌∷◌, length,
  if◌then◌else◌, ◌==◌, Result, ok, err, map, keep,
}
use adbcops.Common.Int.{ℤ, pos, negsuc}
use adbcops.Common.Members.{ℕ_eq, mem}
use adbcops.Workflow.Json.{Codec}
use adbcops.Workflow.Faults.{
  Fault, invalid_definition, workflow_limited, is_canceled, is_workflow_cancelled, is_deadline,
}
use adbcops.Workflow.Definition.{Definition, Catalogs, Problem}
use adbcops.Workflow.Validate.{Validation, validate}
use adbcops.Workflow.Nodes.{RunStatus, success, partial_success, failed, cancelled, Write, Services}
use adbcops.Workflow.Executor.{Outcome, execute}

-- What `limiter.Acquire` answers.
pub data Acquired : Type 0 where
  acquired limit_exceeded : Acquired
  refused : Fault → Acquired

pub record Stored : Type 0 where
  pub enabled : Bool
  pub definition : String

pub record RunServices : Type 0 where
  pub slot : Acquired
  pub find : ℤ → Result Fault Stored
  pub decode_definition : String → Result Fault Definition
  pub catalogs : Catalogs
  pub create_run : Result Fault ℕ
  pub update_run : ℕ → RunStatus → Option Fault → Option Fault
  pub codec : Codec
  pub nodes : ℕ → Services

pub record Request : Type 0 where
  pub has_actor : Bool
  pub workflow_id : ℤ
  pub input : String

-- What `Run` returns, and what it wrote.
pub record Returned : Type 0 where
  pub run : Option RunStatus
  pub error : Option Fault
  pub created : Option ℕ
  pub updated : Option (RunStatus × Option Fault)
  pub writes : List Write

abbrev pub is_positive : ℤ → Bool
is_positive (pos n) = not (n == 0)
is_positive (negsuc n) = false

abbrev pub normalized_json : Codec → String → String
normalized_json c raw = if str_eq raw "" || not (c.valid raw) then "{}" else raw

-- The status that `Run` writes for the error of `execute`.
abbrev pub run_status : Option Fault → RunStatus
run_status none = success
run_status (some e) =
    if is_canceled e || is_workflow_cancelled e
    then cancelled
    else if is_deadline e
    then failed
    else partial_success

abbrev pub refuse : Fault → Returned
refuse e = record { run = none; error = some e; created = none; updated = none; writes = [] }

-- What follows `execute`, by the error of the update.
abbrev pub close_run : ℕ → Outcome → Option Fault → Returned
close_run id o (some e) = record {
  run = none;
  error = some e;
  created = some id;
  updated = none;
  writes = o.state.writes;
}
close_run id o none = record {
  run = some (run_status o.error);
  error = o.error;
  created = some id;
  updated = some (run_status o.error, o.error);
  writes = o.state.writes;
}

abbrev pub run_executed : RunServices → ℕ → Option Outcome → Option Returned
run_executed s id none = none
run_executed s id (some o) = some (close_run id o (s.update_run id (run_status o.error) o.error))

abbrev pub run_created : RunServices → Request → Definition → Result Fault ℕ → Option Returned
run_created s q d (err e) = some (refuse e)
run_created s q d (ok id) =
    run_executed s id (execute (s.nodes id) d (normalized_json s.codec q.input))

abbrev pub run_decoded : RunServices → Request → Result Fault Definition → Option Returned
run_decoded s q (err e) = some (refuse e)
run_decoded s q (ok d) =
    if length (validate s.catalogs d).errors == 0
    then run_created s q d s.create_run
    else some (refuse (invalid_definition "errors of the definition"))

abbrev pub run_found : RunServices → Request → Result Fault Stored → Option Returned
run_found s q (err e) = some (refuse e)
run_found s q (ok stored) =
    if stored.enabled
    then run_decoded s q (s.decode_definition stored.definition)
    else some (refuse (invalid_definition "workflow disabled"))

abbrev pub run_acquired : RunServices → Request → Acquired → Option Returned
run_acquired s q limit_exceeded = some (refuse workflow_limited)
run_acquired s q (refused e) = some (refuse e)
run_acquired s q acquired = run_found s q (s.find q.workflow_id)

-- `Run`. `none` means that the fuel of `execute` ran out.
unfoldable pub run : RunServices → Request → Option Returned
unfolding execute validate
run s q =
    if q.has_actor && is_positive q.workflow_id
    then run_acquired s q s.slot
    else some (refuse (invalid_definition ""))

-- The effects of `Cancel`: whether a context is ended, and the id that the repository cancels.
pub record CancelEffects : Type 0 where
  pub ended : Bool
  pub cancelled_id : ℕ

abbrev pub cancel_known : List ℕ → ℤ → Result Fault CancelEffects
cancel_known active (negsuc n) = err (invalid_definition "")
cancel_known active (pos n) =
    if n == 0
    then err (invalid_definition "")
    else ok (record { ended = mem n active; cancelled_id = n })

-- `Cancel`, up to the call of the repository; `has_cancellations` tells whether there is one.
unfoldable pub cancel : Bool → List ℕ → ℤ → Result Fault CancelEffects
unfolding mem
cancel has_cancellations active id =
    if has_cancellations then cancel_known active id else err (invalid_definition "")
