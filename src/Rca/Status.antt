-- ===== src/Rca/Status.antt =====
-- The statuses of runs, rounds and actions (backend/internal/model/rca.go) and the tests on them
-- (backend/internal/rca/service.go). The three groups of constants share their texts, so one type
-- serves all; `other` is a text that is none of the constants, as a request may hold.
use adbcops.Common.{String, Bool, true, false}

pub data Status : Type 0 where
  pending running partial_success success failed skipped cancelled timed_out : Status
  other : String → Status

-- `validRunTerminalStatus`: what a client may ask `CompleteRun` to set.
abbrev pub valid_run_terminal_status : Status → Bool
valid_run_terminal_status success = true
valid_run_terminal_status partial_success = true
valid_run_terminal_status failed = true
valid_run_terminal_status _ = false

-- `validRoundTerminalStatus`.
abbrev pub valid_round_terminal_status : Status → Bool
valid_round_terminal_status success = true
valid_round_terminal_status partial_success = true
valid_round_terminal_status failed = true
valid_round_terminal_status timed_out = true
valid_round_terminal_status _ = false

-- `validActionTerminalStatus`.
abbrev pub valid_action_terminal_status : Status → Bool
valid_action_terminal_status success = true
valid_action_terminal_status partial_success = true
valid_action_terminal_status failed = true
valid_action_terminal_status timed_out = true
valid_action_terminal_status _ = false

-- `terminalRunStatus`: a partial success is not terminal.
abbrev pub terminal_run_status : Status → Bool
terminal_run_status success = true
terminal_run_status failed = true
terminal_run_status cancelled = true
terminal_run_status timed_out = true
terminal_run_status _ = false

-- `terminalActionStatus`.
abbrev pub terminal_action_status : Status → Bool
terminal_action_status success = true
terminal_action_status partial_success = true
terminal_action_status failed = true
terminal_action_status skipped = true
terminal_action_status cancelled = true
terminal_action_status timed_out = true
terminal_action_status _ = false

-- The test `status == pending || status == running` that several places write out.
abbrev pub is_open : Status → Bool
is_open pending = true
is_open running = true
is_open _ = false

abbrev pub is_running : Status → Bool
is_running running = true
is_running _ = false

abbrev pub is_pending : Status → Bool
is_pending pending = true
is_pending _ = false

abbrev pub is_success : Status → Bool
is_success success = true
is_success _ = false

abbrev pub is_partial_success : Status → Bool
is_partial_success partial_success = true
is_partial_success _ = false

-- The statuses of a run at which `StartRound` goes on.
abbrev pub may_start_round : Status → Bool
may_start_round pending = true
may_start_round running = true
may_start_round partial_success = true
may_start_round _ = false

-- The statuses at which `Recover` takes up a run, retries an action and reopens a round.
abbrev pub is_recoverable : Status → Bool
is_recoverable failed = true
is_recoverable timed_out = true
is_recoverable partial_success = true
is_recoverable _ = false

-- The statuses of an action that `Recover` skips.
abbrev pub is_done : Status → Bool
is_done success = true
is_done skipped = true
is_done _ = false
