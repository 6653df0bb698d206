-- ===== src/Workflow/Faults.antt =====
-- The errors of the workflow executor (backend/internal/workflow/executor.go): the sentinels that
-- `errors.Is` tells apart, and the rest by its text.
use adbcops.Common.{String, Bool, true, false}

pub data Fault : Type 0 where
  context_canceled deadline_exceeded : Fault
  workflow_cancelled workflow_limited workflow_partial : Fault
  invalid_definition other : String → Fault

-- `errors.Is(err, context.Canceled)`.
abbrev pub is_canceled : Fault → Bool
is_canceled context_canceled = true
is_canceled _ = false

-- `errors.Is(err, ErrWorkflowCancelled)`.
abbrev pub is_workflow_cancelled : Fault → Bool
is_workflow_cancelled workflow_cancelled = true
is_workflow_cancelled _ = false

-- `errors.Is(err, context.DeadlineExceeded)`.
abbrev pub is_deadline : Fault → Bool
is_deadline deadline_exceeded = true
is_deadline _ = false
