-- ===== src/Rca/Samples.antt =====
-- Concrete requests to the RCA service, and the stores that they leave.
use adbcops.Common.{ℕ, none, some, false, List, [], ◌∷◌, ok}
use adbcops.Common.Int.{pos}
use adbcops.Rca.Status.{timed_out, pending, running, success, cancelled}
use adbcops.Rca.Store.{Run, Store}
use adbcops.Rca.Inputs.{Actor, Env, user, Hypothesis, CreateRunInput, CreateCandidateInput}
use adbcops.Rca.Requests.{
  Request, creates_run, starts_round, completes_round, creates_action, starts_action,
  completes_action, adds_evidence, adds_candidate, completes_run, recovers,
}

abbrev pub env_at : ℕ → Env
env_at now = record {
  now = now;
  sanitize_json_bytes = λ s _. some s;
  sanitize_text = λ s. s;
  scope_data_source_ids = λ _. [];
  list_data_sources = some (λ _. ok []);
  accept_evidence = some (λ _. ok tt);
}

abbrev pub alice : Actor
alice = record { id = 7; role = user }

abbrev hunch : Hypothesis
hunch = record { summary = " slow disk "; confidence = pos 500000; evidence_ids = 1 ∷ 0 ∷ 1 ∷ [] }

abbrev new_input : CreateRunInput
new_input = record {
  query = "why is it slow";
  scope = "";
  max_rounds = pos 0;
  timeout_seconds = pos 60;
}

abbrev candidate_input : CreateCandidateInput
candidate_input = record {
  round_id = 1;
  summary = "disk";
  confidence = pos 900000;
  evidence_ids = 1 ∷ [];
  rejected = false;
}

-- A run that ends in success.
abbrev pub session : List Request
session =
    record { env = env_at 10; actor = some alice; call = creates_run new_input }
    ∷ record {
      env = env_at 11;
      actor = some alice;
      call = starts_round 1 (record hunch { evidence_ids = [] } ∷ []);
    }
    ∷ record {
      env = env_at 12;
      actor = some alice;
      call = creates_action 1 (record {
        round_id = 1;
        action_key = "iostat";
        skill_name = "disk";
        input = "";
        sensitive_read = false;
      });
    }
    ∷ record { env = env_at 13; actor = some alice; call = starts_action 1 1 }
    ∷ record {
      env = env_at 14;
      actor = some alice;
      call = adds_evidence 1 (record {
        round_id = 1;
        action_id = some 1;
        summary = "busy";
        evidence_kind = "metric";
        source_skill = "disk";
        data_source_id = none;
      });
    }
    ∷ record {
      env = env_at 15;
      actor = some alice;
      call = completes_action 1 1 (record {
        status = success;
        output = "";
        evidence_ids = 1 ∷ [];
        error_code = "";
        error_message = "";
      });
    }
    ∷ record { env = env_at 16; actor = some alice; call = adds_candidate 1 candidate_input }
    ∷ record {
      env = env_at 17;
      actor = some alice;
      call = completes_round 1 1 (record {
        status = success;
        new_evidence_ids = 1 ∷ [];
        rejected_hypotheses = hunch ∷ [];
        next_actions = [];
        error_code = "";
      });
    }
    ∷ record {
      env = env_at 18;
      actor = some alice;
      call =
          completes_run 1 (record {
            status = success;
            error_code = "";
            error_message = "";
            stop_reason = "found";
          });
    }
    ∷ []

-- What the first session leaves.
abbrev pub final : Store
final = record {
  runs =
      record {
        id = 1;
        user_id = 7;
        status = success;
        query = "why is it slow";
        scope = "{}";
        current_round = 1;
        max_rounds = 3;
        timeout_at = some 60000000010;
        cancel_requested_at = none;
        error_code = none;
        error_message = none;
        stop_reason = some "found";
        started_at = some 11;
        finished_at = some 18;
      }
      ∷ [];
  rounds =
      record {
        id = 1;
        run_id = 1;
        round_number = 1;
        status = success;
        input_hypotheses =
            record { summary = "slow disk"; confidence = pos 500000; evidence_ids = [] } ∷ [];
        new_evidence_ids = 1 ∷ [];
        rejected_hypotheses =
            record { summary = "slow disk"; confidence = pos 500000; evidence_ids = 1 ∷ [] } ∷ [];
        next_actions = [];
        error_code = none;
        started_at = some 11;
        finished_at = some 17;
      }
      ∷ [];
  actions =
      record {
        id = 1;
        run_id = 1;
        round_id = 1;
        action_key = "iostat";
        skill_name = "disk";
        status = success;
        evidence_ids = 1 ∷ [];
        error_code = none;
        error_message = none;
        sensitive_read = false;
        attempt = 1;
        started_at = some 13;
        finished_at = some 15;
      }
      ∷ [];
  evidence =
      record {
        id = 1;
        rca_run_id = some 1;
        rca_round_id = some 1;
        data_source_id = none;
        owner_user_id = some 7;
      }
      ∷ [];
  candidates =
      record {
        id = 1;
        run_id = 1;
        round_id = 1;
        summary = "disk";
        confidence = pos 900000;
        evidence_ids = 1 ∷ [];
        rejected = false;
      }
      ∷ [];
}

-- A second run, with an open round and a pending action, and what a later mark makes of it.
abbrev pub second_store : Store
second_store = record {
  runs =
      record {
        id = 1;
        user_id = 7;
        status = running;
        query = "why is it slow";
        scope = "{}";
        current_round = 1;
        max_rounds = 3;
        timeout_at = some 60000000020;
        cancel_requested_at = none;
        error_code = none;
        error_message = none;
        stop_reason = none;
        started_at = some 21;
        finished_at = none;
      }
      ∷ [];
  rounds =
      record {
        id = 1;
        run_id = 1;
        round_number = 1;
        status = running;
        input_hypotheses = [];
        new_evidence_ids = [];
        rejected_hypotheses = [];
        next_actions = [];
        error_code = none;
        started_at = some 21;
        finished_at = none;
      }
      ∷ [];
  actions =
      record {
        id = 1;
        run_id = 1;
        round_id = 1;
        action_key = "iostat";
        skill_name = "disk";
        status = pending;
        evidence_ids = [];
        error_code = none;
        error_message = none;
        sensitive_read = false;
        attempt = 1;
        started_at = none;
        finished_at = none;
      }
      ∷ [];
  evidence = [];
  candidates = [];
}

abbrev pub late_store : Store
late_store = record {
  runs =
      record {
        id = 1;
        user_id = 7;
        status = timed_out;
        query = "why is it slow";
        scope = "{}";
        current_round = 1;
        max_rounds = 3;
        timeout_at = some 60000000020;
        cancel_requested_at = none;
        error_code = some "run_timeout";
        error_message = some "RCA run exceeded its configured deadline";
        stop_reason = some "wall_time_budget_exhausted";
        started_at = some 21;
        finished_at = some 60000000020;
      }
      ∷ [];
  rounds =
      record {
        id = 1;
        run_id = 1;
        round_number = 1;
        status = timed_out;
        input_hypotheses = [];
        new_evidence_ids = [];
        rejected_hypotheses = [];
        next_actions = [];
        error_code = some "run_timeout";
        started_at = some 21;
        finished_at = some 60000000020;
      }
      ∷ [];
  actions =
      record {
        id = 1;
        run_id = 1;
        round_id = 1;
        action_key = "iostat";
        skill_name = "disk";
        status = timed_out;
        evidence_ids = [];
        error_code = some "run_timeout";
        error_message = some "RCA run exceeded its configured deadline";
        sensitive_read = false;
        attempt = 1;
        started_at = none;
        finished_at = some 60000000020;
      }
      ∷ [];
  evidence = [];
  candidates = [];
}

abbrev pub timed_out_run : Run
timed_out_run = record {
  id = 1;
  user_id = 7;
  status = timed_out;
  query = "why is it slow";
  scope = "{}";
  current_round = 1;
  max_rounds = 3;
  timeout_at = some 60000000020;
  cancel_requested_at = none;
  error_code = some "run_timeout";
  error_message = some "RCA run exceeded its configured deadline";
  stop_reason = some "wall_time_budget_exhausted";
  started_at = some 21;
  finished_at = some 60000000020;
}

-- A run that is cancelled before its first round.
abbrev pub creation : List Request
creation = record { env = env_at 20; actor = some alice; call = creates_run new_input } ∷ []

abbrev pub cancelled_run : Run
cancelled_run = record {
  id = 1;
  user_id = 7;
  status = cancelled;
  query = "why is it slow";
  scope = "{}";
  current_round = 0;
  max_rounds = 3;
  timeout_at = some 60000000020;
  cancel_requested_at = some 30;
  error_code = some "cancelled";
  error_message = some "RCA run was cancelled";
  stop_reason = some "user_cancelled";
  started_at = none;
  finished_at = some 30;
}

-- A store whose run is cancelled.
abbrev pub cancelled_store : Store
cancelled_store = record second_store { runs = cancelled_run ∷ []; rounds = []; actions = [] }

abbrev pub ended_run : Run
ended_run = record timed_out_run {
  status = success;
  timeout_at = some 60000000010;
  error_code = none;
  error_message = none;
  stop_reason = some "found";
  started_at = some 11;
  finished_at = some 18;
}

abbrev pub later : List Request
later =
    record { env = env_at 31; actor = some alice; call = recovers 1 }
    ∷ record { env = env_at 32; actor = some alice; call = starts_round 1 [] }
    ∷ []
