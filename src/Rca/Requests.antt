-- ===== src/Rca/Requests.antt =====
-- The requests that the RCA service serves, as one type, and a sequence of them. A request brings
-- the environment that it meets; the requests of a sequence do not overlap.
use adbcops.Common.{ℕ, Option, List, [], ◌∷◌}
use adbcops.Rca.Store.{Store}
use adbcops.Rca.Inputs.{
  Actor, Env, Hypothesis, CreateRunInput, CompleteRoundInput, CreateActionInput,
  CompleteActionInput, CreateEvidenceInput, CreateCandidateInput, CompleteRunInput,
}
use adbcops.Rca.Service.{get_run, create_run, start_round, complete_round}
use adbcops.Rca.Lifecycle.{complete_run, cancel, recover}
use adbcops.Rca.Actions.{create_action, start_action, complete_action, add_evidence, add_candidate}

pub data Call : Type 0 where
  creates_run : CreateRunInput → Call
  gets_run : ℕ → Call
  starts_round : ℕ → List Hypothesis → Call
  completes_round : ℕ → ℕ → CompleteRoundInput → Call
  creates_action : ℕ → CreateActionInput → Call
  starts_action : ℕ → ℕ → Call
  completes_action : ℕ → ℕ → CompleteActionInput → Call
  adds_evidence : ℕ → CreateEvidenceInput → Call
  adds_candidate : ℕ → CreateCandidateInput → Call
  completes_run : ℕ → CompleteRunInput → Call
  cancels : ℕ → Call
  recovers : ℕ → Call

pub record Request : Type 0 where
  pub env : Env
  pub actor : Option Actor
  pub call : Call

unfoldable pub serve_call : Env → Option Actor → Call → Store → Store
serve_call env actor (creates_run input) s = (create_run env actor input s).1
serve_call env actor (gets_run id) s = (get_run env actor id s).1
serve_call env actor (starts_round id hypotheses) s = (start_round env actor id hypotheses s).1
serve_call env actor (completes_round id round input) s =
    (complete_round env actor id round input s).1
serve_call env actor (creates_action id input) s = (create_action env actor id input s).1
serve_call env actor (starts_action id action) s = (start_action env actor id action s).1
serve_call env actor (completes_action id action input) s =
    (complete_action env actor id action input s).1
serve_call env actor (adds_evidence id input) s = (add_evidence env actor id input s).1
serve_call env actor (adds_candidate id input) s = (add_candidate env actor id input s).1
serve_call env actor (completes_run id input) s = (complete_run env actor id input s).1
serve_call env actor (cancels id) s = (cancel env actor id s).1
serve_call env actor (recovers id) s = (recover env actor id s).1

unfoldable pub serve : Request → Store → Store
unfolding serve_call
serve r s = serve_call r.env r.actor r.call s

unfoldable pub serve_all : List Request → Store → Store
serve_all [] s = s
serve_all (r ∷ rs) s = serve_all rs (serve r s)
