-- ===== src/Rca/Hypotheses.antt =====
-- What the rounds of a run store of the hypotheses and of the next actions that `StartRound` and
-- `CompleteRound` are given (backend/internal/rca/service.go).
use adbcops.Common.{ℕ, Bool, true, false, List, All}
use adbcops.Common.Members.{ℕ_eq, Subset}
use adbcops.Rca.Store.{Hypothesis, Round, Evidence, Store}
use adbcops.Rca.Order.{InOrder}
use adbcops.Rca.Backing.{AllBacked, run_evidence}
use adbcops.Rca.Normal.{Normalized, NormalAction}

-- A hypothesis that a round of the run stores: normalised, and all of its evidence is the run's.
abbrev pub Grounded : List Evidence → ℕ → Bool → Hypothesis → Type 0
Grounded ev run_id require_evidence h =
    Normalized require_evidence h × Subset h.evidence_ids (run_evidence run_id ev)

-- The documents of a round.
abbrev pub NormalRound : List Evidence → Round → Type 0
NormalRound ev r =
    All (Grounded ev r.run_id false) r.input_hypotheses
    × All (Grounded ev r.run_id true) r.rejected_hypotheses
    × All NormalAction r.next_actions

-- The rounds with what the invariant rests on: the ids of the rounds and those of the evidence.
pub record Documented (s : Store) : Type 0 where
  pub ordered : InOrder s
  pub backed : AllBacked s
  pub rounds : All (NormalRound s.evidence) s.rounds

abbrev Rounds : Store → Type 0
Rounds s = All (NormalRound s.evidence) s.rounds
