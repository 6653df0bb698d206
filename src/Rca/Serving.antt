-- ===== src/Rca/Serving.antt =====
-- Every request of the RCA service as one of a few writes, after the overdue runs have been timed
-- out. An invariant of the store then needs one case for each write.
use adbcops.Common.{
  ℕ, ltb, ◌≡◌, refl, sym, subst, inl, inr, not, ◌&&◌, ◌||◌, Option, none, some, List, [], ◌∷◌,
  Result, ok, err, arith, length, Option-cases, Bool-cases,
}
use adbcops.Rca.Store.{pure, Error, Run, Store, find, Exec, continue, ◌>>=◌}
use adbcops.Rca.Tables.{found_key}
use adbcops.Rca.Repository.{mark_timed_out}
use adbcops.Rca.Inputs.{
  Actor, Env, Hypothesis, is_blank, out_of_unit, CreateRunInput, CompleteRoundInput,
  CreateActionInput, CompleteActionInput, CreateEvidenceInput, CreateCandidateInput,
  CompleteRunInput, unique_ids,
}
use adbcops.Rca.Service.{
  authorized, get_run, create_run, start_round_of, complete_round_of, start_round, complete_round,
}
use adbcops.Rca.Lifecycle.{complete_run_of, cancel_of, recover_of, complete_run, cancel, recover}
use adbcops.Rca.Actions.{
  create_action_of, start_action_of, complete_action_of, add_candidate_of, create_action,
  start_action, complete_action, add_evidence, add_evidence_by, add_evidence_with, add_candidate,
}
use adbcops.Rca.Requests.{
  Request, Call, creates_run, gets_run, starts_round, completes_round as completes_round_call,
  creates_action, starts_action, completes_action, adds_evidence, adds_candidate, completes_run,
  cancels, recovers, serve, serve_all, serve_call,
}
use adbcops.Rca.Effects.{
  run_key, create_run_effect, start_round_of_effect, complete_round_of_effect,
  create_action_of_effect, start_action_of_effect, complete_action_of_effect,
  add_evidence_of_effect, add_candidate_of_effect, complete_run_of_effect,
}
use adbcops.Rca.Endings.{cancel_of_effect, recover_of_effect}
use adbcops.Rca.Writes.{
  Found, Write, Served, nothing, run_created, round_started, round_ended, action_created,
  action_started, action_ended, evidence_added, candidate_added, run_ended, run_cancelled,
  run_recovered, at_once, after_mark,
}

found_self :
    (run : Run) (id : ℕ) (runs : List Run)
    → find run_key id runs ≡ some run
    → find run_key run.id runs ≡ some run
found_self run id runs e =
    subst (λ k. find run_key k runs ≡ some run) (sym (found_key run_key id runs run e)) e

-- What follows `GetRun` in an operation is served after the mark.
get_then :
    {A : Type 0} (env : Env) (actor : Option Actor) (id : ℕ) (f : Run → Exec A) (s : Store)
    → ((run : Run) (m : Store) → Found run m → Write env m (f run m).1)
    → Served env s ((get_run env actor id >>= f) s).1
unfolding get_run
get_then env none id f s w = at_once (nothing refl)
get_then env (some actor) id f s w = elim (Bool-cases (ltb 0 id)) [
  | inr e ↦ rw e (at_once (nothing refl))
  | inl e ↦ rw e (
      after_mark (elim (Option-cases (find run_key id (mark_timed_out env.now s).runs)) [
        | inl none_found ↦ rw none_found (nothing refl)
        | inr (run, has) ↦ rw has (elim (Bool-cases (authorized actor run)) [
          | inr stranger ↦ rw stranger (nothing refl)
          | inl known ↦ rw known (
              w run (mark_timed_out env.now s)
                (found_self run id (mark_timed_out env.now s).runs has))
        ])
      ]))
]

-- What follows `GetRun`, if the operation succeeds.
pub get_ok :
    {A : Type 0} (env : Env) (actor : Option Actor) (id : ℕ) (f : Run → Exec A) (s : Store) (a : A)
    (P : Store → Type 0)
    → ((run : Run)
        → Found run (mark_timed_out env.now s)
        → run.id ≡ id
        → (f run (mark_timed_out env.now s)).0 ≡ ok a
        → P (f run (mark_timed_out env.now s)).1)
    → ((get_run env actor id >>= f) s).0 ≡ ok a
    → P ((get_run env actor id >>= f) s).1
unfolding get_run
get_ok env none id f s a P w e = absurd cc
get_ok env (some actor) id f s a P w e = elim (Bool-cases (ltb 0 id)) [
  | inr z ↦ absurd (ground arith)
  | inl z ↦ elim (Option-cases (find run_key id (mark_timed_out env.now s).runs)) [
    | inl missing ↦ absurd (ground arith)
    | inr (run, has) ↦ elim (Bool-cases (authorized actor run)) [
      | inr stranger ↦ absurd (ground arith)
      | inl known ↦ ground (
        arith,
        w run (found_self run id (mark_timed_out env.now s).runs has)
            (found_key run_key id (mark_timed_out env.now s).runs run has),
      )
    ]
  ]
]

continue_state : {A : Type 0} (r : Result Error A) (s : Store) → (continue r pure s).1 ≡ s
continue_state (ok a) s = refl
continue_state (err e) s = refl

module _ (env : Env) (actor : Option Actor) (s : Store) where
  create_run-Served : (input : CreateRunInput) → Served env s (create_run env actor input s).1
  create_run-Served input = go actor
    where
      go : (a : Option Actor) → Served env s (create_run env a input s).1
      go none = unfold create_run in at_once (nothing refl)
      go (some caller) = elim (create_run_effect env caller input s) [
        | inl same ↦ at_once (nothing same)
        | inr (e, _, _, eq) ↦ at_once (run_created caller input e eq)
      ]

  start_round-Served :
      (id : ℕ) (hs : List Hypothesis) → Served env s (start_round env actor id hs s).1
  unfolding start_round
  start_round-Served id hs = get_then env actor id (start_round_of env hs) s λ run m has.
      elim (start_round_of_effect env hs run m) [
        | inl same ↦ nothing same
        | inr (room, may, taken, belong, eq) ↦ round_started hs run has room may taken belong eq
      ]

  complete_round-Served :
      (id round_id : ℕ) (input : CompleteRoundInput)
      → Served env s (complete_round env actor id round_id input s).1
  unfolding complete_round
  complete_round-Served id round_id input =
      get_then env actor id (complete_round_of env round_id input) s λ run m has.
        elim (complete_round_of_effect env round_id input run m) [
          | inl same ↦ nothing same
          | inr (ends, taken, belong, next, eq) ↦
              round_ended round_id input run has ends taken belong next eq
        ]

  create_action-Served :
      (id : ℕ) (input : CreateActionInput) → Served env s (create_action env actor id input s).1
  unfolding create_action
  create_action-Served id input =
      elim (Bool-cases
        (not (is_blank input.action_key || is_blank input.skill_name) && ltb 0 input.round_id)) [
          | inr e ↦ rw e (at_once (nothing refl))
          | inl e ↦ rw e (
              get_then env actor id (create_action_of env input) s λ run m has.
                elim (create_action_of_effect env input run m) [
                  | inl same ↦ nothing same
                  | inr (live, round, fresh, eq) ↦ action_created input run has live round fresh eq
                ])
        ]

  start_action-Served : (id action_id : ℕ) → Served env s (start_action env actor id action_id s).1
  unfolding start_action
  start_action-Served id action_id =
      get_then env actor id (start_action_of env action_id) s λ run m has.
        elim (start_action_of_effect env action_id run m) [
          | inl same ↦ nothing same
          | inr (live, waits, eq) ↦ action_started action_id run has live waits eq
        ]

  complete_action-Served :
      (id action_id : ℕ) (input : CompleteActionInput)
      → Served env s (complete_action env actor id action_id input s).1
  unfolding complete_action
  complete_action-Served id action_id input =
      get_then env actor id (complete_action_of env action_id input) s λ run m has.
        elim (complete_action_of_effect env action_id input run m) [
          | inl same ↦ nothing same
          | inr (open_action, valid, eq) ↦ action_ended action_id input run has open_action valid eq
        ]

  add_candidate-Served :
      (id : ℕ) (input : CreateCandidateInput) → Served env s (add_candidate env actor id input s).1
  unfolding add_candidate
  add_candidate-Served id input =
      elim (Bool-cases (
        not (is_blank input.summary)
        && ltb 0 input.round_id
        && not (out_of_unit input.confidence))) [
          | inr e ↦ rw e (at_once (nothing refl))
          | inl e ↦ rw e (elim (Bool-cases (ltb 0 (length (unique_ids input.evidence_ids)))) [
            | inr none_given ↦ rw none_given (at_once (nothing refl))
            | inl some_given ↦ rw some_given (
                get_then env actor id (add_candidate_of env input) s λ run m has.
                  elim (add_candidate_of_effect env input run m) [
                    | inl same ↦ nothing same
                    | inr (belongs, eq) ↦ candidate_added input run has some_given belongs eq
                  ])
          ])
        ]

  complete_run-Served :
      (id : ℕ) (input : CompleteRunInput) → Served env s (complete_run env actor id input s).1
  unfolding complete_run
  complete_run-Served id input = get_then env actor id (complete_run_of env input) s λ run m has.
      elim (complete_run_of_effect env input run m) [
        | inl same ↦ nothing same
        | inr (valid, live, active, eq) ↦ run_ended input run has valid live active eq
      ]

  cancel-Served : (id : ℕ) → Served env s (cancel env actor id s).1
  unfolding cancel
  cancel-Served id = get_then env actor id (cancel_of env) s λ run m has.
      elim (cancel_of_effect env run m) [
        | inl same ↦ nothing same
        | inr (live, eq) ↦ run_cancelled run has live eq
      ]

  recover-Served : (id : ℕ) → Served env s (recover env actor id s).1
  unfolding recover
  recover-Served id = get_then env actor id recover_of s λ run m has.
      elim (recover_of_effect run m) [
        | inl same ↦ nothing same
        | inr (ended, eq) ↦ run_recovered run has ended eq
      ]

  add_evidence_by-Write :
      (accept : CreateEvidenceInput → Result Error (Unit {0})) (input : CreateEvidenceInput)
      (run : Run) (m : Store) (a : Option Actor)
      → Write env m (add_evidence_by env a accept input run m).1
  unfolding add_evidence_by
  add_evidence_by-Write accept input run m none = nothing refl
  add_evidence_by-Write accept input run m (some caller) =
      elim (add_evidence_of_effect env caller accept input run m) [
        | inl same ↦ nothing same
        | inr eq ↦ evidence_added _ refl eq
      ]

  add_evidence_with-Served :
      (id : ℕ) (input : CreateEvidenceInput)
      (service : Option (CreateEvidenceInput → Result Error (Unit {0})))
      → Served env s (add_evidence_with env actor id input service s).1
  unfolding add_evidence_with
  add_evidence_with-Served id input none = at_once (nothing refl)
  add_evidence_with-Served id input (some accept) =
      elim (Bool-cases (
        ltb 0 input.round_id
        && not (is_blank input.evidence_kind)
        && not (is_blank input.source_skill))) [
          | inr e ↦ rw e (at_once (nothing refl))
          | inl e ↦ rw e (
              get_then env actor id (add_evidence_by env actor accept input) s
                (λ run m _. add_evidence_by-Write accept input run m actor))
        ]

  add_evidence-Served :
      (id : ℕ) (input : CreateEvidenceInput) → Served env s (add_evidence env actor id input s).1
  unfolding add_evidence
  add_evidence-Served id input = add_evidence_with-Served id input env.accept_evidence

  get_run-Served : (id : ℕ) → Served env s (get_run env actor id s).1
  get_run-Served id =
      subst (Served env s) (continue_state (get_run env actor id s).0 (get_run env actor id s).1)
        (get_then env actor id pure s (λ run m _. nothing refl))

-- Every request makes one of the writes.
pub serve-Served : (r : Request) (s : Store) → Served r.env s (serve r s)
unfolding serve
serve-Served r s = go r.call
  where
    go : (c : Call) → Served r.env s (serve_call r.env r.actor c s)
    go (creates_run input) = create_run-Served r.env r.actor s input
    go (gets_run id) = get_run-Served r.env r.actor s id
    go (starts_round id hs) = start_round-Served r.env r.actor s id hs
    go (completes_round_call id round input) = complete_round-Served r.env r.actor s id round input
    go (creates_action id input) = create_action-Served r.env r.actor s id input
    go (starts_action id action) = start_action-Served r.env r.actor s id action
    go (completes_action id action input) = complete_action-Served r.env r.actor s id action input
    go (adds_evidence id input) = add_evidence-Served r.env r.actor s id input
    go (adds_candidate id input) = add_candidate-Served r.env r.actor s id input
    go (completes_run id input) = complete_run-Served r.env r.actor s id input
    go (cancels id) = cancel-Served r.env r.actor s id
    go (recovers id) = recover-Served r.env r.actor s id

-- What the timing out and every write keep holds after any requests.
pub serve_all_induction :
    (P : Store → Type 0)
    → ((now : ℕ) (s : Store) → P s → P (mark_timed_out now s))
    → ((env : Env) (s t : Store) → Write env s t → P s → P t)
    → (rs : List Request) (s : Store) → P s
    → P (serve_all rs s)
unfolding serve_all
serve_all_induction P km kw [] s h = h
serve_all_induction P km kw (r ∷ rs) s h =
    serve_all_induction P km kw rs (serve r s) (kept (serve-Served r s))
  where
    kept : Served r.env s (serve r s) → P (serve r s)
    kept (at_once w) = kw r.env s (serve r s) w h
    kept (after_mark w) = kw r.env (mark_timed_out r.env.now s) (serve r s) w (km r.env.now s h)
