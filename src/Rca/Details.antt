-- ===== src/Rca/Details.antt =====
-- The listings of a run and its details (backend/internal/rca/service.go): `ListRounds`,
-- `ListActions` and `GetDetail`.
use adbcops.Common.{
  subst, ap, ℕ, ◌≡◌, refl, false, Option, some, List, [], ◌∷◌, Result, ok, err, keep, All, inl, inr,
  Bool-cases, ◌==◌, ==_iff,
}
use adbcops.Rca.Store.{
  find, Error, Run, Round, Action, Evidence, Candidate, Store, Exec, ◌>>=◌, continue, gets,
}
use adbcops.Common.Listing.{All-sort_by}
use adbcops.Rca.Repository.{
  list_rounds, list_actions, list_candidates, round_before, action_before, candidate_before,
}
use adbcops.Rca.Inputs.{Actor, Env, is_admin}
use adbcops.Rca.Service.{get_run}
use adbcops.Rca.Actions.{accessible_evidence}
use adbcops.Rca.Effects.{run_key}
use adbcops.Rca.Access.{NotOverdue, Visible, get_run_lem, accessible_evidence-Visible}

pub record Detail : Type 0 where
  pub run : Run
  pub rounds : List Round
  pub actions : List Action
  pub evidence : List Evidence
  pub candidates : List Candidate

unfoldable pub list_run_rounds : Env → Option Actor → ℕ → Exec (List Round)
unfolding get_run list_rounds
list_run_rounds env actor run_id = do _ ← get_run env actor run_id; gets (list_rounds run_id)

unfoldable pub list_run_actions : Env → Option Actor → ℕ → Exec (List Action)
unfolding get_run list_actions
list_run_actions env actor run_id = do _ ← get_run env actor run_id; gets (list_actions run_id)

-- The records that `GetDetail` puts together, once the evidence is listed.
abbrev pub detail_with : Run → ℕ → Store → Result Error (List Evidence) → Result Error Detail
detail_with run run_id s (err e) = err e
detail_with run run_id s (ok evidence) = ok (record {
  run = run;
  rounds = list_rounds run_id s;
  actions = list_actions run_id s;
  evidence = evidence;
  candidates = list_candidates run_id s;
})

unfoldable pub get_detail : Env → Actor → ℕ → Exec Detail
unfolding get_run accessible_evidence
get_detail env actor run_id = do
  run ← get_run env (some actor) run_id
  λ s. (detail_with run run_id s (accessible_evidence env actor run_id s), s)

-- All of the detail is of the run, and its evidence is what the caller may see.
abbrev pub IsDetail : Env → Actor → ℕ → Detail → Type 0
IsDetail env actor run_id d =
    (d.run.id ≡ run_id)
    × (is_admin actor.role ≡ false → d.run.user_id ≡ actor.id)
    × All (λ (r : Round). r.run_id ≡ run_id) d.rounds
    × All (λ (a : Action). a.run_id ≡ run_id) d.actions
    × All (λ (c : Candidate). c.run_id ≡ run_id) d.candidates
    × All (Visible env actor run_id) d.evidence

keep_equal :
    {A : Type 0} (field : A → ℕ) (k : ℕ) (xs : List A)
    → All (λ (x : A). field x ≡ k) (keep (λ x. field x == k) xs)
keep_equal field k [] = tt
keep_equal field k (x ∷ xs) = elim (Bool-cases (field x == k)) [
  | inl e ↦ rw e ((==_iff (field x) k).0 e, keep_equal field k xs)
  | inr e ↦ rw e (keep_equal field k xs)
]

-- `GetDetail` answers the run that was asked for only to its owner or an admin, and with it
-- rounds, actions and candidates of that run only, and evidence of that run that the caller may see.
pub get_detail-IsDetail :
    (env : Env) (actor : Actor) (run_id : ℕ) (s : Store) (d : Detail)
    → (get_detail env actor run_id s).0 ≡ ok d
    → IsDetail env actor run_id d
unfolding get_detail
get_detail-IsDetail env actor run_id s d e = go (get_run env (some actor) run_id s) refl e
  where
    after :
        (run : Run) (t : Store) (evidence : Result Error (List Evidence))
        → (get_run env (some actor) run_id s) ≡ (ok run, t)
        → accessible_evidence env actor run_id t ≡ evidence
        → detail_with run run_id t evidence ≡ ok d
        → IsDetail env actor run_id d
    after run t (err x) g a e = absurd cc
    after run t (ok evidence) g a e = subst (IsDetail env actor run_id) same (
      run_facts.0,
      run_facts.2,
      unfold list_rounds in
          All-sort_by round_before _ _ (keep_equal (λ (r : Round). r.run_id) run_id t.rounds),
      unfold list_actions in
          All-sort_by action_before _ _ (keep_equal (λ (a : Action). a.run_id) run_id t.actions),
      unfold list_candidates in
          All-sort_by candidate_before _ _
            (keep_equal (λ (c : Candidate). c.run_id) run_id t.candidates),
      accessible_evidence-Visible env actor run_id t evidence a,
    )
      where
        same :
            record {
              run = run;
              rounds = list_rounds run_id t;
              actions = list_actions run_id t;
              evidence = evidence;
              candidates = list_candidates run_id t;
            }
            ≡ d
        same = cc

        run_facts :
            (run.id ≡ run_id)
            × (find run_key run_id (get_run env (some actor) run_id s).1.runs ≡ some run)
            × (is_admin actor.role ≡ false → run.user_id ≡ actor.id)
            × NotOverdue env.now run
        run_facts =
            get_run_lem env actor run_id s run (ap (λ (p : Result Error Run × Store). p.0) g)

    go :
        (r : Result Error Run × Store)
        → get_run env (some actor) run_id s ≡ r
        → (continue r.0
            (λ run s. (detail_with run run_id s (accessible_evidence env actor run_id s), s))
            r.1).0
          ≡ ok d
        → IsDetail env actor run_id d
    go (err x, t) g e = absurd cc
    go (ok run, t) g e = after run t (accessible_evidence env actor run_id t) g refl e
