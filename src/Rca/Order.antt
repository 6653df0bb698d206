-- ===== src/Rca/Order.antt =====
-- The ids of the rows: every write of the RCA service keeps each table's ids distinct and below
-- the next one that its sequence gives.
use adbcops.Common.{
  true, false, ℕ, ◌≡◌, refl, sym, subst, Bool, List, [], ◌∷◌, map, arith, if◌then◌else◌,
}
use adbcops.Rca.Status.{partial_success, is_partial_success}
use adbcops.Rca.Store.{Run, Round, Action, Store, update, next_id, Below, empty}
use adbcops.Rca.Tables.{next_id-update, next_id-map, Below-update, Below-map}
use adbcops.Rca.Repository.{
  run_values, run_updates, round_values, action_values, mark_timed_out, time_out_run,
  time_out_round, time_out_action, overdue_ids,
}
use adbcops.Rca.Inputs.{Env}
use adbcops.Rca.Effects.{run_key, round_key, action_key}
use adbcops.Rca.Loops.{update_each}
use adbcops.Rca.Requests.{Request, serve_all}
use adbcops.Rca.Writes.{
  Write, nothing, run_created, round_started, round_ended, action_created, action_started,
  action_ended, evidence_added, candidate_added, run_ended, run_cancelled, run_recovered,
}
use adbcops.Rca.Serving.{serve_all_induction}

-- The ids of a table fall strictly from the next one.
abbrev pub Ordered : {A : Type 0} → (A → ℕ) → List A → Type 0
Ordered key xs = Below key (next_id key xs) xs

pub record InOrder (s : Store) : Type 0 where
  pub runs : Ordered run_key s.runs
  pub rounds : Ordered round_key s.rounds
  pub actions : Ordered action_key s.actions

module _ {A : Type 0} (key : A → ℕ) where
  Ordered-cons :
      (x : A) (xs : List A) → key x ≡ next_id key xs → Ordered key xs → Ordered key (x ∷ xs)
  unfolding next_id
  Ordered-cons x xs e h = (omega arith, subst (λ n. Below key n xs) (sym e) h)

  Ordered-update :
      (f : A → A)
      → ((x : A) → key (f x) ≡ key x)
      → (k : ℕ) (xs : List A) → Ordered key xs
      → Ordered key (update key k f xs)
  Ordered-update f same k xs h =
      rw (next_id-update key f same k xs) (Below-update key f same k _ xs h)

  Ordered-map :
      (f : A → A)
      → ((x : A) → key (f x) ≡ key x)
      → (xs : List A) → Ordered key xs
      → Ordered key (map f xs)
  Ordered-map f same xs h = rw (next_id-map key f same xs) (Below-map key f same _ xs h)

  Ordered-update_each :
      (test : A → Bool) (f : A → A → A)
      → ((x y : A) → key (f x y) ≡ key y)
      → (l xs : List A) → Ordered key xs
      → Ordered key (update_each key test f l xs)
  unfolding update_each
  Ordered-update_each test f same [] xs h = h
  Ordered-update_each test f same (x ∷ l) xs h = Ordered-update_each test f same l _ (step (test x))
    where
      step : (b : Bool) → Ordered key (if b then update key (key x) (f x) xs else xs)
      step true = Ordered-update (f x) (same x) (key x) xs h
      step false = h

pub time_out_run-id : (now : ℕ) (r : Run) → (time_out_run now r).id ≡ r.id
unfolding time_out_run
time_out_run-id now r = ground arith

time_out_round-id : (now : ℕ) (ids : List ℕ) (r : Round) → (time_out_round now ids r).id ≡ r.id
unfolding time_out_round
time_out_round-id now ids r = ground arith

time_out_action-id : (now : ℕ) (ids : List ℕ) (a : Action) → (time_out_action now ids a).id ≡ a.id
unfolding time_out_action
time_out_action-id now ids a = ground arith

pub mark-InOrder : (now : ℕ) (s : Store) → InOrder s → InOrder (mark_timed_out now s)
unfolding mark_timed_out
mark-InOrder now s h = record {
  runs = Ordered-map run_key (time_out_run now) (time_out_run-id now) s.runs h.runs;
  rounds =
      Ordered-map round_key (time_out_round now (overdue_ids now s))
        (time_out_round-id now (overdue_ids now s)) s.rounds h.rounds;
  actions =
      Ordered-map action_key (time_out_action now (overdue_ids now s))
        (time_out_action-id now (overdue_ids now s)) s.actions h.actions;
}

pub Write-InOrder : (env : Env) (s t : Store) → Write env s t → InOrder s → InOrder t
unfolding run_values round_values action_values
Write-InOrder env s t (nothing eq) h = subst InOrder (sym eq) h
Write-InOrder env s t (run_created _ _ _ eq) h = subst InOrder (sym eq) (record {
  runs = Ordered-cons run_key _ s.runs refl h.runs;
  rounds = h.rounds;
  actions = h.actions;
})
Write-InOrder env s t (round_started _ run _ _ _ _ _ eq) h = subst InOrder (sym eq) (record {
  runs = Ordered-update run_key _ (λ _. refl) run.id s.runs h.runs;
  rounds = Ordered-cons round_key _ s.rounds refl h.rounds;
  actions = h.actions;
})
Write-InOrder env s t (round_ended round_id input run _ _ _ _ _ eq) h =
    subst InOrder (sym eq) (record {
      runs = reopened (is_partial_success input.status);
      rounds = Ordered-update round_key _ (λ _. refl) round_id s.rounds h.rounds;
      actions = h.actions;
    })
  where
    reopened :
        (b : Bool)
        → Ordered run_key (
            if b
            then update run_key run.id (run_values (run_updates partial_success)) s.runs
            else s.runs)
    reopened true = Ordered-update run_key _ (λ _. refl) run.id s.runs h.runs
    reopened false = h.runs
Write-InOrder env s t (action_created _ _ _ _ _ _ eq) h = subst InOrder (sym eq) (record {
  runs = h.runs;
  rounds = h.rounds;
  actions = Ordered-cons action_key _ s.actions refl h.actions;
})
Write-InOrder env s t (action_started action_id _ _ _ _ eq) h = subst InOrder (sym eq) (record {
  runs = h.runs;
  rounds = h.rounds;
  actions = Ordered-update action_key _ (λ _. refl) action_id s.actions h.actions;
})
Write-InOrder env s t (action_ended action_id _ _ _ _ _ eq) h = subst InOrder (sym eq) (record {
  runs = h.runs;
  rounds = h.rounds;
  actions = Ordered-update action_key _ (λ _. refl) action_id s.actions h.actions;
})
Write-InOrder env s t (evidence_added _ _ eq) h =
    subst InOrder (sym eq) (record { runs = h.runs; rounds = h.rounds; actions = h.actions })
Write-InOrder env s t (candidate_added _ _ _ _ _ eq) h =
    subst InOrder (sym eq) (record { runs = h.runs; rounds = h.rounds; actions = h.actions })
Write-InOrder env s t (run_ended _ run _ _ _ _ eq) h = subst InOrder (sym eq) (record {
  runs = Ordered-update run_key _ (λ _. refl) run.id s.runs h.runs;
  rounds = h.rounds;
  actions = h.actions;
})
Write-InOrder env s t (run_cancelled run _ _ eq) h = subst InOrder (sym eq) (record {
  runs = Ordered-update run_key _ (λ _. refl) run.id s.runs h.runs;
  rounds = Ordered-update_each round_key _ _ (λ _ _. refl) _ s.rounds h.rounds;
  actions = Ordered-update_each action_key _ _ (λ _ _. refl) _ s.actions h.actions;
})
Write-InOrder env s t (run_recovered run _ _ eq) h = subst InOrder (sym eq) (record {
  runs = Ordered-update run_key _ (λ _. refl) run.id s.runs h.runs;
  rounds = Ordered-update_each round_key _ _ (λ _ _. refl) _ s.rounds h.rounds;
  actions = Ordered-update_each action_key _ _ (λ _ _. refl) _ s.actions h.actions;
})

-- The ids of the tables stay in order.
pub serve_all-InOrder : (rs : List Request) → InOrder (serve_all rs empty)
serve_all-InOrder rs =
    serve_all_induction InOrder mark-InOrder Write-InOrder rs empty
      (record { runs = tt; rounds = tt; actions = tt })
