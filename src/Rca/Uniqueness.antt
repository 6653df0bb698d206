-- ===== src/Rca/Uniqueness.antt =====
-- One action for each key of a run (`CreateAction` and the constraint UNIQUE(run_id, action_key)),
-- whatever the requests, and what a repeated `CreateAction` gives.
use adbcops.Common.{
  ℕ, ◌≡◌, refl, sym, subst, ap, ◌∙◌, Bool, true, false, List, [], ◌∷◌, map, arith, if◌then◌else◌,
  any, ◌==◌, String,
}
use adbcops.Rca.Store.{Action, Store, update, empty}
use adbcops.Rca.Repository.{
  same_action, action_values, mark_timed_out, time_out_action, overdue_ids,
}
use adbcops.Rca.Inputs.{Env}
use adbcops.Rca.Effects.{action_key}
use adbcops.Rca.Loops.{update_each}
use adbcops.Rca.Requests.{Request, serve_all}
use adbcops.Rca.Writes.{
  Write, nothing, run_created, round_started, round_ended, action_created, action_started,
  action_ended, evidence_added, candidate_added, run_ended, run_cancelled, run_recovered,
}
use adbcops.Rca.Serving.{serve_all_induction}

-- No two actions of a run have the same key.
abbrev pub KeysUnique : List Action → Type 0
KeysUnique [] = Unit
KeysUnique (a ∷ xs) = (any (same_action a.run_id a.action_key) xs ≡ false) × KeysUnique xs

abbrev pub ActionsUnique : Store → Type 0
ActionsUnique s = KeysUnique s.actions

-- A change of the rows that leaves run and key.
abbrev Stays : (Action → Action) → Type 0
Stays f = (a : Action) → ((f a).run_id ≡ a.run_id) × ((f a).action_key ≡ a.action_key)

any-map :
    (f : Action → Action) (run_id : ℕ) (key : String) (xs : List Action)
    → Stays f
    → any (same_action run_id key) (map f xs) ≡ any (same_action run_id key) xs
any-map f run_id key [] h = refl
any-map f run_id key (a ∷ xs) h = rw ((h a).0, (h a).1, any-map f run_id key xs h) refl

KeysUnique-map :
    (f : Action → Action) (xs : List Action) → Stays f → KeysUnique xs → KeysUnique (map f xs)
KeysUnique-map f [] h u = tt
KeysUnique-map f (a ∷ xs) h u =
    rw ((h a).0, (h a).1) (any-map f a.run_id a.action_key xs h ∙ u.0, KeysUnique-map f xs h u.1)

-- An update is a map that tests the id.
update-map :
    (f : Action → Action) (k : ℕ) (xs : List Action)
    → update action_key k f xs ≡ map (λ (a : Action). if a.id == k then f a else a) xs
unfolding update
update-map f k [] = refl
update-map f k (a ∷ xs) = ap (λ l. (if a.id == k then f a else a) ∷ l) (update-map f k xs)

KeysUnique-update :
    (f : Action → Action) (k : ℕ) (xs : List Action)
    → Stays f
    → KeysUnique xs
    → KeysUnique (update action_key k f xs)
KeysUnique-update f k xs h u =
    subst KeysUnique (sym (update-map f k xs)) (KeysUnique-map _ xs (λ a. stays a (a.id == k)) u)
  where
    stays :
        (a : Action) (b : Bool)
        → ((if b then f a else a).run_id ≡ a.run_id)
          × ((if b then f a else a).action_key ≡ a.action_key)
    stays a true = h a
    stays a false = (refl, refl)

KeysUnique-update_each :
    (test : Action → Bool) (f : Action → Action → Action) (l xs : List Action)
    → ((x : Action) → Stays (f x))
    → KeysUnique xs
    → KeysUnique (update_each action_key test f l xs)
unfolding update_each
KeysUnique-update_each test f [] xs h u = u
KeysUnique-update_each test f (x ∷ l) xs h u = KeysUnique-update_each test f l _ h (step (test x))
  where
    step : (b : Bool) → KeysUnique (if b then update action_key (action_key x) (f x) xs else xs)
    step true = KeysUnique-update (f x) (action_key x) xs (h x) u
    step false = u

Write-ActionsUnique : (env : Env) (s t : Store) → Write env s t → ActionsUnique s → ActionsUnique t
unfolding action_values
Write-ActionsUnique env s t (nothing eq) u = subst ActionsUnique (sym eq) u
Write-ActionsUnique env s t (run_created _ _ _ eq) u = subst ActionsUnique (sym eq) u
Write-ActionsUnique env s t (round_started _ _ _ _ _ _ _ eq) u = subst ActionsUnique (sym eq) u
Write-ActionsUnique env s t (round_ended _ _ _ _ _ _ _ _ eq) u = subst ActionsUnique (sym eq) u
Write-ActionsUnique env s t (action_created _ _ _ _ _ fresh eq) u =
    subst ActionsUnique (sym eq) (fresh, u)
Write-ActionsUnique env s t (action_started action_id _ _ _ _ eq) u =
    subst ActionsUnique (sym eq) (KeysUnique-update _ action_id s.actions (λ _. (refl, refl)) u)
Write-ActionsUnique env s t (action_ended action_id _ _ _ _ _ eq) u =
    subst ActionsUnique (sym eq) (KeysUnique-update _ action_id s.actions (λ _. (refl, refl)) u)
Write-ActionsUnique env s t (evidence_added _ _ eq) u = subst ActionsUnique (sym eq) u
Write-ActionsUnique env s t (candidate_added _ _ _ _ _ eq) u = subst ActionsUnique (sym eq) u
Write-ActionsUnique env s t (run_ended _ _ _ _ _ _ eq) u = subst ActionsUnique (sym eq) u
Write-ActionsUnique env s t (run_cancelled _ _ _ eq) u =
    subst ActionsUnique (sym eq) (KeysUnique-update_each _ _ _ s.actions (λ _ _. (refl, refl)) u)
Write-ActionsUnique env s t (run_recovered _ _ _ eq) u =
    subst ActionsUnique (sym eq) (KeysUnique-update_each _ _ _ s.actions (λ _ _. (refl, refl)) u)

mark-ActionsUnique : (now : ℕ) (s : Store) → ActionsUnique s → ActionsUnique (mark_timed_out now s)
unfolding mark_timed_out
mark-ActionsUnique now s u =
    KeysUnique-map (time_out_action now (overdue_ids now s)) s.actions
      (stays now (overdue_ids now s)) u
  where
    stays : (now : ℕ) (ids : List ℕ) → Stays (time_out_action now ids)
    stays now ids a = unfold time_out_action in ground arith

-- Whatever requests the service has served, no two actions of a run have the same key.
pub serve_all-ActionsUnique : (rs : List Request) → ActionsUnique (serve_all rs empty)
serve_all-ActionsUnique rs =
    serve_all_induction ActionsUnique mark-ActionsUnique Write-ActionsUnique rs empty tt
