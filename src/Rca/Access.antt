-- ===== src/Rca/Access.antt =====
-- Who sees what: `GetRun` and `authorizeRun`, and the evidence that `ListEvidence` answers.
use adbcops.Common.Members.{ℕ_eq, mem}
use adbcops.Common.{
  Result, ==_iff, Option-cases, ◌&&◌, ℕ, ◌≡◌, refl, subst, ap, Bool, true, false, Option, some,
  none, List, [], ◌∷◌, map, arith, inl, inr, Bool-cases, All, keep, ok, err, ◌==◌, ltb,
}
use adbcops.Rca.Store.{Error, Run, Evidence, Store, find}
use adbcops.Common.Listing.{All-sort_by}
use adbcops.Rca.Repository.{
  of_run, evidence_before, list_evidence, mark_timed_out, time_out_run, is_overdue,
}
use adbcops.Rca.Inputs.{Actor, Env, is_admin, allowed_data_sources}
use adbcops.Rca.Service.{get_run}
use adbcops.Rca.Actions.{accessible, accessible_evidence}
use adbcops.Rca.Effects.{run_key}
use adbcops.Rca.Tables.{found_key, found_has, All-imp}

-- A run whose deadline has passed is neither pending nor running.
abbrev pub NotOverdue : ℕ → Run → Type 0
NotOverdue now r = is_overdue now r ≡ false

time_out_run-NotOverdue : (now : ℕ) (r : Run) → NotOverdue now (time_out_run now r)
unfolding time_out_run
time_out_run-NotOverdue now r = elim (Bool-cases (is_overdue now r)) [
  | inl e ↦ rw e refl
  | inr e ↦ rw e e
]

pub mark-NotOverdue : (now : ℕ) (s : Store) → All (NotOverdue now) (mark_timed_out now s).runs
unfolding mark_timed_out
mark-NotOverdue now s = go s.runs
  where
    go : (runs : List Run) → All (NotOverdue now) (map (time_out_run now) runs)
    go [] = tt
    go (r ∷ runs) = (time_out_run-NotOverdue now r, go runs)

-- A run that `GetRun` answers is the one that was asked for, is stored, belongs to the caller
-- unless he is an admin, and is not past its deadline while it is pending or running.
pub get_run_lem :
    (env : Env) (actor : Actor) (id : ℕ) (s : Store) (run : Run)
    → (get_run env (some actor) id s).0 ≡ ok run
    → (run.id ≡ id)
      × (find run_key id (get_run env (some actor) id s).1.runs ≡ some run)
      × (is_admin actor.role ≡ false → run.user_id ≡ actor.id)
      × NotOverdue env.now run
unfolding get_run
get_run_lem env actor id s run e = elim (Bool-cases (ltb 0 id)) [
  | inr z ↦ absurd (ground arith)
  | inl z ↦ elim (Option-cases (find run_key id (mark_timed_out env.now s).runs)) [
    | inl missing ↦ absurd (ground arith)
    | inr (found_run, has) ↦ ground (
      arith,
      found_key run_key id (mark_timed_out env.now s).runs found_run has,
      found_has run_key (NotOverdue env.now) id (mark_timed_out env.now s).runs found_run has
          (mark-NotOverdue env.now s),
      ==_iff found_run.user_id actor.id,
    )
  ]
]

-- Evidence of the run; unless the caller is an admin, his own, and from no source or from one that
-- he may read.
abbrev pub Visible : Env → Actor → ℕ → Evidence → Type 0
Visible env actor run_id e =
    (e.rca_run_id ≡ some run_id)
    × (is_admin actor.role ≡ false
        → (e.owner_user_id ≡ some actor.id)
          × ((id : ℕ)
              → e.data_source_id ≡ some id
              → (ids : List ℕ) × (allowed_data_sources env actor ≡ ok ids) × (mem id ids ≡ true)))

keep-All :
    {A : Type 0} (P : A → Type 0) (b : A → Bool) (xs : List A)
    → ((x : A) → b x ≡ true → P x)
    → All P (keep b xs)
keep-All P b [] h = tt
keep-All P b (x ∷ xs) h = elim (Bool-cases (b x)) [
  | inl e ↦ rw e (h x e, keep-All P b xs h)
  | inr e ↦ rw e (keep-All P b xs h)
]

owned : Actor → Option ℕ → Bool
owned actor none = false
owned actor (some owner) = owner == actor.id

of_run-id : (run_id : ℕ) (e : Evidence) → of_run run_id e ≡ true → e.rca_run_id ≡ some run_id
of_run-id run_id e h = go e.rca_run_id h
  where
    go :
        (o : Option ℕ)
        → elim o as (λ _. Bool) [ none ↦ false | some r ↦ r == run_id ] ≡ true
        → o ≡ some run_id
    go none h = absurd cc
    go (some r) h = ap some ((==_iff r run_id).0 h)

owner_of :
    (actor : Actor) (o : Option ℕ)
    → elim o as (λ _. Bool) [ none ↦ false | some owner ↦ owner == actor.id ] ≡ true
    → o ≡ some actor.id
owner_of actor none h = absurd cc
owner_of actor (some r) h = ap some ((==_iff r actor.id).0 h)

and_both : (a b : Bool) → (a && b) ≡ true → (a ≡ true) × (b ≡ true)
and_both a b h = ground arith

source_of :
    (allowed : List ℕ) (id : ℕ) (o : Option ℕ)
    → elim o as (λ _. Bool) [ none ↦ true | some k ↦ mem k allowed ] ≡ true
    → o ≡ some id
    → mem id allowed ≡ true
source_of allowed id o h e =
    subst (λ (x : Option ℕ). elim x as (λ _. Bool) [ none ↦ true | some k ↦ mem k allowed ] ≡ true)
      e h

keep-imp :
    (P Q : Evidence → Type 0) (a : Evidence → Bool) (xs : List Evidence)
    → ((x : Evidence) → a x ≡ true → Q x → P x)
    → All Q xs
    → All P (keep a xs)
keep-imp P Q a [] h q = tt
keep-imp P Q a (x ∷ xs) h q = elim (Bool-cases (a x)) [
  | inr f ↦ rw f (keep-imp P Q a xs h q.1)
  | inl f ↦ rw f (h x f q.0, keep-imp P Q a xs h q.1)
]

-- The listed evidence is of the run.
list_evidence-own :
    (run_id : ℕ) (s : Store)
    → All (λ (x : Evidence). x.rca_run_id ≡ some run_id) (list_evidence run_id s)
unfolding list_evidence
list_evidence-own run_id s = All-sort_by evidence_before _ _ (
    keep-All (λ (x : Evidence). x.rca_run_id ≡ some run_id) (of_run run_id) s.evidence
      (of_run-id run_id))

-- The evidence that passes for a caller who is no admin.
filtered :
    (actor : Actor) (ev answer : List Evidence) (r : Result Error (List ℕ))
    → (elim r as (λ _. Result Error (List Evidence)) [
      | err e ↦ err e
      | ok allowed ↦ ok (keep (accessible actor allowed) ev)
    ])
      ≡ ok answer
    → (allowed : List ℕ) × (r ≡ ok allowed) × (keep (accessible actor allowed) ev ≡ answer)
filtered actor ev answer (err x) e = absurd cc
filtered actor ev answer (ok allowed) e = (allowed, refl, cc)

-- `ListEvidence` answers evidence of the run only, and to a caller who is no admin only what he
-- owns and whose data source, if any, is one that he may read.
pub accessible_evidence-Visible :
    (env : Env) (actor : Actor) (run_id : ℕ) (s : Store) (answer : List Evidence)
    → accessible_evidence env actor run_id s ≡ ok answer
    → All (Visible env actor run_id) answer
unfolding accessible_evidence
accessible_evidence-Visible env actor run_id s answer e = elim (Bool-cases (is_admin actor.role)) [
  | inl admin ↦ subst (All (Visible env actor run_id)) (ground arith) (
      All-imp _ (Visible env actor run_id) (list_evidence run_id s)
        (λ x own. (own, λ plain. absurd cc)) (list_evidence-own run_id s))
  | inr plain ↦
      let (allowed, known, kept) =
        filtered actor (list_evidence run_id s) answer (allowed_data_sources env actor)
          (ground arith) in
      subst (All (Visible env actor run_id)) kept (
        keep-imp (Visible env actor run_id) _ (accessible actor allowed) (list_evidence run_id s)
          (λ x may own. (
            own,
            λ _.
                let (mine, source) = and_both _ _ may in
                (
                  owner_of actor x.owner_user_id mine,
                  λ id at. (allowed, known, source_of allowed id x.data_source_id source at),
                ),
          ))
          (list_evidence-own run_id s))
]
