-- ===== src/Rca/Outcomes.antt =====
-- What it takes for a run to end in success: `CompleteRun` asks for a candidate that is not
-- rejected, and no later write takes it away.
use adbcops.Common.{
  ◌&&◌, keep, ℕ, ◌<◌, ◌≡◌, refl, ap, sym, subst, ◌∙◌, Bool, true, false, List, [], ◌∷◌, arith,
  length, if◌then◌else◌, inl, inr, Bool-cases, All, Some, any, ◌==◌, ==_iff,
}
use adbcops.Common.Listing.{any-sort_by}
use adbcops.Common.Members.{ℕ_eq, Subset}
use adbcops.Rca.Status.{success, partial_success, is_success, is_partial_success}
use adbcops.Rca.Store.{Run, Evidence, Candidate, Store, update, empty}
use adbcops.Rca.Tables.{All-imp, All-map, All-update, All-update_at}
use adbcops.Rca.Repository.{
  candidate_before, RunUpdates, is_overdue, run_values, run_updates, list_candidates,
  mark_timed_out, time_out_run,
}
use adbcops.Rca.Inputs.{CompleteRunInput, Env}
use adbcops.Rca.Lifecycle.{is_active}
use adbcops.Rca.Effects.{run_key, run_end}
use adbcops.Rca.Requests.{Request, serve_all}
use adbcops.Rca.Writes.{
  Write, nothing, run_created, round_started, round_ended, action_created, action_started,
  action_ended, evidence_added, candidate_added, run_ended, run_cancelled, run_recovered,
}
use adbcops.Rca.Serving.{serve_all_induction}
use adbcops.Rca.Backing.{Backed, run_evidence, serve_all-AllBacked}

-- A run that ended in success has a candidate of its own that passes the test of `CompleteRun`.
abbrev Activated : List Candidate → Run → Type 0
Activated cs r =
    is_success r.status ≡ true → any (λ (c : Candidate). c.run_id == r.id && is_active c) cs ≡ true

abbrev AllActive : Store → Type 0
AllActive s = All (Activated s.candidates) s.runs

any_listed :
    (id : ℕ) (s : Store)
    → any is_active (list_candidates id s)
      ≡ any (λ (c : Candidate). c.run_id == id && is_active c) s.candidates
unfolding list_candidates
any_listed id s = any-sort_by candidate_before is_active _ ∙ go s.candidates
  where
    go :
        (cs : List Candidate)
        → any is_active (keep (λ (c : Candidate). c.run_id == id) cs)
          ≡ any (λ (c : Candidate). c.run_id == id && is_active c) cs
    go [] = refl
    go (c ∷ cs) = ground (arith, go cs)

time_out_run-Activated :
    (now : ℕ) (cs : List Candidate) (r : Run) → Activated cs r → Activated cs (time_out_run now r)
unfolding time_out_run
time_out_run-Activated now cs r h = elim (Bool-cases (is_overdue now r)) [
  | inl e ↦ rw e (λ s. absurd cc)
  | inr e ↦ rw e h
]

-- An update to a status that is no success.
moved-Activated :
    (u : RunUpdates) (k : ℕ) (s : Store)
    → is_success u.status ≡ false
    → AllActive s
    → All (Activated s.candidates) (update run_key k (run_values u) s.runs)
unfolding run_values
moved-Activated u k s e h =
    All-update run_key (Activated s.candidates) (run_values u) k s.runs (λ r _ q. absurd cc) h

ended-Activated :
    (env : Env) (input : CompleteRunInput) (id : ℕ) (x : Run) (s : Store)
    → (is_success input.status ≡ true → any is_active (list_candidates id s) ≡ true)
    → run_key x ≡ id
    → Activated s.candidates (run_values (run_end env input) x)
unfolding run_values
ended-Activated env input id x s active same q =
    subst (λ k. any (λ (c : Candidate). c.run_id == k && is_active c) s.candidates ≡ true)
      (sym same) (sym (any_listed id s) ∙ active q)

Write-AllActive : (env : Env) (s t : Store) → Write env s t → AllActive s → AllActive t
Write-AllActive env s t (nothing eq) h = subst AllActive (sym eq) h
Write-AllActive env s t (run_created _ _ _ eq) h = subst AllActive (sym eq) (λ q. absurd cc, h)
Write-AllActive env s t (round_started _ run _ _ _ _ _ eq) h =
    subst AllActive (sym eq) (moved-Activated _ run.id s refl h)
Write-AllActive env s t (round_ended round_id input run _ _ _ _ _ eq) h =
    subst AllActive (sym eq) (reopened (is_partial_success input.status))
  where
    reopened :
        (b : Bool)
        → All (Activated s.candidates) (
            if b
            then update run_key run.id (run_values (run_updates partial_success)) s.runs
            else s.runs)
    reopened true = moved-Activated _ run.id s refl h
    reopened false = h
Write-AllActive env s t (action_created _ _ _ _ _ _ eq) h = subst AllActive (sym eq) h
Write-AllActive env s t (action_started _ _ _ _ _ eq) h = subst AllActive (sym eq) h
Write-AllActive env s t (action_ended _ _ _ _ _ _ eq) h = subst AllActive (sym eq) h
Write-AllActive env s t (evidence_added _ _ eq) h = subst AllActive (sym eq) h
Write-AllActive env s t (candidate_added input run _ _ _ eq) h =
    subst AllActive (sym eq) (All-imp _ _ s.runs (λ r concluded q. ground (arith, concluded q)) h)
Write-AllActive env s t (run_ended input run _ _ _ active eq) h = subst AllActive (sym eq) (
    All-update_at run_key (Activated s.candidates) _ run.id s.runs
      (λ x same _ q. ended-Activated env input run.id x s active same q) h)
Write-AllActive env s t (run_cancelled run _ _ eq) h =
    subst AllActive (sym eq) (moved-Activated _ run.id s refl h)
Write-AllActive env s t (run_recovered run _ _ eq) h =
    subst AllActive (sym eq) (moved-Activated _ run.id s refl h)

mark-AllActive : (now : ℕ) (s : Store) → AllActive s → AllActive (mark_timed_out now s)
unfolding mark_timed_out
mark-AllActive now s h =
    All-map (Activated s.candidates) (time_out_run now) s.runs
      (time_out_run-Activated now s.candidates) h

serve_all-AllActive : (rs : List Request) → AllActive (serve_all rs empty)
serve_all-AllActive rs = serve_all_induction AllActive mark-AllActive Write-AllActive rs empty tt

-- A candidate of the run that is not rejected, names evidence, and names evidence of the run only.
abbrev pub Supports : List Evidence → Run → Candidate → Type 0
Supports ev r c =
    (c.run_id ≡ r.id)
    × (c.rejected ≡ false)
    × (0 < length c.evidence_ids)
    × Subset c.evidence_ids (run_evidence r.id ev)

abbrev pub AllConcluded : Store → Type 0
AllConcluded s =
    All (λ (r : Run). r.status ≡ success → Some (Supports s.evidence r) s.candidates) s.runs

Supports-active :
    (ev : List Evidence) (r : Run) (c : Candidate)
    → Backed ev c
    → (c.run_id == r.id) ≡ true
    → is_active c ≡ true
    → Supports ev r c
unfolding is_active
Supports-active ev r c b own active =
    (same, ground arith, b.0, subst (λ id. Subset c.evidence_ids (run_evidence id ev)) same b.2)
  where
    same : c.run_id ≡ r.id
    same = (==_iff c.run_id r.id).0 own

and_both : (a b : Bool) → (a && b) ≡ true → (a ≡ true) × (b ≡ true)
and_both a b h = ground arith

Some-Supports :
    (ev : List Evidence) (r : Run) (cs : List Candidate)
    → All (Backed ev) cs
    → any (λ (c : Candidate). c.run_id == r.id && is_active c) cs ≡ true
    → Some (Supports ev r) cs
Some-Supports ev r [] b h = cc
Some-Supports ev r (c ∷ cs) b h = elim (Bool-cases (c.run_id == r.id && is_active c)) [
  | inl e ↦ let (own, active) = and_both _ _ e in inl (Supports-active ev r c b.0 own active)
  | inr e ↦ inr (Some-Supports ev r cs b.1 (rw e at h))
]

-- Whatever requests the service has served, every run whose status is success has a root cause
-- candidate of its own that is not rejected and names at least one piece of evidence, all of it
-- evidence records of the run.
pub serve_all-AllConcluded : (rs : List Request) → AllConcluded (serve_all rs empty)
serve_all-AllConcluded rs =
    All-imp _ _ (serve_all rs empty).runs
      (λ r active ended.
        Some-Supports (serve_all rs empty).evidence r _ (serve_all-AllBacked rs).candidates
          (active (ap is_success ended)))
      (serve_all-AllActive rs)
