-- ===== src/Rca/Backing.antt =====
-- The evidence behind root cause candidates (`AddRootCauseCandidate` and
-- `EvidenceIDsBelongToRCARun`), and what it means for a run that ends in success.
use adbcops.Common.{
  ltb, ℕ, ◌≤◌, ◌<◌, ◌≡◌, ◌&&◌, refl, sym, subst, Bool, true, false, List, [], ◌∷◌, map, arith, All,
  keep, length, inl, inr, Bool-cases,
}
use adbcops.Common.Members.{
  ℕ_eq, mem, Nodup, Subset, mem_tail, mem-cons, subset_of_length, unique_from, mem-unique_from,
  unique_from-Nodup,
}
use adbcops.Rca.Store.{Evidence, Candidate, Store, next_id, Below, empty}
use adbcops.Rca.Repository.{of_run, evidence_ids_belong, mark_timed_out}
use adbcops.Rca.Inputs.{Env, unique_ids}
use adbcops.Rca.Requests.{Request, serve_all}
use adbcops.Rca.Writes.{
  Write, nothing, run_created, round_started, round_ended, action_created, action_started,
  action_ended, evidence_added, candidate_added, run_ended, run_cancelled, run_recovered,
}
use adbcops.Rca.Serving.{serve_all_induction}

abbrev pub evidence_key : Evidence → ℕ
evidence_key e = e.id

-- The ids of the evidence of a run.
abbrev pub run_evidence : ℕ → List Evidence → List ℕ
run_evidence run_id ev = map evidence_key (keep (of_run run_id) ev)

-- A candidate names evidence, each piece once, and all of it is evidence of the candidate's run.
abbrev pub Backed : List Evidence → Candidate → Type 0
Backed ev c =
    (0 < length c.evidence_ids)
    × Nodup c.evidence_ids
    × Subset c.evidence_ids (run_evidence c.run_id ev)

pub record AllBacked (s : Store) : Type 0 where
  pub ids : Below evidence_key (next_id evidence_key s.evidence) s.evidence
  pub candidates : All (Backed s.evidence) s.candidates

abbrev kept_keys : (Evidence → Bool) → List Evidence → List ℕ
kept_keys q ev = map evidence_key (keep q ev)

mem_kept_apart :
    (q : Evidence → Bool) (n a : ℕ) (ev : List Evidence)
    → Below evidence_key n ev
    → n ≤ a
    → mem a (kept_keys q ev) ≡ false
unfolding mem
mem_kept_apart q n a [] b h = refl
mem_kept_apart q n a (e ∷ ev) b h = ground (arith, mem_kept_apart q e.id a ev b.1)

kept_keys-Nodup :
    (q : Evidence → Bool) (n : ℕ) (ev : List Evidence)
    → Below evidence_key n ev
    → Nodup (kept_keys q ev)
kept_keys-Nodup q n [] b = tt
kept_keys-Nodup q n (e ∷ ev) b = elim (Bool-cases (q e)) [
  | inl h ↦ rw h (mem_kept_apart q e.id e.id ev b.1 (omega arith), kept_keys-Nodup q e.id ev b.1)
  | inr h ↦ rw h (kept_keys-Nodup q e.id ev b.1)
]

length-map : (f : Evidence → ℕ) (ev : List Evidence) → length (map f ev) ≡ length ev
length-map f [] = refl
length-map f (e ∷ ev) = omega (arith, length-map f ev)

-- What the kept rows hold passes the test of the keeping.
mem-kept_test :
    (p : ℕ → Bool) (q : Evidence → Bool) (a : ℕ) (ev : List Evidence)
    → ((e : Evidence) → q e ≡ true → p e.id ≡ true)
    → mem a (kept_keys q ev) ≡ true
    → p a ≡ true
unfolding mem
mem-kept_test p q a [] h m = cc
mem-kept_test p q a (e ∷ ev) h m = elim (Bool-cases (q e)) [
  | inr n ↦ mem-kept_test p q a ev h (ground arith)
  | inl y ↦
      elim (mem-cons a e.id (kept_keys q ev)
        (subst (λ (l : List Evidence). mem a (map evidence_key l) ≡ true) (kept e ev y) m)) [
          | inl i ↦ subst (λ k. p k ≡ true) (sym i) (h e y)
          | inr i ↦ mem-kept_test p q a ev h i
        ]
]
  where
    kept : (e : Evidence) (ev : List Evidence) → q e ≡ true → keep q (e ∷ ev) ≡ e ∷ keep q ev
    kept e ev y = rw y refl

-- A stronger test keeps fewer rows.
kept_keys-Subset :
    (q r : Evidence → Bool) (ev : List Evidence)
    → ((e : Evidence) → q e ≡ true → r e ≡ true)
    → Subset (kept_keys q ev) (kept_keys r ev)
unfolding mem
kept_keys-Subset q r [] h a m = m
kept_keys-Subset q r (e ∷ ev) h a m = ground (arith, h e, kept_keys-Subset q r ev h a)

and_left : (a b : Bool) → (a && b) ≡ true → a ≡ true
and_left a b h = ground arith

and_right : (a b : Bool) → (a && b) ≡ true → b ≡ true
and_right a b h = ground arith

mem-keep : (p : ℕ → Bool) (a : ℕ) (xs : List ℕ) → mem a (keep p xs) ≡ true → mem a xs ≡ true
unfolding mem
mem-keep p a [] h = h
mem-keep p a (x ∷ xs) h = ground (arith, mem-keep p a xs)

-- The count of the rows of a run among the ids, when it is that of the ids, means that every id is
-- one of the run's evidence.
pub evidence_ids_belong-Subset :
    (run_id : ℕ) (ids : List ℕ) (s : Store)
    → Below evidence_key (next_id evidence_key s.evidence) s.evidence
    → evidence_ids_belong run_id ids s ≡ true
    → Subset ids (run_evidence run_id s.evidence)
unfolding evidence_ids_belong mem
evidence_ids_belong-Subset run_id [] s b h a m = cc
evidence_ids_belong-Subset run_id (i ∷ is) s b h a m =
    kept_keys-Subset both (of_run run_id) s.evidence
      (λ e. and_left (of_run run_id e) (mem e.id (i ∷ is))) a
      (subset_of_length (kept_keys both s.evidence) (unique_from [] (i ∷ is))
        (kept_keys-Nodup both _ s.evidence b) inside
        (ground (arith, length-map evidence_key (keep both s.evidence))) a
        (rw (mem-unique_from a [] (i ∷ is)) m))
  where
    both : Evidence → Bool
    both e = of_run run_id e && mem e.id (i ∷ is)

    inside : Subset (kept_keys both s.evidence) (unique_from [] (i ∷ is))
    inside c q = rw (mem-unique_from c [] (i ∷ is)) (
        mem-kept_test (λ k. mem k (i ∷ is)) both c s.evidence
          (λ e. and_right (of_run run_id e) (mem e.id (i ∷ is))) q)

unique_ids-Subset : (ids : List ℕ) → Subset (unique_ids ids) ids
unfolding unique_ids mem
unique_ids-Subset ids a m =
    mem-keep (λ v. ltb 0 v) a ids
      (subst (λ b. b ≡ true) (mem-unique_from a [] (keep (λ v. ltb 0 v) ids)) m)

-- More evidence takes none away from a run.
pub run_evidence-more :
    (run_id : ℕ) (e : Evidence) (ev : List Evidence)
    → Subset (run_evidence run_id ev) (run_evidence run_id (e ∷ ev))
run_evidence-more run_id e ev a m = elim (Bool-cases (of_run run_id e)) [
  | inl y ↦ rw y (mem_tail a e.id _ m)
  | inr n ↦ rw n m
]

Backed-more : (e : Evidence) (ev : List Evidence) (c : Candidate) → Backed ev c → Backed (e ∷ ev) c
Backed-more e ev c b = (b.0, b.1, λ a m. run_evidence-more c.run_id e ev a (b.2 a m))

All-more :
    (e : Evidence) (ev : List Evidence) (cs : List Candidate)
    → All (Backed ev) cs
    → All (Backed (e ∷ ev)) cs
All-more e ev [] h = tt
All-more e ev (c ∷ cs) h = (Backed-more e ev c h.0, All-more e ev cs h.1)

pub Write-AllBacked : (env : Env) (s t : Store) → Write env s t → AllBacked s → AllBacked t
Write-AllBacked env s t (nothing eq) h = subst AllBacked (sym eq) h
Write-AllBacked env s t (candidate_added input run _ given belongs eq) h =
    subst AllBacked (sym eq) (record {
      ids = h.ids;
      candidates = (
        (
          ground arith,
          unfold unique_ids in unique_from-Nodup [] _,
          λ a m.
              evidence_ids_belong-Subset run.id input.evidence_ids s h.ids belongs a
                (unique_ids-Subset input.evidence_ids a m),
        ),
        h.candidates,
      );
    })
Write-AllBacked env s t (evidence_added e at eq) h = subst AllBacked (sym eq) (record {
  ids =
      (unfold next_id in omega arith, subst (λ n. Below evidence_key n s.evidence) (sym at) h.ids);
  candidates = All-more e s.evidence s.candidates h.candidates;
})
Write-AllBacked env s t (run_created _ _ _ eq) h =
    subst AllBacked (sym eq) (record { ids = h.ids; candidates = h.candidates })
Write-AllBacked env s t (round_started _ _ _ _ _ _ _ eq) h =
    subst AllBacked (sym eq) (record { ids = h.ids; candidates = h.candidates })
Write-AllBacked env s t (round_ended _ _ _ _ _ _ _ _ eq) h =
    subst AllBacked (sym eq) (record { ids = h.ids; candidates = h.candidates })
Write-AllBacked env s t (action_created _ _ _ _ _ _ eq) h =
    subst AllBacked (sym eq) (record { ids = h.ids; candidates = h.candidates })
Write-AllBacked env s t (action_started _ _ _ _ _ eq) h =
    subst AllBacked (sym eq) (record { ids = h.ids; candidates = h.candidates })
Write-AllBacked env s t (action_ended _ _ _ _ _ _ eq) h =
    subst AllBacked (sym eq) (record { ids = h.ids; candidates = h.candidates })
Write-AllBacked env s t (run_ended _ _ _ _ _ _ eq) h =
    subst AllBacked (sym eq) (record { ids = h.ids; candidates = h.candidates })
Write-AllBacked env s t (run_cancelled _ _ _ eq) h =
    subst AllBacked (sym eq) (record { ids = h.ids; candidates = h.candidates })
Write-AllBacked env s t (run_recovered _ _ _ eq) h =
    subst AllBacked (sym eq) (record { ids = h.ids; candidates = h.candidates })

pub mark-AllBacked : (now : ℕ) (s : Store) → AllBacked s → AllBacked (mark_timed_out now s)
unfolding mark_timed_out
mark-AllBacked now s h = record { ids = h.ids; candidates = h.candidates }

-- Whatever requests the service has served, every root cause candidate names at least one piece of
-- evidence, none twice, and all of them are evidence records of the candidate's own run.
pub serve_all-AllBacked : (rs : List Request) → AllBacked (serve_all rs empty)
serve_all-AllBacked rs =
    serve_all_induction AllBacked mark-AllBacked Write-AllBacked rs empty
      (record { ids = tt; candidates = tt })
