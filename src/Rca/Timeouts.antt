-- ===== src/Rca/Timeouts.antt =====
-- What `MarkTimedOutRCARuns` does to all that belongs to a run that is past its deadline.
use adbcops.Common.{
  ◌&&◌, ℕ, ◌≡◌, refl, true, List, [], ◌∷◌, map, arith, inl, inr, Bool-cases, All, keep, ◌==◌,
  ==_iff, subst, sym,
}
use adbcops.Common.Members.{ℕ_eq, mem}
use adbcops.Rca.Status.{is_open}
use adbcops.Rca.Store.{Run, Round, Action, Store}
use adbcops.Rca.Repository.{
  mark_timed_out, time_out_run, time_out_round, time_out_action, overdue_ids, is_overdue,
}
use adbcops.Rca.Closed.{RoundClosed, ActionClosed}
use adbcops.Rca.Access.{NotOverdue, mark-NotOverdue}

time_out_round-closes :
    (now id : ℕ) (ids : List ℕ) (r : Round)
    → mem id ids ≡ true
    → RoundClosed id (time_out_round now ids r)
unfolding time_out_round
time_out_round-closes now id ids r h same =
    elim (Bool-cases (mem r.run_id ids && is_open r.status)) [
      | inl e ↦ rw e refl
      | inr e ↦ rw e (
          ground
            (arith, subst (λ k. mem k ids ≡ true) (sym ((==_iff r.run_id id).0 (stays r same))) h))
    ]
  where
    stays : (r : Round) → ((time_out_round now ids r).run_id == id) ≡ true → (r.run_id == id) ≡ true
    stays r same = ground arith

time_out_action-closes :
    (now id : ℕ) (ids : List ℕ) (a : Action)
    → mem id ids ≡ true
    → ActionClosed id (time_out_action now ids a)
unfolding time_out_action
time_out_action-closes now id ids a h same =
    elim (Bool-cases (mem a.run_id ids && is_open a.status)) [
      | inl e ↦ rw e refl
      | inr e ↦ rw e (
          ground
            (arith, subst (λ k. mem k ids ≡ true) (sym ((==_iff a.run_id id).0 (stays a same))) h))
    ]
  where
    stays :
        (a : Action) → ((time_out_action now ids a).run_id == id) ≡ true → (a.run_id == id) ≡ true
    stays a same = ground arith

All-mapped :
    {A : Type 0} (P : A → Type 0) (f : A → A) (xs : List A) → ((x : A) → P (f x)) → All P (map f xs)
All-mapped P f [] h = tt
All-mapped P f (x ∷ xs) h = (h x, All-mapped P f xs h)

map_same : {A : Type 0} (f : A → A) (xs : List A) → All (λ (x : A). f x ≡ x) xs → map f xs ≡ xs
map_same f [] h = refl
map_same f (x ∷ xs) h = rw (h.0, map_same f xs h.1) refl

All-same :
    {A : Type 0} (f : A → A) (xs : List A) → ((x : A) → f x ≡ x) → All (λ (x : A). f x ≡ x) xs
All-same f [] h = tt
All-same f (x ∷ xs) h = (h x, All-same f xs h)

none_overdue :
    (now : ℕ) (runs : List Run)
    → map (λ (r : Run). r.id) (keep (is_overdue now) runs) ≡ []
    → All (λ (r : Run). time_out_run now r ≡ r) runs
unfolding time_out_run
none_overdue now [] e = tt
none_overdue now (r ∷ runs) e = elim (Bool-cases (is_overdue now r)) [
  | inl y ↦ absurd (ground arith)
  | inr n ↦ (rw n refl, none_overdue now runs (ground arith))
]

overdue_ids-none : (now : ℕ) (s : Store) → overdue_ids now s ≡ [] → mark_timed_out now s ≡ s
unfolding mark_timed_out
overdue_ids-none now s e =
    rw
      (
        e,
        map_same (time_out_run now) s.runs (none_overdue now s.runs (unfold overdue_ids in e)),
        map_same (time_out_round now []) s.rounds
            (All-same _ s.rounds (λ r. unfold time_out_round mem in refl)),
        map_same (time_out_action now []) s.actions
            (All-same _ s.actions (λ a. unfold time_out_action mem in refl)),
      )
      refl

-- After `MarkTimedOutRCARuns` no pending or running run is past its deadline, and no round or
-- action of a run that was past it is pending or running; with no such run it changes nothing.
pub mark_timed_out_lem :
    (now : ℕ) (s : Store)
    → All (NotOverdue now) (mark_timed_out now s).runs
      × ((id : ℕ)
          → mem id (overdue_ids now s) ≡ true
          → All (RoundClosed id) (mark_timed_out now s).rounds
            × All (ActionClosed id) (mark_timed_out now s).actions)
      × (overdue_ids now s ≡ [] → mark_timed_out now s ≡ s)
mark_timed_out_lem now s = (
  mark-NotOverdue now s,
  λ id h.
      unfold mark_timed_out in
      (
        All-mapped (RoundClosed id) _ s.rounds
            (λ r. time_out_round-closes now id (overdue_ids now s) r h),
        All-mapped (ActionClosed id) _ s.actions
            (λ a. time_out_action-closes now id (overdue_ids now s) a h),
      ),
  overdue_ids-none now s,
)
