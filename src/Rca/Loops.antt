-- ===== src/Rca/Loops.antt =====
-- The loops of `Cancel` and `Recover` over a listing of rows: each is an `update_each` of one table,
-- and none of its updates misses its row.
use adbcops.Common.{
  Option-cases, Bool-cases, inl, inr, ℕ, ◌≡◌, ◌∙◌, refl, sym, subst, Bool, true, false, not, ◌&&◌,
  some, List, [], ◌∷◌, map, ok, arith, All, keep, is_some, if◌then◌else◌, ◌+◌, ◌==◌,
}
use adbcops.Common.Listing.{sort_by, mem-keep-sort_by}
use adbcops.Common.Members.{ℕ_eq, mem, mem_head}
use adbcops.Rca.Status.{
  pending, running, cancelled, is_open, is_recoverable, is_done, terminal_action_status,
}
use adbcops.Rca.Store.{Round, Action, Store, find, update}
use adbcops.Rca.Tables.{find-update, All-update}
use adbcops.Rca.Repository.{round_updates, action_updates, round_values, action_values}
use adbcops.Rca.Inputs.{Env}
use adbcops.Rca.Lifecycle.{Ids, cancel_rounds, cancel_actions, retry_actions, reopen_rounds}
use adbcops.Rca.Effects.{round_key, action_key}

module _ {A : Type 0} (key : A → ℕ) (test : A → Bool) (f : A → A → A) where
  -- Each listed row that passes the test is written.
  unfoldable pub update_each : List A → List A → List A
  update_each [] rows = rows
  update_each (x ∷ l) rows = update_each l (if test x then update key (key x) (f x) rows else rows)

module _ {A : Type 0} (key : A → ℕ) where
  abbrev pub AllFound : List A → List A → Type 0
  AllFound l rows = All (λ (x : A). is_some (find key (key x) rows) ≡ true) l

  AllFound-cons : (l rows : List A) (y : A) → AllFound l rows → AllFound l (y ∷ rows)
  unfolding find
  AllFound-cons [] rows y h = tt
  AllFound-cons (x ∷ l) rows y h = ground (arith, AllFound-cons l rows y h.1)

  pub keep-AllFound : (q : A → Bool) (rows : List A) → AllFound (keep q rows) rows
  unfolding find
  keep-AllFound q [] = tt
  keep-AllFound q (x ∷ rows) =
      ground (arith, AllFound-cons (keep q rows) rows x (keep-AllFound q rows))

  pub AllFound-update :
      (f : A → A) (same : (x : A) → key (f x) ≡ key x) (k : ℕ) (l rows : List A)
      → AllFound l rows
      → AllFound l (update key k f rows)
  AllFound-update f same k [] rows h = tt
  AllFound-update f same k (x ∷ l) rows h =
      ground (arith, find-update key f same k (key x) rows, AllFound-update f same k l rows h.1)

module _ {A : Type 0} (key : A → ℕ) (test : A → Bool) (f : A → A → A) (P : A → Type 0) where
  pub All-update_each :
      (l rows : List A)
      → ((x y : A) → P y → P (f x y))
      → All P rows
      → All P (update_each key test f l rows)
  unfolding update_each
  All-update_each [] rows h p = p
  All-update_each (x ∷ l) rows h p =
      All-update_each l _ h (ground (arith, All-update key P (f x) (key x) rows (h x) p))

keep_yes :
    {A : Type 0} (q : A → Bool) (x : A) (l : List A) → q x ≡ true → keep q (x ∷ l) ≡ x ∷ keep q l
keep_yes q x l e = rw e

keep_no : {A : Type 0} (q : A → Bool) (x : A) (l : List A) → q x ≡ false → keep q (x ∷ l) ≡ keep q l
keep_no q x l e = rw e

module _ {A : Type 0} (key : A → ℕ) (f : A → A → A) (q test : A → Bool)
    (same : (x y : A) → key (f x y) ≡ key y) (closes : (x y : A) → test (f x y) ≡ false) where
  -- What is selected and passes the test is still to be written.
  abbrev Covered : List A → List A → Type 0
  Covered l rows =
      All (λ (y : A). q y ≡ true → test y ≡ true → mem (key y) (map key (keep test l)) ≡ true) rows

  Covered-more : (l rows : List A) (x : A) → Covered l rows → Covered (x ∷ l) rows
  unfolding mem
  Covered-more l [] x h = tt
  Covered-more l (y ∷ rows) x h = (λ a b. ground (arith, h.0 a b), Covered-more l rows x h.1)

  Covered-start : (rows : List A) → Covered (keep q rows) rows
  unfolding mem
  Covered-start [] = tt
  Covered-start (y ∷ rows) = elim (Bool-cases (q y)) [
    | inl e ↦
        subst (λ k. Covered k (y ∷ rows)) (sym (keep_yes q y rows e))
          (λ a b. rw b (mem_head (key y) _), Covered-more (keep q rows) rows y (Covered-start rows))
    | inr e ↦
        subst (λ k. Covered k (y ∷ rows)) (sym (keep_no q y rows e)) (λ a b. cc, Covered-start rows)
  ]

  Covered-write :
      (x : A) (l rows : List A)
      → test x ≡ true
      → Covered (x ∷ l) rows
      → Covered l (update key (key x) (f x) rows)
  unfolding update mem
  Covered-write x l [] e h = tt
  Covered-write x l (y ∷ rows) e h = elim (Bool-cases (key y == key x)) [
    | inl k ↦ rw k (λ a b. cc (closes x y), Covered-write x l rows e h.1)
    | inr k ↦ rw k (λ a b. ground (arith, h.0 a b), Covered-write x l rows e h.1)
  ]

  Covered-skip : (x : A) (l rows : List A) → test x ≡ false → Covered (x ∷ l) rows → Covered l rows
  Covered-skip x l rows e h =
      subst (λ k. All (λ (y : A). q y ≡ true → test y ≡ true → mem (key y) (map key k) ≡ true) rows)
        (keep_no test x l e) h

  closed_of_Covered :
      (rows : List A) → Covered [] rows → All (λ (y : A). q y ≡ true → test y ≡ false) rows
  unfolding mem
  closed_of_Covered [] h = tt
  closed_of_Covered (y ∷ rows) h = (
    λ a. elim (Bool-cases (test y)) [ inl b ↦ cc (h.0 a b) | inr b ↦ b ],
    closed_of_Covered rows h.1,
  )

  update_each-Covered :
      (l rows : List A) → Covered l rows → Covered [] (update_each key test f l rows)
  unfolding update_each
  update_each-Covered [] rows h = h
  update_each-Covered (x ∷ l) rows h = elim (Bool-cases (test x)) [
    | inl e ↦ rw e (update_each-Covered l _ (Covered-write x l rows e h))
    | inr e ↦ rw e (update_each-Covered l rows (Covered-skip x l rows e h))
  ]

  Covered-sort_by :
      (before : A → A → Bool) (l rows : List A) → Covered l rows → Covered (sort_by before l) rows
  Covered-sort_by before l [] h = tt
  Covered-sort_by before l (y ∷ rows) h = (
    λ a b. mem-keep-sort_by before key test (key y) l ∙ h.0 a b,
    Covered-sort_by before l rows h.1,
  )

  -- After the loop over the selected rows, in any order, no selected row passes the test.
  pub update_each-closes :
      (before : A → A → Bool) (rows : List A)
      → All
          (λ (y : A). q y ≡ true → test y ≡ false)
          (update_each key test f (sort_by before (keep q rows)) rows)
  update_each-closes before rows = closed_of_Covered _ (
      update_each-Covered (sort_by before (keep q rows)) rows
        (Covered-sort_by before (keep q rows) rows (Covered-start rows)))

module _ (env : Env) where
  abbrev pub round_cancelled : Round → Round → Round
  round_cancelled _ = round_values (record (round_updates cancelled) { finished_at = some env.now })

  abbrev pub action_cancelled : Action → Action → Action
  action_cancelled _ =
      action_values (record (action_updates cancelled) { finished_at = some env.now })

  pub cancel_rounds_lem :
      (l : List Round) (s : Store)
      → AllFound round_key l s.rounds
      → cancel_rounds env l s ≡ (
        ok tt,
        record s {
          rounds = update_each round_key (λ r. is_open r.status) round_cancelled l s.rounds;
        },
      )
  unfolding cancel_rounds update_each
  cancel_rounds_lem [] s h = refl
  cancel_rounds_lem (r ∷ l) s h = ground (
    arith,
    find-update round_key (round_cancelled r) (λ x. refl) r.id r.id s.rounds,
    cancel_rounds_lem l s h.1,
    cancel_rounds_lem l (record s { rounds = update round_key r.id (round_cancelled r) s.rounds })
        (AllFound-update round_key (round_cancelled r) (λ x. refl) r.id l s.rounds h.1),
  )

  pub cancel_actions_lem :
      (l : List Action) (s : Store)
      → AllFound action_key l s.actions
      → cancel_actions env l s ≡ (
        ok tt,
        record s {
          actions =
              update_each action_key
                (λ a. not (terminal_action_status a.status))
                action_cancelled
                l
                s.actions;
        },
      )
  unfolding cancel_actions update_each
  cancel_actions_lem [] s h = refl
  cancel_actions_lem (a ∷ l) s h = ground (
    arith,
    find-update action_key (action_cancelled a) (λ x. refl) a.id a.id s.actions,
    cancel_actions_lem l s h.1,
    cancel_actions_lem l
        (record s { actions = update action_key a.id (action_cancelled a) s.actions })
        (AllFound-update action_key (action_cancelled a) (λ x. refl) a.id l s.actions h.1),
  )

abbrev pub round_reopened : Round → Round → Round
round_reopened _ =
    round_values (record (round_updates running) { clear_error = true; clear_finished_at = true })

abbrev pub action_retried : Action → Action → Action
action_retried a = action_values (record (action_updates pending) {
  attempt = some (a.attempt + 1);
  clear_error = true;
  clear_finished_at = true;
})

abbrev pub to_reopen : ℕ → Round → Bool
to_reopen current r = r.round_number == current && is_recoverable r.status

abbrev pub to_retry : Action → Bool
to_retry a = not (is_done a.status) && is_recoverable a.status

==_refl : (n : ℕ) → (n == n) ≡ true
==_refl n = ground arith

pub reopen_rounds_lem :
    (current : ℕ) (l : List Round) (s : Store)
    → AllFound round_key l s.rounds
    → reopen_rounds current l s ≡ (
      ok tt,
      record s { rounds = update_each round_key (to_reopen current) round_reopened l s.rounds },
    )
unfolding reopen_rounds update_each
reopen_rounds_lem current [] s h = refl
reopen_rounds_lem current (r ∷ l) s h = elim (Bool-cases (to_reopen current r)) [
  | inl e ↦ rw e (elim (Option-cases (find round_key r.id s.rounds)) [
    | inl none_found ↦ cc h.0
    | inr (x, e') ↦
        rw
          (
            find-update round_key (round_reopened r) (λ y. refl) r.id r.id s.rounds,
            ==_refl r.id,
            e',
          )
          (reopen_rounds_lem current l
            (record s { rounds = update round_key r.id (round_reopened r) s.rounds })
            (AllFound-update round_key (round_reopened r) (λ y. refl) r.id l s.rounds h.1))
  ])
  | inr e ↦ rw e (reopen_rounds_lem current l s h.1)
]

-- The ids that `Recover` reports: the actions that are done, and those that are tried again.
abbrev pub plan_ids : List Action → Ids
plan_ids l = (map action_key (keep (λ a. is_done a.status) l), map action_key (keep to_retry l))

pub retry_actions_lem :
    (l : List Action) (s : Store)
    → AllFound action_key l s.actions
    → retry_actions l s ≡ (
      ok (plan_ids l),
      record s { actions = update_each action_key to_retry action_retried l s.actions },
    )
unfolding retry_actions update_each
retry_actions_lem [] s h = refl
retry_actions_lem (a ∷ l) s h = elim (Bool-cases (is_done a.status)) [
  | inl d ↦ rw d (rw (retry_actions_lem l s h.1) refl)
  | inr d ↦ rw d (elim (Bool-cases (is_recoverable a.status)) [
    | inr e ↦ rw e (retry_actions_lem l s h.1)
    | inl e ↦ rw e (elim (Option-cases (find action_key a.id s.actions)) [
      | inl none_found ↦ cc h.0
      | inr (x, e') ↦
          rw
            (
              find-update action_key (action_retried a) (λ y. refl) a.id a.id s.actions,
              ==_refl a.id,
              e',
            )
            (rw
              (retry_actions_lem l
                (record s { actions = update action_key a.id (action_retried a) s.actions })
                (AllFound-update action_key (action_retried a) (λ y. refl) a.id l s.actions h.1))
              refl)
    ])
  ])
]
