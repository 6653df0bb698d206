-- ===== src/Rca/Groups.antt =====
-- Loops over the rows of one run: they write rows of that run only.
use adbcops.Common.{
  ℕ, ◌<◌, ◌≡◌, Bool, some, List, [], ◌∷◌, arith, inl, inr, Bool-cases, Option-cases, All, keep,
  ◌==◌, ==_iff,
}
use adbcops.Rca.Store.{find, update, Below}
use adbcops.Rca.Tables.{map_option, find-update, Below-update, All-update_found}
use adbcops.Rca.Loops.{update_each}

pub found_lower :
    {A : Type 0} (key : A → ℕ) (k n : ℕ) (xs : List A) (r : A)
    → Below key n xs
    → find key k xs ≡ some r
    → k < n
unfolding find
found_lower key k n [] r b e = cc
found_lower key k n (x ∷ xs) r b e = ground (arith, found_lower key k (key x) xs r b.1)

module _ {A : Type 0} (key group : A → ℕ) (g : ℕ) where
  -- The rows that are listed are found as rows of the group.
  abbrev pub Grouped : List A → List A → Type 0
  Grouped l rows = All (λ (x : A). map_option group (find key (key x) rows) ≡ some g) l

  Grouped-cons :
      (y : A) (l rows : List A) → Below key (key y) rows → Grouped l rows → Grouped l (y ∷ rows)
  unfolding find
  Grouped-cons y [] rows b h = tt
  Grouped-cons y (x ∷ l) rows b h = elim (Option-cases (find key (key x) rows)) [
    | inl missing ↦ absurd (cc h.0)
    | inr (r, e) ↦
        (ground (arith, found_lower key (key x) (key y) rows r b e), Grouped-cons y l rows b h.1)
  ]

  pub Grouped-keep :
      (n : ℕ) (rows : List A) → Below key n rows → Grouped (keep (λ x. group x == g) rows) rows
  unfolding find
  Grouped-keep n [] b = tt
  Grouped-keep n (y ∷ rows) b =
      let rest = Grouped-cons y _ rows b.1 (Grouped-keep (key y) rows b.1) in
      elim (Bool-cases (group y == g)) [
        | inl e ↦ rw e (ground (arith, ==_iff (group y) g), rest)
        | inr e ↦ rw e rest
      ]

  module _ (f : A → A) (same : (x : A) → key (f x) ≡ key x)
      (stays : (x : A) → group (f x) ≡ group x) where
    Grouped-update : (k : ℕ) (l rows : List A) → Grouped l rows → Grouped l (update key k f rows)
    Grouped-update k [] rows h = tt
    Grouped-update k (x ∷ l) rows h = elim (Option-cases (find key (key x) rows)) [
      | inl missing ↦ absurd (cc h.0)
      | inr (r, e) ↦ (
        rw (find-update key f same k (key x) rows, e) (ground (arith, stays r)),
        Grouped-update k l rows h.1,
      )
    ]

  -- A loop over rows of the group keeps what it keeps on the rows of the group.
  pub All-update_group :
      (P : A → Type 0) (test : A → Bool) (f : A → A → A)
      → ((x y : A) → key (f x y) ≡ key y)
      → ((x y : A) → group (f x y) ≡ group y)
      → ((x y : A) → group y ≡ g → P (f x y))
      → (n : ℕ) (l rows : List A) → Below key n rows
      → Grouped l rows
      → All P rows
      → All P (update_each key test f l rows)
  unfolding update_each
  All-update_group P test f same stays kept n [] rows b h p = p
  All-update_group P test f same stays kept n (x ∷ l) rows b h p = elim (Bool-cases (test x)) [
    | inr e ↦ rw e (All-update_group P test f same stays kept n l rows b h.1 p)
    | inl e ↦ rw e (elim (Option-cases (find key (key x) rows)) [
      | inl missing ↦ absurd (cc h.0)
      | inr (r, found_r) ↦
          All-update_group P test f same stays kept n l _
            (Below-update key (f x) (same x) (key x) n rows b)
            (Grouped-update (f x) (same x) (stays x) (key x) l rows h.1)
            (All-update_found key P (f x) (key x) n rows r b found_r (kept x r (cc h.0)) p)
    ])
  ]
