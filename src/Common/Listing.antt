-- ===== src/Common/Listing.antt =====
-- `ORDER BY`: an insertion sort by a test of which row comes first, and what it keeps.
use adbcops.Common.{
  ℕ, ◌≡◌, refl, Bool, List, [], ◌∷◌, map, keep, any, All, if◌then◌else◌, arith, inl, inr,
  Bool-cases, ◌∙◌,
}
use adbcops.Common.Members.{ℕ_eq, mem}

module _ {A : Type 0} (before : A → A → Bool) where
  unfoldable pub insert_by : A → List A → List A
  insert_by x [] = x ∷ []
  insert_by x (y ∷ ys) = let rest = insert_by x ys in if before x y then x ∷ y ∷ ys else y ∷ rest

  unfoldable pub sort_by : List A → List A
  unfolding insert_by
  sort_by [] = []
  sort_by (x ∷ xs) = insert_by x (sort_by xs)

  All-insert_by : (P : A → Type 0) (x : A) (xs : List A) → P x → All P xs → All P (insert_by x xs)
  unfolding insert_by
  All-insert_by P x [] h p = (h, tt)
  All-insert_by P x (y ∷ ys) h p = elim (Bool-cases (before x y)) [
    | inl e ↦ rw e (h, p)
    | inr e ↦ rw e (p.0, All-insert_by P x ys h p.1)
  ]

  pub All-sort_by : (P : A → Type 0) (xs : List A) → All P xs → All P (sort_by xs)
  unfolding sort_by
  All-sort_by P [] p = tt
  All-sort_by P (x ∷ xs) p = All-insert_by P x (sort_by xs) p.0 (All-sort_by P xs p.1)

  any-insert_by : (q : A → Bool) (x : A) (xs : List A) → any q (insert_by x xs) ≡ any q (x ∷ xs)
  unfolding insert_by
  any-insert_by q x [] = refl
  any-insert_by q x (y ∷ ys) = elim (Bool-cases (before x y)) [
    | inl e ↦ rw e refl
    | inr e ↦ rw e (rw (any-insert_by q x ys) (ground arith))
  ]

  pub any-sort_by : (q : A → Bool) (xs : List A) → any q (sort_by xs) ≡ any q xs
  unfolding sort_by
  any-sort_by q [] = refl
  any-sort_by q (x ∷ xs) = any-insert_by q x (sort_by xs) ∙ rw (any-sort_by q xs) refl

  module _ (key : A → ℕ) (test : A → Bool) (k : ℕ) where
    keys : List A → Bool
    keys xs = mem k (map key (keep test xs))

    keys-insert_by : (x : A) (xs : List A) → keys (insert_by x xs) ≡ keys (x ∷ xs)
    unfolding insert_by keys mem
    keys-insert_by x [] = refl
    keys-insert_by x (y ∷ ys) = elim (Bool-cases (before x y)) [
      | inl e ↦ rw e refl
      | inr e ↦ rw e (ground (arith, keys-insert_by x ys))
    ]

    keys-cons : (x : A) (xs ys : List A) → keys xs ≡ keys ys → keys (x ∷ xs) ≡ keys (x ∷ ys)
    unfolding keys mem
    keys-cons x xs ys h = ground (arith, h)

    -- The keys of the rows that pass a test are the same.
    pub mem-keep-sort_by :
        (xs : List A) → mem k (map key (keep test (sort_by xs))) ≡ mem k (map key (keep test xs))
    unfolding sort_by keys
    mem-keep-sort_by [] = refl
    mem-keep-sort_by (x ∷ xs) =
        keys-insert_by x (sort_by xs) ∙ keys-cons x (sort_by xs) xs (mem-keep-sort_by xs)
