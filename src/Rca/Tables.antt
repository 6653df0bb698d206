-- ===== src/Rca/Tables.antt =====
-- Tables after a write: what `update` and a `map` over the rows do to lookups, to the order of the
-- ids and to a property of all rows.
use adbcops.Common.{
  inl, inr, Bool-cases, ==_iff, ℕ, suc, ◌≤◌, ◌≡◌, Bool, false, any, refl, ap, Bool, Option, none,
  some, List, [], ◌∷◌, map, arith, ◌==◌, if◌then◌else◌, All, keep,
}
use adbcops.Rca.Store.{find, update, next_id, Below}

abbrev pub map_option {ℓ κ} : {A : Type ℓ} {B : Type κ} → (A → B) → Option A → Option B
map_option f none = none
map_option f (some a) = some (f a)

module _ {A : Type 0} (P : A → Type 0) where
  pub All-map : (f : A → A) (xs : List A) → ((x : A) → P x → P (f x)) → All P xs → All P (map f xs)
  All-map f [] h p = tt
  All-map f (x ∷ xs) h p = (h x p.0, All-map f xs h p.1)

  pub All-keep : (b : A → Bool) (xs : List A) → All P xs → All P (keep b xs)
  All-keep b [] p = tt
  All-keep b (x ∷ xs) p = ground (arith, All-keep b xs p.1)

module _ {A : Type 0} (key : A → ℕ) (f : A → A) (same : (x : A) → key (f x) ≡ key x) where
  pub next_id-update : (k : ℕ) (xs : List A) → next_id key (update key k f xs) ≡ next_id key xs
  unfolding next_id update
  next_id-update k [] = refl
  next_id-update k (x ∷ xs) = ground (arith, same x)

  pub next_id-map : (xs : List A) → next_id key (map f xs) ≡ next_id key xs
  unfolding next_id
  next_id-map [] = refl
  next_id-map (x ∷ xs) = ap suc (same x)

  pub Below-update : (k n : ℕ) (xs : List A) → Below key n xs → Below key n (update key k f xs)
  unfolding update
  Below-update k n [] b = tt
  Below-update k n (x ∷ xs) b = ground (arith, same x, Below-update k (key x) xs b.1)

  pub Below-map : (n : ℕ) (xs : List A) → Below key n xs → Below key n (map f xs)
  Below-map n [] b = tt
  Below-map n (x ∷ xs) b = rw (same x) (b.0, Below-map (key x) xs b.1)

  pub find-update :
      (k j : ℕ) (xs : List A)
      → find key j (update key k f xs)
        ≡ (if k == j then map_option f (find key j xs) else find key j xs)
  unfolding find update
  find-update k j [] = ground arith
  find-update k j (x ∷ xs) = ground (arith, find-update k j xs, same x)

  pub find-map : (j : ℕ) (xs : List A) → find key j (map f xs) ≡ map_option f (find key j xs)
  unfolding find
  find-map j [] = refl
  find-map j (x ∷ xs) = rw (same x) (ground (arith, find-map j xs))

module _ {A : Type 0} (key : A → ℕ) (P : A → Type 0) where
  pub All-update :
      (f : A → A) (k : ℕ) (xs : List A)
      → ((x : A) → P x → P (f x))
      → All P xs
      → All P (update key k f xs)
  unfolding update
  All-update f k [] h p = tt
  All-update f k (x ∷ xs) h p = ground (arith, h x p.0, All-update f k xs h p.1)

  -- Above all ids there is nothing to update.
  pub update_absent :
      (f : A → A) (k n : ℕ) (xs : List A) → Below key n xs → n ≤ k → update key k f xs ≡ xs
  unfolding update
  update_absent f k n [] b h = refl
  update_absent f k n (x ∷ xs) b h = ground (arith, update_absent f k (key x) xs b.1)

  -- Where ids do not repeat, an update needs to keep `P` on the row that a lookup finds.
  pub All-update_found :
      (f : A → A) (k n : ℕ) (xs : List A) (r : A)
      → Below key n xs
      → find key k xs ≡ some r
      → P (f r)
      → All P xs
      → All P (update key k f xs)
  unfolding update find
  All-update_found f k n [] r b e h p = tt
  All-update_found f k n (x ∷ xs) r b e h p =
      ground (arith, All-update_found f k (key x) xs r b.1, update_absent f k (key x) xs b.1)

  pub found_has : (k : ℕ) (xs : List A) (r : A) → find key k xs ≡ some r → All P xs → P r
  unfolding find
  found_has k [] r e p = cc
  found_has k (x ∷ xs) r e p = ground (arith, found_has k xs r)

pub found_key :
    {A : Type 0} (key : A → ℕ) (k : ℕ) (xs : List A) (r : A) → find key k xs ≡ some r → key r ≡ k
unfolding find
found_key key k [] r e = cc
found_key key k (x ∷ xs) r e = ground (arith, found_key key k xs r)

pub any_of_keep : {A : Type 0} (b : A → Bool) (xs : List A) → keep b xs ≡ [] → any b xs ≡ false
any_of_keep b [] e = refl
any_of_keep b (x ∷ xs) e = ground (arith, any_of_keep b xs)

pub All-imp :
    {A : Type 0} (P Q : A → Type 0) (xs : List A) → ((x : A) → P x → Q x) → All P xs → All Q xs
All-imp P Q [] h p = tt
All-imp P Q (x ∷ xs) h p = (h x p.0, All-imp P Q xs h p.1)

-- An update needs to keep `P` on the rows with its key.
pub All-update_at :
    {A : Type 0} (key : A → ℕ) (P : A → Type 0) (f : A → A) (k : ℕ) (xs : List A)
    → ((x : A) → key x ≡ k → P x → P (f x))
    → All P xs
    → All P (update key k f xs)
unfolding update
All-update_at key P f k [] h p = tt
All-update_at key P f k (x ∷ xs) h p = elim (Bool-cases (key x == k)) [
  | inl e ↦ rw e (h x ((==_iff (key x) k).0 e) p.0, All-update_at key P f k xs h p.1)
  | inr e ↦ rw e (p.0, All-update_at key P f k xs h p.1)
]
