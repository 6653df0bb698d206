-- ===== src/Common/Members.antt =====
-- Membership in a list by a Boolean equality, lists without repetition, and what the counting of
-- them gives. The maps of the Go code that are used as sets are lists read through `mem`.
use mathlib.Core.Bool.{false≢true}
use text.Mathlib.Text.{◌==◌ as str_eq}
use text.Mathlib.TextEquality.{eq_iff}
use adbcops.Common.{
  ℕ, suc, ◌≤◌, String, ◌≡◌, refl, sym, subst, ◌∙◌, ◌↔◌, ◌⊎◌, inl, inr, Bool, true, false, List, [],
  ◌∷◌, arith, if◌then◌else◌, length, Bool-cases, ==_iff, ◌==◌ as nat_eq,
}

pub record Eq (A : Type 0) : Type 0 where
  pub beq : A → A → Bool
  pub beq_iff : (a b : A) → (beq a b ≡ true) ↔ (a ≡ b)

instance abbrev pub ℕ_eq : Eq ℕ
ℕ_eq = record { beq = nat_eq; beq_iff = ==_iff }

instance abbrev pub String_eq : Eq String
String_eq = record { beq = str_eq; beq_iff = eq_iff }

module _ {A : Type 0} ⦃e : Eq A⦄ where
  unfoldable pub mem : A → List A → Bool
  mem a [] = false
  mem a (x ∷ xs) = let rest = mem a xs in if e.beq a x then true else rest

  abbrev pub Nodup : List A → Type 0
  Nodup [] = Unit
  Nodup (x ∷ xs) = (mem x xs ≡ false) × Nodup xs

  pub beq_refl : (a : A) → e.beq a a ≡ true
  beq_refl a = (e.beq_iff a a).1 refl

  pub mem_head : (a : A) (xs : List A) → mem a (a ∷ xs) ≡ true
  unfolding mem
  mem_head a xs = rw (beq_refl a)

  pub mem_tail : (a x : A) (xs : List A) → mem a xs ≡ true → mem a (x ∷ xs) ≡ true
  unfolding mem
  mem_tail a x xs h = ground arith

  pub mem-cons : (a x : A) (xs : List A) → mem a (x ∷ xs) ≡ true → (a ≡ x) ⊎ (mem a xs ≡ true)
  unfolding mem
  mem-cons a x xs h = elim (Bool-cases (e.beq a x)) [
    | inl p ↦ inl ((e.beq_iff a x).0 p)
    | inr p ↦ inr (ground arith)
  ]

  -- The list without the first occurrence of `a`.
  remove : A → List A → List A
  remove a [] = []
  remove a (x ∷ xs) = let rest = remove a xs in if e.beq a x then xs else x ∷ rest

  length-remove : (a : A) (xs : List A) → mem a xs ≡ true → suc (length (remove a xs)) ≡ length xs
  unfolding remove mem
  length-remove a [] h = cc
  length-remove a (x ∷ xs) h = ground (arith, length-remove a xs)

  mem-remove :
      (a b : A) (xs : List A) → e.beq b a ≡ false → mem b xs ≡ true → mem b (remove a xs) ≡ true
  unfolding remove mem
  mem-remove a b [] n h = cc
  mem-remove a b (x ∷ xs) n h =
      ground (arith, mem-remove a b xs, e.beq_iff a x, e.beq_iff b x, e.beq_iff b a)

  mem_of_mem-remove : (a b : A) (xs : List A) → mem b (remove a xs) ≡ true → mem b xs ≡ true
  unfolding remove mem
  mem_of_mem-remove a b [] h = cc
  mem_of_mem-remove a b (x ∷ xs) h = ground (arith, mem_of_mem-remove a b xs)

  abbrev pub Subset : List A → List A → Type 0
  Subset xs ys = (a : A) → mem a xs ≡ true → mem a ys ≡ true

  -- What stands in a list differs from what does not.
  apart_of_Nodup :
      (x : A) (xs : List A) → mem x xs ≡ false → (b : A) → mem b xs ≡ true → e.beq b x ≡ false
  apart_of_Nodup x xs n b q = elim (Bool-cases (e.beq b x)) [
    | inl r ↦ absurd (false≢true (sym n ∙ subst (λ c. mem c xs ≡ true) ((e.beq_iff b x).0 r) q))
    | inr r ↦ r
  ]

  -- A list without repetition that is at least as long as one that holds it has all of it.
  pub subset_of_length :
      (xs ys : List A) → Nodup xs → Subset xs ys → length ys ≤ length xs → Subset ys xs
  subset_of_length [] [] n s l a h = h
  subset_of_length [] (y ∷ ys) n s l a h = absurd (omega arith)
  subset_of_length (x ∷ xs) ys n s l a h = elim (Bool-cases (e.beq a x)) [
    | inl p ↦ rw ((e.beq_iff a x).0 p) (mem_head x xs)
    | inr p ↦ mem_tail a x xs (
        subset_of_length xs (remove x ys) n.1 inner
          (omega (arith, length-remove x ys (s x (mem_head x xs)))) a (mem-remove x a ys p h))
  ]
    where
      apart : (b : A) → mem b xs ≡ true → e.beq b x ≡ false
      apart = apart_of_Nodup x xs n.0

      inner : Subset xs (remove x ys)
      inner b q = mem-remove x b ys (apart b q) (s b (mem_tail b x xs q))

  -- A list without repetition is no longer than one that holds it.
  pub length_of_Subset : (xs ys : List A) → Nodup xs → Subset xs ys → length xs ≤ length ys
  unfolding mem
  length_of_Subset [] ys n s = omega arith
  length_of_Subset (x ∷ xs) ys n s = omega (
    arith,
    length-remove x ys (s x (mem_head x xs)),
    length_of_Subset xs (remove x ys) n.1
        (λ b q. mem-remove x b ys (apart_of_Nodup x xs n.0 b q) (s b (mem_tail b x xs q))),
  )

  -- The first occurrences of the elements that are not in `seen`: the loop over a slice with a map
  -- of what it has met.
  unfoldable pub unique_from : List A → List A → List A
  unique_from seen [] = []
  unique_from seen (x ∷ xs) =
      let skip = unique_from seen xs in
      let taken = x ∷ unique_from (x ∷ seen) xs in if mem x seen then skip else taken

  pub mem-unique_from :
      (a : A) (seen xs : List A)
      → mem a (unique_from seen xs) ≡ (if mem a seen then false else mem a xs)
  unfolding unique_from mem
  mem-unique_from a seen [] = ground arith
  mem-unique_from a seen (x ∷ xs) =
      ground (arith, mem-unique_from a seen xs, mem-unique_from a (x ∷ seen) xs, e.beq_iff a x)

  pub unique_from-Nodup : (seen xs : List A) → Nodup (unique_from seen xs)
  unfolding unique_from
  unique_from-Nodup seen [] = tt
  unique_from-Nodup seen (x ∷ xs) = elim (Bool-cases (mem x seen)) [
    | inl h ↦ rw h (unique_from-Nodup seen xs)
    | inr h ↦ rw h (
      rw (mem-unique_from x (x ∷ seen) xs, mem_head x seen) refl,
      unique_from-Nodup (x ∷ seen) xs,
    )
  ]
