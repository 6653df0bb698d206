-- ===== src/Common/Sorting.antt =====
-- `sort.Strings` on texts of valid UTF-8, where the order of the bytes is that of the characters:
-- an insertion sort, and what it keeps.
use Prim.Native.Nat.{Ordering}
use Prim.Native.String.{compare}
use text.Mathlib.Text.{◌==◌ as str_eq}
use text.Mathlib.TextEquality.{eq_iff}
use adbcops.Common.{
  ◌≡◌, refl, ap, ◌∙◌, inl, inr, String, Bool, true, false, ◌&&◌, ◌||◌, List, [], ◌∷◌, ◌++◌, keep,
  arith, Bool-cases, if◌then◌else◌,
}
use adbcops.Common.Members.{String_eq, mem, Nodup}

abbrev pub not_after : String → String → Bool
not_after s t = elim (compare s t) [ Ordering.gt ↦ false | _ ↦ true ]

unfoldable pub insert : String → List String → List String
insert x [] = x ∷ []
insert x (y ∷ ys) = let rest = insert x ys in if not_after x y then x ∷ y ∷ ys else y ∷ rest

unfoldable pub sort_strings : List String → List String
unfolding insert
sort_strings [] = []
sort_strings (x ∷ xs) = insert x (sort_strings xs)

mem-insert : (a x : String) (xs : List String) → mem a (insert x xs) ≡ (str_eq a x || mem a xs)
unfolding mem insert
mem-insert a x [] = ground arith
mem-insert a x (y ∷ ys) = ground (arith, mem-insert a x ys)

insert-Nodup : (x : String) (xs : List String) → mem x xs ≡ false → Nodup xs → Nodup (insert x xs)
unfolding insert mem
insert-Nodup x [] m n = (m, n)
insert-Nodup x (y ∷ ys) m n =
    ground (arith, mem-insert y x ys, eq_iff y x, eq_iff x y, insert-Nodup x ys)

-- A sorted list has the same elements.
pub mem-sort_strings : (a : String) (xs : List String) → mem a (sort_strings xs) ≡ mem a xs
unfolding mem sort_strings
mem-sort_strings a [] = refl
mem-sort_strings a (x ∷ xs) =
    ground (arith, mem-insert a x (sort_strings xs), mem-sort_strings a xs)

pub sort_strings-Nodup : (xs : List String) → Nodup xs → Nodup (sort_strings xs)
unfolding sort_strings
sort_strings-Nodup [] n = tt
sort_strings-Nodup (x ∷ xs) n =
    insert-Nodup x (sort_strings xs) (mem-sort_strings x xs ∙ n.0) (sort_strings-Nodup xs n.1)

-- An element at the end of a list.
pub mem-snoc : (a x : String) (xs : List String) → mem a (xs ++ x ∷ []) ≡ (mem a xs || str_eq a x)
unfolding mem
mem-snoc a x [] = ground arith
mem-snoc a x (y ∷ ys) = ground (arith, mem-snoc a x ys)

pub snoc-Nodup :
    (x : String) (xs : List String) → mem x xs ≡ false → Nodup xs → Nodup (xs ++ x ∷ [])
unfolding mem
snoc-Nodup x [] m n = (refl, tt)
snoc-Nodup x (y ∷ ys) m n = ground (arith, mem-snoc y x ys, eq_iff y x, eq_iff x y, snoc-Nodup x ys)

pub mem-keep :
    (p : String → Bool) (x : String) (xs : List String) → mem x (keep p xs) ≡ (p x && mem x xs)
unfolding mem
mem-keep p x [] = ground arith
mem-keep p x (y ∷ ys) = elim (Bool-cases (str_eq x y)) [
  | inl s ↦ rw s (elim (Bool-cases (p y)) [
    | inl t ↦ rw t (ground (arith, ap p ((eq_iff x y).0 s)))
    | inr t ↦ rw t (ground (arith, ap p ((eq_iff x y).0 s), mem-keep p x ys))
  ])
  | inr s ↦ rw s (ground (arith, mem-keep p x ys))
]
