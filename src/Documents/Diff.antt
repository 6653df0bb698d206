-- ===== src/Documents/Diff.antt =====
-- `DiffVersions` (backend/internal/document/publication_service.go), from the blocks of the two
-- versions. A map from keys to hashes is the list of its blocks, of which the last one with a key
-- counts; its keys are listed once each, in the order of the blocks.
use text.Mathlib.Text.{◌==◌ as str_eq}
use text.Mathlib.TextEquality.{eq_iff}
use adbcops.Common.{
  ◌≡◌, ◌↔◌, refl, sym, ap, subst, ◌∙◌, String, Bool, true, false, not, ◌&&◌, Option, none, some,
  List, [], ◌∷◌, map, keep, is_some, if◌then◌else◌, arith,
}
use adbcops.Common.Members.{String_eq, mem, mem_head, unique_from, mem-unique_from}
use adbcops.Common.Sorting.{sort_strings, mem-sort_strings, mem-keep}

pub record Block : Type 0 where
  pub block_key : String
  pub content_hash : Option String
  pub text_content : String

-- What stands for the content of a block.
abbrev pub content_of : Block → String
content_of b = elim b.content_hash [ some hash ↦ hash | none ↦ b.text_content ]

unfoldable pub value_at : String → List Block → Option String
value_at key [] = none
value_at key (b ∷ bs) =
    let later = value_at key bs in
    if is_some later then later else if str_eq key b.block_key then some (content_of b) else none

unfoldable pub block_keys : List Block → List String
unfolding unique_from
block_keys bs = unique_from [] (map (λ (b : Block). b.block_key) bs)

abbrev pub same_value : Option String → Option String → Bool
same_value (some a) (some b) = str_eq a b
same_value none none = true
same_value _ _ = false

pub record VersionDiff : Type 0 where
  pub added : List String
  pub removed : List String
  pub changed : List String

unfoldable pub diff_blocks : List Block → List Block → VersionDiff
unfolding sort_strings block_keys value_at
diff_blocks from to = record {
  added = sort_strings (keep (λ key. not (is_some (value_at key from))) (block_keys to));
  removed = sort_strings (keep (λ key. not (is_some (value_at key to))) (block_keys from));
  changed = sort_strings (
      keep
        (λ key. is_some (value_at key to) && not (same_value (value_at key to) (value_at key from)))
        (block_keys from));
}

block_keys-value :
    (key : String) (bs : List Block) → mem key (block_keys bs) ≡ is_some (value_at key bs)
unfolding block_keys mem value_at
block_keys-value key bs = mem-unique_from key [] (map (λ (b : Block). b.block_key) bs) ∙ mem_key bs
  where
    mem_key :
        (cs : List Block)
        → mem key (map (λ (b : Block). b.block_key) cs) ≡ is_some (value_at key cs)
    mem_key [] = refl
    mem_key (c ∷ cs) = ground (arith, mem_key cs)

nil_of_mem : (xs : List String) → ((key : String) → mem key xs ≡ false) → xs ≡ []
nil_of_mem [] h = refl
nil_of_mem (x ∷ xs) h = absurd (true_false (sym (mem_head x xs) ∙ h x))
  where
    true_false : true ≡ false → ⊥
    true_false q = cc

not_mem_nil : (key : String) (xs : List String) → xs ≡ [] → mem key xs ≡ false
unfolding mem
not_mem_nil key xs e = rw e refl

sorted_mem :
    (p : String → Bool) (key : String) (bs : List Block)
    → mem key (sort_strings (keep p (block_keys bs))) ≡ (p key && is_some (value_at key bs))
sorted_mem p key bs =
    mem-sort_strings key (keep p (block_keys bs))
    ∙ mem-keep p key (block_keys bs)
    ∙ ap (λ b. p key && b) (block_keys-value key bs)

same_value_iff : (a b : Option String) → (same_value a b ≡ true) ↔ (a ≡ b)
same_value_iff none none = ((λ e. refl), λ e. refl)
same_value_iff none (some b) = ((λ e. absurd cc), λ e. absurd cc)
same_value_iff (some a) none = ((λ e. absurd cc), λ e. absurd cc)
same_value_iff (some a) (some b) =
    ((λ e. ap some ((eq_iff a b).0 e)), λ e. (eq_iff a b).1 (inject e))
  where
    inject : some a ≡ some b → a ≡ b
    inject q = cc

-- What the three lists say of a key.
abbrev Quiet : Option String → Option String → Type 0
Quiet f t =
    ((not (is_some f) && is_some t) ≡ false)
    × ((not (is_some t) && is_some f) ≡ false)
    × (((is_some t && not (same_value t f)) && is_some f) ≡ false)

agree :
    (f t : Option String)
    → (not (is_some f) && is_some t) ≡ false
    → (not (is_some t) && is_some f) ≡ false
    → ((is_some t && not (same_value t f)) && is_some f) ≡ false
    → f ≡ t
agree none none a b c = refl
agree none (some t) a b c = absurd cc
agree (some f) none a b c = absurd cc
agree (some f) (some t) a b c = sym ((same_value_iff (some t) (some f)).0 (ground (arith, c)))

no_change : (f t : Option String) → f ≡ t → Quiet f t
no_change f t e = subst (Quiet f) e (itself f)
  where
    itself : (o : Option String) → Quiet o o
    itself none = (refl, refl, refl)
    itself (some a) = (refl, refl, rw ((same_value_iff (some a) (some a)).1 refl) refl)

-- The diff of two versions is empty exactly when every key has the same content in both of them, or
-- none in either.
pub diff_blocks_iff :
    (from to : List Block)
    → ((diff_blocks from to).added ≡ [])
        × ((diff_blocks from to).removed ≡ [])
        × ((diff_blocks from to).changed ≡ [])
      ↔ ((key : String) → value_at key from ≡ value_at key to)
unfolding diff_blocks
diff_blocks_iff from to = (
  (λ h key.
      agree (value_at key from) (value_at key to)
        (sym (sorted_mem _ key to) ∙ not_mem_nil key _ h.0)
        (sym (sorted_mem _ key from) ∙ not_mem_nil key _ h.1)
        (sym (sorted_mem _ key from) ∙ not_mem_nil key _ h.2)),
  λ h. (
    nil_of_mem _
        (λ key. sorted_mem _ key to ∙ (no_change (value_at key from) (value_at key to) (h key)).0),
    nil_of_mem _ (λ key.
        sorted_mem _ key from ∙ (no_change (value_at key from) (value_at key to) (h key)).1),
    nil_of_mem _ (λ key.
        sorted_mem _ key from ∙ (no_change (value_at key from) (value_at key to) (h key)).2),
  ),
)
