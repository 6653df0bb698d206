-- ===== src/Rca/Normal.antt =====
-- The normalisation of what a request holds: `uniqueIDs`, `truncateText`, the timeout, the
-- hypotheses.
use mathlib.Core.Bool.{true≢false}
use text.Mathlib.Text.{◌==◌ as str_eq}
use text.Mathlib.TextEquality.{eq_iff}
use adbcops.Common.{
  Result, ◌≢◌, ◌&&◌, ◌||◌, ℕ, ◌*◌, ◌≤◌, ◌<◌, ◌≡◌, refl, sym, subst, ◌∙◌, Bool, true, false, Option,
  some, none, List, [], ◌∷◌, arith, if◌then◌else◌, All, keep, ok, err, ◌==◌, ltb, length, String,
}
use adbcops.Common.Int.{ℤ, pos, negsuc}
use adbcops.Common.Text.{trim_space, rune_count, rune_count-take_runes}
use adbcops.Common.Members.{ℕ_eq, mem, Nodup, mem-unique_from, unique_from-Nodup}
use adbcops.Rca.Store.{Error}
use adbcops.Rca.Inputs.{
  cons_ok, Env, Hypothesis, NextAction, normalized_next_action, normalized_next_actions, unique_ids,
  truncate_text, normalized_hypothesis, normalized_hypotheses, out_of_unit, sanitize_json,
}

mem-keep_positive : (a : ℕ) (xs : List ℕ) → mem a (keep (λ v. ltb 0 v) xs) ≡ (ltb 0 a && mem a xs)
unfolding mem
mem-keep_positive a [] = ground arith
mem-keep_positive a (x ∷ xs) = ground (arith, mem-keep_positive a xs)

-- `uniqueIDs` answers exactly the positive ids that it is given, each of them once.
pub unique_ids_lem :
    (ids : List ℕ)
    → Nodup (unique_ids ids) × ((a : ℕ) → mem a (unique_ids ids) ≡ (ltb 0 a && mem a ids))
unfolding unique_ids
unique_ids_lem ids = (
  unique_from-Nodup [] _,
  λ a. mem-unique_from a [] (keep (λ v. ltb 0 v) ids) ∙ (unfold mem in mem-keep_positive a ids),
)

-- `truncateText` answers at most so many runes, and a text that is short enough as it is.
pub truncate_text_lem :
    (value : String) (maximum : ℕ)
    → (rune_count (truncate_text value maximum) ≤ maximum)
      × (rune_count value ≤ maximum → truncate_text value maximum ≡ value)
unfolding truncate_text
truncate_text_lem value maximum = ground (arith, rune_count-take_runes maximum value)

-- A hypothesis that was taken: a summary of at most 2048 runes that is not empty, a confidence from
-- 0 to a million millionths, and distinct positive evidence ids, at least one of them where evidence
-- is required.
abbrev pub Normalized : Bool → Hypothesis → Type 0
Normalized require_evidence h =
    (rune_count h.summary ≤ 2048)
    × (h.summary ≢ "")
    × ((n : ℕ) × (h.confidence ≡ pos n) × (n ≤ 1000000))
    × Nodup h.evidence_ids
    × ((a : ℕ) → mem a h.evidence_ids ≡ true → 0 < a)
    × (require_evidence ≡ true → 0 < length h.evidence_ids)

in_unit : (c : ℤ) → out_of_unit c ≡ false → (n : ℕ) × (c ≡ pos n) × (n ≤ 1000000)
in_unit (pos n) e = (n, refl, ground arith)
in_unit (negsuc n) e = absurd (ground arith)

unique_ids-pos : (ids : List ℕ) (a : ℕ) → mem a (unique_ids ids) ≡ true → 0 < a
unique_ids-pos ids a m = ground (arith, (unique_ids_lem ids).1 a)

taken :
    {A : Type 0} (b : Bool) (x n : A)
    → (if b then none else some x) ≡ some n
    → (b ≡ false) × (x ≡ n)
taken true x n e = absurd cc
taken false x n e = ground arith

passed : (a b c : Bool) → (a || b || c) ≡ false → (a ≡ false) × (b ≡ false) × (c ≡ false)
passed a b c e = ground arith

enough : (r : Bool) (n : ℕ) → (r && (n == 0)) ≡ false → r ≡ true → 0 < n
enough r n e y = ground arith

normalized_hypothesis-Normalized :
    (env : Env) (require_evidence : Bool) (h n : Hypothesis)
    → normalized_hypothesis env require_evidence h ≡ some n
    → Normalized require_evidence n
unfolding normalized_hypothesis
normalized_hypothesis-Normalized env require_evidence h n e =
    subst (Normalized require_evidence) both.1 (
      (truncate_text_lem (env.sanitize_text (trim_space h.summary)) 2048).0,
      λ same. true≢false (sym ((eq_iff _ _).1 same) ∙ tests.0),
      in_unit h.confidence tests.1,
      (unique_ids_lem h.evidence_ids).0,
      unique_ids-pos h.evidence_ids,
      enough require_evidence _ tests.2,
    )
  where
    summary : String
    summary = truncate_text (env.sanitize_text (trim_space h.summary)) 2048

    both :
        ((str_eq summary ""
            || out_of_unit h.confidence
            || (require_evidence && length (unique_ids h.evidence_ids) == 0))
          ≡ false)
        × (record h { summary = summary; evidence_ids = unique_ids h.evidence_ids } ≡ n)
    both = taken _ _ n e

    tests :
        (str_eq summary "" ≡ false)
        × (out_of_unit h.confidence ≡ false)
        × ((require_evidence && length (unique_ids h.evidence_ids) == 0) ≡ false)
    tests = passed _ _ _ both.0

cons_taken :
    {A : Type 0} (o : Option A) (r : Result Error (List A)) (answer : List A)
    → cons_ok o r ≡ ok answer
    → (n : A) × (xs : List A) × (o ≡ some n) × (r ≡ ok xs) × (n ∷ xs ≡ answer)
cons_taken none r answer e = absurd cc
cons_taken (some n) (err x) answer e = absurd cc
cons_taken (some n) (ok xs) answer e = (n, xs, refl, refl, cc)

-- Every hypothesis that `normalizedHypotheses` answers is normalised.
pub normalized_hypotheses-Normalized :
    (env : Env) (hs : List Hypothesis) (require_evidence : Bool) (answer : List Hypothesis)
    → normalized_hypotheses env hs require_evidence ≡ ok answer
    → All (Normalized require_evidence) answer
unfolding normalized_hypotheses
normalized_hypotheses-Normalized env [] r answer e =
    let same : [] ≡ answer = cc in subst (All (Normalized r)) same tt
normalized_hypotheses-Normalized env (h ∷ hs) r answer e =
    let (n, xs, taken_h, taken_hs, same) =
      cons_taken (normalized_hypothesis env r h) (normalized_hypotheses env hs r) answer e in
    subst (All (Normalized r)) same (
      normalized_hypothesis-Normalized env r h n taken_h,
      normalized_hypotheses-Normalized env hs r xs taken_hs,
    )

-- An action that was taken for the next round: a key of at most 160 runes and a skill of at most 120,
-- neither of them empty.
abbrev pub NormalAction : NextAction → Type 0
NormalAction a =
    (a.action_key ≢ "")
    × (rune_count a.action_key ≤ 160)
    × (a.skill_name ≢ "")
    × (rune_count a.skill_name ≤ 120)

either : (a b : Bool) → (a || b) ≡ false → (a ≡ false) × (b ≡ false)
either a b e = ground arith

normalized_next_action-NormalAction :
    (env : Env) (a n : NextAction) → normalized_next_action env a ≡ some n → NormalAction n
unfolding normalized_next_action
normalized_next_action-NormalAction env a n e = go (sanitize_json env a.input (16 * 1024)) e
  where
    key : String
    key = truncate_text (trim_space a.action_key) 160

    skill : String
    skill = truncate_text (trim_space a.skill_name) 120

    go :
        (input : Option String)
        → elim input as (λ _. Option NextAction) [
          | none ↦ none
          | some input ↦
              if str_eq key "" || str_eq skill ""
              then none
              else some (record { action_key = key; skill_name = skill; input = input })
        ]
          ≡ some n
        → NormalAction n
    go none e = absurd cc
    go (some input) e =
        let (named, same) = taken (str_eq key "" || str_eq skill "") _ n e in
        let (has_key, has_skill) = either (str_eq key "") (str_eq skill "") named in
        subst NormalAction same (
          λ empty. true≢false (sym ((eq_iff _ _).1 empty) ∙ has_key),
          (truncate_text_lem (trim_space a.action_key) 160).0,
          λ empty. true≢false (sym ((eq_iff _ _).1 empty) ∙ has_skill),
          (truncate_text_lem (trim_space a.skill_name) 120).0,
        )

-- Every action that `normalizedNextActions` answers is normalised.
pub normalized_next_actions-NormalAction :
    (env : Env) (actions : List NextAction) (answer : List NextAction)
    → normalized_next_actions env actions ≡ ok answer
    → All NormalAction answer
unfolding normalized_next_actions
normalized_next_actions-NormalAction env [] answer e =
    let same : [] ≡ answer = cc in subst (All NormalAction) same tt
normalized_next_actions-NormalAction env (a ∷ rest) answer e =
    let (n, xs, taken_a, taken_rest, same) =
      cons_taken (normalized_next_action env a) (normalized_next_actions env rest) answer e in
    subst (All NormalAction) same (
      normalized_next_action-NormalAction env a n taken_a,
      normalized_next_actions-NormalAction env rest xs taken_rest,
    )
