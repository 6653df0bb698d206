-- ===== src/Workflow/Mapping/Paths.antt =====
-- What the paths and the mappings of a workflow node can reach.
use Prim.Native.Char.{Char, code}
use Prim.Native.String.{[], ◌∷◌}
use text.Mathlib.TextEquality.{Char-path}
use adbcops.Common.{
  ℕ, ◌≤◌, ◌≡◌, refl, sym, ap, subst, ◌∙◌, inl, inr, String, true, not, ◌||◌, none, some, List, [],
  ◌∷◌, ◌==◌, ltb, All, arith, Bool-cases, Option-cases, ==_iff,
}
use adbcops.Common.Text.{trim_space, byte_count}
use adbcops.Workflow.Json.{Json, Fields, Codec, null, boolean, number, string, array, object}
use adbcops.Workflow.Mapping.{
  safe_mapping_key, push_char, split_dots, after_dollar, follow, is_root, resolve_parts,
  resolve_workflow_path, get_field, opened,
}

abbrev pub glue : String → String → String
glue [] t = t
glue (c ∷ s) t = c ∷ glue s t

abbrev pub dot : Char
dot = "."

-- The parts of a path, with a dot between each two.
abbrev pub join_dots : List String → String
join_dots [] = ""
join_dots (p ∷ []) = p
join_dots (p ∷ q ∷ ps) = glue p (dot ∷ join_dots (q ∷ ps))

split_dots-some : (s : String) → (p : String) × (ps : List String) × (split_dots s ≡ p ∷ ps)
unfolding split_dots
split_dots-some [] = ("", [], refl)
split_dots-some (c ∷ s) =
    let (p, ps, e) = split_dots-some s in
    elim (Bool-cases (code c == b'.')) [
      | inl y ↦ ("", split_dots s, rw y refl)
      | inr n ↦ (c ∷ p, ps, rw (n, e) refl)
    ]

push_char-join :
    (c : Char) (p : String) (ps : List String)
    → join_dots (push_char c (p ∷ ps)) ≡ c ∷ join_dots (p ∷ ps)
push_char-join c p [] = refl
push_char-join c p (q ∷ ps) = refl

-- Splitting a text at its dots loses nothing: its parts joined by dots are the text.
pub join_dots-split_dots : (s : String) → join_dots (split_dots s) ≡ s
unfolding split_dots
join_dots-split_dots [] = refl
join_dots-split_dots (c ∷ s) =
    let (p, ps, e) = split_dots-some s in
    let ih : join_dots (p ∷ ps) ≡ s = ap join_dots (sym e) ∙ join_dots-split_dots s in
    elim (Bool-cases (code c == b'.')) [
      | inl y ↦
          rw (y, e)
            (ap (λ t. dot ∷ t) ih
              ∙ ap (λ k. k ∷ s) (Char-path dot c (sym ((==_iff (code c) b'.').0 y))))
      | inr n ↦ rw (n, e) (push_char-join c p ps ∙ ap (λ t. c ∷ t) ih)
    ]

-- A path that resolves: it names fields by safe keys only.
follow-safe :
    (c : Codec) (v : Json) (parts : List String) (found : Json)
    → follow c v parts ≡ some found
    → All (λ p. safe_mapping_key p ≡ true) parts
unfolding follow
follow-safe c v [] found e = tt
follow-safe c (object fields) (p ∷ ps) found e = elim (Bool-cases (safe_mapping_key p)) [
  | inr n ↦ absurd (nothing (rw n at e))
  | inl y ↦ elim (Option-cases (get_field p fields)) [
    | inl g ↦ absurd (nothing (rw (y, g) at e))
    | inr (w, g) ↦ (y, follow-safe c (opened c w) ps found (rw (y, g) at e))
  ]
]
  where
    nothing : none ≡ some found → ⊥
    nothing q = cc
follow-safe c null (p ∷ ps) found e = absurd cc
follow-safe c (boolean b) (p ∷ ps) found e = absurd cc
follow-safe c (number b) (p ∷ ps) found e = absurd cc
follow-safe c (string b) (p ∷ ps) found e = absurd cc
follow-safe c (array b) (p ∷ ps) found e = absurd cc

-- The parts of a path that resolves.
pub record IsPath (path : String) (parts : List String) : Type 0 where
  pub text : after_dollar (trim_space path) ≡ some (join_dots parts)
  pub rooted : is_root parts ≡ true
  pub safe : All (λ p. safe_mapping_key p ≡ true) parts
  pub short : byte_count (trim_space path) ≤ 256

resolve_parts-some :
    (c : Codec) (root : Fields) (size : ℕ) (rest : String) (v : Json)
    → resolve_parts c root size (some rest) ≡ some v
    → (size ≤ 256)
      × (is_root (split_dots rest) ≡ true)
      × All (λ p. safe_mapping_key p ≡ true) (split_dots rest)
unfolding resolve_parts
resolve_parts-some c root size rest v e =
    elim (Bool-cases (ltb 256 size || not (is_root (split_dots rest)))) [
      | inl y ↦ absurd (nothing (rw y at e))
      | inr n ↦
          (ground arith, ground arith, follow-safe c (object root) (split_dots rest) v (rw n at e))
    ]
  where
    nothing : none ≡ some v → ⊥
    nothing q = cc

-- A path that resolves to a value has, without the space around it, at most 256 bytes, and is then
-- "$." before two parts or more, the first of them "workflowInput" or "previous", each of them a safe
-- key.
pub resolve_workflow_path-IsPath :
    (c : Codec) (root : Fields) (path : String) (v : Json)
    → resolve_workflow_path c root path ≡ some v
    → (parts : List String) × IsPath path parts
unfolding resolve_workflow_path resolve_parts
resolve_workflow_path-IsPath c root path v e =
    elim (Option-cases (after_dollar (trim_space path))) [
      | inl a ↦ absurd (
          nothing (subst (λ r. resolve_parts c root (byte_count (trim_space path)) r ≡ some v) a e))
      | inr (rest, a) ↦
          let (short, rooted, safe) =
            resolve_parts-some c root (byte_count (trim_space path)) rest v
              (subst (λ r. resolve_parts c root (byte_count (trim_space path)) r ≡ some v) a e) in
          (
            split_dots rest,
            record {
              text = a ∙ ap some (sym (join_dots-split_dots rest));
              rooted = rooted;
              safe = safe;
              short = short;
            },
          )
    ]
  where
    nothing : none ≡ some v → ⊥
    nothing q = cc
