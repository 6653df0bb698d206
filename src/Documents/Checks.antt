-- ===== src/Documents/Checks.antt =====
-- What the checks of the gate and the guards of a publication mean
-- (backend/internal/document/publication_service.go).
use text.Mathlib.TextEquality.{eq_iff}
use adbcops.Common.{
  ◌<◌, ◌≡◌, ◌≢◌, refl, ap, sym, ◌∙◌, Bool, true, false, ◌&&◌, Option, none, some, ltb, ==_iff,
  arith,
}
use adbcops.Documents.Publication.{
  ParseQuality, Version, VersionStatus, deprecated, failed, Actor, is_closed,
}
use adbcops.Documents.Gate.{
  Evaluation, EmbeddingIndex, SmokeRun, parse_passed, quality_passed, review_passed,
  embedding_passed, retrieval_passed, is_admin,
}

-- The parser was successful and found blocks.
abbrev pub Parsed : Version → Type 0
Parsed v =
    (q : ParseQuality) × (v.parse_quality ≡ some q) × (q.parse_success ≡ true) × (0 < q.block_count)

abbrev pub QualityPassed : Option Evaluation → Type 0
QualityPassed o = (e : Evaluation) × (o ≡ some e) × (e.gate_status ≡ "pass")

abbrev pub Reviewed : Option Evaluation → Type 0
Reviewed o = (e : Evaluation) × (o ≡ some e) × (e.review_status ≡ "published")

-- The index is ready, and all of its chunks, at least one, are embedded.
abbrev pub Embedded : Option EmbeddingIndex → Type 0
Embedded o =
    (i : EmbeddingIndex) × (o ≡ some i)
    × (i.status ≡ "ready")
    × (0 < i.chunk_count)
    × (i.embedded_count ≡ i.chunk_count)

abbrev pub Retrieved : Option SmokeRun → Type 0
Retrieved o = (r : SmokeRun) × (o ≡ some r) × (r.status ≡ "completed") × (r.passed ≡ true)

both_true : (a b : Bool) → (a && b) ≡ true → (a ≡ true) × (b ≡ true)
both_true a b e = ground arith

pub passed-Parsed : (v : Version) → parse_passed v ≡ true → Parsed v
passed-Parsed v e = go v.parse_quality refl e
  where
    go :
        (o : Option ParseQuality)
        → v.parse_quality ≡ o
        → elim o as (λ _. Bool) [ none ↦ false | some q ↦ q.parse_success && ltb 0 q.block_count ]
          ≡ true
        → Parsed v
    go none f e = absurd cc
    go (some q) f e =
        let (success, blocks) = both_true _ _ e in (q, f, success, ground (arith, blocks))

pub passed-QualityPassed : (o : Option Evaluation) → quality_passed o ≡ true → QualityPassed o
passed-QualityPassed none e = absurd cc
passed-QualityPassed (some v) e = (v, refl, (eq_iff v.gate_status "pass").0 e)

pub passed-Reviewed : (o : Option Evaluation) → review_passed o ≡ true → Reviewed o
passed-Reviewed none e = absurd cc
passed-Reviewed (some v) e = (v, refl, (eq_iff v.review_status "published").0 e)

pub passed-Embedded : (o : Option EmbeddingIndex) → embedding_passed o ≡ true → Embedded o
passed-Embedded none e = absurd cc
passed-Embedded (some i) e =
    let (counted, all) = both_true _ _ e in
    let (status, chunks) = both_true _ _ counted in
    (
      i,
      refl,
      (eq_iff i.status "ready").0 status,
      ground (arith, chunks),
      (==_iff i.embedded_count i.chunk_count).0 all,
    )

pub passed-Retrieved : (o : Option SmokeRun) → retrieval_passed o ≡ true → Retrieved o
passed-Retrieved none e = absurd cc
passed-Retrieved (some r) e =
    let (status, success) = both_true _ _ e in
    (r, refl, (eq_iff r.status "completed").0 status, success)

pub open_status :
    (status : VersionStatus) → is_closed status ≡ false → (status ≢ deprecated) × (status ≢ failed)
open_status status e = (
  λ same. true_false (sym (ap is_closed same) ∙ e),
  λ same. true_false (sym (ap is_closed same) ∙ e),
)
  where
    true_false : true ≡ false → ⊥
    true_false q = cc

pub administrator :
    (actor : Option Actor)
    → is_admin actor ≡ true
    → (a : Actor) × (actor ≡ some a) × (a.admin ≡ true)
administrator none e = absurd cc
administrator (some a) e = (a, refl, e)
