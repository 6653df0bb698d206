-- ===== src/Documents/Gate.antt =====
-- The publication service (backend/internal/document/publication_service.go) with the reads that it
-- begins with (`Get`, `GetDocumentVersion`).
use text.Mathlib.Text.{◌==◌ as str_eq}
use adbcops.Common.{
  ℕ, String, Bool, true, false, not, ◌&&◌, ◌||◌, Option, none, some, List, [], ◌∷◌, Result, ok, err,
  if◌then◌else◌, ◌==◌, ltb,
}
use adbcops.Rca.Store.{find}
use adbcops.Documents.Publication.{
  Version, Document, State, Actor, DocumentError, invalid_input, admin_required, forbidden,
  not_found, publication_gate, version_key, document_key, is_closed, VersionStatus, published,
  superseded, deprecated, create_document_version, publish_document_version,
  deprecate_document_version,
}

pub record Evaluation : Type 0 where
  pub gate_status : String
  pub review_status : String

pub record EmbeddingIndex : Type 0 where
  pub status : String
  pub chunk_count : ℕ
  pub embedded_count : ℕ

pub record SmokeRun : Type 0 where
  pub status : String
  pub passed : Bool

-- What the three queries find for a version.
pub record Sources : Type 0 where
  pub quality : ℕ → Option Evaluation
  pub embedding : ℕ → Option EmbeddingIndex
  pub smoke : ℕ → Option SmokeRun

pub record Check : Type 0 where
  pub name : String
  pub passed : Bool

pub record Gate : Type 0 where
  pub can_publish : Bool
  pub checks : List Check

abbrev pub owns : Actor → Document → Bool
owns a d = elim d.created_by [ none ↦ false | some u ↦ u == a.id ]

abbrev pub get_found : Actor → Option Document → Result DocumentError Document
get_found a none = err not_found
get_found a (some d) = if not a.admin && not (owns a d) then err forbidden else ok d

abbrev pub get_as : Option Actor → ℕ → State → Result DocumentError Document
get_as none id st = err invalid_input
get_as (some a) id st =
    if id == 0 then err invalid_input else get_found a (find document_key id st.documents)

-- `Get`.
unfoldable pub get_document : Option Actor → ℕ → State → Result DocumentError Document
unfolding find
get_document actor id st = get_as actor id st

abbrev pub version_of : Version → Result DocumentError Document → Result DocumentError Version
version_of v (ok d) = ok v
version_of v (err e) = err e

abbrev pub version_found : Option Actor → State → Option Version → Result DocumentError Version
version_found actor st none = err not_found
version_found actor st (some v) = version_of v (get_as actor v.document_id st)

abbrev pub version_as : Option Actor → ℕ → State → Result DocumentError Version
version_as none id st = err invalid_input
version_as (some a) id st =
    if id == 0
    then err invalid_input
    else version_found (some a) st (find version_key id st.versions)

-- `GetDocumentVersion`.
unfoldable pub get_document_version : Option Actor → ℕ → State → Result DocumentError Version
unfolding find
get_document_version actor id st = version_as actor id st

abbrev pub parse_passed : Version → Bool
parse_passed v = elim v.parse_quality [
  | none ↦ false
  | some q ↦ q.parse_success && ltb 0 q.block_count
]

abbrev pub quality_passed : Option Evaluation → Bool
quality_passed none = false
quality_passed (some e) = str_eq e.gate_status "pass"

abbrev pub review_passed : Option Evaluation → Bool
review_passed none = false
review_passed (some e) = str_eq e.review_status "published"

abbrev pub embedding_passed : Option EmbeddingIndex → Bool
embedding_passed none = false
embedding_passed (some i) =
    str_eq i.status "ready" && ltb 0 i.chunk_count && i.embedded_count == i.chunk_count

abbrev pub retrieval_passed : Option SmokeRun → Bool
retrieval_passed none = false
retrieval_passed (some r) = str_eq r.status "completed" && r.passed

abbrev pub all_passed : Bool → List Check → Bool
all_passed b [] = b
all_passed b (c ∷ cs) = all_passed (b && c.passed) cs

abbrev pub checks_of : Sources → Version → List Check
checks_of s v =
    record { name = "parse"; passed = parse_passed v }
    ∷ record { name = "quality"; passed = quality_passed (s.quality v.id) }
    ∷ record { name = "embedding"; passed = embedding_passed (s.embedding v.id) }
    ∷ record { name = "retrieval"; passed = retrieval_passed (s.smoke v.id) }
    ∷ record { name = "review"; passed = review_passed (s.quality v.id) }
    ∷ []

unfoldable pub gate_of : Sources → Version → Gate
gate_of s v = record {
  can_publish = all_passed (not (is_closed v.status)) (checks_of s v);
  checks = checks_of s v;
}

abbrev pub gate_result : Sources → Result DocumentError Version → Result DocumentError Gate
gate_result s (err e) = err e
gate_result s (ok v) = ok (gate_of s v)

-- `EvaluatePublicationGate`.
unfoldable pub evaluate_publication_gate :
    Sources → Option Actor → ℕ → State → Result DocumentError Gate
unfolding get_document_version gate_of
evaluate_publication_gate s actor id st = gate_result s (get_document_version actor id st)

abbrev pub is_admin : Option Actor → Bool
is_admin none = false
is_admin (some a) = a.admin

abbrev pub actor_id : Option Actor → ℕ
actor_id none = 0
actor_id (some a) = a.id

abbrev pub publish_gated :
    Option Actor → ℕ → State → Result DocumentError Gate → Result DocumentError (Unit {0}) × State
publish_gated actor id st (err e) = (err e, st)
publish_gated actor id st (ok gate) =
    if gate.can_publish
    then publish_document_version id (actor_id actor) st
    else (err publication_gate, st)

-- `PublishVersion`.
unfoldable pub publish_version :
    Sources → Option Actor → ℕ → State → Result DocumentError (Unit {0}) × State
unfolding evaluate_publication_gate publish_document_version
publish_version s actor id st =
    if is_admin actor
    then publish_gated actor id st (evaluate_publication_gate s actor id st)
    else (err admin_required, st)

abbrev pub deprecate_read :
    Option Actor
    → ℕ
    → State
    → Result DocumentError Version
    → Result DocumentError (Unit {0}) × State
deprecate_read actor id st (err e) = (err e, st)
deprecate_read actor id st (ok v) = deprecate_document_version id (actor_id actor) st

-- `DeprecateVersion`.
unfoldable pub deprecate_version :
    Option Actor → ℕ → State → Result DocumentError (Unit {0}) × State
unfolding get_document_version deprecate_document_version
deprecate_version actor id st =
    if is_admin actor
    then deprecate_read actor id st (get_document_version actor id st)
    else (err admin_required, st)

-- A version that a citation may name.
abbrev pub is_citable : VersionStatus → Bool
is_citable published = true
is_citable superseded = true
is_citable deprecated = true
is_citable _ = false

abbrev pub cite_found : Option Version → Bool → Result DocumentError Version
cite_found none has_chunk = err not_found
cite_found (some v) has_chunk =
    if not has_chunk then err not_found else if is_citable v.status then ok v else err forbidden

-- `ResolveHistoricalCitation`; `has_chunk` tells whether the version has the chunk.
unfoldable pub resolve_historical_citation :
    (ℕ → ℕ → Bool) → Option Actor → ℕ → ℕ → State → Result DocumentError Version
unfolding find
resolve_historical_citation has_chunk none version_id chunk_id st = err invalid_input
resolve_historical_citation has_chunk (some a) version_id chunk_id st =
    if version_id == 0 || chunk_id == 0
    then err invalid_input
    else cite_found (find version_key version_id st.versions) (has_chunk version_id chunk_id)

-- A request on versions. An upload has stored its file, and its label is trimmed.
pub data Request : Type 0 where
  uploads : ℕ → String → Request
  publishes : Sources → Option Actor → ℕ → Request
  deprecates : Option Actor → ℕ → Request

unfoldable pub serve : Request → State → State
unfolding create_document_version publish_version deprecate_version
serve (uploads id label) st = (create_document_version id label st).1
serve (publishes s actor id) st = (publish_version s actor id st).1
serve (deprecates actor id) st = (deprecate_version actor id st).1

unfoldable pub serve_all : List Request → State → State
unfolding serve
serve_all [] st = st
serve_all (r ∷ rs) st = serve_all rs (serve r st)
