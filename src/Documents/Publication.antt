-- ===== src/Documents/Publication.antt =====
-- The versions of documents, their publication and deprecation, and the gate before it. A transaction
-- of the repository is one function of the two tables; times, comments and the stored gate are left
-- out. The evaluation, the index and the test run of a version are what the three queries find; the
-- parse result is the decoded one. An id that the code refuses as not positive is 0.
use text.Mathlib.Text.{◌==◌ as str_eq}
use adbcops.Common.{
  ℕ, suc, String, Bool, true, false, ◌&&◌, ◌||◌, Option, none, some, List, [], ◌∷◌, Result, ok, err,
  if◌then◌else◌, ◌==◌, ltb,
}
use adbcops.Rca.Store.{find, update, next_id}

pub data VersionStatus : Type 0 where
  draft processing reviewing published superseded deprecated failed : VersionStatus

pub data DocumentStatus : Type 0 where
  draft reviewing rejected published archived deprecated : DocumentStatus

pub record ParseQuality : Type 0 where
  pub parse_success : Bool
  pub block_count : ℕ

pub record Version : Type 0 where
  pub id : ℕ
  pub document_id : ℕ
  pub version : String
  pub revision_no : ℕ
  pub status : VersionStatus
  pub parse_quality : Option ParseQuality

pub record Document : Type 0 where
  pub id : ℕ
  pub version : String
  pub status : DocumentStatus
  pub created_by : Option ℕ
  pub current_published_version_id : Option ℕ

-- The table of publications, newest first.
pub data Publication : Type 0 where
  publish_entry supersede_entry deprecate_entry : ℕ → ℕ → ℕ → Publication

pub record State : Type 0 where
  pub documents : List Document
  pub versions : List Version
  pub publications : List Publication

pub data DocumentError : Type 0 where
  invalid_input admin_required forbidden not_found immutable publication_gate : DocumentError

pub record Actor : Type 0 where
  pub id : ℕ
  pub admin : Bool

abbrev pub version_key : Version → ℕ
version_key v = v.id

abbrev pub document_key : Document → ℕ
document_key d = d.id

abbrev pub is_published : VersionStatus → Bool
is_published published = true
is_published _ = false

abbrev pub is_superseded : VersionStatus → Bool
is_superseded superseded = true
is_superseded _ = false

-- A version that is never published again.
abbrev pub is_closed : VersionStatus → Bool
is_closed deprecated = true
is_closed failed = true
is_closed _ = false

abbrev pub max_revision : ℕ → String → List Version → ℕ
max_revision id label [] = 0
max_revision id label (v ∷ vs) =
    let rest = max_revision id label vs in
    if v.document_id == id && str_eq v.version label && ltb rest v.revision_no
    then v.revision_no
    else rest

abbrev pub new_version : ℕ → String → State → Version
new_version document_id label st = record {
  id = next_id version_key st.versions;
  document_id = document_id;
  version = label;
  revision_no = suc (max_revision document_id label st.versions);
  status = draft;
  parse_quality = none;
}

abbrev pub create_found :
    ℕ → String → State → Option Document → Result DocumentError (Unit {0}) × State
create_found id label st none = (err not_found, st)
create_found id label st (some d) =
    (ok tt, record st { versions = new_version id label st ∷ st.versions })

-- `CreateDocumentVersion`.
unfoldable pub create_document_version :
    ℕ → String → State → Result DocumentError (Unit {0}) × State
unfolding find next_id
create_document_version id label st = create_found id label st (find document_key id st.documents)

-- `Where("id = ? AND status = ?", oldID, published)` of the update that supersedes.
abbrev pub supersede_row : Version → Version
supersede_row v = record v { status = if is_published v.status then superseded else v.status }

abbrev pub supersede : Option ℕ → ℕ → List Version → List Version
supersede none id vs = vs
supersede (some old) id vs = if old == id then vs else update version_key old supersede_row vs

abbrev pub superseded_entry : Option ℕ → Version → ℕ → List Publication → List Publication
superseded_entry none v actor log = log
superseded_entry (some old) v actor log =
    if old == v.id then log else supersede_entry v.document_id old actor ∷ log

abbrev pub publish_row : Version → Version
publish_row v = record v { status = published }

abbrev pub publish_document : Version → Document → Document
publish_document v d = record d {
  current_published_version_id = some v.id;
  version = v.version;
  status = published;
}

abbrev pub publish_rows : ℕ → Version → Document → State → State
publish_rows actor v d st = record {
  documents = update document_key v.document_id (publish_document v) st.documents;
  versions =
      update version_key v.id publish_row
        (supersede d.current_published_version_id v.id st.versions);
  publications =
      publish_entry v.document_id v.id actor
      ∷ superseded_entry d.current_published_version_id v actor st.publications;
}

abbrev pub publish_document_of :
    ℕ → Version → State → Option Document → Result DocumentError (Unit {0}) × State
publish_document_of actor v st none = (err not_found, st)
publish_document_of actor v st (some d) =
    if is_closed v.status then (err immutable, st) else (ok tt, publish_rows actor v d st)

abbrev pub publish_found : ℕ → State → Option Version → Result DocumentError (Unit {0}) × State
publish_found actor st none = (err not_found, st)
publish_found actor st (some v) =
    publish_document_of actor v st (find document_key v.document_id st.documents)

-- `PublishDocumentVersion`.
unfoldable pub publish_document_version : ℕ → ℕ → State → Result DocumentError (Unit {0}) × State
unfolding find update
publish_document_version id actor st = publish_found actor st (find version_key id st.versions)

abbrev pub deprecate_row : Version → Version
deprecate_row v = record v { status = deprecated }

abbrev pub is_current : ℕ → Option ℕ → Bool
is_current id none = false
is_current id (some k) = k == id

abbrev pub deprecate_document : ℕ → Document → Document
deprecate_document id d = record d {
  current_published_version_id =
      if is_current id d.current_published_version_id then none else d.current_published_version_id;
  status = if is_current id d.current_published_version_id then deprecated else d.status;
}

abbrev pub deprecate_rows : ℕ → Version → State → State
deprecate_rows actor v st = record {
  documents = update document_key v.document_id (deprecate_document v.id) st.documents;
  versions = update version_key v.id deprecate_row st.versions;
  publications = deprecate_entry v.document_id v.id actor ∷ st.publications;
}

abbrev pub deprecate_found : ℕ → State → Option Version → Result DocumentError (Unit {0}) × State
deprecate_found actor st none = (err not_found, st)
deprecate_found actor st (some v) =
    if is_published v.status || is_superseded v.status
    then (ok tt, deprecate_rows actor v st)
    else (err immutable, st)

-- `DeprecateDocumentVersion`.
unfoldable pub deprecate_document_version : ℕ → ℕ → State → Result DocumentError (Unit {0}) × State
unfolding find update
deprecate_document_version id actor st = deprecate_found actor st (find version_key id st.versions)
