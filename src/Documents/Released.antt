-- ===== src/Documents/Released.antt =====
-- A publication goes through the gate.
use adbcops.Common.{
  ℕ, ◌≡◌, ◌≢◌, refl, ap, subst, ◌∙◌, inl, inr, Bool, true, false, not, ◌&&◌, Option, none, some,
  Result, ok, err, ◌==◌, arith, Bool-cases,
}
use adbcops.Rca.Store.{find}
use adbcops.Rca.Tables.{found_key}
use adbcops.Documents.Publication.{
  deprecated, failed, Version, Document, State, Actor, DocumentError, not_found, invalid_input,
  immutable, publication_gate, admin_required, is_closed, version_key, document_key, publish_row,
  publish_rows, publish_document_of, publish_found, publish_document_version,
}
use adbcops.Documents.Gate.{
  get_as, version_of, version_found, gate_result, Sources, gate_of, parse_passed, quality_passed,
  review_passed, embedding_passed, retrieval_passed, is_admin, actor_id, publish_gated,
  publish_version, get_document_version, evaluate_publication_gate,
}
use adbcops.Documents.Checks.{
  Parsed, QualityPassed, Reviewed, Embedded, Retrieved, passed-Parsed, passed-QualityPassed,
  passed-Reviewed, passed-Embedded, passed-Retrieved, open_status, administrator,
}
use adbcops.Documents.Lookups.{some_same, eq_self, published_find}

-- A publication that went through: an administrator asked for it, every check of the gate passed for a
-- version that is not closed, and that version is published now.
pub record IsReleased (s : Sources) (actor : Option Actor) (id : ℕ) (st after : State)
    : Type 0 where
  pub admin : (a : Actor) × (actor ≡ some a) × (a.admin ≡ true)
  pub version : Version
  pub found : find version_key id st.versions ≡ some version
  pub not_closed : (version.status ≢ deprecated) × (version.status ≢ failed)
  pub parsed : Parsed version
  pub quality : QualityPassed (s.quality id)
  pub embedded : Embedded (s.embedding id)
  pub retrieved : Retrieved (s.smoke id)
  pub reviewed : Reviewed (s.quality id)
  pub released : find version_key id after.versions ≡ some (publish_row version)

gate_passes :
    (s : Sources) (v : Version)
    → (gate_of s v).can_publish ≡ true
    → (is_closed v.status ≡ false)
      × (parse_passed v ≡ true)
      × (quality_passed (s.quality v.id) ≡ true)
      × (embedding_passed (s.embedding v.id) ≡ true)
      × (retrieval_passed (s.smoke v.id) ≡ true)
      × (review_passed (s.quality v.id) ≡ true)
unfolding gate_of
gate_passes s v e =
    six (is_closed v.status) (parse_passed v) (quality_passed (s.quality v.id))
      (embedding_passed (s.embedding v.id)) (retrieval_passed (s.smoke v.id))
      (review_passed (s.quality v.id)) e
  where
    six :
        (a b c d f g : Bool)
        → (not a && b && c && d && f && g) ≡ true
        → (a ≡ false) × (b ≡ true) × (c ≡ true) × (d ≡ true) × (f ≡ true) × (g ≡ true)
    six a b c d f g q = (
      ground (arith, q),
      ground (arith, q),
      ground (arith, q),
      ground (arith, q),
      ground (arith, q),
      ground (arith, q),
    )

err_ok : {A : Type 0} (e : DocumentError) (a : A) → err e ≢ ok a
err_ok e a q = cc

version_of-ok :
    (u v : Version) (r : Result DocumentError Document) → version_of u r ≡ ok v → some u ≡ some v
version_of-ok u v (err f) q = absurd (err_ok f v q)
version_of-ok u v (ok d) q = ap taken q
  where
    taken : Result DocumentError Version → Option Version
    taken (ok w) = some w
    taken (err f) = none

version_found-ok :
    (actor : Option Actor) (st : State) (o : Option Version) (v : Version)
    → version_found actor st o ≡ ok v
    → o ≡ some v
version_found-ok actor st none v e = absurd (err_ok not_found v e)
version_found-ok actor st (some u) v e = version_of-ok u v (get_as actor u.document_id st) e

get_document_version-ok :
    (actor : Option Actor) (id : ℕ) (st : State) (v : Version)
    → get_document_version actor id st ≡ ok v
    → find version_key id st.versions ≡ some v
unfolding get_document_version
get_document_version-ok none id st v e = absurd (err_ok invalid_input v e)
get_document_version-ok (some a) id st v e = elim (Bool-cases (id == 0)) [
  | inl y ↦ absurd (err_ok invalid_input v (rw y at e))
  | inr n ↦ version_found-ok (some a) st (find version_key id st.versions) v (rw n at e)
]

publish_document_of-ok :
    (actor : ℕ) (v : Version) (st : State) (o : Option Document)
    → (publish_document_of actor v st o).0 ≡ ok tt
    → (d : Document) × ((publish_document_of actor v st o).1 ≡ publish_rows actor v d st)
publish_document_of-ok actor v st none e = absurd (err_ok not_found tt e)
publish_document_of-ok actor v st (some d) e = elim (Bool-cases (is_closed v.status)) [
  | inl y ↦ absurd (err_ok immutable tt (rw y at e))
  | inr n ↦ (d, rw n refl)
]

publish_found-ok :
    (actor id : ℕ) (v : Version) (st : State) (o : Option Version)
    → o ≡ some v
    → find version_key id st.versions ≡ some v
    → (publish_found actor st o).0 ≡ ok tt
    → find version_key id (publish_found actor st o).1.versions ≡ some (publish_row v)
publish_found-ok actor id v st none o f e = absurd (err_ok not_found tt e)
publish_found-ok actor id v st (some u) o f e =
    let (d, after) =
      publish_document_of-ok actor u st (find document_key u.document_id st.documents) e in
    let same : u ≡ v = some_same (some u) u v refl o in
    let u_id : u.id ≡ id =
      ap (λ (r : Version). r.id) same ∙ found_key version_key id st.versions v f in
    ap (λ (r : State). find version_key id r.versions) after
    ∙ published_find actor u d st id
    ∙ rw (u_id, eq_self id, f) refl

publish_gated-IsReleased :
    (s : Sources) (actor : Option Actor) (id : ℕ) (st : State) (read : Result DocumentError Version)
    → is_admin actor ≡ true
    → ((v : Version) → read ≡ ok v → find version_key id st.versions ≡ some v)
    → (publish_gated actor id st (gate_result s read)).0 ≡ ok tt
    → IsReleased s actor id st (publish_gated actor id st (gate_result s read)).1
unfolding publish_document_version
publish_gated-IsReleased s actor id st (err f) a g e = absurd (err_ok f tt e)
publish_gated-IsReleased s actor id st (ok v) a g e = elim (Bool-cases (gate_of s v).can_publish) [
  | inr n ↦ absurd (err_ok publication_gate tt (rw n at e))
  | inl y ↦ rw y (released y (rw y at e))
]
  where
    released :
        (gate_of s v).can_publish ≡ true
        → (publish_document_version id (actor_id actor) st).0 ≡ ok tt
        → IsReleased s actor id st (publish_document_version id (actor_id actor) st).1
    released y q =
        let found = g v refl in
        let v_id = found_key version_key id st.versions v found in
        let (c, parse, quality, embedding, retrieval, review) = gate_passes s v y in
        record {
          admin = administrator actor a;
          version = v;
          found = found;
          not_closed = open_status v.status c;
          parsed = passed-Parsed v parse;
          quality =
              passed-QualityPassed _
                (subst (λ k. quality_passed (s.quality k) ≡ true) v_id quality);
          embedded =
              passed-Embedded _
                (subst (λ k. embedding_passed (s.embedding k) ≡ true) v_id embedding);
          retrieved =
              passed-Retrieved _ (subst (λ k. retrieval_passed (s.smoke k) ≡ true) v_id retrieval);
          reviewed =
              passed-Reviewed _ (subst (λ k. review_passed (s.quality k) ≡ true) v_id review);
          released = publish_found-ok (actor_id actor) id v st _ found found q;
        }

-- `PublishVersion` goes through only for an administrator and a version that was parsed, whose quality
-- evaluation passed and was reviewed, whose embedding index is ready and complete, whose retrieval
-- test passed, and that is neither failed nor deprecated; the version is published then.
pub publish_version-IsReleased :
    (s : Sources) (actor : Option Actor) (id : ℕ) (st : State)
    → (publish_version s actor id st).0 ≡ ok tt
    → IsReleased s actor id st (publish_version s actor id st).1
unfolding publish_version evaluate_publication_gate
publish_version-IsReleased s actor id st e = elim (Bool-cases (is_admin actor)) [
  | inr n ↦ absurd (err_ok admin_required tt (rw n at e))
  | inl y ↦ rw y (
      publish_gated-IsReleased s actor id st (get_document_version actor id st) y
        (get_document_version-ok actor id st) (rw y at e))
]
