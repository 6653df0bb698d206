-- ===== src/Documents/Published.antt =====
-- A publication keeps the published versions in order: a document has at most one, the one that it
-- names.
use adbcops.Common.{
  ℕ, ◌≡◌, ◌⊎◌, refl, sym, ap, subst, ◌∙◌, inl, inr, true, false, Option, none, some, if◌then◌else◌,
  ◌==◌, Bool-cases,
}
use adbcops.Rca.Store.{find, next_id, Below}
use adbcops.Rca.Tables.{map_option, find-update, next_id-update, Below-update}
use adbcops.Documents.Publication.{
  Version, Document, State, is_published, version_key, document_key, supersede_row, supersede,
  publish_row, publish_document, publish_rows, is_current,
}
use adbcops.Documents.Lookups.{
  some_same, none-some, from_eq, eq_self, differ, never, current_of, published_find,
  supersede-Below, after_update,
}

-- What a document names is a published version of it, and a published version is named by its
-- document; the ids of the versions do not repeat.
pub record IsPublished (st : State) : Type 0 where
  pub below : Below version_key (next_id version_key st.versions) st.versions
  pub named :
      (x k : ℕ) (d : Document)
      → find document_key x st.documents ≡ some d
      → d.current_published_version_id ≡ some k
      → (v : Version) × (find version_key k st.versions ≡ some v)
        × (v.document_id ≡ x)
        × (is_published v.status ≡ true)
  pub only :
      (k : ℕ) (v : Version)
      → find version_key k st.versions ≡ some v
      → is_published v.status ≡ true
      → (d : Document) × (find document_key v.document_id st.documents ≡ some d)
        × (d.current_published_version_id ≡ some k)

module _ (actor : ℕ) (v : Version) (d : Document) (st : State) (h : IsPublished st)
    (found : find version_key v.id st.versions ≡ some v)
    (of_document : find document_key v.document_id st.documents ≡ some d) where
  -- The rows that the transaction leaves alone.
  untouched :
      (k x : ℕ) (u : Version)
      → find version_key k st.versions ≡ some u
      → u.document_id ≡ x
      → (v.document_id == x) ≡ false
      → ((v.id == k) ≡ false) × (is_current k d.current_published_version_id ≡ false)
  untouched k x u f e n = (
    not_itself (Bool-cases (v.id == k)),
    not_current (Bool-cases (is_current k d.current_published_version_id)),
  )
    where
      not_itself : ((v.id == k) ≡ true) ⊎ ((v.id == k) ≡ false) → (v.id == k) ≡ false
      not_itself (inr q) = q
      not_itself (inl q) =
          let same : v ≡ u =
            some_same _ v u
              (subst (λ j. find version_key j st.versions ≡ some v) (from_eq v.id k q) found) f in
          absurd (differ v.document_id x (ap (λ (r : Version). r.document_id) same ∙ e) n)

      not_current :
          (is_current k d.current_published_version_id ≡ true)
            ⊎ (is_current k d.current_published_version_id ≡ false)
          → is_current k d.current_published_version_id ≡ false
      not_current (inr q) = q
      not_current (inl q) =
          let (w, fw, dw, _) =
            h.named v.document_id k d of_document (current_of k d.current_published_version_id q) in
          absurd (
            differ v.document_id x
              (sym dw ∙ ap (λ (r : Version). r.document_id) (some_same _ w u fw f) ∙ e) n)

  document_find :
      (x : ℕ)
      → find document_key x (publish_rows actor v d st).documents ≡ (
          if v.document_id == x
          then map_option (publish_document v) (find document_key x st.documents)
          else find document_key x st.documents)
  document_find x =
      find-update document_key (publish_document v) (λ c. refl) v.document_id x st.documents

  itself_published :
      find version_key v.id (publish_rows actor v d st).versions ≡ some (publish_row v)
  itself_published = published_find actor v d st v.id ∙ rw (eq_self v.id, found) refl

  document_named :
      find document_key v.document_id (publish_rows actor v d st).documents
      ≡ some (publish_document v d)
  document_named = document_find v.document_id ∙ rw (eq_self v.document_id, of_document) refl

  publish_named :
      (x k : ℕ) (c : Document)
      → find document_key x (publish_rows actor v d st).documents ≡ some c
      → c.current_published_version_id ≡ some k
      → (w : Version) × (find version_key k (publish_rows actor v d st).versions ≡ some w)
        × (w.document_id ≡ x)
        × (is_published w.status ≡ true)
  publish_named x k c f e =
      let (c0, f0, same) =
        after_update (publish_document v) (find document_key x st.documents) (v.document_id == x) c
          (sym (document_find x) ∙ f) in
      elim (Bool-cases (v.document_id == x)) [
        | inl y ↦
            let now : c ≡ publish_document v c0 = (rw y at same) in
            let k_is : v.id ≡ k =
              some_same (some v.id) v.id k refl
                (sym (ap (λ (r : Document). r.current_published_version_id) now) ∙ e) in
            (
              publish_row v,
              subst
                  (λ j.
                    find version_key j (publish_rows actor v d st).versions ≡ some (publish_row v))
                  k_is itself_published,
              from_eq v.document_id x y,
              refl,
            )
        | inr n ↦
            let now : c ≡ c0 = (rw n at same) in
            let (u, fu, du, pu) =
              h.named x k c0 f0
                (sym (ap (λ (r : Document). r.current_published_version_id) now) ∙ e) in
            let (a, b) = untouched k x u fu du n in
            (u, published_find actor v d st k ∙ rw (a, b) fu, du, pu)
      ]

  publish_only :
      (k : ℕ) (w : Version)
      → find version_key k (publish_rows actor v d st).versions ≡ some w
      → is_published w.status ≡ true
      → (c : Document) × (find document_key w.document_id (publish_rows actor v d st).documents
          ≡ some c)
        × (c.current_published_version_id ≡ some k)
  publish_only k w f p = elim (Bool-cases (v.id == k)) [
    | inl y ↦
        let same : publish_row v ≡ w =
          some_same _ (publish_row v) w
            (subst
              (λ j. find version_key j (publish_rows actor v d st).versions ≡ some (publish_row v))
              (from_eq v.id k y) itself_published)
            f in
        (
          publish_document v d,
          subst
              (λ (r : Version).
                find document_key r.document_id (publish_rows actor v d st).documents
                ≡ some (publish_document v d))
              same document_named,
          ap some (from_eq v.id k y),
        )
    | inr n ↦ elim (Bool-cases (is_current k d.current_published_version_id)) [
      | inl c ↦ absurd (
          superseded_row (find version_key k st.versions)
            (sym (published_find actor v d st k ∙ rw (n, c) refl) ∙ f))
      | inr c ↦
          let (b, fb, cb) =
            h.only k w (sym (published_find actor v d st k ∙ rw (n, c) refl) ∙ f) p in
          elim (Bool-cases (v.document_id == w.document_id)) [
            | inr m ↦ (b, document_find w.document_id ∙ rw m fb, cb)
            | inl m ↦
                let same : d ≡ b =
                  some_same _ d b
                    (subst (λ j. find document_key j st.documents ≡ some d)
                      (from_eq v.document_id w.document_id m) of_document)
                    fb in
                absurd (
                  is_named k d.current_published_version_id
                    (ap (λ (r : Document). r.current_published_version_id) same ∙ cb) c)
          ]
    ]
  ]
    where
      superseded_row : (o : Option Version) → map_option supersede_row o ≡ some w → ⊥
      superseded_row none q = none-some w q
      superseded_row (some r) q = never r.status (
          ap (λ (z : Version). is_published z.status)
            (some_same (some (supersede_row r)) (supersede_row r) w refl q)
          ∙ p)

      is_named : (j : ℕ) (o : Option ℕ) → o ≡ some j → is_current j o ≡ false → ⊥
      is_named j none q r = none-some j q
      is_named j (some i) q r = differ i j (some_same (some i) i j refl q) r

  publish-Below :
      Below version_key
        (next_id version_key (publish_rows actor v d st).versions)
        (publish_rows actor v d st).versions
  publish-Below =
      let (next, keeps) = supersede-Below d.current_published_version_id v.id st.versions in
      let versions = supersede d.current_published_version_id v.id st.versions in
      rw (next_id-update version_key publish_row (λ w. refl) v.id versions) (
        Below-update version_key publish_row (λ w. refl) v.id (next_id version_key versions)
          versions
          (subst (λ n. Below version_key n versions) (sym next)
            (keeps (next_id version_key st.versions) h.below)))

  pub publish_rows-IsPublished : IsPublished (publish_rows actor v d st)
  publish_rows-IsPublished = record {
    below = publish-Below;
    named = publish_named;
    only = publish_only;
  }
