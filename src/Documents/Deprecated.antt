-- ===== src/Documents/Deprecated.antt =====
-- A deprecation keeps the published versions in order.
use adbcops.Common.{
  ℕ, ◌≡◌, refl, sym, ap, subst, ◌∙◌, inl, inr, true, false, Option, none, some, if◌then◌else◌, ◌==◌,
  arith, Bool-cases,
}
use adbcops.Rca.Store.{find, next_id}
use adbcops.Rca.Tables.{map_option, find-update, next_id-update, Below-update}
use adbcops.Documents.Publication.{
  Version, Document, State, is_published, version_key, document_key, deprecate_row,
  deprecate_document, is_current, deprecate_rows,
}
use adbcops.Documents.Lookups.{some_same, none-some, from_eq, differ, after_update}
use adbcops.Documents.Published.{IsPublished}

module _ (actor : ℕ) (v : Version) (st : State) (h : IsPublished st)
    (found : find version_key v.id st.versions ≡ some v) where
  version_find :
      (k : ℕ)
      → find version_key k (deprecate_rows actor v st).versions ≡ (
          if v.id == k
          then map_option deprecate_row (find version_key k st.versions)
          else find version_key k st.versions)
  version_find k = find-update version_key deprecate_row (λ w. refl) v.id k st.versions

  document_after :
      (x : ℕ)
      → find document_key x (deprecate_rows actor v st).documents ≡ (
          if v.document_id == x
          then map_option (deprecate_document v.id) (find document_key x st.documents)
          else find document_key x st.documents)
  document_after x =
      find-update document_key (deprecate_document v.id) (λ c. refl) v.document_id x st.documents

  -- The name of a document is kept unless it is the deprecated version.
  kept_name :
      (o : Option ℕ) (k : ℕ)
      → (if is_current v.id o then none else o) ≡ some k
      → (o ≡ some k) × ((v.id == k) ≡ false)
  kept_name none k e = absurd (none-some k e)
  kept_name (some j) k e = elim (Bool-cases (j == v.id)) [
    | inl y ↦ absurd (none-some k (rw y at e))
    | inr n ↦
        let same : j ≡ k = some_same (some j) j k refl (rw n at e) in
        (ap some same, ground (arith, n, same))
  ]

  deprecate_named :
      (x k : ℕ) (c : Document)
      → find document_key x (deprecate_rows actor v st).documents ≡ some c
      → c.current_published_version_id ≡ some k
      → (w : Version) × (find version_key k (deprecate_rows actor v st).versions ≡ some w)
        × (w.document_id ≡ x)
        × (is_published w.status ≡ true)
  deprecate_named x k c f e =
      let (c0, f0, same) =
        after_update (deprecate_document v.id) (find document_key x st.documents)
          (v.document_id == x) c (sym (document_after x) ∙ f) in
      elim (Bool-cases (v.document_id == x)) [
        | inl y ↦
            let now : c ≡ deprecate_document v.id c0 = (rw y at same) in
            let (name, apart) =
              kept_name c0.current_published_version_id k
                (sym (ap (λ (r : Document). r.current_published_version_id) now) ∙ e) in
            let (u, fu, du, pu) = h.named x k c0 f0 name in
            (u, version_find k ∙ rw apart fu, du, pu)
        | inr n ↦
            let now : c ≡ c0 = (rw n at same) in
            let (u, fu, du, pu) =
              h.named x k c0 f0
                (sym (ap (λ (r : Document). r.current_published_version_id) now) ∙ e) in
            (u, version_find k ∙ rw (other k x u fu du n) fu, du, pu)
      ]
    where
      other :
          (k x : ℕ) (u : Version)
          → find version_key k st.versions ≡ some u
          → u.document_id ≡ x
          → (v.document_id == x) ≡ false
          → (v.id == k) ≡ false
      other k x u fu du n = elim (Bool-cases (v.id == k)) [
        | inr q ↦ q
        | inl q ↦
            let same : v ≡ u =
              some_same _ v u
                (subst (λ j. find version_key j st.versions ≡ some v) (from_eq v.id k q) found)
                fu in
            absurd (differ v.document_id x (ap (λ (r : Version). r.document_id) same ∙ du) n)
      ]

  deprecate_only :
      (k : ℕ) (w : Version)
      → find version_key k (deprecate_rows actor v st).versions ≡ some w
      → is_published w.status ≡ true
      → (c : Document) × (find document_key w.document_id (deprecate_rows actor v st).documents
          ≡ some c)
        × (c.current_published_version_id ≡ some k)
  deprecate_only k w f p =
      let (w0, f0, same) =
        after_update deprecate_row (find version_key k st.versions) (v.id == k) w
          (sym (version_find k) ∙ f) in
      elim (Bool-cases (v.id == k)) [
        | inl y ↦
            absurd
              (false_true (ap (λ (r : Version). is_published r.status) (sym (rw y at same)) ∙ p))
        | inr n ↦
            let now : w ≡ w0 = (rw n at same) in
            let (c, fc, cc0) = h.only k w (f0 ∙ ap some (sym now)) p in
            elim (Bool-cases (v.document_id == w.document_id)) [
              | inr m ↦ (c, document_after w.document_id ∙ rw m fc, cc0)
              | inl m ↦ (
                deprecate_document v.id c,
                document_after w.document_id ∙ rw (m, fc) refl,
                still c.current_published_version_id cc0 n,
              )
            ]
      ]
    where
      false_true : false ≡ true → ⊥
      false_true q = cc

      still :
          (o : Option ℕ)
          → o ≡ some k
          → (v.id == k) ≡ false
          → (if is_current v.id o then none else o) ≡ some k
      still none q n = absurd (none-some k q)
      still (some j) q n =
          let same : j ≡ k = some_same (some j) j k refl q in ground (arith, same, n)

  pub deprecate_rows-IsPublished : IsPublished (deprecate_rows actor v st)
  deprecate_rows-IsPublished = record {
    below = rw (next_id-update version_key deprecate_row (λ w. refl) v.id st.versions) (
        Below-update version_key deprecate_row (λ w. refl) v.id (next_id version_key st.versions)
          st.versions h.below);
    named = deprecate_named;
    only = deprecate_only;
  }
