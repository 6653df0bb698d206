-- ===== src/Documents/Serving.antt =====
-- Every request keeps the published versions in order, and a publication is one that the gate lets
-- through.
use adbcops.Common.{
  ℕ, ◌<◌, ◌≡◌, refl, sym, ap, subst, ◌∙◌, inl, inr, String, true, false, ◌||◌, Option, none, some,
  List, [], ◌∷◌, Result, ok, err, ◌==◌, arith, Bool-cases,
}
use adbcops.Rca.Store.{find, next_id, Below}
use adbcops.Rca.Tables.{found_key}
use adbcops.Documents.Publication.{
  Version, Document, State, Actor, DocumentError, is_published, is_superseded, is_closed,
  version_key, document_key, new_version, create_found, create_document_version,
  publish_document_of, publish_found, publish_document_version, deprecate_found,
  deprecate_document_version,
}
use adbcops.Documents.Gate.{
  Sources, Gate, Request, uploads, publishes, deprecates, is_admin, actor_id, publish_gated,
  publish_version, deprecate_read, deprecate_version, serve, serve_all,
}
use adbcops.Documents.Lookups.{some_same, from_eq}
use adbcops.Documents.Published.{IsPublished, publish_rows-IsPublished}
use adbcops.Documents.Deprecated.{deprecate_rows-IsPublished}

below_find :
    (n k : ℕ) (vs : List Version) (u : Version)
    → Below version_key n vs
    → find version_key k vs ≡ some u
    → k < n
unfolding find
below_find n k [] u b e = absurd cc
below_find n k (v ∷ vs) u b e = elim (Bool-cases (v.id == k)) [
  | inl y ↦ omega (arith, b.0, from_eq v.id k y)
  | inr m ↦ omega (arith, b.0, below_find v.id k vs u b.1 (rw m at e))
]

create_found-IsPublished :
    (id : ℕ) (label : String) (st : State) (o : Option Document)
    → IsPublished st
    → IsPublished (create_found id label st o).1
unfolding find next_id
create_found-IsPublished id label st none h = h
create_found-IsPublished id label st (some d) h = record {
  below = (omega arith, h.below);
  named = λ x k c f e. let (u, fu, du, pu) = h.named x k c f e in (u, rw (fresh k u fu) fu, du, pu);
  only = λ k w f p. elim (Bool-cases (next_id version_key st.versions == k)) [
    | inl y ↦ absurd (
        false_true (
          ap (λ (r : Version). is_published r.status)
            (some_same (some (new_version id label st)) (new_version id label st) w refl
              (rw y at f))
          ∙ p))
    | inr n ↦ h.only k w (rw n at f) p
  ];
}
  where
    fresh :
        (k : ℕ) (u : Version)
        → find version_key k st.versions ≡ some u
        → (next_id version_key st.versions == k) ≡ false
    fresh k u f =
        ground (arith, below_find (next_id version_key st.versions) k st.versions u h.below f)

    false_true : false ≡ true → ⊥
    false_true q = cc

publish_found-IsPublished :
    (actor id : ℕ) (st : State) (o : Option Version)
    → find version_key id st.versions ≡ o
    → IsPublished st
    → IsPublished (publish_found actor st o).1
publish_found-IsPublished actor id st none f h = h
publish_found-IsPublished actor id st (some v) f h =
    with_document (find document_key v.document_id st.documents) refl
  where
    itself : find version_key v.id st.versions ≡ some v
    itself =
        subst (λ k. find version_key k st.versions ≡ some v)
          (sym (found_key version_key id st.versions v f)) f

    with_document :
        (d : Option Document)
        → find document_key v.document_id st.documents ≡ d
        → IsPublished (publish_document_of actor v st d).1
    with_document none e = h
    with_document (some d) e = elim (Bool-cases (is_closed v.status)) [
      | inl y ↦ rw y h
      | inr n ↦ rw n (publish_rows-IsPublished actor v d st h itself e)
    ]

publish_gated-IsPublished :
    (actor : Option Actor) (id : ℕ) (st : State) (gate : Result DocumentError Gate)
    → IsPublished st
    → IsPublished (publish_gated actor id st gate).1
unfolding publish_document_version
publish_gated-IsPublished actor id st (err e) h = h
publish_gated-IsPublished actor id st (ok gate) h = elim (Bool-cases gate.can_publish) [
  | inl y ↦ rw y (publish_found-IsPublished (actor_id actor) id st _ refl h)
  | inr n ↦ rw n h
]

deprecate_found-IsPublished :
    (actor id : ℕ) (st : State) (o : Option Version)
    → find version_key id st.versions ≡ o
    → IsPublished st
    → IsPublished (deprecate_found actor st o).1
deprecate_found-IsPublished actor id st none f h = h
deprecate_found-IsPublished actor id st (some v) f h =
    elim (Bool-cases (is_published v.status || is_superseded v.status)) [
      | inl y ↦ rw y (
          deprecate_rows-IsPublished actor v st h (
            subst (λ k. find version_key k st.versions ≡ some v)
              (sym (found_key version_key id st.versions v f)) f))
      | inr n ↦ rw n h
    ]

deprecate_read-IsPublished :
    (actor : Option Actor) (id : ℕ) (st : State) (read : Result DocumentError Version)
    → IsPublished st
    → IsPublished (deprecate_read actor id st read).1
unfolding deprecate_document_version
deprecate_read-IsPublished actor id st (err e) h = h
deprecate_read-IsPublished actor id st (ok v) h =
    deprecate_found-IsPublished (actor_id actor) id st _ refl h

publish_version-IsPublished :
    (s : Sources) (actor : Option Actor) (id : ℕ) (st : State)
    → IsPublished st
    → IsPublished (publish_version s actor id st).1
unfolding publish_version
publish_version-IsPublished s actor id st h = elim (Bool-cases (is_admin actor)) [
  | inl y ↦ rw y (publish_gated-IsPublished actor id st _ h)
  | inr n ↦ rw n h
]

deprecate_version-IsPublished :
    (actor : Option Actor) (id : ℕ) (st : State)
    → IsPublished st
    → IsPublished (deprecate_version actor id st).1
unfolding deprecate_version
deprecate_version-IsPublished actor id st h = elim (Bool-cases (is_admin actor)) [
  | inl y ↦ rw y (deprecate_read-IsPublished actor id st _ h)
  | inr n ↦ rw n h
]

serve-IsPublished : (r : Request) (st : State) → IsPublished st → IsPublished (serve r st)
unfolding serve create_document_version
serve-IsPublished (uploads id label) st h = create_found-IsPublished id label st _ h
serve-IsPublished (publishes s actor id) st h = publish_version-IsPublished s actor id st h
serve-IsPublished (deprecates actor id) st h = deprecate_version-IsPublished actor id st h

-- Uploads, publications and deprecations, in any order, keep the published versions in order: what a
-- document names as its current version is a published version of it, and every published version
-- is the one that its document names, so that a document has at most one.
pub serve_all-IsPublished :
    (rs : List Request) (st : State) → IsPublished st → IsPublished (serve_all rs st)
unfolding serve_all
serve_all-IsPublished [] st h = h
serve_all-IsPublished (r ∷ rs) st h =
    serve_all-IsPublished rs (serve r st) (serve-IsPublished r st h)
