-- ===== src/Documents/Lookups.antt =====
-- What a lookup finds after the updates of a publication.
use adbcops.Common.{
  ℕ, ◌≡◌, ◌≢◌, refl, sym, ap, ◌∙◌, inl, inr, Bool, true, false, not, ◌&&◌, Option, none, some, List,
  if◌then◌else◌, ◌==◌, arith, Bool-cases,
}
use adbcops.Rca.Store.{find, next_id, Below}
use adbcops.Rca.Tables.{map_option, find-update, next_id-update, Below-update}
use adbcops.Documents.Publication.{
  Version, Document, State, VersionStatus, superseded, is_published, version_key, supersede_row,
  supersede, publish_row, publish_rows, is_current,
}

pub some_same : {A : Type 0} (o : Option A) (a b : A) → o ≡ some a → o ≡ some b → a ≡ b
some_same {A} o a b p q = inject (sym p ∙ q)
  where
    inject : some a ≡ some b → a ≡ b
    inject r = cc

pub none-some : {A : Type 0} (a : A) → none ≢ some a
none-some a q = cc

pub from_eq : (a b : ℕ) → (a == b) ≡ true → a ≡ b
from_eq a b e = ground arith

pub eq_self : (a : ℕ) → (a == a) ≡ true
eq_self a = ground arith

pub supersede_find :
    (cur : Option ℕ) (id k : ℕ) (vs : List Version)
    → find version_key k (supersede cur id vs) ≡ (
        if is_current k cur && not (k == id)
        then map_option supersede_row (find version_key k vs)
        else find version_key k vs)
supersede_find none id k vs = refl
supersede_find (some old) id k vs = elim (Bool-cases (old == id)) [
  | inl y ↦ rw y (ground (arith, y))
  | inr n ↦ rw n (find-update version_key supersede_row (λ v. refl) old k vs ∙ ground (arith, n))
]

pub published_find :
    (actor : ℕ) (v : Version) (d : Document) (st : State) (k : ℕ)
    → find version_key k (publish_rows actor v d st).versions ≡ (
        if v.id == k
        then map_option publish_row (find version_key k st.versions)
        else if is_current k d.current_published_version_id
        then map_option supersede_row (find version_key k st.versions)
        else find version_key k st.versions)
published_find actor v d st k =
    find-update version_key publish_row (λ w. refl) v.id k
      (supersede d.current_published_version_id v.id st.versions)
    ∙ elim (Bool-cases (v.id == k)) [
      | inl y ↦ ground (arith, y, supersede_find d.current_published_version_id v.id k st.versions)
      | inr n ↦ ground (arith, n, supersede_find d.current_published_version_id v.id k st.versions)
    ]

pub differ : (a b : ℕ) → a ≡ b → (a == b) ≡ false → ⊥
differ a b e n = ground arith

pub never : (s : VersionStatus) → is_published (if is_published s then superseded else s) ≢ true
never s e = elim (Bool-cases (is_published s)) [
  | inl y ↦ false_true (rw y at e)
  | inr n ↦ false_true (sym n ∙ (rw n at e))
]
  where
    false_true : false ≡ true → ⊥
    false_true q = cc

pub current_of : (k : ℕ) (c : Option ℕ) → is_current k c ≡ true → c ≡ some k
current_of k none e = absurd cc
current_of k (some j) e = ap some (from_eq j k e)

pub supersede-Below :
    (cur : Option ℕ) (id : ℕ) (vs : List Version)
    → (next_id version_key (supersede cur id vs) ≡ next_id version_key vs)
      × ((n : ℕ) → Below version_key n vs → Below version_key n (supersede cur id vs))
supersede-Below none id vs = (refl, λ n b. b)
supersede-Below (some old) id vs = elim (Bool-cases (old == id)) [
  | inl y ↦ rw y (refl, λ n b. b)
  | inr n ↦ rw n (
    next_id-update version_key supersede_row (λ w. refl) old vs,
    λ n b. Below-update version_key supersede_row (λ w. refl) old n vs b,
  )
]

-- A row after an update of the row of an id.
pub after_update :
    {A : Type 0} (f : A → A) (found : Option A) (b : Bool) (w : A)
    → (if b then map_option f found else found) ≡ some w
    → (a : A) × (found ≡ some a) × (w ≡ (if b then f a else a))
after_update f none true w e = absurd (none-some w e)
after_update f none false w e = absurd (none-some w e)
after_update f (some a) true w e = (a, refl, some_same (some w) w (f a) refl (sym e))
after_update f (some a) false w e = (a, refl, some_same (some w) w a refl (sym e))
