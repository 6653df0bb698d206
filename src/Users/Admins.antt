-- ===== src/Users/Admins.antt =====
-- The platform keeps an enabled admin.
use text.Mathlib.Text.{◌==◌ as str_eq}
use adbcops.Common.{
  ℕ, ◌+◌, ◌≤◌, ◌<◌, ◌≡◌, String, refl, sym, subst, inl, inr, Bool, true, false, not, ◌&&◌, Option,
  none, some, List, [], ◌∷◌, Result, ok, err, if◌then◌else◌, keep, any, length, ◌==◌, arith,
  Bool-cases, Option-cases,
}
use adbcops.Rca.Store.{find, update, next_id, Below}
use adbcops.Rca.Tables.{update_absent, Below-update, next_id-update}
use adbcops.Users.Service.{
  valid_password, User, UserError, CreateInput, UpdateInput, Env, Users, user_key, enabled_admin,
  other_admin, write_found, set_role, user_values, update_user, UserUpdates, demotes, updates_of,
  update_with, create, new_user, inserted, update_account, set_enabled, update_password,
  password_with, reset_password, Request, creates, updates, resets_password, sets_enabled, serve,
  serve_all,
}

-- The ids are distinct, and some enabled user is an admin.
pub record HasAdmin (users : Users) : Type 0 where
  pub ids : Below user_key (next_id user_key users) users
  pub admin : any enabled_admin users ≡ true

module _ {A : Type 0} (key : A → ℕ) (P : A → Type 0) (p : A → Bool) (f : A → A) where
  -- An update of one row takes at most one row from those that pass a test.
  length-keep-update :
      (k n : ℕ) (xs : List A)
      → Below key n xs
      → length (keep p xs) ≤ length (keep p (update key k f xs)) + 1
  unfolding update
  length-keep-update k n [] b = omega arith
  length-keep-update k n (x ∷ xs) b =
      ground (arith, length-keep-update k (key x) xs b.1, update_absent key P f k (key x) xs b.1)

  -- An update that keeps the test on the row that is found keeps that some row passes.
  any-update :
      (k n : ℕ) (xs : List A) (r : A)
      → Below key n xs
      → find key k xs ≡ some r
      → (p r ≡ true → p (f r) ≡ true)
      → any p xs ≡ true
      → any p (update key k f xs) ≡ true
  unfolding update find
  any-update k n [] r b e h a = cc
  any-update k n (x ∷ xs) r b e h a =
      ground (arith, h, any-update k (key x) xs r b.1, update_absent key P f k (key x) xs b.1)

any_of_length : {A : Type 0} (p : A → Bool) (xs : List A) → 0 < length (keep p xs) → any p xs ≡ true
any_of_length p [] h = absurd (omega arith)
any_of_length p (x ∷ xs) h = ground (arith, any_of_length p xs)

module _ (id : ℕ) (f : User → User) (same : (u : User) → (f u).id ≡ u.id) where
  updated-ids :
      (users : Users)
      → Below user_key (next_id user_key users) users
      → Below user_key (next_id user_key (update user_key id f users)) (update user_key id f users)
  updated-ids users b =
      rw (next_id-update user_key f same id users) (Below-update user_key f same id _ users b)

  -- A guarded write of a row, when the guard is on the writes that take away an enabled admin.
  write_found-HasAdmin :
      (guard : User → Bool) (users : Users) (row : Option User)
      → ((u : User) → guard u ≡ false → enabled_admin u ≡ true → enabled_admin (f u) ≡ true)
      → find user_key id users ≡ row
      → HasAdmin users
      → HasAdmin (write_found id guard f users row).1
  unfolding write_found
  write_found-HasAdmin guard users none safe has h = h
  write_found-HasAdmin guard users (some user) safe has h =
      go (guard user) (other_admin users) refl refl
    where
      ids :
          Below user_key
            (next_id user_key (update user_key id f users))
            (update user_key id f users)
      ids = updated-ids users h.ids

      go :
          (g o : Bool)
          → guard user ≡ g
          → other_admin users ≡ o
          → HasAdmin (if g && not o then users else update user_key id f users)
      go true false g o = h
      go true true g o = record {
        ids = ids;
        admin = any_of_length enabled_admin (update user_key id f users) (
            ground
              (arith, length-keep-update user_key (λ _. Unit) enabled_admin f id _ users h.ids));
      }
      go false o g _ = record {
        ids = ids;
        admin =
            any-update user_key (λ _. Unit) enabled_admin f id _ users user h.ids has (safe user g)
              h.admin;
      }

module _ (users : Users) (h : HasAdmin users) where
  create-HasAdmin :
      (row : Result UserError User)
      → ((u : User) → row ≡ ok u → u.id ≡ next_id user_key users)
      → HasAdmin (inserted users row)
  unfolding next_id
  create-HasAdmin (err e) id = h
  create-HasAdmin (ok u) id = record {
    ids = (omega arith, subst (λ n. Below user_key n users) (sym (id u refl)) h.ids);
    admin = ground (arith, h.admin);
  }

  update_with-HasAdmin :
      (now id : ℕ) (u : Result UserError UserUpdates) → HasAdmin (update_with now id users u).1
  unfolding update_user user_values
  update_with-HasAdmin now id (err e) = h
  update_with-HasAdmin now id (ok u) =
      write_found-HasAdmin id (user_values now u) (λ _. refl) (demotes u.role) users
        (find user_key id users) (keeps u.role) refl h
    where
      keeps :
          (role : Option String) (user : User)
          → demotes role user ≡ false
          → enabled_admin user ≡ true
          → (str_eq (set_role role user.role) "admin" && user.enabled) ≡ true
      keeps none user d e = e
      keeps (some role) user d e = ground arith

  set_enabled-HasAdmin :
      (now id : ℕ) (enabled : Bool) → HasAdmin (set_enabled now id enabled users).1
  unfolding set_enabled
  set_enabled-HasAdmin now id enabled = elim (Bool-cases (id == 0)) [
    | inl z ↦ rw z h
    | inr z ↦ rw z (
        write_found-HasAdmin id (λ user. record user { enabled = enabled; updated_at = now })
          (λ _. refl) (λ user. not enabled && enabled_admin user) users (find user_key id users)
          (keeps enabled) refl h)
  ]
    where
      keeps :
          (b : Bool) (u : User)
          → (not b && enabled_admin u) ≡ false
          → enabled_admin u ≡ true
          → (str_eq u.role "admin" && b) ≡ true
      keeps b u g a = ground arith

  update_account-HasAdmin :
      (now id : ℕ) (input : UpdateInput) → HasAdmin (update_account now id input users).1
  unfolding update_account
  update_account-HasAdmin now id input = elim (Bool-cases (id == 0)) [
    | inl z ↦ rw z h
    | inr z ↦ rw z (update_with-HasAdmin now id (updates_of input))
  ]

  password_with-HasAdmin :
      (env : Env) (id : ℕ) (hash : Option String) → HasAdmin (password_with env id users hash).1
  unfolding update_password
  password_with-HasAdmin env id none = h
  password_with-HasAdmin env id (some hash) = elim (Option-cases (find user_key id users)) [
    | inl missing ↦ rw missing h
    | inr (user, has) ↦ rw has (record {
      ids = updated-ids id (changed hash env.now) (λ _. refl) users h.ids;
      admin =
          any-update user_key (λ _. Unit) enabled_admin (changed hash env.now) id
            (next_id user_key users) users user h.ids has (λ a. a) h.admin;
    })
  ]
    where
      changed : String → ℕ → User → User
      changed hash now user = record user {
        password_hash = hash;
        password_changed_at = some now;
        updated_at = now;
      }

  reset_password-HasAdmin :
      (env : Env) (id : ℕ) (password : String) → HasAdmin (reset_password env id password users).1
  unfolding reset_password
  reset_password-HasAdmin env id password = elim (Bool-cases (id == 0)) [
    | inl z ↦ rw z h
    | inr z ↦ rw z (elim (Bool-cases (valid_password password)) [
      | inr bad ↦ rw bad h
      | inl good ↦ rw good (password_with-HasAdmin env id (env.hash password))
    ])
  ]

new_user-id :
    (env : Env) (input : CreateInput) (users : Users) (u : User)
    → new_user env input users ≡ ok u
    → u.id ≡ next_id user_key users
unfolding new_user
new_user-id env input users u e = ground arith

serve-HasAdmin : (r : Request) (users : Users) → HasAdmin users → HasAdmin (serve r users)
unfolding serve create
serve-HasAdmin (creates env input) users h =
    create-HasAdmin users h (new_user env input users) (new_user-id env input users)
serve-HasAdmin (updates now id input) users h = update_account-HasAdmin users h now id input
serve-HasAdmin (resets_password env id password) users h =
    reset_password-HasAdmin users h env id password
serve-HasAdmin (sets_enabled now id enabled) users h = set_enabled-HasAdmin users h now id enabled

-- No requests to the user service, in any order, take the last enabled admin away: where the ids
-- are distinct and some enabled user is an admin, that stays so.
pub serve_all-HasAdmin :
    (rs : List Request) (users : Users) → HasAdmin users → HasAdmin (serve_all rs users)
unfolding serve_all
serve_all-HasAdmin [] users h = h
serve_all-HasAdmin (r ∷ rs) users h =
    serve_all-HasAdmin rs (serve r users) (serve-HasAdmin r users h)
