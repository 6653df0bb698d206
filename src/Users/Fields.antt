-- ===== src/Users/Fields.antt =====
-- What every row of the table of users is like, and that no two have the same name.
use text.Mathlib.Text.{◌==◌ as str_eq}
use text.Mathlib.TextEquality.{eq_iff}
use adbcops.Common.{
  ℕ, ◌≡◌, ◌≢◌, ◌≤◌, ◌⊎◌, String, refl, sym, subst, inl, inr, Bool, true, false, not, ◌&&◌, Option,
  none, some, List, [], ◌∷◌, map, Result, ok, err, if◌then◌else◌, All, first, leb, is_some, ◌==◌,
  arith, Bool-cases, Option-cases,
}
use adbcops.Common.Text.{trim_space, byte_count}
use adbcops.Common.Members.{String_eq, mem, Nodup}
use adbcops.Rca.Store.{find, update}
use adbcops.Rca.Tables.{All-update, All-imp}
use adbcops.Users.Service.{
  ◌>>=◌, with_role, User, UserError, CreateInput, UpdateInput, Env, Users, user_key, valid_username,
  valid_role, valid_password, normalize_display_name, other_admin, write_found, user_values,
  update_user, set_role, UserUpdates, demotes, updates_of, update_with, create, new_user, inserted,
  update_account, set_enabled, update_password, password_with, reset_password, Request, creates,
  updates, resets_password, sets_enabled, serve, serve_all,
}

abbrev pub valid_display : Option String → Bool
valid_display none = true
valid_display (some name) = not (str_eq name "") && leb (byte_count name) 120

-- A name of 1 to 100 bytes, one of the two roles, a display name of 1 to 120 bytes if any.
abbrev pub ValidUser : User → Type 0
ValidUser u =
    (valid_username u.username ≡ true)
    × (valid_role u.role ≡ true)
    × (valid_display u.display_name ≡ true)

abbrev pub names : Users → List String
names users = map (λ (u : User). u.username) users

pub record WellFormed (users : Users) : Type 0 where
  pub rows : All ValidUser users
  pub unique : Nodup (names users)

names-update :
    (id : ℕ) (f : User → User) (users : Users)
    → ((u : User) → (f u).username ≡ u.username)
    → names (update user_key id f users) ≡ names users
unfolding update
names-update id f [] same = refl
names-update id f (u ∷ users) same = ground (arith, same u, names-update id f users same)

updated-WellFormed :
    (id : ℕ) (f : User → User) (users : Users)
    → ((u : User) → (f u).username ≡ u.username)
    → ((u : User) → ValidUser u → ValidUser (f u))
    → WellFormed users
    → WellFormed (update user_key id f users)
updated-WellFormed id f users same keeps h = record {
  rows = All-update user_key ValidUser f id users keeps h.rows;
  unique = subst (λ (l : List String). Nodup l) (sym (names-update id f users same)) h.unique;
}

write_found-WellFormed :
    (id : ℕ) (guard : User → Bool) (f : User → User) (users : Users) (row : Option User)
    → ((u : User) → (f u).username ≡ u.username)
    → ((u : User) → ValidUser u → ValidUser (f u))
    → WellFormed users
    → WellFormed (write_found id guard f users row).1
unfolding write_found
write_found-WellFormed id guard f users none same keeps h = h
write_found-WellFormed id guard f users (some user) same keeps h =
    go (guard user && not (other_admin users))
  where
    go : (refused : Bool) → WellFormed (if refused then users else update user_key id f users)
    go true = h
    go false = updated-WellFormed id f users same keeps h

normalize_display_name-valid :
    (name out : Option String) → normalize_display_name name ≡ ok out → valid_display out ≡ true
unfolding normalize_display_name
normalize_display_name-valid none out e = ground arith
normalize_display_name-valid (some name) out e = ground arith

-- What an accepted update writes.
abbrev ValidUpdates : UserUpdates → Type 0
ValidUpdates u =
    (valid_display u.display_name ≡ true)
    × ((old : String) → valid_role old ≡ true → valid_role (set_role u.role old) ≡ true)

not_taken :
    (name : String) (users : Users)
    → is_some (first (λ (u : User). str_eq u.username name) users) ≡ false
    → mem name (names users) ≡ false
unfolding mem
not_taken name [] h = refl
not_taken name (u ∷ users) h =
    ground (arith, not_taken name users, eq_iff u.username name, eq_iff name u.username)

new_user-valid :
    (env : Env) (input : CreateInput) (users : Users) (u : User)
    → new_user env input users ≡ ok u
    → ValidUser u × (mem u.username (names users) ≡ false)
unfolding new_user
new_user-valid env input users u e = ground (
  arith,
  normalize_display_name-valid input.display_name u.display_name,
  not_taken (trim_space input.username) users,
)

with_role-valid :
    (set : Bool) (d role : Option String) (u : UserUpdates)
    → valid_display d ≡ true
    → with_role set d role ≡ ok u
    → ValidUpdates u
unfolding with_role
with_role-valid set d none u v e = subst ValidUpdates plain (v, λ old o. o)
  where
    plain : record { display_name = d; display_name_set = set; role = none } ≡ u
    plain = cc
with_role-valid set d (some role) u v e = elim (Bool-cases (valid_role (trim_space role))) [
  | inr bad ↦ absurd (ground arith)
  | inl good ↦
      let same : record { display_name = d; display_name_set = set; role = some (trim_space role) }
          ≡ u =
        ground arith in
      subst ValidUpdates same (v, λ _ _. good)
]

updates_of-valid :
    (input : UpdateInput) (u : UserUpdates) → updates_of input ≡ ok u → ValidUpdates u
unfolding updates_of
updates_of-valid input u e =
    go (if input.display_name_set then normalize_display_name input.display_name else ok none)
      (valid input.display_name_set) e
  where
    go :
        (r : Result UserError (Option String))
        → ((d : Option String) → r ≡ ok d → valid_display d ≡ true)
        → (r >>= λ d. with_role input.display_name_set d input.role) ≡ ok u
        → ValidUpdates u
    go (err x) v e = absurd cc
    go (ok d) v e = with_role-valid input.display_name_set d input.role u (v d refl) e

    valid :
        (b : Bool) (d : Option String)
        → (if b then normalize_display_name input.display_name else ok none) ≡ ok d
        → valid_display d ≡ true
    valid true d e = normalize_display_name-valid input.display_name d e
    valid false d e = normalize_display_name-valid none d (unfold normalize_display_name in e)

module _ (users : Users) (h : WellFormed users) where
  update_with-WellFormed :
      (now id : ℕ) (u : Result UserError UserUpdates)
      → ((v : UserUpdates) → u ≡ ok v → ValidUpdates v)
      → WellFormed (update_with now id users u).1
  unfolding update_user user_values
  update_with-WellFormed now id (err e) v = h
  update_with-WellFormed now id (ok u) v =
      write_found-WellFormed id (demotes u.role) (user_values now u) users (find user_key id users)
        (λ _. refl) keeps h
    where
      keeps : (x : User) → ValidUser x → ValidUser (user_values now u x)
      keeps x valid = (valid.0, (v u refl).1 x.role valid.1, ground (arith, (v u refl).0, valid.2))

  update_account-WellFormed :
      (now id : ℕ) (input : UpdateInput) → WellFormed (update_account now id input users).1
  unfolding update_account
  update_account-WellFormed now id input = elim (Bool-cases (id == 0)) [
    | inl z ↦ rw z h
    | inr z ↦ rw z (update_with-WellFormed now id (updates_of input) (updates_of-valid input))
  ]

  set_enabled-WellFormed :
      (now id : ℕ) (enabled : Bool) → WellFormed (set_enabled now id enabled users).1
  unfolding set_enabled
  set_enabled-WellFormed now id enabled = elim (Bool-cases (id == 0)) [
    | inl z ↦ rw z h
    | inr z ↦
        rw z (write_found-WellFormed id _ _ users (find user_key id users) (λ _. refl) (λ _ v. v) h)
  ]

  password_with-WellFormed :
      (env : Env) (id : ℕ) (hash : Option String) → WellFormed (password_with env id users hash).1
  unfolding update_password
  password_with-WellFormed env id none = h
  password_with-WellFormed env id (some hash) = elim (Option-cases (find user_key id users)) [
    | inl missing ↦ rw missing h
    | inr (user, has) ↦ rw has (updated-WellFormed id _ users (λ _. refl) (λ _ v. v) h)
  ]

  reset_password-WellFormed :
      (env : Env) (id : ℕ) (password : String) → WellFormed (reset_password env id password users).1
  unfolding reset_password
  reset_password-WellFormed env id password = elim (Bool-cases (id == 0)) [
    | inl z ↦ rw z h
    | inr z ↦ rw z (elim (Bool-cases (valid_password password)) [
      | inr bad ↦ rw bad h
      | inl good ↦ rw good (password_with-WellFormed env id (env.hash password))
    ])
  ]

  create-WellFormed :
      (row : Result UserError User)
      → ((u : User) → row ≡ ok u → ValidUser u × (mem u.username (names users) ≡ false))
      → WellFormed (inserted users row)
  create-WellFormed (err e) v = h
  create-WellFormed (ok u) v = record {
    rows = ((v u refl).0, h.rows);
    unique = ((v u refl).1, h.unique);
  }

serve-WellFormed : (r : Request) (users : Users) → WellFormed users → WellFormed (serve r users)
unfolding serve create
serve-WellFormed (creates env input) users h =
    create-WellFormed users h (new_user env input users) (new_user-valid env input users)
serve-WellFormed (updates now id input) users h = update_account-WellFormed users h now id input
serve-WellFormed (resets_password env id password) users h =
    reset_password-WellFormed users h env id password
serve-WellFormed (sets_enabled now id enabled) users h =
    set_enabled-WellFormed users h now id enabled

serve_all_keeps :
    (rs : List Request) (users : Users) → WellFormed users → WellFormed (serve_all rs users)
unfolding serve_all
serve_all_keeps [] users h = h
serve_all_keeps (r ∷ rs) users h = serve_all_keeps rs (serve r users) (serve-WellFormed r users h)

-- A name of 1 to 100 bytes, one of the two roles, a display name of 1 to 120 bytes if any.
pub record IsUser (u : User) : Type 0 where
  pub named : u.username ≢ ""
  pub name_bytes : byte_count u.username ≤ 100
  pub role : (u.role ≡ "admin") ⊎ (u.role ≡ "user")
  pub display : (d : String) → u.display_name ≡ some d → (d ≢ "") × (byte_count d ≤ 120)

text_bounds :
    (text : String) (n : ℕ)
    → (not (str_eq text "") && leb (byte_count text) n) ≡ true
    → (text ≢ "") × (byte_count text ≤ n)
text_bounds text n v = (λ empty. ground (arith, eq_iff text ""), ground (arith, v))

one_of_roles : (role : String) → valid_role role ≡ true → (role ≡ "admin") ⊎ (role ≡ "user")
one_of_roles role v = elim (Bool-cases (str_eq role "admin")) [
  | inl y ↦ inl ((eq_iff role "admin").0 y)
  | inr n ↦ inr ((eq_iff role "user").0 (rw n at v))
]

ValidUser-IsUser : (u : User) → ValidUser u → IsUser u
ValidUser-IsUser u v = record {
  named = (text_bounds u.username 100 v.0).0;
  name_bytes = (text_bounds u.username 100 v.0).1;
  role = one_of_roles u.role v.1;
  display = λ d is. text_bounds d 120 (subst (λ o. valid_display o ≡ true) is v.2);
}

-- After any requests to the user service that began with no users, no two users have the same name,
-- every name has 1 to 100 bytes, every role is admin or user, and every display name has 1 to 120
-- bytes.
pub serve_all-IsUser :
    (rs : List Request) → All IsUser (serve_all rs []) × Nodup (names (serve_all rs []))
serve_all-IsUser rs =
    let kept = serve_all_keeps rs [] (record { rows = tt; unique = tt }) in
    (All-imp ValidUser IsUser (serve_all rs []) ValidUser-IsUser kept.rows, kept.unique)
