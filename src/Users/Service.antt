-- ===== src/Users/Service.antt =====
-- The user service over its table (backend/internal/user/service.go and
-- backend/internal/repository/user_repository.go). A transaction is one function of the table; a
-- query does not fail but by a missing row. Texts are valid UTF-8, so `utf8.ValidString` is true
-- of them. The clock of the service and that of the repository are one. The column `created_at` is
-- left out.
use text.Mathlib.Text.{◌==◌ as str_eq}
use adbcops.Common.{
  ℕ, String, Bool, false, not, ◌&&◌, ◌||◌, Option, none, some, List, [], ◌∷◌, Result, ok, err,
  if◌then◌else◌, keep, first, length, leb, ltb, is_some, ◌==◌,
}
use adbcops.Common.Text.{trim_space, byte_count}
use adbcops.Rca.Store.{find, update, next_id}

pub record User : Type 0 where
  pub id : ℕ
  pub username : String
  pub password_hash : String
  pub display_name : Option String
  pub role : String
  pub enabled : Bool
  pub password_changed_at : Option ℕ
  pub last_login_at : Option ℕ
  pub updated_at : ℕ

pub data UserError : Type 0 where
  invalid_input password_policy username_taken last_admin not_found hash_failed : UserError

pub record CreateInput : Type 0 where
  pub username : String
  pub password : String
  pub display_name : Option String
  pub role : String
  pub enabled : Bool

pub record UpdateInput : Type 0 where
  pub display_name : Option String
  pub display_name_set : Bool
  pub role : Option String

-- The clock, and `bcrypt.GenerateFromPassword` at the cost of the service.
pub record Env : Type 0 where
  pub now : ℕ
  pub hash : String → Option String

abbrev pub Users : Type 0
Users = List User

abbrev pub user_key : User → ℕ
user_key u = u.id

infixl 5 ◌>>=◌ ◌>>◌
abbrev pub ◌>>=◌ :
    {A B : Type 0} → Result UserError A → (A → Result UserError B) → Result UserError B
◌>>=◌ (ok a) f = f a
◌>>=◌ (err e) f = err e

abbrev pub ◌>>◌ :
    {B : Type 0} → Result UserError (Unit {0}) → Result UserError B → Result UserError B
m >> n = m >>= λ _. n

abbrev pub require : Bool → UserError → Result UserError (Unit {0})
require b e = if b then ok tt else err e

abbrev pub or_error : {A : Type 0} → Option A → UserError → Result UserError A
or_error none e = err e
or_error (some a) e = ok a

abbrev pub valid_username : String → Bool
valid_username s = not (str_eq s "") && leb (byte_count s) 100

abbrev pub valid_password : String → Bool
valid_password s = leb 12 (byte_count s) && leb (byte_count s) 72

abbrev pub valid_role : String → Bool
valid_role s = str_eq s "admin" || str_eq s "user"

-- `normalizeDisplayName`: a blank name is none.
unfoldable pub normalize_display_name : Option String → Result UserError (Option String)
normalize_display_name none = ok none
normalize_display_name (some name) =
    let normalized = trim_space name in
    if str_eq normalized ""
    then ok none
    else if ltb 120 (byte_count normalized)
    then err invalid_input
    else ok (some normalized)

abbrev pub role_or_user : String → String
role_or_user role = if str_eq role "" then "user" else role

-- The row of a new user, or why there is none.
unfoldable pub new_user : Env → CreateInput → Users → Result UserError User
unfolding normalize_display_name
new_user env input users = do
  require (valid_username (trim_space input.username)) invalid_input
  require (valid_password input.password) password_policy
  require (valid_role (role_or_user input.role)) invalid_input
  display_name ← normalize_display_name input.display_name
  require
      (not (is_some (first (λ (u : User). str_eq u.username (trim_space input.username)) users)))
      username_taken
  password_hash ← or_error (env.hash input.password) hash_failed
  ok (record {
    id = next_id user_key users;
    username = trim_space input.username;
    password_hash = password_hash;
    display_name = display_name;
    role = role_or_user input.role;
    enabled = input.enabled;
    password_changed_at = some env.now;
    last_login_at = none;
    updated_at = env.now;
  })

abbrev pub inserted : Users → Result UserError User → Users
inserted users (ok row) = row ∷ users
inserted users (err e) = users

unfoldable pub create : Env → CreateInput → Users → Result UserError User × Users
unfolding new_user
create env input users = (new_user env input users, inserted users (new_user env input users))

abbrev pub enabled_admin : User → Bool
enabled_admin u = str_eq u.role "admin" && u.enabled

-- `ensureMoreThanOneEnabledAdmin`.
abbrev pub other_admin : Users → Bool
other_admin users = not (leb (length (keep enabled_admin users)) 1)

-- The write of a row that a transaction has locked: `none` is a missing row, `refused` whether the
-- guard on the row fails.
unfoldable pub write_found :
    ℕ → (User → Bool) → (User → User) → Users → Option User → Result UserError User × Users
write_found id guard f users none = (err not_found, users)
write_found id guard f users (some user) =
    let refused = guard user && not (other_admin users) in
    (
      if refused then err last_admin else ok (f user),
      if refused then users else update user_key id f users,
    )

unfoldable pub write_row : ℕ → (User → Bool) → (User → User) → Users → Result UserError User × Users
unfolding write_found
write_row id guard f users = write_found id guard f users (find user_key id users)

-- The columns that `UpdateUser` writes. Where there is none, `updated_at` is not written either.
pub record UserUpdates : Type 0 where
  pub display_name : Option String
  pub display_name_set : Bool
  pub role : Option String

abbrev pub set_role : Option String → String → String
set_role none old = old
set_role (some role) old = role

unfoldable pub user_values : ℕ → UserUpdates → User → User
user_values now u user = record user {
  display_name = if u.display_name_set then u.display_name else user.display_name;
  role = set_role u.role user.role;
  updated_at = if u.display_name_set || is_some u.role then now else user.updated_at;
}

-- The update takes the role of admin from an enabled user.
abbrev pub demotes : Option String → User → Bool
demotes none user = false
demotes (some role) user = enabled_admin user && not (str_eq role "admin")

unfoldable pub update_user : ℕ → ℕ → UserUpdates → Users → Result UserError User × Users
unfolding write_row user_values
update_user now id u = write_row id (demotes u.role) (user_values now u)

-- The role of an update, if one is given, is trimmed and must be one of the two.
unfoldable pub with_role : Bool → Option String → Option String → Result UserError UserUpdates
with_role set display_name none =
    ok (record { display_name = display_name; display_name_set = set; role = none })
with_role set display_name (some role) = do
  require (valid_role (trim_space role)) invalid_input
  ok (record { display_name = display_name; display_name_set = set; role = some (trim_space role) })

-- The columns for the input of `Update`, or `ErrInvalidInput`.
unfoldable pub updates_of : UpdateInput → Result UserError UserUpdates
unfolding normalize_display_name with_role
updates_of input = do
  display_name ←
      if input.display_name_set then normalize_display_name input.display_name else ok none
  with_role input.display_name_set display_name input.role

abbrev pub update_with :
    ℕ → ℕ → Users → Result UserError UserUpdates → Result UserError User × Users
update_with now id users (err e) = (err e, users)
update_with now id users (ok u) = update_user now id u users

unfoldable pub update_account : ℕ → ℕ → UpdateInput → Users → Result UserError User × Users
unfolding updates_of update_user
update_account now id input users =
    if id == 0 then (err invalid_input, users) else update_with now id users (updates_of input)

unfoldable pub set_enabled : ℕ → ℕ → Bool → Users → Result UserError User × Users
unfolding write_row
set_enabled now id enabled users =
    if id == 0
    then (err invalid_input, users)
    else write_row id (λ user. not enabled && enabled_admin user)
        (λ user. record user { enabled = enabled; updated_at = now }) users

-- `UpdatePassword`.
unfoldable pub update_password : ℕ → String → ℕ → Users → Result UserError (Unit {0}) × Users
update_password id hash now users =
    if is_some (find user_key id users)
    then (
      ok tt,
      update user_key id
          (λ user. record user {
            password_hash = hash;
            password_changed_at = some now;
            updated_at = now;
          })
          users,
    )
    else (err not_found, users)

abbrev pub password_with : Env → ℕ → Users → Option String → Result UserError (Unit {0}) × Users
password_with env id users none = (err hash_failed, users)
password_with env id users (some hash) = update_password id hash env.now users

unfoldable pub reset_password : Env → ℕ → String → Users → Result UserError (Unit {0}) × Users
unfolding update_password
reset_password env id password users =
    if id == 0
    then (err invalid_input, users)
    else if not (valid_password password)
    then (err password_policy, users)
    else password_with env id users (env.hash password)

-- A request to the service, at a time.
pub data Request : Type 0 where
  creates : Env → CreateInput → Request
  updates : ℕ → ℕ → UpdateInput → Request
  resets_password : Env → ℕ → String → Request
  sets_enabled : ℕ → ℕ → Bool → Request

unfoldable pub serve : Request → Users → Users
unfolding create update_account reset_password set_enabled
serve (creates env input) users = (create env input users).1
serve (updates now id input) users = (update_account now id input users).1
serve (resets_password env id password) users = (reset_password env id password users).1
serve (sets_enabled now id enabled) users = (set_enabled now id enabled users).1

unfoldable pub serve_all : List Request → Users → Users
unfolding serve
serve_all [] users = users
serve_all (r ∷ rs) users = serve_all rs (serve r users)
