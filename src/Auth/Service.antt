-- ===== src/Auth/Service.antt =====
-- The authentication service and its tokens (backend/internal/auth/service.go and
-- backend/internal/auth/token.go) over the table of users. Times are in nanoseconds, but those of a
-- token's registered claims in seconds, as `jwt.NewNumericDate` cuts them. The subject, the id as a
-- decimal text, is the id; the random id of a token is left out. Texts are valid UTF-8.
use Prim.Native.Char.{code}
use Prim.Native.String.{[], ◌∷◌}
use text.Mathlib.Text.{◌==◌ as str_eq}
use adbcops.Common.{
  ℕ, ◌+◌, ◌-◌, ◌/◌, String, Bool, true, false, not, ◌||◌, Option, none, some, List, [], ◌∷◌, Result,
  ok, err, if◌then◌else◌, first, leb, ltb, is_some, ◌==◌,
}
use adbcops.Common.Text.{trim_space, byte_count, rune_bytes}
use adbcops.Rca.Store.{find, update, next_id}
use adbcops.Users.Service.{
  User, Users, UserError, user_key, valid_username, valid_password, update_password,
}

abbrev pub second : ℕ
second = 1000000000

pub record Claims : Type 0 where
  pub user_id : ℕ
  pub username : String
  pub role : String
  pub issued_at_nano : ℕ
  pub issuer : String
  pub subject : ℕ
  pub expires_at : ℕ
  pub issued_at : ℕ
  pub not_before : ℕ

-- The library of tokens: `SignedString` with the secret of the manager, and `ParseWithClaims` with
-- its options at a time, which answers the claims of a token that is valid then.
pub record Jwt : Type 0 where
  pub sign : Claims → Option String
  pub parse : ℕ → String → Option Claims

-- The manager's library and expiry, and bcrypt at the cost of the service.
pub record Env : Type 0 where
  pub jwt : Jwt
  pub expiry : ℕ
  pub hash : String → Option String
  pub matches : String → String → Bool

pub data AuthError : Type 0 where
  invalid_credentials invalid_input user_disabled current_password password_policy : AuthError
  invalid_token not_found not_admin hash_failed sign_failed : AuthError

pub record Metadata : Type 0 where
  pub client_ip : String
  pub user_agent : String

pub record LoginAudit : Type 0 where
  pub user_id : Option ℕ
  pub username : String
  pub success : Bool
  pub client_ip : String
  pub user_agent : String
  pub failure_reason : Option String

pub record State : Type 0 where
  pub users : Users
  pub audits : List LoginAudit

pub record IssuedToken : Type 0 where
  pub value : String
  pub expires_at : ℕ

pub record LoginResult : Type 0 where
  pub user : User
  pub token : String
  pub expires_at : ℕ

unfoldable pub claims_of : ℕ → ℕ → User → Claims
claims_of expiry now user = record {
  user_id = user.id;
  username = user.username;
  role = user.role;
  issued_at_nano = now;
  issuer = "aiops-platform";
  subject = user.id;
  expires_at = (now + expiry) / second;
  issued_at = now / second;
  not_before = now / second;
}

-- `Issue`.
unfoldable pub issue : Env → ℕ → User → Option IssuedToken
unfolding claims_of
issue env now user = elim (env.jwt.sign (claims_of env.expiry now user)) [
  | none ↦ none
  | some value ↦ some (record { value = value; expires_at = now + env.expiry })
]

abbrev pub checked_claims : Option Claims → Option Claims
checked_claims none = none
checked_claims (some c) =
    if c.user_id == 0 || c.issued_at_nano == 0 || not (c.subject == c.user_id) then none else some c

-- `Parse`.
unfoldable pub parse_token : Env → ℕ → String → Option Claims
parse_token env now value = checked_claims (env.jwt.parse now value)

-- `truncate`: the longest part from the start that has at most so many bytes.
unfoldable pub truncate : ℕ → String → String
truncate max [] = []
truncate max (c ∷ s) =
    let rest = truncate (max - rune_bytes (code c)) s in
    if leb (rune_bytes (code c)) max then c ∷ rest else []

-- The audit that `recordLogin` writes.
unfoldable pub audit_of : Option ℕ → String → Bool → String → Metadata → LoginAudit
unfolding truncate
audit_of id username success reason meta = record {
  user_id = id;
  username = truncate 100 username;
  success = success;
  client_ip = truncate 100 meta.client_ip;
  user_agent = truncate 1024 meta.user_agent;
  failure_reason = if str_eq reason "" then none else some reason;
}

abbrev pub logged_in : ℕ → User → User
logged_in now user = record user { last_login_at = some now; updated_at = now }

-- The update of `RecordLogin` on the row of the user, where there are a time and an id.
abbrev pub touched : Option ℕ → Option ℕ → Users → Result AuthError Users
touched none id users = ok users
touched (some now) none users = ok users
touched (some now) (some id) users =
    if is_some (find user_key id users)
    then ok (update user_key id (logged_in now) users)
    else err not_found

abbrev pub recorded :
    LoginAudit → State → Result AuthError Users → Result AuthError (Unit {0}) × State
recorded audit st (err e) = (err e, st)
recorded audit st (ok users) = (ok tt, record { users = users; audits = audit ∷ st.audits })

-- `RecordLogin`, one transaction.
unfoldable pub record_login : LoginAudit → Option ℕ → State → Result AuthError (Unit {0}) × State
unfolding find update
record_login audit last_login_at st =
    recorded audit st (touched last_login_at audit.user_id st.users)

-- `if err := s.recordLogin(...); err != nil { return nil, err }`, and what follows.
abbrev pub after_record :
    Result AuthError (Unit {0}) × State
    → Result AuthError LoginResult
    → Result AuthError LoginResult × State
after_record (ok u, st) result = (result, st)
after_record (err e, st) result = (err e, st)

-- `recordLogin` of a failure, and the error of `Login`.
unfoldable pub refuse :
    Option ℕ → String → String → Metadata → AuthError → State → Result AuthError LoginResult × State
unfolding audit_of record_login
refuse id username reason meta e st =
    after_record (record_login (audit_of id username false reason meta) none st) (err e)

-- The result of `Login`: the user as it was read, with the time of the login.
abbrev pub issued_result : ℕ → User → Option IssuedToken → Result AuthError LoginResult
issued_result now user none = err sign_failed
issued_result now user (some t) = ok (record {
  user = record user { last_login_at = some now };
  token = t.value;
  expires_at = t.expires_at;
})

-- The record of a success, and the token.
unfoldable pub accept :
    Env → ℕ → User → String → Metadata → State → Result AuthError LoginResult × State
unfolding issue audit_of record_login
accept env now user username meta st =
    after_record (record_login (audit_of (some user.id) username true "" meta) (some now) st)
      (issued_result now user (issue env now user))

-- What follows the lookup of the name.
unfoldable pub login_found :
    Env
    → ℕ
    → String
    → String
    → Metadata
    → State
    → Option User
    → Result AuthError LoginResult × State
unfolding refuse accept
login_found env now username password meta st none =
    refuse none username "user_not_found" meta invalid_credentials st
login_found env now username password meta st (some user) =
    if not (env.matches user.password_hash password)
    then refuse (some user.id) username "invalid_password" meta invalid_credentials st
    else if not user.enabled
    then refuse (some user.id) username "disabled" meta user_disabled st
    else accept env now user username meta st

abbrev pub by_username : String → Users → Option User
by_username name users = first (λ (u : User). str_eq u.username name) users

-- `Login`.
unfoldable pub login :
    Env → ℕ → String → String → Metadata → State → Result AuthError LoginResult × State
unfolding login_found refuse trim_space byte_count
login env now username password meta st =
    if not (valid_username (trim_space username))
      || str_eq password ""
      || ltb 72 (byte_count password)
    then refuse none (trim_space username) "invalid_input" meta invalid_input st
    else login_found env now (trim_space username) password meta st
        (by_username (trim_space username) st.users)

abbrev pub issued_before : Option ℕ → ℕ → Bool
issued_before none issued = false
issued_before (some changed) issued = ltb issued changed

abbrev pub authenticate_as : Claims → Option User → Result AuthError User
authenticate_as c none = err invalid_token
authenticate_as c (some user) =
    if not (str_eq user.username c.username) || not (str_eq user.role c.role) || not user.enabled
    then err invalid_token
    else if issued_before user.password_changed_at c.issued_at_nano
    then err invalid_token
    else ok user

abbrev pub authenticate_claims : Users → Option Claims → Result AuthError User
authenticate_claims users none = err invalid_token
authenticate_claims users (some c) = authenticate_as c (find user_key c.user_id users)

-- `Authenticate`.
unfoldable pub authenticate : Env → ℕ → String → Users → Result AuthError User
unfolding parse_token find
authenticate env now token users = authenticate_claims users (parse_token env now token)

abbrev pub stored : Result UserError (Unit {0}) → Result AuthError (Unit {0})
stored (ok u) = ok u
stored (err e) = err not_found

-- The write of `ChangePassword`, once there is a hash.
abbrev pub store_password : ℕ → ℕ → Option String → Users → Result AuthError (Unit {0}) × Users
store_password now id none users = (err hash_failed, users)
store_password now id (some hash) users =
    (stored (update_password id hash now users).0, (update_password id hash now users).1)

abbrev pub change_found :
    Env → ℕ → ℕ → String → String → Users → Option User → Result AuthError (Unit {0}) × Users
change_found env now id current new users none = (err not_found, users)
change_found env now id current new users (some user) =
    if not (env.matches user.password_hash current)
    then (err current_password, users)
    else if env.matches user.password_hash new
    then (err password_policy, users)
    else store_password now id (env.hash new) users

-- `ChangePassword`.
unfoldable pub change_password :
    Env → ℕ → ℕ → String → String → Users → Result AuthError (Unit {0}) × Users
unfolding find update_password byte_count
change_password env now id current new users =
    if not (valid_password new)
    then (err password_policy, users)
    else change_found env now id current new users (find user_key id users)

-- The row of the first administrator, or the error of its hash.
abbrev pub admin_with : ℕ → String → Users → Option String → Result AuthError (Unit {0}) × Users
admin_with now name users none = (err hash_failed, users)
admin_with now name users (some hash) = (
  ok tt,
  record {
    id = next_id user_key users;
    username = name;
    password_hash = hash;
    display_name = some "Platform Admin";
    role = "admin";
    enabled = true;
    password_changed_at = some now;
    last_login_at = none;
    updated_at = now;
  }
      ∷ users,
)

abbrev pub bootstrap_found :
    Env → ℕ → String → String → Users → Option User → Result AuthError (Unit {0}) × Users
bootstrap_found env now name password users (some user) =
    (if str_eq user.role "admin" then ok tt else err not_admin, users)
bootstrap_found env now name password users none = admin_with now name users (env.hash password)

-- `BootstrapAdmin`.
unfoldable pub bootstrap_admin :
    Env → ℕ → String → String → Users → Result AuthError (Unit {0}) × Users
unfolding trim_space byte_count next_id
bootstrap_admin env now username password users =
    if not (valid_username (trim_space username))
    then (err invalid_input, users)
    else if not (valid_password password)
    then (err password_policy, users)
    else bootstrap_found env now (trim_space username) password users
        (by_username (trim_space username) users)
