-- ===== src/Auth/Sessions.antt =====
-- The tokens of the service: a fresh one is accepted, and one from before a change of the password is
-- not.
use text.Mathlib.Text.{◌==◌ as str_eq}
use text.Mathlib.TextEquality.{eq_iff}
use adbcops.Common.{
  ℕ, ◌+◌, ◌*◌, ◌/◌, ◌≤◌, ◌<◌, ◌≡◌, ◌≢◌, refl, sym, ap, subst, ◌∙◌, inl, inr, String, Bool, true,
  false, not, ◌||◌, Option, none, some, Result, ok, err, is_ok, is_some, if◌then◌else◌, ◌==◌, arith,
  Bool-cases,
}
use adbcops.Common.Text.{trim_space}
use adbcops.Rca.Store.{find, update, Below}
use adbcops.Rca.Tables.{find-update, map_option}
use adbcops.Users.Service.{User, Users, user_key, valid_password, update_password, UserError}
use adbcops.Auth.Audits.{login-IsAttempt, find-first}
use adbcops.Auth.Service.{
  Env, Jwt, Claims, State, Metadata, LoginResult, AuthError, invalid_token, hash_failed, not_found,
  current_password, password_policy, claims_of, issue, parse_token, issued_result, login,
  issued_before, authenticate_as, authenticate, stored, store_password, change_found,
  change_password, second, logged_in,
}

-- What the library promises of its tokens: a token that it signs for this issuer is parsed to its
-- claims from the second in which it was issued up to its expiry.
unfoldable pub Keeps : Jwt → Type 0
Keeps jwt =
    (c : Claims) (token : String) (later : ℕ)
    → jwt.sign c ≡ some token
    → c.issuer ≡ "aiops-platform"
    → c.not_before * second ≤ later
    → c.issued_at * second ≤ later
    → later < c.expires_at * second
    → jwt.parse later token ≡ some c

-- A token of the user, parsed in its time, is that of a session.
fresh_claims :
    (env : Env) (now later : ℕ) (user : User) (token : String)
    → Keeps env.jwt
    → env.jwt.sign (claims_of env.expiry now user) ≡ some token
    → 0 < user.id
    → 0 < now
    → now ≤ later
    → later < (now + env.expiry) / second * second
    → parse_token env later token ≡ some (claims_of env.expiry now user)
unfolding parse_token claims_of Keeps
fresh_claims env now later user token keeps s i z l e =
    rw (keeps (claims_of env.expiry now user) token later s refl started started e)
      (ground (arith, i, z))
  where
    started : now / second * second ≤ later
    started = omega (arith, l)

own_session :
    (a b e i : Bool) (user : User)
    → a ≡ true
    → b ≡ true
    → e ≡ true
    → i ≡ false
    → (if not a || not b || not e
        then err invalid_token
        else if i
        then err invalid_token
        else ok user)
      ≡ ok user
own_session a b e i user p q r s = rw (p, q, r, s) refl

-- A result of `Login` holds the user with the time of the login, and the token that is signed for him.
result_of_issue :
    (env : Env) (now : ℕ) (user : User) (r : LoginResult) (signed : Option String)
    → env.jwt.sign (claims_of env.expiry now user) ≡ signed
    → issued_result now user (elim signed [
      | none ↦ none
      | some value ↦ some (record { value = value; expires_at = now + env.expiry })
    ])
      ≡ ok r
    → (record user { last_login_at = some now } ≡ r.user)
      × (env.jwt.sign (claims_of env.expiry now user) ≡ some r.token)
result_of_issue env now user r none s e = absurd cc
result_of_issue env now user r (some token) s e = (ap user_of e, s ∙ ap some (ap token_of e))
  where
    user_of : Result AuthError LoginResult → User
    user_of (ok result) = result.user
    user_of (err f) = record user { last_login_at = some now }

    token_of : Result AuthError LoginResult → String
    token_of (ok result) = result.token
    token_of (err f) = token

issued-ok :
    (env : Env) (now : ℕ) (user : User) (r : LoginResult)
    → issued_result now user (issue env now user) ≡ ok r
    → (record user { last_login_at = some now } ≡ r.user)
      × (env.jwt.sign (claims_of env.expiry now user) ≡ some r.token)
unfolding issue
issued-ok env now user r e =
    result_of_issue env now user r (env.jwt.sign (claims_of env.expiry now user)) refl e

session_of_user :
    (env : Env) (now later : ℕ) (users : Users) (user : User) (token : String)
    → parse_token env later token ≡ some (claims_of env.expiry now user)
    → find user_key user.id users ≡ some user
    → user.enabled ≡ true
    → issued_before user.password_changed_at now ≡ false
    → authenticate env later token users ≡ ok user
unfolding authenticate claims_of
session_of_user env now later users user token p f e changed =
    rw (p, f)
      (own_session (str_eq user.username user.username) (str_eq user.role user.role) user.enabled
        (issued_before user.password_changed_at now) user
        ((eq_iff user.username user.username).1 refl) ((eq_iff user.role user.role).1 refl) e
        changed)

-- The row of the user after the login.
written_row :
    (now : ℕ) (user : User) (users after : Users)
    → find user_key user.id users ≡ some user
    → after ≡ update user_key user.id (logged_in now) users
    → find user_key user.id after ≡ some (logged_in now user)
written_row now user users after row same =
    rw (same, find-update user_key (logged_in now) (λ u. refl) user.id user.id users, row)
      (ground arith)

-- `Authenticate` accepts the token that `Login` returned, and answers the user who signed in, as
-- the login left the row, from the time of the login to the whole second in which the token expires,
-- when the password has not been changed after the login. The library keeps its tokens, and the ids
-- of the users do not repeat and are positive.
pub login-authenticate :
    (env : Env) (now later n : ℕ) (username password : String) (meta : Metadata) (st : State)
    (r : LoginResult)
    → Keeps env.jwt
    → Below user_key n st.users
    → (login env now username password meta st).0 ≡ ok r
    → 0 < r.user.id
    → 0 < now
    → now ≤ later
    → later < (now + env.expiry) / second * second
    → issued_before r.user.password_changed_at now ≡ false
    → authenticate env later r.token (login env now username password meta st).1.users
      ≡ ok (record r.user { updated_at = now })
login-authenticate env now later n username password meta st r keeps below e i z l x changed =
    let attempt = login-IsAttempt env now n username password meta st below in
    elim (Bool-cases attempt.audit.success) [
      | inr k ↦ absurd (ok_refused (sym (ap is_ok e) ∙ (attempt.closed k).1))
      | inl y ↦
          let (user, may, _, same, after) = attempt.opened y in
          let (is_user, signed) = issued-ok env now user r (sym same ∙ e) in
          let row =
            find-first (λ (u : User). str_eq u.username (trim_space username)) n st.users user below
              may.found in
          session_of_user env now later _ (logged_in now user) r.token
            (unfold claims_of in
              fresh_claims env now later user r.token keeps signed
                (subst (λ (u : User). 0 < u.id) (sym is_user) i) z l x)
            (written_row now user st.users _ row after) may.enabled
            (subst (λ (u : User). issued_before u.password_changed_at now ≡ false) (sym is_user)
              changed)
          ∙ ap (λ (u : User). ok (record u { updated_at = now })) is_user
    ]
  where
    ok_refused : true ≡ false → ⊥
    ok_refused q = cc

-- A row whose password was changed after the token was issued.
stale_session :
    (a b e : Bool) (changed : Option ℕ) (issued : ℕ) (user : User)
    → issued_before changed issued ≡ true
    → (if not a || not b || not e
        then err invalid_token
        else if issued_before changed issued
        then err invalid_token
        else ok user)
      ≡ err invalid_token
stale_session a b e changed issued user s = rw s (ground arith)

-- The write of a new password.
abbrev new_password : ℕ → String → User → User
new_password now hash user = record user {
  password_hash = hash;
  password_changed_at = some now;
  updated_at = now;
}

abbrev Changed : ℕ → ℕ → Users → Users → Type 0
Changed now id users after =
    (hash : String) × (after ≡ update user_key id (new_password now hash) users)

err_ok : {A : Type 0} (e : AuthError) (a : A) → err e ≢ ok a
err_ok e a q = cc

store_password-Changed :
    (now id : ℕ) (hash : Option String) (users : Users)
    → (store_password now id hash users).0 ≡ ok tt
    → Changed now id users (store_password now id hash users).1
unfolding update_password
store_password-Changed now id none users e = absurd (err_ok hash_failed tt e)
store_password-Changed now id (some hash) users e =
    elim (Bool-cases (is_some (find user_key id users))) [
      | inl y ↦ (hash, ap second_part (updated_row y))
      | inr n ↦ absurd (
          err_ok not_found tt
            (sym (ap (λ (r : Result UserError (Unit {0}) × Users). stored r.0) (no_row n)) ∙ e))
    ]
  where
    second_part : Result UserError (Unit {0}) × Users → Users
    second_part r = r.1

    updated_row :
        is_some (find user_key id users) ≡ true
        → update_password id hash now users
          ≡ (ok tt, update user_key id (new_password now hash) users)
    updated_row y = rw y refl

    no_row :
        is_some (find user_key id users) ≡ false
        → update_password id hash now users ≡ (err UserError.not_found, users)
    no_row n = rw n refl

change_found-Changed :
    (env : Env) (now id : ℕ) (current new : String) (users : Users) (row : Option User)
    → (change_found env now id current new users row).0 ≡ ok tt
    → Changed now id users (change_found env now id current new users row).1
change_found-Changed env now id current new users none e = absurd (err_ok not_found tt e)
change_found-Changed env now id current new users (some user) e =
    elim (Bool-cases (env.matches user.password_hash current)) [
      | inr n ↦ absurd (err_ok current_password tt (rw n at e))
      | inl y ↦ elim (Bool-cases (env.matches user.password_hash new)) [
        | inl m ↦ absurd (err_ok password_policy tt (rw (y, m) at e))
        | inr m ↦ rw (y, m) (store_password-Changed now id (env.hash new) users (rw (y, m) at e))
      ]
    ]

change_password-Changed :
    (env : Env) (now id : ℕ) (current new : String) (users : Users)
    → (change_password env now id current new users).0 ≡ ok tt
    → Changed now id users (change_password env now id current new users).1
unfolding change_password
change_password-Changed env now id current new users e = elim (Bool-cases (valid_password new)) [
  | inr n ↦ absurd (err_ok password_policy tt (rw n at e))
  | inl y ↦ rw y (change_found-Changed env now id current new users _ (rw y at e))
]

stale_row :
    (c : Claims) (now : ℕ) (hash : String) (row : Option User)
    → c.issued_at_nano < now
    → authenticate_as c (map_option (new_password now hash) row) ≡ err invalid_token
stale_row c now hash none b = refl
stale_row c now hash (some user) b =
    stale_session (str_eq user.username c.username) (str_eq user.role c.role) user.enabled
      (some now) c.issued_at_nano (new_password now hash user) (ground (arith, b))

-- After `ChangePassword`, no token of the user that was issued before is accepted any more.
pub change_password-authenticate :
    (env : Env) (now id later : ℕ) (current new token : String) (users : Users) (c : Claims)
    → (change_password env now id current new users).0 ≡ ok tt
    → parse_token env later token ≡ some c
    → c.user_id ≡ id
    → c.issued_at_nano < now
    → authenticate env later token (change_password env now id current new users).1
      ≡ err invalid_token
unfolding authenticate
change_password-authenticate env now id later current new token users c e p i b =
    let (hash, after) = change_password-Changed env now id current new users e in
    let row = find-update user_key (new_password now hash) (λ u. refl) id c.user_id users in
    rw (after, p, row, i, itself id) (stale_row c now hash (find user_key id users) b)
  where
    itself : (k : ℕ) → (k == k) ≡ true
    itself k = ground arith
