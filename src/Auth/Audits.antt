-- ===== src/Auth/Audits.antt =====
-- What `Login` records of an attempt.
use text.Mathlib.Text.{◌==◌ as str_eq}
use text.Mathlib.TextEquality.{eq_iff}
use adbcops.Common.{
  ℕ, ◌≡◌, ◌≢◌, ◌<◌, ◌≤◌, refl, ap, sym, subst, ◌∙◌, inl, inr, String, Bool, true, false, not, ◌||◌,
  Option, none, some, [], ◌∷◌, Result, is_ok, if◌then◌else◌, first, ltb, ◌==◌, arith, Bool-cases,
}
use adbcops.Common.Text.{trim_space, byte_count}
use adbcops.Rca.Store.{find, update, Below}
use adbcops.Users.Service.{User, Users, user_key, valid_username}
use adbcops.Auth.Service.{
  Env, State, Metadata, LoginResult, LoginAudit, AuthError, user_disabled, issue, issued_result,
  logged_in, record_login, refuse, audit_of, accept, login_found, login, by_username,
}

below_first :
    (p : User → Bool) (n : ℕ) (users : Users) (u : User)
    → Below user_key n users
    → first p users ≡ some u
    → u.id < n
below_first p n [] u b f = absurd cc
below_first p n (x ∷ xs) u b f = elim (Bool-cases (p x)) [
  | inl y ↦ omega (arith, b.0, ap (λ (k : User). k.id) (some_injective (rw y at f)))
  | inr k ↦ omega (arith, b.0, below_first p x.id xs u b.1 (rw k at f))
]
  where
    some_injective : some x ≡ some u → x ≡ u
    some_injective q = cc

-- The user that is found by a test is the one with its id.
pub find-first :
    (p : User → Bool) (n : ℕ) (users : Users) (u : User)
    → Below user_key n users
    → first p users ≡ some u
    → find user_key u.id users ≡ some u
unfolding find
find-first p n [] u b f = absurd cc
find-first p n (x ∷ xs) u b f = elim (Bool-cases (p x)) [
  | inl y ↦
      subst (λ (k : User). find user_key k.id (x ∷ xs) ≡ some k) (some_injective (rw y at f))
        (rw (itself x.id) refl)
  | inr k ↦
      rw (apart (below_first p x.id xs u b.1 (rw k at f))) (find-first p x.id xs u b.1 (rw k at f))
]
  where
    some_injective : some x ≡ some u → x ≡ u
    some_injective q = cc

    apart : u.id < x.id → (x.id == u.id) ≡ false
    apart l = ground arith

    itself : (k : ℕ) → (k == k) ≡ true
    itself k = ground arith

-- Who may sign in: the name has 1 to 100 bytes and the password 1 to 72, the user of the name is
-- enabled and has the password.
pub record MaySignIn (env : Env) (name password : String) (users : Users) (user : User)
    : Type 0 where
  pub named : name ≢ ""
  pub name_bytes : byte_count name ≤ 100
  pub given : password ≢ ""
  pub password_bytes : byte_count password ≤ 72
  pub found : by_username name users ≡ some user
  pub enabled : user.enabled ≡ true
  pub has_password : env.matches user.password_hash password ≡ true

-- The attempt is recorded by one audit. On a success it names a user who may sign in, the row of
-- this user has the time of the login, and the answer is the token that is issued to him. On a
-- failure no user may sign in, no row changes and no token is returned.
pub record IsAttempt (env : Env) (now : ℕ) (name password : String) (st : State)
    (out : Result AuthError LoginResult × State) : Type 0 where
  pub audit : LoginAudit
  pub recorded : out.1.audits ≡ audit ∷ st.audits
  pub opened :
      audit.success ≡ true
      → (user : User) × MaySignIn env name password st.users user
        × (audit.user_id ≡ some user.id)
        × (out.0 ≡ issued_result now user (issue env now user))
        × (out.1.users ≡ update user_key user.id (logged_in now) st.users)
  pub closed :
      audit.success ≡ false
      → ((user : User) → ¬ (MaySignIn env name password st.users user))
        × (is_ok out.0 ≡ false)
        × (out.1.users ≡ st.users)

refuse-IsAttempt :
    (env : Env) (now : ℕ) (name password : String) (id : Option ℕ) (username reason : String)
    (meta : Metadata) (e : AuthError) (st : State)
    → ((user : User) → ¬ (MaySignIn env name password st.users user))
    → IsAttempt env now name password st (refuse id username reason meta e st)
unfolding refuse audit_of record_login
refuse-IsAttempt env now name password id username reason meta e st never = record {
  audit = audit_of id username false reason meta;
  recorded = refl;
  opened = λ s. absurd cc;
  closed = λ s. (never, refl, refl);
}

accept-IsAttempt :
    (env : Env) (now : ℕ) (name password : String) (user : User) (meta : Metadata) (st : State)
    → MaySignIn env name password st.users user
    → find user_key user.id st.users ≡ some user
    → IsAttempt env now name password st (accept env now user name meta st)
unfolding accept audit_of record_login
accept-IsAttempt env now name password user meta st may row = rw row (record {
  audit = audit_of (some user.id) name true "" meta;
  recorded = refl;
  opened = λ s. (user, may, refl, refl, refl);
  closed = λ s. absurd cc;
})

-- Where the row that is found cannot sign in, nobody can.
nobody :
    (env : Env) (name password : String) (users : Users) (row : Option User)
    → by_username name users ≡ row
    → ((user : User)
        → row ≡ some user
        → user.enabled ≡ true
        → ¬ (env.matches user.password_hash password ≡ true))
    → (user : User) → ¬ (MaySignIn env name password users user)
nobody env name password users row f never user may =
    never user (sym f ∙ may.found) may.enabled may.has_password

module _ (env : Env) (now n : ℕ) (name password : String) (meta : Metadata) (st : State)
    (below : Below user_key n st.users) (named : name ≢ "") (name_bytes : byte_count name ≤ 100)
    (given : password ≢ "") (password_bytes : byte_count password ≤ 72) where
  enabled-IsAttempt :
      (user : User) (enabled : Bool)
      → by_username name st.users ≡ some user
      → user.enabled ≡ enabled
      → env.matches user.password_hash password ≡ true
      → IsAttempt env now name password st (
          if not enabled
          then refuse (some user.id) name "disabled" meta user_disabled st
          else accept env now user name meta st)
  enabled-IsAttempt user false f e m =
      refuse-IsAttempt env now name password (some user.id) name "disabled" meta _ st (
        nobody env name password st.users (some user) f
          (λ u same on _. true_false (sym on ∙ ap (λ (k : User). k.enabled) (itself u same) ∙ e)))
    where
      itself : (u : User) → some user ≡ some u → u ≡ user
      itself u q = cc

      true_false : true ≡ false → ⊥
      true_false q = cc
  enabled-IsAttempt user true f e m =
      accept-IsAttempt env now name password user meta st
        (record {
          named = named;
          name_bytes = name_bytes;
          given = given;
          password_bytes = password_bytes;
          found = f;
          enabled = e;
          has_password = m;
        })
        (find-first (λ (u : User). str_eq u.username name) n st.users user below f)

  login_found-IsAttempt :
      (row : Option User)
      → by_username name st.users ≡ row
      → IsAttempt env now name password st (login_found env now name password meta st row)
  unfolding login_found
  login_found-IsAttempt none f =
      refuse-IsAttempt env now name password none name "user_not_found" meta _ st
        (nobody env name password st.users none f (λ u same _ _. absurd cc))
  login_found-IsAttempt (some user) f =
      elim (Bool-cases (env.matches user.password_hash password)) [
        | inr m ↦ rw m (
            refuse-IsAttempt env now name password (some user.id) name "invalid_password" meta _ st
              (nobody env name password st.users (some user) f (wrong m)))
        | inl m ↦ rw m (enabled-IsAttempt user user.enabled f refl m)
      ]
    where
      wrong :
          env.matches user.password_hash password ≡ false
          → (u : User) → some user ≡ some u
          → u.enabled ≡ true
          → ¬ (env.matches u.password_hash password ≡ true)
      wrong m u same _ right = cc

-- The tests of `Login` on the name and the password.
refused_input :
    (env : Env) (name password : String) (users : Users)
    → (not (valid_username name) || str_eq password "" || ltb 72 (byte_count password)) ≡ true
    → (user : User) → ¬ (MaySignIn env name password users user)
refused_input env name password users bad user may = ground (
  arith,
  eq_iff name "",
  eq_iff password "",
  may.named,
  may.name_bytes,
  may.given,
  may.password_bytes,
)

accepted_input :
    (name password : String)
    → (not (valid_username name) || str_eq password "" || ltb 72 (byte_count password)) ≡ false
    → (name ≢ "") × (byte_count name ≤ 100) × (password ≢ "") × (byte_count password ≤ 72)
accepted_input name password good = (
  λ e. ground (arith, eq_iff name ""),
  ground arith,
  λ e. ground (arith, eq_iff password ""),
  ground arith,
)

-- `Login` records each attempt by exactly one audit. The audit is a success exactly when some user may
-- sign in: the trimmed name has 1 to 100 bytes and the password 1 to 72, and the user of the name is
-- enabled and has the password. On a success the audit names this user, the time of the login is
-- written to the user's row only, and the answer is the token that is issued to the user, or the
-- error of its signing; on a failure no row is written and no token is returned. The ids of the users
-- do not repeat.
pub login-IsAttempt :
    (env : Env) (now n : ℕ) (username password : String) (meta : Metadata) (st : State)
    → Below user_key n st.users
    → IsAttempt env now (trim_space username) password st (login env now username password meta st)
unfolding login
login-IsAttempt env now n username password meta st b =
    elim (Bool-cases (
      not (valid_username (trim_space username))
      || str_eq password ""
      || ltb 72 (byte_count password))) [
        | inl y ↦ rw y (
            refuse-IsAttempt env now (trim_space username) password none (trim_space username)
              "invalid_input" meta _ st
              (refused_input env (trim_space username) password st.users y))
        | inr k ↦
            let (named, name_bytes, given, password_bytes) =
              accepted_input (trim_space username) password k in
            rw k (
              login_found-IsAttempt env now n (trim_space username) password meta st b named
                name_bytes given password_bytes _ refl)
      ]
