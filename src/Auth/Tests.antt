-- ===== src/Auth/Tests.antt =====
-- A sign-in of the one user of a table, a session with its token, and a change of the password.
use text.Mathlib.Text.{◌==◌ as str_eq}
use text.Mathlib.TextEquality.{eq_iff}
use adbcops.Common.{
  ◌≡◌, refl, sym, ap, inl, inr, Bool, true, false, ◌&&◌, none, some, [], ◌∷◌, ok, err,
  if◌then◌else◌, ◌==◌, arith, Bool-cases,
}
use adbcops.Common.Text.{trim_space}
use adbcops.Users.Service.{User, Users}
use adbcops.Auth.Service.{
  Env, Jwt, Claims, State, Metadata, LoginResult, invalid_token, login, authenticate, parse_token,
  change_password,
}
use adbcops.Auth.Sessions.{Keeps, login-authenticate, change_password-authenticate}
use adbcops.Auth.Audits.{IsAttempt, login-IsAttempt}

abbrev admin : User
admin = record {
  id = 1;
  username = "admin";
  password_hash = "hash";
  display_name = none;
  role = "admin";
  enabled = true;
  password_changed_at = some 1000000000;
  last_login_at = none;
  updated_at = 1000000000;
}

abbrev session : Claims
session = record {
  user_id = 1;
  username = "admin";
  role = "admin";
  issued_at_nano = 2000000000;
  issuer = "aiops-platform";
  subject = 1;
  expires_at = 12;
  issued_at = 2;
  not_before = 2;
}

abbrev same_texts : Claims → Bool
same_texts c =
    str_eq c.username "admin" && str_eq c.role "admin" && str_eq c.issuer "aiops-platform"

abbrev same_numbers : Claims → Bool
same_numbers c =
    c.user_id == 1
    && c.issued_at_nano == 2000000000
    && c.subject == 1
    && c.expires_at == 12
    && c.issued_at == 2
    && c.not_before == 2

-- A library that signs the claims of one session only.
abbrev jwt : Jwt
jwt = record {
  sign = λ c. if same_texts c && same_numbers c then some "token" else none;
  parse = λ later token. if str_eq token "token" then some session else none;
}

both_true : (a b : Bool) → (a && b) ≡ true → (a ≡ true) × (b ≡ true)
both_true true true e = (refl, refl)
both_true true false e = absurd cc
both_true false b e = absurd cc

all_true : (a b c : Bool) → (a && b && c) ≡ true → (a ≡ true) × (b ≡ true) × (c ≡ true)
all_true a b c e = (ground (arith, e), ground (arith, e), ground (arith, e))

same_session : (c : Claims) → same_texts c ≡ true → same_numbers c ≡ true → c ≡ session
same_session c t n = λ i. record {
  user_id = n0 i;
  username = t0 i;
  role = t1 i;
  issued_at_nano = n1 i;
  issuer = t2 i;
  subject = n2 i;
  expires_at = n3 i;
  issued_at = n4 i;
  not_before = n5 i;
}
  where
    texts :
        (str_eq c.username "admin" ≡ true)
        × (str_eq c.role "admin" ≡ true)
        × (str_eq c.issuer "aiops-platform" ≡ true)
    texts =
        all_true (str_eq c.username "admin") (str_eq c.role "admin")
          (str_eq c.issuer "aiops-platform") t

    t0 : c.username ≡ "admin"
    t0 = (eq_iff c.username "admin").0 texts.0

    t1 : c.role ≡ "admin"
    t1 = (eq_iff c.role "admin").0 texts.1

    t2 : c.issuer ≡ "aiops-platform"
    t2 = (eq_iff c.issuer "aiops-platform").0 texts.2

    n0 : c.user_id ≡ 1
    n0 = ground (arith, n)

    n1 : c.issued_at_nano ≡ 2000000000
    n1 = ground (arith, n)

    n2 : c.subject ≡ 1
    n2 = ground (arith, n)

    n3 : c.expires_at ≡ 12
    n3 = ground (arith, n)

    n4 : c.issued_at ≡ 2
    n4 = ground (arith, n)

    n5 : c.not_before ≡ 2
    n5 = ground (arith, n)

jwt-Keeps : Keeps jwt
unfolding Keeps
jwt-Keeps c token later s i n a e = elim (Bool-cases (same_texts c && same_numbers c)) [
  | inr k ↦ absurd (none_token (rw k at s))
  | inl y ↦
      let (t, m) = both_true _ _ y in
      let signed : token ≡ "token" = sym (some_injective (rw y at s)) in
      rw signed (ap some (sym (same_session c t m)))
]
  where
    none_token : none ≡ some token → ⊥
    none_token q = cc

    some_injective : some "token" ≡ some token → "token" ≡ token
    some_injective q = cc

abbrev env : Env
env = record {
  jwt = jwt;
  expiry = 10000000000;
  hash = λ password. some "hash of the new one";
  matches = λ hash password. str_eq password "open sesame!";
}

abbrev users : Users
users = admin ∷ []

abbrev state : State
state = record { users = users; audits = [] }

abbrev meta : Metadata
meta = record { client_ip = "10.0.0.1"; user_agent = "browser" }

abbrev signed_in : LoginResult
signed_in = record {
  user = record admin { last_login_at = some 2000000000 };
  token = "token";
  expires_at = 12000000000;
}

login-authenticate_example :
    authenticate env 3000000000 "token"
      (login env 2000000000 " admin" "open sesame!" meta state).1.users
    ≡ ok (record admin { last_login_at = some 2000000000; updated_at = 2000000000 })
unfolding login
login-authenticate_example =
    login-authenticate env 2000000000 3000000000 2 " admin" "open sesame!" meta state signed_in
      jwt-Keeps (omega arith, tt) refl (omega arith) (omega arith) (omega arith) (omega arith) refl

change_password-authenticate_example :
    authenticate env 5000000000 "token"
      (change_password env 4000000000 1 "open sesame!" "open sesame again" users).1
    ≡ err invalid_token
unfolding change_password parse_token
change_password-authenticate_example =
    change_password-authenticate env 4000000000 1 5000000000 "open sesame!" "open sesame again"
      "token" users session refl refl refl (omega arith)

login-IsAttempt_example :
    IsAttempt env 2000000000 "admin" "wrong password" state
      (login env 2000000000 "admin" "wrong password" meta state)
unfolding trim_space
login-IsAttempt_example =
    login-IsAttempt env 2000000000 2 "admin" "wrong password" meta state (omega arith, tt)
