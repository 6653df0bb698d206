-- ===== src/Users/Tests.antt =====
-- The user service on concrete requests: a second admin joins, the first one is demoted, and the
-- second cannot be disabled then.
use adbcops.Common.{refl, true, false, none, some, List, [], ◌∷◌, All, arith}
use adbcops.Rca.Store.{next_id}
use adbcops.Users.Service.{
  User, CreateInput, UpdateInput, Env, Request, creates, updates, resets_password, sets_enabled,
  serve_all,
}
use adbcops.Users.Admins.{HasAdmin, serve_all-HasAdmin}
use adbcops.Common.Members.{String_eq, Nodup}
use adbcops.Users.Fields.{IsUser, names, serve_all-IsUser}

abbrev env : Env
env = record { now = 5; hash = λ s. some s }

abbrev ann_input : CreateInput
ann_input = record {
  username = " ann ";
  password = "correct horse";
  display_name = some "Ann";
  role = "admin";
  enabled = true;
}

abbrev demotion : UpdateInput
demotion = record { display_name = none; display_name_set = true; role = some "user" }

abbrev session : List Request
session =
    creates env ann_input
    ∷ updates 6 1 demotion
    ∷ resets_password env 2 "correct horse battery"
    ∷ sets_enabled 7 2 false
    ∷ []

abbrev root : User
root = record {
  id = 1;
  username = "root";
  password_hash = "x";
  display_name = none;
  role = "admin";
  enabled = true;
  password_changed_at = none;
  last_login_at = none;
  updated_at = 0;
}

serve_all-HasAdmin_example : HasAdmin (serve_all session (root ∷ []))
unfolding next_id
serve_all-HasAdmin_example =
    serve_all-HasAdmin session (root ∷ []) (record { ids = (omega arith, tt); admin = refl })

serve_all-IsUser_example : All IsUser (serve_all session []) × Nodup (names (serve_all session []))
serve_all-IsUser_example = serve_all-IsUser session
