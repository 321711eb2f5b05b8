-- ===== src/Handler/Registered.antt =====
-- What `RegisterUser` and `UpdateCryptoKeys` (internal/handler/v1/user.go) leave in the tables.
use goipay.Base.{
  ◌≡◌, ap, ◌∙◌, String, Bool, true, false, Option, none, some, List, [], ◌∷◌, ◌++◌, arith, exists,
}
use goipay.Error.{Result, ok, err, Message}
use goipay.Db.Models.{Uuid, PgUuid, eq_uuid, Db}
use goipay.Db.Session.{live, Session, ⊤, query, pure, or_else_fail, ◌>>=◌, ◌>>◌}
use goipay.Db.Users.{create_user_with_id}
use goipay.Db.CryptoData.{no_keys, has_user, create_crypto_data}
use goipay.Processor.Create.{finish}
use goipay.Handler.Users.{
  UserEnv, invalid_argument, internal_error, unless_fails, check_if_user_exists_uuid,
  exists_or_fail, check_if_user_exists_string, register_user,
}

-- The user that a call asks for: the one that its id spells, or else a new one.
abbrev pub asked_for : UserEnv → Option String → Option Uuid
asked_for env none = some env.new_user_id
asked_for env (some s) = env.parse_uuid s

abbrev pub registered : PgUuid → Db → Db
registered user db = record db {
  users = db.users ++ user ∷ [];
  crypto_data = db.crypto_data ++ no_keys user ∷ [];
}

exists-append_self :
    (u : Uuid) (us : List PgUuid) → exists (eq_uuid (some u)) (us ++ some u ∷ []) ≡ true
exists-append_self u [] = ground arith
exists-append_self u (v ∷ us) = ground (arith, exists-append_self u us)

check_if_user_exists_uuid_lem :
    (u : Uuid) (db : Db) {b : Bool}
    → exists (eq_uuid (some u)) db.users ≡ b
    → check_if_user_exists_uuid (some u) (live db) ≡ exists_or_fail b (live db)
unfolding check_if_user_exists_uuid
check_if_user_exists_uuid_lem u db h = ap (λ b. exists_or_fail b (live db)) h

pub check_if_user_exists_string_lem :
    (parse : String → Option Uuid) (s : String) (u : Uuid) (db : Db) {b : Bool}
    → parse s ≡ some u
    → exists (eq_uuid (some u)) db.users ≡ b
    → check_if_user_exists_string parse s (live db) ≡ exists_or_fail b (live db)
unfolding check_if_user_exists_string
check_if_user_exists_string_lem parse s u db p h =
    ap (λ o. check_if_user_exists_string (λ _. o) s (live db)) p
    ∙ check_if_user_exists_uuid_lem u db h

module _ (env : UserEnv) (t : String) (u : Uuid) (db : Db) where
  -- The call once it is known whether the user exists.
  abbrev when_checked : Result ⊤ × Session → Result PgUuid × Db
  when_checked r = finish db (
      (unless_fails (λ _. r) (invalid_argument Message.user_exists)
            (or_else_fail (internal_error Message.sql_query) (query (create_user_with_id (some u))))
          >>= λ user.
              (or_else_fail (internal_error Message.sql_query) (query (create_crypto_data user))
                >> pure user))
        (live db))

  register_user-checked :
      env.parse_uuid t ≡ some u
      → {b : Bool} → exists (eq_uuid (some u)) db.users ≡ b
      → register_user env [] (some t) db ≡ when_checked (exists_or_fail b (live db))
  unfolding register_user
  register_user-checked e h =
      ap (λ o. register_user (record env { parse_uuid = λ _. o }) [] (some t) db) e
      ∙ ap when_checked (check_if_user_exists_uuid_lem u db h)

-- Where the database is reached and the id, if one is given, is a UUID: a user that does not exist
-- and has no keys is registered, with one row for the user and one for its keys, all null; one that
-- exists is refused, if its id is given, and nothing is written.
pub register_user_lem :
    (env : UserEnv) (id : Option String) (u : Uuid) (db : Db)
    → asked_for env id ≡ some u
    → (exists (eq_uuid (some u)) db.users ≡ false
        → exists (has_user (some u)) db.crypto_data ≡ false
        → register_user env [] id db ≡ (ok (some u), registered (some u) db))
      × ((s : String)
          → id ≡ some s
          → exists (eq_uuid (some u)) db.users ≡ true
          → register_user env [] id db ≡ (err (invalid_argument Message.user_exists), db))
unfolding register_user
register_user_lem env none u db e =
    (λ new unkeyed. ground (arith, exists-append_self u db.users), λ s f old. ground arith)
register_user_lem env (some t) u db e = (
  λ new unkeyed.
      register_user-checked env t u db e new ∙ ground (arith, exists-append_self u db.users),
  λ s f old. register_user-checked env t u db e old,
)
