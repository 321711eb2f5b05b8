-- ===== src/Handler/Users.antt =====
-- `UserGrpc` (internal/handler/v1/user.go) and the checks of internal/handler/v1/helper.go.
use goipay.Base.{String, Bool, true, false, Option, none, some, List}
use goipay.Error.{Error, Result, ok, err, Code, Message}
use goipay.Coin.{CoinType}
use goipay.Db.Models.{Uuid, PgUuid, CryptoDatum, Db}
use goipay.Db.Session.{
  Session, Query, query, of_result, pure, fail, or_else_fail, ⊤, ◌>>=◌, ◌>>◌,
  init_db_queries_with_tx,
}
use goipay.Db.Users.{create_user as insert_user, create_user_with_id, user_exists_by_id}
use goipay.Db.Addresses.{delete_all_crypto_address_by_user_id_and_coin}
use goipay.Db.CryptoData.{
  HdTable, btc_table, ltc_table, eth_table, bnb_table, create_crypto_data,
  find_crypto_data_by_user_id, create_hd_crypto_data, set_hd_crypto_data_by_user_id,
  update_keys_hd_crypto_data_by_id,
}
use goipay.Db.XmrData.{
  XmrKeys, create_xmr_crypto_data, set_xmr_crypto_data_by_user_id,
  update_keys_xmr_crypto_data_by_id,
}
use goipay.Processor.Address.{HdLib, XmrLib}
use goipay.Processor.Create.{scan_uuid, in_tx}

-- What a call meets outside: pgtype's reading of a UUID, the key libraries, and new UUIDs.
pub record UserEnv : Type 0 where
  pub parse_uuid : String → Option Uuid
  pub hd : HdLib
  pub xmr : XmrLib
  pub new_user_id : Uuid
  pub new_xmr_id : Uuid
  pub new_hd_id : CoinType → Uuid

abbrev pub internal_error : Message → Error
internal_error = Error.status Code.internal

abbrev pub invalid_argument : Message → Error
invalid_argument = Error.status Code.invalid_argument

abbrev pub exists_or_fail : Bool → Query ⊤
exists_or_fail true = pure tt
exists_or_fail false = fail (invalid_argument Message.user_does_not_exist)

-- `checkIfUserExistsUUID`
unfoldable pub check_if_user_exists_uuid : PgUuid → Query ⊤
check_if_user_exists_uuid user = do
  found ← or_else_fail (internal_error Message.sql_query) (query (user_exists_by_id user))
  exists_or_fail found

-- `checkIfUserExistsString`
unfoldable pub check_if_user_exists_string : (String → Option Uuid) → String → Query ⊤
unfolding check_if_user_exists_uuid
check_if_user_exists_string parse s = do
  user ← or_else_fail (invalid_argument Message.invalid_user_uuid) (of_result (scan_uuid parse s))
  check_if_user_exists_uuid user

-- `if err == nil { return e }`: a call that must not succeed.
abbrev pub unless_fails : {A : Type 0} → Query ⊤ → Error → Query A → Query A
unless_fails m e k s = let (r, s') = m s in elim r [ ok _ ↦ (err e, s') | err _ ↦ k s' ]

-- `createUser`
unfoldable pub create_user : UserEnv → Option String → Query PgUuid
unfolding check_if_user_exists_uuid
create_user env none =
    or_else_fail (internal_error Message.sql_query) (query (insert_user env.new_user_id))
create_user env (some s) = do
  user ←
      or_else_fail (invalid_argument Message.invalid_user_uuid)
        (of_result (scan_uuid env.parse_uuid s))
  unless_fails (check_if_user_exists_uuid user) (invalid_argument Message.user_exists)
      (or_else_fail (internal_error Message.sql_query) (query (create_user_with_id user)))

unfoldable pub register_user_body : UserEnv → Option String → Query PgUuid
unfolding create_user
register_user_body env s = do
  user ← create_user env s
  or_else_fail (internal_error Message.sql_query) (query (create_crypto_data user))
  pure user

-- A handler's transaction: where it cannot begin, the answer is `Internal`.
abbrev pub in_handler_tx : {A : Type 0} → Option Session → Db → Query A → Result A × Db
in_handler_tx none db m = (err (internal_error Message.sql_tx_init), db)
in_handler_tx (some s) db m = in_tx (some s) db m

-- `RegisterUser`: the id of the user, which the answer spells out.
unfoldable pub register_user : UserEnv → List Bool → Option String → Db → Result PgUuid × Db
unfolding register_user_body init_db_queries_with_tx
register_user env faults s db =
    in_handler_tx (init_db_queries_with_tx faults db) db (register_user_body env s)

abbrev pub forget : {A : Type 0} → Query A → Query ⊤
forget m = m >> pure tt

abbrev pub sql_failure : {A : Type 0} → Query A → Query ⊤
sql_failure m = forget (or_else_fail (internal_error Message.sql_query) m)

abbrev pub put_xmr_keys : UserEnv → XmrKeys → PgUuid → PgUuid → Query ⊤
put_xmr_keys env k user none = do
  new ←
      or_else_fail (internal_error Message.sql_query)
        (query (create_xmr_crypto_data env.new_xmr_id k))
  sql_failure (query (set_xmr_crypto_data_by_user_id user new.id))
put_xmr_keys env k user (some id) =
    sql_failure (query (update_keys_xmr_crypto_data_by_id (some id) k))

-- `handleXmrCryptoDataUpdate`
unfoldable pub handle_xmr_crypto_data_update : UserEnv → XmrKeys → CryptoDatum → Query ⊤
handle_xmr_crypto_data_update env k cd = do
  or_else_fail (invalid_argument Message.invalid_view_key)
      (of_result (env.xmr.new_private_key k.priv_view_key))
  or_else_fail (invalid_argument Message.invalid_spend_key)
      (of_result (env.xmr.new_public_key k.pub_spend_key))
  sql_failure (query (delete_all_crypto_address_by_user_id_and_coin cd.user_id CoinType.xmr))
  put_xmr_keys env k cd.user_id cd.xmr_id

-- The switch of `handleHDKeysCryptoDataUpdate`: the coin's table and statements.
abbrev pub hd_table : CoinType → Option HdTable
hd_table CoinType.ltc = some ltc_table
hd_table CoinType.btc = some btc_table
hd_table CoinType.eth = some eth_table
hd_table CoinType.bnb = some bnb_table
hd_table _ = none

abbrev pub put_hd_keys : UserEnv → HdTable → CoinType → String → PgUuid → PgUuid → Query ⊤
put_hd_keys env t coin key user none = do
  new ←
      or_else_fail (internal_error Message.sql_query)
        (query (create_hd_crypto_data t (env.new_hd_id coin) key))
  sql_failure (query (set_hd_crypto_data_by_user_id t user new.id))
put_hd_keys env t coin key user (some id) =
    sql_failure (query (update_keys_hd_crypto_data_by_id t (some id) key))

abbrev pub update_hd_keys : UserEnv → String → CoinType → CryptoDatum → Option HdTable → Query ⊤
update_hd_keys env key coin cd none = fail Error.external
update_hd_keys env key coin cd (some t) = do
  or_else_fail (invalid_argument Message.invalid_master_key)
      (of_result (env.hd.new_key_from_string key))
  sql_failure (query (delete_all_crypto_address_by_user_id_and_coin cd.user_id coin))
  put_hd_keys env t coin key cd.user_id (t.link cd)

-- `handleHDKeysCryptoDataUpdate`
unfoldable pub handle_hd_keys_crypto_data_update :
    UserEnv → String → CoinType → CryptoDatum → Query ⊤
handle_hd_keys_crypto_data_update env key coin cd = update_hd_keys env key coin cd (hd_table coin)

-- `pb_v1.UpdateCryptoKeysRequest`
pub record UpdateCryptoKeysRequest : Type 0 where
  pub user_id : String
  pub xmr_req : Option XmrKeys
  pub btc_req : Option String
  pub ltc_req : Option String
  pub eth_req : Option String
  pub bnb_req : Option String

abbrev pub if_present : {A : Type 0} → Option A → (A → Query ⊤) → Query ⊤
if_present none k = pure tt
if_present (some a) k = k a

unfoldable pub update_crypto_keys_body : UserEnv → UpdateCryptoKeysRequest → Query ⊤
unfolding check_if_user_exists_uuid handle_xmr_crypto_data_update handle_hd_keys_crypto_data_update
update_crypto_keys_body env req = do
  user ←
      or_else_fail (invalid_argument Message.invalid_user_uuid)
        (of_result (scan_uuid env.parse_uuid req.user_id))
  check_if_user_exists_uuid user
  cd ← or_else_fail (internal_error Message.sql_query) (query (find_crypto_data_by_user_id user))
  if_present req.xmr_req (λ k. handle_xmr_crypto_data_update env k cd)
  if_present req.btc_req (λ k. handle_hd_keys_crypto_data_update env k CoinType.btc cd)
  if_present req.ltc_req (λ k. handle_hd_keys_crypto_data_update env k CoinType.ltc cd)
  if_present req.eth_req (λ k. handle_hd_keys_crypto_data_update env k CoinType.eth cd)
  if_present req.bnb_req (λ k. handle_hd_keys_crypto_data_update env k CoinType.bnb cd)

-- `UpdateCryptoKeys`
unfoldable pub update_crypto_keys :
    UserEnv → List Bool → UpdateCryptoKeysRequest → Db → Result ⊤ × Db
unfolding update_crypto_keys_body init_db_queries_with_tx
update_crypto_keys env faults req db =
    in_handler_tx (init_db_queries_with_tx faults db) db (update_crypto_keys_body env req)
