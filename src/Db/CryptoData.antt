-- ===== src/Db/CryptoData.antt =====
-- internal/db/crypto_data.sql.go: the keys that addresses are derived from, and for each user the
-- rows that hold them. The four tables of master public keys are alike: `HdTable` names one.
use goipay.Base.{
  ℕ, ◌+◌, String, Bool, not, ◌&&◌, ◌||◌, none, some, List, [], ◌∷◌, ◌++◌, find, exists, leb, str_eq,
  if◌then◌else◌,
}
use goipay.Db.Models.{Uuid, PgUuid, eq_uuid, CryptoDatum, HdCryptoDatum, Db}
use goipay.Db.Session.{Outcome, row}
use goipay.Db.Statements.{update_one, returning, unless, is_null}

abbrev pub max_int32 : ℕ
max_int32 = 2147483647

-- One of the tables `btc_crypto_data`, `ltc_crypto_data`, `eth_crypto_data`, `bnb_crypto_data`,
-- with the column of `crypto_data` that points into it.
pub record HdTable : Type 0 where
  pub rows : Db → List HdCryptoDatum
  pub put_rows : Db → List HdCryptoDatum → Db
  pub link : CryptoDatum → PgUuid
  pub put_link : PgUuid → CryptoDatum → CryptoDatum

abbrev pub btc_table : HdTable
btc_table = record {
  rows = λ db. db.btc_crypto_data;
  put_rows = λ db rows. record db { btc_crypto_data = rows };
  link = λ d. d.btc_id;
  put_link = λ id d. record d { btc_id = id };
}

abbrev pub ltc_table : HdTable
ltc_table = record {
  rows = λ db. db.ltc_crypto_data;
  put_rows = λ db rows. record db { ltc_crypto_data = rows };
  link = λ d. d.ltc_id;
  put_link = λ id d. record d { ltc_id = id };
}

abbrev pub eth_table : HdTable
eth_table = record {
  rows = λ db. db.eth_crypto_data;
  put_rows = λ db rows. record db { eth_crypto_data = rows };
  link = λ d. d.eth_id;
  put_link = λ id d. record d { eth_id = id };
}

abbrev pub bnb_table : HdTable
bnb_table = record {
  rows = λ db. db.bnb_crypto_data;
  put_rows = λ db rows. record db { bnb_crypto_data = rows };
  link = λ d. d.bnb_id;
  put_link = λ id d. record d { bnb_id = id };
}

abbrev pub has_hd_id : PgUuid → HdCryptoDatum → Bool
has_hd_id id r = eq_uuid r.id id

abbrev has_key : String → HdCryptoDatum → Bool
has_key key r = str_eq r.master_pub_key key

abbrev pub new_hd : Uuid → String → HdCryptoDatum
new_hd new_id key = record {
  id = some new_id;
  master_pub_key = key;
  last_major_index = 0;
  last_minor_index = 0;
}

-- `INSERT INTO …_crypto_data(master_pub_key) VALUES ($1)`: a unique id, and a unique key.
abbrev pub create_hd_crypto_data : HdTable → Uuid → String → Db → Outcome HdCryptoDatum
create_hd_crypto_data t new_id key db =
    unless (exists (has_hd_id (some new_id)) (t.rows db) || exists (has_key key) (t.rows db))
      (row (new_hd new_id key) (t.put_rows db (t.rows db ++ new_hd new_id key ∷ [])))

abbrev pub other_has_key : PgUuid → String → HdCryptoDatum → Bool
other_has_key id key r = not (has_hd_id id r) && has_key key r

abbrev pub set_key : String → HdCryptoDatum → HdCryptoDatum
set_key key r = record r { master_pub_key = key; last_major_index = 0; last_minor_index = 0 }

-- `UPDATE …_crypto_data SET master_pub_key = $2, last_major_index = 0, last_minor_index = 0`
abbrev pub update_keys_hd_crypto_data_by_id : HdTable → PgUuid → String → Db → Outcome HdCryptoDatum
update_keys_hd_crypto_data_by_id t id key db =
    unless (exists (has_hd_id id) (t.rows db) && exists (other_has_key id key) (t.rows db))
      (update_one (has_hd_id id) (set_key key) (t.rows db) (t.put_rows db))

-- The two `CASE` expressions: the minor index counts up to the largest int32 and starts again,
-- and the major index counts its rounds.
abbrev pub next_minor : ℕ → ℕ
next_minor minor = if leb max_int32 minor then 0 else minor + 1

abbrev pub next_major : ℕ → ℕ → ℕ
next_major major minor = if leb max_int32 minor then major + 1 else major

abbrev pub set_next_indices : HdCryptoDatum → HdCryptoDatum
set_next_indices r = record r {
  last_major_index = next_major r.last_major_index r.last_minor_index;
  last_minor_index = next_minor r.last_minor_index;
}

-- The sum leaves the range of the column's type.
abbrev pub indices_overflow : PgUuid → HdCryptoDatum → Bool
indices_overflow id r =
    has_hd_id id r && leb max_int32 r.last_minor_index && leb max_int32 r.last_major_index

-- `UPDATE …_crypto_data SET last_minor_index = CASE …, last_major_index = CASE … RETURNING …`
abbrev pub find_keys_and_incremented_indices_hd : HdTable → PgUuid → Db → Outcome HdCryptoDatum
find_keys_and_incremented_indices_hd t id db =
    unless (exists (indices_overflow id) (t.rows db))
      (update_one (has_hd_id id) set_next_indices (t.rows db) (t.put_rows db))

abbrev pub has_user : PgUuid → CryptoDatum → Bool
has_user user d = eq_uuid d.user_id user

-- A link that is not null points to a row: the foreign keys of `crypto_data`.
abbrev dangles : HdTable → PgUuid → Db → Bool
dangles t id db = not (is_null id) && not (exists (has_hd_id id) (t.rows db))

-- `UPDATE crypto_data SET …_id = $2 WHERE user_id = $1`
abbrev pub set_hd_crypto_data_by_user_id : HdTable → PgUuid → PgUuid → Db → Outcome CryptoDatum
set_hd_crypto_data_by_user_id t user id db =
    unless (exists (has_user user) db.crypto_data && dangles t id db) (
      update_one (has_user user) (t.put_link id) db.crypto_data
        (λ rows. record db { crypto_data = rows }))

-- `FindCryptoDataByUserId`
abbrev pub find_crypto_data_by_user_id : PgUuid → Db → Outcome CryptoDatum
find_crypto_data_by_user_id user db = returning (find (has_user user) db.crypto_data) db

abbrev pub no_keys : PgUuid → CryptoDatum
no_keys user = record {
  user_id = user;
  xmr_id = none;
  btc_id = none;
  ltc_id = none;
  eth_id = none;
  bnb_id = none;
}

-- The primary key of `crypto_data`, which is also a foreign key.
abbrev pub refuses_crypto_data : PgUuid → Db → Bool
refuses_crypto_data user db =
    exists (has_user user) db.crypto_data || not (exists (eq_uuid user) db.users)

-- `CreateCryptoData`, called with the user alone: every link is null.
abbrev pub create_crypto_data : PgUuid → Db → Outcome CryptoDatum
create_crypto_data user db =
    unless (refuses_crypto_data user db)
      (row (no_keys user) (record db { crypto_data = db.crypto_data ++ no_keys user ∷ [] }))

-- `CreateBTCCryptoData`, `UpdateKeysBTCCryptoDataById`, `SetBTCCryptoDataByUserId` and
-- `FindKeysAndIncrementedIndicesBTCCryptoDataById`
abbrev pub create_btc_crypto_data : Uuid → String → Db → Outcome HdCryptoDatum
create_btc_crypto_data = create_hd_crypto_data btc_table

abbrev pub update_keys_btc_crypto_data_by_id : PgUuid → String → Db → Outcome HdCryptoDatum
update_keys_btc_crypto_data_by_id = update_keys_hd_crypto_data_by_id btc_table

abbrev pub set_btc_crypto_data_by_user_id : PgUuid → PgUuid → Db → Outcome CryptoDatum
set_btc_crypto_data_by_user_id = set_hd_crypto_data_by_user_id btc_table

abbrev pub find_keys_and_incremented_indices_btc_crypto_data_by_id :
    PgUuid → Db → Outcome HdCryptoDatum
find_keys_and_incremented_indices_btc_crypto_data_by_id =
    find_keys_and_incremented_indices_hd btc_table

-- `CreateLTCCryptoData`, `UpdateKeysLTCCryptoDataById`, `SetLTCCryptoDataByUserId` and
-- `FindKeysAndIncrementedIndicesLTCCryptoDataById`
abbrev pub create_ltc_crypto_data : Uuid → String → Db → Outcome HdCryptoDatum
create_ltc_crypto_data = create_hd_crypto_data ltc_table

abbrev pub update_keys_ltc_crypto_data_by_id : PgUuid → String → Db → Outcome HdCryptoDatum
update_keys_ltc_crypto_data_by_id = update_keys_hd_crypto_data_by_id ltc_table

abbrev pub set_ltc_crypto_data_by_user_id : PgUuid → PgUuid → Db → Outcome CryptoDatum
set_ltc_crypto_data_by_user_id = set_hd_crypto_data_by_user_id ltc_table

abbrev pub find_keys_and_incremented_indices_ltc_crypto_data_by_id :
    PgUuid → Db → Outcome HdCryptoDatum
find_keys_and_incremented_indices_ltc_crypto_data_by_id =
    find_keys_and_incremented_indices_hd ltc_table

-- `CreateETHCryptoData`, `UpdateKeysETHCryptoDataById`, `SetETHCryptoDataByUserId` and
-- `FindKeysAndIncrementedIndicesETHCryptoDataById`
abbrev pub create_eth_crypto_data : Uuid → String → Db → Outcome HdCryptoDatum
create_eth_crypto_data = create_hd_crypto_data eth_table

abbrev pub update_keys_eth_crypto_data_by_id : PgUuid → String → Db → Outcome HdCryptoDatum
update_keys_eth_crypto_data_by_id = update_keys_hd_crypto_data_by_id eth_table

abbrev pub set_eth_crypto_data_by_user_id : PgUuid → PgUuid → Db → Outcome CryptoDatum
set_eth_crypto_data_by_user_id = set_hd_crypto_data_by_user_id eth_table

abbrev pub find_keys_and_incremented_indices_eth_crypto_data_by_id :
    PgUuid → Db → Outcome HdCryptoDatum
find_keys_and_incremented_indices_eth_crypto_data_by_id =
    find_keys_and_incremented_indices_hd eth_table

-- `CreateBNBCryptoData`, `UpdateKeysBNBCryptoDataById`, `SetBNBCryptoDataByUserId` and
-- `FindKeysAndIncrementedIndicesBNBCryptoDataById`
abbrev pub create_bnb_crypto_data : Uuid → String → Db → Outcome HdCryptoDatum
create_bnb_crypto_data = create_hd_crypto_data bnb_table

abbrev pub update_keys_bnb_crypto_data_by_id : PgUuid → String → Db → Outcome HdCryptoDatum
update_keys_bnb_crypto_data_by_id = update_keys_hd_crypto_data_by_id bnb_table

abbrev pub set_bnb_crypto_data_by_user_id : PgUuid → PgUuid → Db → Outcome CryptoDatum
set_bnb_crypto_data_by_user_id = set_hd_crypto_data_by_user_id bnb_table

abbrev pub find_keys_and_incremented_indices_bnb_crypto_data_by_id :
    PgUuid → Db → Outcome HdCryptoDatum
find_keys_and_incremented_indices_bnb_crypto_data_by_id =
    find_keys_and_incremented_indices_hd bnb_table
