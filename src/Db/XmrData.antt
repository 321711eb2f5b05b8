-- ===== src/Db/XmrData.antt =====
-- internal/db/crypto_data.sql.go: the Monero view and spend keys.
use goipay.Base.{
  String, Bool, not, ◌&&◌, ◌||◌, some, List, [], ◌∷◌, ◌++◌, find, exists, leb, str_eq,
}
use goipay.Db.Models.{Uuid, PgUuid, eq_uuid, CryptoDatum, XmrCryptoDatum, Db}
use goipay.Db.Session.{Outcome, row}
use goipay.Db.Statements.{update_one, returning, unless, is_null}
use goipay.Db.CryptoData.{max_int32, next_minor, next_major, has_user}

pub record XmrKeys : Type 0 where
  pub priv_view_key : String
  pub pub_spend_key : String

abbrev pub has_xmr_id : PgUuid → XmrCryptoDatum → Bool
has_xmr_id id r = eq_uuid r.id id

abbrev put_xmr : Db → List XmrCryptoDatum → Db
put_xmr db rows = record db { xmr_crypto_data = rows }

-- Both keys are unique.
abbrev has_a_key : XmrKeys → XmrCryptoDatum → Bool
has_a_key k r = str_eq r.priv_view_key k.priv_view_key || str_eq r.pub_spend_key k.pub_spend_key

abbrev pub new_xmr : Uuid → XmrKeys → XmrCryptoDatum
new_xmr new_id k = record {
  id = some new_id;
  priv_view_key = k.priv_view_key;
  pub_spend_key = k.pub_spend_key;
  last_major_index = 0;
  last_minor_index = 0;
}

-- `CreateXMRCryptoData`
abbrev pub create_xmr_crypto_data : Uuid → XmrKeys → Db → Outcome XmrCryptoDatum
create_xmr_crypto_data new_id k db =
    unless
      (exists (has_xmr_id (some new_id)) db.xmr_crypto_data
        || exists (has_a_key k) db.xmr_crypto_data)
      (row (new_xmr new_id k) (put_xmr db (db.xmr_crypto_data ++ new_xmr new_id k ∷ [])))

abbrev other_has_a_key : PgUuid → XmrKeys → XmrCryptoDatum → Bool
other_has_a_key id k r = not (has_xmr_id id r) && has_a_key k r

abbrev pub set_keys : XmrKeys → XmrCryptoDatum → XmrCryptoDatum
set_keys k r = record r {
  priv_view_key = k.priv_view_key;
  pub_spend_key = k.pub_spend_key;
  last_major_index = 0;
  last_minor_index = 0;
}

-- `UpdateKeysXMRCryptoDataById`
abbrev pub update_keys_xmr_crypto_data_by_id : PgUuid → XmrKeys → Db → Outcome XmrCryptoDatum
update_keys_xmr_crypto_data_by_id id k db =
    unless
      (exists (has_xmr_id id) db.xmr_crypto_data
        && exists (other_has_a_key id k) db.xmr_crypto_data)
      (update_one (has_xmr_id id) (set_keys k) db.xmr_crypto_data (put_xmr db))

abbrev dangles : PgUuid → Db → Bool
dangles id db = not (is_null id) && not (exists (has_xmr_id id) db.xmr_crypto_data)

abbrev set_xmr_id : PgUuid → CryptoDatum → CryptoDatum
set_xmr_id id d = record d { xmr_id = id }

-- `SetXMRCryptoDataByUserId`
abbrev pub set_xmr_crypto_data_by_user_id : PgUuid → PgUuid → Db → Outcome CryptoDatum
set_xmr_crypto_data_by_user_id user id db =
    unless (exists (has_user user) db.crypto_data && dangles id db) (
      update_one (has_user user) (set_xmr_id id) db.crypto_data
        (λ rows. record db { crypto_data = rows }))

-- `FindKeysXMRCryptoDataById`
abbrev pub find_keys_xmr_crypto_data_by_id : PgUuid → Db → Outcome XmrCryptoDatum
find_keys_xmr_crypto_data_by_id id db = returning (find (has_xmr_id id) db.xmr_crypto_data) db

abbrev pub set_next_xmr_indices : XmrCryptoDatum → XmrCryptoDatum
set_next_xmr_indices r = record r {
  last_major_index = next_major r.last_major_index r.last_minor_index;
  last_minor_index = next_minor r.last_minor_index;
}

abbrev pub xmr_indices_overflow : PgUuid → XmrCryptoDatum → Bool
xmr_indices_overflow id r =
    has_xmr_id id r && leb max_int32 r.last_minor_index && leb max_int32 r.last_major_index

-- `FindKeysAndIncrementedIndicesXMRCryptoDataById`
abbrev pub find_keys_and_incremented_indices_xmr_crypto_data_by_id :
    PgUuid → Db → Outcome XmrCryptoDatum
find_keys_and_incremented_indices_xmr_crypto_data_by_id id db =
    unless (exists (xmr_indices_overflow id) db.xmr_crypto_data)
      (update_one (has_xmr_id id) set_next_xmr_indices db.xmr_crypto_data (put_xmr db))
