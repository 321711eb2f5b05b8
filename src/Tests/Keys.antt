-- ===== src/Tests/Keys.antt =====
-- The indices of a user's keys, at the end of a minor index.
use goipay.Base.{none, select, exists, false, suc, ◌≡◌, ◌≢◌, refl, some, find, update, arith}
use goipay.Db.Models.{PgUuid, CryptoDatum, HdCryptoDatum}
use goipay.Error.{ok}
use goipay.Coin.{CoinType}
use goipay.Db.Session.{row, live}
use goipay.Db.Addresses.{belongs_to, not_belongs_to}
use goipay.Handler.Users.{UserEnv, handle_hd_keys_crypto_data_update}
use goipay.Handler.Keys.{handle_hd_keys_crypto_data_update_lem}
use goipay.Db.CryptoData.{
  btc_table, has_hd_id, set_key, set_next_indices, find_keys_and_incremented_indices_hd,
}
use goipay.Db.Indices.{position, InRange, find_keys_and_incremented_indices_hd_lem}
use goipay.Tests.Data.{keys_of_seven, tables, xmr_lib}

keys_of_seven-InRange : InRange keys_of_seven
keys_of_seven-InRange = record { major = omega arith; minor = omega arith }

find_keys_and_incremented_indices_hd_lem_example :
    (r' : HdCryptoDatum) × (find_keys_and_incremented_indices_hd btc_table (some 70) tables
      ≡ row r' (record tables {
        btc_crypto_data = update (has_hd_id (some 70)) set_next_indices tables.btc_crypto_data;
      }))
    × (find
          (has_hd_id (some 70))
          (update (has_hd_id (some 70)) set_next_indices tables.btc_crypto_data)
        ≡ some r')
    × (position r' ≡ suc (position keys_of_seven))
    × (r'.master_pub_key ≡ keys_of_seven.master_pub_key)
    × InRange r'
    × ((j : PgUuid)
        → some 70 ≢ j
        → find (has_hd_id j) (update (has_hd_id (some 70)) set_next_indices tables.btc_crypto_data)
          ≡ find (has_hd_id j) tables.btc_crypto_data)
find_keys_and_incremented_indices_hd_lem_example =
    find_keys_and_incremented_indices_hd_lem btc_table (some 70) tables keys_of_seven refl refl
      keys_of_seven-InRange (omega arith)

-- Another key for the same user.
abbrev keys_row : CryptoDatum
keys_row = record {
  user_id = some 7;
  xmr_id = none;
  btc_id = some 70;
  ltc_id = none;
  eth_id = none;
  bnb_id = none;
}

abbrev env : UserEnv
env = record {
  parse_uuid = λ s. some 7;
  hd = record {
    new_key_from_string = ok;
    derive = λ k n. ok k;
    ec_pub_key = ok;
    witness_address = λ n k. ok k;
    pubkey_to_address = λ k. k;
  };
  xmr = xmr_lib;
  new_user_id = 9;
  new_xmr_id = 71;
  new_hd_id = λ c. 72;
}

handle_hd_keys_crypto_data_update_lem_example :
    let (result, s) =
      handle_hd_keys_crypto_data_update env "zpub7" CoinType.btc keys_row (live tables) in
    (result ≡ ok tt)
    × (find (has_hd_id (some 70)) s.db.btc_crypto_data ≡ some (set_key "zpub7" keys_of_seven))
    × (exists (belongs_to (some 7) CoinType.btc) s.db.crypto_addresses ≡ false)
    × (s.db.crypto_addresses
        ≡ select (not_belongs_to (some 7) CoinType.btc) tables.crypto_addresses)
handle_hd_keys_crypto_data_update_lem_example =
    handle_hd_keys_crypto_data_update_lem env "zpub7" CoinType.btc keys_row tables refl refl refl
      refl refl
