-- ===== src/Handler/Keys.antt =====
-- What a new master public key leaves of the old one: `handleHDKeysCryptoDataUpdate`
-- (internal/handler/v1/user.go).
use goipay.Base.{
  ◌≡◌, refl, ap, ◌∙◌, String, false, some, List, [], ◌∷◌, arith, find, update, exists, select, ◌&&◌,
  Bool-cases, inl, inr,
}
use goipay.Error.{ok, Message}
use goipay.Coin.{CoinType}
use goipay.Db.Models.{Uuid, PgUuid, CryptoAddress, CryptoDatum, HdCryptoDatum, Db}
use goipay.Db.Session.{live, row, query, of_result, or_else_fail, ◌>>◌}
use goipay.Db.Statements.{map_row, unless, returning}
use goipay.Db.InvoiceLaws.{find-update_self}
use goipay.Db.Addresses.{belongs_to, not_belongs_to, delete_all_crypto_address_by_user_id_and_coin}
use goipay.Db.CryptoData.{
  HdTable, has_hd_id, other_has_key, set_key, update_keys_hd_crypto_data_by_id,
}
use goipay.Handler.Users.{
  UserEnv, hd_table, update_hd_keys, put_hd_keys, sql_failure, invalid_argument,
  handle_hd_keys_crypto_data_update,
}

-- A table that is written holds what was written, and does not share its rows with the addresses.
record IsApart (t : HdTable) : Type 0 where
  pub written : (db : Db) (rs : List HdCryptoDatum) → t.rows (t.put_rows db rs) ≡ rs
  pub addresses :
      (db : Db) (rs : List HdCryptoDatum)
      → (t.put_rows db rs).crypto_addresses ≡ db.crypto_addresses
  pub rows :
      (db : Db) (addrs : List CryptoAddress)
      → t.rows (record db { crypto_addresses = addrs }) ≡ t.rows db

hd_table-IsApart : (coin : CoinType) {t : HdTable} → hd_table coin ≡ some t → IsApart t
hd_table-IsApart coin e = record {
  written = λ db rs. ground arith;
  addresses = λ db rs. ground arith;
  rows = λ db addrs. ground arith;
}

none_left :
    (user : PgUuid) (coin : CoinType) (addrs : List CryptoAddress)
    → exists (belongs_to user coin) (select (not_belongs_to user coin) addrs) ≡ false
none_left user coin [] = refl
none_left user coin (a ∷ addrs) = elim (Bool-cases (belongs_to user coin a)) [
  | inl mine ↦ rw mine (none_left user coin addrs)
  | inr other ↦ rw (other, other) (none_left user coin addrs)
]

module _ (env : UserEnv) (key : String) (coin : CoinType) (cd : CryptoDatum) (db : Db) where
  -- The tables without the user's addresses of the coin.
  abbrev cleared : Db
  cleared = record db {
    crypto_addresses = select (not_belongs_to cd.user_id coin) db.crypto_addresses;
  }

  abbrev replaced : HdTable → PgUuid → Db
  replaced t id = t.put_rows cleared (update (has_hd_id id) (set_key key) (t.rows db))

  module _ {t : HdTable} (apart : IsApart t) (id : Uuid) {r : HdCryptoDatum}
      (found : find (has_hd_id (some id)) (t.rows db) ≡ some r)
      (unused : exists (other_has_key (some id) key) (t.rows db) ≡ false) where
    update_keys-found :
        update_keys_hd_crypto_data_by_id t (some id) key cleared
        ≡ row (set_key key r) (replaced t (some id))
    update_keys-found =
        ap
          (λ rs.
            unless (exists (has_hd_id (some id)) rs && exists (other_has_key (some id) key) rs) (
              returning (map_row (set_key key) (find (has_hd_id (some id)) rs))
                (t.put_rows cleared (update (has_hd_id (some id)) (set_key key) rs))))
          (apart.rows db cleared.crypto_addresses)
        ∙ ground arith

    -- The statements after the checks, for a key that is linked.
    put_hd_keys-found :
        put_hd_keys env t coin key cd.user_id (some id) (live cleared)
        ≡ (ok tt, live (replaced t (some id)))
    put_hd_keys-found = ap (λ o. sql_failure (query (λ _. o)) (live cleared)) update_keys-found

    update_hd_keys-found :
        {k : String}
        → env.hd.new_key_from_string key ≡ ok k
        → t.link cd ≡ some id
        → update_hd_keys env key coin cd (some t) (live db) ≡ (ok tt, live (replaced t (some id)))
    update_hd_keys-found valid linked =
        ap
          (λ o.
            (or_else_fail (invalid_argument Message.invalid_master_key) (of_result o)
                >> (sql_failure
                      (query (delete_all_crypto_address_by_user_id_and_coin cd.user_id coin))
                    >> put_hd_keys env t coin key cd.user_id (t.link cd)))
              (live db))
          valid
        ∙ ap (λ l. put_hd_keys env t coin key cd.user_id l (live cleared)) linked
        ∙ put_hd_keys-found

-- A valid new key that no other row has, for a user whose keys of the coin are stored: afterwards
-- the row holds the new key with both indices at zero, no address of the user for the coin is left,
-- so that none of the old key is given out again, and the addresses of others stay.
pub handle_hd_keys_crypto_data_update_lem :
    (env : UserEnv) (key : String) (coin : CoinType) (cd : CryptoDatum) (db : Db) {t : HdTable}
    {id : Uuid} {r : HdCryptoDatum} {k : String}
    → hd_table coin ≡ some t
    → env.hd.new_key_from_string key ≡ ok k
    → t.link cd ≡ some id
    → find (has_hd_id (some id)) (t.rows db) ≡ some r
    → exists (other_has_key (some id) key) (t.rows db) ≡ false
    → let (result, s) = handle_hd_keys_crypto_data_update env key coin cd (live db) in
      (result ≡ ok tt)
      × (find (has_hd_id (some id)) (t.rows s.db) ≡ some (set_key key r))
      × (exists (belongs_to cd.user_id coin) s.db.crypto_addresses ≡ false)
      × (s.db.crypto_addresses ≡ select (not_belongs_to cd.user_id coin) db.crypto_addresses)
unfolding handle_hd_keys_crypto_data_update
handle_hd_keys_crypto_data_update_lem env key coin cd db {t} {id} e valid linked found unused =
    let apart = hd_table-IsApart coin e in
    let run =
      ap (λ o. update_hd_keys env key coin cd o (live db)) e
      ∙ update_hd_keys-found env key coin cd db apart id found unused valid linked in
    let addresses = ap (λ x. x.1.db.crypto_addresses) run ∙ apart.addresses _ _ in
    (
      ap (λ x. x.0) run,
      ap (λ x. find (has_hd_id (some id)) (t.rows x.1.db)) run
          ∙ ap (find (has_hd_id (some id))) (apart.written _ _)
          ∙ find-update_self (has_hd_id (some id)) (set_key key) (t.rows db) (λ a. refl)
          ∙ ap (map_row (set_key key)) found,
      ap (exists (belongs_to cd.user_id coin)) addresses
          ∙ none_left cd.user_id coin db.crypto_addresses,
      addresses,
    )
