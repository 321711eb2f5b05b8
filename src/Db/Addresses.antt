-- ===== src/Db/Addresses.antt =====
-- internal/db/crypto_address.sql.go. The order of the rows is the order in which the database
-- finds them; `locked` tells the rows that other transactions hold.
use goipay.Base.{
  String, Bool, true, not, ◌&&◌, ◌||◌, Option, none, some, List, [], ◌∷◌, ◌++◌, find, exists,
  select, str_eq,
}
use goipay.Coin.{CoinType, eq_coin}
use goipay.Db.Models.{Uuid, PgUuid, eq_uuid, CryptoAddress, Db}
use goipay.Db.Session.{Outcome, row, no_row}
use goipay.Db.Statements.{update_one, unless}

abbrev put_crypto_addresses : Db → List CryptoAddress → Db
put_crypto_addresses db rows = record db { crypto_addresses = rows }

abbrev pub has_address : String → CryptoAddress → Bool
has_address a r = str_eq r.address a

abbrev pub set_is_occupied : Bool → CryptoAddress → CryptoAddress
set_is_occupied b r = record r { is_occupied = b }

pub record CreateCryptoAddressParams : Type 0 where
  pub address : String
  pub coin : CoinType
  pub is_occupied : Bool
  pub user_id : PgUuid

abbrev pub new_crypto_address : Uuid → CreateCryptoAddressParams → CryptoAddress
new_crypto_address new_id arg = record {
  id = some new_id;
  address = arg.address;
  coin = arg.coin;
  is_occupied = arg.is_occupied;
  user_id = arg.user_id;
}

abbrev pub has_row_id : Uuid → CryptoAddress → Bool
has_row_id id r = eq_uuid r.id (some id)

-- The primary key, the unique address, the foreign key; "" is no `coin_type`.
abbrev pub refuses_address : Uuid → CreateCryptoAddressParams → Db → Bool
refuses_address new_id arg db =
    exists (has_row_id new_id) db.crypto_addresses
    || exists (has_address arg.address) db.crypto_addresses
    || not (exists (eq_uuid arg.user_id) db.users)
    || eq_coin arg.coin CoinType.empty

-- `CreateCryptoAddress`
abbrev pub create_crypto_address : Uuid → CreateCryptoAddressParams → Db → Outcome CryptoAddress
create_crypto_address new_id arg db = unless (refuses_address new_id arg db) (
    row (new_crypto_address new_id arg)
      (put_crypto_addresses db (db.crypto_addresses ++ new_crypto_address new_id arg ∷ [])))

abbrev pub belongs_to : PgUuid → CoinType → CryptoAddress → Bool
belongs_to user coin r = eq_uuid r.user_id user && eq_coin r.coin coin

abbrev pub not_belongs_to : PgUuid → CoinType → CryptoAddress → Bool
not_belongs_to user coin r = not (belongs_to user coin r)

-- `DeleteAllCryptoAddressByUserIdAndCoin`
abbrev pub delete_all_crypto_address_by_user_id_and_coin :
    PgUuid → CoinType → Db → Outcome (List CryptoAddress)
delete_all_crypto_address_by_user_id_and_coin user coin db =
    row (select (belongs_to user coin) db.crypto_addresses)
      (put_crypto_addresses db (select (not_belongs_to user coin) db.crypto_addresses))

abbrev pub is_free : PgUuid → CoinType → (String → Bool) → CryptoAddress → Bool
is_free user coin locked r = belongs_to user coin r && not r.is_occupied && not (locked r.address)

-- The outer `UPDATE`, on the address that the inner `SELECT` found.
abbrev pub occupy : Option CryptoAddress → Db → Outcome CryptoAddress
occupy none db = no_row
occupy (some r) db =
    update_one (has_address r.address) (set_is_occupied true) db.crypto_addresses
      (put_crypto_addresses db)

-- `FindNonOccupiedCryptoAddressAndLockByUserIdAndCoin`
abbrev pub find_non_occupied_crypto_address_and_lock_by_user_id_and_coin :
    PgUuid → CoinType → (String → Bool) → Db → Outcome CryptoAddress
find_non_occupied_crypto_address_and_lock_by_user_id_and_coin user coin locked db =
    occupy (find (is_free user coin locked) db.crypto_addresses) db

-- `UpdateIsOccupiedByCryptoAddress`
abbrev pub update_is_occupied_by_crypto_address : String → Bool → Db → Outcome CryptoAddress
update_is_occupied_by_crypto_address address occupied db =
    update_one (has_address address) (set_is_occupied occupied) db.crypto_addresses
      (put_crypto_addresses db)
