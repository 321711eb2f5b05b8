-- ===== src/Db/Users.antt =====
-- internal/db/user.sql.go and internal/db/crypto_cache.sql.go.
use goipay.Base.{ℕ, Bool, true, Option, none, some, [], ◌∷◌, ◌++◌, find, exists}
use goipay.Coin.{CoinType, eq_coin}
use goipay.Db.Models.{Uuid, PgUuid, Time, eq_uuid, CryptoCache, Db}
use goipay.Db.Session.{Outcome, row}
use goipay.Db.Statements.{update_one, returning, unless}

-- The primary key of `users`: a UUID that is not null and not taken.
abbrev pub refuses_user : PgUuid → Db → Bool
refuses_user none db = true
refuses_user (some id) db = exists (eq_uuid (some id)) db.users

-- `CreateUserWithId`
abbrev pub create_user_with_id : PgUuid → Db → Outcome PgUuid
create_user_with_id id db =
    unless (refuses_user id db) (row id (record db { users = db.users ++ id ∷ [] }))

-- `CreateUser`, where `gen_random_uuid()` gives `new_id`
abbrev pub create_user : Uuid → Db → Outcome PgUuid
create_user new_id db = create_user_with_id (some new_id) db

-- `UserExistsById`
abbrev pub user_exists_by_id : PgUuid → Db → Outcome Bool
user_exists_by_id id db = row (exists (eq_uuid id) db.users) db

abbrev pub has_coin : CoinType → CryptoCache → Bool
has_coin coin r = eq_coin r.coin coin

-- `FindCryptoCacheByCoin`
abbrev pub find_crypto_cache_by_coin : CoinType → Db → Outcome CryptoCache
find_crypto_cache_by_coin coin db = returning (find (has_coin coin) db.crypto_cache) db

abbrev pub set_synced : Time → Option ℕ → CryptoCache → CryptoCache
set_synced now height r = record r {
  last_synced_block_height = height;
  synced_timestamp = some now;
}

-- `UpdateCryptoCacheByCoin`
abbrev pub update_crypto_cache_by_coin : Time → CoinType → Option ℕ → Db → Outcome CryptoCache
update_crypto_cache_by_coin now coin height db =
    update_one (has_coin coin) (set_synced now height) db.crypto_cache
      (λ rows. record db { crypto_cache = rows })
