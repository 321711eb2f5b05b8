-- ===== src/Db/Models.antt =====
-- internal/db/models.go: the rows of the tables. A nullable column is an `Option`; a UUID is the
-- number that its sixteen bytes spell, and a `pgtype.UUID` that is not valid is `none`. A point in
-- time is a number of nanoseconds.
use goipay.Base.{ℕ, String, Bool, false, Option, none, some, List, ◌==◌}
use goipay.Base.Float.{Float64}
use goipay.Coin.{CoinType, InvoiceStatusType}

abbrev pub Uuid : Type 0
Uuid = ℕ

abbrev pub PgUuid : Type 0
PgUuid = Option Uuid

abbrev pub Time : Type 0
Time = ℕ

-- SQL's `a = b` in a `WHERE`: a comparison with NULL selects no row.
abbrev pub eq_uuid : PgUuid → PgUuid → Bool
eq_uuid none b = false
eq_uuid (some a) none = false
eq_uuid (some a) (some b) = a == b

pub record Invoice : Type 0 where
  pub id : PgUuid
  pub crypto_address : String
  pub coin : CoinType
  pub required_amount : Float64
  pub actual_amount : Option Float64
  pub confirmations_required : ℕ  -- int16
  pub created_at : Option Time
  pub confirmed_at : Option Time
  pub status : InvoiceStatusType
  pub expires_at : Option Time
  pub tx_id : Option String
  pub user_id : PgUuid

pub record CryptoAddress : Type 0 where
  pub id : PgUuid
  pub address : String
  pub coin : CoinType
  pub is_occupied : Bool
  pub user_id : PgUuid

pub record CryptoCache : Type 0 where
  pub coin : CoinType
  pub last_synced_block_height : Option ℕ
  pub synced_timestamp : Option Time

pub record CryptoDatum : Type 0 where
  pub user_id : PgUuid
  pub xmr_id : PgUuid
  pub btc_id : PgUuid
  pub ltc_id : PgUuid
  pub eth_id : PgUuid
  pub bnb_id : PgUuid

-- `BtcCryptoDatum`, `LtcCryptoDatum`, `EthCryptoDatum` and `BnbCryptoDatum` have the same fields.
pub record HdCryptoDatum : Type 0 where
  pub id : PgUuid
  pub master_pub_key : String
  pub last_major_index : ℕ  -- int32
  pub last_minor_index : ℕ  -- int32

pub record XmrCryptoDatum : Type 0 where
  pub id : PgUuid
  pub priv_view_key : String
  pub pub_spend_key : String
  pub last_major_index : ℕ  -- int32
  pub last_minor_index : ℕ  -- int32

-- The tables.
pub record Db : Type 0 where
  pub users : List PgUuid
  pub crypto_addresses : List CryptoAddress
  pub invoices : List Invoice
  pub crypto_cache : List CryptoCache
  pub crypto_data : List CryptoDatum
  pub xmr_crypto_data : List XmrCryptoDatum
  pub btc_crypto_data : List HdCryptoDatum
  pub ltc_crypto_data : List HdCryptoDatum
  pub eth_crypto_data : List HdCryptoDatum
  pub bnb_crypto_data : List HdCryptoDatum
