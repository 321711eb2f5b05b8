-- ===== src/Coin/RoundTrip.antt =====
-- How the conversions of internal/util/mapping.go fit together.
use goipay.Base.{◌≡◌, false, ◌↔◌, arith}
use goipay.Error.{ok, is_ok}
use goipay.Coin.{CoinType, PbCoinType, InvoiceStatusType}
use goipay.Coin.Mapping.{pb_coin_to_db_coin, db_coin_to_pb_coin, db_status_to_pb_status}

-- A coin of the database survives the way to the protocol and back.
db-pb-db :
    (c : CoinType) {p : PbCoinType} → db_coin_to_pb_coin c ≡ ok p → pb_coin_to_db_coin p ≡ ok c
unfolding pb_coin_to_db_coin db_coin_to_pb_coin
db-pb-db c h = ground arith

-- A coin of the protocol survives the way to the database and back.
pb-db-pb :
    (p : PbCoinType) {c : CoinType} → pb_coin_to_db_coin p ≡ ok c → db_coin_to_pb_coin c ≡ ok p
unfolding pb_coin_to_db_coin db_coin_to_pb_coin
pb-db-pb p h = ground arith

-- The two conversions of coins are inverse to one another wherever either of them succeeds.
pub pb_coin-db_coin_inverse :
    (p : PbCoinType) (c : CoinType) → (pb_coin_to_db_coin p ≡ ok c) ↔ (db_coin_to_pb_coin c ≡ ok p)
pb_coin-db_coin_inverse p c = (λ h. pb-db-pb p h, λ h. db-pb-db c h)

-- The conversion to the protocol fails for the empty coin and for no other.
pub db_coin_to_pb_coin_fails :
    (c : CoinType) → (is_ok (db_coin_to_pb_coin c) ≡ false) ↔ (c ≡ CoinType.empty)
unfolding db_coin_to_pb_coin
db_coin_to_pb_coin_fails c = ground arith

-- Distinct invoice statuses of the database stay distinct in the protocol.
pub db_status_to_pb_status_injective :
    (s t : InvoiceStatusType) → db_status_to_pb_status s ≡ db_status_to_pb_status t → s ≡ t
unfolding db_status_to_pb_status
db_status_to_pb_status_injective s t h = ground arith
