-- ===== src/Tests/Coins.antt =====
-- Coins, tokens, routes and the map of pending invoices.
use goipay.Base.{◌≡◌, refl, true, false, none, some, [], ◌∷◌, ◌↔◌}
use goipay.Error.{ok}
use goipay.Coin.{CoinType, PbCoinType}
use goipay.Coin.Mapping.{pb_coin_to_db_coin, db_coin_to_pb_coin}
use goipay.Coin.RoundTrip.{pb_coin-db_coin_inverse}
use goipay.Processor.Manager.{Kind, supports_coin, route}
use goipay.Processor.Routing.{Holds, route_lem}

pb_coin-db_coin_inverse_example :
    (pb_coin_to_db_coin PbCoinType.usdt_erc20 ≡ ok CoinType.usdt_erc20)
    ↔ (db_coin_to_pb_coin CoinType.usdt_erc20 ≡ ok PbCoinType.usdt_erc20)
pb_coin-db_coin_inverse_example = pb_coin-db_coin_inverse PbCoinType.usdt_erc20 CoinType.usdt_erc20

route_lem_example :
    ((k : Kind)
      → supports_coin k CoinType.usdt_erc20 ≡ true
      → Holds k (Kind.bnb ∷ Kind.eth ∷ [])
      → route CoinType.usdt_erc20 (Kind.bnb ∷ Kind.eth ∷ []) ≡ some k)
    × (((k : Kind)
          → Holds k (Kind.bnb ∷ Kind.eth ∷ [])
          → supports_coin k CoinType.usdt_erc20 ≡ false)
        → route CoinType.usdt_erc20 (Kind.bnb ∷ Kind.eth ∷ []) ≡ none)
route_lem_example = route_lem CoinType.usdt_erc20 (Kind.bnb ∷ Kind.eth ∷ [])

-- TON is taken by no processor.
ton_refused : route CoinType.ton (Kind.xmr ∷ Kind.btc ∷ Kind.ltc ∷ Kind.eth ∷ Kind.bnb ∷ []) ≡ none
unfolding route supports_coin
ton_refused = refl
