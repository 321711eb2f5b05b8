-- ===== src/Coin.antt =====
-- The coin and status enumerations: internal/db/models.go (the database's `coin_type` and
-- `invoice_status_type`) and internal/pb/v1 (the protocol's, open enumerations over int32).
pub mod Mapping
pub mod RoundTrip
use goipay.Base.{ℕ, ◌≡◌, Bool, true, false, ◌==◌}

-- `db.CoinType`; `empty` is the zero value "", which names no coin.
pub data CoinType : Type 0 where
  xmr btc ltc eth ton usdt_erc20 usdc_erc20 dai_erc20 wbtc_erc20 uni_erc20 link_erc20 : CoinType
  aave_erc20 crv_erc20 matic_erc20 shib_erc20 bnb_erc20 atom_erc20 arb_erc20 bnb : CoinType
  bscusd_bep20 usdc_bep20 dai_bep20 busd_bep20 wbtc_bep20 btcb_bep20 uni_bep20 link_bep20 : CoinType
  aave_bep20 matic_bep20 shib_bep20 atom_bep20 arb_bep20 eth_bep20 xrp_bep20 ada_bep20 : CoinType
  trx_bep20 doge_bep20 ltc_bep20 bch_bep20 twt_bep20 avax_bep20 cake_bep20 empty : CoinType

-- `pb_v1.CoinType`; `unrecognized n` is a number with no name.
pub data PbCoinType : Type 0 where
  xmr btc ltc eth ton usdt_erc20 usdc_erc20 dai_erc20 wbtc_erc20 uni_erc20 link_erc20 : PbCoinType
  aave_erc20 crv_erc20 matic_erc20 shib_erc20 bnb_erc20 atom_erc20 arb_erc20 bnb : PbCoinType
  bscusd_bep20 usdc_bep20 dai_bep20 busd_bep20 wbtc_bep20 btcb_bep20 uni_bep20 link_bep20 :
      PbCoinType
  aave_bep20 matic_bep20 shib_bep20 atom_bep20 arb_bep20 eth_bep20 xrp_bep20 ada_bep20 : PbCoinType
  trx_bep20 doge_bep20 ltc_bep20 bch_bep20 twt_bep20 avax_bep20 cake_bep20 : PbCoinType
  unrecognized : ℕ → PbCoinType

pub data InvoiceStatusType : Type 0 where
  pending pending_mempool expired confirmed : InvoiceStatusType

pub data PbInvoiceStatusType : Type 0 where
  pending pending_mempool expired confirmed : PbInvoiceStatusType
  unrecognized : ℕ → PbInvoiceStatusType

-- The place of a coin in the database's enumeration; equal places are equal coins.
abbrev pub coin_index : CoinType → ℕ
coin_index CoinType.xmr = 0
coin_index CoinType.btc = 1
coin_index CoinType.ltc = 2
coin_index CoinType.eth = 3
coin_index CoinType.ton = 4
coin_index CoinType.usdt_erc20 = 5
coin_index CoinType.usdc_erc20 = 6
coin_index CoinType.dai_erc20 = 7
coin_index CoinType.wbtc_erc20 = 8
coin_index CoinType.uni_erc20 = 9
coin_index CoinType.link_erc20 = 10
coin_index CoinType.aave_erc20 = 11
coin_index CoinType.crv_erc20 = 12
coin_index CoinType.matic_erc20 = 13
coin_index CoinType.shib_erc20 = 14
coin_index CoinType.bnb_erc20 = 15
coin_index CoinType.atom_erc20 = 16
coin_index CoinType.arb_erc20 = 17
coin_index CoinType.bnb = 18
coin_index CoinType.bscusd_bep20 = 19
coin_index CoinType.usdc_bep20 = 20
coin_index CoinType.dai_bep20 = 21
coin_index CoinType.busd_bep20 = 22
coin_index CoinType.wbtc_bep20 = 23
coin_index CoinType.btcb_bep20 = 24
coin_index CoinType.uni_bep20 = 25
coin_index CoinType.link_bep20 = 26
coin_index CoinType.aave_bep20 = 27
coin_index CoinType.matic_bep20 = 28
coin_index CoinType.shib_bep20 = 29
coin_index CoinType.atom_bep20 = 30
coin_index CoinType.arb_bep20 = 31
coin_index CoinType.eth_bep20 = 32
coin_index CoinType.xrp_bep20 = 33
coin_index CoinType.ada_bep20 = 34
coin_index CoinType.trx_bep20 = 35
coin_index CoinType.doge_bep20 = 36
coin_index CoinType.ltc_bep20 = 37
coin_index CoinType.bch_bep20 = 38
coin_index CoinType.twt_bep20 = 39
coin_index CoinType.avax_bep20 = 40
coin_index CoinType.cake_bep20 = 41
coin_index CoinType.empty = 42

-- `a == b` on coins.
abbrev pub eq_coin : CoinType → CoinType → Bool
eq_coin a b = coin_index a == coin_index b

abbrev pub eq_status : InvoiceStatusType → InvoiceStatusType → Bool
eq_status InvoiceStatusType.pending InvoiceStatusType.pending = true
eq_status InvoiceStatusType.pending_mempool InvoiceStatusType.pending_mempool = true
eq_status InvoiceStatusType.expired InvoiceStatusType.expired = true
eq_status InvoiceStatusType.confirmed InvoiceStatusType.confirmed = true
eq_status _ _ = false
