-- ===== src/Coin/Mapping.antt =====
-- internal/util/mapping.go: the conversions between the database's and the protocol's enumerations.
use goipay.Base.{ℕ}
use goipay.Error.{Error, Result, ok, err}
use goipay.Coin.{CoinType, PbCoinType, InvoiceStatusType, PbInvoiceStatusType}

-- `math.MaxInt32`, which the failing conversions return beside their error.
abbrev pub max_int32 : ℕ
max_int32 = 2147483647

-- `PbCoinToDbCoin`
unfoldable pub pb_coin_to_db_coin : PbCoinType → Result CoinType
pb_coin_to_db_coin PbCoinType.xmr = ok CoinType.xmr
pb_coin_to_db_coin PbCoinType.btc = ok CoinType.btc
pb_coin_to_db_coin PbCoinType.eth = ok CoinType.eth
pb_coin_to_db_coin PbCoinType.ltc = ok CoinType.ltc
pb_coin_to_db_coin PbCoinType.ton = ok CoinType.ton
pb_coin_to_db_coin PbCoinType.usdt_erc20 = ok CoinType.usdt_erc20
pb_coin_to_db_coin PbCoinType.usdc_erc20 = ok CoinType.usdc_erc20
pb_coin_to_db_coin PbCoinType.dai_erc20 = ok CoinType.dai_erc20
pb_coin_to_db_coin PbCoinType.wbtc_erc20 = ok CoinType.wbtc_erc20
pb_coin_to_db_coin PbCoinType.uni_erc20 = ok CoinType.uni_erc20
pb_coin_to_db_coin PbCoinType.link_erc20 = ok CoinType.link_erc20
pb_coin_to_db_coin PbCoinType.crv_erc20 = ok CoinType.crv_erc20
pb_coin_to_db_coin PbCoinType.matic_erc20 = ok CoinType.matic_erc20
pb_coin_to_db_coin PbCoinType.shib_erc20 = ok CoinType.shib_erc20
pb_coin_to_db_coin PbCoinType.bnb_erc20 = ok CoinType.bnb_erc20
pb_coin_to_db_coin PbCoinType.atom_erc20 = ok CoinType.atom_erc20
pb_coin_to_db_coin PbCoinType.arb_erc20 = ok CoinType.arb_erc20
pb_coin_to_db_coin PbCoinType.aave_erc20 = ok CoinType.aave_erc20
pb_coin_to_db_coin PbCoinType.bnb = ok CoinType.bnb
pb_coin_to_db_coin PbCoinType.bscusd_bep20 = ok CoinType.bscusd_bep20
pb_coin_to_db_coin PbCoinType.usdc_bep20 = ok CoinType.usdc_bep20
pb_coin_to_db_coin PbCoinType.dai_bep20 = ok CoinType.dai_bep20
pb_coin_to_db_coin PbCoinType.busd_bep20 = ok CoinType.busd_bep20
pb_coin_to_db_coin PbCoinType.wbtc_bep20 = ok CoinType.wbtc_bep20
pb_coin_to_db_coin PbCoinType.btcb_bep20 = ok CoinType.btcb_bep20
pb_coin_to_db_coin PbCoinType.uni_bep20 = ok CoinType.uni_bep20
pb_coin_to_db_coin PbCoinType.link_bep20 = ok CoinType.link_bep20
pb_coin_to_db_coin PbCoinType.aave_bep20 = ok CoinType.aave_bep20
pb_coin_to_db_coin PbCoinType.matic_bep20 = ok CoinType.matic_bep20
pb_coin_to_db_coin PbCoinType.shib_bep20 = ok CoinType.shib_bep20
pb_coin_to_db_coin PbCoinType.atom_bep20 = ok CoinType.atom_bep20
pb_coin_to_db_coin PbCoinType.arb_bep20 = ok CoinType.arb_bep20
pb_coin_to_db_coin PbCoinType.eth_bep20 = ok CoinType.eth_bep20
pb_coin_to_db_coin PbCoinType.xrp_bep20 = ok CoinType.xrp_bep20
pb_coin_to_db_coin PbCoinType.ada_bep20 = ok CoinType.ada_bep20
pb_coin_to_db_coin PbCoinType.trx_bep20 = ok CoinType.trx_bep20
pb_coin_to_db_coin PbCoinType.doge_bep20 = ok CoinType.doge_bep20
pb_coin_to_db_coin PbCoinType.ltc_bep20 = ok CoinType.ltc_bep20
pb_coin_to_db_coin PbCoinType.bch_bep20 = ok CoinType.bch_bep20
pb_coin_to_db_coin PbCoinType.twt_bep20 = ok CoinType.twt_bep20
pb_coin_to_db_coin PbCoinType.avax_bep20 = ok CoinType.avax_bep20
pb_coin_to_db_coin PbCoinType.cake_bep20 = ok CoinType.cake_bep20
pb_coin_to_db_coin (PbCoinType.unrecognized _) = err Error.invalid_pb_coin

-- `DbCoinToPbCoin`
unfoldable pub db_coin_to_pb_coin : CoinType → Result PbCoinType
db_coin_to_pb_coin CoinType.xmr = ok PbCoinType.xmr
db_coin_to_pb_coin CoinType.btc = ok PbCoinType.btc
db_coin_to_pb_coin CoinType.eth = ok PbCoinType.eth
db_coin_to_pb_coin CoinType.ltc = ok PbCoinType.ltc
db_coin_to_pb_coin CoinType.ton = ok PbCoinType.ton
db_coin_to_pb_coin CoinType.usdt_erc20 = ok PbCoinType.usdt_erc20
db_coin_to_pb_coin CoinType.usdc_erc20 = ok PbCoinType.usdc_erc20
db_coin_to_pb_coin CoinType.dai_erc20 = ok PbCoinType.dai_erc20
db_coin_to_pb_coin CoinType.wbtc_erc20 = ok PbCoinType.wbtc_erc20
db_coin_to_pb_coin CoinType.uni_erc20 = ok PbCoinType.uni_erc20
db_coin_to_pb_coin CoinType.link_erc20 = ok PbCoinType.link_erc20
db_coin_to_pb_coin CoinType.aave_erc20 = ok PbCoinType.aave_erc20
db_coin_to_pb_coin CoinType.crv_erc20 = ok PbCoinType.crv_erc20
db_coin_to_pb_coin CoinType.matic_erc20 = ok PbCoinType.matic_erc20
db_coin_to_pb_coin CoinType.shib_erc20 = ok PbCoinType.shib_erc20
db_coin_to_pb_coin CoinType.bnb_erc20 = ok PbCoinType.bnb_erc20
db_coin_to_pb_coin CoinType.atom_erc20 = ok PbCoinType.atom_erc20
db_coin_to_pb_coin CoinType.arb_erc20 = ok PbCoinType.arb_erc20
db_coin_to_pb_coin CoinType.bnb = ok PbCoinType.bnb
db_coin_to_pb_coin CoinType.bscusd_bep20 = ok PbCoinType.bscusd_bep20
db_coin_to_pb_coin CoinType.usdc_bep20 = ok PbCoinType.usdc_bep20
db_coin_to_pb_coin CoinType.dai_bep20 = ok PbCoinType.dai_bep20
db_coin_to_pb_coin CoinType.busd_bep20 = ok PbCoinType.busd_bep20
db_coin_to_pb_coin CoinType.wbtc_bep20 = ok PbCoinType.wbtc_bep20
db_coin_to_pb_coin CoinType.btcb_bep20 = ok PbCoinType.btcb_bep20
db_coin_to_pb_coin CoinType.uni_bep20 = ok PbCoinType.uni_bep20
db_coin_to_pb_coin CoinType.link_bep20 = ok PbCoinType.link_bep20
db_coin_to_pb_coin CoinType.aave_bep20 = ok PbCoinType.aave_bep20
db_coin_to_pb_coin CoinType.matic_bep20 = ok PbCoinType.matic_bep20
db_coin_to_pb_coin CoinType.shib_bep20 = ok PbCoinType.shib_bep20
db_coin_to_pb_coin CoinType.atom_bep20 = ok PbCoinType.atom_bep20
db_coin_to_pb_coin CoinType.arb_bep20 = ok PbCoinType.arb_bep20
db_coin_to_pb_coin CoinType.eth_bep20 = ok PbCoinType.eth_bep20
db_coin_to_pb_coin CoinType.xrp_bep20 = ok PbCoinType.xrp_bep20
db_coin_to_pb_coin CoinType.ada_bep20 = ok PbCoinType.ada_bep20
db_coin_to_pb_coin CoinType.trx_bep20 = ok PbCoinType.trx_bep20
db_coin_to_pb_coin CoinType.doge_bep20 = ok PbCoinType.doge_bep20
db_coin_to_pb_coin CoinType.ltc_bep20 = ok PbCoinType.ltc_bep20
db_coin_to_pb_coin CoinType.bch_bep20 = ok PbCoinType.bch_bep20
db_coin_to_pb_coin CoinType.twt_bep20 = ok PbCoinType.twt_bep20
db_coin_to_pb_coin CoinType.avax_bep20 = ok PbCoinType.avax_bep20
db_coin_to_pb_coin CoinType.cake_bep20 = ok PbCoinType.cake_bep20
db_coin_to_pb_coin CoinType.empty = err Error.invalid_db_coin

-- `DbInvoiceStatusToPbInvoiceStatus`; its error case is for a string that is no status, which
-- `InvoiceStatusType` does not hold.
unfoldable pub db_status_to_pb_status : InvoiceStatusType → PbInvoiceStatusType
db_status_to_pb_status InvoiceStatusType.pending = PbInvoiceStatusType.pending
db_status_to_pb_status InvoiceStatusType.pending_mempool = PbInvoiceStatusType.pending_mempool
db_status_to_pb_status InvoiceStatusType.confirmed = PbInvoiceStatusType.confirmed
db_status_to_pb_status InvoiceStatusType.expired = PbInvoiceStatusType.expired
