-- ===== src/Listener/Network.antt =====
-- The kinds of network (internal/listener/base.go), and `GetNetworkType` of each client. What the
-- daemon answers is an argument.
use goipay.Base.{ℕ, ◌%◌, ◌^◌, String, Bool, true, false, ◌==◌, str_eq, if◌then◌else◌}
use goipay.Error.{Error, Result, ok, err}

-- `invalid` is the value 255, which the clients return beside an error.
pub data NetworkType : Type 0 where
  mainnet_xmr stagenet_xmr testnet_xmr : NetworkType
  mainnet_btc testnet_btc regtest_btc signet_btc : NetworkType
  mainnet_ltc testnet_ltc regtest_ltc signet_ltc : NetworkType
  mainnet_eth goerli_eth sepolia_eth private_eth : NetworkType
  mainnet_bnb testnet_bnb private_bnb : NetworkType
  invalid : NetworkType

btc_chain : String → Result NetworkType
btc_chain c =
    if str_eq c "main"
    then ok NetworkType.mainnet_btc
    else if str_eq c "mainnet"
    then ok NetworkType.mainnet_btc
    else if str_eq c "test"
    then ok NetworkType.testnet_btc
    else if str_eq c "testnet"
    then ok NetworkType.testnet_btc
    else if str_eq c "regtest"
    then ok NetworkType.regtest_btc
    else if str_eq c "signet"
    then ok NetworkType.signet_btc
    else err Error.invalid_network

-- `SharedBTCDaemonRpcClient.GetNetworkType`, by the daemon's `GetBlockChainInfo().Chain`
unfoldable pub btc_get_network_type : Result String → Result NetworkType
unfolding btc_chain
btc_get_network_type (err e) = err e
btc_get_network_type (ok c) = btc_chain c

ltc_chain : String → Result NetworkType
ltc_chain c =
    if str_eq c "main"
    then ok NetworkType.mainnet_ltc
    else if str_eq c "mainnet"
    then ok NetworkType.mainnet_ltc
    else if str_eq c "test"
    then ok NetworkType.testnet_ltc
    else if str_eq c "testnet"
    then ok NetworkType.testnet_ltc
    else if str_eq c "regtest"
    then ok NetworkType.regtest_ltc
    else if str_eq c "signet"
    then ok NetworkType.signet_ltc
    else err Error.invalid_network

-- `SharedLTCDaemonRpcClient.GetNetworkType`
unfoldable pub ltc_get_network_type : Result String → Result NetworkType
unfolding ltc_chain
ltc_get_network_type (err e) = err e
ltc_get_network_type (ok c) = ltc_chain c

-- The answer of a Monero daemon to `GetInfo`, as far as it is read.
pub record XmrInfo : Type 0 where
  pub testnet : Bool
  pub stagenet : Bool

-- `SharedXMRDaemonRpcClient.GetNetworkType`
unfoldable pub xmr_get_network_type : Result XmrInfo → Result NetworkType
xmr_get_network_type (err e) = err e
xmr_get_network_type (ok i) = ok (
    if i.testnet
    then NetworkType.testnet_xmr
    else if i.stagenet
    then NetworkType.stagenet_xmr
    else NetworkType.mainnet_xmr)

eth_chain : ℕ → Result NetworkType
eth_chain n =
    if n == 1
    then ok NetworkType.mainnet_eth
    else if n == 5
    then ok NetworkType.goerli_eth
    else if n == 11155111
    then ok NetworkType.sepolia_eth
    else if n == 1337
    then ok NetworkType.private_eth
    else err Error.invalid_network

-- `SharedETHDaemonRpcClient.GetNetworkType`, by the low 64 bits of the network's id
unfoldable pub eth_get_network_type : Result ℕ → Result NetworkType
unfolding eth_chain
eth_get_network_type (err e) = err e
eth_get_network_type (ok n) = eth_chain (n % 2 ^ 64)

bnb_chain : ℕ → Result NetworkType
bnb_chain n =
    if n == 56
    then ok NetworkType.mainnet_bnb
    else if n == 97
    then ok NetworkType.testnet_bnb
    else if n == 714
    then ok NetworkType.private_bnb
    else ok NetworkType.invalid

-- `SharedBNBDaemonRpcClient.GetNetworkType`, by the low 64 bits of the id: the default case returns the error of the call before,
-- which is nil there.
unfoldable pub bnb_get_network_type : Result ℕ → Result NetworkType
unfolding bnb_chain
bnb_get_network_type (err e) = err e
bnb_get_network_type (ok n) = bnb_chain (n % 2 ^ 64)

-- The networks that a client of each coin may report.
abbrev pub is_btc : NetworkType → Bool
is_btc NetworkType.mainnet_btc = true
is_btc NetworkType.testnet_btc = true
is_btc NetworkType.regtest_btc = true
is_btc NetworkType.signet_btc = true
is_btc _ = false

abbrev pub is_ltc : NetworkType → Bool
is_ltc NetworkType.mainnet_ltc = true
is_ltc NetworkType.testnet_ltc = true
is_ltc NetworkType.regtest_ltc = true
is_ltc NetworkType.signet_ltc = true
is_ltc _ = false

abbrev pub is_eth : NetworkType → Bool
is_eth NetworkType.mainnet_eth = true
is_eth NetworkType.goerli_eth = true
is_eth NetworkType.sepolia_eth = true
is_eth NetworkType.private_eth = true
is_eth _ = false
