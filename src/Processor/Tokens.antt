-- ===== src/Processor/Tokens.antt =====
-- `tokenDataETHCompatible` (internal/processor/eth_base.go): the contract of each token, and how
-- many of the contract's units make one token.
use goipay.Base.{ℕ, ◌*◌, ◌^◌, ◌≡◌, String, Bool, true, false, Option, none, some, arith}
use goipay.Coin.{CoinType}

pub record TokenData : Type 0 where
  pub contract_address : String
  pub decimals : ℕ

abbrev token : String → ℕ → Option TokenData
token a d = some (record { contract_address = a; decimals = d })

-- The map's entry for `CoinTypeETH`.
unfoldable pub erc20_tokens : CoinType → Option TokenData
erc20_tokens CoinType.usdt_erc20 = token "0xdAC17F958D2ee523a2206206994597C13D831ec7" (10 * 10 ^ 5)
erc20_tokens CoinType.usdc_erc20 = token "0xA0b86991c6218b36c1d19D4a2e9Eb0cE3606eB48" (10 * 10 ^ 5)
erc20_tokens CoinType.dai_erc20 = token "0x6B175474E89094C44Da98b954EedeAC495271d0F" (10 * 10 ^ 17)
erc20_tokens CoinType.wbtc_erc20 = token "0x2260FAC5E5542a773Aa44fBCfeDf7C193bc2C599" (10 * 10 ^ 7)
erc20_tokens CoinType.uni_erc20 = token "0x1f9840a85d5aF5bf1D1762F925BDADdC4201F984" (10 * 10 ^ 17)
erc20_tokens CoinType.link_erc20 = token "0x514910771AF9Ca656af840dff83E8264EcF986CA" (10 * 10 ^ 17)
erc20_tokens CoinType.aave_erc20 = token "0x7Fc66500c84A76Ad7e9c93437bFc5Ac33E2DDaE9" (10 * 10 ^ 17)
erc20_tokens CoinType.crv_erc20 = token "0xD533a949740bb3306d119CC777fa900bA034cd52" (10 * 10 ^ 17)
erc20_tokens CoinType.matic_erc20 =
    token "0x7D1AfA7B718fb893dB30A3aBc0Cfc608AaCfeBB0" (10 * 10 ^ 17)
erc20_tokens CoinType.shib_erc20 = token "0x95aD61b0a150d79219dCF64E1E6Cc01f0B64C4cE" (10 * 10 ^ 17)
erc20_tokens CoinType.bnb_erc20 = token "0xB8c77482e45F1F44dE1745F52C74426C631bDD52" (10 * 10 ^ 17)
erc20_tokens CoinType.atom_erc20 = token "0x8D983cb9388EaC77af0474fA441C4815500Cb7BB" (10 * 10 ^ 5)
erc20_tokens CoinType.arb_erc20 = token "0xB50721BCf8d664c30412Cfbc6cf7a15145234ad1" (10 * 10 ^ 17)
erc20_tokens _ = none

-- The map's entry for `CoinTypeBNB`.
unfoldable pub bep20_tokens : CoinType → Option TokenData
bep20_tokens CoinType.bscusd_bep20 =
    token "0x55d398326f99059fF775485246999027B3197955" (10 * 10 ^ 17)
bep20_tokens CoinType.usdc_bep20 = token "0x8AC76a51cc950d9822D68b83fE1Ad97B32Cd580d" (10 * 10 ^ 17)
bep20_tokens CoinType.dai_bep20 = token "0x1AF3F329e8BE154074D8769D1FFa4eE058B1DBc3" (10 * 10 ^ 17)
bep20_tokens CoinType.wbtc_bep20 = token "0x0555E30da8f98308EdB960aa94C0Db47230d2B9c" (10 * 10 ^ 7)
bep20_tokens CoinType.uni_bep20 = token "0xBf5140A22578168FD562DCcF235E5D43A02ce9B1" (10 * 10 ^ 17)
bep20_tokens CoinType.link_bep20 = token "0xF8A0BF9cF54Bb92F17374d9e9A321E6a111a51bD" (10 * 10 ^ 17)
bep20_tokens CoinType.aave_bep20 = token "0xfb6115445Bff7b52FeB98650C87f44907E58f802" (10 * 10 ^ 17)
bep20_tokens CoinType.matic_bep20 =
    token "0xCC42724C6683B7E57334c4E856f4c9965ED682bD" (10 * 10 ^ 17)
bep20_tokens CoinType.shib_bep20 = token "0x2859e4544C4bB03966803b044A93563Bd2D0DD4D" (10 * 10 ^ 17)
bep20_tokens CoinType.busd_bep20 = token "0xe9e7CEA3DedcA5984780Bafc599bD69ADd087D56" (10 * 10 ^ 17)
bep20_tokens CoinType.atom_bep20 = token "0x0Eb3a705fc54725037CC9e008bDede697f62F335" (10 * 10 ^ 17)
bep20_tokens CoinType.arb_bep20 = token "0xa050FFb3eEb8200eEB7F61ce34FF644420FD3522" (10 * 10 ^ 17)
bep20_tokens CoinType.eth_bep20 = token "0x2170Ed0880ac9A755fd29B2688956BD959F933F8" (10 * 10 ^ 17)
bep20_tokens CoinType.xrp_bep20 = token "0x1D2F0da169ceB9fC7B3144628dB156f3F6c60dBE" (10 * 10 ^ 17)
bep20_tokens CoinType.ada_bep20 = token "0x3EE2200Efb3400fAbB9AacF31297cBdD1d435D47" (10 * 10 ^ 17)
bep20_tokens CoinType.trx_bep20 = token "0xCE7de646e7208a4Ef112cb6ed5038FA6cC6b12e3" (10 * 10 ^ 5)
bep20_tokens CoinType.doge_bep20 = token "0xbA2aE424d960c26247Dd6c32edC70B295c744C43" (10 * 10 ^ 7)
bep20_tokens CoinType.ltc_bep20 = token "0x4338665CBB7B2485A8855A139b75D5e34AB0DB94" (10 * 10 ^ 17)
bep20_tokens CoinType.bch_bep20 = token "0x8fF795a6F4D97E7887C79beA79aba5cc76444aDf" (10 * 10 ^ 17)
bep20_tokens CoinType.twt_bep20 = token "0x4B0F1812e5Df2A09796481Ff14017e6005508003" (10 * 10 ^ 17)
bep20_tokens CoinType.avax_bep20 = token "0x1CE0c2827e2eF14D5C4f29a091d735A204794041" (10 * 10 ^ 17)
bep20_tokens CoinType.cake_bep20 = token "0x0E09FaBB73Bd3Ade0a17ECC321fD13a19e81cE82" (10 * 10 ^ 17)
bep20_tokens _ = none

abbrev or_token : Option TokenData → Option TokenData → Option TokenData
or_token (some t) _ = some t
or_token none t = t

-- The search of `verifyETHBasedTxHandler` through the map, whose order Go leaves open.
unfoldable pub find_token : Bool → CoinType → Option TokenData
unfolding erc20_tokens bep20_tokens
find_token true coin = or_token (erc20_tokens coin) (bep20_tokens coin)
find_token false coin = or_token (bep20_tokens coin) (erc20_tokens coin)

-- The order does not matter, since no token stands under both chains.
pub find_token_order : (coin : CoinType) → find_token true coin ≡ find_token false coin
unfolding find_token
find_token_order coin = ground arith
