-- ===== src/Processor/Address.antt =====
-- The next address of a user: `generateNext…AddressHandler` (internal/processor/btc.go, ltc.go,
-- eth.go, bnb.go, xmr.go) and `deriveNextETHBasedECPubKeyHelper` (eth_base.go). The key libraries
-- are arguments; keys are their serialised texts.
use goipay.Base.{ℕ, String, Bool, true, List}
use goipay.Error.{Error, Result, ok, err}
use goipay.Coin.{CoinType}
use goipay.Db.Models.{Uuid, PgUuid, CryptoAddress, HdCryptoDatum}
use goipay.Db.Session.{Query, query, of_result, ◌>>=◌}
use goipay.Db.Addresses.{create_crypto_address}
use goipay.Db.CryptoData.{
  find_crypto_data_by_user_id, find_keys_and_incremented_indices_btc_crypto_data_by_id,
  find_keys_and_incremented_indices_ltc_crypto_data_by_id,
  find_keys_and_incremented_indices_eth_crypto_data_by_id,
  find_keys_and_incremented_indices_bnb_crypto_data_by_id,
}
use goipay.Db.XmrData.{find_keys_and_incremented_indices_xmr_crypto_data_by_id}
use goipay.Listener.Network.{NetworkType}

-- `hdkeychain`, and the addresses that the coins' libraries make of a public key.
pub record HdLib : Type 0 where
  pub new_key_from_string : String → Result String
  pub derive : String → ℕ → Result String
  pub ec_pub_key : String → Result String
  pub witness_address : NetworkType → String → Result String
  pub pubkey_to_address : String → String

-- go-monero's `utils`.
pub record XmrLib : Type 0 where
  pub new_private_key : String → Result String
  pub new_public_key : String → Result String
  pub generate_subaddress : String → String → ℕ → ℕ → NetworkType → Result String
  pub public_spend_key : String → Result String  -- of an address
  pub get_tx_public_key_from_extra : List ℕ → Result String
  pub decrypt_output_public_spend_key :
      String → ℕ → String → String → String → String → Result (Bool × ℕ)

-- What a call of a handler meets outside: the libraries, and the UUID of a new row.
pub record AddressEnv : Type 0 where
  pub hd : HdLib
  pub xmr : XmrLib
  pub new_address_id : Uuid

pub record GenerateNextAddressHandlerData : Type 0 where
  pub user_id : PgUuid
  pub network : NetworkType

abbrev pub btc_net : NetworkType → Result NetworkType
btc_net NetworkType.mainnet_btc = ok NetworkType.mainnet_btc
btc_net NetworkType.testnet_btc = ok NetworkType.testnet_btc
btc_net NetworkType.signet_btc = ok NetworkType.signet_btc
btc_net NetworkType.regtest_btc = ok NetworkType.regtest_btc
btc_net _ = err Error.invalid_network

abbrev pub ltc_net : NetworkType → Result NetworkType
ltc_net NetworkType.mainnet_ltc = ok NetworkType.mainnet_ltc
ltc_net NetworkType.testnet_ltc = ok NetworkType.testnet_ltc
ltc_net NetworkType.signet_ltc = ok NetworkType.signet_ltc
ltc_net NetworkType.regtest_ltc = ok NetworkType.regtest_ltc
ltc_net _ = err Error.invalid_network

abbrev pub xmr_net : NetworkType → Result NetworkType
xmr_net NetworkType.mainnet_xmr = ok NetworkType.mainnet_xmr
xmr_net NetworkType.stagenet_xmr = ok NetworkType.stagenet_xmr
xmr_net NetworkType.testnet_xmr = ok NetworkType.testnet_xmr
xmr_net _ = err Error.invalid_network

-- `CreateCryptoAddress` as the handlers call it: the new address is occupied at once.
abbrev pub new_occupied : AddressEnv → CoinType → PgUuid → String → Query CryptoAddress
new_occupied env coin user address = query (
    create_crypto_address env.new_address_id
      (record { address = address; coin = coin; is_occupied = true; user_id = user }))

-- The derivation that all master public keys share: the major index, then the minor one.
unfoldable pub derive_pub_key : HdLib → HdCryptoDatum → Query String
derive_pub_key hd k = do
  m ← of_result (hd.new_key_from_string k.master_pub_key)
  major ← of_result (hd.derive m k.last_major_index)
  minor ← of_result (hd.derive major k.last_minor_index)
  of_result (hd.ec_pub_key minor)

module _ (env : AddressEnv) (arg : GenerateNextAddressHandlerData) where
  -- `generateNextBTCAddressHandler`
  unfoldable pub generate_next_btc_address_handler : Query CryptoAddress
  unfolding derive_pub_key
  generate_next_btc_address_handler = do
    net ← of_result (btc_net arg.network)
    cd ← query (find_crypto_data_by_user_id arg.user_id)
    keys ← query (find_keys_and_incremented_indices_btc_crypto_data_by_id cd.btc_id)
    pub_key ← derive_pub_key env.hd keys
    address ← of_result (env.hd.witness_address net pub_key)
    new_occupied env CoinType.btc arg.user_id address

  -- `generateNextLTCAddressHandler`
  unfoldable pub generate_next_ltc_address_handler : Query CryptoAddress
  unfolding derive_pub_key
  generate_next_ltc_address_handler = do
    net ← of_result (ltc_net arg.network)
    cd ← query (find_crypto_data_by_user_id arg.user_id)
    keys ← query (find_keys_and_incremented_indices_ltc_crypto_data_by_id cd.ltc_id)
    pub_key ← derive_pub_key env.hd keys
    address ← of_result (env.hd.witness_address net pub_key)
    new_occupied env CoinType.ltc arg.user_id address

  -- `generateNextETHAddressHandler`
  unfoldable pub generate_next_eth_address_handler : Query CryptoAddress
  unfolding derive_pub_key
  generate_next_eth_address_handler = do
    cd ← query (find_crypto_data_by_user_id arg.user_id)
    keys ← query (find_keys_and_incremented_indices_eth_crypto_data_by_id cd.eth_id)
    pub_key ← derive_pub_key env.hd keys
    new_occupied env CoinType.eth arg.user_id (env.hd.pubkey_to_address pub_key)

  -- `generateNextBNBAddressHandler`
  unfoldable pub generate_next_bnb_address_handler : Query CryptoAddress
  unfolding derive_pub_key
  generate_next_bnb_address_handler = do
    cd ← query (find_crypto_data_by_user_id arg.user_id)
    keys ← query (find_keys_and_incremented_indices_bnb_crypto_data_by_id cd.bnb_id)
    pub_key ← derive_pub_key env.hd keys
    new_occupied env CoinType.bnb arg.user_id (env.hd.pubkey_to_address pub_key)

  -- `generateNextXMRAddressHandler`
  unfoldable pub generate_next_xmr_address_handler : Query CryptoAddress
  generate_next_xmr_address_handler = do
    net ← of_result (xmr_net arg.network)
    cd ← query (find_crypto_data_by_user_id arg.user_id)
    keys ← query (find_keys_and_incremented_indices_xmr_crypto_data_by_id cd.xmr_id)
    view ← of_result (env.xmr.new_private_key keys.priv_view_key)
    spend ← of_result (env.xmr.new_public_key keys.pub_spend_key)
    address ←
        of_result
          (env.xmr.generate_subaddress view spend keys.last_major_index keys.last_minor_index net)
    new_occupied env CoinType.xmr arg.user_id address
