-- ===== src/Listener/Client.antt =====
-- `SharedDaemonRpcClient` (internal/listener/base.go), and its implementation for each coin (btc.go,
-- ltc.go, eth.go, bnb.go, xmr.go). The daemons' own clients are arguments, as their answers.
use goipay.Base.{ℕ, String, Bool, List, []}
use goipay.Error.{Result, ok}
use goipay.Coin.{CoinType}
use goipay.Listener.Network.{
  NetworkType, XmrInfo, btc_get_network_type, ltc_get_network_type, eth_get_network_type,
  bnb_get_network_type, xmr_get_network_type,
}
use goipay.Listener.Tx.{
  BtcTx, EthTx, XmrTx, EthClient, ◌>>=◌, btc_get_transactions, eth_get_transactions,
}

-- A block of any coin, as far as it is read: the hashes of its transactions.
pub record Block : Type 0 where
  pub get_tx_hashes : List String

pub record SharedDaemonRpcClient (T : Type 0) : Type 0 where
  pub get_last_block_height : Result ℕ
  pub get_block_by_height : ℕ → Result Block
  pub get_transaction_pool : Result (List String)
  pub get_transactions : List String → Result (List T)
  pub get_network_type : Result NetworkType
  pub get_coin_type : CoinType

-- `rpcclient.Client`, with the reading of a hash; hashes are their texts.
pub record RpcClient : Type 0 where
  pub get_block_count : Result ℕ
  pub get_block_hash : ℕ → Result String
  pub get_block : String → Result Block
  pub get_raw_mempool : Result (List String)
  pub is_hash : String → Bool
  pub get_raw_transaction_verbose : String → Result BtcTx
  pub get_block_chain_info : Result String

-- `SharedBTCDaemonRpcClient.GetBlockByHeight`
abbrev pub btc_get_block_by_height : RpcClient → ℕ → Result Block
btc_get_block_by_height c height = do hash ← c.get_block_hash height; c.get_block hash

-- `SharedBTCDaemonRpcClient`
unfoldable pub btc_client : RpcClient → SharedDaemonRpcClient BtcTx
btc_client c = record {
  get_last_block_height = c.get_block_count;
  get_block_by_height = btc_get_block_by_height c;
  get_transaction_pool = c.get_raw_mempool;
  get_transactions = btc_get_transactions c.is_hash c.get_raw_transaction_verbose;
  get_network_type = btc_get_network_type c.get_block_chain_info;
  get_coin_type = CoinType.btc;
}

-- `SharedLTCDaemonRpcClient`: the Bitcoin client, but for the network, which a client of its own
-- asks for.
unfoldable pub ltc_client : RpcClient → Result String → SharedDaemonRpcClient BtcTx
unfolding btc_client
ltc_client c ltc_info = record (btc_client c) {
  get_network_type = ltc_get_network_type ltc_info;
  get_coin_type = CoinType.ltc;
}

-- `SharedETHDaemonRpcClient`: the pool is always empty.
unfoldable pub eth_client : EthClient → SharedDaemonRpcClient EthTx
eth_client c = record {
  get_last_block_height = c.block_number;
  get_block_by_height = λ height. do
    hashes ← c.block_by_number height
    ok (record { get_tx_hashes = hashes });
  get_transaction_pool = ok [];
  get_transactions = eth_get_transactions c;
  get_network_type = eth_get_network_type c.network_id;
  get_coin_type = CoinType.eth;
}

-- `SharedBNBDaemonRpcClient`
unfoldable pub bnb_client : EthClient → SharedDaemonRpcClient EthTx
unfolding eth_client
bnb_client c = record (eth_client c) {
  get_network_type = bnb_get_network_type c.network_id;
  get_coin_type = CoinType.bnb;
}

-- `daemon.IDaemonRpcClient` of go-monero
pub record XmrRpcClient : Type 0 where
  pub get_last_block_header : Result ℕ
  pub get_block_by_height : ℕ → Result Block
  pub get_transaction_pool : Result (List String)
  pub get_transactions : List String → Result (List XmrTx)
  pub get_info : Result XmrInfo

-- `SharedXMRDaemonRpcClient`
unfoldable pub xmr_client : XmrRpcClient → SharedDaemonRpcClient XmrTx
xmr_client c = record {
  get_last_block_height = c.get_last_block_header;
  get_block_by_height = c.get_block_by_height;
  get_transaction_pool = c.get_transaction_pool;
  get_transactions = c.get_transactions;
  get_network_type = xmr_get_network_type c.get_info;
  get_coin_type = CoinType.xmr;
}
