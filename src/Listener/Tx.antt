-- ===== src/Listener/Tx.antt =====
-- The transactions of each coin, with the methods of `SharedTx` (internal/listener). The fields are
-- those that the program reads of the daemons' answers.
use goipay.Base.{ℕ, ◌%◌, String, Bool, true, false, ◌==◌, Option, List, [], ◌∷◌}
use goipay.Base.Float.{Float64}
use goipay.Base.Word.{sub_u64}
use goipay.Error.{Error, Result, ok, err}

-- An output of a Bitcoin or Litecoin transaction: its value and its script's addresses.
pub record TxOut : Type 0 where
  pub value : Float64
  pub address : String
  pub addresses : List String

pub record BtcTx : Type 0 where
  pub txid : String
  pub confirmations : ℕ
  pub vout : List TxOut

pub record EthLog : Type 0 where
  pub address : ℕ
  pub topics : List ℕ
  pub payload : List ℕ  -- the bytes of `Data`

-- `types.Transaction`, as far as it is read.
pub record EthTransaction : Type 0 where
  pub hash : String
  pub to : Option ℕ
  pub value : ℕ

pub record EthTx : Type 0 where
  pub tx : EthTransaction
  pub status : ℕ
  pub confirmations : ℕ
  pub logs : List EthLog

-- `TxInfo`, as far as it is read: the bytes of `extra`, the key of each output, and the encrypted
-- amounts of `rct_signatures`, which are a list of their own.
pub record XmrTxInfo : Type 0 where
  pub extra : List ℕ
  pub vout : List String
  pub ecdh_info : List String

pub record XmrTx : Type 0 where
  pub tx_info : XmrTxInfo
  pub tx_hash : String
  pub confirmations : ℕ
  pub double_spend_seen : Bool

-- `SharedTx`: what the processor reads of any coin's transaction.
pub record SharedTx : Type 0 where
  pub get_tx_id : String
  pub get_confirmations : ℕ
  pub is_double_spend_seen : Bool

unfoldable pub btc_shared : BtcTx → SharedTx
btc_shared t = record {
  get_tx_id = t.txid;
  get_confirmations = t.confirmations;
  is_double_spend_seen = false;
}

unfoldable pub eth_shared : EthTx → SharedTx
eth_shared t = record {
  get_tx_id = t.tx.hash;
  get_confirmations = t.confirmations;
  is_double_spend_seen = t.status == 0;
}

unfoldable pub xmr_shared : XmrTx → SharedTx
xmr_shared t = record {
  get_tx_id = t.tx_hash;
  get_confirmations = t.confirmations;
  is_double_spend_seen = t.double_spend_seen;
}

-- `types.Receipt`, as far as it is read.
pub record EthReceipt : Type 0 where
  pub status : ℕ
  pub logs : List EthLog
  pub block_number : ℕ

-- The calls of `ethclient.Client`, as their answers.
pub record EthClient : Type 0 where
  pub block_number : Result ℕ
  pub transaction_by_hash : String → Result EthTransaction
  pub transaction_receipt : String → Result EthReceipt
  pub block_by_number : ℕ → Result (List String)  -- the hashes of its transactions
  pub network_id : Result ℕ

-- One round of the loop: the low byte of the status, and the blocks since the receipt's.
abbrev pub eth_tx : ℕ → EthTransaction → EthReceipt → EthTx
eth_tx last tx receipt = record {
  tx = tx;
  status = receipt.status % 256;
  confirmations = sub_u64 last receipt.block_number;
  logs = receipt.logs;
}

infixl 5 ◌>>=◌
abbrev pub ◌>>=◌ : {A B : Type 0} → Result A → (A → Result B) → Result B
ok a >>= f = f a
err e >>= f = err e

unfoldable pub eth_get_txs : EthClient → ℕ → List String → Result (List EthTx)
eth_get_txs c last [] = ok []
eth_get_txs c last (h ∷ hs) = do
  tx ← c.transaction_by_hash h
  receipt ← c.transaction_receipt h
  txs ← eth_get_txs c last hs
  ok (eth_tx last tx receipt ∷ txs)

-- `SharedETHDaemonRpcClient.GetTransactions`
unfoldable pub eth_get_transactions : EthClient → List String → Result (List EthTx)
unfolding eth_get_txs
eth_get_transactions c hashes = do last ← c.block_number; eth_get_txs c last hashes

-- `SharedBTCDaemonRpcClient.GetTransactions`: every hash is parsed before the first request.
abbrev pub all_parse : (String → Bool) → List String → Bool
all_parse valid [] = true
all_parse valid (h ∷ hs) = elim (valid h) [ true ↦ all_parse valid hs | false ↦ false ]

abbrev pub btc_receive : (String → Result BtcTx) → List String → Result (List BtcTx)
btc_receive get [] = ok []
btc_receive get (h ∷ hs) = do tx ← get h; txs ← btc_receive get hs; ok (tx ∷ txs)

unfoldable pub btc_get_transactions :
    (String → Bool) → (String → Result BtcTx) → List String → Result (List BtcTx)
btc_get_transactions valid get hashes = elim (all_parse valid hashes) [
  | true ↦ btc_receive get hashes
  | false ↦ err Error.external
]
