-- ===== src/Processor/Verify.antt =====
-- What a transaction pays towards an invoice: `verifyBTCTxHandler`, `verifyLTCTxHandler` and
-- `verifyETHBasedTxHandler` (internal/processor/btc.go, ltc.go, eth_base.go). `verifyBNBTxHandler`
-- is the last of these.
use goipay.Base.{
  ℕ, ◌+◌, ◌*◌, ◌%◌, ◌^◌, String, Bool, false, ◌&&◌, ◌||◌, Option, none, some, List, [], ◌∷◌, str_eq,
  if◌then◌else◌, ◌==◌,
}
use goipay.Base.Float.{Float64, FloatOps, float_zero}
use goipay.Db.Models.{Invoice}
use goipay.Listener.Tx.{TxOut, BtcTx, EthLog, EthTransaction, EthTx}
use goipay.Processor.Tokens.{TokenData, find_token}

module _ (ops : FloatOps) where
  abbrev pub pays_btc : String → TxOut → Bool
  pays_btc addr out = str_eq out.address addr

  unfoldable pub btc_amount : String → Float64 → List TxOut → Float64
  btc_amount addr amount [] = amount
  btc_amount addr amount (out ∷ outs) =
      btc_amount addr (if pays_btc addr out then ops.add amount out.value else amount) outs

  -- `verifyBTCTxHandler`
  unfoldable pub verify_btc_tx_handler : Invoice → BtcTx → Float64
  unfolding btc_amount
  verify_btc_tx_handler invoice tx = btc_amount invoice.crypto_address float_zero tx.vout

  abbrev pub is_single : String → List String → Bool
  is_single addr (a ∷ []) = str_eq a addr
  is_single addr _ = false

  abbrev pub pays_ltc : String → TxOut → Bool
  pays_ltc addr out = str_eq out.address addr || is_single addr out.addresses

  unfoldable pub ltc_amount : String → Float64 → List TxOut → Float64
  ltc_amount addr amount [] = amount
  ltc_amount addr amount (out ∷ outs) =
      ltc_amount addr (if pays_ltc addr out then ops.add amount out.value else amount) outs

  -- `verifyLTCTxHandler`
  unfoldable pub verify_ltc_tx_handler : Invoice → BtcTx → Float64
  unfolding ltc_amount
  verify_ltc_tx_handler invoice tx = ltc_amount invoice.crypto_address float_zero tx.vout

-- The calls of go-ethereum's `common`: the texts of a hash and of an address, and the address in a
-- topic.
pub record EthLib : Type 0 where
  pub hash_hex : ℕ → String
  pub address_hex : ℕ → String
  pub bytes_to_address : ℕ → ℕ

abbrev pub transfer_method_signature : String
transfer_method_signature = "0xddf252ad1be2c89b69c2b068fc378daa952ba7f163c4a11628f55a4df523b3ef"

-- `new(big.Int).SetBytes`
abbrev pub set_bytes : ℕ → List ℕ → ℕ
set_bytes acc [] = acc
set_bytes acc (b ∷ bs) = set_bytes (256 * acc + b) bs

module _ (lib : EthLib) (ops : FloatOps) where
  -- A log is a transfer of the token to the address. `continue` in the source is `false` here.
  abbrev pub is_transfer_to : TokenData → String → EthLog → Bool
  is_transfer_to t addr l = elim l.topics [
    | method ∷ from ∷ to ∷ _ ↦
        str_eq (lib.hash_hex method) transfer_method_signature
        && str_eq (lib.address_hex l.address) t.contract_address
        && str_eq (lib.address_hex (lib.bytes_to_address to)) addr
    | _ ↦ false
  ]

  abbrev pub log_value : TokenData → EthLog → Float64
  log_value t l = ops.quo (set_bytes 0 l.payload) t.decimals

  unfoldable pub token_amount : TokenData → String → Float64 → List EthLog → Float64
  token_amount t addr amount [] = amount
  token_amount t addr amount (l ∷ ls) =
      token_amount t addr
        (if is_transfer_to t addr l then ops.add amount (log_value t l) else amount) ls

  abbrev pub logs_amount : Option TokenData → String → List EthLog → Float64
  logs_amount none addr ls = float_zero
  logs_amount (some t) addr ls = token_amount t addr float_zero ls

  abbrev pub is_to : String → Option ℕ → Bool
  is_to addr none = false
  is_to addr (some to) = str_eq addr (lib.address_hex to)

  -- `float64(Value().Uint64()) / 1e18`: the low 64 bits of the value.
  abbrev pub native_value : EthTransaction → Float64
  native_value tx = ops.div_1e18 (ops.of_u64 (tx.value % 2 ^ 64))

  abbrev pub native_amount : String → EthTransaction → Float64
  native_amount addr tx =
      if is_to addr tx.to then ops.add float_zero (native_value tx) else float_zero

  abbrev pub amount_by_logs : Bool → Invoice → EthTransaction → List EthLog → Float64
  amount_by_logs order invoice tx [] = native_amount invoice.crypto_address tx
  amount_by_logs order invoice tx (l ∷ ls) =
      logs_amount (find_token order invoice.coin) invoice.crypto_address (l ∷ ls)

  -- `verifyETHBasedTxHandler`; `order` is the order in which Go goes through the map of tokens.
  unfoldable pub verify_eth_based_tx_handler : Bool → Invoice → EthTx → Float64
  unfolding token_amount
  verify_eth_based_tx_handler order invoice tx =
      if tx.status == 0 then float_zero else amount_by_logs order invoice tx.tx tx.logs
