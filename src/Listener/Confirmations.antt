-- ===== src/Listener/Confirmations.antt =====
-- The confirmations that the Ethereum client computes, and the networks that the clients report.
use goipay.Base.{
  ℕ, ◌-◌, ◌^◌, ◌≤◌, ◌<◌, ◌≡◌, refl, subst, sym, inl, inr, String, true, false, List, [], ◌∷◌, arith,
  ltb,
}
use goipay.Base.Word.{i16_to_u64}
use goipay.Error.{Result, ok, err, Result-cases}
use goipay.Listener.Network.{
  is_btc, is_ltc, is_eth, btc_get_network_type, ltc_get_network_type, eth_get_network_type,
}
use goipay.Listener.Tx.{
  ◌>>=◌, EthClient, EthTransaction, EthReceipt, EthTx, eth_tx, eth_get_txs, eth_get_transactions,
}

-- The transactions belong to the hashes, one for each and in order, each with the confirmations
-- that its receipt's block has at height `last`.
abbrev pub Answers : EthClient → ℕ → List String → List EthTx → Type 0
Answers c last [] [] = Unit
Answers c last [] (_ ∷ _) = ⊥
Answers c last (_ ∷ _) [] = ⊥
Answers c last (h ∷ hs) (t ∷ ts) =
    ((tx : EthTransaction) × (receipt : EthReceipt) × (c.transaction_by_hash h ≡ ok tx)
      × (c.transaction_receipt h ≡ ok receipt)
      × (t ≡ eth_tx last tx receipt))
    × Answers c last hs ts

-- What the Ethereum client reports for a transaction whose receipt names a block not above the
-- height that it read: the blocks since then.
eth_tx_confirmations :
    (last : ℕ) (tx : EthTransaction) (receipt : EthReceipt)
    → last < 2 ^ 64
    → receipt.block_number ≤ last
    → (eth_tx last tx receipt).confirmations ≡ last - receipt.block_number
eth_tx_confirmations last tx receipt b h = omega arith

eth_tx_confirmations_above :
    (last : ℕ) (tx : EthTransaction) (receipt : EthReceipt)
    → receipt.block_number < 2 ^ 63
    → last < receipt.block_number
    → (eth_tx last tx receipt).confirmations ≡ 2 ^ 64 - (receipt.block_number - last)
eth_tx_confirmations_above last tx receipt b h = omega arith

-- No requirement that is not negative as int16 holds back that many confirmations.
above-enough :
    (confirmations block last required : ℕ)
    → confirmations ≡ 2 ^ 64 - (block - last)
    → block < 2 ^ 63
    → last < block
    → required < 2 ^ 15
    → ltb confirmations (i16_to_u64 required) ≡ false
above-enough confirmations block last required e b h r = ground arith

-- `GetTransactions` reads the height before the receipts. A transaction whose receipt's block is not
-- above that height has the blocks since then as its confirmations. One that is mined in between, in
-- a block above the height, has 2 ^ 64 less the distance, so that the guard of `confirmCONFIRMED`
-- lets it pass for each requirement below 2 ^ 15, all that are not negative as int16.
pub eth_tx_confirmations_wrap :
    (c : EthClient) (h : String) (last required : ℕ) (tx : EthTransaction) (receipt : EthReceipt)
    → c.block_number ≡ ok last
    → c.transaction_by_hash h ≡ ok tx
    → c.transaction_receipt h ≡ ok receipt
    → last < 2 ^ 64
    → receipt.block_number < 2 ^ 63
    → required < 2 ^ 15
    → (t : EthTx) × (eth_get_transactions c (h ∷ []) ≡ ok (t ∷ []))
      × (receipt.block_number ≤ last → t.confirmations ≡ last - receipt.block_number)
      × (last < receipt.block_number
          → (t.confirmations ≡ 2 ^ 64 - (receipt.block_number - last))
            × (ltb t.confirmations (i16_to_u64 required) ≡ false))
unfolding eth_get_transactions
eth_tx_confirmations_wrap c h last required tx receipt height found mined b n r = (
  eth_tx last tx receipt,
  rw (height, ◌>>=◌, found, mined) refl,
  λ below. eth_tx_confirmations last tx receipt b below,
  λ above.
      let e = eth_tx_confirmations_above last tx receipt n above in
      (e, above-enough _ receipt.block_number last required e n above r),
)

-- A result that is no error satisfies the predicate.
abbrev pub IfOk : {A : Type 0} → (A → Type 0) → Result A → Type 0
IfOk P (ok a) = P a
IfOk P (err e) = Unit

Answers-cons :
    (c : EthClient) (last : ℕ) (h : String) (hs : List String) (tx : EthTransaction)
    (receipt : EthReceipt) (rest : Result (List EthTx))
    → c.transaction_by_hash h ≡ ok tx
    → c.transaction_receipt h ≡ ok receipt
    → IfOk (Answers c last hs) rest
    → IfOk (Answers c last (h ∷ hs)) (rest >>= λ txs. ok (eth_tx last tx receipt ∷ txs))
Answers-cons c last h hs tx receipt (ok txs) e f r = ((tx, receipt, e, f, refl), r)
Answers-cons c last h hs tx receipt (err x) e f r = tt

eth_get_txs-Answers :
    (c : EthClient) (last : ℕ) (hashes : List String)
    → IfOk (Answers c last hashes) (eth_get_txs c last hashes)
unfolding eth_get_txs
eth_get_txs-Answers c last [] = tt
eth_get_txs-Answers c last (h ∷ hs) = elim (Result-cases (c.transaction_by_hash h)) [
  | inl (x, e) ↦ rw (e, ◌>>=◌) tt
  | inr (tx, e) ↦ elim (Result-cases (c.transaction_receipt h)) [
    | inl (x, f) ↦ rw (IfOk, e, f, ◌>>=◌) tt
    | inr (receipt, f) ↦
        rw (IfOk, e, f)
          (Answers-cons c last h hs tx receipt (eth_get_txs c last hs) e f
            (eth_get_txs-Answers c last hs))
  ]
]

-- `GetTransactions` answers, if it answers without an error, with one transaction for each hash, in
-- order; each is the client's transaction for the hash with the status and logs of its receipt, and
-- its confirmations are the 64-bit difference of the client's height and the receipt's block.
pub eth_get_transactions-Answers :
    (c : EthClient) (last : ℕ) (hashes : List String)
    → c.block_number ≡ ok last
    → IfOk (Answers c last hashes) (eth_get_transactions c hashes)
unfolding eth_get_transactions
eth_get_transactions-Answers c last hashes e =
    subst (λ r. IfOk (Answers c last hashes) (r >>= λ n. eth_get_txs c n hashes)) (sym e)
      (eth_get_txs-Answers c last hashes)

btc_own : (r : Result String) → IfOk (λ n. is_btc n ≡ true) (btc_get_network_type r)
unfolding btc_get_network_type
btc_own (err e) = tt
btc_own (ok c) = ground arith

ltc_own : (r : Result String) → IfOk (λ n. is_ltc n ≡ true) (ltc_get_network_type r)
unfolding ltc_get_network_type
ltc_own (err e) = tt
ltc_own (ok c) = ground arith

eth_own : (r : Result ℕ) → IfOk (λ n. is_eth n ≡ true) (eth_get_network_type r)
unfolding eth_get_network_type
eth_own (err e) = tt
eth_own (ok n) = ground arith

-- A Bitcoin, Litecoin or Ethereum client reports a network of its own coin or an error, whatever
-- the daemon answers.
pub get_network_type_own :
    (chain : Result String) (id : Result ℕ)
    → IfOk (λ n. is_btc n ≡ true) (btc_get_network_type chain)
      × IfOk (λ n. is_ltc n ≡ true) (ltc_get_network_type chain)
      × IfOk (λ n. is_eth n ≡ true) (eth_get_network_type id)
get_network_type_own chain id = (btc_own chain, ltc_own chain, eth_own id)
