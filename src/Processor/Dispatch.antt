-- ===== src/Processor/Dispatch.antt =====
-- What the goroutines that `load` of internal/processor/base.go starts do with the blocks and the
-- transactions that the listener broadcasts.
use goipay.Base.{ℕ, false, ◌≡◌, ◌⊎◌, refl, ap, String, List, [], ◌∷◌, map, inl, inr, arith}
use goipay.Error.{Error, Result, ok, err, is_ok, Result-cases}
use goipay.Listener.Tx.{EthClient, eth_get_txs, eth_get_transactions}
use goipay.Listener.Client.{Block, SharedDaemonRpcClient, eth_client}
use goipay.Listener.Executor.{sync_transaction_pool}
use goipay.Processor.State.{World, Coin}
use goipay.Processor.Create.{Generator}
use goipay.Processor.Manager.{Kind}
use goipay.Processor.Steps.{Reaches, further, new_tx, new_block}
use goipay.Processor.Lifecycle.{verify_tx_on_mempool, verify_tx_on_new_block}

-- A goroutine that `load` starts: `verifyTxOnMempool` or `verifyTxOnNewBlock`.
pub data Started (T : Type 0) : Type 0 where
  on_mempool : T → Started T
  on_new_block : Started T

module _ {T : Type 0} where
  -- An error of the daemon is logged, and the block's transactions are not asked for again.
  abbrev pub answered : Result (List T) → List T
  answered (err _) = []
  answered (ok txs) = txs

  abbrev pub block_txs : SharedDaemonRpcClient T → Block → List T
  block_txs c block = answered (c.get_transactions block.get_tx_hashes)

  -- The goroutines that a block starts; the order in which they run is open.
  unfoldable pub on_block : SharedDaemonRpcClient T → Block → List (Started T)
  on_block c block = on_new_block ∷ map on_mempool (block_txs c block)

  -- The one that a transaction of the pool starts.
  unfoldable pub on_pool_tx : T → List (Started T)
  on_pool_tx tx = on_mempool tx ∷ []

  abbrev pub run_started : Coin T → Started T → World T → World T
  run_started coin (on_mempool tx) w = verify_tx_on_mempool coin tx w
  run_started coin on_new_block w = verify_tx_on_new_block w

  unfoldable pub run_all : Coin T → List (Started T) → World T → World T
  run_all coin [] w = w
  run_all coin (c ∷ cs) w = run_all coin cs (run_started coin c w)

-- However they run, the processor's steps are theirs.
run_all-Reaches :
    {T : Type 0} (coin : Coin T) (kind : Kind) (gen : Generator) (cs : List (Started T))
    (w v : World T)
    → Reaches coin kind gen w v
    → Reaches coin kind gen w (run_all coin cs v)
unfolding run_all
run_all-Reaches coin kind gen [] w v r = r
run_all-Reaches coin kind gen (on_mempool tx ∷ cs) w v r =
    run_all-Reaches coin kind gen cs w _ (further v _ r (new_tx tx))
run_all-Reaches coin kind gen (on_new_block ∷ cs) w v r =
    run_all-Reaches coin kind gen cs w _ (further v _ r new_block)

-- The client gives no transaction or no receipt for the hash.
abbrev pub Unanswered : EthClient → String → Type 0
Unanswered c h =
    ((e : Error) × (c.transaction_by_hash h ≡ err e))
    ⊎ ((e : Error) × (c.transaction_receipt h ≡ err e))

pub data Among {ℓ} {A : Type ℓ} (x : A) : List A → Type ℓ where
  first : (xs : List A) → Among x (x ∷ xs)
  later : (y : A) (xs : List A) → Among x xs → Among x (y ∷ xs)

-- One hash without an answer, and the call fails.
eth_get_txs-Unanswered :
    (c : EthClient) (last : ℕ) (h : String) (hashes : List String)
    → Among h hashes
    → Unanswered c h
    → is_ok (eth_get_txs c last hashes) ≡ false
unfolding eth_get_txs
eth_get_txs-Unanswered c last h hashes (first hs) (inl (e, none_given)) = ground arith
eth_get_txs-Unanswered c last h hashes (first hs) (inr (e, none_given)) = ground arith
eth_get_txs-Unanswered c last h hashes (later g hs m) none_given =
    ground (arith, eth_get_txs-Unanswered c last h hs m none_given)

eth_get_transactions-Unanswered :
    (c : EthClient) (h : String) (hashes : List String)
    → Among h hashes
    → Unanswered c h
    → is_ok (eth_get_transactions c hashes) ≡ false
unfolding eth_get_transactions
eth_get_transactions-Unanswered c h hashes m none_given = elim (Result-cases c.block_number) [
  | inl (e, failed) ↦ rw failed refl
  | inr (last, read) ↦ rw read (eth_get_txs-Unanswered c last h hashes m none_given)
]

answered_err : {A : Type 0} (r : Result (List A)) → is_ok r ≡ false → answered r ≡ []
answered_err (ok txs) e = cc
answered_err (err x) e = refl

-- Where the daemon fails to give one transaction of an Ethereum block, or its receipt, no transaction
-- of that block is looked at, and none of them comes by the pool either: the block starts the look at
-- the pending invoices alone, and the client's pool is always empty.
pub on_block-Unanswered :
    (c : EthClient) (block : Block) (h : String) (prev : List String)
    → Among h block.get_tx_hashes
    → Unanswered c h
    → (on_block (eth_client c) block ≡ on_new_block ∷ [])
      × ((sync_transaction_pool
            (λ g. (eth_client c).get_transactions (g ∷ []))
            (eth_client c).get_transaction_pool
            prev).1
          ≡ [])
unfolding on_block eth_client sync_transaction_pool eth_get_transactions
on_block-Unanswered c block h prev among none_given = (
  ap (λ txs. on_new_block ∷ map on_mempool txs)
      (answered_err (eth_get_transactions c block.get_tx_hashes)
        (eth_get_transactions-Unanswered c h block.get_tx_hashes among none_given)),
  refl,
)
