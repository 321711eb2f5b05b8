-- ===== src/Tests/Daemons.antt =====
-- A daemon that is ten blocks high, a pool of two transactions, and an Ethereum client.
use goipay.Base.{ℕ, ◌^◌, ◌≤◌, ◌≡◌, refl, String, false, some, List, [], ◌∷◌, arith, ◌-◌, ◌<◌, ltb}
use goipay.Error.{Error, Result, ok, err}
use goipay.Listener.Tx.{EthClient, EthTransaction, EthReceipt, EthTx, eth_get_transactions}
use goipay.Base.Word.{i16_to_u64}
use goipay.Listener.Executor.{BlockSource, sync_block, sync_transaction_pool}
use goipay.Listener.Blocks.{Returns, Synced, sync_block-Synced}
use goipay.Listener.Pool.{fetched, unseen, sync_transaction_pool_lem}
use goipay.Listener.Confirmations.{eth_tx_confirmations_wrap}

-- Each block is its height.
abbrev pub daemon : BlockSource ℕ
daemon = record { done = λ n. false; get_last_block_height = ok 10; get_block_by_height = ok }

-- Another tick, at which the daemon does not answer.
abbrev pub silent : BlockSource ℕ
silent = record {
  done = λ n. false;
  get_last_block_height = err Error.daemon;
  get_block_by_height = ok;
}

sync_block-Synced_example : Returns (sync_block daemon 7) (Synced daemon 10 7)
sync_block-Synced_example = sync_block-Synced daemon 10 7 refl

abbrev answer : String → Result (List String)
answer h = ok (h ∷ [])

abbrev failure : String → Result (List String)
failure h = err Error.daemon

abbrev pool : Result (List String)
pool = ok ("a" ∷ "b" ∷ [])

abbrev seen : List String
seen = "a" ∷ []

sync_transaction_pool_lem_example :
    ((hashes : List String)
      → pool ≡ ok hashes
      → sync_transaction_pool answer pool seen ≡ (hashes, fetched answer (unseen seen hashes)))
    × ((e : Error) → pool ≡ err e → sync_transaction_pool answer pool seen ≡ (seen, []))
sync_transaction_pool_lem_example = sync_transaction_pool_lem answer pool seen

abbrev transfer : EthTransaction
transfer = record { hash = "0x1"; to = some 5; value = 1000 }

abbrev mined : EthReceipt
mined = record { status = 1; logs = []; block_number = 101 }

abbrev client : EthClient
client = record {
  block_number = ok 100;
  transaction_by_hash = λ h. ok transfer;
  transaction_receipt = λ h. ok mined;
  block_by_number = λ n. ok ("0x1" ∷ []);
  network_id = ok 1;
}

eth_tx_confirmations_wrap_example :
    (t : EthTx) × (eth_get_transactions client ("0x1" ∷ []) ≡ ok (t ∷ []))
    × (101 ≤ 100 → t.confirmations ≡ 100 - 101)
    × (100 < 101
        → (t.confirmations ≡ 2 ^ 64 - (101 - 100)) × (ltb t.confirmations (i16_to_u64 12) ≡ false))
eth_tx_confirmations_wrap_example =
    eth_tx_confirmations_wrap client "0x1" 100 12 transfer mined refl refl refl (omega arith)
      (omega arith) (omega arith)
