-- ===== src/Listener/Executor.antt =====
-- `BaseDaemonRpcClientExecutor` (internal/listener/base.go). Its state: whether its context is
-- alive, the height up to which blocks are synced, the pool seen last, and the subscribers.
use goipay.Base.{
  ℕ, zero, suc, ◌+◌, ◌-◌, String, Bool, true, false, Option, none, some, List, [], ◌∷◌, leb, exists,
  select, str_eq, if◌then◌else◌,
}
use goipay.Error.{Result, ok, err}

pub record Executor : Type 0 where
  pub running : Bool
  pub last_block_height : ℕ
  pub pool_txs : List String
  pub block_chns : List String
  pub tx_pool_chns : List String

-- `NewBaseDaemonRpcClientExecutor`: the context begins cancelled.
unfoldable pub new_executor : Executor
new_executor = record {
  running = false;
  last_block_height = 0;
  pool_txs = [];
  block_chns = [];
  tx_pool_chns = [];
}

-- `Start`: a second call while the context is alive does nothing.
unfoldable pub start : ℕ → Executor → Executor
start height d = if d.running then d else record d { running = true; last_block_height = height }

-- `Stop`
unfoldable pub stop : Executor → Executor
stop d = record d { running = false }

-- `NewBlockChan` and `NewTxPoolChan`, under the key that `uuid.NewString()` gives
unfoldable pub new_block_chan : String → Executor → Executor
new_block_chan key d = record d { block_chns = key ∷ d.block_chns }

unfoldable pub new_tx_pool_chan : String → Executor → Executor
new_tx_pool_chan key d = record d { tx_pool_chns = key ∷ d.tx_pool_chns }

-- One block's round through the subscribers: `ready` tells which of them receive it before the
-- timeout; the others are dropped.
unfoldable pub broadcast_new_block : (String → Bool) → Executor → Executor
broadcast_new_block ready d = record d { block_chns = select ready d.block_chns }

unfoldable pub broadcast_new_tx : (String → Bool) → Executor → Executor
broadcast_new_tx ready d = record d { tx_pool_chns = select ready d.tx_pool_chns }

-- What one call of `syncBlock` meets outside: whether the context is done when it comes to a
-- height, the daemon's height, and the daemon's blocks.
pub record BlockSource (B : Type 0) : Type 0 where
  pub done : ℕ → Bool
  pub get_last_block_height : Result ℕ
  pub get_block_by_height : ℕ → Result B

module _ {B : Type 0} where
  abbrev pub prepend : B → Option (ℕ × List B) → Option (ℕ × List B)
  prepend b none = none
  prepend b (some (n, bs)) = some (n, b ∷ bs)

  -- The loop, on fuel: the height that it stops at and the blocks that it broadcasts.
  unfoldable pub sync_loop : ℕ → BlockSource B → ℕ → ℕ → Option (ℕ × List B)
  sync_loop zero c height last = none
  sync_loop (suc fuel) c height last = elim (c.done last) [
    | true ↦ some (last, [])
    | false ↦ elim (leb height last) [
      | true ↦ some (last, [])
      | false ↦ elim (c.get_block_by_height last) [
        | err _ ↦ some (last, [])
        | ok b ↦ prepend b (sync_loop fuel c height (last + 1))
      ]
    ]
  ]

  abbrev pub sync_to : BlockSource B → ℕ → Result ℕ → Option (ℕ × List B)
  sync_to c last (err _) = some (last, [])
  sync_to c last (ok height) = sync_loop (suc (height - last)) c height last

  -- `syncBlock`
  unfoldable pub sync_block : BlockSource B → ℕ → Option (ℕ × List B)
  unfolding sync_loop
  sync_block c last = sync_to c last c.get_last_block_height

abbrev pub contains : String → List String → Bool
contains h = exists (λ g. str_eq g h)

module _ {T : Type 0} where
  abbrev pub first_tx : Result (List T) → List T → List T
  first_tx (err _) rest = rest
  first_tx (ok []) rest = rest
  first_tx (ok (t ∷ _)) rest = t ∷ rest

  -- The loop of `syncTransactionPool`: the transactions that it broadcasts.
  unfoldable pub new_pool_txs : (String → Result (List T)) → List String → List String → List T
  new_pool_txs get prev [] = []
  new_pool_txs get prev (h ∷ hs) =
      let rest = new_pool_txs get prev hs in if contains h prev then rest else first_tx (get h) rest

  -- `syncTransactionPool`: the set of hashes to remember, and the transactions to broadcast.
  unfoldable pub sync_transaction_pool :
      (String → Result (List T)) → Result (List String) → List String → List String × List T
  unfolding new_pool_txs
  sync_transaction_pool get (err _) prev = (prev, [])
  sync_transaction_pool get (ok hashes) prev = (hashes, new_pool_txs get prev hashes)
