-- ===== src/Listener/Pool.antt =====
-- The transaction pool: `syncTransactionPool` of internal/listener/base.go.
use goipay.Base.{◌≡◌, refl, String, List, [], ◌∷◌, arith, if◌then◌else◌}
use goipay.Error.{Error, Result, ok, err}
use goipay.Listener.Executor.{contains, first_tx, new_pool_txs, sync_transaction_pool}

abbrev pub unseen : List String → List String → List String
unseen prev [] = []
unseen prev (h ∷ hs) = if contains h prev then unseen prev hs else h ∷ unseen prev hs

module _ {T : Type 0} where
  -- The transactions that the daemon gives for the hashes that were not seen before, in the pool's
  -- order.
  abbrev pub fetched : (String → Result (List T)) → List String → List T
  fetched get [] = []
  fetched get (h ∷ hs) = first_tx (get h) (fetched get hs)

  new_pool_txs-fetched :
      (get : String → Result (List T)) (prev hashes : List String)
      → new_pool_txs get prev hashes ≡ fetched get (unseen prev hashes)
  unfolding new_pool_txs
  new_pool_txs-fetched get prev [] = refl
  new_pool_txs-fetched get prev (h ∷ hs) = ground (arith, new_pool_txs-fetched get prev hs)

  -- A synced pool is remembered as it is, and what is broadcast is exactly what the daemon gives
  -- for the hashes that the pool before did not hold; if the pool cannot be read, nothing changes.
  pub sync_transaction_pool_lem :
      (get : String → Result (List T)) (pool : Result (List String)) (prev : List String)
      → ((hashes : List String)
          → pool ≡ ok hashes
          → sync_transaction_pool get pool prev ≡ (hashes, fetched get (unseen prev hashes)))
        × ((e : Error) → pool ≡ err e → sync_transaction_pool get pool prev ≡ (prev, []))
  unfolding sync_transaction_pool
  sync_transaction_pool_lem get pool prev = (
    λ hashes e. rw (e, sync_transaction_pool, new_pool_txs-fetched get prev hashes),
    λ x e. rw (e, sync_transaction_pool),
  )
