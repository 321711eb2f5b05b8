-- ===== src/Processor/Lifecycle.antt =====
-- The life of an invoice after its creation (internal/processor/base.go). Each goroutine runs here
-- from its start to its end in one step; the order in which they run is open.
use goipay.Base.{suc, String, Bool, false, ◌&&◌, Option, none, some, [], ◌∷◌, if◌then◌else◌}
use goipay.Base.Float.{Float64, le_float}
use goipay.Error.{Result, ok, err}
use goipay.Coin.{InvoiceStatusType, eq_status}
use goipay.Db.Models.{Invoice, CryptoAddress, Db}
use goipay.Db.Session.{Session, query, commit, init_db_queries_with_tx}
use goipay.Db.Addresses.{update_is_occupied_by_crypto_address}
use goipay.SyncMap.{SyncMap, load, store}
use goipay.Processor.Confirm.{expire_invoice, confirm_pending_mempool, confirm_confirmed}
use goipay.Processor.State.{
  PendingInvoice, Task, verify_mempool, verify_block, handle_invoice_helper, World, Env, Coin,
  store_cell, spawn, Running,
}

abbrev pub is_paid : Invoice → Float64 → Bool
is_paid invoice amount =
    le_float invoice.required_amount amount && eq_status invoice.status InvoiceStatusType.pending

-- Outside any transaction.
abbrev pub no_session : Db → Session
no_session db = record { db = db; aborted = false; faults = [] }

module _ {T : Type 0} where
  abbrev pub then_run : Running T → (Running T → Running T) → Running T
  then_run st k = if st.hung then st else k st

  -- The end of a goroutine's transaction: a commit, unless it hangs.
  abbrev pub committed : Running T → World T
  committed st =
      if st.hung then st.world else record st.world { db = commit st.world.db st.session }

  abbrev pub start_running : Session → World T → Running T
  start_running s w = record { session = s; own_rows = []; world = w; hung = false }

  abbrev pub run_in_tx : Option Session → World T → (Running T → Running T) → World T
  run_in_tx none w body = w
  run_in_tx (some s) w body = committed (body (start_running s w))

  -- The goroutine that `verifyTxOnNewBlock` starts for each pending invoice
  unfoldable pub verify_block_body : Env → PendingInvoice → World T → World T
  unfolding init_db_queries_with_tx
  verify_block_body env value w =
      run_in_tx (init_db_queries_with_tx env.faults w.db) w (confirm_confirmed env value)

  -- Both confirmations, where the invoice is pending and the transaction pays enough.
  unfoldable pub confirm_both : Env → String → Float64 → PendingInvoice → Running T → Running T
  confirm_both env tx_id amount value st =
      then_run (confirm_pending_mempool tx_id amount value st) (confirm_confirmed env value)

  -- An error of the handler returns, and the deferred call rolls back.
  abbrev pub mempool_verified :
      Env → String → PendingInvoice → Invoice → Result Float64 × Session → Running T → World T
  mempool_verified env tx_id value invoice (err e, s) st = st.world
  mempool_verified env tx_id value invoice (ok amount, s) st =
      let st' = record st { session = s } in
      committed (if is_paid invoice amount then confirm_both env tx_id amount value st' else st')

  abbrev pub mempool_begun : Coin T → Env → PendingInvoice → T → Option Session → World T → World T
  mempool_begun coin env value tx none w = w
  mempool_begun coin env value tx (some s) w =
      let invoice = w.cell value.invoice in
      mempool_verified env (coin.shared tx).get_tx_id value invoice
        (coin.verify_tx_handler invoice tx s) (start_running s w)

  -- The goroutine that `verifyTxOnMempool` starts for each pending invoice
  unfoldable pub verify_mempool_body : Coin T → Env → PendingInvoice → T → World T → World T
  unfolding init_db_queries_with_tx
  verify_mempool_body coin env value tx w =
      mempool_begun coin env value tx (init_db_queries_with_tx env.faults w.db) w

  abbrev pub start_all : (PendingInvoice → Task T) → SyncMap PendingInvoice → World T → World T
  start_all task [] w = w
  start_all task ((_, value) ∷ m) w = start_all task m (spawn (task value) w)

  -- `verifyTxOnMempool`: one goroutine for each pending invoice, unless the transaction was rejected.
  unfoldable pub verify_tx_on_mempool : Coin T → T → World T → World T
  verify_tx_on_mempool coin tx w =
      if (coin.shared tx).is_double_spend_seen
      then w
      else start_all (λ value. verify_mempool value tx) w.pending_invoices w

  -- `verifyTxOnNewBlock`
  unfoldable pub verify_tx_on_new_block : World T → World T
  verify_tx_on_new_block w = start_all verify_block w.pending_invoices w

  abbrev pub released : Result CryptoAddress × Session → World T → World T
  released (err e, s) w = w
  released (ok _, s) w = record w { db = commit w.db s }

  abbrev pub release_begun : Invoice → Option Session → World T → World T
  release_begun invoice none w = w
  release_begun invoice (some s) w =
      released (query (update_is_occupied_by_crypto_address invoice.crypto_address false) s) w

  -- `releaseAddressHelper`
  unfoldable pub release_address_helper : Env → Invoice → World T → World T
  unfolding init_db_queries_with_tx
  release_address_helper env invoice w =
      release_begun invoice (init_db_queries_with_tx env.faults w.db) w

  abbrev pub watch : Invoice → World T → World T
  watch invoice w =
      let p = w.next_cell in
      spawn (handle_invoice_helper p invoice) (
        store_cell p invoice (record w {
          next_cell = suc p;
          pending_invoices =
              store invoice.crypto_address (record { invoice = p; cancel_timeout = p })
                w.pending_invoices;
        }))

  abbrev pub handle_unless : Option PendingInvoice → Invoice → World T → World T
  handle_unless (some _) invoice w = w
  handle_unless none invoice w = watch invoice w

  -- `handleInvoice`
  unfoldable pub handle_invoice : Invoice → World T → World T
  handle_invoice invoice w =
      handle_unless (load invoice.crypto_address w.pending_invoices) invoice w

  -- `handleInvoiceHelper` at its timeout: `expireInvoice` outside any transaction
  unfoldable pub timeout_body : Env → Invoice → World T → World T
  timeout_body env invoice w =
      (expire_invoice env invoice (start_running (no_session w.db) w)).world
