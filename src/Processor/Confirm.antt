-- ===== src/Processor/Confirm.antt =====
-- The confirmations and the expiry of an invoice: `confirmPENDING_MEMPOOL`, `confirmCONFIRMED` and
-- `expireInvoice` of internal/processor/base.go.
use goipay.Base.{
  String, Bool, true, not, ◌&&◌, ◌||◌, Option, none, some, List, [], ◌∷◌, ◌++◌, ltb, update,
  if◌then◌else◌,
}
use goipay.Base.Word.{i16_to_u64}
use goipay.Base.Float.{Float64}
use goipay.Error.{Result, ok, err}
use goipay.Db.Models.{PgUuid, Invoice, Db}
use goipay.Db.Session.{Session, query, Outcome, next_fault, init_db_queries_with_tx}
use goipay.Db.Invoices.{
  confirm_invoice_by_id, confirm_invoice_status_mempool_by_id, expire_invoice_by_id, has_id,
  set_expired,
}
use goipay.Listener.Tx.{SharedTx}
use goipay.SyncMap.{SyncMap, load_and_delete}
use goipay.Processor.State.{
  PendingInvoice, release_address, broadcast, Env, store_cell, spawn, cancel, Running, holds_row,
}

-- The next statement of a transaction reaches the database.
abbrev pub goes_through : Session → Bool
goes_through s = not s.aborted && not (next_fault s.faults).0

-- The rows that a transaction holds after an update of one.
abbrev pub rows_after : Result Invoice → PgUuid → List PgUuid → List PgUuid
rows_after (ok _) id rows = id ∷ rows
rows_after (err _) id rows = rows

-- The tables of a transaction once another one has committed that an invoice is expired.
abbrev pub see_expired : PgUuid → Db → Db
see_expired id db = record db { invoices = update (has_id id) set_expired db.invoices }

module _ {T : Type 0} where
  -- The goroutine waits for ever, and with it the rows that its transaction holds.
  abbrev pub hang : Running T → Running T
  hang st = record st {
    hung = true;
    world = record st.world { stuck_rows = st.own_rows ++ st.world.stuck_rows };
  }

  -- What `expireInvoice` does once its update has returned: two goroutines, then the commit. The
  -- transaction around it sees the row as committed.
  abbrev pub expired_with : Invoice → Result Invoice × Session → Running T → Running T
  expired_with invoice (err e, s) st = st
  expired_with invoice (ok i, s) st =
      let told = spawn (broadcast i) (spawn (release_address invoice) st.world) in
      if goes_through s
      then record st {
        world = record told { db = s.db };
        session = record st.session { db = see_expired invoice.id st.session.db };
      }
      else record st { world = told }

  abbrev pub expire_in_tx : Env → Invoice → Option Session → Running T → Running T
  expire_in_tx env invoice none st = st
  expire_in_tx env invoice (some s) st =
      if goes_through s
        && (holds_row invoice.id st.own_rows || holds_row invoice.id st.world.stuck_rows)
      then hang st
      else expired_with invoice (query (expire_invoice_by_id invoice.id) s) st

  abbrev pub expire_found :
      Env → Invoice → Option PendingInvoice × SyncMap PendingInvoice → Running T → Running T
  expire_found env invoice (none, _) st = st
  expire_found env invoice (some _, m) st =
      expire_in_tx env invoice (init_db_queries_with_tx env.inner_faults st.world.db)
        (record st { world = record st.world { pending_invoices = m } })

  -- `expireInvoice`, called while another transaction may be open
  unfoldable pub expire_invoice : Env → Invoice → Running T → Running T
  unfolding init_db_queries_with_tx load_and_delete
  expire_invoice env invoice st =
      expire_found env invoice (load_and_delete invoice.crypto_address st.world.pending_invoices) st

  -- An update of the invoice's row in the open transaction.
  abbrev pub update_row :
      PgUuid
      → (Db → Outcome Invoice)
      → (Result Invoice → Running T → Running T)
      → Running T
      → Running T
  update_row id f k st =
      if goes_through st.session && holds_row id st.world.stuck_rows
      then hang st
      else (let (r, s) = query f st.session in
          k r (record st { session = s; own_rows = rows_after r id st.own_rows }))

  abbrev pub mempool_stored : PendingInvoice → Result Invoice → Running T → Running T
  mempool_stored value (err e) st = st
  mempool_stored value (ok invoice) st = record st {
    world = spawn (broadcast invoice) (store_cell value.invoice invoice st.world);
  }

  -- `confirmPENDING_MEMPOOL`
  unfoldable pub confirm_pending_mempool : String → Float64 → PendingInvoice → Running T → Running T
  confirm_pending_mempool tx_id amount value st =
      let id = (st.world.cell value.invoice).id in
      update_row id
        (confirm_invoice_status_mempool_by_id
          (record { id = id; actual_amount = some amount; tx_id = some tx_id }))
        (mempool_stored value) st

  abbrev pub confirm_stored : Invoice → Result Invoice → Running T → Running T
  confirm_stored invoice (err e) st = st
  confirm_stored invoice (ok confirmed) st = record st {
    world = spawn (broadcast confirmed) (spawn (release_address invoice) st.world);
  }

  abbrev pub confirm_found :
      Env
      → PendingInvoice
      → Invoice
      → Option PendingInvoice × SyncMap PendingInvoice
      → Running T
      → Running T
  confirm_found env value invoice (none, _) st = st
  confirm_found env value invoice (some _, m) st =
      update_row invoice.id (confirm_invoice_by_id env.now invoice.id) (confirm_stored invoice)
        (record st {
          world = cancel value.cancel_timeout (record st.world { pending_invoices = m });
        })

  abbrev pub confirm_tx : Env → PendingInvoice → Invoice → SharedTx → Running T → Running T
  confirm_tx env value invoice tx st =
      if tx.is_double_spend_seen
      then expire_invoice env invoice st
      else if ltb tx.get_confirmations (i16_to_u64 invoice.confirmations_required)
      then st
      else confirm_found env value invoice
          (load_and_delete invoice.crypto_address st.world.pending_invoices) st

  abbrev pub confirm_txs :
      Env → PendingInvoice → Invoice → Result (List SharedTx) → Running T → Running T
  confirm_txs env value invoice (err e) st = st
  confirm_txs env value invoice (ok []) st = expire_invoice env invoice st
  confirm_txs env value invoice (ok (tx ∷ _)) st = confirm_tx env value invoice tx st

  abbrev pub confirm_tx_id : Env → PendingInvoice → Invoice → Option String → Running T → Running T
  confirm_tx_id env value invoice none st = st
  confirm_tx_id env value invoice (some h) st =
      confirm_txs env value invoice (env.get_transactions h) st

  -- `confirmCONFIRMED`
  unfoldable pub confirm_confirmed : Env → PendingInvoice → Running T → Running T
  unfolding expire_invoice load_and_delete
  confirm_confirmed env value st =
      let invoice = st.world.cell value.invoice in confirm_tx_id env value invoice invoice.tx_id st
