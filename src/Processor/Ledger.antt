-- ===== src/Processor/Ledger.antt =====
-- The goroutines of internal/processor/base.go on the ledger of invoices.
pub mod Steps
pub mod Handlers
pub mod Created
pub mod Reached
use goipay.Base.{
  ◌≡◌, refl, sym, ap, subst, ◌∙◌, String, Bool, true, false, Option, none, some, List, [], ◌∷◌,
  arith, update, ltb, if◌then◌else◌, ◌&&◌, ◌||◌,
}
use goipay.Base.Float.{Float64}
use goipay.Base.Word.{i16_to_u64}
use goipay.Error.{Result, ok, err}
use goipay.Db.Models.{PgUuid, Invoice, Db}
use goipay.Db.Session.{
  Session, Outcome, query, next_fault, begin-db, commit, commit_with, init_db_queries_with_tx,
}
use goipay.Db.Invoices.{
  has_id, set_expired, confirm_invoice_by_id, expire_invoice_by_id,
  confirm_invoice_status_mempool_by_id,
}
use goipay.Db.Ledger.{Evolved, evolved_trans, update-Evolved, set_expired-Evolves}
use goipay.Db.Ledger.Queries.{
  Writes, Keeps, query-Keeps, confirm_invoice_by_id-Writes, expire_invoice_by_id-Writes,
  confirm_invoice_status_mempool_by_id-Writes,
}
use goipay.Listener.Tx.{SharedTx}
use goipay.SyncMap.{SyncMap, load, delete}
use goipay.Processor.State.{PendingInvoice, World, Env, Coin, Running, holds_row, cancel}
use goipay.Processor.Confirm.{
  goes_through, expired_with, expire_in_tx, expire_found, expire_invoice, update_row,
  mempool_stored, confirm_stored, confirm_found, confirm_tx, confirm_txs, confirm_tx_id,
  confirm_confirmed, confirm_pending_mempool, see_expired, rows_after, hang,
}

module _ {T : Type 0} (rows : List Invoice) where
  -- Both what is committed and what the open transaction sees extend the ledger.
  pub record InLedger (st : Running T) : Type 0 where
    pub committed : Evolved rows st.world.db.invoices
    pub seen : Evolved rows st.session.db.invoices

  pub chosen-InLedger :
      (b : Bool) (s t : Running T) → InLedger s → InLedger t → InLedger (if b then s else t)
  chosen-InLedger true s t f g = f
  chosen-InLedger false s t f g = g

  -- An update of a row in the open transaction, where what follows keeps to the ledger.
  update_row-InLedger :
      (id : PgUuid) (f : Db → Outcome Invoice) (k : Result Invoice → Running T → Running T)
      (st : Running T)
      → ((db : Db) → Writes db (f db))
      → ((r : Result Invoice) (s : Running T) → InLedger s → InLedger (k r s))
      → InLedger st
      → InLedger (update_row id f k st)
  update_row-InLedger id f k st w keep l =
      let done = query f st.session in
      chosen-InLedger (goes_through st.session && holds_row id st.world.stuck_rows) (hang st)
        (k done.0 (record st { session = done.1; own_rows = rows_after done.0 id st.own_rows }))
        (record { committed = l.committed; seen = l.seen })
        (keep done.0 _ (record {
          committed = l.committed;
          seen = evolved_trans rows _ _ l.seen (query-Keeps f w st.session);
        }))

  mempool_stored-InLedger :
      (value : PendingInvoice) (r : Result Invoice) (st : Running T)
      → InLedger st
      → InLedger (mempool_stored value r st)
  mempool_stored-InLedger value (err e) st l = l
  mempool_stored-InLedger value (ok i) st l = record { committed = l.committed; seen = l.seen }

  confirm_stored-InLedger :
      (invoice : Invoice) (r : Result Invoice) (st : Running T)
      → InLedger st
      → InLedger (confirm_stored invoice r st)
  confirm_stored-InLedger invoice (err e) st l = l
  confirm_stored-InLedger invoice (ok i) st l = record { committed = l.committed; seen = l.seen }

  pub confirm_pending_mempool-InLedger :
      (tx_id : String) (amount : Float64) (value : PendingInvoice) (st : Running T)
      → InLedger st
      → InLedger (confirm_pending_mempool tx_id amount value st)
  unfolding confirm_pending_mempool
  confirm_pending_mempool-InLedger tx_id amount value st l =
      let id = (st.world.cell value.invoice).id in
      update_row-InLedger id
        (confirm_invoice_status_mempool_by_id
          (record { id = id; actual_amount = some amount; tx_id = some tx_id }))
        (mempool_stored value) st (confirm_invoice_status_mempool_by_id-Writes id amount tx_id)
        (mempool_stored-InLedger value) l

  module _ (env : Env) where
    expired_with-InLedger :
        (invoice : Invoice) (r : Result Invoice) (s : Session) (st : Running T)
        → Evolved rows s.db.invoices
        → InLedger st
        → InLedger (expired_with invoice (r, s) st)
    expired_with-InLedger invoice (err e) s st x l = l
    expired_with-InLedger invoice (ok i) s st x l =
        chosen-InLedger (goes_through s) _ _
          (record {
            committed = x;
            seen = evolved_trans rows _ _ l.seen (
                update-Evolved (has_id invoice.id) set_expired st.session.db.invoices
                  set_expired-Evolves);
          })
          (record { committed = l.committed; seen = l.seen })

    expire_in_tx-InLedger :
        (invoice : Invoice) (o : Option Session) (st : Running T)
        → ((s : Session) → o ≡ some s → s.db ≡ st.world.db)
        → InLedger st
        → InLedger (expire_in_tx env invoice o st)
    expire_in_tx-InLedger invoice none st d l = l
    expire_in_tx-InLedger invoice (some s) st d l =
        let done = query (expire_invoice_by_id invoice.id) s in
        chosen-InLedger
          (goes_through s
            && (holds_row invoice.id st.own_rows || holds_row invoice.id st.world.stuck_rows))
          (hang st) (expired_with invoice done st)
          (record { committed = l.committed; seen = l.seen })
          (expired_with-InLedger invoice done.0 done.1 st
            (evolved_trans rows _ _
              (subst (λ db. Evolved rows db.invoices) (sym (d s refl)) l.committed)
              (query-Keeps (expire_invoice_by_id invoice.id)
                (expire_invoice_by_id-Writes invoice.id) s))
            l)

    expire_found-InLedger :
        (invoice : Invoice) (o : Option PendingInvoice) (m : SyncMap PendingInvoice)
        (st : Running T)
        → InLedger st
        → InLedger (expire_found env invoice (o, m) st)
    unfolding init_db_queries_with_tx
    expire_found-InLedger invoice none m st l = l
    expire_found-InLedger invoice (some p) m st l =
        expire_in_tx-InLedger invoice _
          (record st { world = record st.world { pending_invoices = m } })
          (λ s e. begin-db (next_fault env.inner_faults) st.world.db s e)
          (record { committed = l.committed; seen = l.seen })

    pub expire_invoice-InLedger :
        (invoice : Invoice) (st : Running T)
        → InLedger st
        → InLedger (expire_invoice env invoice st)
    unfolding expire_invoice
    expire_invoice-InLedger invoice st l = expire_found-InLedger invoice _ _ st l

    confirm_found-InLedger :
        (value : PendingInvoice) (invoice : Invoice) (o : Option PendingInvoice)
        (m : SyncMap PendingInvoice) (st : Running T)
        → InLedger st
        → InLedger (confirm_found env value invoice (o, m) st)
    confirm_found-InLedger value invoice none m st l = l
    confirm_found-InLedger value invoice (some p) m st l =
        update_row-InLedger invoice.id (confirm_invoice_by_id env.now invoice.id)
          (confirm_stored invoice)
          (record st {
            world = cancel value.cancel_timeout (record st.world { pending_invoices = m });
          })
          (confirm_invoice_by_id-Writes env.now invoice.id) (confirm_stored-InLedger invoice)
          (record { committed = l.committed; seen = l.seen })

    confirm_tx-InLedger :
        (value : PendingInvoice) (invoice : Invoice) (tx : SharedTx) (st : Running T)
        → InLedger st
        → InLedger (confirm_tx env value invoice tx st)
    unfolding confirm_confirmed
    confirm_tx-InLedger value invoice tx st l =
        chosen-InLedger tx.is_double_spend_seen (expire_invoice env invoice st) _
          (expire_invoice-InLedger invoice st l)
          (chosen-InLedger (ltb tx.get_confirmations (i16_to_u64 invoice.confirmations_required)) st
            _ l (confirm_found-InLedger value invoice _ _ st l))

    confirm_txs-InLedger :
        (value : PendingInvoice) (invoice : Invoice) (r : Result (List SharedTx)) (st : Running T)
        → InLedger st
        → InLedger (confirm_txs env value invoice r st)
    confirm_txs-InLedger value invoice (err e) st l = l
    confirm_txs-InLedger value invoice (ok []) st l = expire_invoice-InLedger invoice st l
    confirm_txs-InLedger value invoice (ok (tx ∷ _)) st l =
        confirm_tx-InLedger value invoice tx st l

    confirm_tx_id-InLedger :
        (value : PendingInvoice) (invoice : Invoice) (o : Option String) (st : Running T)
        → InLedger st
        → InLedger (confirm_tx_id env value invoice o st)
    confirm_tx_id-InLedger value invoice none st l = l
    confirm_tx_id-InLedger value invoice (some h) st l =
        confirm_txs-InLedger value invoice (env.get_transactions h) st l

    pub confirm_confirmed-InLedger :
        (value : PendingInvoice) (st : Running T)
        → InLedger st
        → InLedger (confirm_confirmed env value st)
    unfolding confirm_confirmed
    confirm_confirmed-InLedger value st l = confirm_tx_id-InLedger value _ _ st l
