-- ===== src/Processor/Told/Goroutines.antt =====
-- What the goroutines of internal/processor/base.go broadcast.
use goipay.Base.{
  ◌≡◌, refl, sym, subst, String, Bool, true, false, Option, none, some, List, [], ◌∷◌, ◌++◌, ltb,
  ◌&&◌, ◌||◌, exists, find, if◌then◌else◌,
}
use goipay.Base.Float.{Float64}
use goipay.Base.Word.{i16_to_u64}
use goipay.Error.{Result, ok, err}
use goipay.Db.Models.{PgUuid, Time, Invoice, Db}
use goipay.Db.Session.{Session, Outcome, query, next_fault, begin-db, init_db_queries_with_tx}
use goipay.Db.Invoices.{
  has_id, set_expired, set_confirmed, set_mempool, MempoolParams, tx_id_taken, expire_invoice_by_id,
  confirm_invoice_by_id, confirm_invoice_status_mempool_by_id,
}
use goipay.Db.Ledger.{Evolved}
use goipay.Listener.Tx.{SharedTx}
use goipay.SyncMap.{SyncMap}
use goipay.Processor.State.{
  PendingInvoice, Env, Running, Task, broadcast, release_address, holds_row, cancel,
}
use goipay.Processor.Confirm.{
  goes_through, expired_with, expire_in_tx, expire_found, expire_invoice, update_row,
  mempool_stored, confirm_stored, confirm_found, confirm_tx, confirm_txs, confirm_tx_id,
  confirm_confirmed, confirm_pending_mempool, rows_after, hang,
}
use goipay.Processor.Lifecycle.{confirm_both}
use goipay.Processor.Ledger.{InLedger, confirm_pending_mempool-InLedger}
use goipay.Processor.Linked.{asked, LinkedTo}
use goipay.Processor.Linked.Pointers.{Gives, run_statement-Gives, unless-Returns, returning-Returns}
use goipay.Processor.Told.{Distinct, seen_linked, TaskTold, AllTold, append-AllTold}

module _ (rows : List Invoice) where
  abbrev IsRow : Invoice → Type 0
  IsRow i = LinkedTo rows (asked i)

  module _ (distinct : Distinct rows) where
    -- The rows that the statements return.
    confirmed-IsRow :
        (now : Time) (id : PgUuid) (s : Session)
        → Evolved rows s.db.invoices
        → Gives IsRow (query (confirm_invoice_by_id now id) s).0
    confirmed-IsRow now id s x =
        run_statement-Gives IsRow s.aborted s.faults (confirm_invoice_by_id now id) s.db (
          returning-Returns IsRow (set_confirmed now) (find (has_id id) s.db.invoices) _
            (λ r h. seen_linked rows s.db.invoices (has_id id) r x distinct h))

    expired-IsRow :
        (id : PgUuid) (s : Session)
        → Evolved rows s.db.invoices
        → Gives IsRow (query (expire_invoice_by_id id) s).0
    expired-IsRow id s x =
        run_statement-Gives IsRow s.aborted s.faults (expire_invoice_by_id id) s.db (
          returning-Returns IsRow set_expired (find (has_id id) s.db.invoices) _
            (λ r h. seen_linked rows s.db.invoices (has_id id) r x distinct h))

    mempool-IsRow :
        (arg : MempoolParams) (s : Session)
        → Evolved rows s.db.invoices
        → Gives IsRow (query (confirm_invoice_status_mempool_by_id arg) s).0
    mempool-IsRow arg s x =
        run_statement-Gives IsRow s.aborted s.faults (confirm_invoice_status_mempool_by_id arg) s.db
          (unless-Returns IsRow
            (exists (has_id arg.id) s.db.invoices && exists (tx_id_taken arg) s.db.invoices) _
            (returning-Returns IsRow (set_mempool arg) (find (has_id arg.id) s.db.invoices) _
              (λ r h. seen_linked rows s.db.invoices (has_id arg.id) r x distinct h)))

module _ {T : Type 0} (rows : List Invoice) (distinct : Distinct rows) where
  -- What the goroutine has started so far is told.
  abbrev pub Told : Running T → Type 0
  Told st = AllTold rows st.world.tasks

  pub chosen-Told : (b : Bool) (s t : Running T) → Told s → Told t → Told (if b then s else t)
  chosen-Told true s t f g = f
  chosen-Told false s t f g = g

  update_row-Told :
      (id : PgUuid) (f : Db → Outcome Invoice) (k : Result Invoice → Running T → Running T)
      (st : Running T)
      → Gives (IsRow rows) (query f st.session).0
      → ((r : Result Invoice) (s : Running T) → Gives (IsRow rows) r → Told s → Told (k r s))
      → Told st
      → Told (update_row id f k st)
  update_row-Told id f k st g keep t =
      let done = query f st.session in
      let st' = record st { session = done.1; own_rows = rows_after done.0 id st.own_rows } in
      chosen-Told (goes_through st.session && holds_row id st.world.stuck_rows) (hang st)
        (k done.0 st') t (keep done.0 st' g t)

  -- Another goroutine, after those that are started.
  spawned :
      (ts : List (Task T)) (t : Task T)
      → TaskTold rows t
      → AllTold rows ts
      → AllTold rows (ts ++ t ∷ [])
  spawned ts t l f = append-AllTold rows ts (t ∷ []) f (l, tt)

  mempool_stored-Told :
      (value : PendingInvoice) (r : Result Invoice) (st : Running T)
      → Gives (IsRow rows) r
      → Told st
      → Told (mempool_stored value r st)
  mempool_stored-Told value (err e) st g t = t
  mempool_stored-Told value (ok i) st g t = spawned st.world.tasks (broadcast i) g t

  confirm_stored-Told :
      (invoice : Invoice) (r : Result Invoice) (st : Running T)
      → Gives (IsRow rows) r
      → Told st
      → Told (confirm_stored invoice r st)
  confirm_stored-Told invoice (err e) st g t = t
  confirm_stored-Told invoice (ok i) st g t =
      spawned (st.world.tasks ++ release_address invoice ∷ []) (broadcast i) g
        (spawned st.world.tasks (release_address invoice) tt t)

  confirm_pending_mempool-Told :
      (tx_id : String) (amount : Float64) (value : PendingInvoice) (st : Running T)
      → InLedger rows st
      → Told st
      → Told (confirm_pending_mempool tx_id amount value st)
  unfolding confirm_pending_mempool
  confirm_pending_mempool-Told tx_id amount value st l t =
      let id = (st.world.cell value.invoice).id in
      let arg : MempoolParams = record {
        id = id;
        actual_amount = some amount;
        tx_id = some tx_id;
      } in
      update_row-Told id (confirm_invoice_status_mempool_by_id arg) (mempool_stored value) st
        (mempool-IsRow rows distinct arg st.session l.seen) (mempool_stored-Told value) t

  module _ (env : Env) where
    expired_with-Told :
        (invoice : Invoice) (r : Result Invoice) (s : Session) (st : Running T)
        → Gives (IsRow rows) r
        → Told st
        → Told (expired_with invoice (r, s) st)
    expired_with-Told invoice (err e) s st g t = t
    expired_with-Told invoice (ok i) s st g t =
        let told =
          spawned (st.world.tasks ++ release_address invoice ∷ []) (broadcast i) g
            (spawned st.world.tasks (release_address invoice) tt t) in
        chosen-Told (goes_through s) _ _ told told

    expire_in_tx-Told :
        (invoice : Invoice) (o : Option Session) (st : Running T)
        → ((s : Session) → o ≡ some s → s.db ≡ st.world.db)
        → InLedger rows st
        → Told st
        → Told (expire_in_tx env invoice o st)
    expire_in_tx-Told invoice none st d l t = t
    expire_in_tx-Told invoice (some s) st d l t =
        let done = query (expire_invoice_by_id invoice.id) s in
        chosen-Told
          (goes_through s
            && (holds_row invoice.id st.own_rows || holds_row invoice.id st.world.stuck_rows))
          (hang st) (expired_with invoice done st) t
          (expired_with-Told invoice done.0 done.1 st
            (expired-IsRow rows distinct invoice.id s
              (subst (λ db. Evolved rows db.invoices) (sym (d s refl)) l.committed))
            t)

    expire_found-Told :
        (invoice : Invoice) (o : Option PendingInvoice) (m : SyncMap PendingInvoice)
        (st : Running T)
        → InLedger rows st
        → Told st
        → Told (expire_found env invoice (o, m) st)
    unfolding init_db_queries_with_tx
    expire_found-Told invoice none m st l t = t
    expire_found-Told invoice (some p) m st l t =
        expire_in_tx-Told invoice _ (record st { world = record st.world { pending_invoices = m } })
          (λ s e. begin-db (next_fault env.inner_faults) st.world.db s e)
          (record { committed = l.committed; seen = l.seen }) t

    pub expire_invoice-Told :
        (invoice : Invoice) (st : Running T)
        → InLedger rows st
        → Told st
        → Told (expire_invoice env invoice st)
    unfolding expire_invoice
    expire_invoice-Told invoice st l t = expire_found-Told invoice _ _ st l t

    confirm_found-Told :
        (value : PendingInvoice) (invoice : Invoice) (o : Option PendingInvoice)
        (m : SyncMap PendingInvoice) (st : Running T)
        → InLedger rows st
        → Told st
        → Told (confirm_found env value invoice (o, m) st)
    confirm_found-Told value invoice none m st l t = t
    confirm_found-Told value invoice (some p) m st l t =
        update_row-Told invoice.id (confirm_invoice_by_id env.now invoice.id)
          (confirm_stored invoice)
          (record st {
            world = cancel value.cancel_timeout (record st.world { pending_invoices = m });
          })
          (confirmed-IsRow rows distinct env.now invoice.id st.session l.seen)
          (confirm_stored-Told invoice) t

    confirm_tx-Told :
        (value : PendingInvoice) (invoice : Invoice) (tx : SharedTx) (st : Running T)
        → InLedger rows st
        → Told st
        → Told (confirm_tx env value invoice tx st)
    unfolding confirm_confirmed
    confirm_tx-Told value invoice tx st l t =
        chosen-Told tx.is_double_spend_seen (expire_invoice env invoice st) _
          (expire_invoice-Told invoice st l t)
          (chosen-Told (ltb tx.get_confirmations (i16_to_u64 invoice.confirmations_required)) st _ t
            (confirm_found-Told value invoice _ _ st l t))

    confirm_txs-Told :
        (value : PendingInvoice) (invoice : Invoice) (r : Result (List SharedTx)) (st : Running T)
        → InLedger rows st
        → Told st
        → Told (confirm_txs env value invoice r st)
    confirm_txs-Told value invoice (err e) st l t = t
    confirm_txs-Told value invoice (ok []) st l t = expire_invoice-Told invoice st l t
    confirm_txs-Told value invoice (ok (tx ∷ _)) st l t = confirm_tx-Told value invoice tx st l t

    confirm_tx_id-Told :
        (value : PendingInvoice) (invoice : Invoice) (o : Option String) (st : Running T)
        → InLedger rows st
        → Told st
        → Told (confirm_tx_id env value invoice o st)
    confirm_tx_id-Told value invoice none st l t = t
    confirm_tx_id-Told value invoice (some h) st l t =
        confirm_txs-Told value invoice (env.get_transactions h) st l t

    pub confirm_confirmed-Told :
        (value : PendingInvoice) (st : Running T)
        → InLedger rows st
        → Told st
        → Told (confirm_confirmed env value st)
    unfolding confirm_confirmed
    confirm_confirmed-Told value st l t = confirm_tx_id-Told value _ _ st l t

    pub confirm_both-Told :
        (tx_id : String) (amount : Float64) (value : PendingInvoice) (st : Running T)
        → InLedger rows st
        → Told st
        → Told (confirm_both env tx_id amount value st)
    unfolding confirm_both
    confirm_both-Told tx_id amount value st l t =
        let st' = confirm_pending_mempool tx_id amount value st in
        let t' = confirm_pending_mempool-Told tx_id amount value st l t in
        chosen-Told st'.hung st' (confirm_confirmed env value st') t' (
          confirm_confirmed-Told value st'
            (confirm_pending_mempool-InLedger rows tx_id amount value st l) t')
