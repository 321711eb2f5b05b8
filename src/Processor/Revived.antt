-- ===== src/Processor/Revived.antt =====
-- Two goroutines for one invoice: its timeout (`handleInvoiceHelper`), and a paying transaction
-- (`verifyTxOnMempool`) that was dispatched before it and runs after it (internal/processor/base.go).
use goipay.Base.{◌≡◌, refl, ap, ◌∙◌, false, none, some, List, [], ◌∷◌, arith, find, update, exists}
use goipay.Base.Float.{Float64}
use goipay.Error.{Result, ok, err}
use goipay.Db.Models.{PgUuid, Invoice}
use goipay.Db.Statements.{map_row}
use goipay.Db.Invoices.{has_id, set_mempool, set_expired, tx_id_taken, MempoolParams}
use goipay.Db.InvoiceLaws.{find-update_self}
use goipay.Listener.Tx.{SharedTx}
use goipay.SyncMap.{load, delete, load-delete_self}
use goipay.Processor.State.{PendingInvoice, World, Env, Coin, holds_row}
use goipay.Processor.Confirm.{expire_invoice}
use goipay.Processor.Lifecycle.{is_paid, verify_mempool_body, timeout_body}
use goipay.Processor.Paid.{Pays, arguments, mempool_db, Unconfirmed, verify_mempool_body_records}

module _ {T : Type 0} (late : Env) (w : World T) (i : Invoice) where
  pub timeout_body-db :
      {r : Invoice} (entry : PendingInvoice)
      → late.inner_faults ≡ []
      → load i.crypto_address w.pending_invoices ≡ some entry
      → find (has_id i.id) w.db.invoices ≡ some r
      → holds_row i.id w.stuck_rows ≡ false
      → (timeout_body late i w).db
        ≡ record w.db { invoices = update (has_id i.id) set_expired w.db.invoices }
  unfolding timeout_body expire_invoice
  timeout_body-db entry f l s h = ground arith

  -- An expiry writes neither the pointers nor the list of locked rows.
  pub timeout_body-cell :
      {r : Invoice} (entry : PendingInvoice)
      → late.inner_faults ≡ []
      → load i.crypto_address w.pending_invoices ≡ some entry
      → find (has_id i.id) w.db.invoices ≡ some r
      → holds_row i.id w.stuck_rows ≡ false
      → ((timeout_body late i w).cell ≡ w.cell)
        × ((timeout_body late i w).stuck_rows ≡ w.stuck_rows)
  unfolding timeout_body expire_invoice
  timeout_body-cell entry f l s h = (ground arith, ground arith)

  pub timeout_body-pending :
      {r : Invoice} (entry : PendingInvoice)
      → late.inner_faults ≡ []
      → load i.crypto_address w.pending_invoices ≡ some entry
      → find (has_id i.id) w.db.invoices ≡ some r
      → holds_row i.id w.stuck_rows ≡ false
      → (timeout_body late i w).pending_invoices ≡ delete i.crypto_address w.pending_invoices
  unfolding timeout_body expire_invoice
  timeout_body-pending entry f l s h = ground arith

taken_update :
    (arg : MempoolParams) (id : PgUuid) (is : List Invoice)
    → exists (tx_id_taken arg) (update (has_id id) set_expired is) ≡ exists (tx_id_taken arg) is
taken_update arg id [] = refl
taken_update arg id (i ∷ is) = ground (arith, taken_update arg id is)

module _ {T : Type 0} (coin : Coin T) (env : Env) (value : PendingInvoice) (tx : T) where
  -- What pays an invoice in one state pays it in another that has the same pointer, locks and
  -- transactions.
  recover-Pays :
      (w v : World T) {amount : Float64} {r q : Invoice}
      → v.cell value.invoice ≡ w.cell value.invoice
      → v.stuck_rows ≡ w.stuck_rows
      → find (has_id (w.cell value.invoice).id) v.db.invoices ≡ some q
      → exists (tx_id_taken (arguments coin env value tx w amount)) v.db.invoices ≡ false
      → Pays coin env value tx w amount r
      → Pays coin env value tx v amount q
  recover-Pays w v {amount} c k s u paid = record {
    reached = paid.reached;
    found = λ t. ap (λ i. coin.verify_tx_handler i tx t) c ∙ paid.found t;
    enough = ap (λ i. is_paid i amount) c ∙ paid.enough;
    stored = ap (λ i. find (has_id i.id) v.db.invoices) c ∙ s;
    unique =
        ap
          (λ i.
            exists
              (tx_id_taken (record {
                id = i.id;
                actual_amount = some amount;
                tx_id = some (coin.shared tx).get_tx_id;
              }))
              v.db.invoices)
          c
        ∙ u;
    free =
        ap (λ i. holds_row i.id v.stuck_rows) c
        ∙ ap (holds_row (w.cell value.invoice).id) k
        ∙ paid.free;
  }

  recover-Unconfirmed :
      (w v : World T) {amount : Float64} {r : Invoice} (a : Result (List SharedTx))
      (paid : Pays coin env value tx w amount r)
      (again : Pays coin env value tx v amount (set_expired r))
      → Unconfirmed coin env value tx w paid a
      → Unconfirmed coin env value tx v again a
  recover-Unconfirmed w v (err e) paid again u = u
  recover-Unconfirmed w v (ok []) paid again u = u
  recover-Unconfirmed w v (ok (t ∷ ts)) paid again u = u

  recorded-find :
      (v : World T) (i : Invoice) {amount : Float64} {q : Invoice}
      → v.cell value.invoice ≡ i
      → find (has_id i.id) v.db.invoices ≡ some q
      → find (has_id i.id) (mempool_db coin env value tx v amount).invoices
        ≡ some (
            set_mempool
              (record {
                id = i.id;
                actual_amount = some amount;
                tx_id = some (coin.shared tx).get_tx_id;
              })
              q)
  recorded-find v i {amount} c s =
      ap
        (λ j. find (has_id i.id) (
          update (has_id j.id)
            (set_mempool (record {
              id = j.id;
              actual_amount = some amount;
              tx_id = some (coin.shared tx).get_tx_id;
            }))
            v.db.invoices))
        c
      ∙ find-update_self (has_id i.id) _ v.db.invoices (λ a. refl)
      ∙ ap (map_row _) s

  -- A payment that was dispatched before the timeout and runs after it finds the pointer as it was,
  -- PENDING, and not the row, which is EXPIRED: so it revives the invoice. The row becomes
  -- PENDING_MEMPOOL, and its address is not watched any more.
  pub expired_invoice_revived :
      (late : Env) (w : World T) {amount : Float64} {r : Invoice} (entry : PendingInvoice)
      → late.inner_faults ≡ []
      → load (w.cell value.invoice).crypto_address w.pending_invoices ≡ some entry
      → (paid : Pays coin env value tx w amount r)
      → Unconfirmed coin env value tx w paid (env.get_transactions (coin.shared tx).get_tx_id)
      → let v = timeout_body late (w.cell value.invoice) w in
        let v' = verify_mempool_body coin env value tx v in
        (find (has_id (w.cell value.invoice).id) v.db.invoices ≡ some (set_expired r))
        × (find (has_id (w.cell value.invoice).id) v'.db.invoices
            ≡ some (set_mempool (arguments coin env value tx w amount) (set_expired r)))
        × (load (w.cell value.invoice).crypto_address v'.pending_invoices ≡ none)
  expired_invoice_revived late w {amount} entry f l paid u =
      let i = w.cell value.invoice in
      let v = timeout_body late i w in
      let (cells, locks) = timeout_body-cell late w i entry f l paid.stored paid.free in
      let c = ap (λ g. g value.invoice) cells in
      let rows = ap (λ b. b.invoices) (timeout_body-db late w i entry f l paid.stored paid.free) in
      let expired =
        ap (find (has_id i.id)) rows
        ∙ find-update_self (has_id i.id) set_expired w.db.invoices (λ a. refl)
        ∙ ap (map_row set_expired) paid.stored in
      let again =
        recover-Pays w v c locks expired
          (ap (exists (tx_id_taken (arguments coin env value tx w amount))) rows
            ∙ taken_update (arguments coin env value tx w amount) i.id w.db.invoices
            ∙ paid.unique)
          paid in
      let after =
        verify_mempool_body_records coin env value tx v again (
          recover-Unconfirmed w v (env.get_transactions (coin.shared tx).get_tx_id) paid again u) in
      (
        expired,
        ap (λ z. find (has_id i.id) z.db.invoices) after ∙ recorded-find v i c expired,
        ap (λ z. load i.crypto_address z.pending_invoices) after
            ∙ ap (load i.crypto_address)
                (timeout_body-pending late w i entry f l paid.stored paid.free)
            ∙ load-delete_self i.crypto_address w.pending_invoices,
      )
