-- ===== src/Processor/Again.antt =====
-- A goroutine of `verifyTxOnNewBlock` (internal/processor/base.go) that runs after its invoice was
-- confirmed: `confirmCONFIRMED` looks for the address in the map of pending invoices, and not for the
-- entry that it was started with.
use goipay.Base.{◌≡◌, ◌≢◌, ap, sym, ◌∙◌, subst, String, some, none, [], List, ◌∷◌, ◌++◌, find}
use goipay.Coin.{InvoiceStatusType}
use goipay.Db.Models.{Invoice}
use goipay.Db.Session.{init_db_queries_with_tx}
use goipay.Db.Invoices.{has_id, set_confirmed}
use goipay.Listener.Tx.{SharedTx}
use goipay.SyncMap.{load}
use goipay.Processor.State.{
  PendingInvoice, World, Env, Coin, Task, Running, verify_block, release_address, broadcast,
}
use goipay.Processor.Confirm.{confirm_confirmed}
use goipay.Processor.Confirmed.{Due, due-session, confirm_confirmed-IsConfirmed}
use goipay.Processor.Create.{Generator}
use goipay.Processor.Lifecycle.{verify_block_body, start_running, no_session, committed, run_in_tx}
use goipay.Processor.Live.{committed-db, committed-tasks, committed-pending}
use goipay.Processor.Manager.{Kind}
use goipay.Processor.Steps.{Step, run_verify_block}

module _ {T : Type 0} where
  -- The goroutine's transaction, where the database is reached throughout.
  abbrev within : World T → Running T
  within w = start_running (no_session w.db) w

  verify_block_body-committed :
      (env : Env) (value : PendingInvoice) (w : World T)
      → env.faults ≡ []
      → verify_block_body env value w ≡ committed (confirm_confirmed env value (within w))
  unfolding verify_block_body init_db_queries_with_tx
  verify_block_body-committed env value w reached =
      ap (λ fs. run_in_tx (init_db_queries_with_tx fs w.db) w (confirm_confirmed env value)) reached

  -- The invoice of the entry is CONFIRMED already, and its transaction is still the daemon's; under
  -- its address the map holds another entry by now, whose invoice has the row `q`.
  pub record Reused (env : Env) (value p : PendingInvoice) (r q : Invoice) (w : World T)
      : Type 0 where
    pub h : String
    pub tx : SharedTx
    pub due : Due env value (within w) h tx r
    pub settled : r.status ≡ InvoiceStatusType.confirmed
    pub reached : env.faults ≡ []
    pub holds : load (w.cell value.invoice).crypto_address w.pending_invoices ≡ some p
    pub differs : (w.cell value.invoice).id ≢ (w.cell p.invoice).id
    pub mine : find (has_id (w.cell p.invoice).id) w.db.invoices ≡ some q

  -- The other entry is not in the map any more, its row is what it was, the confirmed row has a new
  -- time, and its address is released and its confirmation told again.
  pub record ConfirmsAgain (env : Env) (value p : PendingInvoice) (r q : Invoice) (w v : World T)
      : Type 0 where
    pub gone : load (w.cell value.invoice).crypto_address v.pending_invoices ≡ none
    pub kept : find (has_id (w.cell p.invoice).id) v.db.invoices ≡ some q
    pub again :
        find (has_id (w.cell value.invoice).id) v.db.invoices ≡ some (set_confirmed env.now r)
    pub told :
        v.tasks
        ≡ (w.tasks ++ release_address (w.cell value.invoice) ∷ [])
          ++ broadcast (set_confirmed env.now r) ∷ []

  verify_block_body-ConfirmsAgain :
      (env : Env) (value p : PendingInvoice) (r q : Invoice) (w : World T)
      → Reused env value p r q w
      → ConfirmsAgain env value p r q w (verify_block_body env value w)
  verify_block_body-ConfirmsAgain env value p r q w u =
      let st' = confirm_confirmed env value (within w) in
      let done = confirm_confirmed-IsConfirmed env value (within w) u.due in
      let alive = due-session env value (within w) u.due in
      let stored = committed-db st' done.ends alive.0 alive.1 in
      subst (ConfirmsAgain env value p r q w)
        (sym (verify_block_body-committed env value w u.reached))
        (record {
          gone =
              ap (load (w.cell value.invoice).crypto_address) (committed-pending st') ∙ done.taken;
          kept =
              ap (λ db. find (has_id (w.cell p.invoice).id) db.invoices) stored
              ∙ done.others (w.cell p.invoice).id u.differs
              ∙ u.mine;
          again =
              ap (λ db. find (has_id (w.cell value.invoice).id) db.invoices) stored
              ∙ done.confirmed;
          told = committed-tasks st' ∙ done.started;
        })

  -- An invoice may be confirmed twice, at the cost of another one: a goroutine of a block that was
  -- started for an invoice while it was pending, and that runs when the invoice is CONFIRMED already
  -- and its address is another invoice's, takes that other invoice's entry out of the map, although
  -- it is not paid and its row stays as it is; it writes and tells the confirmation once more, and
  -- starts the release of the address that the other invoice still needs.
  pub stale_block-ConfirmsAgain :
      (coin : Coin T) (kind : Kind) (gen : Generator) (env : Env) (value p : PendingInvoice)
      (r q : Invoice) (w : World T) (before after : List (Task T))
      → w.tasks ≡ before ++ verify_block value ∷ after
      → Reused env value p r q (record w { tasks = before ++ after })
      → (v : World T) × Step coin kind gen w v
        × ConfirmsAgain env value p r q (record w { tasks = before ++ after }) v
  stale_block-ConfirmsAgain coin kind gen env value p r q w before after started u = (
    verify_block_body env value (record w { tasks = before ++ after }),
    run_verify_block env value before after started,
    verify_block_body-ConfirmsAgain env value p r q (record w { tasks = before ++ after }) u,
  )
