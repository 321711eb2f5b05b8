-- ===== src/Processor/Ledger/Reached.antt =====
-- The ledger of invoices in every state that the processor of a coin reaches
-- (internal/processor/base.go).
use goipay.Base.{sym, subst, Bool, List, ◌++◌, Bool-cases, inl, inr, All}
use goipay.Error.{Result, ok, err}
use goipay.Db.Models.{Invoice, Db}
use goipay.Db.Ledger.{
  Fits, Evolved, evolved_refl, Evolved-Extends, Extends, extends_refl, extends_trans, extends_fit,
}
use goipay.Db.Ledger.Queries.{Keeps}
use goipay.SyncMap.{SyncMap}
use goipay.Processor.State.{PendingInvoice, World, Coin, Task, verify_mempool, verify_block}
use goipay.Processor.Create.{CreateEnv, Generator, NewInvoiceRequest, create_invoice}
use goipay.Processor.Lifecycle.{verify_tx_on_mempool, verify_tx_on_new_block, start_all}
use goipay.Processor.Manager.{Kind, supports_coin, handle_invoice_pb_req, invoice_created}
use goipay.Listener.Network.{NetworkType}
use goipay.Processor.SetUp.{kind_generator}
use goipay.Processor.Ledger.Handlers.{
  generate_next_btc_address_handler-Keeps, generate_next_ltc_address_handler-Keeps,
  generate_next_eth_address_handler-Keeps, generate_next_bnb_address_handler-Keeps,
  generate_next_xmr_address_handler-Keeps,
}
use goipay.Processor.Ledger.Created.{GeneratorKeeps, Adds-Extends, create_invoice-Adds}
use goipay.Processor.Ledger.Steps.{
  Grows, verify_mempool_body-Grows, verify_block_body-Grows, timeout_body-Grows,
  release_address_helper-Grows, start_all-db, handle_invoice-db,
}
use goipay.Processor.Steps.{
  Step, run_verify_mempool, run_verify_block, run_release_address, run_broadcast, run_timeout,
  run_cancelled, new_tx, new_block, new_invoice, Reaches, here, further,
}

-- The handlers that the processors are set up with keep to the ledger.
pub kind_generator-Keeps : (k : Kind) (net : NetworkType) → GeneratorKeeps (kind_generator k net)
kind_generator-Keeps Kind.xmr net = generate_next_xmr_address_handler-Keeps
kind_generator-Keeps Kind.btc net = generate_next_btc_address_handler-Keeps
kind_generator-Keeps Kind.ltc net = generate_next_ltc_address_handler-Keeps
kind_generator-Keeps Kind.eth net = generate_next_eth_address_handler-Keeps
kind_generator-Keeps Kind.bnb net = generate_next_bnb_address_handler-Keeps

module _ {T : Type 0} where
  abbrev ExtendsTo : World T → World T → Type 0
  ExtendsTo w v = Extends w.db.invoices v.db.invoices

  grown : (w v : World T) → Grows w v → ExtendsTo w v
  grown w v x = Evolved-Extends w.db.invoices v.db.invoices x

  pub start_all-Grows :
      (task : PendingInvoice → Task T) (m : SyncMap PendingInvoice) (w : World T)
      → Grows w (start_all task m w)
  start_all-Grows task m w =
      subst (λ db. Evolved w.db.invoices db.invoices) (sym (start_all-db task m w))
        (evolved_refl w.db.invoices)

  invoice_created-Extends :
      (r : Result Invoice) (db : Db) (w : World T)
      → Extends w.db.invoices db.invoices
      → ExtendsTo w (invoice_created (r, db) w).1
  invoice_created-Extends (err e) db w x = x
  invoice_created-Extends (ok i) db w x =
      subst (λ d. Extends w.db.invoices d.invoices)
        (sym (handle_invoice-db i (record w { db = db }))) x

  handle_invoice_pb_req-Extends :
      (kind : Kind) (env : CreateEnv) (faults : List Bool) (gen : Generator)
      (req : NewInvoiceRequest) (w : World T)
      → GeneratorKeeps gen
      → ExtendsTo w (handle_invoice_pb_req kind env faults gen req w).1
  unfolding handle_invoice_pb_req
  handle_invoice_pb_req-Extends kind env faults gen req w k =
      elim (Bool-cases (supports_coin kind req.coin)) [
        | inl takes ↦
            let made = create_invoice env faults gen req w.db in
            rw takes (
              invoice_created-Extends made.0 made.1 w (
                Adds-Extends env.new_invoice_id w.db.invoices made.0 made.1.invoices
                  (create_invoice-Adds env gen k faults req w.db)))
        | inr leaves ↦ rw leaves (extends_refl w.db.invoices)
      ]

  module _ (coin : Coin T) (kind : Kind) (gen : Generator)
      (coin-keeps : (i : Invoice) (t : T) → Keeps (coin.verify_tx_handler i t))
      (gen-keeps : GeneratorKeeps gen) where
    Step-Extends : (w v : World T) → Step coin kind gen w v → ExtendsTo w v
    unfolding verify_tx_on_mempool verify_tx_on_new_block
    Step-Extends w v (run_verify_mempool env value tx before after e) = grown w v (
        verify_mempool_body-Grows env coin value tx (record w { tasks = before ++ after })
          coin-keeps)
    Step-Extends w v (run_verify_block env value before after e) =
        grown w v (verify_block_body-Grows env value (record w { tasks = before ++ after }))
    Step-Extends w v (run_release_address env invoice before after e) =
        grown w v (release_address_helper-Grows env invoice (record w { tasks = before ++ after }))
    Step-Extends w v (run_broadcast invoice before after e) = extends_refl w.db.invoices
    Step-Extends w v (run_timeout env c invoice before after e) =
        grown w v (timeout_body-Grows env invoice (record w { tasks = before ++ after }))
    Step-Extends w v (run_cancelled c invoice before after e gone) = extends_refl w.db.invoices
    Step-Extends w v (new_tx tx) = elim (Bool-cases (coin.shared tx).is_double_spend_seen) [
      | inl rejected ↦ rw rejected (extends_refl w.db.invoices)
      | inr fine ↦ rw fine (
          grown w (start_all (λ value. verify_mempool value tx) w.pending_invoices w)
            (start_all-Grows (λ value. verify_mempool value tx) w.pending_invoices w))
    ]
    Step-Extends w v new_block = grown w v (start_all-Grows verify_block w.pending_invoices w)
    Step-Extends w v (new_invoice env faults req) =
        handle_invoice_pb_req-Extends kind env faults gen req w gen-keeps

-- The table of invoices is a ledger, in whatever order the started goroutines run and whatever the
-- daemon and the database answer: every row stands where it stood, with what the merchant asked for,
-- no invoice becomes PENDING again, new rows follow at the end, and where every row's columns fit its
-- status they still do. This holds of the processor of each coin, with a network and with the handler
-- for new addresses that it is set up with, where the handler that looks at transactions writes no
-- invoice.
pub Reaches-Extends :
    {T : Type 0} (coin : Coin T) (kind : Kind) (net : NetworkType)
    → ((i : Invoice) (t : T) → Keeps (coin.verify_tx_handler i t))
    → (w v : World T) → Reaches coin kind (kind_generator kind net) w v
    → Extends w.db.invoices v.db.invoices × (All Fits w.db.invoices → All Fits v.db.invoices)
Reaches-Extends coin kind net coin-keeps w v here = (extends_refl w.db.invoices, λ fit. fit)
Reaches-Extends coin kind net coin-keeps w v (further u _ s step) =
    let x = (Reaches-Extends coin kind net coin-keeps w u s).0 in
    let y = extends_trans w.db.invoices u.db.invoices v.db.invoices x (
      Step-Extends coin kind (kind_generator kind net) coin-keeps (kind_generator-Keeps kind net) u
        v step) in
    (y, extends_fit w.db.invoices v.db.invoices y)
