-- ===== src/Processor/Paid.antt =====
-- A transaction that pays a pending invoice, in the goroutine of `verifyTxOnMempool`
-- (internal/processor/base.go).
use goipay.Base.{
  ◌<◌, ◌≡◌, refl, ap, sym, subst, ◌∙◌, true, false, none, some, List, [], ◌∷◌, arith, find, update,
  exists,
}
use goipay.Base.Word.{i16_to_u64}
use goipay.Base.Float.{Float64}
use goipay.Error.{Result, ok, err}
use goipay.Db.Models.{Invoice, Db}
use goipay.Db.Session.{Session, next_fault, begin_with}
use goipay.Db.Invoices.{has_id, set_mempool, MempoolParams, tx_id_taken}
use goipay.Db.InvoiceLaws.{find-satisfies}
use goipay.Listener.Tx.{SharedTx}
use goipay.SyncMap.{load, delete, load-delete_self}
use goipay.Processor.State.{
  PendingInvoice, World, Env, Running, Coin, broadcast, holds_row, store_cell, spawn,
}
use goipay.Processor.Confirm.{confirm_confirmed, confirm_pending_mempool, hang}
use goipay.Processor.Settled.{current, NotDue, no_answer, too_few, confirm_confirmed-NotDue}
use goipay.Processor.Lifecycle.{
  is_paid, verify_mempool_body, start_running, confirm_both, mempool_verified, mempool_begun,
  committed, then_run,
}

module _ {T : Type 0} (coin : Coin T) (env : Env) (value : PendingInvoice) (tx : T)
    (w : World T) where
  abbrev pub old : Invoice
  old = w.cell value.invoice

  abbrev pub arguments : Float64 → MempoolParams
  arguments amount = record {
    id = (w.cell value.invoice).id;
    actual_amount = some amount;
    tx_id = some (coin.shared tx).get_tx_id;
  }

  -- The transaction pays the invoice, whose row `r` the database holds and reaches; no other invoice
  -- has the transaction, and nobody holds the row.
  pub record Pays (amount : Float64) (r : Invoice) : Type 0 where
    pub reached : env.faults ≡ []
    pub found : (s : Session) → coin.verify_tx_handler (w.cell value.invoice) tx s ≡ (ok amount, s)
    pub enough : is_paid (w.cell value.invoice) amount ≡ true
    pub stored : find (has_id (w.cell value.invoice).id) w.db.invoices ≡ some r
    pub unique : exists (tx_id_taken (arguments amount)) w.db.invoices ≡ false
    pub free : holds_row (w.cell value.invoice).id w.stuck_rows ≡ false

  abbrev pub session : Session
  session = record { db = w.db; aborted = false; faults = [] }

  abbrev pub mempool_db : Float64 → Db
  mempool_db amount = record w.db {
    invoices =
        update (has_id (w.cell value.invoice).id) (set_mempool (arguments amount)) w.db.invoices;
  }

  -- The state between the two confirmations.
  abbrev pub recorded : Float64 → Invoice → Running T
  recorded amount r = record {
    session = record { db = mempool_db amount; aborted = false; faults = [] };
    own_rows = (w.cell value.invoice).id ∷ [];
    world =
        spawn (broadcast (set_mempool (arguments amount) r))
          (store_cell value.invoice (set_mempool (arguments amount) r) w);
    hung = false;
  }

  module _ {amount : Float64} {r : Invoice} (paid : Pays amount r) where
    confirm_pending_mempool-recorded :
        confirm_pending_mempool (coin.shared tx).get_tx_id amount value (start_running session w)
        ≡ recorded amount r
    unfolding confirm_pending_mempool
    confirm_pending_mempool-recorded = ground arith

    both-recorded :
        confirm_both env (coin.shared tx).get_tx_id amount value (start_running session w)
        ≡ confirm_confirmed env value (recorded amount r)
    unfolding confirm_both
    both-recorded =
        ap (λ st. then_run st (confirm_confirmed env value)) confirm_pending_mempool-recorded

    -- The goroutine is the confirmation in that state.
    verify_mempool_body-recorded :
        verify_mempool_body coin env value tx w
        ≡ committed (confirm_confirmed env value (recorded amount r))
    unfolding verify_mempool_body
    verify_mempool_body-recorded =
        ap (λ fs. mempool_begun coin env value tx (begin_with (next_fault fs) w.db) w) paid.reached
        ∙ ap
            (λ x.
              mempool_verified env (coin.shared tx).get_tx_id value (w.cell value.invoice) x
                (start_running session w))
            (paid.found session)
        ∙ rw (paid.enough) (ap committed both-recorded)

    current-recorded : current env value (recorded amount r) ≡ set_mempool (arguments amount) r
    current-recorded = ground arith

    -- What the daemon says of the transaction right after is that it has too few confirmations yet.
    abbrev pub Unconfirmed : Result (List SharedTx) → Type 0
    Unconfirmed (err e) = Unit
    Unconfirmed (ok []) = ⊥
    Unconfirmed (ok (t ∷ ts)) =
        (t.is_double_spend_seen ≡ false)
        × (t.get_confirmations < i16_to_u64 r.confirmations_required)

    NotDue-recorded :
        (a : Result (List SharedTx))
        → env.get_transactions (coin.shared tx).get_tx_id ≡ a
        → Unconfirmed a
        → NotDue env value (recorded amount r)
    NotDue-recorded (err e) h u =
        no_answer (coin.shared tx).get_tx_id e (ap (λ i. i.tx_id) current-recorded) h
    NotDue-recorded (ok []) h u = absurd u
    NotDue-recorded (ok (t ∷ ts)) h u =
        too_few (coin.shared tx).get_tx_id t ts (ap (λ i. i.tx_id) current-recorded) h u.0 (
          subst (λ n. t.get_confirmations < i16_to_u64 n)
            (sym (ap (λ i. i.confirmations_required) current-recorded)) u.1)

    -- Where the database is reached and takes it, a transaction that pays a PENDING invoice and has
    -- too few confirmations yet, or of which the daemon tells nothing, is recorded: the invoice's row becomes PENDING_MEMPOOL with the amount
    -- and the transaction, the pointer of the entry holds that row, the broadcast of the row is
    -- started, and the rest of the state stays.
    pub verify_mempool_body_records :
        Unconfirmed (env.get_transactions (coin.shared tx).get_tx_id)
        → verify_mempool_body coin env value tx w
          ≡ record (recorded amount r).world { db = mempool_db amount }
    verify_mempool_body_records u =
        verify_mempool_body-recorded
        ∙ ap committed (
            confirm_confirmed-NotDue env value (recorded amount r)
              (NotDue-recorded (env.get_transactions (coin.shared tx).get_tx_id) refl u))

    -- The daemon has dropped the transaction again, or rejects it.
    abbrev pub Dropped : Result (List SharedTx) → Type 0
    Dropped (err e) = ⊥
    Dropped (ok []) = Unit
    Dropped (ok (t ∷ ts)) = t.is_double_spend_seen ≡ true

    row_found : has_id (w.cell value.invoice).id r ≡ true
    row_found = find-satisfies (has_id (w.cell value.invoice).id) w.db.invoices paid.stored

    hang-Dropped :
        (entry : PendingInvoice) (a : Result (List SharedTx))
        → env.inner_faults ≡ []
        → load r.crypto_address w.pending_invoices ≡ some entry
        → env.get_transactions (coin.shared tx).get_tx_id ≡ a
        → Dropped a
        → confirm_confirmed env value (recorded amount r)
          ≡ hang (record (recorded amount r) {
            world = record (recorded amount r).world {
              pending_invoices = delete r.crypto_address w.pending_invoices;
            };
          })
    unfolding confirm_confirmed
    hang-Dropped entry (err e) f l h d = absurd d
    hang-Dropped entry (ok []) f l h d = ground (arith, row_found)
    hang-Dropped entry (ok (t ∷ ts)) f l h d = ground (arith, row_found)

    -- `expireInvoice` begins a transaction of its own and updates the row that the goroutine's
    -- transaction has just written: the update waits for that transaction, which ends only after
    -- the update. So where a transaction pays a pending invoice and the daemon has dropped it at the
    -- second look, the goroutine waits for ever: the address has left the map, nothing is committed,
    -- and the row stays locked.
    pub verify_mempool_body_hangs :
        (entry : PendingInvoice)
        → env.inner_faults ≡ []
        → load r.crypto_address w.pending_invoices ≡ some entry
        → Dropped (env.get_transactions (coin.shared tx).get_tx_id)
        → let w' = verify_mempool_body coin env value tx w in
          (w'.db ≡ w.db)
          × (w'.stuck_rows ≡ (w.cell value.invoice).id ∷ w.stuck_rows)
          × (load r.crypto_address w'.pending_invoices ≡ none)
    verify_mempool_body_hangs entry f l d =
        let e =
          verify_mempool_body-recorded
          ∙ ap committed
              (hang-Dropped entry (env.get_transactions (coin.shared tx).get_tx_id) f l refl d) in
        (
          ap (λ v. v.db) e,
          ap (λ v. v.stuck_rows) e,
          ap (λ v. load r.crypto_address v.pending_invoices) e
              ∙ load-delete_self r.crypto_address w.pending_invoices,
        )
