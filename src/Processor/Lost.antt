-- ===== src/Processor/Lost.antt =====
-- A confirmation whose commit fails: `verifyTxOnNewBlock` (internal/processor/base.go) does not look at
-- the error of `tx.Commit`, and `confirmCONFIRMED` has let go of the invoice by then.
use goipay.Base.{
  ◌≤◌, ◌≡◌, ap, ◌∙◌, String, Bool, true, false, none, some, List, [], ◌∷◌, ◌++◌, arith, find,
}
use goipay.Base.Word.{i16_to_u64}
use goipay.Error.{ok}
use goipay.Db.Models.{Invoice}
use goipay.Db.Session.{Session, init_db_queries_with_tx}
use goipay.Db.Invoices.{has_id, set_confirmed}
use goipay.Listener.Tx.{SharedTx}
use goipay.SyncMap.{load, delete, load-delete_self}
use goipay.Processor.State.{
  PendingInvoice, World, Env, Running, release_address, broadcast, holds_row,
}
use goipay.Processor.Confirm.{confirm_confirmed}
use goipay.Processor.Lifecycle.{verify_block_body, start_running, committed, run_in_tx}

module _ {T : Type 0} (w : World T) (env : Env) (p : PendingInvoice) where
  abbrev watched_invoice : Invoice
  watched_invoice = w.cell p.invoice

  -- The invoice is due, and every statement reaches the database, but the commit does not.
  pub record Unstored (r : Invoice) : Type 0 where
    pub h : String
    pub tx : SharedTx
    pub rest : List SharedTx
    pub entry : PendingInvoice
    pub later : List Bool
    pub has_tx : watched_invoice.tx_id ≡ some h
    pub answered : env.get_transactions h ≡ ok (tx ∷ rest)
    pub kept : tx.is_double_spend_seen ≡ false
    pub enough : i16_to_u64 watched_invoice.confirmations_required ≤ tx.get_confirmations
    pub is_pending : load watched_invoice.crypto_address w.pending_invoices ≡ some entry
    pub free : holds_row watched_invoice.id w.stuck_rows ≡ false
    pub stored : find (has_id watched_invoice.id) w.db.invoices ≡ some r
    pub unreached : env.faults ≡ false ∷ false ∷ true ∷ later

  abbrev session : List Bool → Session
  session later = record { db = w.db; aborted = false; faults = false ∷ true ∷ later }

  module _ {r : Invoice} (u : Unstored r) where
    abbrev st : Running T
    st = start_running (session u.later) w

    ended : verify_block_body env p w ≡ committed (confirm_confirmed env p st)
    unfolding verify_block_body init_db_queries_with_tx
    ended =
        ap (λ fs. run_in_tx (init_db_queries_with_tx fs w.db) w (confirm_confirmed env p))
          u.unreached

    kept_db : (committed (confirm_confirmed env p st)).db ≡ w.db
    unfolding confirm_confirmed
    kept_db = ground arith

    let_go :
        (committed (confirm_confirmed env p st)).pending_invoices
        ≡ delete watched_invoice.crypto_address w.pending_invoices
    unfolding confirm_confirmed
    let_go = ground arith

    timer_ended :
        (committed (confirm_confirmed env p st)).cancelled ≡ p.cancel_timeout ∷ w.cancelled
    unfolding confirm_confirmed
    timer_ended = ground arith

    told :
        (committed (confirm_confirmed env p st)).tasks
        ≡ (w.tasks ++ release_address watched_invoice ∷ [])
          ++ broadcast (set_confirmed env.now r) ∷ []
    unfolding confirm_confirmed
    told = ground arith

    -- A confirmation whose commit fails is told and lost: no table changes, but the readers are told
    -- that the invoice is CONFIRMED and its address is released, while the invoice is not watched any
    -- more, nor is its timer alive that would expire it.
    pub unstored_confirmation_lost :
        let v = verify_block_body env p w in
        (v.db ≡ w.db)
        × (load watched_invoice.crypto_address v.pending_invoices ≡ none)
        × (v.cancelled ≡ p.cancel_timeout ∷ w.cancelled)
        × (v.tasks
            ≡ (w.tasks ++ release_address watched_invoice ∷ [])
              ++ broadcast (set_confirmed env.now r) ∷ [])
    unstored_confirmation_lost = (
      ap (λ v. v.db) ended ∙ kept_db,
      ap (λ v. load watched_invoice.crypto_address v.pending_invoices) ended
          ∙ ap (load watched_invoice.crypto_address) let_go
          ∙ load-delete_self watched_invoice.crypto_address w.pending_invoices,
      ap (λ v. v.cancelled) ended ∙ timer_ended,
      ap (λ v. v.tasks) ended ∙ told,
    )
