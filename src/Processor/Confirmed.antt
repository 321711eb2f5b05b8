-- ===== src/Processor/Confirmed.antt =====
-- What `confirmCONFIRMED` does to an invoice that is due.
use goipay.Base.{
  ◌≤◌, ◌≡◌, ◌≢◌, refl, ap, ◌∙◌, String, false, none, some, List, [], ◌∷◌, ◌++◌, arith, find, update,
}
use goipay.Base.Word.{i16_to_u64}
use goipay.Error.{ok}
use goipay.Db.Models.{PgUuid, Invoice}
use goipay.Db.Statements.{map_row}
use goipay.Db.Invoices.{has_id, set_confirmed}
use goipay.Db.InvoiceLaws.{find-update_self, find-update_other, has_id_apart}
use goipay.Listener.Tx.{SharedTx}
use goipay.SyncMap.{load, delete, load-delete_self}
use goipay.Processor.State.{PendingInvoice, Env, Running, release_address, broadcast, holds_row}
use goipay.Processor.Confirm.{confirm_confirmed}

module _ {T : Type 0} (env : Env) (value : PendingInvoice) (st : Running T) where
  -- The invoice has a transaction that the daemon knows and has not rejected, with the confirmations
  -- that the invoice requires; it is pending; and the database is reached and holds its row `r`.
  pub record Due (h : String) (tx : SharedTx) (r : Invoice) : Type 0 where
    pub rest : List SharedTx
    pub entry : PendingInvoice
    pub has_tx : (st.world.cell value.invoice).tx_id ≡ some h
    pub answered : env.get_transactions h ≡ ok (tx ∷ rest)
    pub kept : tx.is_double_spend_seen ≡ false
    pub enough :
        i16_to_u64 (st.world.cell value.invoice).confirmations_required ≤ tx.get_confirmations
    pub is_pending :
        load (st.world.cell value.invoice).crypto_address st.world.pending_invoices ≡ some entry
    pub live : st.session.aborted ≡ false
    pub reached : st.session.faults ≡ []
    pub free : holds_row (st.world.cell value.invoice).id st.world.stuck_rows ≡ false
    pub stored : find (has_id (st.world.cell value.invoice).id) st.session.db.invoices ≡ some r

  -- The outcome: the invoice's row is confirmed and no other row is written, the address is not
  -- pending any more, the timer is cancelled, and two goroutines are started.
  pub record IsConfirmed (r : Invoice) (st' : Running T) : Type 0 where
    pub confirmed :
        find (has_id (st.world.cell value.invoice).id) st'.session.db.invoices
        ≡ some (set_confirmed env.now r)
    pub others :
        (j : PgUuid)
        → (st.world.cell value.invoice).id ≢ j
        → find (has_id j) st'.session.db.invoices ≡ find (has_id j) st.session.db.invoices
    pub taken : load (st.world.cell value.invoice).crypto_address st'.world.pending_invoices ≡ none
    pub timer : st'.world.cancelled ≡ value.cancel_timeout ∷ st.world.cancelled
    pub started :
        st'.world.tasks
        ≡ (st.world.tasks ++ release_address (st.world.cell value.invoice) ∷ [])
          ++ broadcast (set_confirmed env.now r) ∷ []
    pub ends : st'.hung ≡ st.hung

  module _ {h : String} {tx : SharedTx} {r : Invoice} (due : Due h tx r) where
    -- The tables in the transaction afterwards.
    due-invoices :
        (confirm_confirmed env value st).session.db.invoices
        ≡ update
            (has_id (st.world.cell value.invoice).id)
            (set_confirmed env.now)
            st.session.db.invoices
    unfolding confirm_confirmed
    due-invoices = ground arith

    due-tasks :
        (confirm_confirmed env value st).world.tasks
        ≡ (st.world.tasks ++ release_address (st.world.cell value.invoice) ∷ [])
          ++ broadcast (set_confirmed env.now r) ∷ []
    unfolding confirm_confirmed
    due-tasks = ground arith

    due-timer :
        (confirm_confirmed env value st).world.cancelled ≡ value.cancel_timeout ∷ st.world.cancelled
    unfolding confirm_confirmed
    due-timer = ground arith

    due-pending :
        (confirm_confirmed env value st).world.pending_invoices
        ≡ delete (st.world.cell value.invoice).crypto_address st.world.pending_invoices
    unfolding confirm_confirmed
    due-pending = ground arith

    -- The transaction goes on, and nothing keeps it from its commit.
    pub due-session :
        ((confirm_confirmed env value st).session.aborted ≡ false)
        × ((confirm_confirmed env value st).session.faults ≡ [])
    unfolding confirm_confirmed
    due-session = (ground arith, ground arith)

    due-hung : (confirm_confirmed env value st).hung ≡ st.hung
    unfolding confirm_confirmed
    due-hung = ground arith

    -- An invoice that is due is confirmed: its row, and no other, becomes CONFIRMED with the time of
    -- the confirmation, its address leaves the map, its timer is cancelled, and the release of its
    -- address and the broadcast of the confirmed row are started.
    pub confirm_confirmed-IsConfirmed : IsConfirmed r (confirm_confirmed env value st)
    confirm_confirmed-IsConfirmed = record {
      confirmed =
          ap (find (has_id (st.world.cell value.invoice).id)) due-invoices
          ∙ find-update_self (has_id (st.world.cell value.invoice).id) (set_confirmed env.now)
              st.session.db.invoices (λ a. refl)
          ∙ ap (map_row (set_confirmed env.now)) due.stored;
      others = λ j ne.
          ap (find (has_id j)) due-invoices
          ∙ find-update_other (has_id (st.world.cell value.invoice).id) (has_id j)
              (set_confirmed env.now) st.session.db.invoices
              (λ a hit. (has_id_apart _ j a ne hit, has_id_apart _ j a ne hit));
      taken =
          ap (load (st.world.cell value.invoice).crypto_address) due-pending
          ∙ load-delete_self (st.world.cell value.invoice).crypto_address st.world.pending_invoices;
      timer = due-timer;
      started = due-tasks;
      ends = due-hung;
    }
