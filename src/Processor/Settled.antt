-- ===== src/Processor/Settled.antt =====
-- When `confirmCONFIRMED` and `expireInvoice` of internal/processor/base.go settle an invoice.
use goipay.Base.{
  ◌<◌, ◌≡◌, ◌⊎◌, refl, ap, ◌∙◌, inl, inr, String, false, Option, none, some, List, [], ◌∷◌, arith,
}
use goipay.Base.Word.{i16_to_u64}
use goipay.Error.{Error, Result, ok, err}
use goipay.Db.Models.{Invoice}
use goipay.Listener.Tx.{SharedTx}
use goipay.SyncMap.{SyncMap, load, delete, load-delete_self}
use goipay.Processor.State.{PendingInvoice, Env, Running}
use goipay.Processor.Confirm.{
  expire_found, expire_invoice, confirm_found, confirm_tx, confirm_txs, confirm_tx_id,
  confirm_confirmed,
}

module _ {T : Type 0} (env : Env) where
  abbrev pub current : PendingInvoice → Running T → Invoice
  current value st = st.world.cell value.invoice

  -- Why an invoice is not settled: it has no transaction yet, the daemon does not answer, the
  -- transaction has too few confirmations, or the address has left the map of pending invoices.
  pub data NotDue (value : PendingInvoice) (st : Running T) : Type 0 where
    no_tx : (current value st).tx_id ≡ none → NotDue value st
    no_answer :
        (h : String) (e : Error)
        → (current value st).tx_id ≡ some h
        → env.get_transactions h ≡ err e
        → NotDue value st
    too_few :
        (h : String) (tx : SharedTx) (txs : List SharedTx)
        → (current value st).tx_id ≡ some h
        → env.get_transactions h ≡ ok (tx ∷ txs)
        → tx.is_double_spend_seen ≡ false
        → tx.get_confirmations < i16_to_u64 (current value st).confirmations_required
        → NotDue value st
    not_pending :
        load (current value st).crypto_address st.world.pending_invoices ≡ none → NotDue value st

  -- An invoice whose address is not in the map of pending invoices is not expired: the call changes
  -- nothing.
  expire_invoice_not_pending :
      (invoice : Invoice) (st : Running T)
      → load invoice.crypto_address st.world.pending_invoices ≡ none
      → expire_invoice env invoice st ≡ st
  unfolding expire_invoice
  expire_invoice_not_pending invoice st h = ground arith

  -- While an invoice is not due, `confirmCONFIRMED` changes nothing: no table, no entry of the map,
  -- no timer, and no goroutine is started.
  pub confirm_confirmed-NotDue :
      (value : PendingInvoice) (st : Running T)
      → NotDue value st
      → confirm_confirmed env value st ≡ st
  unfolding confirm_confirmed
  confirm_confirmed-NotDue value st (no_tx e) = ground arith
  confirm_confirmed-NotDue value st (no_answer h x e f) = ground arith
  confirm_confirmed-NotDue value st (too_few h tx txs e f d c) = ground arith
  confirm_confirmed-NotDue value st (not_pending e) = ground arith

  -- Nothing is done, or the address has left the map of pending invoices.
  abbrev pub Takes : String → Running T → Running T → Type 0
  Takes addr st st' = (st' ≡ st) ⊎ (load addr st'.world.pending_invoices ≡ none)

  expire_found-pending :
      (invoice : Invoice) (p : PendingInvoice) (m : SyncMap PendingInvoice) (st : Running T)
      → (expire_found env invoice (some p, m) st).world.pending_invoices ≡ m
  expire_found-pending invoice p m st = ground arith

  expire_found-Takes :
      (invoice : Invoice) (addr : String) (o : Option PendingInvoice) (m : SyncMap PendingInvoice)
      (st : Running T)
      → load addr m ≡ none
      → Takes addr st (expire_found env invoice (o, m) st)
  expire_found-Takes invoice addr none m st h = inl refl
  expire_found-Takes invoice addr (some p) m st h =
      inr (ap (load addr) (expire_found-pending invoice p m st) ∙ h)

  confirm_found-pending :
      (value : PendingInvoice) (invoice : Invoice) (p : PendingInvoice) (m : SyncMap PendingInvoice)
      (st : Running T)
      → (confirm_found env value invoice (some p, m) st).world.pending_invoices ≡ m
  confirm_found-pending value invoice p m st = ground arith

  confirm_found-Takes :
      (value : PendingInvoice) (invoice : Invoice) (addr : String) (o : Option PendingInvoice)
      (m : SyncMap PendingInvoice) (st : Running T)
      → load addr m ≡ none
      → Takes addr st (confirm_found env value invoice (o, m) st)
  confirm_found-Takes value invoice addr none m st h = inl refl
  confirm_found-Takes value invoice addr (some p) m st h =
      inr (ap (load addr) (confirm_found-pending value invoice p m st) ∙ h)

  -- `expireInvoice` leaves everything as it is, or takes the address out of the map.
  pub expire_invoice-Takes :
      (invoice : Invoice) (st : Running T)
      → Takes invoice.crypto_address st (expire_invoice env invoice st)
  unfolding expire_invoice
  expire_invoice-Takes invoice st =
      expire_found-Takes invoice invoice.crypto_address _ _ st
        (load-delete_self invoice.crypto_address st.world.pending_invoices)

  confirm_tx-Takes :
      (value : PendingInvoice) (invoice : Invoice) (tx : SharedTx) (st : Running T)
      → Takes invoice.crypto_address st (confirm_tx env value invoice tx st)
  unfolding confirm_confirmed
  confirm_tx-Takes value invoice tx st = ground (
    arith,
    expire_invoice-Takes invoice st,
    confirm_found-Takes value invoice invoice.crypto_address
        (load invoice.crypto_address st.world.pending_invoices)
        (delete invoice.crypto_address st.world.pending_invoices) st
        (load-delete_self invoice.crypto_address st.world.pending_invoices),
  )

  confirm_txs-Takes :
      (value : PendingInvoice) (invoice : Invoice) (r : Result (List SharedTx)) (st : Running T)
      → Takes invoice.crypto_address st (confirm_txs env value invoice r st)
  confirm_txs-Takes value invoice (err e) st = inl refl
  confirm_txs-Takes value invoice (ok []) st = expire_invoice-Takes invoice st
  confirm_txs-Takes value invoice (ok (tx ∷ _)) st = confirm_tx-Takes value invoice tx st

  confirm_tx_id-Takes :
      (value : PendingInvoice) (invoice : Invoice) (o : Option String) (st : Running T)
      → Takes invoice.crypto_address st (confirm_tx_id env value invoice o st)
  confirm_tx_id-Takes value invoice none st = inl refl
  confirm_tx_id-Takes value invoice (some h) st =
      confirm_txs-Takes value invoice (env.get_transactions h) st

  -- `confirmCONFIRMED` leaves everything as it is, or takes the address out of the map.
  pub confirm_confirmed-Takes :
      (value : PendingInvoice) (st : Running T)
      → Takes (current value st).crypto_address st (confirm_confirmed env value st)
  unfolding confirm_confirmed
  confirm_confirmed-Takes value st =
      confirm_tx_id-Takes value (current value st) (current value st).tx_id st

-- A run of `confirmCONFIRMED` that changes anything settles the entry: from then on, in whatever else
-- the state has changed, every run for the entry changes nothing, as long as nothing has been put
-- under the invoice's address in the map of pending invoices since, and the invoice behind the entry
-- has kept its address.
pub confirm_confirmed_once :
    {T : Type 0} (env later : Env) (value : PendingInvoice) (st st2 : Running T)
    → (st2.world.cell value.invoice).crypto_address ≡ (st.world.cell value.invoice).crypto_address
    → load (st.world.cell value.invoice).crypto_address st2.world.pending_invoices
      ≡ load
          (st.world.cell value.invoice).crypto_address
          (confirm_confirmed env value st).world.pending_invoices
    → (confirm_confirmed env value st ≡ st) ⊎ (confirm_confirmed later value st2 ≡ st2)
confirm_confirmed_once env later value st st2 address unused =
    elim (confirm_confirmed-Takes env value st) [
      | inl same ↦ inl same
      | inr gone ↦ inr (
          confirm_confirmed-NotDue later value st2
            (not_pending (ap (λ a. load a st2.world.pending_invoices) address ∙ unused ∙ gone)))
    ]
