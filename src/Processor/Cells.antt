-- ===== src/Processor/Cells.antt =====
-- What the goroutines of internal/processor/base.go leave of the pointers to invoices.
use goipay.Base.{
  ℕ, ◌≡◌, refl, ◌∙◌, String, Bool, true, false, Option, none, some, List, [], ◌∷◌, arith, ltb,
  if◌then◌else◌,
}
use goipay.Base.Word.{i16_to_u64}
use goipay.Error.{Result, ok, err}
use goipay.Db.Models.{Invoice}
use goipay.Db.Session.{Session}
use goipay.Listener.Tx.{SharedTx}
use goipay.SyncMap.{SyncMap}
use goipay.Processor.State.{PendingInvoice, World, Env, Running}
use goipay.Processor.Confirm.{
  expire_found, expire_invoice, confirm_found, confirm_tx, confirm_txs, confirm_tx_id,
  confirm_confirmed,
}
use goipay.Processor.Lifecycle.{
  run_in_tx, verify_block_body, start_running, timeout_body, committed, no_session,
  release_address_helper,
}

module _ {T : Type 0} (env : Env) where
  chosen-cell :
      (b : Bool) (c : ℕ → Invoice) (s t : Running T)
      → s.world.cell ≡ c
      → t.world.cell ≡ c
      → (if b then s else t).world.cell ≡ c
  chosen-cell true c s t f g = f
  chosen-cell false c s t f g = g

  expire_found-cell :
      (invoice : Invoice) (o : Option PendingInvoice) (m : SyncMap PendingInvoice) (st : Running T)
      → (expire_found env invoice (o, m) st).world.cell ≡ st.world.cell
  expire_found-cell invoice none m st = refl
  expire_found-cell invoice (some p) m st = ground arith

  expire_invoice-cell :
      (invoice : Invoice) (st : Running T)
      → (expire_invoice env invoice st).world.cell ≡ st.world.cell
  unfolding expire_invoice
  expire_invoice-cell invoice st = expire_found-cell invoice _ _ st

  confirm_found-cell :
      (value : PendingInvoice) (invoice : Invoice) (o : Option PendingInvoice)
      (m : SyncMap PendingInvoice) (st : Running T)
      → (confirm_found env value invoice (o, m) st).world.cell ≡ st.world.cell
  confirm_found-cell value invoice none m st = refl
  confirm_found-cell value invoice (some p) m st = ground arith

  confirm_tx-cell :
      (value : PendingInvoice) (invoice : Invoice) (tx : SharedTx) (st : Running T)
      → (confirm_tx env value invoice tx st).world.cell ≡ st.world.cell
  unfolding confirm_confirmed
  confirm_tx-cell value invoice tx st =
      chosen-cell tx.is_double_spend_seen st.world.cell (expire_invoice env invoice st) _
        (expire_invoice-cell invoice st)
        (chosen-cell (ltb tx.get_confirmations (i16_to_u64 invoice.confirmations_required))
          st.world.cell st _ refl (confirm_found-cell value invoice _ _ st))

  confirm_txs-cell :
      (value : PendingInvoice) (invoice : Invoice) (r : Result (List SharedTx)) (st : Running T)
      → (confirm_txs env value invoice r st).world.cell ≡ st.world.cell
  confirm_txs-cell value invoice (err e) st = refl
  confirm_txs-cell value invoice (ok []) st = expire_invoice-cell invoice st
  confirm_txs-cell value invoice (ok (tx ∷ _)) st = confirm_tx-cell value invoice tx st

  confirm_tx_id-cell :
      (value : PendingInvoice) (invoice : Invoice) (o : Option String) (st : Running T)
      → (confirm_tx_id env value invoice o st).world.cell ≡ st.world.cell
  confirm_tx_id-cell value invoice none st = refl
  confirm_tx_id-cell value invoice (some h) st =
      confirm_txs-cell value invoice (env.get_transactions h) st

  pub confirm_confirmed-cell :
      (value : PendingInvoice) (st : Running T)
      → (confirm_confirmed env value st).world.cell ≡ st.world.cell
  unfolding confirm_confirmed
  confirm_confirmed-cell value st = confirm_tx_id-cell value _ _ st

  pub committed-cell : (st : Running T) → (committed st).cell ≡ st.world.cell
  committed-cell st = ground arith

  run_in_tx-cell :
      (o : Option Session) (value : PendingInvoice) (w : World T)
      → (run_in_tx o w (confirm_confirmed env value)).cell ≡ w.cell
  run_in_tx-cell none value w = refl
  run_in_tx-cell (some s) value w =
      committed-cell (confirm_confirmed env value (start_running s w))
      ∙ confirm_confirmed-cell value (start_running s w)

  pub verify_block_body-cell :
      (value : PendingInvoice) (w : World T) → (verify_block_body env value w).cell ≡ w.cell
  unfolding verify_block_body
  verify_block_body-cell value w = run_in_tx-cell _ value w

  pub timeout_body-cell :
      (invoice : Invoice) (w : World T) → (timeout_body env invoice w).cell ≡ w.cell
  unfolding timeout_body
  timeout_body-cell invoice w = expire_invoice-cell invoice (start_running (no_session w.db) w)

  pub release_address_helper-cell :
      (invoice : Invoice) (w : World T) → (release_address_helper env invoice w).cell ≡ w.cell
  unfolding release_address_helper
  release_address_helper-cell invoice w = ground arith
