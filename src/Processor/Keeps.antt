-- ===== src/Processor/Keeps.antt =====
-- What the goroutines of internal/processor/base.go leave of the map of pending invoices.
use goipay.Base.{
  ◌≡◌, refl, ap, sym, ◌∙◌, String, Bool, true, false, Option, none, some, List, [], ◌∷◌, arith,
  eq_iff, ltb, if◌then◌else◌,
}
use goipay.Base.Float.{Float64}
use goipay.Base.Word.{i16_to_u64}
use goipay.Error.{Result, ok, err}
use goipay.Db.Models.{Invoice}
use goipay.Db.Session.{Session}
use goipay.Listener.Tx.{SharedTx}
use goipay.SyncMap.{load, delete, load-delete}
use goipay.Processor.State.{PendingInvoice, World, Env, Coin, Running}
use goipay.Processor.Confirm.{
  expire_found, expire_invoice, confirm_found, confirm_tx, confirm_txs, confirm_tx_id,
  confirm_confirmed, confirm_pending_mempool,
}
use goipay.Processor.Lifecycle.{
  run_in_tx, verify_block_body, confirm_both, mempool_verified, mempool_begun, verify_mempool_body,
  start_running, timeout_body, then_run, committed, is_paid, no_session, release_address_helper,
}

module _ {T : Type 0} where
  -- Every entry of the map was there before, and no pointer was made.
  pub record Keeps (w v : World T) : Type 0 where
    pub entries :
        (addr : String) (p : PendingInvoice)
        → load addr v.pending_invoices ≡ some p
        → load addr w.pending_invoices ≡ some p
    pub pointers : v.next_cell ≡ w.next_cell

  pub stays :
      (w v : World T)
      → v.pending_invoices ≡ w.pending_invoices
      → v.next_cell ≡ w.next_cell
      → Keeps w v
  stays w v e n = record { entries = λ addr p h. sym (ap (load addr) e) ∙ h; pointers = n }

  deletes :
      (w v : World T) (k : String)
      → v.pending_invoices ≡ delete k w.pending_invoices
      → v.next_cell ≡ w.next_cell
      → Keeps w v
  deletes w v k e n = record {
    entries = λ addr p h.
        ground
          (arith, load-delete k addr w.pending_invoices, sym (ap (load addr) e) ∙ h, eq_iff k addr);
    pointers = n;
  }

  chosen-Keeps :
      (w : World T) (b : Bool) (s t : Running T)
      → Keeps w s.world
      → Keeps w t.world
      → Keeps w (if b then s else t).world
  chosen-Keeps w true s t f g = f
  chosen-Keeps w false s t f g = g

  pub both : (u w v : World T) → Keeps u w → Keeps w v → Keeps u v
  both u w v f g = record {
    entries = λ addr p h. f.entries addr p (g.entries addr p h);
    pointers = g.pointers ∙ f.pointers;
  }

  module _ (env : Env) where
    expire_found-Keeps :
        (invoice : Invoice) (o : Option PendingInvoice) (st : Running T)
        → Keeps st.world
            (expire_found env invoice
              (o, delete invoice.crypto_address st.world.pending_invoices)
              st).world
    expire_found-Keeps invoice none st = stays _ _ refl refl
    expire_found-Keeps invoice (some p) st =
        deletes _ _ invoice.crypto_address (ground arith) (ground arith)

    expire_invoice-Keeps :
        (invoice : Invoice) (st : Running T) → Keeps st.world (expire_invoice env invoice st).world
    unfolding expire_invoice
    expire_invoice-Keeps invoice st = expire_found-Keeps invoice _ st

    confirm_found-Keeps :
        (value : PendingInvoice) (invoice : Invoice) (o : Option PendingInvoice) (st : Running T)
        → Keeps st.world
            (confirm_found env value invoice
              (o, delete invoice.crypto_address st.world.pending_invoices)
              st).world
    confirm_found-Keeps value invoice none st = stays _ _ refl refl
    confirm_found-Keeps value invoice (some p) st =
        deletes _ _ invoice.crypto_address (ground arith) (ground arith)

    confirm_tx-Keeps :
        (value : PendingInvoice) (invoice : Invoice) (tx : SharedTx) (st : Running T)
        → Keeps st.world (confirm_tx env value invoice tx st).world
    unfolding confirm_confirmed
    confirm_tx-Keeps value invoice tx st =
        let few = ltb tx.get_confirmations (i16_to_u64 invoice.confirmations_required) in
        let settled =
          confirm_found env value invoice
            (
              load invoice.crypto_address st.world.pending_invoices,
              delete invoice.crypto_address st.world.pending_invoices,
            )
            st in
        chosen-Keeps st.world tx.is_double_spend_seen (expire_invoice env invoice st)
          (if few then st else settled) (expire_invoice-Keeps invoice st)
          (chosen-Keeps st.world few st settled (stays _ _ refl refl) (
            confirm_found-Keeps value invoice
              (load invoice.crypto_address st.world.pending_invoices) st))

    confirm_txs-Keeps :
        (value : PendingInvoice) (invoice : Invoice) (r : Result (List SharedTx)) (st : Running T)
        → Keeps st.world (confirm_txs env value invoice r st).world
    confirm_txs-Keeps value invoice (err e) st = stays _ _ refl refl
    confirm_txs-Keeps value invoice (ok []) st = expire_invoice-Keeps invoice st
    confirm_txs-Keeps value invoice (ok (tx ∷ _)) st = confirm_tx-Keeps value invoice tx st

    confirm_tx_id-Keeps :
        (value : PendingInvoice) (invoice : Invoice) (o : Option String) (st : Running T)
        → Keeps st.world (confirm_tx_id env value invoice o st).world
    confirm_tx_id-Keeps value invoice none st = stays _ _ refl refl
    confirm_tx_id-Keeps value invoice (some h) st =
        confirm_txs-Keeps value invoice (env.get_transactions h) st

    confirm_confirmed-Keeps :
        (value : PendingInvoice) (st : Running T)
        → Keeps st.world (confirm_confirmed env value st).world
    unfolding confirm_confirmed
    confirm_confirmed-Keeps value st = confirm_tx_id-Keeps value _ _ st

    confirm_pending_mempool-Keeps :
        (tx_id : String) (amount : Float64) (value : PendingInvoice) (st : Running T)
        → Keeps st.world (confirm_pending_mempool tx_id amount value st).world
    unfolding confirm_pending_mempool
    confirm_pending_mempool-Keeps tx_id amount value st = stays _ _ (ground arith) (ground arith)

    then_run-Keeps :
        (w : World T) (st : Running T) (k : Running T → Running T)
        → Keeps w st.world
        → ((s : Running T) → Keeps s.world (k s).world)
        → Keeps w (then_run st k).world
    then_run-Keeps w st k f g = ground (arith, f, both w st.world (k st).world f (g st))

    committed-Keeps : (w : World T) (st : Running T) → Keeps w st.world → Keeps w (committed st)
    committed-Keeps w st f =
        both w st.world (committed st) f (stays _ _ (ground arith) (ground arith))

    confirm_both-Keeps :
        (tx_id : String) (amount : Float64) (value : PendingInvoice) (st : Running T)
        → Keeps st.world (confirm_both env tx_id amount value st).world
    unfolding confirm_both
    confirm_both-Keeps tx_id amount value st =
        then_run-Keeps st.world (confirm_pending_mempool tx_id amount value st)
          (confirm_confirmed env value) (confirm_pending_mempool-Keeps tx_id amount value st)
          (λ s. confirm_confirmed-Keeps value s)

    run_in_tx-Keeps :
        (o : Option Session) (value : PendingInvoice) (w : World T)
        → Keeps w (run_in_tx o w (confirm_confirmed env value))
    run_in_tx-Keeps none value w = stays _ _ refl refl
    run_in_tx-Keeps (some s) value w =
        committed-Keeps w (confirm_confirmed env value (start_running s w))
          (confirm_confirmed-Keeps value (start_running s w))

    pub verify_block_body-Keeps :
        (value : PendingInvoice) (w : World T) → Keeps w (verify_block_body env value w)
    unfolding verify_block_body
    verify_block_body-Keeps value w = run_in_tx-Keeps _ value w

    mempool_verified-Keeps :
        (tx_id : String) (value : PendingInvoice) (i : Invoice) (r : Result Float64) (s : Session)
        (st : Running T)
        → Keeps st.world (mempool_verified env tx_id value i (r, s) st)
    mempool_verified-Keeps tx_id value i (err e) s st = stays _ _ refl refl
    mempool_verified-Keeps tx_id value i (ok amount) s st =
        let st' = record st { session = s } in
        committed-Keeps st.world
          (if is_paid i amount then confirm_both env tx_id amount value st' else st')
          (chosen-Keeps st.world (is_paid i amount) (confirm_both env tx_id amount value st') st'
            (confirm_both-Keeps tx_id amount value st') (stays _ _ refl refl))

    mempool_begun-Keeps :
        (coin : Coin T) (value : PendingInvoice) (tx : T) (o : Option Session) (w : World T)
        → Keeps w (mempool_begun coin env value tx o w)
    mempool_begun-Keeps coin value tx none w = stays _ _ refl refl
    mempool_begun-Keeps coin value tx (some s) w =
        mempool_verified-Keeps (coin.shared tx).get_tx_id value (w.cell value.invoice)
          (coin.verify_tx_handler (w.cell value.invoice) tx s).0
          (coin.verify_tx_handler (w.cell value.invoice) tx s).1 (start_running s w)

    pub verify_mempool_body-Keeps :
        (coin : Coin T) (value : PendingInvoice) (tx : T) (w : World T)
        → Keeps w (verify_mempool_body coin env value tx w)
    unfolding verify_mempool_body
    verify_mempool_body-Keeps coin value tx w = mempool_begun-Keeps coin value tx _ w

    pub timeout_body-Keeps :
        (invoice : Invoice) (w : World T) → Keeps w (timeout_body env invoice w)
    unfolding timeout_body
    timeout_body-Keeps invoice w = expire_invoice-Keeps invoice (start_running (no_session w.db) w)

    pub release_address_helper-Keeps :
        (invoice : Invoice) (w : World T) → Keeps w (release_address_helper env invoice w)
    unfolding release_address_helper
    release_address_helper-Keeps invoice w = stays _ _ (ground arith) (ground arith)
