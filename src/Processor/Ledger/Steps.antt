-- ===== src/Processor/Ledger/Steps.antt =====
-- The ledger of invoices over every order of the goroutines of internal/processor/base.go.
use goipay.Base.{
  ◌≡◌, refl, sym, subst, String, Bool, true, false, Option, none, some, List, [], ◌∷◌, Bool-cases,
  Option-cases, inl, inr,
}
use goipay.Base.Float.{Float64}
use goipay.Error.{Result, ok, err}
use goipay.Db.Models.{Invoice, CryptoAddress, Db}
use goipay.Db.Session.{Session, query, next_fault, begin-db, commit_with}
use goipay.Db.Addresses.{update_is_occupied_by_crypto_address}
use goipay.Db.Ledger.{Evolved, evolved_refl, evolved_trans}
use goipay.Db.Ledger.Queries.{Keeps, query-Keeps, returning-Writes}
use goipay.SyncMap.{SyncMap, load}
use goipay.Processor.State.{PendingInvoice, World, Env, Coin, Running, Task, spawn}
use goipay.Processor.Confirm.{confirm_confirmed, confirm_pending_mempool}
use goipay.Processor.Lifecycle.{
  run_in_tx, verify_block_body, confirm_both, mempool_verified, mempool_begun, verify_mempool_body,
  start_running, timeout_body, committed, is_paid, no_session, release_address_helper, start_all,
  release_begun, released, handle_invoice,
}
use goipay.Processor.Ledger.{
  InLedger, chosen-InLedger, confirm_confirmed-InLedger, confirm_pending_mempool-InLedger,
  expire_invoice-InLedger,
}

pub commit_with-Evolved :
    (aborted failed : Bool) (rows : List Invoice) (before after : Db)
    → Evolved rows before.invoices
    → Evolved rows after.invoices
    → Evolved rows (commit_with aborted failed before after).invoices
commit_with-Evolved true _ rows before after x y = x
commit_with-Evolved false true rows before after x y = x
commit_with-Evolved false false rows before after x y = y

module _ {T : Type 0} where
  -- From the one state to the other, the table of invoices has extended.
  abbrev pub Grows : World T → World T → Type 0
  Grows w v = Evolved w.db.invoices v.db.invoices

  committed-Evolved :
      (rows : List Invoice) (st : Running T)
      → InLedger rows st
      → Evolved rows (committed st).db.invoices
  committed-Evolved rows st l = elim (Bool-cases st.hung) [
    | inl hung ↦ rw hung l.committed
    | inr done ↦ rw done (
        commit_with-Evolved st.session.aborted (next_fault st.session.faults).0 rows st.world.db
          st.session.db l.committed l.seen)
  ]

  -- The beginning of a goroutine's transaction.
  pub begun : (s : Session) (w : World T) → s.db ≡ w.db → InLedger w.db.invoices (start_running s w)
  begun s w d = record {
    committed = evolved_refl w.db.invoices;
    seen = subst (λ db. Evolved w.db.invoices db.invoices) (sym d) (evolved_refl w.db.invoices);
  }

  module _ (env : Env) where
    run_in_tx-Grows :
        (o : Option Session) (value : PendingInvoice) (w : World T)
        → ((s : Session) → o ≡ some s → s.db ≡ w.db)
        → Grows w (run_in_tx o w (confirm_confirmed env value))
    run_in_tx-Grows none value w d = evolved_refl w.db.invoices
    run_in_tx-Grows (some s) value w d =
        committed-Evolved w.db.invoices (confirm_confirmed env value (start_running s w)) (
          confirm_confirmed-InLedger w.db.invoices env value (start_running s w)
            (begun s w (d s refl)))

    pub verify_block_body-Grows :
        (value : PendingInvoice) (w : World T) → Grows w (verify_block_body env value w)
    unfolding verify_block_body
    verify_block_body-Grows value w =
        run_in_tx-Grows _ value w (λ s e. begin-db (next_fault env.faults) w.db s e)

    pub confirm_both-InLedger :
        (rows : List Invoice) (tx_id : String) (amount : Float64) (value : PendingInvoice)
        (st : Running T)
        → InLedger rows st
        → InLedger rows (confirm_both env tx_id amount value st)
    unfolding confirm_both
    confirm_both-InLedger rows tx_id amount value st l =
        let l' = confirm_pending_mempool-InLedger rows tx_id amount value st l in
        let st' = confirm_pending_mempool tx_id amount value st in
        chosen-InLedger rows st'.hung st' (confirm_confirmed env value st') l'
          (confirm_confirmed-InLedger rows env value st' l')

    mempool_verified-Evolved :
        (rows : List Invoice) (tx_id : String) (value : PendingInvoice) (i : Invoice)
        (r : Result Float64) (s : Session) (st : Running T)
        → InLedger rows (record st { session = s })
        → Evolved rows (mempool_verified env tx_id value i (r, s) st).db.invoices
    mempool_verified-Evolved rows tx_id value i (err e) s st l = l.committed
    mempool_verified-Evolved rows tx_id value i (ok amount) s st l =
        elim (Bool-cases (is_paid i amount)) [
          | inl paid ↦
              rw paid (committed-Evolved rows _ (confirm_both-InLedger rows tx_id amount value _ l))
          | inr unpaid ↦ rw unpaid (committed-Evolved rows (record st { session = s }) l)
        ]

    module _ (coin : Coin T) where
      mempool_begun-Grows :
          (value : PendingInvoice) (tx : T) (o : Option Session) (w : World T)
          → ((i : Invoice) (t : T) → Keeps (coin.verify_tx_handler i t))
          → ((s : Session) → o ≡ some s → s.db ≡ w.db)
          → Grows w (mempool_begun coin env value tx o w)
      mempool_begun-Grows value tx none w keeps d = evolved_refl w.db.invoices
      mempool_begun-Grows value tx (some s) w keeps d =
          let found = coin.verify_tx_handler (w.cell value.invoice) tx s in
          let l = begun s w (d s refl) in
          mempool_verified-Evolved w.db.invoices (coin.shared tx).get_tx_id value
            (w.cell value.invoice) found.0 found.1 (start_running s w)
            (record {
              committed = l.committed;
              seen = evolved_trans w.db.invoices _ _ l.seen (keeps (w.cell value.invoice) tx s);
            })

      pub verify_mempool_body-Grows :
          (value : PendingInvoice) (tx : T) (w : World T)
          → ((i : Invoice) (t : T) → Keeps (coin.verify_tx_handler i t))
          → Grows w (verify_mempool_body coin env value tx w)
      unfolding verify_mempool_body
      verify_mempool_body-Grows value tx w keeps =
          mempool_begun-Grows value tx _ w keeps (λ s e. begin-db (next_fault env.faults) w.db s e)

    pub timeout_body-Grows :
        (invoice : Invoice) (w : World T) → Grows w (timeout_body env invoice w)
    unfolding timeout_body
    timeout_body-Grows invoice w =
        (expire_invoice-InLedger w.db.invoices env invoice (start_running (no_session w.db) w)
          (begun (no_session w.db) w refl)).committed

  released-Grows :
      (r : Result CryptoAddress) (s : Session) (w : World T)
      → Evolved w.db.invoices s.db.invoices
      → Grows w (released (r, s) w)
  released-Grows (err e) s w x = evolved_refl w.db.invoices
  released-Grows (ok a) s w x =
      commit_with-Evolved s.aborted (next_fault s.faults).0 w.db.invoices w.db s.db
        (evolved_refl w.db.invoices) x

  release_begun-Grows :
      (invoice : Invoice) (o : Option Session) (w : World T)
      → ((s : Session) → o ≡ some s → s.db ≡ w.db)
      → Grows w (release_begun invoice o w)
  release_begun-Grows invoice none w d = evolved_refl w.db.invoices
  release_begun-Grows invoice (some s) w d =
      let f = update_is_occupied_by_crypto_address invoice.crypto_address false in
      released-Grows (query f s).0 (query f s).1 w (
        subst (λ db. Evolved db.invoices (query f s).1.db.invoices) (d s refl)
          (query-Keeps f (λ db. returning-Writes _ db _ (evolved_refl db.invoices)) s))

  pub release_address_helper-Grows :
      (env : Env) (invoice : Invoice) (w : World T) → Grows w (release_address_helper env invoice w)
  unfolding release_address_helper
  release_address_helper-Grows env invoice w =
      release_begun-Grows invoice _ w (λ s e. begin-db (next_fault env.faults) w.db s e)

  pub start_all-db :
      (task : PendingInvoice → Task T) (m : SyncMap PendingInvoice) (w : World T)
      → (start_all task m w).db ≡ w.db
  start_all-db task [] w = refl
  start_all-db task ((_, value) ∷ m) w = start_all-db task m (spawn (task value) w)

  pub handle_invoice-db : (i : Invoice) (w : World T) → (handle_invoice i w).db ≡ w.db
  unfolding handle_invoice
  handle_invoice-db i w = elim (Option-cases (load i.crypto_address w.pending_invoices)) [
    | inl absent ↦ rw absent refl
    | inr (q, present) ↦ rw present refl
  ]
