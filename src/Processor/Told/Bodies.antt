-- ===== src/Processor/Told/Bodies.antt =====
-- The broadcasts that the goroutines of a coin's processor start, from their start to their end
-- (internal/processor/base.go).
use goipay.Base.{
  ◌≡◌, refl, subst, String, Option, none, some, List, [], ◌∷◌, ◌++◌, arith, if◌then◌else◌,
}
use goipay.Base.Float.{Float64}
use goipay.Error.{Result, ok, err}
use goipay.Db.Models.{Invoice}
use goipay.Db.Session.{Session, next_fault, begin-db}
use goipay.Db.Ledger.{evolved_trans}
use goipay.Db.Ledger.Queries.{Keeps}
use goipay.SyncMap.{SyncMap}
use goipay.Processor.State.{PendingInvoice, World, Env, Coin, Running, Task, spawn}
use goipay.Processor.Confirm.{confirm_confirmed}
use goipay.Processor.Lifecycle.{
  run_in_tx, verify_block_body, confirm_both, mempool_verified, mempool_begun, verify_mempool_body,
  start_running, timeout_body, committed, is_paid, no_session, release_address_helper, start_all,
}
use goipay.Processor.Ledger.{InLedger}
use goipay.Processor.Ledger.Steps.{begun, Grows}
use goipay.Processor.Linked.{asked, LinkedTo, Evolved-LinkedTo}
use goipay.Processor.Told.{
  Distinct, Evolved-Distinct, TaskTold, AllTold, append-All, All-split, mapped-All, mapped-OnTask,
}
use goipay.Processor.Told.Goroutines.{
  chosen-Told, expire_invoice-Told, confirm_confirmed-Told, confirm_both-Told,
}

module _ {T : Type 0} where
  committed_told :
      (rows : List Invoice) (st : Running T)
      → AllTold rows st.world.tasks
      → AllTold rows (committed st).tasks
  committed_told rows st t = subst (AllTold rows) same t
    where
      same : st.world.tasks ≡ (committed st).tasks
      same = ground arith

  module _ (env : Env) where
    run_in_tx_told :
        (o : Option Session) (value : PendingInvoice) (w : World T)
        → ((s : Session) → o ≡ some s → s.db ≡ w.db)
        → Distinct w.db.invoices
        → AllTold w.db.invoices w.tasks
        → AllTold w.db.invoices (run_in_tx o w (confirm_confirmed env value)).tasks
    run_in_tx_told none value w d distinct t = t
    run_in_tx_told (some s) value w d distinct t =
        committed_told w.db.invoices (confirm_confirmed env value (start_running s w)) (
          confirm_confirmed-Told w.db.invoices distinct env value (start_running s w)
            (begun s w (d s refl)) t)

    pub verify_block_body_told :
        (value : PendingInvoice) (w : World T)
        → Distinct w.db.invoices
        → AllTold w.db.invoices w.tasks
        → AllTold w.db.invoices (verify_block_body env value w).tasks
    unfolding verify_block_body
    verify_block_body_told value w distinct t =
        run_in_tx_told _ value w (λ s e. begin-db (next_fault env.faults) w.db s e) distinct t

    mempool_verified_told :
        (rows : List Invoice) (tx_id : String) (value : PendingInvoice) (i : Invoice)
        (r : Result Float64) (s : Session) (st : Running T)
        → Distinct rows
        → InLedger rows (record st { session = s })
        → AllTold rows st.world.tasks
        → AllTold rows (mempool_verified env tx_id value i (r, s) st).tasks
    mempool_verified_told rows tx_id value i (err e) s st distinct l t = t
    mempool_verified_told rows tx_id value i (ok amount) s st distinct l t =
        let st' = record st { session = s } in
        committed_told rows
          (if is_paid i amount then confirm_both env tx_id amount value st' else st')
          (chosen-Told rows distinct (is_paid i amount) (confirm_both env tx_id amount value st')
            st' (confirm_both-Told rows distinct env tx_id amount value st' l t) t)

    module _ (coin : Coin T)
        (coin-keeps : (i : Invoice) (t : T) → Keeps (coin.verify_tx_handler i t)) where
      mempool_begun_told :
          (value : PendingInvoice) (tx : T) (o : Option Session) (w : World T)
          → ((s : Session) → o ≡ some s → s.db ≡ w.db)
          → Distinct w.db.invoices
          → AllTold w.db.invoices w.tasks
          → AllTold w.db.invoices (mempool_begun coin env value tx o w).tasks
      mempool_begun_told value tx none w d distinct t = t
      mempool_begun_told value tx (some s) w d distinct t =
          let found = coin.verify_tx_handler (w.cell value.invoice) tx s in
          let l = begun s w (d s refl) in
          mempool_verified_told w.db.invoices (coin.shared tx).get_tx_id value
            (w.cell value.invoice) found.0 found.1 (start_running s w) distinct
            (record {
              committed = l.committed;
              seen =
                  evolved_trans w.db.invoices _ _ l.seen (coin-keeps (w.cell value.invoice) tx s);
            })
            t

      pub verify_mempool_body_told :
          (value : PendingInvoice) (tx : T) (w : World T)
          → Distinct w.db.invoices
          → AllTold w.db.invoices w.tasks
          → AllTold w.db.invoices (verify_mempool_body coin env value tx w).tasks
      unfolding verify_mempool_body
      verify_mempool_body_told value tx w distinct t =
          mempool_begun_told value tx _ w (λ s e. begin-db (next_fault env.faults) w.db s e)
            distinct t

    pub timeout_body_told :
        (invoice : Invoice) (w : World T)
        → Distinct w.db.invoices
        → AllTold w.db.invoices w.tasks
        → AllTold w.db.invoices (timeout_body env invoice w).tasks
    unfolding timeout_body
    timeout_body_told invoice w distinct t =
        expire_invoice-Told w.db.invoices distinct env invoice (start_running (no_session w.db) w)
          (begun (no_session w.db) w refl) t

    pub release_address_helper_tasks :
        (invoice : Invoice) (w : World T) → w.tasks ≡ (release_address_helper env invoice w).tasks
    unfolding release_address_helper
    release_address_helper_tasks invoice w = ground arith

  -- What a step leaves: the rows have ids of their own, what is being broadcast is linked to them, and
  -- so is what was linked before and satisfies the condition.
  pub record Tells (w v : World T) (Q : Invoice → Type 0) : Type 0 where
    pub distinct : Distinct v.db.invoices
    pub told : AllTold v.db.invoices v.tasks
    pub carries :
        (i : Invoice) → Q i → LinkedTo w.db.invoices (asked i) → LinkedTo v.db.invoices (asked i)

  pub grown_tells :
      (w v : World T)
      → Grows w v
      → AllTold w.db.invoices v.tasks
      → Distinct w.db.invoices
      → Tells w v (λ _. Unit)
  grown_tells w v x t d = record {
    distinct = Evolved-Distinct w.db.invoices v.db.invoices x d;
    told =
        mapped-All (TaskTold w.db.invoices) (TaskTold v.db.invoices) v.tasks
          (λ task h.
            mapped-OnTask (λ i. LinkedTo w.db.invoices (asked i)) _ task
              (λ i l. Evolved-LinkedTo w.db.invoices v.db.invoices (asked i) x l) h)
          t;
    carries = λ i q l. Evolved-LinkedTo w.db.invoices v.db.invoices (asked i) x l;
  }

  pub taken_off :
      (w : World T) (before after : List (Task T)) (t : Task T)
      → w.tasks ≡ before ++ t ∷ after
      → AllTold w.db.invoices w.tasks
      → AllTold w.db.invoices (before ++ after)
  taken_off w before after t e told =
      (All-split (TaskTold w.db.invoices) before after t (subst (AllTold w.db.invoices) e told)).1

  pub start_all_told :
      (rows : List Invoice) (task : PendingInvoice → Task T) (m : SyncMap PendingInvoice)
      (w : World T)
      → ((value : PendingInvoice) → TaskTold rows (task value))
      → AllTold rows w.tasks
      → AllTold rows (start_all task m w).tasks
  start_all_told rows task [] w f t = t
  start_all_told rows task ((a, value) ∷ m) w f t =
      start_all_told rows task m (spawn (task value) w) f
        (append-All (TaskTold rows) w.tasks (task value ∷ []) t (f value, tt))
