-- ===== src/Processor/Told/Steps.antt =====
-- The broadcasts that a step of a coin's processor starts (internal/processor/base.go).
use goipay.Base.{
  ◌≡◌, refl, sym, subst, false, some, List, [], ◌∷◌, ◌++◌, exists, Bool-cases, Option-cases, inl,
  inr, All,
}
use goipay.Error.{Result, ok, err}
use goipay.Db.Models.{Uuid, eq_uuid, Invoice, Db}
use goipay.Db.Ledger.{evolved_refl}
use goipay.Db.Ledger.Queries.{Keeps}
use goipay.SyncMap.{load}
use goipay.Processor.State.{
  PendingInvoice, World, Coin, Task, spawn, broadcast, verify_mempool, verify_block,
  handle_invoice_helper,
}
use goipay.Processor.Create.{Generator, create_invoice}
use goipay.Processor.Lifecycle.{
  start_all, verify_tx_on_mempool, verify_tx_on_new_block, handle_invoice,
}
use goipay.Processor.Manager.{Kind, supports_coin, handle_invoice_pb_req, invoice_created}
use goipay.Processor.Ledger.Created.{GeneratorKeeps, Adds, create_invoice-Adds}
use goipay.Processor.Ledger.Steps.{
  verify_mempool_body-Grows, verify_block_body-Grows, timeout_body-Grows,
  release_address_helper-Grows, handle_invoice-db,
}
use goipay.Processor.Ledger.Reached.{start_all-Grows}
use goipay.Processor.Linked.{asked, LinkedTo, Adds-LinkedTo, new-LinkedTo}
use goipay.Processor.Linked.Reached.{IsFresh}
use goipay.Processor.Told.{
  Distinct, Adds-Distinct, OnTask, TaskTold, AllTold, append-All, carried-All, carried-OnTask,
}
use goipay.Processor.Steps.{
  Step, run_verify_mempool, run_verify_block, run_release_address, run_broadcast, run_timeout,
  run_cancelled, new_tx, new_block, new_invoice,
}
use goipay.Processor.Told.Bodies.{
  Tells, verify_block_body_told, verify_mempool_body_told, timeout_body_told,
  release_address_helper_tasks, grown_tells, taken_off, start_all_told,
}

-- An invoice under another id.
abbrev pub HasOtherId : Uuid → Invoice → Type 0
HasOtherId id i = eq_uuid i.id (some id) ≡ false

module _ {T : Type 0} where
  handle_invoice_told :
      (rows : List Invoice) (i : Invoice) (w : World T)
      → AllTold rows w.tasks
      → AllTold rows (handle_invoice i w).tasks
  unfolding handle_invoice
  handle_invoice_told rows i w t = elim (Option-cases (load i.crypto_address w.pending_invoices)) [
    | inl absent ↦
        rw absent
          (append-All (TaskTold rows) w.tasks (handle_invoice_helper w.next_cell i ∷ []) t (tt, tt))
    | inr (q, present) ↦ rw present t
  ]

  module _ (id : Uuid) where
    module _ (r : Result Invoice) (db : Db) (w : World T) (a : Adds id w.db.invoices r db.invoices)
        (unused : exists (λ q. eq_uuid q.id (some id)) w.db.invoices ≡ false)
        (d : Distinct w.db.invoices) where
      kept_told :
          All (OnTask (HasOtherId id)) w.tasks
          → AllTold w.db.invoices w.tasks
          → AllTold db.invoices w.tasks
      kept_told others t =
          carried-All (TaskTold w.db.invoices) (OnTask (HasOtherId id)) (TaskTold db.invoices)
            w.tasks
            (λ task o h.
              carried-OnTask (λ i. LinkedTo w.db.invoices (asked i)) (HasOtherId id)
                (λ i. LinkedTo db.invoices (asked i)) task
                (λ i other l. Adds-LinkedTo id w.db.invoices r db.invoices (asked i) a other l) o h)
            others t

      stored_tells :
          (v : World T) → v.db ≡ db → AllTold db.invoices v.tasks → Tells w v (HasOtherId id)
      stored_tells v e t = record {
        distinct =
            subst (λ x. Distinct x.invoices) (sym e)
              (Adds-Distinct id w.db.invoices r db.invoices a unused d);
        told = subst (λ x. AllTold x.invoices v.tasks) (sym e) t;
        carries = λ i other l.
            subst (λ x. LinkedTo x.invoices (asked i)) (sym e)
              (Adds-LinkedTo id w.db.invoices r db.invoices (asked i) a other l);
      }

    invoice_created_tells :
        (r : Result Invoice) (db : Db) (w : World T)
        → Adds id w.db.invoices r db.invoices
        → exists (λ q. eq_uuid q.id (some id)) w.db.invoices ≡ false
        → All (OnTask (HasOtherId id)) w.tasks
        → Distinct w.db.invoices
        → AllTold w.db.invoices w.tasks
        → Tells w (invoice_created (r, db) w).1 (HasOtherId id)
    invoice_created_tells (err e) db w a unused others d t =
        stored_tells (err e) db w a unused d _ refl (kept_told (err e) db w a unused d others t)
    invoice_created_tells (ok i) db w a unused others d t =
        let w1 = handle_invoice i (record w { db = db }) in
        stored_tells (ok i) db w a unused d (spawn (broadcast i) w1)
          (handle_invoice-db i (record w { db = db }))
          (append-All (TaskTold db.invoices) w1.tasks (broadcast i ∷ [])
            (handle_invoice_told db.invoices i (record w { db = db })
              (kept_told (ok i) db w a unused d others t))
            (new-LinkedTo id w.db.invoices i db.invoices a unused, tt))

  unchanged_tells :
      (w : World T) → Distinct w.db.invoices → AllTold w.db.invoices w.tasks → Tells w w (λ _. Unit)
  unchanged_tells w d t = record { distinct = d; told = t; carries = λ i q l. l }

  started_tells :
      (w : World T) (task : PendingInvoice → Task T)
      → ((value : PendingInvoice) → TaskTold w.db.invoices (task value))
      → Distinct w.db.invoices
      → AllTold w.db.invoices w.tasks
      → Tells w (start_all task w.pending_invoices w) (λ _. Unit)
  started_tells w task f d t =
      grown_tells w (start_all task w.pending_invoices w)
        (start_all-Grows task w.pending_invoices w)
        (start_all_told w.db.invoices task w.pending_invoices w f t) d

  module _ (coin : Coin T) (kind : Kind) (gen : Generator) where
    -- Not the invoice that the step makes.
    abbrev pub NotNew : {w v : World T} → Step coin kind gen w v → Invoice → Type 0
    NotNew (new_invoice env faults req) i = HasOtherId env.new_invoice_id i
    NotNew _ i = Unit

    module _ (coin-keeps : (i : Invoice) (t : T) → Keeps (coin.verify_tx_handler i t))
        (gen-keeps : GeneratorKeeps gen) where
      pub Step-Tells :
          (w v : World T) (step : Step coin kind gen w v)
          → IsFresh coin kind gen step
          → All (OnTask (NotNew step)) w.tasks
          → Distinct w.db.invoices
          → AllTold w.db.invoices w.tasks
          → Tells w v (NotNew step)
      unfolding verify_tx_on_mempool verify_tx_on_new_block handle_invoice_pb_req
      Step-Tells w v (run_verify_mempool env value tx before after e) f others d t =
          let w1 = record w { tasks = before ++ after } in
          grown_tells w v (verify_mempool_body-Grows env coin value tx w1 coin-keeps)
            (verify_mempool_body_told env coin coin-keeps value tx w1 d
              (taken_off w before after _ e t))
            d
      Step-Tells w v (run_verify_block env value before after e) f others d t =
          let w1 = record w { tasks = before ++ after } in
          grown_tells w v (verify_block_body-Grows env value w1)
            (verify_block_body_told env value w1 d (taken_off w before after _ e t)) d
      Step-Tells w v (run_release_address env invoice before after e) f others d t =
          let w1 = record w { tasks = before ++ after } in
          grown_tells w v (release_address_helper-Grows env invoice w1)
            (subst (AllTold w.db.invoices) (release_address_helper_tasks env invoice w1)
              (taken_off w before after _ e t))
            d
      Step-Tells w v (run_broadcast invoice before after e) f others d t =
          grown_tells w v (evolved_refl w.db.invoices) (taken_off w before after _ e t) d
      Step-Tells w v (run_timeout env c invoice before after e) f others d t =
          let w1 = record w { tasks = before ++ after } in
          grown_tells w v (timeout_body-Grows env invoice w1)
            (timeout_body_told env invoice w1 d (taken_off w before after _ e t)) d
      Step-Tells w v (run_cancelled c invoice before after e gone) f others d t =
          grown_tells w v (evolved_refl w.db.invoices) (taken_off w before after _ e t) d
      Step-Tells w v (new_tx tx) f others d t =
          elim (Bool-cases (coin.shared tx).is_double_spend_seen) [
            | inl rejected ↦ rw rejected (unchanged_tells w d t)
            | inr fine ↦ rw fine (started_tells w (λ value. verify_mempool value tx) (λ _. tt) d t)
          ]
      Step-Tells w v new_block f others d t = started_tells w verify_block (λ _. tt) d t
      Step-Tells w v (new_invoice env faults req) f others d t =
          elim (Bool-cases (supports_coin kind req.coin)) [
            | inl takes ↦
                let made = create_invoice env faults gen req w.db in
                rw takes (
                  invoice_created_tells env.new_invoice_id made.0 made.1 w
                    (create_invoice-Adds env gen gen-keeps faults req w.db) f.0 others d t)
            | inr leaves ↦ rw leaves (record { distinct = d; told = t; carries = λ i q l. l })
          ]
