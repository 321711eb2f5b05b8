-- ===== src/Processor/Linked/Reached.antt =====
-- The pointers, the pending map and the table in every state that the processor reaches
-- (internal/processor/base.go).
use goipay.Base.{
  ℕ, ◌≡◌, refl, ap, Bool, false, some, List, [], ◌∷◌, ◌++◌, arith, exists, ◌==◌, eq_iff, Bool-cases,
  Option-cases, inl, inr,
}
use goipay.Error.{Result, ok, err}
use goipay.Db.Models.{Uuid, eq_uuid, Invoice, Db}
use goipay.Db.Ledger.{evolved_refl}
use goipay.Db.Ledger.Queries.{Keeps as Spares}
use goipay.SyncMap.{SyncMap, load}
use goipay.Processor.State.{
  PendingInvoice, World, Coin, Task, spawn, verify_mempool, verify_block, broadcast,
}
use goipay.Processor.Create.{CreateEnv, Generator, NewInvoiceRequest, create_invoice}
use goipay.Processor.Lifecycle.{
  verify_tx_on_mempool, verify_tx_on_new_block, handle_invoice, start_all, watch,
}
use goipay.Processor.Manager.{Kind, supports_coin, handle_invoice_pb_req, invoice_created}
use goipay.Processor.Keeps.{
  Keeps, stays, verify_mempool_body-Keeps, verify_block_body-Keeps, timeout_body-Keeps,
  release_address_helper-Keeps,
}
use goipay.Processor.Cells.{verify_block_body-cell, timeout_body-cell, release_address_helper-cell}
use goipay.Processor.Watching.{load-watch}
use goipay.Processor.Owned.{watch-IsOwned}
use goipay.Processor.Ledger.Created.{GeneratorKeeps, Adds, create_invoice-Adds}
use goipay.Processor.Ledger.Steps.{
  Grows, verify_mempool_body-Grows, verify_block_body-Grows, timeout_body-Grows,
  release_address_helper-Grows,
}
use goipay.Processor.Ledger.Reached.{kind_generator-Keeps}
use goipay.Listener.Network.{NetworkType}
use goipay.Processor.SetUp.{kind_generator}
use goipay.Processor.Linked.{asked, LinkedTo, Adds-LinkedTo, new-LinkedTo, IsLinked, Keeps-IsLinked}
use goipay.Processor.Linked.Pointers.{verify_mempool_body-asked}
use goipay.Processor.Steps.{
  Step, run_verify_mempool, run_verify_block, run_release_address, run_broadcast, run_timeout,
  run_cancelled, new_tx, new_block, new_invoice, Reaches, here, further,
}

module _ {T : Type 0} where
  -- No row and no pointer has the UUID yet.
  abbrev pub IsUnused : Uuid → World T → Type 0
  IsUnused id w =
      (exists (λ r. eq_uuid r.id (some id)) w.db.invoices ≡ false)
      × ((p : ℕ) → eq_uuid (w.cell p).id (some id) ≡ false)

  watch-IsLinked :
      (i : Invoice) (w : World T)
      → LinkedTo w.db.invoices (asked i)
      → IsLinked w
      → IsLinked (watch i w)
  watch-IsLinked i w li l = record {
    owned = watch-IsOwned i w l.owned;
    rows = λ p. elim (Bool-cases (p == w.next_cell)) [
      | inl new ↦ rw new li
      | inr old ↦ rw old (l.rows p)
    ];
    keyed = λ addr p h. ground (
      arith,
      load-watch i addr w,
      eq_iff i.crypto_address addr,
      l.keyed addr p,
      l.owned.fresh addr p,
    );
  }

  handle_invoice-IsLinked :
      (i : Invoice) (w : World T)
      → LinkedTo w.db.invoices (asked i)
      → IsLinked w
      → IsLinked (handle_invoice i w)
  unfolding handle_invoice
  handle_invoice-IsLinked i w li l =
      elim (Option-cases (load i.crypto_address w.pending_invoices)) [
        | inl absent ↦ rw absent (watch-IsLinked i w li l)
        | inr (q, present) ↦ rw present l
      ]

module _ {T : Type 0} where
  stored-IsLinked :
      (id : Uuid) (r : Result Invoice) (db : Db) (w : World T)
      → Adds id w.db.invoices r db.invoices
      → IsUnused id w
      → IsLinked w
      → IsLinked (record w { db = db })
  stored-IsLinked id r db w a unused l = record {
    owned = record { fresh = l.owned.fresh; apart = l.owned.apart };
    rows = λ p.
        Adds-LinkedTo id w.db.invoices r db.invoices (asked (w.cell p)) a (unused.1 p) (l.rows p);
    keyed = l.keyed;
  }

  spawn-IsLinked : (t : Task T) (w : World T) → IsLinked w → IsLinked (spawn t w)
  spawn-IsLinked t w l =
      Keeps-IsLinked w (spawn t w) (stays _ _ refl refl) (evolved_refl w.db.invoices) (λ p. refl) l

  invoice_created-IsLinked :
      (id : Uuid) (r : Result Invoice) (db : Db) (w : World T)
      → Adds id w.db.invoices r db.invoices
      → IsUnused id w
      → IsLinked w
      → IsLinked (invoice_created (r, db) w).1
  invoice_created-IsLinked id (err e) db w a unused l = stored-IsLinked id (err e) db w a unused l
  invoice_created-IsLinked id (ok i) db w a unused l =
      spawn-IsLinked (broadcast i) (handle_invoice i (record w { db = db })) (
        handle_invoice-IsLinked i (record w { db = db })
          (new-LinkedTo id w.db.invoices i db.invoices a unused.0)
          (stored-IsLinked id (ok i) db w a unused l))

  handle_invoice_pb_req-IsLinked :
      (kind : Kind) (env : CreateEnv) (faults : List Bool) (gen : Generator)
      (req : NewInvoiceRequest) (w : World T)
      → GeneratorKeeps gen
      → IsUnused env.new_invoice_id w
      → IsLinked w
      → IsLinked (handle_invoice_pb_req kind env faults gen req w).1
  unfolding handle_invoice_pb_req
  handle_invoice_pb_req-IsLinked kind env faults gen req w k unused l =
      elim (Bool-cases (supports_coin kind req.coin)) [
        | inl takes ↦
            let made = create_invoice env faults gen req w.db in
            rw takes (
              invoice_created-IsLinked env.new_invoice_id made.0 made.1 w
                (create_invoice-Adds env gen k faults req w.db) unused l)
        | inr leaves ↦ rw leaves l
      ]

  start_all-IsLinked :
      (task : PendingInvoice → Task T) (m : SyncMap PendingInvoice) (w : World T)
      → IsLinked w
      → IsLinked (start_all task m w)
  start_all-IsLinked task [] w l = l
  start_all-IsLinked task ((a, value) ∷ m) w l =
      start_all-IsLinked task m (spawn (task value) w) (spawn-IsLinked (task value) w l)

  without_tasks :
      (w : World T) (ts : List (Task T)) → IsLinked w → IsLinked (record w { tasks = ts })
  without_tasks w ts l =
      Keeps-IsLinked w (record w { tasks = ts }) (stays _ _ refl refl) (evolved_refl w.db.invoices)
        (λ p. refl) l

  -- A goroutine that is taken off the list, and leaves the pointers.
  run-IsLinked :
      (w v : World T) (ts : List (Task T))
      → Keeps (record w { tasks = ts }) v
      → Grows (record w { tasks = ts }) v
      → v.cell ≡ w.cell
      → IsLinked w
      → IsLinked v
  run-IsLinked w v ts k x same l =
      Keeps-IsLinked (record w { tasks = ts }) v k x (λ p. ap (λ c. asked (c p)) same)
        (without_tasks w ts l)

  module _ (coin : Coin T) (kind : Kind) (gen : Generator) where
    -- A step that makes an invoice gets a new UUID for it.
    abbrev pub IsFresh : {w v : World T} → Step coin kind gen w v → Type 0
    IsFresh {w} (new_invoice env faults req) = IsUnused env.new_invoice_id w
    IsFresh _ = Unit

    abbrev pub AllFresh : {w v : World T} → Reaches coin kind gen w v → Type 0
    AllFresh here = Unit
    AllFresh (further v u s step) = AllFresh s × IsFresh step

    module _ (coin-keeps : (i : Invoice) (t : T) → Spares (coin.verify_tx_handler i t))
        (gen-keeps : GeneratorKeeps gen) where
      Step-IsLinked :
          (w v : World T) (step : Step coin kind gen w v) → IsFresh step → IsLinked w → IsLinked v
      unfolding verify_tx_on_mempool verify_tx_on_new_block
      Step-IsLinked w v (run_verify_mempool env value tx before after e) f l =
          let w1 = record w { tasks = before ++ after } in
          let l1 = without_tasks w (before ++ after) l in
          Keeps-IsLinked w1 v (verify_mempool_body-Keeps env coin value tx w1)
            (verify_mempool_body-Grows env coin value tx w1 coin-keeps)
            (verify_mempool_body-asked env coin coin-keeps value tx w1 (l1.rows value.invoice)) l1
      Step-IsLinked w v (run_verify_block env value before after e) f l =
          let w1 = record w { tasks = before ++ after } in
          run-IsLinked w v (before ++ after) (verify_block_body-Keeps env value w1)
            (verify_block_body-Grows env value w1) (verify_block_body-cell env value w1) l
      Step-IsLinked w v (run_release_address env invoice before after e) f l =
          let w1 = record w { tasks = before ++ after } in
          run-IsLinked w v (before ++ after) (release_address_helper-Keeps env invoice w1)
            (release_address_helper-Grows env invoice w1)
            (release_address_helper-cell env invoice w1) l
      Step-IsLinked w v (run_broadcast invoice before after e) f l =
          without_tasks w (before ++ after) l
      Step-IsLinked w v (run_timeout env c invoice before after e) f l =
          let w1 = record w { tasks = before ++ after } in
          run-IsLinked w v (before ++ after) (timeout_body-Keeps env invoice w1)
            (timeout_body-Grows env invoice w1) (timeout_body-cell env invoice w1) l
      Step-IsLinked w v (run_cancelled c invoice before after e gone) f l =
          without_tasks w (before ++ after) l
      Step-IsLinked w v (new_tx tx) f l = elim (Bool-cases (coin.shared tx).is_double_spend_seen) [
        | inl rejected ↦ rw rejected l
        | inr fine ↦
            rw fine (start_all-IsLinked (λ value. verify_mempool value tx) w.pending_invoices w l)
      ]
      Step-IsLinked w v new_block f l = start_all-IsLinked verify_block w.pending_invoices w l
      Step-IsLinked w v (new_invoice env faults req) f l =
          handle_invoice_pb_req-IsLinked kind env faults gen req w gen-keeps f l

-- In every state that the processor of a coin reaches, in whatever order the started goroutines run
-- and whatever the daemon and the database answer, commits that fail included, an entry of the
-- pending map stands under the address of the invoice that its pointer holds, and that invoice has
-- the address, the amount, the confirmations and all else that was asked for as the row of its id
-- has it, where there is such a row; if that held at first, the handler that looks at transactions
-- writes no invoice, and every new invoice gets a UUID that no row and no pointer has.
pub Reaches-IsLinked :
    {T : Type 0} (coin : Coin T) (kind : Kind) (net : NetworkType)
    → ((i : Invoice) (t : T) → Spares (coin.verify_tx_handler i t))
    → (w v : World T) (s : Reaches coin kind (kind_generator kind net) w v)
    → AllFresh coin kind (kind_generator kind net) s
    → IsLinked w
    → IsLinked v
Reaches-IsLinked coin kind net coin-keeps w v here f l = l
Reaches-IsLinked coin kind net coin-keeps w v (further u _ s step) f l =
    Step-IsLinked coin kind (kind_generator kind net) coin-keeps (kind_generator-Keeps kind net) u v
      step f.1 (Reaches-IsLinked coin kind net coin-keeps w u s f.0 l)
