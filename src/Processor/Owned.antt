-- ===== src/Processor/Owned.antt =====
-- The pointers of the pending invoices, over every order of the goroutines of
-- internal/processor/base.go.
use goipay.Base.{
  ◌<◌, ◌≡◌, refl, sym, subst, String, Bool, some, List, [], ◌∷◌, ◌++◌, arith, eq_iff, Option-cases,
  Bool-cases, inl, inr,
}
use goipay.Error.{Result, ok, err}
use goipay.Db.Models.{Invoice, Db}
use goipay.SyncMap.{SyncMap, load}
use goipay.Processor.State.{PendingInvoice, World, Coin, Task, spawn}
use goipay.Processor.Create.{CreateEnv, Generator, NewInvoiceRequest, create_invoice}
use goipay.Processor.Lifecycle.{
  verify_tx_on_mempool, verify_tx_on_new_block, handle_invoice, start_all, watch,
}
use goipay.Processor.Manager.{Kind, supports_coin, handle_invoice_pb_req, invoice_created}
use goipay.Processor.Watching.{load-watch}
use goipay.Processor.Keeps.{
  Keeps, stays, both, verify_mempool_body-Keeps, verify_block_body-Keeps, timeout_body-Keeps,
  release_address_helper-Keeps,
}
use goipay.Processor.Steps.{
  Step, run_verify_mempool, run_verify_block, run_release_address, run_broadcast, run_timeout,
  run_cancelled, new_tx, new_block, new_invoice, Reaches, here, further,
}

module _ {T : Type 0} where
  -- Every entry's pointer was made, and entries of different addresses have different pointers.
  pub record IsOwned (w : World T) : Type 0 where
    pub fresh :
        (addr : String) (p : PendingInvoice)
        → load addr w.pending_invoices ≡ some p
        → p.invoice < w.next_cell
    pub apart :
        (a b : String) (p q : PendingInvoice)
        → load a w.pending_invoices ≡ some p
        → load b w.pending_invoices ≡ some q
        → p.invoice ≡ q.invoice
        → a ≡ b

  pub Keeps-IsOwned : (w v : World T) → Keeps w v → IsOwned w → IsOwned v
  Keeps-IsOwned w v k o = record {
    fresh = λ addr p h.
        subst (λ n. p.invoice < n) (sym k.pointers) (o.fresh addr p (k.entries addr p h));
    apart = λ a b p q h g e. o.apart a b p q (k.entries a p h) (k.entries b q g) e;
  }

  pub watch-IsOwned : (i : Invoice) (w : World T) → IsOwned w → IsOwned (watch i w)
  watch-IsOwned i w o = record {
    fresh = λ addr p h. ground (arith, load-watch i addr w, o.fresh addr p);
    apart = λ a b p q h g e. ground (
      arith,
      load-watch i a w,
      load-watch i b w,
      eq_iff i.crypto_address a,
      eq_iff i.crypto_address b,
      o.fresh a p,
      o.fresh b q,
      o.apart a b p q,
    );
  }

  handle_invoice-IsOwned : (i : Invoice) (w : World T) → IsOwned w → IsOwned (handle_invoice i w)
  unfolding handle_invoice
  handle_invoice-IsOwned i w o = elim (Option-cases (load i.crypto_address w.pending_invoices)) [
    | inl absent ↦ rw absent (watch-IsOwned i w o)
    | inr (q, present) ↦ rw present o
  ]

  start_all-Keeps :
      (task : PendingInvoice → Task T) (m : SyncMap PendingInvoice) (w : World T)
      → Keeps w (start_all task m w)
  start_all-Keeps task [] w = stays w w refl refl
  start_all-Keeps task ((a, value) ∷ m) w =
      both w (spawn (task value) w) _ (stays _ _ refl refl)
        (start_all-Keeps task m (spawn (task value) w))

  invoice_created-IsOwned :
      (r : Result Invoice × Db) (w : World T) → IsOwned w → IsOwned (invoice_created r w).1
  invoice_created-IsOwned (err e, db) w o = Keeps-IsOwned w _ (stays _ _ refl refl) o
  invoice_created-IsOwned (ok i, db) w o =
      Keeps-IsOwned (handle_invoice i (record w { db = db })) _ (stays _ _ refl refl) (
        handle_invoice-IsOwned i (record w { db = db })
          (Keeps-IsOwned w (record w { db = db }) (stays _ _ refl refl) o))

  handle_invoice_pb_req-IsOwned :
      (kind : Kind) (env : CreateEnv) (faults : List Bool) (gen : Generator)
      (req : NewInvoiceRequest) (w : World T)
      → IsOwned w
      → IsOwned (handle_invoice_pb_req kind env faults gen req w).1
  unfolding handle_invoice_pb_req
  handle_invoice_pb_req-IsOwned kind env faults gen req w o =
      elim (Bool-cases (supports_coin kind req.coin)) [
        | inl takes ↦
            rw takes (invoice_created-IsOwned (create_invoice env faults gen req w.db) w o)
        | inr leaves ↦ rw leaves o
      ]

  -- What a goroutine keeps, it keeps once it is taken off the list.
  after_start :
      (w v : World T) (ts : List (Task T))
      → Keeps (record w { tasks = ts }) v
      → IsOwned w
      → IsOwned v
  after_start w v ts k o =
      Keeps-IsOwned (record w { tasks = ts }) v k
        (Keeps-IsOwned w (record w { tasks = ts }) (stays _ _ refl refl) o)

  module _ (coin : Coin T) (kind : Kind) (gen : Generator) where
    Step-IsOwned : (w v : World T) → Step coin kind gen w v → IsOwned w → IsOwned v
    unfolding verify_tx_on_mempool verify_tx_on_new_block
    Step-IsOwned w v (run_verify_mempool env value tx before after e) o =
        after_start w _ (before ++ after) (verify_mempool_body-Keeps env coin value tx _) o
    Step-IsOwned w v (run_verify_block env value before after e) o =
        after_start w _ (before ++ after) (verify_block_body-Keeps env value _) o
    Step-IsOwned w v (run_release_address env invoice before after e) o =
        after_start w _ (before ++ after) (release_address_helper-Keeps env invoice _) o
    Step-IsOwned w v (run_broadcast invoice before after e) o =
        after_start w _ (before ++ after) (stays _ _ refl refl) o
    Step-IsOwned w v (run_timeout env c invoice before after e) o =
        after_start w _ (before ++ after) (timeout_body-Keeps env invoice _) o
    Step-IsOwned w v (run_cancelled c invoice before after e gone) o =
        after_start w _ (before ++ after) (stays _ _ refl refl) o
    Step-IsOwned w v (new_tx tx) o = elim (Bool-cases (coin.shared tx).is_double_spend_seen) [
      | inl rejected ↦ rw rejected o
      | inr fine ↦ rw fine (Keeps-IsOwned w _ (start_all-Keeps _ w.pending_invoices w) o)
    ]
    Step-IsOwned w v new_block o = Keeps-IsOwned w _ (start_all-Keeps _ w.pending_invoices w) o
    Step-IsOwned w v (new_invoice env faults req) o =
        handle_invoice_pb_req-IsOwned kind env faults gen req w o

    -- In every state that is reached, in whatever order the started goroutines run and whatever the
    -- daemon and the database answer, every entry in the map of pending invoices has a pointer that
    -- was made, and no two addresses share one, if that held at first.
    pub Reaches-IsOwned : (w v : World T) → Reaches coin kind gen w v → IsOwned w → IsOwned v
    Reaches-IsOwned w v here o = o
    Reaches-IsOwned w v (further u _ s step) o = Step-IsOwned u v step (Reaches-IsOwned w u s o)
