-- ===== src/Processor/Steps.antt =====
-- Every order of the goroutines: the processor of one coin (internal/processor/base.go) as a
-- relation between its states, and what holds in every state that it reaches.
use goipay.Base.{ℕ, ◌≡◌, Bool, true, List, ◌∷◌, ◌++◌, exists, ◌==◌}
use goipay.Db.Models.{Invoice}
use goipay.Processor.State.{
  PendingInvoice, World, Env, Coin, Task, verify_mempool, verify_block, release_address, broadcast,
  handle_invoice_helper,
}
use goipay.Processor.Create.{CreateEnv, Generator, NewInvoiceRequest}
use goipay.Processor.Lifecycle.{
  verify_mempool_body, verify_block_body, release_address_helper, timeout_body,
  verify_tx_on_mempool, verify_tx_on_new_block,
}
use goipay.Processor.Manager.{Kind, handle_invoice_pb_req}

-- The coin's handlers, the processor, and its network with its handler for new addresses.
module _ {T : Type 0} (coin : Coin T) (kind : Kind) (gen : Generator) where
  -- One step: a goroutine that was started runs, whichever it is, in whatever the outside gives;
  -- the daemon's transaction or block arrives; or an invoice is asked for. A timer that is cancelled
  -- may still run: where its time has come too, `select` takes either case.
  pub data Step (w : World T) : World T → Type 0 where
    run_verify_mempool :
        (env : Env) (value : PendingInvoice) (tx : T) (before after : List (Task T))
        → w.tasks ≡ before ++ verify_mempool value tx ∷ after
        → Step w (verify_mempool_body coin env value tx (record w { tasks = before ++ after }))
    run_verify_block :
        (env : Env) (value : PendingInvoice) (before after : List (Task T))
        → w.tasks ≡ before ++ verify_block value ∷ after
        → Step w (verify_block_body env value (record w { tasks = before ++ after }))
    run_release_address :
        (env : Env) (invoice : Invoice) (before after : List (Task T))
        → w.tasks ≡ before ++ release_address invoice ∷ after
        → Step w (release_address_helper env invoice (record w { tasks = before ++ after }))
    run_broadcast :
        (invoice : Invoice) (before after : List (Task T))
        → w.tasks ≡ before ++ broadcast invoice ∷ after
        → Step w (record w { tasks = before ++ after })
    run_timeout :
        (env : Env) (c : ℕ) (invoice : Invoice) (before after : List (Task T))
        → w.tasks ≡ before ++ handle_invoice_helper c invoice ∷ after
        → Step w (timeout_body env invoice (record w { tasks = before ++ after }))
    run_cancelled :
        (c : ℕ) (invoice : Invoice) (before after : List (Task T))
        → w.tasks ≡ before ++ handle_invoice_helper c invoice ∷ after
        → exists (λ d. d == c) w.cancelled ≡ true
        → Step w (record w { tasks = before ++ after })
    new_tx : (tx : T) → Step w (verify_tx_on_mempool coin tx w)
    new_block : Step w (verify_tx_on_new_block w)
    new_invoice :
        (env : CreateEnv) (faults : List Bool) (req : NewInvoiceRequest)
        → Step w (handle_invoice_pb_req kind env faults gen req w).1

  -- The states that are reached from a state.
  pub data Reaches (w : World T) : World T → Type 0 where
    here : Reaches w w
    further : (v u : World T) → Reaches w v → Step v u → Reaches w u
