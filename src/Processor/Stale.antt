-- ===== src/Processor/Stale.antt =====
-- The timer of an invoice (`handleInvoiceHelper`) that outlives it: `confirmCONFIRMED` expires an
-- invoice whose payment is dropped without cancelling its timer (internal/processor/base.go).
use goipay.Base.{
  ℕ, ◌≡◌, ◌≢◌, ap, sym, ◌∙◌, String, false, none, some, List, [], ◌∷◌, ◌++◌, ◌==◌, exists, arith,
  find,
}
use goipay.Error.{ok}
use goipay.Coin.{InvoiceStatusType}
use goipay.Db.Models.{Invoice}
use goipay.Db.Invoices.{has_id, set_expired}
use goipay.Db.InvoiceLaws.{find-update_other, has_id_apart}
use goipay.SyncMap.{load, load-delete_self}
use goipay.Processor.State.{
  PendingInvoice, World, Env, Coin, Task, Running, holds_row, release_address, broadcast,
  handle_invoice_helper,
}
use goipay.Processor.Confirm.{expire_invoice, confirm_confirmed}
use goipay.Processor.Lifecycle.{timeout_body}
use goipay.Processor.Create.{Generator}
use goipay.Processor.Manager.{Kind}
use goipay.Processor.Steps.{Step, run_timeout}
use goipay.Processor.Revived.{timeout_body-db, timeout_body-pending}

set_expired_again : (r : Invoice) → r.status ≡ InvoiceStatusType.expired → set_expired r ≡ r
set_expired_again r e = ap (λ s. record r { status = s }) (sym e)

module _ {T : Type 0} where
  -- A dropped payment takes no timer with it.
  pub dropped-timer :
      (env : Env) (value : PendingInvoice) (st : Running T) (h : String)
      → (st.world.cell value.invoice).tx_id ≡ some h
      → env.get_transactions h ≡ ok []
      → (confirm_confirmed env value st).world.cancelled ≡ st.world.cancelled
  unfolding confirm_confirmed expire_invoice
  dropped-timer env value st h t d = ground arith

  timeout_body-unwatches :
      (late : Env) (w : World T) (old q r : Invoice) (p : PendingInvoice)
      → late.inner_faults ≡ []
      → load old.crypto_address w.pending_invoices ≡ some p
      → old.id ≢ (w.cell p.invoice).id
      → find (has_id (w.cell p.invoice).id) w.db.invoices ≡ some q
      → find (has_id old.id) w.db.invoices ≡ some r
      → holds_row old.id w.stuck_rows ≡ false
      → let v = timeout_body late old w in
        (load old.crypto_address v.pending_invoices ≡ none)
        × (find (has_id (w.cell p.invoice).id) v.db.invoices ≡ some q)
        × (v.tasks ≡ (w.tasks ++ release_address old ∷ []) ++ broadcast (set_expired r) ∷ [])
  unfolding timeout_body expire_invoice
  timeout_body-unwatches late w old q r p f l ne mine theirs free = (
    ap (load old.crypto_address) (timeout_body-pending late w old p f l theirs free)
        ∙ load-delete_self old.crypto_address w.pending_invoices,
    ap (λ db. find (has_id (w.cell p.invoice).id) db.invoices)
          (timeout_body-db late w old p f l theirs free)
        ∙ find-update_other (has_id old.id) (has_id (w.cell p.invoice).id) set_expired w.db.invoices
            (λ a hit. (has_id_apart _ _ a ne hit, has_id_apart _ _ a ne hit))
        ∙ mine,
    ground arith,
  )

  module _ (coin : Coin T) (kind : Kind) (gen : Generator) where
    -- An invoice that is EXPIRED already, with its timer still running, as a dropped payment leaves
    -- it; and its address is that of another invoice by now, which is watched. Then the timer may
    -- fire: it takes the other invoice's entry out of the map, although that row stays as it is and
    -- its time has not come, starts the release of the address that the other invoice still needs,
    -- and tells the readers once more of the expired one.
    pub stale_timer_unwatches :
        (late : Env) (w : World T) (old q r : Invoice) (p : PendingInvoice) (c : ℕ)
        (before after : List (Task T))
        → w.tasks ≡ before ++ handle_invoice_helper c old ∷ after
        → exists (λ d. d == c) w.cancelled ≡ false
        → r.status ≡ InvoiceStatusType.expired
        → late.inner_faults ≡ []
        → load old.crypto_address w.pending_invoices ≡ some p
        → old.id ≢ (w.cell p.invoice).id
        → find (has_id (w.cell p.invoice).id) w.db.invoices ≡ some q
        → find (has_id old.id) w.db.invoices ≡ some r
        → holds_row old.id w.stuck_rows ≡ false
        → (v : World T) × Step coin kind gen w v
          × (load old.crypto_address v.pending_invoices ≡ none)
          × (find (has_id (w.cell p.invoice).id) v.db.invoices ≡ some q)
          × (v.tasks ≡ ((before ++ after) ++ release_address old ∷ []) ++ broadcast r ∷ [])
    stale_timer_unwatches late w old q r p c before after timer live settled f l ne mine theirs
          free =
        let (gone, kept, tasks) =
          timeout_body-unwatches late (record w { tasks = before ++ after }) old q r p f l ne mine
            theirs free in
        (
          timeout_body late old (record w { tasks = before ++ after }),
          run_timeout late c old before after timer,
          gone,
          kept,
          tasks
              ∙ ap (λ i. ((before ++ after) ++ release_address old ∷ []) ++ broadcast i ∷ [])
                  (set_expired_again r settled),
        )
