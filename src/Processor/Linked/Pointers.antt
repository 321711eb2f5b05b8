-- ===== src/Processor/Linked/Pointers.antt =====
-- What `verifyTxOnMempool` of internal/processor/base.go stores behind the pointers.
use goipay.Base.{
  ◌≡◌, refl, ap, ◌∙◌, sym, subst, String, Bool, true, false, Option, none, some, List, [], ◌∷◌,
  arith, find, exists, ◌&&◌, if◌then◌else◌,
}
use goipay.Base.Float.{Float64}
use goipay.Error.{Result, ok, err}
use goipay.Db.Models.{Invoice, Db}
use goipay.Db.Session.{
  Session, Outcome, row, no_row, violation, query, settle, run_statement, next_fault, begin-db,
}
use goipay.Db.Statements.{returning, map_row, unless}
use goipay.Db.Invoices.{
  MempoolParams, has_id, set_mempool, tx_id_taken, confirm_invoice_status_mempool_by_id,
}
use goipay.Db.Ledger.Queries.{Keeps}
use goipay.Processor.State.{PendingInvoice, World, Env, Coin, Running, holds_row}
use goipay.Processor.Confirm.{
  goes_through, mempool_stored, confirm_pending_mempool, confirm_confirmed, hang, rows_after,
}
use goipay.Processor.Lifecycle.{
  confirm_both, mempool_verified, mempool_begun, verify_mempool_body, start_running, committed,
  is_paid,
}
use goipay.Processor.Cells.{confirm_confirmed-cell, committed-cell}
use goipay.Processor.Linked.{Order, asked, LinkedTo, Evolved-LinkedTo, find-LinkedTo, SameAsked}

module _ {A : Type 0} (P : A → Type 0) where
  -- What a statement returns, if it returns a row.
  abbrev pub Returns : Outcome A → Type 0
  Returns (row a _) = P a
  Returns no_row = Unit
  Returns violation = Unit

  abbrev pub Gives : Result A → Type 0
  Gives (ok a) = P a
  Gives (err _) = Unit

  settle-Gives : (o : Outcome A) (db : Db) (fs : List Bool) → Returns o → Gives (settle o db fs).0
  settle-Gives (row a after) db fs h = h
  settle-Gives no_row db fs h = tt
  settle-Gives violation db fs h = tt

  pub run_statement-Gives :
      (aborted : Bool) (fs : List Bool) (f : Db → Outcome A) (db : Db)
      → Returns (f db)
      → Gives (run_statement aborted fs f db).0
  run_statement-Gives true fs f db h = tt
  run_statement-Gives false [] f db h = settle-Gives (f db) db [] h
  run_statement-Gives false (true ∷ fs) f db h = tt
  run_statement-Gives false (false ∷ fs) f db h = settle-Gives (f db) db fs h

  pub unless-Returns : (b : Bool) (o : Outcome A) → Returns o → Returns (unless b o)
  unless-Returns true o h = tt
  unless-Returns false o h = h

  pub returning-Returns :
      (f : A → A) (o : Option A) (db : Db)
      → ((a : A) → o ≡ some a → P (f a))
      → Returns (returning (map_row f o) db)
  returning-Returns f none db h = tt
  returning-Returns f (some a) db h = h a refl

-- The row that `ConfirmInvoiceStatusMempoolById` returns is the order's.
mempool_row-Gives :
    (arg : MempoolParams) (o : Order) (s : Session)
    → arg.id ≡ o.id
    → LinkedTo s.db.invoices o
    → Gives (λ i. asked i ≡ o) (query (confirm_invoice_status_mempool_by_id arg) s).0
mempool_row-Gives arg o s e l =
    run_statement-Gives _ s.aborted s.faults (confirm_invoice_status_mempool_by_id arg) s.db (
      unless-Returns _
        (exists (has_id arg.id) s.db.invoices && exists (tx_id_taken arg) s.db.invoices) _
        (returning-Returns _ (set_mempool arg) (find (has_id arg.id) s.db.invoices) _ (λ r h.
          find-LinkedTo s.db.invoices o r
            (subst (λ id. find (has_id id) s.db.invoices ≡ some r) e h) l)))

module _ {T : Type 0} (env : Env) where
  mempool_stored-asked :
      (value : PendingInvoice) (r : Result Invoice) (st : Running T)
      → Gives (λ i. asked i ≡ asked (st.world.cell value.invoice)) r
      → SameAsked st.world (mempool_stored value r st).world
  mempool_stored-asked value (err e) st g p = refl
  mempool_stored-asked value (ok i) st g p = ground (arith, g)

  chosen-asked :
      (w : World T) (b : Bool) (s t : Running T)
      → SameAsked w s.world
      → SameAsked w t.world
      → SameAsked w (if b then s else t).world
  chosen-asked w true s t f g = f
  chosen-asked w false s t f g = g

  confirm_pending_mempool-asked :
      (tx_id : String) (amount : Float64) (value : PendingInvoice) (st : Running T)
      → LinkedTo st.session.db.invoices (asked (st.world.cell value.invoice))
      → SameAsked st.world (confirm_pending_mempool tx_id amount value st).world
  unfolding confirm_pending_mempool
  confirm_pending_mempool-asked tx_id amount value st l =
      let id = (st.world.cell value.invoice).id in
      let arg : MempoolParams = record {
        id = id;
        actual_amount = some amount;
        tx_id = some tx_id;
      } in
      let done = query (confirm_invoice_status_mempool_by_id arg) st.session in
      chosen-asked st.world (goes_through st.session && holds_row id st.world.stuck_rows) (hang st)
        (mempool_stored value done.0
          (record st { session = done.1; own_rows = rows_after done.0 id st.own_rows }))
        (λ p. refl)
        (mempool_stored-asked value done.0
          (record st { session = done.1; own_rows = rows_after done.0 id st.own_rows })
          (mempool_row-Gives arg (asked (st.world.cell value.invoice)) st.session refl l))

  confirm_both-asked :
      (tx_id : String) (amount : Float64) (value : PendingInvoice) (st : Running T)
      → LinkedTo st.session.db.invoices (asked (st.world.cell value.invoice))
      → SameAsked st.world (confirm_both env tx_id amount value st).world
  unfolding confirm_both
  confirm_both-asked tx_id amount value st l =
      let st' = confirm_pending_mempool tx_id amount value st in
      let same = confirm_pending_mempool-asked tx_id amount value st l in
      chosen-asked st.world st'.hung st' (confirm_confirmed env value st') same
        (λ p. ap (λ c. asked (c p)) (confirm_confirmed-cell env value st') ∙ same p)

  committed-asked :
      (w : World T) (st : Running T) → SameAsked w st.world → SameAsked w (committed st)
  committed-asked w st same p = ap (λ c. asked (c p)) (committed-cell env st) ∙ same p

  mempool_verified-asked :
      (tx_id : String) (value : PendingInvoice) (i : Invoice) (r : Result Float64) (s : Session)
      (st : Running T)
      → LinkedTo s.db.invoices (asked (st.world.cell value.invoice))
      → SameAsked st.world (mempool_verified env tx_id value i (r, s) st)
  mempool_verified-asked tx_id value i (err e) s st l = λ p. refl
  mempool_verified-asked tx_id value i (ok amount) s st l =
      let st' = record st { session = s } in
      committed-asked st.world
        (if is_paid i amount then confirm_both env tx_id amount value st' else st')
        (chosen-asked st.world (is_paid i amount) (confirm_both env tx_id amount value st') st'
          (confirm_both-asked tx_id amount value st' l) (λ p. refl))

  module _ (coin : Coin T)
      (coin-keeps : (i : Invoice) (t : T) → Keeps (coin.verify_tx_handler i t)) where
    mempool_begun-asked :
        (value : PendingInvoice) (tx : T) (o : Option Session) (w : World T)
        → ((s : Session) → o ≡ some s → s.db ≡ w.db)
        → LinkedTo w.db.invoices (asked (w.cell value.invoice))
        → SameAsked w (mempool_begun coin env value tx o w)
    mempool_begun-asked value tx none w d l = λ p. refl
    mempool_begun-asked value tx (some s) w d l =
        let found = coin.verify_tx_handler (w.cell value.invoice) tx s in
        mempool_verified-asked (coin.shared tx).get_tx_id value (w.cell value.invoice) found.0
          found.1 (start_running s w)
          (Evolved-LinkedTo s.db.invoices found.1.db.invoices (asked (w.cell value.invoice))
            (coin-keeps (w.cell value.invoice) tx s)
            (subst (λ db. LinkedTo db.invoices (asked (w.cell value.invoice))) (sym (d s refl)) l))

    -- The goroutine of a transaction stores nothing behind a pointer but the row of its invoice.
    pub verify_mempool_body-asked :
        (value : PendingInvoice) (tx : T) (w : World T)
        → LinkedTo w.db.invoices (asked (w.cell value.invoice))
        → SameAsked w (verify_mempool_body coin env value tx w)
    unfolding verify_mempool_body
    verify_mempool_body-asked value tx w l =
        mempool_begun-asked value tx _ w (λ s e. begin-db (next_fault env.faults) w.db s e) l
