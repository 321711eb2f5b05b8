-- ===== src/Processor/Live.antt =====
-- A payment with enough confirmations is confirmed by the next block (internal/processor/base.go).
use goipay.Base.{
  ◌≡◌, refl, ap, sym, subst, ◌∙◌, String, false, none, some, List, [], ◌∷◌, ◌++◌, arith,
  append_assoc, find, Bool-cases, inl, inr, str_eq,
}
use goipay.Db.Models.{Invoice}
use goipay.Db.Session.{init_db_queries_with_tx}
use goipay.Db.Invoices.{has_id, set_confirmed}
use goipay.Listener.Tx.{SharedTx}
use goipay.SyncMap.{SyncMap, load}
use goipay.Processor.State.{
  PendingInvoice, World, Env, Coin, Task, verify_block, release_address, broadcast, spawn, Running,
}
use goipay.Processor.Confirm.{confirm_confirmed}
use goipay.Processor.Confirmed.{Due, due-session, confirm_confirmed-IsConfirmed}
use goipay.Processor.Create.{Generator}
use goipay.Processor.Lifecycle.{
  start_all, verify_tx_on_new_block, verify_block_body, start_running, no_session, committed,
  run_in_tx,
}
use goipay.Processor.Manager.{Kind}
use goipay.Processor.Steps.{Reaches, here, further, new_block, run_verify_block}

module _ {T : Type 0} where
  -- A task among those of a state, and the others around it.
  pub record HasTask (t : Task T) (ts : List (Task T)) : Type 0 where
    pub before : List (Task T)
    pub after : List (Task T)
    pub split : ts ≡ before ++ t ∷ after

  -- The goroutines that are started leave everything else.
  start_all-rest :
      (task : PendingInvoice → Task T) (m : SyncMap PendingInvoice) (w : World T)
      → start_all task m w ≡ record w { tasks = (start_all task m w).tasks }
  start_all-rest task [] w = refl
  start_all-rest task ((_, value) ∷ m) w = start_all-rest task m (spawn (task value) w)

  append-HasTask : (t u : Task T) (ts : List (Task T)) → HasTask t ts → HasTask t (ts ++ u ∷ [])
  append-HasTask t u ts h = record {
    before = h.before;
    after = h.after ++ u ∷ [];
    split = ap (λ xs. xs ++ u ∷ []) h.split ∙ append_assoc h.before (t ∷ h.after) (u ∷ []);
  }

  last-HasTask : (t : Task T) (ts : List (Task T)) → HasTask t (ts ++ t ∷ [])
  last-HasTask t ts = record { before = ts; after = []; split = refl }

  kept-HasTask :
      (task : PendingInvoice → Task T) (m : SyncMap PendingInvoice) (w : World T) (t : Task T)
      → HasTask t w.tasks
      → HasTask t (start_all task m w).tasks
  kept-HasTask task [] w t h = h
  kept-HasTask task ((_, value) ∷ m) w t h =
      kept-HasTask task m (spawn (task value) w) t (append-HasTask t (task value) w.tasks h)

  start_all-HasTask :
      (task : PendingInvoice → Task T) (m : SyncMap PendingInvoice) (w : World T) (k : String)
      (value : PendingInvoice)
      → load k m ≡ some value
      → HasTask (task value) (start_all task m w).tasks
  unfolding load
  start_all-HasTask task [] w k value h = cc
  start_all-HasTask task ((j, other) ∷ m) w k value h = elim (Bool-cases (str_eq j k)) [
    | inl same ↦
        let found : other ≡ value = ground (arith, same, h) in
        kept-HasTask task m (spawn (task other) w) (task value) (
          subst (λ o. HasTask (task value) (w.tasks ++ task o ∷ [])) (sym found)
            (last-HasTask (task value) w.tasks))
    | inr differ ↦
        start_all-HasTask task m (spawn (task other) w) k value (ground (arith, differ, h))
  ]

module _ {T : Type 0} where
  -- The entry's invoice has a transaction that the daemon knows and has not rejected, with the
  -- confirmations that the invoice requires, and the database is reached and holds its row `r`.
  pub record IsPaid (w : World T) (env : Env) (addr : String) (p : PendingInvoice) (r : Invoice)
      : Type 0 where
    pub h : String
    pub tx : SharedTx
    pub watched : load addr w.pending_invoices ≡ some p
    pub address : (w.cell p.invoice).crypto_address ≡ addr
    pub due : Due env p (start_running (no_session w.db) w) h tx r
    pub reached : env.faults ≡ []

  -- The invoice's row is confirmed, and its address is not pending any more.
  abbrev pub Settles : World T → Env → String → PendingInvoice → Invoice → World T → Type 0
  Settles w env addr p r v =
      (find (has_id (w.cell p.invoice).id) v.db.invoices ≡ some (set_confirmed env.now r))
      × (load addr v.pending_invoices ≡ none)

  pub committed-db :
      (st : Running T)
      → st.hung ≡ false
      → st.session.aborted ≡ false
      → st.session.faults ≡ []
      → (committed st).db ≡ st.session.db
  committed-db st h a f = ground arith

  pub committed-tasks : (st : Running T) → (committed st).tasks ≡ st.world.tasks
  committed-tasks st = ground arith

  pub committed-pending :
      (st : Running T) → (committed st).pending_invoices ≡ st.world.pending_invoices
  committed-pending st = ground arith

  -- And the broadcast of the confirmed row is started.
  abbrev pub Announces : World T → Env → String → PendingInvoice → Invoice → World T → Type 0
  Announces w env addr p r v =
      Settles w env addr p r v × HasTask (broadcast (set_confirmed env.now r)) v.tasks

  -- The goroutine of the block, for an invoice that is due.
  verify_block_body-Announces :
      (w : World T) (env : Env) (addr : String) (p : PendingInvoice) (r : Invoice)
      → IsPaid w env addr p r
      → Announces w env addr p r (verify_block_body env p w)
  unfolding verify_block_body init_db_queries_with_tx
  verify_block_body-Announces w env addr p r paid =
      let st = start_running (no_session w.db) w in
      let st' = confirm_confirmed env p st in
      let done = confirm_confirmed-IsConfirmed env p st paid.due in
      let alive = due-session env p st paid.due in
      subst (λ v. Announces w env addr p r v)
        (sym (
          ap (λ fs. run_in_tx (init_db_queries_with_tx fs w.db) w (confirm_confirmed env p))
            paid.reached))
        (
          (
            ap (λ db. find (has_id (w.cell p.invoice).id) db.invoices)
                  (committed-db st' done.ends alive.0 alive.1)
                ∙ done.confirmed,
            ap (load addr) (committed-pending st')
                ∙ ap (λ a. load a st'.world.pending_invoices) (sym paid.address)
                ∙ done.taken,
          ),
          subst (HasTask (broadcast (set_confirmed env.now r)))
              (sym (committed-tasks st' ∙ done.started))
              (last-HasTask (broadcast (set_confirmed env.now r))
                (w.tasks ++ release_address (w.cell p.invoice) ∷ [])),
        )

  -- Which goroutines are waiting does not matter to that.
  without :
      (w : World T) (env : Env) (addr : String) (p : PendingInvoice) (r : Invoice)
      → IsPaid w env addr p r
      → (ts : List (Task T)) → IsPaid (record w { tasks = ts }) env addr p r
  without w env addr p r q ts = record {
    h = q.h;
    tx = q.tx;
    watched = q.watched;
    address = q.address;
    due = record {
      rest = q.due.rest;
      entry = q.due.entry;
      has_tx = q.due.has_tx;
      answered = q.due.answered;
      kept = q.due.kept;
      enough = q.due.enough;
      is_pending = q.due.is_pending;
      live = q.due.live;
      reached = q.due.reached;
      free = q.due.free;
      stored = q.due.stored;
    };
    reached = q.reached;
  }

  -- The goroutine of a block, whenever it runs in such a state.
  pub verify_block-Announces :
      (w : World T) (env : Env) (addr : String) (p : PendingInvoice) (r : Invoice)
      (ts : List (Task T))
      → IsPaid w env addr p r
      → Announces w env addr p r (verify_block_body env p (record w { tasks = ts }))
  verify_block-Announces w env addr p r ts paid =
      verify_block_body-Announces (record w { tasks = ts }) env addr p r
        (without w env addr p r paid ts)

module _ {T : Type 0} (coin : Coin T) (kind : Kind) (gen : Generator) where
  -- An invoice that is paid with enough confirmations is confirmed once a block arrives and the
  -- goroutine that the block starts for it runs: from every such state the processor reaches one
  -- where the row is CONFIRMED, the address is not pending any more, and the broadcast of the row is
  -- started.
  pub paid_invoice_confirmed :
      (w : World T) (env : Env) (addr : String) (p : PendingInvoice) (r : Invoice)
      → IsPaid w env addr p r
      → (v : World T) × Reaches coin kind gen w v × Announces w env addr p r v
  unfolding verify_tx_on_new_block
  paid_invoice_confirmed w env addr p r paid =
      let w1 = verify_tx_on_new_block w in
      let t = start_all-HasTask verify_block w.pending_invoices w addr p paid.watched in
      let ts = t.before ++ t.after in
      (
        verify_block_body env p (record w1 { tasks = ts }),
        further w1 _ (further w w1 here new_block)
            (run_verify_block env p t.before t.after t.split),
        subst (λ u. Announces w env addr p r (verify_block_body env p u))
            (sym (
              ap {A = World T} (λ u. record u { tasks = ts })
                (start_all-rest verify_block w.pending_invoices w)))
            (verify_block-Announces w env addr p r ts paid),
      )
