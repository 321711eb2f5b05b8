-- ===== src/Processor/State.antt =====
-- The state of `baseCryptoProcessor` (internal/processor/base.go) and of the database behind it:
-- the map of pending invoices, the atomic pointers and timers that its entries share with running
-- goroutines, and the goroutines that are started and have not run.
use goipay.Base.{ℕ, String, Bool, List, [], ◌∷◌, ◌++◌, ◌==◌, exists, if◌then◌else◌}
use goipay.Base.Float.{Float64}
use goipay.Error.{Result}
use goipay.Db.Models.{PgUuid, Time, eq_uuid, Invoice, Db}
use goipay.Db.Session.{Session, Query}
use goipay.Listener.Tx.{SharedTx}
use goipay.SyncMap.{SyncMap}

-- `pendingInvoice`: the number of the pointer `invoice`, and of the context that
-- `cancelTimeoutFunc` cancels.
pub record PendingInvoice : Type 0 where
  pub invoice : ℕ
  pub cancel_timeout : ℕ

-- A goroutine that is started: the bodies of the loops in `verifyTxOnMempool` and
-- `verifyTxOnNewBlock`, `releaseAddressHelper`, `broadcastUpdatedInvoice` and `handleInvoiceHelper`.
pub data Task (T : Type 0) : Type 0 where
  verify_mempool : PendingInvoice → T → Task T
  verify_block : PendingInvoice → Task T
  release_address broadcast : Invoice → Task T
  handle_invoice_helper : ℕ → Invoice → Task T

pub record World (T : Type 0) : Type 0 where
  pub db : Db
  pub pending_invoices : SyncMap PendingInvoice
  pub cell : ℕ → Invoice
  pub next_cell : ℕ
  pub cancelled : List ℕ
  pub tasks : List (Task T)
  pub stuck_rows : List PgUuid  -- rows that transactions hold which never end

-- What a goroutine meets outside.
pub record Env : Type 0 where
  pub now : Time
  pub faults : List Bool  -- of its own transaction
  pub inner_faults : List Bool  -- of the transaction that `expireInvoice` begins within it
  pub get_transactions : String → Result (List SharedTx)

-- What differs from coin to coin.
pub record Coin (T : Type 0) : Type 0 where
  pub shared : T → SharedTx
  pub verify_tx_handler : Invoice → T → Query Float64

module _ {T : Type 0} where
  -- `atomic.Pointer.Store`
  abbrev pub store_cell : ℕ → Invoice → World T → World T
  store_cell p i w = record w { cell = λ q. if q == p then i else w.cell q }

  -- `go …`
  abbrev pub spawn : Task T → World T → World T
  spawn t w = record w { tasks = w.tasks ++ t ∷ [] }

  -- `cancelTimeoutFunc()`
  abbrev pub cancel : ℕ → World T → World T
  cancel c w = record w { cancelled = c ∷ w.cancelled }

-- A goroutine in the middle of its transaction: the rows that the transaction has written, and
-- whether it waits for a row that another holds for ever.
pub record Running (T : Type 0) : Type 0 where
  pub session : Session
  pub own_rows : List PgUuid
  pub world : World T
  pub hung : Bool

abbrev pub holds_row : PgUuid → List PgUuid → Bool
holds_row id = exists (eq_uuid id)
