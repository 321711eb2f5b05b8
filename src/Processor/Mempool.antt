-- ===== src/Processor/Mempool.antt =====
-- What the arrival of a transaction does to one pending invoice: the goroutine that
-- `verifyTxOnMempool` starts (internal/processor/base.go).
use goipay.Base.{◌≡◌, false}
use goipay.Base.Float.{Float64}
use goipay.Error.{Result, ok, err}
use goipay.Db.Models.{Invoice}
use goipay.Db.Session.{Session, Query}
use goipay.Processor.Lifecycle.{is_paid}

-- A handler that only reads, and finds the amount `r` or an error: it leaves the tables and the
-- state of the transaction alone.
abbrev pub Reads : Query Float64 → Result Float64 → Type 0
Reads m r = (s : Session) → ((m s).0 ≡ r) × ((m s).1.db ≡ s.db) × ((m s).1.aborted ≡ s.aborted)

-- The amount does not settle the invoice: it cannot be computed, it is too small, or the invoice is
-- not PENDING any more.
abbrev pub NotPaid : Invoice → Result Float64 → Type 0
NotPaid invoice (err e) = Unit
NotPaid invoice (ok amount) = is_paid invoice amount ≡ false
