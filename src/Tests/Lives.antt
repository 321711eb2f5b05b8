-- ===== src/Tests/Lives.antt =====
-- The life of one invoice: loaded at a start, paid, confirmed, and where the daemon drops the payment.
use goipay.Base.{
  eq_iff, find, ℕ, ◌≡◌, ◌⊎◌, refl, String, false, none, some, List, [], ◌∷◌, arith, All,
}
use goipay.Base.Float.{Float64, le_float}
use goipay.Error.{Result, ok}
use goipay.Db.Models.{Invoice}
use goipay.Db.Session.{pure}
use goipay.Listener.Tx.{SharedTx}
use goipay.SyncMap.{load}
use goipay.Processor.State.{PendingInvoice, World, Env, Running, Coin, verify_mempool}
use goipay.Processor.Confirm.{confirm_confirmed}
use goipay.Processor.Lifecycle.{verify_mempool_body, timeout_body, verify_tx_on_mempool}
use goipay.Processor.Settled.{NotDue, too_few, confirm_confirmed-NotDue, confirm_confirmed_once}
use goipay.Processor.Confirmed.{Due, IsConfirmed, confirm_confirmed-IsConfirmed}
use goipay.Processor.Paid.{
  Pays, recorded, mempool_db, arguments, Unconfirmed, verify_mempool_body_records,
  verify_mempool_body_hangs,
}
use goipay.Db.Invoices.{has_id, set_mempool, set_expired}
use goipay.Processor.Revived.{expired_invoice_revived}
use goipay.Processor.Steps.{here, further, new_tx, run_verify_mempool}
use goipay.Processor.Owned.{IsOwned, Reaches-IsOwned}
use goipay.Processor.Manager.{Kind, load_persisted_pending_invoices}
use goipay.Listener.Network.{NetworkType}
use goipay.Processor.SetUp.{kind_generator}
use goipay.Processor.Watching.{Fresh}
use goipay.Processor.Restart.{AllWatched, HasTime, reopened, load_persisted_pending_invoices_lem}
use goipay.Tests.Data.{open_invoice, tables}

abbrev pub entry : PendingInvoice
entry = record { invoice = 0; cancel_timeout = 0 }

-- The invoice is watched.
abbrev pub world : World String
world = record {
  db = tables;
  pending_invoices = ("bc1p", entry) ∷ [];
  cell = λ p. open_invoice;
  next_cell = 1;
  cancelled = [];
  tasks = [];
  stuck_rows = [];
}

abbrev pub paid_invoice : Invoice
paid_invoice = record open_invoice { tx_id = some "t" }

abbrev pub tx_with : ℕ → SharedTx
tx_with n = record { get_tx_id = "t"; get_confirmations = n; is_double_spend_seen = false }

abbrev pub env_with : Result (List SharedTx) → Env
env_with r = record { now = 5; faults = []; inner_faults = []; get_transactions = λ h. r }

abbrev pub paid_running : Running String
paid_running = record {
  session = record { db = tables; aborted = false; faults = [] };
  own_rows = [];
  world = record world { cell = λ p. paid_invoice };
  hung = false;
}

abbrev pub two : Env
two = env_with (ok (tx_with 2 ∷ []))

abbrev pub three : Env
three = env_with (ok (tx_with 3 ∷ []))

two-NotDue : NotDue two entry paid_running
two-NotDue = too_few "t" (tx_with 2) [] refl refl refl (omega arith)

confirm_confirmed-NotDue_example : confirm_confirmed two entry paid_running ≡ paid_running
confirm_confirmed-NotDue_example = confirm_confirmed-NotDue two entry paid_running two-NotDue

confirm_confirmed_once_example :
    (confirm_confirmed three entry paid_running ≡ paid_running)
    ⊎ (confirm_confirmed two entry (confirm_confirmed three entry paid_running)
        ≡ confirm_confirmed three entry paid_running)
unfolding confirm_confirmed
confirm_confirmed_once_example =
    confirm_confirmed_once three two entry paid_running (confirm_confirmed three entry paid_running)
      refl refl

pub three-Due : Due three entry paid_running "t" (tx_with 3) open_invoice
unfolding load
three-Due = record {
  rest = [];
  entry = entry;
  has_tx = refl;
  answered = refl;
  kept = refl;
  enough = omega arith;
  is_pending = refl;
  live = refl;
  reached = refl;
  free = refl;
  stored = refl;
}

confirm_confirmed-IsConfirmed_example :
    IsConfirmed three entry paid_running open_invoice (confirm_confirmed three entry paid_running)
confirm_confirmed-IsConfirmed_example =
    confirm_confirmed-IsConfirmed three entry paid_running three-Due

-- Every transaction pays the same amount.
abbrev paying : Float64 → Coin String
paying amount = record {
  shared = λ t. record { get_tx_id = t; get_confirmations = 0; is_double_spend_seen = false };
  verify_tx_handler = λ i t. pure amount;
}

-- 1.0 and 2.0
abbrev too_little : Coin String
too_little = paying 4607182418800017408

abbrev pub enough : Coin String
enough = paying 4611686018427387904

enough-Pays :
    (env : Env) → env.faults ≡ [] → Pays enough env entry "t" world 4611686018427387904 open_invoice
unfolding le_float
enough-Pays env e = record {
  reached = e;
  found = λ s. refl;
  enough = refl;
  stored = refl;
  unique = refl;
  free = refl;
}

two-Unconfirmed :
    Unconfirmed enough two entry "t" world (enough-Pays two refl) (ok (tx_with 2 ∷ []))
two-Unconfirmed = (refl, omega arith)

verify_mempool_body_records_example :
    verify_mempool_body enough two entry "t" world
    ≡ record (recorded enough two entry "t" world 4611686018427387904 open_invoice).world {
      db = mempool_db enough two entry "t" world 4611686018427387904;
    }
verify_mempool_body_records_example =
    verify_mempool_body_records enough two entry "t" world (enough-Pays two refl) two-Unconfirmed

abbrev pub dropped : Env
dropped = env_with (ok [])

verify_mempool_body_hangs_example :
    let w' = verify_mempool_body enough dropped entry "t" world in
    (w'.db ≡ tables) × (w'.stuck_rows ≡ some 90 ∷ []) × (load "bc1p" w'.pending_invoices ≡ none)
unfolding load
verify_mempool_body_hangs_example =
    verify_mempool_body_hangs enough dropped entry "t" world (enough-Pays dropped refl) entry refl
      refl tt

expired_invoice_revived_example :
    let v = timeout_body two open_invoice world in
    let v' = verify_mempool_body enough two entry "t" v in
    (find (has_id (some 90)) v.db.invoices ≡ some (set_expired open_invoice))
    × (find (has_id (some 90)) v'.db.invoices
        ≡ some (
            set_mempool
              (arguments enough two entry "t" world 4611686018427387904)
              (set_expired open_invoice)))
    × (load "bc1p" v'.pending_invoices ≡ none)
unfolding load
expired_invoice_revived_example =
    expired_invoice_revived enough two entry "t" two world entry refl refl (enough-Pays two refl)
      two-Unconfirmed

-- Nothing is watched yet.
abbrev fresh_world : World String
fresh_world = record world { pending_invoices = []; next_cell = 0 }

fresh_world-Fresh : Fresh fresh_world
unfolding load
fresh_world-Fresh addr p h = ground arith

load_persisted_pending_invoices_lem_example :
    let (r, w') = load_persisted_pending_invoices Kind.btc 300000000000 [] fresh_world in
    (r ≡ ok (reopened 300000000000 tables.invoices))
    × All (HasTime 300000000000) (reopened 300000000000 tables.invoices)
    × AllWatched Kind.btc (reopened 300000000000 tables.invoices) w'
unfolding load
load_persisted_pending_invoices_lem_example =
    load_persisted_pending_invoices_lem Kind.btc 300000000000 fresh_world fresh_world-Fresh (tt, tt)
      (refl, tt)

pub world-IsOwned : IsOwned world
unfolding load
world-IsOwned = record {
  fresh = λ addr p h. ground arith;
  apart = λ a b p q h g e. ground (arith, eq_iff "bc1p" a, eq_iff "bc1p" b);
}

-- A transaction arrives, and its goroutine runs.
abbrev pub dispatched : World String
dispatched = verify_tx_on_mempool enough "t" world

pub dispatched-tasks : dispatched.tasks ≡ verify_mempool entry "t" ∷ []
unfolding verify_tx_on_mempool
dispatched-tasks = refl

Reaches-IsOwned_example :
    IsOwned (verify_mempool_body enough two entry "t" (record dispatched { tasks = [] }))
Reaches-IsOwned_example =
    Reaches-IsOwned enough Kind.btc (kind_generator Kind.btc NetworkType.mainnet_btc) world
      (verify_mempool_body enough two entry "t" (record dispatched { tasks = [] }))
      (further dispatched _ (further world _ here (new_tx "t"))
        (run_verify_mempool two entry "t" [] [] dispatched-tasks))
      world-IsOwned
