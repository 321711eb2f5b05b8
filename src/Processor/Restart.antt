-- ===== src/Processor/Restart.antt =====
-- A start of the processor: `loadPersistedPendingInvoices` of internal/processor/main.go.
use goipay.Base.{
  ◌+◌, ◌≤◌, ◌≡◌, ◌≢◌, refl, String, true, none, some, List, [], ◌∷◌, arith, eq_iff, select, update,
  All,
}
use goipay.Error.{ok}
use goipay.Db.Models.{Time, Invoice, Db}
use goipay.Db.Invoices.{is_open, expires_soon, five_minutes, set_expires_at}
use goipay.SyncMap.{load}
use goipay.Processor.State.{World}
use goipay.Processor.Lifecycle.{handle_invoice}
use goipay.Processor.Manager.{Kind, supports_coin, watch_all, load_persisted_pending_invoices}
use goipay.Processor.Watching.{
  Watches, Fresh, turn, turn-Fresh, watch_all-keeps, handle_invoice-Watches, load-watch,
}

abbrev pub OtherAddress : String → List Invoice → Type 0
OtherAddress addr [] = Unit
OtherAddress addr (i ∷ is) = (addr ≢ i.crypto_address) × OtherAddress addr is

-- No two of the invoices have the same address.
abbrev pub Distinct : List Invoice → Type 0
Distinct [] = Unit
Distinct (i ∷ is) = OtherAddress i.crypto_address is × Distinct is

module _ {T : Type 0} (k : Kind) where
  -- None of the addresses is pending.
  abbrev pub Absent : List Invoice → World T → Type 0
  Absent [] w = Unit
  Absent (i ∷ is) w = (load i.crypto_address w.pending_invoices ≡ none) × Absent is w

  -- Every invoice of a coin that the processor supports is watched.
  abbrev pub AllWatched : List Invoice → World T → Type 0
  AllWatched [] w = Unit
  AllWatched (i ∷ is) w =
      (supports_coin k i.coin ≡ true → Watches i.crypto_address i w) × AllWatched is w

  turn-absent :
      (i : Invoice) (addr : String) (w : World T)
      → i.crypto_address ≢ addr
      → load addr w.pending_invoices ≡ none
      → load addr (turn k i w).pending_invoices ≡ none
  unfolding handle_invoice
  turn-absent i addr w ne h = ground (arith, load-watch i addr w, eq_iff i.crypto_address addr)

  turn-Absent :
      (i : Invoice) (is : List Invoice) (w : World T)
      → OtherAddress i.crypto_address is
      → Absent is w
      → Absent is (turn k i w)
  turn-Absent i [] w o h = tt
  turn-Absent i (j ∷ is) w o h =
      (turn-absent i j.crypto_address w o.0 h.0, turn-Absent i is w o.1 h.1)

  turn-Watches :
      (i : Invoice) (w : World T)
      → load i.crypto_address w.pending_invoices ≡ none
      → supports_coin k i.coin ≡ true
      → Watches i.crypto_address i (turn k i w)
  turn-Watches i w h takes = rw takes (handle_invoice-Watches i w h)

  watch_all-AllWatched :
      (is : List Invoice) (w : World T)
      → Fresh w
      → Distinct is
      → Absent is w
      → AllWatched is (watch_all k is w)
  unfolding watch_all
  watch_all-AllWatched [] w f d a = tt
  watch_all-AllWatched (i ∷ is) w f d a = (
    λ takes.
        watch_all-keeps k is i i.crypto_address (turn k i w) (turn-Fresh k i w f)
          (turn-Watches i w a.0 takes),
    watch_all-AllWatched is (turn k i w) (turn-Fresh k i w f) d.1 (turn-Absent i is w d.0 a.1),
  )

-- The invoice, if it is open, does not expire within five minutes.
abbrev pub HasTime : Time → Invoice → Type 0
HasTime now i = (t : Time) → is_open i ≡ true → i.expires_at ≡ some t → now + five_minutes ≤ t

shifted :
    (now : Time) (is : List Invoice)
    → All (HasTime now) (update (expires_soon now) (set_expires_at (now + five_minutes)) is)
shifted now [] = tt
shifted now (i ∷ is) = ((λ t o e. ground arith), shifted now is)

select-HasTime :
    (now : Time) (is : List Invoice) → All (HasTime now) is → All (HasTime now) (select is_open is)
select-HasTime now [] h = tt
select-HasTime now (i ∷ is) h = ground (arith, select-HasTime now is h.1)

Absent-db :
    {T : Type 0} (k : Kind) (is : List Invoice) (w : World T) (db : Db)
    → Absent k is w
    → Absent k is (record w { db = db })
Absent-db k [] w db a = tt
Absent-db k (i ∷ is) w db a = (a.0, Absent-db k is w db a.1)

-- The invoices that a start loads.
abbrev pub reopened : Time → List Invoice → List Invoice
reopened now is =
    select is_open (update (expires_soon now) (set_expires_at (now + five_minutes)) is)

-- Where the database is reached, a start loads every open invoice, none of which then expires within
-- five minutes; and if the addresses of the open invoices are distinct and
-- none of them is pending, then each of those that the processor supports is watched afterwards: its
-- address has an entry whose pointer holds the invoice.
pub load_persisted_pending_invoices_lem :
    {T : Type 0} (k : Kind) (now : Time) (w : World T)
    → Fresh w
    → Distinct (reopened now w.db.invoices)
    → Absent k (reopened now w.db.invoices) w
    → let (r, w') = load_persisted_pending_invoices k now [] w in
      (r ≡ ok (reopened now w.db.invoices))
      × All (HasTime now) (reopened now w.db.invoices)
      × AllWatched k (reopened now w.db.invoices) w'
unfolding load_persisted_pending_invoices
load_persisted_pending_invoices_lem k now w f d a = (
  refl,
  select-HasTime now _ (shifted now w.db.invoices),
  watch_all-AllWatched k (reopened now w.db.invoices) _ f d
      (Absent-db k (reopened now w.db.invoices) w _ a),
)
