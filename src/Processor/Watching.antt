-- ===== src/Processor/Watching.antt =====
-- How invoices are watched: `loadPersistedPendingInvoices` of
-- internal/processor/main.go with `handleInvoice` of internal/processor/base.go.
use goipay.Base.{
  ◌<◌, ◌≡◌, inl, inr, String, none, some, List, [], ◌∷◌, arith, Bool-cases, Option-cases, eq_iff,
  str_eq, if◌then◌else◌,
}
use goipay.Db.Models.{Invoice}
use goipay.SyncMap.{load, load-store}
use goipay.Processor.State.{PendingInvoice, World}
use goipay.Processor.Lifecycle.{handle_invoice, watch}
use goipay.Processor.Manager.{Kind, supports_coin, watch_all}

module _ {T : Type 0} where
  -- The entry under an address, and the invoice that its pointer holds.
  abbrev pub Watches : String → Invoice → World T → Type 0
  Watches addr i w =
      (p : PendingInvoice) × (load addr w.pending_invoices ≡ some p) × (w.cell p.invoice ≡ i)

  -- No pointer that is still to be made is in use.
  abbrev pub Fresh : World T → Type 0
  Fresh w =
      (addr : String) (p : PendingInvoice)
      → load addr w.pending_invoices ≡ some p
      → p.invoice < w.next_cell

  abbrev pub new_entry : World T → PendingInvoice
  new_entry w = record { invoice = w.next_cell; cancel_timeout = w.next_cell }

  pub load-watch :
      (i : Invoice) (addr : String) (w : World T)
      → load addr (watch i w).pending_invoices ≡ (
          if str_eq i.crypto_address addr then some (new_entry w) else load addr w.pending_invoices)
  load-watch i addr w = load-store i.crypto_address addr (new_entry w) w.pending_invoices

  pub handle_invoice-Watches :
      (i : Invoice) (w : World T)
      → load i.crypto_address w.pending_invoices ≡ none
      → Watches i.crypto_address i (handle_invoice i w)
  unfolding handle_invoice
  handle_invoice-Watches i w h = rw h (
    new_entry w,
    ground (arith, load-watch i i.crypto_address w, eq_iff i.crypto_address i.crypto_address),
    ground arith,
  )

  -- A second invoice for an address that is pending is not watched.
  handle_invoice-pending :
      (i : Invoice) (w : World T) {p : PendingInvoice}
      → load i.crypto_address w.pending_invoices ≡ some p
      → handle_invoice i w ≡ w
  unfolding handle_invoice
  handle_invoice-pending i w h = ground arith

  handle_invoice-Fresh : (i : Invoice) (w : World T) → Fresh w → Fresh (handle_invoice i w)
  unfolding handle_invoice
  handle_invoice-Fresh i w f addr p =
      elim (Option-cases (load i.crypto_address w.pending_invoices)) [
        | inl absent ↦ rw absent (λ h. ground (arith, f addr p, load-watch i addr w))
        | inr (q, present) ↦ rw present (λ h. f addr p h)
      ]

  watch-keeps :
      (i j : Invoice) (addr : String) (w : World T)
      → Fresh w
      → load i.crypto_address w.pending_invoices ≡ none
      → Watches addr j w
      → Watches addr j (watch i w)
  watch-keeps i j addr w f absent (p, h, e) = (
    p,
    ground (arith, load-watch i addr w, eq_iff i.crypto_address addr),
    ground (arith, f addr p h),
  )

  handle_invoice-keeps :
      (i j : Invoice) (addr : String) (w : World T)
      → Fresh w
      → Watches addr j w
      → Watches addr j (handle_invoice i w)
  unfolding handle_invoice
  handle_invoice-keeps i j addr w f h =
      elim (Option-cases (load i.crypto_address w.pending_invoices)) [
        | inl absent ↦ rw absent (watch-keeps i j addr w f absent h)
        | inr (q, present) ↦ rw present h
      ]

  -- What an invoice's turn in the loop does, and the invoices that the loop has to watch.
  abbrev pub turn : Kind → Invoice → World T → World T
  turn k i w = if supports_coin k i.coin then handle_invoice i w else w

  pub turn-Fresh : (k : Kind) (i : Invoice) (w : World T) → Fresh w → Fresh (turn k i w)
  turn-Fresh k i w f = elim (Bool-cases (supports_coin k i.coin)) [
    | inl takes ↦ rw takes (handle_invoice-Fresh i w f)
    | inr leaves ↦ rw leaves f
  ]

  pub turn-keeps :
      (k : Kind) (i j : Invoice) (addr : String) (w : World T)
      → Fresh w
      → Watches addr j w
      → Watches addr j (turn k i w)
  turn-keeps k i j addr w f h = elim (Bool-cases (supports_coin k i.coin)) [
    | inl takes ↦ rw takes (handle_invoice-keeps i j addr w f h)
    | inr leaves ↦ rw leaves h
  ]

  pub watch_all-keeps :
      (k : Kind) (is : List Invoice) (j : Invoice) (addr : String) (w : World T)
      → Fresh w
      → Watches addr j w
      → Watches addr j (watch_all k is w)
  unfolding watch_all
  watch_all-keeps k [] j addr w f h = h
  watch_all-keeps k (i ∷ is) j addr w f h =
      watch_all-keeps k is j addr (turn k i w) (turn-Fresh k i w f) (turn-keeps k i j addr w f h)
