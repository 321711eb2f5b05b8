-- ===== src/Tests/Reused.antt =====
-- Goroutines that outlive their invoice, and meet another one that has its address.
use goipay.Base.{
  ◌≡◌, ◌≢◌, refl, String, false, none, some, [], ◌∷◌, ◌++◌, arith, find, ◌==◌, if◌then◌else◌,
}
use goipay.Coin.{InvoiceStatusType}
use goipay.Db.Models.{Invoice}
use goipay.Db.Invoices.{has_id}
use goipay.Listener.Network.{NetworkType}
use goipay.SyncMap.{load}
use goipay.Processor.State.{
  World, release_address, broadcast, verify_block, PendingInvoice, handle_invoice_helper,
}
use goipay.Processor.Manager.{Kind}
use goipay.Processor.SetUp.{kind_generator}
use goipay.Processor.Again.{Reused, ConfirmsAgain, stale_block-ConfirmsAgain}
use goipay.Processor.Steps.{Step}
use goipay.Processor.Stale.{stale_timer_unwatches}
use goipay.Tests.Data.{open_invoice, tables}
use goipay.Tests.Lives.{entry, world, two, three, enough, paid_invoice}

-- An invoice whose payment was dropped, and the one that has its address now.
abbrev dropped_invoice : Invoice
dropped_invoice = record paid_invoice { status = InvoiceStatusType.expired }

abbrev successor : Invoice
successor = record open_invoice { id = some 91 }

abbrev reused_world : World String
reused_world = record world {
  db = record tables { invoices = dropped_invoice ∷ successor ∷ [] };
  cell = λ p. successor;
  tasks = handle_invoice_helper 7 dropped_invoice ∷ [];
}

apart : dropped_invoice.id ≢ successor.id
apart e = ground arith

stale_timer_unwatches_example :
    (v : World String) × Step enough Kind.btc
      (kind_generator Kind.btc NetworkType.mainnet_btc)
      reused_world
      v
    × (load "bc1p" v.pending_invoices ≡ none)
    × (find (has_id (some 91)) v.db.invoices ≡ some successor)
    × (v.tasks ≡ ([] ++ release_address dropped_invoice ∷ []) ++ broadcast dropped_invoice ∷ [])
unfolding load
stale_timer_unwatches_example =
    stale_timer_unwatches enough Kind.btc (kind_generator Kind.btc NetworkType.mainnet_btc) two
      reused_world dropped_invoice successor dropped_invoice entry 7 [] [] refl refl refl refl refl
      apart refl refl refl

-- The same with an invoice that was confirmed: a second block had started its goroutine before.
abbrev settled_invoice : Invoice
settled_invoice = record paid_invoice { status = InvoiceStatusType.confirmed }

abbrev other_entry : PendingInvoice
other_entry = record { invoice = 8; cancel_timeout = 8 }

abbrev settled_world : World String
settled_world = record world {
  db = record tables { invoices = settled_invoice ∷ successor ∷ [] };
  cell = λ p. if p == 8 then successor else paid_invoice;
  pending_invoices = ("bc1p", other_entry) ∷ [];
  tasks = [];
}

settled_world-Reused : Reused three entry other_entry settled_invoice successor settled_world
unfolding load
settled_world-Reused = record {
  h = "t";
  tx = record { get_tx_id = "t"; get_confirmations = 3; is_double_spend_seen = false };
  due = record {
    rest = [];
    entry = other_entry;
    has_tx = refl;
    answered = refl;
    kept = refl;
    enough = omega arith;
    is_pending = refl;
    live = refl;
    reached = refl;
    free = refl;
    stored = refl;
  };
  settled = refl;
  reached = refl;
  holds = refl;
  differs = apart;
  mine = refl;
}

stale_block-ConfirmsAgain_example :
    (v : World String) × Step enough Kind.btc
      (kind_generator Kind.btc NetworkType.mainnet_btc)
      (record settled_world { tasks = verify_block entry ∷ [] })
      v
    × ConfirmsAgain three entry other_entry settled_invoice successor settled_world v
stale_block-ConfirmsAgain_example =
    stale_block-ConfirmsAgain enough Kind.btc (kind_generator Kind.btc NetworkType.mainnet_btc)
      three entry other_entry settled_invoice successor
      (record settled_world { tasks = verify_block entry ∷ [] }) [] [] refl settled_world-Reused
