-- ===== src/Tests/Runs.antt =====
-- Runs of one processor: a payment that is recorded, one that is confirmed by a block, a timer that
-- fires too late; a block that is lost; and a reader that is late.
use goipay.Base.{◌++◌, ◌≡◌, refl, String, true, false, none, some, List, [], ◌∷◌, All, arith, inr}
use goipay.Error.{Error, ok, err}
use goipay.Db.Models.{Invoice}
use goipay.Db.Invoices.{set_confirmed}
use goipay.Db.Ledger.{Fits, Extends, evolved_refl}
use goipay.Db.Ledger.Queries.{Keeps}
use goipay.Listener.Network.{NetworkType}
use goipay.Listener.Tx.{EthClient, EthTransaction}
use goipay.Listener.Client.{Block, eth_client}
use goipay.Listener.Executor.{sync_transaction_pool}
use goipay.SyncMap.{load}
use goipay.SyncMap.Refines.{
  Call, loads, stores, deletes, run_calls, spec_calls, Represents, run_calls-Represents,
}
use goipay.Processor.State.{World, Env, release_address, broadcast, Task, verify_block}
use goipay.Processor.Lifecycle.{verify_mempool_body, verify_block_body}
use goipay.Processor.Manager.{Kind}
use goipay.Processor.SetUp.{kind_generator}
use goipay.Processor.Dispatch.{on_new_block, on_block, later, first, on_block-Unanswered}
use goipay.Processor.Steps.{here, further, new_tx, run_verify_mempool}
use goipay.Processor.Ledger.Reached.{Reaches-Extends}
use goipay.Processor.Live.{IsPaid, Announces}
use goipay.Processor.Pipeline.{System, Flows, Tells, paid_invoice_can_be_told}
use goipay.Processor.Lost.{Unstored, unstored_confirmation_lost}
use goipay.Processor.Subscribers.{
  Subscribers, take_invoice, still, more, take, among, reader_late, late_reader_silenced,
}
use goipay.Tests.Data.{open_invoice}
use goipay.Tests.Lives.{
  entry, world, two, three, enough, dispatched, dispatched-tasks, paid_invoice,
}

enough-Keeps : (i : Invoice) (t : String) → Keeps (enough.verify_tx_handler i t)
enough-Keeps i t s = evolved_refl s.db.invoices

abbrev recorded : World String
recorded = verify_mempool_body enough two entry "t" (record dispatched { tasks = [] })

Reaches-Extends_example :
    Extends world.db.invoices recorded.db.invoices
    × (All Fits world.db.invoices → All Fits recorded.db.invoices)
Reaches-Extends_example =
    Reaches-Extends enough Kind.btc NetworkType.mainnet_btc enough-Keeps world recorded (
      further dispatched _ (further world _ here (new_tx "t"))
        (run_verify_mempool two entry "t" [] [] dispatched-tasks))

-- The invoice has its transaction, and the daemon reports three confirmations.
abbrev paid_world : World String
paid_world = record world { cell = λ p. paid_invoice }

paid_world-IsPaid : IsPaid paid_world three "bc1p" entry open_invoice
unfolding load
paid_world-IsPaid = record {
  h = "t";
  tx = record { get_tx_id = "t"; get_confirmations = 3; is_double_spend_seen = false };
  watched = refl;
  address = refl;
  due = record {
    rest = [];
    entry = entry;
    has_tx = refl;
    answered = refl;
    kept = refl;
    enough = omega arith;
    is_pending = refl;
    live = refl;
    reached = refl;
    free = refl;
    stored = refl;
  };
  reached = refl;
}

abbrev pub one_reader : Subscribers
one_reader = record {
  registered = "other" ∷ "reader" ∷ [];
  used = "other" ∷ "reader" ∷ [];
  delivered = λ key. [];
  sending = [];
}

paid_invoice_can_be_told_example :
    ((before after : List (Task String))
      → paid_world.tasks ≡ before ++ verify_block entry ∷ after
      → Announces paid_world three "bc1p" entry open_invoice
          (verify_block_body three entry (record paid_world { tasks = before ++ after })))
    × ((v : System String) × Flows enough Kind.btc
          (kind_generator Kind.btc NetworkType.mainnet_btc)
          (record { world = paid_world; subscribers = one_reader })
          v
        × Tells
            (record { world = paid_world; subscribers = one_reader })
            three
            "bc1p"
            entry
            open_invoice
            "reader"
            v)
paid_invoice_can_be_told_example =
    paid_invoice_can_be_told enough Kind.btc (kind_generator Kind.btc NetworkType.mainnet_btc)
      (record { world = paid_world; subscribers = one_reader }) three "bc1p" entry open_invoice
      "reader" paid_world-IsPaid refl

-- The same, but the commit does not reach the database.
abbrev unreached : Env
unreached = record three { faults = false ∷ false ∷ true ∷ [] }

paid_world-Unstored : Unstored paid_world unreached entry open_invoice
unfolding load
paid_world-Unstored = record {
  h = "t";
  tx = record { get_tx_id = "t"; get_confirmations = 3; is_double_spend_seen = false };
  rest = [];
  entry = entry;
  later = [];
  has_tx = refl;
  answered = refl;
  kept = refl;
  enough = omega arith;
  is_pending = refl;
  free = refl;
  stored = refl;
  unreached = refl;
}

unstored_confirmation_lost_example :
    let v = verify_block_body unreached entry paid_world in
    (v.db ≡ paid_world.db)
    × (load "bc1p" v.pending_invoices ≡ none)
    × (v.cancelled ≡ entry.cancel_timeout ∷ [])
    × (v.tasks ≡ release_address paid_invoice ∷ broadcast (set_confirmed 5 open_invoice) ∷ [])
unstored_confirmation_lost_example =
    unstored_confirmation_lost paid_world unreached entry paid_world-Unstored

-- The second of a block's transactions has no receipt yet.
abbrev transaction : EthTransaction
transaction = record { hash = "0x1"; to = some 5; value = 1000 }

abbrev half_client : EthClient
half_client = record {
  block_number = ok 100;
  transaction_by_hash = λ h. ok transaction;
  transaction_receipt = λ h. err Error.daemon;
  block_by_number = λ n. ok ("0x1" ∷ "0x2" ∷ []);
  network_id = ok 1;
}

abbrev block : Block
block = record { get_tx_hashes = "0x1" ∷ "0x2" ∷ [] }

on_block-Unanswered_example :
    (on_block (eth_client half_client) block ≡ on_new_block ∷ [])
    × ((sync_transaction_pool
          (λ g. (eth_client half_client).get_transactions (g ∷ []))
          (eth_client half_client).get_transaction_pool
          []).1
        ≡ [])
on_block-Unanswered_example =
    on_block-Unanswered half_client block "0x2" [] (later "0x1" ("0x2" ∷ []) (first []))
      (inr (Error.daemon, refl))

-- The reader is late for an invoice, and another one comes.
abbrev one_send : Subscribers
one_send = record {
  registered = "k" ∷ [];
  used = "k" ∷ [];
  delivered = λ k. [];
  sending = ("k", open_invoice) ∷ [];
}

late_reader_silenced_example :
    (among "k" (take_invoice open_invoice (reader_late "k" [] one_send)).registered ≡ false)
    × ((take_invoice open_invoice (reader_late "k" [] one_send)).delivered "k" ≡ [])
late_reader_silenced_example =
    late_reader_silenced "k" open_invoice [] [] one_send
      (take_invoice open_invoice (reader_late "k" [] one_send)) refl refl refl
      (more (reader_late "k" [] one_send) _ still (take open_invoice))

abbrev calls : List (Call String)
calls = stores "a" "x" ∷ loads "a" ∷ deletes "a" ∷ loads "a" ∷ []

empty-Represents : Represents {V = String} [] (λ k. none)
unfolding load
empty-Represents k = refl

run_calls-Represents_example :
    ((run_calls calls []).0 ≡ (spec_calls calls (λ k. none)).0)
    × Represents (run_calls calls []).1 (spec_calls calls (λ k. none)).1
run_calls-Represents_example = run_calls-Represents calls [] (λ k. none) empty-Represents
