-- ===== src/Tests/Links.antt =====
-- An invoice is asked for, and then a transaction arrives, or the readers are told of it.
use goipay.Base.{◌≡◌, ◌∷◌, ◌++◌, refl, String, [], arith, eq_iff}
use goipay.Db.Models.{Invoice}
use goipay.Db.Ledger.{evolved_refl}
use goipay.Db.Ledger.Queries.{Keeps}
use goipay.Listener.Network.{NetworkType}
use goipay.SyncMap.{load}
use goipay.Processor.State.{World, handle_invoice_helper, broadcast}
use goipay.Processor.Create.{Generator, create_invoice}
use goipay.Processor.Lifecycle.{verify_tx_on_mempool, handle_invoice}
use goipay.Processor.Manager.{Kind, supports_coin, handle_invoice_pb_req}
use goipay.Processor.SetUp.{kind_generator}
use goipay.Processor.Steps.{further, here, new_invoice, new_tx}
use goipay.Processor.Linked.{IsLinked}
use goipay.Processor.Linked.Reached.{Reaches-IsLinked}
use goipay.Processor.Created.{created}
use goipay.Processor.Subscribers.{reads, take_invoice, reader_takes}
use goipay.Processor.Pipeline.{
  System, broadcast_updated_invoice, processes, hands_over, fans_out, rests, goes_on,
}
use goipay.Processor.Told.Readers.{IsTold, Flows-IsTold}
use goipay.Tests.Runs.{one_reader}
use goipay.Tests.Lives.{world, world-IsOwned, enough}
use goipay.Tests.Requests.{create_env, request}

enough-Keeps : (i : Invoice) (t : String) → Keeps (enough.verify_tx_handler i t)
enough-Keeps i t s = evolved_refl s.db.invoices

world-IsLinked : IsLinked world
unfolding load
world-IsLinked = record {
  owned = world-IsOwned;
  rows = λ p. ((λ _. refl), tt);
  keyed = λ addr p h. ground (arith, eq_iff "bc1p" addr);
}

abbrev generator : Generator
generator = kind_generator Kind.btc NetworkType.mainnet_btc

abbrev asked_for : World String
asked_for = (handle_invoice_pb_req Kind.btc create_env [] generator request world).1

Reaches-IsLinked_example : IsLinked (verify_tx_on_mempool enough "t" asked_for)
Reaches-IsLinked_example =
    Reaches-IsLinked enough Kind.btc NetworkType.mainnet_btc enough-Keeps world
      (verify_tx_on_mempool enough "t" asked_for)
      (further asked_for _ (further world _ here (new_invoice create_env [] request)) (new_tx "t"))
      ((tt, (refl, λ p. refl)), tt) world-IsLinked

-- The new invoice, and how a reader gets it.
abbrev new : Invoice
new = created create_env generator request 7 "bc1q"

asked_for-tasks : asked_for.tasks ≡ (handle_invoice_helper 1 new ∷ []) ++ broadcast new ∷ []
unfolding handle_invoice_pb_req create_invoice handle_invoice load supports_coin
asked_for-tasks = refl

abbrev at_first : System String
at_first = record { world = world; subscribers = one_reader }

abbrev handed_over : System String
handed_over =
    broadcast_updated_invoice new (handle_invoice_helper 1 new ∷ [])
      (record { world = asked_for; subscribers = one_reader })

handed_over-sending :
    handed_over.subscribers.sending ≡ (("other", new) ∷ []) ++ ("reader", new) ∷ []
unfolding broadcast_updated_invoice take_invoice
handed_over-sending = refl

abbrev given : System String
given = record handed_over {
  subscribers = reader_takes "reader" new (("other", new) ∷ []) handed_over.subscribers;
}

at_first-IsTold : IsTold at_first
at_first-IsTold = record {
  distinct = (((λ _. refl), tt), tt);
  everywhere = record { tasks = tt; readers = record { sending = tt; delivered = λ key. tt } };
}

Flows-IsTold_example : IsTold given
Flows-IsTold_example =
    Flows-IsTold enough Kind.btc NetworkType.mainnet_btc enough-Keeps at_first given
      (goes_on handed_over given
        (goes_on (record { world = asked_for; subscribers = one_reader }) handed_over
          (goes_on at_first (record { world = asked_for; subscribers = one_reader }) rests
            (processes asked_for (new_invoice create_env [] request)))
          (hands_over new (handle_invoice_helper 1 new ∷ []) [] asked_for-tasks))
        (fans_out (reader_takes "reader" new (("other", new) ∷ []) handed_over.subscribers)
          (reads "reader" new (("other", new) ∷ []) [] handed_over-sending) refl))
      (
        (
          (
            tt,
            (
              (refl, λ p. refl),
              record { tasks = tt; readers = record { sending = tt; delivered = λ key. tt } },
            ),
          ),
          tt,
        ),
        tt,
      )
      at_first-IsTold
