-- ===== src/Processor/Told/Readers.antt =====
-- What the readers of a coin's processor are told (internal/processor/base.go, internal/processor/main.go).
use goipay.Base.{◌≡◌, subst, String, false, List, [], ◌∷◌, map, All, str_eq, Bool-cases, inl, inr}
use goipay.Db.Models.{Invoice}
use goipay.Db.Ledger.Queries.{Keeps}
use goipay.Listener.Network.{NetworkType}
use goipay.Processor.State.{World, Coin, broadcast}
use goipay.Processor.Create.{Generator}
use goipay.Processor.Manager.{Kind}
use goipay.Processor.SetUp.{kind_generator}
use goipay.Processor.Subscribers.{
  Subscribers, new_invoices_chan, take_invoice, reader_takes, reader_late, FanOut, register, take,
  reads, late,
}
use goipay.Processor.Pipeline.{
  System, is_take, broadcast_updated_invoice, Flow, processes, hands_over, fans_out, Flows, rests,
  goes_on,
}
use goipay.Processor.Ledger.Created.{GeneratorKeeps}
use goipay.Processor.Ledger.Reached.{kind_generator-Keeps}
use goipay.Processor.Linked.{asked, LinkedTo}
use goipay.Processor.Linked.Reached.{IsFresh}
use goipay.Processor.Told.{Distinct, OnTask, append-All, All-split, carried-All}
use goipay.Processor.Steps.{Step}
use goipay.Processor.Told.Steps.{NotNew, Step-Tells}

abbrev OnSend : (Invoice → Type 0) → String × Invoice → Type 0
OnSend P x = P x.1

-- What holds of every invoice that is being sent to a reader or has been given to one.
pub record AtReaders (P : Invoice → Type 0) (st : Subscribers) : Type 0 where
  pub sending : All (OnSend P) st.sending
  pub delivered : (key : String) → All P (st.delivered key)

map-All :
    (P : Invoice → Type 0) (i : Invoice) (keys : List String)
    → P i
    → All (OnSend P) (map (λ k. (k, i)) keys)
map-All P i [] h = tt
map-All P i (k ∷ keys) h = (h, map-All P i keys h)

take_invoice-AtReaders :
    (P : Invoice → Type 0) (i : Invoice) (st : Subscribers)
    → P i
    → AtReaders P st
    → AtReaders P (take_invoice i st)
unfolding take_invoice
take_invoice-AtReaders P i st h a = record {
  sending =
      append-All (OnSend P) st.sending (map (λ k. (k, i)) st.registered) a.sending
        (map-All P i st.registered h);
  delivered = a.delivered;
}

FanOut-AtReaders :
    (P : Invoice → Type 0) (st next : Subscribers) (f : FanOut st next)
    → is_take f ≡ false
    → AtReaders P st
    → AtReaders P next
unfolding new_invoices_chan reader_takes reader_late
FanOut-AtReaders P st next (register key fresh) n a = record {
  sending = a.sending;
  delivered = a.delivered;
}
FanOut-AtReaders P st next (take i) n a = cc
FanOut-AtReaders P st next (reads key i before after e) n a =
    let sent = All-split (OnSend P) before after (key, i) (subst (All (OnSend P)) e a.sending) in
    record {
      sending = sent.1;
      delivered = λ k. elim (Bool-cases (str_eq k key)) [
        | inl same ↦ rw same (append-All P (st.delivered k) (i ∷ []) (a.delivered k) (sent.0, tt))
        | inr other ↦ rw other (a.delivered k)
      ];
    }
FanOut-AtReaders P st next (late key i before after e) n a = record {
  sending = (All-split (OnSend P) before after (key, i) (subst (All (OnSend P)) e a.sending)).1;
  delivered = a.delivered;
}

module _ {T : Type 0} where
  -- What holds of every invoice that is broadcast, being sent or given to a reader.
  pub record Everywhere (P : Invoice → Type 0) (s : System T) : Type 0 where
    pub tasks : All (OnTask P) s.world.tasks
    pub readers : AtReaders P s.subscribers

  -- No two rows share an id and differ in what was asked for, and every invoice that is broadcast,
  -- being sent or given to a reader has what was asked for as the row of its id has it.
  pub record IsTold (s : System T) : Type 0 where
    pub distinct : Distinct s.world.db.invoices
    pub everywhere : Everywhere (λ i. LinkedTo s.world.db.invoices (asked i)) s

  module _ (coin : Coin T) (kind : Kind) (gen : Generator) where
    -- A new invoice gets a UUID that no row, no pointer and no invoice on its way has.
    abbrev pub IsFreshFlow : {s v : System T} → Flow coin kind gen s v → Type 0
    IsFreshFlow {s} (processes v step) =
        IsFresh coin kind gen step × Everywhere (NotNew coin kind gen step) s
    IsFreshFlow _ = Unit

    abbrev pub AllFreshFlows : {s v : System T} → Flows coin kind gen s v → Type 0
    AllFreshFlows rests = Unit
    AllFreshFlows (goes_on v u fs f) = AllFreshFlows fs × IsFreshFlow f

    module _ (coin-keeps : (i : Invoice) (t : T) → Keeps (coin.verify_tx_handler i t))
        (gen-keeps : GeneratorKeeps gen) where
      processes-IsTold :
          (s : System T) (v : World T) (step : Step coin kind gen s.world v)
          → IsFresh coin kind gen step
          → Everywhere (NotNew coin kind gen step) s
          → IsTold s
          → IsTold (record s { world = v })
      processes-IsTold s v step fresh others t =
          let tells =
            Step-Tells coin kind gen coin-keeps gen-keeps s.world v step fresh others.tasks
              t.distinct t.everywhere.tasks in
          record {
            distinct = tells.distinct;
            everywhere = record {
              tasks = tells.told;
              readers = record {
                sending =
                    carried-All (λ x. LinkedTo s.world.db.invoices (asked x.1))
                      (λ x. NotNew coin kind gen step x.1) (λ x. LinkedTo v.db.invoices (asked x.1))
                      s.subscribers.sending (λ x. tells.carries x.1) others.readers.sending
                      t.everywhere.readers.sending;
                delivered = λ key.
                    carried-All (λ i. LinkedTo s.world.db.invoices (asked i))
                      (NotNew coin kind gen step) (λ i. LinkedTo v.db.invoices (asked i))
                      (s.subscribers.delivered key) tells.carries (others.readers.delivered key)
                      (t.everywhere.readers.delivered key);
              };
            };
          }

      Flow-IsTold :
          (s v : System T) (f : Flow coin kind gen s v) → IsFreshFlow f → IsTold s → IsTold v
      unfolding broadcast_updated_invoice
      Flow-IsTold s v (processes w step) fresh t = processes-IsTold s w step fresh.0 fresh.1 t
      Flow-IsTold s v (hands_over i before after e) fresh t =
          let P : Invoice → Type 0 = λ j. LinkedTo s.world.db.invoices (asked j) in
          let handed =
            All-split (OnTask P) before after (broadcast i)
              (subst (All (OnTask P)) e t.everywhere.tasks) in
          record {
            distinct = t.distinct;
            everywhere = record {
              tasks = handed.1;
              readers = take_invoice-AtReaders P i s.subscribers handed.0 t.everywhere.readers;
            };
          }
      Flow-IsTold s v (fans_out st f n) fresh t = record {
        distinct = t.distinct;
        everywhere = record {
          tasks = t.everywhere.tasks;
          readers =
              FanOut-AtReaders (λ j. LinkedTo s.world.db.invoices (asked j)) s.subscribers st f n
                t.everywhere.readers;
        };
      }

-- Every invoice that a reader is ever given, and every one that is on its way to one, has the
-- address, the amount, the confirmations and all else that was asked for as the row of its id has it,
-- where there is such a row; whatever the order of the goroutines, the sends and the readers, and
-- whatever the daemon and the database answer, commits that fail included; if that held at first, the
-- handler that looks at transactions writes no invoice, and every new invoice gets a UUID that is not
-- in use.
pub Flows-IsTold :
    {T : Type 0} (coin : Coin T) (kind : Kind) (net : NetworkType)
    → ((i : Invoice) (t : T) → Keeps (coin.verify_tx_handler i t))
    → (s v : System T) (fs : Flows coin kind (kind_generator kind net) s v)
    → AllFreshFlows coin kind (kind_generator kind net) fs
    → IsTold s
    → IsTold v
Flows-IsTold coin kind net coin-keeps s v rests fresh t = t
Flows-IsTold coin kind net coin-keeps s v (goes_on u _ fs f) fresh t =
    Flow-IsTold coin kind (kind_generator kind net) coin-keeps (kind_generator-Keeps kind net) u v f
      fresh.1 (Flows-IsTold coin kind net coin-keeps s u fs fresh.0 t)
