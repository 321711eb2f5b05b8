-- ===== src/Processor/Pipeline.antt =====
-- From the processor of a coin to the readers of its invoices: `broadcastUpdatedInvoice`
-- (internal/processor/base.go) sends on the channel `invoiceCn`, from which the goroutine of `load`
-- (internal/processor/main.go) takes.
use goipay.Base.{
  ◌≡◌, refl, ap, sym, ◌∙◌, String, Bool, true, false, List, [], ◌∷◌, ◌++◌, map, append_assoc, arith,
  str_eq, eq_iff, Bool-cases, inl, inr,
}
use goipay.Db.Models.{Invoice}
use goipay.Db.Invoices.{set_confirmed}
use goipay.Processor.State.{PendingInvoice, World, Env, Coin, Task, verify_block, broadcast}
use goipay.Processor.Create.{Generator}
use goipay.Processor.Manager.{Kind}
use goipay.Processor.Steps.{Step, Reaches, here, further}
use goipay.Processor.Lifecycle.{verify_block_body}
use goipay.Processor.Live.{
  IsPaid, Settles, Announces, verify_block-Announces, paid_invoice_confirmed,
}
use goipay.Processor.Subscribers.{
  Subscribers, among, take_invoice, reader_takes, FanOut, register, take, reads, late,
}

pub record System (T : Type 0) : Type 0 where
  pub world : World T
  pub subscribers : Subscribers

abbrev pub is_take : {st next : Subscribers} → FanOut st next → Bool
is_take (register key fresh) = false
is_take (take i) = true
is_take (reads key i before after e) = false
is_take (late key i before after e) = false

module _ {T : Type 0} where
  -- `case b.invoiceCn <- *invoice`: the goroutine of `load` takes the invoice, and the goroutine of
  -- the broadcast ends.
  unfoldable pub broadcast_updated_invoice : Invoice → List (Task T) → System T → System T
  unfolding take_invoice
  broadcast_updated_invoice i rest s = record {
    world = record s.world { tasks = rest };
    subscribers = take_invoice i s.subscribers;
  }

  module _ (coin : Coin T) (kind : Kind) (gen : Generator) where
    -- One step: of the processor, where a broadcast that nobody takes within `SEND_TIMEOUT` is
    -- dropped; a broadcast that is taken; or a step of the readers and their channels.
    pub data Flow (s : System T) : System T → Type 0 where
      processes : (v : World T) → Step coin kind gen s.world v → Flow s (record s { world = v })
      hands_over :
          (i : Invoice) (before after : List (Task T))
          → s.world.tasks ≡ before ++ broadcast i ∷ after
          → Flow s (broadcast_updated_invoice i (before ++ after) s)
      fans_out :
          (st : Subscribers) (f : FanOut s.subscribers st)
          → is_take f ≡ false
          → Flow s (record s { subscribers = st })

    pub data Flows (s : System T) : System T → Type 0 where
      rests : Flows s s
      goes_on : (v u : System T) → Flows s v → Flow v u → Flows s u

    Reaches-Flows :
        (w v : World T) (st : Subscribers)
        → Reaches coin kind gen w v
        → Flows (record { world = w; subscribers = st }) (record { world = v; subscribers = st })
    Reaches-Flows w v st here = rests
    Reaches-Flows w v st (further u _ rs step) =
        goes_on (record { world = u; subscribers = st }) _ (Reaches-Flows w u st rs)
          (processes v step)

-- A send among those under way, and the others around it.
record Sends (key : String) (i : Invoice) (xs : List (String × Invoice)) : Type 0 where
  before : List (String × Invoice)
  after : List (String × Invoice)
  split : xs ≡ before ++ (key, i) ∷ after

map-Sends :
    (key : String) (i : Invoice) (ks : List String)
    → among key ks ≡ true
    → Sends key i (map (λ k. (k, i)) ks)
map-Sends key i [] h = cc
map-Sends key i (k ∷ ks) h = elim (Bool-cases (str_eq k key)) [
  | inl same ↦ record {
    before = [];
    after = map (λ k. (k, i)) ks;
    split = ground (arith, same, eq_iff k key);
  }
  | inr differs ↦
      let rest = map-Sends key i ks (ground (arith, h, differs)) in
      record {
        before = (k, i) ∷ rest.before;
        after = rest.after;
        split = ap (λ xs. (k, i) ∷ xs) rest.split;
      }
]

append-Sends :
    (key : String) (i : Invoice) (xs ys : List (String × Invoice))
    → Sends key i ys
    → Sends key i (xs ++ ys)
append-Sends key i xs ys s = record {
  before = xs ++ s.before;
  after = s.after;
  split = ap (λ zs. xs ++ zs) s.split ∙ sym (append_assoc xs s.before ((key, i) ∷ s.after));
}

module _ {T : Type 0} where
  -- The row is CONFIRMED, the address is not pending any more, and the reader has been given the
  -- confirmed row, and nothing else.
  abbrev pub Tells : System T → Env → String → PendingInvoice → Invoice → String → System T → Type 0
  Tells s env addr p r key v =
      Settles s.world env addr p r v.world
      × (v.subscribers.delivered key ≡ s.subscribers.delivered key ++ set_confirmed env.now r ∷ [])

  module _ (coin : Coin T) (kind : Kind) (gen : Generator) where
    -- An invoice that is paid with enough confirmations. Whenever a goroutine of a block for it runs
    -- in such a state, whichever others are waiting, its row is CONFIRMED, its address is not pending
    -- any more, and the broadcast of the confirmed row is started. And the readers can be told,
    -- whatever is under way: for each reader whose channel is registered there is a run of the
    -- processor and its readers, by a block, its goroutine, one broadcast and one send, to a state
    -- where the row is CONFIRMED, the address is not pending any more, and the reader has got the
    -- confirmed row, and no other invoice in between.
    -- Not every run tells it: a broadcast or a reader may be late.
    pub paid_invoice_can_be_told :
        (s : System T) (env : Env) (addr : String) (p : PendingInvoice) (r : Invoice) (key : String)
        → IsPaid s.world env addr p r
        → among key s.subscribers.registered ≡ true
        → ((before after : List (Task T))
            → s.world.tasks ≡ before ++ verify_block p ∷ after
            → Announces s.world env addr p r
                (verify_block_body env p (record s.world { tasks = before ++ after })))
          × ((v : System T) × Flows coin kind gen s v × Tells s env addr p r key v)
    unfolding broadcast_updated_invoice take_invoice reader_takes
    paid_invoice_can_be_told s env addr p r key paid listens = (
      λ before after started. verify_block-Announces s.world env addr p r (before ++ after) paid,
      let i = set_confirmed env.now r in
          let (w, reached, announced) =
            paid_invoice_confirmed coin kind gen s.world env addr p r paid in
          let s1 : System T = record { world = w; subscribers = s.subscribers } in
          let s2 = broadcast_updated_invoice i (announced.1.before ++ announced.1.after) s1 in
          let sent =
            append-Sends key i s.subscribers.sending (map (λ k. (k, i)) s.subscribers.registered)
              (map-Sends key i s.subscribers.registered listens) in
          let st = reader_takes key i (sent.before ++ sent.after) s2.subscribers in
          (
            record { world = s2.world; subscribers = st },
            goes_on s2 _
                (goes_on s1 s2 (Reaches-Flows coin kind gen s.world w s.subscribers reached)
                  (hands_over i announced.1.before announced.1.after announced.1.split))
                (fans_out st (reads key i sent.before sent.after sent.split) refl),
            (announced.0, ground (arith, eq_iff key key)),
          ),
    )
