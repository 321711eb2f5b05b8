-- ===== src/Processor/Subscribers.antt =====
-- The subscribers of `PaymentProcessor` (internal/processor/main.go): `NewInvoicesChan`, and the
-- goroutine of `load` that passes every invoice that changed on to all of them. Each send is a
-- goroutine of its own, so the sends are steps, in any order.
use goipay.Base.{
  ◌≡◌, refl, ap, ◌∙◌, sym, String, Bool, true, false, not, List, [], ◌∷◌, ◌++◌, map, arith, exists,
  select, str_eq, eq_iff, if◌then◌else◌,
}
use goipay.Db.Models.{Invoice}

-- `newInvoicesCns`: the keys of the channels that are registered; the keys that were ever given out;
-- what each channel has passed on to its reader; and the goroutines that are sending.
pub record Subscribers : Type 0 where
  pub registered : List String
  pub used : List String
  pub delivered : String → List Invoice
  pub sending : List (String × Invoice)

abbrev pub among : String → List String → Bool
among key = exists (λ k. str_eq k key)

-- `NewInvoicesChan`, under the key that `uuid.NewString()` gives
unfoldable pub new_invoices_chan : String → Subscribers → Subscribers
new_invoices_chan key st = record st { registered = key ∷ st.registered; used = key ∷ st.used }

-- The goroutine of `load` takes an invoice, and starts a send for each channel that is registered.
unfoldable pub take_invoice : Invoice → Subscribers → Subscribers
take_invoice i st = record st { sending = st.sending ++ map (λ key. (key, i)) st.registered }

-- The reader takes the invoice.
unfoldable pub reader_takes : String → Invoice → List (String × Invoice) → Subscribers → Subscribers
reader_takes key i rest st = record st {
  delivered = λ k. if str_eq k key then st.delivered k ++ i ∷ [] else st.delivered k;
  sending = rest;
}

abbrev is_other : String → String → Bool
is_other key k = not (str_eq k key)

-- `SEND_TIMEOUT` passes before the reader takes it: the channel is deleted, and not closed.
unfoldable pub reader_late : String → List (String × Invoice) → Subscribers → Subscribers
reader_late key rest st = record st {
  registered = select (is_other key) st.registered;
  sending = rest;
}

-- One step; a new key is one that was never given out. A send that ends because the program does is
-- no step.
pub data FanOut (st : Subscribers) : Subscribers → Type 0 where
  register : (key : String) → among key st.used ≡ false → FanOut st (new_invoices_chan key st)
  take : (i : Invoice) → FanOut st (take_invoice i st)
  reads :
      (key : String) (i : Invoice) (before after : List (String × Invoice))
      → st.sending ≡ before ++ (key, i) ∷ after
      → FanOut st (reader_takes key i (before ++ after) st)
  late :
      (key : String) (i : Invoice) (before after : List (String × Invoice))
      → st.sending ≡ before ++ (key, i) ∷ after
      → FanOut st (reader_late key (before ++ after) st)

pub data FanOuts (st : Subscribers) : Subscribers → Type 0 where
  still : FanOuts st st
  more : (mid last : Subscribers) → FanOuts st mid → FanOut mid last → FanOuts st last

abbrev pub is_to : String → String × Invoice → Bool
is_to key (k, _) = str_eq k key

-- A channel that was registered once, is not any more, and to which nothing is being sent.
pub record Silent (key : String) (st : Subscribers) : Type 0 where
  pub given : among key st.used ≡ true
  pub gone : among key st.registered ≡ false
  pub quiet : exists (is_to key) st.sending ≡ false

exists-append :
    {A : Type 0} (p : A → Bool) (xs ys : List A)
    → exists p xs ≡ false
    → exists p ys ≡ false
    → exists p (xs ++ ys) ≡ false
exists-append p [] ys h g = g
exists-append p (x ∷ xs) ys h g = ground (arith, exists-append p xs ys)

exists-without :
    {A : Type 0} (p : A → Bool) (xs ys : List A) (y : A)
    → exists p (xs ++ y ∷ ys) ≡ false
    → (exists p (xs ++ ys) ≡ false) × (p y ≡ false)
exists-without p [] ys y h = (ground arith, ground arith)
exists-without p (x ∷ xs) ys y h =
    (ground (arith, exists-without p xs ys y), ground (arith, exists-without p xs ys y))

sends_to :
    (key : String) (i : Invoice) (ks : List String)
    → among key ks ≡ false
    → exists (is_to key) (map (λ k. (k, i)) ks) ≡ false
sends_to key i [] h = refl
sends_to key i (k ∷ ks) h = ground (arith, sends_to key i ks)

select-among :
    (key k : String) (ks : List String)
    → among key ks ≡ false
    → among key (select (is_other k) ks) ≡ false
select-among key k [] h = refl
select-among key k (j ∷ ks) h = ground (arith, select-among key k ks)

-- A step leaves a silent channel silent, and passes nothing on to its reader.
FanOut-Silent :
    (key : String) (st next : Subscribers)
    → FanOut st next
    → Silent key st
    → Silent key next × (next.delivered key ≡ st.delivered key)
unfolding new_invoices_chan take_invoice reader_takes reader_late
FanOut-Silent key st next (register k fresh) s = (
  record {
    given = ground (arith, s.given);
    gone = ground (arith, s.gone, s.given, fresh, eq_iff k key);
    quiet = s.quiet;
  },
  refl,
)
FanOut-Silent key st next (take i) s = (
  record {
    given = s.given;
    gone = s.gone;
    quiet = exists-append (is_to key) st.sending _ s.quiet (sends_to key i st.registered s.gone);
  },
  refl,
)
FanOut-Silent key st next (reads k i before after e) s =
    let q =
      exists-without (is_to key) before after (k, i) (ap (exists (is_to key)) (sym e) ∙ s.quiet) in
    (
      record { given = s.given; gone = s.gone; quiet = q.0 },
      ground (arith, q.1, eq_iff key k, eq_iff k key),
    )
FanOut-Silent key st next (late k i before after e) s =
    let q =
      exists-without (is_to key) before after (k, i) (ap (exists (is_to key)) (sym e) ∙ s.quiet) in
    (record { given = s.given; gone = select-among key k st.registered s.gone; quiet = q.0 }, refl)

FanOuts-Silent :
    (key : String) (st last : Subscribers)
    → FanOuts st last
    → Silent key st
    → Silent key last × (last.delivered key ≡ st.delivered key)
FanOuts-Silent key st last still s = (s, refl)
FanOuts-Silent key st last (more mid _ fs f) s =
    let (s', e) = FanOuts-Silent key st mid fs s in
    let (s'', e') = FanOut-Silent key mid last f s' in (s'', e' ∙ e)

deleted-among : (key : String) (ks : List String) → among key (select (is_other key) ks) ≡ false
deleted-among key [] = refl
deleted-among key (k ∷ ks) = ground (arith, deleted-among key ks, eq_iff k key)

-- Where a reader is late for one invoice and no other send to it is under way, it gets no invoice any
-- more, neither that one nor a later one, whatever happens: its channel is never registered again,
-- although it is not closed.
pub late_reader_silenced :
    (key : String) (i : Invoice) (before after : List (String × Invoice)) (st last : Subscribers)
    → st.sending ≡ before ++ (key, i) ∷ after
    → among key st.used ≡ true
    → exists (is_to key) (before ++ after) ≡ false
    → FanOuts (reader_late key (before ++ after) st) last
    → (among key last.registered ≡ false) × (last.delivered key ≡ st.delivered key)
unfolding reader_late
late_reader_silenced key i before after st last sends given others fs =
    let (s, e) =
      FanOuts-Silent key (reader_late key (before ++ after) st) last fs
        (record { given = given; gone = deleted-among key st.registered; quiet = others }) in
    (s.gone, e)

abbrev pub one_reader : String → List String → (String → List Invoice) → Subscribers
one_reader key used delivered = record {
  registered = key ∷ [];
  used = used;
  delivered = delivered;
  sending = [];
}

-- The order is not kept: a reader may get the later of two invoices, or of two changes of one
-- invoice, before the earlier.
pub fan_out_reorders :
    (key : String) (used : List String) (delivered : String → List Invoice) (i j : Invoice)
    → (last : Subscribers) × FanOuts (one_reader key used delivered) last
      × (last.delivered key ≡ (delivered key ++ j ∷ []) ++ i ∷ [])
unfolding take_invoice reader_takes
fan_out_reorders key used delivered i j =
    let st = one_reader key used delivered in
    let st1 = take_invoice i st in
    let st2 = take_invoice j st1 in
    let st3 = reader_takes key j ((key, i) ∷ []) st2 in
    (
      reader_takes key i [] st3,
      more st3 _
          (more st2 st3 (more st1 st2 (more st st1 still (take i)) (take j))
            (reads key j ((key, i) ∷ []) [] refl))
          (reads key i [] [] refl),
      ground (arith, eq_iff key key),
    )
