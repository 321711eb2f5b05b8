-- ===== src/Handler/Stream.antt =====
-- `InvoiceStatusStream` (internal/handler/v1/invoice.go): what a client is sent, and how its stream
-- ends.
use goipay.Base.{◌≡◌, refl, ap, String, Option, none, some, List, [], ◌∷◌, ◌++◌, map}
use goipay.Error.{Error, Code, Message}
use goipay.Db.Models.{Uuid, Time, Invoice}
use goipay.Handler.Invoices.{PbInvoice, db_invoice_to_pb_invoice}

-- What one round of the loop meets: an invoice of the handler's channel that is sent, one that
-- cannot be sent, or the end of the client's context.
pub data Event : Type 0 where
  sent unsent : Invoice → Event
  closed : Event

abbrev canceled : Message → Option Error
canceled m = some (Error.status Code.canceled m)

module _ (text : Uuid → String) (zero_time : Time) where
  -- `InvoiceStatusStream`: the messages, and the error that it returns; where the rounds end before,
  -- it still waits.
  unfoldable pub invoice_status_stream : List Event → List PbInvoice × Option Error
  invoice_status_stream [] = ([], none)
  invoice_status_stream (sent i ∷ es) =
      let (msgs, e) = invoice_status_stream es in
      (db_invoice_to_pb_invoice text zero_time i ∷ msgs, e)
  invoice_status_stream (unsent i ∷ es) = ([], canceled Message.stream_sending)
  invoice_status_stream (closed ∷ es) = ([], canceled Message.stream_closed)

  -- The last round, and its message.
  abbrev pub end_message : Option Invoice → Message
  end_message none = Message.stream_closed
  end_message (some _) = Message.stream_sending

  abbrev pub end_event : Option Invoice → Event
  end_event none = closed
  end_event (some i) = unsent i

  -- A client is sent every invoice that its channel passes on, in that order and no other, until it
  -- leaves or cannot be reached; the call then ends with Canceled and the message for that, and what
  -- comes later is not looked at.
  pub invoice_status_stream_lem :
      (is : List Invoice) (last : Option Invoice) (es : List Event)
      → invoice_status_stream (map sent is ++ end_event last ∷ es) ≡ (
        map (db_invoice_to_pb_invoice text zero_time) is,
        some (Error.status Code.canceled (end_message last)),
      )
  unfolding invoice_status_stream
  invoice_status_stream_lem [] none es = refl
  invoice_status_stream_lem [] (some i) es = refl
  invoice_status_stream_lem (i ∷ is) last es =
      ap (λ r. (db_invoice_to_pb_invoice text zero_time i ∷ r.0, r.1))
        (invoice_status_stream_lem is last es)
