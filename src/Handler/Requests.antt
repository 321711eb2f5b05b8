-- ===== src/Handler/Requests.antt =====
-- What `CreateInvoice` (internal/handler/v1/invoice.go) passes on, and what it refuses.
use goipay.Base.{◌≡◌, ap, String, true, false, Option, none, some, [], arith, exists}
use goipay.Base.Float.{lt_float, float_zero}
use goipay.Error.{Result, err, Message}
use goipay.Db.Models.{Uuid, eq_uuid, Invoice, Db}
use goipay.Processor.Create.{NewInvoiceRequest}
use goipay.Handler.Users.{invalid_argument}
use goipay.Handler.Registered.{check_if_user_exists_string_lem}
use goipay.Handler.Invoices.{
  CreateInvoiceRequest, pb_new_invoice_to_processor_new_invoice, handled, respond, user_checked,
  create_invoice,
}

module _ {S : Type 0} (text : Uuid → String) (parse : String → Option Uuid)
    (handle : NewInvoiceRequest → S → Result Invoice × S) where
  -- Where the database is reached, `CreateInvoice` refuses a negative amount, an id that is no UUID
  -- and a user that does not exist, each with its own message and without a call of the processor;
  -- every other request is passed on to the processor once, and its answer passed back.
  pub create_invoice_lem :
      (req : CreateInvoiceRequest) (db : Db) (w : S)
      → (lt_float req.amount float_zero ≡ true
          → create_invoice text parse handle [] req db w
            ≡ (err (invalid_argument Message.amount_below_zero), w))
        × (lt_float req.amount float_zero ≡ false
            → parse req.user_id ≡ none
            → create_invoice text parse handle [] req db w
              ≡ (err (invalid_argument Message.invalid_user_uuid), w))
        × ((u : Uuid)
            → lt_float req.amount float_zero ≡ false
            → parse req.user_id ≡ some u
            → exists (eq_uuid (some u)) db.users ≡ false
            → create_invoice text parse handle [] req db w
              ≡ (err (invalid_argument Message.user_does_not_exist), w))
        × ((u : Uuid)
            → lt_float req.amount float_zero ≡ false
            → parse req.user_id ≡ some u
            → exists (eq_uuid (some u)) db.users ≡ true
            → create_invoice text parse handle [] req db w
              ≡ respond text (handled (handle (pb_new_invoice_to_processor_new_invoice req) w)))
  unfolding create_invoice
  create_invoice_lem req db w = (
    λ h. ground arith,
    λ h p. ground arith,
    λ u h p n. rw h (
        ap (λ r. user_checked text parse handle req r.0 w)
          (check_if_user_exists_string_lem parse req.user_id u db p n)),
    λ u h p k. rw h (
        ap (λ r. user_checked text parse handle req r.0 w)
          (check_if_user_exists_string_lem parse req.user_id u db p k)),
  )
