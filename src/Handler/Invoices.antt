-- ===== src/Handler/Invoices.antt =====
-- `InvoiceGrpc` (internal/handler/v1/invoice.go), and the conversions of requests and invoices of
-- internal/util/mapping.go.
use goipay.Base.{ℕ, String, Bool, Option, none, some, List, if◌then◌else◌}
use goipay.Base.Word.{i16_to_u32}
use goipay.Base.Float.{Float64, lt_float, float_zero}
use goipay.Error.{Result, ok, err, Message}
use goipay.Coin.{CoinType, PbCoinType, PbInvoiceStatusType}
use goipay.Coin.Mapping.{pb_coin_to_db_coin, db_coin_to_pb_coin, db_status_to_pb_status, max_int32}
use goipay.Db.Models.{Uuid, PgUuid, Time, Invoice, Db}
use goipay.Db.Session.{Session, ⊤, init_db_queries_with_tx}
use goipay.Processor.Create.{NewInvoiceRequest}
use goipay.Handler.Users.{check_if_user_exists_string, internal_error, invalid_argument}

-- `pb_v1.CreateInvoiceRequest`
pub record CreateInvoiceRequest : Type 0 where
  pub user_id : String
  pub coin : PbCoinType
  pub amount : Float64
  pub timeout : ℕ
  pub confirmations : ℕ

abbrev pub or_empty : Result CoinType → CoinType
or_empty (ok c) = c
or_empty (err _) = CoinType.empty

-- `PbNewInvoiceToProcessorNewInvoice`: the error of the coin's conversion is dropped.
unfoldable pub pb_new_invoice_to_processor_new_invoice : CreateInvoiceRequest → NewInvoiceRequest
unfolding pb_coin_to_db_coin
pb_new_invoice_to_processor_new_invoice req = record {
  user_id = req.user_id;
  coin = or_empty (pb_coin_to_db_coin req.coin);
  amount = req.amount;
  timeout = req.timeout;
  confirmations = req.confirmations;
}

-- `pb_v1.Invoice`
pub record PbInvoice : Type 0 where
  pub id : String
  pub crypto_address : String
  pub coin : PbCoinType
  pub required_amount : Float64
  pub actual_amount : Float64
  pub confirmations_required : ℕ
  pub created_at : Time
  pub confirmed_at : Time
  pub status : PbInvoiceStatusType
  pub expires_at : Time
  pub tx_id : String
  pub user_id : String

-- `PgUUIDToString`: "" for NULL
unfoldable pub pg_uuid_to_string : (Uuid → String) → PgUuid → String
pg_uuid_to_string text none = ""
pg_uuid_to_string text (some id) = text id

abbrev pub value_or {ℓ} : {A : Type ℓ} → A → Option A → A
value_or d none = d
value_or d (some a) = a

abbrev pub or_max : Result PbCoinType → PbCoinType
or_max (ok c) = c
or_max (err _) = PbCoinType.unrecognized max_int32

-- `DbInvoiceToPbInvoice`; `zero_time` is Go's zero `time.Time`, which stands for NULL.
unfoldable pub db_invoice_to_pb_invoice : (Uuid → String) → Time → Invoice → PbInvoice
unfolding pg_uuid_to_string db_coin_to_pb_coin db_status_to_pb_status
db_invoice_to_pb_invoice text zero_time i = record {
  id = pg_uuid_to_string text i.id;
  crypto_address = i.crypto_address;
  coin = or_max (db_coin_to_pb_coin i.coin);
  required_amount = i.required_amount;
  actual_amount = value_or float_zero i.actual_amount;
  confirmations_required = i16_to_u32 i.confirmations_required;
  created_at = value_or zero_time i.created_at;
  confirmed_at = value_or zero_time i.confirmed_at;
  status = db_status_to_pb_status i.status;
  expires_at = value_or zero_time i.expires_at;
  tx_id = value_or "" i.tx_id;
  user_id = pg_uuid_to_string text i.user_id;
}

abbrev pub handled : {S : Type 0} → Result Invoice × S → Result Invoice × S
handled (ok i, w) = (ok i, w)
handled (err _, w) = (err (internal_error Message.handling_invoice), w)

-- What `CreateInvoice` answers: the invoice's id and address.
pub record CreateInvoiceResponse : Type 0 where
  pub payment_id : String
  pub address : String

abbrev pub respond :
    {S : Type 0} → (Uuid → String) → Result Invoice × S → Result CreateInvoiceResponse × S
respond text (err e, w) = (err e, w)
respond text (ok i, w) =
    (ok (record { payment_id = pg_uuid_to_string text i.id; address = i.crypto_address }), w)

module _ {S : Type 0} (text : Uuid → String) (parse : String → Option Uuid)
    (handle : NewInvoiceRequest → S → Result Invoice × S) where
  abbrev pub user_checked : CreateInvoiceRequest → Result ⊤ → S → Result CreateInvoiceResponse × S
  user_checked req (err e) w = (err e, w)
  user_checked req (ok _) w =
      respond text (handled (handle (pb_new_invoice_to_processor_new_invoice req) w))

  abbrev pub create_invoice_in_tx :
      CreateInvoiceRequest → Option Session → S → Result CreateInvoiceResponse × S
  create_invoice_in_tx req none w = (err (internal_error Message.sql_tx_init), w)
  create_invoice_in_tx req (some s) w =
      if lt_float req.amount float_zero
      then (err (invalid_argument Message.amount_below_zero), w)
      else user_checked req (check_if_user_exists_string parse req.user_id s).0 w

  -- `CreateInvoice`: its own transaction, on the tables `db`, only reads. `handle` is
  -- `HandleNewInvoice`.
  unfoldable pub create_invoice :
      List Bool → CreateInvoiceRequest → Db → S → Result CreateInvoiceResponse × S
  unfolding init_db_queries_with_tx check_if_user_exists_string
      pb_new_invoice_to_processor_new_invoice pg_uuid_to_string lt_float
  create_invoice faults req db w = create_invoice_in_tx req (init_db_queries_with_tx faults db) w
