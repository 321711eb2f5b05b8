-- ===== src/Db/Invoices.antt =====
-- internal/db/invoice.sql.go. `now` is the transaction's `now()`, and `new_id` the UUID that
-- `gen_random_uuid()` gives.
use goipay.Base.{
  ℕ, ◌+◌, ◌*◌, String, Bool, false, not, ◌&&◌, ◌||◌, Option, none, some, List, [], ◌∷◌, ◌++◌,
  update, exists, select, ltb,
}
use goipay.Base.Float.{Float64}
use goipay.Coin.{CoinType, InvoiceStatusType, eq_coin, eq_status}
use goipay.Db.Models.{Uuid, PgUuid, Time, eq_uuid, Invoice, Db}
use goipay.Db.Session.{Outcome, row}
use goipay.Db.Statements.{eq_text, update_one, unless, is_null}

abbrev pub has_id : PgUuid → Invoice → Bool
has_id id i = eq_uuid i.id id

abbrev put_invoices : Db → List Invoice → Db
put_invoices db rows = record db { invoices = rows }

abbrev pub set_confirmed : Time → Invoice → Invoice
set_confirmed now i = record i { status = InvoiceStatusType.confirmed; confirmed_at = some now }

-- `ConfirmInvoiceById`
abbrev pub confirm_invoice_by_id : Time → PgUuid → Db → Outcome Invoice
confirm_invoice_by_id now id db =
    update_one (has_id id) (set_confirmed now) db.invoices (put_invoices db)

pub record MempoolParams : Type 0 where
  pub id : PgUuid
  pub actual_amount : Option Float64
  pub tx_id : Option String

abbrev pub set_mempool : MempoolParams → Invoice → Invoice
set_mempool arg i = record i {
  actual_amount = arg.actual_amount;
  status = InvoiceStatusType.pending_mempool;
  tx_id = arg.tx_id;
}

-- Another invoice holds the transaction: the constraint `unique_tx_id`.
abbrev pub tx_id_taken : MempoolParams → Invoice → Bool
tx_id_taken arg i = not (has_id arg.id i) && eq_text i.tx_id arg.tx_id

-- `ConfirmInvoiceStatusMempoolById`
abbrev pub confirm_invoice_status_mempool_by_id : MempoolParams → Db → Outcome Invoice
confirm_invoice_status_mempool_by_id arg db =
    unless (exists (has_id arg.id) db.invoices && exists (tx_id_taken arg) db.invoices)
      (update_one (has_id arg.id) (set_mempool arg) db.invoices (put_invoices db))

pub record CreateInvoiceParams : Type 0 where
  pub crypto_address : String
  pub coin : CoinType
  pub required_amount : Float64
  pub confirmations_required : ℕ
  pub expires_at : Option Time
  pub user_id : PgUuid

abbrev pub new_invoice : Uuid → Time → CreateInvoiceParams → Invoice
new_invoice new_id now arg = record {
  id = some new_id;
  crypto_address = arg.crypto_address;
  coin = arg.coin;
  required_amount = arg.required_amount;
  actual_amount = none;
  confirmations_required = arg.confirmations_required;
  created_at = some now;
  confirmed_at = none;
  status = InvoiceStatusType.pending;
  expires_at = arg.expires_at;
  tx_id = none;
  user_id = arg.user_id;
}

-- The primary key, the foreign key and the columns that may not be null; "" is no `coin_type`.
abbrev pub refuses_invoice : Uuid → CreateInvoiceParams → Db → Bool
refuses_invoice new_id arg db =
    exists (has_id (some new_id)) db.invoices
    || not (exists (eq_uuid arg.user_id) db.users)
    || is_null arg.expires_at
    || eq_coin arg.coin CoinType.empty

-- `CreateInvoice`
abbrev pub create_invoice : Uuid → Time → CreateInvoiceParams → Db → Outcome Invoice
create_invoice new_id now arg db = unless (refuses_invoice new_id arg db) (
    row (new_invoice new_id now arg)
      (put_invoices db (db.invoices ++ new_invoice new_id now arg ∷ [])))

abbrev pub set_expired : Invoice → Invoice
set_expired i = record i { status = InvoiceStatusType.expired }

-- `ExpireInvoiceById`
abbrev pub expire_invoice_by_id : PgUuid → Db → Outcome Invoice
expire_invoice_by_id id db = update_one (has_id id) set_expired db.invoices (put_invoices db)

-- `status IN ('PENDING', 'PENDING_MEMPOOL')`
abbrev pub is_open : Invoice → Bool
is_open i =
    eq_status i.status InvoiceStatusType.pending
    || eq_status i.status InvoiceStatusType.pending_mempool

-- `FindAllPendingInvoices`
abbrev pub find_all_pending_invoices : Db → Outcome (List Invoice)
find_all_pending_invoices db = row (select is_open db.invoices) db

abbrev pub five_minutes : Time
five_minutes = 300 * 1000000000

abbrev pub expires_within : Time → Option Time → Bool
expires_within limit none = false
expires_within limit (some t) = ltb t limit

abbrev pub expires_soon : Time → Invoice → Bool
expires_soon now i = is_open i && expires_within (now + five_minutes) i.expires_at

abbrev pub set_expires_at : Time → Invoice → Invoice
set_expires_at t i = record i { expires_at = some t }

-- `ShiftExpiresAtForNonConfirmedInvoices`
abbrev pub shift_expires_at_for_non_confirmed_invoices : Time → Db → Outcome (List Invoice)
shift_expires_at_for_non_confirmed_invoices now db =
    row (select (expires_soon now) db.invoices) (
      put_invoices db (update (expires_soon now) (set_expires_at (now + five_minutes)) db.invoices))
