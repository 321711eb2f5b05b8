-- ===== src/Processor/Create.antt =====
-- `createInvoice` of internal/processor/base.go: an address for the invoice, the invoice, one
-- transaction.
use goipay.Base.{ℕ, ◌+◌, ◌*◌, ◌%◌, ◌^◌, String, Bool, Option, none, some, List, if◌then◌else◌}
use goipay.Base.Word.{to_i16, mul_i64, lt_i64}
use goipay.Base.Float.{Float64}
use goipay.Error.{Error, Result, ok, err}
use goipay.Coin.{CoinType}
use goipay.Db.Models.{Uuid, PgUuid, Time, Invoice, CryptoAddress, Db}
use goipay.Db.Session.{Session, Query, query, of_result, ◌>>=◌, commit, init_db_queries_with_tx}
use goipay.Db.Invoices.{CreateInvoiceParams, create_invoice as insert_invoice}
use goipay.Db.Addresses.{find_non_occupied_crypto_address_and_lock_by_user_id_and_coin}
use goipay.Listener.Network.{NetworkType}
use goipay.Processor.Address.{AddressEnv, GenerateNextAddressHandlerData}

-- `dto.NewInvoiceRequest`
pub record NewInvoiceRequest : Type 0 where
  pub user_id : String
  pub coin : CoinType
  pub amount : Float64
  pub timeout : ℕ  -- uint64
  pub confirmations : ℕ  -- uint32

-- What a call meets outside: pgtype's reading of a UUID, the clocks, new UUIDs, the rows that other
-- transactions lock, and the libraries of the address handlers.
pub record CreateEnv : Type 0 where
  pub parse_uuid : String → Option Uuid
  pub now : Time
  pub db_now : Time
  pub new_invoice_id : Uuid
  pub locked : String → Bool
  pub addresses : AddressEnv

abbrev pub scan_uuid : (String → Option Uuid) → String → Result PgUuid
scan_uuid parse s = elim (parse s) [ none ↦ err Error.invalid_uuid | some id ↦ ok (some id) ]

abbrev pub second : ℕ
second = 1000000000

abbrev pub min_sync_timeout : ℕ
min_sync_timeout = 10 * second

-- `time.Duration(req.Timeout) * time.Second` on int64, and not less than `MIN_SYNC_TIMEOUT`.
abbrev pub requested : ℕ → ℕ
requested timeout = mul_i64 (timeout % 2 ^ 64) second

unfoldable pub effective_timeout : ℕ → ℕ
effective_timeout timeout =
    if lt_i64 (requested timeout) min_sync_timeout then min_sync_timeout else requested timeout

-- The processor's own data that the call reads: its network, and its handler for new addresses.
pub record Generator : Type 0 where
  pub network : NetworkType
  pub generate_next_address : AddressEnv → GenerateNextAddressHandlerData → Query CryptoAddress

-- Only `pgx.ErrNoRows` leads to a new address.
abbrev pub on_no_rows : Query CryptoAddress → Query CryptoAddress → Query CryptoAddress
on_no_rows m k s =
    let (r, s') = m s in
    elim r [ ok a ↦ (ok a, s') | err e ↦ elim e [ Error.no_rows ↦ k s' | other ↦ (err other, s') ] ]

abbrev pub invoice_params : NewInvoiceRequest → PgUuid → Time → String → CreateInvoiceParams
invoice_params req user expires address = record {
  crypto_address = address;
  coin = req.coin;
  required_amount = req.amount;
  confirmations_required = to_i16 req.confirmations;
  expires_at = some expires;
  user_id = user;
}

-- `FindNonOccupiedCryptoAddressAndLockByUserIdAndCoin`, or else the handler.
unfoldable pub take_address : CreateEnv → Generator → PgUuid → CoinType → Query CryptoAddress
take_address env gen user coin =
    on_no_rows
      (query (find_non_occupied_crypto_address_and_lock_by_user_id_and_coin user coin env.locked))
      (gen.generate_next_address env.addresses (record { user_id = user; network = gen.network }))

-- The statements between the beginning and the commit.
unfoldable pub create_invoice_body : CreateEnv → Generator → NewInvoiceRequest → Query Invoice
unfolding take_address effective_timeout
create_invoice_body env gen req = do
  user ← of_result (scan_uuid env.parse_uuid req.user_id)
  let expires = env.now + effective_timeout req.timeout
  addr ← take_address env gen user req.coin
  query
      (insert_invoice env.new_invoice_id env.db_now (invoice_params req user expires addr.address))

-- A result and the tables: an error rolls back, and a success commits; a commit that fails is not
-- looked at.
abbrev pub finish {ℓ} : {A : Type ℓ} → Db → Result A × Session → Result A × Db
finish db (ok a, s) = (ok a, commit db s)
finish db (err e, s) = (err e, db)

abbrev pub in_tx : {A : Type 0} → Option Session → Db → Query A → Result A × Db
in_tx none db m = (err Error.tx_begin, db)
in_tx (some s) db m = finish db (m s)

-- `createInvoice`
unfoldable pub create_invoice :
    CreateEnv → List Bool → Generator → NewInvoiceRequest → Db → Result Invoice × Db
unfolding create_invoice_body init_db_queries_with_tx
create_invoice env faults gen req db =
    in_tx (init_db_queries_with_tx faults db) db (create_invoice_body env gen req)
