-- ===== src/Processor/Created.antt =====
-- What `createInvoice` (internal/processor/base.go) gives and writes.
use goipay.Base.{
  ℕ, ◌+◌, ◌-◌, ◌*◌, ◌^◌, ◌≤◌, ◌<◌, ◌≡◌, String, true, false, some, [], ◌∷◌, ◌++◌, arith, exists,
  find, update,
}
use goipay.Base.Word.{i16_to_u64}
use goipay.Error.{ok}
use goipay.Coin.{CoinType, eq_coin}
use goipay.Db.Models.{PgUuid, Time, Uuid, eq_uuid, Invoice, CryptoAddress, Db}
use goipay.Db.Invoices.{new_invoice}
use goipay.Db.Addresses.{is_free, has_address, set_is_occupied}
use goipay.Processor.Create.{
  NewInvoiceRequest, CreateEnv, Generator, second, min_sync_timeout, effective_timeout,
  invoice_params, take_address, create_invoice,
}

-- Every timeout is ten seconds at least and less than 2 ^ 63 nanoseconds; a request of ten to
-- 9223372036 seconds is granted as it is; and one of 9223372037 to 18446744073 seconds, whose
-- product is negative on int64, gets ten seconds.
pub effective_timeout_bounds :
    (timeout : ℕ)
    → (min_sync_timeout ≤ effective_timeout timeout)
      × (effective_timeout timeout < 2 ^ 63)
      × (10 ≤ timeout → timeout ≤ 9223372036 → effective_timeout timeout ≡ timeout * second)
      × (9223372037 ≤ timeout
          → timeout ≤ 18446744073
          → effective_timeout timeout ≡ min_sync_timeout)
unfolding effective_timeout
effective_timeout_bounds timeout =
    (ground arith, ground arith, λ h g. ground arith, λ h g. ground arith)

-- What `confirmCONFIRMED` requires of an invoice, for the number of confirmations that was asked
-- for: that number, if it is below 2 ^ 15; 2 ^ 64 - 2 ^ 15 at least, if it is 2 ^ 15 to 2 ^ 16 - 1,
-- which is stored as a negative number; and none, if it is a multiple of 2 ^ 16.
pub confirmations_wrap :
    (req : NewInvoiceRequest) (user : PgUuid) (expires : Time) (address : String)
    → let required = i16_to_u64 (invoice_params req user expires address).confirmations_required in
      (req.confirmations < 2 ^ 15 → required ≡ req.confirmations)
      × (2 ^ 15 ≤ req.confirmations → req.confirmations < 2 ^ 16 → 2 ^ 64 - 2 ^ 15 ≤ required)
      × ((n : ℕ) → req.confirmations ≡ n * 2 ^ 16 → required ≡ 0)
confirmations_wrap req user expires address =
    (λ h. ground arith, λ h g. ground arith, λ n h. ground arith)

module _ (env : CreateEnv) (gen : Generator) (req : NewInvoiceRequest) where
  -- The user has a free address for the coin, and the database takes the invoice.
  pub record HasFree (db : Db) (user : Uuid) (a : CryptoAddress) : Type 0 where
    pub parsed : env.parse_uuid req.user_id ≡ some user
    pub free : find (is_free (some user) req.coin env.locked) db.crypto_addresses ≡ some a
    pub listed : find (has_address a.address) db.crypto_addresses ≡ some a
    pub new_id : exists (λ i. eq_uuid i.id (some env.new_invoice_id)) db.invoices ≡ false
    pub known : exists (eq_uuid (some user)) db.users ≡ true
    pub coin : eq_coin req.coin CoinType.empty ≡ false

  abbrev pub created : Uuid → String → Invoice
  created user address =
      new_invoice env.new_invoice_id env.db_now
        (invoice_params req (some user) (env.now + effective_timeout req.timeout) address)

  -- Where the user has a free address, and the database is reached and takes the invoice, the call
  -- returns a PENDING invoice for that address and writes two rows: the invoice, at the end of its
  -- table, and the address, which is occupied from then on.
  pub create_invoice_free :
      (db : Db) (user : Uuid) (a : CryptoAddress)
      → HasFree db user a
      → create_invoice env [] gen req db ≡ (
        ok (created user a.address),
        record db {
          crypto_addresses =
              update (has_address a.address) (set_is_occupied true) db.crypto_addresses;
          invoices = db.invoices ++ created user a.address ∷ [];
        },
      )
  unfolding create_invoice take_address
  create_invoice_free db user a h = ground arith
