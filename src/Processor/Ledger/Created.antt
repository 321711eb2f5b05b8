-- ===== src/Processor/Ledger/Created.antt =====
-- `createInvoice` of internal/processor/base.go on the ledger of invoices.
use goipay.Base.{
  Bool, true, false, Option, none, some, List, [], ◌∷◌, ◌++◌, ◌+◌, find, ◌≡◌, refl, subst,
}
use goipay.Error.{Error, Result, ok, err}
use goipay.Coin.{CoinType}
use goipay.Db.Models.{Uuid, Time, PgUuid, Invoice, CryptoAddress, Db}
use goipay.Db.Session.{
  Session, Query, query, of_result, settle, run_statement, row, commit_with, ◌>>=◌, next_fault,
  begin-db,
}
use goipay.Db.Statements.{map_row, unless}
use goipay.Db.Addresses.{
  has_address, set_is_occupied, is_free, occupy,
  find_non_occupied_crypto_address_and_lock_by_user_id_and_coin,
}
use goipay.Db.Invoices.{
  create_invoice as insert_invoice, CreateInvoiceParams, refuses_invoice, new_invoice,
}
use goipay.Db.Ledger.{
  Fits, new_invoice-Fits, Evolved, evolved_refl, evolved_trans, Extends, extends_trans,
  append-Extends, Evolved-Extends,
}
use goipay.Db.Ledger.Queries.{Keeps, Writes, query-Keeps, of_result-Keeps, returning-Writes}
use goipay.Processor.Address.{AddressEnv, GenerateNextAddressHandlerData}
use goipay.Processor.Create.{
  CreateEnv, Generator, NewInvoiceRequest, create_invoice, create_invoice_body, take_address,
  on_no_rows, in_tx, finish, scan_uuid, effective_timeout, invoice_params,
}

-- The handler of the coin keeps to the ledger.
abbrev pub GeneratorKeeps : Generator → Type 0
GeneratorKeeps gen =
    (env : AddressEnv) (arg : GenerateNextAddressHandlerData)
    → Keeps (gen.generate_next_address env arg)

on_no_rows-Evolved :
    (k : Query CryptoAddress) (rows : List Invoice) (r : Result CryptoAddress × Session)
    → Keeps k
    → Evolved rows r.1.db.invoices
    → Evolved rows (on_no_rows (λ _. r) k r.1).1.db.invoices
on_no_rows-Evolved k rows (ok a, s) kk x = x
on_no_rows-Evolved k rows (err Error.no_rows, s) kk x = evolved_trans rows _ _ x (kk s)
on_no_rows-Evolved k rows (err _, s) kk x = x

occupy-Writes : (o : Option CryptoAddress) (db : Db) → Writes db (occupy o db)
occupy-Writes none db = tt
occupy-Writes (some r) db =
    returning-Writes
      (map_row (set_is_occupied true) (find (has_address r.address) db.crypto_addresses)) db _
      (evolved_refl db.invoices)

-- The invoice that a request makes under the UUID `id`.
abbrev pub IsNew : Uuid → Invoice → Type 0
IsNew id i = (i.id ≡ some id) × Fits i

-- The result of a request, and the rows `rows` afterwards: they have evolved, and the new invoice
-- stands at their end or, where its transaction is rolled back, does not.
pub data Adds (id : Uuid) (rows : List Invoice) : Result Invoice → List Invoice → Type 0 where
  left :
      (r : Result Invoice) (qs : List Invoice)
      → Evolved rows qs
      → ((i : Invoice) → r ≡ ok i → IsNew id i)
      → Adds id rows r qs
  added :
      (i : Invoice) (qs : List Invoice)
      → Evolved rows qs
      → IsNew id i
      → Adds id rows (ok i) (qs ++ i ∷ [])

pub Adds-Extends :
    (id : Uuid) (rows : List Invoice) (r : Result Invoice) (qs : List Invoice)
    → Adds id rows r qs
    → Extends rows qs
Adds-Extends id rows r qs (left _ _ x n) = Evolved-Extends rows qs x
Adds-Extends id rows _ _ (added i qs x n) =
    extends_trans rows qs (qs ++ i ∷ []) (Evolved-Extends rows qs x) (append-Extends i qs n.1)

pub Adds-IsNew :
    (id : Uuid) (rows : List Invoice) (i : Invoice) (qs : List Invoice)
    → Adds id rows (ok i) qs
    → IsNew id i
Adds-IsNew id rows i qs (left _ _ x n) = n i refl
Adds-IsNew id rows i _ (added _ qs x n) = n

module _ (id : Uuid) where
  abbrev pub AddsOne : Query Invoice → Type 0
  AddsOne m = (s : Session) → Adds id s.db.invoices (m s).0 (m s).1.db.invoices

  after_evolved :
      (rows qs ps : List Invoice) (r : Result Invoice)
      → Evolved rows qs
      → Adds id qs r ps
      → Adds id rows r ps
  after_evolved rows qs ps r x (left _ _ y n) = left r ps (evolved_trans rows qs ps x y) n
  after_evolved rows qs _ _ x (added i mid y n) = added i mid (evolved_trans rows qs mid x y) n

  then-Adds :
      {A : Type 0} (f : A → Query Invoice) (rows : List Invoice) (r : Result A × Session)
      → ((a : A) → AddsOne (f a))
      → Evolved rows r.1.db.invoices
      → let done = elim r.0 as (λ _. Result Invoice × Session) [
        | ok a ↦ f a r.1
        | err e ↦ (err e, r.1)
      ] in
        Adds id rows done.0 done.1.db.invoices
  then-Adds f rows (ok a, s) k x = after_evolved rows s.db.invoices _ _ x (k a s)
  then-Adds f rows (err e, s) k x = left (err e) s.db.invoices x (λ i h. cc)

  bind-Adds :
      {A : Type 0} (m : Query A) (f : A → Query Invoice)
      → Keeps m
      → ((a : A) → AddsOne (f a))
      → AddsOne (m >>= f)
  bind-Adds m f km kf s = then-Adds f s.db.invoices (m s) kf (km s)

  module _ (now : Time) (arg : CreateInvoiceParams) where
    abbrev made : Invoice
    made = new_invoice id now arg

    settled-Adds :
        (refused : Bool) (db : Db) (fs : List Bool)
        → let done =
            settle
              (unless refused (row made (record db { invoices = db.invoices ++ made ∷ [] })))
              db
              fs in
          Adds id db.invoices done.0 done.1.db.invoices
    settled-Adds true db fs = left _ db.invoices (evolved_refl db.invoices) (λ i h. cc)
    settled-Adds false db fs =
        added made db.invoices (evolved_refl db.invoices) (refl, new_invoice-Fits id now arg)

    run-Adds :
        (aborted : Bool) (fs : List Bool) (db : Db)
        → let done = run_statement aborted fs (insert_invoice id now arg) db in
          Adds id db.invoices done.0 done.1.db.invoices
    run-Adds true fs db = left _ db.invoices (evolved_refl db.invoices) (λ i h. cc)
    run-Adds false [] db = settled-Adds (refuses_invoice id arg db) db []
    run-Adds false (true ∷ fs) db = left _ db.invoices (evolved_refl db.invoices) (λ i h. cc)
    run-Adds false (false ∷ fs) db = settled-Adds (refuses_invoice id arg db) db fs

    insert_invoice-Adds : AddsOne (query (insert_invoice id now arg))
    insert_invoice-Adds s = run-Adds s.aborted s.faults s.db

  commit-Adds :
      (aborted failed : Bool) (i : Invoice) (before after : Db)
      → Adds id before.invoices (ok i) after.invoices
      → Adds id before.invoices (ok i) (commit_with aborted failed before after).invoices
  commit-Adds true _ i before after x =
      left (ok i) before.invoices (evolved_refl before.invoices) (λ j h.
        let same : i ≡ j = cc in
        subst (IsNew id) same (Adds-IsNew id before.invoices i after.invoices x))
  commit-Adds false true i before after x =
      left (ok i) before.invoices (evolved_refl before.invoices) (λ j h.
        let same : i ≡ j = cc in
        subst (IsNew id) same (Adds-IsNew id before.invoices i after.invoices x))
  commit-Adds false false i before after x = x

  finish-Adds :
      (db : Db) (r : Result Invoice) (s : Session)
      → Adds id db.invoices r s.db.invoices
      → Adds id db.invoices (finish db (r, s)).0 (finish db (r, s)).1.invoices
  finish-Adds db (ok i) s x = commit-Adds s.aborted (next_fault s.faults).0 i db s.db x
  finish-Adds db (err e) s x = left (err e) db.invoices (evolved_refl db.invoices) (λ i h. cc)

  in_tx-Adds :
      (o : Option Session) (db : Db) (m : Query Invoice)
      → ((s : Session) → o ≡ some s → s.db ≡ db)
      → AddsOne m
      → let (r, after) = in_tx o db m in Adds id db.invoices r after.invoices
  in_tx-Adds none db m d k = left _ db.invoices (evolved_refl db.invoices) (λ i h. cc)
  in_tx-Adds (some s) db m d k =
      finish-Adds db (m s).0 (m s).1
        (subst (λ x. Adds id x.invoices (m s).0 (m s).1.db.invoices) (d s refl) (k s))

module _ (env : CreateEnv) (gen : Generator) (gen-keeps : GeneratorKeeps gen) where
  take_address-Keeps : (user : PgUuid) (coin : CoinType) → Keeps (take_address env gen user coin)
  unfolding take_address
  take_address-Keeps user coin s =
      let found =
        query
          (find_non_occupied_crypto_address_and_lock_by_user_id_and_coin user coin env.locked) in
      let arg : GenerateNextAddressHandlerData = record { user_id = user; network = gen.network } in
      on_no_rows-Evolved (gen.generate_next_address env.addresses arg) s.db.invoices (found s)
        (gen-keeps env.addresses arg)
        (query-Keeps _
          (λ db. occupy-Writes (find (is_free user coin env.locked) db.crypto_addresses) db) s)

  abbrev insert_for : NewInvoiceRequest → PgUuid → CryptoAddress → Query Invoice
  insert_for req user addr = query (
      insert_invoice env.new_invoice_id env.db_now
        (invoice_params req user (env.now + effective_timeout req.timeout) addr.address))

  abbrev create_for : NewInvoiceRequest → PgUuid → Query Invoice
  create_for req user = take_address env gen user req.coin >>= insert_for req user

  create_invoice_body-Adds :
      (req : NewInvoiceRequest) → AddsOne env.new_invoice_id (create_invoice_body env gen req)
  unfolding create_invoice_body
  create_invoice_body-Adds req =
      bind-Adds env.new_invoice_id (of_result (scan_uuid env.parse_uuid req.user_id))
        (create_for req) (of_result-Keeps (scan_uuid env.parse_uuid req.user_id))
        (λ user.
          bind-Adds env.new_invoice_id (take_address env gen user req.coin) (insert_for req user)
            (take_address-Keeps user req.coin)
            (λ addr.
              insert_invoice-Adds env.new_invoice_id env.db_now
                (invoice_params req user (env.now + effective_timeout req.timeout) addr.address)))

  -- A call of createInvoice adds at most its own invoice, whatever fails.
  pub create_invoice-Adds :
      (faults : List Bool) (req : NewInvoiceRequest) (db : Db)
      → let (r, after) = create_invoice env faults gen req db in
        Adds env.new_invoice_id db.invoices r after.invoices
  unfolding create_invoice
  create_invoice-Adds faults req db =
      in_tx-Adds env.new_invoice_id _ db (create_invoice_body env gen req)
        (λ s e. begin-db (next_fault faults) db s e) (create_invoice_body-Adds req)
