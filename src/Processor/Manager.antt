-- ===== src/Processor/Manager.antt =====
-- `PaymentProcessor` (internal/processor/main.go) and what it calls of `baseCryptoProcessor`
-- (internal/processor/base.go): which coin's processor takes an invoice, and how the invoices that
-- the database holds as open are watched again after a start.
use goipay.Base.{ℕ, Bool, true, false, ◌||◌, Option, none, some, List, [], ◌∷◌, if◌then◌else◌}
use goipay.Error.{Error, Result, ok, err}
use goipay.Coin.{CoinType, eq_coin}
use goipay.Db.Models.{Time, Invoice, CryptoCache, Db}
use goipay.Db.Session.{Query, query, ◌>>◌, init_db_queries_with_tx}
use goipay.Db.Invoices.{find_all_pending_invoices, shift_expires_at_for_non_confirmed_invoices}
use goipay.Db.Users.{update_crypto_cache_by_coin}
use goipay.Processor.Tokens.{TokenData, erc20_tokens, bep20_tokens}
use goipay.Processor.Create.{CreateEnv, Generator, NewInvoiceRequest, create_invoice, in_tx}
use goipay.Processor.State.{World, broadcast, spawn}
use goipay.Processor.Lifecycle.{handle_invoice}

-- The processors that `NewPaymentProcessor` sets up.
pub data Kind : Type 0 where
  xmr btc ltc eth bnb : Kind

abbrev pub kind_coin : Kind → CoinType
kind_coin Kind.xmr = CoinType.xmr
kind_coin Kind.btc = CoinType.btc
kind_coin Kind.ltc = CoinType.ltc
kind_coin Kind.eth = CoinType.eth
kind_coin Kind.bnb = CoinType.bnb

abbrev pub is_token : Option TokenData → Bool
is_token none = false
is_token (some _) = true

-- `supportedTokens`: the keys of the chain's map.
unfoldable pub supported_tokens : Kind → CoinType → Bool
unfolding erc20_tokens bep20_tokens
supported_tokens Kind.eth coin = is_token (erc20_tokens coin)
supported_tokens Kind.bnb coin = is_token (bep20_tokens coin)
supported_tokens _ coin = false

-- `supportsCoin`
unfoldable pub supports_coin : Kind → CoinType → Bool
unfolding supported_tokens
supports_coin k coin = eq_coin (kind_coin k) coin || supported_tokens k coin

-- The loop of `HandleNewInvoice`, in an order that Go leaves open: the processor that takes the
-- invoice.
unfoldable pub route : CoinType → List Kind → Option Kind
route coin [] = none
route coin (k ∷ ks) = if supports_coin k coin then some k else route coin ks

-- The statements of `loadPersistedPendingInvoices`.
unfoldable pub load_body : Time → Query (List Invoice)
load_body now = do
  query (shift_expires_at_for_non_confirmed_invoices now)
  query find_all_pending_invoices

module _ {T : Type 0} where
  abbrev pub invoice_created : Result Invoice × Db → World T → Result Invoice × World T
  invoice_created (err e, db) w = (err e, record w { db = db })
  invoice_created (ok i, db) w =
      (ok i, spawn (broadcast i) (handle_invoice i (record w { db = db })))

  -- `handleInvoicePbReq`
  unfoldable pub handle_invoice_pb_req :
      Kind
      → CreateEnv
      → List Bool
      → Generator
      → NewInvoiceRequest
      → World T
      → Result Invoice × World T
  handle_invoice_pb_req k env faults gen req w =
      if supports_coin k req.coin
      then invoice_created (create_invoice env faults gen req w.db) w
      else (err Error.unsupported_coin, w)

  abbrev pub handle_routed :
      Option Kind
      → CreateEnv
      → List Bool
      → (Kind → Generator)
      → NewInvoiceRequest
      → World T
      → Result Invoice × World T
  handle_routed none env faults gen req w = (err Error.unimplemented, w)
  handle_routed (some k) env faults gen req w = handle_invoice_pb_req k env faults (gen k) req w

  -- `HandleNewInvoice`, at the state of the processor that takes the invoice.
  unfoldable pub handle_new_invoice :
      List Kind
      → CreateEnv
      → List Bool
      → (Kind → Generator)
      → NewInvoiceRequest
      → World T
      → Result Invoice × World T
  handle_new_invoice kinds env faults gen req w =
      handle_routed (route req.coin kinds) env faults gen req w

  -- The loop of `loadPersistedPendingInvoices`, at one processor: every open invoice of a coin that it supports is watched.
  unfoldable pub watch_all : Kind → List Invoice → World T → World T
  watch_all k [] w = w
  watch_all k (i ∷ is) w = watch_all k is (if supports_coin k i.coin then handle_invoice i w else w)

  abbrev pub loaded : Kind → Result (List Invoice) × Db → World T → Result (List Invoice) × World T
  loaded k (err e, db) w = (err e, record w { db = db })
  loaded k (ok is, db) w = (ok is, watch_all k is (record w { db = db }))

  -- `loadPersistedPendingInvoices`
  unfoldable pub load_persisted_pending_invoices :
      Kind → Time → List Bool → World T → Result (List Invoice) × World T
  unfolding load_body init_db_queries_with_tx
  load_persisted_pending_invoices k now faults w =
      loaded k (in_tx (init_db_queries_with_tx faults w.db) w.db (load_body now)) w

-- `persistCryptoCache`
unfoldable pub persist_crypto_cache : CoinType → Time → ℕ → List Bool → Db → Db
unfolding init_db_queries_with_tx
persist_crypto_cache coin now height faults db =
    (in_tx (init_db_queries_with_tx faults db) db
      (query (update_crypto_cache_by_coin now coin (some height)))).1

abbrev pub or_height : Option ℕ → ℕ → ℕ
or_height none h = h
or_height (some n) h = n

-- The height at which `load` of a coin's processor starts: the cached one, or else the daemon's.
unfoldable pub start_height : Result CryptoCache → Result ℕ → Result ℕ
start_height (err e) h = err e
start_height (ok cache) (err e) = err e
start_height (ok cache) (ok h) = ok (or_height cache.last_synced_block_height h)
