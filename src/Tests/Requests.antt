-- ===== src/Tests/Requests.antt =====
-- The calls of the services: a new user, a taken one, an invoice for a free address.
use goipay.Base.{
  ℕ, ◌-◌, ◌*◌, ◌^◌, ◌≤◌, ◌<◌, ◌≡◌, refl, String, true, false, Option, none, some, [], ◌∷◌, ◌++◌,
  update, exists, str_eq, if◌then◌else◌,
}
use goipay.Base.Word.{i16_to_u64}
use goipay.Base.Float.{lt_float, float_zero}
use goipay.Error.{Error, Result, ok, err, Message}
use goipay.Coin.{CoinType, PbCoinType}
use goipay.Db.Models.{Uuid, eq_uuid, Invoice, Db}
use goipay.Db.Session.{fail}
use goipay.Db.CryptoData.{has_user}
use goipay.Db.Addresses.{has_address, set_is_occupied}
use goipay.Listener.Network.{NetworkType}
use goipay.Processor.Address.{HdLib}
use goipay.Processor.Create.{
  NewInvoiceRequest, CreateEnv, Generator, invoice_params, create_invoice, effective_timeout,
  min_sync_timeout, second,
}
use goipay.Processor.Created.{
  effective_timeout_bounds, confirmations_wrap, HasFree, created, create_invoice_free,
}
use goipay.Handler.Users.{UserEnv, register_user, invalid_argument}
use goipay.Handler.Invoices.{
  CreateInvoiceRequest, pb_new_invoice_to_processor_new_invoice, handled, respond,
  create_invoice as create_invoice_call,
}
use goipay.Handler.Registered.{register_user_lem, registered}
use goipay.Handler.Requests.{create_invoice_lem}
use goipay.Tests.Data.{free_address, tables, xmr_lib}

abbrev parse : String → Option Uuid
parse s = if str_eq s "seven" then some 7 else if str_eq s "nine" then some 9 else none

abbrev hd : HdLib
hd = record {
  new_key_from_string = ok;
  derive = λ k n. ok k;
  ec_pub_key = ok;
  witness_address = λ n k. ok k;
  pubkey_to_address = λ k. k;
}

abbrev user_env : UserEnv
user_env = record {
  parse_uuid = parse;
  hd = hd;
  xmr = xmr_lib;
  new_user_id = 9;
  new_xmr_id = 71;
  new_hd_id = λ c. 72;
}

abbrev pub create_env : CreateEnv
create_env = record {
  parse_uuid = parse;
  now = 0;
  db_now = 0;
  new_invoice_id = 91;
  locked = λ a. false;
  addresses = record { hd = hd; xmr = xmr_lib; new_address_id = 51 };
}

abbrev generator : Generator
generator = record {
  network = NetworkType.mainnet_btc;
  generate_next_address = λ e d. fail Error.daemon;
}

abbrev pub request : NewInvoiceRequest
request = record {
  user_id = "seven";
  coin = CoinType.btc;
  amount = 4611686018427387904;
  timeout = 600;
  confirmations = 3;
}

free_address-HasFree : HasFree create_env generator request tables 7 free_address
free_address-HasFree = record {
  parsed = refl;
  free = refl;
  listed = refl;
  new_id = refl;
  known = refl;
  coin = refl;
}

create_invoice_free_example : create_invoice create_env [] generator request tables ≡ (
  ok (created create_env generator request 7 "bc1q"),
  record tables {
    crypto_addresses = update (has_address "bc1q") (set_is_occupied true) tables.crypto_addresses;
    invoices = tables.invoices ++ created create_env generator request 7 "bc1q" ∷ [];
  },
)
create_invoice_free_example =
    create_invoice_free create_env generator request tables 7 free_address free_address-HasFree

-- A commit is not reached, since the user's id is no UUID.
effective_timeout_bounds_example :
    (min_sync_timeout ≤ effective_timeout 9223372037)
    × (effective_timeout 9223372037 < 2 ^ 63)
    × (10 ≤ 9223372037
        → 9223372037 ≤ 9223372036
        → effective_timeout 9223372037 ≡ 9223372037 * second)
    × (9223372037 ≤ 9223372037
        → 9223372037 ≤ 18446744073
        → effective_timeout 9223372037 ≡ min_sync_timeout)
effective_timeout_bounds_example = effective_timeout_bounds 9223372037

abbrev many : NewInvoiceRequest
many = record request { confirmations = 40000 }

confirmations_wrap_example :
    let required = i16_to_u64 (invoice_params many (some 7) 600 "bc1q").confirmations_required in
    (40000 < 2 ^ 15 → required ≡ 40000)
    × (2 ^ 15 ≤ 40000 → 40000 < 2 ^ 16 → 2 ^ 64 - 2 ^ 15 ≤ required)
    × ((n : ℕ) → 40000 ≡ n * 2 ^ 16 → required ≡ 0)
confirmations_wrap_example = confirmations_wrap many (some 7) 600 "bc1q"

register_user_lem_example :
    (exists (eq_uuid (some 9)) tables.users ≡ false
      → exists (has_user (some 9)) tables.crypto_data ≡ false
      → register_user user_env [] (some "nine") tables ≡ (ok (some 9), registered (some 9) tables))
    × ((s : String)
        → some "nine" ≡ some s
        → exists (eq_uuid (some 9)) tables.users ≡ true
        → register_user user_env [] (some "nine") tables
          ≡ (err (invalid_argument Message.user_exists), tables))
register_user_lem_example = register_user_lem user_env (some "nine") 9 tables refl

abbrev handle : NewInvoiceRequest → Db → Result Invoice × Db
handle r db = create_invoice create_env [] generator r db

abbrev call : CreateInvoiceRequest
call = record {
  user_id = "seven";
  coin = PbCoinType.btc;
  amount = 4611686018427387904;
  timeout = 600;
  confirmations = 3;
}

abbrev text : Uuid → String
text id = "seven"

create_invoice_lem_example :
    (lt_float call.amount float_zero ≡ true
      → create_invoice_call text parse handle [] call tables tables
        ≡ (err (invalid_argument Message.amount_below_zero), tables))
    × (lt_float call.amount float_zero ≡ false
        → parse call.user_id ≡ none
        → create_invoice_call text parse handle [] call tables tables
          ≡ (err (invalid_argument Message.invalid_user_uuid), tables))
    × ((u : Uuid)
        → lt_float call.amount float_zero ≡ false
        → parse call.user_id ≡ some u
        → exists (eq_uuid (some u)) tables.users ≡ false
        → create_invoice_call text parse handle [] call tables tables
          ≡ (err (invalid_argument Message.user_does_not_exist), tables))
    × ((u : Uuid)
        → lt_float call.amount float_zero ≡ false
        → parse call.user_id ≡ some u
        → exists (eq_uuid (some u)) tables.users ≡ true
        → create_invoice_call text parse handle [] call tables tables
          ≡ respond text (handled (handle (pb_new_invoice_to_processor_new_invoice call) tables)))
create_invoice_lem_example = create_invoice_lem text parse handle call tables tables
