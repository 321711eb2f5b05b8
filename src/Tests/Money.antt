-- ===== src/Tests/Money.antt =====
-- What concrete transactions pay.
use goipay.Base.{
  ◌%◌, ◌^◌, ◌+◌, ℕ, Option, ◌+◌, ◌^◌, ◌≡◌, ◌≢◌, refl, true, false, none, some, [], ◌∷◌, map, arith,
  select,
}
use goipay.Base.Float.{FloatOps, float_zero}
use goipay.Error.{Result, ok}
use goipay.Coin.{CoinType}
use goipay.Db.Models.{Invoice}
use goipay.Db.Session.{Session, live}
use goipay.Listener.Tx.{BtcTx, EthLog, EthTx, XmrTx}
use goipay.Processor.Monero.{ScanKeys, scan_keys, scanned, verify_xmr_tx_handler}
use goipay.Processor.Scanned.{Ends, verify_xmr_tx_handler_lem}
use goipay.Processor.Tokens.{TokenData, find_token}
use goipay.Processor.Verify.{
  pays_btc, verify_btc_tx_handler, pays_ltc, verify_ltc_tx_handler, EthLib, is_transfer_to,
  log_value, verify_eth_based_tx_handler,
}
use goipay.Processor.Payments.{
  add_all, out_values, verify_tx_handlers-add_all, verify_eth_based_tx_handler_logs,
  verify_eth_based_tx_handler_native,
}
use goipay.Tests.Data.{open_invoice, tables, xmr_lib}

-- Sums of bit patterns stand for the rounding sums.
abbrev ops : FloatOps
ops = record {
  add = λ a b. a + b;
  of_u64 = λ n. n;
  div_1e18 = λ a. a;
  quo = λ a b. a;
  of_piconero = λ n. n;
}

abbrev lib : EthLib
lib = record { hash_hex = λ n. "0xdd"; address_hex = λ n. "0xab"; bytes_to_address = λ n. n }

abbrev bitcoin_tx : BtcTx
bitcoin_tx = record {
  txid = "t";
  confirmations = 0;
  vout =
      record { value = 5; address = "bc1p"; addresses = [] }
      ∷ record { value = 6; address = "bc1x"; addresses = "bc1p" ∷ [] }
      ∷ [];
}

verify_tx_handlers-add_all_example :
    (verify_btc_tx_handler ops open_invoice bitcoin_tx
      ≡ add_all ops float_zero (out_values (select (pays_btc ops "bc1p") bitcoin_tx.vout)))
    × (verify_ltc_tx_handler ops open_invoice bitcoin_tx
        ≡ add_all ops float_zero (out_values (select (pays_ltc ops "bc1p") bitcoin_tx.vout)))
verify_tx_handlers-add_all_example = verify_tx_handlers-add_all ops open_invoice bitcoin_tx

abbrev usdt_invoice : Invoice
usdt_invoice = record open_invoice { coin = CoinType.usdt_erc20; crypto_address = "0xab" }

abbrev log : EthLog
log = record { address = 1; topics = 1 ∷ 2 ∷ 3 ∷ []; payload = 1 ∷ 0 ∷ [] }

abbrev token_tx : EthTx
token_tx = record {
  tx = record { hash = "0x1"; to = some 5; value = 0 };
  status = 1;
  confirmations = 0;
  logs = log ∷ [];
}

alive : token_tx.status ≢ 0
alive e = ground arith

verify_eth_based_tx_handler_logs_example :
    ((t : TokenData)
      → find_token true CoinType.usdt_erc20 ≡ some t
      → verify_eth_based_tx_handler lib ops true usdt_invoice token_tx
        ≡ add_all ops float_zero
            (map (log_value lib ops t) (select (is_transfer_to lib ops t "0xab") (log ∷ []))))
    × (find_token true CoinType.usdt_erc20 ≡ none
        → verify_eth_based_tx_handler lib ops true usdt_invoice token_tx ≡ float_zero)
verify_eth_based_tx_handler_logs_example =
    verify_eth_based_tx_handler_logs lib ops true usdt_invoice token_tx log [] alive refl

abbrev native_tx : EthTx
native_tx = record token_tx {
  logs = [];
  tx = record { hash = "0x1"; to = some 5; value = 2 ^ 64 + 1000 };
}

verify_eth_based_tx_handler_native_example :
    (native_tx.status ≡ 0
      → verify_eth_based_tx_handler lib ops true
          (record usdt_invoice { coin = CoinType.usdt_erc20 })
          native_tx
        ≡ float_zero)
    × ((receiver : ℕ)
        → native_tx.status ≢ 0
        → native_tx.tx.to ≡ some receiver
        → "0xab" ≡ lib.address_hex receiver
        → verify_eth_based_tx_handler lib ops true
            (record usdt_invoice { coin = CoinType.usdt_erc20 })
            native_tx
          ≡ ops.add float_zero (ops.div_1e18 (ops.of_u64 ((2 ^ 64 + 1000) % 2 ^ 64))))
    × (((receiver : ℕ) → native_tx.tx.to ≡ some receiver → "0xab" ≢ lib.address_hex receiver)
        → verify_eth_based_tx_handler lib ops true
            (record usdt_invoice { coin = CoinType.usdt_erc20 })
            native_tx
          ≡ float_zero)
verify_eth_based_tx_handler_native_example =
    verify_eth_based_tx_handler_native lib ops true usdt_invoice CoinType.usdt_erc20 native_tx refl

-- The user of the invoice has Monero keys, and a transaction has two outputs.
abbrev monero_session : Session
monero_session = live (record tables {
  crypto_data =
      record {
        user_id = some 7;
        xmr_id = some 71;
        btc_id = none;
        ltc_id = none;
        eth_id = none;
        bnb_id = none;
      }
      ∷ [];
  xmr_crypto_data =
      record {
        id = some 71;
        priv_view_key = "v";
        pub_spend_key = "s";
        last_major_index = 0;
        last_minor_index = 0;
      }
      ∷ [];
})

abbrev monero_tx : XmrTx
monero_tx = record {
  tx_info = record { extra = []; vout = "a" ∷ "b" ∷ []; ecdh_info = "c" ∷ "d" ∷ [] };
  tx_hash = "t";
  confirmations = 0;
  double_spend_seen = false;
}

abbrev monero_keys : ScanKeys
monero_keys = record { priv_view = "v"; pub_spend = "bc1p"; tx_pub = "R" }

keys_found :
    scan_keys xmr_lib open_invoice monero_tx monero_session ≡ (ok monero_keys, monero_session)
unfolding scan_keys
keys_found = refl

verify_xmr_tx_handler_lem_example :
    (x : Option (Result ℕ)) × Ends xmr_lib monero_keys 0 ("a" ∷ "b" ∷ []) ("c" ∷ "d" ∷ []) x
    × (verify_xmr_tx_handler xmr_lib ops open_invoice monero_tx monero_session
        ≡ scanned xmr_lib ops monero_session x)
verify_xmr_tx_handler_lem_example =
    verify_xmr_tx_handler_lem xmr_lib ops open_invoice monero_tx monero_session monero_session
      monero_keys keys_found
