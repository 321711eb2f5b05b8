-- ===== src/Tests/Data.antt =====
-- Rows and tables that the tests share.
use goipay.Base.{true, false, none, some, [], ◌∷◌}
use goipay.Error.{ok}
use goipay.Processor.Address.{XmrLib}
use goipay.Coin.{CoinType, InvoiceStatusType}
use goipay.Db.Models.{CryptoAddress, HdCryptoDatum, Invoice, Db}

abbrev pub keys_of_seven : HdCryptoDatum
keys_of_seven = record {
  id = some 70;
  master_pub_key = "zpub6";
  last_major_index = 0;
  last_minor_index = 2147483647;
}

abbrev pub free_address : CryptoAddress
free_address = record {
  id = some 50;
  address = "bc1q";
  coin = CoinType.btc;
  is_occupied = false;
  user_id = some 7;
}

-- An invoice of 2.0 that expires at 400 seconds.
abbrev pub open_invoice : Invoice
open_invoice = record {
  id = some 90;
  crypto_address = "bc1p";
  coin = CoinType.btc;
  required_amount = 4611686018427387904;
  actual_amount = none;
  confirmations_required = 3;
  created_at = some 0;
  confirmed_at = none;
  status = InvoiceStatusType.pending;
  expires_at = some 400000000000;
  tx_id = none;
  user_id = some 7;
}

abbrev pub tables : Db
tables = record {
  users = some 7 ∷ some 8 ∷ [];
  crypto_addresses = free_address ∷ [];
  invoices = open_invoice ∷ [];
  crypto_cache = [];
  crypto_data = [];
  xmr_crypto_data = [];
  btc_crypto_data = keys_of_seven ∷ [];
  ltc_crypto_data = [];
  eth_crypto_data = [];
  bnb_crypto_data = [];
}

-- Every text is a key, and every output is the invoice's, of five piconero.
abbrev pub xmr_lib : XmrLib
xmr_lib = record {
  new_private_key = ok;
  new_public_key = ok;
  generate_subaddress = λ v s i j n. ok v;
  public_spend_key = ok;
  get_tx_public_key_from_extra = λ e. ok "R";
  decrypt_output_public_spend_key = λ s i o a t v. ok (true, 5);
}
