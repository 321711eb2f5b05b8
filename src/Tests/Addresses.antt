-- ===== src/Tests/Addresses.antt =====
-- An invoice for which the next Bitcoin address of the user is derived.
use goipay.Base.{◌≡◌, refl, true, none, some, [], ◌∷◌, ◌++◌, update}
use goipay.Error.{ok}
use goipay.Db.Models.{CryptoDatum, Db}
use goipay.Db.Addresses.{new_crypto_address}
use goipay.Db.CryptoData.{has_hd_id, set_next_indices}
use goipay.Listener.Network.{NetworkType}
use goipay.Processor.Address.{derive_pub_key}
use goipay.Processor.Create.{create_invoice}
use goipay.Processor.Created.{created}
use goipay.Processor.HdAddress.{HdCoin, Derives, hd_params, hd_generator, asks_for}
use goipay.Processor.Derived.{HasNone, create_invoice_derived}
use goipay.Tests.Data.{keys_of_seven, free_address, tables}
use goipay.Tests.Requests.{create_env, request}

-- The user's one address is occupied, and the minor index of the keys is the largest int32.
abbrev datum_of_seven : CryptoDatum
datum_of_seven = record {
  xmr_id = none;
  btc_id = some 70;
  ltc_id = none;
  eth_id = none;
  bnb_id = none;
  user_id = some 7;
}

abbrev full : Db
full = record tables {
  crypto_addresses = record free_address { is_occupied = true } ∷ [];
  crypto_data = datum_of_seven ∷ [];
}

full-HasNone : HasNone HdCoin.hd_btc create_env request NetworkType.mainnet_btc full 7
full-HasNone = record { parsed = refl; asked = refl; none_free = refl; new_id = refl; known = refl }

full-Derives :
    Derives HdCoin.hd_btc create_env.addresses
      (asks_for NetworkType.mainnet_btc 7)
      full
      datum_of_seven
      keys_of_seven
      "zpub6"
      "zpub6"
unfolding derive_pub_key
full-Derives = record {
  net = NetworkType.mainnet_btc;
  network = refl;
  user = refl;
  keys = refl;
  room = refl;
  derived = λ s. refl;
  encoded = refl;
  accepted = refl;
}

create_invoice_derived_example :
    create_invoice create_env [] (hd_generator HdCoin.hd_btc NetworkType.mainnet_btc) request full
    ≡ (
      ok (
          created create_env
            (hd_generator HdCoin.hd_btc NetworkType.mainnet_btc)
            request
            7
            "zpub6"),
      record full {
        btc_crypto_data = update (has_hd_id (some 70)) set_next_indices full.btc_crypto_data;
        crypto_addresses =
            full.crypto_addresses
            ++ new_crypto_address 51 (
                hd_params HdCoin.hd_btc create_env.addresses
                  (asks_for NetworkType.mainnet_btc 7)
                  "zpub6")
              ∷ [];
        invoices =
            full.invoices
            ++ created create_env
                (hd_generator HdCoin.hd_btc NetworkType.mainnet_btc)
                request
                7
                "zpub6"
              ∷ [];
      },
    )
create_invoice_derived_example =
    create_invoice_derived HdCoin.hd_btc create_env request NetworkType.mainnet_btc full 7
      datum_of_seven keys_of_seven "zpub6" "zpub6" full-HasNone full-Derives
