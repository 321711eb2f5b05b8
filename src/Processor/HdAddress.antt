-- ===== src/Processor/HdAddress.antt =====
-- The handlers for new addresses of btc.go, ltc.go, eth.go and bnb.go (internal/processor): they take
-- the same steps, with the table, the network and the encoding of their coin.
use goipay.Base.{
  ◌≡◌, refl, ap, ◌∙◌, String, true, false, some, List, [], ◌∷◌, ◌++◌, arith, exists, find, update,
}
use goipay.Error.{Result, ok, err}
use goipay.Db.Models.{Uuid, CryptoAddress, CryptoDatum, HdCryptoDatum, Db}
use goipay.Db.Session.{Session, Query, live, query, of_result, ◌>>=◌}
use goipay.Db.Addresses.{CreateCryptoAddressParams, refuses_address, new_crypto_address}
use goipay.Db.CryptoData.{
  HdTable, btc_table, ltc_table, eth_table, bnb_table, has_user, has_hd_id, indices_overflow,
  set_next_indices, find_crypto_data_by_user_id, find_keys_and_incremented_indices_hd,
}
use goipay.Listener.Network.{NetworkType}
use goipay.Processor.Address.{
  HdLib, AddressEnv, GenerateNextAddressHandlerData, btc_net, ltc_net, derive_pub_key, new_occupied,
  generate_next_btc_address_handler, generate_next_ltc_address_handler,
  generate_next_eth_address_handler, generate_next_bnb_address_handler,
}
use goipay.Processor.Create.{Generator}
use goipay.Processor.Manager.{Kind, kind_coin}
use goipay.Processor.SetUp.{kind_generator}

-- The coins whose keys are derived from a master public key.
pub data HdCoin : Type 0 where
  hd_btc hd_ltc hd_eth hd_bnb : HdCoin

abbrev pub hd_kind : HdCoin → Kind
hd_kind hd_btc = Kind.btc
hd_kind hd_ltc = Kind.ltc
hd_kind hd_eth = Kind.eth
hd_kind hd_bnb = Kind.bnb

abbrev pub hd_table : HdCoin → HdTable
hd_table hd_btc = btc_table
hd_table hd_ltc = ltc_table
hd_table hd_eth = eth_table
hd_table hd_bnb = bnb_table

-- The network that the address is made for; those of Ethereum and BNB do not depend on one.
abbrev pub hd_net : HdCoin → NetworkType → Result NetworkType
hd_net hd_btc n = btc_net n
hd_net hd_ltc n = ltc_net n
hd_net hd_eth n = ok n
hd_net hd_bnb n = ok n

abbrev pub hd_encode : HdCoin → HdLib → NetworkType → String → Result String
hd_encode hd_btc hd net key = hd.witness_address net key
hd_encode hd_ltc hd net key = hd.witness_address net key
hd_encode hd_eth hd net key = ok (hd.pubkey_to_address key)
hd_encode hd_bnb hd net key = ok (hd.pubkey_to_address key)

-- The tables of keys are not those of users, addresses and invoices.
pub put_rows-others :
    (c : HdCoin) (db : Db) (rows : List HdCryptoDatum)
    → let db' = (hd_table c).put_rows db rows in
      (db'.users ≡ db.users)
      × (db'.crypto_addresses ≡ db.crypto_addresses)
      × (db'.invoices ≡ db.invoices)
put_rows-others hd_btc db rows = (refl, refl, refl)
put_rows-others hd_ltc db rows = (refl, refl, refl)
put_rows-others hd_eth db rows = (refl, refl, refl)
put_rows-others hd_bnb db rows = (refl, refl, refl)

-- A call that succeeds goes on with its result.
bind_ok :
    {A B : Type 0} (m : Query A) (f : A → Query B) (s s' : Session) (a : A)
    → m s ≡ (ok a, s')
    → (m >>= f) s ≡ f a s'
bind_ok {B} m f s s' a e =
    ap (λ r. elim r.0 as (λ _. Result B × Session) [ ok x ↦ f x r.1 | err x ↦ (err x, r.1) ]) e

module _ (c : HdCoin) (env : AddressEnv) (arg : GenerateNextAddressHandlerData) where
  abbrev t : HdTable
  t = hd_table c

  abbrev pub hd_params : String → CreateCryptoAddressParams
  hd_params address = record {
    address = address;
    coin = kind_coin (hd_kind c);
    is_occupied = true;
    user_id = arg.user_id;
  }

  -- The user's keys are there, with an index left, and the libraries make an address of the next one
  -- that the table takes.
  pub record Derives (db : Db) (cd : CryptoDatum) (k : HdCryptoDatum) (pub_key address : String)
      : Type 0 where
    pub net : NetworkType
    pub network : hd_net c arg.network ≡ ok net
    pub user : find (has_user arg.user_id) db.crypto_data ≡ some cd
    pub keys : find (has_hd_id (t.link cd)) (t.rows db) ≡ some k
    pub room : exists (indices_overflow (t.link cd)) (t.rows db) ≡ false
    pub derived : (s : Session) → derive_pub_key env.hd (set_next_indices k) s ≡ (ok pub_key, s)
    pub encoded : hd_encode c env.hd net pub_key ≡ ok address
    pub accepted : refuses_address env.new_address_id (hd_params address) db ≡ false

  -- The tables with the next indices.
  abbrev pub with_indices : Db → CryptoDatum → Db
  with_indices db cd = t.put_rows db (update (has_hd_id (t.link cd)) set_next_indices (t.rows db))

  -- The tables afterwards: the next indices, and the new address, which is occupied.
  abbrev pub with_address : Db → CryptoDatum → String → Db
  with_address db cd address = record (with_indices db cd) {
    crypto_addresses =
        db.crypto_addresses ++ new_crypto_address env.new_address_id (hd_params address) ∷ [];
  }

  -- The steps that the handlers share, from the end.
  abbrev from_key : NetworkType → String → Query CryptoAddress
  from_key net pub_key = do
    address ← of_result (hd_encode c env.hd net pub_key)
    new_occupied env (kind_coin (hd_kind c)) arg.user_id address

  abbrev from_keys : NetworkType → HdCryptoDatum → Query CryptoAddress
  from_keys net keys = do pub_key ← derive_pub_key env.hd keys; from_key net pub_key

  abbrev from_datum : NetworkType → CryptoDatum → Query CryptoAddress
  from_datum net cd = do
    keys ← query (find_keys_and_incremented_indices_hd t (t.link cd))
    from_keys net keys

  abbrev from_network : NetworkType → Query CryptoAddress
  from_network net = do cd ← query (find_crypto_data_by_user_id arg.user_id); from_datum net cd

  abbrev pub shared_steps : Query CryptoAddress
  shared_steps = do net ← of_result (hd_net c arg.network); from_network net

  module _ (db : Db) (cd : CryptoDatum) (k : HdCryptoDatum) (pub_key address : String)
      (d : Derives db cd k pub_key address) where
    abbrev k' : HdCryptoDatum
    k' = set_next_indices k

    user_found : query (find_crypto_data_by_user_id arg.user_id) (live db) ≡ (ok cd, live db)
    user_found = ground (arith, d.user)

    keys_found :
        query (find_keys_and_incremented_indices_hd t (t.link cd)) (live db)
        ≡ (ok k', live (with_indices db cd))
    keys_found = ground (arith, d.keys, d.room)

    occupied :
        new_occupied env (kind_coin (hd_kind c)) arg.user_id address (live (with_indices db cd)) ≡ (
          ok (new_crypto_address env.new_address_id (hd_params address)),
          live (with_address db cd address),
        )
    occupied = ground (
      arith,
      d.accepted,
      put_rows-others c db (update (has_hd_id (t.link cd)) set_next_indices (t.rows db)),
    )

    pub shared_steps_lem : shared_steps (live db) ≡ (
      ok (new_crypto_address env.new_address_id (hd_params address)),
      live (with_address db cd address),
    )
    shared_steps_lem =
        bind_ok (of_result (hd_net c arg.network)) from_network (live db) (live db) d.net
          (ap (λ r. (r, live db)) d.network)
        ∙ bind_ok (query (find_crypto_data_by_user_id arg.user_id)) (from_datum d.net) (live db)
            (live db) cd user_found
        ∙ bind_ok (query (find_keys_and_incremented_indices_hd t (t.link cd))) (from_keys d.net)
            (live db) (live (with_indices db cd)) k' keys_found
        ∙ bind_ok (derive_pub_key env.hd k') (from_key d.net) (live (with_indices db cd))
            (live (with_indices db cd)) pub_key (d.derived (live (with_indices db cd)))
        ∙ bind_ok (of_result (hd_encode c env.hd d.net pub_key))
            (new_occupied env (kind_coin (hd_kind c)) arg.user_id) (live (with_indices db cd))
            (live (with_indices db cd)) address (ap (λ r. (r, live (with_indices db cd))) d.encoded)
        ∙ occupied

abbrev pub hd_generator : HdCoin → NetworkType → Generator
hd_generator c net = kind_generator (hd_kind c) net

abbrev pub asks_for : NetworkType → Uuid → GenerateNextAddressHandlerData
asks_for net user = record { user_id = some user; network = net }

pub network-hd_generator : (c : HdCoin) (net : NetworkType) → (hd_generator c net).network ≡ net
network-hd_generator hd_btc net = refl
network-hd_generator hd_ltc net = refl
network-hd_generator hd_eth net = refl
network-hd_generator hd_bnb net = refl

-- Each handler goes through the shared steps.
pub generate_next_address-shared_steps :
    (c : HdCoin) (net : NetworkType) (env : AddressEnv) (arg : GenerateNextAddressHandlerData)
    (s : Session)
    → (hd_generator c net).generate_next_address env arg s ≡ shared_steps c env arg s
unfolding generate_next_btc_address_handler generate_next_ltc_address_handler
    generate_next_eth_address_handler generate_next_bnb_address_handler
generate_next_address-shared_steps hd_btc net env arg s = refl
generate_next_address-shared_steps hd_ltc net env arg s = refl
generate_next_address-shared_steps hd_eth net env arg s = refl
generate_next_address-shared_steps hd_bnb net env arg s = refl
