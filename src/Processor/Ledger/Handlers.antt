-- ===== src/Processor/Ledger/Handlers.antt =====
-- The coins' own handlers of internal/processor (btc.go, ltc.go, eth.go, bnb.go, xmr.go) and
-- `createInvoice` (base.go) on the ledger of invoices.
use goipay.Base.{◌≡◌, refl, String, true, List, find, exists, sym, subst}
use goipay.Error.{Result}
use goipay.Coin.{CoinType}
use goipay.Db.Models.{
  Uuid, PgUuid, Invoice, CryptoAddress, HdCryptoDatum, CryptoDatum, XmrCryptoDatum, Db,
}
use goipay.Db.Session.{Query, Outcome, row, of_result, query, ◌>>=◌ as ◌>>=query◌}
use goipay.Db.Statements.{map_row}
use goipay.Db.Addresses.{
  create_crypto_address, refuses_address, new_crypto_address, CreateCryptoAddressParams,
}
use goipay.Db.CryptoData.{
  HdTable, btc_table, ltc_table, eth_table, bnb_table, indices_overflow, set_next_indices,
  has_hd_id, has_user, find_crypto_data_by_user_id, find_keys_and_incremented_indices_hd,
}
use goipay.Db.XmrData.{
  xmr_indices_overflow, set_next_xmr_indices, has_xmr_id,
  find_keys_and_incremented_indices_xmr_crypto_data_by_id,
}
use goipay.Db.Ledger.{Evolved, evolved_refl}
use goipay.Db.Ledger.Queries.{
  Keeps, Writes, bind-Keeps, query-Keeps, of_result-Keeps, unless-Writes, returning-Writes,
}
use goipay.Processor.Address.{
  AddressEnv, HdLib, GenerateNextAddressHandlerData, btc_net, ltc_net, xmr_net,
  generate_next_btc_address_handler, generate_next_ltc_address_handler,
  generate_next_eth_address_handler, generate_next_bnb_address_handler,
  generate_next_xmr_address_handler,
}

same-Evolved : (rs qs : List Invoice) → qs ≡ rs → Evolved rs qs
same-Evolved rs qs e = subst (λ x. Evolved rs x) (sym e) (evolved_refl rs)

-- A handler together with the proof that it keeps to the ledger; such handlers chain like the
-- handlers themselves.
abbrev pub Kept : Type 0 → Type 0
Kept A = (m : Query A) × Keeps m

infixl 5 ◌>>=◌
abbrev pub ◌>>=◌ : {A B : Type 0} → Kept A → (A → Kept B) → Kept B
◌>>=◌ (m, k) f = (m >>=query λ a. (f a).0, bind-Keeps m (λ a. (f a).0) k (λ a. (f a).1))

abbrev pub statement : {A : Type 0} (f : Db → Outcome A) → ((db : Db) → Writes db (f db)) → Kept A
statement f w = (query f, query-Keeps f w)

abbrev pub known : {A : Type 0} → Result A → Kept A
known r = (of_result r, of_result-Keeps r)

abbrev read_crypto_data : PgUuid → Kept CryptoDatum
read_crypto_data user =
    statement (find_crypto_data_by_user_id user) (λ db.
      returning-Writes (find (has_user user) db.crypto_data) db db (evolved_refl db.invoices))

-- The tables of master public keys, of which none is the table of invoices.
abbrev SparesInvoices : HdTable → Type 0
SparesInvoices t =
    (db : Db) (rows : List HdCryptoDatum) → (t.put_rows db rows).invoices ≡ db.invoices

next_indices-Writes :
    (t : HdTable) (id : PgUuid) (db : Db)
    → SparesInvoices t
    → Writes db (find_keys_and_incremented_indices_hd t id db)
next_indices-Writes t id db spares = unless-Writes (exists (indices_overflow id) (t.rows db)) db _ (
    returning-Writes (map_row set_next_indices (find (has_hd_id id) (t.rows db))) db _
      (same-Evolved _ _ (spares db _)))

abbrev next_indices : (t : HdTable) → PgUuid → SparesInvoices t → Kept HdCryptoDatum
next_indices t id spares =
    statement (find_keys_and_incremented_indices_hd t id) (λ db. next_indices-Writes t id db spares)

next_xmr_indices-Writes :
    (id : PgUuid) (db : Db)
    → Writes db (find_keys_and_incremented_indices_xmr_crypto_data_by_id id db)
next_xmr_indices-Writes id db =
    unless-Writes (exists (xmr_indices_overflow id) db.xmr_crypto_data) db _ (
      returning-Writes (map_row set_next_xmr_indices (find (has_xmr_id id) db.xmr_crypto_data)) db _
        (evolved_refl db.invoices))

abbrev next_xmr_indices : PgUuid → Kept XmrCryptoDatum
next_xmr_indices id =
    statement (find_keys_and_incremented_indices_xmr_crypto_data_by_id id)
      (next_xmr_indices-Writes id)

create_crypto_address-Writes :
    (id : Uuid) (arg : CreateCryptoAddressParams) (db : Db)
    → Writes db (create_crypto_address id arg db)
create_crypto_address-Writes id arg db =
    unless-Writes (refuses_address id arg db) db (row (new_crypto_address id arg) _)
      (evolved_refl db.invoices)

abbrev occupied : AddressEnv → CoinType → PgUuid → String → Kept CryptoAddress
occupied env coin user address =
    let arg : CreateCryptoAddressParams = record {
      address = address;
      coin = coin;
      is_occupied = true;
      user_id = user;
    } in
    statement (create_crypto_address env.new_address_id arg)
      (create_crypto_address-Writes env.new_address_id arg)

abbrev derived : HdLib → HdCryptoDatum → Kept String
derived hd k = do
  m ← known (hd.new_key_from_string k.master_pub_key)
  major ← known (hd.derive m k.last_major_index)
  minor ← known (hd.derive major k.last_minor_index)
  known (hd.ec_pub_key minor)

-- None of the coins' handlers for new addresses writes an invoice.
module _ (env : AddressEnv) (arg : GenerateNextAddressHandlerData) where
  abbrev btc_kept : Kept CryptoAddress
  btc_kept = do
    net ← known (btc_net arg.network)
    cd ← read_crypto_data arg.user_id
    keys ← next_indices btc_table cd.btc_id (λ db rows. refl)
    pub_key ← derived env.hd keys
    address ← known (env.hd.witness_address net pub_key)
    occupied env CoinType.btc arg.user_id address

  pub generate_next_btc_address_handler-Keeps : Keeps (generate_next_btc_address_handler env arg)
  unfolding generate_next_btc_address_handler
  generate_next_btc_address_handler-Keeps = btc_kept.1

  abbrev ltc_kept : Kept CryptoAddress
  ltc_kept = do
    net ← known (ltc_net arg.network)
    cd ← read_crypto_data arg.user_id
    keys ← next_indices ltc_table cd.ltc_id (λ db rows. refl)
    pub_key ← derived env.hd keys
    address ← known (env.hd.witness_address net pub_key)
    occupied env CoinType.ltc arg.user_id address

  pub generate_next_ltc_address_handler-Keeps : Keeps (generate_next_ltc_address_handler env arg)
  unfolding generate_next_ltc_address_handler
  generate_next_ltc_address_handler-Keeps = ltc_kept.1

  abbrev eth_kept : Kept CryptoAddress
  eth_kept = do
    cd ← read_crypto_data arg.user_id
    keys ← next_indices eth_table cd.eth_id (λ db rows. refl)
    pub_key ← derived env.hd keys
    occupied env CoinType.eth arg.user_id (env.hd.pubkey_to_address pub_key)

  pub generate_next_eth_address_handler-Keeps : Keeps (generate_next_eth_address_handler env arg)
  unfolding generate_next_eth_address_handler
  generate_next_eth_address_handler-Keeps = eth_kept.1

  abbrev bnb_kept : Kept CryptoAddress
  bnb_kept = do
    cd ← read_crypto_data arg.user_id
    keys ← next_indices bnb_table cd.bnb_id (λ db rows. refl)
    pub_key ← derived env.hd keys
    occupied env CoinType.bnb arg.user_id (env.hd.pubkey_to_address pub_key)

  pub generate_next_bnb_address_handler-Keeps : Keeps (generate_next_bnb_address_handler env arg)
  unfolding generate_next_bnb_address_handler
  generate_next_bnb_address_handler-Keeps = bnb_kept.1

  abbrev xmr_kept : Kept CryptoAddress
  xmr_kept = do
    net ← known (xmr_net arg.network)
    cd ← read_crypto_data arg.user_id
    keys ← next_xmr_indices cd.xmr_id
    view ← known (env.xmr.new_private_key keys.priv_view_key)
    spend ← known (env.xmr.new_public_key keys.pub_spend_key)
    address ←
        known
          (env.xmr.generate_subaddress view spend keys.last_major_index keys.last_minor_index net)
    occupied env CoinType.xmr arg.user_id address

  pub generate_next_xmr_address_handler-Keeps : Keeps (generate_next_xmr_address_handler env arg)
  unfolding generate_next_xmr_address_handler
  generate_next_xmr_address_handler-Keeps = xmr_kept.1
