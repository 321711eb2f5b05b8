-- ===== src/Processor/Derived.antt =====
-- `createInvoice` where the user has no free address (internal/processor/base.go): the next address
-- is derived from the master public key of the user.
use goipay.Base.{
  ◌≡◌, ap, ◌∙◌, String, true, false, none, some, [], ◌∷◌, ◌++◌, arith, exists, find, update,
}
use goipay.Error.{Error, ok, err}
use goipay.Coin.{CoinType}
use goipay.Db.Models.{Uuid, eq_uuid, CryptoDatum, HdCryptoDatum, Db}
use goipay.Db.Session.{live, query}
use goipay.Db.Addresses.{
  find_non_occupied_crypto_address_and_lock_by_user_id_and_coin, is_free, new_crypto_address,
}
use goipay.Db.CryptoData.{has_hd_id, set_next_indices}
use goipay.Listener.Network.{NetworkType}
use goipay.Processor.Create.{NewInvoiceRequest, CreateEnv, take_address, on_no_rows, create_invoice}
use goipay.Processor.Created.{created}
use goipay.Processor.Manager.{kind_coin}
use goipay.Processor.HdAddress.{
  network-hd_generator, HdCoin, hd_kind, hd_table, Derives, hd_params, with_address, hd_generator,
  asks_for, shared_steps_lem, generate_next_address-shared_steps, put_rows-others,
}

module _ (c : HdCoin) (env : CreateEnv) (req : NewInvoiceRequest) (net : NetworkType) where
  abbrev coin : CoinType
  coin = kind_coin (hd_kind c)

  -- The user has no free address for the coin, and the database takes the invoice.
  pub record HasNone (db : Db) (user : Uuid) : Type 0 where
    pub parsed : env.parse_uuid req.user_id ≡ some user
    pub asked : req.coin ≡ coin
    pub none_free : find (is_free (some user) coin env.locked) db.crypto_addresses ≡ none
    pub new_id : exists (λ i. eq_uuid i.id (some env.new_invoice_id)) db.invoices ≡ false
    pub known : exists (eq_uuid (some user)) db.users ≡ true

  module _ (db : Db) (user : Uuid) (cd : CryptoDatum) (k : HdCryptoDatum) (pub_key address : String)
      (h : HasNone db user)
      (d : Derives c env.addresses (asks_for net user) db cd k pub_key address) where
    abbrev db' : Db
    db' = with_address c env.addresses (asks_for net user) db cd address

    none_found :
        query
          (find_non_occupied_crypto_address_and_lock_by_user_id_and_coin
            (some user)
            coin
            env.locked)
          (live db)
        ≡ (err Error.no_rows, live db)
    none_found = ground (arith, h.none_free)

    generated :
        (hd_generator c net).generate_next_address env.addresses (asks_for net user) (live db) ≡ (
          ok (
              new_crypto_address env.addresses.new_address_id
                (hd_params c env.addresses (asks_for net user) address)),
          live db',
        )
    generated =
        generate_next_address-shared_steps c net env.addresses (asks_for net user) (live db)
        ∙ shared_steps_lem c env.addresses (asks_for net user) db cd k pub_key address d

    address_taken : take_address env (hd_generator c net) (some user) coin (live db) ≡ (
      ok (
          new_crypto_address env.addresses.new_address_id
            (hd_params c env.addresses (asks_for net user) address)),
      live db',
    )
    unfolding take_address
    address_taken =
        ap
          (λ r.
            on_no_rows (λ _. r)
              ((hd_generator c net).generate_next_address env.addresses
                (asks_for (hd_generator c net).network user))
              (live db))
          none_found
        ∙ ap
            (λ n.
              (hd_generator c net).generate_next_address env.addresses (asks_for n user) (live db))
            (network-hd_generator c net)
        ∙ generated

    -- Where the user has no free address for Bitcoin, Litecoin, Ethereum or BNB, but keys with an
    -- index left of which the libraries make an address, the tables take that address and the
    -- invoice, and the database is reached, the call returns a PENDING invoice for the address that is
    -- derived with the next indices of the user's key: the indices are written, the address is new and
    -- occupied, and the invoice stands at the end of its table. No other row changes.
    pub create_invoice_derived : create_invoice env [] (hd_generator c net) req db ≡ (
      ok (created env (hd_generator c net) req user address),
      record db' {
        invoices = db.invoices ++ created env (hd_generator c net) req user address ∷ [];
      },
    )
    unfolding create_invoice
    create_invoice_derived = ground (
      arith,
      address_taken,
      h.parsed,
      h.asked,
      h.new_id,
      h.known,
      put_rows-others c db
          (update (has_hd_id ((hd_table c).link cd)) set_next_indices ((hd_table c).rows db)),
    )
