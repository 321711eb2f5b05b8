-- ===== src/Processor/Configured.antt =====
-- Which processors run, and for what (internal/processor/main.go and the constructors beside it).
use goipay.Base.{
  ℕ, ◌%◌, ◌^◌, ◌≡◌, refl, ap, ◌∙◌, Bool, true, false, not, List, [], ◌∷◌, map, select, exists, ◌==◌,
  All, str_eq, Bool-cases, inl, inr, arith,
}
use goipay.Error.{Result, ok, err, is_ok}
use goipay.Coin.{CoinType}
use goipay.Listener.Tx.{EthClient, ◌>>=◌}
use goipay.Listener.Network.{
  NetworkType, is_btc, is_ltc, is_eth, btc_get_network_type, ltc_get_network_type,
  eth_get_network_type, bnb_get_network_type, xmr_get_network_type,
}
use goipay.Listener.Client.{xmr_client, btc_client, ltc_client, eth_client, bnb_client}
use goipay.Processor.Manager.{Kind, kind_coin}
use goipay.Processor.SetUp.{
  DaemonsConfig, Dialer, CryptoProcessor, new_base_crypto_processor, new_processor, kind_url,
  set_up, all_kinds, new_payment_processor,
}

abbrev pub is_xmr : NetworkType → Bool
is_xmr NetworkType.mainnet_xmr = true
is_xmr NetworkType.stagenet_xmr = true
is_xmr NetworkType.testnet_xmr = true
is_xmr _ = false

abbrev pub is_bnb : NetworkType → Bool
is_bnb NetworkType.mainnet_bnb = true
is_bnb NetworkType.testnet_bnb = true
is_bnb NetworkType.private_bnb = true
is_bnb _ = false

-- The networks that a processor may run on: those of its coin, and for BNB also the invalid one.
abbrev pub is_network_of : Kind → NetworkType → Bool
is_network_of Kind.xmr n = is_xmr n
is_network_of Kind.btc n = is_btc n
is_network_of Kind.ltc n = is_ltc n
is_network_of Kind.eth n = is_eth n
is_network_of Kind.bnb NetworkType.invalid = true
is_network_of Kind.bnb n = is_bnb n

-- A processor has the coin of its kind, and a network of it.
abbrev pub IsConsistent : CryptoProcessor → Type 0
IsConsistent p = (p.coin ≡ kind_coin p.kind) × (is_network_of p.kind p.network ≡ true)

abbrev pub known_chain_ids : List ℕ
known_chain_ids = 1 ∷ 5 ∷ 11155111 ∷ 1337 ∷ 56 ∷ 97 ∷ 714 ∷ []

abbrev Makes : Kind → Result CryptoProcessor → Type 0
Makes k (err e) = Unit
Makes k (ok p) = (p.kind ≡ k) × IsConsistent p

module _ (lib : Dialer) (c : DaemonsConfig) where
  new_processor-Makes : (k : Kind) → Makes k (new_processor lib c k)
  unfolding new_base_crypto_processor xmr_client btc_client ltc_client eth_client bnb_client
      btc_get_network_type ltc_get_network_type eth_get_network_type bnb_get_network_type
      xmr_get_network_type
  new_processor-Makes Kind.xmr = ground arith
  new_processor-Makes Kind.btc = ground arith
  new_processor-Makes Kind.ltc = ground arith
  new_processor-Makes Kind.eth = ground arith
  new_processor-Makes Kind.bnb = ground arith

  abbrev pub is_configured : Kind → Bool
  is_configured k = not (str_eq (kind_url lib c k) "")

  -- What comes of setting up the kinds in the list.
  abbrev pub SetUpOf : List Kind → Result (List CryptoProcessor) → Type 0
  SetUpOf ks (ok ps) = (map (λ p. p.kind) ps ≡ select is_configured ks) × All IsConsistent ps
  SetUpOf ks (err e) = (k : Kind) × (is_configured k ≡ true) × (new_processor lib c k ≡ err e)

  one_more :
      (k : Kind) (ks : List Kind) (r : Result CryptoProcessor) (rs : Result (List CryptoProcessor))
      → is_configured k ≡ true
      → new_processor lib c k ≡ r
      → Makes k r
      → SetUpOf ks rs
      → SetUpOf (k ∷ ks) (r >>= λ p. rs >>= λ ps. ok (p ∷ ps))
  one_more k ks (err e) rs h made m s = (k, h, made)
  one_more k ks (ok p) (err e) h made m s = s
  one_more k ks (ok p) (ok ps) h made m s =
      (rw h (ap (λ j. j ∷ map (λ q. q.kind) ps) m.0 ∙ ap (λ js. k ∷ js) s.0), (m.1, s.1))

  none_more :
      (k : Kind) (ks : List Kind) (rs : Result (List CryptoProcessor))
      → is_configured k ≡ false
      → SetUpOf ks rs
      → SetUpOf (k ∷ ks) rs
  none_more k ks (err e) h s = s
  none_more k ks (ok ps) h s = rw h s

  set_up_lem : (ks : List Kind) → SetUpOf ks (set_up lib c ks)
  unfolding set_up
  set_up_lem [] = (refl, tt)
  set_up_lem (k ∷ ks) = elim (Bool-cases (str_eq (kind_url lib c k) "")) [
    | inl blank ↦
        rw (blank, set_up) (none_more k ks (set_up lib c ks) (ap not blank) (set_up_lem ks))
    | inr given ↦
        rw (given, set_up)
          (one_more k ks (new_processor lib c k) (set_up lib c ks) (ap not given) refl
            (new_processor-Makes k) (set_up_lem ks))
  ]

  -- Where `NewPaymentProcessor` sets the processors up, they are those of the coins whose daemon has
  -- an URL in the configuration, each once and no other, and each has its own coin and a network of
  -- that coin, BNB also the invalid one; an error is that of a configured coin's constructor.
  pub new_payment_processor_lem : SetUpOf all_kinds (new_payment_processor lib c)
  unfolding new_payment_processor
  new_payment_processor_lem = set_up_lem all_kinds

  -- A node of a chain whose id has unknown low 64 bits is refused as an Ethereum daemon; as a BNB daemon it gives a
  -- processor that runs, with the invalid network.
  pub new_processor_unknown_chain :
      (client : EthClient) (n : ℕ)
      → lib.dial_eth c.eth.url ≡ ok client
      → lib.dial_eth c.bnb.url ≡ ok client
      → client.network_id ≡ ok n
      → exists (λ m. n % 2 ^ 64 == m) known_chain_ids ≡ false
      → (is_ok (new_processor lib c Kind.eth) ≡ false)
        × (new_processor lib c Kind.bnb
            ≡ ok (record { kind = Kind.bnb; coin = CoinType.bnb; network = NetworkType.invalid }))
  unfolding new_base_crypto_processor eth_client bnb_client eth_get_network_type
      bnb_get_network_type
  new_processor_unknown_chain client n e b id unknown = (ground arith, ground arith)
