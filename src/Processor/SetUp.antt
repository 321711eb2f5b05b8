-- ===== src/Processor/SetUp.antt =====
-- How a processor is set up: `newBaseCryptoProcessor` (internal/processor/base.go), the constructors
-- of xmr.go, btc.go, ltc.go, eth.go and bnb.go, `NewPaymentProcessor` (main.go), and the
-- configuration that they read (internal/dto/processor.go).
use goipay.Base.{String, Bool, true, false, not, List, [], ◌∷◌, str_eq, append_str}
use goipay.Error.{Result, ok}
use goipay.Coin.{CoinType}
use goipay.Listener.Network.{NetworkType}
use goipay.Listener.Tx.{EthClient, ◌>>=◌}
use goipay.Listener.Client.{
  SharedDaemonRpcClient, RpcClient, XmrRpcClient, xmr_client, btc_client, ltc_client, eth_client,
  bnb_client,
}
use goipay.Processor.Address.{
  generate_next_btc_address_handler, generate_next_ltc_address_handler,
  generate_next_eth_address_handler, generate_next_bnb_address_handler,
  generate_next_xmr_address_handler,
}
use goipay.Processor.Create.{Generator}
use goipay.Processor.Manager.{Kind}

pub record DaemonConfig : Type 0 where
  pub url : String
  pub user : String
  pub pass : String

pub record DaemonsConfig : Type 0 where
  pub xmr : DaemonConfig
  pub btc : DaemonConfig
  pub ltc : DaemonConfig
  pub eth : DaemonConfig
  pub bnb : DaemonConfig

-- `url.URL`, as far as it is read.
pub record Url : Type 0 where
  pub host : String
  pub request_uri : String
  pub scheme : String

-- `rpcclient.ConnConfig`; `HTTPPostMode` is always set.
pub record ConnConfig : Type 0 where
  pub host : String
  pub user : String
  pub pass : String
  pub disable_tls : Bool

-- What the constructors call: the reading of an URL, and the daemons' clients, which connect.
-- `ltcd`'s client is what it answers to `GetBlockChainInfo`.
pub record Dialer : Type 0 where
  pub parse_url : String → Result Url
  pub new_rpc : ConnConfig → Result RpcClient
  pub new_ltc_rpc : ConnConfig → Result (Result String)
  pub dial_eth : String → Result EthClient
  pub new_xmr : Url → String → String → XmrRpcClient

-- A processor that is set up; its handlers and tokens go with its kind.
pub record CryptoProcessor : Type 0 where
  pub kind : Kind
  pub coin : CoinType
  pub network : NetworkType

module _ {T : Type 0} where
  -- `newBaseCryptoProcessor`
  unfoldable pub new_base_crypto_processor : Kind → SharedDaemonRpcClient T → Result CryptoProcessor
  new_base_crypto_processor kind client = do
    net ← client.get_network_type
    ok (record { kind = kind; coin = client.get_coin_type; network = net })

abbrev pub conn_config : Url → DaemonConfig → ConnConfig
conn_config u c = record {
  host = append_str u.host u.request_uri;
  user = c.user;
  pass = c.pass;
  disable_tls = not (str_eq u.scheme "https");
}

abbrev pub all_kinds : List Kind
all_kinds = Kind.xmr ∷ Kind.btc ∷ Kind.ltc ∷ Kind.eth ∷ Kind.bnb ∷ []

module _ (lib : Dialer) (c : DaemonsConfig) where
  -- `newXmrProcessor`
  abbrev pub new_xmr_processor : Result CryptoProcessor
  new_xmr_processor = do
    u ← lib.parse_url c.xmr.url
    new_base_crypto_processor Kind.xmr (xmr_client (lib.new_xmr u c.xmr.user c.xmr.pass))

  -- `newBtcProcessor`
  abbrev pub new_btc_processor : Result CryptoProcessor
  new_btc_processor = do
    u ← lib.parse_url c.btc.url
    client ← lib.new_rpc (conn_config u c.btc)
    new_base_crypto_processor Kind.btc (btc_client client)

  -- `newLtcProcessor`
  abbrev pub new_ltc_processor : Result CryptoProcessor
  new_ltc_processor = do
    u ← lib.parse_url c.ltc.url
    client ← lib.new_rpc (conn_config u c.ltc)
    info ← lib.new_ltc_rpc (conn_config u c.ltc)
    new_base_crypto_processor Kind.ltc (ltc_client client info)

  -- `newEthProcessor`
  abbrev pub new_eth_processor : Result CryptoProcessor
  new_eth_processor = do
    client ← lib.dial_eth c.eth.url
    new_base_crypto_processor Kind.eth (eth_client client)

  -- `newBnbProcessor`
  abbrev pub new_bnb_processor : Result CryptoProcessor
  new_bnb_processor = do
    client ← lib.dial_eth c.bnb.url
    new_base_crypto_processor Kind.bnb (bnb_client client)

  abbrev pub new_processor : Kind → Result CryptoProcessor
  new_processor Kind.xmr = new_xmr_processor
  new_processor Kind.btc = new_btc_processor
  new_processor Kind.ltc = new_ltc_processor
  new_processor Kind.eth = new_eth_processor
  new_processor Kind.bnb = new_bnb_processor

  abbrev pub kind_url : Kind → String
  kind_url Kind.xmr = c.xmr.url
  kind_url Kind.btc = c.btc.url
  kind_url Kind.ltc = c.ltc.url
  kind_url Kind.eth = c.eth.url
  kind_url Kind.bnb = c.bnb.url

  -- A processor for each coin whose daemon is configured; the first that cannot be set up is the
  -- call's error.
  unfoldable pub set_up : List Kind → Result (List CryptoProcessor)
  unfolding new_base_crypto_processor
  set_up [] = ok []
  set_up (k ∷ ks) = elim (str_eq (kind_url k) "") [
    | true ↦ set_up ks
    | false ↦ new_processor k >>= λ p. set_up ks >>= λ ps. ok (p ∷ ps)
  ]

  -- `NewPaymentProcessor`, up to its call of `load`
  unfoldable pub new_payment_processor : Result (List CryptoProcessor)
  unfolding set_up
  new_payment_processor = set_up all_kinds

-- The handler for new addresses that a processor is set up with.
abbrev pub kind_generator : Kind → NetworkType → Generator
kind_generator Kind.xmr net = record {
  network = net;
  generate_next_address = generate_next_xmr_address_handler;
}
kind_generator Kind.btc net = record {
  network = net;
  generate_next_address = generate_next_btc_address_handler;
}
kind_generator Kind.ltc net = record {
  network = net;
  generate_next_address = generate_next_ltc_address_handler;
}
kind_generator Kind.eth net = record {
  network = net;
  generate_next_address = generate_next_eth_address_handler;
}
kind_generator Kind.bnb net = record {
  network = net;
  generate_next_address = generate_next_bnb_address_handler;
}
