-- ===== src/Tests/Startup.antt =====
-- A configuration with two daemons, and a server that asks its clients for certificates.
use goipay.Coin.{CoinType}
use goipay.Listener.Network.{NetworkType}
use goipay.Processor.Manager.{Kind}
use goipay.Base.{◌≡◌, refl, false, String, true, [], ◌∷◌}
use goipay.Error.{Error, ok, err, is_ok}
use goipay.Listener.Tx.{EthClient}
use goipay.Processor.SetUp.{
  DaemonConfig, DaemonsConfig, Dialer, all_kinds, new_processor, new_payment_processor,
}
use goipay.Processor.Configured.{SetUpOf, new_payment_processor_lem, new_processor_unknown_chain}
use goipay.App.Config.{AppConfigDaemon, AppConfig, CliOpts}
use goipay.App.Credentials.{CertLib}

abbrev node : EthClient
node = record {
  block_number = ok 100;
  transaction_by_hash = λ h. err Error.daemon;
  transaction_receipt = λ h. err Error.daemon;
  block_by_number = λ n. ok [];
  network_id = ok 12345;
}

abbrev dialer : Dialer
dialer = record {
  parse_url = λ u. err Error.external;
  new_rpc = λ c. err Error.daemon;
  new_ltc_rpc = λ c. err Error.daemon;
  dial_eth = λ u. ok node;
  new_xmr = λ u n p. record {
    get_last_block_header = err Error.daemon;
    get_block_by_height = λ n. err Error.daemon;
    get_transaction_pool = err Error.daemon;
    get_transactions = λ hs. err Error.daemon;
    get_info = err Error.daemon;
  };
}

abbrev at : String → DaemonConfig
at u = record { url = u; user = ""; pass = "" }

abbrev config : DaemonsConfig
config = record { xmr = at ""; btc = at ""; ltc = at ""; eth = at ""; bnb = at "http://bnb" }

new_payment_processor_lem_example :
    SetUpOf dialer config all_kinds (new_payment_processor dialer config)
new_payment_processor_lem_example = new_payment_processor_lem dialer config

new_processor_unknown_chain_example :
    (is_ok (new_processor dialer config Kind.eth) ≡ false)
    × (new_processor dialer config Kind.bnb
        ≡ ok (record { kind = Kind.bnb; coin = CoinType.bnb; network = NetworkType.invalid }))
new_processor_unknown_chain_example =
    new_processor_unknown_chain dialer config node 12345 refl refl refl refl

-- Every file holds certificates.
abbrev certs : CertLib
certs = record {
  load_x509_key_pair = λ c k. ok "cert";
  read_file = ok;
  append_certs_from_pem = λ t. true;
  trim_space = λ s. s;
  split_commas = λ s. s ∷ [];
}

abbrev no_daemon : AppConfigDaemon
no_daemon = record { url = ""; user = ""; pass = "" }

abbrev mtls_config : AppConfig
mtls_config = record {
  server = record {
    host = "";
    port = "50051";
    tls = record { mode = "mtls"; ca = "ca.crt"; cert = "server.crt"; key = "server.key" };
  };
  database = record { host = "db"; port = "5432"; user = "u"; pass = "p"; name = "goipay" };
  coin = record {
    xmr = no_daemon;
    btc = no_daemon;
    ltc = no_daemon;
    eth = no_daemon;
    bnb = no_daemon;
  };
}

abbrev opts : CliOpts
opts = record {
  config_path = "config.yml";
  client_ca_paths = "clients.crt";
  reflection_enabled = false;
}
