-- ===== src/App/Config.antt =====
-- `AppConfig` (internal/app/app.go): how it is read, and what of it the payment processor gets.
use goipay.Base.{String, Bool, if◌then◌else◌, str_eq}
use goipay.Error.{Result, ok}
use goipay.Listener.Tx.{◌>>=◌}
use goipay.Processor.SetUp.{DaemonConfig, DaemonsConfig}

pub record AppConfigDaemon : Type 0 where
  pub url : String
  pub user : String
  pub pass : String

pub record AppConfigTls : Type 0 where
  pub mode : String
  pub ca : String
  pub cert : String
  pub key : String

pub record AppConfigServer : Type 0 where
  pub host : String
  pub port : String
  pub tls : AppConfigTls

pub record AppConfigDatabase : Type 0 where
  pub host : String
  pub port : String
  pub user : String
  pub pass : String
  pub name : String

pub record AppConfigCoin : Type 0 where
  pub xmr : AppConfigDaemon
  pub btc : AppConfigDaemon
  pub ltc : AppConfigDaemon
  pub eth : AppConfigDaemon
  pub bnb : AppConfigDaemon

pub record AppConfig : Type 0 where
  pub server : AppConfigServer
  pub database : AppConfigDatabase
  pub coin : AppConfigCoin

-- `CliOpts`
pub record CliOpts : Type 0 where
  pub config_path : String
  pub client_ca_paths : String
  pub reflection_enabled : Bool

-- `os.ReadFile`, `yaml.Unmarshal` into an empty configuration, and `os.ExpandEnv`
pub record ConfigLib : Type 0 where
  pub read_file : String → Result String
  pub unmarshal : String → Result AppConfig
  pub expand_env : String → String

module _ (expand : String → String) where
  abbrev pub expand_daemon : AppConfigDaemon → AppConfigDaemon
  expand_daemon d = record { url = expand d.url; user = expand d.user; pass = expand d.pass }

  -- The assignments of `NewAppConfig`, field by field.
  unfoldable pub expand_config : AppConfig → AppConfig
  expand_config c = record {
    server = record {
      host = expand c.server.host;
      port = expand c.server.port;
      tls = record {
        mode = expand c.server.tls.mode;
        ca = expand c.server.tls.ca;
        cert = expand c.server.tls.cert;
        key = expand c.server.tls.key;
      };
    };
    database = record {
      host = expand c.database.host;
      port = expand c.database.port;
      user = expand c.database.user;
      pass = expand c.database.pass;
      name = expand c.database.name;
    };
    coin = record {
      xmr = expand_daemon c.coin.xmr;
      btc = expand_daemon c.coin.btc;
      ltc = expand_daemon c.coin.ltc;
      eth = expand_daemon c.coin.eth;
      bnb = expand_daemon c.coin.bnb;
    };
  }

-- `NewAppConfig`
unfoldable pub new_app_config : ConfigLib → String → Result AppConfig
unfolding expand_config
new_app_config lib path = do
  text ← lib.read_file path
  conf ← lib.unmarshal text
  ok (expand_config lib.expand_env conf)

abbrev pub daemon_config : AppConfigDaemon → DaemonConfig
daemon_config c = record { url = c.url; user = c.user; pass = c.pass }

-- `appConfigToDaemonsConfig`
unfoldable pub app_config_to_daemons_config : AppConfig → DaemonsConfig
app_config_to_daemons_config c = record {
  xmr = daemon_config c.coin.xmr;
  btc = daemon_config c.coin.btc;
  ltc = daemon_config c.coin.ltc;
  eth = daemon_config c.coin.eth;
  bnb = daemon_config c.coin.bnb;
}

-- `util.GetOptionOrEnvValue`
unfoldable pub get_option_or_env_value : (String → String) → String → String → String
get_option_or_env_value getenv env opt = if str_eq opt "" then getenv env else opt
