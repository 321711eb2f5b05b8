-- ===== src/App/Main.antt =====
-- `main` (cmd/server/main.go): the flags, the level of the logger, and how the program ends.
use goipay.Base.{String, Bool, Option, none, some, List, str_eq, if◌then◌else◌, ℕ}
use goipay.Error.{Result, ok, err}
use goipay.Db.Session.{⊤}
use goipay.Db.Models.{Invoice}
use goipay.Processor.SetUp.{Dialer, CryptoProcessor}
use goipay.App.Config.{CliOpts, ConfigLib, get_option_or_env_value}
use goipay.App.Credentials.{CertLib}
use goipay.App.Start.{App, Ended, new_app, start}

-- `flag.Parse()`, with the defaults that a flag has that is not given.
pub record Flags : Type 0 where
  pub config : Option String
  pub client_ca : Option String
  pub reflection : Option Bool
  pub log_level : Option String

abbrev pub or_default {ℓ} : {A : Type ℓ} → A → Option A → A
or_default d none = d
or_default d (some a) = a

-- `zerolog.Level`, as far as `main` sets it.
pub data Level : Type 0 where
  debug_level info_level warn_level error_level fatal_level panic_level : Level

abbrev pub level_of_text : String → Option Level
level_of_text s =
    if str_eq s "debug"
    then some debug_level
    else if str_eq s "info"
    then some info_level
    else if str_eq s "warn"
    then some warn_level
    else if str_eq s "error"
    then some error_level
    else if str_eq s "fatal"
    then some fatal_level
    else if str_eq s "panic"
    then some panic_level
    else none

-- The level that `main` sets; a text that names none leaves the level alone.
unfoldable pub log_level : (String → String) → Flags → Option Level
unfolding get_option_or_env_value
log_level getenv f =
    level_of_text (get_option_or_env_value getenv "LOG_LEVEL" (or_default "" f.log_level))

abbrev pub cli_opts : Flags → CliOpts
cli_opts f = record {
  config_path = or_default "config.yml" f.config;
  client_ca_paths = or_default "" f.client_ca;
  reflection_enabled = or_default Bool.false f.reflection;
}

abbrev started : CertLib → Result ⊤ → (String → Result ⊤) → Ended → Option App → Option (Result ⊤)
started certs ping listen e none = none
started certs ping listen e (some a) = start certs ping listen e a

-- `log.Fatal(err)`: the program fails.
abbrev succeeds : Option (Result ⊤) → Bool
succeeds none = Bool.false
succeeds (some (err _)) = Bool.false
succeeds (some (ok _)) = Bool.true

-- `main`: whether the program ends well.
unfoldable pub main :
    ConfigLib
    → (String → Result ⊤)
    → Dialer
    → Result (List Invoice)
    → (CryptoProcessor → Result ℕ)
    → CertLib
    → Result ⊤
    → (String → Result ⊤)
    → Ended
    → Flags
    → Bool
unfolding new_app start
main lib new_pool dialer persisted load_one certs ping listen e f =
    succeeds
      (started certs ping listen e (new_app lib new_pool dialer persisted load_one (cli_opts f)))
