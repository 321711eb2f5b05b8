-- ===== src/App/Start.antt =====
-- `NewApp` and `App.Start` (internal/app/app.go). `log.Fatal` ends the program: the result is `none`
-- there.
use goipay.Base.{String, Option, none, some, List, append_str, ℕ}
use goipay.Error.{Result, ok, err}
use goipay.Db.Session.{⊤}
use goipay.Db.Models.{Invoice}
use goipay.Processor.SetUp.{Dialer, CryptoProcessor}
use goipay.Processor.Load.{new_loaded_payment_processor}
use goipay.App.Config.{
  AppConfigDatabase, AppConfig, CliOpts, ConfigLib, new_app_config, app_config_to_daemons_config,
}
use goipay.App.Credentials.{TlsConfig, CertLib, get_grpc_credentials}

pub record App : Type 0 where
  pub config : AppConfig
  pub opts : CliOpts
  pub payment_processor : List CryptoProcessor

infixr 6 ◌&◌
abbrev ◌&◌ : String → String → String
a & b = append_str a b

-- `fmt.Sprintf("postgresql://%v:%v@%v:%v/%v", …)`
abbrev pub db_url : AppConfigDatabase → String
db_url d = "postgresql://" & d.user & ":" & d.pass & "@" & d.host & ":" & d.port & "/" & d.name

abbrev fatal {ℓ κ} : {A : Type ℓ} {B : Type κ} → Result A → (A → Option B) → Option B
fatal (err _) k = none
fatal (ok a) k = k a

-- `NewApp`; `new_pool` is `pgxpool.New`, `persisted` what `loadPersistedPendingInvoices` gives, and
-- `load_one` a processor's `load`.
unfoldable pub new_app :
    ConfigLib
    → (String → Result ⊤)
    → Dialer
    → Result (List Invoice)
    → (CryptoProcessor → Result ℕ)
    → CliOpts
    → Option App
unfolding new_app_config app_config_to_daemons_config new_loaded_payment_processor
new_app lib new_pool dialer persisted load_one opts =
    fatal (new_app_config lib opts.config_path) λ conf. fatal (new_pool (db_url conf.database)) λ _.
      fatal
        (new_loaded_payment_processor dialer (app_config_to_daemons_config conf) persisted load_one)
        λ ps. some (record { config = conf; opts = opts; payment_processor = ps })

-- `grpc_health_v1.HealthCheckResponse_ServingStatus`, as far as it is set.
pub data ServingStatus : Type 0 where
  unknown serving not_serving : ServingStatus

-- The status that each round of the health check sets, by its ping of the database.
unfoldable pub health_status : Result ⊤ → ServingStatus
health_status (ok _) = ServingStatus.serving
health_status (err _) = ServingStatus.not_serving

-- What `select` meets at the end of `Start`: the server ends by itself, or the context does.
pub data Ended : Type 0 where
  serve_ended : Result ⊤ → Ended
  interrupted : Ended

abbrev pub ended : Ended → Result ⊤
ended (serve_ended r) = r
ended interrupted = ok tt

abbrev pub with_server : Option (Option TlsConfig) → Ended → Option (Result ⊤)
with_server none e = none
with_server (some _) e = some (ended e)

-- `Start`: the ping of the database, the socket, and the server with its credentials.
unfoldable pub start : CertLib → Result ⊤ → (String → Result ⊤) → Ended → App → Option (Result ⊤)
unfolding get_grpc_credentials
start lib ping listen e a = elim ping [
  | err x ↦ some (err x)
  | ok _ ↦ elim (listen (a.config.server.host & ":" & a.config.server.port)) [
    | err x ↦ some (err x)
    | ok _ ↦ with_server (get_grpc_credentials lib a.config a.opts) e
  ]
]
